-- ===== src/Frost/Round/Defs.antt =====
-- The state of `SigningRound` in frost-signer/src/signing_round.rs, its constructors, `move_to`,
-- and the two tests that end a phase.
use core_eng.Prelude.{ℕ, List, [], Bool, ◌&&◌, Map, length, leb, ◌==◌, if◌then◌else◌}
use core_eng.Prelude.Outcome.{Outcome, ok, err, panic}
use core_eng.Prelude.Exec.{Exec}
use core_eng.Frost.Wsts.{Wsts, Bytes}
use core_eng.Frost.Messages.{PublicKeys}
use core_eng.Frost.States.{
  States, idle, dkg_public_gather, dkg_private_gather, StateMachineError, bad_state_change,
  accepted, is_state,
}

pub data Error : Type 0 where
  invalid_party_id invalid_dkg_public_share : Error
  invalid_dkg_private_shares : List ℕ → Error
  invalid_nonce_response invalid_signature_share : Error
  state_machine_error : StateMachineError → Error

module _ (w : Wsts) where
  open w use {Scalar, PolyCommitment, PublicNonce, FrostSigner, Rng, next}

  pub record Signer : Type 0 where
    pub frost_signer : FrostSigner
    pub signer_id : ℕ

  -- `rng` stands for `OsRng`, which the methods make anew; it is no field of the source.
  pub record SigningRound : Type 0 where
    pub dkg_id : ℕ
    pub dkg_public_id : ℕ
    pub sign_id : ℕ
    pub sign_nonce_id : ℕ
    pub threshold : ℕ
    pub total_signers : ℕ
    pub total_keys : ℕ
    pub signer : Signer
    pub state : States
    pub commitments : Map PolyCommitment
    pub shares : Map (Map Bytes)
    pub public_nonces : List PublicNonce
    pub network_private_key : Scalar
    pub public_keys : PublicKeys w
    pub rng : Rng

  unfoldable pub new :
      ℕ → ℕ → ℕ → ℕ → List ℕ → Scalar → PublicKeys w → Rng → Outcome Error SigningRound
  new threshold total_signers total_keys signer_id key_ids network_private_key public_keys rng =
      if leb threshold total_keys
      then ok (record {
        dkg_id = 0;
        dkg_public_id = 0;
        sign_id = 1;
        sign_nonce_id = 1;
        threshold = threshold;
        total_signers = total_signers;
        total_keys = total_keys;
        signer = record {
          frost_signer = w.new_signer signer_id key_ids total_keys threshold rng;
          signer_id = signer_id;
        };
        state = idle;
        commitments = [];
        shares = [];
        public_nonces = [];
        network_private_key = network_private_key;
        public_keys = public_keys;
        rng = next rng;
      })
      else panic

  unfoldable pub put_state : States → SigningRound → SigningRound
  put_state state s = record s { state = state }

  unfoldable pub move_to : States → Exec SigningRound Error (Unit {0})
  unfolding put_state
  move_to state s =
      if accepted s.state state
      then (ok tt, put_state state s)
      else (err (state_machine_error (bad_state_change s.state state)), s)

  unfoldable pub reset : ℕ → Exec SigningRound Error (Unit {0})
  reset dkg_id s = (
    ok tt,
    record s {
      dkg_id = dkg_id;
      dkg_public_id = 0;
      commitments = [];
      shares = [];
      public_nonces = [];
      signer = record s.signer { frost_signer = w.reset_polys s.signer.frost_signer s.rng };
      rng = next s.rng;
    },
  )

  unfoldable pub public_shares_done : SigningRound → Bool
  public_shares_done s = is_state s.state dkg_public_gather && length s.commitments == s.total_keys

  unfoldable pub can_dkg_end : SigningRound → Bool
  can_dkg_end s =
      is_state s.state dkg_private_gather
      && length s.commitments == s.total_keys
      && length s.shares == s.total_keys
