-- ===== src/Tests/Frost.antt =====
-- frost-signer at concrete inputs: two signers with one key each, number 1 and number 2.
use core_eng.Prelude.{
  ℕ, suc, ◌<◌, ◌⊎◌, inr, List, [], ◌∷◌, ◌++◌, ◌≡◌, refl, Map, insert, has, get, some, none, true,
  arith, inl, length, codes, u64_bytes, be_bytes, digits_before, text_eq, All,
}
use core_eng.Prelude.Outcome.{ok, panic}
use core_eng.Frost.Wsts.{Bytes}
use core_eng.Frost.Messages.{
  PublicKeys, MessageTypes, Message, DkgEnd, DkgPublicShare, DkgPrivateShares, success, failure,
}
use core_eng.Frost.States.{States, dkg_public_gather, dkg_private_distribute, dkg_private_gather}
use core_eng.Frost.Util.{encrypt}
use core_eng.Frost.Hash.{sign, verify, preimage}
use core_eng.Frost.Verify.{verify_msg, poll_loop}
use core_eng.Frost.Authentic.{
  signer_key, IsSigned, verify_msg_sound, verify_msg-status, verify_msg-sign, IsBackoff, IsAccepted,
  poll_loop_sound,
}
use core_eng.Frost.Round.Defs.{SigningRound}
use core_eng.Frost.Round.Shares.{key_point, Sealing, seal_one, open_share}
use core_eng.Frost.Round.Process.{run}
use core_eng.Frost.Round.Gather.{
  public_end, public_shares, collect, with_commitments, run-gathering, run-gathered,
}
use core_eng.Frost.Round.Opening.{dkg_ended-panic}
use core_eng.Frost.Round.Sealing.{open_share-seal_one}
use core_eng.Frost.Round.Dkg.{dkg_ended}
use core_eng.Frost.Config.{
  KeyText, RawConfig, Config, to_u32, add_key_ids, add_signers, public_keys, add_signer_key_ids,
  signer_key_ids, new_config, try_from, from_signer,
}
use core_eng.Frost.Config.Owners.{public_keys-owner, owner_from, key_at}
use core_eng.Frost.Config.Start.{Starts, from_signer-Starts}
use core_eng.Tests.Toy.{toy, toy_laws}

abbrev keys : PublicKeys toy
keys = record { signers = (1, 7) ∷ (2, 9) ∷ []; key_ids = (1, 7) ∷ (2, 9) ∷ [] }

abbrev round_in : States → Map ℕ → Map (Map Bytes) → SigningRound toy
round_in state commitments shares = record {
  dkg_id = 3;
  dkg_public_id = 0;
  sign_id = 1;
  sign_nonce_id = 1;
  threshold = 2;
  total_signers = 2;
  total_keys = 2;
  signer = record { frost_signer = 0 ∷ []; signer_id = 1 };
  state = state;
  commitments = commitments;
  shares = shares;
  public_nonces = [];
  network_private_key = 7;
  public_keys = keys;
  rng = 5;
}

abbrev gathering : SigningRound toy
gathering = round_in dkg_public_gather [] []

abbrev share_of : ℕ → DkgPublicShare toy
share_of k = record { dkg_id = 3; dkg_public_id = 0; party_id = k; public_share = k }

run-gathering_example :
    run toy (public_shares toy (share_of 2 ∷ [])) gathering
    ≡ (ok [], with_commitments toy gathering (collect toy (share_of 2 ∷ []) []))
unfolding has
run-gathering_example =
    run-gathering toy (share_of 2 ∷ []) gathering refl tt (refl, tt) (omega arith)

run-gathered_example : run toy (public_shares toy (share_of 2 ∷ share_of 1 ∷ [])) gathering ≡ (
  ok (public_end toy gathering),
  record gathering {
    commitments = collect toy (share_of 2 ∷ share_of 1 ∷ []) [];
    state = dkg_private_distribute;
  },
)
unfolding has insert
run-gathered_example =
    run-gathered toy (share_of 2 ∷ share_of 1 ∷ []) gathering refl tt (refl, (refl, tt))
      (omega arith) refl

abbrev waiting : SigningRound toy
waiting = round_in dkg_private_gather ((1, 1) ∷ (2, 2) ∷ []) ((0, (0, 1 ∷ []) ∷ []) ∷ [])

abbrev last_shares : DkgPrivateShares
last_shares = record { dkg_id = 3; key_id = 1; private_shares = (0, 5 ∷ []) ∷ [] }

abbrev padded : Bytes
padded = 0 ∷ 0 ∷ 0 ∷ 0 ∷ 0 ∷ 0 ∷ 0 ∷ 0 ∷ 0 ∷ 0 ∷ 0 ∷ 0 ∷ 42 ∷ []

abbrev ready : SigningRound toy
ready = round_in dkg_private_gather ((1, 1) ∷ (2, 2) ∷ []) ((1, (0, padded) ∷ []) ∷ [])

dkg_ended-panic_example : (dkg_ended toy waiting).0 ≡ panic
dkg_ended-panic_example =
    dkg_ended-panic toy waiting [] [] 0 [] [] 0 (1 ∷ []) refl refl (omega arith)

abbrev sealing : Sealing toy
sealing = record { encrypted = []; rng = 5 }

open_share-seal_one_example :
    (cipher : Bytes) × (get 1
        (insert 1 (5 ∷ 5 ∷ 5 ∷ 5 ∷ 5 ∷ 5 ∷ 5 ∷ 5 ∷ 5 ∷ 5 ∷ 5 ∷ 5 ∷ 42 ∷ []) [])
      ≡ some cipher)
    × (open_share toy 9 keys 0 cipher ≡ ok (some 42))
unfolding seal_one key_point get encrypt
open_share-seal_one_example =
    open_share-seal_one toy toy_laws 7 9 keys 0 1 42 sealing
      (record {
        encrypted = insert 1 (5 ∷ 5 ∷ 5 ∷ 5 ∷ 5 ∷ 5 ∷ 5 ∷ 5 ∷ 5 ∷ 5 ∷ 5 ∷ 5 ∷ 42 ∷ []) [];
        rng = 6;
      })
      refl refl refl

abbrev nonce_request : MessageTypes toy
nonce_request = MessageTypes.nonce_request (record { dkg_id = 3; sign_id = 1; sign_nonce_id = 1 })

abbrev dkg_end : DkgEnd
dkg_end = record { dkg_id = 3; signer_id = 2; status = success }

signature : Bytes
signature = 9 ∷ codes "DKG_END" ++ u64_bytes 3 ++ be_bytes 4 2

abbrev signed : Message toy
signed = record { msg = MessageTypes.dkg_end dkg_end; sig = signature }

signed_passes : verify_msg toy {E = ⊥} signed keys 11 ≡ ok true
unfolding verify_msg verify preimage signature be_bytes digits_before get text_eq
signed_passes = refl

verify_msg_sound_example :
    (key : ℕ) × (signer_key toy signed.msg keys 11 ≡ some key) × IsSigned toy signed key
verify_msg_sound_example = verify_msg_sound toy signed keys 11 signed_passes

verify_msg-status_example :
    verify_msg toy {E = ⊥}
      (record {
        msg = MessageTypes.dkg_end (record dkg_end { status = failure [] });
        sig = signature;
      })
      keys
      11
    ≡ verify_msg toy signed keys 11
verify_msg-status_example = verify_msg-status toy dkg_end (failure []) signature keys 11

verify_msg-sign_example : verify_msg toy {E = ⊥} signed keys 11 ≡ ok true
unfolding sign signature get signer_key
verify_msg-sign_example =
    verify_msg-sign toy toy_laws (MessageTypes.dkg_end dkg_end) 9 signature keys 11 refl refl

poll_loop_sound_example :
    All (IsAccepted toy keys 11) (signed ∷ [])
    × All IsBackoff (2 ∷ 4 ∷ 0 ∷ 2 ∷ [])
    × (length {A = ℕ} (2 ∷ 4 ∷ 0 ∷ 2 ∷ []) ≡ 4)
unfolding poll_loop verify preimage signature be_bytes digits_before get text_eq
poll_loop_sound_example =
    poll_loop_sound toy keys 11 0 (none ∷ none ∷ some signed ∷ none ∷ [])
      (record { sent = signed ∷ []; sleeps = 2 ∷ 4 ∷ 0 ∷ 2 ∷ [] }) (inl refl) refl

-- Two signers, whose keys are the first code of their text; both list the key id 2.
abbrev first_code : List ℕ → Unit {0} ⊎ ℕ
first_code [] = inl tt
first_code (c ∷ cs) = inr c

abbrev pub texts : KeyText toy
texts = record {
  KeyError = Unit {0};
  ScalarError = Unit {0};
  public_key_from = first_code;
  scalar_from = first_code;
}

abbrev two_signers : RawConfig
two_signers = record {
  http_relay_url = [];
  keys_threshold = 2;
  network_private_key = 4 ∷ [];
  signers =
      record { public_key = 7 ∷ []; key_ids = 1 ∷ 2 ∷ [] }
      ∷ record { public_key = 9 ∷ []; key_ids = 2 ∷ 3 ∷ [] }
      ∷ [];
  coordinator_public_key = 5 ∷ [];
}

abbrev two_keys : PublicKeys toy
two_keys = record { signers = (1, 7) ∷ (2, 9) ∷ []; key_ids = (1, 7) ∷ (2, 9) ∷ (3, 9) ∷ [] }

abbrev two_config : Config toy texts
two_config = record {
  http_relay_url = [];
  keys_threshold = 2;
  network_private_key = 4;
  public_keys = two_keys;
  signer_key_ids = (1, 1 ∷ 2 ∷ []) ∷ (2, 2 ∷ 3 ∷ []) ∷ [];
  coordinator_public_key = 5;
  total_signers = 2;
  total_keys = 3;
}

two_signers_keys : public_keys toy texts two_signers ≡ ok two_keys
unfolding public_keys add_signers add_key_ids to_u32 insert
two_signers_keys = refl

two_signers_config : try_from toy texts two_signers ≡ ok two_config
unfolding try_from public_keys add_signers add_key_ids to_u32 insert signer_key_ids
    add_signer_key_ids new_config
two_signers_config = refl

public_keys-owner_example :
    ((k : ℕ) → get k two_keys.key_ids ≡ owner_from toy texts k none two_signers.signers)
    × ((j : ℕ)
        → j < 2
        → suc j < 4294967296
        → get (suc j) two_keys.signers ≡ key_at toy texts two_signers.signers j)
public_keys-owner_example = public_keys-owner toy texts two_signers two_keys two_signers_keys

from_signer-Starts_example :
    (round : SigningRound toy) × (from_signer toy texts two_config 2 8 ≡ ok round)
    × Starts toy texts two_signers 2 8 round
from_signer-Starts_example =
    from_signer-Starts toy texts two_signers two_config 2 8 two_signers_config (omega arith)
      (omega arith) (omega arith)
