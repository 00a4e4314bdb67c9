-- ===== src/Frost/Coordinator/Defs.antt =====
-- The state of frost-coordinator/src/coordinator.rs, what it calls of wsts, and its network.
use core_eng.Prelude.{ℕ, zero, suc, List, [], ◌∷◌, ◌++◌, Option, none, some, Bool, Map}
use core_eng.Prelude.Outcome.{ok, err}
use core_eng.Prelude.Exec.{Exec, ◌>>=◌}
use core_eng.Frost.Wsts.{Wsts, Bytes}
use core_eng.Frost.Messages.{Message, MessageTypes, DkgPublicShare, NonceResponse}
use core_eng.Frost.Hash.{sign}

-- wsts: points, the aggregate nonce, the aggregator and the Schnorr proof. `none` is an error.
pub record Aggregation (w : Wsts) : Type 1 where
  pub Aggregator : Type 0
  pub Signature : Type 0
  pub SchnorrProof : Type 0
  pub FieldElement : Type 0
  pub default_point : w.Point
  pub point_eq : w.Point → w.Point → Bool
  pub add : w.Point → w.Point → w.Point
  pub has_even_y : w.Point → Bool
  pub x : w.Point → FieldElement
  pub intermediate : Bytes → List ℕ → List w.PublicNonce → w.Point
  pub new_aggregator : ℕ → ℕ → List w.PolyCommitment → Option Aggregator
  pub aggregate : Aggregator → Bytes → List w.PublicNonce → List w.SignatureShare → Option Signature
  pub new_proof : Signature → Option SchnorrProof
  pub verify_proof : SchnorrProof → FieldElement → Bytes → Bool

-- frost-signer/src/net.rs `Error`
pub data NetError : Type 0 where
  serialization_error network_error timeout : NetError

pub data Error : Type 0 where
  network_error : NetError → Error
  no_aggregate_public_key aggregator taproot schnorr_proof_failed timeout : Error
  config_error invalid_signer_message : Error

module _ (w : Wsts) where
  -- The network seen from here. `inbox` holds what polling will bring, in order; when it is empty,
  -- the backoff of `wait_for_next_message` gives up. `sends` says how the sends to come will end
  -- (`none` and the end of the list: they succeed), and `outbox` what was sent.
  pub record Net : Type 0 where
    pub inbox : List (Message w)
    pub outbox : List (Message w)
    pub sends : List (Option NetError)

  pub record Coordinator : Type 0 where
    pub id : ℕ
    pub current_dkg_id : ℕ
    pub current_dkg_public_id : ℕ
    pub current_sign_id : ℕ
    pub current_sign_nonce_id : ℕ
    pub total_signers : ℕ
    pub total_keys : ℕ
    pub threshold : ℕ
    pub network : Net
    pub dkg_public_shares : Map (DkgPublicShare w)
    pub public_nonces : Map (NonceResponse w)
    pub signature_shares : Map (List w.SignatureShare)
    pub aggregate_public_key : w.Point
    pub network_private_key : w.Scalar
    pub public_key : w.PublicKey

  abbrev pub Run {ℓ} : Type ℓ → Type ℓ
  Run A = Exec Coordinator Error A

  -- `Coordinator::new`: the fields that the configuration gives, and the initial ids.
  unfoldable pub new : Aggregation w → ℕ → ℕ → ℕ → ℕ → w.Scalar → w.PublicKey → Net → Coordinator
  new a id total_signers total_keys keys_threshold private_key public_key network = record {
    id = id;
    current_dkg_id = 0;
    current_dkg_public_id = 0;
    current_sign_id = 1;
    current_sign_nonce_id = 1;
    total_signers = total_signers;
    total_keys = total_keys;
    threshold = keys_threshold;
    network = network;
    dkg_public_shares = [];
    public_nonces = [];
    signature_shares = [];
    aggregate_public_key = a.default_point;
    network_private_key = private_key;
    public_key = public_key;
  }

  abbrev with_net : Net → Coordinator → Coordinator
  with_net n s = record s { network = n }

  unfoldable pub send_on : Message w → List (Option NetError) → Run (Unit {0})
  send_on m [] s = (ok tt, with_net (record s.network { outbox = s.network.outbox ++ m ∷ [] }) s)
  send_on m (none ∷ later) s =
      (ok tt, with_net (record s.network { outbox = s.network.outbox ++ m ∷ []; sends = later }) s)
  send_on m (some e ∷ later) s =
      (err (network_error e), with_net (record s.network { sends = later }) s)

  -- `self.network.send_message`
  unfoldable pub send_message : Message w → Run (Unit {0})
  unfolding send_on
  send_message m s = send_on m s.network.sends s

  -- Each request is signed with the network key; `expect` panics if it cannot be.
  unfoldable pub send_signed : MessageTypes w → Run (Unit {0})
  unfolding send_message
  send_signed x = do
    sig ← λ s. (sign w x s.network_private_key, s)
    send_message (record { msg = x; sig = sig })

  -- What a poll leaves behind when `m` arrives.
  abbrev pub take_message : List (Message w) → Coordinator → Coordinator
  take_message rest s = with_net (record s.network { inbox = rest }) s

  -- `(first..first + n)` as the set of ids that are awaited.
  abbrev pub ids_from : ℕ → ℕ → List ℕ
  ids_from first zero = []
  ids_from first (suc n) = first ∷ ids_from (suc first) n
