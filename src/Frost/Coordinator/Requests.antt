-- ===== src/Frost/Coordinator/Requests.antt =====
-- What frost-coordinator/src/coordinator.rs sends, as frost-signer/src/signer.rs checks it.
use core_eng.Prelude.{
  List, [], ◌∷◌, ◌++◌, append-nil, append_assoc, Option, none, some, ◌≡◌, refl, arith, All,
  All-append, ◌∙◌,
}
use core_eng.Prelude.Outcome.{Outcome, ok, err, panic, unwrap, ◌>>=◌}
use core_eng.Prelude.Keeps.{Keeps, Preorder, bind-Keeps, pure-Keeps}
use core_eng.Prelude.Exec.{pure}
use core_eng.Frost.Wsts.{Wsts, Bytes}
use core_eng.Frost.Laws.{Laws}
use core_eng.Frost.Hash.{sign as sign_bytes, preimage}
use core_eng.Frost.Messages.{Message, MessageTypes, PublicKeys}
use core_eng.Frost.Authentic.{IsAccepted, signer_key, verify_msg-sign}
use core_eng.Frost.Coordinator.Defs.{
  Aggregation, Coordinator, NetError, Error, send_signed, send_message, send_on,
}
use core_eng.Frost.Coordinator.Sign.{sign_message}
use core_eng.Frost.Coordinator.Dkg.{run_distributed_key_generation, get_aggregate_public_key}
use core_eng.Frost.Coordinator.Run.{Command, dkg, sign, dkg_sign, get_aggregate_key, run}
use core_eng.Frost.Coordinator.Steps.{if_step, IsRequest, SignSteps, DkgSteps}
use core_eng.Frost.Coordinator.Steps.Signing.{sign_message_step}
use core_eng.Frost.Coordinator.Steps.KeyGen.{run_distributed_key_generation_step}

module _ (w : Wsts) (l : Laws w) (keys : PublicKeys w) where
  -- From `s` to `t` messages were sent that signers accept which know the public key of the private
  -- key in `s`; that key stays.
  pub record SendsSigned (s t : Coordinator w) : Type 0 where
    pub sent : List (Message w)
    pub outbox : t.network.outbox ≡ s.network.outbox ++ sent
    pub accepted : All (IsAccepted w keys (l.key_of s.network_private_key)) sent
    pub key : t.network_private_key ≡ s.network_private_key

  quiet :
      (s t : Coordinator w)
      → t.network.outbox ≡ s.network.outbox
      → t.network_private_key ≡ s.network_private_key
      → SendsSigned s t
  quiet s t h k = record {
    sent = [];
    outbox = h ∙ rw (append-nil s.network.outbox) refl;
    accepted = tt;
    key = k;
  }

  still : (s : Coordinator w) → SendsSigned s s
  still s = quiet s s refl refl

  join : (s t u : Coordinator w) → SendsSigned s t → SendsSigned t u → SendsSigned s u
  join s t u x y = record {
    sent = x.sent ++ y.sent;
    outbox = rw (y.outbox, x.outbox, append_assoc s.network.outbox x.sent y.sent) refl;
    accepted = All-append _ x.sent y.sent x.accepted (rw (← x.key) y.accepted);
    key = rw (y.key, x.key) refl;
  }

  order : Preorder SendsSigned
  order = record { here = still; join = join }

  request_key :
      (x : MessageTypes w) (c : w.PublicKey) → IsRequest w x → signer_key w x keys c ≡ some c
  unfolding signer_key
  request_key (MessageTypes.dkg_begin m) c h = refl
  request_key (MessageTypes.dkg_private_begin m) c h = refl
  request_key (MessageTypes.nonce_request m) c h = refl
  request_key (MessageTypes.sign_share_request m) c h = refl
  request_key _ c h = absurd h

  signed_alike :
      {E : Type 0} (o : Option w.EcdsaSignature) (sig : Bytes)
      → (unwrap {E = E} o >>= λ g. ok (w.signature_bytes g)) ≡ ok sig
      → (unwrap {E = ⊥} o >>= λ g. ok (w.signature_bytes g)) ≡ ok sig
  signed_alike none sig h = ground arith
  signed_alike (some g) sig h = ground arith

  -- The signature of a request does not depend on the type of errors around it.
  sign_request :
      {E : Type 0} (x : MessageTypes w) (a : w.Scalar) (sig : Bytes)
      → IsRequest w x
      → sign_bytes w {E = E} x a ≡ ok sig
      → sign_bytes w {E = ⊥} x a ≡ ok sig
  unfolding sign_bytes preimage
  sign_request (MessageTypes.dkg_begin m) a sig h e = signed_alike _ sig e
  sign_request (MessageTypes.dkg_private_begin m) a sig h e = signed_alike _ sig e
  sign_request (MessageTypes.nonce_request m) a sig h e = signed_alike _ sig e
  sign_request (MessageTypes.sign_share_request m) a sig h e = signed_alike _ sig e
  sign_request _ a sig h e = absurd h

  send_on_signed :
      (m : Message w) (later : List (Option NetError)) (s : Coordinator w)
      → IsAccepted w keys (l.key_of s.network_private_key) m
      → SendsSigned s (send_on w m later s).1
  unfolding send_on
  send_on_signed m [] s h = record { sent = m ∷ []; outbox = refl; accepted = (h, tt); key = refl }
  send_on_signed m (none ∷ later) s h = record {
    sent = m ∷ [];
    outbox = refl;
    accepted = (h, tt);
    key = refl;
  }
  send_on_signed m (some e ∷ later) s h = quiet s _ refl refl

  send_signed_signed : (x : MessageTypes w) → IsRequest w x → Keeps SendsSigned (send_signed w x)
  unfolding send_signed send_message
  send_signed_signed x h = record { at = λ s. go s (sign_bytes w x s.network_private_key) refl }
    where
      go :
          (s : Coordinator w) (r : Outcome Error Bytes)
          → sign_bytes w x s.network_private_key ≡ r
          → SendsSigned s (send_signed w x s).1
      go s (ok sig) e = rw e (
          send_on_signed (record { msg = x; sig = sig }) s.network.sends s
            (verify_msg-sign w l x s.network_private_key sig keys (l.key_of s.network_private_key)
              (sign_request x s.network_private_key sig h e)
              (request_key x (l.key_of s.network_private_key) h)))
      go s (err y) e = rw e (still s)
      go s panic e = rw e (still s)

  sign_steps : SignSteps w SendsSigned
  sign_steps = record {
    order = order;
    sent = send_signed_signed;
    taken = λ rest s. quiet s _ refl refl;
    nonces = λ ns s. quiet s _ refl refl;
    shares = λ ns s. quiet s _ refl refl;
  }

  dkg_steps : DkgSteps w SendsSigned
  dkg_steps = record {
    order = order;
    sent = send_signed_signed;
    taken = λ rest s. quiet s _ refl refl;
    public_shares = λ ns s. quiet s _ refl refl;
    aggregate = λ ns s. quiet s _ refl refl;
    dkg_id = λ ns s. quiet s _ refl refl;
  }

  signing : (a : Aggregation w) (msg : Bytes) → Keeps SendsSigned (sign_message w a msg)
  signing a msg = sign_message_step w a SendsSigned sign_steps msg

  key_generation : (a : Aggregation w) → Keeps SendsSigned (run_distributed_key_generation w a)
  key_generation a = run_distributed_key_generation_step w a SendsSigned dkg_steps

  reading : (a : Aggregation w) → Keeps SendsSigned (get_aggregate_public_key w a)
  unfolding get_aggregate_public_key
  reading a = record { at = λ s. if_step SendsSigned s _ _ _ (still s) (still s) }

  -- Whatever the command, and however it ends, each message that the coordinator sends on the way
  -- passes `verify_msg` of every signer that is configured with the public key of the coordinator's
  -- private key, if the laws of the cryptography hold; what was sent before stays as it was.
  pub run-SendsSigned :
      (a : Aggregation w) (command : Command) (s : Coordinator w)
      → SendsSigned s (run w a command s).1
  unfolding run
  run-SendsSigned a dkg s =
      (bind-Keeps SendsSigned order _ _ (key_generation a)
          λ key. pure-Keeps SendsSigned order tt).at
        s
  run-SendsSigned a (sign msg) s =
      (bind-Keeps SendsSigned order _ _ (signing a msg) λ proof. pure-Keeps SendsSigned order tt).at
        s
  run-SendsSigned a (dkg_sign msg) s =
      (bind-Keeps SendsSigned order _ _ (key_generation a) λ key.
          bind-Keeps SendsSigned order _ _ (signing a msg)
            λ proof. pure-Keeps SendsSigned order tt).at
        s
  run-SendsSigned a get_aggregate_key s =
      (bind-Keeps SendsSigned order (get_aggregate_public_key w a) (λ key. pure tt) (reading a)
          λ key. pure-Keeps SendsSigned order tt).at
        s
