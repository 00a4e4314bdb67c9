-- ===== src/Frost/Coordinator/Steps.antt =====
-- What frost-coordinator/src/coordinator.rs does to its object, step by step: a relation that every
-- step keeps is kept by a whole command.
pub mod Signing
pub mod KeyGen
use core_eng.Prelude.{
  ℕ, zero, suc, List, [], ◌∷◌, Map, Bool, true, false, Bool-cases, inl, inr, ◌≡◌, if◌then◌else◌,
  subst, is_empty, ◌+◌, ◌%◌, ◌^◌, contains, length, keys, erase,
}
use core_eng.Prelude.Outcome.{ok_or}
use core_eng.Prelude.Exec.{Exec, pure, raise, modify, gets, ◌>>=◌, ◌>>◌}
use core_eng.Prelude.Keeps.{Keeps, Preorder, bind-Keeps, modify-Keeps, read-Keeps, pure-Keeps}
use core_eng.Frost.Wsts.{Wsts, Bytes}
use core_eng.Frost.Messages.{Message, MessageTypes, NonceResponse, DkgPublicShare}
use core_eng.Frost.Coordinator.Defs.{
  Aggregation, Coordinator, Run, timeout, send_signed, take_message, ids_from,
}
use core_eng.Frost.Coordinator.Dkg.{
  Head, proceed, send_begin, done, await, start_public_shares, start_private_shares, check_key,
  loop_head, on_public, public_loop, wait_for_public_shares, after_dkg_end, end_loop,
  wait_for_dkg_end, run_distributed_key_generation, calculate_aggregate_public_key, sum_of_shares,
}
use core_eng.Frost.Coordinator.Sign.{
  next_request, request_nonces, await_nonces, nonces_even, make_aggregator, nonce_responses, finish,
  on_nonce, nonce_loop, nonces_complete, collect_nonces, compute_aggregate_nonce, nonce_rounds,
  request_signature_shares, on_share, share_loop, collect_signature_shares, sign_with_nonces,
  sign_message,
}

module _ (w : Wsts) where
  -- The messages that the coordinator makes.
  abbrev pub IsRequest : MessageTypes w → Type 0
  IsRequest (MessageTypes.dkg_begin m) = Unit
  IsRequest (MessageTypes.dkg_private_begin m) = Unit
  IsRequest (MessageTypes.nonce_request m) = Unit
  IsRequest (MessageTypes.sign_share_request m) = Unit
  IsRequest (MessageTypes.dkg_end m) = ⊥
  IsRequest (MessageTypes.dkg_public_end m) = ⊥
  IsRequest (MessageTypes.dkg_public_share m) = ⊥
  IsRequest (MessageTypes.dkg_private_shares m) = ⊥
  IsRequest (MessageTypes.nonce_response m) = ⊥
  IsRequest (MessageTypes.sign_share_response m) = ⊥

  -- Messages that come and go, and the replies to a signing request.
  pub record SignSteps (R : Coordinator w → Coordinator w → Type 0) : Type 0 where
    pub order : Preorder R
    pub sent : (x : MessageTypes w) → IsRequest x → Keeps R (send_signed w x)
    pub taken : (rest : List (Message w)) (s : Coordinator w) → R s (take_message w rest s)
    pub nonces :
        (ns : Map (NonceResponse w)) (s : Coordinator w) → R s (record s { public_nonces = ns })
    pub shares :
        (ss : Map (List w.SignatureShare)) (s : Coordinator w)
        → R s (record s { signature_shares = ss })

  -- What key generation writes besides.
  pub record DkgSteps (R : Coordinator w → Coordinator w → Type 0) : Type 0 where
    pub order : Preorder R
    pub sent : (x : MessageTypes w) → IsRequest x → Keeps R (send_signed w x)
    pub taken : (rest : List (Message w)) (s : Coordinator w) → R s (take_message w rest s)
    pub public_shares :
        (ps : Map (DkgPublicShare w)) (s : Coordinator w)
        → R s (record s { dkg_public_shares = ps })
    pub aggregate :
        (key : w.Point) (s : Coordinator w) → R s (record s { aggregate_public_key = key })
    pub dkg_id : (id : ℕ) (s : Coordinator w) → R s (record s { current_dkg_id = id })

-- A branch on a test.
pub if_step :
    {S A : Type 0} (R : S → S → Type 0) (s : S) (b : Bool) (x y : A × S)
    → R s x.1
    → R s y.1
    → R s (if b then x else y).1
if_step R s true x y hx hy = hx
if_step R s false x y hx hy = hy
