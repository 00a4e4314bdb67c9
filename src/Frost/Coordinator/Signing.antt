-- ===== src/Frost/Coordinator/Signing.antt =====
-- What a signature that frost-coordinator/src/coordinator.rs returns is worth.
use core_eng.Prelude.{
  suc, List, some, ◌≡◌, refl, arith, true, false, Bool-cases, inl, inr, length, subst, flat_map,
  ◌∙◌,
}
use core_eng.Prelude.Outcome.{ok, bind-ok, ok_or}
use core_eng.Prelude.Exec.{◌>>=◌ as and_then, ◌>>◌ as next, bind-returns}
use core_eng.Prelude.Keeps.{Keeps, Preorder}
use core_eng.Frost.Wsts.{Wsts, Bytes}
use core_eng.Frost.Messages.{MessageTypes, NonceResponse}
use core_eng.Frost.Coordinator.Defs.{
  Aggregation, Coordinator, send_signed, send_message, send_on, aggregator, taproot,
}
use core_eng.Frost.Coordinator.Finish.{finish_signature, check_proof, gather_shares}
use core_eng.Frost.Coordinator.Sign.{
  sign_message, sign_with_nonces, finish, nonce_rounds, make_aggregator, nonce_responses,
  request_signature_shares, collect_signature_shares,
}
use core_eng.Frost.Coordinator.Steps.{SignSteps}
use core_eng.Frost.Coordinator.Steps.Signing.{sign_message_step}

module _ (w : Wsts) where
  -- What signing does not touch.
  pub record SameKeys (s t : Coordinator w) : Type 0 where
    pub aggregate_key : t.aggregate_public_key ≡ s.aggregate_public_key
    pub public_shares : t.dkg_public_shares ≡ s.dkg_public_shares
    pub dkg_id : t.current_dkg_id ≡ s.current_dkg_id

  pub order : Preorder SameKeys
  order = record {
    here = λ s. record { aggregate_key = refl; public_shares = refl; dkg_id = refl };
    join = λ s t u x y. record {
      aggregate_key = y.aggregate_key ∙ x.aggregate_key;
      public_shares = y.public_shares ∙ x.public_shares;
      dkg_id = y.dkg_id ∙ x.dkg_id;
    };
  }

  pub send_signed-SameKeys : (x : MessageTypes w) → Keeps SameKeys (send_signed w x)
  unfolding send_signed send_message send_on
  send_signed-SameKeys x = record { at = λ s. ground arith }

  steps : SignSteps w SameKeys
  steps = record {
    order = order;
    sent = λ x h. send_signed-SameKeys x;
    taken = λ rest s. record { aggregate_key = refl; public_shares = refl; dkg_id = refl };
    nonces = λ ns s. record { aggregate_key = refl; public_shares = refl; dkg_id = refl };
    shares = λ ss s. record { aggregate_key = refl; public_shares = refl; dkg_id = refl };
  }

module _ (w : Wsts) (a : Aggregation w) where
  check_proof-ok :
      (msg : Bytes) (key : w.Point) (sig sig' : a.Signature) (proof proof' : a.SchnorrProof)
      → check_proof w a msg key sig proof ≡ ok (sig', proof')
      → (sig ≡ sig') × (proof ≡ proof') × (a.verify_proof proof' (a.x key) msg ≡ true)
  unfolding check_proof
  check_proof-ok msg key sig sig' proof proof' h = ground arith

  finish_signature-ok :
      (msg : Bytes) (agg : a.Aggregator) (responses : List (NonceResponse w)) (t : Coordinator w)
      (sig : a.Signature) (proof : a.SchnorrProof)
      → finish_signature w a msg agg responses t ≡ ok (sig, proof)
      → (a.new_proof sig ≡ some proof)
        × (a.verify_proof proof (a.x t.aggregate_public_key) msg ≡ true)
  unfolding finish_signature
  finish_signature-ok msg agg responses t sig proof h =
      let (shares, e1, h1) = bind-ok (gather_shares w a t) _ (sig, proof) h in
      let (sig', e2, h2) =
        bind-ok
          (ok_or (a.aggregate agg msg (flat_map (λ nr. nr.nonces) responses) shares) aggregator) _
          (sig, proof) h1 in
      let (proof', e3, h3) = bind-ok (ok_or (a.new_proof sig') taproot) _ (sig, proof) h2 in
      let (p, q, v) = check_proof-ok msg t.aggregate_public_key sig' sig proof' proof h3 in
      (ground arith, v)

  -- The result and the final state of a signing that returned, as its last part saw them.
  sign_with_nonces-finish :
      (msg : Bytes) (s t : Coordinator w) (r : a.Signature × a.SchnorrProof)
      → sign_with_nonces w a msg s ≡ (ok r, t)
      → (agg : a.Aggregator) × (responses : List (NonceResponse w)) × (finish_signature w a msg agg
            responses t
          ≡ ok r)
  unfolding sign_with_nonces finish
  sign_with_nonces-finish msg s t r h =
      let share = λ (agg : a.Aggregator) (nrs : List (NonceResponse w)).
        next (collect_signature_shares w a) (finish w a msg agg nrs) in
      let ask = λ (agg : a.Aggregator) (nrs : List (NonceResponse w)).
        next (request_signature_shares w a nrs msg) (share agg nrs) in
      let (agg, s1, e1, h1) =
        bind-returns (make_aggregator w a) (λ g. and_then (nonce_responses w a) (ask g)) s t r h in
      let (responses, s2, e2, h2) = bind-returns (nonce_responses w a) (ask agg) s1 t r h1 in
      let (u3, s3, e3, h3) =
        bind-returns (request_signature_shares w a responses msg) (λ u. share agg responses) s2 t r
          h2 in
      let (u4, s4, e4, h4) =
        bind-returns (collect_signature_shares w a) (λ u. finish w a msg agg responses) s3 t r h3 in
      (agg, responses, ground arith)

  -- `sign_message` returns a signature and a proof only if the aggregate public key was not the
  -- default point, the proof is made of the signature, and it verifies for the message under the
  -- x coordinate of the aggregate public key that the coordinator had before; that key, the public
  -- shares and the id of the key generation are the same afterwards.
  pub sign_message_sound :
      (msg : Bytes) (s t : Coordinator w) (sig : a.Signature) (proof : a.SchnorrProof)
      → sign_message w a msg s ≡ (ok (sig, proof), t)
      → (a.point_eq s.aggregate_public_key a.default_point ≡ false)
        × (a.new_proof sig ≡ some proof)
        × (a.verify_proof proof (a.x s.aggregate_public_key) msg ≡ true)
        × SameKeys w s t
  unfolding sign_message
  sign_message_sound msg s t sig proof h =
      elim (Bool-cases (a.point_eq s.aggregate_public_key a.default_point)) [
        | inl missing ↦ absurd (ground arith)
        | inr there ↦
            let kept = (sign_message_step w a (SameKeys w) (steps w) msg).at in
            let signed : and_then (nonce_rounds w a (suc (length s.network.inbox)) msg)
                  (λ u. sign_with_nonces w a msg) s
                ≡ (ok (sig, proof), t) =
              rw there at h in
            let (u, s1, e, h1) =
              bind-returns (nonce_rounds w a (suc (length s.network.inbox)) msg)
                (λ u. sign_with_nonces w a msg) s t (sig, proof) signed in
            let (agg, responses, f) = sign_with_nonces-finish msg s1 t (sig, proof) h1 in
            let (made, verifies) = finish_signature-ok msg agg responses t sig proof f in
            let same : SameKeys w s t = subst (λ x. SameKeys w s x.1) h (kept s) in
            (there, made, ground arith, same)
      ]
