-- ===== src/Frost/Coordinator/Complete.antt =====
-- The signature shares that `sign_message` of frost-coordinator/src/coordinator.rs indexes are there.
use core_eng.Prelude.{
  ℕ, zero, suc, List, [], ◌∷◌, ◌++◌, ◌≡◌, ◌≢◌, refl, arith, Bool, true, false, Bool-cases, inl, inr,
  ◌⊎◌, length, subst, ap, Map, has, get_of_has, has-insert, keys, contains, contains-erase,
  is_empty, none, some, Option, ◌∙◌,
}
use core_eng.Prelude.Outcome.{Outcome, ok, err, panic, ok_or, ◌>>=◌}
use core_eng.Prelude.Exec.{fold_outcome}
use core_eng.Prelude.Total.{Total, bind-Total}
use core_eng.Frost.Wsts.{Wsts, Bytes}
use core_eng.Frost.Messages.{Message, MessageTypes, NonceResponse}
use core_eng.Frost.Coordinator.Defs.{
  Aggregation, Coordinator, Run, Error, aggregator, taproot, take_message,
}
use core_eng.Frost.Coordinator.Finish.{add_shares, gather_shares, check_proof, finish_signature}
use core_eng.Frost.Coordinator.Steps.Signing.{request_signature_shares_step}
use core_eng.Frost.Coordinator.Sign.{
  compute_aggregate_nonce, nonces_even, nonce_rounds, make_aggregator, nonce_responses,
  request_signature_shares, on_share, share_loop, collect_signature_shares, finish,
  sign_with_nonces, sign_message, collect_nonces,
}
use core_eng.Frost.Coordinator.Total.{
  HasKey, SameKey, key_steps, keep_key, if_safe, send_signed-safe, share_loop-safe,
  collect_nonces-Total,
}

module _ (w : Wsts) (a : Aggregation w) where
  -- Every signer with a nonce has signature shares.
  abbrev HasShares : Coordinator w → Type 0
  HasShares s = (k : ℕ) → contains k (keys s.public_nonces) ≡ true → has k s.signature_shares ≡ true

  on_share-has :
      (x : MessageTypes w) (ids : List ℕ) (s : Coordinator w) (k : ℕ)
      → (contains k ids ≡ true) ⊎ (has k s.signature_shares ≡ true)
      → (contains k (on_share w a x ids s).0 ≡ true)
        ⊎ (has k (on_share w a x ids s).1.signature_shares ≡ true)
  unfolding on_share
  on_share-has (MessageTypes.sign_share_response m) ids s k h = ground (
    arith,
    contains-erase m.signer_id k ids,
    has-insert m.signer_id k m.signature_shares s.signature_shares,
  )
  on_share-has _ ids s k h = h

  on_share-nonces :
      (x : MessageTypes w) (ids : List ℕ) (s : Coordinator w)
      → (on_share w a x ids s).1.public_nonces ≡ s.public_nonces
  unfolding on_share
  on_share-nonces (MessageTypes.sign_share_response m) ids s = ground arith
  on_share-nonces _ ids s = refl

  empty-contains : (ids : List ℕ) (k : ℕ) → is_empty ids ≡ true → contains k ids ≡ false
  empty-contains [] k h = refl
  empty-contains (i ∷ ids) k h = absurd (ground arith)

  nothing_left :
      (ids : List ℕ) (s t : Coordinator w)
      → is_empty ids ≡ true
      → s ≡ t
      → (t.public_nonces ≡ s.public_nonces)
        × ((k : ℕ)
            → (contains k ids ≡ true) ⊎ (has k s.signature_shares ≡ true)
            → has k t.signature_shares ≡ true)
  nothing_left ids s t h e =
      subst
        (λ x.
          (x.public_nonces ≡ s.public_nonces)
          × ((k : ℕ)
              → (contains k ids ≡ true) ⊎ (has k s.signature_shares ≡ true)
              → has k x.signature_shares ≡ true))
        e (refl, λ k c. ground (arith, empty-contains ids k h))

  abbrev ends_in : Coordinator w → Outcome Error (Unit {0}) × Coordinator w
  ends_in s = (ok tt, s)

  returned : (s t : Coordinator w) → ends_in s ≡ ends_in t → s ≡ t
  returned s t h = ap (λ r. r.1) h

  -- When the loop over signature shares returns, every awaited signer's shares are there.
  share_loop-has :
      (inbox : List (Message w)) (ids : List ℕ) (s t : Coordinator w)
      → share_loop w a inbox ids s ≡ (ok tt, t)
      → (t.public_nonces ≡ s.public_nonces)
        × ((k : ℕ)
            → (contains k ids ≡ true) ⊎ (has k s.signature_shares ≡ true)
            → has k t.signature_shares ≡ true)
  unfolding share_loop
  share_loop-has [] ids s t h = elim (Bool-cases (is_empty ids)) [
    | inl done ↦ nothing_left ids s t done (returned s t (rw done at h))
    | inr more ↦ absurd (late more)
  ]
    where
      late : is_empty ids ≡ false → ⊥
      late more = ground arith
  share_loop-has (m ∷ rest) ids s t h = elim (Bool-cases (is_empty ids)) [
    | inl done ↦ nothing_left ids s t done (returned s t (rw done at h))
    | inr more ↦
        let u = take_message w rest s in
        let next = on_share w a m.msg ids u in
        let (kept, ih) = share_loop-has rest next.0 next.1 t (rw more at h) in
        (kept ∙ on_share-nonces m.msg ids u, λ k c. ih k (on_share-has m.msg ids u k c))
  ]

  add_shares-safe :
      (shares : Map (List w.SignatureShare)) (ks : List ℕ) (acc : List w.SignatureShare)
      → ((k : ℕ) → contains k ks ≡ true → has k shares ≡ true)
      → fold_outcome (add_shares w a shares) acc ks ≢ panic
  unfolding fold_outcome add_shares
  add_shares-safe shares [] acc h = λ q. ground arith
  add_shares-safe shares (k ∷ ks) acc h =
      let (ss, e) = get_of_has k shares (h k (ground arith)) in
      rw (fold_outcome, e) (add_shares-safe shares ks (acc ++ ss) (λ j c. h j (ground arith)))

  bind_safe :
      {A B : Type 0} (m : Outcome Error A) (f : A → Outcome Error B)
      → m ≢ panic
      → ((x : A) → f x ≢ panic)
      → (m >>= f) ≢ panic
  bind_safe (ok x) f h k = k x
  bind_safe (err e) f h k = λ q. ground arith
  bind_safe panic f h k = absurd (h refl)

  ok_or_safe : {A : Type 0} (o : Option A) (e : Error) → ok_or o e ≢ panic
  ok_or_safe none e = λ q. ground arith
  ok_or_safe (some x) e = λ q. ground arith

  check_proof-safe :
      (msg : Bytes) (key : w.Point) (sig : a.Signature) (proof : a.SchnorrProof)
      → check_proof w a msg key sig proof ≢ panic
  unfolding check_proof
  check_proof-safe msg key sig proof = λ q. ground arith

  finish-safe :
      (msg : Bytes) (agg : a.Aggregator) (responses : List (NonceResponse w)) (s : Coordinator w)
      → HasShares s
      → finish_signature w a msg agg responses s ≢ panic
  unfolding finish_signature gather_shares
  finish-safe msg agg responses s h =
      bind_safe (gather_shares w a s) _
        (add_shares-safe s.signature_shares (keys s.public_nonces) [] h)
        λ shares. bind_safe _ _ (ok_or_safe _ aggregator) λ sig.
          bind_safe _ _ (ok_or_safe (a.new_proof sig) taproot)
            λ proof. check_proof-safe msg s.aggregate_public_key sig proof

module _ (w : Wsts) (a : Aggregation w) (key : w.Scalar)
    (signs : (h : Bytes) → w.new_signature h key ≢ none) where
  abbrev Keyed : Coordinator w → Type 0
  Keyed s = HasKey w a key signs s

  abbrev Anything : Coordinator w → Type 0
  Anything s = Unit

  compute_aggregate_nonce-Total :
      (msg : Bytes) → Total Keyed Keyed (compute_aggregate_nonce w a msg)
  unfolding compute_aggregate_nonce SameKey
  compute_aggregate_nonce-Total msg =
      bind-Total Keyed Keyed Keyed (collect_nonces w a) _ (collect_nonces-Total w a key signs)
        λ u. keep_key w a key signs _ (record { at = λ s. refl }) λ s h. λ q. ground arith

  nonces_even-Total :
      (b : Bool) (again : Run w (Unit {0}))
      → Total Keyed Keyed again
      → Total Keyed Keyed (nonces_even w a b again)
  unfolding SameKey
  nonces_even-Total true again k =
      keep_key w a key signs _ (record { at = λ s. refl }) λ s h. λ q. ground arith
  nonces_even-Total false again k = k

  nonce_rounds-Total : (fuel : ℕ) (msg : Bytes) → Total Keyed Keyed (nonce_rounds w a fuel msg)
  unfolding nonce_rounds SameKey
  nonce_rounds-Total zero msg =
      keep_key w a key signs _ (record { at = λ s. refl }) λ s h. λ q. ground arith
  nonce_rounds-Total (suc fuel) msg =
      bind-Total Keyed Keyed Keyed (compute_aggregate_nonce w a msg) _
        (compute_aggregate_nonce-Total msg)
        λ r.
          nonces_even-Total (a.has_even_y r) (nonce_rounds w a fuel msg)
            (nonce_rounds-Total fuel msg)

  make_aggregator-Total : Total Keyed Keyed (make_aggregator w a)
  unfolding make_aggregator SameKey
  make_aggregator-Total =
      keep_key w a key signs _ (record { at = λ s. refl }) λ s h. ok_or_safe w a _ aggregator

  nonce_responses-Total : Total Keyed Keyed (nonce_responses w a)
  unfolding nonce_responses SameKey
  nonce_responses-Total =
      keep_key w a key signs _ (record { at = λ s. refl }) λ s h. λ q. ground arith

  request-Total :
      (nrs : List (NonceResponse w)) (msg : Bytes)
      → Total Keyed Keyed (request_signature_shares w a nrs msg)
  unfolding request_signature_shares
  request-Total nrs msg =
      keep_key w a key signs (request_signature_shares w a nrs msg)
        (request_signature_shares_step w a (SameKey w a key signs) (key_steps w a key signs) nrs
          msg)
        λ s h. send_signed-safe w a key signs _ s tt h

  collect-Total : Total Keyed (HasShares w a) (collect_signature_shares w a)
  unfolding collect_signature_shares
  collect-Total = record {
    safe = λ s h. share_loop-safe w a key signs s.network.inbox (keys s.public_nonces) s;
    gives = λ s t u h e k c.
        let (kept, there) = share_loop-has w a s.network.inbox (keys s.public_nonces) s t e in
        there k (inl (rw kept at c));
  }

  finish-Total :
      (msg : Bytes) (agg : a.Aggregator) (nrs : List (NonceResponse w))
      → Total (HasShares w a) Anything (finish w a msg agg nrs)
  unfolding finish
  finish-Total msg agg nrs = record {
    safe = λ s h. finish-safe w a msg agg nrs s h;
    gives = λ s t r h e. tt;
  }

  sign_with_nonces-Total : (msg : Bytes) → Total Keyed Anything (sign_with_nonces w a msg)
  unfolding sign_with_nonces
  sign_with_nonces-Total msg = bind-Total Keyed Keyed Anything _ _ make_aggregator-Total λ agg.
      bind-Total Keyed Keyed Anything _ _ nonce_responses-Total λ nrs.
        bind-Total Keyed Keyed Anything _ _ (request-Total nrs msg) λ u.
          bind-Total Keyed (HasShares w a) Anything _ _ collect-Total λ u'. finish-Total msg agg nrs

-- `sign_message` does not panic, whatever messages come in and however the sends end, if the
-- coordinator's private key can sign every hash: in particular the signature shares that it
-- indexes by the signers of the nonces are all there.
pub sign_message_safe :
    (w : Wsts) (a : Aggregation w) (msg : Bytes) (s : Coordinator w)
    → ((h : Bytes) → w.new_signature h s.network_private_key ≢ none)
    → (sign_message w a msg s).0 ≢ panic
unfolding sign_message
sign_message_safe w a msg s signs =
    if_safe w a s.network_private_key signs (a.point_eq s.aggregate_public_key a.default_point) _ _
      (λ q. ground arith)
      ((bind-Total (Keyed w a s.network_private_key signs) (Keyed w a s.network_private_key signs)
          (Anything w a s.network_private_key signs) _ _
          (nonce_rounds-Total w a s.network_private_key signs (suc (length s.network.inbox)) msg)
          λ u. sign_with_nonces-Total w a s.network_private_key signs msg).safe
        s refl)
