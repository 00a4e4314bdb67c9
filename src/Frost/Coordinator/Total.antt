-- ===== src/Frost/Coordinator/Total.antt =====
-- `sign_message` of frost-coordinator/src/coordinator.rs does not panic.
use core_eng.Prelude.{
  ℕ, List, [], ◌∷◌, ◌≡◌, ◌≢◌, refl, arith, Bool, true, false, subst, ap, if◌then◌else◌, is_empty,
  none, some, Option, ◌∙◌, sym,
}
use core_eng.Prelude.Outcome.{Outcome, ok, err, panic, unwrap, ◌>>=◌}
use core_eng.Prelude.Exec.{modify}
use core_eng.Prelude.Total.{Total, bind-Total}
use core_eng.Frost.Wsts.{Wsts, Bytes}
use core_eng.Frost.Messages.{Message, MessageTypes}
use core_eng.Frost.Hash.{sign, preimage}
use core_eng.Frost.Coordinator.Defs.{
  Aggregation, Coordinator, NetError, Run, Error, take_message, send_signed, send_message, send_on,
}
use core_eng.Frost.Coordinator.Steps.{IsRequest, SignSteps}
use core_eng.Frost.Coordinator.Steps.Signing.{request_nonces_step, await_nonces_step}
use core_eng.Prelude.Keeps.{Keeps}
use core_eng.Frost.Coordinator.Sign.{
  on_nonce, nonces_complete, nonce_loop, request_nonces, next_request, await_nonces, collect_nonces,
  on_share, share_loop,
}

module _ (w : Wsts) (a : Aggregation w) (key : w.Scalar)
    (signs : (h : Bytes) → w.new_signature h key ≢ none) where
  -- The coordinator signs with this key.
  abbrev pub HasKey : Coordinator w → Type 0
  HasKey s = s.network_private_key ≡ key

  unwrap-safe :
      {A B : Type 0} (o : Option A) (f : A → B)
      → o ≢ none
      → (unwrap {E = Error} o >>= λ g. ok (f g)) ≢ panic
  unwrap-safe none f h = absurd (h refl)
  unwrap-safe (some g) f h = λ q. ground arith

  sign-safe : (x : MessageTypes w) → IsRequest w x → sign w {E = Error} x key ≢ panic
  unfolding sign preimage
  sign-safe (MessageTypes.dkg_begin m) h = unwrap-safe _ _ (signs _)
  sign-safe (MessageTypes.dkg_private_begin m) h = unwrap-safe _ _ (signs _)
  sign-safe (MessageTypes.nonce_request m) h = unwrap-safe _ _ (signs _)
  sign-safe (MessageTypes.sign_share_request m) h = unwrap-safe _ _ (signs _)
  sign-safe _ h = absurd h

  send_on-safe :
      (m : Message w) (later : List (Option NetError)) (s : Coordinator w)
      → (send_on w m later s).0 ≢ panic
  unfolding send_on
  send_on-safe m [] s = λ q. ground arith
  send_on-safe m (none ∷ later) s = λ q. ground arith
  send_on-safe m (some e ∷ later) s = λ q. ground arith

  pub send_signed-safe :
      (x : MessageTypes w) (s : Coordinator w)
      → IsRequest w x
      → HasKey s
      → (send_signed w x s).0 ≢ panic
  unfolding send_signed send_message
  send_signed-safe x s h k = go (sign w x s.network_private_key) refl
    where
      go :
          (r : Outcome Error Bytes)
          → sign w x s.network_private_key ≡ r
          → (send_signed w x s).0 ≢ panic
      go (ok sig) e = rw e (send_on-safe (record { msg = x; sig = sig }) s.network.sends s)
      go (err y) e = rw e (λ q. ground arith)
      go panic e = absurd (sign-safe x h (subst (λ z. sign w {E = Error} x z ≡ panic) k e))

  pub send_signed-key :
      (x : MessageTypes w) (s : Coordinator w)
      → (send_signed w x s).1.network_private_key ≡ s.network_private_key
  unfolding send_signed send_message send_on
  send_signed-key x s = ground arith

  unfoldable pub SameKey : Coordinator w → Coordinator w → Type 0
  SameKey s t = t.network_private_key ≡ s.network_private_key

  pub key_steps : SignSteps w SameKey
  unfolding SameKey
  key_steps = record {
    order = record { here = λ s. refl; join = λ s t u x y. y ∙ x };
    sent = λ x h. record { at = send_signed-key x };
    taken = λ rest s. refl;
    nonces = λ ns s. refl;
    shares = λ ss s. refl;
  }

  -- What does not panic and keeps the key.
  pub keep_key :
      {A : Type 0} (m : Run w A)
      → Keeps SameKey m
      → ((s : Coordinator w) → HasKey s → (m s).0 ≢ panic)
      → Total HasKey HasKey m
  unfolding SameKey
  keep_key m k safe = record {
    safe = safe;
    gives = λ s t x h e. ap (λ r. r.1.network_private_key) (sym e) ∙ k.at s ∙ h;
  }

  pub if_safe :
      {A : Type 0} (b : Bool) (x y : Outcome Error A × Coordinator w)
      → x.0 ≢ panic
      → y.0 ≢ panic
      → (if b then x else y).0 ≢ panic
  if_safe true x y hx hy = hx
  if_safe false x y hx hy = hy

  nonce_loop-safe :
      (inbox : List (Message w)) (s : Coordinator w) → (nonce_loop w a inbox s).0 ≢ panic
  unfolding nonce_loop
  nonce_loop-safe [] s = λ q. ground arith
  nonce_loop-safe (m ∷ rest) s =
      if_safe (nonces_complete w a (on_nonce w a m.msg (take_message w rest s))) _ _
        (λ q. ground arith) (nonce_loop-safe rest (on_nonce w a m.msg (take_message w rest s)))

  pub share_loop-safe :
      (inbox : List (Message w)) (ids : List ℕ) (s : Coordinator w)
      → (share_loop w a inbox ids s).0 ≢ panic
  unfolding share_loop
  share_loop-safe [] ids s = if_safe (is_empty ids) _ _ (λ q. ground arith) (λ q. ground arith)
  share_loop-safe (m ∷ rest) ids s =
      let next = on_share w a m.msg ids (take_message w rest s) in
      if_safe (is_empty ids) _ _ (λ q. ground arith) (share_loop-safe rest next.0 next.1)

  request_nonces-Total : Total HasKey HasKey (request_nonces w a)
  unfolding request_nonces
  request_nonces-Total =
      keep_key (request_nonces w a) (request_nonces_step w a SameKey key_steps)
        λ s h. send_signed-safe (MessageTypes.nonce_request (next_request w a s)) s tt h

  await_nonces-Total : Total HasKey HasKey (await_nonces w a)
  unfolding await_nonces
  await_nonces-Total =
      keep_key (await_nonces w a) (await_nonces_step w a SameKey key_steps)
        λ s h. nonce_loop-safe s.network.inbox s

  pub collect_nonces-Total : Total HasKey HasKey (collect_nonces w a)
  unfolding collect_nonces
  collect_nonces-Total =
      bind-Total HasKey HasKey HasKey (modify (λ s. record s { public_nonces = [] })) _
        (keep_key _ (record { at = λ s. key_steps.nonces [] s }) λ s h. λ q. ground arith)
        λ u. bind-Total HasKey HasKey HasKey _ _ request_nonces-Total λ u'. await_nonces-Total
