-- ===== src/Frost/Coordinator/Rounds.antt =====
-- The nonce loop of `sign_message` in frost-coordinator/src/coordinator.rs ends.
use core_eng.Prelude.{
  sym, ℕ, zero, suc, ◌<◌, List, [], ◌∷◌, ◌≡◌, refl, arith, Bool, true, false, Bool-cases, inl, inr,
  length, subst, ap,
}
use core_eng.Prelude.Outcome.{Outcome, ok, err, panic}
use core_eng.Prelude.Exec.{modify, then_on, ◌>>◌ as next, bind-returns}
use core_eng.Frost.Wsts.{Wsts, Bytes}
use core_eng.Frost.Messages.{Message, MessageTypes}
use core_eng.Frost.Coordinator.Defs.{
  Aggregation, Coordinator, Run, Error, take_message, send_signed, send_message, send_on,
}
use core_eng.Frost.Coordinator.Sign.{
  on_nonce, nonces_complete, nonce_loop, request_nonces, next_request, await_nonces, collect_nonces,
  aggregate_nonce, compute_aggregate_nonce, nonces_even, nonce_rounds,
}

module _ (w : Wsts) (a : Aggregation w) where
  abbrev waiting : Coordinator w → ℕ
  waiting s = length s.network.inbox

  on_nonce-inbox : (x : MessageTypes w) (s : Coordinator w) → waiting (on_nonce w a x s) ≡ waiting s
  unfolding on_nonce
  on_nonce-inbox (MessageTypes.nonce_response m) s = refl
  on_nonce-inbox _ s = refl

  nonce_loop-inbox :
      (inbox : List (Message w)) (s t : Coordinator w)
      → nonce_loop w a inbox s ≡ (ok tt, t)
      → waiting t < length inbox
  unfolding nonce_loop
  nonce_loop-inbox [] s t h = absurd (ground arith)
  nonce_loop-inbox (m ∷ rest) s t h =
      let u = on_nonce w a m.msg (take_message w rest s) in
      elim (Bool-cases (nonces_complete w a u)) [
        | inl full ↦
            let e : (ok tt, u) ≡ (ok tt, t) = rw full at h in
            let same : waiting t ≡ length rest =
              subst (λ x. waiting x ≡ length rest) (ap (λ r. r.1) e)
                (on_nonce-inbox m.msg (take_message w rest s)) in
            omega (arith, same)
        | inr more ↦ let ih = nonce_loop-inbox rest u t (rw more at h) in omega (arith, ih)
      ]

  send_signed-inbox :
      (x : MessageTypes w) (s : Coordinator w) → waiting (send_signed w x s).1 ≡ waiting s
  unfolding send_signed send_message send_on
  send_signed-inbox x s = ground arith

  compute_aggregate_nonce-inbox :
      (msg : Bytes) (r : w.Point) (s t : Coordinator w)
      → compute_aggregate_nonce w a msg s ≡ (ok r, t)
      → waiting t < waiting s
  unfolding compute_aggregate_nonce collect_nonces request_nonces await_nonces
  compute_aggregate_nonce-inbox msg r s t h =
      let collect = next (request_nonces w a) (await_nonces w a) in
      let clear = modify (λ x. record x { public_nonces = [] }) in
      let (u1, s1, e1, h1) =
        bind-returns (next clear collect) (λ u x. (ok (aggregate_nonce w a msg x), x)) s t r h in
      let (u2, s2, e2, h2) = bind-returns clear (λ u. collect) s s1 tt e1 in
      let (u3, s3, e3, h3) =
        bind-returns (request_nonces w a) (λ u. await_nonces w a) s2 s1 tt h2 in
      let asked : waiting s3 ≡ waiting s2 =
        subst (λ x. waiting x.1 ≡ waiting s2) e3
          (send_signed-inbox (MessageTypes.nonce_request (next_request w a s2)) s2) in
      let same : waiting s2 ≡ waiting s = ap (λ x. waiting x.1) (sym e2) in
      let final : waiting s1 ≡ waiting t = ap (λ x. waiting x.1) h1 in
      omega (arith, nonce_loop-inbox s3.network.inbox s3 s1 h3, asked, same, final)

  nonces_even-ok :
      (b : Bool) (f g : Run w (Unit {0})) (s : Coordinator w)
      → f s ≡ g s
      → nonces_even w a b f s ≡ nonces_even w a b g s
  nonces_even-ok true f g s h = refl
  nonces_even-ok false f g s h = h

  -- Every round of the nonce loop takes a message: with any two amounts of fuel that are larger than
  -- the number of messages to come, the rounds do the same.
  pub nonce_rounds-fuel :
      (n m : ℕ) (msg : Bytes) (s : Coordinator w)
      → length s.network.inbox < n
      → length s.network.inbox < m
      → nonce_rounds w a n msg s ≡ nonce_rounds w a m msg s
  unfolding nonce_rounds
  nonce_rounds-fuel zero m msg s hn hm = absurd (omega arith)
  nonce_rounds-fuel (suc n) zero msg s hn hm = absurd (omega arith)
  nonce_rounds-fuel (suc n) (suc m) msg s hn hm =
      go (compute_aggregate_nonce w a msg s).0 (compute_aggregate_nonce w a msg s).1 refl
        (nonce_rounds-fuel n m msg)
    where
      go :
          (o : Outcome Error w.Point) (t : Coordinator w)
          → compute_aggregate_nonce w a msg s ≡ (o, t)
          → ((t' : Coordinator w)
              → length t'.network.inbox < n
              → length t'.network.inbox < m
              → nonce_rounds w a n msg t' ≡ nonce_rounds w a m msg t')
          → then_on (λ r. nonces_even w a (a.has_even_y r) (nonce_rounds w a n msg)) o t
            ≡ then_on (λ r. nonces_even w a (a.has_even_y r) (nonce_rounds w a m msg)) o t
      go (ok r) t e ih =
          let less = compute_aggregate_nonce-inbox msg r s t e in
          nonces_even-ok (a.has_even_y r) (nonce_rounds w a n msg) (nonce_rounds w a m msg) t
            (ih t (omega (arith, less, hn)) (omega (arith, less, hm)))
      go (err x) t e ih = refl
      go panic t e ih = refl
