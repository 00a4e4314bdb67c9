-- ===== src/Frost/Coordinator/Keys.antt =====
-- The key that the key generation of frost-coordinator/src/coordinator.rs returns.
use core_eng.Prelude.{ℕ, List, [], ◌∷◌, ◌≡◌, refl, arith, true, Bool-cases, inl, inr, subst}
use core_eng.Prelude.Outcome.{ok}
use core_eng.Prelude.Exec.{pure, modify, raise, ◌>>=◌ as and_then, ◌>>◌ as next, bind-returns}
use core_eng.Frost.Wsts.{Wsts}
use core_eng.Frost.Messages.{Message}
use core_eng.Frost.Coordinator.Defs.{Aggregation, Coordinator, Run, timeout, take_message, ids_from}
use core_eng.Frost.Coordinator.Dkg.{
  Head, done, await, proceed, sum_of_shares, calculate_aggregate_public_key, check_key, loop_head,
  on_public, public_loop, start_public_shares,
}

module _ (w : Wsts) (a : Aggregation w) where
  -- The coordinator holds this key: it has an even y and is the sum of the first points of the
  -- public shares that are there.
  pub record IsKey (key : w.Point) (t : Coordinator w) : Type 0 where
    pub even : a.has_even_y key ≡ true
    pub stored : t.aggregate_public_key ≡ key
    pub sum : sum_of_shares w a t.dkg_public_shares ≡ ok key

  await-done :
      (key : w.Point) (s t : Coordinator w)
      → next (start_public_shares w a) (λ x. (ok (await (ids_from w 1 x.total_signers)), x)) s
        ≡ (ok (done key), t)
      → ⊥
  await-done key s t e =
      let (u, s', e1, e2) =
        bind-returns (start_public_shares w a)
          (λ v x. (ok (await (ids_from w 1 x.total_signers)), x)) s t (done key) e in
      ground arith

  check_key-done :
      (key key' : w.Point) (s t : Coordinator w)
      → sum_of_shares w a s.dkg_public_shares ≡ ok key
      → check_key w a key s ≡ (ok (done key'), t)
      → IsKey key' t
  unfolding check_key
  check_key-done key key' s t h e = elim (Bool-cases (a.has_even_y key)) [
    | inl even ↦
        let e' : (ok (done key), record s { aggregate_public_key = key }) ≡ (ok (done key'), t) =
          rw even at e in
        let k : key ≡ key' = ground arith in
        let u : record s { aggregate_public_key = key } ≡ t = ground arith in
        subst (λ q. IsKey q t) k
          (subst (λ x. IsKey key x) u (record { even = even; stored = refl; sum = h }))
    | inr odd ↦ absurd (await-done key' s t (rw odd at e))
  ]

  calculate-sum :
      (key : w.Point) (s t : Coordinator w)
      → calculate_aggregate_public_key w a s ≡ (ok key, t)
      → sum_of_shares w a t.dkg_public_shares ≡ ok key
  unfolding calculate_aggregate_public_key
  calculate-sum key s t e =
      let (k, s1, e1, h1) =
        bind-returns (λ x. (sum_of_shares w a x.dkg_public_shares, x))
          (λ k. next (modify (λ x. record x { aggregate_public_key = k })) (pure k)) s t key e in
      ground arith

  loop_head-done :
      (ids : List ℕ) (key : w.Point) (s t : Coordinator w)
      → loop_head w a ids s ≡ (ok (done key), t)
      → IsKey key t
  unfolding loop_head
  loop_head-done [] key s t e =
      let (k, s1, e1, h1) =
        bind-returns (calculate_aggregate_public_key w a) (check_key w a) s t (done key) e in
      check_key-done k key s1 t (calculate-sum k s s1 e1) h1
  loop_head-done (i ∷ ids) key s t e = absurd (ground arith)

  pub public_loop-IsKey :
      (inbox : List (Message w)) (ids : List ℕ) (key : w.Point) (s t : Coordinator w)
      → public_loop w a inbox ids s ≡ (ok key, t)
      → IsKey key t
  unfolding public_loop
  public_loop-IsKey [] ids key s t e =
      let (h, s1, e1, h1) =
        bind-returns (loop_head w a ids) (λ h. proceed w a h (λ left. raise timeout)) s t key e in
      go h s1 e1 h1
    where
      go :
          (h : Head w.Point) (s1 : Coordinator w)
          → loop_head w a ids s ≡ (ok h, s1)
          → proceed w a h (λ left. raise timeout) s1 ≡ (ok key, t)
          → IsKey key t
      go (done k) s1 e1 h1 = loop_head-done ids key s t (ground arith)
      go (await left) s1 e1 h1 = absurd (ground arith)
  public_loop-IsKey (m ∷ rest) ids key s t e =
      let (h, s1, e1, h1) = bind-returns (loop_head w a ids) (λ h. proceed w a h again) s t key e in
      go h s1 e1 h1 (public_loop-IsKey rest)
    where
      after : List ℕ → Run w w.Point
      after left = and_then (on_public w a m.msg left) (public_loop w a rest)

      again : List ℕ → Run w w.Point
      again left = next (modify (take_message w rest)) (after left)

      go :
          (h : Head w.Point) (s1 : Coordinator w)
          → loop_head w a ids s ≡ (ok h, s1)
          → proceed w a h again s1 ≡ (ok key, t)
          → ((ids' : List ℕ) (key' : w.Point) (s' t' : Coordinator w)
              → public_loop w a rest ids' s' ≡ (ok key', t')
              → IsKey key' t')
          → IsKey key t
      go (done k) s1 e1 h1 ih = loop_head-done ids key s t (ground arith)
      go (await left) s1 e1 h1 ih =
          let (u, s2, e2, h2) =
            bind-returns (modify (take_message w rest)) (λ v. after left) s1 t key h1 in
          let (left', s3, e3, h3) =
            bind-returns (on_public w a m.msg left) (public_loop w a rest) s2 t key h2 in
          ih left' key s3 t h3
