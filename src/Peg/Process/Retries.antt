-- ===== src/Peg/Process/Retries.antt =====
-- How often `try_broadcast_transaction` of stacks-coordinator/src/coordinator.rs tries.
use core_eng.Prelude.{
  ℕ, zero, suc, ◌+◌, ◌≤◌, ◌<◌, [], ◌∷◌, ◌≡◌, refl, arith, Option, none, some, Bool, true, false,
  Text, ltb, length, length-append, if◌then◌else◌,
}
use core_eng.Prelude.Outcome.{Outcome, ok, err, panic}
use core_eng.Prelude.Exec.{Exec, then_on, ◌>>=◌}
use core_eng.Peg.Process.Broadcast.{
  NodeError, fee_too_low, conflicting_nonce_in_mempool, other_error, Error, Stacks, Run, next_nonce,
  broadcast, build_transaction, on_answer, attempts, try_broadcast_transaction, max_nonce_retries,
  max_fee_retries, enough_attempts,
}

then_on-same :
    {S E A B : Type 0} (f g : A → Exec S E B) (r : Outcome E A) (s : S)
    → ((x : A) → f x s ≡ g x s)
    → then_on f r s ≡ then_on g r s
then_on-same f g (ok x) s h = h x
then_on-same f g (err e) s h = refl
then_on-same f g panic s h = refl

module _ (Tx : Type 0) where
  if-same :
      (b : Bool) (x y z : Outcome Error (Unit {0}) × Stacks Tx)
      → (b ≡ false → y ≡ z)
      → (if b then x else y) ≡ (if b then x else z)
  if-same true x y z h = refl
  if-same false x y z h = h refl

  -- Both go on alike where a turn leads that is within the limits.
  abbrev Alike : (ℕ → ℕ → ℕ → Run Tx (Unit {0})) → (ℕ → ℕ → ℕ → Run Tx (Unit {0})) → ℕ → Type 0
  Alike f g turns =
      (nonce nonces fees : ℕ) (s : Stacks Tx)
      → nonces ≤ 10
      → fees ≤ 2
      → nonces + fees ≡ turns
      → f nonce nonces fees s ≡ g nonce nonces fees s

  on_answer-same :
      (answer : Option NodeError) (nonce nonces fees : ℕ) (f g : ℕ → ℕ → ℕ → Run Tx (Unit {0}))
      (s : Stacks Tx)
      → nonces ≤ 10
      → fees ≤ 2
      → Alike f g (suc (nonces + fees))
      → on_answer Tx answer nonce nonces fees f s ≡ on_answer Tx answer nonce nonces fees g s
  unfolding on_answer
  on_answer-same none nonce nonces fees f g s n m h = refl
  on_answer-same (some conflicting_nonce_in_mempool) nonce nonces fees f g s n m h =
      if-same (ltb max_nonce_retries (nonces + 1)) _ _ _ λ more.
        then_on-same (λ k. f k (nonces + 1) fees) (λ k. g k (nonces + 1) fees) (next_nonce Tx s).0
          (next_nonce Tx s).1
          λ k. h k (nonces + 1) fees (next_nonce Tx s).1 (ground arith) m (omega arith)
  on_answer-same (some (fee_too_low expected actual)) nonce nonces fees f g s n m h =
      if-same (ltb max_fee_retries (fees + 1)) _ _ _ λ more.
        h nonce nonces (fees + 1) (record s { fee = expected }) n (ground arith) (omega arith)
  on_answer-same (some (other_error e)) nonce nonces fees f g s n m h = refl

  -- With any two amounts of fuel above the number of retries that are left, the loop does the same.
  pub attempts-fuel :
      (n m : ℕ) (build : ℕ → ℕ → Outcome Text Tx) (nonce nonces fees : ℕ) (s : Stacks Tx)
      → nonces ≤ 10
      → fees ≤ 2
      → 12 < n + (nonces + fees)
      → 12 < m + (nonces + fees)
      → attempts Tx n build nonce nonces fees s ≡ attempts Tx m build nonce nonces fees s
  unfolding attempts
  attempts-fuel zero m build nonce nonces fees s a b h k = absurd (omega arith)
  attempts-fuel (suc n) zero build nonce nonces fees s a b h k = absurd (omega arith)
  attempts-fuel (suc n) (suc m) build nonce nonces fees s a b h k =
      let ih = attempts-fuel n m build in
      let built = build_transaction Tx build nonce s in
      then_on-same _ _ built.0 built.1 λ tx.
        let answered = broadcast Tx tx built.1 in
        then_on-same _ _ answered.0 answered.1 λ answer.
          on_answer-same answer nonce nonces fees (attempts Tx n build) (attempts Tx m build)
            answered.1 a b
            λ nonce' nonces' fees' s' a' b' e.
              ih nonce' nonces' fees' s' a' b' (omega (arith, h, e)) (omega (arith, k, e))

  abbrev given : Stacks Tx → ℕ
  given s = length s.sent

  then_on_le :
      {A : Type 0} (f : A → Run Tx (Unit {0})) (r : Outcome Error A) (s : Stacks Tx) (bound : ℕ)
      → given s ≤ bound
      → ((x : A) → given (f x s).1 ≤ bound)
      → given (then_on f r s).1 ≤ bound
  then_on_le f (ok x) s bound h k = k x
  then_on_le f (err e) s bound h k = h
  then_on_le f panic s bound h k = h

  if_le :
      (b : Bool) (x y : Outcome Error (Unit {0}) × Stacks Tx) (bound : ℕ)
      → given x.1 ≤ bound
      → given y.1 ≤ bound
      → given (if b then x else y).1 ≤ bound
  if_le true x y bound h k = h
  if_le false x y bound h k = k

  next_nonce-given : (s : Stacks Tx) → given (next_nonce Tx s).1 ≡ given s
  unfolding next_nonce
  next_nonce-given s = ground arith

  broadcast-given : (tx : Tx) (s : Stacks Tx) → given (broadcast Tx tx s).1 ≡ suc (given s)
  unfolding broadcast
  broadcast-given tx s = ground (arith, length-append s.sent (tx ∷ []))

  build_transaction-given :
      (build : ℕ → ℕ → Outcome Text Tx) (nonce : ℕ) (s : Stacks Tx)
      → given (build_transaction Tx build nonce s).1 ≡ given s
  unfolding build_transaction
  build_transaction-given build nonce s = ground arith

  on_answer_le :
      (answer : Option NodeError) (nonce nonces fees : ℕ) (f : ℕ → ℕ → ℕ → Run Tx (Unit {0}))
      (s : Stacks Tx) (more : ℕ)
      → ((k i j : ℕ) (t : Stacks Tx) → given (f k i j t).1 ≤ given t + more)
      → given (on_answer Tx answer nonce nonces fees f s).1 ≤ given s + more
  unfolding on_answer
  on_answer_le none nonce nonces fees f s more h = omega arith
  on_answer_le (some conflicting_nonce_in_mempool) nonce nonces fees f s more h =
      if_le (ltb max_nonce_retries (nonces + 1)) _ _ (given s + more) (omega arith) (
        then_on_le (λ k. f k (nonces + 1) fees) (next_nonce Tx s).0 (next_nonce Tx s).1
          (given s + more) (omega (arith, next_nonce-given s))
          λ k. omega (arith, next_nonce-given s, h k (nonces + 1) fees (next_nonce Tx s).1))
  on_answer_le (some (fee_too_low expected actual)) nonce nonces fees f s more h =
      if_le (ltb max_fee_retries (fees + 1)) _ _ (given s + more) (omega arith)
        (h nonce nonces (fees + 1) (record s { fee = expected }))
  on_answer_le (some (other_error e)) nonce nonces fees f s more h = omega arith

  attempts_le :
      (n : ℕ) (build : ℕ → ℕ → Outcome Text Tx) (nonce nonces fees : ℕ) (s : Stacks Tx)
      → given (attempts Tx n build nonce nonces fees s).1 ≤ given s + n
  unfolding attempts
  attempts_le zero build nonce nonces fees s = omega arith
  attempts_le (suc n) build nonce nonces fees s =
      let built = build_transaction Tx build nonce s in
      let same = build_transaction-given build nonce s in
      then_on_le _ built.0 built.1 (given s + suc n) (omega (arith, same)) λ tx.
        let answered = broadcast Tx tx built.1 in
        let one = broadcast-given tx built.1 in
        then_on_le _ answered.0 answered.1 (given s + suc n) (omega (arith, same, one)) λ answer.
          let rest =
            on_answer_le answer nonce nonces fees (attempts Tx n build) answered.1 n
              λ k i j t. attempts_le n build k i j t in
          omega (arith, same, one, rest)

  -- The node is given at most 13 transactions, one and a retry for each of 10 conflicting nonces and
  -- of 2 fees that are too low, whatever it answers: the fuel of the loop is not what bounds it, as
  -- any more fuel gives the same outcome.
  pub try_broadcast_transaction-bounded :
      (build : ℕ → ℕ → Outcome Text Tx) (s : Stacks Tx)
      → (length (try_broadcast_transaction Tx build s).1.sent ≤ length s.sent + 13)
        × ((fuel : ℕ)
            → 13 ≤ fuel
            → (next_nonce Tx >>= λ nonce. attempts Tx fuel build nonce 0 0) s
              ≡ try_broadcast_transaction Tx build s)
  unfolding try_broadcast_transaction
  try_broadcast_transaction-bounded build s =
      let first = next_nonce Tx s in
      let same = next_nonce-given s in
      (
        then_on_le (λ nonce. attempts Tx enough_attempts build nonce 0 0) first.0 first.1
            (given s + 13) (omega (arith, same))
            (λ nonce. omega (arith, same, attempts_le 13 build nonce 0 0 first.1)),
        λ fuel h. then_on-same _ _ first.0 first.1 λ nonce.
            attempts-fuel fuel enough_attempts build nonce 0 0 first.1 (omega arith) (omega arith)
              (omega (arith, h)) (omega arith),
      )
