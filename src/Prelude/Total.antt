-- ===== src/Prelude/Total.antt =====
-- Methods that do not panic: from a state with `P` a call ends without one, and where it returns a
-- value, in a state with `Q`.
use mathlib.Core.Path.{◌≡◌, refl, ap}
use mathlib.Core.Logic.{◌≢◌}
use native.Mathlib.Omega.{arith}
use core_eng.Prelude.Outcome.{Outcome, ok, err, panic}
use core_eng.Prelude.Exec.{Exec, then_on, ◌>>=◌}

module _ {S : Type 0} {E : Type 0} where
  pub record Total {A : Type 0} (P Q : S → Type 0) (m : Exec S E A) : Type 0 where
    pub safe : (s : S) → P s → (m s).0 ≢ panic
    pub gives : (s t : S) (a : A) → P s → m s ≡ (ok a, t) → Q t

  then_on-safe :
      {A B : Type 0} (f : A → Exec S E B) (r : Outcome E A) (t : S)
      → r ≢ panic
      → ((a : A) → r ≡ ok a → (f a t).0 ≢ panic)
      → (then_on f r t).0 ≢ panic
  then_on-safe f (ok a) t h k = k a refl
  then_on-safe f (err e) t h k = λ q. ground arith
  then_on-safe f panic t h k = absurd (h refl)

  then_on-gives :
      {A B : Type 0} (Q : S → Type 0) (f : A → Exec S E B) (r : Outcome E A) (t u : S) (b : B)
      → ((a : A) → r ≡ ok a → f a t ≡ (ok b, u) → Q u)
      → then_on f r t ≡ (ok b, u)
      → Q u
  then_on-gives Q f (ok a) t u b k h = k a refl h
  then_on-gives Q f (err e) t u b k h = absurd (ground arith)
  then_on-gives Q f panic t u b k h = absurd (ground arith)

  pub bind-Total :
      {A B : Type 0} (P Q R : S → Type 0) (m : Exec S E A) (f : A → Exec S E B)
      → Total P Q m
      → ((a : A) → Total Q R (f a))
      → Total P R (m >>= f)
  bind-Total P Q R m f h k = record {
    safe = λ s p.
        then_on-safe f (m s).0 (m s).1 (h.safe s p)
          λ a e. (k a).safe (m s).1 (h.gives s (m s).1 a p (ap (λ r. (r, (m s).1)) e));
    gives = λ s u b p.
        then_on-gives R f (m s).0 (m s).1 u b
          λ a e. (k a).gives (m s).1 u b (h.gives s (m s).1 a p (ap (λ r. (r, (m s).1)) e));
  }
