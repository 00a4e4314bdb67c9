-- ===== src/Prelude/Keeps.antt =====
-- What a method leaves unchanged, or moves in one direction only: a relation between the object
-- before and after, proved along the `do` block.
use core_eng.Prelude.Outcome.{Outcome, ok, err, panic}
use core_eng.Prelude.Exec.{Exec, pure, then_on, modify, ◌>>=◌}

pub record Preorder {S : Type 0} (R : S → S → Type 0) : Type 0 where
  pub here : (s : S) → R s s
  pub join : (s t u : S) → R s t → R t u → R s u

module _ {S : Type 0} {E : Type 0} where
  -- However the call ends.
  pub record Keeps {A : Type 0} (R : S → S → Type 0) (m : Exec S E A) : Type 0 where
    pub at : (s : S) → R s (m s).1

  then_on-Keeps :
      {A B : Type 0} (R : S → S → Type 0) (p : Preorder R) (f : A → Exec S E B)
      → ((a : A) → Keeps R (f a))
      → (r : Outcome E A) (s t : S) → R s t
      → R s (then_on f r t).1
  then_on-Keeps R p f k (ok a) s t h = p.join s t (f a t).1 h ((k a).at t)
  then_on-Keeps R p f k (err e) s t h = h
  then_on-Keeps R p f k panic s t h = h

  pub bind-Keeps :
      {A B : Type 0} (R : S → S → Type 0) (p : Preorder R) (m : Exec S E A) (f : A → Exec S E B)
      → Keeps R m
      → ((a : A) → Keeps R (f a))
      → Keeps R (m >>= f)
  bind-Keeps R p m f h k = record { at = λ s. then_on-Keeps R p f k (m s).0 s (m s).1 (h.at s) }

  -- A read of the object, which may fail.
  pub read-Keeps :
      {A B : Type 0} (R : S → S → Type 0) (p : Preorder R) (g : S → Outcome E A)
      (f : A → Exec S E B)
      → ((a : A) → Keeps R (f a))
      → Keeps {A = B} R ((λ s. (g s, s)) >>= f)
  read-Keeps R p g f k = bind-Keeps R p (λ s. (g s, s)) f (record { at = p.here }) k

  pub modify-Keeps :
      {B : Type 0} (R : S → S → Type 0) (p : Preorder R) (g : S → S) (f : Unit {0} → Exec S E B)
      → ((s : S) → R s (g s))
      → ((u : Unit {0}) → Keeps R (f u))
      → Keeps {A = B} R (modify g >>= f)
  modify-Keeps R p g f h k = bind-Keeps R p (modify g) f (record { at = h }) k

  pub pure-Keeps : {A : Type 0} (R : S → S → Type 0) (p : Preorder R) (a : A) → Keeps R (pure a)
  pure-Keeps R p a = record { at = λ s. p.here s }

  then_on_at :
      {A B : Type 0} (P Q : S → Type 0) (f : A → Exec S E B)
      → ((a : A) (t : S) → P t → Q (f a t).1)
      → ((t : S) → P t → Q t)
      → (r : Outcome E A) (t : S) → P t
      → Q (then_on f r t).1
  then_on_at P Q f k weaken (ok a) t h = k a t h
  then_on_at P Q f k weaken (err e) t h = weaken t h
  then_on_at P Q f k weaken panic t h = weaken t h

  -- A bind from one postcondition to another, which an early end has to give too.
  pub bind_at :
      {A B : Type 0} (P Q : S → Type 0) (m : Exec S E A) (f : A → Exec S E B) (s : S)
      → P (m s).1
      → ((a : A) (t : S) → P t → Q (f a t).1)
      → ((t : S) → P t → Q t)
      → Q ((m >>= f) s).1
  bind_at P Q m f s h k weaken = then_on_at P Q f k weaken (m s).0 (m s).1 h
