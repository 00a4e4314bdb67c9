-- ===== src/Prelude/Exec.antt =====
-- A method with `&mut self`: it takes the object and returns how the call ended and the object
-- after it, which an error or a panic leaves as it was at that point.
use mathlib.Core.List.{List, [], ◌∷◌}
use mathlib.Core.Path.{◌≡◌, refl, ap}
use mathlib.Core.Logic.{◌≢◌}
use native.Mathlib.Omega.{arith}
use core_eng.Prelude.Outcome.{Outcome, ok, err, panic, ok-injective}

abbrev pub Exec {ℓ κ} : Type κ → Type 0 → Type ℓ → Type (ℓ ⊔ κ)
Exec S E A = S → Outcome E A × S

module _ {ℓ κ} {S : Type κ} {E : Type 0} {A : Type ℓ} where
  abbrev pub pure : A → Exec S E A
  pure a s = (ok a, s)

  abbrev pub raise : E → Exec S E A
  raise e s = (err e, s)

  abbrev pub crash : Exec S E A
  crash s = (panic, s)

  -- A call that does not touch the object.
  abbrev pub lift : Outcome E A → Exec S E A
  lift r s = (r, s)

  abbrev pub gets : (S → A) → Exec S E A
  gets f s = (ok (f s), s)

  abbrev pub then_on {μ} : {B : Type μ} → (A → Exec S E B) → Outcome E A → S → Outcome E B × S
  then_on f (ok a) s = f a s
  then_on f (err e) s = (err e, s)
  then_on f panic s = (panic, s)

abbrev pub modify {κ} : {S : Type κ} {E : Type 0} → (S → S) → Exec S E (Unit {0})
modify f s = (ok tt, f s)

infixl 5 ◌>>=◌ ◌>>◌
abbrev pub ◌>>=◌ {ℓ κ μ} :
    {S : Type κ} {E : Type 0} {A : Type ℓ} {B : Type μ} → Exec S E A → (A → Exec S E B) → Exec S E B
◌>>=◌ m f s = then_on f (m s).0 (m s).1

abbrev pub ◌>>◌ {κ μ} :
    {S : Type κ} {E : Type 0} {B : Type μ} → Exec S E (Unit {0}) → Exec S E B → Exec S E B
m >> k = m >>= λ _. k

-- `for x in xs { … }` with a fallible body over an accumulator.
unfoldable pub fold_outcome {ℓ κ} :
    {E : Type 0} {S : Type ℓ} {X : Type κ} → (S → X → Outcome E S) → S → List X → Outcome E S
fold_outcome f s [] = ok s
fold_outcome f s (x ∷ xs) = elim (f s x) [
  | ok s' ↦ fold_outcome f s' xs
  | err e ↦ err e
  | panic ↦ panic
]

-- The same over the object.
unfoldable pub for_each {ℓ κ} :
    {S : Type κ} {E : Type 0} {X : Type ℓ}
    → (X → Exec S E (Unit {0}))
    → List X
    → Exec S E (Unit {0})
for_each f [] = pure tt
for_each f (x ∷ xs) = f x >> for_each f xs

then_on-ok {ℓ κ μ} :
    {S : Type κ} {E : Type 0} {A : Type ℓ} {B : Type μ} (f : A → Exec S E B) (r : Outcome E A)
    (s t : S) (b : B)
    → then_on f r s ≡ (ok b, t)
    → (a : A) × (r ≡ ok a) × (f a s ≡ (ok b, t))
then_on-ok f (ok a) s t b h = (a, refl, h)
then_on-ok f (err e) s t b h = absurd (ground arith)
then_on-ok f panic s t b h = absurd (ground arith)

-- A bind that returned: its first part did, and its second from there.
pub bind-returns {ℓ κ μ} :
    {S : Type κ} {E : Type 0} {A : Type ℓ} {B : Type μ} (m : Exec S E A) (f : A → Exec S E B)
    (s t : S) (b : B)
    → (m >>= f) s ≡ (ok b, t)
    → (a : A) × (u : S) × (m s ≡ (ok a, u)) × (f a u ≡ (ok b, t))
bind-returns m f s t b h =
    let (a, e, k) = then_on-ok f (m s).0 (m s).1 t b h in (a, (m s).1, ap (λ r. (r, (m s).1)) e, k)

pub pure-returns {ℓ κ} :
    {S : Type κ} {E : Type 0} {A : Type ℓ} (x y : A) (s t : S)
    → pure {E = E} x s ≡ (ok y, t)
    → (x ≡ y) × (s ≡ t)
pure-returns {E = E} x y s t h = (ok-injective (ap (λ r. r.0) h) refl, ap (λ r. r.1) h)

-- A call that returns no value, from whatever object.
abbrev pub Fails {ℓ κ} : {S : Type κ} {E : Type 0} {A : Type ℓ} → Exec S E A → Type (ℓ ⊔ κ)
Fails {S} {A = A} m = (s : S) (a : A) → (m s).0 ≢ ok a

module _ {ℓ κ μ} {S : Type κ} {E : Type 0} {A : Type ℓ} {B : Type μ} where
  then_on-Fails :
      (f : A → Exec S E B) (r : Outcome E A) (s : S) (b : B)
      → ((a : A) → Fails (f a))
      → (then_on f r s).0 ≢ ok b
  then_on-Fails f (ok a) s b h = h a s b
  then_on-Fails f (err e) s b h = λ k. cc
  then_on-Fails f panic s b h = λ k. cc

  -- What follows fails, so the whole does.
  pub bind-Fails : (m : Exec S E A) (f : A → Exec S E B) → ((a : A) → Fails (f a)) → Fails (m >>= f)
  bind-Fails m f h s b = then_on-Fails f (m s).0 (m s).1 b h

pub raise-Fails {ℓ κ} :
    {S : Type κ} {E : Type 0} {A : Type ℓ} (e : E) → Fails {S = S} {A = A} (raise e)
raise-Fails e s a = λ k. cc
