-- ===== src/Prelude/Outcome.antt =====
-- How a Rust call ends: with a value, with an error value (`Err`), or with a panic.
use mathlib.Core.Path.{◌≡◌, refl}
use mathlib.Core.Option.{Option, none, some}

pub data Outcome {ℓ} (E : Type 0) (A : Type ℓ) : Type ℓ where
  ok : A → Outcome E A
  err : E → Outcome E A
  panic : Outcome E A

-- `?` on a call without state.
infixl 5 ◌>>=◌
abbrev pub ◌>>=◌ {ℓ κ} :
    {E : Type 0} {A : Type ℓ} {B : Type κ} → Outcome E A → (A → Outcome E B) → Outcome E B
ok a >>= f = f a
err e >>= f = err e
panic >>= f = panic

-- `unwrap` and indexing.
abbrev pub unwrap {ℓ} : {E : Type 0} {A : Type ℓ} → Option A → Outcome E A
unwrap none = panic
unwrap (some a) = ok a

abbrev pub ok_or {ℓ} : {E : Type 0} {A : Type ℓ} → Option A → E → Outcome E A
ok_or none e = err e
ok_or (some a) e = ok a

-- A bind that returns a value: the first part returned one, and the second from it.
pub bind-ok {ℓ κ} :
    {E : Type 0} {A : Type ℓ} {B : Type κ} (m : Outcome E A) (f : A → Outcome E B) (b : B)
    → (m >>= f) ≡ ok b
    → (a : A) × (m ≡ ok a) × (f a ≡ ok b)
bind-ok (ok a) f b h = (a, refl, h)
bind-ok (err e) f b h = cc
bind-ok panic f b h = cc

pub ok-injective {ℓ} :
    {E : Type 0} {A : Type ℓ} {x : Outcome E A} {a b : A} → x ≡ ok b → x ≡ ok a → a ≡ b
ok-injective h e = cc

pub ok_or-some : {E A : Type 0} (o : Option A) (e : E) (x : A) → ok_or o e ≡ ok x → o ≡ some x
ok_or-some none e x h = cc
ok_or-some (some y) e x h = cc
