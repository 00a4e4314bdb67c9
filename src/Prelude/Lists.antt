-- ===== src/Prelude/Lists.antt =====
-- Lists measured and indexed by native numbers, under the library's names.
use Prim.Native.Nat.{ℕ, zero, suc, ◌+◌, ◌≤◌, ◌<◌}
use mathlib.Core.Path.{◌≡◌, refl, ap, subst}
use mathlib.Core.Bool.{Bool, true, false}
use mathlib.Core.List.{List, [], ◌∷◌, ◌++◌, map}
use mathlib.Core.Option.{Option, none, some}
use native.Mathlib.Omega.{arith}
use core_eng.Prelude.Tests.{◌==◌, if◌then◌else◌}

module _ {ℓ} {A : Type ℓ} where
  abbrev pub length : List A → ℕ
  length [] = 0
  length (x ∷ xs) = suc (length xs)

  abbrev pub get_elem? : List A → ℕ → Option A
  get_elem? [] i = none
  get_elem? (x ∷ xs) zero = some x
  get_elem? (x ∷ xs) (suc i) = get_elem? xs i

  abbrev pub take : ℕ → List A → List A
  take zero xs = []
  take (suc n) [] = []
  take (suc n) (x ∷ xs) = x ∷ take n xs

  abbrev pub drop : ℕ → List A → List A
  drop zero xs = xs
  drop (suc n) [] = []
  drop (suc n) (x ∷ xs) = drop n xs

  pub length-append : (xs ys : List A) → length (xs ++ ys) ≡ length xs + length ys
  length-append [] ys = omega arith
  length-append (x ∷ xs) ys = omega (arith, length-append xs ys)

  pub take-append_le : (n : ℕ) (xs ys : List A) → n ≤ length xs → take n (xs ++ ys) ≡ take n xs
  take-append_le zero xs ys h = refl
  take-append_le (suc n) [] ys h = absurd (omega arith)
  take-append_le (suc n) (x ∷ xs) ys h = ap (λ l. x ∷ l) (take-append_le n xs ys (omega arith))

  -- Reading at `i` is what `take` gains there.
  pub take-suc :
      (i : ℕ) (xs : List A) {a : A}
      → get_elem? xs i ≡ some a
      → take (suc i) xs ≡ take i xs ++ a ∷ []
  take-suc i [] h = ground arith
  take-suc zero (x ∷ xs) h = ground arith
  take-suc (suc i) (x ∷ xs) h = ap (λ l. x ∷ l) (take-suc i xs h)

  pub get_elem?_lt : (i : ℕ) (xs : List A) {a : A} → get_elem? xs i ≡ some a → i < length xs
  get_elem?_lt i [] h = ground arith
  get_elem?_lt zero (x ∷ xs) h = omega arith
  get_elem?_lt (suc i) (x ∷ xs) h = omega (arith, get_elem?_lt i xs h)

  pub get_elem?-none : (i : ℕ) (xs : List A) → get_elem? xs i ≡ none → length xs ≤ i
  get_elem?-none i [] h = omega arith
  get_elem?-none zero (x ∷ xs) h = ground arith
  get_elem?-none (suc i) (x ∷ xs) h = omega (arith, get_elem?-none i xs h)

  pub take_all : (n : ℕ) (xs : List A) → length xs ≤ n → take n xs ≡ xs
  take_all zero [] h = refl
  take_all zero (x ∷ xs) h = absurd (omega arith)
  take_all (suc n) [] h = refl
  take_all (suc n) (x ∷ xs) h = ap (λ l. x ∷ l) (take_all n xs (omega arith))

  -- Every element satisfies `P`; it computes to a tuple.
  abbrev pub All {κ} : (A → Type κ) → List A → Type κ
  All P [] = Unit
  All P (x ∷ xs) = P x × All P xs

  pub All-append {κ} : (P : A → Type κ) (xs ys : List A) → All P xs → All P ys → All P (xs ++ ys)
  All-append P [] ys hx hy = hy
  All-append P (x ∷ xs) ys hx hy = (hx.0, All-append P xs ys hx.1 hy)

pub All-get_elem? {ℓ κ} :
    {A : Type ℓ} (P : A → Type κ) (xs : List A) (i : ℕ) {a : A}
    → All P xs
    → get_elem? xs i ≡ some a
    → P a
All-get_elem? P [] i h e = absurd (ground arith)
All-get_elem? P (x ∷ xs) zero h e = subst P (ground arith) h.0
All-get_elem? P (x ∷ xs) (suc i) h e = All-get_elem? P xs i h.1 e

-- `flat_map(…).collect()`
abbrev pub flat_map {ℓ κ} : {A : Type ℓ} {B : Type κ} → (A → List B) → List A → List B
flat_map f [] = []
flat_map f (x ∷ xs) = f x ++ flat_map f xs

pub length-map {ℓ κ} :
    {A : Type ℓ} {B : Type κ} (xs : List A) (f : A → B) → length (map f xs) ≡ length xs
length-map [] f = refl
length-map (x ∷ xs) f = ap suc (length-map xs f)

-- Membership in a list of numbers, as the code tests it.
abbrev pub contains : ℕ → List ℕ → Bool
contains k [] = false
contains k (x ∷ xs) = if x == k then true else contains k xs

-- `HashSet::remove` and `take` on a set without repetitions.
abbrev pub erase : ℕ → List ℕ → List ℕ
erase k [] = []
erase k (x ∷ xs) = let rest = erase k xs in if x == k then rest else x ∷ rest

pub contains-erase :
    (k j : ℕ) (xs : List ℕ) → contains j (erase k xs) ≡ (if j == k then false else contains j xs)
contains-erase k j [] = ground arith
contains-erase k j (x ∷ xs) = ground (arith, contains-erase k j xs)

pub length-erase-le : (k : ℕ) (xs : List ℕ) → length (erase k xs) ≤ length xs
length-erase-le k [] = omega arith
length-erase-le k (x ∷ xs) = ground (arith, length-erase-le k xs)
