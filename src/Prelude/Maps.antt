-- ===== src/Prelude/Maps.antt =====
-- `BTreeMap<u32, V>` and `HashMap<u32, V>` as association lists in the order of their keys.
-- A `HashMap` iterates in an order that Rust leaves open: the model fixes that of the keys.
use Prim.Native.Nat.{ℕ, suc, ◌≤◌, ◌<◌, compare, Ordering}
use mathlib.Core.Path.{◌≡◌, refl}
use mathlib.Core.Bool.{Bool, true, false}
use mathlib.Core.List.{List, [], ◌∷◌, map}
use mathlib.Core.Option.{Option, none, some}
use native.Mathlib.Omega.{arith}
use mathlib.Core.Logic.{inl, inr}
use core_eng.Prelude.Tests.{◌==◌, Bool-cases, if◌then◌else◌}
use core_eng.Prelude.Lists.{length}

abbrev pub Map {ℓ} : Type ℓ → Type ℓ
Map V = List (ℕ × V)

module _ {ℓ} {V : Type ℓ} where
  unfoldable pub get : ℕ → Map V → Option V
  get k [] = none
  get k ((j, v) ∷ m) = if j == k then some v else get k m

  unfoldable pub insert : ℕ → V → Map V → Map V
  insert k v [] = (k, v) ∷ []
  insert k v ((j, w) ∷ m) =
      let rest = insert k v m in
      elim (compare k j) [
        | Ordering.lt ↦ (k, v) ∷ (j, w) ∷ m
        | Ordering.eq ↦ (k, v) ∷ m
        | Ordering.gt ↦ (j, w) ∷ rest
      ]

  abbrev pub keys : Map V → List ℕ
  keys m = map (λ e. e.0) m

  abbrev pub values : Map V → List V
  values m = map (λ e. e.1) m

  unfoldable pub has : ℕ → Map V → Bool
  has k [] = false
  has k ((j, v) ∷ m) = if j == k then true else has k m

  -- Every key is at least `n` and the keys rise.
  abbrev pub From : ℕ → Map V → Type 0
  From n [] = Unit
  From n ((k, v) ∷ m) = (n ≤ k) × From (suc k) m

  abbrev pub IsSorted : Map V → Type 0
  IsSorted m = From 0 m

  pub get-insert :
      (k j : ℕ) (v : V) (m : Map V) → get j (insert k v m) ≡ (if k == j then some v else get j m)
  unfolding get insert
  get-insert k j v [] = refl
  get-insert k j v ((i, w) ∷ m) = ground (arith, get-insert k j v m)

  pub has-insert :
      (k j : ℕ) (v : V) (m : Map V) → has j (insert k v m) ≡ (if k == j then true else has j m)
  unfolding has insert
  has-insert k j v [] = refl
  has-insert k j v ((i, w) ∷ m) = ground (arith, has-insert k j v m)

  pub From-mono : (n l : ℕ) (m : Map V) → n ≤ l → From l m → From n m
  From-mono n l [] h b = tt
  From-mono n l ((k, v) ∷ m) h b = (omega arith, b.1)

  pub From-insert : (n k : ℕ) (v : V) (m : Map V) → n ≤ k → From n m → From n (insert k v m)
  unfolding insert
  From-insert n k v [] h b = (h, tt)
  From-insert n k v ((j, w) ∷ m) h b = ground (arith, From-insert (suc j) k v m)

  pub has_below : (n k : ℕ) (m : Map V) → From n m → k < n → has k m ≡ false
  unfolding has
  has_below n k [] b h = refl
  has_below n k ((j, w) ∷ m) b h = ground (arith, has_below (suc j) k m)

  -- A fresh key makes the map one longer; a key that is there keeps its length.
  pub length-insert :
      (n k : ℕ) (v : V) (m : Map V)
      → From n m
      → length (insert k v m) ≡ (if has k m then length m else suc (length m))
  unfolding has insert
  length-insert n k v [] b = refl
  length-insert n k v ((j, w) ∷ m) b =
      ground (arith, length-insert (suc j) k v m, has_below (suc j) k m)

  pub get_of_has : (k : ℕ) (m : Map V) → has k m ≡ true → (v : V) × (get k m ≡ some v)
  unfolding has get
  get_of_has k [] h = ground arith
  get_of_has k ((j, w) ∷ m) h = elim (Bool-cases (j == k)) [
    | inl hit ↦ (w, rw hit)
    | inr miss ↦ let (v, e) = get_of_has k m (ground arith) in (v, rw miss e)
  ]
