-- ===== src/Prelude/Texts.antt =====
-- Texts as lists of code points, and `HashMap<String, V>` as an association list over them.
use Prim.Native.Char.{code}
use Prim.Native.Nat.{ℕ}
use Prim.Native.String.{String}
use mathlib.Core.Path.{◌≡◌, refl, sym, ◌∙◌}
use mathlib.Core.Logic.{◌↔◌}
use mathlib.Core.Bool.{Bool, true, false, ◌&&◌}
use mathlib.Core.List.{List, [], ◌∷◌, ◌++◌, append-nil, append_assoc}
use mathlib.Core.Option.{Option, none, some}
use native.Mathlib.Omega.{arith}
use core_eng.Prelude.Lists.{All}
use core_eng.Prelude.Tests.{◌==◌, if◌then◌else◌}

abbrev pub Text : Type 0
Text = List ℕ

-- A literal of the source as its code points.
abbrev pub codes : String → Text
codes String.[] = []
codes (String.◌∷◌ c s) = code c ∷ codes s

unfoldable pub text_eq : Text → Text → Bool
text_eq [] [] = true
text_eq [] (y ∷ ys) = false
text_eq (x ∷ xs) [] = false
text_eq (x ∷ xs) (y ∷ ys) = x == y && text_eq xs ys

pub text_eq_iff : (s t : Text) → (text_eq s t ≡ true) ↔ (s ≡ t)
unfolding text_eq
text_eq_iff [] [] = ground arith
text_eq_iff [] (y ∷ ys) = ground arith
text_eq_iff (x ∷ xs) [] = ground arith
text_eq_iff (x ∷ xs) (y ∷ ys) = ground (arith, text_eq_iff xs ys)

pub text_eq_refl : (s : Text) → text_eq s s ≡ true
text_eq_refl s = (text_eq_iff s s).1 refl

abbrev pub is_empty {ℓ} : {A : Type ℓ} → List A → Bool
is_empty [] = true
is_empty (x ∷ xs) = false

-- No character of the text is `c`.
abbrev pub Lacks : ℕ → Text → Type 0
Lacks c s = All (λ x. (x == c) ≡ false) s

abbrev pub cons_fst : ℕ → Option (Text × Text) → Option (Text × Text)
cons_fst x none = none
cons_fst x (some (l, r)) = some (x ∷ l, r)

-- `str::split_once` at a character.
unfoldable pub split_once : ℕ → Text → Option (Text × Text)
split_once c [] = none
split_once c (x ∷ xs) =
    let rest = split_once c xs in if x == c then some ([], xs) else cons_fst x rest

abbrev pub cons_head : ℕ → List Text → List Text
cons_head x [] = (x ∷ []) ∷ []
cons_head x (w ∷ ws) = (x ∷ w) ∷ ws

-- `str::split` at a character: the pieces, at least one.
unfoldable pub split : ℕ → Text → List Text
split c [] = [] ∷ []
split c (x ∷ xs) = let rest = split c xs in if x == c then [] ∷ rest else cons_head x rest

pub split-Lacks : (c : ℕ) (s : Text) → Lacks c s → split c s ≡ s ∷ []
unfolding split
split-Lacks c [] h = refl
split-Lacks c (x ∷ xs) h = ground (arith, h.0, split-Lacks c xs h.1)

pub split-append : (c : ℕ) (s t : Text) → Lacks c s → split c (s ++ c ∷ t) ≡ s ∷ split c t
unfolding split
split-append c [] t h = ground arith
split-append c (x ∷ xs) t h = ground (arith, h.0, split-append c xs t h.1)

pub split_once-append : (c : ℕ) (s t : Text) → Lacks c s → split_once c (s ++ c ∷ t) ≡ some (s, t)
unfolding split_once
split_once-append c [] t h = ground arith
split_once-append c (x ∷ xs) t h = ground (arith, h.0, split_once-append c xs t h.1)

module _ {ℓ} {V : Type ℓ} where
  unfoldable pub lookup : Text → List (Text × V) → Option V
  lookup k [] = none
  lookup k ((j, v) ∷ m) = if text_eq j k then some v else lookup k m

  unfoldable pub put : Text → V → List (Text × V) → List (Text × V)
  put k v [] = (k, v) ∷ []
  put k v ((j, w) ∷ m) = if text_eq j k then (k, v) ∷ m else (j, w) ∷ put k v m

  pub lookup-put :
      (k j : Text) (v : V) (m : List (Text × V))
      → lookup j (put k v m) ≡ (if text_eq k j then some v else lookup j m)
  unfolding lookup put
  lookup-put k j v [] = refl
  lookup-put k j v ((i, w) ∷ m) =
      ground (arith, text_eq_iff k j, text_eq_iff i k, text_eq_iff i j, lookup-put k j v m)

  -- Pairs collected into a map: of two values for one key, the later stays.
  unfoldable pub collect : List (Text × V) → List (Text × V) → List (Text × V)
  collect m [] = m
  collect m ((k, v) ∷ ps) = collect (put k v m) ps

  -- No key stands twice.
  abbrev pub IsDistinct : List (Text × V) → Type ℓ
  IsDistinct [] = Unit
  IsDistinct ((k, v) ∷ ps) = (lookup k ps ≡ none) × IsDistinct ps

  put-none :
      (k : Text) (v : V) (m : List (Text × V)) → lookup k m ≡ none → put k v m ≡ m ++ (k, v) ∷ []
  unfolding lookup put
  put-none k v [] h = refl
  put-none k v ((j, w) ∷ m) h = ground (arith, put-none k v m)

  -- No key of the first list stands in the second.
  abbrev IsApart : List (Text × V) → List (Text × V) → Type ℓ
  IsApart m [] = Unit
  IsApart m ((k, v) ∷ ps) = (lookup k m ≡ none) × IsApart m ps

  lookup-append_none :
      (k j : Text) (v : V) (m : List (Text × V))
      → lookup j m ≡ none
      → text_eq k j ≡ false
      → lookup j (m ++ (k, v) ∷ []) ≡ none
  unfolding lookup
  lookup-append_none k j v [] h e = ground (arith, e)
  lookup-append_none k j v ((i, w) ∷ m) h e = ground (arith, lookup-append_none k j v m)

  IsApart-append :
      (m : List (Text × V)) (k : Text) (v : V) (ps : List (Text × V))
      → IsApart m ps
      → lookup k ps ≡ none
      → IsApart (m ++ (k, v) ∷ []) ps
  unfolding lookup
  IsApart-append m k v [] a h = tt
  IsApart-append m k v ((j, w) ∷ ps) a h = (
    lookup-append_none k j v m a.0 (ground (arith, text_eq_iff k j, text_eq_iff j k)),
    IsApart-append m k v ps a.1 (ground arith),
  )

  collect-append : (m ps : List (Text × V)) → IsApart m ps → IsDistinct ps → collect m ps ≡ m ++ ps
  unfolding collect
  collect-append m [] a d = sym (append-nil m)
  collect-append m ((k, v) ∷ ps) a d = rw (put-none k v m a.0) (
      collect-append (m ++ (k, v) ∷ []) ps (IsApart-append m k v ps a.1 d.0) d.1
      ∙ append_assoc m ((k, v) ∷ []) ps)

  IsApart-nil : (ps : List (Text × V)) → IsApart [] ps
  unfolding lookup
  IsApart-nil [] = tt
  IsApart-nil (p ∷ ps) = (refl, IsApart-nil ps)

  -- Pairs with different keys are a map as they are.
  pub collect-IsDistinct : (ps : List (Text × V)) → IsDistinct ps → collect [] ps ≡ ps
  collect-IsDistinct ps d = collect-append [] ps (IsApart-nil ps) d
