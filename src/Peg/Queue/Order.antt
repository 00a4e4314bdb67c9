-- ===== src/Peg/Queue/Order.antt =====
-- The order in which stacks-coordinator/src/peg_queue/sqlite_peg_queue.rs selects rows.
use core_eng.Prelude.{
  List, [], ◌∷◌, ◌≡◌, refl, arith, Option, none, some, Bool, true, false, Bool-cases, inl, inr,
  Text, text_eq, if◌then◌else◌, All, subst,
}
use core_eng.Peg.Queue.Defs.{Row, text_before, row_before, first_with_status}

text_before-asym : (x y : Text) → text_before x y ≡ true → text_before y x ≡ false
unfolding text_before
text_before-asym [] [] h = refl
text_before-asym [] (y ∷ ys) h = refl
text_before-asym (x ∷ xs) [] h = absurd (ground arith)
text_before-asym (x ∷ xs) (y ∷ ys) h = ground (arith, text_before-asym xs ys)

-- The order that is not strict goes on: what is not before a middle one that is not before the
-- last is not before the last.
text_before_trans :
    (x y z : Text) → text_before x y ≡ false → text_before y z ≡ false → text_before x z ≡ false
unfolding text_before
text_before_trans [] [] z h k = k
text_before_trans [] (y ∷ ys) z h k = absurd (ground arith)
text_before_trans (x ∷ xs) [] [] h k = refl
text_before_trans (x ∷ xs) [] (z ∷ zs) h k = absurd (ground arith)
text_before_trans (x ∷ xs) (y ∷ ys) [] h k = refl
text_before_trans (x ∷ xs) (y ∷ ys) (z ∷ zs) h k = ground (arith, text_before_trans xs ys zs)

row_before-asym : (r s : Row) → row_before r s ≡ true → row_before s r ≡ false
unfolding row_before
row_before-asym r s h = ground (arith, text_before-asym r.op s.op)

row_before_trans :
    (q r s : Row) → row_before q r ≡ false → row_before r s ≡ false → row_before q s ≡ false
unfolding row_before
row_before_trans q r s h k = ground (arith, text_before_trans q.op r.op s.op)

-- No row with the status comes before `first`.
abbrev pub IsFirst : Text → Row → Row → Type 0
IsFirst status first r = text_eq r.status status ≡ true → row_before r first ≡ false

pub data Occurs (r : Row) : List Row → Type 0 where
  here : {rows : List Row} → Occurs r (r ∷ rows)
  there : {q : Row} {rows : List Row} → Occurs r rows → Occurs r (q ∷ rows)

weaken-IsFirst :
    (status : Text) (r s : Row) (rows : List Row)
    → row_before s r ≡ false
    → All (IsFirst status s) rows
    → All (IsFirst status r) rows
weaken-IsFirst status r s [] h a = tt
weaken-IsFirst status r s (q ∷ rows) h a =
    (λ e. row_before_trans q s r (a.0 e) h, weaken-IsFirst status r s rows h a.1)

row_before_irrefl : (r : Row) → row_before r r ≡ false
row_before_irrefl r = elim (Bool-cases (row_before r r)) [
  | inl h ↦ row_before-asym r r h
  | inr h ↦ h
]

pub first_with_status-none :
    (status : Text) (rows : List Row)
    → first_with_status status rows ≡ none
    → All (λ r. text_eq r.status status ≡ false) rows
unfolding first_with_status
first_with_status-none status [] h = tt
first_with_status-none status (r ∷ rows) h = ground (arith, first_with_status-none status rows)

all_free :
    (status : Text) (rows : List Row)
    → All (λ r. text_eq r.status status ≡ false) rows
    → (first : Row) → All (IsFirst status first) rows
all_free status [] h first = tt
all_free status (r ∷ rows) h first = ((λ q. absurd (ground arith)), all_free status rows h.1 first)

-- The row that is selected has the status and is one of the rows, and no other with the status
-- comes before it.
pub first_with_status-IsFirst :
    (status : Text) (rows : List Row) (row : Row)
    → first_with_status status rows ≡ some row
    → (text_eq row.status status ≡ true) × Occurs row rows × All (IsFirst status row) rows
unfolding first_with_status
first_with_status-IsFirst status [] row h = absurd (ground arith)
first_with_status-IsFirst status (r ∷ rows) row h =
    go (text_eq r.status status) (first_with_status status rows) refl refl
      (first_with_status-IsFirst status rows)
  where
    Goal : Type 0
    Goal =
        (text_eq row.status status ≡ true)
        × Occurs row (r ∷ rows)
        × All (IsFirst status row) (r ∷ rows)

    pick :
        (s : Row) (b : Bool)
        → row_before s r ≡ b
        → text_eq r.status status ≡ true
        → (if b then s else r) ≡ row
        → (text_eq s.status status ≡ true) × Occurs s rows × All (IsFirst status s) rows
        → Goal
    pick s true e same h k =
        subst
          (λ x.
            (text_eq x.status status ≡ true)
            × Occurs x (r ∷ rows)
            × All (IsFirst status x) (r ∷ rows))
          h (k.0, there k.1, ((λ q. row_before-asym s r e), k.2))
    pick s false e same h k =
        subst
          (λ x.
            (text_eq x.status status ≡ true)
            × Occurs x (r ∷ rows)
            × All (IsFirst status x) (r ∷ rows))
          h (same, here, ((λ q. row_before_irrefl r), weaken-IsFirst status r s rows e k.2))

    go :
        (b : Bool) (o : Option Row)
        → text_eq r.status status ≡ b
        → first_with_status status rows ≡ o
        → ((row' : Row)
            → first_with_status status rows ≡ some row'
            → (text_eq row'.status status ≡ true)
              × Occurs row' rows
              × All (IsFirst status row') rows)
        → Goal
    go true (some s) e k ih = pick s (row_before s r) refl e (ground arith) (ih s k)
    go true none e k ih =
        let none_here = all_free status rows (first_with_status-none status rows k) in
        subst
          (λ x.
            (text_eq x.status status ≡ true)
            × Occurs x (r ∷ rows)
            × All (IsFirst status x) (r ∷ rows))
          (ground arith) (e, here, ((λ q. row_before_irrefl r), none_here r))
    go false o e k ih =
        let (same, at, first) = ih row (ground arith) in
        (same, there at, ((λ q. absurd (ground arith)), first))
