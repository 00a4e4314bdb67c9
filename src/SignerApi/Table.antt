-- ===== src/SignerApi/Table.antt =====
-- A table of stacks-signer-api/migrations whose primary key is a text, as the list of its rows in the
-- order in which they were inserted, which is that of a SELECT.
use core_eng.Prelude.{
  ◌≡◌, refl, ap, ◌∙◌, List, [], ◌∷◌, ◌++◌, Option, none, some, true, false, Text, text_eq,
  text_eq_iff, arith, if◌then◌else◌, text_eq_refl,
}

module _ {R : Type 0} (key : R → Text) where
  unfoldable pub without : Text → List R → List R
  without k [] = []
  without k (r ∷ rows) = let rest = without k rows in if text_eq (key r) k then rest else r ∷ rest

  -- REPLACE: a row with the same key goes.
  unfoldable pub replace : R → List R → List R
  replace r rows = without (key r) rows ++ r ∷ []

  -- `fetch_one` for a key.
  unfoldable pub first : Text → List R → Option R
  first k [] = none
  first k (r ∷ rows) = let rest = first k rows in if text_eq (key r) k then some r else rest

  pub first-key : (k : Text) (r : R) (rows : List R) → first k rows ≡ some r → key r ≡ k
  unfolding first
  first-key k r [] h = absurd (ground arith)
  first-key k r (x ∷ rows) h =
      let rest = first-key k r rows in
      let named = (text_eq_iff (key x) k).0 in ground (arith, rest, named)

  pub first-append :
      (r : R) (rows : List R) → first (key r) (without (key r) rows ++ r ∷ []) ≡ some r
  unfolding first without
  first-append r [] = rw (text_eq_refl (key r)) refl
  first-append r (x ∷ rows) = let rest = first-append r rows in ground (arith, rest)

  pub first-replace : (r : R) (rows : List R) → first (key r) (replace r rows) ≡ some r
  unfolding replace
  first-replace r rows = first-append r rows

  pub first-other :
      (k : Text) (r : R) (rows : List R)
      → text_eq (key r) k ≡ false
      → first k (without (key r) rows ++ r ∷ []) ≡ first k rows
  unfolding first without
  first-other k r [] h = rw h refl
  first-other k r (x ∷ rows) h =
      let rest = first-other k r rows h in
      let moved : text_eq (key x) (key r) ≡ true → text_eq (key x) k ≡ false =
        λ e. ap (λ z. text_eq z k) ((text_eq_iff (key x) (key r)).0 e) ∙ h in
      ground (arith, rest, moved)

  pub first-replace_other :
      (k : Text) (r : R) (rows : List R)
      → text_eq (key r) k ≡ false
      → first k (replace r rows) ≡ first k rows
  unfolding replace
  first-replace_other k r rows h = first-other k r rows h
