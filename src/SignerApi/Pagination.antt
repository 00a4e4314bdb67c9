-- ===== src/SignerApi/Pagination.antt =====
-- That the pages of stacks-signer-api/src/routes/mod.rs together give every item once, in order.
use core_eng.Prelude.{
  ℕ, zero, suc, ◌+◌, ◌-◌, ◌*◌, ◌%◌, ◌^◌, ◌≤◌, ◌<◌, ◌≡◌, refl, sym, ap, ◌∙◌, List, [], ◌∷◌, ◌++◌,
  some, take, drop, length, arith, take_all, ◌⊎◌, inl, inr,
}
use core_eng.SignerApi.Pages.{min, previous, start_index, end_index, slice, paginate_items}

min_le : (a b : ℕ) → a ≤ b → min a b ≡ a
min_le a b h = ground arith

min_ge : (a b : ℕ) → b ≤ a → min a b ≡ b
min_ge a b h = ground arith

le-cases : (a b : ℕ) → (a ≤ b) ⊎ (b ≤ a)
le-cases a b = ground arith

module _ {ℓ} {A : Type ℓ} where
  drop_all : (n : ℕ) (xs : List A) → length xs ≤ n → drop n xs ≡ []
  drop_all zero [] h = refl
  drop_all zero (x ∷ xs) h = absurd (omega arith)
  drop_all (suc n) [] h = refl
  drop_all (suc n) (x ∷ xs) h = drop_all n xs (omega arith)

  length-drop : (n : ℕ) (xs : List A) → length (drop n xs) ≡ length xs - n
  length-drop zero xs = omega arith
  length-drop (suc n) [] = omega arith
  length-drop (suc n) (x ∷ xs) = omega (arith, length-drop n xs)

  take-nil : (n : ℕ) (xs : List A) → xs ≡ [] → take n xs ≡ []
  take-nil zero xs h = refl
  take-nil (suc n) xs h = rw h refl

  take-take : (a b : ℕ) (xs : List A) → take (a + b) xs ≡ take a xs ++ take b (drop a xs)
  take-take zero b xs = ap (λ n. take n xs) (omega arith)
  take-take (suc a) b [] = take-nil (suc a + b) [] refl ∙ sym (take-nil b [] refl)
  take-take (suc a) b (x ∷ xs) =
      let both : suc a + b ≡ suc (a + b) = omega arith in
      ap (λ n. take n (x ∷ xs)) both ∙ ap (λ l. x ∷ l) (take-take a b xs)

  take-min : (n : ℕ) (xs : List A) → take (min (length xs) n) xs ≡ take n xs
  take-min n xs = elim (le-cases (length xs) n) [
    | inl h ↦
        ap (λ k. take k xs) (min_le (length xs) n h)
        ∙ take_all (length xs) xs (omega arith)
        ∙ sym (take_all n xs h)
    | inr h ↦ ap (λ k. take k xs) (min_ge (length xs) n h)
  ]

le_times : (p l : ℕ) → 1 ≤ l → p ≤ p * l
le_times zero l h = omega arith
le_times (suc p) l h =
    let rest = le_times p l h in
    let more : suc p * l ≡ p * l + l = omega arith in omega (arith, rest, h, more)

end_index-lt : (n s l : ℕ) → s + l < 2 ^ 64 → end_index n s l ≡ min n (s + l)
end_index-lt n s l h = let sum : (s + l) % 2 ^ 64 ≡ s + l = omega arith in ap (min n) sum

min-minus : (n m l : ℕ) → m ≤ n → min n (m + l) - m ≡ min (n - m) l
min-minus n m l h = ground arith

module _ {ℓ} {A : Type ℓ} where
  -- The slice from a start index that lies among the items, or at their end.
  slice-page :
      (items : List A) (start m l : ℕ)
      → start ≡ min (length items) m
      → length items + l < 2 ^ 64
      → slice items
          (min start (end_index (length items) start l))
          (end_index (length items) start l)
        ≡ take l (drop m items)
  slice-page items start m l e hl = elim (le-cases (length items) m) [
    | inl past ↦
        let at : start ≡ length items = e ∙ min_le (length items) m past in
        let end : end_index (length items) start l ≡ length items =
          end_index-lt (length items) start l (omega (arith, at))
          ∙ min_le _ _ (omega (arith, at)) in
        let from : min start (end_index (length items) start l) ≡ length items =
          min_le _ _ (omega (arith, at, end)) ∙ at in
        let none_left : length items - length items ≡ 0 = omega arith in
        (λ i. slice items (from i) (end i))
        ∙ ap (λ k. take k (drop (length items) items)) none_left
        ∙ sym (take-nil l (drop m items) (drop_all m items past))
    | inr inside ↦
        let at : start ≡ m = e ∙ min_ge (length items) m inside in
        let end : end_index (length items) start l ≡ min (length items) (m + l) =
          end_index-lt (length items) start l (omega (arith, at))
          ∙ ap (λ k. min (length items) (k + l)) at in
        let below : m ≤ min (length items) (m + l) = ground (arith, inside) in
        let from : min start (end_index (length items) start l) ≡ m =
          min_le _ _ (omega (arith, at, end, below)) ∙ at in
        (λ i. slice items (from i) (end i))
        ∙ ap (λ k. take k (drop m items))
            (min-minus (length items) m l inside ∙ ap (λ k. min k l) (sym (length-drop m items)))
        ∙ take-min l (drop m items)
  ]

  -- One page.
  paginate_items-page :
      (p l : ℕ) (items : List A)
      → 1 ≤ l
      → p * l < 2 ^ 64
      → length items + l < 2 ^ 64
      → paginate_items items (some (suc p)) (some l) ≡ take l (drop (p * l) items)
  unfolding paginate_items
  paginate_items-page p l items h hp hl =
      let small : p ≤ p * l = le_times p l h in
      let before : previous (suc p) ≡ p = omega (arith, small, hp) in
      let product : (p * l) % 2 ^ 64 ≡ p * l = omega (arith, hp) in
      slice-page items (start_index (length items) (suc p) l) (p * l) l
        (ap (λ q. min (length items) ((q * l) % 2 ^ 64)) before ∙ ap (min (length items)) product)
        hl

  -- The pages from the first on.
  abbrev pub pages_to : ℕ → ℕ → List A → List A
  pages_to zero l items = []
  pages_to (suc p) l items = pages_to p l items ++ paginate_items items (some (suc p)) (some l)

  pages_to-prefix :
      (k l : ℕ) (items : List A)
      → 1 ≤ l
      → k * l < 2 ^ 64
      → length items + l < 2 ^ 64
      → pages_to k l items ≡ take (k * l) items
  pages_to-prefix zero l items h hk hl =
      let nothing : 0 ≡ 0 * l = omega arith in ap (λ n. take n items) nothing
  pages_to-prefix (suc p) l items h hk hl =
      let more : suc p * l ≡ p * l + l = omega arith in
      let fits : p * l < 2 ^ 64 = omega (arith, more, hk) in
      (λ i. pages_to-prefix p l items h fits hl i ++ paginate_items-page p l items h fits hl i)
      ∙ sym (take-take (p * l) l items)
      ∙ ap (λ n. take n items) (sym more)

  -- The first `k` pages of at least one item each, one after the other, are the first items of the
  -- list, each once and in its order, and so all of it if there are no more than these: in a 64-bit
  -- usize, as long as the number of items with one more page, and the last index, fit in it.
  pub pages_to-take :
      (k l : ℕ) (items : List A)
      → 1 ≤ l
      → k * l < 2 ^ 64
      → length items + l < 2 ^ 64
      → (pages_to k l items ≡ take (k * l) items)
        × (length items ≤ k * l → pages_to k l items ≡ items)
  pages_to-take k l items h hk hl =
      let all = pages_to-prefix k l items h hk hl in
      (all, λ fits. all ∙ take_all (k * l) items fits)
