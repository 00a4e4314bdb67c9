-- ===== src/Yarpc/Numerals.antt =====
-- Numbers that yarpc writes with `to_string` and reads with `parse`.
use core_eng.Prelude.{
  ℕ, zero, suc, ◌+◌, ◌/◌, ◌%◌, ◌<◌, ◌≤◌, ◌≡◌, refl, ◌==◌, false, [], ◌∷◌, some, Text, is_empty, All,
  arith, Bool-cases, inl, inr, to_decimal, digits_from,
}
use core_eng.Yarpc.Chars.{trim_start, trim_end, trim, digits, parse_unsigned}

abbrev pub IsDigit : ℕ → Type 0
IsDigit c = (48 ≤ c) × (c ≤ 57)

digits_from-IsDigit :
    (fuel n : ℕ) (acc : Text) → All IsDigit acc → All IsDigit (digits_from fuel n acc)
unfolding digits_from
digits_from-IsDigit zero n acc h = h
digits_from-IsDigit (suc fuel) n acc h =
    let digit : (48 ≤ 48 + n % 10) × (48 + n % 10 ≤ 57) = omega arith in
    elim (Bool-cases (n / 10 == 0)) [
      | inl e ↦ rw e (digit, h)
      | inr e ↦ rw e (digits_from-IsDigit fuel (n / 10) _ (digit, h))
    ]

digits_from_filled : (fuel n c : ℕ) (acc : Text) → is_empty (digits_from fuel n (c ∷ acc)) ≡ false
unfolding digits_from
digits_from_filled zero n c acc = refl
digits_from_filled (suc fuel) n c acc =
    ground (arith, digits_from_filled fuel (n / 10) (48 + n % 10) (c ∷ acc))

-- The text of a number is digits, at least one.
pub to_decimal-IsDigit : (n : ℕ) → All IsDigit (to_decimal n) × (is_empty (to_decimal n) ≡ false)
unfolding to_decimal digits_from
to_decimal-IsDigit n = (
  digits_from-IsDigit (suc n) n [] tt,
  ground (arith, digits_from_filled n (n / 10) (48 + n % 10) []),
)

digits-digits_from :
    (fuel n : ℕ) (acc : Text) → n < fuel → digits 0 (digits_from fuel n acc) ≡ digits n acc
unfolding digits_from digits
digits-digits_from zero n acc h = absurd (omega arith)
digits-digits_from (suc fuel) n acc h = elim (Bool-cases (n / 10 == 0)) [
  | inl e ↦ ground (arith, e)
  | inr e ↦ ground (arith, e, digits-digits_from fuel (n / 10) ((48 + n % 10) ∷ acc))
]

parse_unsigned-IsDigit :
    (limit : ℕ) (s : Text) {n : ℕ}
    → All IsDigit s
    → is_empty s ≡ false
    → digits 0 s ≡ some n
    → n < limit
    → parse_unsigned limit s ≡ some n
unfolding parse_unsigned
parse_unsigned-IsDigit limit [] d f e lt = ground arith
parse_unsigned-IsDigit limit (c ∷ s) d f e lt = ground (arith, d.0)

-- A number below the limit is read back.
pub parse_unsigned-to_decimal :
    (limit n : ℕ) → n < limit → parse_unsigned limit (to_decimal n) ≡ some n
unfolding to_decimal digits
parse_unsigned-to_decimal limit n lt =
    let (d, f) = to_decimal-IsDigit n in
    parse_unsigned-IsDigit limit (to_decimal n) d f (digits-digits_from (suc n) n [] (omega arith))
      lt

trim_start-IsDigit : (s : Text) → All IsDigit s → trim_start s ≡ s
unfolding trim_start
trim_start-IsDigit [] h = refl
trim_start-IsDigit (c ∷ s) h = ground (arith, h.0)

trim_end-IsDigit : (s : Text) → All IsDigit s → trim_end s ≡ s
unfolding trim_end
trim_end-IsDigit [] h = refl
trim_end-IsDigit (c ∷ []) h = ground (arith, h.0)
trim_end-IsDigit (c ∷ d ∷ s) h = rw (trim_end-IsDigit (d ∷ s) h.1) refl

-- No digit is white space.
pub trim-IsDigit : (s : Text) → All IsDigit s → trim s ≡ s
unfolding trim
trim-IsDigit s h = rw (trim_start-IsDigit s h) (trim_end-IsDigit s h)
