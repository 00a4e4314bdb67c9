-- ===== src/Prelude/Decimal.antt =====
-- Numbers in decimal, as `to_string` and `{:?}` print them.
use Prim.Native.Nat.{ℕ, zero, suc, ◌+◌, ◌/◌, ◌%◌}
use mathlib.Core.List.{List, [], ◌∷◌, ◌++◌}
use core_eng.Prelude.Tests.{◌==◌, if◌then◌else◌}
use core_eng.Prelude.Texts.{Text, codes}

-- On fuel: each round drops a digit, so `suc n` rounds are more than enough for `n`.
unfoldable pub digits_from : ℕ → ℕ → Text → Text
digits_from zero n acc = acc
digits_from (suc fuel) n acc =
    let rest = digits_from fuel (n / 10) ((48 + n % 10) ∷ acc) in
    if n / 10 == 0 then (48 + n % 10) ∷ acc else rest

unfoldable pub to_decimal : ℕ → Text
unfolding digits_from
to_decimal n = digits_from (suc n) n []

unfoldable pub debug_items : List ℕ → Text
unfolding to_decimal
debug_items [] = []
debug_items (n ∷ []) = to_decimal n
debug_items (n ∷ m ∷ ns) = to_decimal n ++ codes ", " ++ debug_items (m ∷ ns)

-- `format!("{:?}", numbers)`
unfoldable pub debug_numbers : List ℕ → Text
unfolding debug_items
debug_numbers ns = codes "[" ++ debug_items ns ++ codes "]"
