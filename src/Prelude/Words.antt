-- ===== src/Prelude/Words.antt =====
-- `to_be_bytes` of u32 and u64: the number in base 256, the highest digit first.
use Prim.Native.Nat.{ℕ, zero, suc, ◌/◌, ◌%◌, ◌^◌, ◌<◌}
use mathlib.Core.Path.{◌≡◌}
use mathlib.Core.List.{List, [], ◌∷◌}
use native.Mathlib.Omega.{arith}
use native.Mathlib.Nat.{pow-suc}

-- The `k` low digits of `n` before `acc`.
unfoldable pub digits_before : ℕ → ℕ → List ℕ → List ℕ
digits_before zero n acc = acc
digits_before (suc k) n acc = digits_before k (n / 256) ((n % 256) ∷ acc)

unfoldable pub be_bytes : ℕ → ℕ → List ℕ
unfolding digits_before
be_bytes k n = digits_before k n []

abbrev pub u32_bytes : ℕ → List ℕ
u32_bytes n = be_bytes 4 n

abbrev pub u64_bytes : ℕ → List ℕ
u64_bytes n = be_bytes 8 n

digits_before-injective :
    (k n m : ℕ) (acc acc' : List ℕ)
    → n < 256 ^ k
    → m < 256 ^ k
    → digits_before k n acc ≡ digits_before k m acc'
    → (n ≡ m) × (acc ≡ acc')
unfolding digits_before
digits_before-injective zero n m acc acc' h h' e = (omega arith, e)
digits_before-injective (suc k) n m acc acc' h h' e =
    let (high, rest) =
      digits_before-injective k (n / 256) (m / 256) ((n % 256) ∷ acc) ((m % 256) ∷ acc')
        (omega (arith, pow-suc 256 k)) (omega (arith, pow-suc 256 k)) e in
    let low : n % 256 ≡ m % 256 = cc rest in (omega (arith, high, low), cc rest)

-- Different numbers of the width have different bytes.
pub be_bytes-injective :
    (k n m : ℕ) → n < 256 ^ k → m < 256 ^ k → be_bytes k n ≡ be_bytes k m → n ≡ m
unfolding be_bytes
be_bytes-injective k n m h h' e = (digits_before-injective k n m [] [] h h' e).0
