-- ===== src/SignerApi/Pages.antt =====
-- `paginate_items` of stacks-signer-api/src/routes/mod.rs, with the sums of a 64-bit usize as a release
-- build has them.
use core_eng.Prelude.{
  ℕ, ◌+◌, ◌-◌, ◌*◌, ◌%◌, ◌^◌, List, Option, none, some, take, drop, length, leb, if◌then◌else◌,
}

abbrev pub min : ℕ → ℕ → ℕ
min a b = if leb a b then a else b

abbrev pub usize_max : ℕ
usize_max = 18446744073709551615

abbrev pub unwrap_or : Option ℕ → ℕ → ℕ
unwrap_or none d = d
unwrap_or (some n) d = n

-- `page - 1`
abbrev pub previous : ℕ → ℕ
previous page = (page + usize_max) % 2 ^ 64

abbrev pub start_index : ℕ → ℕ → ℕ → ℕ
start_index count page limit = min count ((previous page * limit) % 2 ^ 64)

abbrev pub end_index : ℕ → ℕ → ℕ → ℕ
end_index count start limit = min count ((start + limit) % 2 ^ 64)

-- `&items[a..b]` where `a ≤ b` and `b` is not above the number of items.
abbrev pub slice {ℓ} : {A : Type ℓ} → List A → ℕ → ℕ → List A
slice items a b = take (b - a) (drop a items)

unfoldable pub paginate_items {ℓ} : {A : Type ℓ} → List A → Option ℕ → Option ℕ → List A
paginate_items items page limit =
    let start = start_index (length items) (unwrap_or page 1) (unwrap_or limit usize_max) in
    let end = end_index (length items) start (unwrap_or limit usize_max) in
    slice items (min start end) end
