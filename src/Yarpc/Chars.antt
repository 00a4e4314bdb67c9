-- ===== src/Yarpc/Chars.antt =====
-- What yarpc/src/http uses of Rust's `char` and `str`. The code reads a byte as the character with
-- that number and writes a character by its UTF-8 bytes. `to_lowercase` and `trim` are those of
-- Rust on the characters below 256, the only ones that are read.
use core_eng.Prelude.{
  ℕ, ◌+◌, ◌-◌, ◌*◌, ◌/◌, ◌%◌, ◌<◌, ◌≡◌, refl, ◌==◌, ltb, leb, ◌&&◌, ◌||◌, Bool, List, [], ◌∷◌, ◌++◌,
  map, Option, none, some, Text, is_empty, if◌then◌else◌, All, arith, not,
}

abbrev pub Bytes : Type 0
Bytes = List ℕ

-- `char::encode_utf8`
unfoldable pub utf8_char : ℕ → Bytes
utf8_char c =
    if ltb c 128
    then c ∷ []
    else if ltb c 2048
    then (192 + c / 64) ∷ (128 + c % 64) ∷ []
    else if ltb c 65536
    then (224 + c / 4096) ∷ (128 + (c / 64) % 64) ∷ (128 + c % 64) ∷ []
    else (240 + c / 262144) ∷ (128 + (c / 4096) % 64) ∷ (128 + (c / 64) % 64) ∷ (128 + c % 64) ∷ []

-- `str::as_bytes`
unfoldable pub as_bytes : Text → Bytes
as_bytes [] = []
as_bytes (c ∷ s) = utf8_char c ++ as_bytes s

abbrev pub IsAscii : Text → Type 0
IsAscii s = All (λ c. c < 128) s

pub as_bytes-IsAscii : (s : Text) → IsAscii s → as_bytes s ≡ s
unfolding as_bytes utf8_char
as_bytes-IsAscii [] h = refl
as_bytes-IsAscii (c ∷ s) h = ground (arith, h.0, as_bytes-IsAscii s h.1)

-- A to Z, and the capitals of Latin-1: 192 to 222 without the multiplication sign 215.
unfoldable pub lower_char : ℕ → ℕ
lower_char c =
    if (leb 65 c && leb c 90) || (leb 192 c && leb c 222 && not (c == 215)) then c + 32 else c

abbrev pub to_lowercase : Text → Text
to_lowercase s = map lower_char s

-- `char::is_whitespace` below 256
abbrev pub is_whitespace : ℕ → Bool
is_whitespace c = (leb 9 c && leb c 13) || c == 32 || c == 133 || c == 160

unfoldable pub trim_start : Text → Text
trim_start [] = []
trim_start (c ∷ s) = let rest = trim_start s in if is_whitespace c then rest else c ∷ s

abbrev keep_filled : ℕ → Text → Text
keep_filled c [] = if is_whitespace c then [] else c ∷ []
keep_filled c (d ∷ s) = c ∷ d ∷ s

unfoldable pub trim_end : Text → Text
trim_end [] = []
trim_end (c ∷ s) = keep_filled c (trim_end s)

unfoldable pub trim : Text → Text
unfolding trim_start trim_end
trim s = trim_end (trim_start s)

-- `[&str]::join`
unfoldable pub join : Text → List Text → Text
join sep [] = []
join sep (w ∷ []) = w
join sep (w ∷ v ∷ ws) = w ++ (sep ++ join sep (v ∷ ws))

-- The digits of a number on: `checked_mul` and `checked_add` fail where the result is too large, and
-- since it only grows it is compared at the end.
abbrev digit : ℕ → ℕ → Option ℕ
digit acc c = if leb 48 c && leb c 57 then some (acc * 10 + (c - 48)) else none

unfoldable pub digits : ℕ → Text → Option ℕ
digits acc [] = some acc
digits acc (c ∷ s) = elim (digit acc c) [ none ↦ none | some n ↦ digits n s ]

abbrev below : ℕ → Option ℕ → Option ℕ
below limit none = none
below limit (some n) = if ltb n limit then some n else none

abbrev strip_plus : Text → Text
strip_plus [] = []
strip_plus (c ∷ s) = if c == 43 then s else c ∷ s

-- `from_str` of an unsigned type with `limit` values: a `+` may stand first.
unfoldable pub parse_unsigned : ℕ → Text → Option ℕ
parse_unsigned limit s =
    let ds = strip_plus s in if is_empty ds then none else below limit (digits 0 ds)
