-- ===== src/Yarpc/Reading.antt =====
-- Lines and headers of yarpc/src/http/message.rs are read back from what they are written as.
use core_eng.Prelude.{
  ℕ, zero, suc, ◌<◌, ◌≡◌, refl, sym, ap, ◌∙◌, ◌==◌, false, List, [], ◌∷◌, ◌++◌, Text, text_eq,
  is_empty, All, All-append, arith, length, length-append, put, split, flat_map, to_decimal, Lacks,
  split-Lacks, split-append, split_once-append, collect, append_assoc,
}
use core_eng.Prelude.Outcome.{ok, ◌>>=◌}
use core_eng.Yarpc.Chars.{
  Bytes, as_bytes, as_bytes-IsAscii, IsAscii, to_lowercase, lower_char, trim, join,
}
use core_eng.Yarpc.Message.{
  read_byte, read_string_until, take_exact, read_line, Headers, content_length_name, header_of,
  add_header, read_headers, write_header, write_length,
}
use core_eng.Yarpc.Numerals.{to_decimal-IsDigit, parse_unsigned-to_decimal, trim-IsDigit, IsDigit}

-- A word of the first line.
abbrev pub IsWord : Text → Type 0
IsWord w = IsAscii w × Lacks 13 w × Lacks 32 w

-- A header that reading keeps as it is.
abbrev pub IsHeader : Text × Text → Type 0
IsHeader (k, v) =
    IsAscii k
    × Lacks 13 k
    × Lacks 58 k
    × (to_lowercase k ≡ k)
    × (text_eq k content_length_name ≡ false)
    × IsAscii v
    × Lacks 13 v
    × (trim v ≡ v)

read_string_until-append :
    (b : ℕ) (s : Text) (i : Bytes) → Lacks b s → read_string_until b (s ++ b ∷ i) ≡ ok (s, i)
unfolding read_string_until
read_string_until-append b [] i h = ground arith
read_string_until-append b (c ∷ s) i h = ground (arith, h.0, read_string_until-append b s i h.1)

pub read_line-append :
    (s : Text) (i : Bytes) → Lacks 13 s → read_line (s ++ 13 ∷ 10 ∷ i) ≡ ok (s, i)
unfolding read_line read_byte
read_line-append s i h = rw (read_string_until-append 13 s (10 ∷ i) h) refl

pub take_exact-append : (xs i : Bytes) → take_exact (length xs) (xs ++ i) ≡ ok (xs, i)
unfolding take_exact
take_exact-append [] i = refl
take_exact-append (x ∷ xs) i = rw (take_exact-append xs i) refl

pub join-Lacks :
    (c : ℕ) (ws : List Text) → (32 == c) ≡ false → All (Lacks c) ws → Lacks c (join (32 ∷ []) ws)
unfolding join
join-Lacks c [] n h = tt
join-Lacks c (w ∷ []) n h = h.0
join-Lacks c (w ∷ v ∷ ws) n h =
    All-append (λ x. (x == c) ≡ false) w (32 ∷ join (32 ∷ []) (v ∷ ws)) h.0
      (n, join-Lacks c (v ∷ ws) n h.1)

pub join-IsAscii : (ws : List Text) → All IsAscii ws → IsAscii (join (32 ∷ []) ws)
unfolding join
join-IsAscii [] h = tt
join-IsAscii (w ∷ []) h = h.0
join-IsAscii (w ∷ v ∷ ws) h =
    All-append (λ c. c < 128) w (32 ∷ join (32 ∷ []) (v ∷ ws)) h.0
      (omega arith, join-IsAscii (v ∷ ws) h.1)

pub split-join :
    (w : Text) (ws : List Text)
    → All (Lacks 32) (w ∷ ws)
    → split 32 (join (32 ∷ []) (w ∷ ws)) ≡ w ∷ ws
unfolding join
split-join w [] h = split-Lacks 32 w h.0
split-join w (v ∷ ws) h =
    split-append 32 w (join (32 ∷ []) (v ∷ ws)) h.0 ∙ ap (λ l. w ∷ l) (split-join v ws h.1)

pub words_32-Lacks : (ws : List Text) → All IsWord ws → All (Lacks 32) ws
words_32-Lacks [] h = tt
words_32-Lacks (w ∷ ws) h = (h.0.2, words_32-Lacks ws h.1)

pub words_13-Lacks : (ws : List Text) → All IsWord ws → All (Lacks 13) ws
words_13-Lacks [] h = tt
words_13-Lacks (w ∷ ws) h = (h.0.1, words_13-Lacks ws h.1)

pub words-IsAscii : (ws : List Text) → All IsWord ws → All IsAscii ws
words-IsAscii [] h = tt
words-IsAscii (w ∷ ws) h = (h.0.0, words-IsAscii ws h.1)

header_of-append :
    (k v : Text)
    → Lacks 58 k
    → to_lowercase k ≡ k
    → trim v ≡ v
    → header_of (k ++ 58 ∷ v) ≡ ok (k, v)
unfolding header_of
header_of-append k v h lower trimmed = rw (split_once-append 58 k v h, lower, trimmed) refl

-- The bytes of a header are its text.
write_header-IsAscii :
    (k v : Text) → IsAscii k → IsAscii v → write_header (k, v) ≡ (k ++ 58 ∷ v) ++ 13 ∷ 10 ∷ []
unfolding write_header
write_header-IsAscii k v hk hv =
    rw (as_bytes-IsAscii k hk, as_bytes-IsAscii v hv) (sym (append_assoc k (58 ∷ v) (13 ∷ 10 ∷ [])))

append_filled : (k v : Text) → is_empty (k ++ 58 ∷ v) ≡ false
append_filled [] v = refl
append_filled (c ∷ k) v = refl

-- What a line needs to be read back as a header.
abbrev IsLine : Text → Text → Type 0
IsLine k v =
    IsAscii k
    × Lacks 13 k
    × Lacks 58 k
    × (to_lowercase k ≡ k)
    × IsAscii v
    × Lacks 13 v
    × (trim v ≡ v)

read_headers-write_header :
    (fuel : ℕ) (found : ℕ × Headers) (k v : Text) (i : Bytes)
    → IsLine k v
    → read_headers (suc fuel) found (write_header (k, v) ++ i)
      ≡ (add_header (k, v) found >>= (λ found'. read_headers fuel found' i))
unfolding read_headers
read_headers-write_header fuel found k v i (ka, k13, k58, kl, va, v13, vt) =
    let lacks = All-append (λ x. (x == 13) ≡ false) k (58 ∷ v) k13 (refl, v13) in
    rw
      (
        write_header-IsAscii k v ka va,
        append_assoc (k ++ 58 ∷ v) (13 ∷ 10 ∷ []) i,
        read_line-append (k ++ 58 ∷ v) i lacks,
        append_filled k v,
        header_of-append k v k58 kl vt,
      )
      refl

write_header_pos : (p : Text × Text) → 0 < length (write_header p)
unfolding write_header
write_header_pos (k, v) =
    omega (arith, length-append {0} (as_bytes k) (58 ∷ (as_bytes v ++ 13 ∷ 10 ∷ [])))

pub digits-IsAscii : (s : Text) → All IsDigit s → IsAscii s
digits-IsAscii [] h = tt
digits-IsAscii (c ∷ s) h = (omega (arith, h.0), digits-IsAscii s h.1)

pub digits-Lacks : (c : ℕ) (s : Text) → c < 48 → All IsDigit s → Lacks c s
digits-Lacks c [] n h = tt
digits-Lacks c (d ∷ s) n h = (ground (arith, h.0), digits-Lacks c s n h.1)

-- The rest of a message after its headers.
abbrev pub closing : Bytes → Bytes → Bytes
closing content rest = 13 ∷ 10 ∷ (content ++ rest)

read_headers-closing :
    (fuel len : ℕ) (headers : Headers) (content rest : Bytes)
    → read_headers (suc fuel) (len, headers) (closing content rest)
      ≡ ok ((len, headers), content ++ rest)
unfolding read_headers
read_headers-closing fuel len headers content rest =
    rw (read_line-append [] (content ++ rest) tt) refl

add_header-length :
    (n len : ℕ) (headers : Headers)
    → n < 18446744073709551616
    → add_header (content_length_name, to_decimal n) (len, headers) ≡ ok (n, headers)
unfolding add_header text_eq
add_header-length n len headers h = rw (parse_unsigned-to_decimal 18446744073709551616 n h) refl

add_header-put :
    (k v : Text) (len : ℕ) (headers : Headers)
    → text_eq k content_length_name ≡ false
    → add_header (k, v) (len, headers) ≡ ok (len, put k v headers)
unfolding add_header
add_header-put k v len headers e = rw e refl

length_name :
    IsAscii content_length_name
    × Lacks 13 content_length_name
    × Lacks 58 content_length_name
    × (to_lowercase content_length_name ≡ content_length_name)
unfolding lower_char
length_name = (omega arith, ground arith, ground arith, refl)

read_headers-length :
    (fuel : ℕ) (headers : Headers) (content rest : Bytes)
    → length content < 18446744073709551616
    → length (write_length content ++ closing content rest) < fuel
    → read_headers fuel (0, headers) (write_length content ++ closing content rest)
      ≡ ok ((length content, headers), content ++ rest)
read_headers-length zero headers content rest h lt = absurd (omega arith)
read_headers-length (suc fuel) headers [] rest h lt = read_headers-closing fuel 0 headers [] rest
read_headers-length (suc zero) headers (c ∷ cs) rest h lt =
    let header = write_length (c ∷ cs) in
    absurd (
      omega (
        arith,
        length-append {0} header (closing (c ∷ cs) rest),
        write_header_pos (content_length_name, to_decimal (length (c ∷ cs))),
      ))
read_headers-length (suc (suc fuel)) headers (c ∷ cs) rest h lt =
    let n = length (c ∷ cs) in
    let (d, filled) = to_decimal-IsDigit n in
    let line : IsLine content_length_name (to_decimal n) = (
      length_name.0,
      length_name.1,
      length_name.2,
      length_name.3,
      digits-IsAscii (to_decimal n) d,
      digits-Lacks 13 (to_decimal n) (omega arith) d,
      trim-IsDigit (to_decimal n) d,
    ) in
    read_headers-write_header (suc fuel) (0, headers) content_length_name (to_decimal n)
      (closing (c ∷ cs) rest) line
    ∙ rw (add_header-length n 0 headers h) (read_headers-closing fuel n headers (c ∷ cs) rest)

pub read_headers-written :
    (fuel : ℕ) (headers hs : Headers) (content rest : Bytes)
    → All IsHeader hs
    → length content < 18446744073709551616
    → length (flat_map write_header hs ++ (write_length content ++ closing content rest)) < fuel
    → read_headers fuel
        (0, headers)
        (flat_map write_header hs ++ (write_length content ++ closing content rest))
      ≡ ok ((length content, collect headers hs), content ++ rest)
unfolding collect
read_headers-written fuel headers [] content rest hh h lt =
    read_headers-length fuel headers content rest h lt
read_headers-written zero headers (p ∷ ps) content rest hh h lt = absurd (omega arith)
read_headers-written (suc fuel) headers ((k, v) ∷ ps) content rest hh h lt =
    let (ka, k13, k58, kl, kc, va, v13, vt) = hh.0 in
    let tail = flat_map write_header ps ++ (write_length content ++ closing content rest) in
    let split_at = append_assoc (write_header (k, v)) (flat_map write_header ps) _ in
    let shorter : length tail < fuel = omega (
      arith,
      ap length split_at,
      length-append {0} (write_header (k, v)) tail,
      write_header_pos (k, v),
    ) in
    ap (λ i. read_headers (suc fuel) (0, headers) i) split_at
    ∙ read_headers-write_header fuel (0, headers) k v tail (ka, k13, k58, kl, va, v13, vt)
    ∙ rw (add_header-put k v 0 headers kc)
        (read_headers-written fuel (put k v headers) ps content rest hh.1 h shorter)
