-- ===== src/Yarpc/Message.antt =====
-- yarpc/src/read_ex.rs and yarpc/src/http/message.rs. A stream to read is the bytes to come; a stream
-- to write takes the bytes that `write` returns, and streams that fail to write are not modelled.
use core_eng.Prelude.{
  ℕ, suc, ◌==◌, ltb, List, [], ◌∷◌, ◌++◌, Text, codes, text_eq, is_empty, if◌then◌else◌, length,
  put, split, split_once, flat_map, to_decimal,
}
use core_eng.Prelude.Outcome.{Outcome, ok, err, panic, ◌>>=◌, ok_or}
use core_eng.Yarpc.Chars.{Bytes, as_bytes, to_lowercase, trim, join, parse_unsigned}

-- `ErrorKind` of the errors that the code makes or meets
pub data IoError : Type 0 where
  invalid_data unexpected_eof : IoError

abbrev pub Read : Type 0 → Type 0
Read A = Outcome IoError (A × Bytes)

unfoldable pub read_byte : Bytes → Read ℕ
read_byte [] = err unexpected_eof
read_byte (b ∷ i) = ok (b, i)

abbrev push_front : ℕ → Read Text → Read Text
push_front c r = r >>= (λ e. ok (c ∷ e.0, e.1))

unfoldable pub read_string_until : ℕ → Bytes → Read Text
read_string_until b [] = err unexpected_eof
read_string_until b (c ∷ i) =
    let rest = read_string_until b i in if c == b then ok ([], i) else push_front c rest

abbrev keep_byte : ℕ → Read Bytes → Read Bytes
keep_byte c r = r >>= (λ e. ok (c ∷ e.0, e.1))

unfoldable pub take_exact : ℕ → Bytes → Read Bytes
take_exact ℕ.zero i = ok ([], i)
take_exact (suc n) [] = err unexpected_eof
take_exact (suc n) (c ∷ i) = keep_byte c (take_exact n i)

-- A `Vec` of 2^63 bytes or more panics. That a smaller one finds no memory is not modelled.
unfoldable pub read_exact_vec : ℕ → Bytes → Read Bytes
read_exact_vec len i = if ltb len 9223372036854775808 then take_exact len i else panic

abbrev expect_lf : Text → ℕ × Bytes → Read Text
expect_lf line (b, i) = if b == 10 then ok (line, i) else err invalid_data

unfoldable pub read_line : Bytes → Read Text
read_line i = read_string_until 13 i >>= (λ e. read_byte e.1 >>= expect_lf e.0)

abbrev pub Headers : Type 0
Headers = List (Text × Text)

abbrev pub content_length_name : Text
content_length_name = codes "content-length"

abbrev lower_trim : Text × Text → Text × Text
lower_trim (name, value) = (to_lowercase name, trim value)

unfoldable pub header_of : Text → Outcome IoError (Text × Text)
header_of line = ok_or (split_once 58 line) invalid_data >>= (λ e. ok (lower_trim e))

-- One header: the length of the content, or an entry of the map.
unfoldable pub add_header : Text × Text → ℕ × Headers → Outcome IoError (ℕ × Headers)
add_header (name, value) (len, headers) =
    if text_eq name content_length_name
    then ok_or (parse_unsigned 18446744073709551616 value) invalid_data >>= (λ n. ok (n, headers))
    else ok (len, put name value headers)

-- The loop over the headers, on fuel.
unfoldable pub read_headers : ℕ → ℕ × Headers → Bytes → Read (ℕ × Headers)
read_headers ℕ.zero found i = err unexpected_eof
read_headers (suc fuel) found i = read_line i >>= (λ e.
    let rest =
      header_of e.0 >>= (λ h. add_header h found) >>= (λ found'. read_headers fuel found' e.1) in
    if is_empty e.0 then ok (found, e.1) else rest)

-- The trait `Message`.
pub record MessageTrait (M : Type 0) : Type 0 where
  pub parse : List Text → Headers → Bytes → Outcome IoError M
  pub first_line : M → List Text
  pub headers : M → Headers
  pub content : M → Bytes

abbrev eol : Bytes
eol = 13 ∷ 10 ∷ []

unfoldable pub write_header : Text × Text → Bytes
write_header (k, v) = as_bytes k ++ (58 ∷ (as_bytes v ++ eol))

abbrev pub write_length : Bytes → Bytes
write_length content =
    if is_empty content then [] else write_header (content_length_name, to_decimal (length content))

module _ {M : Type 0} (t : MessageTrait M) where
  -- Each header takes at least the two bytes of its line's end.
  unfoldable pub read : Bytes → Read M
  read i = read_line i >>= (λ e. read_headers (suc (length e.1)) (0, []) e.1 >>= (λ h.
      read_exact_vec h.0.0 h.1 >>= (λ c. t.parse (split 32 e.0) h.0.1 c.0 >>= (λ m. ok (m, c.1)))))

  unfoldable pub write : M → Bytes
  write m =
      as_bytes (join (32 ∷ []) (t.first_line m))
      ++ (eol
          ++ (flat_map write_header (t.headers m)
              ++ (write_length (t.content m) ++ (eol ++ t.content m))))
