-- ===== src/Yarpc/RoundTrip.antt =====
-- A message of yarpc/src/http/message.rs is read back from what it is written as.
use core_eng.Prelude.{
  suc, ◌<◌, ◌≡◌, refl, lt→ltb, false, List, [], ◌∷◌, ◌++◌, Text, is_empty, All, arith, length,
  split, flat_map, IsDistinct, collect-IsDistinct, append_assoc,
}
use core_eng.Prelude.Outcome.{ok}
use core_eng.Yarpc.Chars.{Bytes, as_bytes-IsAscii, join}
use core_eng.Yarpc.Message.{read_exact_vec, MessageTrait, write_header, write_length, read, write}
use core_eng.Yarpc.Reading.{
  IsWord, IsHeader, words_32-Lacks, words_13-Lacks, words-IsAscii, read_line-append,
  take_exact-append, join-Lacks, join-IsAscii, split-join, read_headers-written, closing,
}

-- What a message must be like to be read back.
pub record IsWritable {M : Type 0} (t : MessageTrait M) (m : M) : Type 0 where
  pub words : All IsWord (t.first_line m)
  pub some_word : is_empty (t.first_line m) ≡ false
  pub headers : All IsHeader (t.headers m)
  pub distinct : IsDistinct (t.headers m)
  pub fits : length (t.content m) < 9223372036854775808
  pub parsed : t.parse (t.first_line m) (t.headers m) (t.content m) ≡ ok m

split-join_words :
    (ws : List Text) → All IsWord ws → is_empty ws ≡ false → split 32 (join (32 ∷ []) ws) ≡ ws
split-join_words [] h e = ground arith
split-join_words (w ∷ ws) h e = split-join w ws (words_32-Lacks (w ∷ ws) h)

write-append :
    {M : Type 0} (t : MessageTrait M) (m : M) (rest : Bytes)
    → All IsWord (t.first_line m)
    → write t m ++ rest
      ≡ join (32 ∷ []) (t.first_line m)
        ++ 13
          ∷ 10
          ∷ (flat_map write_header (t.headers m)
              ++ (write_length (t.content m) ++ closing (t.content m) rest))
unfolding write
write-append t m rest h = simp (
  as_bytes-IsAscii (join (32 ∷ []) (t.first_line m)) (join-IsAscii _ (words-IsAscii _ h)),
  append_assoc,
)

-- A message that is writable is read back from its bytes, and what follows is left for the next.
pub read-write :
    {M : Type 0} (t : MessageTrait M) (m : M) (rest : Bytes)
    → IsWritable t m
    → read t (write t m ++ rest) ≡ ok (m, rest)
unfolding read read_exact_vec
read-write t m rest w =
    let ws = t.first_line m in
    let content = t.content m in
    let headers = t.headers m in
    let tail = flat_map write_header headers ++ (write_length content ++ closing content rest) in
    let line =
      read_line-append (join (32 ∷ []) ws) tail
        (join-Lacks 13 ws refl (words_13-Lacks ws w.words)) in
    let found =
      read_headers-written (suc (length tail)) [] headers content rest w.headers
        (omega (arith, w.fits)) (omega arith) in
    rw
      (
        write-append t m rest w.words,
        line,
        found,
        lt→ltb (length content) 9223372036854775808 w.fits,
        take_exact-append content rest,
        split-join_words ws w.words w.some_word,
        collect-IsDistinct headers w.distinct,
        w.parsed,
      )
      refl
