-- ===== src/Yarpc/Messages.antt =====
-- Requests and responses of yarpc/src/http are read back from the bytes that they are written as.
use core_eng.Prelude.{ℕ, ◌<◌, ◌≡◌, refl, ◌++◌, text_eq, All, IsDistinct, length, to_decimal, arith}
use core_eng.Prelude.Outcome.{ok}
use core_eng.Yarpc.Chars.{Bytes}
use core_eng.Yarpc.Message.{read, write}
use core_eng.Yarpc.Method.{Method, http_get, http_post, to_str, from_str}
use core_eng.Yarpc.Request.{Request, request_message, request_line, parse_request}
use core_eng.Yarpc.Response.{Response, response_message, response_line, parse_response}
use core_eng.Yarpc.Numerals.{to_decimal-IsDigit, parse_unsigned-to_decimal}
use core_eng.Yarpc.Reading.{IsWord, IsHeader, digits-IsAscii, digits-Lacks}
use core_eng.Yarpc.RoundTrip.{IsWritable, read-write}

from_str-to_str : (m : Method) → from_str (to_str m) ≡ ok m
unfolding from_str to_str text_eq
from_str-to_str http_get = refl
from_str-to_str http_post = refl

to_str-IsWord : (m : Method) → IsWord (to_str m)
unfolding to_str
to_str-IsWord http_get = (omega arith, ground arith, ground arith)
to_str-IsWord http_post = (omega arith, ground arith, ground arith)

pub to_decimal-IsWord : (n : ℕ) → IsWord (to_decimal n)
to_decimal-IsWord n =
    let d = (to_decimal-IsDigit n).0 in
    (
      digits-IsAscii (to_decimal n) d,
      digits-Lacks 13 (to_decimal n) (omega arith) d,
      digits-Lacks 32 (to_decimal n) (omega arith) d,
    )

request-IsWritable :
    (r : Request)
    → IsWord r.url
    → IsWord r.protocol
    → All IsHeader r.headers
    → IsDistinct r.headers
    → length r.content < 9223372036854775808
    → IsWritable request_message r
unfolding request_line parse_request
request-IsWritable r url protocol headers distinct fits = record {
  words = (to_str-IsWord r.method, (url, (protocol, tt)));
  some_word = refl;
  headers = headers;
  distinct = distinct;
  fits = fits;
  parsed = rw (from_str-to_str r.method) refl;
}

-- A request is read back from the bytes that it is written as, and what follows them is left, if its
-- URL and protocol are ASCII without spaces and carriage returns, the names of its headers are
-- different, in lower case, and not `content-length`, the values are trimmed, names and values are
-- ASCII without carriage returns, no name has a colon, and its content has less than 2^63 bytes.
pub request-read-write :
    (r : Request) (rest : Bytes)
    → IsWord r.url
    → IsWord r.protocol
    → All IsHeader r.headers
    → IsDistinct r.headers
    → length r.content < 9223372036854775808
    → read request_message (write request_message r ++ rest) ≡ ok (r, rest)
request-read-write r rest url protocol headers distinct fits =
    read-write request_message r rest (request-IsWritable r url protocol headers distinct fits)

-- So is a response, if moreover its phrase is one word and its code a u16.
pub response-read-write :
    (r : Response) (rest : Bytes)
    → IsWord r.phrase
    → IsWord r.protocol
    → r.code < 65536
    → All IsHeader r.headers
    → IsDistinct r.headers
    → length r.content < 9223372036854775808
    → read response_message (write response_message r ++ rest) ≡ ok (r, rest)
unfolding response_line parse_response
response-read-write r rest phrase protocol code headers distinct fits =
    read-write response_message r rest (record {
      words = (protocol, (to_decimal-IsWord r.code, (phrase, tt)));
      some_word = refl;
      headers = headers;
      distinct = distinct;
      fits = fits;
      parsed = rw (parse_unsigned-to_decimal 65536 r.code code) refl;
    })
