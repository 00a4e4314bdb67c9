-- ===== src/Yarpc/Response.antt =====
-- yarpc/src/http/response.rs
use core_eng.Prelude.{ℕ, List, [], ◌∷◌, Text, to_decimal}
use core_eng.Prelude.Outcome.{Outcome, ok, err, ◌>>=◌, ok_or}
use core_eng.Yarpc.Chars.{Bytes, parse_unsigned}
use core_eng.Yarpc.Message.{IoError, invalid_data, Headers, MessageTrait}
use core_eng.Yarpc.Request.{protocol_name}

pub record Response : Type 0 where
  pub protocol : Text
  pub code : ℕ
  pub phrase : Text
  pub headers : Headers
  pub content : Bytes

-- `Response::new`
abbrev pub new_response : ℕ → Text → Headers → Bytes → Response
new_response code phrase headers content = record {
  protocol = protocol_name;
  code = code;
  phrase = phrase;
  headers = headers;
  content = content;
}

abbrev first_or_empty : List Text → Text
first_or_empty [] = []
first_or_empty (w ∷ ws) = w

unfoldable pub parse_response : List Text → Headers → Bytes → Outcome IoError Response
parse_response [] headers content = err invalid_data
parse_response (protocol ∷ []) headers content = err invalid_data
parse_response (protocol ∷ code ∷ words) headers content =
    ok_or (parse_unsigned 65536 code) invalid_data >>= (λ n. ok (record {
      protocol = protocol;
      code = n;
      phrase = first_or_empty words;
      headers = headers;
      content = content;
    }))

unfoldable pub response_line : Response → List Text
response_line r = r.protocol ∷ to_decimal r.code ∷ r.phrase ∷ []

abbrev pub response_message : MessageTrait Response
response_message = record {
  parse = parse_response;
  first_line = response_line;
  headers = λ r. r.headers;
  content = λ r. r.content;
}
