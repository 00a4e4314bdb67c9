-- ===== src/Yarpc/Request.antt =====
-- yarpc/src/http/request.rs
use core_eng.Prelude.{List, [], ◌∷◌, Text, codes}
use core_eng.Prelude.Outcome.{Outcome, ok, err, ◌>>=◌}
use core_eng.Yarpc.Chars.{Bytes}
use core_eng.Yarpc.Message.{IoError, invalid_data, Headers, MessageTrait}
use core_eng.Yarpc.Method.{Method, to_str, from_str}

pub record Request : Type 0 where
  pub method : Method
  pub url : Text
  pub protocol : Text
  pub headers : Headers
  pub content : Bytes

abbrev pub protocol_name : Text
protocol_name = codes "HTTP/1.1"

-- `Request::new`
abbrev pub new_request : Method → Text → Headers → Bytes → Request
new_request method url headers content = record {
  method = method;
  url = url;
  protocol = protocol_name;
  headers = headers;
  content = content;
}

-- `parse` takes the words of the first line one by one; further ones are left unread.
unfoldable pub parse_request : List Text → Headers → Bytes → Outcome IoError Request
parse_request [] headers content = err invalid_data
parse_request (method ∷ []) headers content = from_str method >>= (λ m. err invalid_data)
parse_request (method ∷ url ∷ []) headers content = from_str method >>= (λ m. err invalid_data)
parse_request (method ∷ url ∷ protocol ∷ words) headers content = from_str method >>= (λ m.
    ok
      (record { method = m; url = url; protocol = protocol; headers = headers; content = content }))

unfoldable pub request_line : Request → List Text
request_line r = to_str r.method ∷ r.url ∷ r.protocol ∷ []

abbrev pub request_message : MessageTrait Request
request_message = record {
  parse = parse_request;
  first_line = request_line;
  headers = λ r. r.headers;
  content = λ r. r.content;
}
