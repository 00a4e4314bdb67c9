-- ===== src/Tests/Relay.antt =====
-- relay-server at concrete inputs.
use core_eng.Prelude.{
  split_once, map, Lacks, Text, ◌++◌, to_decimal, arith, List, [], ◌∷◌, ◌≡◌, refl, codes, lookup,
  put, text_eq, All, take,
}
use core_eng.Relay.MemState.{MemState, default, get, post, first_unread, read_at}
use core_eng.Relay.Delivery.{
  Call, gets, posts, received, run, received-posted, posted, step, IsFilled,
}
use core_eng.Relay.Server.{update, respond, url_with_id}
use core_eng.Relay.Proxy.{update-url_with_id, proxy_replies, replies, IsCall, proxy_replies-replies}
use core_eng.Prelude.Outcome.{ok, panic}
use core_eng.Yarpc.Chars.{lower_char, trim, join, as_bytes, utf8_char, parse_unsigned, digits}
use core_eng.Yarpc.Message.{
  read, write, write_header, read_line, read_string_until, read_byte, read_headers, header_of,
  add_header, read_exact_vec,
}
use core_eng.Yarpc.Method.{http_get, http_post, to_str}
use core_eng.Yarpc.Request.{Request, new_request, request_message, request_line}
use core_eng.Yarpc.Reading.{IsWord, IsHeader}
use core_eng.Yarpc.Messages.{request-read-write}

abbrev history : List Call
history =
    gets (codes "1")
    ∷ posts (codes "Msg # 0")
    ∷ gets (codes "1")
    ∷ gets (codes "5")
    ∷ gets (codes "1")
    ∷ posts (codes "Msg # 1")
    ∷ gets (codes "1")
    ∷ []

filled : All IsFilled history
filled = (tt, (refl, (tt, (tt, (tt, (refl, (tt, tt)))))))

received-posted_example :
    received (codes "1") default history
    ≡ take (first_unread (codes "1") (run default history)) (posted history)
received-posted_example = received-posted (codes "1") history filled

received_test : received (codes "1") default history ≡ codes "Msg # 0" ∷ codes "Msg # 1" ∷ []
unfolding received run get post first_unread read_at lookup put text_eq step
received_test = refl

abbrev host : Text
host = codes "something.example"

host-Lacks : Lacks 63 host
host-Lacks = ground arith

abbrev one_message : MemState
one_message = record { highwaters = []; queue = codes "Hello!" ∷ [] }

host-IsWord : IsWord host
host-IsWord = (omega arith, ground arith, ground arith)

update-url_with_id_example :
    update (write request_message (new_request http_get (url_with_id host 12) [] [])) one_message
    ≡ (ok (respond (get (to_decimal 12) one_message).0, []), (get (to_decimal 12) one_message).1)
update-url_with_id_example = update-url_with_id host 12 one_message host-IsWord host-Lacks

-- A request with a header and a content.
abbrev hello : Request
hello = record {
  method = http_post;
  url = codes "/";
  protocol = codes "HTTP/1.1";
  headers = (codes "hello", codes "someThing") ∷ [];
  content = codes "Hello!";
}

hello-IsHeader : All IsHeader hello.headers
unfolding lower_char trim text_eq
hello-IsHeader =
    ((omega arith, ground arith, ground arith, refl, refl, omega arith, ground arith, refl), tt)

request-read-write_example :
    read request_message (write request_message hello ++ codes "GET") ≡ ok (hello, codes "GET")
unfolding lookup
request-read-write_example =
    request-read-write hello (codes "GET") (omega arith, ground arith, ground arith)
      (omega arith, ground arith, ground arith) hello-IsHeader (refl, tt) (omega arith)

hello_written :
    write request_message hello
    ≡ codes "POST / HTTP/1.1"
      ++ (13
          ∷ 10
          ∷ (codes "hello:someThing"
              ++ (13 ∷ 10 ∷ (codes "content-length:6" ++ (13 ∷ 10 ∷ 13 ∷ 10 ∷ codes "Hello!")))))
unfolding write request_line to_str join as_bytes utf8_char write_header to_decimal
hello_written = refl

history-IsCall : All IsCall history
history-IsCall = ground arith

proxy_replies-replies_example :
    proxy_replies one_message history
    ≡ (map ok (replies one_message history), run one_message history)
proxy_replies-replies_example =
    proxy_replies-replies one_message history history-IsCall (omega arith, tt)

-- A content-length for which no `Vec` can be had.
length_panics :
    (o : MemState)
    → update
        (codes "GET / HTTP/1.1"
          ++ (13 ∷ 10 ∷ (codes "Content-Length:9223372036854775808" ++ (13 ∷ 10 ∷ 13 ∷ 10 ∷ []))))
        o
      ≡ (panic, o)
unfolding update read read_line read_string_until read_byte read_headers header_of split_once
    lower_char trim add_header text_eq parse_unsigned digits read_exact_vec
length_panics o = refl
