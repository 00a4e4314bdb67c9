-- ===== src/Relay/Proxy.antt =====
-- The relay server over HTTP, relay-server/src/server.rs and proxy_state.rs, against the state that it
-- keeps, mem_state.rs.
use core_eng.Prelude.{
  ℕ, ◌<◌, ◌≡◌, refl, sym, ap, ◌∙◌, List, [], ◌∷◌, ◌++◌, append-nil, Text, codes, lookup, put,
  text_eq, to_decimal, All, All-append, Lacks, collect, length, arith, map, ◌==◌, false, inl, inr,
  Option-cases, get_elem?, All-get_elem?,
}
use core_eng.Prelude.Outcome.{Outcome, ok}
use core_eng.Prelude.Exec.{pure, ◌>>=◌}
use core_eng.Yarpc.Message.{IoError, read, write}
use core_eng.Yarpc.Method.{http_get, http_post}
use core_eng.Yarpc.Request.{Request, new_request, request_message, protocol_name}
use core_eng.Yarpc.Response.{new_response, response_message}
use core_eng.Yarpc.Query.{url_query-render}
use core_eng.Yarpc.Numerals.{to_decimal-IsDigit}
use core_eng.Yarpc.Reading.{IsWord, digits-Lacks}
use core_eng.Yarpc.Messages.{request-read-write, response-read-write, to_decimal-IsWord}
use core_eng.Relay.MemState.{Bytes, MemState, get, post, first_unread}
use core_eng.Relay.Delivery.{Call, gets, posts, step, run, get-idle, get-advances}
use core_eng.Relay.Server.{
  Served, content_for, respond, update, raw_call, call, proxy_get, proxy_post, url_with_id,
}

-- A text that can stand in a query: a word without `&`.
abbrev pub IsName : Text → Type 0
IsName n = IsWord n × Lacks 38 n

IsWord-append : (v w : Text) → IsWord v → IsWord w → IsWord (v ++ w)
IsWord-append v w a b = (
  All-append (λ c. c < 128) v w a.0 b.0,
  All-append (λ x. (x == 13) ≡ false) v w a.1 b.1,
  All-append (λ x. (x == 32) ≡ false) v w a.2 b.2,
)

protocol-IsWord : IsWord protocol_name
protocol-IsWord = (omega arith, ground arith, ground arith)

-- The server answers a GET of a path with the query `id=` as the state does.
content_for-get :
    (path id : Text) (request : Request) (s : MemState)
    → Lacks 63 path
    → Lacks 38 id
    → request.url ≡ path ++ 63 ∷ (codes "id=" ++ id)
    → content_for http_get request s ≡ (ok (get id s).0, (get id s).1)
unfolding content_for collect lookup put text_eq
content_for-get path id request s h h' e =
    rw
      (
        e,
        url_query-render path ((codes "id", id) ∷ []) h
            (((refl, (refl, tt)), (refl, (refl, tt)), h'), tt),
      )
      refl

-- `update` on the bytes of a request, when the state answers with `content`.
update-write :
    (request : Request) (rest content : Bytes) (s s' : MemState)
    → IsWord request.url
    → request.protocol ≡ protocol_name
    → request.headers ≡ []
    → length request.content < 9223372036854775808
    → content_for request.method request s ≡ (ok content, s')
    → update (write request_message request ++ rest) s ≡ (ok (respond content, rest), s')
unfolding update
update-write request rest content s s' url protocol headers fits e =
    let back =
      request-read-write request rest url (rw protocol protocol-IsWord) (rw headers tt)
        (rw headers tt) fits in
    rw (back, e) refl

respond-read :
    (content : Bytes)
    → length content < 9223372036854775808
    → read response_message (respond content) ≡ ok (new_response 200 (codes "OK") [] content, [])
unfolding respond
respond-read content fits =
    let r = new_response 200 (codes "OK") [] content in
    let phrase : IsWord (codes "OK") = (omega arith, ground arith, ground arith) in
    ap (read response_message) (sym (append-nil (write response_message r)))
    ∙ response-read-write r [] phrase protocol-IsWord (omega arith) tt tt fits

call-answer :
    (request : Request) (content : Bytes) (s s' : MemState)
    → IsWord request.url
    → request.protocol ≡ protocol_name
    → request.headers ≡ []
    → length request.content < 9223372036854775808
    → length content < 9223372036854775808
    → content_for request.method request s ≡ (ok content, s')
    → call request s ≡ (ok (new_response 200 (codes "OK") [] content), s')
unfolding call raw_call
call-answer request content s s' url protocol headers fits fits' e =
    let bytes = write request_message request in
    let done =
      ap (λ i. update i s) (sym (append-nil bytes))
      ∙ update-write request [] content s s' url protocol headers fits e in
    rw (done, respond-read content fits') refl

proxy_get-get :
    (n : Text) (s : MemState)
    → IsName n
    → length (get n s).0 < 9223372036854775808
    → proxy_get n s ≡ (ok (get n s).0, (get n s).1)
unfolding proxy_get
proxy_get-get n s h fits =
    let request = new_request http_get (codes "/?id=" ++ n) [] [] in
    let query : IsWord (codes "/?id=") = (omega arith, ground arith, ground arith) in
    let url = IsWord-append (codes "/?id=") n query h.0 in
    rw
      (call-answer request (get n s).0 s (get n s).1 url refl refl (omega arith) fits
        (content_for-get (codes "/") n request s (ground arith) h.1 refl))
      refl

proxy_post-post :
    (msg : Bytes) (s : MemState)
    → length msg < 9223372036854775808
    → proxy_post msg s ≡ (ok tt, post msg s)
unfolding proxy_post content_for
proxy_post-post msg s fits =
    let request = new_request http_post (codes "/") [] msg in
    let url : IsWord request.url = (omega arith, ground arith, ground arith) in
    rw (call-answer request [] s (post msg s) url refl refl fits (omega arith) refl) refl

-- What the calls of a history return, an empty text for a `post`: of the state, and of the proxy.
unfoldable pub replies : MemState → List Call → List Bytes
replies s [] = []
replies s (gets n ∷ cs) = (get n s).0 ∷ replies (get n s).1 cs
replies s (posts msg ∷ cs) = [] ∷ replies (post msg s) cs

abbrev proxy_step : Call → Served Bytes
proxy_step (gets n) = proxy_get n
proxy_step (posts msg) = proxy_post msg >>= λ done. pure []

unfoldable pub proxy_replies : MemState → List Call → List (Outcome IoError Bytes) × MemState
proxy_replies s [] = ([], s)
proxy_replies s (c ∷ cs) =
    let (o, s') = proxy_step c s in let (os, s'') = proxy_replies s' cs in (o ∷ os, s'')

abbrev Fits : Bytes → Type 0
Fits m = length m < 9223372036854775808

abbrev pub IsCall : Call → Type 0
IsCall (gets n) = IsName n
IsCall (posts msg) = Fits msg

get-Fits : (n : Text) (s : MemState) → All Fits s.queue → Fits (get n s).0
get-Fits n s h = elim (Option-cases (get_elem? s.queue (first_unread n s))) [
  | inl e ↦ rw (get-idle n s e) (omega arith)
  | inr (m, e) ↦ rw (get-advances n n s e).0 (All-get_elem? Fits s.queue (first_unread n s) h e)
]

post-Fits : (msg : Bytes) (s : MemState) → Fits msg → All Fits s.queue → All Fits (post msg s).queue
unfolding post
post-Fits msg s h q = All-append Fits s.queue (msg ∷ []) q (h, tt)

get-queue : (n : Text) (s : MemState) → (get n s).1.queue ≡ s.queue
get-queue n s = elim (Option-cases (get_elem? s.queue (first_unread n s))) [
  | inl e ↦ rw (get-idle n s e) refl
  | inr (m, e) ↦ (get-advances n n s e).1
]

-- A proxy of a server is the state that the server keeps: over any history of calls in which the
-- names of nodes are ASCII without spaces, carriage returns and `&`, and messages have less than 2^63
-- bytes, each call through HTTP returns what the state does, none fails, and the state is the same.
pub proxy_replies-replies :
    (s : MemState) (cs : List Call)
    → All IsCall cs
    → All (λ m. length m < 9223372036854775808) s.queue
    → proxy_replies s cs ≡ (map ok (replies s cs), run s cs)
unfolding proxy_replies replies run step
proxy_replies-replies s [] h q = refl
proxy_replies-replies s (gets n ∷ cs) h q =
    rw
      (
        proxy_get-get n s h.0 (get-Fits n s q),
        proxy_replies-replies (get n s).1 cs h.1 (rw (get-queue n s) q),
      )
      refl
proxy_replies-replies s (posts msg ∷ cs) h q =
    rw
      (proxy_post-post msg s h.0, proxy_replies-replies (post msg s) cs h.1 (post-Fits msg s h.0 q))
      refl

-- A signer that asks the server at the URL which `url_with_id` makes of its id, from a path that is
-- ASCII without spaces, carriage returns and `?`, is sent what the state has for the decimal text of
-- the id, and the server's state is as `get` leaves it.
pub update-url_with_id :
    (base : Text) (id : ℕ) (s : MemState)
    → IsWord base
    → Lacks 63 base
    → update (write request_message (new_request http_get (url_with_id base id) [] [])) s
      ≡ (ok (respond (get (to_decimal id) s).0, []), (get (to_decimal id) s).1)
unfolding url_with_id
update-url_with_id base id s w h =
    let request = new_request http_get (url_with_id base id) [] [] in
    let bytes = write request_message request in
    let query : IsWord (codes "?id=") = (omega arith, ground arith, ground arith) in
    let url =
      IsWord-append base (codes "?id=" ++ to_decimal id) w
        (IsWord-append (codes "?id=") (to_decimal id) query (to_decimal-IsWord id)) in
    let amp = digits-Lacks 38 (to_decimal id) (omega arith) (to_decimal-IsDigit id).0 in
    ap (λ i. update i s) (sym (append-nil bytes))
    ∙ update-write request [] (get (to_decimal id) s).0 s (get (to_decimal id) s).1 url refl refl
        (omega arith) (content_for-get base (to_decimal id) request s h amp refl)
