-- ===== src/Relay/Server.antt =====
-- relay-server/src/server.rs: `update`, `raw_call` and `call` of the server, and
-- relay-server/src/proxy_state.rs, whose state is a server that is called over HTTP.
use core_eng.Prelude.{ℕ, [], ◌++◌, Text, codes, lookup, is_empty, if◌then◌else◌, to_decimal}
use core_eng.Prelude.Outcome.{ok, ok_or}
use core_eng.Prelude.Exec.{Exec, pure, raise, lift, ◌>>=◌}
use core_eng.Yarpc.Message.{IoError, invalid_data, read, write}
use core_eng.Yarpc.Method.{Method, http_get, http_post}
use core_eng.Yarpc.Request.{Request, new_request, request_message}
use core_eng.Yarpc.Response.{Response, new_response, response_message}
use core_eng.Yarpc.Query.{url_query}
use core_eng.Relay.MemState.{Bytes, MemState, get, post}

-- A method of the server, over the messages.
abbrev pub Served : Type 0 → Type 0
Served A = Exec MemState IoError A

-- `get` and `post` of the state return `Ok` on every path.
abbrev get_message : Text → Served Bytes
get_message id s = let (content, s') = get id s in (ok content, s')

abbrev post_message : Bytes → Served Bytes
post_message content s = (ok [], post content s)

-- The match on the method.
unfoldable pub content_for : Method → Request → Served Bytes
content_for http_get request = do
  id ← lift (ok_or (lookup (codes "id") (url_query request.url)) invalid_data)
  get_message id
content_for http_post request = post_message request.content

unfoldable pub respond : Bytes → Bytes
respond content = write response_message (new_response 200 (codes "OK") [] content)

-- The bytes of the response, and those that are left to read.
unfoldable pub update : Bytes → Served (Bytes × Bytes)
update i = do
  e ← lift (read request_message i)
  content ← content_for e.0.method e.0
  pure (respond content, e.1)

-- The bytes of the message must be used up, or the call fails after the fact.
unfoldable pub raw_call : Bytes → Served Bytes
raw_call msg = do e ← update msg; if is_empty e.1 then pure e.0 else raise invalid_data

unfoldable pub call : Request → Served Response
call request = do
  answer ← raw_call (write request_message request)
  e ← lift (read response_message answer)
  pure e.0

-- `ProxyState<Server>`
unfoldable pub proxy_get : Text → Served Bytes
proxy_get node_id = do
  response ← call (new_request http_get (codes "/?id=" ++ node_id) [] [])
  pure response.content

unfoldable pub proxy_post : Bytes → Served (Unit {0})
proxy_post msg = do response ← call (new_request http_post (codes "/") [] msg); pure tt

-- `url_with_id` of frost-signer/src/net.rs
unfoldable pub url_with_id : Text → ℕ → Text
url_with_id base id = base ++ (codes "?id=" ++ to_decimal id)
