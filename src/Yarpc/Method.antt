-- ===== src/Yarpc/Method.antt =====
-- yarpc/src/http/method.rs
use core_eng.Prelude.{Text, codes, text_eq, if◌then◌else◌}
use core_eng.Prelude.Outcome.{Outcome, ok, err}
use core_eng.Yarpc.Message.{IoError, invalid_data}

pub data Method : Type 0 where
  http_get http_post : Method

unfoldable pub to_str : Method → Text
to_str http_get = codes "GET"
to_str http_post = codes "POST"

unfoldable pub from_str : Text → Outcome IoError Method
from_str s =
    if text_eq s (codes "GET")
    then ok http_get
    else if text_eq s (codes "POST")
    then ok http_post
    else err invalid_data
