-- ===== src/Relay/MemState.antt =====
-- relay-server/src/state.rs and mem_state.rs. Both methods return `Ok` on every path, so the
-- model leaves the `Result` out.
use core_eng.Prelude.{ℕ, ◌+◌, List, [], ◌∷◌, ◌++◌, Option, none, some, Text, lookup, put, get_elem?}

abbrev pub Bytes : Type 0
Bytes = List ℕ

pub record MemState : Type 0 where
  -- The index of the message that a node read last.
  pub highwaters : List (Text × ℕ)
  pub queue : List Bytes

abbrev pub default : MemState
default = record { highwaters = []; queue = [] }

-- `map_or(0, |last_read| *last_read + 1)`
abbrev after_last : Option ℕ → ℕ
after_last none = 0
after_last (some last_read) = last_read + 1

unfoldable pub first_unread : Text → MemState → ℕ
unfolding lookup
first_unread node_id s = after_last (lookup node_id s.highwaters)

unfoldable pub read_at : Text → ℕ → MemState → Option Bytes → Bytes × MemState
read_at node_id i s none = ([], s)
read_at node_id i s (some r) = (r, record s { highwaters = put node_id i s.highwaters })

unfoldable pub get : Text → MemState → Bytes × MemState
unfolding first_unread read_at
get node_id s = let i = first_unread node_id s in read_at node_id i s (get_elem? s.queue i)

unfoldable pub post : Bytes → MemState → MemState
post msg s = record s { queue = s.queue ++ msg ∷ [] }
