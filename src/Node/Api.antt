-- ===== src/Node/Api.antt =====
-- What stacks-coordinator/src/stacks_node/client.rs calls: serde_json and the Clarity values of
-- blockstack_lib by the views that the code matches on, the keys of wsts and bitcoin, and how the
-- Stacks node answers.
use core_eng.Frost.Wsts.{Wsts, Bytes}
use core_eng.Prelude.{ℕ, List, Option, Bool, Text, ◌⊎◌}

pub record NodeApi (w : Wsts) : Type 1 where
  -- serde_json::Value
  pub Json : Type 0
  pub null : Json
  pub get_field : Text → Json → Option Json
  pub as_str : Json → Option Text
  pub as_u64 : Json → Option ℕ
  pub as_bool : Json → Option Bool
  pub show_json : Json → Text
  -- vm::Value: `from_hex` is try_deserialize_hex_untyped, and each view is a pattern of the code
  pub Value : Type 0
  pub from_hex : Text → Text ⊎ Value
  pub as_uint : Value → Option ℕ
  pub as_optional : Value → Option (Option Value)
  pub as_tuple : Value → Option (List (Text × Value))
  pub as_buffer : Value → Option Bytes
  pub as_list : Value → Option (List Value)
  pub show_uint : ℕ → Text
  pub public_key_from : Bytes → Option w.PublicKey
  pub XOnlyPublicKey : Type 0
  pub x_only_from : Bytes → Option XOnlyPublicKey
  -- chainstate::stacks
  pub StacksTransaction : Type 0
  pub serialize : StacksTransaction → Text ⊎ Bytes

-- stacks-coordinator/src/stacks_node/client.rs `BroadcastError`
pub data BroadcastError : Type 0 where
  fee_too_low : ℕ → ℕ → BroadcastError
  not_enough_funds : Text → BroadcastError
  conflicting_nonce_in_mempool : BroadcastError
  other : Text → BroadcastError

-- stacks-coordinator/src/stacks_node/mod.rs `Error`; the errors of libraries by their text.
pub data StacksNodeError {w : Wsts} (api : NodeApi w) : Type 0 where
  invalid_json_entry : Text → StacksNodeError api
  unknown_block_height : ℕ → StacksNodeError api
  unknown_address : Text → StacksNodeError api
  json_error : Text → StacksNodeError api
  reqwest_error : Text → StacksNodeError api
  codec_error : Text → StacksNodeError api
  timeout behind_chain_tip : StacksNodeError api
  broadcast_error : BroadcastError → StacksNodeError api
  read_only_failure : Text → StacksNodeError api
  serialization_error : Text → StacksNodeError api
  no_coordinator_data : StacksNodeError api
  no_signer_data : ℕ → StacksNodeError api
  malformed_clarity_value : Text → api.Value → StacksNodeError api
  url_parse_error : Text → StacksNodeError api

-- A response of the node: its status, and its body as JSON or why it is none.
pub record Response {w : Wsts} (api : NodeApi w) : Type 0 where
  pub status : ℕ
  pub body : Text ⊎ api.Json

-- The network. `attempts` is what comes of the requests to a URL one after the other: the whole
-- seconds since the first, and the response if there is one; the list ends where backoff gives up.
-- `call_read_url` answers a read-only call by URL, sender and arguments, and `post` a transaction.
pub record Net {w : Wsts} (api : NodeApi w) : Type 0 where
  pub join_url : Text → Text ⊎ Text
  pub attempts : Text → List (ℕ × Option (Response api))
  pub call_read_url : Text → Text → List Text → Text ⊎ api.Json
  pub post : Text → Bytes → Text ⊎ Response api
