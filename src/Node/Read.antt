-- ===== src/Node/Read.antt =====
-- The methods of stacks-coordinator/src/stacks_node/client.rs that read from the Stacks node or send to
-- it, and change nothing of the client. The node's answers are a parameter.
use core_eng.Prelude.{
  ℕ, ◌==◌, ltb, List, [], ◌∷◌, ◌++◌, Option, none, some, false, Text, codes, text_eq, lookup, ◌⊎◌,
  inl, inr, if◌then◌else◌, to_decimal,
}
use core_eng.Prelude.Outcome.{Outcome, ok, err, panic, ok_or, ◌>>=◌}
use core_eng.Frost.Wsts.{Wsts, Bytes}
use core_eng.Node.Api.{
  NodeApi, BroadcastError, fee_too_low, not_enough_funds, conflicting_nonce_in_mempool, other,
  StacksNodeError, invalid_json_entry, unknown_block_height, unknown_address, json_error,
  reqwest_error, codec_error, timeout, behind_chain_tip, broadcast_error, read_only_failure,
  serialization_error, malformed_clarity_value, url_parse_error, Response, Net,
}

-- `map_err` on a library's `Result`.
abbrev pub map_err : {E F A : Type 0} → F ⊎ A → (F → E) → Outcome E A
map_err (inl e) f = err (f e)
map_err (inr a) f = ok a

abbrev pub or_else {ℓ} : {A : Type ℓ} → Option A → A → A
or_else none d = d
or_else (some a) d = a

abbrev pub and_then {ℓ κ} : {A : Type ℓ} {B : Type κ} → Option A → (A → Option B) → Option B
and_then none f = none
and_then (some a) f = f a

pub record NodeClient : Type 0 where
  pub contract_name : Text
  pub contract_address : Text
  pub next_nonce : Option ℕ

module _ {w : Wsts} (api : NodeApi w) (net : Net api) where
  open w use {PublicKey}
  open api use {
    Json, null, get_field, as_str, as_u64, as_bool, show_json, Value, from_hex, as_uint,
    as_optional, as_tuple, as_buffer, as_list, show_uint, public_key_from, XOnlyPublicKey,
    x_only_from, StacksTransaction, serialize,
  }
  open net use {join_url, attempts, call_read_url, post}

  abbrev pub Reads {ℓ} : Type ℓ → Type ℓ
  Reads A = Outcome (StacksNodeError api) A

  -- From<&Value> for BroadcastError
  abbrev broadcast_error_for : Text → Json → BroadcastError
  broadcast_error_for reason value =
      if text_eq reason (codes "FeeTooLow")
      then fee_too_low (or_else (and_then (get_field (codes "expected") value) as_u64) 0)
          (or_else (and_then (get_field (codes "actual") value) as_u64) 0)
      else if text_eq reason (codes "NotEnoughFunds")
      then not_enough_funds (
          or_else (and_then (get_field (codes "reason_data") value) (λ r. some (show_json r)))
            (codes "\"No Reason Data\""))
      else if text_eq reason (codes "ConflictingNonceInMempool")
      then conflicting_nonce_in_mempool
      else other reason

  unfoldable pub broadcast_error_from : Json → BroadcastError
  broadcast_error_from value =
      broadcast_error_for
        (or_else (and_then (get_field (codes "reason") value) as_str) (codes "Unknown Reason"))
        value

  unfoldable pub build_url : Text → Reads Text
  build_url route = map_err (join_url route) url_parse_error

  -- The requests of `retry_notify`: an error is transient until more than five seconds have passed.
  unfoldable pub send_requests : List (ℕ × Option (Response api)) → Reads (Response api)
  send_requests [] = err timeout
  send_requests ((elapsed, answer) ∷ later) =
      let rest = send_requests later in
      if ltb 5 elapsed then err timeout else elim answer [ some r ↦ ok r | none ↦ rest ]

  unfoldable pub get_response : Text → Reads (Response api)
  get_response route = elim (build_url route) [
    | ok url ↦ send_requests (attempts url)
    | err e ↦ err e
    | panic ↦ panic
  ]

  -- `json[key]`
  abbrev index : Text → Json → Json
  index key json = or_else (get_field key json) null

  unfoldable pub get_burn_ops : {T : Type 0} → (Json → Text ⊎ List T) → ℕ → Text → Reads (List T)
  get_burn_ops decode block_height op = do
    response ←
        get_response (codes "/v2/burn_ops/" ++ (to_decimal block_height ++ (codes "/" ++ op)))
    json ← map_err response.body (λ e. unknown_block_height block_height)
    map_err (decode (index op json)) json_error

  unfoldable pub burn_block_height : Reads ℕ
  burn_block_height = do
    response ← get_response (codes "/v2/info")
    json ← map_err response.body reqwest_error
    ok_or (as_u64 (index (codes "burn_block_height") json))
        (invalid_json_entry (codes "burn_block_height"))

  -- The answer of a read-only call: its result, if the node says that it is okay.
  unfoldable pub read_result : Text → Json → Reads Text
  read_result function_name response =
      if or_else
        (and_then (get_field (codes "okay") response) (λ v. some (or_else (as_bool v) false))) false
      then (do
        result ← ok_or (get_field (codes "result") response) (invalid_json_entry (codes "result"))
        ok_or (as_str result) (read_only_failure (codes "Expected string result.")))
      else (do
        cause ← ok_or (get_field (codes "cause") response) (invalid_json_entry (codes "cause"))
        err (read_only_failure (function_name ++ (codes ": " ++ show_json cause))))

  unfoldable pub call_read : NodeClient → Text → Text → List Text → Reads Text
  unfolding read_result
  call_read c sender function_name args = do
    url ← build_url (
        codes "/v2/contracts/call-read/"
        ++ (c.contract_address ++ (codes "/" ++ (c.contract_name ++ (codes "/" ++ function_name)))))
    response ← map_err (call_read_url url sender args) reqwest_error
    read_result function_name response

  -- A read-only call and the Clarity value that its hex text stands for.
  unfoldable pub read_value : NodeClient → Text → Text → List Text → Reads Value
  unfolding call_read
  read_value c sender function_name args = do
    hex ← call_read c sender function_name args
    map_err (from_hex hex) serialization_error

  -- `if let UInt(n) = value { Ok(n) } else { Err(…) }`
  unfoldable pub read_uint : NodeClient → Text → Text → Reads ℕ
  unfolding read_value
  read_uint c sender function_name = do
    value ← read_value c sender function_name []
    ok_or (as_uint value) (malformed_clarity_value function_name value)

  unfoldable pub num_signers : NodeClient → Text → Reads ℕ
  num_signers c sender = read_uint c sender (codes "get-num-signers")

  unfoldable pub keys_threshold : NodeClient → Text → Reads ℕ
  keys_threshold c sender = read_uint c sender (codes "get-threshold")

  abbrev malformed : {A : Type 0} → Text → Value → Option A → Reads A
  malformed function_name value found = ok_or found (malformed_clarity_value function_name value)

  unfoldable pub coordinator_key_in : Value → Option (Option Value) → Reads (Option PublicKey)
  coordinator_key_in coordinator_data none = ok none
  coordinator_key_in coordinator_data (some inner) = do
    entries ← malformed (codes "get-coordinator-data") coordinator_data (and_then inner as_tuple)
    value ← malformed (codes "get-coordinator-data") coordinator_data (lookup (codes "key") entries)
    bytes ← malformed (codes "get-coordinator-data") coordinator_data (as_buffer value)
    key ← malformed (codes "get-coordinator-data") coordinator_data (public_key_from bytes)
    ok (some key)

  unfoldable pub coordinator_public_key : NodeClient → Text → Reads (Option PublicKey)
  coordinator_public_key c sender = do
    value ← read_value c sender (codes "get-coordinator-data") []
    coordinator_key_in value (as_optional value)

  unfoldable pub wallet_key_bytes : Value → Option Bytes → Reads (Option XOnlyPublicKey)
  wallet_key_bytes value none = ok none
  wallet_key_bytes value (some bytes) = do
    key ← malformed (codes "get-bitcoin-wallet-public-key") value (x_only_from bytes)
    ok (some key)

  unfoldable pub bitcoin_wallet_public_key : NodeClient → Text → Reads (Option XOnlyPublicKey)
  unfolding wallet_key_bytes
  bitcoin_wallet_public_key c sender = do
    value ← read_value c sender (codes "get-bitcoin-wallet-public-key") []
    inner ← malformed (codes "get-bitcoin-wallet-public-key") value (as_optional value)
    wallet_key_bytes value (and_then inner as_buffer)

  -- Any status but 200 is an error of the node.
  unfoldable pub broadcast_transaction : StacksTransaction → Reads (Unit {0})
  broadcast_transaction tx = do
    url ← build_url (codes "/v2/transactions")
    bytes ← map_err (serialize tx) codec_error
    response ← map_err (post url bytes) reqwest_error
    if response.status == 200 then ok tt else (do
      json ← map_err response.body reqwest_error
      err (broadcast_error (broadcast_error_from json)))

  -- The account's nonce by the node's answer.
  unfoldable pub account_nonce : Text → Response api → Reads ℕ
  account_nonce address response =
      if response.status == 404 then err (unknown_address address) else elim response.body [
        | inl e ↦ err behind_chain_tip
        | inr json ↦
            ok_or (and_then (get_field (codes "nonce") json) as_u64)
              (invalid_json_entry (codes "nonce"))
      ]
