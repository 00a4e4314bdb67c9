-- ===== src/Node/Bitcoin.antt =====
-- stacks-coordinator/src/bitcoin_node.rs: the calls of a Bitcoin node over JSON-RPC.
use core_eng.Prelude.{
  ℕ, ◌%◌, ◌^◌, List, [], ◌∷◌, ◌++◌, Option, none, some, Bool, true, false, Text, codes, text_eq,
  ◌⊎◌, inl, inr, if◌then◌else◌, to_decimal, is_empty,
}
use core_eng.Prelude.Outcome.{Outcome, ok, err, panic, ok_or, ◌>>=◌}
use core_eng.Frost.Wsts.{Bytes}
use core_eng.Node.Read.{map_err, or_else}
use core_eng.Peg.Wallet.Defs.{Utxo}

pub data Error : Type 0 where
  io_error rpc_error invalid_response_json : Text → Error
  invalid_tx_hash : Error
  descriptor_error url_parse_error : Text → Error

pub record Descriptor : Type 0 where
  pub desc : Text
  pub timestamp : Text
  pub internal : Bool
  pub watchonly : Bool
  pub label : Text
  pub keypool : Bool
  pub rescan : Bool

-- The parameters of the four methods that are called.
pub data Params : Type 0 where
  raw_transaction : Text → Params
  new_wallet : Text → Bool → Bool → Text → Bool → Bool → Bool → Params
  unspent : ℕ → ℕ → List Text → Params
  descriptors : List Descriptor → Params

-- `ureq::Error`: a response with another status, whose text may be unreadable, or no response.
pub data HttpError : Type 0 where
  status : ℕ → Text ⊎ Text → HttpError
  transport : Text → HttpError

-- serde_json, bdk, bitcoin and hex; `from_btc` is Amount::from_btc with `to_sat`, and `wallet_from`
-- reads the name and the warning of a wallet.
pub record BitcoinApi : Type 1 where
  pub Json : Type 0
  pub null : Json
  pub get_field : Text → Json → Option Json
  pub as_str : Json → Option Text
  pub as_u64 : Json → Option ℕ
  pub as_bool : Json → Option Bool
  pub as_array : Json → Option (List Json)
  pub Float : Type 0
  pub as_f64 : Json → Option Float
  pub from_btc : Float → Option ℕ
  pub show_float : Float → Text
  pub wallet_from : Json → Text ⊎ (Text × Text)
  pub calc_checksum : Text → Text ⊎ Text
  pub Transaction : Type 0
  pub consensus_encode : Transaction → Text ⊎ Bytes
  pub hex_encode : Bytes → Text
  pub Txid : Type 0
  pub hash_from : Text → Option Txid

-- The node: `join` on the URL of its interface, and its answer to a method at a URL.
pub record Rpc (b : BitcoinApi) : Type 0 where
  pub bitcoind_api : Text
  pub join : Text → Text ⊎ Text
  pub send : Text → Text → Params → HttpError ⊎ (Text ⊎ b.Json)

abbrev pub wallet_name : Text
wallet_name = codes "stacks_coordinator"

unfoldable pub parse_rpc_error : HttpError → Text
parse_rpc_error (status code (inl e)) = to_decimal code ++ (codes " " ++ e)
parse_rpc_error (status code (inr text)) = to_decimal code ++ (codes " " ++ text)
parse_rpc_error (transport e) = e

-- `str::contains`
abbrev starts_with : Text → Text → Bool
starts_with [] s = true
starts_with (c ∷ p) [] = false
starts_with (c ∷ p) (d ∷ s) = if text_eq (c ∷ []) (d ∷ []) then starts_with p s else false

unfoldable pub contains_text : Text → Text → Bool
contains_text p [] = is_empty p
contains_text p (c ∷ s) =
    let rest = contains_text p s in if starts_with p (c ∷ s) then true else rest

module _ (b : BitcoinApi) (rpc : Rpc b) where
  open b use {
    Json, null, get_field, as_str, as_u64, as_bool, as_array, Float, as_f64, from_btc, show_float,
    wallet_from, calc_checksum, Transaction, consensus_encode, hex_encode, Txid, hash_from,
  }
  open rpc use {bitcoind_api, join, send}

  abbrev pub Calls {ℓ} : Type ℓ → Type ℓ
  Calls A = Outcome Error A

  abbrev missing : {A : Type 0} → Option A → Text → Calls A
  missing found what = ok_or found (invalid_response_json what)

  abbrev url_for : Option Text → Calls Text
  url_for none = ok bitcoind_api
  url_for (some path) = map_err (join path) url_parse_error

  unfoldable pub call_path : Text → Params → Option Text → Calls Json
  call_path method params path = do
    url ← url_for path
    response ← map_err (send url method params) (λ e. rpc_error (parse_rpc_error e))
    json ← map_err response io_error
    missing (get_field (codes "result") json) (codes "Missing entry 'result'.")

  unfoldable pub call : Text → Params → Calls Json
  call method params = call_path method params none

  unfoldable pub call_wallet : Text → Params → Calls Json
  call_wallet method params = call_path method params (some (codes "/wallet/" ++ wallet_name))

  unfoldable pub broadcast_transaction : Transaction → Calls Txid
  broadcast_transaction tx = do
    bytes ← map_err (consensus_encode tx) io_error
    response ← call (codes "sendrawtransaction") (raw_transaction (hex_encode bytes))
    result ← missing (as_str response) (codes "No transaction hash in sendrawtransaction response")
    ok_or (hash_from result) invalid_tx_hash

  -- A wallet without keys, blank, with descriptors, and loaded at the start; a warning is logged.
  unfoldable pub create_empty_wallet : Calls (Unit {0})
  create_empty_wallet = do
    response ← call (codes "createwallet") (new_wallet wallet_name true true [] false true true)
    wallet ← map_err (wallet_from response) invalid_response_json
    ok tt

  unfoldable pub import_address : Text → Calls (Unit {0})
  import_address address = do
    let descriptor = codes "addr(" ++ (address ++ codes ")")
    checksum ← map_err (calc_checksum descriptor) descriptor_error
    answer ← call_wallet (codes "importdescriptors") (
        descriptors (
          record {
            desc = descriptor ++ (codes "#" ++ checksum);
            timestamp = codes "now";
            internal = false;
            watchonly = true;
            label = [];
            keypool = true;
            rescan = true;
          }
          ∷ []))
    ok tt

  -- What `load_wallet` does with the end of `create_empty_wallet`: only one kind of error is looked at.
  abbrev pub after_create : Calls (Unit {0}) → Calls (Unit {0})
  after_create (ok u) = ok tt
  after_create (err (rpc_error message)) =
      if contains_text (codes "Database already exists") message
      then ok tt
      else err (rpc_error message)
  after_create (err other) = ok tt
  after_create panic = panic

  unfoldable pub load_wallet : Text → Calls (Unit {0})
  load_wallet address = do u ← after_create create_empty_wallet; import_address address

  -- `raw[key]`
  abbrev index : Text → Json → Json
  index key raw = or_else (get_field key raw) null

  abbrev amount_of : Option Float → Calls ℕ
  amount_of none = err (invalid_response_json (codes "Amount not provided or wrong type"))
  amount_of (some amount) = ok_or (from_btc amount) (
      invalid_response_json
        (codes "Could not parse the float " ++ (show_float amount ++ codes " as a bitcoin amount")))

  -- `as u32` keeps the low 32 bits.
  unfoldable pub raw_to_utxo : Json → Calls Utxo
  raw_to_utxo raw = do
    txid ← missing (as_str (index (codes "txid") raw)) (codes "Could not parse txid")
    vout ← missing (as_u64 (index (codes "vout") raw)) (codes "Could not parse vout")
    address ← missing (as_str (index (codes "address") raw)) (codes "Could not parse address")
    label ← missing (as_str (index (codes "label") raw)) (codes "Could not parse label")
    script ←
        missing (as_str (index (codes "scriptPubKey") raw)) (codes "Could not parse scriptPubKey")
    amount ← amount_of (as_f64 (index (codes "amount") raw))
    confirmations ←
        missing (as_u64 (index (codes "confirmations") raw)) (codes "Could not parse confirmations")
    spendable ←
        missing (as_bool (index (codes "spendable") raw)) (codes "Could not parse spendable")
    solvable ← missing (as_bool (index (codes "solvable") raw)) (codes "Could not parse solvable")
    safe ← missing (as_bool (index (codes "safe") raw)) (codes "Could not parse safe")
    ok (record { txid = txid; vout = vout % 2 ^ 32; script_pub_key = script; amount = amount })

  -- `.map(raw_to_utxo).collect()`: the first failure ends it.
  unfoldable pub raw_to_utxos : List Json → Calls (List Utxo)
  raw_to_utxos [] = ok []
  raw_to_utxos (raw ∷ raws) = do
    utxo ← raw_to_utxo raw
    utxos ← raw_to_utxos raws
    ok (utxo ∷ utxos)

  unfoldable pub list_unspent : Text → Calls (List Utxo)
  list_unspent address = do
    response ← call_wallet (codes "listunspent") (unspent 0 9999999 (address ∷ []))
    raws ← missing (as_array response) (codes "Listunspent response is not an array")
    raw_to_utxos raws
