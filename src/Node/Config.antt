-- ===== src/Node/Config.antt =====
-- stacks-coordinator/src/config.rs. `ConfigLib` is what it calls of blockstack_lib and of url.
use core_eng.Prelude.{ℕ, List, [], ◌∷◌, ◌++◌, Option, none, some, Text, codes, ◌⊎◌, split}
use core_eng.Prelude.Outcome.{Outcome, ok, err, ok_or, ◌>>=◌}
use core_eng.Frost.Wsts.{Wsts}
use core_eng.Node.Api.{NodeApi}
use core_eng.Node.Read.{map_err, or_else}
use core_eng.Node.Wallet.{StacksLib, TransactionVersion, mainnet, testnet, address_version}

pub data ConfigError : Type 0 where
  invalid_config invalid_contract invalid_private_key : Text → ConfigError

pub data BitcoinNetwork : Type 0 where
  bitcoin bitcoin_testnet : BitcoinNetwork

-- `Network` of the configuration file.
pub data Network : Type 0 where
  on_mainnet on_testnet : Network

pub record RawConfig : Type 0 where
  pub sbtc_contract : Text
  pub stacks_private_key : Text
  pub stacks_node_rpc_url : Text
  pub bitcoin_node_rpc_url : Text
  pub frost_dkg_round_id : ℕ
  pub signer_config_path : Option Text
  pub start_block_height : Option ℕ
  pub data_directory : Option Text
  pub network : Option Network
  pub transaction_fee : ℕ
  pub http_relay_url : Option Text
  pub frost_state_file : Option Text
  pub network_private_key : Option Text
  pub polling_interval : Option ℕ

-- `address_of` is from_public_keys for one key (p2pkh) and a version.
pub record ConfigLib {w : Wsts} {api : NodeApi w} (lib : StacksLib api) : Type 1 where
  pub Url : Type 0
  pub parse_url : Text → Text ⊎ Url
  pub address_from_string : Text → Option lib.StacksAddress
  pub contract_name_from : Text → Text ⊎ lib.ContractName
  pub private_key_from_hex : Text → Text ⊎ lib.StacksPrivateKey
  pub address_of : ℕ → lib.StacksPublicKey → Option lib.StacksAddress

-- Default polling interval in seconds
abbrev pub default_polling_interval : ℕ
default_polling_interval = 5

module _ {w : Wsts} {api : NodeApi w} {lib : StacksLib api} (c : ConfigLib lib) where
  open lib use {StacksPrivateKey, StacksAddress, ContractName, from_private}
  open c use {
    Url, parse_url, address_from_string, contract_name_from, private_key_from_hex, address_of,
  }

  pub record Config : Type 0 where
    pub contract_name : ContractName
    pub contract_address : StacksAddress
    pub stacks_private_key : StacksPrivateKey
    pub stacks_address : StacksAddress
    pub stacks_node_rpc_url : Url
    pub bitcoin_node_rpc_url : Url
    pub frost_dkg_round_id : ℕ
    pub signer_config_path : Option Text
    pub start_block_height : Option ℕ
    pub data_directory : Option Text
    pub bitcoin_network : BitcoinNetwork
    pub stacks_version : TransactionVersion
    pub transaction_fee : ℕ
    pub http_relay_url : Option Text
    pub network_private_key : Option Text
    pub polling_interval : ℕ

  abbrev pub Parses {ℓ} : Type ℓ → Type ℓ
  Parses A = Outcome ConfigError A

  -- The parts before and after the first dot; what follows a second dot is left out.
  unfoldable pub contract_parts : List Text → Parses (Text × Text)
  contract_parts [] = err (invalid_contract (codes "Missing address"))
  contract_parts (address ∷ []) = err (invalid_contract (codes "Missing name."))
  contract_parts (address ∷ name ∷ rest) = ok (address, name)

  unfoldable pub parse_contract : RawConfig → Parses (ContractName × StacksAddress)
  parse_contract raw = do
    parts ← contract_parts (split 46 raw.sbtc_contract)
    address ← ok_or (address_from_string parts.0) (invalid_contract (codes "Bad contract address."))
    name ←
        map_err (contract_name_from parts.1)
          (λ e. invalid_contract (codes "Bad contract name: " ++ (e ++ codes ".")))
    ok (name, address)

  abbrev version_for : Network → TransactionVersion × BitcoinNetwork
  version_for on_mainnet = (mainnet, bitcoin)
  version_for on_testnet = (testnet, bitcoin_testnet)

  unfoldable pub parse_version : RawConfig → TransactionVersion × BitcoinNetwork
  parse_version raw = version_for (or_else raw.network on_mainnet)

  unfoldable pub parse_stacks_private_key : RawConfig → Parses (StacksPrivateKey × StacksAddress)
  parse_stacks_private_key raw = do
    sender_key ← map_err (private_key_from_hex raw.stacks_private_key) invalid_private_key
    address ←
        ok_or (address_of (address_version lib (parse_version raw).0) (from_private sender_key))
          (invalid_private_key (codes "Failed to generate stacks address from private key."))
    ok (sender_key, address)

  -- An option that must be given where the signer's configuration has no path.
  unfoldable pub required : Option Text → Text → Parses (Unit {0})
  required none message = err (invalid_config message)
  required (some x) message = ok tt

  unfoldable pub frost_options : RawConfig → Option Text → Parses (Unit {0})
  unfolding required
  frost_options raw (some path) = ok tt
  frost_options raw none = do
    u ←
        required raw.http_relay_url
          (codes "Must specify http_relay_url when no signer_config_path specified.")
    v ←
        required raw.frost_state_file
          (codes "Must specify frost_state_file when no signer_config_path specified.")
    required raw.network_private_key
        (codes "Must specify network_private_key when no signer config_path specified.")

  unfoldable pub try_from : RawConfig → Parses Config
  unfolding frost_options
  try_from raw = do
    u ← frost_options raw raw.signer_config_path
    contract ← parse_contract raw
    keys ← parse_stacks_private_key raw
    stacks_url ←
        map_err (parse_url raw.stacks_node_rpc_url)
          (λ e. invalid_config (codes "Invalid stacks_node_rpc_url: " ++ e))
    bitcoin_url ←
        map_err (parse_url raw.bitcoin_node_rpc_url)
          (λ e. invalid_config (codes "Invalid bitcoin_node_rpc_url: " ++ e))
    ok (record {
      contract_name = contract.0;
      contract_address = contract.1;
      stacks_private_key = keys.0;
      stacks_address = keys.1;
      stacks_node_rpc_url = stacks_url;
      bitcoin_node_rpc_url = bitcoin_url;
      frost_dkg_round_id = raw.frost_dkg_round_id;
      signer_config_path = raw.signer_config_path;
      start_block_height = raw.start_block_height;
      data_directory = raw.data_directory;
      bitcoin_network = (parse_version raw).1;
      stacks_version = (parse_version raw).0;
      transaction_fee = raw.transaction_fee;
      http_relay_url = raw.http_relay_url;
      network_private_key = raw.network_private_key;
      polling_interval = or_else raw.polling_interval default_polling_interval;
    })
