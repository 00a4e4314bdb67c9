-- ===== src/Node/Setup.antt =====
-- The set-up of a coordinator in stacks-coordinator/src/coordinator.rs: from the configuration, the
-- sBTC contract, or a key generation. frost-coordinator/src/lib.rs `create_coordinator` is here too.
use core_eng.Prelude.{
  ℕ, List, [], ◌∷◌, ◌++◌, Option, none, some, Bool, false, Text, codes, text_eq, ◌⊎◌, Map,
  if◌then◌else◌,
}
use core_eng.Prelude.Outcome.{Outcome, ok, err, panic, ok_or}
use core_eng.Prelude.Exec.{Exec, pure, lift, modify, ◌>>=◌, ◌>>◌}
use core_eng.Frost.Wsts.{Wsts, Bytes}
use core_eng.Frost.Messages.{DkgPublicShare}
use core_eng.Frost.Config.{KeyText, Config as SignerConfig, new_config}
use core_eng.Frost.Coordinator.Defs.{
  Aggregation, Coordinator, Net as FrostNet, Error as FrostError, new as new_coordinator,
}
use core_eng.Frost.Coordinator.Dkg.{run_distributed_key_generation}
use core_eng.Frost.Coordinator.Run.{set_aggregate_public_key, set_dkg_public_shares}
use core_eng.Node.Api.{NodeApi, Net, StacksNodeError}
use core_eng.Node.Read.{
  NodeClient, Reads, map_err, or_else, keys_threshold, coordinator_public_key,
  bitcoin_wallet_public_key, broadcast_transaction,
}
use core_eng.Node.Client.{as_u32, public_keys, signer_key_ids, next_nonce}
use core_eng.Node.Wallet.{
  StacksLib, StacksWallet, Signing, WalletError, build_set_bitcoin_wallet_public_key_transaction,
  build_set_coordinator_data_transaction,
}
use core_eng.Node.Bitcoin.{Error as BitcoinNodeError}
use core_eng.Peg.Queue.Defs.{PegQueueError}
use core_eng.Node.Config.{ConfigLib, Config}

-- Keys as bytes and points, the signer's configuration at a path (frost-signer's Config::from_path),
-- and an address as text.
pub record SetupLib {w : Wsts} (t : KeyText w) {api : NodeApi w} (lib : StacksLib api)
    : Type 0 where
  pub x_bytes : w.Point → Bytes
  pub lift_x : api.XOnlyPublicKey → Option w.Point
  pub scalar_from : Text → Option w.Scalar
  pub secp_key_from : Bytes → Option lib.StacksPublicKey
  pub signer_config : Text → Text ⊎ SignerConfig w t
  pub show_address : lib.StacksAddress → Text

pub data SetupError {w : Wsts} (api : NodeApi w) : Type 0 where
  frost_coordinator_error : FrostError → SetupError api
  peg_wallet_error : WalletError → SetupError api
  stacks_node_error : StacksNodeError api → SetupError api
  config_error : Text → SetupError api
  bitcoin_node_error : BitcoinNodeError → SetupError api
  sqlite_peg_queue_error : PegQueueError → SetupError api
  invalid_public_key no_coordinator point_error : SetupError api

-- All that the set-up is given from outside.
pub record SetupEnv : Type 1 where
  pub w : Wsts
  pub a : Aggregation w
  pub t : KeyText w
  pub api : NodeApi w
  pub net : Net api
  pub lib : StacksLib api
  pub conf : ConfigLib lib
  pub signing : Signing lib
  pub setup : SetupLib t lib

module _ (env : SetupEnv) where
  open env use {w, a, t, api, net, lib, conf, signing, setup}
  open api use {StacksTransaction, XOnlyPublicKey, x_only_from}
  open setup use {x_bytes, lift_x, scalar_from, secp_key_from, signer_config, show_address}

  -- The Stacks node's client, and the transactions that the node took.
  pub record Link : Type 0 where
    pub client : NodeClient
    pub posted : List StacksTransaction

  -- While the key data is loaded: also the frost coordinator, and what dkg_public_shares.json in the
  -- data directory holds, if it can be read.
  pub record Loading : Type 0 where
    pub link : Link
    pub frost : Coordinator w
    pub shares_file : Option (Map (DkgPublicShare w))

  abbrev pub Links : Type 0 → Type 0
  Links A = Exec Link (SetupError api) A

  abbrev pub Loads : Type 0 → Type 0
  Loads A = Exec Loading (SetupError api) A

  -- `?` on the result of another error type.
  abbrev pub convert {ℓ} :
      {E : Type 0} {A : Type ℓ} → (E → SetupError api) → Outcome E A → Outcome (SetupError api) A
  convert f (ok x) = ok x
  convert f (err e) = err (f e)
  convert f panic = panic

  abbrev pub node : {A : Type 0} → Reads api net A → Outcome (SetupError api) A
  node r = convert stacks_node_error r

  unfoldable pub link_nonce : Text → Links ℕ
  link_nonce address s = (
    node (next_nonce api net address s.client).0,
    record s { client = (next_nonce api net address s.client).1 },
  )

  abbrev pub posted_with : Outcome (SetupError api) (Unit {0}) → StacksTransaction → Link → Link
  posted_with (ok u) tx s = record s { posted = s.posted ++ tx ∷ [] }
  posted_with (err e) tx s = s
  posted_with panic tx s = s

  unfoldable pub post_transaction : StacksTransaction → Links (Unit {0})
  post_transaction tx s = let r = node (broadcast_transaction api net tx) in (r, posted_with r tx s)

  -- frost-coordinator/src/lib.rs `create_coordinator`: the id is 0, DEVNET_COORDINATOR_ID.
  unfoldable pub create_coordinator : FrostNet w → SignerConfig w t → Coordinator w
  create_coordinator network config =
      new_coordinator w a 0 config.total_signers config.total_keys config.keys_threshold
        config.network_private_key config.coordinator_public_key network

  abbrev same_key : Option w.PublicKey → w.PublicKey → Bool
  same_key none key = false
  same_key (some loaded) key = text_eq (w.key_bytes loaded) (w.key_bytes key)

  unfoldable pub load_coordinator_data :
      Config conf → StacksWallet lib → Coordinator w → Links (Unit {0})
  unfolding link_nonce post_transaction
  load_coordinator_data config wallet frost = do
    nonce ← link_nonce (show_address config.stacks_address)
    key ← lift (ok_or (secp_key_from (w.key_bytes frost.public_key)) invalid_public_key)
    tx ← lift (
        convert peg_wallet_error (
          build_set_coordinator_data_transaction lib signing config.stacks_address key wallet
            nonce))
    post_transaction tx

  unfoldable pub create_frost_coordinator_from_path :
      Text → Config conf → StacksWallet lib → FrostNet w → Links (Coordinator w)
  create_frost_coordinator_from_path path config wallet network = do
    signer ← lift (map_err (signer_config path) config_error)
    let frost = create_coordinator network signer
    client ← (λ s. (ok s.client, s))
    found ← lift (node (coordinator_public_key api net client (show_address config.stacks_address)))
    if same_key found frost.public_key then pure tt else load_coordinator_data config wallet frost
    pure frost

  unfoldable pub create_frost_coordinator_from_contract :
      Config conf → FrostNet w → Links (Coordinator w)
  create_frost_coordinator_from_contract config network = do
    client ← (λ s. (ok s.client, s))
    let sender = show_address config.stacks_address
    threshold ← lift (node (keys_threshold api net client sender))
    found ← lift (node (coordinator_public_key api net client sender))
    coordinator_key ← lift (ok_or found no_coordinator)
    keys ← lift (node (public_keys api net client sender))
    ids ← lift (node (signer_key_ids api net client sender))
    private_key ← lift (
        ok_or (scalar_from (or_else config.network_private_key []))
          (config_error (codes "Invalid network_private_key.")))
    n ← lift (as_u32 threshold)
    signer ← lift (
        convert (λ e. config_error [])
          (new_config w t n coordinator_key keys ids private_key
            (or_else config.http_relay_url [])))
    pure (create_coordinator network signer)

  abbrev create_by :
      Option Text → Config conf → StacksWallet lib → FrostNet w → Links (Coordinator w)
  create_by (some path) config wallet network =
      create_frost_coordinator_from_path path config wallet network
  create_by none config wallet network = create_frost_coordinator_from_contract config network

  unfoldable pub create_frost_coordinator :
      Config conf → StacksWallet lib → FrostNet w → Links (Coordinator w)
  create_frost_coordinator config wallet network =
      create_by config.signer_config_path config wallet network

  abbrev pub on_link : {A : Type 0} → Links A → Loads A
  on_link m s = ((m s.link).0, record s { link = (m s.link).1 })

  abbrev pub on_frost : {A : Type 0} → Exec (Coordinator w) FrostError A → Loads A
  on_frost m s = (convert frost_coordinator_error (m s.frost).0, record s { frost = (m s.frost).1 })

  -- `read_dkg_public_shares` and `write_dkg_public_shares`, if there is a data directory. That the
  -- file cannot be written is not modelled.
  unfoldable pub read_shares : Option Text → Loads (Unit {0})
  read_shares none = pure tt
  read_shares (some directory) = do
    shares ← (λ s.
        (ok_or s.shares_file (config_error (codes "Unable to open or parse DKG public shares")), s))
    modify (λ s. record s { frost = set_dkg_public_shares w a shares s.frost })

  unfoldable pub write_shares : Option Text → Loads (Unit {0})
  write_shares none = pure tt
  write_shares (some directory) =
      modify (λ s. record s { shares_file = some s.frost.dkg_public_shares })

  unfoldable pub use_contract_key : Option Text → XOnlyPublicKey → Loads XOnlyPublicKey
  unfolding read_shares
  use_contract_key directory key = do
    read_shares directory
    point ← lift (ok_or (lift_x key) point_error)
    modify (λ s. record s { frost = set_aggregate_public_key w a point s.frost })
    pure key

  -- The key is set in the sBTC contract.
  unfoldable pub announce_key : StacksWallet lib → Text → XOnlyPublicKey → Loads XOnlyPublicKey
  unfolding link_nonce post_transaction
  announce_key wallet address key = do
    nonce ← on_link (link_nonce address)
    tx ← lift (
        convert peg_wallet_error
          (build_set_bitcoin_wallet_public_key_transaction lib signing key wallet nonce))
    on_link (post_transaction tx)
    pure key

  unfoldable pub generate_key : Option Text → StacksWallet lib → Text → Loads XOnlyPublicKey
  unfolding write_shares announce_key
  generate_key directory wallet address = do
    point ← on_frost (run_distributed_key_generation w a)
    write_shares directory
    key ← lift (ok_or (x_only_from (x_bytes point)) invalid_public_key)
    announce_key wallet address key

  abbrev pub key_by :
      Option XOnlyPublicKey → Option Text → StacksWallet lib → Text → Loads XOnlyPublicKey
  key_by (some key) directory wallet address = use_contract_key directory key
  key_by none directory wallet address = generate_key directory wallet address

  unfoldable pub load_dkg_data : Option Text → StacksWallet lib → Text → Loads XOnlyPublicKey
  load_dkg_data directory wallet address = do
    client ← (λ s. (ok s.link.client, s))
    found ← lift (node (bitcoin_wallet_public_key api net client address))
    key_by found directory wallet address
