-- ===== src/Node/Start.antt =====
-- `TryFrom<&Config> for StacksCoordinator` in stacks-coordinator/src/coordinator.rs, which puts the
-- coordinator together.
use core_eng.Prelude.{ℕ, Option, none, Text, Map}
use core_eng.Prelude.Outcome.{Outcome, ok, err, panic}
use core_eng.Prelude.Exec.{Exec, lift, gets, modify, ◌>>=◌, ◌>>◌}
use core_eng.Frost.Messages.{DkgPublicShare}
use core_eng.Frost.Coordinator.Defs.{Coordinator, Net as FrostNet}
use core_eng.Peg.Queue.Defs.{Tables}
use core_eng.Peg.Queue.Ops.{from_connection}
use core_eng.Peg.Queue.Defs.{Codec}
use core_eng.Peg.Wallet.Defs.{Bitcoin, BitcoinWallet, new as new_bitcoin_wallet}
use core_eng.Node.Read.{NodeClient, burn_block_height}
use core_eng.Node.Wallet.{StacksWallet, new_wallet}
use core_eng.Node.Config.{Config}
use core_eng.Node.Bitcoin.{BitcoinApi, Rpc, load_wallet}
use core_eng.Node.Setup.{
  SetupEnv, SetupError, bitcoin_node_error, sqlite_peg_queue_error, Link, Links, Loading, convert,
  node, create_frost_coordinator, load_dkg_data,
}

-- The crate bitcoin as the Bitcoin wallet sees it, with the same keys; the Bitcoin node at a URL; a
-- contract's name and an address as text.
pub record StartEnv (env : SetupEnv) : Type 1 where
  pub bitcoin : Bitcoin
  pub bitcoin_key : env.api.XOnlyPublicKey → bitcoin.XOnlyPublicKey
  pub bapi : BitcoinApi
  pub rpc : env.conf.Url → Rpc bapi
  pub show_bitcoin_address : bitcoin.Address → Text
  pub show_contract_name : env.lib.ContractName → Text
  pub codec : Codec

module _ (env : SetupEnv) (start : StartEnv env) where
  open env use {w, api, net, lib, conf, setup}
  open start use {bitcoin, bitcoin_key, bapi, rpc, show_bitcoin_address, show_contract_name, codec}

  -- What the set-up changes: the client, dkg_public_shares.json, and the queue's database, which is the
  -- one in the data directory or an empty one in memory.
  pub record World : Type 0 where
    pub link : Link env
    pub shares_file : Option (Map (DkgPublicShare w))
    pub database : Tables

  pub record StacksCoordinator : Type 0 where
    pub frost_coordinator : Coordinator w
    pub local_peg_queue : Tables
    pub local_stacks_node : NodeClient
    pub bitcoin_wallet : BitcoinWallet bitcoin
    pub stacks_wallet : StacksWallet lib

  abbrev pub Starts : Type 0 → Type 0
  Starts A = Exec World (SetupError api) A

  -- `NodeClient::new`
  abbrev pub new_client : Config conf → NodeClient
  new_client config = record {
    contract_name = show_contract_name config.contract_name;
    contract_address = setup.show_address config.contract_address;
    next_nonce = none;
  }

  abbrev pub wallet_of : Config conf → StacksWallet lib
  wallet_of config =
      new_wallet lib config.contract_name config.contract_address config.stacks_private_key
        config.stacks_address config.stacks_version config.transaction_fee

  abbrev pub with_client : {A : Type 0} → Links env A → Starts A
  with_client m s = ((m s.link).0, record s { link = (m s.link).1 })

  abbrev pub loading_of : Coordinator w → World → Loading env
  loading_of frost s = record { link = s.link; frost = frost; shares_file = s.shares_file }

  abbrev pub with_frost :
      Outcome (SetupError api) api.XOnlyPublicKey
      → Coordinator w
      → Outcome (SetupError api) (api.XOnlyPublicKey × Coordinator w)
  with_frost (ok key) frost = ok (key, frost)
  with_frost (err e) frost = err e
  with_frost panic frost = panic

  unfoldable pub load_key :
      Config conf → Coordinator w → Starts (api.XOnlyPublicKey × Coordinator w)
  load_key config frost s =
      let r =
        load_dkg_data env config.data_directory (wallet_of config)
          (setup.show_address config.stacks_address) (loading_of frost s) in
      (with_frost r.0 r.1.frost, record s { link = r.1.link; shares_file = r.1.shares_file })

  abbrev pub bitcoin_wallet_of : api.XOnlyPublicKey → BitcoinWallet bitcoin
  bitcoin_wallet_of key = new_bitcoin_wallet bitcoin (bitcoin_key key)

  unfoldable pub open_queue : Config conf → ℕ → Starts (Unit {0})
  open_queue config height s =
      let r = from_connection codec config.start_block_height height s.database in
      (convert env sqlite_peg_queue_error r.0, record s { database = r.1 })

  abbrev pub assembled :
      Config conf → api.XOnlyPublicKey × Coordinator w → World → StacksCoordinator
  assembled config loaded s = record {
    frost_coordinator = loaded.1;
    local_peg_queue = s.database;
    local_stacks_node = s.link.client;
    bitcoin_wallet = bitcoin_wallet_of loaded.0;
    stacks_wallet = wallet_of config;
  }

  -- From the loaded key on.
  unfoldable pub finish :
      Config conf → api.XOnlyPublicKey × Coordinator w → Starts StacksCoordinator
  unfolding open_queue
  finish config loaded = do
    lift (
        convert env bitcoin_node_error (
          load_wallet bapi (rpc config.bitcoin_node_rpc_url)
            (show_bitcoin_address (bitcoin_wallet_of loaded.0).address)))
    height ← lift (node env (burn_block_height api net))
    open_queue config height
    gets (assembled config loaded)

  unfoldable pub try_from : FrostNet w → Config conf → Starts StacksCoordinator
  try_from network config = do
    modify (λ s. record s { link = record s.link { client = new_client config } })
    frost ← with_client (create_frost_coordinator env config (wallet_of config) network)
    loaded ← load_key config frost
    finish config loaded
