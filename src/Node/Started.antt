-- ===== src/Node/Started.antt =====
-- What a coordinator that stacks-coordinator/src/coordinator.rs has put together starts with.
use core_eng.Prelude.{ℕ, ◌-◌, ◌%◌, ◌^◌, ◌≡◌, Option, none, some, ◌⊎◌}
use core_eng.Prelude.Outcome.{Outcome, ok}
use core_eng.Prelude.Exec.{◌>>=◌ as and_then, ◌>>◌ as next}
use core_eng.Frost.Coordinator.Defs.{Coordinator, Net as FrostNet}
use core_eng.Peg.Queue.Defs.{Tables}
use core_eng.Node.Read.{burn_block_height, bitcoin_wallet_public_key}
use core_eng.Node.Config.{Config}
use core_eng.Node.Bitcoin.{load_wallet}
use core_eng.Node.Setup.{SetupEnv, Loading}
use core_eng.Node.Keys.{IsFromContract, IsGenerated}
use core_eng.Node.Start.{StartEnv, StacksCoordinator, wallet_of, bitcoin_wallet_of}

-- Where the queue begins: at the height that is given, else at the stored one, else at the chain's.
abbrev pub processed_after : Option ℕ → Option ℕ → ℕ → Option ℕ
processed_after (some start) stored current = some ((start - 1) % 2 ^ 64)
processed_after none (some last) current = some last
processed_after none none current = some ((current - 1) % 2 ^ 64)

abbrev pub begun : Option ℕ → ℕ → Tables → Tables
begun start current s = record s { last_processed = processed_after start s.last_processed current }

module _ (env : SetupEnv) (start : StartEnv env) where
  open env use {w, api, net, lib, conf, setup}
  open start use {bitcoin, bapi, rpc, show_bitcoin_address, codec}

  -- The coordinator has the loaded key: its wallet is that of the key, the Bitcoin node has imported
  -- the wallet's address, and the queue begins at the right height.
  pub record IsStarted (config : Config conf) (key : api.XOnlyPublicKey) (before : Tables)
      (sc : StacksCoordinator env start) : Type 0 where
    pub height : ℕ
    pub asked : burn_block_height api net ≡ ok height
    pub wallet : sc.bitcoin_wallet ≡ bitcoin_wallet_of env start key
    pub imported :
        load_wallet bapi
          (rpc config.bitcoin_node_rpc_url)
          (show_bitcoin_address sc.bitcoin_wallet.address)
        ≡ ok tt
    pub queue : sc.local_peg_queue ≡ begun config.start_block_height height before

  -- How the coordinator got its key: from its frost coordinator as it was created, and the contract
  -- or a key generation.
  pub record IsLoaded (config : Config conf) (sc : StacksCoordinator env start)
      (key : api.XOnlyPublicKey) : Type 0 where
    pub before : Loading env
    pub after : Loading env
    pub found : Option api.XOnlyPublicKey
    pub read :
        bitcoin_wallet_public_key api net before.link.client
          (setup.show_address config.stacks_address)
        ≡ ok found
    pub source :
        IsFromContract env found key before after
        ⊎ ((found ≡ none) × IsGenerated env (wallet_of env start config) key before after)
    pub same_frost : sc.frost_coordinator ≡ after.frost
    pub same_client : sc.local_stacks_node ≡ after.link.client
