-- ===== src/Tests/Start.antt =====
-- The set-up of a whole coordinator at concrete inputs.
use core_eng.Prelude.{ℕ, [], ◌∷◌, some, none, Text, codes, inr, true}
use core_eng.Node.Config.{Config, bitcoin_testnet}
use core_eng.Node.Wallet.{testnet}
use core_eng.Node.Bitcoin.{BitcoinApi}
use core_eng.Node.Start.{
  StartEnv, World, StacksCoordinator, assembled, wallet_of, loading_of, new_client, try_from,
}
use core_eng.Frost.Coordinator.Defs.{Coordinator}
use core_eng.Node.Setup.{load_dkg_data, create_coordinator}
use core_eng.Tests.Toy.{toy}
use core_eng.Tests.Coordinator.{generating}
use core_eng.Tests.Wallet.{texts}
use core_eng.Tests.Peg.{numbers}
use core_eng.Tests.Node.{env, conf, link, signer}

-- A node that takes every call; JSON has one value.
abbrev bapi : BitcoinApi
bapi = record {
  Json = ℕ;
  null = 0;
  get_field = λ key json. some json;
  as_str = λ json. some (json ∷ []);
  as_u64 = λ json. some json;
  as_bool = λ json. some true;
  as_array = λ json. some [];
  Float = ℕ;
  as_f64 = λ json. some json;
  from_btc = λ amount. some amount;
  show_float = λ amount. amount ∷ [];
  wallet_from = λ json. inr ([], []);
  calc_checksum = λ text. inr (codes "c");
  Transaction = ℕ;
  consensus_encode = λ tx. inr (tx ∷ []);
  hex_encode = λ bytes. bytes;
  Txid = Text;
  hash_from = λ text. some text;
}

abbrev start : StartEnv env
start = record {
  bitcoin = texts;
  bitcoin_key = λ k. k;
  bapi = bapi;
  rpc = λ url. record {
    bitcoind_api = url;
    join = λ path. inr path;
    send = λ url method params. inr (inr 0);
  };
  show_bitcoin_address = λ a. a ∷ [];
  show_contract_name = λ name. name;
  codec = numbers;
}

abbrev config : Config conf
config = record {
  contract_name = codes "sbtc";
  contract_address = 5;
  stacks_private_key = 4;
  stacks_address = 30;
  stacks_node_rpc_url = codes "s";
  bitcoin_node_rpc_url = codes "b";
  frost_dkg_round_id = 0;
  signer_config_path = some (codes "signer.toml");
  start_block_height = none;
  data_directory = none;
  bitcoin_network = bitcoin_testnet;
  stacks_version = testnet;
  transaction_fee = 2000;
  http_relay_url = none;
  network_private_key = none;
  polling_interval = 5;
}

abbrev world : World env start
world = record {
  link = link;
  shares_file = none;
  database = record { sbtc_ops = []; last_processed = none };
}

-- The frost coordinator after the key generation, and what the set-up leaves behind.
abbrev frost : Coordinator toy
frost =
    (load_dkg_data env none (wallet_of env start config) (codes "SP") (
      loading_of env start (create_coordinator env generating.network signer)
        (record world { link = record link { client = new_client env start config } }))).1.frost

abbrev left : World env start
left = (try_from env start generating.network config world).1

abbrev coordinator : StacksCoordinator env start
coordinator = assembled env start config (6, frost) left
