-- ===== src/Tests/Node.antt =====
-- The Stacks node's client and the set-up of a coordinator at concrete inputs: a node whose values
-- are numbers, and a wallet whose transactions are numbers.
use core_eng.Prelude.{
  ℕ, ◌+◌, ◌≡◌, ◌↔◌, refl, List, [], ◌∷◌, Option, none, some, true, Text, codes, inl, inr, ◌⊎◌, ◌==◌,
  if◌then◌else◌, insert, Map, length,
}
use core_eng.Prelude.Outcome.{ok}
use core_eng.Prelude.Exec.{fold_outcome}
use core_eng.Frost.Hash.{sign}
use core_eng.Frost.Config.{Config as SignerConfig}
use core_eng.Frost.Coordinator.Dkg.{run_distributed_key_generation}
use core_eng.Node.Api.{NodeApi, Net, Response}
use core_eng.Node.Read.{
  NodeClient, num_signers, read_uint, read_value, broadcast_transaction, build_url, send_requests,
  get_response, account_nonce, bitcoin_wallet_public_key,
}
use core_eng.Node.Client.{no_keys, next_nonce, public_keys, signer_key_ids}
use core_eng.Node.Signers.{public_keys-no_keys}
use core_eng.Node.Wallet.{
  StacksLib, Signing, StacksWallet, testnet, build_set_bitcoin_wallet_public_key_transaction,
  build_transaction_signed, build_transaction_unsigned, build_transaction_payload,
}
use core_eng.Node.Config.{ConfigLib}
use core_eng.Node.Setup.{SetupLib, SetupEnv, Link, Loading, load_dkg_data, generate_key}
use core_eng.Node.Keys.{IsFromContract, IsGenerated, load_dkg_data-returns}
use core_eng.Tests.Toy.{toy, single}
use core_eng.Tests.Frost.{texts}
use core_eng.Tests.Coordinator.{sums, generating}

-- JSON is a number too; every field of a number is the number. A value of 0 is an empty optional.
abbrev pub api : NodeApi toy
api = record {
  Json = ℕ;
  null = 0;
  get_field = λ key json. some json;
  as_str = λ json. some (json ∷ []);
  as_u64 = λ json. some json;
  as_bool = λ json. some true;
  show_json = λ json. json ∷ [];
  Value = ℕ;
  from_hex = λ text. elim (single text) [ none ↦ inl [] | some n ↦ inr n ];
  as_uint = λ v. some v;
  as_optional = λ v. if v == 0 then some none else some (some v);
  as_tuple = λ v. some ((codes "key", 7) ∷ []);
  as_buffer = λ v. some (v ∷ []);
  as_list = λ v. none;
  show_uint = λ n. n ∷ [];
  public_key_from = single;
  XOnlyPublicKey = ℕ;
  x_only_from = single;
  StacksTransaction = ℕ;
  serialize = λ tx. inr (tx ∷ []);
}

abbrev nonce_7 : Response api
nonce_7 = record { status = 200; body = inr 7 }

-- Read-only calls give 0, but for get-coordinator-data (by the length of its URL), and the node takes every transaction; the second request is answered.
abbrev net : Net api
net = record {
  join_url = λ route. inr route;
  attempts = λ url. (0, none) ∷ (1, some nonce_7) ∷ [];
  call_read_url = λ url sender args. inr (if length url == 52 then 5 else 0);
  post = λ url bytes. inr (record { status = 200; body = inr 0 });
}

abbrev client : NodeClient
client = record { contract_name = codes "sbtc"; contract_address = codes "SP"; next_nonce = none }

abbrev no_ids : Map (List ℕ)
no_ids = []

public_keys-no_keys_example :
    ((public_keys api net client [] ≡ ok (no_keys api net))
      ↔ ((num_signers api net client [] ≡ ok 0) × (no_keys api net ≡ no_keys api net)))
    × ((signer_key_ids api net client [] ≡ ok no_ids)
        ↔ ((num_signers api net client [] ≡ ok 0) × (no_ids ≡ [])))
public_keys-no_keys_example = public_keys-no_keys api net client [] (no_keys api net) no_ids

no_signers_asked : num_signers api net client [] ≡ ok 0
unfolding num_signers read_uint build_url
no_signers_asked = refl

no_keys_read : public_keys api net client [] ≡ ok (no_keys api net)
unfolding public_keys
no_keys_read = public_keys-no_keys_example.0.1 (no_signers_asked, refl)

abbrev pub lib : StacksLib api
lib = record {
  Principal = ℕ;
  uint = λ n. n;
  principal = λ p. p;
  ascii = λ text. 1;
  buffer = λ bytes. 2;
  tuple = λ entries. inr 3;
  StacksPrivateKey = ℕ;
  StacksPublicKey = ℕ;
  from_private = λ k. k;
  to_bytes_compressed = λ k. k ∷ [];
  StacksAddress = ℕ;
  to_account_principal = λ a. a;
  ContractName = Text;
  clarity_name = λ name. inr name;
  Condition = ℕ;
  singlesig_p2pkh = λ k. some k;
  version_mainnet_singlesig = 22;
  version_testnet_singlesig = 26;
  chain_id_mainnet = 1;
  chain_id_testnet = 2147483648;
  serialize_x_only = λ k. k ∷ [];
}

abbrev pub conf : ConfigLib lib
conf = record {
  Url = Text;
  parse_url = λ text. inr text;
  address_from_string = single;
  contract_name_from = λ text. inr text;
  private_key_from_hex = λ text. inr 4;
  address_of = λ version key. some (version + key);
}

-- A transaction is its nonce.
abbrev signing : Signing lib
signing = record { Signer = ℕ; sign_origin = λ key tx. inr tx.nonce; get_tx = λ s. some s }

-- One signer with one key, and the coordinator's key 7, which the contract has too.
abbrev pub signer : SignerConfig toy texts
signer = record {
  http_relay_url = [];
  keys_threshold = 1;
  network_private_key = 7;
  public_keys = no_keys api net;
  signer_key_ids = [];
  coordinator_public_key = 7;
  total_signers = 1;
  total_keys = 1;
}

abbrev setup : SetupLib texts lib
setup = record {
  x_bytes = λ p. p ∷ [];
  lift_x = λ k. some k;
  scalar_from = single;
  secp_key_from = single;
  signer_config = λ path. inr signer;
  show_address = λ a. codes "SP";
}

abbrev pub env : SetupEnv
env = record {
  w = toy;
  a = sums;
  t = texts;
  api = api;
  net = net;
  lib = lib;
  conf = conf;
  signing = signing;
  setup = setup;
}

abbrev wallet : StacksWallet lib
wallet = record {
  contract_address = 5;
  contract_name = codes "sbtc";
  sender_key = 4;
  public_key = 4;
  address = 30;
  version = testnet;
  fee = 2000;
}

abbrev pub link : Link env
link = record { client = client; posted = [] }

abbrev loading : Loading env
loading = record { link = link; frost = generating; shares_file = none }

abbrev loaded : Loading env
loaded = (load_dkg_data env (some []) wallet (codes "SP") loading).1

-- The contract holds no key, so that the signers generate one, which the contract is told.
generated : load_dkg_data env (some []) wallet (codes "SP") loading ≡ (ok 6, loaded)
unfolding load_dkg_data insert sign fold_outcome bitcoin_wallet_public_key read_value build_url
    generate_key run_distributed_key_generation next_nonce get_response send_requests account_nonce
    build_set_bitcoin_wallet_public_key_transaction build_transaction_signed
    build_transaction_unsigned build_transaction_payload broadcast_transaction
generated = refl

load_dkg_data-returns_example :
    (found : Option ℕ) × (bitcoin_wallet_public_key api net client (codes "SP") ≡ ok found)
    × (IsFromContract env found 6 loading loaded
        ⊎ ((found ≡ none) × IsGenerated env wallet 6 loading loaded))
load_dkg_data-returns_example =
    load_dkg_data-returns env (some []) wallet (codes "SP") 6 loading loaded generated
