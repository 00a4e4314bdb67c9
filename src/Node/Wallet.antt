-- ===== src/Node/Wallet.antt =====
-- stacks-coordinator/src/stacks_wallet.rs and the address versions of util.rs. What it calls of
-- blockstack_lib is the parameter `StacksLib`.
use core_eng.Prelude.{ℕ, List, [], ◌∷◌, Option, Text, codes, ◌⊎◌}
use core_eng.Prelude.Outcome.{Outcome, ok, ok_or, ◌>>=◌}
use core_eng.Frost.Wsts.{Wsts, Bytes}
use core_eng.Node.Api.{NodeApi}
use core_eng.Node.Read.{map_err}

pub data TransactionVersion : Type 0 where
  mainnet testnet : TransactionVersion

-- Clarity values are built by these functions; a condition is that of one signature (p2pkh).
pub record StacksLib {w : Wsts} (api : NodeApi w) : Type 1 where
  pub Principal : Type 0
  pub uint : ℕ → api.Value
  pub principal : Principal → api.Value
  pub ascii : Text → api.Value
  pub buffer : Bytes → api.Value
  pub tuple : List (Text × api.Value) → Text ⊎ api.Value
  pub StacksPrivateKey : Type 0
  pub StacksPublicKey : Type 0
  pub from_private : StacksPrivateKey → StacksPublicKey
  pub to_bytes_compressed : StacksPublicKey → Bytes
  pub StacksAddress : Type 0
  pub to_account_principal : StacksAddress → Principal
  pub ContractName : Type 0
  pub clarity_name : Text → Text ⊎ Text
  pub Condition : Type 0
  pub singlesig_p2pkh : StacksPublicKey → Option Condition
  pub version_mainnet_singlesig : ℕ
  pub version_testnet_singlesig : ℕ
  pub chain_id_mainnet : ℕ
  pub chain_id_testnet : ℕ
  pub serialize_x_only : api.XOnlyPublicKey → Bytes

pub data WalletError : Type 0 where
  config_error signing_error malformed_op clarity_runtime_error blockstack_error :
      Text → WalletError

module _ {w : Wsts} {api : NodeApi w} (lib : StacksLib api) where
  open api use {Value, StacksTransaction, XOnlyPublicKey}
  open lib use {
    Principal, uint, principal, ascii, buffer, tuple, StacksPrivateKey, StacksPublicKey,
    from_private, to_bytes_compressed, StacksAddress, to_account_principal, ContractName,
    clarity_name, Condition, singlesig_p2pkh, version_mainnet_singlesig, version_testnet_singlesig,
    chain_id_mainnet, chain_id_testnet, serialize_x_only,
  }

  pub record ContractCall : Type 0 where
    pub address : StacksAddress
    pub contract_name : ContractName
    pub function_name : Text
    pub function_args : List Value

  -- `StacksTransaction` before it is signed, with any anchor mode, and every post condition allowed.
  pub record Unsigned : Type 0 where
    pub version : TransactionVersion
    pub chain_id : ℕ
    pub condition : Condition
    pub nonce : ℕ
    pub fee : ℕ
    pub payload : ContractCall

  -- `StacksTransactionSigner`: `sign_origin`, then `get_tx`.
  pub record Signing : Type 1 where
    pub Signer : Type 0
    pub sign_origin : StacksPrivateKey → Unsigned → Text ⊎ Signer
    pub get_tx : Signer → Option StacksTransaction

  pub record StacksWallet : Type 0 where
    pub contract_address : StacksAddress
    pub contract_name : ContractName
    pub sender_key : StacksPrivateKey
    pub public_key : StacksPublicKey
    pub address : StacksAddress
    pub version : TransactionVersion
    pub fee : ℕ

  unfoldable pub new_wallet :
      ContractName
      → StacksAddress
      → StacksPrivateKey
      → StacksAddress
      → TransactionVersion
      → ℕ
      → StacksWallet
  new_wallet contract_name contract_address sender_key address version fee = record {
    contract_address = contract_address;
    contract_name = contract_name;
    sender_key = sender_key;
    public_key = from_private sender_key;
    address = address;
    version = version;
    fee = fee;
  }

  unfoldable pub set_fee : ℕ → StacksWallet → StacksWallet
  set_fee fee wallet = record wallet { fee = fee }

  -- util.rs
  unfoldable pub address_version : TransactionVersion → ℕ
  address_version mainnet = version_mainnet_singlesig
  address_version testnet = version_testnet_singlesig

  unfoldable pub chain_id_of : TransactionVersion → ℕ
  chain_id_of testnet = chain_id_testnet
  chain_id_of mainnet = chain_id_mainnet

  abbrev pub Builds {ℓ} : Type ℓ → Type ℓ
  Builds A = Outcome WalletError A

  unfoldable pub build_transaction_payload : StacksWallet → Text → List Value → Builds ContractCall
  build_transaction_payload wallet function_name function_args = do
    name ← map_err (clarity_name function_name) clarity_runtime_error
    ok (record {
      address = wallet.contract_address;
      contract_name = wallet.contract_name;
      function_name = name;
      function_args = function_args;
    })

  unfoldable pub build_transaction_unsigned : StacksWallet → Text → List Value → ℕ → Builds Unsigned
  build_transaction_unsigned wallet function_name function_args nonce = do
    payload ← build_transaction_payload wallet function_name function_args
    condition ← ok_or (singlesig_p2pkh wallet.public_key) (
        signing_error
          (codes "Failed to create transaction spending condition from provided sender_key."))
    ok (record {
      version = wallet.version;
      chain_id = chain_id_of wallet.version;
      condition = condition;
      nonce = nonce;
      fee = wallet.fee;
      payload = payload;
    })

  module _ (signing : Signing) where
    unfoldable pub build_transaction_signed :
        StacksWallet → Text → List Value → ℕ → Builds StacksTransaction
    build_transaction_signed wallet function_name function_args nonce = do
      unsigned ← build_transaction_unsigned wallet function_name function_args nonce
      signer ← map_err (signing.sign_origin wallet.sender_key unsigned) signing_error
      ok_or (signing.get_tx signer)
          (signing_error (codes "Unable to retrieve signed transaction from the signer."))

    -- `BuildStacksTransaction for PegInOp`: the operation's amount, recipient and transaction id.
    unfoldable pub build_mint : ℕ → Principal → Text → StacksWallet → ℕ → Builds StacksTransaction
    build_mint amount recipient txid wallet nonce =
        build_transaction_signed wallet (codes "mint!")
          (uint amount ∷ principal recipient ∷ ascii txid ∷ []) nonce

    -- `BuildStacksTransaction for PegOutRequestOp`: `stx_address` recovers who asked, for a version.
    unfoldable pub build_burn :
        ℕ → (ℕ → Option StacksAddress) → Text → StacksWallet → ℕ → Builds StacksTransaction
    build_burn amount stx_address txid wallet nonce = do
      address ←
          ok_or (stx_address (address_version wallet.version))
            (malformed_op (codes "Failed to recover stx address from peg-out request op."))
      build_transaction_signed wallet (codes "burn!")
          (uint amount ∷ principal (to_account_principal address) ∷ ascii txid ∷ []) nonce

    unfoldable pub build_set_bitcoin_wallet_public_key_transaction :
        XOnlyPublicKey → StacksWallet → ℕ → Builds StacksTransaction
    build_set_bitcoin_wallet_public_key_transaction key wallet nonce =
        build_transaction_signed wallet (codes "set-bitcoin-wallet-public-key")
          (buffer (serialize_x_only key) ∷ []) nonce

    unfoldable pub build_set_coordinator_data_transaction :
        StacksAddress → StacksPublicKey → StacksWallet → ℕ → Builds StacksTransaction
    build_set_coordinator_data_transaction address key wallet nonce = do
      value ←
          map_err
            (tuple (
              (codes "addr", principal (to_account_principal address))
              ∷ (codes "key", buffer (to_bytes_compressed key))
              ∷ []))
            blockstack_error
      build_transaction_signed wallet (codes "set-coordinator-data") (value ∷ []) nonce
