-- ===== src/Peg/Process/PegOut.antt =====
-- `peg_in` and `peg_out` of stacks-coordinator/src/coordinator.rs.
use core_eng.Prelude.{ℕ, zero, suc, List, [], ◌∷◌, ◌++◌, Option, none, some, Text, length}
use core_eng.Prelude.Outcome.{Outcome, ok, err, panic, ok_or}
use core_eng.Prelude.Exec.{Exec, pure, lift, ◌>>=◌, ◌>>◌}
use core_eng.Frost.Wsts.{Wsts, Bytes}
use core_eng.Frost.Coordinator.Defs.{Aggregation, Coordinator, Error as FrostError}
use core_eng.Frost.Coordinator.Sign.{sign_message}
use core_eng.Peg.Wallet.Defs.{
  Bitcoin, Utxo, Error as WalletError, PegOutRequestOp, TxOut, Transaction, BitcoinWallet,
  fulfill_peg_out,
}
use core_eng.Peg.Process.Broadcast.{Stacks, Error as StacksError, try_broadcast_transaction}

pub data Error : Type 0 where
  stacks_error : StacksError → Error
  frost_coordinator_error : FrostError → Error
  peg_wallet_error : WalletError → Error
  bitcoin_node_error : Text → Error
  signing_error : Error

-- `sighash` is the taproot hash of an input, from the crate bitcoin.
module _ (w : Wsts) (a : Aggregation w) (b : Bitcoin) (Tx : Type 0)
    (sighash : Transaction b → List (TxOut b) → ℕ → Option Bytes) where
  -- A transaction with the proofs that are pushed onto the witnesses of its inputs, in order.
  pub record SignedTransaction : Type 0 where
    pub tx : Transaction b
    pub witness : List a.SchnorrProof

  -- `list_unspent` is the Bitcoin node's answer; `refusals` how it will answer broadcasts (`none`
  -- and the end of the list: it accepts), and `broadcast` what it accepted.
  pub record World : Type 0 where
    pub stacks : Stacks Tx
    pub frost : Coordinator w
    pub wallet : BitcoinWallet b
    pub list_unspent : Outcome Text (List Utxo)
    pub refusals : List (Option Text)
    pub broadcast : List SignedTransaction

  abbrev pub Run : Type 0 → Type 0
  Run A = Exec World Error A

  abbrev pub frost_outcome : {A : Type 0} → Outcome FrostError A → Outcome Error A
  frost_outcome (ok x) = ok x
  frost_outcome (err e) = err (frost_coordinator_error e)
  frost_outcome panic = panic

  abbrev pub stacks_outcome : {A : Type 0} → Outcome StacksError A → Outcome Error A
  stacks_outcome (ok x) = ok x
  stacks_outcome (err e) = err (stacks_error e)
  stacks_outcome panic = panic

  abbrev pub wallet_outcome : {A : Type 0} → Outcome WalletError A → Outcome Error A
  wallet_outcome (ok x) = ok x
  wallet_outcome (err e) = err (peg_wallet_error e)
  wallet_outcome panic = panic

  abbrev pub node_outcome : {A : Type 0} → Outcome Text A → Outcome Error A
  node_outcome (ok x) = ok x
  node_outcome (err e) = err (bitcoin_node_error e)
  node_outcome panic = panic

  unfoldable pub sign_hash : Bytes → Run (a.Signature × a.SchnorrProof)
  sign_hash hash s = (
    frost_outcome (sign_message w a hash s.frost).0,
    record s { frost = (sign_message w a hash s.frost).1 },
  )

  -- The body of the loop over the inputs.
  unfoldable pub sign_input : Transaction b → List (TxOut b) → ℕ → Run a.SchnorrProof
  unfolding sign_hash
  sign_input tx prevouts index = do
    hash ← lift (ok_or (sighash tx prevouts index) signing_error)
    proof ← sign_hash hash
    pure proof.1

  -- `for index in 0..tx.input.len()`, as `count` inputs from `index` on.
  unfoldable pub sign_inputs : Transaction b → List (TxOut b) → ℕ → ℕ → Run (List a.SchnorrProof)
  unfolding sign_input
  sign_inputs tx prevouts index zero = pure []
  sign_inputs tx prevouts index (suc count) = do
    proof ← sign_input tx prevouts index
    proofs ← sign_inputs tx prevouts (suc index) count
    pure (proof ∷ proofs)

  unfoldable pub spendable : Run (List Utxo)
  spendable s = (node_outcome s.list_unspent, s)

  unfoldable pub unsigned : PegOutRequestOp b → List Utxo → Run (Transaction b × List (TxOut b))
  unsigned op utxos s = (wallet_outcome (fulfill_peg_out b s.wallet op utxos), s)

  unfoldable pub fulfill : PegOutRequestOp b → Run SignedTransaction
  unfolding spendable unsigned sign_inputs
  fulfill op = do
    utxos ← spendable
    made ← unsigned op utxos
    proofs ← sign_inputs made.0 made.1 0 (length made.0.input)
    pure (record { tx = made.0; witness = proofs })

  -- With the transaction that the wallet builds for the operation from a nonce and a fee.
  unfoldable pub peg_in : (ℕ → ℕ → Outcome Text Tx) → Run (Unit {0})
  peg_in build s = (
    stacks_outcome (try_broadcast_transaction Tx build s.stacks).0,
    record s { stacks = (try_broadcast_transaction Tx build s.stacks).1 },
  )

  abbrev accepted : List (Option Text) → SignedTransaction → Run (Unit {0})
  accepted [] tx s = (ok tt, record s { broadcast = s.broadcast ++ tx ∷ [] })
  accepted (none ∷ later) tx s =
      (ok tt, record s { refusals = later; broadcast = s.broadcast ++ tx ∷ [] })
  accepted (some e ∷ later) tx s = (err (bitcoin_node_error e), record s { refusals = later })

  unfoldable pub broadcast_bitcoin : SignedTransaction → Run (Unit {0})
  broadcast_bitcoin tx s = accepted s.refusals tx s

  unfoldable pub peg_out : (ℕ → ℕ → Outcome Text Tx) → PegOutRequestOp b → Run (Unit {0})
  unfolding fulfill peg_in broadcast_bitcoin
  peg_out build op = do fulfill_tx ← fulfill op; peg_in build; broadcast_bitcoin fulfill_tx
