-- ===== src/Peg/Wallet/Defs.antt =====
-- The wallet of stacks-coordinator/src/bitcoin_wallet.rs.
use core_eng.Prelude.{
  ℕ, ◌+◌, ◌-◌, ◌%◌, ◌^◌, List, [], ◌∷◌, ◌++◌, Option, Bool, true, false, Text, text_eq, codes, ltb,
  leb, ◌==◌, ◌&&◌, if◌then◌else◌,
}
use core_eng.Prelude.Outcome.{Outcome, ok, err, ok_or, ◌>>=◌}

-- What the file calls of the crates bitcoin and hex.
pub record Bitcoin : Type 1 where
  pub Txid : Type 0
  pub Script : Type 0
  pub XOnlyPublicKey : Type 0
  pub Address : Type 0
  pub txid_from_hex : Text → Option Txid
  pub script_from_hex : Text → Option Script
  -- the taproot script of a key that is taken as tweaked
  pub new_v1_p2tr_tweaked : XOnlyPublicKey → Script
  pub p2tr_tweaked : XOnlyPublicKey → Address
  pub dust_value : Script → ℕ
  -- OP_RETURN and a push of data
  pub op_return : List ℕ → Script

-- The fields of `UTXO` in stacks-coordinator/src/bitcoin_node.rs that are read.
pub record Utxo : Type 0 where
  pub txid : Text
  pub vout : ℕ
  pub script_pub_key : Text
  pub amount : ℕ

pub data Error : Type 0 where
  insufficient_funds missing_fulfillment_utxo mismatched_fulfillment_fee : Error
  invalid_transaction_id invalid_script_pub_key : Text → Error

module _ (b : Bitcoin) where
  -- blockstack_lib's operation, with its id as text.
  pub record PegOutRequestOp : Type 0 where
    pub txid : Text
    pub amount : ℕ
    pub fulfillment_fee : ℕ
    pub recipient : b.Address

  pub record TxIn : Type 0 where
    pub txid : b.Txid
    pub vout : ℕ

  pub record TxOut : Type 0 where
    pub value : ℕ
    pub script_pubkey : b.Script

  pub record Transaction : Type 0 where
    pub input : List TxIn
    pub output : List TxOut

  pub record BitcoinWallet : Type 0 where
    pub address : b.Address
    pub public_key : b.XOnlyPublicKey

  unfoldable pub new : b.XOnlyPublicKey → BitcoinWallet
  new key = record { address = b.p2tr_tweaked key; public_key = key }

  unfoldable pub withdrawal_data_output : TxOut
  withdrawal_data_output = record {
    value = 0;
    script_pubkey = b.op_return (codes "T2!" ++ codes "................................");
  }

  unfoldable pub utxo_to_input : Utxo → Outcome Error TxIn
  utxo_to_input utxo = do
    txid ← ok_or (b.txid_from_hex utxo.txid) (invalid_transaction_id utxo.txid)
    ok (record { txid = txid; vout = utxo.vout })

  unfoldable pub utxo_to_output : Utxo → Outcome Error TxOut
  utxo_to_output utxo = do
    script ←
        ok_or (b.script_from_hex utxo.script_pub_key) (invalid_script_pub_key utxo.script_pub_key)
    ok (record { value = utxo.amount; script_pubkey = script })

  -- The variables of the loop over the outputs that can be spent.
  pub record Consumed : Type 0 where
    pub total_consumed : ℕ
    pub input : List TxIn
    pub prevouts : List TxOut
    pub found_fulfillment_utxo : Bool

  abbrev pub nothing_consumed : Consumed
  nothing_consumed = record {
    total_consumed = 0;
    input = [];
    prevouts = [];
    found_fulfillment_utxo = false;
  }

  -- The branches of the loop's body.
  pub data Step : Type 0 where
    mismatch fulfillment consume stop skip : Step

  abbrev pub is_fulfillment : PegOutRequestOp → Utxo → Bool
  is_fulfillment op utxo = text_eq utxo.txid op.txid && utxo.vout == 2

  unfoldable pub step_for : PegOutRequestOp → Utxo → Consumed → Step
  step_for op utxo s =
      if is_fulfillment op utxo
      then (if utxo.amount == op.fulfillment_fee then fulfillment else mismatch)
      else if ltb s.total_consumed op.amount
      then consume
      else if s.found_fulfillment_utxo
      then stop
      else skip

  -- `tx.input.push(…)?; prevouts.push(…)?`
  unfoldable pub push : Utxo → Consumed → Outcome Error Consumed
  unfolding utxo_to_input utxo_to_output
  push utxo s = do
    input ← utxo_to_input utxo
    output ← utxo_to_output utxo
    ok (record s { input = s.input ++ input ∷ []; prevouts = s.prevouts ++ output ∷ [] })

  abbrev pub with_fulfillment : Consumed → Consumed
  with_fulfillment s = record s { found_fulfillment_utxo = true }

  -- The sum of two u64 wraps around in a release build.
  abbrev pub add_amount : ℕ → Consumed → Consumed
  add_amount amount s = record s { total_consumed = (s.total_consumed + amount) % 2 ^ 64 }

  -- A branch, before the rest of the loop; `break` leaves that out.
  unfoldable pub take_step :
      Step → Utxo → Consumed → (Consumed → Outcome Error Consumed) → Outcome Error Consumed
  unfolding push
  take_step mismatch utxo s rest = err mismatched_fulfillment_fee
  take_step fulfillment utxo s rest = push utxo s >>= λ t. rest (with_fulfillment t)
  take_step consume utxo s rest = push utxo (add_amount utxo.amount s) >>= rest
  take_step stop utxo s rest = ok s
  take_step skip utxo s rest = rest s

  unfoldable pub consume_utxos : PegOutRequestOp → List Utxo → Consumed → Outcome Error Consumed
  unfolding step_for take_step
  consume_utxos op [] s = ok s
  consume_utxos op (utxo ∷ utxos) s = take_step (step_for op utxo s) utxo s (consume_utxos op utxos)

  -- The withdrawal, and the change if it is not dust.
  unfoldable pub outputs : b.Script → ℕ → ℕ → List TxOut
  unfolding withdrawal_data_output
  outputs script amount change =
      let withdrawal : TxOut = record { value = amount; script_pubkey = script } in
      if leb (b.dust_value script) change
      then withdrawal_data_output
        ∷ withdrawal
        ∷ record { value = change; script_pubkey = script }
        ∷ []
      else withdrawal_data_output ∷ withdrawal ∷ []

  -- The checks after the loop, and the transaction.
  unfoldable pub build :
      BitcoinWallet → PegOutRequestOp → Consumed → Outcome Error (Transaction × List TxOut)
  unfolding outputs
  build wallet op s =
      if s.found_fulfillment_utxo
      then (if ltb s.total_consumed op.amount
          then err insufficient_funds
          else ok (
            record {
              input = s.input;
              output =
                  outputs (b.new_v1_p2tr_tweaked wallet.public_key) op.amount
                    (s.total_consumed - op.amount);
            },
            s.prevouts,
          ))
      else err missing_fulfillment_utxo

  unfoldable pub fulfill_peg_out :
      BitcoinWallet → PegOutRequestOp → List Utxo → Outcome Error (Transaction × List TxOut)
  unfolding consume_utxos build
  fulfill_peg_out wallet op available_utxos = do
    s ← consume_utxos op available_utxos nothing_consumed
    build wallet op s
