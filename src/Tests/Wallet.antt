-- ===== src/Tests/Wallet.antt =====
-- The wallet and the broadcasts of stacks-coordinator at concrete inputs.
use core_eng.Prelude.{
  ℕ, ◌+◌, ◌*◌, ◌≤◌, ◌<◌, List, [], ◌∷◌, ◌≡◌, ◌⊎◌, refl, arith, some, none, Text, codes, text_eq,
  length, All,
}
use core_eng.Prelude.Outcome.{Outcome, ok}
use core_eng.Prelude.Exec.{◌>>=◌}
use core_eng.Peg.Wallet.Defs.{
  Bitcoin, Utxo, PegOutRequestOp, BitcoinWallet, TxIn, TxOut, fulfill_peg_out,
  withdrawal_data_output,
}
use core_eng.Peg.Wallet.Balance.{
  values, wallet_script, fulfill_peg_out-balances, fulfill_peg_out-scripts,
}
use core_eng.Peg.Process.Broadcast.{
  Stacks, conflicting_nonce_in_mempool, fee_too_low, next_nonce, attempts,
  try_broadcast_transaction,
}
use core_eng.Peg.Process.Retries.{try_broadcast_transaction-bounded}

-- Scripts and ids are texts, and a key pays to the script of its own number.
abbrev pub texts : Bitcoin
texts = record {
  Txid = Text;
  Script = Text;
  XOnlyPublicKey = ℕ;
  Address = ℕ;
  txid_from_hex = λ t. some t;
  script_from_hex = λ t. some t;
  new_v1_p2tr_tweaked = λ k. k ∷ [];
  p2tr_tweaked = λ k. k;
  dust_value = λ s. 330;
  op_return = λ d. 0 ∷ d;
}

abbrev pub request : PegOutRequestOp texts
request = record { txid = codes "a"; amount = 1000; fulfillment_fee = 20; recipient = 4 }

abbrev pub spendable : List Utxo
spendable =
    record { txid = codes "b"; vout = 0; script_pub_key = 7 ∷ []; amount = 1500 }
    ∷ record { txid = codes "a"; vout = 2; script_pub_key = 7 ∷ []; amount = 20 }
    ∷ []

abbrev pub wallet : BitcoinWallet texts
wallet = record { address = 7; public_key = 7 }

abbrev pub spends : List (TxIn texts)
spends = record { txid = codes "b"; vout = 0 } ∷ record { txid = codes "a"; vout = 2 } ∷ []

abbrev pub spent : List (TxOut texts)
spent =
    record { value = 1500; script_pubkey = 7 ∷ [] }
    ∷ record { value = 20; script_pubkey = 7 ∷ [] }
    ∷ []

abbrev pub paid : List (TxOut texts)
paid =
    record { value = 0; script_pubkey = 0 ∷ codes "T2!................................" }
    ∷ record { value = 1000; script_pubkey = 7 ∷ [] }
    ∷ record { value = 500; script_pubkey = 7 ∷ [] }
    ∷ []

fulfilled :
    fulfill_peg_out texts wallet request spendable
    ≡ ok (record { input = spends; output = paid }, spent)
unfolding fulfill_peg_out text_eq withdrawal_data_output
fulfilled = refl

fulfill_peg_out-balances_example :
    (fees : ℕ) × (left : ℕ) × (1 ≤ fees)
    × (values texts spent ≡ values texts paid + fees * 20 + left)
    × ((left ≡ 0) ⊎ (left < 330))
    × (length spends ≡ length spent)
fulfill_peg_out-balances_example =
    fulfill_peg_out-balances texts wallet request spendable
      (record { input = spends; output = paid }) spent (omega arith) fulfilled

fulfill_peg_out-scripts_example :
    All
      (λ o. (o ≡ withdrawal_data_output texts) ⊎ (o.script_pubkey ≡ wallet_script texts wallet))
      paid
fulfill_peg_out-scripts_example =
    fulfill_peg_out-scripts texts wallet request spendable
      (record { input = spends; output = paid }) spent fulfilled

-- A transaction is its nonce and its fee.
abbrev pub build : ℕ → ℕ → Outcome Text (ℕ × ℕ)
build nonce fee = ok (nonce, fee)

abbrev pub reluctant : Stacks (ℕ × ℕ)
reluctant = record {
  fee = 5;
  next_nonce = some 3;
  account = ok 0;
  answers = some conflicting_nonce_in_mempool ∷ some (fee_too_low 9 5) ∷ none ∷ [];
  sent = [];
}

try_broadcast_transaction-bounded_example :
    (length (try_broadcast_transaction (ℕ × ℕ) build reluctant).1.sent ≤ 0 + 13)
    × ((fuel : ℕ)
        → 13 ≤ fuel
        → (next_nonce (ℕ × ℕ) >>= λ nonce. attempts (ℕ × ℕ) fuel build nonce 0 0) reluctant
          ≡ try_broadcast_transaction (ℕ × ℕ) build reluctant)
try_broadcast_transaction-bounded_example =
    try_broadcast_transaction-bounded (ℕ × ℕ) build reluctant

try_broadcast_test :
    (try_broadcast_transaction (ℕ × ℕ) build reluctant).1.sent ≡ (4, 5) ∷ (5, 5) ∷ (5, 9) ∷ []
unfolding try_broadcast_transaction
try_broadcast_test = refl
