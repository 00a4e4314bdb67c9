-- ===== src/Tests/Process.antt =====
-- stacks-coordinator/src/coordinator.rs at concrete inputs.
use core_eng.Prelude.{
  ℕ, [], ◌∷◌, ◌++◌, ◌≡◌, refl, arith, List, some, insert, get, text_eq, length, Option, ◌≤◌, codes,
}
use core_eng.Prelude.Outcome.{ok, err}
use core_eng.Prelude.Exec.{fold_outcome}
use core_eng.Frost.Wsts.{Bytes}
use core_eng.Frost.Hash.{sign}
use core_eng.Frost.Coordinator.Sign.{sign_message}
use core_eng.Peg.Process.Broadcast.{try_broadcast_transaction}
use core_eng.Peg.Wallet.Defs.{fulfill_peg_out, TxOut, Transaction}
use core_eng.Peg.Process.PegOut.{World, SignedTransaction, peg_out}
use core_eng.Peg.Process.Witness.{IsFulfilled, peg_out-IsFulfilled}
use core_eng.Peg.Process.Loop.{Service, Handlers, Handled, process_queue, process_queue-Handled}
use core_eng.Peg.Process.Run.{round, round-IsDone}
use core_eng.Peg.Queue.Ops.{StacksNode, poll, sbtc_op}
use core_eng.Peg.Queue.Blocks.{Progress}
use core_eng.Peg.Queue.Dispense.{IsValid}
use core_eng.Peg.Queue.Defs.{SbtcOp, Tables, entry_of}
use core_eng.Peg.Queue.Table.{count}
use core_eng.Peg.Queue.Dispense.{drain}
use core_eng.Tests.Toy.{toy}
use core_eng.Tests.Coordinator.{sums, unsigned, nonces_of_1, shares_of_1, coordinator_with}
use core_eng.Tests.Wallet.{texts, request, spendable, wallet, build, reluctant}
use core_eng.Tests.Peg.{numbers, numbers_laws, two_new, two_new-IsValid}

-- The hash of an input is its number.
abbrev input_hash : Transaction texts → List (TxOut texts) → ℕ → Option Bytes
input_hash tx prevouts index = some (index ∷ [])

abbrev before : World toy sums texts (ℕ × ℕ) input_hash
before = record {
  stacks = reluctant;
  frost = coordinator_with 6 (
      unsigned nonces_of_1
      ∷ unsigned shares_of_1
      ∷ unsigned nonces_of_1
      ∷ unsigned shares_of_1
      ∷ []);
  wallet = wallet;
  list_unspent = ok spendable;
  refusals = [];
  broadcast = [];
}

abbrev after : World toy sums texts (ℕ × ℕ) input_hash
after = (peg_out toy sums texts (ℕ × ℕ) input_hash build request before).1

peg_out-IsFulfilled_example :
    (signed : SignedTransaction toy sums texts (ℕ × ℕ) input_hash) × (after.broadcast
      ≡ [] ++ signed ∷ [])
    × IsFulfilled toy sums texts (ℕ × ℕ) input_hash request wallet 6 signed
unfolding peg_out sign fold_outcome insert get text_eq fulfill_peg_out sign_message
    try_broadcast_transaction
peg_out-IsFulfilled_example =
    peg_out-IsFulfilled toy sums texts (ℕ × ℕ) input_hash build request before after refl

-- Handlers that note what they are given.
abbrev notes : Handlers numbers (List ℕ) ℕ
notes = record { peg_in = λ op s. (ok tt, s ++ op ∷ []); peg_out = λ op s. (err op, s) }

abbrev service : Service (List ℕ)
service = record { tables = two_new; world = [] }

process_queue-Handled_example :
    (ops : List (SbtcOp ℕ ℕ)) × (t : Tables) × (drain numbers numbers_laws 2 two_new ≡ (ok ops, t))
    × (length ops ≡ 2)
    × Handled numbers numbers_laws (List ℕ) ℕ notes ops 3 service
unfolding count text_eq
process_queue-Handled_example =
    process_queue-Handled numbers numbers_laws (List ℕ) ℕ notes 2 3 service two_new-IsValid refl
      (omega arith)

-- A node at height 5, whose block 5 has one peg-in, and handlers that take all.
abbrev at_five : StacksNode numbers
at_five = record {
  burn_block_height = ok 5;
  get_peg_in_ops = λ height. ok (height ∷ []);
  get_peg_out_request_ops = λ height. ok [];
}

abbrev takes : Handlers numbers (List ℕ) ℕ
takes = record { peg_in = λ op s. (ok tt, s ++ op ∷ []); peg_out = λ op s. (ok tt, s ++ op ∷ []) }

abbrev at_four : Service (List ℕ)
at_four = record { tables = record { sbtc_ops = []; last_processed = some 4 }; world = [] }

abbrev turned : Service (List ℕ)
turned = (round numbers (List ℕ) ℕ takes at_five at_four).1

turns : round numbers (List ℕ) ℕ takes at_five at_four ≡ (ok tt, turned)
unfolding round poll entry_of process_queue sbtc_op text_eq count
turns = refl

round-IsDone_example :
    IsValid numbers numbers_laws turned.tables
    × (count (codes "new") turned.tables.sbtc_ops ≡ 0)
    × (last : ℕ) × (5 ≤ last)
    × Progress numbers at_five 4 last at_four.tables turned.tables
round-IsDone_example =
    round-IsDone numbers numbers_laws (List ℕ) ℕ takes at_five 4 5 at_four turned
      (record { rows = tt; distinct = tt }) refl refl (omega arith) (omega arith) turns
