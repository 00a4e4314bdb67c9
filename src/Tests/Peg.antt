-- ===== src/Tests/Peg.antt =====
-- The queue of stacks-coordinator at concrete inputs: an operation is a number, its own id, block
-- and height.
use core_eng.Prelude.{
  ℕ, zero, suc, subst, ◌%◌, ◌^◌, ◌≤◌, List, [], ◌∷◌, ◌≡◌, ◌⊎◌, refl, arith, Option, none, some,
  Text, codes, text_eq, if◌then◌else◌, ◌==◌,
}
use core_eng.Prelude.Outcome.{Outcome, ok, err}
use core_eng.Peg.Queue.Defs.{
  Codec, CodecLaws, SbtcOp, peg_in, peg_out_request, Entry, Row, Tables, pending, as_str, to_row,
  row_before, NodeError, unknown_block_height, entry_of,
}
use core_eng.Peg.Queue.Ops.{StacksNode, insert, get_entry, sbtc_op, poll}
use core_eng.Peg.Queue.Table.{count}
use core_eng.Peg.Queue.Dispense.{IsValid, IsEntryRow, Dispensed, sbtc_op-Dispensed}
use core_eng.Peg.Queue.Blocks.{Progress, poll-Progress}
use core_eng.Peg.Queue.Lookup.{get_entry-insert, stored_entry}

abbrev to_json : SbtcOp ℕ ℕ → Option Text
to_json (peg_in n) = some (0 ∷ n ∷ [])
to_json (peg_out_request n) = some (1 ∷ n ∷ [])

abbrev from_json : Text → Option (SbtcOp ℕ ℕ)
from_json (zero ∷ n ∷ []) = some (peg_in n)
from_json (suc zero ∷ n ∷ []) = some (peg_out_request n)
from_json _ = none

abbrev pub numbers : Codec
numbers = record {
  Txid = Text;
  BurnHeaderHash = Text;
  PegInOp = ℕ;
  PegOutRequestOp = ℕ;
  in_txid = λ n. n ∷ [];
  in_header = λ n. n ∷ [];
  in_height = λ n. n;
  out_txid = λ n. n ∷ [];
  out_header = λ n. n ∷ [];
  out_height = λ n. n;
  txid_to_hex = λ t. t;
  txid_from_hex = λ t. some t;
  header_to_hex = λ t. t;
  header_from_hex = λ t. some t;
  op_to_json = to_json;
  op_from_json = from_json;
}

pub json_law : (o : SbtcOp ℕ ℕ) (j : Text) → to_json o ≡ some j → from_json j ≡ some o
json_law (peg_in n) j h =
    let e : 0 ∷ n ∷ [] ≡ j = ground arith in subst (λ x. from_json x ≡ some (peg_in n)) e refl
json_law (peg_out_request n) j h =
    let e : 1 ∷ n ∷ [] ≡ j = ground arith in
    subst (λ x. from_json x ≡ some (peg_out_request n)) e refl

abbrev pub numbers_laws : CodecLaws numbers
numbers_laws = record { txid = λ t. refl; header = λ t. refl; op = json_law }

abbrev row_of : ℕ → Text → Row
row_of n status = record {
  txid = n ∷ [];
  burn_header_hash = n ∷ [];
  block_height = n;
  op = 0 ∷ n ∷ [];
  status = status;
}

abbrev pub two_new : Tables
two_new = record {
  sbtc_ops = row_of 5 (codes "new") ∷ row_of 3 (codes "new") ∷ [];
  last_processed = some 5;
}

written : (n : ℕ) → n % 2 ^ 64 ≡ n → IsEntryRow numbers numbers_laws (row_of n (codes "new"))
unfolding to_row as_str entry_of
written n h = record { entry = entry_of numbers (peg_in n); written = rw h refl }

pub two_new-IsValid : IsValid numbers numbers_laws two_new
unfolding text_eq
two_new-IsValid = record {
  rows = (written 5 refl, (written 3 refl, tt));
  distinct = ((refl, tt), (tt, tt));
}

sbtc_op-Dispensed_example :
    ((sbtc_op numbers two_new ≡ (ok none, two_new)) × (count (codes "new") two_new.sbtc_ops ≡ 0))
    ⊎ ((op : SbtcOp ℕ ℕ) × (t : Tables) × (sbtc_op numbers two_new ≡ (ok (some op), t))
        × Dispensed numbers numbers_laws two_new t op
        × IsValid numbers numbers_laws t
        × (suc (count (codes "new") t.sbtc_ops) ≡ count (codes "new") two_new.sbtc_ops))
sbtc_op-Dispensed_example = sbtc_op-Dispensed numbers numbers_laws two_new two_new-IsValid

-- The node knows the blocks up to 7; block 6 has an operation of each kind, and 7 is not yet there.
abbrev ins_at : ℕ → Outcome NodeError (List ℕ)
ins_at n = if n == 6 then ok (6 ∷ []) else err (unknown_block_height n)

abbrev outs_at : ℕ → Outcome NodeError (List ℕ)
outs_at n = if n == 6 then ok (8 ∷ []) else ok []

abbrev node : StacksNode numbers
node = record {
  burn_block_height = ok 7;
  get_peg_in_ops = ins_at;
  get_peg_out_request_ops = outs_at;
}

poll-Progress_example :
    (last : ℕ) × Progress numbers node 5 last two_new (poll numbers node two_new).1
    × ((poll numbers node two_new).0 ≡ ok tt → 7 ≤ last)
poll-Progress_example = poll-Progress numbers node 5 7 two_new refl refl (omega arith) (omega arith)

abbrev entry_5 : Entry numbers
entry_5 = record {
  burn_header_hash = 5 ∷ [];
  txid = 5 ∷ [];
  block_height = 5;
  op = peg_in 5;
  status = pending;
}

get_entry-insert_example :
    get_entry numbers (5 ∷ []) (5 ∷ []) (insert numbers entry_5 two_new).1
    ≡ (ok (stored_entry numbers numbers_laws entry_5), (insert numbers entry_5 two_new).1)
unfolding insert
get_entry-insert_example =
    get_entry-insert numbers numbers_laws entry_5 two_new (insert numbers entry_5 two_new).1 refl

-- The operation of the lower height comes first, though it stands second.
sbtc_op_test : sbtc_op numbers two_new ≡ (
  ok (some (peg_in 3)),
  record two_new { sbtc_ops = row_of 5 (codes "new") ∷ row_of 3 (codes "pending") ∷ [] },
)
unfolding sbtc_op text_eq row_before
sbtc_op_test = refl
