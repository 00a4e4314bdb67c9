-- ===== src/Peg/Queue/Ops.antt =====
-- The operations of `SqlitePegQueue` in stacks-coordinator/src/peg_queue/sqlite_peg_queue.rs.
use core_eng.Prelude.{
  ℕ, zero, suc, ◌+◌, ◌-◌, ◌%◌, ◌^◌, List, Option, none, some, ltb, map, if◌then◌else◌,
}
use core_eng.Prelude.Outcome.{Outcome, ok, err, panic, ok_or}
use core_eng.Prelude.Exec.{Exec, pure, modify, for_each, ◌>>=◌, ◌>>◌}
use core_eng.Peg.Queue.Defs.{
  Codec, peg_in, peg_out_request, Op, Entry, Error, NodeError, unknown_block_height, other_error,
  PegQueueError, sqlite_peg_queue_error, stacks_node_error, query_returned_no_rows, Status, new,
  pending, acknowledged, as_str, Row, Tables, replace, first_with_status, first_with_key, from_row,
  to_row, entry_of,
}

abbrev pub Queue {ℓ} : Type ℓ → Type ℓ
Queue A = Exec Tables PegQueueError A

-- `?` on a result of this file, in a method of `PegQueue`.
abbrev pub sqlite {ℓ} : {A : Type ℓ} → Outcome Error A → Queue A
sqlite (ok x) s = (ok x, s)
sqlite (err e) s = (err (sqlite_peg_queue_error e), s)
sqlite panic s = (panic, s)

-- What `poll` asks of the trait `StacksNode`, as one poll finds it.
pub record StacksNode (c : Codec) : Type 0 where
  pub burn_block_height : Outcome NodeError ℕ
  pub get_peg_in_ops : ℕ → Outcome NodeError (List c.PegInOp)
  pub get_peg_out_request_ops : ℕ → Outcome NodeError (List c.PegOutRequestOp)

module _ (c : Codec) where
  unfoldable pub insert : Entry c → Queue (Unit {0})
  unfolding to_row replace
  insert entry = do
    row ← sqlite (to_row c entry)
    modify (λ s. record s { sbtc_ops = replace row s.sbtc_ops })

  abbrev found : Outcome Error (Entry c) → Outcome Error (Option (Entry c))
  found (ok e) = ok (some e)
  found (err e) = err e
  found panic = panic

  -- `.next().transpose()`: only the first row is read.
  abbrev read_first : Option Row → Outcome Error (Option (Entry c))
  read_first none = ok none
  read_first (some row) = found (from_row c row)

  unfoldable pub get_single_entry_with_status : Status → Queue (Option (Entry c))
  unfolding first_with_status from_row
  get_single_entry_with_status status s =
      sqlite (read_first (first_with_status (as_str status) s.sbtc_ops)) s

  abbrev read_row : Option Row → Outcome Error (Entry c)
  read_row none = err query_returned_no_rows
  read_row (some row) = from_row c row

  unfoldable pub get_entry : c.Txid → c.BurnHeaderHash → Queue (Entry c)
  unfolding first_with_key from_row
  get_entry txid header s =
      sqlite (read_row (first_with_key (c.txid_to_hex txid) (c.header_to_hex header) s.sbtc_ops)) s

  unfoldable pub last_processed_block_height : Queue ℕ
  last_processed_block_height s = sqlite (ok_or s.last_processed query_returned_no_rows) s

  unfoldable pub insert_last_processed_block_height : ℕ → Queue (Unit {0})
  insert_last_processed_block_height height =
      modify (λ s. record s { last_processed = some (height % 2 ^ 64) })

  -- The tables are there, with what they hold, or are created empty.
  unfoldable pub from_connection : Option ℕ → ℕ → Queue (Unit {0})
  unfolding insert_last_processed_block_height
  from_connection (some start) current s = insert_last_processed_block_height (start - 1) s
  from_connection none current s = elim s.last_processed [
    | none ↦ insert_last_processed_block_height (current - 1) s
    | some last ↦ (ok tt, s)
  ]

  -- The `let Some(mut entry) = maybe_entry else { … }` of `sbtc_op`.
  unfoldable pub take_entry : Option (Entry c) → Queue (Option (Op c))
  unfolding insert
  take_entry none = pure none
  take_entry (some entry) = do insert (record entry { status = pending }); pure (some entry.op)

  unfoldable pub sbtc_op : Queue (Option (Op c))
  unfolding get_single_entry_with_status take_entry
  sbtc_op = do maybe_entry ← get_single_entry_with_status new; take_entry maybe_entry

  unfoldable pub acknowledge : c.Txid → c.BurnHeaderHash → Queue (Unit {0})
  unfolding get_entry insert
  acknowledge txid header = do
    entry ← get_entry txid header
    insert (record entry { status = acknowledged })

  -- The `match` on the node's answer for a block.
  unfoldable pub insert_ops : Outcome NodeError (List (Op c)) → Queue (Unit {0})
  unfolding insert for_each
  insert_ops (ok ops) s = for_each (λ op. insert (entry_of c op)) ops s
  insert_ops (err (unknown_block_height height)) s = (ok tt, s)
  insert_ops (err (other_error e)) s = (err (stacks_node_error (other_error e)), s)
  insert_ops panic s = (panic, s)

  abbrev pub peg_ins : Outcome NodeError (List c.PegInOp) → Outcome NodeError (List (Op c))
  peg_ins (ok ops) = ok (map peg_in ops)
  peg_ins (err e) = err e
  peg_ins panic = panic

  abbrev pub peg_outs : Outcome NodeError (List c.PegOutRequestOp) → Outcome NodeError (List (Op c))
  peg_outs (ok ops) = ok (map peg_out_request ops)
  peg_outs (err e) = err e
  peg_outs panic = panic

  unfoldable pub poll_peg_in_ops : StacksNode c → ℕ → Queue (Unit {0})
  unfolding insert_ops
  poll_peg_in_ops node height = insert_ops (peg_ins (node.get_peg_in_ops height))

  unfoldable pub poll_peg_out_request_ops : StacksNode c → ℕ → Queue (Unit {0})
  unfolding insert_ops
  poll_peg_out_request_ops node height = insert_ops (peg_outs (node.get_peg_out_request_ops height))

  unfoldable pub poll_block : StacksNode c → ℕ → Queue (Unit {0})
  unfolding poll_peg_in_ops poll_peg_out_request_ops insert_last_processed_block_height
  poll_block node height = do
    poll_peg_in_ops node height
    poll_peg_out_request_ops node height
    insert_last_processed_block_height height

  -- `for block_height in start..=target`, as `count` heights from `start` on.
  unfoldable pub poll_blocks : StacksNode c → ℕ → ℕ → Queue (Unit {0})
  unfolding poll_block
  poll_blocks node start zero = pure tt
  poll_blocks node start (suc count) = do poll_block node start; poll_blocks node (suc start) count

  abbrev pub node_height : Outcome NodeError ℕ → Queue ℕ
  node_height (ok height) s = (ok height, s)
  node_height (err e) s = (err (stacks_node_error e), s)
  node_height panic s = (panic, s)

  unfoldable pub poll_range : StacksNode c → ℕ → ℕ → Queue (Unit {0})
  unfolding poll_blocks
  poll_range node start target =
      if ltb target start then pure tt else poll_blocks node start (suc target - start)

  -- `count + 1` on a u64 wraps around in a release build.
  unfoldable pub poll : StacksNode c → Queue (Unit {0})
  unfolding last_processed_block_height poll_range
  poll node = do
    target ← node_height node.burn_block_height
    last ← last_processed_block_height
    poll_range node ((last + 1) % 2 ^ 64) target
