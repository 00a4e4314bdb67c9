-- ===== src/Peg/Queue/Valid.antt =====
-- `poll` of stacks-coordinator/src/peg_queue/sqlite_peg_queue.rs and the validity of the tables.
use core_eng.Prelude.{
  ℕ, zero, suc, ◌+◌, ◌-◌, ◌%◌, ◌^◌, ◌≡◌, refl, List, [], ◌∷◌, ltb, inl, inr, Bool-cases,
}
use core_eng.Prelude.Outcome.{Outcome, ok, err, panic, ok_or}
use core_eng.Prelude.Exec.{for_each, ◌>>=◌ as and_then, ◌>>◌ as next}
use core_eng.Prelude.Keeps.{Keeps, Preorder, bind-Keeps, pure-Keeps}
use core_eng.Peg.Queue.Defs.{
  Codec, CodecLaws, Entry, Error, NodeError, unknown_block_height, other_error,
  query_returned_no_rows, Row, Tables, Op, to_row, entry_of,
}
use core_eng.Peg.Queue.Ops.{
  StacksNode, sqlite, insert, insert_ops, insert_last_processed_block_height,
  last_processed_block_height, poll_peg_in_ops, poll_peg_out_request_ops, poll_block, poll_blocks,
  poll_range, poll, peg_ins, peg_outs, node_height,
}
use core_eng.Peg.Queue.Table.{replace-AreDistinct}
use core_eng.Peg.Queue.Dispense.{IsValid, replace-All}

module _ (c : Codec) (l : CodecLaws c) where
  -- Valid tables stay so.
  pub Stays : Tables → Tables → Type 0
  Stays s t = IsValid c l s → IsValid c l t

  order : Preorder Stays
  unfolding Stays
  order = record { here = λ s v. v; join = λ s t u f g v. g (f v) }

  insert-Keeps : (e : Entry c) → Keeps Stays (insert c e)
  unfolding insert Stays
  insert-Keeps e = record { at = λ s. go s (to_row c e) refl }
    where
      go : (s : Tables) (r : Outcome Error Row) → to_row c e ≡ r → Stays s (insert c e s).1
      go s (ok row) h = rw h λ v. record {
        rows = replace-All c l row s.sbtc_ops (record { entry = e; written = h }) v.rows;
        distinct = replace-AreDistinct row s.sbtc_ops v.distinct;
      }
      go s (err x) h = rw h λ v. v
      go s panic h = rw h λ v. v

  insert_all-Keeps :
      (ops : List (Op c)) → Keeps Stays (for_each (λ op. insert c (entry_of c op)) ops)
  unfolding for_each
  insert_all-Keeps [] = pure-Keeps Stays order tt
  insert_all-Keeps (op ∷ ops) =
      bind-Keeps Stays order (insert c (entry_of c op))
        (λ u. for_each (λ op. insert c (entry_of c op)) ops) (insert-Keeps (entry_of c op))
        λ u. insert_all-Keeps ops

  insert_ops-Keeps : (a : Outcome NodeError (List (Op c))) → Keeps Stays (insert_ops c a)
  unfolding insert_ops
  insert_ops-Keeps (ok ops) = record { at = (insert_all-Keeps ops).at }
  insert_ops-Keeps (err (unknown_block_height h)) = record { at = order.here }
  insert_ops-Keeps (err (other_error e)) = record { at = order.here }
  insert_ops-Keeps panic = record { at = order.here }

  mark-Keeps : (h : ℕ) → Keeps Stays (insert_last_processed_block_height c h)
  unfolding insert_last_processed_block_height Stays
  mark-Keeps h = record { at = λ s v. record { rows = v.rows; distinct = v.distinct } }

  module _ (node : StacksNode c) where
    poll_block-Keeps : (h : ℕ) → Keeps Stays (poll_block c node h)
    unfolding poll_block poll_peg_in_ops poll_peg_out_request_ops
    poll_block-Keeps h =
        let ins = insert_ops c (peg_ins c (node.get_peg_in_ops h)) in
        let outs = insert_ops c (peg_outs c (node.get_peg_out_request_ops h)) in
        let mark = insert_last_processed_block_height c h in
        bind-Keeps Stays order ins (λ u. next outs mark)
          (insert_ops-Keeps (peg_ins c (node.get_peg_in_ops h)))
          λ u.
            bind-Keeps Stays order outs (λ u. mark)
              (insert_ops-Keeps (peg_outs c (node.get_peg_out_request_ops h))) λ u. mark-Keeps h

    poll_blocks-Keeps : (start count : ℕ) → Keeps Stays (poll_blocks c node start count)
    unfolding poll_blocks
    poll_blocks-Keeps start zero = pure-Keeps Stays order tt
    poll_blocks-Keeps start (suc count) =
        bind-Keeps Stays order (poll_block c node start) (λ u. poll_blocks c node (suc start) count)
          (poll_block-Keeps start) λ u. poll_blocks-Keeps (suc start) count

    poll_range-Keeps : (start target : ℕ) → Keeps Stays (poll_range c node start target)
    unfolding poll_range
    poll_range-Keeps start target = elim (Bool-cases (ltb target start)) [
      | inl behind ↦ rw behind (pure-Keeps Stays order tt)
      | inr ahead ↦ rw ahead (poll_blocks-Keeps start (suc target - start))
    ]

    node_height-Keeps : (r : Outcome NodeError ℕ) → Keeps Stays (node_height c r)
    node_height-Keeps (ok h) = record { at = order.here }
    node_height-Keeps (err e) = record { at = order.here }
    node_height-Keeps panic = record { at = order.here }

    last-Keeps : Keeps Stays (last_processed_block_height c)
    unfolding last_processed_block_height
    last-Keeps = record { at = λ s. go s (ok_or s.last_processed query_returned_no_rows) }
      where
        go : (s : Tables) (r : Outcome Error ℕ) → Stays s (sqlite r s).1
        go s (ok n) = order.here s
        go s (err e) = order.here s
        go s panic = order.here s

    pub poll-IsValid : (s : Tables) → IsValid c l s → IsValid c l (poll c node s).1
    unfolding poll Stays
    poll-IsValid s v =
        let from = λ (target last : ℕ). poll_range c node ((last + 1) % 2 ^ 64) target in
        (bind-Keeps Stays order (node_height c node.burn_block_height)
            (λ target. and_then (last_processed_block_height c) (from target))
            (node_height-Keeps node.burn_block_height)
            (λ target.
              bind-Keeps Stays order (last_processed_block_height c) (from target) last-Keeps
                λ last. poll_range-Keeps ((last + 1) % 2 ^ 64) target)).at
          s v
