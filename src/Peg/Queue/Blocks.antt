-- ===== src/Peg/Queue/Blocks.antt =====
-- `poll` of stacks-coordinator/src/peg_queue/sqlite_peg_queue.rs skips no block.
use core_eng.Prelude.{
  ℕ, zero, suc, ◌+◌, ◌-◌, ◌%◌, ◌^◌, ◌≤◌, ◌<◌, ◌≡◌, ◌≢◌, refl, sym, ap, arith, inl, inr, some, true,
  Text, ◌∙◌, subst, ◌==◌, ==_iff, ltb, ltb→lt, Bool-cases,
}
use core_eng.Prelude.Outcome.{Outcome, ok, err, panic}
use core_eng.Prelude.Exec.{then_on, ◌>>◌ as next, bind-returns}
use core_eng.Prelude.Keeps.{Keeps}
use core_eng.Peg.Queue.Defs.{Codec, PegQueueError, Tables}
use core_eng.Peg.Queue.Ops.{
  StacksNode, peg_ins, peg_outs, poll_peg_in_ops, poll_peg_out_request_ops,
  insert_last_processed_block_height, poll_block, poll_blocks, poll_range, poll,
  last_processed_block_height,
}
use core_eng.Peg.Queue.Polling.{
  queued, Grows, order, IsCovered, insert_ops-Grows, insert_ops-IsCovered, IsCovered-grows,
}

mod_small : (n : ℕ) → n < 2 ^ 64 → n % 2 ^ 64 ≡ n
mod_small n h = omega (arith, h)

module _ (c : Codec) (node : StacksNode c) where
  -- Both answers of the node for a block are dealt with.
  pub record IsProcessed (t : Tables) (height : ℕ) : Type 0 where
    pub ins : IsCovered c t (peg_ins c (node.get_peg_in_ops height))
    pub outs : IsCovered c t (peg_outs c (node.get_peg_out_request_ops height))

  unfoldable pub KeepsKeys : Tables → Tables → Type 0
  KeepsKeys s t = (x y : Text) → queued x y s.sbtc_ops ≡ true → queued x y t.sbtc_ops ≡ true

  pub IsProcessed-grows : (s t : Tables) (h : ℕ) → KeepsKeys s t → IsProcessed s h → IsProcessed t h
  unfolding KeepsKeys
  IsProcessed-grows s t h g p = record {
    ins = IsCovered-grows c (peg_ins c (node.get_peg_in_ops h)) s t g p.ins;
    outs = IsCovered-grows c (peg_outs c (node.get_peg_out_request_ops h)) s t g p.outs;
  }

  peg_in_ops-Grows : (h : ℕ) → Keeps (Grows c) (poll_peg_in_ops c node h)
  unfolding poll_peg_in_ops
  peg_in_ops-Grows h = record { at = (insert_ops-Grows c (peg_ins c (node.get_peg_in_ops h))).at }

  peg_out_ops-Grows : (h : ℕ) → Keeps (Grows c) (poll_peg_out_request_ops c node h)
  unfolding poll_peg_out_request_ops
  peg_out_ops-Grows h = record {
    at = (insert_ops-Grows c (peg_outs c (node.get_peg_out_request_ops h))).at;
  }

  -- A block that is done: its operations have rows, and its height is stored.
  record Done (s t : Tables) (h : ℕ) : Type 0 where
    processed : IsProcessed t h
    stored : t.last_processed ≡ some (h % 2 ^ 64)
    keys : KeepsKeys s t

  poll_block-Done : (h : ℕ) (s t : Tables) → poll_block c node h s ≡ (ok tt, t) → Done s t h
  unfolding poll_block insert_last_processed_block_height poll_peg_in_ops poll_peg_out_request_ops
      KeepsKeys
  poll_block-Done h s t e =
      let mark = insert_last_processed_block_height c h in
      let (u1, s1, e1, h1) =
        bind-returns (poll_peg_in_ops c node h) (λ u. next (poll_peg_out_request_ops c node h) mark)
          s t tt e in
      let (u2, s2, e2, h2) =
        bind-returns (poll_peg_out_request_ops c node h) (λ u. mark) s1 t tt h1 in
      let g1 = subst (λ x. Grows c s x.1) e1 ((peg_in_ops-Grows h).at s) in
      let g2 = subst (λ x. Grows c s1 x.1) e2 ((peg_out_ops-Grows h).at s1) in
      let ins = insert_ops-IsCovered c (peg_ins c (node.get_peg_in_ops h)) s s1 e1 in
      let outs = insert_ops-IsCovered c (peg_outs c (node.get_peg_out_request_ops h)) s1 s2 e2 in
      let rows : s2.sbtc_ops ≡ t.sbtc_ops = ap (λ r. r.1.sbtc_ops) h2 in
      let to_t : KeepsKeys s2 t = λ x y q. subst (λ l. queued x y l ≡ true) rows q in
      record {
        processed = IsProcessed-grows s2 t h to_t (record {
          ins = IsCovered-grows c (peg_ins c (node.get_peg_in_ops h)) s1 s2 g2.keys ins;
          outs = outs;
        });
        stored = sym (ap (λ r. r.1.last_processed) h2);
        keys = λ x y q. to_t x y (g2.keys x y (g1.keys x y q));
      }

  -- A block that is not done leaves the stored height.
  record Stopped (s t : Tables) : Type 0 where
    stored : t.last_processed ≡ s.last_processed
    keys : KeepsKeys s t

  stop : (s t : Tables) → Grows c s t → Stopped s t
  unfolding KeepsKeys
  stop s t g = record { stored = g.last; keys = g.keys }

  stop_outs :
      (h : ℕ) (s s1 : Tables) (r : Outcome PegQueueError (Unit {0})) (s2 : Tables)
      → Grows c s s1
      → Grows c s1 s2
      → (then_on (λ u. insert_last_processed_block_height c h) r s2).0 ≢ ok tt
      → Stopped s (then_on (λ u. insert_last_processed_block_height c h) r s2).1
  unfolding insert_last_processed_block_height
  stop_outs h s s1 (ok u) s2 g g' q = absurd (q refl)
  stop_outs h s s1 (err e) s2 g g' q = stop s s2 ((order c).join s s1 s2 g g')
  stop_outs h s s1 panic s2 g g' q = stop s s2 ((order c).join s s1 s2 g g')

  stop_ins :
      (h : ℕ) (s : Tables) (r : Outcome PegQueueError (Unit {0})) (s1 : Tables)
      → Grows c s s1
      → (then_on
          (λ u. next (poll_peg_out_request_ops c node h) (insert_last_processed_block_height c h))
          r
          s1).0
        ≢ ok tt
      → Stopped s
          (then_on
            (λ u. next (poll_peg_out_request_ops c node h) (insert_last_processed_block_height c h))
            r
            s1).1
  stop_ins h s (ok u) s1 g q =
      let outs = poll_peg_out_request_ops c node h s1 in
      stop_outs h s s1 outs.0 outs.1 g ((peg_out_ops-Grows h).at s1) q
  stop_ins h s (err e) s1 g q = stop s s1 g
  stop_ins h s panic s1 g q = stop s s1 g

  poll_block-Stopped :
      (h : ℕ) (s : Tables) → (poll_block c node h s).0 ≢ ok tt → Stopped s (poll_block c node h s).1
  unfolding poll_block
  poll_block-Stopped h s n =
      let ins = poll_peg_in_ops c node h s in stop_ins h s ins.0 ins.1 ((peg_in_ops-Grows h).at s) n

  -- From the stored height `first`, a height `last` is stored, and every block above `first` up to
  -- `last` is processed.
  pub record Progress (first last : ℕ) (s t : Tables) : Type 0 where
    pub stored : t.last_processed ≡ some last
    pub from : first ≤ last
    pub covered : (h : ℕ) → first < h → h ≤ last → IsProcessed t h
    pub keys : (x y : Text) → queued x y s.sbtc_ops ≡ true → queued x y t.sbtc_ops ≡ true

  no-Progress :
      (first : ℕ) (s t : Tables)
      → s.last_processed ≡ some first
      → Stopped s t
      → Progress first first s t
  unfolding KeepsKeys
  no-Progress first s t h q = record {
    stored = q.stored ∙ h;
    from = omega arith;
    covered = λ k low high. absurd (omega arith);
    keys = q.keys;
  }

  after_block :
      (first last : ℕ) (s s1 t : Tables)
      → Done s s1 (suc first)
      → Progress (suc first) last s1 t
      → Progress first last s t
  unfolding KeepsKeys
  after_block first last s s1 t d p = record {
    stored = p.stored;
    from = omega (arith, p.from);
    covered = λ k low high. elim (Bool-cases (k == suc first)) [
      | inl this ↦
          subst (λ x. IsProcessed t x) (sym ((==_iff k (suc first)).0 this))
            (IsProcessed-grows s1 t (suc first) p.keys d.processed)
      | inr later ↦ p.covered k (ground arith) high
    ];
    keys = λ x y q. p.keys x y (d.keys x y q);
  }

  abbrev Ended :
      (first : ℕ) (s : Tables) (count : ℕ) (r : Outcome PegQueueError (Unit {0})) (t : Tables)
      → Type 0
  Ended first s count r t =
      (last : ℕ) × Progress first last s t × (r ≡ ok tt → last ≡ first + count)

  poll_blocks-Progress :
      (count first : ℕ) (s : Tables)
      → s.last_processed ≡ some first
      → first + count < 2 ^ 64
      → Ended first s count
          (poll_blocks c node (suc first) count s).0
          (poll_blocks c node (suc first) count s).1
  unfolding poll_blocks KeepsKeys
  poll_blocks-Progress zero first s h b = (
    first,
    no-Progress first s s h (record { stored = refl; keys = λ x y q. q }),
    λ e. omega arith,
  )
  poll_blocks-Progress (suc count) first s h b =
      go (poll_block c node (suc first) s).0 (poll_block c node (suc first) s).1 refl
        (poll_block-Stopped (suc first) s) (poll_blocks-Progress count (suc first))
    where
      after : Outcome PegQueueError (Unit {0}) → Tables → Outcome PegQueueError (Unit {0}) × Tables
      after r s1 = then_on (λ u. poll_blocks c node (suc (suc first)) count) r s1

      go :
          (r : Outcome PegQueueError (Unit {0})) (s1 : Tables)
          → poll_block c node (suc first) s ≡ (r, s1)
          → (r ≢ ok tt → Stopped s s1)
          → ((s' : Tables)
              → s'.last_processed ≡ some (suc first)
              → suc first + count < 2 ^ 64
              → Ended
                  (suc first)
                  s'
                  count
                  (poll_blocks c node (suc (suc first)) count s').0
                  (poll_blocks c node (suc (suc first)) count s').1)
          → Ended first s (suc count) (after r s1).0 (after r s1).1
      go (ok u) s1 e stopped ih =
          let d = poll_block-Done (suc first) s s1 e in
          let (last, p, full) =
            ih s1 (d.stored ∙ ap some (mod_small (suc first) (omega (arith, b))))
              (omega (arith, b)) in
          (last, after_block first last s s1 _ d p, λ q. full q ∙ omega arith)
      go (err x) s1 e stopped ih = (
        first,
        no-Progress first s s1 h (stopped (λ q. ground arith)),
        λ q. absurd (ground arith),
      )
      go panic s1 e stopped ih = (
        first,
        no-Progress first s s1 h (stopped (λ q. ground arith)),
        λ q. absurd (ground arith),
      )

  poll-range :
      (first target : ℕ) (s : Tables)
      → s.last_processed ≡ some first
      → node.burn_block_height ≡ ok target
      → first + 1 < 2 ^ 64
      → poll c node s ≡ poll_range c node (suc first) target s
  unfolding poll last_processed_block_height
  poll-range first target s stored height b =
      let next_height : (first + 1) % 2 ^ 64 ≡ suc first = mod_small (first + 1) b ∙ omega arith in
      rw (height, stored, next_height) refl

  poll_range-Progress :
      (first target : ℕ) (s : Tables)
      → s.last_processed ≡ some first
      → target < 2 ^ 64
      → (last : ℕ) × Progress first last s (poll_range c node (suc first) target s).1
        × ((poll_range c node (suc first) target s).0 ≡ ok tt → target ≤ last)
  unfolding poll_range KeepsKeys
  poll_range-Progress first target s stored b = elim (Bool-cases (ltb target (suc first))) [
    | inl behind ↦ rw behind (
      first,
      no-Progress first s s stored (record { stored = refl; keys = λ x y q. q }),
      λ e. ground (arith, ltb→lt target (suc first) behind),
    )
    | inr ahead ↦
        let count : first + (suc target - suc first) ≡ target = ground arith in
        let (last, p, full) =
          poll_blocks-Progress (suc target - suc first) first s stored (omega (arith, count, b)) in
        rw ahead (last, p, λ e. omega (arith, full e, count))
  ]

  -- However `poll` ends, from a stored height `first` below the largest u64 and with a node at a u64
  -- height `target`: a height `last`, not below `first`, is stored; for every block above `first` up
  -- to `last`, all the operations that the node gave have rows, or the node did not know the block;
  -- every key that had a row still has one. If `poll` succeeds, then `target` is reached.
  pub poll-Progress :
      (first target : ℕ) (s : Tables)
      → s.last_processed ≡ some first
      → node.burn_block_height ≡ ok target
      → first + 1 < 2 ^ 64
      → target < 2 ^ 64
      → (last : ℕ) × Progress first last s (poll c node s).1
        × ((poll c node s).0 ≡ ok tt → target ≤ last)
  poll-Progress first target s stored height b b' =
      rw (poll-range first target s stored height b) (poll_range-Progress first target s stored b')
