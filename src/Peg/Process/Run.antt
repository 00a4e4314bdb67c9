-- ===== src/Peg/Process/Run.antt =====
-- `run` of stacks-coordinator/src/coordinator.rs: polls, each followed by `process_queue`.
use core_eng.Prelude.{
  ℕ, zero, suc, ◌+◌, ◌≤◌, ◌<◌, ◌^◌, ◌≡◌, refl, sym, ap, subst, ◌∙◌, List, [], ◌∷◌, Option, some,
  true, Text, codes, arith, inl, inr,
}
use core_eng.Prelude.Outcome.{Outcome, ok, err, panic, ok-injective}
use core_eng.Prelude.Exec.{pure, bind-returns, ◌>>◌}
use core_eng.Peg.Queue.Defs.{Codec, CodecLaws, Op, PegQueueError, Tables}
use core_eng.Peg.Queue.Ops.{StacksNode, sbtc_op, poll}
use core_eng.Peg.Queue.Table.{count}
use core_eng.Peg.Queue.Dispense.{IsValid, Dispensed, sbtc_op-Dispensed}
use core_eng.Peg.Queue.Polling.{queued, queued-replace}
use core_eng.Peg.Queue.Blocks.{KeepsKeys, Progress, IsProcessed-grows, poll-Progress}
use core_eng.Peg.Queue.Valid.{poll-IsValid}
use core_eng.Peg.Process.Loop.{
  Service, Handlers, Run, queue_outcome, on_tables, on_world, handle, on_next, process_queue,
}

module _ (c : Codec) (World E : Type 0) (h : Handlers c World E) where
  -- The loop has fuel for every row that is new.
  unfoldable pub process_new : Run c World E h (Unit {0})
  process_new s = process_queue c World E h (suc (count (codes "new") s.tables.sbtc_ops)) s

  -- One turn of the loop; the sleep after it is left out.
  unfoldable pub round : StacksNode c → Run c World E h (Unit {0})
  unfolding process_new
  round node = do on_tables c World E h (poll c node); process_new

  -- The turns with the node as each of them finds it, until the program is stopped or one fails.
  unfoldable pub run : List (StacksNode c) → Run c World E h (Unit {0})
  unfolding round
  run [] = pure tt
  run (node ∷ nodes) = do round node; run nodes

module _ (c : Codec) (l : CodecLaws c) (World E : Type 0) (h : Handlers c World E) where
  -- The tables are valid, with no new row, and otherwise as far as they were.
  record IsQuiet (s t : Tables) : Type 0 where
    valid : IsValid c l t
    none_new : count (codes "new") t.sbtc_ops ≡ 0
    stored : t.last_processed ≡ s.last_processed
    keys : (x y : Text) → queued x y s.sbtc_ops ≡ true → queued x y t.sbtc_ops ≡ true

  Dispensed-IsQuiet :
      (s u t : Tables) (op : Op c) → Dispensed c l s u op → IsQuiet u t → IsQuiet s t
  Dispensed-IsQuiet s u t op d q = record {
    valid = q.valid;
    none_new = q.none_new;
    stored = q.stored ∙ ap (λ x. x.last_processed) d.after;
    keys = λ x y k. q.keys x y (
        subst (λ v. queued x y v.sbtc_ops ≡ true) (sym d.after)
          (queued-replace x y (record d.row { status = codes "pending" }) s.sbtc_ops k));
  }

  queue_outcome-ok :
      {A : Type 0} (r : Outcome PegQueueError A) (x : A)
      → queue_outcome c World E h r ≡ ok x
      → r ≡ ok x
  queue_outcome-ok (ok y) x e = ap (λ z. ok z) (ok-injective e refl)
  queue_outcome-ok (err y) x e = absurd (ground arith)
  queue_outcome-ok panic x e = absurd (ground arith)

  process_queue-IsQuiet :
      (fuel : ℕ) (s t : Service World)
      → IsValid c l s.tables
      → count (codes "new") s.tables.sbtc_ops < fuel
      → process_queue c World E h fuel s ≡ (ok tt, t)
      → IsQuiet s.tables t.tables
  unfolding process_queue
  process_queue-IsQuiet zero s t v b e = absurd (omega arith)
  process_queue-IsQuiet (suc fuel) s t v b e =
      let rest = process_queue c World E h fuel in
      let next = λ (o : Option (Op c)). on_next c World E h o rest in
      elim (sbtc_op-Dispensed c l s.tables v) [
        | inl (empty, none_new) ↦
            let out : process_queue c World E h (suc fuel) s ≡ (ok tt, s) = rw empty refl in
            let same : s ≡ t = ap (λ r. r.1) (sym out ∙ e) in
            subst (λ x. IsQuiet s.tables x.tables) same
              (record { valid = v; none_new = none_new; stored = refl; keys = λ x y k. k })
        | inr (op, u, given, d, v', one) ↦
            let taken : on_tables c World E h (sbtc_op c) s
                ≡ (ok (some op), record s { tables = u }) =
              rw given refl in
            let (o, s1, e1, h1) = bind-returns (on_tables c World E h (sbtc_op c)) next s t tt e in
            let same = sym taken ∙ e1 in
            let given_op : some op ≡ o = ok-injective (ap (λ r. r.0) same) refl in
            let left = ap (λ r. r.1) same in
            let from : next (some op) (record s { tables = u }) ≡ (ok tt, t) =
              (λ i. next (given_op i) (left i)) ∙ h1 in
            let (v1, s2, e2, h2) =
              bind-returns (on_world c World E h (handle c World E h op)) (λ x. rest)
                (record s { tables = u }) t tt from in
            let kept : u ≡ s2.tables = ap (λ r. r.1.tables) e2 in
            Dispensed-IsQuiet s.tables u t.tables op d (
              subst (λ x. IsQuiet x t.tables) (sym kept)
                (process_queue-IsQuiet fuel s2 t (subst (IsValid c l) kept v')
                  (subst (λ x. count (codes "new") x.sbtc_ops < fuel) kept (omega (arith, one, b)))
                  h2))
      ]

  quiet-Progress :
      (node : StacksNode c) (first last : ℕ) (s u t : Tables)
      → Progress c node first last s u
      → IsQuiet u t
      → Progress c node first last s t
  unfolding KeepsKeys
  quiet-Progress node first last s u t p q = record {
    stored = q.stored ∙ p.stored;
    from = p.from;
    covered = λ n a b. IsProcessed-grows c node u t n q.keys (p.covered n a b);
    keys = λ x y k. q.keys x y (p.keys x y k);
  }

  -- A turn that ends without an error, from valid tables with a stored height `first` below the largest
  -- u64 and a node at a u64 height `target`: the tables are valid and no row is new; a height `last`,
  -- not below `target`, is stored; every block above `first` up to `last` is processed, its operations
  -- with rows, or unknown to the node; and every key that had a row still has one.
  pub round-IsDone :
      (node : StacksNode c) (first target : ℕ) (s t : Service World)
      → IsValid c l s.tables
      → s.tables.last_processed ≡ some first
      → node.burn_block_height ≡ ok target
      → first + 1 < 2 ^ 64
      → target < 2 ^ 64
      → round c World E h node s ≡ (ok tt, t)
      → IsValid c l t.tables
        × (count (codes "new") t.tables.sbtc_ops ≡ 0)
        × (last : ℕ) × (target ≤ last)
        × Progress c node first last s.tables t.tables
  unfolding round process_new
  round-IsDone node first target s t v stored height b b' e =
      let (u, s1, e1, h1) =
        bind-returns (on_tables c World E h (poll c node)) (λ x. process_new c World E h) s t tt
          e in
      let polled = queue_outcome-ok (poll c node s.tables).0 tt (ap (λ r. r.0) e1) in
      let (last, p, full) = poll-Progress c node first target s.tables stored height b b' in
      let tables : (poll c node s.tables).1 ≡ s1.tables = ap (λ r. r.1.tables) e1 in
      let v1 = subst (IsValid c l) tables (poll-IsValid c l node s.tables v) in
      let quiet =
        process_queue-IsQuiet (suc (count (codes "new") s1.tables.sbtc_ops)) s1 t v1 (omega arith)
          h1 in
      (
        quiet.valid,
        quiet.none_new,
        last,
        full polled,
        quiet-Progress node first last s.tables s1.tables t.tables
            (subst (λ x. Progress c node first last s.tables x) tables p) quiet,
      )
