-- ===== src/Peg/Process/Loop.antt =====
-- `process_queue` of stacks-coordinator/src/coordinator.rs, over what its handlers change.
use core_eng.Prelude.{
  ℕ, zero, suc, ◌<◌, List, [], ◌∷◌, ◌≡◌, refl, ap, subst, arith, inl, inr, Option, none, some,
  length, codes,
}
use core_eng.Prelude.Outcome.{Outcome, ok, err, panic}
use core_eng.Prelude.Exec.{Exec, pure, for_each, ◌>>=◌, ◌>>◌}
use core_eng.Peg.Queue.Defs.{Codec, CodecLaws, Op, peg_in, peg_out_request, PegQueueError, Tables}
use core_eng.Peg.Queue.Ops.{Queue, sbtc_op}
use core_eng.Peg.Queue.Table.{count}
use core_eng.Peg.Queue.Dispense.{IsValid, sbtc_op-Dispensed, drain}

pub data ProcessError (E : Type 0) : Type 0 where
  peg_queue_error : PegQueueError → ProcessError E
  handler_error : E → ProcessError E

-- The coordinator: its queue, and all else.
pub record Service (World : Type 0) : Type 0 where
  pub tables : Tables
  pub world : World

-- The methods `peg_in` and `peg_out`.
pub record Handlers (c : Codec) (World E : Type 0) : Type 0 where
  pub peg_in : c.PegInOp → Exec World E (Unit {0})
  pub peg_out : c.PegOutRequestOp → Exec World E (Unit {0})

module _ (c : Codec) (World E : Type 0) (h : Handlers c World E) where
  abbrev pub Run : Type 0 → Type 0
  Run A = Exec (Service World) (ProcessError E) A

  abbrev pub queue_outcome : {A : Type 0} → Outcome PegQueueError A → Outcome (ProcessError E) A
  queue_outcome (ok x) = ok x
  queue_outcome (err e) = err (peg_queue_error e)
  queue_outcome panic = panic

  abbrev pub handler_outcome : {A : Type 0} → Outcome E A → Outcome (ProcessError E) A
  handler_outcome (ok x) = ok x
  handler_outcome (err e) = err (handler_error e)
  handler_outcome panic = panic

  abbrev pub on_tables : {A : Type 0} → Queue A → Run A
  on_tables m s = (queue_outcome (m s.tables).0, record s { tables = (m s.tables).1 })

  abbrev pub on_world : {A : Type 0} → Exec World E A → Run A
  on_world m s = (handler_outcome (m s.world).0, record s { world = (m s.world).1 })

  unfoldable pub handle : Op c → Exec World E (Unit {0})
  handle (peg_in op) = h.peg_in op
  handle (peg_out_request op) = h.peg_out op

  -- The `match` on what the queue gives.
  abbrev pub on_next : Option (Op c) → Run (Unit {0}) → Run (Unit {0})
  on_next none again = pure tt
  on_next (some op) again = do on_world (handle op); again

  -- The loop, on fuel.
  unfoldable pub process_queue : ℕ → Run (Unit {0})
  unfolding handle
  process_queue zero = pure tt
  process_queue (suc fuel) = do next ← on_tables (sbtc_op c); on_next next (process_queue fuel)

module _ (c : Codec) (l : CodecLaws c) (World E : Type 0) (h : Handlers c World E) where
  -- `process_queue` did the handlers' work on `ops`, in this order, up to the first that failed.
  pub record Handled (ops : List (Op c)) (fuel : ℕ) (s : Service World) : Type 0 where
    pub outcome :
        (process_queue c World E h fuel s).0
        ≡ handler_outcome c World E h (for_each (handle c World E h) ops s.world).0
    pub world :
        (process_queue c World E h fuel s).1.world ≡ (for_each (handle c World E h) ops s.world).1

  next-Handled :
      (op : Op c) (ops : List (Op c)) (fuel : ℕ) (s : Service World) (t : Tables)
      → sbtc_op c s.tables ≡ (ok (some op), t)
      → Handled ops fuel (record { tables = t; world = (handle c World E h op s.world).1 })
      → Handled (op ∷ ops) (suc fuel) s
  unfolding process_queue for_each
  next-Handled op ops fuel s t e ih =
      go (handle c World E h op s.world).0 (handle c World E h op s.world).1 refl
    where
      go :
          (r : Outcome E (Unit {0})) (w : World)
          → handle c World E h op s.world ≡ (r, w)
          → Handled (op ∷ ops) (suc fuel) s
      go (ok u) w k =
          let later = subst (λ x. Handled ops fuel (record { tables = t; world = x.1 })) k ih in
          record { outcome = rw (e, k) later.outcome; world = rw (e, k) later.world }
      go (err x) w k = record { outcome = rw (e, k) refl; world = rw (e, k) refl }
      go panic w k = record { outcome = rw (e, k) refl; world = rw (e, k) refl }

  none-Handled :
      (fuel : ℕ) (s : Service World)
      → sbtc_op c s.tables ≡ (ok none, s.tables)
      → Handled [] (suc fuel) s
  unfolding process_queue for_each
  none-Handled fuel s e = record { outcome = rw e refl; world = rw e refl }

  -- On valid tables, with more fuel than there are new rows, `process_queue` calls the handlers on
  -- the operations that the queue hands out, as many as there are new rows, each once and in that
  -- order, up to the first handler that fails; it fails exactly as that one does.
  pub process_queue-Handled :
      (n fuel : ℕ) (s : Service World)
      → IsValid c l s.tables
      → count (codes "new") s.tables.sbtc_ops ≡ n
      → n < fuel
      → (ops : List (Op c)) × (t : Tables) × (drain c l n s.tables ≡ (ok ops, t))
        × (length ops ≡ n)
        × Handled ops fuel s
  unfolding drain
  process_queue-Handled n zero s v e b = absurd (omega arith)
  process_queue-Handled zero (suc fuel) s v e b = elim (sbtc_op-Dispensed c l s.tables v) [
    | inl (empty, none_new) ↦ ([], s.tables, refl, refl, none-Handled fuel s empty)
    | inr (op, t, given, d, v', one) ↦ absurd (omega (arith, one, e))
  ]
  process_queue-Handled (suc n) (suc fuel) s v e b = elim (sbtc_op-Dispensed c l s.tables v) [
    | inl (empty, none_new) ↦ absurd (omega (arith, none_new, e))
    | inr (op, t, given, d, v', one) ↦
        let after = handle c World E h op s.world in
        let (ops, u, drained, long, handled) =
          process_queue-Handled n fuel (record { tables = t; world = after.1 }) v'
            (omega (arith, one, e)) (omega (arith, b)) in
        (
          op ∷ ops,
          u,
          rw (given, drained) refl,
          ap suc long,
          next-Handled op ops fuel s t given handled,
        )
  ]
