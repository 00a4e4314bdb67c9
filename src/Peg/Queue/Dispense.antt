-- ===== src/Peg/Queue/Dispense.antt =====
-- What `sbtc_op` of stacks-coordinator/src/peg_queue/sqlite_peg_queue.rs hands out.
use core_eng.Prelude.{
  ℕ, zero, suc, ◌%◌, ◌^◌, List, [], ◌∷◌, ◌≡◌, refl, arith, ◌⊎◌, inl, inr, Option, none, some, true,
  false, Text, text_eq, Option-cases, ap, codes, All, All-append, length, subst,
}
use core_eng.Prelude.Outcome.{ok, ok_or, bind-ok}
use core_eng.Prelude.Exec.{pure, ◌>>=◌}
use core_eng.Peg.Queue.Defs.{
  Codec, CodecLaws, Entry, Op, json_error, Row, Tables, without_key, replace, from_row, to_row,
  Status, new, pending, acknowledged, as_str, from_str, first_with_status,
}
use core_eng.Peg.Queue.Order.{
  Occurs, here, there, IsFirst, first_with_status-none, first_with_status-IsFirst,
}
use core_eng.Peg.Queue.Table.{
  AreDistinct, count, without_key-All, replace-AreDistinct, count-replace,
}
use core_eng.Peg.Queue.Ops.{Queue, insert, get_single_entry_with_status, take_entry, sbtc_op}

from_str-as_str : (st : Status) → from_str (as_str st) ≡ ok st
unfolding from_str as_str text_eq
from_str-as_str new = refl
from_str-as_str pending = refl
from_str-as_str acknowledged = refl

mod_twice : (n : ℕ) → n % 2 ^ 64 % 2 ^ 64 ≡ n % 2 ^ 64
mod_twice n = omega arith

module _ (c : Codec) (l : CodecLaws c) where
  pub record IsEntryRow (r : Row) : Type 0 where
    pub entry : Entry c
    pub written : to_row c entry ≡ ok r

  pub record IsValid (s : Tables) : Type 0 where
    pub rows : All IsEntryRow s.sbtc_ops
    pub distinct : AreDistinct s.sbtc_ops

  -- A row reads as the entry that was written, with the 64 bits of its height.
  pub from_row-to_row :
      (e : Entry c) (r : Row)
      → to_row c e ≡ ok r
      → from_row c r ≡ ok (record e { block_height = e.block_height % 2 ^ 64 })
  unfolding from_row to_row
  from_row-to_row e r h =
      let (j, k, h') = bind-ok (ok_or (c.op_to_json e.op) json_error) _ r h in
      let written : c.op_to_json e.op ≡ some j = ground arith in
      let row : record {
        txid = c.txid_to_hex e.txid;
        burn_header_hash = c.header_to_hex e.burn_header_hash;
        block_height = e.block_height % 2 ^ 64;
        op = j;
        status = as_str e.status;
      }
          ≡ r =
        ground arith in
      subst (λ x. from_row c x ≡ ok (record e { block_height = e.block_height % 2 ^ 64 })) row
        (rw
          (
            l.txid e.txid,
            l.header e.burn_header_hash,
            l.op e.op j written,
            from_str-as_str e.status,
          )
          refl)

  -- With another status, the same entry writes the same row but for the status.
  pub to_row-status :
      (e : Entry c) (r : Row) (st : Status)
      → to_row c e ≡ ok r
      → to_row c (record e { block_height = e.block_height % 2 ^ 64; status = st })
        ≡ ok (record r { status = as_str st })
  unfolding to_row
  to_row-status e r st h =
      let (j, k, h') = bind-ok (ok_or (c.op_to_json e.op) json_error) _ r h in
      ground (arith, mod_twice e.block_height)

  pub All-Occurs :
      (row : Row) (rows : List Row) → Occurs row rows → All IsEntryRow rows → IsEntryRow row
  All-Occurs row _ here a = a.0
  All-Occurs row _ (there {rows = rows} o) a = All-Occurs row rows o a.1

  pub replace-All :
      (r : Row) (rows : List Row)
      → IsEntryRow r
      → All IsEntryRow rows
      → All IsEntryRow (replace r rows)
  unfolding replace
  replace-All r rows h a =
      All-append IsEntryRow (without_key r.txid r.burn_header_hash rows) (r ∷ [])
        (without_key-All IsEntryRow r.txid r.burn_header_hash rows a) (h, tt)

  -- The tables with this row's status rewritten.
  abbrev pub with_status : Tables → Row → Text → Tables
  with_status s row status = record s {
    sbtc_ops = replace (record row { status = status }) s.sbtc_ops;
  }

  with_status-IsValid :
      (s : Tables) (row : Row) (st : Status)
      → IsValid s
      → IsEntryRow row
      → IsValid (with_status s row (as_str st))
  with_status-IsValid s row st v e = record {
    rows =
        replace-All (record row { status = as_str st }) s.sbtc_ops
          (record {
            entry = record e.entry { block_height = e.entry.block_height % 2 ^ 64; status = st };
            written = to_row-status e.entry row st e.written;
          })
          v.rows;
    distinct = replace-AreDistinct (record row { status = as_str st }) s.sbtc_ops v.distinct;
  }

  -- `op` is that of the first row that is new, and that row becomes pending.
  pub record Dispensed (s t : Tables) (op : Op c) : Type 0 where
    pub row : Row
    pub occurs : Occurs row s.sbtc_ops
    pub is_new : text_eq row.status (codes "new") ≡ true
    pub first : All (IsFirst (codes "new") row) s.sbtc_ops
    pub reads : c.op_from_json row.op ≡ some op
    pub after : t ≡ with_status s row (codes "pending")

  sbtc_op-row :
      (s : Tables) (row : Row) (e : Entry c)
      → first_with_status (codes "new") s.sbtc_ops ≡ some row
      → to_row c e ≡ ok row
      → sbtc_op c s ≡ (ok (some e.op), with_status s row (codes "pending"))
  unfolding sbtc_op get_single_entry_with_status take_entry insert as_str
  sbtc_op-row s row e h w = rw (h, from_row-to_row e row w, to_row-status e row pending w) refl

  op_of_row : (e : Entry c) (r : Row) → to_row c e ≡ ok r → c.op_from_json r.op ≡ some e.op
  unfolding to_row
  op_of_row e r h =
      let (j, k, h') = bind-ok (ok_or (c.op_to_json e.op) json_error) _ r h in
      let written : c.op_to_json e.op ≡ some j = ground arith in
      let same : j ≡ r.op = ground arith in
      subst (λ x. c.op_from_json x ≡ some e.op) same (l.op e.op j written)

  pending-IsValid :
      (s : Tables) (row : Row)
      → IsValid s
      → IsEntryRow row
      → IsValid (with_status s row (codes "pending"))
  unfolding as_str
  pending-IsValid s row v e = with_status-IsValid s row pending v e

  no_new_count :
      (rows : List Row)
      → All (λ r. text_eq r.status (codes "new") ≡ false) rows
      → count (codes "new") rows ≡ 0
  unfolding count
  no_new_count [] a = refl
  no_new_count (r ∷ rows) a = ground (arith, no_new_count rows a.1)

  sbtc_op-empty :
      (s : Tables) → first_with_status (codes "new") s.sbtc_ops ≡ none → sbtc_op c s ≡ (ok none, s)
  unfolding sbtc_op get_single_entry_with_status take_entry as_str
  sbtc_op-empty s h = rw h refl

  taken_count :
      (s : Tables) (row : Row)
      → IsValid s
      → Occurs row s.sbtc_ops
      → text_eq row.status (codes "new") ≡ true
      → suc (count (codes "new") (with_status s row (codes "pending")).sbtc_ops)
        ≡ count (codes "new") s.sbtc_ops
  unfolding text_eq
  taken_count s row v o n =
      let moved = count-replace (codes "new") (codes "pending") row s.sbtc_ops o v.distinct in
      ground (arith, moved)

  -- On tables whose keys are unique and whose rows are entries written down, and with hex and JSON
  -- that read back what they wrote, `sbtc_op` does not fail. Either no operation is new, and it
  -- returns `None` and changes nothing; or it returns the operation of a row that is new and before
  -- which no other new row comes in the order of height and text, makes that row pending, leaves
  -- one new row fewer, and the tables stay valid.
  pub sbtc_op-Dispensed :
      (s : Tables)
      → IsValid s
      → ((sbtc_op c s ≡ (ok none, s)) × (count (codes "new") s.sbtc_ops ≡ 0))
        ⊎ ((op : Op c) × (t : Tables) × (sbtc_op c s ≡ (ok (some op), t))
            × Dispensed s t op
            × IsValid t
            × (suc (count (codes "new") t.sbtc_ops) ≡ count (codes "new") s.sbtc_ops))
  sbtc_op-Dispensed s v = elim (Option-cases (first_with_status (codes "new") s.sbtc_ops)) [
    | inl h ↦ inl (
      sbtc_op-empty s h,
      no_new_count s.sbtc_ops (first_with_status-none (codes "new") s.sbtc_ops h),
    )
    | inr (row, h) ↦
        let (is_new, occurs, first) = first_with_status-IsFirst (codes "new") s.sbtc_ops row h in
        let e = All-Occurs row s.sbtc_ops occurs v.rows in
        inr (
          e.entry.op,
          with_status s row (codes "pending"),
          sbtc_op-row s row e.entry h e.written,
          record {
            row = row;
            occurs = occurs;
            is_new = is_new;
            first = first;
            reads = op_of_row e.entry row e.written;
            after = refl;
          },
          pending-IsValid s row v e,
          taken_count s row v occurs is_new,
        )
  ]

  abbrev keep : Option (Op c) → Queue (List (Op c)) → Queue (List (Op c))
  keep none rest = pure []
  keep (some op) rest = do ops ← rest; pure (op ∷ ops)

  -- A client that asks `n` times, or until nothing is new.
  unfoldable pub drain : ℕ → Queue (List (Op c))
  drain zero = pure []
  drain (suc n) = do next ← sbtc_op c; keep next (drain n)

  -- Asked as often as there are new rows, a valid queue hands out that many operations without an
  -- error, and then none is new.
  drain-all :
      (n : ℕ) (s : Tables)
      → IsValid s
      → count (codes "new") s.sbtc_ops ≡ n
      → (ops : List (Op c)) × (t : Tables) × (drain n s ≡ (ok ops, t))
        × (length ops ≡ n)
        × (count (codes "new") t.sbtc_ops ≡ 0)
        × (sbtc_op c t ≡ (ok none, t))
  unfolding drain
  drain-all zero s v h = elim (sbtc_op-Dispensed s v) [
    | inl (e, none_new) ↦ ([], s, refl, refl, h, e)
    | inr (op, t, e, d, v', one) ↦ absurd (omega (arith, one, h))
  ]
  drain-all (suc n) s v h = elim (sbtc_op-Dispensed s v) [
    | inl (e, none_new) ↦ absurd (omega (arith, none_new, h))
    | inr (op, t, e, d, v', one) ↦
        let (ops, u, e', long, done, last) = drain-all n t v' (omega (arith, one, h)) in
        (op ∷ ops, u, rw (e, e') refl, ap suc long, done, last)
  ]
