-- ===== src/Peg/Queue/Polling.antt =====
-- What `poll` of stacks-coordinator/src/peg_queue/sqlite_peg_queue.rs has stored when it ends.
use core_eng.Prelude.{
  List, [], ◌∷◌, ◌++◌, ◌≡◌, refl, ap, arith, inl, inr, Bool, true, false, Text, ◌∙◌, text_eq_iff,
  text_eq_refl, if◌then◌else◌, All, subst, Bool-cases,
}
use core_eng.Prelude.Outcome.{Outcome, ok, err, panic, ok_or, bind-ok}
use core_eng.Prelude.Exec.{modify, for_each, bind-returns}
use core_eng.Prelude.Keeps.{Keeps, Preorder, bind-Keeps}
use core_eng.Peg.Queue.Defs.{
  Codec, Entry, Op, json_error, Error, NodeError, unknown_block_height, other_error, Row, Tables,
  has_key, without_key, replace, to_row, entry_of,
}
use core_eng.Peg.Queue.Ops.{Queue, sqlite, insert, insert_ops}

-- Whether a row has this primary key.
unfoldable pub queued : Text → Text → List Row → Bool
queued txid header [] = false
queued txid header (r ∷ rows) = if has_key txid header r then true else queued txid header rows

queued-append :
    (x y : Text) (rows : List Row) (r : Row)
    → queued x y (rows ++ r ∷ []) ≡ (if has_key x y r then true else queued x y rows)
unfolding queued
queued-append x y [] r = refl
queued-append x y (q ∷ rows) r = ground (arith, queued-append x y rows r)

has_key-same :
    (x y u v : Text) (r q : Row)
    → has_key x y q ≡ true
    → has_key u v q ≡ true
    → has_key u v r ≡ has_key x y r
has_key-same x y u v r q h k = ground (
  arith,
  text_eq_iff q.txid x,
  text_eq_iff q.txid u,
  text_eq_iff q.burn_header_hash y,
  text_eq_iff q.burn_header_hash v,
)

-- What goes for a new row's sake has that row's key.
queued-without :
    (x y : Text) (r : Row) (rows : List Row)
    → queued x y rows ≡ true
    → has_key x y r ≡ false
    → queued x y (without_key r.txid r.burn_header_hash rows) ≡ true
unfolding queued without_key
queued-without x y r [] h k = h
queued-without x y r (q ∷ rows) h k = ground (
  arith,
  queued-without x y r rows,
  has_key-same x y r.txid r.burn_header_hash r q,
  text_eq_refl r.txid,
  text_eq_refl r.burn_header_hash,
)

pub queued-replace :
    (x y : Text) (r : Row) (rows : List Row)
    → queued x y rows ≡ true
    → queued x y (replace r rows) ≡ true
unfolding replace
queued-replace x y r rows h = elim (Bool-cases (has_key x y r)) [
  | inl same ↦ queued-append x y (without_key r.txid r.burn_header_hash rows) r ∙ rw same refl
  | inr other ↦
      queued-append x y (without_key r.txid r.burn_header_hash rows) r
      ∙ rw other (queued-without x y r rows h other)
]

queued-new : (r : Row) (rows : List Row) → queued r.txid r.burn_header_hash (replace r rows) ≡ true
unfolding replace
queued-new r rows =
    queued-append r.txid r.burn_header_hash (without_key r.txid r.burn_header_hash rows) r
    ∙ ground (arith, text_eq_refl r.txid, text_eq_refl r.burn_header_hash)

module _ (c : Codec) where
  -- Every key that had a row has one afterwards.
  pub record Grows (s t : Tables) : Type 0 where
    pub keys : (x y : Text) → queued x y s.sbtc_ops ≡ true → queued x y t.sbtc_ops ≡ true
    pub last : t.last_processed ≡ s.last_processed

  Grows-refl : (s : Tables) → Grows s s
  Grows-refl s = record { keys = λ x y h. h; last = refl }

  Grows-trans : (s t u : Tables) → Grows s t → Grows t u → Grows s u
  Grows-trans s t u g h = record {
    keys = λ x y q. h.keys x y (g.keys x y q);
    last = h.last ∙ g.last;
  }

  -- The operation has a row, under its transaction id and block.
  abbrev pub IsQueued : Tables → Op c → Type 0
  IsQueued t op =
      queued (c.txid_to_hex (entry_of c op).txid) (c.header_to_hex (entry_of c op).burn_header_hash)
        t.sbtc_ops
      ≡ true

  insert-Grows : (e : Entry c) (s : Tables) → Grows s (insert c e s).1
  unfolding insert
  insert-Grows e s = go (to_row c e) refl
    where
      go : (r : Outcome Error Row) → to_row c e ≡ r → Grows s (insert c e s).1
      go (ok row) h = rw h (record { keys = λ x y. queued-replace x y row s.sbtc_ops; last = refl })
      go (err x) h = rw h (Grows-refl s)
      go panic h = rw h (Grows-refl s)

  pub sqlite-ok :
      (r : Outcome Error Row) (row : Row) (s t : Tables) → sqlite r s ≡ (ok row, t) → r ≡ ok row
  sqlite-ok (ok x) row s t h = ground arith
  sqlite-ok (err e) row s t h = absurd (ground arith)
  sqlite-ok panic row s t h = absurd (ground arith)

  pub to_row-keys :
      (e : Entry c) (row : Row)
      → to_row c e ≡ ok row
      → (row.txid ≡ c.txid_to_hex e.txid)
        × (row.burn_header_hash ≡ c.header_to_hex e.burn_header_hash)
  unfolding to_row
  to_row-keys e row h =
      let (j, k, h') = bind-ok (ok_or (c.op_to_json e.op) json_error) _ row h in ground arith

  insert-queues :
      (e : Entry c) (s t : Tables)
      → insert c e s ≡ (ok tt, t)
      → queued (c.txid_to_hex e.txid) (c.header_to_hex e.burn_header_hash) t.sbtc_ops ≡ true
  unfolding insert
  insert-queues e s t h =
      let put =
        λ (row : Row). modify (λ (x : Tables). record x { sbtc_ops = replace row x.sbtc_ops }) in
      let (row, s1, e1, h1) = bind-returns (sqlite (to_row c e)) put s t tt h in
      let (k1, k2) = to_row-keys e row (sqlite-ok (to_row c e) row s s1 e1) in
      let rows : replace row s1.sbtc_ops ≡ t.sbtc_ops = ap (λ r. r.1.sbtc_ops) h1 in
      subst (λ x. queued (c.txid_to_hex e.txid) (c.header_to_hex e.burn_header_hash) x ≡ true) rows
        (rw (← k1, ← k2) (queued-new row s1.sbtc_ops))

  insert_all : List (Op c) → Queue (Unit {0})
  insert_all ops = for_each (λ op. insert c (entry_of c op)) ops

  pub order : Preorder Grows
  order = record { here = Grows-refl; join = Grows-trans }

  insert_all-Grows : (ops : List (Op c)) → Keeps Grows (insert_all ops)
  unfolding insert_all for_each
  insert_all-Grows [] = record { at = Grows-refl }
  insert_all-Grows (op ∷ ops) =
      bind-Keeps Grows order (insert c (entry_of c op)) (λ u. insert_all ops)
        (record { at = insert-Grows (entry_of c op) }) λ u. insert_all-Grows ops

  insert_all-queues :
      (ops : List (Op c)) (s t : Tables) → insert_all ops s ≡ (ok tt, t) → All (IsQueued t) ops
  unfolding insert_all for_each
  insert_all-queues [] s t h = tt
  insert_all-queues (op ∷ ops) s t h =
      let (u, s1, e, rest) =
        bind-returns (insert c (entry_of c op)) (λ v. insert_all ops) s t tt h in
      let grown = subst (λ x. Grows s1 x.1) rest ((insert_all-Grows ops).at s1) in
      (grown.keys _ _ (insert-queues (entry_of c op) s s1 e), insert_all-queues ops s1 t rest)

  -- The node's answer for a block is dealt with: all its operations have rows, or the node does not
  -- know the block.
  abbrev pub IsCovered : Tables → Outcome NodeError (List (Op c)) → Type 0
  IsCovered t (ok ops) = All (IsQueued t) ops
  IsCovered t (err (unknown_block_height h)) = Unit
  IsCovered t (err (other_error e)) = ⊥
  IsCovered t panic = ⊥

  pub insert_ops-Grows : (a : Outcome NodeError (List (Op c))) → Keeps Grows (insert_ops c a)
  unfolding insert_ops insert_all
  insert_ops-Grows (ok ops) = record { at = (insert_all-Grows ops).at }
  insert_ops-Grows (err (unknown_block_height h)) = record { at = Grows-refl }
  insert_ops-Grows (err (other_error e)) = record { at = Grows-refl }
  insert_ops-Grows panic = record { at = Grows-refl }

  pub insert_ops-IsCovered :
      (a : Outcome NodeError (List (Op c))) (s t : Tables)
      → insert_ops c a s ≡ (ok tt, t)
      → IsCovered t a
  unfolding insert_ops insert_all
  insert_ops-IsCovered (ok ops) s t h = insert_all-queues ops s t h
  insert_ops-IsCovered (err (unknown_block_height x)) s t h = tt
  insert_ops-IsCovered (err (other_error e)) s t h = absurd (ground arith)
  insert_ops-IsCovered panic s t h = absurd (ground arith)

  All-queued :
      (ops : List (Op c)) (s t : Tables)
      → ((x y : Text) → queued x y s.sbtc_ops ≡ true → queued x y t.sbtc_ops ≡ true)
      → All (IsQueued s) ops
      → All (IsQueued t) ops
  All-queued [] s t g a = tt
  All-queued (op ∷ ops) s t g a = (g _ _ a.0, All-queued ops s t g a.1)

  pub IsCovered-grows :
      (a : Outcome NodeError (List (Op c))) (s t : Tables)
      → ((x y : Text) → queued x y s.sbtc_ops ≡ true → queued x y t.sbtc_ops ≡ true)
      → IsCovered s a
      → IsCovered t a
  IsCovered-grows (ok ops) s t g h = All-queued ops s t g h
  IsCovered-grows (err (unknown_block_height x)) s t g h = tt
  IsCovered-grows (err (other_error e)) s t g h = h
  IsCovered-grows panic s t g h = h
