-- ===== src/Peg/Queue/Lookup.antt =====
-- What a key finds in the tables of stacks-coordinator/src/peg_queue/sqlite_peg_queue.rs.
use core_eng.Prelude.{
  ◌%◌, ◌^◌, List, [], ◌∷◌, ◌++◌, ◌≡◌, refl, ap, arith, some, true, false, Text, text_eq_refl, All,
  subst,
}
use core_eng.Prelude.Outcome.{ok}
use core_eng.Prelude.Exec.{modify, bind-returns}
use core_eng.Peg.Queue.Defs.{
  Codec, CodecLaws, Entry, Row, Tables, has_key, without_key, replace, first_with_key, to_row,
  acknowledged,
}
use core_eng.Peg.Queue.Ops.{sqlite, insert, get_entry, acknowledge}
use core_eng.Peg.Queue.Table.{without_key-gone}
use core_eng.Peg.Queue.Polling.{sqlite-ok, to_row-keys}
use core_eng.Peg.Queue.Dispense.{from_row-to_row}

first_with_key-append :
    (x y : Text) (rows : List Row) (r : Row)
    → All (λ q. has_key x y q ≡ false) rows
    → has_key x y r ≡ true
    → first_with_key x y (rows ++ r ∷ []) ≡ some r
unfolding first_with_key
first_with_key-append x y [] r a h = rw h refl
first_with_key-append x y (q ∷ rows) r a h = rw a.0 (first_with_key-append x y rows r a.1 h)

first_with_key-replace :
    (r : Row) (rows : List Row) → first_with_key r.txid r.burn_header_hash (replace r rows) ≡ some r
unfolding replace
first_with_key-replace r rows =
    first_with_key-append r.txid r.burn_header_hash (without_key r.txid r.burn_header_hash rows) r
      (without_key-gone r.txid r.burn_header_hash rows)
      (ground (arith, text_eq_refl r.txid, text_eq_refl r.burn_header_hash))

module _ (c : Codec) (l : CodecLaws c) where
  -- The entry as the database holds it.
  abbrev pub stored_entry : Entry c → Entry c
  stored_entry e = record e { block_height = e.block_height % 2 ^ 64 }

  -- After an `insert` that succeeds, `get_entry` finds that very entry, status included, whatever
  -- the key had before, if hex and JSON read back what they wrote.
  pub get_entry-insert :
      (e : Entry c) (s t : Tables)
      → insert c e s ≡ (ok tt, t)
      → get_entry c e.txid e.burn_header_hash t ≡ (ok (stored_entry e), t)
  unfolding insert get_entry
  get_entry-insert e s t h =
      let put =
        λ (row : Row). modify (λ (x : Tables). record x { sbtc_ops = replace row x.sbtc_ops }) in
      let (row, s1, e1, h1) = bind-returns (sqlite (to_row c e)) put s t tt h in
      let written = sqlite-ok c (to_row c e) row s s1 e1 in
      let (k1, k2) = to_row-keys c e row written in
      let rows : replace row s1.sbtc_ops ≡ t.sbtc_ops = ap (λ r. r.1.sbtc_ops) h1 in
      let found : first_with_key (c.txid_to_hex e.txid) (c.header_to_hex e.burn_header_hash)
            t.sbtc_ops
          ≡ some row =
        subst
          (λ x.
            first_with_key (c.txid_to_hex e.txid) (c.header_to_hex e.burn_header_hash) x ≡ some row)
          rows
          (subst
            (λ x.
              first_with_key x (c.header_to_hex e.burn_header_hash) (replace row s1.sbtc_ops)
              ≡ some row)
            k1
            (subst (λ x. first_with_key row.txid x (replace row s1.sbtc_ops) ≡ some row) k2
              (first_with_key-replace row s1.sbtc_ops))) in
      rw (found, from_row-to_row c l e row written) refl

  -- `acknowledge` that succeeds leaves the entry of its key acknowledged and otherwise as it was.
  pub get_entry-acknowledge :
      (e : Entry c) (s t : Tables)
      → get_entry c e.txid e.burn_header_hash s ≡ (ok e, s)
      → acknowledge c e.txid e.burn_header_hash s ≡ (ok tt, t)
      → get_entry c e.txid e.burn_header_hash t
        ≡ (ok (stored_entry (record e { status = acknowledged })), t)
  unfolding acknowledge
  get_entry-acknowledge e s t h k =
      get_entry-insert (record e { status = acknowledged }) s t (rw h at k)
