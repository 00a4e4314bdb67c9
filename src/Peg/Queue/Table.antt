-- ===== src/Peg/Queue/Table.antt =====
-- The table of operations of stacks-coordinator/src/peg_queue/sqlite_peg_queue.rs: keys are unique,
-- and each row is an entry written down.
use core_eng.Prelude.{
  ℕ, suc, ◌+◌, List, [], ◌∷◌, ◌++◌, ◌≡◌, refl, arith, Bool, true, false, Text, text_eq,
  text_eq_refl, if◌then◌else◌, All, All-append,
}
use core_eng.Peg.Queue.Defs.{Row, has_key, without_key, replace}
use core_eng.Peg.Queue.Order.{Occurs, here, there}

-- No two rows have the same primary key.
abbrev pub AreDistinct : List Row → Type 0
AreDistinct [] = Unit
AreDistinct (r ∷ rows) =
    All (λ q. has_key r.txid r.burn_header_hash q ≡ false) rows × AreDistinct rows

unfoldable pub count : Text → List Row → ℕ
count status [] = 0
count status (r ∷ rows) =
    let rest = count status rows in if text_eq r.status status then suc rest else rest

without_key-absent :
    (t h : Text) (rows : List Row)
    → All (λ q. has_key t h q ≡ false) rows
    → without_key t h rows ≡ rows
unfolding without_key
without_key-absent t h [] a = refl
without_key-absent t h (r ∷ rows) a = ground (arith, without_key-absent t h rows a.1)

text_eq_sym : (s t : Text) → text_eq s t ≡ text_eq t s
unfolding text_eq
text_eq_sym [] [] = refl
text_eq_sym [] (y ∷ ys) = refl
text_eq_sym (x ∷ xs) [] = refl
text_eq_sym (x ∷ xs) (y ∷ ys) = ground (arith, text_eq_sym xs ys)

has_key_refl : (r : Row) → has_key r.txid r.burn_header_hash r ≡ true
has_key_refl r = ground (arith, text_eq_refl r.txid, text_eq_refl r.burn_header_hash)

pub without_key-All :
    (P : Row → Type 0) (t h : Text) (rows : List Row) → All P rows → All P (without_key t h rows)
unfolding without_key
without_key-All P t h [] a = tt
without_key-All P t h (r ∷ rows) a = go (has_key t h r) (without_key-All P t h rows a.1)
  where
    go :
        (b : Bool)
        → All P (without_key t h rows)
        → All P (if b then without_key t h rows else r ∷ without_key t h rows)
    go true k = k
    go false k = (a.0, k)

has_key-sym :
    (r q : Row)
    → has_key r.txid r.burn_header_hash q ≡ false
    → has_key q.txid q.burn_header_hash r ≡ false
has_key-sym r q h =
    ground (arith, text_eq_sym r.txid q.txid, text_eq_sym r.burn_header_hash q.burn_header_hash)

Occurs-key :
    (q row : Row) (rows : List Row)
    → Occurs row rows
    → All (λ x. has_key q.txid q.burn_header_hash x ≡ false) rows
    → has_key row.txid row.burn_header_hash q ≡ false
Occurs-key q row _ here a = has_key-sym q row a.0
Occurs-key q row _ (there {rows = rows} o) a = Occurs-key q row rows o a.1

pub without_key-gone :
    (t h : Text) (rows : List Row) → All (λ q. has_key t h q ≡ false) (without_key t h rows)
unfolding without_key
without_key-gone t h [] = tt
without_key-gone t h (r ∷ rows) = ground (arith, without_key-gone t h rows)

pub count-append :
    (status : Text) (rows : List Row) (r : Row)
    → count status (rows ++ r ∷ []) ≡ count status rows + (if text_eq r.status status then 1 else 0)
unfolding count
count-append status [] r = ground arith
count-append status (q ∷ rows) r = ground (arith, count-append status rows r)

pub without_key-AreDistinct :
    (t h : Text) (rows : List Row) → AreDistinct rows → AreDistinct (without_key t h rows)
unfolding without_key
without_key-AreDistinct t h [] d = tt
without_key-AreDistinct t h (r ∷ rows) d = ground (
  arith,
  without_key-AreDistinct t h rows d.1,
  without_key-All (λ q. has_key r.txid r.burn_header_hash q ≡ false) t h rows d.0,
)

-- A key that is free can be added at the end.
append-AreDistinct :
    (r : Row) (rows : List Row)
    → All (λ q. has_key r.txid r.burn_header_hash q ≡ false) rows
    → AreDistinct rows
    → AreDistinct (rows ++ r ∷ [])
append-AreDistinct r [] a d = (tt, tt)
append-AreDistinct r (q ∷ rows) a d = (
  All-append (λ x. has_key q.txid q.burn_header_hash x ≡ false) rows (r ∷ []) d.0
      (has_key-sym r q a.0, tt),
  append-AreDistinct r rows a.1 d.1,
)

pub replace-AreDistinct :
    (r : Row) (rows : List Row) → AreDistinct rows → AreDistinct (replace r rows)
unfolding replace
replace-AreDistinct r rows d =
    append-AreDistinct r (without_key r.txid r.burn_header_hash rows)
      (without_key-gone r.txid r.burn_header_hash rows)
      (without_key-AreDistinct r.txid r.burn_header_hash rows d)

-- A row that is there is taken out once.
count-without :
    (status : Text) (row : Row) (rows : List Row)
    → Occurs row rows
    → AreDistinct rows
    → count status rows
      ≡ count status (without_key row.txid row.burn_header_hash rows)
        + (if text_eq row.status status then 1 else 0)
unfolding count without_key
count-without status row _ (here {rows}) d =
    ground (arith, has_key_refl row, without_key-absent row.txid row.burn_header_hash rows d.0)
count-without status row _ (there {q} {rows} o) d =
    let other = Occurs-key q row rows o d.0 in ground (arith, count-without status row rows o d.1)

-- Rewriting a row under another status moves it from one count to the other.
pub count-replace :
    (status status' : Text) (row : Row) (rows : List Row)
    → Occurs row rows
    → AreDistinct rows
    → count status (replace (record row { status = status' }) rows)
        + (if text_eq row.status status then 1 else 0)
      ≡ count status rows + (if text_eq status' status then 1 else 0)
unfolding replace
count-replace status status' row rows o d =
    let out = count-without status row rows o d in
    let inn =
      count-append status (without_key row.txid row.burn_header_hash rows)
        (record row { status = status' }) in
    omega (arith, out, inn)
