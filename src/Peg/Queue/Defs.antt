-- ===== src/Peg/Queue/Defs.antt =====
-- The data of stacks-coordinator/src/peg_queue/mod.rs and sqlite_peg_queue.rs: entries, the two
-- tables, and the SQL statements on them. That the database itself fails is left out.
use core_eng.Prelude.{
  ℕ, ◌+◌, ◌%◌, ◌^◌, ◌≡◌, List, [], ◌∷◌, ◌++◌, Option, none, some, Bool, true, false, Text, text_eq,
  codes, ltb, ◌==◌, if◌then◌else◌, ◌&&◌,
}
use core_eng.Prelude.Outcome.{Outcome, ok, err, ok_or, ◌>>=◌}

pub data SbtcOp (PegInOp PegOutRequestOp : Type 0) : Type 0 where
  peg_in : PegInOp → SbtcOp PegInOp PegOutRequestOp
  peg_out_request : PegOutRequestOp → SbtcOp PegInOp PegOutRequestOp

-- blockstack_lib and serde_json: the operations of a burn block, hashes and their texts.
pub record Codec : Type 1 where
  pub Txid : Type 0
  pub BurnHeaderHash : Type 0
  pub PegInOp : Type 0
  pub PegOutRequestOp : Type 0
  pub in_txid : PegInOp → Txid
  pub in_header : PegInOp → BurnHeaderHash
  pub in_height : PegInOp → ℕ
  pub out_txid : PegOutRequestOp → Txid
  pub out_header : PegOutRequestOp → BurnHeaderHash
  pub out_height : PegOutRequestOp → ℕ
  pub txid_to_hex : Txid → Text
  pub txid_from_hex : Text → Option Txid
  pub header_to_hex : BurnHeaderHash → Text
  pub header_from_hex : Text → Option BurnHeaderHash
  pub op_to_json : SbtcOp PegInOp PegOutRequestOp → Option Text
  pub op_from_json : Text → Option (SbtcOp PegInOp PegOutRequestOp)

-- Hex and JSON read back what they wrote.
pub record CodecLaws (c : Codec) : Type 0 where
  pub txid : (t : c.Txid) → c.txid_from_hex (c.txid_to_hex t) ≡ some t
  pub header : (h : c.BurnHeaderHash) → c.header_from_hex (c.header_to_hex h) ≡ some h
  pub op :
      (o : SbtcOp c.PegInOp c.PegOutRequestOp) (j : Text)
      → c.op_to_json o ≡ some j
      → c.op_from_json j ≡ some o

pub data Error : Type 0 where
  query_returned_no_rows json_error hex_error : Error
  invalid_status_error : Text → Error

-- stacks-coordinator/src/stacks_node/mod.rs `Error`, as the queue tells its values apart.
pub data NodeError : Type 0 where
  unknown_block_height : ℕ → NodeError
  other_error : Text → NodeError

pub data PegQueueError : Type 0 where
  sqlite_peg_queue_error : Error → PegQueueError
  stacks_node_error : NodeError → PegQueueError

pub data Status : Type 0 where
  new pending acknowledged : Status

unfoldable pub as_str : Status → Text
as_str new = codes "new"
as_str pending = codes "pending"
as_str acknowledged = codes "acknowledged"

unfoldable pub from_str : Text → Outcome Error Status
from_str s =
    if text_eq s (codes "new")
    then ok new
    else if text_eq s (codes "pending")
    then ok pending
    else if text_eq s (codes "acknowledged")
    then ok acknowledged
    else err (invalid_status_error s)

-- A row of `sbtc_ops`. The height is kept as the 64 bits that stand for an i64.
pub record Row : Type 0 where
  pub txid : Text
  pub burn_header_hash : Text
  pub block_height : ℕ
  pub op : Text
  pub status : Text

pub record Tables : Type 0 where
  pub sbtc_ops : List Row
  pub last_processed : Option ℕ

-- What an i64 with these bits is ordered by.
abbrev pub signed_key : ℕ → ℕ
signed_key bits = (bits + 2 ^ 63) % 2 ^ 64

-- Texts compare as SQLite's BINARY collation does, by their bytes.
unfoldable pub text_before : Text → Text → Bool
text_before [] [] = false
text_before [] (y ∷ ys) = true
text_before (x ∷ xs) [] = false
text_before (x ∷ xs) (y ∷ ys) =
    let rest = text_before xs ys in if ltb x y then true else if x == y then rest else false

-- `ORDER BY block_height, op ASC`
unfoldable pub row_before : Row → Row → Bool
unfolding text_before
row_before r s =
    if ltb (signed_key r.block_height) (signed_key s.block_height)
    then true
    else if signed_key r.block_height == signed_key s.block_height
    then text_before r.op s.op
    else false

abbrev pub has_key : Text → Text → Row → Bool
has_key txid header r = text_eq r.txid txid && text_eq r.burn_header_hash header

-- `REPLACE INTO sbtc_ops`: a row with the same primary key goes.
unfoldable pub without_key : Text → Text → List Row → List Row
without_key txid header [] = []
without_key txid header (r ∷ rows) =
    let rest = without_key txid header rows in if has_key txid header r then rest else r ∷ rest

unfoldable pub replace : Row → List Row → List Row
unfolding without_key
replace r rows = without_key r.txid r.burn_header_hash rows ++ r ∷ []

-- The first row of `SELECT … WHERE status=?1 ORDER BY …`; of rows that tie, the oldest.
abbrev pub earlier : Row → Option Row → Row
earlier r none = r
earlier r (some s) = if row_before s r then s else r

unfoldable pub first_with_status : Text → List Row → Option Row
unfolding row_before
first_with_status status [] = none
first_with_status status (r ∷ rows) =
    let later = first_with_status status rows in
    if text_eq r.status status then some (earlier r later) else later

-- `SELECT … WHERE txid=?1 AND burn_header_hash=?2`
unfoldable pub first_with_key : Text → Text → List Row → Option Row
first_with_key txid header [] = none
first_with_key txid header (r ∷ rows) =
    let later = first_with_key txid header rows in if has_key txid header r then some r else later

module _ (c : Codec) where
  abbrev pub Op : Type 0
  Op = SbtcOp c.PegInOp c.PegOutRequestOp

  pub record Entry : Type 0 where
    pub burn_header_hash : c.BurnHeaderHash
    pub txid : c.Txid
    pub block_height : ℕ
    pub op : Op
    pub status : Status

  -- `Entry::from_row`
  unfoldable pub from_row : Row → Outcome Error Entry
  unfolding from_str
  from_row row = do
    txid ← ok_or (c.txid_from_hex row.txid) hex_error
    header ← ok_or (c.header_from_hex row.burn_header_hash) hex_error
    op ← ok_or (c.op_from_json row.op) json_error
    status ← from_str row.status
    ok (record {
      burn_header_hash = header;
      txid = txid;
      block_height = row.block_height;
      op = op;
      status = status;
    })

  -- The parameters of `insert`.
  unfoldable pub to_row : Entry → Outcome Error Row
  unfolding as_str
  to_row entry = do
    op ← ok_or (c.op_to_json entry.op) json_error
    ok (record {
      txid = c.txid_to_hex entry.txid;
      burn_header_hash = c.header_to_hex entry.burn_header_hash;
      block_height = entry.block_height % 2 ^ 64;
      op = op;
      status = as_str entry.status;
    })

  -- `From<PegInOp>` and `From<PegOutRequestOp>`
  unfoldable pub entry_of : Op → Entry
  entry_of (peg_in op) = record {
    burn_header_hash = c.in_header op;
    txid = c.in_txid op;
    block_height = c.in_height op;
    op = peg_in op;
    status = new;
  }
  entry_of (peg_out_request op) = record {
    burn_header_hash = c.out_header op;
    txid = c.out_txid op;
    block_height = c.out_height op;
    op = peg_out_request op;
    status = new;
  }
