-- ===== src/SignerApi/Database.antt =====
-- stacks-signer-api/src/db: the tables of the migrations and the statements on them. Foreign keys are
-- enforced, as sqlx turns them on; a failure of the database itself is not modelled.
use core_eng.Prelude.{
  ℕ, List, [], ◌∷◌, Option, none, some, Bool, true, false, Text, codes, if◌then◌else◌,
}
use core_eng.Prelude.Outcome.{Outcome, ok, err, ok_or, ◌>>=◌}
use core_eng.SignerApi.Table.{replace, first}
use core_eng.SignerApi.Vote.{
  VoteChoice, Vote, bitcoin, Transaction, choice_to_string, choice_from_str, mechanism_to_string,
  mechanism_from_str, status_to_string, status_from_str, kind_to_string, kind_from_str,
}

pub data Error : Type 0 where
  row_not_found foreign_key malformed_data secp256k1_error invalid_secret_key : Error

pub record VoteRow : Type 0 where
  pub txid : Text
  pub vote_status : Text
  pub vote_choice : Option Text
  pub vote_mechanism : Text
  pub target_consensus : ℕ
  pub current_consensus : ℕ

pub record TransactionRow : Type 0 where
  pub txid : Text
  pub transaction_kind : Text
  pub transaction_block_height : Option ℕ
  pub transaction_deadline_block_height : ℕ
  pub transaction_amount : ℕ
  pub transaction_fees : ℕ
  pub memo : List ℕ
  pub transaction_originator_address : Text
  pub transaction_debit_address : Text
  pub transaction_credit_address : Text

pub record ConfigRow : Type 0 where
  pub secret_key : Text
  pub auto_approve_max_amount : ℕ
  pub delegate_public_key : Text

-- The table config has the one row with the id 1.
pub record Tables : Type 0 where
  pub config : Option ConfigRow
  pub delegator_public_keys : List Text
  pub auto_deny_addresses : List Text
  pub transactions : List TransactionRow
  pub votes : List VoteRow

abbrev pub vote_key : VoteRow → Text
vote_key r = r.txid

abbrev pub transaction_key : TransactionRow → Text
transaction_key r = r.txid

abbrev pub Reads {ℓ} : Type ℓ → Type ℓ
Reads A = Outcome Error A

abbrev pub map_option {ℓ κ} : {A : Type ℓ} {B : Type κ} → (A → B) → Option A → Option B
map_option f none = none
map_option f (some a) = some (f a)

abbrev pub is_some {ℓ} : {A : Type ℓ} → Option A → Bool
is_some none = false
is_some (some a) = true

unfoldable pub vote_row : Vote → VoteRow
vote_row vote = record {
  txid = vote.txid;
  vote_status = status_to_string vote.vote_tally.vote_status;
  vote_choice = map_option choice_to_string vote.vote_choice;
  vote_mechanism = mechanism_to_string vote.vote_mechanism;
  target_consensus = vote.vote_tally.target_consensus;
  current_consensus = vote.vote_tally.current_consensus;
}

-- A vote must be on a transaction that is there.
unfoldable pub add_vote : Vote → Tables → Outcome Error (Unit {0}) × Tables
add_vote vote s =
    if is_some (first transaction_key vote.txid s.transactions)
    then (ok tt, record s { votes = replace vote_key (vote_row vote) s.votes })
    else (err foreign_key, s)

-- `.map(|choice| choice.parse()).transpose()?`
abbrev pub parse_choice : Option Text → Reads (Option VoteChoice)
parse_choice none = ok none
parse_choice (some text) = do choice ← ok_or (choice_from_str text) malformed_data; ok (some choice)

unfoldable pub vote_of : VoteRow → Reads Vote
vote_of row = do
  status ← ok_or (status_from_str row.vote_status) malformed_data
  choice ← parse_choice row.vote_choice
  mechanism ← ok_or (mechanism_from_str row.vote_mechanism) malformed_data
  ok (record {
    txid = row.txid;
    vote_tally = record {
      target_consensus = row.target_consensus;
      current_consensus = row.current_consensus;
      vote_status = status;
    };
    vote_choice = choice;
    vote_mechanism = mechanism;
  })

unfoldable pub get_vote_by_id : Text → Tables → Reads Vote
unfolding vote_of
get_vote_by_id txid s = do row ← ok_or (first vote_key txid s.votes) row_not_found; vote_of row

-- The columns of the addresses are left empty.
unfoldable pub transaction_row : Transaction → TransactionRow
transaction_row tx = record {
  txid = tx.txid;
  transaction_kind = kind_to_string tx.transaction_kind;
  transaction_block_height = tx.transaction_block_height;
  transaction_deadline_block_height = tx.transaction_deadline_block_height;
  transaction_amount = tx.transaction_amount;
  transaction_fees = tx.transaction_fees;
  memo = tx.memo;
  transaction_originator_address = [];
  transaction_debit_address = [];
  transaction_credit_address = [];
}

-- The row of the trigger add_empty_vote.
abbrev pub empty_vote : Text → VoteRow
empty_vote txid = record {
  txid = txid;
  vote_status = codes "pending";
  vote_choice = none;
  vote_mechanism = codes "manual";
  target_consensus = 70;
  current_consensus = 0;
}

-- Where REPLACE takes away a row, the row of its vote goes with it (ON DELETE CASCADE); of a vote
-- whose transaction is missing the trigger leaves the row.
abbrev pub votes_after : Text → Tables → List VoteRow
votes_after txid s =
    if is_some (first transaction_key txid s.transactions)
    then replace vote_key (empty_vote txid) s.votes
    else if is_some (first vote_key txid s.votes)
    then s.votes
    else replace vote_key (empty_vote txid) s.votes

unfoldable pub add_transaction : Transaction → Tables → Outcome Error (Unit {0}) × Tables
unfolding transaction_row
add_transaction tx s = (
  ok tt,
  record s {
    transactions = replace transaction_key (transaction_row tx) s.transactions;
    votes = votes_after tx.txid s;
  },
)

unfoldable pub transaction_of : TransactionRow → Reads Transaction
transaction_of row = do
  kind ← ok_or (kind_from_str row.transaction_kind) malformed_data
  ok (record {
    txid = row.txid;
    transaction_kind = kind;
    transaction_block_height = row.transaction_block_height;
    transaction_deadline_block_height = row.transaction_deadline_block_height;
    transaction_amount = row.transaction_amount;
    transaction_fees = row.transaction_fees;
    memo = row.memo;
    transaction_originator_address = bitcoin row.transaction_originator_address;
    transaction_debit_address = bitcoin row.transaction_debit_address;
    transaction_credit_address = bitcoin row.transaction_credit_address;
  })

-- `.map(…).collect()`
unfoldable pub collect_rows {ℓ} :
    {R : Type ℓ} {A : Type 0} → (R → Reads A) → List R → Reads (List A)
collect_rows f [] = ok []
collect_rows f (row ∷ rows) = do x ← f row; xs ← collect_rows f rows; ok (x ∷ xs)

unfoldable pub get_transactions : Tables → Reads (List Transaction)
unfolding collect_rows transaction_of
get_transactions s = collect_rows transaction_of s.transactions

unfoldable pub get_transaction_by_id : Text → Tables → Reads Transaction
unfolding transaction_of
get_transaction_by_id txid s = do
  row ← ok_or (first transaction_key txid s.transactions) row_not_found
  transaction_of row
