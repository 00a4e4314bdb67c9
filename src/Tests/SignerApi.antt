-- ===== src/Tests/SignerApi.antt =====
-- stacks-signer-api at concrete inputs: one transaction with a pending vote, and keys that are numbers.
use core_eng.Prelude.{ℕ, ◌*◌, ◌≤◌, ◌≡◌, List, [], ◌∷◌, some, none, Text, codes, arith, take, length}
use core_eng.SignerApi.Table.{first}
use core_eng.SignerApi.Vote.{approve, reject, VoteRequest, Vote, VoteChoice, pending, manual}
use core_eng.SignerApi.Database.{Tables, TransactionRow, vote_key, empty_vote, add_vote}
use core_eng.SignerApi.Settings.{Secp}
use core_eng.SignerApi.Routes.{Request, vote_request, transactions_request, config_request, serve}
use core_eng.SignerApi.Casting.{accepted, choice_in, serve-once}
use core_eng.SignerApi.Pagination.{pages_to, pages_to-take}
use core_eng.SignerApi.Race.{Server}
use core_eng.Tests.Toy.{single}

abbrev secp : Secp
secp = record {
  SecretKey = ℕ;
  PublicKey = ℕ;
  secret_bytes = λ k. k ∷ [];
  secret_from_slice = single;
  public_to_string = λ k. k ∷ [];
  public_from_str = single;
  public_of = λ k. k;
  hex_encode = λ bytes. bytes;
  hex_decode = λ text. some text;
}

abbrev txid : Text
txid = codes "a"

abbrev row : TransactionRow
row = record {
  txid = txid;
  transaction_kind = codes "depositreveal";
  transaction_block_height = none;
  transaction_deadline_block_height = 9;
  transaction_amount = 5;
  transaction_fees = 1;
  memo = [];
  transaction_originator_address = [];
  transaction_debit_address = [];
  transaction_credit_address = [];
}

abbrev tables : Tables
tables = record {
  config = none;
  delegator_public_keys = [];
  auto_deny_addresses = [];
  transactions = row ∷ [];
  votes = empty_vote txid ∷ [];
}

abbrev approval : VoteRequest
approval = record { txid = txid; signing_delegator = codes "x"; vote_choice = approve }

abbrev rejection : VoteRequest
rejection = record { txid = txid; signing_delegator = codes "y"; vote_choice = reject }

abbrev requests : List (Request secp)
requests =
    vote_request approval
    ∷ transactions_request (record { page = some 1; limit = none; status = none })
    ∷ vote_request rejection
    ∷ config_request
    ∷ []

-- The approval is taken, and the rejection is a conflict.
serve-once_example :
    (accepted txid requests (serve secp requests tables).0 ≤ 1)
    × (accepted txid requests (serve secp requests tables).0 ≡ 0
        → first vote_key txid (serve secp requests tables).1.votes
          ≡ first vote_key txid tables.votes)
    × ((choice : Text)
        → choice_in txid tables ≡ some choice
        → accepted txid requests (serve secp requests tables).0 ≡ 0)
serve-once_example = serve-once secp txid requests tables

abbrev three : List ℕ
three = 7 ∷ 8 ∷ 9 ∷ []

pages_to-take_example :
    (pages_to 2 2 three ≡ take (2 * 2) three) × (length three ≤ 2 * 2 → pages_to 2 2 three ≡ three)
pages_to-take_example = pages_to-take 2 2 three (ground arith) (ground arith) (ground arith)

abbrev counted : VoteChoice → Vote
counted choice = record {
  txid = txid;
  vote_tally = record { target_consensus = 70; current_consensus = 1; vote_status = pending };
  vote_choice = some choice;
  vote_mechanism = manual;
}

abbrev start : Server
start = record { tables = tables; waiting = [] }

abbrev approved : Server
approved = record { tables = (add_vote (counted approve) tables).1; waiting = counted reject ∷ [] }
