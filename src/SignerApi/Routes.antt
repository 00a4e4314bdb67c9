-- ===== src/SignerApi/Routes.antt =====
-- The handlers of stacks-signer-api/src/routes.
use core_eng.Prelude.{
  ℕ, ◌+◌, ◌%◌, ◌^◌, ◌==◌, List, [], ◌∷◌, Option, none, some, Bool, true, false, Text, ◌⊎◌, inl, inr,
  if◌then◌else◌, text_eq,
}
use core_eng.Prelude.Outcome.{Outcome, ok, err, panic}
use core_eng.SignerApi.Vote.{
  VoteChoice, VoteStatus, pending, VoteRequest, VoteResponse, Vote, Transaction,
  TransactionResponse, status_to_string,
}
use core_eng.SignerApi.Database.{
  Error, Tables, Reads, add_vote, get_vote_by_id, get_transactions as read_transactions,
  get_transaction_by_id as read_transaction,
}
use core_eng.SignerApi.Settings.{
  Secp, Config, update_config as write_config, get_config as read_config,
}
use core_eng.SignerApi.Pages.{paginate_items}

pub record TransactionQuery : Type 0 where
  pub page : Option ℕ
  pub limit : Option ℕ
  pub status : Option VoteStatus

-- A request as the filters of `all_routes` hand it to a handler.
pub data Request (secp : Secp) : Type 0 where
  vote_request : VoteRequest → Request secp
  transactions_request : TransactionQuery → Request secp
  transaction_request : Text → Request secp
  update_request : Config secp → Request secp
  config_request : Request secp

-- A status alone, or 200 with a body.
pub data Reply (secp : Secp) : Type 0 where
  status_code : ℕ → Reply secp
  vote_reply : VoteResponse → Reply secp
  transaction_reply : TransactionResponse → Reply secp
  transactions_reply : List TransactionResponse → Reply secp
  config_reply : Config secp → Reply secp

-- `VoteStatus` derives its equality.
abbrev pub same_status : VoteStatus → VoteStatus → Bool
same_status a b = text_eq (status_to_string a) (status_to_string b)

abbrev pub response_of : Transaction → Vote → TransactionResponse
response_of tx vote = record {
  transaction = tx;
  vote_tally = vote.vote_tally;
  vote_choice = vote.vote_choice;
  vote_mechanism = vote.vote_mechanism;
}

-- The filter by status.
abbrev pub wanted : Option VoteStatus → Vote → Bool
wanted none vote = true
wanted (some status) vote = same_status vote.vote_tally.vote_status status

-- The vote with the choice, and one more for the consensus.
unfoldable pub cast : VoteChoice → Vote → Vote
cast choice vote = record vote {
  vote_choice = some choice;
  vote_tally = record vote.vote_tally {
    current_consensus = (vote.vote_tally.current_consensus + 1) % 2 ^ 64;
  };
}

-- The checks before `add_vote`: the status that the handler returns, or the vote to be stored.
abbrev pub check_pending : VoteChoice → Vote → Option VoteChoice → ℕ ⊎ Vote
check_pending choice vote (some earlier) = inl 409
check_pending choice vote none =
    if same_status vote.vote_tally.vote_status pending then inr (cast choice vote) else inl 403

abbrev pub check_found : VoteChoice → Reads Vote → ℕ ⊎ Vote
check_found choice (ok vote) = check_pending choice vote vote.vote_choice
check_found choice (err e) = inl 404
check_found choice panic = inl 404

unfoldable pub check_vote : VoteRequest → Tables → ℕ ⊎ Vote
check_vote request s = check_found request.vote_choice (get_vote_by_id request.txid s)

module _ (secp : Secp) where
  abbrev pub stored : VoteChoice → Vote → Outcome Error (Unit {0}) × Tables → Reply secp × Tables
  stored choice vote (ok done, s) =
      (vote_reply (record { vote_choice = choice; vote_tally = vote.vote_tally }), s)
  stored choice vote (err e, s) = (status_code 500, s)
  stored choice vote (panic, s) = (status_code 500, s)

  abbrev pub store_vote : VoteChoice → ℕ ⊎ Vote → Tables → Reply secp × Tables
  store_vote choice (inl code) s = (status_code code, s)
  store_vote choice (inr vote) s = stored choice vote (add_vote vote s)

  unfoldable pub vote : VoteRequest → Tables → Reply secp × Tables
  vote request s = store_vote request.vote_choice (check_vote request s) s

  abbrev transaction_with : Transaction → Reads Vote → Reply secp
  transaction_with tx (ok vote) = transaction_reply (response_of tx vote)
  transaction_with tx (err e) = status_code 500
  transaction_with tx panic = status_code 500

  abbrev found_transaction : Text → Tables → Reads Transaction → Reply secp
  found_transaction id s (ok tx) = transaction_with tx (get_vote_by_id id s)
  found_transaction id s (err e) = status_code 404
  found_transaction id s panic = status_code 404

  unfoldable pub get_transaction_by_id : Text → Tables → Reply secp
  get_transaction_by_id id s = found_transaction id s (read_transaction id s)

  -- The loop over the transactions; without a vote for one of them there is no list.
  unfoldable pub filtered :
      Option VoteStatus → Tables → List Transaction → Option (List TransactionResponse)
  filtered status s [] = some []
  filtered status s (tx ∷ txs) =
      let rest = filtered status s txs in
      elim (get_vote_by_id tx.txid s) [
        | ok vote ↦ elim rest [
          | none ↦ none
          | some responses ↦
              some (if wanted status vote then response_of tx vote ∷ responses else responses)
        ]
        | err e ↦ none
        | panic ↦ none
      ]

  abbrev list_reply : TransactionQuery → Option (List TransactionResponse) → Reply secp
  list_reply query none = status_code 500
  list_reply query (some responses) =
      transactions_reply (paginate_items responses query.page query.limit)

  abbrev list_transactions : TransactionQuery → Tables → Reads (List Transaction) → Reply secp
  list_transactions query s (ok txs) = list_reply query (filtered query.status s txs)
  list_transactions query s (err e) = status_code 500
  list_transactions query s panic = status_code 500

  abbrev is_zero : Option ℕ → Bool
  is_zero none = false
  is_zero (some page) = page == 0

  unfoldable pub get_transactions : TransactionQuery → Tables → Reply secp
  unfolding filtered
  get_transactions query s =
      if is_zero query.page
      then status_code 400
      else list_transactions query s (read_transactions s)

  abbrev updated : Outcome Error (Unit {0}) × Tables → Reply secp × Tables
  updated (ok done, s) = (status_code 200, s)
  updated (err e, s) = (status_code 404, s)
  updated (panic, s) = (status_code 404, s)

  unfoldable pub update_config : Config secp → Tables → Reply secp × Tables
  update_config config s = updated (write_config secp config s)

  abbrev config_with : Reads (Config secp) → Reply secp
  config_with (ok config) = config_reply config
  config_with (err e) = status_code 404
  config_with panic = status_code 404

  unfoldable pub get_config : Tables → Reply secp
  get_config s = config_with (read_config secp s)

  -- `all_routes`
  unfoldable pub handle : Request secp → Tables → Reply secp × Tables
  handle (vote_request request) s = vote request s
  handle (transactions_request query) s = (get_transactions query s, s)
  handle (transaction_request id) s = (get_transaction_by_id id s, s)
  handle (update_request config) s = update_config config s
  handle config_request s = (get_config s, s)

  -- Requests that are handled one after the other.
  unfoldable pub serve : List (Request secp) → Tables → List (Reply secp) × Tables
  serve [] s = ([], s)
  serve (r ∷ rs) s =
      let reply = handle r s in let later = serve rs reply.1 in (reply.0 ∷ later.0, later.1)
