-- ===== src/SignerApi/Vote.antt =====
-- stacks-signer-api/src/vote.rs and transaction.rs: votes, transactions and their texts.
use core_eng.Prelude.{ℕ, List, Option, none, some, Text, codes, text_eq, if◌then◌else◌, ◌≡◌, refl}

pub data VoteChoice : Type 0 where
  approve reject : VoteChoice

pub data VoteMechanism : Type 0 where
  auto manual : VoteMechanism

pub data VoteStatus : Type 0 where
  pending approved rejected no_consensus : VoteStatus

pub record VoteTally : Type 0 where
  pub target_consensus : ℕ
  pub current_consensus : ℕ
  pub vote_status : VoteStatus

pub record VoteRequest : Type 0 where
  pub txid : Text
  pub signing_delegator : Text
  pub vote_choice : VoteChoice

pub record VoteResponse : Type 0 where
  pub vote_choice : VoteChoice
  pub vote_tally : VoteTally

pub record Vote : Type 0 where
  pub txid : Text
  pub vote_tally : VoteTally
  pub vote_choice : Option VoteChoice
  pub vote_mechanism : VoteMechanism

pub data TransactionAddress : Type 0 where
  bitcoin stacks : Text → TransactionAddress

pub data TransactionKind : Type 0 where
  deposit_reveal withdrawal_reveal withdrawal_fulfill wallet_handoff : TransactionKind

pub record Transaction : Type 0 where
  pub txid : Text
  pub transaction_kind : TransactionKind
  pub transaction_block_height : Option ℕ
  pub transaction_deadline_block_height : ℕ
  pub transaction_amount : ℕ
  pub transaction_fees : ℕ
  pub memo : List ℕ
  pub transaction_originator_address : TransactionAddress
  pub transaction_debit_address : TransactionAddress
  pub transaction_credit_address : TransactionAddress

pub record TransactionResponse : Type 0 where
  pub transaction : Transaction
  pub vote_tally : VoteTally
  pub vote_choice : Option VoteChoice
  pub vote_mechanism : VoteMechanism

-- `Display` in lower case, and `FromStr`, which takes exactly these texts.
unfoldable pub choice_to_string : VoteChoice → Text
choice_to_string approve = codes "approve"
choice_to_string reject = codes "reject"

unfoldable pub choice_from_str : Text → Option VoteChoice
choice_from_str s =
    if text_eq s (codes "approve")
    then some approve
    else if text_eq s (codes "reject")
    then some reject
    else none

unfoldable pub mechanism_to_string : VoteMechanism → Text
mechanism_to_string auto = codes "auto"
mechanism_to_string manual = codes "manual"

unfoldable pub mechanism_from_str : Text → Option VoteMechanism
mechanism_from_str s =
    if text_eq s (codes "auto")
    then some auto
    else if text_eq s (codes "manual")
    then some manual
    else none

unfoldable pub status_to_string : VoteStatus → Text
status_to_string pending = codes "pending"
status_to_string approved = codes "approved"
status_to_string rejected = codes "rejected"
status_to_string no_consensus = codes "noconsensus"

unfoldable pub status_from_str : Text → Option VoteStatus
status_from_str s =
    if text_eq s (codes "pending")
    then some pending
    else if text_eq s (codes "approved")
    then some approved
    else if text_eq s (codes "rejected")
    then some rejected
    else if text_eq s (codes "noconsensus")
    then some no_consensus
    else none

unfoldable pub kind_to_string : TransactionKind → Text
kind_to_string deposit_reveal = codes "depositreveal"
kind_to_string withdrawal_reveal = codes "withdrawalreveal"
kind_to_string withdrawal_fulfill = codes "withdrawalfulfill"
kind_to_string wallet_handoff = codes "wallethandoff"

unfoldable pub kind_from_str : Text → Option TransactionKind
kind_from_str s =
    if text_eq s (codes "depositreveal")
    then some deposit_reveal
    else if text_eq s (codes "withdrawalreveal")
    then some withdrawal_reveal
    else if text_eq s (codes "withdrawalfulfill")
    then some withdrawal_fulfill
    else if text_eq s (codes "wallethandoff")
    then some wallet_handoff
    else none

pub choice_from_str-to_string : (c : VoteChoice) → choice_from_str (choice_to_string c) ≡ some c
unfolding choice_to_string choice_from_str text_eq
choice_from_str-to_string approve = refl
choice_from_str-to_string reject = refl

pub mechanism_from_str-to_string :
    (m : VoteMechanism) → mechanism_from_str (mechanism_to_string m) ≡ some m
unfolding mechanism_to_string mechanism_from_str text_eq
mechanism_from_str-to_string auto = refl
mechanism_from_str-to_string manual = refl

pub status_from_str-to_string : (t : VoteStatus) → status_from_str (status_to_string t) ≡ some t
unfolding status_to_string status_from_str text_eq
status_from_str-to_string pending = refl
status_from_str-to_string approved = refl
status_from_str-to_string rejected = refl
status_from_str-to_string no_consensus = refl
