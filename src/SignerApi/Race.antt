-- ===== src/SignerApi/Race.antt =====
-- Votes that are handled at the same time: the handler of stacks-signer-api/src/routes/vote.rs gives way
-- to others between its check and its write, since each statement on the database is awaited.
use core_eng.Prelude.{◌+◌, ◌%◌, ◌^◌, ◌≡◌, List, ◌∷◌, ◌++◌, some, Text, ◌⊎◌, inr, All}
use core_eng.SignerApi.Table.{first}
use core_eng.SignerApi.Vote.{VoteChoice, VoteRequest, Vote, choice_to_string}
use core_eng.SignerApi.Database.{Tables, VoteRow, vote_key, vote_row, add_vote}
use core_eng.SignerApi.Routes.{check_vote}

-- The tables, and the votes that have passed the checks and are not stored yet.
pub record Server : Type 0 where
  pub tables : Tables
  pub waiting : List Vote

-- A handler makes its checks, or one that has made them stores its vote.
pub data Step : Server → Server → Type 0 where
  checks :
      (q : VoteRequest) (s : Server) (w : Vote)
      → check_vote q s.tables ≡ inr w
      → Step s (record s { waiting = w ∷ s.waiting })
  stores :
      (before after : List Vote) (w : Vote) (s : Tables)
      → Step
          (record { tables = s; waiting = before ++ w ∷ after })
          (record { tables = (add_vote w s).1; waiting = before ++ after })

pub data Reaches (start : Server) : Server → Type 0 where
  here : Reaches start start
  later : {s t : Server} → Reaches start s → Step s t → Reaches start t

-- The row with one vote more.
pub record IsOneMore (row row' : VoteRow) : Type 0 where
  pub choice : VoteChoice
  pub chosen : row'.vote_choice ≡ some (choice_to_string choice)
  pub counted : row'.current_consensus ≡ (row.current_consensus + 1) % 2 ^ 64
  pub same_target : row'.target_consensus ≡ row.target_consensus

module _ (txid : Text) (row : VoteRow) where
  -- A vote on the transaction that waits makes one more of the first row.
  abbrev pub Waits : Vote → Type 0
  Waits w = w.txid ≡ txid → IsOneMore row (vote_row w)

  pub record IsKept (s : Server) : Type 0 where
    pub now : VoteRow
    pub found : first vote_key txid s.tables.votes ≡ some now
    pub at_most_once : (now ≡ row) ⊎ IsOneMore row now
    pub waits : All Waits s.waiting
