-- ===== src/Peg/Process/Broadcast.antt =====
-- `try_broadcast_transaction` of stacks-coordinator/src/coordinator.rs, with the nonces of
-- stacks-coordinator/src/stacks_node/client.rs.
use core_eng.Prelude.{
  ℕ, zero, suc, ◌+◌, ◌%◌, ◌^◌, List, [], ◌∷◌, ◌++◌, Option, none, some, Text, ltb, if◌then◌else◌,
}
use core_eng.Prelude.Outcome.{Outcome, ok, err, panic}
use core_eng.Prelude.Exec.{Exec, raise, ◌>>=◌}

abbrev pub max_nonce_retries : ℕ
max_nonce_retries = 10

abbrev pub max_fee_retries : ℕ
max_fee_retries = 2

-- One attempt, and one more for each retry of the two kinds.
abbrev pub enough_attempts : ℕ
enough_attempts = 13

-- stacks-coordinator/src/stacks_node/client.rs `BroadcastError`, and the other errors by name.
pub data NodeError : Type 0 where
  fee_too_low : ℕ → ℕ → NodeError
  conflicting_nonce_in_mempool : NodeError
  other_error : Text → NodeError

pub data Error : Type 0 where
  max_nonce_retries_exceeded max_fee_retries_exceeded : Error
  stacks_node_error : NodeError → Error
  peg_wallet_error : Text → Error

-- What the coordinator is in the midst of. `answers` is how the node will answer the broadcasts to
-- come (it accepts when the list ends), `account` its answer for the account's nonce, and `sent` what
-- it was given, oldest first.
pub record Stacks (Tx : Type 0) : Type 0 where
  pub fee : ℕ
  pub next_nonce : Option ℕ
  pub account : Outcome NodeError ℕ
  pub answers : List (Option NodeError)
  pub sent : List Tx

module _ (Tx : Type 0) where
  abbrev pub Run {ℓ} : Type ℓ → Type ℓ
  Run A = Exec (Stacks Tx) Error A

  abbrev first_nonce : Outcome NodeError ℕ → Run ℕ
  first_nonce (ok nonce) s = (ok nonce, record s { next_nonce = some nonce })
  first_nonce (err e) s = (err (stacks_node_error e), s)
  first_nonce panic s = (panic, s)

  abbrev nonce_after : Option ℕ → Run ℕ
  nonce_after (some nonce) s =
      (ok ((nonce + 1) % 2 ^ 64), record s { next_nonce = some ((nonce + 1) % 2 ^ 64) })
  nonce_after none s = first_nonce s.account s

  -- `NodeClient::next_nonce`
  unfoldable pub next_nonce : Run ℕ
  next_nonce s = nonce_after s.next_nonce s

  abbrev answered : List (Option NodeError) → Tx → Run (Option NodeError)
  answered [] tx s = (ok none, record s { sent = s.sent ++ tx ∷ [] })
  answered (a ∷ later) tx s = (ok a, record s { answers = later; sent = s.sent ++ tx ∷ [] })

  -- The node's answer to a broadcast, to be matched on.
  unfoldable pub broadcast : Tx → Run (Option NodeError)
  broadcast tx s = answered s.answers tx s

  -- `build_transaction` of the wallet, from the nonce and the fee.
  unfoldable pub build_transaction : (ℕ → ℕ → Outcome Text Tx) → ℕ → Run Tx
  build_transaction build nonce s = elim (build nonce s.fee) [
    | ok tx ↦ (ok tx, s)
    | err e ↦ (err (peg_wallet_error e), s)
    | panic ↦ (panic, s)
  ]

  -- The arms of the `match`; `again` is the next turn of the loop.
  unfoldable pub on_answer :
      Option NodeError → ℕ → ℕ → ℕ → (ℕ → ℕ → ℕ → Run (Unit {0})) → Run (Unit {0})
  unfolding next_nonce
  on_answer none nonce nonces fees again s = (ok tt, s)
  on_answer (some conflicting_nonce_in_mempool) nonce nonces fees again s =
      if ltb max_nonce_retries (nonces + 1)
      then (err max_nonce_retries_exceeded, s)
      else (next_nonce >>= λ n. again n (nonces + 1) fees) s
  on_answer (some (fee_too_low expected actual)) nonce nonces fees again s =
      if ltb max_fee_retries (fees + 1)
      then (err max_fee_retries_exceeded, s)
      else again nonce nonces (fees + 1) (record s { fee = expected })
  on_answer (some (other_error e)) nonce nonces fees again s =
      (err (stacks_node_error (other_error e)), s)

  -- The loop, on fuel: it turns at most once more than there are retries of both kinds.
  unfoldable pub attempts : ℕ → (ℕ → ℕ → Outcome Text Tx) → ℕ → ℕ → ℕ → Run (Unit {0})
  unfolding build_transaction broadcast on_answer
  attempts zero build nonce nonces fees = raise max_nonce_retries_exceeded
  attempts (suc fuel) build nonce nonces fees = do
    tx ← build_transaction build nonce
    answer ← broadcast tx
    on_answer answer nonce nonces fees (attempts fuel build)

  unfoldable pub try_broadcast_transaction : (ℕ → ℕ → Outcome Text Tx) → Run (Unit {0})
  unfolding next_nonce attempts
  try_broadcast_transaction build = do nonce ← next_nonce; attempts enough_attempts build nonce 0 0
