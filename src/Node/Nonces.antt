-- ===== src/Node/Nonces.antt =====
-- The nonces that `next_nonce` of stacks-coordinator/src/stacks_node/client.rs gives one after the other.
use core_eng.Prelude.{ℕ, zero, suc, ◌+◌, ◌%◌, ◌^◌, List, [], ◌∷◌, Text}
use core_eng.Prelude.Exec.{pure, ◌>>=◌}
use core_eng.Frost.Wsts.{Wsts}
use core_eng.Node.Api.{NodeApi, Net}
use core_eng.Node.Client.{Calls, next_nonce}

-- The numbers from `n` on as a u64 counts them.
abbrev pub counting : ℕ → ℕ → List ℕ
counting zero n = []
counting (suc k) n = (n % 2 ^ 64) ∷ counting k (n + 1)

module _ {w : Wsts} (api : NodeApi w) (net : Net api) (address : Text) where
  unfoldable pub take_nonces : ℕ → Calls api net (List ℕ)
  take_nonces zero = pure []
  take_nonces (suc k) = do
    nonce ← next_nonce api net address
    nonces ← take_nonces k
    pure (nonce ∷ nonces)
