-- ===== src/Node/Client.antt =====
-- stacks-coordinator/src/stacks_node/client.rs. The client's own state is the next nonce; the node's
-- answers are a parameter.
use core_eng.Prelude.{
  ℕ, zero, suc, ◌+◌, ◌%◌, ◌^◌, ltb, List, [], ◌∷◌, ◌++◌, Option, none, some, Text, codes, lookup,
  if◌then◌else◌, Map, insert,
}
use core_eng.Prelude.Outcome.{Outcome, ok, err, panic, ok_or}
use core_eng.Prelude.Exec.{Exec, pure, raise, lift, modify, ◌>>=◌, ◌>>◌}
use core_eng.Node.Read.{
  NodeClient, Reads, and_then, read_value, num_signers, get_response, account_nonce,
}
use core_eng.Frost.Wsts.{Wsts}
use core_eng.Frost.Messages.{PublicKeys}
use core_eng.Node.Api.{NodeApi, StacksNodeError, no_signer_data, malformed_clarity_value, Net}

-- `try_into().unwrap()` from u128 to u32
unfoldable pub as_u32 : {E : Type 0} → ℕ → Outcome E ℕ
as_u32 n = if ltb n 4294967296 then ok n else panic

module _ {w : Wsts} (api : NodeApi w) (net : Net api) where
  open w use {PublicKey}
  open api use {
    Json, null, get_field, as_str, as_u64, as_bool, show_json, Value, from_hex, as_uint,
    as_optional, as_tuple, as_buffer, as_list, show_uint, public_key_from, XOnlyPublicKey,
    x_only_from, StacksTransaction, serialize,
  }
  open net use {join_url, attempts, call_read_url, post}

  -- The two maps that signer_data fills.
  pub record Signers : Type 0 where
    pub public_keys : PublicKeys w
    pub signer_key_ids : Map (List ℕ)

  abbrev pub no_keys : PublicKeys w
  no_keys = record { signers = []; key_ids = [] }

  abbrev pub no_signers : Signers
  no_signers = record { public_keys = no_keys; signer_key_ids = [] }

  abbrev add_key_id : ℕ → PublicKey → Signers → Signers
  add_key_id k key s = record s {
    public_keys = record s.public_keys { key_ids = insert k key s.public_keys.key_ids };
  }

  abbrev add_signer : ℕ → PublicKey → Signers → Signers
  add_signer n key s = record s {
    public_keys = record s.public_keys { signers = insert n key s.public_keys.signers };
  }

  -- Over the maps that are passed by `&mut`.
  abbrev pub Fills : Type 0 → Type 0
  Fills A = Exec Signers (StacksNodeError api) A

  -- Over the client.
  abbrev pub Calls : Type 0 → Type 0
  Calls A = Exec NodeClient (StacksNodeError api) A

  -- The loop over the key ids that the contract lists for a signer.
  unfoldable pub add_key_ids : Text → Value → PublicKey → List Value → Fills (List ℕ)
  add_key_ids function_name signer_data key [] = pure []
  add_key_ids function_name signer_data key (v ∷ vs) = do
    key_id ← lift (ok_or (as_uint v) (malformed_clarity_value function_name signer_data))
    k ← lift (as_u32 key_id)
    modify (add_key_id k key)
    ks ← add_key_ids function_name signer_data key vs
    pure (k ∷ ks)

  -- `if let Some(Sequence(List(key_ids)))`: nothing is done without such a list.
  unfoldable pub add_signer_key_ids :
      Text → Value → ℕ → PublicKey → Option (List Value) → Fills (Unit {0})
  add_signer_key_ids function_name signer_data id key none = pure tt
  add_signer_key_ids function_name signer_data id key (some vs) = do
    ks ← add_key_ids function_name signer_data key vs
    n ← lift (as_u32 id)
    modify (λ s. record s { signer_key_ids = insert n ks s.signer_key_ids })

  -- The arms of `if let Optional(optional_data)`, and what the optional holds.
  unfoldable pub on_signer_tuple :
      Text → Value → ℕ → Option (List (Text × Value)) → Fills (Unit {0})
  on_signer_tuple function_name signer_data id none = raise (no_signer_data id)
  on_signer_tuple function_name signer_data id (some entries) = do
    bytes ← lift (
        ok_or (and_then (lookup (codes "public-key") entries) as_buffer)
          (malformed_clarity_value function_name signer_data))
    key ← lift (ok_or (public_key_from bytes) (malformed_clarity_value function_name signer_data))
    n ← lift (as_u32 id)
    modify (add_signer n key)
    add_signer_key_ids function_name signer_data id key
        (and_then (lookup (codes "key-ids") entries) as_list)

  unfoldable pub on_signer_optional : Text → Value → ℕ → Option (Option Value) → Fills (Unit {0})
  on_signer_optional function_name signer_data id none = pure tt
  on_signer_optional function_name signer_data id (some inner) =
      on_signer_tuple function_name signer_data id (and_then inner as_tuple)

  -- No branch returns before the error at the end.
  unfoldable pub signer_data : NodeClient → Text → ℕ → Fills (Unit {0})
  signer_data c sender id = do
    data_value ← lift (read_value api net c sender (codes "get-signer-data") (show_uint id ∷ []))
    on_signer_optional (codes "get-signer-data") data_value id (as_optional data_value)
    raise (malformed_clarity_value (codes "get-signer-data") data_value)

  -- `for id in 1..=total_signers`: how many are left, and the next.
  unfoldable pub all_signer_data : NodeClient → Text → ℕ → ℕ → Fills (Unit {0})
  all_signer_data c sender zero id = pure tt
  all_signer_data c sender (suc left) id = do
    signer_data c sender id
    all_signer_data c sender left (id + 1)

  unfoldable pub fill_signers : NodeClient → Text → Fills (Unit {0})
  fill_signers c sender = do
    total_signers ← lift (num_signers api net c sender)
    all_signer_data c sender total_signers 1

  -- `Ok(maps.…)` after the loop, over new maps.
  abbrev pub taken :
      {A : Type 0}
      → (Signers → A)
      → Outcome (StacksNodeError api) (Unit {0}) × Signers
      → Reads api net A
  taken f (ok done, s) = ok (f s)
  taken f (err e, s) = err e
  taken f (panic, s) = panic

  unfoldable pub public_keys : NodeClient → Text → Reads api net (PublicKeys w)
  public_keys c sender = taken (λ s. s.public_keys) (fill_signers c sender no_signers)

  unfoldable pub signer_key_ids : NodeClient → Text → Reads api net (Map (List ℕ))
  signer_key_ids c sender = taken (λ s. s.signer_key_ids) (fill_signers c sender no_signers)

  unfoldable pub ask_nonce : Text → Calls ℕ
  ask_nonce address = do
    response ← lift (get_response api net (codes "/v2/accounts/" ++ address))
    nonce ← lift (account_nonce api net address response)
    modify (λ c. record c { next_nonce = some nonce })
    pure nonce

  unfoldable pub nonce_after : Option ℕ → Text → Calls ℕ
  unfolding ask_nonce
  nonce_after none address = ask_nonce address
  nonce_after (some nonce) address = do
    modify (λ c. record c { next_nonce = some ((nonce + 1) % 2 ^ 64) })
    pure ((nonce + 1) % 2 ^ 64)

  unfoldable pub next_nonce : Text → Calls ℕ
  unfolding nonce_after
  next_nonce address c = nonce_after c.next_nonce address c
