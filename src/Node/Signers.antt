-- ===== src/Node/Signers.antt =====
-- Reading the signers of the sBTC contract, and the nonces, with
-- stacks-coordinator/src/stacks_node/client.rs.
use core_eng.Prelude.{
  ℕ, zero, suc, ◌+◌, ◌≡◌, refl, sym, ap, ◌∙◌, List, [], ◌∷◌, Text, arith, codes, ◌↔◌, Map,
}
use core_eng.Prelude.Outcome.{Outcome, ok, err, panic, ok-injective}
use core_eng.Prelude.Exec.{lift, raise, ◌>>◌, Fails, bind-Fails, raise-Fails, bind-returns}
use core_eng.Frost.Wsts.{Wsts}
use core_eng.Frost.Messages.{PublicKeys}
use core_eng.Node.Api.{malformed_clarity_value, StacksNodeError, NodeApi, Net}
use core_eng.Node.Read.{NodeClient, num_signers, read_value}
use core_eng.Node.Client.{
  on_signer_optional, Signers, no_keys, no_signers, signer_data, all_signer_data, fill_signers,
  taken, public_keys, signer_key_ids,
}

module _ {w : Wsts} (api : NodeApi w) (net : Net api) (c : NodeClient) (sender : Text) where
  -- A call of signer_data ends with an error or a panic, whatever the contract answers.
  signer_data-Fails : (id : ℕ) → Fails (signer_data api net c sender id)
  unfolding signer_data
  signer_data-Fails id =
      let malformed : api.Value → StacksNodeError api =
        malformed_clarity_value (codes "get-signer-data") in
      let fill = λ (v : api.Value).
        on_signer_optional api net (codes "get-signer-data") v id (api.as_optional v) in
      bind-Fails
        (lift (read_value api net c sender (codes "get-signer-data") (api.show_uint id ∷ [])))
        (λ v. fill v >> raise (malformed v))
        (λ v. bind-Fails (fill v) (λ u. raise (malformed v)) (λ u. raise-Fails (malformed v)))

  all_signer_data-returns :
      (left id : ℕ) (s t : Signers api net)
      → all_signer_data api net c sender left id s ≡ (ok tt, t)
      → (left ≡ 0) × (s ≡ t)
  unfolding all_signer_data
  all_signer_data-returns zero id s t h = (refl, ap (λ r. r.1) h)
  all_signer_data-returns (suc left) id s t h =
      let (u, s1, h1, k1) =
        bind-returns (signer_data api net c sender id)
          (λ u. all_signer_data api net c sender left (id + 1)) s t tt h in
      absurd (signer_data-Fails id s tt (ap (λ r. r.0) h1))

  fill_signers-returns :
      (s t : Signers api net)
      → fill_signers api net c sender s ≡ (ok tt, t)
      → (num_signers api net c sender ≡ ok 0) × (s ≡ t)
  unfolding fill_signers
  fill_signers-returns s t h =
      let (total, s1, h1, k1) =
        bind-returns (lift (num_signers api net c sender))
          (λ total. all_signer_data api net c sender total 1) s t tt h in
      let (none_left, same) = all_signer_data-returns total 1 s1 t k1 in
      (ap (λ r. r.0) h1 ∙ ap (λ n. ok n) none_left, ap (λ r. r.1) h1 ∙ same)

  fill_signers-none :
      (s : Signers api net)
      → num_signers api net c sender ≡ ok 0
      → fill_signers api net c sender s ≡ (ok tt, s)
  unfolding fill_signers all_signer_data
  fill_signers-none s h = rw h refl

  taken-ok :
      {A : Type 0} (f : Signers api net → A)
      (r : Outcome (StacksNodeError api) (Unit {0}) × Signers api net) (x : A)
      → taken api net f r ≡ ok x
      → (r ≡ (ok tt, r.1)) × (f r.1 ≡ x)
  taken-ok f (ok u, s) x h = (refl, ok-injective h refl)
  taken-ok f (err e, s) x h = absurd (ground arith)
  taken-ok f (panic, s) x h = absurd (ground arith)

  taken-no_signers :
      {A : Type 0} (f : Signers api net → A) (x : A)
      → (taken api net f (fill_signers api net c sender (no_signers api net)) ≡ ok x)
        ↔ ((num_signers api net c sender ≡ ok 0) × (x ≡ f (no_signers api net)))
  taken-no_signers f x = (
    λ h.
        let (returned, value) = taken-ok f _ x h in
        let (none_left, same) = fill_signers-returns _ _ returned in
        (none_left, sym value ∙ ap f (sym same)),
    λ h. rw (fill_signers-none (no_signers api net) h.0) (ap (λ y. ok y) (sym h.1)),
  )

  -- `public_keys` and `signer_key_ids` succeed exactly if the contract says that it has no signers,
  -- and then what they return is empty: with one signer or more they fail, whatever the contract
  -- answers about the signers.
  pub public_keys-no_keys :
      (keys : PublicKeys w) (ids : Map (List ℕ))
      → ((public_keys api net c sender ≡ ok keys)
          ↔ ((num_signers api net c sender ≡ ok 0) × (keys ≡ no_keys api net)))
        × ((signer_key_ids api net c sender ≡ ok ids)
            ↔ ((num_signers api net c sender ≡ ok 0) × (ids ≡ [])))
  unfolding public_keys signer_key_ids
  public_keys-no_keys keys ids =
      (taken-no_signers (λ s. s.public_keys) keys, taken-no_signers (λ s. s.signer_key_ids) ids)
