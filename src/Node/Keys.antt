-- ===== src/Node/Keys.antt =====
-- Which key a coordinator has when the set-up of stacks-coordinator/src/coordinator.rs has loaded it.
use core_eng.Prelude.{
  ℕ, ◌≡◌, refl, sym, ap, subst, ◌∙◌, [], ◌∷◌, ◌++◌, Option, none, some, Text, arith, ◌⊎◌, inl, inr,
}
use core_eng.Prelude.Outcome.{Outcome, ok, err, panic, ok_or, ok-injective, ok_or-some}
use core_eng.Prelude.Exec.{pure, lift, bind-returns, pure-returns, ◌>>=◌ as and_then, ◌>>◌ as next}
use core_eng.Frost.Coordinator.Dkg.{run_distributed_key_generation}
use core_eng.Frost.Coordinator.Run.{set_aggregate_public_key, set_dkg_public_shares}
use core_eng.Frost.Coordinator.Keys.{IsKey}
use core_eng.Frost.Coordinator.Ends.{run_distributed_key_generation-IsKey}
use core_eng.Node.Read.{bitcoin_wallet_public_key, broadcast_transaction}
use core_eng.Node.Wallet.{StacksWallet, build_set_bitcoin_wallet_public_key_transaction}
use core_eng.Node.Setup.{
  SetupEnv, Link, Loading, convert, node, link_nonce, post_transaction, on_link, on_frost,
  read_shares, write_shares, announce_key, use_contract_key, generate_key, key_by, load_dkg_data,
  SetupError, frost_coordinator_error, stacks_node_error, posted_with, invalid_public_key,
  peg_wallet_error,
}

module _ (env : SetupEnv) where
  open env use {w, a, t, api, net, lib, conf, signing, setup}

  use_contract_key-returns :
      (directory : Option Text) (key key' : api.XOnlyPublicKey) (s s' : Loading env)
      → use_contract_key env directory key s ≡ (ok key', s')
      → (key' ≡ key) × (s'.link ≡ s.link) × (setup.lift_x key ≡ some s'.frost.aggregate_public_key)
  unfolding use_contract_key read_shares set_aggregate_public_key set_dkg_public_shares
  use_contract_key-returns none key key' s s' h = ground arith
  use_contract_key-returns (some d) key key' s s' h = ground arith

  pub convert-ok :
      {E A : Type 0} (f : E → SetupError api) (r : Outcome E A) (x : A)
      → convert env f r ≡ ok x
      → r ≡ ok x
  convert-ok f (ok y) x h = ap (λ z. ok z) (ok-injective h refl)
  convert-ok f (err e) x h = absurd (ground arith)
  convert-ok f panic x h = absurd (ground arith)

  -- The node took one more transaction of the wallet, which sets this key in the contract.
  pub record IsAnnounced (wallet : StacksWallet lib) (key : api.XOnlyPublicKey) (s s' : Link env)
      : Type 0 where
    pub nonce : ℕ
    pub tx : api.StacksTransaction
    pub built : build_set_bitcoin_wallet_public_key_transaction lib signing key wallet nonce ≡ ok tx
    pub accepted : broadcast_transaction api net tx ≡ ok tt
    pub posted : s'.posted ≡ s.posted ++ tx ∷ []

  post_transaction-returns :
      (tx : api.StacksTransaction) (s s' : Link env)
      → post_transaction env tx s ≡ (ok tt, s')
      → (broadcast_transaction api net tx ≡ ok tt) × (s'.posted ≡ s.posted ++ tx ∷ [])
  unfolding post_transaction
  post_transaction-returns tx s s' h =
      let took =
        convert-ok stacks_node_error (broadcast_transaction api net tx) tt (ap (λ r. r.0) h) in
      let after : posted_with env (ok tt) tx s ≡ s' =
        ap (λ r. posted_with env (node env r) tx s) (sym took) ∙ ap (λ r. r.1) h in
      (took, ap (λ x. x.posted) (sym after))

  announce_key-returns :
      (wallet : StacksWallet lib) (address : Text) (key key' : api.XOnlyPublicKey)
      (s s' : Loading env)
      → announce_key env wallet address key s ≡ (ok key', s')
      → (key' ≡ key) × (s'.frost ≡ s.frost) × IsAnnounced wallet key s.link s'.link
  unfolding announce_key link_nonce
  announce_key-returns wallet address key key' s s' h =
      let build = λ (n : ℕ).
        convert env peg_wallet_error
          (build_set_bitcoin_wallet_public_key_transaction lib signing key wallet n) in
      let post =
        λ (tx : api.StacksTransaction). next (on_link env (post_transaction env tx)) (pure key) in
      let (n, s1, e1, h1) =
        bind-returns (on_link env (link_nonce env address)) (λ n. and_then (lift (build n)) post) s
          s' key' h in
      let (tx, s2, e2, h2) = bind-returns (lift (build n)) post s1 s' key' h1 in
      let (u, s3, e3, h3) =
        bind-returns (on_link env (post_transaction env tx)) (λ u. pure key) s2 s' key' h2 in
      let same_tx = ap (λ r. r.1) e2 in
      let (took, posted) =
        post_transaction-returns tx s2.link s3.link (ap (λ r. (r.0, r.1.link)) e3) in
      let (same_key, last) = pure-returns key key' s3 s' h3 in
      (
        sym same_key,
        ap (λ x. x.frost) (sym last)
            ∙ sym (ap (λ r. r.1.frost) e3)
            ∙ ap (λ x. x.frost) (sym same_tx)
            ∙ sym (ap (λ r. r.1.frost) e1),
        record {
          nonce = n;
          tx = tx;
          built = convert-ok peg_wallet_error _ tx (ap (λ r. r.0) e2);
          accepted = took;
          posted =
              ap (λ x. x.link.posted) (sym last)
              ∙ posted
              ∙ ap (λ ps. ps ++ tx ∷ [])
                  (ap (λ x. x.link.posted) (sym same_tx) ∙ sym (ap (λ r. r.1.link.posted) e1));
        },
      )

  -- The key of a new key generation.
  pub record IsGenerated (wallet : StacksWallet lib) (key : api.XOnlyPublicKey) (s s' : Loading env)
      : Type 0 where
    pub point : w.Point
    pub generated : run_distributed_key_generation w a s.frost ≡ (ok point, s'.frost)
    pub held : IsKey w a point s'.frost
    pub x_only : api.x_only_from (setup.x_bytes point) ≡ some key
    pub announced : IsAnnounced wallet key s.link s'.link

  -- The key that the contract holds.
  abbrev pub IsFromContract :
      Option api.XOnlyPublicKey → api.XOnlyPublicKey → Loading env → Loading env → Type 0
  IsFromContract found key s s' =
      (found ≡ some key)
      × (s'.link ≡ s.link)
      × (setup.lift_x key ≡ some s'.frost.aggregate_public_key)

  write_shares-returns :
      (directory : Option Text) (s s' : Loading env)
      → write_shares env directory s ≡ (ok tt, s')
      → (s'.frost ≡ s.frost) × (s'.link ≡ s.link)
  unfolding write_shares
  write_shares-returns none s s' h = ground arith
  write_shares-returns (some d) s s' h = ground arith

  generate_key-returns :
      (directory : Option Text) (wallet : StacksWallet lib) (address : Text)
      (key : api.XOnlyPublicKey) (s s' : Loading env)
      → generate_key env directory wallet address s ≡ (ok key, s')
      → IsGenerated wallet key s s'
  unfolding generate_key
  generate_key-returns directory wallet address key s s' h =
      let x_of =
        λ (p : w.Point). lift (ok_or (api.x_only_from (setup.x_bytes p)) invalid_public_key) in
      let rest = λ (p : w.Point). and_then (x_of p) (announce_key env wallet address) in
      let write = λ (p : w.Point). next (write_shares env directory) (rest p) in
      let (p, s1, e1, h1) =
        bind-returns (on_frost env (run_distributed_key_generation w a)) write s s' key h in
      let (u, s2, e2, h2) = bind-returns (write_shares env directory) (λ u. rest p) s1 s' key h1 in
      let (k, s3, e3, h3) = bind-returns (x_of p) (announce_key env wallet address) s2 s' key h2 in
      let (same, frost, announced) = announce_key-returns wallet address k key s3 s' h3 in
      let ran = convert-ok frost_coordinator_error _ p (ap (λ r. r.0) e1) in
      let (frost2, link2) = write_shares-returns directory s1 s2 e2 in
      let kept = frost ∙ ap (λ r. r.1.frost) (sym e3) ∙ frost2 in
      let link = ap (λ r. r.1.link) (sym e3) ∙ link2 ∙ ap (λ r. r.1.link) (sym e1) in
      let generated : run_distributed_key_generation w a s.frost ≡ (ok p, s'.frost) =
        λ i. (ran i, (ap (λ r. r.1.frost) e1 ∙ sym kept) i) in
      record {
        point = p;
        generated = generated;
        held = run_distributed_key_generation-IsKey w a s.frost s'.frost p generated;
        x_only = ok_or-some _ invalid_public_key key (ap (λ r. r.0) e3 ∙ ap (λ k. ok k) (sym same));
        announced =
            subst (λ l. IsAnnounced wallet key l s'.link) link
              (subst (λ k. IsAnnounced wallet k s3.link s'.link) (sym same) announced);
      }

  key_by-returns :
      (found : Option api.XOnlyPublicKey) (directory : Option Text) (wallet : StacksWallet lib)
      (address : Text) (key : api.XOnlyPublicKey) (s s' : Loading env)
      → key_by env found directory wallet address s ≡ (ok key, s')
      → IsFromContract found key s s' ⊎ ((found ≡ none) × IsGenerated wallet key s s')
  key_by-returns none directory wallet address key s s' h =
      inr (refl, generate_key-returns directory wallet address key s s' h)
  key_by-returns (some k) directory wallet address key s s' h =
      let (same, link, lifted) = use_contract_key-returns directory k key s s' h in
      inl (ap some (sym same), link, ap setup.lift_x same ∙ lifted)

  -- If `load_dkg_data` returns a key, then either the contract holds it, the frost coordinator has
  -- taken the point that it lifts to as its aggregate key, and nothing was sent to the Stacks node; or
  -- the contract holds none, the frost coordinator holds a new aggregate key of a key generation with
  -- that x coordinate, which is the sum of the public shares and has an even y, and the node accepted
  -- one transaction of the wallet more, which sets the key in the contract.
  pub load_dkg_data-returns :
      (directory : Option Text) (wallet : StacksWallet lib) (address : Text)
      (key : api.XOnlyPublicKey) (s s' : Loading env)
      → load_dkg_data env directory wallet address s ≡ (ok key, s')
      → (found : Option api.XOnlyPublicKey) × (bitcoin_wallet_public_key api net s.link.client
            address
          ≡ ok found)
        × (IsFromContract found key s s' ⊎ ((found ≡ none) × IsGenerated wallet key s s'))
  unfolding load_dkg_data
  load_dkg_data-returns directory wallet address key s s' h =
      let read = node env (bitcoin_wallet_public_key api net s.link.client address) in
      let (found, s1, e1, h1) =
        bind-returns (lift read) (λ found. key_by env found directory wallet address) s s' key h in
      let start = ap (λ r. r.1) (sym e1) in
      (
        found,
        convert-ok stacks_node_error _ found (ap (λ r. r.0) e1),
        subst (λ x. IsFromContract found key x s' ⊎ ((found ≡ none) × IsGenerated wallet key x s'))
            start (key_by-returns found directory wallet address key s1 s' h1),
      )
