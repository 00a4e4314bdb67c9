-- ===== src/Frost/Config/Start.antt =====
-- A signing round that starts from a configuration: `Config::try_from` and
-- `From<&FrostSigner> for SigningRound` of frost-signer.
use core_eng.Prelude.{
  ℕ, zero, suc, ◌+◌, ◌%◌, ◌≤◌, ◌<◌, ◌≡◌, refl, sym, ap, ◌∙◌, List, [], ◌∷◌, map, Map, get, insert,
  get-insert, get_elem?, length, some, true, ◌==◌, inl, inr, arith, Bool-cases,
}
use core_eng.Prelude.Outcome.{ok, bind-ok, ok-injective}
use core_eng.Frost.Wsts.{Wsts}
use core_eng.Frost.Messages.{PublicKeys}
use core_eng.Frost.Round.Defs.{SigningRound}
use core_eng.Frost.Config.{
  KeyText, RawSigners, RawConfig, to_u32, Config, add_key_ids, add_signers, public_keys,
  add_signer_key_ids, signer_key_ids, coordinator_public_key, network_private_key, new_config,
  try_from, key_index, from_signer, first_round,
}
use core_eng.Frost.Config.Owners.{to_u32-ok, lists, turn, add_key_ids-get}

length-insert {ℓ} :
    {V : Type ℓ} (k : ℕ) (v : V) (m : Map V) → length (insert k v m) ≤ suc (length m)
unfolding insert
length-insert k v [] = omega arith
length-insert k v ((j, x) ∷ m) = ground (arith, length-insert k v m)

module _ (w : Wsts) (t : KeyText w) where
  pub HasKey : ℕ → PublicKeys w → Type 0
  HasKey k keys = (key : w.PublicKey) × (get k keys.key_ids ≡ some key)

  add_key_ids-positive :
      (key : w.PublicKey) (ks : List ℕ) (m m' : Map w.PublicKey) (k : ℕ)
      → add_key_ids w t key ks m ≡ ok m'
      → lists w t k ks ≡ true
      → zero < k
  unfolding add_key_ids
  add_key_ids-positive key [] m m' k h e = ground arith
  add_key_ids-positive key (j ∷ js) m m' k h e = elim (Bool-cases (j == 0)) [
    | inl z ↦ ground arith
    | inr nz ↦ elim (Bool-cases (j == k)) [
      | inl same ↦ ground arith
      | inr other ↦
          add_key_ids-positive key js (insert j key m) m' k (ground (arith, h, nz))
            (ground (arith, e, other))
    ]
  ]

  -- A key id that has a key keeps one.
  add_signers-kept :
      (ss : List RawSigners) (i : ℕ) (keys keys' : PublicKeys w) (k : ℕ)
      → add_signers w t i ss keys ≡ ok keys'
      → HasKey k keys
      → HasKey k keys'
  unfolding add_signers HasKey
  add_signers-kept [] i keys keys' k h (key, e) = (key, cc (h, e))
  add_signers-kept (s ∷ ss) i keys keys' k h (old, e) =
      let (key, hk, ids, hi, lt, rest) = turn w t i s ss keys keys' h in
      let here = add_key_ids-get w t key s.key_ids keys.key_ids ids hi k in
      add_signers-kept ss (suc i) _ keys' k rest (elim (Bool-cases (lists w t k s.key_ids)) [
        | inl y ↦ (key, ground (arith, here, y))
        | inr n ↦ (old, ground (arith, here, n, e))
      ])

  add_signers-listed :
      (ss : List RawSigners) (i : ℕ) (keys keys' : PublicKeys w) (j k : ℕ) (s : RawSigners)
      → add_signers w t i ss keys ≡ ok keys'
      → get_elem? ss j ≡ some s
      → lists w t k s.key_ids ≡ true
      → (zero < k) × HasKey k keys'
  unfolding add_signers HasKey
  add_signers-listed [] i keys keys' j k s h e y = ground arith
  add_signers-listed (r ∷ ss) i keys keys' zero k s h e y =
      let (key, hk, ids, hi, lt, rest) = turn w t i r ss keys keys' h in
      let y' : lists w t k r.key_ids ≡ true = cc (e, y) in
      let here = add_key_ids-get w t key r.key_ids keys.key_ids ids hi k in
      (
        add_key_ids-positive key r.key_ids keys.key_ids ids k hi y',
        add_signers-kept ss (suc i) _ keys' k rest (key, ground (arith, here, y')),
      )
  add_signers-listed (r ∷ ss) i keys keys' (suc j) k s h e y =
      let (key, hk, ids, hi, lt, rest) = turn w t i r ss keys keys' h in
      add_signers-listed ss (suc i) _ keys' j k s rest e y

  add_signers-length :
      (ss : List RawSigners) (i : ℕ) (keys keys' : PublicKeys w)
      → add_signers w t i ss keys ≡ ok keys'
      → length keys'.signers ≤ length keys.signers + length ss
  unfolding add_signers
  add_signers-length [] i keys keys' h = ground arith
  add_signers-length (s ∷ ss) i keys keys' h =
      let (key, hk, ids, hi, lt, rest) = turn w t i s ss keys keys' h in
      let here = length-insert ((i + 1) % 4294967296) key keys.signers in
      let later = add_signers-length ss (suc i) _ keys' rest in omega (arith, here, later)

  key_ids_turn :
      (i : ℕ) (s : RawSigners) (ss : List RawSigners) (m m' : Map (List ℕ))
      → add_signer_key_ids w t i (s ∷ ss) m ≡ ok m'
      → add_signer_key_ids w t (suc i) ss (insert (i + 1) s.key_ids m) ≡ ok m'
  unfolding add_signer_key_ids
  key_ids_turn i s ss m m' h =
      let (n, hn, rest) = bind-ok _ _ m' h in let (e, lt) = to_u32-ok (i + 1) n hn in cc (e, rest)

  add_signer_key_ids-below :
      (ss : List RawSigners) (i : ℕ) (m m' : Map (List ℕ)) (k : ℕ)
      → add_signer_key_ids w t i ss m ≡ ok m'
      → k ≤ i
      → get k m' ≡ get k m
  unfolding add_signer_key_ids
  add_signer_key_ids-below [] i m m' k h le = cc
  add_signer_key_ids-below (s ∷ ss) i m m' k h le =
      let later =
        add_signer_key_ids-below ss (suc i) _ m' k (key_ids_turn i s ss m m' h) (omega arith) in
      ground (arith, later, get-insert (i + 1) k s.key_ids m)

  add_signer_key_ids-at :
      (ss : List RawSigners) (i : ℕ) (m m' : Map (List ℕ)) (j : ℕ)
      → add_signer_key_ids w t i ss m ≡ ok m'
      → j < length ss
      → (s : RawSigners) × (get_elem? ss j ≡ some s) × (get (suc (i + j)) m' ≡ some s.key_ids)
  unfolding add_signer_key_ids
  add_signer_key_ids-at [] i m m' j h lt = absurd (omega arith)
  add_signer_key_ids-at (s ∷ ss) i m m' zero h lt =
      let later =
        add_signer_key_ids-below ss (suc i) _ m' (suc i) (key_ids_turn i s ss m m' h)
          (omega arith) in
      (s, refl, ground (arith, later, get-insert (i + 1) (suc i) s.key_ids m))
  add_signer_key_ids-at (s ∷ ss) i m m' (suc j) h lt =
      let (r, hr, e) =
        add_signer_key_ids-at ss (suc i) _ m' j (key_ids_turn i s ss m m' h) (omega arith) in
      let same : suc (i + suc j) ≡ suc (suc i + j) = omega arith in
      (r, hr, ap (λ k. get k m') same ∙ e)

  abbrev ReadFrom : RawConfig → Config w t → Type 0
  ReadFrom raw config =
      (public_keys w t raw ≡ ok config.public_keys)
      × (signer_key_ids w t raw ≡ ok config.signer_key_ids)
      × (config.total_signers ≡ length config.public_keys.signers)
      × (config.total_keys ≡ length config.public_keys.key_ids)

  try_from-ReadFrom :
      (raw : RawConfig) (config : Config w t) → try_from w t raw ≡ ok config → ReadFrom raw config
  unfolding try_from new_config
  try_from-ReadFrom raw config h =
      let (coordinator, hc, h1) = bind-ok (coordinator_public_key w t raw) _ config h in
      let (keys, hk, h2) = bind-ok (public_keys w t raw) _ config h1 in
      let (ids, hi, h3) = bind-ok (signer_key_ids w t raw) _ config h2 in
      let (private_key, hp, h4) = bind-ok (network_private_key w t raw) _ config h3 in
      let (signers, hs, h5) = bind-ok (to_u32 (length keys.signers)) _ config h4 in
      let (total, ht, h6) = bind-ok (to_u32 (length keys.key_ids)) _ config h5 in
      let (es, _) = to_u32-ok (length keys.signers) signers hs in
      let (et, _) = to_u32-ok (length keys.key_ids) total ht in
      let same = ok-injective h6 refl in
      (
        hk ∙ ap (λ c. ok c.public_keys) same,
        hi ∙ ap (λ c. ok c.signer_key_ids) same,
        ap (λ c. c.total_signers) (sym same) ∙ sym es ∙ ap (λ c. length c.public_keys.signers) same,
        ap (λ c. c.total_keys) (sym same) ∙ sym et ∙ ap (λ c. length c.public_keys.key_ids) same,
      )

  -- What a round that starts for a signer takes from the configuration.
  pub Starts : RawConfig → ℕ → w.Rng → SigningRound w → Type 0
  Starts raw signer_id rng round =
      (round.total_keys ≡ length round.public_keys.key_ids)
      × (j : ℕ) × (signer_id ≡ suc j)
      × (s : RawSigners) × (get_elem? raw.signers j ≡ some s)
      × (round.signer.frost_signer
          ≡ w.new_signer signer_id (map key_index s.key_ids) round.total_keys round.threshold rng)
      × ((k : ℕ) → lists w t k s.key_ids ≡ true → (zero < k) × HasKey k round.public_keys)

  from_signer-ok :
      (config : Config w t) (signer_id : ℕ) (rng : w.Rng) (ids : List ℕ)
      → zero < signer_id
      → signer_id ≤ config.total_signers
      → config.keys_threshold ≤ config.total_keys
      → get signer_id config.signer_key_ids ≡ some ids
      → from_signer w t config signer_id rng ≡ ok (first_round w t config signer_id ids rng)
  unfolding from_signer
  from_signer-ok config signer_id rng ids pos le enough e = ground (arith, e)

  predecessor : (n : ℕ) → zero < n → (j : ℕ) × (n ≡ suc j)
  predecessor zero h = absurd (omega arith)
  predecessor (suc j) h = (j, refl)

  -- From a configuration that was read, a round starts for each of its signers, counted from 1, if
  -- its threshold is not above its number of keys: its `FrostSigner` has the key ids that the
  -- configuration lists for that signer, each less by one, and each of those that are listed is
  -- positive and has a public key in the round; there are as many keys as key ids with a public key.
  pub from_signer-Starts :
      (raw : RawConfig) (config : Config w t) (signer_id : ℕ) (rng : w.Rng)
      → try_from w t raw ≡ ok config
      → zero < signer_id
      → signer_id ≤ config.total_signers
      → config.keys_threshold ≤ config.total_keys
      → (round : SigningRound w) × (from_signer w t config signer_id rng ≡ ok round)
        × Starts raw signer_id rng round
  unfolding first_round Starts public_keys signer_key_ids HasKey
  from_signer-Starts raw config signer_id rng h pos le enough =
      let (hk, hi, hs, ht) = try_from-ReadFrom raw config h in
      let count = add_signers-length raw.signers 0 _ config.public_keys hk in
      let (j, e) = predecessor signer_id pos in
      let (s, hj, here) =
        add_signer_key_ids-at raw.signers 0 _ config.signer_key_ids j hi (omega (arith, count)) in
      let place : signer_id ≡ suc (0 + j) = omega (arith, e) in
      let at = ap (λ k. get k config.signer_key_ids) place ∙ here in
      (
        first_round w t config signer_id s.key_ids rng,
        from_signer-ok config signer_id rng s.key_ids pos le enough at,
        (
          ht,
          j,
          e,
          s,
          hj,
          refl,
          λ k y. add_signers-listed raw.signers 0 _ config.public_keys j k s hk hj y,
        ),
      )
