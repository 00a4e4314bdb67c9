-- ===== src/Frost/Config/Owners.antt =====
-- Whose key a key id has after the configuration of frost-signer/src/config.rs is read, and which
-- key ids a signing round starts with.
use core_eng.Prelude.{
  ℕ, zero, suc, ◌+◌, ◌%◌, ◌≤◌, ◌<◌, ◌≡◌, sym, ap, ◌∙◌, List, [], ◌∷◌, Map, get, insert, get-insert,
  length, Option, none, some, Bool, true, false, ◌==◌, ◌⊎◌, inl, inr, if◌then◌else◌, arith,
  Bool-cases,
}
use core_eng.Prelude.Outcome.{ok, bind-ok}
use core_eng.Frost.Wsts.{Wsts}
use core_eng.Frost.Messages.{PublicKeys}
use core_eng.Frost.Config.{
  KeyText, RawSigners, RawConfig, to_u32, map_err, add_key_ids, add_signers, public_keys,
}

pub to_u32-ok : {E : Type 0} (n m : ℕ) → to_u32 {E = E} n ≡ ok m → (n ≡ m) × (n < 4294967296)
unfolding to_u32
to_u32-ok n m h = ground arith

abbrev pub value : {E A : Type 0} → E ⊎ A → Option A
value (inl e) = none
value (inr a) = some a

map_err-ok :
    {E' E A : Type 0} (x : E' ⊎ A) (f : E' → E) (a : A) → map_err x f ≡ ok a → value x ≡ some a
map_err-ok (inl e) f a h = ground arith
map_err-ok (inr b) f a h = cc

module _ (w : Wsts) (t : KeyText w) where
  abbrev pub lists : ℕ → List ℕ → Bool
  lists k [] = false
  lists k (j ∷ js) = if j == k then true else lists k js

  -- A signer's key, if its text is one.
  abbrev pub key_of : RawSigners → Option w.PublicKey
  key_of s = value (t.public_key_from s.public_key)

  abbrev pub key_at : List RawSigners → ℕ → Option w.PublicKey
  key_at [] i = none
  key_at (s ∷ ss) zero = key_of s
  key_at (s ∷ ss) (suc i) = key_at ss i

  -- The key of the last signer whose list has the key id; `before` if there is none.
  abbrev pub owner_from : ℕ → Option w.PublicKey → List RawSigners → Option w.PublicKey
  owner_from k before [] = before
  owner_from k before (s ∷ ss) = owner_from k (if lists k s.key_ids then key_of s else before) ss

  pub add_key_ids-get :
      (key : w.PublicKey) (ks : List ℕ) (m m' : Map w.PublicKey)
      → add_key_ids w t key ks m ≡ ok m'
      → (k : ℕ) → get k m' ≡ (if lists k ks then some key else get k m)
  unfolding add_key_ids
  add_key_ids-get key [] m m' h k = cc
  add_key_ids-get key (j ∷ js) m m' h k = elim (Bool-cases (j == 0)) [
    | inl e ↦ ground arith
    | inr e ↦
        let rest = add_key_ids-get key js (insert j key m) m' (ground (arith, h, e)) k in
        ground (arith, rest, get-insert j k key m)
  ]

  -- What one signer's turn in the outer loop did.
  abbrev pub Turn : ℕ → RawSigners → List RawSigners → PublicKeys w → PublicKeys w → Type 0
  Turn i s ss keys keys' =
      (key : w.PublicKey) × (key_of s ≡ some key)
      × (ids : Map w.PublicKey) × (add_key_ids w t key s.key_ids keys.key_ids ≡ ok ids)
      × (i < 4294967296)
      × (add_signers w t (suc i) ss
            (record { signers = insert ((i + 1) % 4294967296) key keys.signers; key_ids = ids })
          ≡ ok keys')

  pub turn :
      (i : ℕ) (s : RawSigners) (ss : List RawSigners) (keys keys' : PublicKeys w)
      → add_signers w t i (s ∷ ss) keys ≡ ok keys'
      → Turn i s ss keys keys'
  unfolding add_signers
  turn i s ss keys keys' h =
      let (key, hk, h1) = bind-ok _ _ keys' h in
      let (ids, hi, h2) = bind-ok _ _ keys' h1 in
      let (n, hn, h3) = bind-ok _ _ keys' h2 in
      let (e, lt) = to_u32-ok i n hn in (key, map_err-ok _ _ key hk, ids, hi, lt, cc (e, h3))

  add_signers-owner :
      (ss : List RawSigners) (i : ℕ) (keys keys' : PublicKeys w) (k : ℕ)
      → add_signers w t i ss keys ≡ ok keys'
      → get k keys'.key_ids ≡ owner_from k (get k keys.key_ids) ss
  unfolding add_signers
  add_signers-owner [] i keys keys' k h = cc
  add_signers-owner (s ∷ ss) i keys keys' k h =
      let (key, hk, ids, hi, lt, rest) = turn i s ss keys keys' h in
      let here = add_key_ids-get key s.key_ids keys.key_ids ids hi k in
      add_signers-owner ss (suc i) _ keys' k rest
      ∙ ap (λ o. owner_from k o ss) (ground (arith, here, hk))

  -- Entries up to the index are as before.
  add_signers-below :
      (ss : List RawSigners) (i : ℕ) (keys keys' : PublicKeys w) (k : ℕ)
      → add_signers w t i ss keys ≡ ok keys'
      → zero < k
      → k ≤ i
      → get k keys'.signers ≡ get k keys.signers
  unfolding add_signers
  add_signers-below [] i keys keys' k h pos le = cc
  add_signers-below (s ∷ ss) i keys keys' k h pos le =
      let (key, hk, ids, hi, lt, rest) = turn i s ss keys keys' h in
      let later = add_signers-below ss (suc i) _ keys' k rest pos (omega arith) in
      ground (arith, later, get-insert ((i + 1) % 4294967296) k key keys.signers)

  add_signers-key_at :
      (ss : List RawSigners) (i : ℕ) (keys keys' : PublicKeys w) (j : ℕ)
      → add_signers w t i ss keys ≡ ok keys'
      → j < length ss
      → suc (i + j) < 4294967296
      → get (suc (i + j)) keys'.signers ≡ key_at ss j
  unfolding add_signers
  add_signers-key_at [] i keys keys' j h lt bound = absurd (omega arith)
  add_signers-key_at (s ∷ ss) i keys keys' zero h lt bound =
      let (key, hk, ids, hi, lt', rest) = turn i s ss keys keys' h in
      let later = add_signers-below ss (suc i) _ keys' (suc i) rest (omega arith) (omega arith) in
      ground (arith, later, hk, get-insert ((i + 1) % 4294967296) (suc i) key keys.signers)
  add_signers-key_at (s ∷ ss) i keys keys' (suc j) h lt bound =
      let (key, hk, ids, hi, lt', rest) = turn i s ss keys keys' h in
      let later = add_signers-key_at ss (suc i) _ keys' j rest (omega arith) (omega arith) in
      let same : suc (i + suc j) ≡ suc (suc i + j) = omega arith in
      ap (λ k. get k keys'.signers) same ∙ later

  -- If `public_keys` succeeds, then a key id has the key of the last signer of the configuration
  -- whose list has it, and no other key id has a key; and every signer has its own key under its
  -- place in the list, counted from 1, as far as u32 numbers reach.
  pub public_keys-owner :
      (raw : RawConfig) (keys : PublicKeys w)
      → public_keys w t raw ≡ ok keys
      → ((k : ℕ) → get k keys.key_ids ≡ owner_from k none raw.signers)
        × ((j : ℕ)
            → j < length raw.signers
            → suc j < 4294967296
            → get (suc j) keys.signers ≡ key_at raw.signers j)
  unfolding public_keys get
  public_keys-owner raw keys h = (
    λ k. add_signers-owner raw.signers 0 _ keys k h,
    λ j lt bound.
        let same : suc (0 + j) ≡ suc j = omega arith in
        ap (λ k. get k keys.signers) (sym same)
        ∙ add_signers-key_at raw.signers 0 _ keys j h lt (omega arith),
  )
