-- ===== src/Frost/Round/Sealing.antt =====
-- A private share that one signer of frost-signer/src/signing_round.rs encrypts for a key is the
-- share that the key's owner decrypts.
use core_eng.Prelude.{
  ℕ, List, [], ◌∷◌, ◌++◌, ◌≡◌, refl, ap, arith, some, get, get-insert, length, length-append, inl,
  inr, take, drop, codes, Option-cases, zero, suc,
}
use core_eng.Prelude.Outcome.{ok}
use core_eng.Frost.Wsts.{Wsts, Bytes}
use core_eng.Frost.Laws.{Laws}
use core_eng.Frost.Util.{make_shared_secret, encrypt, decrypt}
use core_eng.Frost.Messages.{PublicKeys}
use core_eng.Frost.Round.Defs.{Error}
use core_eng.Frost.Round.Shares.{key_number, key_point, open_share, seal_one, Sealing}

take-length-append {ℓ} :
    {A : Type ℓ} (n : ℕ) (xs ys : List A) → length xs ≡ n → take n (xs ++ ys) ≡ xs
take-length-append zero [] ys h = refl
take-length-append zero (x ∷ xs) ys h = absurd (omega arith)
take-length-append (suc n) [] ys h = absurd (omega arith)
take-length-append (suc n) (x ∷ xs) ys h =
    ap (λ l. x ∷ l) (take-length-append n xs ys (omega arith))

drop-length-append {ℓ} :
    {A : Type ℓ} (n : ℕ) (xs ys : List A) → length xs ≡ n → drop n (xs ++ ys) ≡ ys
drop-length-append zero [] ys h = refl
drop-length-append zero (x ∷ xs) ys h = absurd (omega arith)
drop-length-append (suc n) [] ys h = absurd (omega arith)
drop-length-append (suc n) (x ∷ xs) ys h = drop-length-append n xs ys (omega arith)

decrypt-parts :
    (w : Wsts) (key nonce c : Bytes)
    → length nonce ≡ 12
    → decrypt w {E = Error} key (nonce ++ c) ≡ ok (w.aead_decrypt key nonce c)
unfolding decrypt
decrypt-parts w key nonce c h =
    rw (take-length-append 12 nonce c h, drop-length-append 12 nonce c h)
      (ground (arith, length-append nonce c))

module _ (w : Wsts) (l : Laws w) where
  -- `decrypt` undoes `encrypt` under the same key, whatever the nonce was.
  pub decrypt-encrypt :
      (key text cipher : Bytes) (rng : w.Rng)
      → encrypt w key text rng ≡ some cipher
      → decrypt w {E = Error} key cipher ≡ ok (some text)
  unfolding encrypt decrypt
  decrypt-encrypt key text cipher rng h = elim (Option-cases (w.aead_encrypt key nonce text)) [
    | inl e ↦ cc (rw e at h)
    | inr (c, e) ↦
        let parts : nonce ++ c ≡ cipher = ground arith in
        rw
          (
            ← parts,
            decrypt-parts w key nonce c (l.fill-length rng 12),
            l.decrypt-encrypt key nonce text c e,
          )
          refl
  ]
    where
      nonce : Bytes
      nonce = w.fill_bytes rng 12

  -- The keys know a signer by its number, as the key of its private key.
  abbrev pub Knows : PublicKeys w → ℕ → w.Scalar → Type 0
  Knows keys id private_key = get (key_number id) keys.key_ids ≡ some (l.key_of private_key)

  key_point-known :
      (keys : PublicKeys w) (id : ℕ) (a : w.Scalar)
      → Knows keys id a
      → key_point w keys id ≡ ok (l.point_of a)
  unfolding key_point
  key_point-known keys id a h = rw (h, l.decompress-key a) refl

  same_secret :
      (a b : w.Scalar)
      → make_shared_secret w a (l.point_of b) ≡ make_shared_secret w b (l.point_of a)
  unfolding make_shared_secret
  same_secret a b =
      ap (λ p. w.sha256 (codes "DH_SHARED_SECRET_KEY/" ++ w.compress p)) (l.diffie_hellman a b)

  -- What the owner of private key `a`, as number `src`, puts into its message for key `dst`, the
  -- owner of that key opens to the very share, if each is configured under the number of the other
  -- and the laws of the cryptography hold.
  pub open_share-seal_one :
      (a b : w.Scalar) (keys : PublicKeys w) (src dst : ℕ) (share : w.Scalar) (acc acc' : Sealing w)
      → Knows keys src a
      → Knows keys dst b
      → seal_one w a keys acc (dst, share) ≡ ok acc'
      → (cipher : Bytes) × (get dst acc'.encrypted ≡ some cipher)
        × (open_share w b keys src cipher ≡ ok (some share))
  unfolding seal_one open_share
  open_share-seal_one a b keys src dst share acc acc' ka kb h =
      elim (Option-cases (encrypt w secret (w.scalar_bytes share) acc.rng)) [
        | inl e ↦ cc (rw (key_point-known keys dst b kb, e) at h)
        | inr (c, e) ↦ (
          c,
          ground (arith, key_point-known keys dst b kb, get-insert dst dst c acc.encrypted),
          rw
              (
                key_point-known keys src a ka,
                ← same_secret a b,
                decrypt-encrypt secret (w.scalar_bytes share) c acc.rng e,
              )
              (rw (l.parse-scalar share) refl),
        )
      ]
    where
      secret : Bytes
      secret = make_shared_secret w a (l.point_of b)
