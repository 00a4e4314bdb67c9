-- ===== src/Frost/Util.antt =====
-- frost-signer/src/util.rs: the shared secret of two parties, and encryption under it.
use core_eng.Prelude.{ℕ, ◌++◌, Option, none, some, codes, length, take, drop, ltb, if◌then◌else◌}
use core_eng.Prelude.Outcome.{Outcome, ok, panic}
use core_eng.Frost.Wsts.{Wsts, Bytes}

abbrev pub aes_gcm_nonce_size : ℕ
aes_gcm_nonce_size = 12

module _ (w : Wsts) where
  open w use {Scalar, Point, Rng, mul, compress, sha256, aead_encrypt, aead_decrypt, fill_bytes}

  unfoldable pub make_shared_secret : Scalar → Point → Bytes
  make_shared_secret private_key public_key =
      sha256 (codes "DH_SHARED_SECRET_KEY/" ++ compress (mul private_key public_key))

  abbrev prepend : Bytes → Option Bytes → Option Bytes
  prepend nonce none = none
  prepend nonce (some cipher) = some (nonce ++ cipher)

  -- The nonce, and the cipher text behind it.
  unfoldable pub encrypt : Bytes → Bytes → Rng → Option Bytes
  encrypt key text rng =
      let nonce = fill_bytes rng aes_gcm_nonce_size in prepend nonce (aead_encrypt key nonce text)

  -- `data[..AES_GCM_NONCE_SIZE]` panics on a shorter input.
  unfoldable pub decrypt : {E : Type 0} → Bytes → Bytes → Outcome E (Option Bytes)
  decrypt key bytes =
      if ltb (length bytes) aes_gcm_nonce_size
      then panic
      else ok (aead_decrypt key (take aes_gcm_nonce_size bytes) (drop aes_gcm_nonce_size bytes))
