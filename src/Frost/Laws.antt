-- ===== src/Frost/Laws.antt =====
-- What the documentation of p256k1, aes-gcm and rand promises of the operations in `Wsts`.
use core_eng.Prelude.{ℕ, ◌≡◌, some, true, length}
use core_eng.Frost.Wsts.{Wsts, Bytes}

pub record Laws (w : Wsts) : Type 0 where
  -- the public key of a private key, and the point of the same
  pub key_of : w.Scalar → w.PublicKey
  pub point_of : w.Scalar → w.Point
  pub decompress-key : (a : w.Scalar) → w.decompress (w.key_bytes (key_of a)) ≡ some (point_of a)
  pub diffie_hellman : (a b : w.Scalar) → w.mul a (point_of b) ≡ w.mul b (point_of a)
  pub parse-scalar : (s : w.Scalar) → w.parse_scalar (w.scalar_bytes s) ≡ some s
  pub fill-length : (r : w.Rng) (n : ℕ) → length (w.fill_bytes r n) ≡ n
  pub decrypt-encrypt :
      (key nonce text cipher : Bytes)
      → w.aead_encrypt key nonce text ≡ some cipher
      → w.aead_decrypt key nonce cipher ≡ some text
  pub parse-signature : (g : w.EcdsaSignature) → w.parse_signature (w.signature_bytes g) ≡ some g
  pub verify-new :
      (hash : Bytes) (a : w.Scalar) (g : w.EcdsaSignature)
      → w.new_signature hash a ≡ some g
      → w.verify_signature g hash (key_of a) ≡ true
