-- ===== src/Frost/Wsts.antt =====
-- What frost-signer and frost-coordinator call of the crates wsts, p256k1, sha2 and aes-gcm.
-- `Rng` is the operating system's entropy at a moment; `next` is what is left after a draw.
use core_eng.Prelude.{ℕ, List, Option, Bool, Map, Text}

abbrev pub Bytes : Type 0
Bytes = List ℕ

pub record Wsts : Type 1 where
  pub Scalar : Type 0
  pub Point : Type 0
  pub PublicKey : Type 0
  pub EcdsaSignature : Type 0
  pub PolyCommitment : Type 0
  pub PublicNonce : Type 0
  pub SignatureShare : Type 0
  pub FrostSigner : Type 0
  pub Rng : Type 0
  pub next : Rng → Rng
  pub fill_bytes : Rng → ℕ → Bytes
  -- wsts::v1::Signer: id, key ids, number of keys, threshold
  pub new_signer : ℕ → List ℕ → ℕ → ℕ → Rng → FrostSigner
  pub reset_polys : FrostSigner → Rng → FrostSigner
  pub get_key_ids : FrostSigner → List ℕ
  pub get_poly_commitments : FrostSigner → Rng → List PolyCommitment
  pub gen_nonces : FrostSigner → Rng → FrostSigner × List PublicNonce
  pub get_shares : FrostSigner → Map (Map Scalar)
  -- the error's debug text, if the secrets cannot be computed
  pub compute_secrets :
      FrostSigner → Map (Map Scalar) → List PolyCommitment → FrostSigner × Option Text
  -- message, signer ids, key ids, nonces
  pub sign :
      FrostSigner → Bytes → List ℕ → List ℕ → List PublicNonce → FrostSigner × List SignatureShare
  pub poly_id : PolyCommitment → ℕ
  pub poly_points : PolyCommitment → List Point
  pub nonce_d : PublicNonce → Point
  pub nonce_e : PublicNonce → Point
  pub share_id : SignatureShare → ℕ
  pub share_z : SignatureShare → Scalar
  -- p256k1
  pub zero_scalar : Scalar
  pub scalar_bytes : Scalar → Bytes
  pub parse_scalar : Bytes → Option Scalar
  pub mul : Scalar → Point → Point
  pub compress : Point → Bytes
  pub decompress : Bytes → Option Point
  pub key_bytes : PublicKey → Bytes
  pub new_signature : Bytes → Scalar → Option EcdsaSignature
  pub signature_bytes : EcdsaSignature → Bytes
  pub parse_signature : Bytes → Option EcdsaSignature
  pub verify_signature : EcdsaSignature → Bytes → PublicKey → Bool
  -- sha2, aes-gcm: key, nonce, text
  pub sha256 : Bytes → Bytes
  pub aead_encrypt : Bytes → Bytes → Bytes → Option Bytes
  pub aead_decrypt : Bytes → Bytes → Bytes → Option Bytes
