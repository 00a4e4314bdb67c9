-- ===== src/Tests/Toy.antt =====
-- A small cryptography with the promised laws, for concrete runs: keys are numbers, a signature
-- is the key before the hash, and a cipher text is the text.
use native.Mathlib.Nat.{mul_comm}
use core_eng.Prelude.{
  ℕ, zero, suc, ◌+◌, ◌*◌, ◌≡◌, refl, sym, ap, List, [], ◌∷◌, Option, none, some, true, length, map,
  text_eq, text_eq_iff, arith,
}
use core_eng.Frost.Wsts.{Wsts, Bytes}
use core_eng.Frost.Laws.{Laws}

abbrev pub single : Bytes → Option ℕ
single [] = none
single (x ∷ []) = some x
single (x ∷ y ∷ xs) = none

abbrev pub copies : ℕ → ℕ → Bytes
copies r zero = []
copies r (suc n) = r ∷ copies r n

pub length-copies : (r n : ℕ) → length (copies r n) ≡ n
length-copies r zero = refl
length-copies r (suc n) = ap suc (length-copies r n)

abbrev pub toy : Wsts
toy = record {
  Scalar = ℕ;
  Point = ℕ;
  PublicKey = ℕ;
  EcdsaSignature = Bytes;
  PolyCommitment = ℕ;
  PublicNonce = ℕ;
  SignatureShare = ℕ;
  FrostSigner = List ℕ;
  Rng = ℕ;
  next = λ r. suc r;
  fill_bytes = copies;
  new_signer = λ id keys total threshold r. keys;
  reset_polys = λ f r. f;
  get_key_ids = λ f. f;
  get_poly_commitments = λ f r. map suc f;
  gen_nonces = λ f r. (f, map (λ k. k + r) f);
  get_shares = λ f. map (λ k. (k, (0, k) ∷ (1, k + 1) ∷ [])) f;
  compute_secrets = λ f shares polys. (f, none);
  sign = λ f msg ids keys nonces. (f, keys);
  poly_id = λ p. p;
  poly_points = λ p. p ∷ [];
  nonce_d = λ n. n;
  nonce_e = λ n. n;
  share_id = λ s. s;
  share_z = λ s. s;
  zero_scalar = 0;
  scalar_bytes = λ s. s ∷ [];
  parse_scalar = single;
  mul = λ a p. a * p;
  compress = λ p. p ∷ [];
  decompress = single;
  key_bytes = λ k. k ∷ [];
  new_signature = λ hash a. some (a ∷ hash);
  signature_bytes = λ g. g;
  parse_signature = λ b. some b;
  verify_signature = λ g hash key. text_eq g (key ∷ hash);
  sha256 = λ b. b;
  aead_encrypt = λ key nonce text. some text;
  aead_decrypt = λ key nonce cipher. some cipher;
}

pub toy-verify :
    (hash : Bytes) (a : ℕ) (g : Bytes)
    → toy.new_signature hash a ≡ some g
    → toy.verify_signature g hash a ≡ true
toy-verify hash a g h = ground (arith, text_eq_iff g (a ∷ hash))

abbrev pub toy_laws : Laws toy
toy_laws = record {
  key_of = λ a. a;
  point_of = λ a. a;
  decompress-key = λ a. refl;
  diffie_hellman = mul_comm;
  parse-scalar = λ s. refl;
  fill-length = length-copies;
  decrypt-encrypt = λ key nonce text cipher h. sym h;
  parse-signature = λ g. refl;
  verify-new = toy-verify;
}
