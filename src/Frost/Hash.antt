-- ===== src/Frost/Hash.antt =====
-- `Signable::hash` of frost-signer/src/signing_round.rs: the bytes that each message feeds to the
-- hasher, in order. Ids are u64 values but for party, signer and key ids, which are u32.
use core_eng.Prelude.{
  ℕ, zero, suc, ◌+◌, ◌%◌, ◌^◌, [], ◌++◌, Option, none, some, Map, get, length, flat_map, codes,
  u32_bytes, u64_bytes, Bool, false,
}
use core_eng.Prelude.Outcome.{Outcome, ok, unwrap, ◌>>=◌}
use core_eng.Frost.Wsts.{Wsts, Bytes}
use core_eng.Frost.Messages.{
  DkgBegin, DkgEnd, DkgPublicShare, DkgPrivateShares, NonceRequest, NonceResponse,
  SignatureShareRequest, SignatureShareResponse, MessageTypes,
}

unfoldable pub hash_dkg_begin : DkgBegin → Bytes
hash_dkg_begin m = codes "DKG_BEGIN" ++ u64_bytes m.dkg_id

unfoldable pub hash_dkg_end : DkgEnd → Bytes
hash_dkg_end m = codes "DKG_END" ++ u64_bytes m.dkg_id ++ u32_bytes m.signer_id

unfoldable pub hash_nonce_request : NonceRequest → Bytes
hash_nonce_request m =
    codes "NONCE_REQUEST" ++ u64_bytes m.dkg_id ++ u64_bytes m.sign_id ++ u64_bytes m.sign_nonce_id

-- `for id in 0..len { … &private_shares[&id] … }`: `n` ids are left, from `id` on.
unfoldable pub hash_shares : {E : Type 0} → ℕ → ℕ → Map Bytes → Outcome E Bytes
hash_shares zero id shares = ok []
hash_shares (suc n) id shares = do
  share ← unwrap (get id shares)
  rest ← hash_shares n (id + 1) shares
  ok (u32_bytes id ++ share ++ rest)

unfoldable pub hash_dkg_private_shares : {E : Type 0} → DkgPrivateShares → Outcome E Bytes
unfolding hash_shares
hash_dkg_private_shares m = do
  shares ← hash_shares (length m.private_shares % 2 ^ 32) 0 m.private_shares
  ok (codes "DKG_PRIVATE_SHARES" ++ u64_bytes m.dkg_id ++ u32_bytes m.key_id ++ shares)

module _ (w : Wsts) where
  unfoldable pub hash_dkg_public_share : DkgPublicShare w → Bytes
  hash_dkg_public_share m =
      codes "DKG_PUBLIC_SHARE"
      ++ u64_bytes m.dkg_id
      ++ u64_bytes m.dkg_public_id
      ++ u32_bytes m.party_id
      ++ flat_map w.compress (w.poly_points m.public_share)

  unfoldable pub hash_nonce_response : NonceResponse w → Bytes
  hash_nonce_response m =
      codes "NONCE_RESPONSE"
      ++ u64_bytes m.dkg_id
      ++ u64_bytes m.sign_id
      ++ u64_bytes m.sign_nonce_id
      ++ u32_bytes m.signer_id
      ++ flat_map u32_bytes m.key_ids
      ++ flat_map (λ n. w.compress (w.nonce_d n) ++ w.compress (w.nonce_e n)) m.nonces

  unfoldable pub hash_sign_share_request : SignatureShareRequest w → Bytes
  unfolding hash_nonce_response
  hash_sign_share_request m =
      codes "SIGNATURE_SHARE_REQUEST"
      ++ u64_bytes m.dkg_id
      ++ u64_bytes m.sign_id
      ++ u64_bytes m.correlation_id
      ++ flat_map hash_nonce_response m.nonce_responses
      ++ m.message

  unfoldable pub hash_sign_share_response : SignatureShareResponse w → Bytes
  hash_sign_share_response m =
      codes "SIGNATURE_SHARE_RESPONSE"
      ++ u64_bytes m.dkg_id
      ++ u64_bytes m.sign_id
      ++ u64_bytes m.correlation_id
      ++ u32_bytes m.signer_id
      ++ flat_map (λ s. u32_bytes (w.share_id s) ++ w.scalar_bytes (w.share_z s)) m.signature_shares

  -- What is hashed of a message's inner part.
  unfoldable pub preimage : {E : Type 0} → MessageTypes w → Outcome E Bytes
  unfolding hash_dkg_begin hash_dkg_end hash_dkg_public_share hash_dkg_private_shares
      hash_nonce_request hash_nonce_response hash_sign_share_request hash_sign_share_response
  preimage (MessageTypes.dkg_begin m) = ok (hash_dkg_begin m)
  preimage (MessageTypes.dkg_private_begin m) = ok (hash_dkg_begin m)
  preimage (MessageTypes.dkg_end m) = ok (hash_dkg_end m)
  preimage (MessageTypes.dkg_public_end m) = ok (hash_dkg_end m)
  preimage (MessageTypes.dkg_public_share m) = ok (hash_dkg_public_share m)
  preimage (MessageTypes.dkg_private_shares m) = hash_dkg_private_shares m
  preimage (MessageTypes.nonce_request m) = ok (hash_nonce_request m)
  preimage (MessageTypes.nonce_response m) = ok (hash_nonce_response m)
  preimage (MessageTypes.sign_share_request m) = ok (hash_sign_share_request m)
  preimage (MessageTypes.sign_share_response m) = ok (hash_sign_share_response m)

  -- `Signable::sign`, in the form in which every caller unwraps it by `expect`.
  unfoldable pub sign : {E : Type 0} → MessageTypes w → w.Scalar → Outcome E Bytes
  unfolding preimage
  sign m private_key = do
    bytes ← preimage m
    g ← unwrap (w.new_signature (w.sha256 bytes) private_key)
    ok (w.signature_bytes g)

  abbrev checks : Option w.EcdsaSignature → Bytes → w.PublicKey → Bool
  checks none hash key = false
  checks (some g) hash key = w.verify_signature g hash key

  -- `Signable::verify`
  unfoldable pub verify : {E : Type 0} → MessageTypes w → Bytes → w.PublicKey → Outcome E Bool
  unfolding preimage
  verify m signature public_key = do
    bytes ← preimage m
    ok (checks (w.parse_signature signature) (w.sha256 bytes) public_key)
