-- ===== src/Frost/Messages.antt =====
-- The messages of frost-signer/src/signing_round.rs. Ids are u32 and u64 values as numbers.
use core_eng.Prelude.{ℕ, List, Text, Map}
use core_eng.Frost.Wsts.{Wsts, Bytes}

pub data DkgStatus : Type 0 where
  success : DkgStatus
  failure : Text → DkgStatus

pub record DkgBegin : Type 0 where
  pub dkg_id : ℕ

pub record DkgEnd : Type 0 where
  pub dkg_id : ℕ
  pub signer_id : ℕ
  pub status : DkgStatus

pub record DkgPrivateShares : Type 0 where
  pub dkg_id : ℕ
  pub key_id : ℕ
  pub private_shares : Map Bytes

pub record NonceRequest : Type 0 where
  pub dkg_id : ℕ
  pub sign_id : ℕ
  pub sign_nonce_id : ℕ

module _ (w : Wsts) where
  open w use {PolyCommitment, PublicNonce, SignatureShare, PublicKey}

  pub record DkgPublicShare : Type 0 where
    pub dkg_id : ℕ
    pub dkg_public_id : ℕ
    pub party_id : ℕ
    pub public_share : PolyCommitment

  pub record NonceResponse : Type 0 where
    pub dkg_id : ℕ
    pub sign_id : ℕ
    pub sign_nonce_id : ℕ
    pub signer_id : ℕ
    pub key_ids : List ℕ
    pub nonces : List PublicNonce

  pub record SignatureShareRequest : Type 0 where
    pub dkg_id : ℕ
    pub sign_id : ℕ
    pub correlation_id : ℕ
    pub nonce_responses : List NonceResponse
    pub message : Bytes

  pub record SignatureShareResponse : Type 0 where
    pub dkg_id : ℕ
    pub sign_id : ℕ
    pub correlation_id : ℕ
    pub signer_id : ℕ
    pub signature_shares : List SignatureShare

  pub data MessageTypes : Type 0 where
    dkg_begin : DkgBegin → MessageTypes
    dkg_private_begin : DkgBegin → MessageTypes
    dkg_end : DkgEnd → MessageTypes
    dkg_public_end : DkgEnd → MessageTypes
    dkg_public_share : DkgPublicShare → MessageTypes
    dkg_private_shares : DkgPrivateShares → MessageTypes
    nonce_request : NonceRequest → MessageTypes
    nonce_response : NonceResponse → MessageTypes
    sign_share_request : SignatureShareRequest → MessageTypes
    sign_share_response : SignatureShareResponse → MessageTypes

  -- frost-signer/src/net.rs `Message`: what goes over the wire.
  pub record Message : Type 0 where
    pub msg : MessageTypes
    pub sig : Bytes

  -- frost-signer/src/config.rs `PublicKeys`
  pub record PublicKeys : Type 0 where
    pub signers : Map PublicKey
    pub key_ids : Map PublicKey
