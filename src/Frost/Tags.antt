-- ===== src/Frost/Tags.antt =====
-- The tags of `Signable::hash` in frost-signer/src/signing_round.rs keep the kinds of message apart.
use core_eng.Prelude.{
  ℕ, zero, suc, ◌<◌, ◌^◌, List, [], ◌∷◌, ◌++◌, ◌≡◌, codes, arith, be_bytes-injective, if◌then◌else◌,
  ◌==◌,
}
use core_eng.Frost.Wsts.{Wsts, Bytes}
use core_eng.Frost.Messages.{DkgBegin, MessageTypes}
use core_eng.Frost.Hash.{hash_dkg_begin}

-- The kinds of inner message: `DkgBegin` and `DkgEnd` each serve two messages.
pub data Kind : Type 0 where
  begin end public_share private_shares request response : Kind
  share_request share_response other : Kind

abbrev byte_at : Bytes → ℕ → ℕ
byte_at [] i = 0
byte_at (x ∷ xs) zero = x
byte_at (x ∷ xs) (suc i) = byte_at xs i

-- An independent reading of the kind from four bytes of what is hashed.
abbrev kind_of : Bytes → Kind
kind_of p =
    if byte_at p 0 == b'D'
    then (if byte_at p 4 == b'B'
        then begin
        else if byte_at p 4 == b'E'
        then end
        else if byte_at p 5 == b'U'
        then public_share
        else private_shares)
    else if byte_at p 0 == b'N'
    then (if byte_at p 8 == b'Q' then request else response)
    else if byte_at p 18 == b'Q'
    then share_request
    else share_response

module _ (w : Wsts) where
  abbrev pub kind : MessageTypes w → Kind
  kind (MessageTypes.dkg_begin m) = begin
  kind (MessageTypes.dkg_private_begin m) = begin
  kind (MessageTypes.dkg_end m) = end
  kind (MessageTypes.dkg_public_end m) = end
  kind (MessageTypes.dkg_public_share m) = public_share
  kind (MessageTypes.dkg_private_shares m) = private_shares
  kind (MessageTypes.nonce_request m) = request
  kind (MessageTypes.nonce_response m) = response
  kind (MessageTypes.sign_share_request m) = share_request
  kind (MessageTypes.sign_share_response m) = share_response

append-cancel {ℓ} : {A : Type ℓ} (xs : List A) {ys zs : List A} → xs ++ ys ≡ xs ++ zs → ys ≡ zs
append-cancel [] h = h
append-cancel (x ∷ xs) h = append-cancel xs (cc h)

-- A signature over `DkgBegin` is for its round: different u64 ids hash different bytes.
hash_dkg_begin-injective :
    (m m' : DkgBegin)
    → m.dkg_id < 256 ^ 8
    → m'.dkg_id < 256 ^ 8
    → hash_dkg_begin m ≡ hash_dkg_begin m'
    → m ≡ m'
unfolding hash_dkg_begin
hash_dkg_begin-injective m m' h h' e =
    let same = be_bytes-injective 8 m.dkg_id m'.dkg_id h h' (append-cancel (codes "DKG_BEGIN") e) in
    ground (arith, same)
