-- ===== src/Frost/Authentic.antt =====
-- What the signature check of frost-signer/src/signer.rs accepts.
use core_eng.Prelude.{
  ◌⊎◌, ℕ, ◌+◌, ◌%◌, ◌^◌, List, [], ◌∷◌, ◌≡◌, refl, Option, none, some, true, get, arith,
  Option-cases, inl, inr, All, length,
}
use core_eng.Prelude.Outcome.{ok, unwrap, bind-ok}
use core_eng.Frost.Wsts.{Wsts, Bytes}
use core_eng.Frost.Laws.{Laws}
use core_eng.Frost.Messages.{Message, MessageTypes, PublicKeys, DkgEnd, DkgStatus}
use core_eng.Frost.Hash.{verify, sign, preimage, hash_dkg_end}
use core_eng.Frost.Verify.{verify_known, verify_kind, verify_msg, poll_loop, Polled, next_timeout}

-- The sleeps that doubling from 2 ms up to 128 ms gives, and 0 after a message.
abbrev pub IsBackoff : ℕ → Type 0
IsBackoff t = (t ≡ 0) ⊎ (t ≡ 2) ⊎ (t ≡ 4) ⊎ (t ≡ 8) ⊎ (t ≡ 16) ⊎ (t ≡ 32) ⊎ (t ≡ 64) ⊎ (t ≡ 128)

next_timeout-IsBackoff : (t : ℕ) → IsBackoff t → IsBackoff (next_timeout t)
unfolding next_timeout
next_timeout-IsBackoff t h = ground arith

module _ (w : Wsts) where
  -- The key under which a message has to be signed: the coordinator's for its requests, and for
  -- the rest that of the signer or key that the message names, if it is configured.
  unfoldable pub signer_key : MessageTypes w → PublicKeys w → w.PublicKey → Option w.PublicKey
  signer_key (MessageTypes.dkg_begin x) keys coordinator = some coordinator
  signer_key (MessageTypes.dkg_private_begin x) keys coordinator = some coordinator
  signer_key (MessageTypes.nonce_request x) keys coordinator = some coordinator
  signer_key (MessageTypes.sign_share_request x) keys coordinator = some coordinator
  signer_key (MessageTypes.dkg_public_share x) keys coordinator = get x.party_id keys.key_ids
  signer_key (MessageTypes.dkg_private_shares x) keys coordinator =
      get ((x.key_id + 1) % 2 ^ 32) keys.key_ids
  signer_key (MessageTypes.dkg_end x) keys coordinator = get x.signer_id keys.signers
  signer_key (MessageTypes.dkg_public_end x) keys coordinator = get x.signer_id keys.signers
  signer_key (MessageTypes.nonce_response x) keys coordinator = get x.signer_id keys.signers
  signer_key (MessageTypes.sign_share_response x) keys coordinator = get x.signer_id keys.signers

  kind-known :
      (x : MessageTypes w) (m : Message w) (keys : PublicKeys w) (c : w.PublicKey)
      → verify_kind w {E = ⊥} x m keys c ≡ verify_known w m (signer_key x keys c)
  unfolding verify_kind verify_known signer_key
  kind-known (MessageTypes.dkg_begin x) m keys c = refl
  kind-known _ m keys c = refl

  -- A signature that the key verifies over the bytes of the message.
  pub record IsSigned (m : Message w) (key : w.PublicKey) : Type 0 where
    pub bytes : Bytes
    pub signature : w.EcdsaSignature
    pub hashes : preimage w {E = ⊥} m.msg ≡ ok bytes
    pub parses : w.parse_signature m.sig ≡ some signature
    pub verifies : w.verify_signature signature (w.sha256 bytes) key ≡ true

  verify_sound :
      (m : Message w) (key : w.PublicKey)
      → verify w {E = ⊥} m.msg m.sig key ≡ ok true
      → IsSigned m key
  unfolding verify
  verify_sound m key h =
      let (bytes, e, k) = bind-ok (preimage w m.msg) _ true h in
      elim (Option-cases (w.parse_signature m.sig)) [
        | inl q ↦ cc (rw q at k)
        | inr (g, q) ↦ record {
          bytes = bytes;
          signature = g;
          hashes = e;
          parses = q;
          verifies = ground arith;
        }
      ]

  -- `verify_msg` returns true only for a message under a signature that the key of its sender
  -- verifies over the hashed bytes: the key of the coordinator for its requests, else that
  -- configured for the signer or key id that the message names; one that names an unknown sender
  -- never passes.
  pub verify_msg_sound :
      (m : Message w) (keys : PublicKeys w) (c : w.PublicKey)
      → verify_msg w {E = ⊥} m keys c ≡ ok true
      → (key : w.PublicKey) × (signer_key m.msg keys c ≡ some key) × IsSigned m key
  unfolding verify_msg verify_known
  verify_msg_sound m keys c h = go (signer_key m.msg keys c) refl
    where
      known : verify_known w {E = ⊥} m (signer_key m.msg keys c) ≡ ok true
      known = rw (← kind-known m.msg m keys c) h

      go :
          (o : Option w.PublicKey)
          → signer_key m.msg keys c ≡ o
          → (key : w.PublicKey) × (signer_key m.msg keys c ≡ some key) × IsSigned m key
      go none e = cc (rw (e, verify_known) at known)
      go (some key) e = (key, e, verify_sound m key (rw (e, verify_known) at known))

  -- The status of a `DkgEnd` is not signed: whoever relays the message may turn `Success` into
  -- `Failure`, or back, and it passes the check as before.
  pub verify_msg-status :
      (m : DkgEnd) (status : DkgStatus) (sig : Bytes) (keys : PublicKeys w) (c : w.PublicKey)
      → (verify_msg w {E = ⊥}
            (record { msg = MessageTypes.dkg_end (record m { status = status }); sig = sig })
            keys
            c
          ≡ verify_msg w (record { msg = MessageTypes.dkg_end m; sig = sig }) keys c)
  unfolding verify_msg verify_known verify preimage hash_dkg_end
  verify_msg-status m status sig keys c = ground arith

  -- What the owner of a private key signs passes wherever that key is the sender's, if the laws of
  -- the cryptography hold.
  pub verify_msg-sign :
      (l : Laws w) (x : MessageTypes w) (a : w.Scalar) (sig : Bytes) (keys : PublicKeys w)
      (c : w.PublicKey)
      → sign w {E = ⊥} x a ≡ ok sig
      → signer_key x keys c ≡ some (l.key_of a)
      → verify_msg w {E = ⊥} (record { msg = x; sig = sig }) keys c ≡ ok true
  unfolding verify_msg verify_known verify sign
  verify_msg-sign l x a sig keys c h k =
      let (bytes, e, h') = bind-ok (preimage w x) _ sig h in
      let (g, n, h'') = bind-ok (unwrap (w.new_signature (w.sha256 bytes) a)) _ sig h' in
      let made : w.new_signature (w.sha256 bytes) a ≡ some g = ground arith in
      let same : w.signature_bytes g ≡ sig = ground arith in
      rw
        (
          kind-known x (record { msg = x; sig = sig }) keys c,
          k,
          verify_known,
          verify,
          e,
          ← same,
          l.parse-signature g,
        )
        (rw (l.verify-new (w.sha256 bytes) a g made) refl)

  abbrev pub IsAccepted : PublicKeys w → w.PublicKey → Message w → Type 0
  IsAccepted keys c m = verify_msg w {E = ⊥} m keys c ≡ ok true

  -- Whatever arrives, if `poll_loop` starts from 0 or a power of 2 from 2 to 128 and does not
  -- panic, it hands on verified messages only, and sleeps once after each poll, for 0 or a power of
  -- 2 from 2 to 128 milliseconds.
  pub poll_loop_sound :
      (keys : PublicKeys w) (c : w.PublicKey) (timeout : ℕ) (polls : List (Option (Message w)))
      (p : Polled w)
      → IsBackoff timeout
      → poll_loop w {E = ⊥} keys c timeout polls ≡ ok p
      → All (IsAccepted keys c) p.sent × All IsBackoff p.sleeps × (length p.sleeps ≡ length polls)
  unfolding poll_loop
  poll_loop_sound keys c timeout [] p b h = ground arith
  poll_loop_sound keys c timeout (none ∷ polls) p b h =
      let (rest, e, q) = bind-ok (poll_loop w {E = ⊥} keys c (next_timeout timeout) polls) _ p h in
      ground (
        arith,
        poll_loop_sound keys c (next_timeout timeout) polls rest (next_timeout-IsBackoff timeout b)
            e,
        next_timeout-IsBackoff timeout b,
      )
  poll_loop_sound keys c timeout (some m ∷ polls) p b h =
      let (v, a, h') = bind-ok (verify_msg w {E = ⊥} m keys c) _ p h in
      let (rest, e, q) = bind-ok (poll_loop w {E = ⊥} keys c 0 polls) _ p h' in
      ground (arith, poll_loop_sound keys c 0 polls rest (inl refl) e)
