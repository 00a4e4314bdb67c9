-- ===== src/Frost/Round/Sign.antt =====
-- The handlers of a signing round in frost-signer/src/signing_round.rs.
use core_eng.Prelude.{ℕ, List, [], ◌∷◌, ◌++◌, map, flat_map, ◌==◌, if◌then◌else◌}
use core_eng.Prelude.Outcome.{ok}
use core_eng.Prelude.Exec.{◌>>=◌}
use core_eng.Frost.Wsts.{Wsts}
use core_eng.Frost.Messages.{NonceRequest, SignatureShareRequest, MessageTypes}
use core_eng.Frost.Round.Defs.{SigningRound}
use core_eng.Frost.Round.Dkg.{Round, Out}

module _ (w : Wsts) where
  open w use {FrostSigner}

  abbrev drawn : FrostSigner → SigningRound w → SigningRound w
  drawn f s = record s { signer = record s.signer { frost_signer = f }; rng = w.next s.rng }

  unfoldable pub nonce_request : NonceRequest → Round w (Out w)
  nonce_request m s =
      let (f, nonces) = w.gen_nonces s.signer.frost_signer s.rng in
      (
        ok (
            MessageTypes.nonce_response (record {
              dkg_id = m.dkg_id;
              sign_id = m.sign_id;
              sign_nonce_id = m.sign_nonce_id;
              signer_id = s.signer.signer_id;
              key_ids = w.get_key_ids s.signer.frost_signer;
              nonces = nonces;
            })
            ∷ []),
        drawn f s,
      )

  abbrev pub requested : SignatureShareRequest w → List ℕ
  requested m = map (λ nr. nr.signer_id) m.nonce_responses

  -- The body of the loop where the id is this signer's own.
  unfoldable pub sign_once : SignatureShareRequest w → ℕ → Round w (MessageTypes w)
  sign_once m signer_id s =
      let (f, shares) =
        w.sign s.signer.frost_signer m.message (requested m)
          (flat_map (λ nr. nr.key_ids) m.nonce_responses)
          (flat_map (λ nr. nr.nonces) m.nonce_responses) in
      (
        ok (
            MessageTypes.sign_share_response (record {
              dkg_id = m.dkg_id;
              sign_id = m.sign_id;
              correlation_id = m.correlation_id;
              signer_id = signer_id;
              signature_shares = shares;
            })),
        record s { signer = record s.signer { frost_signer = f } },
      )

  unfoldable pub sign_each : SignatureShareRequest w → List ℕ → Out w → Round w (Out w)
  unfolding sign_once
  sign_each m [] msgs s = (ok msgs, s)
  sign_each m (id ∷ ids) msgs s =
      let skipped = sign_each m ids msgs s in
      let signed = (do r ← sign_once m id; sign_each m ids (msgs ++ r ∷ [])) s in
      if id == s.signer.signer_id then signed else skipped

  unfoldable pub sign_share_request : SignatureShareRequest w → Round w (Out w)
  unfolding sign_each
  sign_share_request m = sign_each m (requested m) []
