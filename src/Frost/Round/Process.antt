-- ===== src/Frost/Round/Process.antt =====
-- `SigningRound::process` of frost-signer/src/signing_round.rs, and a run over many messages.
use core_eng.Prelude.{List, [], ◌∷◌, ◌++◌, if◌then◌else◌}
use core_eng.Prelude.Outcome.{ok}
use core_eng.Prelude.Exec.{pure, ◌>>=◌, ◌>>◌}
use core_eng.Frost.Wsts.{Wsts}
use core_eng.Frost.Messages.{MessageTypes}
use core_eng.Frost.States.{dkg_private_distribute, idle}
use core_eng.Frost.Round.Defs.{move_to, public_shares_done, can_dkg_end}
use core_eng.Frost.Round.Dkg.{
  Round, Out, dkg_public_ended, dkg_ended, dkg_begin, dkg_private_begin, dkg_public_share,
  dkg_private_shares,
}
use core_eng.Frost.Round.Sign.{nonce_request, sign_share_request}

module _ (w : Wsts) where
  unfoldable pub dispatch : MessageTypes w → Round w (Out w)
  dispatch (MessageTypes.dkg_begin m) = dkg_begin w m
  dispatch (MessageTypes.dkg_private_begin m) = dkg_private_begin w
  dispatch (MessageTypes.dkg_public_share m) = dkg_public_share w m
  dispatch (MessageTypes.dkg_private_shares m) = dkg_private_shares w m
  dispatch (MessageTypes.sign_share_request m) = sign_share_request w m
  dispatch (MessageTypes.nonce_request m) = nonce_request w m
  dispatch (MessageTypes.dkg_end m) = pure []
  dispatch (MessageTypes.dkg_public_end m) = pure []
  dispatch (MessageTypes.nonce_response m) = pure []
  dispatch (MessageTypes.sign_share_response m) = pure []

  unfoldable pub end_public : Out w → Round w (Out w)
  unfolding dkg_public_ended move_to
  end_public out = do m ← dkg_public_ended w; move_to w dkg_private_distribute; pure (out ++ m ∷ [])

  unfoldable pub end_private : Out w → Round w (Out w)
  unfolding move_to
  end_private out = do m ← dkg_ended w; move_to w idle; pure (out ++ m ∷ [])

  -- The tests and the end of a phase, after a handler that returned `Ok`.
  unfoldable pub after_dispatch : Out w → Round w (Out w)
  after_dispatch out s =
      if public_shares_done w s
      then end_public out s
      else if can_dkg_end w s
      then end_private out s
      else (ok out, s)

  unfoldable pub process : MessageTypes w → Round w (Out w)
  process m = do out ← dispatch m; after_dispatch out

  -- The loop of `start_signing_round`: it ends at the first message that fails.
  unfoldable pub run : List (MessageTypes w) → Round w (Out w)
  run [] = pure []
  run (m ∷ ms) = do out ← process m; rest ← run ms; pure (out ++ rest)
