-- ===== src/Frost/Round/Path.antt =====
-- Every handler of frost-signer/src/signing_round.rs keeps to the cycle of key generation.
use core_eng.Prelude.{List, [], ◌∷◌, ◌++◌, arith, Bool-cases, inl, inr, Map, ◌==◌, ℕ}
use core_eng.Prelude.Outcome.{ok}
use core_eng.Prelude.Exec.{pure, ◌>>◌}
use core_eng.Prelude.Keeps.{Keeps, bind-Keeps, pure-Keeps, read-Keeps}
use core_eng.Frost.Wsts.{Wsts}
use core_eng.Frost.Messages.{MessageTypes, NonceRequest, SignatureShareRequest, DkgBegin}
use core_eng.Frost.States.{States, dkg_public_distribute, dkg_public_gather, dkg_private_gather}
use core_eng.Frost.Round.Defs.{move_to, reset}
use core_eng.Frost.Round.Shares.{seal_row}
use core_eng.Frost.Round.Dkg.{
  Out, dkg_begin, dkg_public_begin, public_share_msgs, dkg_private_begin, send_rows, send_row,
  push_row, dkg_public_share, dkg_private_shares,
}
use core_eng.Frost.Round.Sign.{nonce_request, sign_share_request, sign_each, sign_once}
use core_eng.Frost.Round.Process.{dispatch}
use core_eng.Frost.Round.Edges.{
  IsDkgTarget, Still, Evolves, Still-order, order, keep-Still, move_to-Evolves,
}

module _ (w : Wsts) where
  reset-Still : (id : ℕ) → Keeps (Still w) (reset w id)
  unfolding reset
  reset-Still id = record { at = λ s. ground arith }

  public_share_msgs-Still : Keeps (Still w) (public_share_msgs w)
  unfolding public_share_msgs
  public_share_msgs-Still = record { at = λ s. ground arith }

  nonce_request-Still : (m : NonceRequest) → Keeps (Still w) (nonce_request w m)
  unfolding nonce_request
  nonce_request-Still m = record { at = λ s. ground arith }

  sign_once-Still : (m : SignatureShareRequest w) (id : ℕ) → Keeps (Still w) (sign_once w m id)
  unfolding sign_once
  sign_once-Still m id = record { at = λ s. ground arith }

  sign_each-Still :
      (m : SignatureShareRequest w) (ids : List ℕ) (msgs : Out w)
      → Keeps (Still w) (sign_each w m ids msgs)
  unfolding sign_each
  sign_each-Still m [] msgs = record { at = λ s. (Still-order w).here s }
  sign_each-Still m (id ∷ ids) msgs = record {
    at = λ s. elim (Bool-cases (id == s.signer.signer_id)) [
      | inl own ↦ rw own (
          (bind-Keeps (Still w) (Still-order w) (sign_once w m id) _ (sign_once-Still m id)
              (λ r. sign_each-Still m ids (msgs ++ r ∷ []))).at
            s)
      | inr other ↦ rw other ((sign_each-Still m ids msgs).at s)
    ];
  }

  send_row-Still : (msgs : Out w) (row : ℕ × Map w.Scalar) → Keeps (Still w) (send_row w msgs row)
  unfolding send_row push_row
  send_row-Still msgs (key_id, row) =
      read-Keeps (Still w) (Still-order w)
        (λ s. seal_row w s.network_private_key s.public_keys s.rng row) _
        λ sealed. record { at = λ s. ground arith }

  send_rows-Still :
      (msgs : Out w) (rows : List (ℕ × Map w.Scalar)) → Keeps (Still w) (send_rows w msgs rows)
  unfolding send_rows
  send_rows-Still msgs [] = record { at = λ s. (Still-order w).here s }
  send_rows-Still msgs (row ∷ rows) =
      bind-Keeps (Still w) (Still-order w) _ _ (send_row-Still msgs row)
        λ msgs'. send_rows-Still msgs' rows

  move_on :
      (t : States)
      → IsDkgTarget t
      → {A : Type 0} (a : A) → Keeps (Evolves w) (move_to w t >> pure a)
  move_on t d a =
      bind-Keeps (Evolves w) (order w) _ _ (move_to-Evolves w t d)
        λ _. pure-Keeps (Evolves w) (order w) a

  dkg_public_begin-Evolves : Keeps (Evolves w) (dkg_public_begin w)
  unfolding dkg_public_begin
  dkg_public_begin-Evolves =
      bind-Keeps (Evolves w) (order w) _ _ (keep-Still w public_share_msgs-Still)
        λ msgs. move_on dkg_public_gather (ground arith) msgs

  dkg_begin-Evolves : (m : DkgBegin) → Keeps (Evolves w) (dkg_begin w m)
  unfolding dkg_begin
  dkg_begin-Evolves m =
      bind-Keeps (Evolves w) (order w) _ _ (keep-Still w (reset-Still m.dkg_id)) λ _.
        bind-Keeps (Evolves w) (order w) _ _
          (move_to-Evolves w dkg_public_distribute (ground arith)) λ _. dkg_public_begin-Evolves

  dkg_private_begin-Evolves : Keeps (Evolves w) (dkg_private_begin w)
  unfolding dkg_private_begin
  dkg_private_begin-Evolves =
      read-Keeps (Evolves w) (order w) (λ s. ok (w.get_shares s.signer.frost_signer)) _
        λ rows.
          bind-Keeps (Evolves w) (order w) _ _ (keep-Still w (send_rows-Still [] rows))
            λ msgs. move_on dkg_private_gather (ground arith) msgs

  pub dispatch-Evolves : (m : MessageTypes w) → Keeps (Evolves w) (dispatch w m)
  unfolding dispatch dkg_public_share dkg_private_shares sign_share_request
  dispatch-Evolves (MessageTypes.dkg_begin m) = dkg_begin-Evolves m
  dispatch-Evolves (MessageTypes.dkg_private_begin m) = dkg_private_begin-Evolves
  dispatch-Evolves (MessageTypes.dkg_public_share m) =
      keep-Still w (record { at = λ s. ground arith })
  dispatch-Evolves (MessageTypes.dkg_private_shares m) =
      keep-Still w (record { at = λ s. ground arith })
  dispatch-Evolves (MessageTypes.sign_share_request m) = keep-Still w (sign_each-Still m _ [])
  dispatch-Evolves (MessageTypes.nonce_request m) = keep-Still w (nonce_request-Still m)
  dispatch-Evolves (MessageTypes.dkg_end m) = pure-Keeps (Evolves w) (order w) []
  dispatch-Evolves (MessageTypes.dkg_public_end m) = pure-Keeps (Evolves w) (order w) []
  dispatch-Evolves (MessageTypes.nonce_response m) = pure-Keeps (Evolves w) (order w) []
  dispatch-Evolves (MessageTypes.sign_share_response m) = pure-Keeps (Evolves w) (order w) []
