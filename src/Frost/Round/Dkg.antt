-- ===== src/Frost/Round/Dkg.antt =====
-- The handlers of key generation in frost-signer/src/signing_round.rs.
use core_eng.Prelude.{
  ℕ, List, [], ◌∷◌, ◌++◌, Option, none, some, Map, insert, values, map, is_empty, Text,
  debug_numbers, if◌then◌else◌,
}
use core_eng.Prelude.Outcome.{ok}
use core_eng.Prelude.Exec.{Exec, pure, gets, ◌>>=◌, ◌>>◌}
use core_eng.Frost.Wsts.{Wsts}
use core_eng.Frost.Messages.{
  DkgBegin, DkgStatus, success, failure, DkgPublicShare, DkgPrivateShares, MessageTypes,
}
use core_eng.Frost.States.{dkg_public_distribute, dkg_public_gather, dkg_private_gather}
use core_eng.Frost.Round.Defs.{Error, SigningRound, move_to, reset}
use core_eng.Frost.Round.Shares.{Opened, open_all, Sealing, seal_row}

module _ (w : Wsts) where
  open w use {PolyCommitment, FrostSigner, Scalar}

  abbrev pub Round {ℓ} : Type ℓ → Type ℓ
  Round A = Exec (SigningRound w) Error A

  abbrev pub Out : Type 0
  Out = List (MessageTypes w)

  abbrev set_frost_signer : FrostSigner → SigningRound w → SigningRound w
  set_frost_signer f s = record s { signer = record s.signer { frost_signer = f } }

  unfoldable pub dkg_public_ended : Round (MessageTypes w)
  dkg_public_ended s = (
    ok (
        MessageTypes.dkg_public_end
          (record { dkg_id = s.dkg_id; signer_id = s.signer.signer_id; status = success })),
    s,
  )

  abbrev status_of : Option Text → DkgStatus
  status_of none = success
  status_of (some text) = failure text

  -- The status, and the signer: `compute_secrets` runs only if every share was opened.
  unfoldable pub finish_shares : SigningRound w → Opened w (Map Scalar) → FrostSigner × DkgStatus
  finish_shares s o =
      if is_empty o.invalid
      then (let (f, e) = w.compute_secrets s.signer.frost_signer o.opened (values s.commitments) in
          (f, status_of e))
      else (s.signer.frost_signer, failure (debug_numbers o.invalid))

  unfoldable pub conclude : Opened w (Map Scalar) → Round (MessageTypes w)
  unfolding finish_shares
  conclude o s =
      let (f, status) = finish_shares s o in
      (
        ok (
            MessageTypes.dkg_end
              (record { dkg_id = s.dkg_id; signer_id = s.signer.signer_id; status = status })),
        set_frost_signer f s,
      )

  unfoldable pub dkg_ended : Round (MessageTypes w)
  unfolding open_all
  dkg_ended = do
    o ← λ s. (
      open_all w s.network_private_key s.public_keys (w.get_key_ids s.signer.frost_signer) s.shares,
      s,
    )
    conclude o

  abbrev public_share : SigningRound w → PolyCommitment → MessageTypes w
  public_share s poly = MessageTypes.dkg_public_share (record {
    dkg_id = s.dkg_id;
    dkg_public_id = s.dkg_public_id;
    party_id = w.poly_id poly;
    public_share = poly;
  })

  unfoldable pub public_share_msgs : Round Out
  public_share_msgs s = (
    ok (map (public_share s) (w.get_poly_commitments s.signer.frost_signer s.rng)),
    record s { rng = w.next s.rng },
  )

  unfoldable pub dkg_public_begin : Round Out
  unfolding public_share_msgs move_to
  dkg_public_begin = do msgs ← public_share_msgs; move_to w dkg_public_gather; pure msgs

  unfoldable pub dkg_begin : DkgBegin → Round Out
  unfolding reset move_to
  dkg_begin m = do reset w m.dkg_id; move_to w dkg_public_distribute; dkg_public_begin

  abbrev private_shares : ℕ → SigningRound w → Sealing w → Out → Out
  private_shares key_id s sealed msgs =
      msgs
      ++ MessageTypes.dkg_private_shares
          (record { dkg_id = s.dkg_id; key_id = key_id; private_shares = sealed.encrypted })
        ∷ []

  unfoldable pub push_row : ℕ → Out → Sealing w → Round Out
  push_row key_id msgs sealed s =
      (ok (private_shares key_id s sealed msgs), record s { rng = sealed.rng })

  -- One round of the loop over `get_shares`: the message is pushed and the entropy drawn.
  unfoldable pub send_row : Out → ℕ × Map Scalar → Round Out
  unfolding push_row
  send_row msgs (key_id, row) = do
    sealed ← λ s. (seal_row w s.network_private_key s.public_keys s.rng row, s)
    push_row key_id msgs sealed

  unfoldable pub send_rows : Out → List (ℕ × Map Scalar) → Round Out
  unfolding send_row
  send_rows msgs [] = pure msgs
  send_rows msgs (row ∷ rows) = do msgs' ← send_row msgs row; send_rows msgs' rows

  unfoldable pub dkg_private_begin : Round Out
  unfolding send_rows move_to
  dkg_private_begin = do
    rows ← gets (λ s. w.get_shares s.signer.frost_signer)
    msgs ← send_rows [] rows
    move_to w dkg_private_gather
    pure msgs

  unfoldable pub dkg_public_share : DkgPublicShare w → Round Out
  dkg_public_share m s =
      (ok [], record s { commitments = insert m.party_id m.public_share s.commitments })

  unfoldable pub dkg_private_shares : DkgPrivateShares → Round Out
  dkg_private_shares m s = (ok [], record s { shares = insert m.key_id m.private_shares s.shares })
