-- ===== src/Frost/Coordinator/Sign.antt =====
-- Signing in frost-coordinator/src/coordinator.rs.
use core_eng.Prelude.{
  ℕ, zero, suc, List, [], ◌∷◌, Bool, insert, keys, values, erase, contains, is_empty, length,
  flat_map, map, ◌==◌, true, false, if◌then◌else◌,
}
use core_eng.Prelude.Outcome.{ok, err, ok_or}
use core_eng.Prelude.Exec.{pure, raise, modify, ◌>>=◌, ◌>>◌}
use core_eng.Frost.Wsts.{Wsts, Bytes}
use core_eng.Frost.Messages.{Message, MessageTypes, NonceResponse, NonceRequest}
use core_eng.Frost.Coordinator.Defs.{
  Aggregation, Coordinator, Run, timeout, no_aggregate_public_key, aggregator, send_signed,
  take_message,
}
use core_eng.Frost.Coordinator.Finish.{finish_signature}

module _ (w : Wsts) (a : Aggregation w) where
  -- The `match` of the nonce loop: a response is kept under its signer's id, whatever its ids are.
  unfoldable pub on_nonce : MessageTypes w → Coordinator w → Coordinator w
  on_nonce (MessageTypes.nonce_response m) s = record s {
    public_nonces = insert m.signer_id m s.public_nonces;
  }
  on_nonce (MessageTypes.nonce_request m) s = s
  on_nonce (MessageTypes.dkg_begin m) s = s
  on_nonce (MessageTypes.dkg_private_begin m) s = s
  on_nonce (MessageTypes.dkg_end m) s = s
  on_nonce (MessageTypes.dkg_public_end m) s = s
  on_nonce (MessageTypes.dkg_public_share m) s = s
  on_nonce (MessageTypes.dkg_private_shares m) s = s
  on_nonce (MessageTypes.sign_share_request m) s = s
  on_nonce (MessageTypes.sign_share_response m) s = s

  unfoldable pub nonces_complete : Coordinator w → Bool
  nonces_complete s = length s.public_nonces == s.total_signers

  unfoldable pub nonce_loop : List (Message w) → Run w (Unit {0})
  unfolding on_nonce nonces_complete
  nonce_loop [] s = (err timeout, s)
  nonce_loop (m ∷ rest) s =
      let t = on_nonce m.msg (take_message w rest s) in
      let more = nonce_loop rest t in if nonces_complete t then (ok tt, t) else more

  unfoldable pub next_request : Coordinator w → NonceRequest
  next_request s = record {
    dkg_id = s.current_dkg_id;
    sign_id = s.current_sign_id;
    sign_nonce_id = s.current_sign_nonce_id;
  }

  unfoldable pub request_nonces : Run w (Unit {0})
  unfolding next_request send_signed
  request_nonces s = send_signed w (MessageTypes.nonce_request (next_request s)) s

  unfoldable pub await_nonces : Run w (Unit {0})
  unfolding nonce_loop
  await_nonces s = nonce_loop s.network.inbox s

  unfoldable pub collect_nonces : Run w (Unit {0})
  unfolding request_nonces await_nonces
  collect_nonces = do modify (λ s. record s { public_nonces = [] }); request_nonces; await_nonces

  unfoldable pub aggregate_nonce : Bytes → Coordinator w → w.Point
  aggregate_nonce msg s =
      a.intermediate msg (flat_map (λ pn. pn.key_ids) (values s.public_nonces))
        (flat_map (λ pn. pn.nonces) (values s.public_nonces))

  unfoldable pub compute_aggregate_nonce : Bytes → Run w w.Point
  unfolding collect_nonces aggregate_nonce
  compute_aggregate_nonce msg = do collect_nonces; λ s. (ok (aggregate_nonce msg s), s)

  -- `if R.has_even_y() { break }`
  abbrev pub nonces_even : Bool → Run w (Unit {0}) → Run w (Unit {0})
  nonces_even true again = pure tt
  nonces_even false again = again

  -- `loop { … if R.has_even_y() { break } }` on fuel: each round takes a message from the inbox.
  unfoldable pub nonce_rounds : ℕ → Bytes → Run w (Unit {0})
  unfolding compute_aggregate_nonce
  nonce_rounds zero msg = raise timeout
  nonce_rounds (suc fuel) msg = do
    r ← compute_aggregate_nonce msg
    nonces_even (a.has_even_y r) (nonce_rounds fuel msg)

  unfoldable pub request_signature_shares : List (NonceResponse w) → Bytes → Run w (Unit {0})
  unfolding send_signed
  request_signature_shares responses msg s =
      send_signed w
        (MessageTypes.sign_share_request (record {
          dkg_id = s.current_dkg_id;
          sign_id = s.current_sign_id;
          correlation_id = 0;
          nonce_responses = responses;
          message = msg;
        }))
        s

  -- The `match` of the share loop, over the signers that are still awaited.
  unfoldable pub on_share : MessageTypes w → List ℕ → Coordinator w → List ℕ × Coordinator w
  on_share (MessageTypes.sign_share_response m) ids s =
      if contains m.signer_id ids
      then (
        erase m.signer_id ids,
        record s { signature_shares = insert m.signer_id m.signature_shares s.signature_shares },
      )
      else (ids, s)
  on_share (MessageTypes.sign_share_request m) ids s = (ids, s)
  on_share (MessageTypes.dkg_begin m) ids s = (ids, s)
  on_share (MessageTypes.dkg_private_begin m) ids s = (ids, s)
  on_share (MessageTypes.dkg_end m) ids s = (ids, s)
  on_share (MessageTypes.dkg_public_end m) ids s = (ids, s)
  on_share (MessageTypes.dkg_public_share m) ids s = (ids, s)
  on_share (MessageTypes.dkg_private_shares m) ids s = (ids, s)
  on_share (MessageTypes.nonce_request m) ids s = (ids, s)
  on_share (MessageTypes.nonce_response m) ids s = (ids, s)

  unfoldable pub share_loop : List (Message w) → List ℕ → Run w (Unit {0})
  unfolding on_share
  share_loop [] ids s = if is_empty ids then (ok tt, s) else (err timeout, s)
  share_loop (m ∷ rest) ids s =
      let (left, t) = on_share m.msg ids (take_message w rest s) in
      let more = share_loop rest left t in if is_empty ids then (ok tt, s) else more

  unfoldable pub collect_signature_shares : Run w (Unit {0})
  unfolding share_loop
  collect_signature_shares s = share_loop s.network.inbox (keys s.public_nonces) s

  unfoldable pub make_aggregator : Run w a.Aggregator
  make_aggregator s = (
    ok_or
        (a.new_aggregator s.total_keys s.threshold
          (map (λ ps. ps.public_share) (values s.dkg_public_shares)))
        aggregator,
    s,
  )

  unfoldable pub nonce_responses : Run w (List (NonceResponse w))
  nonce_responses s = (ok (values s.public_nonces), s)

  unfoldable pub finish :
      Bytes → a.Aggregator → List (NonceResponse w) → Run w (a.Signature × a.SchnorrProof)
  unfolding finish_signature
  finish msg agg responses s = (finish_signature w a msg agg responses s, s)

  -- What follows the nonce rounds.
  unfoldable pub sign_with_nonces : Bytes → Run w (a.Signature × a.SchnorrProof)
  unfolding make_aggregator nonce_responses request_signature_shares collect_signature_shares finish
  sign_with_nonces msg = do
    agg ← make_aggregator
    responses ← nonce_responses
    request_signature_shares responses msg
    collect_signature_shares
    finish msg agg responses

  unfoldable pub sign_message : Bytes → Run w (a.Signature × a.SchnorrProof)
  unfolding nonce_rounds sign_with_nonces
  sign_message msg s =
      if a.point_eq s.aggregate_public_key a.default_point
      then (err no_aggregate_public_key, s)
      else (do nonce_rounds (suc (length s.network.inbox)) msg; sign_with_nonces msg) s
