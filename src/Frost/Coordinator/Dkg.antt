-- ===== src/Frost/Coordinator/Dkg.antt =====
-- Key generation in frost-coordinator/src/coordinator.rs. A loop over messages recurs on the
-- inbox, which each of its rounds shortens by one.
use core_eng.Prelude.{
  ℕ, ◌+◌, ◌%◌, ◌^◌, List, [], ◌∷◌, Map, insert, values, erase, is_empty, if◌then◌else◌,
}
use core_eng.Prelude.Outcome.{Outcome, ok, err, panic}
use core_eng.Prelude.Exec.{pure, raise, gets, modify, ◌>>=◌, ◌>>◌, fold_outcome}
use core_eng.Frost.Wsts.{Wsts}
use core_eng.Frost.Messages.{Message, MessageTypes, DkgPublicShare}
use core_eng.Frost.Coordinator.Defs.{
  Aggregation, Run, Error, timeout, no_aggregate_public_key, send_signed, take_message, ids_from,
}

-- The `if ids_to_await.is_empty()` at the head of the loop: the key, or the ids to go on with.
pub data Head (P : Type 0) : Type 0 where
  done : P → Head P
  await : List ℕ → Head P

module _ (w : Wsts) (a : Aggregation w) where
  unfoldable pub send_begin : Run w (Unit {0})
  unfolding send_signed
  send_begin s = send_signed w (MessageTypes.dkg_begin (record { dkg_id = s.current_dkg_id })) s

  unfoldable pub start_public_shares : Run w (Unit {0})
  unfolding send_begin
  start_public_shares = do modify (λ s. record s { dkg_public_shares = [] }); send_begin

  unfoldable pub start_private_shares : Run w (Unit {0})
  unfolding send_signed
  start_private_shares s =
      send_signed w (MessageTypes.dkg_private_begin (record { dkg_id = s.current_dkg_id })) s

  abbrev first_point : List w.Point → Outcome Error w.Point
  first_point [] = panic
  first_point (p ∷ ps) = ok p

  -- `s + dps.public_share.A[0]`, where the index panics on a polynomial without points.
  unfoldable pub add_share : w.Point → DkgPublicShare w → Outcome Error w.Point
  add_share sum dps = elim (first_point (w.poly_points dps.public_share)) [
    | ok p ↦ ok (a.add sum p)
    | err e ↦ err e
    | panic ↦ panic
  ]

  unfoldable pub sum_of_shares : Map (DkgPublicShare w) → Outcome Error w.Point
  unfolding add_share
  sum_of_shares shares = fold_outcome add_share a.default_point (values shares)

  unfoldable pub calculate_aggregate_public_key : Run w w.Point
  unfolding sum_of_shares
  calculate_aggregate_public_key = do
    key ← λ s. (sum_of_shares s.dkg_public_shares, s)
    modify (λ s. record s { aggregate_public_key = key })
    pure key

  unfoldable pub check_key : w.Point → Run w (Head w.Point)
  unfolding start_public_shares
  check_key key s =
      if a.has_even_y key
      then (ok (done key), record s { aggregate_public_key = key })
      else (do start_public_shares; gets (λ s. await (ids_from w 1 s.total_signers))) s

  unfoldable pub loop_head : List ℕ → Run w (Head w.Point)
  unfolding calculate_aggregate_public_key check_key
  loop_head ids =
      if is_empty ids
      then (do key ← calculate_aggregate_public_key; check_key key)
      else pure (await ids)

  -- The `match` on a message, which has left the inbox.
  unfoldable pub on_public : MessageTypes w → List ℕ → Run w (List ℕ)
  on_public (MessageTypes.dkg_public_end m) ids = pure (erase m.signer_id ids)
  on_public (MessageTypes.dkg_public_share m) ids = do
    modify (λ s. record s { dkg_public_shares = insert m.party_id m s.dkg_public_shares })
    pure ids
  on_public (MessageTypes.dkg_begin m) ids = pure ids
  on_public (MessageTypes.dkg_private_begin m) ids = pure ids
  on_public (MessageTypes.dkg_end m) ids = pure ids
  on_public (MessageTypes.dkg_private_shares m) ids = pure ids
  on_public (MessageTypes.nonce_request m) ids = pure ids
  on_public (MessageTypes.nonce_response m) ids = pure ids
  on_public (MessageTypes.sign_share_request m) ids = pure ids
  on_public (MessageTypes.sign_share_response m) ids = pure ids

  -- `return Ok(key)`, or the rest of the loop.
  abbrev pub proceed : Head w.Point → (List ℕ → Run w w.Point) → Run w w.Point
  proceed (done key) rest = pure key
  proceed (await left) rest = rest left

  unfoldable pub public_loop : List (Message w) → List ℕ → Run w w.Point
  unfolding loop_head on_public
  public_loop [] ids = do head ← loop_head ids; proceed head (λ left. raise timeout)
  public_loop (m ∷ rest) ids = do
    head ← loop_head ids
    proceed head (λ left. do
      modify (take_message w rest)
      left' ← on_public m.msg left
      public_loop rest left')

  unfoldable pub wait_for_public_shares : Run w w.Point
  unfolding public_loop
  wait_for_public_shares s = public_loop s.network.inbox (ids_from w 1 s.total_signers) s

  abbrev pub after_dkg_end : MessageTypes w → List ℕ → List ℕ
  after_dkg_end (MessageTypes.dkg_end m) ids = erase m.signer_id ids
  after_dkg_end (MessageTypes.dkg_begin m) ids = ids
  after_dkg_end (MessageTypes.dkg_private_begin m) ids = ids
  after_dkg_end (MessageTypes.dkg_public_end m) ids = ids
  after_dkg_end (MessageTypes.dkg_public_share m) ids = ids
  after_dkg_end (MessageTypes.dkg_private_shares m) ids = ids
  after_dkg_end (MessageTypes.nonce_request m) ids = ids
  after_dkg_end (MessageTypes.nonce_response m) ids = ids
  after_dkg_end (MessageTypes.sign_share_request m) ids = ids
  after_dkg_end (MessageTypes.sign_share_response m) ids = ids

  unfoldable pub end_loop : List (Message w) → List ℕ → Run w (Unit {0})
  end_loop [] ids s = if is_empty ids then (ok tt, s) else (err timeout, s)
  end_loop (m ∷ rest) ids s =
      let next = end_loop rest (after_dkg_end m.msg ids) (take_message w rest s) in
      if is_empty ids then (ok tt, s) else next

  unfoldable pub wait_for_dkg_end : Run w (Unit {0})
  unfolding end_loop
  wait_for_dkg_end s = end_loop s.network.inbox (ids_from w 1 s.total_signers) s

  unfoldable pub run_distributed_key_generation : Run w w.Point
  unfolding start_public_shares wait_for_public_shares start_private_shares wait_for_dkg_end
  run_distributed_key_generation = do
    modify (λ s. record s { current_dkg_id = (s.current_dkg_id + 1) % 2 ^ 64 })
    start_public_shares
    key ← wait_for_public_shares
    start_private_shares
    wait_for_dkg_end
    pure key

  unfoldable pub get_aggregate_public_key : Run w w.Point
  get_aggregate_public_key s =
      if a.point_eq s.aggregate_public_key a.default_point
      then (err no_aggregate_public_key, s)
      else (ok s.aggregate_public_key, s)
