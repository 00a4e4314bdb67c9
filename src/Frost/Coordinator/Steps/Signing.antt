-- ===== src/Frost/Coordinator/Steps/Signing.antt =====
-- The signing methods of frost-coordinator/src/coordinator.rs keep what its steps keep.
use core_eng.Prelude.{
  ℕ, zero, suc, List, [], ◌∷◌, Bool, true, false, is_empty, contains, length, keys,
}
use core_eng.Prelude.Keeps.{Keeps, bind-Keeps, modify-Keeps}
use core_eng.Frost.Wsts.{Wsts, Bytes}
use core_eng.Frost.Messages.{Message, MessageTypes, NonceResponse}
use core_eng.Frost.Coordinator.Defs.{Aggregation, Coordinator, Run, take_message}
use core_eng.Frost.Coordinator.Sign.{
  next_request, request_nonces, await_nonces, nonces_even, make_aggregator, nonce_responses, finish,
  on_nonce, nonce_loop, nonces_complete, collect_nonces, compute_aggregate_nonce, nonce_rounds,
  request_signature_shares, on_share, share_loop, collect_signature_shares, sign_with_nonces,
  sign_message,
}
use core_eng.Frost.Coordinator.Steps.{SignSteps, if_step}

module _ (w : Wsts) (a : Aggregation w) (R : Coordinator w → Coordinator w → Type 0)
    (p : SignSteps w R) where
  on_nonce_step : (x : MessageTypes w) (s : Coordinator w) → R s (on_nonce w a x s)
  unfolding on_nonce
  on_nonce_step (MessageTypes.nonce_response m) s = p.nonces _ s
  on_nonce_step _ s = p.order.here s

  nonce_loop_step : (inbox : List (Message w)) (s : Coordinator w) → R s (nonce_loop w a inbox s).1
  unfolding nonce_loop
  nonce_loop_step [] s = p.order.here s
  nonce_loop_step (m ∷ rest) s =
      let t = on_nonce w a m.msg (take_message w rest s) in
      let there : R s t = p.order.join s _ t (p.taken rest s) (on_nonce_step m.msg _) in
      if_step R s (nonces_complete w a t) _ _ there
        (p.order.join s t _ there (nonce_loop_step rest t))

  pub request_nonces_step : Keeps R (request_nonces w a)
  unfolding request_nonces
  request_nonces_step = record {
    at = λ s. (p.sent (MessageTypes.nonce_request (next_request w a s)) tt).at s;
  }

  pub await_nonces_step : Keeps R (await_nonces w a)
  unfolding await_nonces
  await_nonces_step = record { at = λ s. nonce_loop_step s.network.inbox s }

  pub collect_nonces_step : Keeps R (collect_nonces w a)
  unfolding collect_nonces
  collect_nonces_step =
      modify-Keeps R p.order _ _ (p.nonces [])
        λ u. bind-Keeps R p.order _ _ request_nonces_step λ u'. await_nonces_step

  on_share_step :
      (x : MessageTypes w) (ids : List ℕ) (s : Coordinator w) → R s (on_share w a x ids s).1
  unfolding on_share
  on_share_step (MessageTypes.sign_share_response m) ids s =
      if_step R s (contains m.signer_id ids) _ _ (p.shares _ s) (p.order.here s)
  on_share_step _ ids s = p.order.here s

  share_loop_step :
      (inbox : List (Message w)) (ids : List ℕ) (s : Coordinator w)
      → R s (share_loop w a inbox ids s).1
  unfolding share_loop
  share_loop_step [] ids s = if_step R s (is_empty ids) _ _ (p.order.here s) (p.order.here s)
  share_loop_step (m ∷ rest) ids s =
      let t = on_share w a m.msg ids (take_message w rest s) in
      if_step R s (is_empty ids) _ _ (p.order.here s) (
        p.order.join s t.1 _ (p.order.join s _ t.1 (p.taken rest s) (on_share_step m.msg ids _))
          (share_loop_step rest t.0 t.1))

  nonces_even_step :
      (b : Bool) (again : Run w (Unit {0})) → Keeps R again → Keeps R (nonces_even w a b again)
  nonces_even_step true again k = record { at = p.order.here }
  nonces_even_step false again k = k

  compute_aggregate_nonce_step : (msg : Bytes) → Keeps R (compute_aggregate_nonce w a msg)
  unfolding compute_aggregate_nonce
  compute_aggregate_nonce_step msg =
      bind-Keeps R p.order _ _ collect_nonces_step λ u. record { at = p.order.here }

  nonce_rounds_step : (fuel : ℕ) (msg : Bytes) → Keeps R (nonce_rounds w a fuel msg)
  unfolding nonce_rounds
  nonce_rounds_step zero msg = record { at = p.order.here }
  nonce_rounds_step (suc fuel) msg =
      bind-Keeps R p.order _ _ (compute_aggregate_nonce_step msg) λ r.
        nonces_even_step (a.has_even_y r) (nonce_rounds w a fuel msg) (nonce_rounds_step fuel msg)

  make_aggregator_step : Keeps R (make_aggregator w a)
  unfolding make_aggregator
  make_aggregator_step = record { at = p.order.here }

  nonce_responses_step : Keeps R (nonce_responses w a)
  unfolding nonce_responses
  nonce_responses_step = record { at = p.order.here }

  pub request_signature_shares_step :
      (responses : List (NonceResponse w)) (msg : Bytes)
      → Keeps R (request_signature_shares w a responses msg)
  unfolding request_signature_shares
  request_signature_shares_step responses msg = record {
    at = λ s.
        (p.sent
            (MessageTypes.sign_share_request (record {
              dkg_id = s.current_dkg_id;
              sign_id = s.current_sign_id;
              correlation_id = 0;
              nonce_responses = responses;
              message = msg;
            }))
            tt).at
          s;
  }

  pub collect_signature_shares_step : Keeps R (collect_signature_shares w a)
  unfolding collect_signature_shares
  collect_signature_shares_step = record {
    at = λ s. share_loop_step s.network.inbox (keys s.public_nonces) s;
  }

  finish_step :
      (msg : Bytes) (agg : a.Aggregator) (responses : List (NonceResponse w))
      → Keeps R (finish w a msg agg responses)
  unfolding finish
  finish_step msg agg responses = record { at = p.order.here }

  sign_with_nonces_step : (msg : Bytes) → Keeps R (sign_with_nonces w a msg)
  unfolding sign_with_nonces
  sign_with_nonces_step msg = bind-Keeps R p.order _ _ make_aggregator_step λ agg.
      bind-Keeps R p.order _ _ nonce_responses_step λ responses.
        bind-Keeps R p.order _ _ (request_signature_shares_step responses msg) λ u.
          bind-Keeps R p.order _ _ collect_signature_shares_step λ u'. finish_step msg agg responses

  pub sign_message_step : (msg : Bytes) → Keeps R (sign_message w a msg)
  unfolding sign_message
  sign_message_step msg = record {
    at = λ s. if_step R s _ _ _ (p.order.here s) (
        (bind-Keeps R p.order _ _ (nonce_rounds_step (suc (length s.network.inbox)) msg)
            λ u. sign_with_nonces_step msg).at
          s);
  }
