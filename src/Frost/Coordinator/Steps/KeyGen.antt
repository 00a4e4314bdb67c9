-- ===== src/Frost/Coordinator/Steps/KeyGen.antt =====
-- The key generation of frost-coordinator/src/coordinator.rs keeps what its steps keep.
use core_eng.Prelude.{ℕ, List, [], ◌∷◌, ◌+◌, ◌%◌, ◌^◌}
use core_eng.Prelude.Exec.{pure}
use core_eng.Prelude.Keeps.{Keeps, bind-Keeps, modify-Keeps, pure-Keeps}
use core_eng.Frost.Wsts.{Wsts}
use core_eng.Frost.Messages.{Message, MessageTypes}
use core_eng.Frost.Coordinator.Defs.{Aggregation, Coordinator, Run, take_message, ids_from}
use core_eng.Frost.Coordinator.Dkg.{
  Head, proceed, send_begin, done, await, start_public_shares, start_private_shares, check_key,
  loop_head, on_public, public_loop, wait_for_public_shares, end_loop, wait_for_dkg_end,
  run_distributed_key_generation, calculate_aggregate_public_key, sum_of_shares,
}
use core_eng.Frost.Coordinator.Steps.{DkgSteps, if_step}

module _ (w : Wsts) (a : Aggregation w) (R : Coordinator w → Coordinator w → Type 0)
    (p : DkgSteps w R) where
  send_begin_step : Keeps R (send_begin w a)
  unfolding send_begin
  send_begin_step = record {
    at = λ s. (p.sent (MessageTypes.dkg_begin (record { dkg_id = s.current_dkg_id })) tt).at s;
  }

  start_private_step : Keeps R (start_private_shares w a)
  unfolding start_private_shares
  start_private_step = record {
    at = λ s.
        (p.sent (MessageTypes.dkg_private_begin (record { dkg_id = s.current_dkg_id })) tt).at s;
  }

  start_public_step : Keeps R (start_public_shares w a)
  unfolding start_public_shares
  start_public_step = modify-Keeps R p.order _ _ (p.public_shares []) λ u. send_begin_step

  check_key_step : (key : w.Point) → Keeps R (check_key w a key)
  unfolding check_key
  check_key_step key = record {
    at = λ s.
        if_step R s _ _ _ (p.aggregate key s)
          ((bind-Keeps R p.order _ _ start_public_step λ u. record { at = p.order.here }).at s);
  }

  calculate_step : Keeps R (calculate_aggregate_public_key w a)
  unfolding calculate_aggregate_public_key
  calculate_step =
      bind-Keeps R p.order (λ s. (sum_of_shares w a s.dkg_public_shares, s)) _
        (record { at = p.order.here })
        λ key.
          modify-Keeps R p.order _ (λ u. pure key) (p.aggregate key) λ u. pure-Keeps R p.order key

  loop_head_step : (ids : List ℕ) → Keeps R (loop_head w a ids)
  unfolding loop_head
  loop_head_step [] = bind-Keeps R p.order _ _ calculate_step check_key_step
  loop_head_step (i ∷ ids) = record { at = p.order.here }

  on_public_step : (x : MessageTypes w) (ids : List ℕ) → Keeps R (on_public w a x ids)
  unfolding on_public
  on_public_step (MessageTypes.dkg_public_share m) ids = record { at = λ s. p.public_shares _ s }
  on_public_step _ ids = record { at = p.order.here }

  proceed_step :
      (h : Head w.Point) (rest : List ℕ → Run w w.Point)
      → ((left : List ℕ) → Keeps R (rest left))
      → Keeps R (proceed w a h rest)
  proceed_step (done key) rest k = record { at = p.order.here }
  proceed_step (await left) rest k = k left

  public_loop_step : (inbox : List (Message w)) (ids : List ℕ) → Keeps R (public_loop w a inbox ids)
  unfolding public_loop
  public_loop_step [] ids =
      bind-Keeps R p.order _ _ (loop_head_step ids)
        λ h. proceed_step h _ λ left. record { at = p.order.here }
  public_loop_step (m ∷ rest) ids = bind-Keeps R p.order _ _ (loop_head_step ids) λ h.
      proceed_step h _ λ left. modify-Keeps R p.order _ _ (p.taken rest) λ u.
        bind-Keeps R p.order _ _ (on_public_step m.msg left) λ left'. public_loop_step rest left'

  end_loop_step :
      (inbox : List (Message w)) (ids : List ℕ) (s : Coordinator w)
      → R s (end_loop w a inbox ids s).1
  unfolding end_loop
  end_loop_step [] ids s = if_step R s _ _ _ (p.order.here s) (p.order.here s)
  end_loop_step (m ∷ rest) ids s =
      if_step R s _ _ _ (p.order.here s)
        (p.order.join s _ _ (p.taken rest s) (end_loop_step rest _ (take_message w rest s)))

  wait_for_public_step : Keeps R (wait_for_public_shares w a)
  unfolding wait_for_public_shares
  wait_for_public_step = record {
    at = λ s. (public_loop_step s.network.inbox (ids_from w 1 s.total_signers)).at s;
  }

  wait_for_dkg_end_step : Keeps R (wait_for_dkg_end w a)
  unfolding wait_for_dkg_end
  wait_for_dkg_end_step = record {
    at = λ s. end_loop_step s.network.inbox (ids_from w 1 s.total_signers) s;
  }

  pub run_distributed_key_generation_step : Keeps R (run_distributed_key_generation w a)
  unfolding run_distributed_key_generation
  run_distributed_key_generation_step =
      modify-Keeps R p.order _ _ (λ s. p.dkg_id ((s.current_dkg_id + 1) % 2 ^ 64) s)
        λ u. bind-Keeps R p.order _ _ start_public_step λ u'.
          bind-Keeps R p.order _ _ wait_for_public_step λ key.
            bind-Keeps R p.order _ _ start_private_step
              λ u''. bind-Keeps R p.order _ _ wait_for_dkg_end_step λ e. pure-Keeps R p.order key
