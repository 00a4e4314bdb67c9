-- ===== src/Frost/Coordinator/Ends.antt =====
-- When `wait_for_dkg_end` and the key generation of frost-coordinator/src/coordinator.rs succeed.
use core_eng.Prelude.{
  ℕ, ◌+◌, ◌%◌, ◌^◌, List, [], ◌∷◌, ◌≡◌, refl, arith, Bool, true, false, is_empty, ◌≤◌, ◌<◌, ◌↔◌,
  contains, if◌then◌else◌, ◌==◌, zero, suc, contains-erase, ap, subst,
}
use core_eng.Prelude.Outcome.{ok}
use core_eng.Prelude.Exec.{pure, modify, ◌>>=◌ as and_then, ◌>>◌ as next, bind-returns}
use core_eng.Prelude.Keeps.{Keeps}
use core_eng.Frost.Wsts.{Wsts}
use core_eng.Frost.Messages.{Message, MessageTypes}
use core_eng.Frost.Coordinator.Defs.{Aggregation, Coordinator, Run, take_message, ids_from}
use core_eng.Frost.Coordinator.Dkg.{
  start_public_shares, wait_for_public_shares, start_private_shares, after_dkg_end, end_loop,
  wait_for_dkg_end, run_distributed_key_generation,
}
use core_eng.Frost.Coordinator.Keys.{IsKey, public_loop-IsKey}
use core_eng.Frost.Coordinator.Steps.{if_step}
use core_eng.Frost.Coordinator.Signing.{SameKeys, order, send_signed-SameKeys}

module _ (w : Wsts) where
  -- `DkgEnd` of signer `k`, with whatever status.
  abbrev pub is_end : ℕ → MessageTypes w → Bool
  is_end k (MessageTypes.dkg_end m) = m.signer_id == k
  is_end k (MessageTypes.dkg_begin m) = false
  is_end k (MessageTypes.dkg_private_begin m) = false
  is_end k (MessageTypes.dkg_public_end m) = false
  is_end k (MessageTypes.dkg_public_share m) = false
  is_end k (MessageTypes.dkg_private_shares m) = false
  is_end k (MessageTypes.nonce_request m) = false
  is_end k (MessageTypes.nonce_response m) = false
  is_end k (MessageTypes.sign_share_request m) = false
  is_end k (MessageTypes.sign_share_response m) = false

  abbrev pub ended : ℕ → List (Message w) → Bool
  ended k [] = false
  ended k (m ∷ rest) = if is_end k m.msg then true else ended k rest

module _ (w : Wsts) (a : Aggregation w) where
  after_dkg_end-contains :
      (k : ℕ) (x : MessageTypes w) (ids : List ℕ)
      → contains k (after_dkg_end w a x ids) ≡ (if is_end w k x then false else contains k ids)
  after_dkg_end-contains k (MessageTypes.dkg_end m) ids =
      ground (arith, contains-erase m.signer_id k ids)
  after_dkg_end-contains k _ ids = refl

  end_loop-ends :
      (inbox : List (Message w)) (ids : List ℕ) (s : Coordinator w)
      → ((end_loop w a inbox ids s).0 ≡ ok tt)
        ↔ ((k : ℕ) → contains k ids ≡ true → ended w k inbox ≡ true)
  unfolding end_loop
  end_loop-ends [] [] s = (λ h k c. c, λ h. refl)
  end_loop-ends [] (i ∷ ids) s =
      (λ h. absurd (ground arith), λ h. absurd (ground (arith, h i (ground arith))))
  end_loop-ends (m ∷ rest) [] s = (λ h k c. absurd (ground arith), λ h. refl)
  end_loop-ends (m ∷ rest) (i ∷ ids) s =
      let ih = end_loop-ends rest (after_dkg_end w a m.msg (i ∷ ids)) (take_message w rest s) in
      (
        λ h k c. ground (arith, ih.0 h k, after_dkg_end-contains k m.msg (i ∷ ids)),
        λ h. ih.1 λ k c. ground (arith, h k, after_dkg_end-contains k m.msg (i ∷ ids)),
      )

  contains-ids_from :
      (k first n : ℕ) → (contains k (ids_from w first n) ≡ true) ↔ ((first ≤ k) × (k < first + n))
  contains-ids_from k first zero = ground arith
  contains-ids_from k first (suc n) =
      let ih = contains-ids_from k (suc first) n in ground (arith, ih)

  -- `wait_for_dkg_end` succeeds exactly if a `DkgEnd` of every signer from 1 to `total_signers` is
  -- among the messages that come, whatever status they report.
  pub wait_for_dkg_end-ends :
      (s : Coordinator w)
      → ((wait_for_dkg_end w a s).0 ≡ ok tt)
        ↔ ((k : ℕ) → 1 ≤ k → k ≤ s.total_signers → ended w k s.network.inbox ≡ true)
  unfolding wait_for_dkg_end
  wait_for_dkg_end-ends s =
      let it = end_loop-ends s.network.inbox (ids_from w 1 s.total_signers) s in
      (
        λ h k low high. it.0 h k ((contains-ids_from k 1 s.total_signers).1 (low, omega arith)),
        λ h. it.1 λ k c.
            let (low, high) = (contains-ids_from k 1 s.total_signers).0 c in h k low (omega arith),
      )

  end_loop-SameKeys :
      (inbox : List (Message w)) (ids : List ℕ) (s : Coordinator w)
      → SameKeys w s (end_loop w a inbox ids s).1
  unfolding end_loop
  end_loop-SameKeys [] ids s = if_step (SameKeys w) s _ _ _ ((order w).here s) ((order w).here s)
  end_loop-SameKeys (m ∷ rest) ids s =
      let next = after_dkg_end w a m.msg ids in
      let ih = end_loop-SameKeys rest next (take_message w rest s) in
      let later : SameKeys w s (end_loop w a rest next (take_message w rest s)).1 = record {
        aggregate_key = ih.aggregate_key;
        public_shares = ih.public_shares;
        dkg_id = ih.dkg_id;
      } in
      if_step (SameKeys w) s (is_empty ids) _ _ ((order w).here s) later

  wait_for_dkg_end-SameKeys : Keeps (SameKeys w) (wait_for_dkg_end w a)
  unfolding wait_for_dkg_end
  wait_for_dkg_end-SameKeys = record {
    at = λ s. end_loop-SameKeys s.network.inbox (ids_from w 1 s.total_signers) s;
  }

  start_private-SameKeys : Keeps (SameKeys w) (start_private_shares w a)
  unfolding start_private_shares
  start_private-SameKeys = record {
    at = λ s.
        (send_signed-SameKeys w
            (MessageTypes.dkg_private_begin (record { dkg_id = s.current_dkg_id }))).at
          s;
  }

  keep-IsKey :
      (key : w.Point) (s t : Coordinator w) → SameKeys w s t → IsKey w a key s → IsKey w a key t
  keep-IsKey key s t same k = record {
    even = k.even;
    stored = rw same.aggregate_key k.stored;
    sum = rw same.public_shares k.sum;
  }

  -- If key generation returns a key, whatever came in, then the key has an even y, the coordinator
  -- stores it as its aggregate public key, and it is the sum of the first points of the public
  -- shares that the coordinator holds at the end.
  pub run_distributed_key_generation-IsKey :
      (s t : Coordinator w) (key : w.Point)
      → run_distributed_key_generation w a s ≡ (ok key, t)
      → IsKey w a key t
  unfolding run_distributed_key_generation wait_for_public_shares
  run_distributed_key_generation-IsKey s t key h =
      let ending = λ (k : w.Point). next (wait_for_dkg_end w a) (pure k) in
      let private = λ (k : w.Point). next (start_private_shares w a) (ending k) in
      let public = and_then (wait_for_public_shares w a) private in
      let begin : Run w w.Point = next (start_public_shares w a) public in
      let (u1, s1, e1, h1) =
        bind-returns (modify (λ x. record x { current_dkg_id = (x.current_dkg_id + 1) % 2 ^ 64 }))
          (λ u. begin) s t key h in
      let (u2, s2, e2, h2) = bind-returns (start_public_shares w a) (λ u. public) s1 t key h1 in
      let (k, s3, e3, h3) = bind-returns (wait_for_public_shares w a) private s2 t key h2 in
      let (u4, s4, e4, h4) = bind-returns (start_private_shares w a) (λ u. ending k) s3 t key h3 in
      let (u5, s5, e5, h5) = bind-returns (wait_for_dkg_end w a) (λ u. pure k) s4 t key h4 in
      let found =
        public_loop-IsKey w a s2.network.inbox (ids_from w 1 s2.total_signers) k s2 s3 e3 in
      let sent = subst (λ x. SameKeys w s3 x.1) e4 (start_private-SameKeys.at s3) in
      let waited = subst (λ x. SameKeys w s4 x.1) e5 (wait_for_dkg_end-SameKeys.at s4) in
      let kept = keep-IsKey k s4 s5 waited (keep-IsKey k s3 s4 sent found) in
      subst (λ x. IsKey w a key x) (ap (λ r. r.1) h5)
        (subst (λ x. IsKey w a x s5) (ground arith) kept)
