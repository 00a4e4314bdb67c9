-- ===== src/Frost/Coordinator/Finish.antt =====
-- What `sign_message` of frost-coordinator/src/coordinator.rs makes of the shares it has.
use core_eng.Prelude.{ℕ, List, [], ◌++◌, none, some, Map, get, keys, flat_map, if◌then◌else◌}
use core_eng.Prelude.Outcome.{Outcome, ok, err, panic, ok_or, ◌>>=◌}
use core_eng.Prelude.Exec.{fold_outcome}
use core_eng.Frost.Wsts.{Wsts, Bytes}
use core_eng.Frost.Messages.{NonceResponse}
use core_eng.Frost.Coordinator.Defs.{
  Aggregation, Coordinator, Error, aggregator, taproot, schnorr_proof_failed,
}

module _ (w : Wsts) (a : Aggregation w) where
  -- `flat_map(|(i, _)| self.signature_shares[i].clone())`: a missing key panics.
  unfoldable pub add_shares :
      Map (List w.SignatureShare)
      → List w.SignatureShare
      → ℕ
      → Outcome Error (List w.SignatureShare)
  add_shares shares acc i = elim (get i shares) [ none ↦ panic | some ss ↦ ok (acc ++ ss) ]

  unfoldable pub gather_shares : Coordinator w → Outcome Error (List w.SignatureShare)
  unfolding add_shares
  gather_shares s = fold_outcome (add_shares s.signature_shares) [] (keys s.public_nonces)

  unfoldable pub check_proof :
      Bytes → w.Point → a.Signature → a.SchnorrProof → Outcome Error (a.Signature × a.SchnorrProof)
  check_proof msg key sig proof =
      if a.verify_proof proof (a.x key) msg then ok (sig, proof) else err schnorr_proof_failed

  -- What follows the collection of the shares; it reads the object only.
  unfoldable pub finish_signature :
      Bytes
      → a.Aggregator
      → List (NonceResponse w)
      → Coordinator w
      → Outcome Error (a.Signature × a.SchnorrProof)
  unfolding gather_shares check_proof
  finish_signature msg agg responses s = do
    shares ← gather_shares s
    sig ← ok_or (a.aggregate agg msg (flat_map (λ nr. nr.nonces) responses) shares) aggregator
    proof ← ok_or (a.new_proof sig) taproot
    check_proof msg s.aggregate_public_key sig proof
