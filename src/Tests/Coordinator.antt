-- ===== src/Tests/Coordinator.antt =====
-- frost-coordinator at concrete inputs: one signer with one key, over the toy cryptography.
use core_eng.Prelude.{
  ℕ, ◌+◌, ◌%◌, ◌≤◌, [], ◌∷◌, ◌≡◌, ◌≢◌, ◌↔◌, refl, true, false, some, none, arith, List, ◌==◌,
  length, get, insert,
}
use core_eng.Prelude.Outcome.{ok, panic}
use core_eng.Prelude.Exec.{fold_outcome}
use core_eng.Frost.Hash.{sign}
use core_eng.Frost.Wsts.{Bytes}
use core_eng.Frost.Messages.{PublicKeys, MessageTypes, Message, success, failure}
use core_eng.Frost.Coordinator.Defs.{Aggregation, Coordinator}
use core_eng.Frost.Coordinator.Dkg.{run_distributed_key_generation, wait_for_dkg_end}
use core_eng.Frost.Coordinator.Sign.{sign_message, nonce_rounds}
use core_eng.Frost.Coordinator.Run.{run, dkg_sign}
use core_eng.Frost.Coordinator.Signing.{sign_message_sound, SameKeys}
use core_eng.Frost.Coordinator.Keys.{IsKey}
use core_eng.Frost.Coordinator.Ends.{
  ended, wait_for_dkg_end-ends, run_distributed_key_generation-IsKey,
}
use core_eng.Frost.Coordinator.Rounds.{nonce_rounds-fuel}
use core_eng.Frost.Coordinator.Complete.{sign_message_safe}
use core_eng.Frost.Coordinator.Requests.{SendsSigned, run-SendsSigned}
use core_eng.Tests.Toy.{toy, toy_laws}

-- Points are even or odd as numbers; a proof is good for the key that equals it.
abbrev pub sums : Aggregation toy
sums = record {
  Aggregator = ℕ;
  Signature = ℕ;
  SchnorrProof = ℕ;
  FieldElement = ℕ;
  default_point = 0;
  point_eq = λ p q. p == q;
  add = λ p q. p + q;
  has_even_y = λ p. p % 2 == 0;
  x = λ p. p;
  intermediate = λ msg ids nonces. length nonces + 1;
  new_aggregator = λ keys threshold polys. some keys;
  aggregate = λ agg msg nonces shares. some 6;
  new_proof = λ sig. some sig;
  verify_proof = λ proof key msg. proof == key;
}

abbrev pub unsigned : MessageTypes toy → Message toy
unsigned m = record { msg = m; sig = [] }

abbrev pub nonces_of_1 : MessageTypes toy
nonces_of_1 = MessageTypes.nonce_response (record {
  dkg_id = 1;
  sign_id = 1;
  sign_nonce_id = 1;
  signer_id = 1;
  key_ids = 1 ∷ [];
  nonces = 5 ∷ [];
})

abbrev pub shares_of_1 : MessageTypes toy
shares_of_1 = MessageTypes.sign_share_response (record {
  dkg_id = 1;
  sign_id = 1;
  correlation_id = 0;
  signer_id = 1;
  signature_shares = 8 ∷ [];
})

abbrev share_of_1 : MessageTypes toy
share_of_1 =
    MessageTypes.dkg_public_share
      (record { dkg_id = 1; dkg_public_id = 0; party_id = 1; public_share = 6 })

abbrev public_end_of_1 : MessageTypes toy
public_end_of_1 =
    MessageTypes.dkg_public_end (record { dkg_id = 1; signer_id = 1; status = success })

abbrev end_of_1 : MessageTypes toy
end_of_1 = MessageTypes.dkg_end (record { dkg_id = 1; signer_id = 1; status = failure [] })

abbrev pub coordinator_with : ℕ → List (Message toy) → Coordinator toy
coordinator_with key inbox = record {
  id = 0;
  current_dkg_id = 0;
  current_dkg_public_id = 0;
  current_sign_id = 1;
  current_sign_nonce_id = 1;
  total_signers = 1;
  total_keys = 1;
  threshold = 1;
  network = record { inbox = inbox; outbox = []; sends = [] };
  dkg_public_shares = [];
  public_nonces = [];
  signature_shares = [];
  aggregate_public_key = key;
  network_private_key = 7;
  public_key = 7;
}

abbrev signing : Coordinator toy
signing = coordinator_with 6 (unsigned nonces_of_1 ∷ unsigned shares_of_1 ∷ [])

abbrev pub generating : Coordinator toy
generating =
    coordinator_with 0 (unsigned share_of_1 ∷ unsigned public_end_of_1 ∷ unsigned end_of_1 ∷ [])

abbrev keys : PublicKeys toy
keys = record { signers = []; key_ids = [] }

sign_message_sound_example :
    (sums.point_eq signing.aggregate_public_key sums.default_point ≡ false)
    × (sums.new_proof 6 ≡ some 6)
    × (sums.verify_proof 6 (sums.x signing.aggregate_public_key) (3 ∷ []) ≡ true)
    × SameKeys toy signing (sign_message toy sums (3 ∷ []) signing).1
unfolding sign_message insert get sign fold_outcome
sign_message_sound_example =
    sign_message_sound toy sums (3 ∷ []) signing (sign_message toy sums (3 ∷ []) signing).1 6 6 refl

run_distributed_key_generation-IsKey_example :
    IsKey toy sums 6 (run_distributed_key_generation toy sums generating).1
unfolding run_distributed_key_generation insert sign fold_outcome
run_distributed_key_generation-IsKey_example =
    run_distributed_key_generation-IsKey toy sums generating
      (run_distributed_key_generation toy sums generating).1 6 refl

wait_for_dkg_end-ends_example :
    ((wait_for_dkg_end toy sums generating).0 ≡ ok tt)
    ↔ ((k : ℕ) → 1 ≤ k → k ≤ 1 → ended toy k generating.network.inbox ≡ true)
wait_for_dkg_end-ends_example = wait_for_dkg_end-ends toy sums generating

nonce_rounds-fuel_example :
    nonce_rounds toy sums 3 (3 ∷ []) signing ≡ nonce_rounds toy sums 5 (3 ∷ []) signing
nonce_rounds-fuel_example =
    nonce_rounds-fuel toy sums 3 5 (3 ∷ []) signing (omega arith) (omega arith)

toy_signs : (h : Bytes) → toy.new_signature h 7 ≢ none
toy_signs h e = ground arith

sign_message_safe_example : (sign_message toy sums (3 ∷ []) signing).0 ≢ panic
sign_message_safe_example = sign_message_safe toy sums (3 ∷ []) signing toy_signs

run-SendsSigned_example :
    SendsSigned toy toy_laws keys generating (run toy sums (dkg_sign (3 ∷ [])) generating).1
run-SendsSigned_example = run-SendsSigned toy toy_laws keys sums (dkg_sign (3 ∷ [])) generating
