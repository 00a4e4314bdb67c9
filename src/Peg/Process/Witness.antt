-- ===== src/Peg/Process/Witness.antt =====
-- What `peg_out` of stacks-coordinator/src/coordinator.rs has broadcast when it succeeds.
use core_eng.Prelude.{
  ℕ, zero, suc, List, [], ◌∷◌, ◌++◌, ◌≡◌, refl, sym, ap, subst, arith, Option, none, some, true,
  Text, length, ◌∙◌,
}
use core_eng.Prelude.Outcome.{Outcome, ok, err, panic, ok_or}
use core_eng.Prelude.Exec.{pure, lift, ◌>>=◌, ◌>>◌, bind-returns, pure-returns}
use core_eng.Frost.Wsts.{Wsts, Bytes}
use core_eng.Frost.Coordinator.Defs.{Aggregation, Error as FrostError}
use core_eng.Frost.Coordinator.Sign.{sign_message}
use core_eng.Frost.Coordinator.Signing.{sign_message_sound}
use core_eng.Peg.Wallet.Defs.{
  Bitcoin, BitcoinWallet, Utxo, Error as WalletError, PegOutRequestOp, TxOut, Transaction,
  fulfill_peg_out,
}
use core_eng.Peg.Process.PegOut.{
  Error, signing_error, SignedTransaction, World, frost_outcome, wallet_outcome, sign_hash,
  sign_input, sign_inputs, spendable, unsigned, fulfill, peg_in, broadcast_bitcoin, peg_out,
}

module _ (w : Wsts) (a : Aggregation w) (b : Bitcoin) (Tx : Type 0)
    (sighash : Transaction b → List (TxOut b) → ℕ → Option Bytes) where
  -- From `index` on, each proof verifies under the key for the hash of its input.
  abbrev pub IsWitness : w.Point → Transaction b → List (TxOut b) → ℕ → List a.SchnorrProof → Type 0
  IsWitness key tx prevouts index [] = Unit
  IsWitness key tx prevouts index (proof ∷ proofs) =
      ((hash : Bytes) × (sighash tx prevouts index ≡ some hash)
        × (a.verify_proof proof (a.x key) hash ≡ true))
      × IsWitness key tx prevouts (suc index) proofs

  -- What signing leaves: the Bitcoin broadcasts and the aggregate key.
  record Quiet (s t : World w a b Tx sighash) : Type 0 where
    key : t.frost.aggregate_public_key ≡ s.frost.aggregate_public_key
    broadcast : t.broadcast ≡ s.broadcast

  frost_outcome-ok :
      {A : Type 0} (r : Outcome FrostError A) (x : A)
      → frost_outcome w a b Tx sighash r ≡ ok x
      → r ≡ ok x
  frost_outcome-ok (ok y) x h = ap ok (ground arith)
  frost_outcome-ok (err e) x h = absurd (ground arith)
  frost_outcome-ok panic x h = absurd (ground arith)

  sign_hash_sound :
      (hash : Bytes) (p : a.Signature × a.SchnorrProof) (s t : World w a b Tx sighash)
      → sign_hash w a b Tx sighash hash s ≡ (ok p, t)
      → (a.verify_proof p.1 (a.x s.frost.aggregate_public_key) hash ≡ true) × Quiet s t
  unfolding sign_hash
  sign_hash_sound hash p s t h =
      let signed = sign_message w a hash s.frost in
      let returned : signed.0 ≡ ok p = frost_outcome-ok signed.0 p (ap (λ r. r.0) h) in
      let (there, made, verifies, same) =
        sign_message_sound w a hash s.frost signed.1 p.0 p.1 (ap (λ r. (r, signed.1)) returned) in
      (
        verifies,
        subst (Quiet s) (ap (λ r. r.1) h) (record { key = same.aggregate_key; broadcast = refl }),
      )

  lift-ok :
      {A : Type 0} (r : Outcome Error A) (x : A) (s t : World w a b Tx sighash)
      → lift r s ≡ (ok x, t)
      → (r ≡ ok x) × (s ≡ t)
  lift-ok r x s t h = (ap (λ q. q.0) h, ap (λ q. q.1) h)

  sighash-ok : (o : Option Bytes) (hash : Bytes) → ok_or o signing_error ≡ ok hash → o ≡ some hash
  sighash-ok none hash h = absurd (ground arith)
  sighash-ok (some x) hash h = ground arith

  sign_input_sound :
      (tx : Transaction b) (prevouts : List (TxOut b)) (index : ℕ) (proof : a.SchnorrProof)
      (s t : World w a b Tx sighash)
      → sign_input w a b Tx sighash tx prevouts index s ≡ (ok proof, t)
      → ((hash : Bytes) × (sighash tx prevouts index ≡ some hash)
          × (a.verify_proof proof (a.x s.frost.aggregate_public_key) hash ≡ true))
        × Quiet s t
  unfolding sign_input
  sign_input_sound tx prevouts index proof s t h =
      let last =
        λ (p : a.Signature × a.SchnorrProof). pure {S = World w a b Tx sighash} {E = Error} p.1 in
      let (hash, s1, e1, h1) =
        bind-returns (lift (ok_or (sighash tx prevouts index) signing_error))
          (λ x. sign_hash w a b Tx sighash x >>= last) s t proof h in
      let (p, s2, e2, h2) = bind-returns (sign_hash w a b Tx sighash hash) last s1 t proof h1 in
      let (found, same) = lift-ok (ok_or (sighash tx prevouts index) signing_error) hash s s1 e1 in
      let (verifies, quiet) = sign_hash_sound hash p s1 s2 e2 in
      let (is_proof, at_end) = pure-returns p.1 proof s2 t h2 in
      let key : s1.frost.aggregate_public_key ≡ s.frost.aggregate_public_key =
        ap (λ x. x.frost.aggregate_public_key) (sym same) in
      let shown : a.verify_proof p.1 (a.x s.frost.aggregate_public_key) hash ≡ true =
        rw key at verifies in
      (
        (hash, sighash-ok (sighash tx prevouts index) hash found, rw is_proof at shown),
        subst (λ x. Quiet x t) (sym same) (subst (λ x. Quiet s1 x) at_end quiet),
      )

  Quiet-join : (s t u : World w a b Tx sighash) → Quiet s t → Quiet t u → Quiet s u
  Quiet-join s t u p q = record { key = q.key ∙ p.key; broadcast = q.broadcast ∙ p.broadcast }

  sign_inputs_sound :
      (tx : Transaction b) (prevouts : List (TxOut b)) (index count : ℕ)
      (proofs : List a.SchnorrProof) (s t : World w a b Tx sighash)
      → sign_inputs w a b Tx sighash tx prevouts index count s ≡ (ok proofs, t)
      → (length proofs ≡ count)
        × IsWitness s.frost.aggregate_public_key tx prevouts index proofs
        × Quiet s t
  unfolding sign_inputs
  sign_inputs_sound tx prevouts index zero proofs s t h =
      let (none_left, same) = pure-returns [] proofs s t h in
      (
        ap length (sym none_left),
        subst (IsWitness s.frost.aggregate_public_key tx prevouts index) none_left tt,
        subst (Quiet s) same (record { key = refl; broadcast = refl }),
      )
  sign_inputs_sound tx prevouts index (suc count) proofs s t h =
      let join = λ (p : a.SchnorrProof) (ps : List a.SchnorrProof).
        pure {S = World w a b Tx sighash} {E = Error} (p ∷ ps) in
      let others = λ (p : a.SchnorrProof).
        sign_inputs w a b Tx sighash tx prevouts (suc index) count >>= join p in
      let (p, s1, e1, h1) =
        bind-returns (sign_input w a b Tx sighash tx prevouts index) others s t proofs h in
      let (ps, s2, e2, h2) =
        bind-returns (sign_inputs w a b Tx sighash tx prevouts (suc index) count) (join p) s1 t
          proofs h1 in
      let (both, at_end) = pure-returns (p ∷ ps) proofs s2 t h2 in
      let (shown, quiet) = sign_input_sound tx prevouts index p s s1 e1 in
      let (many, others_shown, quiet') =
        sign_inputs_sound tx prevouts (suc index) count ps s1 s2 e2 in
      let rest : IsWitness s.frost.aggregate_public_key tx prevouts (suc index) ps =
        subst (λ k. IsWitness k tx prevouts (suc index) ps) quiet.key others_shown in
      (
        ap length (sym both) ∙ ap suc many,
        subst (IsWitness s.frost.aggregate_public_key tx prevouts index) both (shown, rest),
        subst (Quiet s) at_end (Quiet-join s s1 s2 quiet quiet'),
      )

  wallet_outcome-ok :
      {A : Type 0} (r : Outcome WalletError A) (x : A)
      → wallet_outcome w a b Tx sighash r ≡ ok x
      → r ≡ ok x
  wallet_outcome-ok (ok y) x h = ap ok (ground arith)
  wallet_outcome-ok (err e) x h = absurd (ground arith)
  wallet_outcome-ok panic x h = absurd (ground arith)

  -- A transaction of the wallet for the request, with a witness for each input that verifies under
  -- the key.
  pub record IsFulfilled (op : PegOutRequestOp b) (wallet : BitcoinWallet b) (key : w.Point)
      (signed : SignedTransaction w a b Tx sighash) : Type 0 where
    pub utxos : List Utxo
    pub prevouts : List (TxOut b)
    pub built : fulfill_peg_out b wallet op utxos ≡ ok (signed.tx, prevouts)
    pub complete : length signed.witness ≡ length signed.tx.input
    pub witnessed : IsWitness key signed.tx prevouts 0 signed.witness

  whole : Transaction b → List a.SchnorrProof → SignedTransaction w a b Tx sighash
  whole tx ps = record { tx = tx; witness = ps }

  spendable-reads :
      (us : List Utxo) (s s1 : World w a b Tx sighash)
      → spendable w a b Tx sighash s ≡ (ok us, s1)
      → s ≡ s1
  unfolding spendable
  spendable-reads us s s1 h = ap (λ r. r.1) h

  unsigned-ok :
      (op : PegOutRequestOp b) (us : List Utxo) (m : Transaction b × List (TxOut b))
      (s s1 : World w a b Tx sighash)
      → unsigned w a b Tx sighash op us s ≡ (ok m, s1)
      → (fulfill_peg_out b s.wallet op us ≡ ok m) × (s ≡ s1)
  unfolding unsigned
  unsigned-ok op us m s s1 h =
      (wallet_outcome-ok (fulfill_peg_out b s.wallet op us) m (ap (λ r. r.0) h), ap (λ r. r.1) h)

  fulfill-IsFulfilled :
      (op : PegOutRequestOp b) (signed : SignedTransaction w a b Tx sighash)
      (s t : World w a b Tx sighash)
      → fulfill w a b Tx sighash op s ≡ (ok signed, t)
      → IsFulfilled op s.wallet s.frost.aggregate_public_key signed × (t.broadcast ≡ s.broadcast)
  unfolding fulfill whole
  fulfill-IsFulfilled op signed s t h =
      let finish = λ (m : Transaction b × List (TxOut b)) (ps : List a.SchnorrProof).
        pure {S = World w a b Tx sighash} {E = Error} (whole m.0 ps) in
      let signs = λ (m : Transaction b × List (TxOut b)).
        sign_inputs w a b Tx sighash m.0 m.1 0 (length m.0.input) >>= finish m in
      let makes = λ (us : List Utxo). unsigned w a b Tx sighash op us >>= signs in
      let (us, s1, e1, h1) = bind-returns (spendable w a b Tx sighash) makes s t signed h in
      let (m, s2, e2, h2) = bind-returns (unsigned w a b Tx sighash op us) signs s1 t signed h1 in
      let (ps, s3, e3, h3) =
        bind-returns (sign_inputs w a b Tx sighash m.0 m.1 0 (length m.0.input)) (finish m) s2 t
          signed h2 in
      let (is_signed, at_end) = pure-returns (whole m.0 ps) signed s3 t h3 in
      let (many, shown, quiet) = sign_inputs_sound m.0 m.1 0 (length m.0.input) ps s2 s3 e3 in
      let same1 : s ≡ s1 = spendable-reads us s s1 e1 in
      let (built, same2) = unsigned-ok op us m s1 s2 e2 in
      let from_s : IsFulfilled op s2.wallet s2.frost.aggregate_public_key (whole m.0 ps) = record {
        utxos = us;
        prevouts = m.1;
        built = subst (λ x. fulfill_peg_out b x.wallet op us ≡ ok (m.0, m.1)) same2 built;
        complete = many;
        witnessed = shown;
      } in
      let back = sym (same1 ∙ same2) in
      (
        subst (λ x. IsFulfilled op x.wallet x.frost.aggregate_public_key signed) back
            (subst (IsFulfilled op s2.wallet s2.frost.aggregate_public_key) is_signed from_s),
        subst (λ x. t.broadcast ≡ x.broadcast) back
            (subst (λ x. x.broadcast ≡ s2.broadcast) at_end quiet.broadcast),
      )

  broadcast_bitcoin-ok :
      (signed : SignedTransaction w a b Tx sighash) (s t : World w a b Tx sighash)
      → broadcast_bitcoin w a b Tx sighash signed s ≡ (ok tt, t)
      → t.broadcast ≡ s.broadcast ++ signed ∷ []
  unfolding broadcast_bitcoin
  broadcast_bitcoin-ok signed s t h = ground arith

  peg_in-broadcast :
      (build : ℕ → ℕ → Outcome Text Tx) (s t : World w a b Tx sighash) (u : Unit {0})
      → peg_in w a b Tx sighash build s ≡ (ok u, t)
      → t.broadcast ≡ s.broadcast
  unfolding peg_in
  peg_in-broadcast build s t u h = ap (λ r. r.1.broadcast) (sym h)

  -- If `peg_out` succeeds, the Bitcoin node accepted one more transaction, after what it had before:
  -- the wallet's for this request and some outputs, with one proof for each input, and each proof
  -- verifies for the hash of its input under the aggregate public key that the FROST coordinator
  -- had.
  pub peg_out-IsFulfilled :
      (build : ℕ → ℕ → Outcome Text Tx) (op : PegOutRequestOp b) (s t : World w a b Tx sighash)
      → peg_out w a b Tx sighash build op s ≡ (ok tt, t)
      → (signed : SignedTransaction w a b Tx sighash) × (t.broadcast ≡ s.broadcast ++ signed ∷ [])
        × IsFulfilled op s.wallet s.frost.aggregate_public_key signed
  unfolding peg_out
  peg_out-IsFulfilled build op s t h =
      let send = λ (x : SignedTransaction w a b Tx sighash).
        peg_in w a b Tx sighash build >> broadcast_bitcoin w a b Tx sighash x in
      let (signed, s1, e1, h1) = bind-returns (fulfill w a b Tx sighash op) send s t tt h in
      let (u, s2, e2, h2) =
        bind-returns (peg_in w a b Tx sighash build)
          (λ v. broadcast_bitcoin w a b Tx sighash signed) s1 t tt h1 in
      let (done, quiet) = fulfill-IsFulfilled op signed s s1 e1 in
      (
        signed,
        broadcast_bitcoin-ok signed s2 t h2 ∙ rw (peg_in-broadcast build s1 s2 u e2, quiet) refl,
        done,
      )
