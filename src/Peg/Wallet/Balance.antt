-- ===== src/Peg/Wallet/Balance.antt =====
-- Where the money goes in stacks-coordinator/src/bitcoin_wallet.rs.
use core_eng.Prelude.{
  ℕ, suc, ◌+◌, ◌-◌, ◌*◌, ◌%◌, ◌^◌, ◌≤◌, ◌<◌, List, [], ◌∷◌, ◌++◌, ◌≡◌, refl, arith, ◌⊎◌, inl, inr,
  true, Bool-cases, All, subst, length, length-append, leb,
}
use core_eng.Prelude.Outcome.{ok, ok_or, bind-ok}
use core_eng.Peg.Wallet.Defs.{
  Bitcoin, Utxo, invalid_script_pub_key, PegOutRequestOp, TxOut, Transaction, BitcoinWallet,
  Consumed, nothing_consumed, with_fulfillment, add_amount, Step, mismatch, fulfillment, consume,
  stop, skip, step_for, utxo_to_input, utxo_to_output, push, take_step, consume_utxos, outputs,
  build, fulfill_peg_out, withdrawal_data_output,
}

abbrev pub amounts : List Utxo → ℕ
amounts [] = 0
amounts (u ∷ us) = u.amount + amounts us

mod_small : (n : ℕ) → n < 2 ^ 64 → n % 2 ^ 64 ≡ n
mod_small n h = omega (arith, h)

module _ (b : Bitcoin) where
  abbrev pub values : List (TxOut b) → ℕ
  values [] = 0
  values (o ∷ os) = o.value + values os

  values-append : (os : List (TxOut b)) (o : TxOut b) → values (os ++ o ∷ []) ≡ values os + o.value
  values-append [] o = omega arith
  values-append (p ∷ os) o = omega (arith, values-append os o)

  -- `push` adds one input and one output of the utxo's amount.
  record Pushed (utxo : Utxo) (s t : Consumed b) : Type 0 where
    total : t.total_consumed ≡ s.total_consumed
    found : t.found_fulfillment_utxo ≡ s.found_fulfillment_utxo
    worth : values t.prevouts ≡ values s.prevouts + utxo.amount
    inputs : length t.input ≡ suc (length s.input)
    outs : length t.prevouts ≡ suc (length s.prevouts)

  utxo_to_output-ok :
      (utxo : Utxo) (o : TxOut b) → utxo_to_output b utxo ≡ ok o → o.value ≡ utxo.amount
  unfolding utxo_to_output
  utxo_to_output-ok utxo o h =
      let (script, e, k) =
        bind-ok
          (ok_or (b.script_from_hex utxo.script_pub_key)
            (invalid_script_pub_key utxo.script_pub_key))
          _ o h in
      ground arith

  push-ok : (utxo : Utxo) (s t : Consumed b) → push b utxo s ≡ ok t → Pushed utxo s t
  unfolding push
  push-ok utxo s t h =
      let (i, e1, h1) = bind-ok (utxo_to_input b utxo) _ t h in
      let (o, e2, h2) = bind-ok (utxo_to_output b utxo) _ t h1 in
      let worth = utxo_to_output-ok utxo o e2 in
      let made : record s { input = s.input ++ i ∷ []; prevouts = s.prevouts ++ o ∷ [] } ≡ t =
        ground arith in
      subst (Pushed utxo s) made (record {
        total = refl;
        found = refl;
        worth = omega (arith, values-append s.prevouts o, worth);
        inputs = omega (arith, length-append s.input (i ∷ []));
        outs = omega (arith, length-append s.prevouts (o ∷ []));
      })

  -- From `s` to `t` the loop spent `fees` fulfillment outputs and what the total grew by.
  pub record Spent (op : PegOutRequestOp b) (fees : ℕ) (s t : Consumed b) : Type 0 where
    pub balance :
        values t.prevouts + s.total_consumed
        ≡ values s.prevouts + t.total_consumed + fees * op.fulfillment_fee
    pub found : t.found_fulfillment_utxo ≡ true → (s.found_fulfillment_utxo ≡ true) ⊎ (1 ≤ fees)
    pub paired : length t.input + length s.prevouts ≡ length t.prevouts + length s.input

  Spent-nothing : (op : PegOutRequestOp b) (s : Consumed b) → Spent op 0 s s
  Spent-nothing op s = record { balance = omega arith; found = λ e. inl e; paired = omega arith }

  Spent-fee :
      (op : PegOutRequestOp b) (utxo : Utxo) (fees : ℕ) (s t u : Consumed b)
      → utxo.amount ≡ op.fulfillment_fee
      → Pushed utxo s t
      → Spent op fees (with_fulfillment b t) u
      → Spent op (suc fees) s u
  Spent-fee op utxo fees s t u same p q = record {
    balance = omega (arith, same, p.worth, p.total, q.balance);
    found = λ e. inr (omega arith);
    paired = omega (arith, p.inputs, p.outs, q.paired);
  }

  Spent-amount :
      (op : PegOutRequestOp b) (utxo : Utxo) (fees : ℕ) (s t u : Consumed b)
      → s.total_consumed + utxo.amount < 2 ^ 64
      → Pushed utxo (add_amount b utxo.amount s) t
      → Spent op fees t u
      → Spent op fees s u
  Spent-amount op utxo fees s t u small p q = record {
    balance =
        omega
          (arith, mod_small (s.total_consumed + utxo.amount) small, p.worth, p.total, q.balance);
    found = λ e. ground (arith, q.found e, p.found);
    paired = omega (arith, p.inputs, p.outs, q.paired);
  }

  fee_matches :
      (op : PegOutRequestOp b) (u : Utxo) (s : Consumed b)
      → step_for b op u s ≡ fulfillment
      → u.amount ≡ op.fulfillment_fee
  unfolding step_for
  fee_matches op u s h = ground arith

  consume_utxos-Spent :
      (op : PegOutRequestOp b) (us : List Utxo) (s t : Consumed b)
      → s.total_consumed + amounts us < 2 ^ 64
      → consume_utxos b op us s ≡ ok t
      → (fees : ℕ) × Spent op fees s t
  unfolding consume_utxos take_step
  consume_utxos-Spent op [] s t small h =
      (0, subst (Spent op 0 s) (ground arith) (Spent-nothing op s))
  consume_utxos-Spent op (u ∷ us) s t small h =
      go (step_for b op u s) refl h (consume_utxos-Spent op us)
    where
      go :
          (p : Step b)
          → step_for b op u s ≡ p
          → take_step b p u s (consume_utxos b op us) ≡ ok t
          → ((s' t' : Consumed b)
              → s'.total_consumed + amounts us < 2 ^ 64
              → consume_utxos b op us s' ≡ ok t'
              → (fees : ℕ) × Spent op fees s' t')
          → (fees : ℕ) × Spent op fees s t
      go mismatch e h ih = absurd (ground arith)
      go fulfillment e h ih =
          let (s1, pushed, later) =
            bind-ok (push b u s) (λ x. consume_utxos b op us (with_fulfillment b x)) t h in
          let p = push-ok u s s1 pushed in
          let (fees, q) = ih (with_fulfillment b s1) t (omega (arith, p.total, small)) later in
          (suc fees, Spent-fee op u fees s s1 t (fee_matches op u s e) p q)
      go consume e h ih =
          let (s1, pushed, later) =
            bind-ok (push b u (add_amount b u.amount s)) (consume_utxos b op us) t h in
          let p = push-ok u (add_amount b u.amount s) s1 pushed in
          let fits : s.total_consumed + u.amount < 2 ^ 64 = omega (arith, small) in
          let (fees, q) =
            ih s1 t (omega (arith, p.total, small, mod_small (s.total_consumed + u.amount) fits))
              later in
          (fees, Spent-amount op u fees s s1 t fits p q)
      go stop e h ih = (0, subst (Spent op 0 s) (ground arith) (Spent-nothing op s))
      go skip e h ih = ih s t (omega (arith, small)) h

  abbrev pub wallet_script : BitcoinWallet b → b.Script
  wallet_script wallet = b.new_v1_p2tr_tweaked wallet.public_key

  outputs-values :
      (script : b.Script) (amount change : ℕ)
      → (left : ℕ) × (amount + change ≡ values (outputs b script amount change) + left)
        × ((left ≡ 0) ⊎ (left < b.dust_value script))
  unfolding outputs withdrawal_data_output
  outputs-values script amount change = elim (Bool-cases (leb (b.dust_value script) change)) [
    | inl worth ↦ (0, rw worth (omega arith), inl refl)
    | inr dust ↦ (change, rw dust (omega arith), inr (ground arith))
  ]

  build-ok :
      (wallet : BitcoinWallet b) (op : PegOutRequestOp b) (s : Consumed b) (tx : Transaction b)
      (prevouts : List (TxOut b))
      → build b wallet op s ≡ ok (tx, prevouts)
      → (s.found_fulfillment_utxo ≡ true)
        × (op.amount ≤ s.total_consumed)
        × (tx.input ≡ s.input)
        × (tx.output ≡ outputs b (wallet_script wallet) op.amount (s.total_consumed - op.amount))
        × (prevouts ≡ s.prevouts)
  unfolding build
  build-ok wallet op s tx prevouts h = ground arith

  -- If the amounts of the outputs that can be spent do not overflow a u64 together, then in a
  -- transaction that `fulfill_peg_out` returns, there are as many inputs as outputs that are spent, and
  -- what is spent is what is paid out and, for at least one fulfillment output, the fee, and what is
  -- left of the change if that is dust.
  pub fulfill_peg_out-balances :
      (wallet : BitcoinWallet b) (op : PegOutRequestOp b) (us : List Utxo) (tx : Transaction b)
      (prevouts : List (TxOut b))
      → amounts us < 2 ^ 64
      → fulfill_peg_out b wallet op us ≡ ok (tx, prevouts)
      → (fees : ℕ) × (left : ℕ) × (1 ≤ fees)
        × (values prevouts ≡ values tx.output + fees * op.fulfillment_fee + left)
        × ((left ≡ 0) ⊎ (left < b.dust_value (wallet_script wallet)))
        × (length tx.input ≡ length prevouts)
  unfolding fulfill_peg_out
  fulfill_peg_out-balances wallet op us tx prevouts small h =
      let (s, e, h1) =
        bind-ok (consume_utxos b op us (nothing_consumed b)) (build b wallet op) (tx, prevouts) h in
      let (fees, p) = consume_utxos-Spent op us (nothing_consumed b) s (omega (arith, small)) e in
      let (found, enough, i, o, q) = build-ok wallet op s tx prevouts h1 in
      let (left, v, d) =
        outputs-values (wallet_script wallet) op.amount (s.total_consumed - op.amount) in
      let fee_found : 1 ≤ fees = ground (arith, p.found found) in
      (
        fees,
        left,
        fee_found,
        rw (o, q) (omega (arith, p.balance, v, enough)),
        d,
        rw (i, q) (omega (arith, p.paired)),
      )

  outputs-scripts :
      (script : b.Script) (amount change : ℕ)
      → All
          (λ o. (o ≡ withdrawal_data_output b) ⊎ (o.script_pubkey ≡ script))
          (outputs b script amount change)
  unfolding outputs
  outputs-scripts script amount change = elim (Bool-cases (leb (b.dust_value script) change)) [
    | inl worth ↦ rw worth (inl refl, (inr refl, (inr refl, tt)))
    | inr dust ↦ rw dust (inl refl, (inr refl, tt))
  ]

  -- Every output of a transaction that `fulfill_peg_out` returns is the data output or pays the
  -- own script of the wallet, whoever the recipient of the request is.
  pub fulfill_peg_out-scripts :
      (wallet : BitcoinWallet b) (op : PegOutRequestOp b) (us : List Utxo) (tx : Transaction b)
      (prevouts : List (TxOut b))
      → fulfill_peg_out b wallet op us ≡ ok (tx, prevouts)
      → All
          (λ o. (o ≡ withdrawal_data_output b) ⊎ (o.script_pubkey ≡ wallet_script wallet))
          tx.output
  unfolding fulfill_peg_out
  fulfill_peg_out-scripts wallet op us tx prevouts h =
      let (s, e, h1) =
        bind-ok (consume_utxos b op us (nothing_consumed b)) (build b wallet op) (tx, prevouts) h in
      let (found, enough, i, o, q) = build-ok wallet op s tx prevouts h1 in
      rw o (outputs-scripts (wallet_script wallet) op.amount (s.total_consumed - op.amount))
