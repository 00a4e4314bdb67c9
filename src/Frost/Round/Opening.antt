-- ===== src/Frost/Round/Opening.antt =====
-- How `dkg_ended` of frost-signer/src/signing_round.rs ends, by the shares that it opens.
use core_eng.Prelude.{
  ℕ, ◌≤◌, ◌<◌, List, [], ◌∷◌, ◌++◌, ◌≡◌, refl, true, arith, Map, Option, none, insert, contains,
  All, length, Bool-cases, inl, inr, ◌≢◌, take, drop, values,
}
use core_eng.Prelude.Outcome.{Outcome, ok, err, panic}
use core_eng.Prelude.Exec.{fold_outcome}
use core_eng.Frost.Wsts.{Wsts, Bytes}
use core_eng.Frost.Util.{make_shared_secret, decrypt}
use core_eng.Frost.Messages.{PublicKeys, MessageTypes, success}
use core_eng.Frost.Round.Defs.{SigningRound, Error}
use core_eng.Frost.Round.Shares.{
  key_point, open_share, open_one, read_scalar, keep_share, open_row, open_all, Opened,
}
use core_eng.Frost.Round.Dkg.{dkg_ended, finish_shares}

-- Folds that cannot fail, and folds that meet a panic.
fold_outcome-ok :
    {E S X : Type 0} (f : S → X → Outcome E S) (P : X → Type 0)
    → ((s : S) (x : X) → P x → (t : S) × (f s x ≡ ok t))
    → (xs : List X) (s : S) → All P xs
    → (t : S) × (fold_outcome f s xs ≡ ok t)
unfolding fold_outcome
fold_outcome-ok f P h [] s a = (s, refl)
fold_outcome-ok f P h (x ∷ xs) s a =
    let (t, e) = h s x a.0 in
    let (u, k) = fold_outcome-ok f P h xs t a.1 in (u, rw (e, fold_outcome) k)

module _ (w : Wsts) where
  -- The key of `id` is configured and is a point.
  abbrev pub HasPoint : PublicKeys w → ℕ → Type 0
  HasPoint keys id = (p : w.Point) × (key_point w keys id ≡ ok p)

  -- A share for a key of this signer is long enough to hold a nonce.
  abbrev pub IsLong : List ℕ → ℕ × Bytes → Type 0
  IsLong owned e = contains e.0 owned ≡ true → 12 ≤ length e.1

  abbrev pub IsReadable : PublicKeys w → List ℕ → ℕ × Map Bytes → Type 0
  IsReadable keys owned row = HasPoint keys row.0 × All (IsLong owned) row.1

  open_share-ok :
      (k : w.Scalar) (keys : PublicKeys w) (src : ℕ) (share : Bytes)
      → HasPoint keys src
      → 12 ≤ length share
      → (r : Option w.Scalar) × (open_share w k keys src share ≡ ok r)
  unfolding open_share decrypt
  open_share-ok k keys src share (p, e) l = (
    read_scalar w (w.aead_decrypt (make_shared_secret w k p) (take 12 share) (drop 12 share)),
    rw (e, open_share) (ground arith),
  )

  open_one-ok :
      (k : w.Scalar) (keys : PublicKeys w) (owned : List ℕ) (src : ℕ) (acc : Opened w w.Scalar)
      (e : ℕ × Bytes)
      → HasPoint keys src
      → IsLong owned e
      → (t : Opened w w.Scalar) × (open_one w k keys owned src acc e ≡ ok t)
  unfolding open_one
  open_one-ok k keys owned src acc (dst, share) h l = elim (Bool-cases (contains dst owned)) [
    | inl own ↦
        let (r, e) = open_share-ok k keys src share h (l own) in
        (keep_share w src dst acc r, rw own (rw e refl))
    | inr other ↦ (record acc { opened = insert dst w.zero_scalar acc.opened }, rw other refl)
  ]

  open_row-ok :
      (k : w.Scalar) (keys : PublicKeys w) (owned : List ℕ) (acc : Opened w (Map w.Scalar))
      (row : ℕ × Map Bytes)
      → IsReadable keys owned row
      → (t : Opened w (Map w.Scalar)) × (open_row w k keys owned acc row ≡ ok t)
  unfolding open_row
  open_row-ok k keys owned acc (src, row) (h, ls) =
      let (r, e) =
        fold_outcome-ok (open_one w k keys owned src) (IsLong owned)
          (λ s x l. open_one-ok k keys owned src s x h l) row
          (record { opened = []; invalid = acc.invalid }) ls in
      (record { opened = insert src r.opened acc.opened; invalid = r.invalid }, rw e refl)

  pub open_all-ok :
      (k : w.Scalar) (keys : PublicKeys w) (owned : List ℕ) (shares : Map (Map Bytes))
      → All (IsReadable keys owned) shares
      → (o : Opened w (Map w.Scalar)) × (open_all w k keys owned shares ≡ ok o)
  unfolding open_all
  open_all-ok k keys owned shares h =
      fold_outcome-ok (open_row w k keys owned) (IsReadable keys owned) (open_row-ok k keys owned)
        shares (record { opened = []; invalid = [] }) h

  -- `dkg_ended` returns `DkgEnd` for this round and signer, and the status is `Success` only if no
  -- share failed to decrypt or parse and `compute_secrets` accepted them.
  pub record Reports (s : SigningRound w) : Type 0 where
    pub opened : Opened w (Map w.Scalar)
    pub report :
        (dkg_ended w s).0
        ≡ ok (
            MessageTypes.dkg_end (record {
              dkg_id = s.dkg_id;
              signer_id = s.signer.signer_id;
              status = (finish_shares w s opened).1;
            }))
    pub success_means :
        (finish_shares w s opened).1 ≡ success
        → (opened.invalid ≡ [])
          × ((w.compute_secrets s.signer.frost_signer opened.opened (values s.commitments)).1
              ≡ none)

  fold_outcome-panic :
      {E S X : Type 0} (f : S → X → Outcome E S)
      → ((s : S) (x : X) (e : E) → f s x ≢ err e)
      → (x : X) → ((s : S) → f s x ≡ panic)
      → (before after : List X) (s : S) → fold_outcome f s (before ++ x ∷ after) ≡ panic
  unfolding fold_outcome
  fold_outcome-panic f n x p [] after s = rw (p s, fold_outcome) refl
  fold_outcome-panic {E} {S} f n x p (y ∷ before) after s =
      go (f s y) refl (λ t. fold_outcome-panic f n x p before after t)
    where
      go :
          (r : Outcome E S)
          → f s y ≡ r
          → ((t : S) → fold_outcome f t (before ++ x ∷ after) ≡ panic)
          → fold_outcome f s (y ∷ (before ++ x ∷ after)) ≡ panic
      go (ok t) e rec = rw (e, fold_outcome) (rec t)
      go (err e') e rec = absurd (n s y e' e)
      go panic e rec = rw (e, fold_outcome) refl

  key_point-ne-err : (keys : PublicKeys w) (id : ℕ) (e : Error) → key_point w keys id ≢ err e
  unfolding key_point
  key_point-ne-err keys id e h = ground arith

  open_share-ne-err :
      (k : w.Scalar) (keys : PublicKeys w) (src : ℕ) (share : Bytes) (e : Error)
      → open_share w k keys src share ≢ err e
  unfolding open_share decrypt
  open_share-ne-err k keys src share e h = ground (arith, key_point-ne-err keys src e)

  open_one-ne-err :
      (k : w.Scalar) (keys : PublicKeys w) (owned : List ℕ) (src : ℕ) (acc : Opened w w.Scalar)
      (x : ℕ × Bytes) (e : Error)
      → open_one w k keys owned src acc x ≢ err e
  unfolding open_one
  open_one-ne-err k keys owned src acc (dst, share) e h =
      ground (arith, open_share-ne-err k keys src share e)

  fold_outcome-ne-err :
      {E S X : Type 0} (f : S → X → Outcome E S)
      → ((s : S) (x : X) (e : E) → f s x ≢ err e)
      → (xs : List X) (s : S) (e : E) → fold_outcome f s xs ≢ err e
  unfolding fold_outcome
  fold_outcome-ne-err f n [] s e h = cc
  fold_outcome-ne-err {E} {S} f n (x ∷ xs) s e h =
      go (f s x) refl (λ t. fold_outcome-ne-err f n xs t e)
    where
      go : (r : Outcome E S) → f s x ≡ r → ((t : S) → fold_outcome f t xs ≢ err e) → ⊥
      go (ok t) q rec = rec t (rw (q, fold_outcome) at h)
      go (err e') q rec = n s x e' q
      go panic q rec = cc (rw (q, fold_outcome) at h)

  open_row-ne-err :
      (k : w.Scalar) (keys : PublicKeys w) (owned : List ℕ) (acc : Opened w (Map w.Scalar))
      (x : ℕ × Map Bytes) (e : Error)
      → open_row w k keys owned acc x ≢ err e
  unfolding open_row
  open_row-ne-err k keys owned acc (src, row) e h = ground (
    arith,
    fold_outcome-ne-err (open_one w k keys owned src) (open_one-ne-err k keys owned src) row
        (record { opened = []; invalid = acc.invalid }) e,
  )

  open_share_short :
      (k : w.Scalar) (keys : PublicKeys w) (src : ℕ) (share : Bytes)
      → length share < 12
      → open_share w k keys src share ≡ panic
  unfolding open_share decrypt
  open_share_short k keys src share short = go (key_point w keys src) refl
    where
      go :
          (r : Outcome Error w.Point)
          → key_point w keys src ≡ r
          → open_share w k keys src share ≡ panic
      go (ok p) e = rw (e, open_share) (ground arith)
      go (err e') e = absurd (key_point-ne-err keys src e' e)
      go panic e = rw (e, open_share) refl

  open_one_short :
      (k : w.Scalar) (keys : PublicKeys w) (owned : List ℕ) (src dst : ℕ) (share : Bytes)
      (acc : Opened w w.Scalar)
      → contains dst owned ≡ true
      → length share < 12
      → open_one w k keys owned src acc (dst, share) ≡ panic
  unfolding open_one
  open_one_short k keys owned src dst share acc own short =
      ground (arith, open_share_short k keys src share short)

  open_row_short :
      (k : w.Scalar) (keys : PublicKeys w) (owned : List ℕ) (src dst : ℕ) (share : Bytes)
      (left right : Map Bytes) (acc : Opened w (Map w.Scalar))
      → contains dst owned ≡ true
      → length share < 12
      → open_row w k keys owned acc (src, left ++ (dst, share) ∷ right) ≡ panic
  unfolding open_row
  open_row_short k keys owned src dst share left right acc own short = rw (
      fold_outcome-panic (open_one w k keys owned src) (open_one-ne-err k keys owned src)
        (dst, share) (λ t. open_one_short k keys owned src dst share t own short) left right
        (record { opened = []; invalid = acc.invalid }))

  -- A share for a key of this signer that is shorter than a nonce makes `dkg_ended` panic, wherever
  -- it stands among the shares and whoever sent it.
  pub dkg_ended-panic :
      (s : SigningRound w) (before after : Map (Map Bytes)) (src : ℕ) (left right : Map Bytes)
      (dst : ℕ) (share : Bytes)
      → s.shares ≡ before ++ (src, left ++ (dst, share) ∷ right) ∷ after
      → contains dst (w.get_key_ids s.signer.frost_signer) ≡ true
      → length share < 12
      → (dkg_ended w s).0 ≡ panic
  unfolding dkg_ended open_all
  dkg_ended-panic s before after src left right dst share e own short =
      let owned : List ℕ = w.get_key_ids s.signer.frost_signer in
      rw (
        e,
        fold_outcome-panic (open_row w s.network_private_key s.public_keys owned)
            (open_row-ne-err s.network_private_key s.public_keys owned)
            (src, left ++ (dst, share) ∷ right)
            (λ t.
              open_row_short s.network_private_key s.public_keys owned src dst share left right t
                own short)
            before after (record { opened = []; invalid = [] }),
      )
