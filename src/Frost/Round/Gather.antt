-- ===== src/Frost/Round/Gather.antt =====
-- The two gathering phases of frost-signer/src/signing_round.rs: how `process` counts the public
-- and the private shares, and which message ends a phase.
use core_eng.Prelude.{
  suc, ◌+◌, ◌<◌, List, [], ◌∷◌, ◌≡◌, refl, false, arith, Map, insert, has, IsSorted, length,
  length-insert, From-insert,
}
use core_eng.Prelude.Outcome.{ok}
use core_eng.Frost.Wsts.{Wsts, Bytes}
use core_eng.Frost.Messages.{MessageTypes, DkgPublicShare, success}
use core_eng.Frost.States.{dkg_public_gather, dkg_private_distribute, accepted}
use core_eng.Frost.Round.Defs.{SigningRound, public_shares_done, can_dkg_end}
use core_eng.Frost.Round.Dkg.{Out, dkg_public_share}
use core_eng.Frost.Round.Process.{dispatch, end_public, after_dispatch, process, run}

module _ (w : Wsts) where
  abbrev pub with_commitments : SigningRound w → Map w.PolyCommitment → SigningRound w
  with_commitments s m = record s { commitments = m }

  abbrev pub public_end : SigningRound w → Out w
  public_end s =
      MessageTypes.dkg_public_end
        (record { dkg_id = s.dkg_id; signer_id = s.signer.signer_id; status = success })
      ∷ []

  public_share-more :
      (p : DkgPublicShare w) (s : SigningRound w)
      → s.state ≡ dkg_public_gather
      → IsSorted s.commitments
      → has p.party_id s.commitments ≡ false
      → suc (length s.commitments) < s.total_keys
      → process w (MessageTypes.dkg_public_share p) s
        ≡ (ok [], with_commitments s (insert p.party_id p.public_share s.commitments))
  unfolding process dispatch dkg_public_share after_dispatch public_shares_done can_dkg_end
  public_share-more p s e o f l =
      ground (arith, length-insert 0 p.party_id p.public_share s.commitments)

  public_share-last :
      (p : DkgPublicShare w) (s : SigningRound w)
      → s.state ≡ dkg_public_gather
      → IsSorted s.commitments
      → has p.party_id s.commitments ≡ false
      → suc (length s.commitments) ≡ s.total_keys
      → process w (MessageTypes.dkg_public_share p) s ≡ (
        ok (public_end s),
        record s {
          commitments = insert p.party_id p.public_share s.commitments;
          state = dkg_private_distribute;
        },
      )
  unfolding process dispatch dkg_public_share after_dispatch public_shares_done end_public accepted
  public_share-last p s e o f l =
      ground (arith, length-insert 0 p.party_id p.public_share s.commitments)

  abbrev pub collect : List (DkgPublicShare w) → Map w.PolyCommitment → Map w.PolyCommitment
  collect [] m = m
  collect (p ∷ ps) m = collect ps (insert p.party_id p.public_share m)

  -- The parties are distinct, and none is in the map yet.
  abbrev pub AreNew : List (DkgPublicShare w) → Map w.PolyCommitment → Type 0
  AreNew [] m = Unit
  AreNew (p ∷ ps) m = (has p.party_id m ≡ false) × AreNew ps (insert p.party_id p.public_share m)

  abbrev pub public_shares : List (DkgPublicShare w) → List (MessageTypes w)
  public_shares [] = []
  public_shares (p ∷ ps) = MessageTypes.dkg_public_share p ∷ public_shares ps

  pub collect-length :
      (ps : List (DkgPublicShare w)) (m : Map w.PolyCommitment)
      → IsSorted m
      → AreNew ps m
      → length (collect ps m) ≡ length m + length ps
  collect-length [] m o f = omega arith
  collect-length (p ∷ ps) m o f = ground (
    arith,
    length-insert 0 p.party_id p.public_share m,
    collect-length ps (insert p.party_id p.public_share m),
    From-insert 0 p.party_id p.public_share m,
  )

  -- A round in `DkgPublicGather` that gets public shares of new, distinct parties answers none of
  -- them while fewer than `total_keys` are there: it only stores them.
  pub run-gathering :
      (ps : List (DkgPublicShare w)) (s : SigningRound w)
      → s.state ≡ dkg_public_gather
      → IsSorted s.commitments
      → AreNew ps s.commitments
      → length s.commitments + length ps < s.total_keys
      → run w (public_shares ps) s ≡ (ok [], with_commitments s (collect ps s.commitments))
  unfolding run
  run-gathering [] s e o f l = refl
  run-gathering (p ∷ ps) s e o f l =
      rw (public_share-more p s e o f.0 (omega arith), run)
        (rw
          (run-gathering ps (with_commitments s (insert p.party_id p.public_share s.commitments)) e
            (From-insert 0 p.party_id p.public_share s.commitments (omega arith) o) f.1
            (omega (arith, grown)))
          refl)
    where
      grown : length (insert p.party_id p.public_share s.commitments) ≡ suc (length s.commitments)
      grown = ground (arith, length-insert 0 p.party_id p.public_share s.commitments)

  -- A round in `DkgPublicGather` with fewer than `total_keys` commitments that gets public shares
  -- of new, distinct parties which make them `total_keys` sends over the whole run exactly one
  -- message, `DkgPublicEnd` with `Success`, stores the shares, and goes on to
  -- `DkgPrivateDistribute`.
  pub run-gathered :
      (ps : List (DkgPublicShare w)) (s : SigningRound w)
      → s.state ≡ dkg_public_gather
      → IsSorted s.commitments
      → AreNew ps s.commitments
      → length s.commitments < s.total_keys
      → length s.commitments + length ps ≡ s.total_keys
      → run w (public_shares ps) s ≡ (
        ok (public_end s),
        record s { commitments = collect ps s.commitments; state = dkg_private_distribute },
      )
  unfolding run
  run-gathered [] s e o f h l = absurd (omega arith)
  run-gathered (p ∷ []) s e o f h l = rw (public_share-last p s e o f.0 (omega arith), run) refl
  run-gathered (p ∷ q ∷ ps) s e o f h l =
      rw (public_share-more p s e o f.0 (omega arith), run)
        (rw
          (run-gathered (q ∷ ps)
            (with_commitments s (insert p.party_id p.public_share s.commitments)) e
            (From-insert 0 p.party_id p.public_share s.commitments (omega arith) o) f.1
            (omega (arith, grown)) (omega (arith, grown)))
          refl)
    where
      grown : length (insert p.party_id p.public_share s.commitments) ≡ suc (length s.commitments)
      grown = ground (arith, length-insert 0 p.party_id p.public_share s.commitments)

  abbrev pub with_shares : SigningRound w → Map (Map Bytes) → SigningRound w
  with_shares s m = record s { shares = m }
