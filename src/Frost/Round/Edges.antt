-- ===== src/Frost/Round/Edges.antt =====
-- The states that `process` of frost-signer/src/signing_round.rs goes through.
use core_eng.Prelude.{subst, sym, ◌≡◌, ◌≢◌, true, arith, Bool-cases, inl, inr}
use core_eng.Prelude.Keeps.{Preorder, Keeps}
use core_eng.Frost.Wsts.{Wsts}
use core_eng.Frost.States.{
  States, idle, dkg_public_distribute, dkg_public_gather, dkg_private_distribute,
  dkg_private_gather, sign_gather, signed, accepted,
}
use core_eng.Frost.Round.Defs.{SigningRound, move_to}
use core_eng.Frost.Round.Dkg.{Round}

-- The cycle of key generation, and the ways to begin it anew.
infix 40 ◌⟶◌ ◌⟶*◌
pub data ◌⟶◌ : States → States → Type 0 where
  begin : idle ⟶ dkg_public_distribute
  begin_again : dkg_public_gather ⟶ dkg_public_distribute
  begin_over : dkg_private_distribute ⟶ dkg_public_distribute
  publish : dkg_public_distribute ⟶ dkg_public_gather
  gathered : dkg_public_gather ⟶ dkg_private_distribute
  distribute : dkg_private_distribute ⟶ dkg_private_gather
  finish : dkg_private_gather ⟶ idle

pub data ◌⟶*◌ : States → States → Type 0 where
  stay : {p : States} → p ⟶* p
  go_on : {p q r : States} → p ⟶* q → q ⟶ r → p ⟶* r

⟶*-join : {p q r : States} → p ⟶* q → q ⟶* r → p ⟶* r
⟶*-join h stay = h
⟶*-join h (go_on k e) = go_on (⟶*-join h k) e

abbrev pub IsDkgTarget : States → Type 0
IsDkgTarget t = (t ≢ idle) × (t ≢ sign_gather) × (t ≢ signed)

accepted-⟶ : (p t : States) → IsDkgTarget t → accepted p t ≡ true → p ⟶ t
unfolding accepted
accepted-⟶ p t d h =
    grind (arith, begin, begin_again, begin_over, publish, gathered, distribute, finish)

module _ (w : Wsts) where
  -- What the configuration of a round fixes.
  pub record SameConfig (s t : SigningRound w) : Type 0 where
    pub threshold : t.threshold ≡ s.threshold
    pub total_signers : t.total_signers ≡ s.total_signers
    pub total_keys : t.total_keys ≡ s.total_keys
    pub signer_id : t.signer.signer_id ≡ s.signer.signer_id
    pub private_key : t.network_private_key ≡ s.network_private_key
    pub public_keys : t.public_keys ≡ s.public_keys

  pub record Still (s t : SigningRound w) : Type 0 where
    pub state : t.state ≡ s.state
    pub config : SameConfig s t

  pub record Evolves (s t : SigningRound w) : Type 0 where
    pub path : s.state ⟶* t.state
    pub config : SameConfig s t

  pub Still-order : Preorder Still
  Still-order = record { here = λ s. ground arith; join = λ s t u h k. ground arith }

  pub order : Preorder Evolves
  order = record {
    here = λ s. record { path = stay; config = ground arith };
    join = λ s t u h k. record { path = ⟶*-join h.path k.path; config = ground arith };
  }

  pub Still-Evolves : (s t : SigningRound w) → Still s t → Evolves s t
  Still-Evolves s t h = record {
    path = subst (λ p. s.state ⟶* p) (sym h.state) stay;
    config = h.config;
  }

  pub keep-Still : {A : Type 0} {m : Round w A} → Keeps Still m → Keeps Evolves m
  keep-Still h = record { at = λ s. Still-Evolves s _ (h.at s) }

  pub move_to-Evolves : (t : States) → IsDkgTarget t → Keeps Evolves (move_to w t)
  unfolding move_to
  move_to-Evolves t d = record {
    at = λ s. elim (Bool-cases (accepted s.state t)) [
      | inl yes' ↦
          rw yes'
            (record { path = go_on stay (accepted-⟶ s.state t d yes'); config = ground arith })
      | inr no' ↦ rw no' (order.here s)
    ];
  }
