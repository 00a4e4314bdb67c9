-- ===== src/Frost/Verify.antt =====
-- frost-signer/src/signer.rs: `verify_msg`, the polling loop, and the signing of what `process`
-- sends. The channel between the two threads is taken to be open.
use core_eng.Prelude.{
  ℕ, ◌+◌, ◌*◌, ◌%◌, ◌^◌, List, [], ◌∷◌, Option, none, some, Bool, false, get, ◌==◌, leb,
  if◌then◌else◌,
}
use core_eng.Prelude.Outcome.{Outcome, ok, ◌>>=◌}
use core_eng.Frost.Wsts.{Wsts}
use core_eng.Frost.Messages.{Message, MessageTypes, PublicKeys}
use core_eng.Frost.Hash.{verify, sign}

abbrev pub base_timeout : ℕ
base_timeout = 2

abbrev pub max_timeout : ℕ
max_timeout = 128

-- How long the loop sleeps after a poll that brought nothing.
unfoldable pub next_timeout : ℕ → ℕ
next_timeout timeout =
    if timeout == 0
    then base_timeout
    else if leb max_timeout timeout
    then max_timeout
    else timeout * 2

module _ (w : Wsts) where
  -- The body of each `if let Some(public_key) = …` with its `else`.
  unfoldable pub verify_known : {E : Type 0} → Message w → Option w.PublicKey → Outcome E Bool
  verify_known m none = ok false
  verify_known m (some key) = verify w m.msg m.sig key

  unfoldable pub verify_kind :
      {E : Type 0} → MessageTypes w → Message w → PublicKeys w → w.PublicKey → Outcome E Bool
  unfolding verify_known
  verify_kind (MessageTypes.dkg_begin x) m keys coordinator = verify w m.msg m.sig coordinator
  verify_kind (MessageTypes.dkg_private_begin x) m keys coordinator =
      verify w m.msg m.sig coordinator
  verify_kind (MessageTypes.dkg_end x) m keys coordinator =
      verify_known m (get x.signer_id keys.signers)
  verify_kind (MessageTypes.dkg_public_end x) m keys coordinator =
      verify_known m (get x.signer_id keys.signers)
  verify_kind (MessageTypes.dkg_public_share x) m keys coordinator =
      verify_known m (get x.party_id keys.key_ids)
  -- the ids of private shares count from 0, the configuration's from 1
  verify_kind (MessageTypes.dkg_private_shares x) m keys coordinator =
      verify_known m (get ((x.key_id + 1) % 2 ^ 32) keys.key_ids)
  verify_kind (MessageTypes.nonce_request x) m keys coordinator = verify w m.msg m.sig coordinator
  verify_kind (MessageTypes.nonce_response x) m keys coordinator =
      verify_known m (get x.signer_id keys.signers)
  verify_kind (MessageTypes.sign_share_request x) m keys coordinator =
      verify w m.msg m.sig coordinator
  verify_kind (MessageTypes.sign_share_response x) m keys coordinator =
      verify_known m (get x.signer_id keys.signers)

  -- The `match` on the message.
  unfoldable pub verify_msg : {E : Type 0} → Message w → PublicKeys w → w.PublicKey → Outcome E Bool
  unfolding verify_kind
  verify_msg m keys coordinator = verify_kind m.msg m keys coordinator

  -- What one poll brought, the messages that go to the other thread, and the sleeps: the loop of
  -- `poll_loop` over the polls that happen, from a timeout on. A panic ends it.
  pub record Polled : Type 0 where
    pub sent : List (Message w)
    pub sleeps : List ℕ

  unfoldable pub poll_loop :
      {E : Type 0} → PublicKeys w → w.PublicKey → ℕ → List (Option (Message w)) → Outcome E Polled
  unfolding verify_msg next_timeout
  poll_loop keys coordinator timeout [] = ok (record { sent = []; sleeps = [] })
  poll_loop keys coordinator timeout (none ∷ polls) = do
    rest ← poll_loop keys coordinator (next_timeout timeout) polls
    ok (record rest { sleeps = next_timeout timeout ∷ rest.sleeps })
  poll_loop keys coordinator timeout (some m ∷ polls) = do
    accepted ← verify_msg m keys coordinator
    rest ← poll_loop keys coordinator 0 polls
    ok (record { sent = if accepted then m ∷ rest.sent else rest.sent; sleeps = 0 ∷ rest.sleeps })

  -- The loop over `outbounds` of `start_signing_round`: each message with its signature.
  unfoldable pub sign_all :
      {E : Type 0} → w.Scalar → List (MessageTypes w) → Outcome E (List (Message w))
  sign_all private_key [] = ok []
  sign_all private_key (out ∷ outs) = do
    sig ← sign w out private_key
    rest ← sign_all private_key outs
    ok (record { msg = out; sig = sig } ∷ rest)
