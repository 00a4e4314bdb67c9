-- ===== src/Frost/Round/Shares.antt =====
-- The encryption and decryption of private shares in `dkg_private_begin` and `dkg_ended` of
-- frost-signer/src/signing_round.rs, without the object around them.
use core_eng.Prelude.{
  ℕ, ◌+◌, ◌%◌, ◌^◌, List, [], ◌∷◌, ◌++◌, Option, none, some, Map, get, insert, contains,
  if◌then◌else◌,
}
use core_eng.Prelude.Outcome.{Outcome, ok, unwrap, ◌>>=◌}
use core_eng.Prelude.Exec.{fold_outcome}
use core_eng.Frost.Wsts.{Wsts, Bytes}
use core_eng.Frost.Messages.{PublicKeys}
use core_eng.Frost.Util.{make_shared_secret, encrypt, decrypt}
use core_eng.Frost.Round.Defs.{Error}

-- An index of the keys, which wsts counts from 0, as the configuration counts it, in a u32.
abbrev pub key_number : ℕ → ℕ
key_number id = (id + 1) % 2 ^ 32

module _ (w : Wsts) where
  open w use {
    Scalar, Point, Rng, next, zero_scalar, decompress, key_bytes, parse_scalar, scalar_bytes,
  }

  -- `self.public_keys.key_ids[&(id + 1)]` as a point: both steps panic on failure.
  unfoldable pub key_point : PublicKeys w → ℕ → Outcome Error Point
  key_point keys id = do
    key ← unwrap (get (key_number id) keys.key_ids)
    unwrap (decompress (key_bytes key))

  abbrev pub read_scalar : Option Bytes → Option Scalar
  read_scalar none = none
  read_scalar (some plain) = parse_scalar plain

  -- One share that is meant for this signer; `none` if it does not decrypt or parse.
  unfoldable pub open_share : Scalar → PublicKeys w → ℕ → Bytes → Outcome Error (Option Scalar)
  open_share private_key keys src share = do
    point ← key_point keys src
    plain ← decrypt w (make_shared_secret w private_key point) share
    ok (read_scalar plain)

  -- What the two loops of `dkg_ended` fill: the shares, and the sources of bad ones.
  pub record Opened (A : Type 0) : Type 0 where
    pub opened : Map A
    pub invalid : List ℕ

  abbrev pub keep_share : ℕ → ℕ → Opened Scalar → Option Scalar → Opened Scalar
  keep_share src dst acc none = record acc { invalid = acc.invalid ++ src ∷ [] }
  keep_share src dst acc (some s) = record acc { opened = insert dst s acc.opened }

  unfoldable pub open_one :
      Scalar → PublicKeys w → List ℕ → ℕ → Opened Scalar → ℕ × Bytes → Outcome Error (Opened Scalar)
  open_one private_key keys owned src acc (dst, share) =
      if contains dst owned
      then (open_share private_key keys src share >>= λ r. ok (keep_share src dst acc r))
      else ok (record acc { opened = insert dst zero_scalar acc.opened })

  unfoldable pub open_row :
      Scalar
      → PublicKeys w
      → List ℕ
      → Opened (Map Scalar)
      → ℕ × Map Bytes
      → Outcome Error (Opened (Map Scalar))
  unfolding open_one
  open_row private_key keys owned acc (src, row) = do
    r ←
        fold_outcome (open_one private_key keys owned src)
          (record { opened = []; invalid = acc.invalid }) row
    ok (record { opened = insert src r.opened acc.opened; invalid = r.invalid })

  unfoldable pub open_all :
      Scalar → PublicKeys w → List ℕ → Map (Map Bytes) → Outcome Error (Opened (Map Scalar))
  unfolding open_row
  open_all private_key keys owned shares =
      fold_outcome (open_row private_key keys owned) (record { opened = []; invalid = [] }) shares

  -- What the inner loop of `dkg_private_begin` carries: the encrypted shares, and the entropy.
  pub record Sealing : Type 0 where
    pub encrypted : Map Bytes
    pub rng : Rng

  unfoldable pub seal_one : Scalar → PublicKeys w → Sealing → ℕ × Scalar → Outcome Error Sealing
  seal_one private_key keys acc (dst, share) = do
    point ← key_point keys dst
    cipher ←
        unwrap (encrypt w (make_shared_secret w private_key point) (scalar_bytes share) acc.rng)
    ok (record { encrypted = insert dst cipher acc.encrypted; rng = next acc.rng })

  unfoldable pub seal_row : Scalar → PublicKeys w → Rng → Map Scalar → Outcome Error Sealing
  unfolding seal_one
  seal_row private_key keys rng row =
      fold_outcome (seal_one private_key keys) (record { encrypted = []; rng = rng }) row
