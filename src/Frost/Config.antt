-- ===== src/Frost/Config.antt =====
-- frost-signer/src/config.rs, and `From<&FrostSigner>` of frost-signer/src/signing_round.rs: from
-- the text of a configuration file, read by the crate toml, to the first state of a signing round.
pub mod Owners
pub mod Start
use core_eng.Prelude.{
  ℕ, suc, ◌+◌, ◌%◌, List, [], ◌∷◌, map, Map, get, insert, length, ltb, leb, ◌==◌, ◌&&◌, ◌⊎◌, inl,
  inr, if◌then◌else◌, Text,
}
use core_eng.Prelude.Outcome.{Outcome, ok, err, panic, ◌>>=◌, unwrap}
use core_eng.Frost.Wsts.{Wsts}
use core_eng.Frost.Messages.{PublicKeys}
use core_eng.Frost.States.{idle}
use core_eng.Frost.Round.Defs.{SigningRound}

-- How the crate p256k1 reads keys from text.
pub record KeyText (w : Wsts) : Type 1 where
  pub KeyError : Type 0
  pub ScalarError : Type 0
  pub public_key_from : Text → KeyError ⊎ w.PublicKey
  pub scalar_from : Text → ScalarError ⊎ w.Scalar

pub record RawSigners : Type 0 where
  pub public_key : Text
  pub key_ids : List ℕ

pub record RawConfig : Type 0 where
  pub http_relay_url : Text
  pub keys_threshold : ℕ
  pub network_private_key : Text
  pub signers : List RawSigners
  pub coordinator_public_key : Text

-- `try_into` from usize to u32, and `unwrap`.
unfoldable pub to_u32 : {E : Type 0} → ℕ → Outcome E ℕ
to_u32 n = if ltb n 4294967296 then ok n else panic

abbrev pub map_err : {E' E A : Type 0} → E' ⊎ A → (E' → E) → Outcome E A
map_err (inl e) f = err (f e)
map_err (inr a) f = ok a

-- `i - 1` on a u32 wraps around in a release build.
abbrev pub key_index : ℕ → ℕ
key_index i = (i + 4294967295) % 4294967296

module _ (w : Wsts) (t : KeyText w) where
  open w use {Scalar, PublicKey, Rng}
  open t use {KeyError, ScalarError, public_key_from, scalar_from}

  pub data ConfigError : Type 0 where
    invalid_public_key : KeyError → ConfigError
    invalid_private_key : ScalarError → ConfigError
    invalid_key_id : ConfigError

  pub record Config : Type 0 where
    pub http_relay_url : Text
    pub keys_threshold : ℕ
    pub network_private_key : Scalar
    pub public_keys : PublicKeys w
    pub signer_key_ids : Map (List ℕ)
    pub coordinator_public_key : PublicKey
    pub total_signers : ℕ
    pub total_keys : ℕ

  abbrev pub parse_public_key : Text → KeyError ⊎ PublicKey
  parse_public_key text = public_key_from text

  -- The inner loop: the key ids of one signer.
  unfoldable pub add_key_ids :
      PublicKey → List ℕ → Map PublicKey → Outcome ConfigError (Map PublicKey)
  add_key_ids key [] m = ok m
  add_key_ids key (k ∷ ks) m =
      let rest = add_key_ids key ks (insert k key m) in if k == 0 then err invalid_key_id else rest

  -- The outer loop, at index `i`. `+ 1` on a u32 wraps around in a release build.
  unfoldable pub add_signers :
      ℕ → List RawSigners → PublicKeys w → Outcome ConfigError (PublicKeys w)
  add_signers i [] keys = ok keys
  add_signers i (s ∷ ss) keys =
      map_err (parse_public_key s.public_key) invalid_public_key >>= (λ key.
        add_key_ids key s.key_ids keys.key_ids >>= (λ key_ids. to_u32 i >>= (λ n.
          add_signers (suc i) ss (record {
            signers = insert ((n + 1) % 4294967296) key keys.signers;
            key_ids = key_ids;
          }))))

  unfoldable pub public_keys : RawConfig → Outcome ConfigError (PublicKeys w)
  public_keys raw = add_signers 0 raw.signers (record { signers = []; key_ids = [] })

  unfoldable pub add_signer_key_ids :
      ℕ → List RawSigners → Map (List ℕ) → Outcome ConfigError (Map (List ℕ))
  add_signer_key_ids i [] m = ok m
  add_signer_key_ids i (s ∷ ss) m =
      to_u32 (i + 1) >>= (λ n. add_signer_key_ids (suc i) ss (insert n s.key_ids m))

  unfoldable pub signer_key_ids : RawConfig → Outcome ConfigError (Map (List ℕ))
  signer_key_ids raw = add_signer_key_ids 0 raw.signers []

  abbrev pub coordinator_public_key : RawConfig → Outcome ConfigError PublicKey
  coordinator_public_key raw =
      map_err (parse_public_key raw.coordinator_public_key) invalid_public_key

  abbrev pub network_private_key : RawConfig → Outcome ConfigError Scalar
  network_private_key raw = map_err (scalar_from raw.network_private_key) invalid_private_key

  -- `Config::new`
  unfoldable pub new_config :
      ℕ → PublicKey → PublicKeys w → Map (List ℕ) → Scalar → Text → Outcome ConfigError Config
  new_config threshold coordinator keys ids private_key url =
      to_u32 (length keys.signers) >>= (λ total_signers.
        to_u32 (length keys.key_ids) >>= (λ total_keys. ok (record {
          http_relay_url = url;
          keys_threshold = threshold;
          network_private_key = private_key;
          public_keys = keys;
          signer_key_ids = ids;
          coordinator_public_key = coordinator;
          total_signers = total_signers;
          total_keys = total_keys;
        })))

  unfoldable pub try_from : RawConfig → Outcome ConfigError Config
  try_from raw = coordinator_public_key raw >>= (λ coordinator. public_keys raw >>= (λ keys.
      signer_key_ids raw >>= (λ ids. network_private_key raw >>= (λ private_key.
        new_config raw.keys_threshold coordinator keys ids private_key raw.http_relay_url))))

  -- The round of the signer with these key ids.
  unfoldable pub first_round : Config → ℕ → List ℕ → Rng → SigningRound w
  first_round config signer_id ids rng = record {
    dkg_id = 1;
    dkg_public_id = 1;
    sign_id = 1;
    sign_nonce_id = 1;
    threshold = config.keys_threshold;
    total_signers = config.total_signers;
    total_keys = config.total_keys;
    signer = record {
      frost_signer =
          w.new_signer signer_id (map key_index ids) config.total_keys config.keys_threshold rng;
      signer_id = signer_id;
    };
    state = idle;
    commitments = [];
    shares = [];
    public_nonces = [];
    network_private_key = config.network_private_key;
    public_keys = config.public_keys;
    rng = w.next rng;
  }

  -- An assertion that fails is a panic, and so is an index that the map does not have.
  unfoldable pub from_signer : Config → ℕ → Rng → Outcome ConfigError (SigningRound w)
  from_signer config signer_id rng =
      if ltb 0 signer_id && leb signer_id config.total_signers
      then unwrap (get signer_id config.signer_key_ids) >>= (λ ids.
        if leb config.keys_threshold config.total_keys
        then ok (first_round config signer_id ids rng)
        else panic)
      else panic
