-- ===== src/SignerApi/Setup.antt =====
-- stacks-signer-api/src/config.rs, and `verify_config` of main.rs, which the server starts with.
use core_eng.Prelude.{ℕ, List, [], Option, none, some, Bool, true, false, Text, ◌⊎◌, inl, inr}
use core_eng.Prelude.Outcome.{Outcome, ok, err, panic, ok_or, ◌>>=◌}
use core_eng.SignerApi.Database.{Tables, Error}
use core_eng.SignerApi.Settings.{Secp, Config, update_config, get_config}

pub data ConfigError : Type 0 where
  hex_error secp256k1_error : ConfigError
  io_error toml_error : Text → ConfigError

abbrev pub default_max_amount : ℕ
default_max_amount = 100000

abbrev or_else {ℓ} : {A : Type ℓ} → Option A → A → A
or_else none d = d
or_else (some a) d = a

-- Why verify_config fails.
pub data VerifyError : Type 0 where
  no_database_or_config no_configuration : VerifyError
  failed_to_load : ConfigError → VerifyError
  database_error : Error → VerifyError

module _ (secp : Secp) where
  open secp use {SecretKey, PublicKey, secret_from_slice, public_of, hex_decode}

  pub record RawConfig : Type 0 where
    pub secret_key : SecretKey
    pub delegate_public_key : Option PublicKey
    pub delegator_public_keys : Option (List PublicKey)
    pub auto_deny_addresses : Option (List Text)
    pub auto_approve_max_amount : Option ℕ

  unfoldable pub new : SecretKey → Config secp
  new key = record {
    secret_key = key;
    auto_approve_max_amount = default_max_amount;
    delegate_public_key = public_of key;
    delegator_public_keys = [];
    auto_deny_addresses = [];
  }

  unfoldable pub from_secret_key : Text → Outcome ConfigError (Config secp)
  from_secret_key text = do
    bytes ← ok_or (hex_decode text) hex_error
    key ← ok_or (secret_from_slice bytes) secp256k1_error
    ok (new key)

  unfoldable pub try_from : RawConfig → Config secp
  try_from raw = record {
    secret_key = raw.secret_key;
    auto_approve_max_amount = or_else raw.auto_approve_max_amount default_max_amount;
    delegate_public_key = or_else raw.delegate_public_key (public_of raw.secret_key);
    delegator_public_keys = or_else raw.delegator_public_keys [];
    auto_deny_addresses = or_else raw.auto_deny_addresses [];
  }

  abbrev loaded : Outcome Error (Unit {0}) × Tables → Outcome VerifyError (Unit {0}) × Tables
  loaded (ok done, s) = (ok tt, s)
  loaded (err e, s) = (err (database_error e), s)
  loaded (panic, s) = (panic, s)

  abbrev with_file : ConfigError ⊎ RawConfig → Tables → Outcome VerifyError (Unit {0}) × Tables
  with_file (inl e) s = (err (failed_to_load e), s)
  with_file (inr raw) s = loaded (update_config secp (try_from raw) s)

  abbrev with_database : Outcome Error (Config secp) → Outcome VerifyError (Unit {0})
  with_database (ok config) = ok tt
  with_database (err e) = err no_configuration
  with_database panic = panic

  abbrev verify_by :
      Option (ConfigError ⊎ RawConfig) → Bool → Tables → Outcome VerifyError (Unit {0}) × Tables
  verify_by (some file) database_url s = with_file file s
  verify_by none true s = (with_database (get_config secp s), s)
  verify_by none false s = (err no_database_or_config, s)

  -- `file` is what the configuration file holds, if its path is given; `database_url` whether the
  -- variable DATABASE_URL is set.
  unfoldable pub verify_config :
      Bool → Option (ConfigError ⊎ RawConfig) → Tables → Outcome VerifyError (Unit {0}) × Tables
  verify_config database_url file s = verify_by file database_url s
