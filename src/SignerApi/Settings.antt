-- ===== src/SignerApi/Settings.antt =====
-- stacks-signer-api/src/db/config.rs: the signer's configuration in the tables.
use core_eng.Prelude.{ℕ, List, [], ◌∷◌, Option, some, Text, map}
use core_eng.Prelude.Outcome.{Outcome, ok, ok_or, ◌>>=◌}
use core_eng.Frost.Wsts.{Bytes}
use core_eng.SignerApi.Table.{replace}
use core_eng.SignerApi.Database.{
  Error, row_not_found, secp256k1_error, invalid_secret_key, Tables, Reads, collect_rows,
}

-- secp256k1 and hex.
pub record Secp : Type 1 where
  pub SecretKey : Type 0
  pub PublicKey : Type 0
  pub secret_bytes : SecretKey → Bytes
  pub secret_from_slice : Bytes → Option SecretKey
  pub public_to_string : PublicKey → Text
  pub public_from_str : Text → Option PublicKey
  pub public_of : SecretKey → PublicKey
  pub hex_encode : Bytes → Text
  pub hex_decode : Text → Option Bytes

abbrev text_key : Text → Text
text_key t = t

-- REPLACE of each text in a table whose only column is its key.
unfoldable pub replace_all : List Text → List Text → List Text
replace_all [] rows = rows
replace_all (t ∷ ts) rows = replace_all ts (replace text_key t rows)

module _ (secp : Secp) where
  pub record Config : Type 0 where
    pub secret_key : secp.SecretKey
    pub auto_approve_max_amount : ℕ
    pub delegate_public_key : secp.PublicKey
    pub delegator_public_keys : List secp.PublicKey
    pub auto_deny_addresses : List Text

  unfoldable pub update_config : Config → Tables → Outcome Error (Unit {0}) × Tables
  unfolding replace_all
  update_config config s = (
    ok tt,
    record s {
      config = some (record {
        secret_key = secp.hex_encode (secp.secret_bytes config.secret_key);
        auto_approve_max_amount = config.auto_approve_max_amount;
        delegate_public_key = secp.public_to_string config.delegate_public_key;
      });
      delegator_public_keys =
          replace_all (map secp.public_to_string config.delegator_public_keys)
            s.delegator_public_keys;
      auto_deny_addresses = replace_all config.auto_deny_addresses s.auto_deny_addresses;
    },
  )

  unfoldable pub get_delegator_public_keys : Tables → Reads (List secp.PublicKey)
  unfolding collect_rows
  get_delegator_public_keys s =
      collect_rows (λ text. ok_or (secp.public_from_str text) secp256k1_error)
        s.delegator_public_keys

  unfoldable pub get_config : Tables → Reads Config
  unfolding get_delegator_public_keys
  get_config s = do
    row ← ok_or s.config row_not_found
    bytes ← ok_or (secp.hex_decode row.secret_key) invalid_secret_key
    secret ← ok_or (secp.secret_from_slice bytes) secp256k1_error
    delegate ← ok_or (secp.public_from_str row.delegate_public_key) secp256k1_error
    delegators ← get_delegator_public_keys s
    ok (record {
      secret_key = secret;
      auto_approve_max_amount = row.auto_approve_max_amount;
      delegate_public_key = delegate;
      delegator_public_keys = delegators;
      auto_deny_addresses = s.auto_deny_addresses;
    })
