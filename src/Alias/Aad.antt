-- ===== src/Alias/Aad.antt =====
-- src/alias/aad.rs: the associated data that binds an encrypted alias to its row. The functions that
-- read one field are the same as those of src/aad.rs, and stand in Aad.
pub mod RoundTrip
use mipsorcu.Aad.{
  require_fields, required_value, parse_aad_version, parse_required_string,
  parse_required_positive_integer,
}
use mipsorcu.Crates.{Crates, Uuid}
use mipsorcu.Errors.{
  AadError, expected_json_object, unexpected_field, serialization_failed, invalid_positive_integer,
  invalid_uuid, invalid_uuid_version,
}
use mipsorcu.Json.{Value, Map, number, unsigned, string, object, end, entry, as_object, keys}
use mipsorcu.Prelude.{
  ℕ, not, Bytes, Text, codes, Option, none, some, Result, ok, err, ok_or, map_err, reject, ◌>>=◌,
  ◌>>◌, List, [], ◌∷◌, find, contains, as_bytes, ◌==◌,
}
use mipsorcu.Secrets.{parse_secret_id, parse_owner_user_id, new_key_version}

abbrev alias_aad_version_v1 : ℕ
alias_aad_version_v1 = 1

abbrev alias_aad_v1_fields : List Text
alias_aad_v1_fields =
    codes "aad_version"
    ∷ codes "alias_key_version"
    ∷ codes "owner_user_id"
    ∷ codes "secret_alias_id"
    ∷ codes "secret_id"
    ∷ []

pub record AliasAadV1 : Type 0 where
  pub secret_alias_id : Uuid
  pub secret_id : Uuid
  pub owner_user_id : Uuid
  pub alias_key_version : ℕ

unfoldable pub validate_alias_aad_v1_field_set : Map → Result AadError (Unit {0})
unfolding require_fields contains keys
validate_alias_aad_v1_field_set m = do
  require_fields m alias_aad_v1_fields
  elim (find (λ key. not (contains alias_aad_v1_fields key)) (keys m)) [
    | none ↦ ok tt
    | some field ↦ err (unexpected_field field)
  ]

module _ (c : Crates) where
  -- `SecretAliasId::parse` of src/types/ids.rs
  unfoldable pub parse_secret_alias_id : Text → Result AadError Uuid
  parse_secret_alias_id value = do
    uuid ← ok_or (c.parse_str value) (invalid_uuid (codes "secret_alias_id") value)
    reject (not (c.is_v4 uuid)) (invalid_uuid_version (codes "secret_alias_id") value)
    ok uuid

  unfoldable pub from_stored_context : Value → Result AadError AliasAadV1
  unfolding validate_alias_aad_v1_field_set required_value parse_aad_version parse_required_string
      parse_required_positive_integer parse_secret_alias_id parse_secret_id parse_owner_user_id
      new_key_version
  from_stored_context context = do
    m ← ok_or (as_object context) expected_json_object
    validate_alias_aad_v1_field_set m
    aad_version ← required_value m (codes "aad_version")
    checked ← parse_aad_version c aad_version
    secret_alias_id ← parse_required_string m (codes "secret_alias_id")
    secret_id ← parse_required_string m (codes "secret_id")
    owner_user_id ← parse_required_string m (codes "owner_user_id")
    alias_key_version ← parse_required_positive_integer c m (codes "alias_key_version")
    secret_alias ← parse_secret_alias_id secret_alias_id
    secret ← parse_secret_id c secret_id
    owner ← parse_owner_user_id c owner_user_id
    key_version ←
        map_err
          (λ e.
            invalid_positive_integer (codes "alias_key_version")
              (c.number_to_string (unsigned alias_key_version)))
          (new_key_version alias_key_version)
    ok (record {
      secret_alias_id = secret_alias;
      secret_id = secret;
      owner_user_id = owner;
      alias_key_version = key_version;
    })

  -- `CanonicalAliasAad`, its fields in the order of the struct
  abbrev pub canonical_fields : AliasAadV1 → Map
  canonical_fields a = entry (codes "aad_version") (number (unsigned alias_aad_version_v1)) (
      entry (codes "alias_key_version") (number (unsigned a.alias_key_version)) (
        entry (codes "owner_user_id") (string (c.hyphenated a.owner_user_id)) (
          entry (codes "secret_alias_id") (string (c.hyphenated a.secret_alias_id))
            (entry (codes "secret_id") (string (c.hyphenated a.secret_id)) end))))

  unfoldable pub canonical_json : AliasAadV1 → Result AadError Text
  canonical_json a = map_err serialization_failed (c.to_string (object (canonical_fields a)))

  unfoldable pub alias_canonical_bytes : AliasAadV1 → Result AadError Bytes
  unfolding canonical_json as_bytes
  alias_canonical_bytes a = canonical_json a >>= λ text. ok (as_bytes text)

  unfoldable pub to_stored_context : AliasAadV1 → Result AadError Value
  unfolding canonical_json
  to_stored_context a =
      canonical_json a >>= λ text. ok_or (c.from_str text) (serialization_failed (codes "from_str"))
