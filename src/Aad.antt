-- ===== src/Aad.antt =====
-- src/aad.rs: the associated data that binds a ciphertext to its row, its canonical bytes, and the
-- context that is stored beside the ciphertext and read back.
pub mod RoundTrip
use mipsorcu.Crates.{Crates, Uuid, OffsetDateTime}
use mipsorcu.Errors.{
  AadError, expected_json_object, missing_field, unexpected_field, unsupported_aad_version,
  invalid_field_type, invalid_positive_integer, serialization_failed,
}
use mipsorcu.Json.{
  Value, Map, Number, number, unsigned, string, object, end, entry, as_object, as_str, get, insert,
  keys,
}
use mipsorcu.Prelude.{
  ℕ, Bool, not, Bytes, Text, codes, Option, none, some, Result, ok, err, ok_or, map_err, ◌>>=◌,
  ◌>>◌, List, [], ◌∷◌, find, ltb, ◌==◌, ◌||◌, if◌then◌else◌, contains,
}
use mipsorcu.Secrets.{
  u32_max, new_secret_version, new_classification, parse_secret_id, parse_owner_user_id,
  parse_created_at, as_rfc3339_utc,
}

abbrev pub aad_version_v1 : ℕ
aad_version_v1 = 1

abbrev pub aad_v1_fields : List Text
aad_v1_fields =
    codes "aad_version"
    ∷ codes "classification"
    ∷ codes "created_at"
    ∷ codes "owner_user_id"
    ∷ codes "secret_id"
    ∷ codes "version"
    ∷ []

pub record AadV1 : Type 0 where
  pub secret_id : Uuid
  pub version : ℕ
  pub owner_user_id : Uuid
  pub classification : Text
  pub created_at : OffsetDateTime

unfoldable pub required_value : Map → Text → Result AadError Value
unfolding get
required_value m field = ok_or (get field m) (missing_field field)

-- the first loop of `validate_aad_v1_field_set`
unfoldable pub require_fields : Map → List Text → Result AadError (Unit {0})
unfolding required_value
require_fields m [] = ok tt
require_fields m (field ∷ fields) = required_value m field >>= λ _. require_fields m fields

unfoldable pub validate_aad_v1_field_set : Map → Result AadError (Unit {0})
unfolding require_fields contains keys
validate_aad_v1_field_set m = do
  require_fields m aad_v1_fields
  elim (find (λ key. not (contains aad_v1_fields key)) (keys m)) [
    | none ↦ ok tt
    | some field ↦ err (unexpected_field field)
  ]

unfoldable pub parse_required_string : Map → Text → Result AadError Text
unfolding required_value
parse_required_string m field = do
  value ← required_value m field
  ok_or (as_str value) (invalid_field_type field (codes "a string"))

module _ (c : Crates) where
  unfoldable pub parse_positive_integer : Value → Text → Result AadError ℕ
  parse_positive_integer (number (unsigned n)) field =
      if ltb u32_max n || n == 0
      then err (invalid_positive_integer field (c.number_to_string (unsigned n)))
      else ok n
  parse_positive_integer (number n) field =
      err (invalid_positive_integer field (c.number_to_string n))
  parse_positive_integer value field = err (invalid_field_type field (codes "a positive integer"))

  unfoldable pub parse_required_positive_integer : Map → Text → Result AadError ℕ
  unfolding parse_positive_integer required_value
  parse_required_positive_integer m field = do
    value ← required_value m field
    parse_positive_integer value field

  -- `u8::try_from` fails above 255, and only 1 is accepted.
  unfoldable pub parse_aad_version : Value → Result AadError ℕ
  parse_aad_version (number (unsigned n)) =
      if n == aad_version_v1
      then ok n
      else err (unsupported_aad_version (c.number_to_string (unsigned n)))
  parse_aad_version (number n) = err (unsupported_aad_version (c.number_to_string n))
  parse_aad_version value = err (invalid_field_type (codes "aad_version") (codes "the integer 1"))

  -- `AadV1::parse`
  unfoldable pub parse : Text → ℕ → Text → Text → Text → Result AadError AadV1
  unfolding parse_secret_id new_secret_version parse_owner_user_id new_classification
      parse_created_at
  parse secret_id version owner_user_id classification created_at = do
    secret_id' ← parse_secret_id c secret_id
    version' ← new_secret_version version
    owner ← parse_owner_user_id c owner_user_id
    class ← new_classification classification
    created ← parse_created_at c created_at
    ok (record {
      secret_id = secret_id';
      version = version';
      owner_user_id = owner;
      classification = class;
      created_at = created;
    })

  unfoldable pub from_stored_context : Value → Result AadError AadV1
  unfolding validate_aad_v1_field_set required_value parse_aad_version parse_required_string
      parse_required_positive_integer
  from_stored_context context = do
    m ← ok_or (as_object context) expected_json_object
    validate_aad_v1_field_set m
    aad_version ← required_value m (codes "aad_version")
    checked ← parse_aad_version aad_version
    secret_id ← parse_required_string m (codes "secret_id")
    version ← parse_required_positive_integer m (codes "version")
    owner_user_id ← parse_required_string m (codes "owner_user_id")
    classification ← parse_required_string m (codes "classification")
    created_at ← parse_required_string m (codes "created_at")
    parse secret_id version owner_user_id classification created_at

  -- `CanonicalAad`, its fields in the order of the struct
  unfoldable pub canonical_aad : AadV1 → Text → Value
  canonical_aad a created_at = object (
      entry (codes "aad_version") (number (unsigned aad_version_v1)) (
        entry (codes "classification") (string a.classification) (
          entry (codes "created_at") (string created_at) (
            entry (codes "owner_user_id") (string (c.hyphenated a.owner_user_id)) (
              entry (codes "secret_id") (string (c.hyphenated a.secret_id))
                (entry (codes "version") (number (unsigned a.version)) end))))))

  unfoldable pub canonical_bytes : AadV1 → Result AadError Bytes
  unfolding canonical_aad
  canonical_bytes a = do
    created_at ← as_rfc3339_utc c a.created_at
    map_err serialization_failed (c.to_vec (canonical_aad a created_at))

  unfoldable pub to_stored_context : AadV1 → Result AadError Value
  unfolding insert
  to_stored_context a = do
    created_at ← as_rfc3339_utc c a.created_at
    ok (
        object (
          insert (codes "created_at") (string created_at) (
            insert (codes "classification") (string a.classification) (
              insert (codes "owner_user_id") (string (c.hyphenated a.owner_user_id)) (
                insert (codes "version") (number (unsigned a.version)) (
                  insert (codes "secret_id") (string (c.hyphenated a.secret_id))
                    (insert (codes "aad_version") (number (unsigned aad_version_v1)) end)))))))
