-- ===== src/Ledger/Payload.antt =====
-- `LedgerPayload::new` of src/ledger/payload.rs.
pub mod Forbidden
pub mod Keys
pub mod Fields
pub mod Safety
pub mod Canonical
use mipsorcu.Crates.{Crates}
use mipsorcu.Json.{
  Value, Values, Map, null, boolean, number, string, array, object, nil, cons, end, entry,
  as_object, as_str, as_u64, get,
}
use mipsorcu.Ledger.Types.{
  LedgerEntryType, secret_created, secret_version_created, secret_decrypted, secret_version_purged,
  integrity_check_completed, restore_test_completed, key_rotation_started, key_rotation_reencrypted,
  key_rotation_completed, key_rotation_aborted, signature_key_created, signature_key_activated,
  signature_key_retired, ledger_verified, ledger_verification_failed, audit_fallback_resent,
  monthly_digest, archive_exported, digest_timestamped, scheduler_job_completed, incident_detected,
  LedgerError, payload_must_be_object, forbidden_payload_key, payload_value_must_be_scalar,
  unknown_payload_key, unknown_entry_type, invalid_payload_field, payload_too_large,
  serialization_failed, ledger_i64_max,
}
use mipsorcu.Prelude.{
  reject, ℕ, ◌+◌, ◌-◌, ◌*◌, Bool, true, false, not, ◌&&◌, ◌||◌, Bytes, Text, codes, length, take,
  drop, all, Option, none, some, Result, ok, err, ◌>>=◌, ◌>>◌, ok_or, map_err, List, [], ◌∷◌, ltb,
  leb, ◌==◌, if◌then◌else◌, text_eq, trim, to_ascii_lowercase, as_bytes, len, is_ascii_digit,
  contains, is_blank,
}
use mipsorcu.SourceEventAt.{parse_source_event_at}
use mipsorcu.Ledger.EntryType.{allowed_payload_keys}
use Forbidden.{reject_forbidden_payload_keys}
use Fields.{validate_payload_field, validate_old_new_key_versions}

abbrev pub ledger_payload_max_canonical_bytes : ℕ
ledger_payload_max_canonical_bytes = 8192

pub record LedgerPayload : Type 0 where
  pub entry_type : LedgerEntryType
  pub object : Map

-- `CanonicalPayloadObject`: the keys in the order of `allowed_payload_keys`
unfoldable pub canonical_payload_object : List Text → Map → Map
unfolding get
canonical_payload_object [] m = end
canonical_payload_object (key ∷ allowed) m =
    let rest = canonical_payload_object allowed m in
    elim (get key m) [ none ↦ rest | some value ↦ entry key value rest ]

abbrev pub is_container : Value → Bool
is_container (object m) = true
is_container (array vs) = true
is_container _ = false

abbrev required_incident_keys : List Text
required_incident_keys =
    codes "incident_type"
    ∷ codes "severity"
    ∷ codes "detection_source"
    ∷ codes "dedupe_key"
    ∷ codes "notification_sink"
    ∷ codes "notification_result"
    ∷ []

unfoldable pub require_keys : List Text → Map → Result LedgerError (Unit {0})
unfolding get
require_keys [] m = ok tt
require_keys (key ∷ rest) m = elim (get key m) [
  | none ↦ err (invalid_payload_field key (codes "a required incident_detected payload key"))
  | some _ ↦ require_keys rest m
]

validate_required_payload_keys : LedgerEntryType → Map → Result LedgerError (Unit {0})
unfolding require_keys
validate_required_payload_keys incident_detected m = require_keys required_incident_keys m
validate_required_payload_keys _ m = ok tt

module _ (c : Crates) where
  -- the loop of `validate_payload_object`
  unfoldable pub validate_entries : LedgerEntryType → Map → Result LedgerError (Unit {0})
  validate_entries t end = ok tt
  validate_entries t (entry key value m) = do
    reject (not (contains (allowed_payload_keys t) key)) (unknown_payload_key key t)
    reject (is_container value) (payload_value_must_be_scalar key)
    validate_payload_field c key value
    validate_entries t m

  unfoldable pub validate_payload_object : LedgerEntryType → Map → Result LedgerError (Unit {0})
  unfolding validate_required_payload_keys
  validate_payload_object t m = do
    validate_entries t m
    validate_required_payload_keys t m
    validate_old_new_key_versions m

  unfoldable pub ensure_payload_size : LedgerEntryType → Map → Result LedgerError (Unit {0})
  ensure_payload_size t m = do
    bytes ←
        map_err serialization_failed
          (c.to_vec (object (canonical_payload_object (allowed_payload_keys t) m)))
    reject (ltb ledger_payload_max_canonical_bytes (length bytes))
        (payload_too_large ledger_payload_max_canonical_bytes)

  unfoldable pub new_payload : LedgerEntryType → Value → Result LedgerError LedgerPayload
  unfolding ensure_payload_size
  new_payload t value = do
    m ← ok_or (as_object value) payload_must_be_object
    reject_forbidden_payload_keys (object m)
    validate_payload_object t m
    ensure_payload_size t m
    ok (record { entry_type = t; object = m })
