-- ===== src/Audit/Metadata/Values.antt =====
-- `validate_metadata_values` of src/audit/event/metadata.rs. A check of a key's value is made where
-- the object has the key.
use mipsorcu.Audit.Action.{
  AuditAction, AuditResult, AuditEventError, invalid_metadata_value,
  violation_summary_must_be_object, is_success, is_integrity_check, is_incident_detected,
  is_decrypt,
}
use mipsorcu.Audit.Metadata.Keys.{violation_summary_allowlist}
use mipsorcu.Crates.{Crates}
use mipsorcu.Json.{Value, Map, null, as_str, as_u64, as_object, get, end, entry}
use mipsorcu.Ledger.Payload.Fields.{is_year_month}
use mipsorcu.Ledger.Payload.Keys.{incident_types}
use mipsorcu.Prelude.{
  ℕ, Bool, true, false, not, ◌&&◌, ◌||◌, Text, codes, none, some, Result, ok, ◌>>=◌, ◌>>◌, ok_or,
  reject, is_ok, is_some, List, [], ◌∷◌, ltb, leb, ◌==◌, all, text_eq, len, is_blank,
  is_ascii_digit, contains, if◌then◌else◌,
}
use mipsorcu.Secrets.{parse_secret_id}
use mipsorcu.SourceEventAt.{parse_source_event_at}

-- `INVALID` for a test of a value
abbrev pub Check : Type 0
Check = Text → Value → Result AuditEventError (Unit {0})

unfoldable pub validate_u64_value : Check
validate_u64_value key value = ok_or (as_u64 value) (invalid_metadata_value key) >>= λ parsed. ok tt

unfoldable pub validate_positive_u64_value : Check
validate_positive_u64_value key value = do
  parsed ← ok_or (as_u64 value) (invalid_metadata_value key)
  reject (parsed == 0) (invalid_metadata_value key)

-- a test of the text of a value
abbrev pub text_check : (Text → Bool) → Check
text_check is_valid key value = do
  text ← ok_or (as_str value) (invalid_metadata_value key)
  reject (not (is_valid text)) (invalid_metadata_value key)

-- `validate_non_blank_short_string`, the limit first
unfoldable pub validate_non_blank_short_string : ℕ → Check
unfolding is_blank len
validate_non_blank_short_string max_len key value = do
  text ← ok_or (as_str value) (invalid_metadata_value key)
  reject (is_blank text || ltb max_len (len text)) (invalid_metadata_value key)

-- `is_ascii_hexdigit() && !is_uppercase()`
abbrev pub is_lower_hex : ℕ → Bool
is_lower_hex c = is_ascii_digit c || (leb b'a' c && leb c b'f')

-- `validate_hex_string`, the length first
unfoldable pub validate_hex_string : ℕ → Check
unfolding len
validate_hex_string expected_len key value = do
  text ← ok_or (as_str value) (invalid_metadata_value key)
  reject (not (len text == expected_len) || not (all is_lower_hex text))
      (invalid_metadata_value key)

-- `validate_exact_string`, the expected text first
unfoldable pub validate_exact_string : Text → Check
unfolding text_eq
validate_exact_string expected key value = do
  text ← ok_or (as_str value) (invalid_metadata_value key)
  reject (not (text_eq text expected)) (invalid_metadata_value key)

-- `if let Some(value) = object.get(key)`
unfoldable pub when_present : Text → Map → Check → Result AuditEventError (Unit {0})
unfolding get
when_present key m check = elim (get key m) [ none ↦ ok tt | some value ↦ check key value ]

-- the same for each key of a list
unfoldable pub for_present : List Text → Map → Check → Result AuditEventError (Unit {0})
unfolding when_present
for_present [] m check = ok tt
for_present (key ∷ keys) m check = when_present key m check >> for_present keys m check

abbrev pub count_keys : List Text
count_keys =
    codes "checked_secret_count"
    ∷ codes "checked_secret_version_count"
    ∷ codes "checked_audit_event_count"
    ∷ codes "duration_ms"
    ∷ codes "violation_count"
    ∷ codes "sample_count"
    ∷ codes "processed_count"
    ∷ codes "remaining_count"
    ∷ codes "result_count"
    ∷ []

abbrev pub positive_keys : List Text
positive_keys =
    codes "version"
    ∷ codes "old_key_version"
    ∷ codes "new_key_version"
    ∷ codes "signature_key_version"
    ∷ codes "batch_size"
    ∷ codes "target_sequence_no"
    ∷ codes "start_sequence_no"
    ∷ codes "end_sequence_no"
    ∷ codes "alias_fingerprint_key_version"
    ∷ codes "alias_fingerprint_schema_version"
    ∷ []

abbrev pub is_null : Value → Bool
is_null null = true
is_null _ = false

unfoldable pub validate_failed_version : AuditResult → Check
unfolding validate_positive_u64_value
validate_failed_version result key value = do
  if is_null value then ok tt else validate_positive_u64_value key value
  reject (is_success result) (invalid_metadata_value key)

abbrev pub is_notification_result : Text → Bool
unfolding contains
is_notification_result text =
    contains (codes "sent" ∷ codes "failed" ∷ codes "suppressed" ∷ codes "not_configured" ∷ []) text

abbrev pub is_severity : Text → Bool
unfolding contains
is_severity text =
    contains (codes "critical" ∷ codes "high" ∷ codes "medium" ∷ codes "low" ∷ []) text

-- the numbers of a violation summary, each reported under its own key where that is allowed
unfoldable pub validate_summary_values : Map → Result AuditEventError (Unit {0})
unfolding contains validate_u64_value
validate_summary_values end = ok tt
validate_summary_values (entry key value m) = do
  validate_u64_value
      (if contains violation_summary_allowlist key then key else codes "violation_summary") value
  validate_summary_values m

unfoldable pub validate_violation_summary : Check
unfolding validate_summary_values
validate_violation_summary key value = do
  summary ← ok_or (as_object value) violation_summary_must_be_object
  validate_summary_values summary

module _ (c : Crates) where
  -- `SecretVersionId::parse`, which accepts what `SecretId::parse` does
  abbrev pub is_secret_version_id : Text → Bool
  unfolding parse_secret_id
  is_secret_version_id text = is_ok (parse_secret_id c text)

  -- `SourceEventAt::parse(text).is_ok()`
  abbrev pub is_source_event_at : Text → Bool
  unfolding parse_source_event_at
  is_source_event_at text = is_ok (parse_source_event_at c text)

  -- the identifiers, and the keys that only some actions and results may have
  unfoldable pub validate_identifiers :
      AuditAction → AuditResult → Map → Result AuditEventError (Unit {0})
  validate_identifiers action result m = do
    for_present (codes "secret_version_id" ∷ codes "attempted_secret_id" ∷ []) m
        (text_check is_secret_version_id)
    when_present (codes "source_event_id") m (text_check (λ text. is_some (c.parse_str text)))
    when_present (codes "source_event_id") m
        (λ key value. reject (not (is_incident_detected action)) (invalid_metadata_value key))
    when_present (codes "attempted_secret_id") m (λ key value.
        reject (not (is_decrypt action && not (is_success result))) (invalid_metadata_value key))
    when_present (codes "error_code") m (λ key value.
        reject (is_success result) (invalid_metadata_value key)
        >> validate_non_blank_short_string 64 key value)

  -- the texts with a limit or a fixed form
  unfoldable pub validate_texts : Map → Result AuditEventError (Unit {0})
  validate_texts m = do
    when_present (codes "job_name") m (validate_non_blank_short_string 96)
    for_present (codes "endpoint" ∷ codes "resource" ∷ []) m (validate_non_blank_short_string 128)
    when_present (codes "method") m (validate_exact_string (codes "GET"))
    when_present (codes "public_key_fingerprint") m (validate_hex_string 64)
    for_present
        (codes "alias_fingerprint"
          ∷ codes "old_alias_fingerprint"
          ∷ codes "new_alias_fingerprint"
          ∷ [])
        m (validate_hex_string 64)
    for_present (codes "created_at" ∷ codes "activated_at" ∷ codes "retired_at" ∷ []) m
        (text_check is_source_event_at)
    for_present (codes "detection_source" ∷ codes "dedupe_key" ∷ codes "notification_sink" ∷ []) m
        (validate_non_blank_short_string 128)

  -- the texts out of a list of names, the periods, and the archive key of a success
  unfoldable pub validate_choices : AuditResult → Map → Result AuditEventError (Unit {0})
  validate_choices result m = do
    when_present (codes "incident_type") m (text_check (contains incident_types))
    when_present (codes "severity") m (text_check is_severity)
    when_present (codes "notification_result") m (text_check is_notification_result)
    when_present (codes "target_year_month") m (text_check is_year_month)
    when_present (codes "format") m
        (text_check (λ text. text_eq text (codes "json") || text_eq text (codes "markdown")))
    for_present (codes "period_start" ∷ codes "period_end" ∷ []) m (text_check is_source_event_at)
    when_present (codes "archive_key") m (λ key value.
        reject (not (is_success result)) (invalid_metadata_value key)
        >> validate_non_blank_short_string 256 key value)
    when_present (codes "check_name") m (validate_exact_string (codes "mvp_integrity_check"))
    when_present (codes "phase") m (validate_exact_string (codes "verify"))
    when_present (codes "reason") m (validate_exact_string (codes "no_current_secret_versions"))

  unfoldable pub validate_metadata_values :
      AuditAction → AuditResult → Map → Result AuditEventError (Unit {0})
  validate_metadata_values action result m = do
    for_present count_keys m validate_u64_value
    for_present positive_keys m validate_positive_u64_value
    when_present (codes "failed_version") m (validate_failed_version result)
    validate_identifiers action result m
    validate_texts m
    validate_choices result m
    if is_integrity_check action
        then when_present (codes "violation_summary") m validate_violation_summary
        else ok tt
