-- ===== src/Ledger/Payload/Fields.antt =====
-- The checks of a payload's values in src/ledger/payload.rs, and the month test of src/ledger/digest.rs.
use mipsorcu.Crates.{Crates}
use mipsorcu.Json.{Value, Map, as_str, as_u64, get}
use mipsorcu.Ledger.Payload.Keys.{
  incident_types, positive_keys, non_negative_keys, short_string_keys, digest_hash_keys,
  timestamp_keys,
}
use mipsorcu.Ledger.Types.{
  secret_created, LedgerError, unknown_payload_key, invalid_payload_field, ledger_i64_max,
}
use mipsorcu.Prelude.{
  reject, ℕ, ◌+◌, ◌-◌, ◌*◌, Bool, not, ◌&&◌, ◌||◌, Bytes, Text, codes, length, take, drop, all,
  none, some, Result, ok, err, ◌>>=◌, ok_or, map_err, List, [], ◌∷◌, ltb, leb, ◌==◌, if◌then◌else◌,
  text_eq, as_bytes, len, is_ascii_digit, contains, is_blank,
}
use mipsorcu.SourceEventAt.{parse_source_event_at}

abbrev expected_year_month : Text
expected_year_month = codes "a string in YYYY-MM format"

abbrev expected_timestamp : Text
expected_timestamp = codes "an RFC3339 UTC timestamp ending with Z"

abbrev expected_hash : Text
expected_hash = codes "a 64-character lowercase hex string"

abbrev expected_short : Text
expected_short = codes "a non-blank string at most 128 bytes"

abbrev expected_enum : Text
expected_enum = codes "an allowed string value"

abbrev expected_trigger : Text
expected_trigger = codes "one of background, cli, startup"

-- `u8::from_str` on the two digits that are left
abbrev month_of : Bytes → ℕ
month_of (a ∷ b ∷ []) = (a - b'0') * 10 + (b - b'0')
month_of _ = 0

abbrev byte_at_4 : Bytes → ℕ
byte_at_4 (_ ∷ _ ∷ _ ∷ _ ∷ b ∷ _) = b
byte_at_4 _ = 0

-- `validate_year_month_format` of src/ledger/digest.rs and `validate_year_month_value` of
-- src/ledger/payload.rs make the same test.
unfoldable pub is_year_month : Text → Bool
unfolding as_bytes
is_year_month text =
    let bytes = as_bytes text in
    let month = month_of (drop 5 bytes) in
    length bytes == 7
    && byte_at_4 bytes == b'-'
    && all is_ascii_digit (take 4 bytes)
    && all is_ascii_digit (drop 5 bytes)
    && leb 1 month
    && leb month 12

validate_year_month_value : Text → Value → Result LedgerError (Unit {0})
unfolding is_year_month
validate_year_month_value key value = do
  text ← ok_or (as_str value) (invalid_payload_field key expected_year_month)
  if not (is_year_month text) then err (invalid_payload_field key expected_year_month) else ok tt

-- `is_ascii_hexdigit() && !is_uppercase()`
abbrev is_lower_hex : ℕ → Bool
is_lower_hex c = is_ascii_digit c || (leb b'a' c && leb c b'f')

validate_digest_hash_value : Text → Value → Result LedgerError (Unit {0})
unfolding len
validate_digest_hash_value key value = do
  text ← ok_or (as_str value) (invalid_payload_field key expected_hash)
  if not (len text == 64) || not (all is_lower_hex text)
      then err (invalid_payload_field key expected_hash)
      else ok tt

require_json_u64 : Text → Value → Text → Result LedgerError ℕ
require_json_u64 key value expected = do
  parsed ← ok_or (as_u64 value) (invalid_payload_field key expected)
  if ltb ledger_i64_max parsed then err (invalid_payload_field key expected) else ok parsed

require_positive_json_u64 : Text → Value → Result LedgerError ℕ
unfolding require_json_u64
require_positive_json_u64 key value = do
  parsed ← require_json_u64 key value (codes "a positive integer")
  if parsed == 0 then err (invalid_payload_field key (codes "a positive integer")) else ok parsed

-- The arm of the positive integers, with the fixed `retention_limit`.
validate_positive_field : Text → Value → Result LedgerError (Unit {0})
unfolding require_positive_json_u64 text_eq
validate_positive_field key value = do
  parsed ← require_positive_json_u64 key value
  if text_eq key (codes "retention_limit") && not (parsed == 4)
      then err (invalid_payload_field key (codes "the integer 4"))
      else ok tt

require_non_negative_json_u64 : Text → Value → Result LedgerError ℕ
unfolding require_json_u64
require_non_negative_json_u64 key value =
    require_json_u64 key value (codes "a non-negative integer")

require_string_value : Text → Value → Text → Result LedgerError (Unit {0})
unfolding text_eq
require_string_value key value expected_value = elim (as_str value) [
  | none ↦ err (invalid_payload_field key expected_value)
  | some text ↦
      if text_eq text expected_value then ok tt else err (invalid_payload_field key expected_value)
]

-- `validate_classification_value` and `validate_non_blank_short_string` have the same body.
validate_non_blank_short_string : Text → Value → Result LedgerError (Unit {0})
unfolding is_blank len
validate_non_blank_short_string key value = do
  text ← ok_or (as_str value) (invalid_payload_field key expected_short)
  if is_blank text || ltb 128 (len text)
      then err (invalid_payload_field key expected_short)
      else ok tt

-- `AuditTrigger::parse` accepts these three
abbrev audit_triggers : List Text
audit_triggers = codes "startup" ∷ codes "background" ∷ codes "cli" ∷ []

validate_string_enum_value : Text → Value → List Text → Text → Result LedgerError (Unit {0})
unfolding contains
validate_string_enum_value key value allowed expected = do
  text ← ok_or (as_str value) (invalid_payload_field key expected)
  if contains allowed text then ok tt else err (invalid_payload_field key expected)

unfoldable pub validate_old_new_key_versions : Map → Result LedgerError (Unit {0})
unfolding get require_positive_json_u64
validate_old_new_key_versions m = elim (get (codes "old_key_version") m) [
  | none ↦ ok tt
  | some old_value ↦ elim (get (codes "new_key_version") m) [
    | none ↦ ok tt
    | some new_value ↦ do
      old_key_version ← require_positive_json_u64 (codes "old_key_version") old_value
      new_key_version ← require_positive_json_u64 (codes "new_key_version") new_value
      reject (old_key_version == new_key_version) (
          invalid_payload_field (codes "new_key_version")
            (codes "a different value from old_key_version"))
  ]
]

module _ (c : Crates) where
  validate_source_event_at_value : Text → Value → Result LedgerError (Unit {0})
  unfolding parse_source_event_at
  validate_source_event_at_value key value = do
    text ← ok_or (as_str value) (invalid_payload_field key expected_timestamp)
    parsed ←
        map_err (λ e. invalid_payload_field key expected_timestamp) (parse_source_event_at c text)
    ok tt

  -- The arms of the match, in order.
  unfoldable pub validate_payload_field : Text → Value → Result LedgerError (Unit {0})
  unfolding contains text_eq validate_positive_field require_non_negative_json_u64
      require_string_value validate_non_blank_short_string validate_string_enum_value
      validate_year_month_value validate_digest_hash_value validate_source_event_at_value
  validate_payload_field key value =
      if contains positive_keys key
      then validate_positive_field key value
      else if contains non_negative_keys key
      then (require_non_negative_json_u64 key value >>= λ _. ok tt)
      else if text_eq key (codes "algorithm")
      then require_string_value key value (codes "xchacha20-poly1305")
      else if text_eq key (codes "classification")
      then validate_non_blank_short_string key value
      else if text_eq key (codes "trigger")
      then validate_string_enum_value key value audit_triggers expected_trigger
      else if contains short_string_keys key
      then validate_non_blank_short_string key value
      else if text_eq key (codes "incident_type")
      then validate_string_enum_value key value incident_types expected_enum
      else if text_eq key (codes "severity")
      then validate_string_enum_value key value
          (codes "critical" ∷ codes "high" ∷ codes "medium" ∷ codes "low" ∷ []) expected_enum
      else if text_eq key (codes "notification_result")
      then validate_string_enum_value key value
          (codes "sent" ∷ codes "failed" ∷ codes "suppressed" ∷ codes "not_configured" ∷ [])
          expected_enum
      else if text_eq key (codes "target_year_month")
      then validate_year_month_value key value
      else if contains digest_hash_keys key
      then validate_digest_hash_value key value
      else if contains timestamp_keys key
      then validate_source_event_at_value key value
      else err (unknown_payload_key key secret_created)
