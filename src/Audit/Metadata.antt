-- ===== src/Audit/Metadata.antt =====
-- `AuditMetadata` of src/audit/event/metadata.rs, with `canonicalize_source_event_at` of
-- src/audit/event/validation.rs.
pub mod Forbidden
pub mod Keys
pub mod Values
pub mod Safety
use mipsorcu.Audit.Action.{
  AuditAction, AuditResult, AuditTrigger, AuditEventError, metadata_must_be_object,
  violation_summary_must_be_object, unknown_metadata_key, missing_metadata_key, invalid_trigger,
  invalid_source_event_at, missing_source_event_at, source_event_at_unavailable, parse_trigger,
  trigger_as_str, is_integrity_check,
}
use mipsorcu.Crates.{Crates, Uuid, OffsetDateTime}
use mipsorcu.Json.{Value, Map, string, object, end, entry, as_str, as_object, get, insert, keys}
use mipsorcu.Prelude.{
  is_some, Bool, true, false, not, Text, codes, Option, none, some, Result, ok, err, ◌>>=◌, ◌>>◌,
  ok_or, map_err, reject, List, [], ◌∷◌, contains, if◌then◌else◌,
}
use mipsorcu.SourceEventAt.{parse_source_event_at, format_utc_rfc3339}
use Forbidden.{reject_forbidden_metadata_keys_in_object}
use Keys.{allowed_keys, required_keys, violation_summary_allowlist}
use Values.{validate_metadata_values}

pub record AuditMetadata : Type 0 where
  pub value : Value

-- `AuditMetadata::empty`
unfoldable pub empty_metadata : AuditMetadata
empty_metadata = record { value = object end }

-- the loops over `object.keys()` with an allowlist
unfoldable pub reject_unknown_keys : List Text → List Text → Result AuditEventError (Unit {0})
unfolding contains
reject_unknown_keys allowed [] = ok tt
reject_unknown_keys allowed (key ∷ keys) = do
  reject (not (contains allowed key)) (unknown_metadata_key key)
  reject_unknown_keys allowed keys

-- `object.contains_key(key)`
unfoldable pub contains_key : Text → Map → Bool
unfolding get
contains_key key m = is_some (get key m)

-- the loops over required keys
unfoldable pub require_keys : List Text → Map → Result AuditEventError (Unit {0})
unfolding contains_key
require_keys [] m = ok tt
require_keys (key ∷ keys) m = do
  reject (not (contains_key key m)) (missing_metadata_key key)
  require_keys keys m

-- the check of `violation_summary` before the allowlist of `integrity_check`
unfoldable pub check_summary_keys : AuditAction → Map → Result AuditEventError (Unit {0})
unfolding reject_unknown_keys get violation_summary_allowlist keys
check_summary_keys action m =
    if is_integrity_check action
    then elim (get (codes "violation_summary") m) [
      | none ↦ ok tt
      | some value ↦ do
        summary ← ok_or (as_object value) violation_summary_must_be_object
        reject_unknown_keys violation_summary_allowlist (keys summary)
    ]
    else ok tt

unfoldable pub summary_has_keys : Map → Result AuditEventError (Unit {0})
unfolding require_keys get violation_summary_allowlist
summary_has_keys m = do
  value ← ok_or (get (codes "violation_summary") m) violation_summary_must_be_object
  summary ← ok_or (as_object value) violation_summary_must_be_object
  require_keys violation_summary_allowlist summary

-- the check of `violation_summary` in `validate_required_metadata_keys`
unfoldable pub require_summary_keys : AuditAction → Map → Result AuditEventError (Unit {0})
unfolding summary_has_keys
require_summary_keys action m = if is_integrity_check action then summary_has_keys m else ok tt

-- `validate_required_metadata_keys` with `require_source_event_at`
unfoldable pub validate_required_metadata_keys :
    AuditAction → AuditResult → Map → Result AuditEventError (Unit {0})
unfolding require_keys required_keys require_summary_keys
validate_required_metadata_keys action result m = do
  require_keys (required_keys action result) m
  require_keys (codes "source_event_at" ∷ []) m
  require_summary_keys action m

unfoldable pub validate_trigger : (Value → Text) → Map → Result AuditEventError (Unit {0})
unfolding get parse_trigger
validate_trigger to_string m = elim (get (codes "trigger") m) [
  | none ↦ ok tt
  | some value ↦ do
    text ← ok_or (as_str value) (invalid_trigger (to_string value))
    parse_trigger text >>= λ parsed. ok tt
]

module _ (c : Crates) where
  -- the text of a `source_event_at`, parsed
  unfoldable pub parse_source_event_at_value : Value → Result AuditEventError Text
  unfolding parse_source_event_at
  parse_source_event_at_value value = do
    text ← ok_or (as_str value) invalid_source_event_at
    map_err (λ e. invalid_source_event_at) (parse_source_event_at c text)

  unfoldable pub canonicalize_source_event_at : Map → Result AuditEventError Map
  unfolding get insert
  canonicalize_source_event_at m = elim (get (codes "source_event_at") m) [
    | none ↦ ok m
    | some value ↦ do
      canonical ← parse_source_event_at_value value
      ok (insert (codes "source_event_at") (string canonical) m)
  ]

  -- `value.to_string()` of a JSON value, for a message
  abbrev pub display : Value → Text
  display value = elim (c.to_string value) [ ok text ↦ text | err _ ↦ [] ]

  unfoldable pub from_object : Map → Result AuditEventError AuditMetadata
  unfolding reject_forbidden_metadata_keys_in_object validate_trigger
  from_object m = do
    reject_forbidden_metadata_keys_in_object m
    validate_trigger display m
    canonical ← canonicalize_source_event_at m
    ok (record { value = object canonical })

  -- `AuditMetadata::new`
  unfoldable pub new_metadata : Value → Result AuditEventError AuditMetadata
  new_metadata value = do m ← ok_or (as_object value) metadata_must_be_object; from_object m

  -- `source_event_at`
  unfoldable pub source_event_at : AuditMetadata → Result AuditEventError (Option Text)
  unfolding get
  source_event_at metadata = do
    m ← ok_or (as_object metadata.value) metadata_must_be_object
    elim (get (codes "source_event_at") m) [
      | none ↦ ok none
      | some value ↦ do canonical ← parse_source_event_at_value value; ok (some canonical)
    ]

  unfoldable pub require_source_event_at : AuditMetadata → Result AuditEventError Text
  require_source_event_at metadata = do
    found ← source_event_at metadata
    ok_or found missing_source_event_at

  -- the object with a text under a key, made anew: the body of the `with_` functions
  unfoldable pub with_text : Text → Text → AuditMetadata → Result AuditEventError AuditMetadata
  unfolding insert
  with_text key text metadata = do
    m ← ok_or (as_object metadata.value) metadata_must_be_object
    new_metadata (object (insert key (string text) m))

  unfoldable pub with_trigger : AuditTrigger → AuditMetadata → Result AuditEventError AuditMetadata
  unfolding trigger_as_str
  with_trigger trigger = with_text (codes "trigger") (trigger_as_str trigger)

  unfoldable pub with_attempted_secret_id :
      Uuid → AuditMetadata → Result AuditEventError AuditMetadata
  with_attempted_secret_id secret_id =
      with_text (codes "attempted_secret_id") (c.hyphenated secret_id)

  unfoldable pub with_source_event_at : Text → AuditMetadata → Result AuditEventError AuditMetadata
  with_source_event_at at = with_text (codes "source_event_at") at

  -- the clock is read where it is needed: `SourceEventAt::now_utc`
  unfoldable pub with_current_source_event_at :
      OffsetDateTime → AuditMetadata → Result AuditEventError AuditMetadata
  unfolding format_utc_rfc3339
  with_current_source_event_at now metadata = do
    found ← source_event_at metadata
    elim found [
      | some _ ↦ ok metadata
      | none ↦ do
        at ← map_err (λ e. source_event_at_unavailable) (format_utc_rfc3339 c now)
        with_source_event_at at metadata
    ]

  unfoldable pub validate_allowlist_for_action :
      AuditAction → AuditResult → AuditMetadata → Result AuditEventError (Unit {0})
  unfolding check_summary_keys reject_unknown_keys allowed_keys keys validate_required_metadata_keys
      validate_metadata_values
  validate_allowlist_for_action action result metadata = do
    m ← ok_or (as_object metadata.value) metadata_must_be_object
    check_summary_keys action m
    reject_unknown_keys (allowed_keys action result) (keys m)
    validate_required_metadata_keys action result m
    validate_metadata_values c action result m
