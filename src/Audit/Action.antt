-- ===== src/Audit/Action.antt =====
-- src/audit/event/action.rs: the audited actions and results, with their names; `AuditTrigger` of
-- src/audit/event/metadata.rs and `AuditEventError` of src/audit/error.rs.
pub mod Names
use mipsorcu.Prelude.{
  ◌≡◌, refl, Bool, true, false, Text, codes, Result, ok, err, List, [], ◌∷◌, if◌then◌else◌, text_eq,
}

pub data AuditAction : Type 0 where
  encrypt_create encrypt_rotate decrypt : AuditAction
  version_purge integrity_check restore_test : AuditAction
  auth_failure key_rotation_start key_rotation_reencrypt : AuditAction
  key_rotation_complete signature_key_created signature_key_activated : AuditAction
  signature_key_retired monthly_digest_generate monthly_digest_verify : AuditAction
  archive_export digest_timestamping siem_forward_failure : AuditAction
  audit_report_generate audit_ui_read scheduler_job : AuditAction
  incident_detected secret_alias_create secret_alias_update : AuditAction
  secret_alias_delete secret_alias_list : AuditAction

pub data AuditResult : Type 0 where
  success failure : AuditResult

pub data AuditTrigger : Type 0 where
  startup background cli : AuditTrigger

pub data AuditEventError : Type 0 where
  invalid_uuid auth_failure_field_must_be_null : Text → AuditEventError
  unknown_action unknown_result invalid_trigger : Text → AuditEventError
  write_success_action_not_allowed failure_only_action_success_not_allowed :
      AuditAction → AuditEventError
  metadata_must_be_object violation_summary_must_be_object : AuditEventError
  forbidden_metadata_key unknown_metadata_key missing_metadata_key : Text → AuditEventError
  invalid_metadata_value : Text → AuditEventError
  invalid_source_event_at missing_source_event_at source_event_at_unavailable : AuditEventError

-- `AuditAction::as_str`
unfoldable pub action_as_str : AuditAction → Text
action_as_str encrypt_create = codes "encrypt_create"
action_as_str encrypt_rotate = codes "encrypt_rotate"
action_as_str decrypt = codes "decrypt"
action_as_str version_purge = codes "version_purge"
action_as_str integrity_check = codes "integrity_check"
action_as_str restore_test = codes "restore_test"
action_as_str auth_failure = codes "auth_failure"
action_as_str key_rotation_start = codes "key_rotation_start"
action_as_str key_rotation_reencrypt = codes "key_rotation_reencrypt"
action_as_str key_rotation_complete = codes "key_rotation_complete"
action_as_str signature_key_created = codes "signature_key_created"
action_as_str signature_key_activated = codes "signature_key_activated"
action_as_str signature_key_retired = codes "signature_key_retired"
action_as_str monthly_digest_generate = codes "monthly_digest_generate"
action_as_str monthly_digest_verify = codes "monthly_digest_verify"
action_as_str archive_export = codes "archive_export"
action_as_str digest_timestamping = codes "digest_timestamping"
action_as_str siem_forward_failure = codes "siem_forward_failure"
action_as_str audit_report_generate = codes "audit_report_generate"
action_as_str audit_ui_read = codes "audit_ui_read"
action_as_str scheduler_job = codes "scheduler_job"
action_as_str incident_detected = codes "incident_detected"
action_as_str secret_alias_create = codes "secret_alias_create"
action_as_str secret_alias_update = codes "secret_alias_update"
action_as_str secret_alias_delete = codes "secret_alias_delete"
action_as_str secret_alias_list = codes "secret_alias_list"

-- `AuditAction::parse`, arm by arm
unfoldable pub parse_action : Text → Result AuditEventError AuditAction
unfolding text_eq
parse_action value =
    if text_eq value (codes "encrypt_create")
    then ok encrypt_create
    else if text_eq value (codes "encrypt_rotate")
    then ok encrypt_rotate
    else if text_eq value (codes "decrypt")
    then ok decrypt
    else if text_eq value (codes "version_purge")
    then ok version_purge
    else if text_eq value (codes "integrity_check")
    then ok integrity_check
    else if text_eq value (codes "restore_test")
    then ok restore_test
    else if text_eq value (codes "auth_failure")
    then ok auth_failure
    else if text_eq value (codes "key_rotation_start")
    then ok key_rotation_start
    else if text_eq value (codes "key_rotation_reencrypt")
    then ok key_rotation_reencrypt
    else if text_eq value (codes "key_rotation_complete")
    then ok key_rotation_complete
    else if text_eq value (codes "signature_key_created")
    then ok signature_key_created
    else if text_eq value (codes "signature_key_activated")
    then ok signature_key_activated
    else if text_eq value (codes "signature_key_retired")
    then ok signature_key_retired
    else if text_eq value (codes "monthly_digest_generate")
    then ok monthly_digest_generate
    else if text_eq value (codes "monthly_digest_verify")
    then ok monthly_digest_verify
    else if text_eq value (codes "archive_export")
    then ok archive_export
    else if text_eq value (codes "digest_timestamping")
    then ok digest_timestamping
    else if text_eq value (codes "siem_forward_failure")
    then ok siem_forward_failure
    else if text_eq value (codes "audit_report_generate")
    then ok audit_report_generate
    else if text_eq value (codes "audit_ui_read")
    then ok audit_ui_read
    else if text_eq value (codes "scheduler_job")
    then ok scheduler_job
    else if text_eq value (codes "incident_detected")
    then ok incident_detected
    else if text_eq value (codes "secret_alias_create")
    then ok secret_alias_create
    else if text_eq value (codes "secret_alias_update")
    then ok secret_alias_update
    else if text_eq value (codes "secret_alias_delete")
    then ok secret_alias_delete
    else if text_eq value (codes "secret_alias_list")
    then ok secret_alias_list
    else err (unknown_action value)

unfoldable pub is_write_success_only : AuditAction → Bool
is_write_success_only encrypt_create = true
is_write_success_only encrypt_rotate = true
is_write_success_only version_purge = true
is_write_success_only _ = false

unfoldable pub is_failure_only : AuditAction → Bool
is_failure_only auth_failure = true
is_failure_only siem_forward_failure = true
is_failure_only incident_detected = true
is_failure_only _ = false

-- `action == AuditAction::AuthFailure`
abbrev pub is_auth_failure : AuditAction → Bool
is_auth_failure auth_failure = true
is_auth_failure _ = false

-- `action == AuditAction::IntegrityCheck`
abbrev pub is_integrity_check : AuditAction → Bool
is_integrity_check integrity_check = true
is_integrity_check _ = false

-- `action == AuditAction::IncidentDetected`
abbrev pub is_incident_detected : AuditAction → Bool
is_incident_detected incident_detected = true
is_incident_detected _ = false

-- `action == AuditAction::Decrypt`
abbrev pub is_decrypt : AuditAction → Bool
is_decrypt decrypt = true
is_decrypt _ = false

-- `result == AuditResult::Success`
abbrev pub is_success : AuditResult → Bool
is_success success = true
is_success failure = false

-- `AuditResult::as_str`
unfoldable pub result_as_str : AuditResult → Text
result_as_str success = codes "success"
result_as_str failure = codes "failure"

-- `AuditResult::parse`
unfoldable pub parse_result : Text → Result AuditEventError AuditResult
unfolding text_eq
parse_result value =
    if text_eq value (codes "success")
    then ok success
    else if text_eq value (codes "failure")
    then ok failure
    else err (unknown_result value)

-- `AuditTrigger::as_str`
unfoldable pub trigger_as_str : AuditTrigger → Text
trigger_as_str startup = codes "startup"
trigger_as_str background = codes "background"
trigger_as_str cli = codes "cli"

-- `AuditTrigger::parse`
unfoldable pub parse_trigger : Text → Result AuditEventError AuditTrigger
unfolding text_eq
parse_trigger value =
    if text_eq value (codes "startup")
    then ok startup
    else if text_eq value (codes "background")
    then ok background
    else if text_eq value (codes "cli")
    then ok cli
    else err (invalid_trigger value)
