-- ===== src/Audit/Action/Names.antt =====
-- The names of actions, results and triggers are read back.
use mipsorcu.Audit.Action.{
  AuditAction, encrypt_create, encrypt_rotate, decrypt, version_purge, integrity_check,
  restore_test, auth_failure, key_rotation_start, key_rotation_reencrypt, key_rotation_complete,
  signature_key_created, signature_key_activated, signature_key_retired, monthly_digest_generate,
  monthly_digest_verify, archive_export, digest_timestamping, siem_forward_failure,
  audit_report_generate, audit_ui_read, scheduler_job, incident_detected, secret_alias_create,
  secret_alias_update, secret_alias_delete, secret_alias_list, AuditResult, success, failure,
  AuditTrigger, startup, background, cli, action_as_str, parse_action, result_as_str, parse_result,
  trigger_as_str, parse_trigger,
}
use mipsorcu.Prelude.{◌≡◌, refl, ok}

parse_action-action_as_str :
    (action : AuditAction) → parse_action (action_as_str action) ≡ ok action
unfolding parse_action action_as_str
parse_action-action_as_str encrypt_create = refl
parse_action-action_as_str encrypt_rotate = refl
parse_action-action_as_str decrypt = refl
parse_action-action_as_str version_purge = refl
parse_action-action_as_str integrity_check = refl
parse_action-action_as_str restore_test = refl
parse_action-action_as_str auth_failure = refl
parse_action-action_as_str key_rotation_start = refl
parse_action-action_as_str key_rotation_reencrypt = refl
parse_action-action_as_str key_rotation_complete = refl
parse_action-action_as_str signature_key_created = refl
parse_action-action_as_str signature_key_activated = refl
parse_action-action_as_str signature_key_retired = refl
parse_action-action_as_str monthly_digest_generate = refl
parse_action-action_as_str monthly_digest_verify = refl
parse_action-action_as_str archive_export = refl
parse_action-action_as_str digest_timestamping = refl
parse_action-action_as_str siem_forward_failure = refl
parse_action-action_as_str audit_report_generate = refl
parse_action-action_as_str audit_ui_read = refl
parse_action-action_as_str scheduler_job = refl
parse_action-action_as_str incident_detected = refl
parse_action-action_as_str secret_alias_create = refl
parse_action-action_as_str secret_alias_update = refl
parse_action-action_as_str secret_alias_delete = refl
parse_action-action_as_str secret_alias_list = refl

parse_result-result_as_str :
    (result : AuditResult) → parse_result (result_as_str result) ≡ ok result
unfolding parse_result result_as_str
parse_result-result_as_str success = refl
parse_result-result_as_str failure = refl

parse_trigger-trigger_as_str :
    (trigger : AuditTrigger) → parse_trigger (trigger_as_str trigger) ≡ ok trigger
unfolding parse_trigger trigger_as_str
parse_trigger-trigger_as_str startup = refl
parse_trigger-trigger_as_str background = refl
parse_trigger-trigger_as_str cli = refl

-- Every action, result and trigger is parsed from its own name.
pub parse-as_str :
    (action : AuditAction) (result : AuditResult) (trigger : AuditTrigger)
    → (parse_action (action_as_str action) ≡ ok action)
      × (parse_result (result_as_str result) ≡ ok result)
      × (parse_trigger (trigger_as_str trigger) ≡ ok trigger)
parse-as_str action result trigger = (
  parse_action-action_as_str action,
  parse_result-result_as_str result,
  parse_trigger-trigger_as_str trigger,
)
