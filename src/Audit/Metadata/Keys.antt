-- ===== src/Audit/Metadata/Keys.antt =====
-- The metadata keys that an action and a result allow and require, of src/audit/event/metadata.rs.
use mipsorcu.Audit.Action.{
  AuditAction, archive_export, audit_report_generate, audit_ui_read, auth_failure, decrypt,
  digest_timestamping, encrypt_create, encrypt_rotate, incident_detected, integrity_check,
  key_rotation_complete, key_rotation_reencrypt, key_rotation_start, monthly_digest_generate,
  monthly_digest_verify, restore_test, scheduler_job, secret_alias_create, secret_alias_delete,
  secret_alias_list, secret_alias_update, siem_forward_failure, signature_key_activated,
  signature_key_created, signature_key_retired, version_purge, AuditResult, success, failure,
}
use mipsorcu.Prelude.{Text, codes, List, [], ◌∷◌}

-- `INTEGRITY_CHECK_VIOLATION_SUMMARY_ALLOWLIST`
unfoldable pub violation_summary_allowlist : List Text
violation_summary_allowlist =
    codes "current_version_invalid"
    ∷ codes "version_invalid"
    ∷ codes "retention_exceeded"
    ∷ codes "ciphertext_empty"
    ∷ codes "encrypted_data_key_empty"
    ∷ codes "nonce_length_invalid"
    ∷ codes "algorithm_invalid"
    ∷ codes "nonce_duplicate"
    ∷ codes "aad_keys_invalid"
    ∷ codes "aad_row_mismatch"
    ∷ codes "created_at_mismatch"
    ∷ codes "audit_action_invalid"
    ∷ codes "audit_result_invalid"
    ∷ codes "audit_metadata_not_object"
    ∷ codes "audit_metadata_forbidden_key"
    ∷ codes "audit_source_event_at_invalid"
    ∷ []

-- `allowed_keys` in `validate_allowlist_for_action`
unfoldable pub allowed_keys : AuditAction → AuditResult → List Text
allowed_keys encrypt_create _ =
    codes "version" ∷ codes "secret_version_id" ∷ codes "source_event_at" ∷ []
allowed_keys encrypt_rotate _ =
    codes "version" ∷ codes "secret_version_id" ∷ codes "source_event_at" ∷ []
allowed_keys version_purge _ =
    codes "version" ∷ codes "secret_version_id" ∷ codes "source_event_at" ∷ []
allowed_keys decrypt failure = codes "attempted_secret_id" ∷ codes "source_event_at" ∷ []
allowed_keys decrypt success = codes "source_event_at" ∷ []
allowed_keys integrity_check _ =
    codes "check_name"
    ∷ codes "checked_secret_count"
    ∷ codes "checked_secret_version_count"
    ∷ codes "checked_audit_event_count"
    ∷ codes "duration_ms"
    ∷ codes "violation_count"
    ∷ codes "violation_summary"
    ∷ codes "trigger"
    ∷ codes "error_code"
    ∷ codes "source_event_at"
    ∷ []
allowed_keys restore_test _ =
    codes "phase"
    ∷ codes "sample_count"
    ∷ codes "trigger"
    ∷ codes "duration_ms"
    ∷ codes "error_code"
    ∷ codes "failed_version"
    ∷ codes "reason"
    ∷ codes "source_event_at"
    ∷ []
allowed_keys auth_failure _ = codes "error_code" ∷ codes "source_event_at" ∷ []
allowed_keys key_rotation_start _ =
    codes "old_key_version" ∷ codes "new_key_version" ∷ codes "source_event_at" ∷ []
allowed_keys key_rotation_reencrypt _ =
    codes "old_key_version"
    ∷ codes "new_key_version"
    ∷ codes "batch_size"
    ∷ codes "processed_count"
    ∷ codes "remaining_count"
    ∷ codes "source_event_at"
    ∷ []
allowed_keys key_rotation_complete _ =
    codes "old_key_version"
    ∷ codes "new_key_version"
    ∷ codes "remaining_count"
    ∷ codes "source_event_at"
    ∷ []
allowed_keys signature_key_created _ =
    codes "created_at"
    ∷ codes "public_key_fingerprint"
    ∷ codes "signature_key_version"
    ∷ codes "source_event_at"
    ∷ []
allowed_keys signature_key_activated _ =
    codes "activated_at"
    ∷ codes "public_key_fingerprint"
    ∷ codes "signature_key_version"
    ∷ codes "source_event_at"
    ∷ []
allowed_keys signature_key_retired _ =
    codes "public_key_fingerprint"
    ∷ codes "retired_at"
    ∷ codes "signature_key_version"
    ∷ codes "source_event_at"
    ∷ []
allowed_keys monthly_digest_generate _ =
    codes "error_code" ∷ codes "target_year_month" ∷ codes "source_event_at" ∷ []
allowed_keys monthly_digest_verify _ =
    codes "error_code" ∷ codes "target_year_month" ∷ codes "source_event_at" ∷ []
allowed_keys archive_export _ =
    codes "archive_key"
    ∷ codes "digest_hash"
    ∷ codes "target_year_month"
    ∷ codes "error_code"
    ∷ codes "source_event_at"
    ∷ []
allowed_keys digest_timestamping _ =
    codes "digest_hash"
    ∷ codes "error_code"
    ∷ codes "target_year_month"
    ∷ codes "timestamp_token_hash"
    ∷ codes "source_event_at"
    ∷ []
allowed_keys siem_forward_failure _ =
    codes "error_code" ∷ codes "event_type" ∷ codes "event_count" ∷ codes "source_event_at" ∷ []
allowed_keys audit_report_generate _ =
    codes "format"
    ∷ codes "period_end"
    ∷ codes "period_start"
    ∷ codes "error_code"
    ∷ codes "source_event_at"
    ∷ []
allowed_keys audit_ui_read _ =
    codes "endpoint"
    ∷ codes "method"
    ∷ codes "resource"
    ∷ codes "result_count"
    ∷ codes "period_start"
    ∷ codes "period_end"
    ∷ codes "start_sequence_no"
    ∷ codes "end_sequence_no"
    ∷ codes "target_year_month"
    ∷ codes "error_code"
    ∷ codes "source_event_at"
    ∷ []
allowed_keys scheduler_job _ =
    codes "duration_ms"
    ∷ codes "error_code"
    ∷ codes "job_name"
    ∷ codes "target_year_month"
    ∷ codes "trigger"
    ∷ codes "source_event_at"
    ∷ []
allowed_keys incident_detected _ =
    codes "incident_type"
    ∷ codes "severity"
    ∷ codes "detection_source"
    ∷ codes "dedupe_key"
    ∷ codes "notification_sink"
    ∷ codes "notification_result"
    ∷ codes "error_code"
    ∷ codes "source_event_at"
    ∷ codes "source_event_id"
    ∷ codes "target_sequence_no"
    ∷ codes "target_year_month"
    ∷ []
allowed_keys secret_alias_create _ =
    codes "alias_fingerprint"
    ∷ codes "alias_fingerprint_key_version"
    ∷ codes "alias_fingerprint_schema_version"
    ∷ codes "error_code"
    ∷ codes "source_event_at"
    ∷ []
allowed_keys secret_alias_update _ =
    codes "old_alias_fingerprint"
    ∷ codes "new_alias_fingerprint"
    ∷ codes "alias_fingerprint_key_version"
    ∷ codes "alias_fingerprint_schema_version"
    ∷ codes "error_code"
    ∷ codes "source_event_at"
    ∷ []
allowed_keys secret_alias_delete _ =
    codes "alias_fingerprint"
    ∷ codes "alias_fingerprint_key_version"
    ∷ codes "alias_fingerprint_schema_version"
    ∷ codes "error_code"
    ∷ codes "source_event_at"
    ∷ []
allowed_keys secret_alias_list _ =
    codes "result_count" ∷ codes "error_code" ∷ codes "source_event_at" ∷ []

-- `required` in `validate_required_metadata_keys`, before `source_event_at` is added
unfoldable pub required_keys : AuditAction → AuditResult → List Text
required_keys encrypt_create _ = codes "version" ∷ codes "secret_version_id" ∷ []
required_keys encrypt_rotate _ = codes "version" ∷ codes "secret_version_id" ∷ []
required_keys version_purge _ = codes "version" ∷ codes "secret_version_id" ∷ []
required_keys decrypt _ = []
required_keys integrity_check _ =
    codes "check_name"
    ∷ codes "checked_secret_count"
    ∷ codes "checked_secret_version_count"
    ∷ codes "checked_audit_event_count"
    ∷ codes "duration_ms"
    ∷ codes "violation_count"
    ∷ codes "violation_summary"
    ∷ codes "trigger"
    ∷ []
required_keys restore_test _ =
    codes "phase" ∷ codes "sample_count" ∷ codes "trigger" ∷ codes "duration_ms" ∷ []
required_keys auth_failure _ = codes "error_code" ∷ []
required_keys key_rotation_start _ = codes "old_key_version" ∷ codes "new_key_version" ∷ []
required_keys key_rotation_reencrypt _ =
    codes "old_key_version"
    ∷ codes "new_key_version"
    ∷ codes "batch_size"
    ∷ codes "processed_count"
    ∷ codes "remaining_count"
    ∷ []
required_keys key_rotation_complete _ =
    codes "old_key_version" ∷ codes "new_key_version" ∷ codes "remaining_count" ∷ []
required_keys signature_key_created _ =
    codes "signature_key_version" ∷ codes "public_key_fingerprint" ∷ codes "created_at" ∷ []
required_keys signature_key_activated _ =
    codes "signature_key_version" ∷ codes "public_key_fingerprint" ∷ codes "activated_at" ∷ []
required_keys signature_key_retired _ =
    codes "signature_key_version" ∷ codes "public_key_fingerprint" ∷ codes "retired_at" ∷ []
required_keys monthly_digest_generate _ = []
required_keys monthly_digest_verify _ = []
required_keys archive_export _ = codes "target_year_month" ∷ []
required_keys digest_timestamping _ = codes "target_year_month" ∷ []
required_keys siem_forward_failure _ = codes "error_code" ∷ []
required_keys audit_report_generate _ =
    codes "format" ∷ codes "period_end" ∷ codes "period_start" ∷ []
required_keys audit_ui_read _ = codes "endpoint" ∷ codes "method" ∷ codes "resource" ∷ []
required_keys scheduler_job _ = codes "job_name" ∷ codes "trigger" ∷ codes "duration_ms" ∷ []
required_keys incident_detected _ =
    codes "incident_type"
    ∷ codes "severity"
    ∷ codes "detection_source"
    ∷ codes "dedupe_key"
    ∷ codes "notification_sink"
    ∷ codes "notification_result"
    ∷ codes "error_code"
    ∷ []
required_keys secret_alias_create success =
    codes "alias_fingerprint"
    ∷ codes "alias_fingerprint_key_version"
    ∷ codes "alias_fingerprint_schema_version"
    ∷ []
required_keys secret_alias_create failure = []
required_keys secret_alias_update success =
    codes "old_alias_fingerprint"
    ∷ codes "new_alias_fingerprint"
    ∷ codes "alias_fingerprint_key_version"
    ∷ codes "alias_fingerprint_schema_version"
    ∷ []
required_keys secret_alias_update failure = []
required_keys secret_alias_delete success =
    codes "alias_fingerprint"
    ∷ codes "alias_fingerprint_key_version"
    ∷ codes "alias_fingerprint_schema_version"
    ∷ []
required_keys secret_alias_delete failure = []
required_keys secret_alias_list success = codes "result_count" ∷ []
required_keys secret_alias_list failure = []
