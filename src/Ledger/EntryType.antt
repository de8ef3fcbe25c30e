-- ===== src/Ledger/EntryType.antt =====
-- src/ledger/entry_type.rs: the names of the entry types, and the payload keys that each may have.

pub mod Names
use mipsorcu.Ledger.Types.{
  LedgerEntryType, secret_created, secret_version_created, secret_decrypted, secret_version_purged,
  integrity_check_completed, restore_test_completed, key_rotation_started, key_rotation_reencrypted,
  key_rotation_completed, key_rotation_aborted, signature_key_created, signature_key_activated,
  signature_key_retired, ledger_verified, ledger_verification_failed, audit_fallback_resent,
  monthly_digest, archive_exported, digest_timestamped, scheduler_job_completed, incident_detected,
  LedgerError, unknown_entry_type,
}
use mipsorcu.Prelude.{Text, codes, Result, ok, err, List, [], ◌∷◌, if◌then◌else◌, text_eq}

-- `LedgerEntryType::as_str`
unfoldable pub entry_type_as_str : LedgerEntryType → Text
entry_type_as_str secret_created = codes "secret_created"
entry_type_as_str secret_version_created = codes "secret_version_created"
entry_type_as_str secret_decrypted = codes "secret_decrypted"
entry_type_as_str secret_version_purged = codes "secret_version_purged"
entry_type_as_str integrity_check_completed = codes "integrity_check_completed"
entry_type_as_str restore_test_completed = codes "restore_test_completed"
entry_type_as_str key_rotation_started = codes "key_rotation_started"
entry_type_as_str key_rotation_reencrypted = codes "key_rotation_reencrypted"
entry_type_as_str key_rotation_completed = codes "key_rotation_completed"
entry_type_as_str key_rotation_aborted = codes "key_rotation_aborted"
entry_type_as_str signature_key_created = codes "signature_key_created"
entry_type_as_str signature_key_activated = codes "signature_key_activated"
entry_type_as_str signature_key_retired = codes "signature_key_retired"
entry_type_as_str ledger_verified = codes "ledger_verified"
entry_type_as_str ledger_verification_failed = codes "ledger_verification_failed"
entry_type_as_str audit_fallback_resent = codes "audit_fallback_resent"
entry_type_as_str monthly_digest = codes "monthly_digest"
entry_type_as_str archive_exported = codes "archive_exported"
entry_type_as_str digest_timestamped = codes "digest_timestamped"
entry_type_as_str scheduler_job_completed = codes "scheduler_job_completed"
entry_type_as_str incident_detected = codes "incident_detected"

abbrev pub entry_types : List LedgerEntryType
entry_types =
    secret_created ∷ secret_version_created ∷ secret_decrypted ∷ secret_version_purged
    ∷ integrity_check_completed ∷ restore_test_completed ∷ key_rotation_started
    ∷ key_rotation_reencrypted ∷ key_rotation_completed ∷ key_rotation_aborted
    ∷ signature_key_created ∷ signature_key_activated ∷ signature_key_retired ∷ ledger_verified
    ∷ ledger_verification_failed ∷ audit_fallback_resent ∷ monthly_digest ∷ archive_exported
    ∷ digest_timestamped ∷ scheduler_job_completed ∷ incident_detected ∷ []

-- `LedgerEntryType::parse`, arm by arm
unfoldable pub parse_entry_type : Text → Result LedgerError LedgerEntryType
unfolding text_eq
parse_entry_type value =
    if text_eq value (codes "secret_created")
    then ok secret_created
    else if text_eq value (codes "secret_version_created")
    then ok secret_version_created
    else if text_eq value (codes "secret_decrypted")
    then ok secret_decrypted
    else if text_eq value (codes "secret_version_purged")
    then ok secret_version_purged
    else if text_eq value (codes "integrity_check_completed")
    then ok integrity_check_completed
    else if text_eq value (codes "restore_test_completed")
    then ok restore_test_completed
    else if text_eq value (codes "key_rotation_started")
    then ok key_rotation_started
    else if text_eq value (codes "key_rotation_reencrypted")
    then ok key_rotation_reencrypted
    else if text_eq value (codes "key_rotation_completed")
    then ok key_rotation_completed
    else if text_eq value (codes "key_rotation_aborted")
    then ok key_rotation_aborted
    else if text_eq value (codes "signature_key_created")
    then ok signature_key_created
    else if text_eq value (codes "signature_key_activated")
    then ok signature_key_activated
    else if text_eq value (codes "signature_key_retired")
    then ok signature_key_retired
    else if text_eq value (codes "ledger_verified")
    then ok ledger_verified
    else if text_eq value (codes "ledger_verification_failed")
    then ok ledger_verification_failed
    else if text_eq value (codes "audit_fallback_resent")
    then ok audit_fallback_resent
    else if text_eq value (codes "monthly_digest")
    then ok monthly_digest
    else if text_eq value (codes "archive_exported")
    then ok archive_exported
    else if text_eq value (codes "digest_timestamped")
    then ok digest_timestamped
    else if text_eq value (codes "scheduler_job_completed")
    then ok scheduler_job_completed
    else if text_eq value (codes "incident_detected")
    then ok incident_detected
    else err (unknown_entry_type value)

unfoldable pub allowed_payload_keys : LedgerEntryType → List Text
allowed_payload_keys secret_created =
    codes "algorithm" ∷ codes "classification" ∷ codes "key_version" ∷ codes "version" ∷ []
allowed_payload_keys secret_version_created =
    codes "algorithm" ∷ codes "classification" ∷ codes "key_version" ∷ codes "version" ∷ []
allowed_payload_keys secret_decrypted =
    codes "algorithm" ∷ codes "key_version" ∷ codes "version" ∷ []
allowed_payload_keys secret_version_purged =
    codes "key_version" ∷ codes "retention_limit" ∷ codes "version" ∷ []
allowed_payload_keys integrity_check_completed =
    codes "checked_audit_event_count"
    ∷ codes "checked_secret_count"
    ∷ codes "checked_secret_version_count"
    ∷ codes "duration_ms"
    ∷ codes "violation_count"
    ∷ []
allowed_payload_keys restore_test_completed =
    codes "duration_ms"
    ∷ codes "failure_count"
    ∷ codes "sample_count"
    ∷ codes "success_count"
    ∷ codes "trigger"
    ∷ []
allowed_payload_keys key_rotation_started = codes "new_key_version" ∷ codes "old_key_version" ∷ []
allowed_payload_keys key_rotation_reencrypted =
    codes "batch_size"
    ∷ codes "new_key_version"
    ∷ codes "old_key_version"
    ∷ codes "processed_count"
    ∷ codes "remaining_count"
    ∷ []
allowed_payload_keys key_rotation_completed =
    codes "new_key_version" ∷ codes "old_key_version" ∷ codes "remaining_count" ∷ []
allowed_payload_keys key_rotation_aborted =
    codes "new_key_version" ∷ codes "old_key_version" ∷ codes "reason_code" ∷ []
allowed_payload_keys signature_key_created =
    codes "created_at" ∷ codes "public_key_fingerprint" ∷ codes "signature_key_version" ∷ []
allowed_payload_keys signature_key_activated =
    codes "activated_at" ∷ codes "public_key_fingerprint" ∷ codes "signature_key_version" ∷ []
allowed_payload_keys signature_key_retired =
    codes "public_key_fingerprint" ∷ codes "retired_at" ∷ codes "signature_key_version" ∷ []
allowed_payload_keys ledger_verified =
    codes "checked_count"
    ∷ codes "duration_ms"
    ∷ codes "end_sequence_no"
    ∷ codes "start_sequence_no"
    ∷ []
allowed_payload_keys ledger_verification_failed =
    codes "end_sequence_no"
    ∷ codes "error_code"
    ∷ codes "failed_count"
    ∷ codes "start_sequence_no"
    ∷ []
allowed_payload_keys audit_fallback_resent =
    codes "duration_ms" ∷ codes "failed_count" ∷ codes "resent_count" ∷ []
allowed_payload_keys monthly_digest =
    codes "digest_hash"
    ∷ codes "end_sequence_no"
    ∷ codes "entry_count"
    ∷ codes "start_sequence_no"
    ∷ codes "target_year_month"
    ∷ []
allowed_payload_keys archive_exported =
    codes "archive_key" ∷ codes "digest_hash" ∷ codes "target_year_month" ∷ []
allowed_payload_keys digest_timestamped =
    codes "digest_hash" ∷ codes "target_year_month" ∷ codes "timestamp_token_hash" ∷ []
allowed_payload_keys scheduler_job_completed =
    codes "duration_ms" ∷ codes "job_name" ∷ codes "target_year_month" ∷ codes "trigger" ∷ []
allowed_payload_keys incident_detected =
    codes "dedupe_key"
    ∷ codes "detection_source"
    ∷ codes "incident_type"
    ∷ codes "notification_result"
    ∷ codes "notification_sink"
    ∷ codes "severity"
    ∷ codes "target_sequence_no"
    ∷ codes "target_year_month"
    ∷ []
