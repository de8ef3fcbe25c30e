-- ===== src/Ledger/Payload/Keys.antt =====
-- The groups of payload keys that `validate_payload_field` of src/ledger/payload.rs tells apart.
use mipsorcu.Prelude.{Text, codes, List, [], ◌∷◌}

abbrev pub incident_types : List Text
incident_types =
    codes "hash_chain_mismatch"
    ∷ codes "signature_mismatch"
    ∷ codes "monthly_digest_mismatch"
    ∷ codes "digest_timestamping_mismatch"
    ∷ codes "archive_export_mismatch"
    ∷ codes "sequence_gap"
    ∷ codes "unknown_signature_key"
    ∷ codes "non_auditor_ledger_read"
    ∷ codes "ledger_secret_leak_suspected"
    ∷ codes "siem_long_failure"
    ∷ codes "audit_ui_forbidden_operation"
    ∷ []

abbrev pub positive_keys : List Text
positive_keys =
    codes "version"
    ∷ codes "key_version"
    ∷ codes "old_key_version"
    ∷ codes "new_key_version"
    ∷ codes "signature_key_version"
    ∷ codes "retention_limit"
    ∷ codes "start_sequence_no"
    ∷ codes "end_sequence_no"
    ∷ codes "entry_count"
    ∷ codes "target_sequence_no"
    ∷ []

abbrev pub non_negative_keys : List Text
non_negative_keys =
    codes "batch_size"
    ∷ codes "checked_audit_event_count"
    ∷ codes "checked_count"
    ∷ codes "checked_secret_count"
    ∷ codes "checked_secret_version_count"
    ∷ codes "duration_ms"
    ∷ codes "failed_count"
    ∷ codes "failure_count"
    ∷ codes "processed_count"
    ∷ codes "remaining_count"
    ∷ codes "resent_count"
    ∷ codes "sample_count"
    ∷ codes "success_count"
    ∷ codes "violation_count"
    ∷ []

abbrev pub short_string_keys : List Text
short_string_keys =
    codes "error_code"
    ∷ codes "reason_code"
    ∷ codes "archive_key"
    ∷ codes "job_name"
    ∷ codes "detection_source"
    ∷ codes "dedupe_key"
    ∷ codes "notification_sink"
    ∷ []

abbrev pub digest_hash_keys : List Text
digest_hash_keys =
    codes "digest_hash" ∷ codes "timestamp_token_hash" ∷ codes "public_key_fingerprint" ∷ []

abbrev pub timestamp_keys : List Text
timestamp_keys = codes "created_at" ∷ codes "activated_at" ∷ codes "retired_at" ∷ []
