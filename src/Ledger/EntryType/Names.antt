-- ===== src/Ledger/EntryType/Names.antt =====
-- `LedgerEntryType::parse` and `as_str` of src/ledger/entry_type.rs.
use mipsorcu.Ledger.EntryType.{parse_entry_type, entry_type_as_str}
use mipsorcu.Ledger.Types.{
  LedgerEntryType, secret_created, secret_version_created, secret_decrypted, secret_version_purged,
  integrity_check_completed, restore_test_completed, key_rotation_started, key_rotation_reencrypted,
  key_rotation_completed, key_rotation_aborted, signature_key_created, signature_key_activated,
  signature_key_retired, ledger_verified, ledger_verification_failed, audit_fallback_resent,
  monthly_digest, archive_exported, digest_timestamped, scheduler_job_completed, incident_detected,
}
use mipsorcu.Prelude.{◌≡◌, refl, ok}

-- Every entry type is parsed from its own name.
pub parse_entry_type-entry_type_as_str :
    (t : LedgerEntryType) → parse_entry_type (entry_type_as_str t) ≡ ok t
unfolding parse_entry_type entry_type_as_str
parse_entry_type-entry_type_as_str secret_created = refl
parse_entry_type-entry_type_as_str secret_version_created = refl
parse_entry_type-entry_type_as_str secret_decrypted = refl
parse_entry_type-entry_type_as_str secret_version_purged = refl
parse_entry_type-entry_type_as_str integrity_check_completed = refl
parse_entry_type-entry_type_as_str restore_test_completed = refl
parse_entry_type-entry_type_as_str key_rotation_started = refl
parse_entry_type-entry_type_as_str key_rotation_reencrypted = refl
parse_entry_type-entry_type_as_str key_rotation_completed = refl
parse_entry_type-entry_type_as_str key_rotation_aborted = refl
parse_entry_type-entry_type_as_str signature_key_created = refl
parse_entry_type-entry_type_as_str signature_key_activated = refl
parse_entry_type-entry_type_as_str signature_key_retired = refl
parse_entry_type-entry_type_as_str ledger_verified = refl
parse_entry_type-entry_type_as_str ledger_verification_failed = refl
parse_entry_type-entry_type_as_str audit_fallback_resent = refl
parse_entry_type-entry_type_as_str monthly_digest = refl
parse_entry_type-entry_type_as_str archive_exported = refl
parse_entry_type-entry_type_as_str digest_timestamped = refl
parse_entry_type-entry_type_as_str scheduler_job_completed = refl
parse_entry_type-entry_type_as_str incident_detected = refl
