-- ===== src/Audit/Builders/Known.antt =====
-- No builder brings in a key that its action does not allow.
pub mod Insert
pub mod Secrets
pub mod Jobs
pub mod Keys
pub mod Reports
pub mod Aliases
use mipsorcu.Audit.Action.{AuditResult, success, failure, AuditEventError}
use mipsorcu.Audit.Builders.{
  Builder, encrypt_create, encrypt_rotate, version_purge, decrypt, auth_failure, integrity_check,
  restore_test, scheduler_job, siem_forward_failure, incident_detected, key_rotation_start,
  key_rotation_reencrypt, key_rotation_complete, signature_key_created, signature_key_activated,
  signature_key_retired, monthly_digest_generate, monthly_digest_verify, archive_export,
  digest_timestamping, audit_report_generate, audit_ui_read, secret_alias_create,
  secret_alias_update, secret_alias_delete, secret_alias_list, action_of, object_of, build,
}
use mipsorcu.Audit.Metadata.{
  AuditMetadata, canonicalize_source_event_at, reject_unknown_keys, new_metadata,
}
use mipsorcu.Audit.Metadata.Keys.{allowed_keys}
use mipsorcu.Audit.Metadata.Safety.{metadata-parts, canonicalized, at_key}
use mipsorcu.Crates.{Crates}
use mipsorcu.Json.{Map, object, keys, get, string, insert}
use mipsorcu.Prelude.{
  ◌≡◌, refl, none, some, Option, Text, List, ap, true, Result, ok, inl, inr, contains, text_eq,
}
use Insert.{IsKnown, insert-IsKnown, reject_unknown_keys-IsKnown}
use Secrets.{
  encrypt_create_object-IsKnown, encrypt_rotate_object-IsKnown, version_purge_object-IsKnown,
  decrypt_object-IsKnown, auth_failure_object-IsKnown, decrypt_object-IsKnown_success,
}
use Jobs.{
  integrity_check_object-IsKnown, restore_test_object-IsKnown, scheduler_job_object-IsKnown,
  siem_forward_failure_object-IsKnown, incident_detected_object-IsKnown,
}
use Keys.{
  key_rotation_start_object-IsKnown, key_rotation_reencrypt_object-IsKnown,
  key_rotation_complete_object-IsKnown, signature_key_created_object-IsKnown,
  signature_key_activated_object-IsKnown, signature_key_retired_object-IsKnown,
}
use Reports.{
  monthly_digest_generate_object-IsKnown, monthly_digest_verify_object-IsKnown,
  archive_export_object-IsKnown, digest_timestamping_object-IsKnown,
  audit_report_generate_object-IsKnown, audit_ui_read_object-IsKnown,
}
use Aliases.{
  secret_alias_create_object-IsKnown, secret_alias_update_object-IsKnown,
  secret_alias_delete_object-IsKnown, secret_alias_list_object-IsKnown,
}

-- The only builder that depends on the result: an attempted secret belongs to a failed decryption.
unfoldable pub IsFor : AuditResult → Builder → Type 0
IsFor success (decrypt b) = b.attempted_secret_id ≡ none
IsFor _ _ = Unit

module _ (c : Crates) where
  object_of-IsKnown :
      (result : AuditResult) (builder : Builder)
      → IsFor result builder
      → IsKnown (allowed_keys (action_of builder) result) (object_of c builder)
  unfolding IsFor action_of object_of
  object_of-IsKnown result (encrypt_create b) h = encrypt_create_object-IsKnown c b result
  object_of-IsKnown result (encrypt_rotate b) h = encrypt_rotate_object-IsKnown c b result
  object_of-IsKnown result (version_purge b) h = version_purge_object-IsKnown c b result
  object_of-IsKnown success (decrypt b) h = decrypt_object-IsKnown_success c b h
  object_of-IsKnown failure (decrypt b) h = decrypt_object-IsKnown c b
  object_of-IsKnown result (auth_failure b) h = auth_failure_object-IsKnown c b result
  object_of-IsKnown result (integrity_check b) h = integrity_check_object-IsKnown c b result
  object_of-IsKnown result (restore_test b) h = restore_test_object-IsKnown c b result
  object_of-IsKnown result (scheduler_job b) h = scheduler_job_object-IsKnown c b result
  object_of-IsKnown result (siem_forward_failure b) h =
      siem_forward_failure_object-IsKnown c b result
  object_of-IsKnown result (incident_detected b) h = incident_detected_object-IsKnown c b result
  object_of-IsKnown result (key_rotation_start b) h = key_rotation_start_object-IsKnown c b result
  object_of-IsKnown result (key_rotation_reencrypt b) h =
      key_rotation_reencrypt_object-IsKnown c b result
  object_of-IsKnown result (key_rotation_complete b) h =
      key_rotation_complete_object-IsKnown c b result
  object_of-IsKnown result (signature_key_created b) h =
      signature_key_created_object-IsKnown c b result
  object_of-IsKnown result (signature_key_activated b) h =
      signature_key_activated_object-IsKnown c b result
  object_of-IsKnown result (signature_key_retired b) h =
      signature_key_retired_object-IsKnown c b result
  object_of-IsKnown result (monthly_digest_generate b) h =
      monthly_digest_generate_object-IsKnown c b result
  object_of-IsKnown result (monthly_digest_verify b) h =
      monthly_digest_verify_object-IsKnown c b result
  object_of-IsKnown result (archive_export b) h = archive_export_object-IsKnown c b result
  object_of-IsKnown result (digest_timestamping b) h = digest_timestamping_object-IsKnown c b result
  object_of-IsKnown result (audit_report_generate b) h =
      audit_report_generate_object-IsKnown c b result
  object_of-IsKnown result (audit_ui_read b) h = audit_ui_read_object-IsKnown c b result
  object_of-IsKnown result (secret_alias_create b) h = secret_alias_create_object-IsKnown c b result
  object_of-IsKnown result (secret_alias_update b) h = secret_alias_update_object-IsKnown c b result
  object_of-IsKnown result (secret_alias_delete b) h = secret_alias_delete_object-IsKnown c b result
  object_of-IsKnown result (secret_alias_list b) h = secret_alias_list_object-IsKnown c b result

  at_key-known :
      (builder : Builder) (result : AuditResult)
      → contains (allowed_keys (action_of builder) result) at_key ≡ true
  unfolding action_of allowed_keys contains text_eq
  at_key-known (encrypt_create _) result = refl
  at_key-known (encrypt_rotate _) result = refl
  at_key-known (version_purge _) result = refl
  at_key-known (decrypt _) success = refl
  at_key-known (decrypt _) failure = refl
  at_key-known (auth_failure _) result = refl
  at_key-known (integrity_check _) result = refl
  at_key-known (restore_test _) result = refl
  at_key-known (scheduler_job _) result = refl
  at_key-known (siem_forward_failure _) result = refl
  at_key-known (incident_detected _) result = refl
  at_key-known (key_rotation_start _) result = refl
  at_key-known (key_rotation_reencrypt _) result = refl
  at_key-known (key_rotation_complete _) result = refl
  at_key-known (signature_key_created _) result = refl
  at_key-known (signature_key_activated _) result = refl
  at_key-known (signature_key_retired _) result = refl
  at_key-known (monthly_digest_generate _) result = refl
  at_key-known (monthly_digest_verify _) result = refl
  at_key-known (archive_export _) result = refl
  at_key-known (digest_timestamping _) result = refl
  at_key-known (audit_report_generate _) result = refl
  at_key-known (audit_ui_read _) result = refl
  at_key-known (secret_alias_create _) result = refl
  at_key-known (secret_alias_update _) result = refl
  at_key-known (secret_alias_delete _) result = refl
  at_key-known (secret_alias_list _) result = refl

  canonical-IsKnown :
      {allowed : List Text} (m canonical : Map)
      → contains allowed at_key ≡ true
      → canonicalize_source_event_at c m ≡ ok canonical
      → IsKnown allowed m
      → IsKnown allowed canonical
  canonical-IsKnown m canonical p h k = elim (canonicalized c m canonical (get at_key m) refl h) [
    | inl (e, same) ↦ rw same k
    | inr (at, e, parsed, made) ↦ rw made (insert-IsKnown at_key (string at) m p k)
  ]

  -- Metadata that a builder builds is an object in which the allowlist of the builder's action finds
  -- no unknown key, for either result, but that an attempted secret is for a failed decryption only.
  pub build-known :
      (result : AuditResult) (builder : Builder) (metadata : AuditMetadata)
      → IsFor result builder
      → build c builder ≡ ok metadata
      → (m : Map) × (metadata.value ≡ object m)
        × (reject_unknown_keys (allowed_keys (action_of builder) result) (keys m) ≡ ok tt)
  unfolding build
  build-known result builder metadata f h =
      let (m, canonical, is, _, _, made, same) =
        metadata-parts c (object (object_of c builder)) metadata h in
      let k = object_of-IsKnown result builder f in
      let here : object_of c builder ≡ m = cc in
      let known = canonical-IsKnown m canonical (at_key-known builder result) made (rw here at k) in
      (canonical, ap (λ (a : AuditMetadata). a.value) same, reject_unknown_keys-IsKnown known)
