-- ===== src/Audit/Builders.antt =====
-- The builders of src/audit/event/metadata/builders.rs together: which action each is for, and `build`.
pub mod Fields
pub mod Known
pub mod Secrets
pub mod Jobs
pub mod Keys
pub mod Reports
pub mod Aliases
use mipsorcu.Audit.Action.{AuditAction, AuditResult, success, failure, AuditEventError}
use mipsorcu.Audit.Action
use mipsorcu.Audit.Metadata.{AuditMetadata, new_metadata}
use mipsorcu.Crates.{Crates}
use mipsorcu.Json.{Map, object}
use mipsorcu.Prelude.{◌≡◌, none, Result}
use Secrets.{
  EncryptCreateMetadata, EncryptRotateMetadata, VersionPurgeMetadata, DecryptMetadata,
  AuthFailureMetadata, encrypt_create_object, encrypt_rotate_object, version_purge_object,
  decrypt_object, auth_failure_object,
}
use Jobs.{
  IntegrityCheckMetadata, RestoreTestMetadata, SchedulerJobMetadata, SiemForwardFailureMetadata,
  IncidentDetectedMetadata, integrity_check_object, restore_test_object, scheduler_job_object,
  siem_forward_failure_object, incident_detected_object,
}
use Keys.{
  KeyRotationStartMetadata, KeyRotationReencryptMetadata, KeyRotationCompleteMetadata,
  SignatureKeyCreatedMetadata, SignatureKeyActivatedMetadata, SignatureKeyRetiredMetadata,
  key_rotation_start_object, key_rotation_reencrypt_object, key_rotation_complete_object,
  signature_key_created_object, signature_key_activated_object, signature_key_retired_object,
}
use Reports.{
  MonthlyDigestGenerateMetadata, MonthlyDigestVerifyMetadata, ArchiveExportMetadata,
  DigestTimestampingMetadata, AuditReportGenerateMetadata, AuditUiReadMetadata,
  monthly_digest_generate_object, monthly_digest_verify_object, archive_export_object,
  digest_timestamping_object, audit_report_generate_object, audit_ui_read_object,
}
use Aliases.{
  SecretAliasCreateMetadata, SecretAliasUpdateMetadata, SecretAliasDeleteMetadata,
  SecretAliasListMetadata, secret_alias_create_object, secret_alias_update_object,
  secret_alias_delete_object, secret_alias_list_object,
}

pub data Builder : Type 0 where
  encrypt_create : EncryptCreateMetadata → Builder
  encrypt_rotate : EncryptRotateMetadata → Builder
  version_purge : VersionPurgeMetadata → Builder
  decrypt : DecryptMetadata → Builder
  auth_failure : AuthFailureMetadata → Builder
  integrity_check : IntegrityCheckMetadata → Builder
  restore_test : RestoreTestMetadata → Builder
  scheduler_job : SchedulerJobMetadata → Builder
  siem_forward_failure : SiemForwardFailureMetadata → Builder
  incident_detected : IncidentDetectedMetadata → Builder
  key_rotation_start : KeyRotationStartMetadata → Builder
  key_rotation_reencrypt : KeyRotationReencryptMetadata → Builder
  key_rotation_complete : KeyRotationCompleteMetadata → Builder
  signature_key_created : SignatureKeyCreatedMetadata → Builder
  signature_key_activated : SignatureKeyActivatedMetadata → Builder
  signature_key_retired : SignatureKeyRetiredMetadata → Builder
  monthly_digest_generate : MonthlyDigestGenerateMetadata → Builder
  monthly_digest_verify : MonthlyDigestVerifyMetadata → Builder
  archive_export : ArchiveExportMetadata → Builder
  digest_timestamping : DigestTimestampingMetadata → Builder
  audit_report_generate : AuditReportGenerateMetadata → Builder
  audit_ui_read : AuditUiReadMetadata → Builder
  secret_alias_create : SecretAliasCreateMetadata → Builder
  secret_alias_update : SecretAliasUpdateMetadata → Builder
  secret_alias_delete : SecretAliasDeleteMetadata → Builder
  secret_alias_list : SecretAliasListMetadata → Builder

-- the action that a builder is documented for
unfoldable pub action_of : Builder → AuditAction
action_of (encrypt_create _) = AuditAction.encrypt_create
action_of (encrypt_rotate _) = AuditAction.encrypt_rotate
action_of (version_purge _) = AuditAction.version_purge
action_of (decrypt _) = AuditAction.decrypt
action_of (auth_failure _) = AuditAction.auth_failure
action_of (integrity_check _) = AuditAction.integrity_check
action_of (restore_test _) = AuditAction.restore_test
action_of (scheduler_job _) = AuditAction.scheduler_job
action_of (siem_forward_failure _) = AuditAction.siem_forward_failure
action_of (incident_detected _) = AuditAction.incident_detected
action_of (key_rotation_start _) = AuditAction.key_rotation_start
action_of (key_rotation_reencrypt _) = AuditAction.key_rotation_reencrypt
action_of (key_rotation_complete _) = AuditAction.key_rotation_complete
action_of (signature_key_created _) = AuditAction.signature_key_created
action_of (signature_key_activated _) = AuditAction.signature_key_activated
action_of (signature_key_retired _) = AuditAction.signature_key_retired
action_of (monthly_digest_generate _) = AuditAction.monthly_digest_generate
action_of (monthly_digest_verify _) = AuditAction.monthly_digest_verify
action_of (archive_export _) = AuditAction.archive_export
action_of (digest_timestamping _) = AuditAction.digest_timestamping
action_of (audit_report_generate _) = AuditAction.audit_report_generate
action_of (audit_ui_read _) = AuditAction.audit_ui_read
action_of (secret_alias_create _) = AuditAction.secret_alias_create
action_of (secret_alias_update _) = AuditAction.secret_alias_update
action_of (secret_alias_delete _) = AuditAction.secret_alias_delete
action_of (secret_alias_list _) = AuditAction.secret_alias_list

unfoldable pub object_of : Crates → Builder → Map
unfolding encrypt_create_object encrypt_rotate_object version_purge_object decrypt_object
    auth_failure_object integrity_check_object restore_test_object scheduler_job_object
    siem_forward_failure_object incident_detected_object key_rotation_start_object
    key_rotation_reencrypt_object key_rotation_complete_object signature_key_created_object
    signature_key_activated_object signature_key_retired_object monthly_digest_generate_object
    monthly_digest_verify_object archive_export_object digest_timestamping_object
    audit_report_generate_object audit_ui_read_object secret_alias_create_object
    secret_alias_update_object secret_alias_delete_object secret_alias_list_object
object_of c (encrypt_create x) = encrypt_create_object c x
object_of c (encrypt_rotate x) = encrypt_rotate_object c x
object_of c (version_purge x) = version_purge_object c x
object_of c (decrypt x) = decrypt_object c x
object_of c (auth_failure x) = auth_failure_object c x
object_of c (integrity_check x) = integrity_check_object c x
object_of c (restore_test x) = restore_test_object c x
object_of c (scheduler_job x) = scheduler_job_object c x
object_of c (siem_forward_failure x) = siem_forward_failure_object c x
object_of c (incident_detected x) = incident_detected_object c x
object_of c (key_rotation_start x) = key_rotation_start_object c x
object_of c (key_rotation_reencrypt x) = key_rotation_reencrypt_object c x
object_of c (key_rotation_complete x) = key_rotation_complete_object c x
object_of c (signature_key_created x) = signature_key_created_object c x
object_of c (signature_key_activated x) = signature_key_activated_object c x
object_of c (signature_key_retired x) = signature_key_retired_object c x
object_of c (monthly_digest_generate x) = monthly_digest_generate_object c x
object_of c (monthly_digest_verify x) = monthly_digest_verify_object c x
object_of c (archive_export x) = archive_export_object c x
object_of c (digest_timestamping x) = digest_timestamping_object c x
object_of c (audit_report_generate x) = audit_report_generate_object c x
object_of c (audit_ui_read x) = audit_ui_read_object c x
object_of c (secret_alias_create x) = secret_alias_create_object c x
object_of c (secret_alias_update x) = secret_alias_update_object c x
object_of c (secret_alias_delete x) = secret_alias_delete_object c x
object_of c (secret_alias_list x) = secret_alias_list_object c x

-- the end of every `build`
unfoldable pub build : Crates → Builder → Result AuditEventError AuditMetadata
unfolding new_metadata
build c builder = new_metadata c (object (object_of c builder))
