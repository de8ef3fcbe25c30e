-- ===== src/Audit/Builders/Known/Reports.antt =====
-- The keys that the builders for digests, archives, reports and the audit UI fill in.
use mipsorcu.Audit.Action.{
  monthly_digest_generate, monthly_digest_verify, archive_export, digest_timestamping,
  audit_report_generate, audit_ui_read, AuditResult,
}
use mipsorcu.Audit.Builders.Reports.{
  MonthlyDigestGenerateMetadata, MonthlyDigestVerifyMetadata, ArchiveExportMetadata,
  DigestTimestampingMetadata, AuditReportGenerateMetadata, AuditUiReadMetadata,
  monthly_digest_generate_object, monthly_digest_verify_object, archive_export_object,
  digest_timestamping_object, audit_report_generate_object, audit_ui_read_object,
}
use mipsorcu.Audit.Builders.Known.Insert.{IsKnown, insertions}
use mipsorcu.Audit.Metadata.Keys.{allowed_keys}
use mipsorcu.Crates.{Crates}
use mipsorcu.Prelude.{contains, text_eq}

module _ (c : Crates) where
  pub monthly_digest_generate_object-IsKnown :
      (b : MonthlyDigestGenerateMetadata) (result : AuditResult)
      → IsKnown (allowed_keys monthly_digest_generate result) (monthly_digest_generate_object c b)
  unfolding monthly_digest_generate_object allowed_keys contains text_eq
  monthly_digest_generate_object-IsKnown b result = search insertions depth 13

  pub monthly_digest_verify_object-IsKnown :
      (b : MonthlyDigestVerifyMetadata) (result : AuditResult)
      → IsKnown (allowed_keys monthly_digest_verify result) (monthly_digest_verify_object c b)
  unfolding monthly_digest_verify_object allowed_keys contains text_eq
  monthly_digest_verify_object-IsKnown b result = search insertions depth 13

  pub archive_export_object-IsKnown :
      (b : ArchiveExportMetadata) (result : AuditResult)
      → IsKnown (allowed_keys archive_export result) (archive_export_object c b)
  unfolding archive_export_object allowed_keys contains text_eq
  archive_export_object-IsKnown b result = search insertions depth 13

  pub digest_timestamping_object-IsKnown :
      (b : DigestTimestampingMetadata) (result : AuditResult)
      → IsKnown (allowed_keys digest_timestamping result) (digest_timestamping_object c b)
  unfolding digest_timestamping_object allowed_keys contains text_eq
  digest_timestamping_object-IsKnown b result = search insertions depth 13

  pub audit_report_generate_object-IsKnown :
      (b : AuditReportGenerateMetadata) (result : AuditResult)
      → IsKnown (allowed_keys audit_report_generate result) (audit_report_generate_object c b)
  unfolding audit_report_generate_object allowed_keys contains text_eq
  audit_report_generate_object-IsKnown b result = search insertions depth 13

  pub audit_ui_read_object-IsKnown :
      (b : AuditUiReadMetadata) (result : AuditResult)
      → IsKnown (allowed_keys audit_ui_read result) (audit_ui_read_object c b)
  unfolding audit_ui_read_object allowed_keys contains text_eq
  audit_ui_read_object-IsKnown b result = search insertions depth 13
