-- ===== src/Audit/Builders/Reports.antt =====
-- The builders of src/audit/event/metadata/builders.rs for digests, archives, reports and the audit UI: the fields of
-- each, and the object that its `build` fills in.

use mipsorcu.Audit.Builders.Fields.{insert_some}
use mipsorcu.Crates.{Crates}
use mipsorcu.Json.{Map, string, number, unsigned, end, insert}
use mipsorcu.Prelude.{ℕ, Text, codes, Option, none}

pub record MonthlyDigestGenerateMetadata : Type 0 where
  pub target_year_month : Text
  pub error_code : Text
  pub source_event_at : Text

-- `MonthlyDigestGenerateMetadata::new`
unfoldable pub new_monthly_digest_generate : Text → Text → Text → MonthlyDigestGenerateMetadata
new_monthly_digest_generate period error_code source_event_at = record {
  target_year_month = period;
  error_code = error_code;
  source_event_at = source_event_at;
}

-- the object of `build`
unfoldable pub monthly_digest_generate_object : Crates → MonthlyDigestGenerateMetadata → Map
unfolding insert
monthly_digest_generate_object c b =
    let m = insert (codes "error_code") (string b.error_code) end in
    let m = insert (codes "target_year_month") (string b.target_year_month) m in
    insert (codes "source_event_at") (string b.source_event_at) m

pub record MonthlyDigestVerifyMetadata : Type 0 where
  pub target_year_month : Text
  pub error_code : Text
  pub source_event_at : Text

-- `MonthlyDigestVerifyMetadata::new`
unfoldable pub new_monthly_digest_verify : Text → Text → Text → MonthlyDigestVerifyMetadata
new_monthly_digest_verify period error_code source_event_at = record {
  target_year_month = period;
  error_code = error_code;
  source_event_at = source_event_at;
}

-- the object of `build`
unfoldable pub monthly_digest_verify_object : Crates → MonthlyDigestVerifyMetadata → Map
unfolding insert
monthly_digest_verify_object c b =
    let m = insert (codes "error_code") (string b.error_code) end in
    let m = insert (codes "target_year_month") (string b.target_year_month) m in
    insert (codes "source_event_at") (string b.source_event_at) m

pub record ArchiveExportMetadata : Type 0 where
  pub target_year_month : Text
  pub archive_key : Option Text
  pub digest_hash : Option Text
  pub error_code : Option Text
  pub source_event_at : Text

-- `ArchiveExportMetadata::new`
unfoldable pub new_archive_export : Text → Text → ArchiveExportMetadata
new_archive_export period source_event_at = record {
  target_year_month = period;
  archive_key = none;
  digest_hash = none;
  error_code = none;
  source_event_at = source_event_at;
}

-- the object of `build`
unfoldable pub archive_export_object : Crates → ArchiveExportMetadata → Map
unfolding insert
archive_export_object c b =
    let m = insert (codes "target_year_month") (string b.target_year_month) end in
    let m = insert (codes "source_event_at") (string b.source_event_at) m in
    let m = insert_some (codes "archive_key") string b.archive_key m in
    let m = insert_some (codes "digest_hash") string b.digest_hash m in
    insert_some (codes "error_code") string b.error_code m

pub record DigestTimestampingMetadata : Type 0 where
  pub target_year_month : Text
  pub digest_hash : Option Text
  pub timestamp_token_hash : Option Text
  pub error_code : Option Text
  pub source_event_at : Text

-- `DigestTimestampingMetadata::new`
unfoldable pub new_digest_timestamping : Text → Text → DigestTimestampingMetadata
new_digest_timestamping period source_event_at = record {
  target_year_month = period;
  digest_hash = none;
  timestamp_token_hash = none;
  error_code = none;
  source_event_at = source_event_at;
}

-- the object of `build`
unfoldable pub digest_timestamping_object : Crates → DigestTimestampingMetadata → Map
unfolding insert
digest_timestamping_object c b =
    let m = insert (codes "target_year_month") (string b.target_year_month) end in
    let m = insert (codes "source_event_at") (string b.source_event_at) m in
    let m = insert_some (codes "digest_hash") string b.digest_hash m in
    let m = insert_some (codes "timestamp_token_hash") string b.timestamp_token_hash m in
    insert_some (codes "error_code") string b.error_code m

pub record AuditReportGenerateMetadata : Type 0 where
  pub format : Text
  pub period_end : Text
  pub period_start : Text
  pub error_code : Option Text
  pub source_event_at : Text

-- `AuditReportGenerateMetadata::new`
unfoldable pub new_audit_report_generate : Text → Text → Text → Text → AuditReportGenerateMetadata
new_audit_report_generate format period_start period_end source_event_at = record {
  format = format;
  period_end = period_end;
  period_start = period_start;
  error_code = none;
  source_event_at = source_event_at;
}

-- the object of `build`
unfoldable pub audit_report_generate_object : Crates → AuditReportGenerateMetadata → Map
unfolding insert
audit_report_generate_object c b =
    let m = insert (codes "format") (string b.format) end in
    let m = insert (codes "period_end") (string b.period_end) m in
    let m = insert (codes "period_start") (string b.period_start) m in
    let m = insert_some (codes "error_code") string b.error_code m in
    insert (codes "source_event_at") (string b.source_event_at) m

pub record AuditUiReadMetadata : Type 0 where
  pub endpoint : Text
  pub resource : Text
  pub result_count : Option ℕ
  pub period_start : Option Text
  pub period_end : Option Text
  pub start_sequence_no : Option ℕ
  pub end_sequence_no : Option ℕ
  pub target_year_month : Option Text
  pub error_code : Option Text
  pub source_event_at : Text

-- `AuditUiReadMetadata::new`
unfoldable pub new_audit_ui_read : Text → Text → Text → AuditUiReadMetadata
new_audit_ui_read endpoint resource source_event_at = record {
  endpoint = endpoint;
  resource = resource;
  result_count = none;
  period_start = none;
  period_end = none;
  start_sequence_no = none;
  end_sequence_no = none;
  target_year_month = none;
  error_code = none;
  source_event_at = source_event_at;
}

-- the object of `build`
unfoldable pub audit_ui_read_object : Crates → AuditUiReadMetadata → Map
unfolding insert
audit_ui_read_object c b =
    let m = insert (codes "endpoint") (string b.endpoint) end in
    let m = insert (codes "method") (string (codes "GET")) m in
    let m = insert (codes "resource") (string b.resource) m in
    let m = insert_some (codes "result_count") (λ x. number (unsigned x)) b.result_count m in
    let m = insert_some (codes "period_start") string b.period_start m in
    let m = insert_some (codes "period_end") string b.period_end m in
    let m =
      insert_some (codes "start_sequence_no") (λ x. number (unsigned x)) b.start_sequence_no m in
    let m = insert_some (codes "end_sequence_no") (λ x. number (unsigned x)) b.end_sequence_no m in
    let m = insert_some (codes "target_year_month") string b.target_year_month m in
    let m = insert_some (codes "error_code") string b.error_code m in
    insert (codes "source_event_at") (string b.source_event_at) m
