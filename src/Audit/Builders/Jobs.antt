-- ===== src/Audit/Builders/Jobs.antt =====
-- The builders of src/audit/event/metadata/builders.rs for the checks, jobs, forwarding and incidents: the fields of
-- each, and the object that its `build` fills in.
use mipsorcu.Audit.Action.{AuditTrigger, trigger_as_str}
use mipsorcu.Audit.Builders.Fields.{insert_some}
use mipsorcu.Crates.{Crates}
use mipsorcu.Json.{Map, string, number, unsigned, object, end, insert}
use mipsorcu.Prelude.{ℕ, Text, codes, Option, none}

-- `IntegrityCheckViolationSummary` of src/types/supabase.rs
pub record IntegrityCheckViolationSummary : Type 0 where
  pub current_version_invalid : ℕ
  pub version_invalid : ℕ
  pub retention_exceeded : ℕ
  pub ciphertext_empty : ℕ
  pub encrypted_data_key_empty : ℕ
  pub nonce_length_invalid : ℕ
  pub algorithm_invalid : ℕ
  pub nonce_duplicate : ℕ
  pub aad_keys_invalid : ℕ
  pub aad_row_mismatch : ℕ
  pub created_at_mismatch : ℕ
  pub audit_action_invalid : ℕ
  pub audit_result_invalid : ℕ
  pub audit_metadata_not_object : ℕ
  pub audit_metadata_forbidden_key : ℕ
  pub audit_source_event_at_invalid : ℕ

-- its JSON object
unfoldable pub summary_object : IntegrityCheckViolationSummary → Map
unfolding insert
summary_object s =
    let m =
      insert (codes "current_version_invalid") (number (unsigned s.current_version_invalid)) end in
    let m = insert (codes "version_invalid") (number (unsigned s.version_invalid)) m in
    let m = insert (codes "retention_exceeded") (number (unsigned s.retention_exceeded)) m in
    let m = insert (codes "ciphertext_empty") (number (unsigned s.ciphertext_empty)) m in
    let m =
      insert (codes "encrypted_data_key_empty") (number (unsigned s.encrypted_data_key_empty)) m in
    let m = insert (codes "nonce_length_invalid") (number (unsigned s.nonce_length_invalid)) m in
    let m = insert (codes "algorithm_invalid") (number (unsigned s.algorithm_invalid)) m in
    let m = insert (codes "nonce_duplicate") (number (unsigned s.nonce_duplicate)) m in
    let m = insert (codes "aad_keys_invalid") (number (unsigned s.aad_keys_invalid)) m in
    let m = insert (codes "aad_row_mismatch") (number (unsigned s.aad_row_mismatch)) m in
    let m = insert (codes "created_at_mismatch") (number (unsigned s.created_at_mismatch)) m in
    let m = insert (codes "audit_action_invalid") (number (unsigned s.audit_action_invalid)) m in
    let m = insert (codes "audit_result_invalid") (number (unsigned s.audit_result_invalid)) m in
    let m =
      insert (codes "audit_metadata_not_object") (number (unsigned s.audit_metadata_not_object))
        m in
    let m =
      insert (codes "audit_metadata_forbidden_key")
        (number (unsigned s.audit_metadata_forbidden_key)) m in
    insert (codes "audit_source_event_at_invalid")
      (number (unsigned s.audit_source_event_at_invalid)) m

pub record IntegrityCheckMetadata : Type 0 where
  pub check_name : Text
  pub checked_secret_count : ℕ
  pub checked_secret_version_count : ℕ
  pub checked_audit_event_count : ℕ
  pub duration_ms : ℕ
  pub violation_count : ℕ
  pub violation_summary : IntegrityCheckViolationSummary
  pub trigger : AuditTrigger
  pub error_code : Option Text
  pub source_event_at : Option Text

-- `IntegrityCheckMetadata::new`
unfoldable pub new_integrity_check :
    ℕ → ℕ → ℕ → ℕ → IntegrityCheckViolationSummary → AuditTrigger → IntegrityCheckMetadata
new_integrity_check checked_secret_count checked_secret_version_count checked_audit_event_count
      violation_count violation_summary trigger =
    record {
      check_name = codes "mvp_integrity_check";
      checked_secret_count = checked_secret_count;
      checked_secret_version_count = checked_secret_version_count;
      checked_audit_event_count = checked_audit_event_count;
      duration_ms = 0;
      violation_count = violation_count;
      violation_summary = violation_summary;
      trigger = trigger;
      error_code = none;
      source_event_at = none;
    }

-- the object of `build`
unfoldable pub integrity_check_object : Crates → IntegrityCheckMetadata → Map
unfolding insert
integrity_check_object c b =
    let m = insert (codes "check_name") (string b.check_name) end in
    let m = insert (codes "checked_secret_count") (number (unsigned b.checked_secret_count)) m in
    let m =
      insert (codes "checked_secret_version_count")
        (number (unsigned b.checked_secret_version_count)) m in
    let m =
      insert (codes "checked_audit_event_count") (number (unsigned b.checked_audit_event_count))
        m in
    let m = insert (codes "duration_ms") (number (unsigned b.duration_ms)) m in
    let m = insert (codes "violation_count") (number (unsigned b.violation_count)) m in
    let m = insert (codes "violation_summary") (object (summary_object b.violation_summary)) m in
    let m = insert (codes "trigger") (string (trigger_as_str b.trigger)) m in
    let m = insert_some (codes "error_code") string b.error_code m in
    insert_some (codes "source_event_at") string b.source_event_at m

pub record RestoreTestMetadata : Type 0 where
  pub phase : Text
  pub sample_count : ℕ
  pub trigger : AuditTrigger
  pub duration_ms : ℕ
  pub error_code : Option Text
  pub failed_version : Option ℕ
  pub reason : Option Text
  pub source_event_at : Option Text

-- `RestoreTestMetadata::new`
unfoldable pub new_restore_test : ℕ → AuditTrigger → RestoreTestMetadata
new_restore_test sample_count trigger = record {
  phase = codes "verify";
  sample_count = sample_count;
  trigger = trigger;
  duration_ms = 0;
  error_code = none;
  failed_version = none;
  reason = none;
  source_event_at = none;
}

-- the object of `build`
unfoldable pub restore_test_object : Crates → RestoreTestMetadata → Map
unfolding insert
restore_test_object c b =
    let m = insert (codes "phase") (string b.phase) end in
    let m = insert (codes "sample_count") (number (unsigned b.sample_count)) m in
    let m = insert (codes "trigger") (string (trigger_as_str b.trigger)) m in
    let m = insert (codes "duration_ms") (number (unsigned b.duration_ms)) m in
    let m = insert_some (codes "error_code") string b.error_code m in
    let m = insert_some (codes "failed_version") (λ x. number (unsigned x)) b.failed_version m in
    let m = insert_some (codes "reason") string b.reason m in
    insert_some (codes "source_event_at") string b.source_event_at m

pub record SchedulerJobMetadata : Type 0 where
  pub job_name : Text
  pub trigger : AuditTrigger
  pub duration_ms : ℕ
  pub error_code : Option Text
  pub target_year_month : Option Text
  pub source_event_at : Text

-- `SchedulerJobMetadata::new`
unfoldable pub new_scheduler_job : Text → AuditTrigger → Text → SchedulerJobMetadata
new_scheduler_job job_name trigger source_event_at = record {
  job_name = job_name;
  trigger = trigger;
  duration_ms = 0;
  error_code = none;
  target_year_month = none;
  source_event_at = source_event_at;
}

-- the object of `build`
unfoldable pub scheduler_job_object : Crates → SchedulerJobMetadata → Map
unfolding insert
scheduler_job_object c b =
    let m = insert (codes "job_name") (string b.job_name) end in
    let m = insert (codes "trigger") (string (trigger_as_str b.trigger)) m in
    let m = insert (codes "duration_ms") (number (unsigned b.duration_ms)) m in
    let m = insert_some (codes "error_code") string b.error_code m in
    let m = insert_some (codes "target_year_month") string b.target_year_month m in
    insert (codes "source_event_at") (string b.source_event_at) m

pub record SiemForwardFailureMetadata : Type 0 where
  pub error_code : Text
  pub event_type : Option Text
  pub event_count : Option ℕ
  pub source_event_at : Option Text

-- `SiemForwardFailureMetadata::new`
unfoldable pub new_siem_forward_failure : Text → SiemForwardFailureMetadata
new_siem_forward_failure error_code = record {
  error_code = error_code;
  event_type = none;
  event_count = none;
  source_event_at = none;
}

-- the object of `build`
unfoldable pub siem_forward_failure_object : Crates → SiemForwardFailureMetadata → Map
unfolding insert
siem_forward_failure_object c b =
    let m = insert (codes "error_code") (string b.error_code) end in
    let m = insert_some (codes "event_type") string b.event_type m in
    let m = insert_some (codes "event_count") (λ x. number (unsigned x)) b.event_count m in
    insert_some (codes "source_event_at") string b.source_event_at m

pub record IncidentDetectedMetadata : Type 0 where
  pub incident_type : Text
  pub severity : Text
  pub detection_source : Text
  pub dedupe_key : Text
  pub notification_sink : Text
  pub notification_result : Text
  pub error_code : Text
  pub source_event_at : Text
  pub source_event_id : Option Text
  pub target_sequence_no : Option ℕ
  pub target_year_month : Option Text

-- `IncidentDetectedMetadata::new`
unfoldable pub new_incident_detected :
    Text → Text → Text → Text → Text → Text → Text → Text → IncidentDetectedMetadata
new_incident_detected incident_type severity detection_source dedupe_key notification_sink
      notification_result error_code source_event_at =
    record {
      incident_type = incident_type;
      severity = severity;
      detection_source = detection_source;
      dedupe_key = dedupe_key;
      notification_sink = notification_sink;
      notification_result = notification_result;
      error_code = error_code;
      source_event_at = source_event_at;
      source_event_id = none;
      target_sequence_no = none;
      target_year_month = none;
    }

-- the object of `build`
unfoldable pub incident_detected_object : Crates → IncidentDetectedMetadata → Map
unfolding insert
incident_detected_object c b =
    let m = insert (codes "incident_type") (string b.incident_type) end in
    let m = insert (codes "severity") (string b.severity) m in
    let m = insert (codes "detection_source") (string b.detection_source) m in
    let m = insert (codes "dedupe_key") (string b.dedupe_key) m in
    let m = insert (codes "notification_sink") (string b.notification_sink) m in
    let m = insert (codes "notification_result") (string b.notification_result) m in
    let m = insert (codes "error_code") (string b.error_code) m in
    let m = insert (codes "source_event_at") (string b.source_event_at) m in
    let m = insert_some (codes "source_event_id") string b.source_event_id m in
    let m =
      insert_some (codes "target_sequence_no") (λ x. number (unsigned x)) b.target_sequence_no m in
    insert_some (codes "target_year_month") string b.target_year_month m
