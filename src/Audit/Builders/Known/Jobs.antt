-- ===== src/Audit/Builders/Known/Jobs.antt =====
-- The keys that the builders for the checks, jobs, forwarding and incidents fill in.
use mipsorcu.Audit.Action.{
  integrity_check, restore_test, scheduler_job, siem_forward_failure, incident_detected,
  AuditResult,
}
use mipsorcu.Audit.Builders.Jobs.{
  IntegrityCheckMetadata, RestoreTestMetadata, SchedulerJobMetadata, SiemForwardFailureMetadata,
  IncidentDetectedMetadata, integrity_check_object, restore_test_object, scheduler_job_object,
  siem_forward_failure_object, incident_detected_object,
}
use mipsorcu.Audit.Builders.Known.Insert.{IsKnown, insertions}
use mipsorcu.Audit.Metadata.Keys.{allowed_keys}
use mipsorcu.Crates.{Crates}
use mipsorcu.Prelude.{contains, text_eq}

module _ (c : Crates) where
  pub integrity_check_object-IsKnown :
      (b : IntegrityCheckMetadata) (result : AuditResult)
      → IsKnown (allowed_keys integrity_check result) (integrity_check_object c b)
  unfolding integrity_check_object allowed_keys contains text_eq
  integrity_check_object-IsKnown b result = search insertions depth 13

  pub restore_test_object-IsKnown :
      (b : RestoreTestMetadata) (result : AuditResult)
      → IsKnown (allowed_keys restore_test result) (restore_test_object c b)
  unfolding restore_test_object allowed_keys contains text_eq
  restore_test_object-IsKnown b result = search insertions depth 13

  pub scheduler_job_object-IsKnown :
      (b : SchedulerJobMetadata) (result : AuditResult)
      → IsKnown (allowed_keys scheduler_job result) (scheduler_job_object c b)
  unfolding scheduler_job_object allowed_keys contains text_eq
  scheduler_job_object-IsKnown b result = search insertions depth 13

  pub siem_forward_failure_object-IsKnown :
      (b : SiemForwardFailureMetadata) (result : AuditResult)
      → IsKnown (allowed_keys siem_forward_failure result) (siem_forward_failure_object c b)
  unfolding siem_forward_failure_object allowed_keys contains text_eq
  siem_forward_failure_object-IsKnown b result = search insertions depth 13

  pub incident_detected_object-IsKnown :
      (b : IncidentDetectedMetadata) (result : AuditResult)
      → IsKnown (allowed_keys incident_detected result) (incident_detected_object c b)
  unfolding incident_detected_object allowed_keys contains text_eq
  incident_detected_object-IsKnown b result = search insertions depth 13
