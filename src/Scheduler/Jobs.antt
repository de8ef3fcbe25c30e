-- ===== src/Scheduler/Jobs.antt =====
-- The jobs of src/server/scheduler.rs, on the services that they call: the database, the audit
-- recorder with the ledger appender (`record_scheduler_job_result`), the incident recorder, and the
-- use cases of digests, archives and restore tests. A panic of a blocking task is left out.
use mipsorcu.Audit.Action.{AuditResult, success, failure}
use mipsorcu.Crates.{Crates}
use mipsorcu.Ledger.Types.{LedgerChainHead}
use mipsorcu.LedgerRows.{LedgerVerificationMaterialRow}
use mipsorcu.Prelude.{
  Text, codes, Option, none, some, Result, ok, err, ◌>>=◌, ◌>>◌, List, text_eq, if◌then◌else◌,
}
use mipsorcu.Scheduler.{
  ScheduledJobName, monthly_digest_generate, archive_export, restore_test,
  signature_key_review_reminder, auditor_permission_review_reminder, Job,
}
use mipsorcu.Scheduler.Rows.{
  LedgerVerificationSummary, verify_hash_chain_rows, verify_signature_rows,
}

-- The services in a world W, with signed digests D. An error is the code that the job reports.
pub record Services (W D : Type 0) : Type 0 where
  -- `record_scheduler_job_result`: the job, its result, the error code and the period
  pub record_job_result :
      ScheduledJobName → AuditResult → Option Text → Option Text → Job W (Unit {0})
  -- `record_mapped_scheduler_incident`
  pub record_incident : ScheduledJobName → Option Text → Text → W → W
  -- `fetch_full_ledger_material_rows`
  pub fetch_rows : Job W (LedgerChainHead × List LedgerVerificationMaterialRow)
  -- `RequestId::generate` and `SourceEventAt::now_utc`
  pub new_request : Job W (Unit {0})
  -- `generate_monthly_digest`, and `record_monthly_digest_failure_audit` for its error
  pub generate_digest : Text → Job W D
  pub record_digest_failure : Text → Text → W → W
  pub fetch_signed_digest : Text → Job W D
  pub period_of : D → Text
  -- `export_digest_to_archive_with_incident`
  pub export_digest : D → Job W (Unit {0})
  -- `run_restore_test_once`, with the error code of a failure
  pub run_restore_test : Job W (Unit {0})

-- `code.or(Some(default))` and `code.unwrap_or(default)`
abbrev pub or_else : Option Text → Text → Text
or_else none default = default
or_else (some code) default = code

-- The result of a verification and its error code: none for a success.
unfoldable pub verification_error : Text → Result Text LedgerVerificationSummary → Option Text
verification_error default (ok summary) =
    if summary.valid then none else some (or_else summary.error_code default)
verification_error default (err error_code) = some error_code

module _ {W D : Type 0} (c : Crates) (services : Services W D) where
  -- A failure is recorded, and then ends the job with its code.
  unfoldable pub record_failure : ScheduledJobName → Text → Text → {T : Type 0} → Job W T
  record_failure job_name period error_code w =
      let (recorded, w') =
        services.record_job_result job_name failure (some error_code) (some period) w in
      (recorded >> err error_code, w')

  -- `record_precondition_failure_job`
  unfoldable pub record_precondition_failure_job : ScheduledJobName → Text → Text → Job W (Unit {0})
  record_precondition_failure_job job_name period error_code =
      record_failure job_name period error_code

  -- the end of both verification jobs
  unfoldable pub finish_verification : ScheduledJobName → Text → Option Text → Job W (Unit {0})
  finish_verification job_name period none w =
      services.record_job_result job_name success none (some period) w
  finish_verification job_name period (some error_code) w =
      let (recorded, w1) =
        services.record_job_result job_name failure (some error_code) (some period) w in
      elim recorded [
        | err code ↦ (err code, w1)
        | ok _ ↦ (err error_code, services.record_incident job_name (some error_code) period w1)
      ]

  unfoldable pub run_full_ledger_hash_chain_verify_job : ScheduledJobName → Text → Job W (Unit {0})
  unfolding verify_hash_chain_rows
  run_full_ledger_hash_chain_verify_job job_name period w =
      let (fetched, w1) = services.fetch_rows w in
      finish_verification job_name period
        (verification_error (codes "ledger_verification_failed")
          (fetched >>= λ material. verify_hash_chain_rows c material.0 material.1))
        w1

  unfoldable pub run_full_ledger_signature_verify_job : ScheduledJobName → Text → Job W (Unit {0})
  unfolding verify_signature_rows
  run_full_ledger_signature_verify_job job_name period w =
      let (fetched, w1) = services.fetch_rows w in
      finish_verification job_name period
        (verification_error (codes "ledger_signature_verification_failed")
          (fetched >>= λ material. verify_signature_rows c material.1))
        w1

  -- a digest that is there is recorded as a success
  unfoldable pub finish_digest : Text → D → Job W D
  finish_digest period digest w =
      let (recorded, w') =
        services.record_job_result monthly_digest_generate success none (some period) w in
      (recorded >> ok digest, w')

  -- a digest that was generated before
  unfoldable pub existing_digest : Text → Job W D
  existing_digest period w =
      let (fetched, w1) = services.fetch_signed_digest period w in
      elim fetched [
        | ok digest ↦ finish_digest period digest w1
        | err _ ↦
            record_failure monthly_digest_generate period
              (codes "monthly_digest_existing_fetch_failed") w1
      ]

  -- the arm of an error of `generate_monthly_digest`
  unfoldable pub recover_digest : Text → Text → Job W D
  unfolding text_eq
  recover_digest period error_code w =
      if text_eq error_code (codes "monthly_digest_duplicate")
      then existing_digest period w
      else record_failure monthly_digest_generate period (codes "monthly_digest_generate_failed")
          (services.record_digest_failure period error_code w)

  unfoldable pub run_monthly_digest_generate_job : Text → Job W D
  run_monthly_digest_generate_job period w =
      let (requested, w1) = services.new_request w in
      elim requested [
        | err code ↦ (err code, w1)
        | ok _ ↦
            let (generated, w2) = services.generate_digest period w1 in
            elim generated [
              | ok digest ↦ finish_digest period digest w2
              | err error_code ↦ recover_digest period error_code w2
            ]
      ]

  unfoldable pub run_archive_export_job : D → Job W (Unit {0})
  run_archive_export_job digest w =
      let period = services.period_of digest in
      let (requested, w1) = services.new_request w in
      elim requested [
        | err code ↦ (err code, w1)
        | ok _ ↦
            let (exported, w2) = services.export_digest digest w1 in
            elim exported [
              | ok _ ↦ services.record_job_result archive_export success none (some period) w2
              | err _ ↦ record_failure archive_export period (codes "archive_export_failed") w2
            ]
      ]

  -- the arm of the restore test in `run_quarterly_job`
  unfoldable pub run_restore_test_job : Job W (Unit {0})
  run_restore_test_job w =
      let (tested, w1) = services.run_restore_test w in
      elim tested [
        | ok _ ↦ services.record_job_result restore_test success none none w1
        | err error_code ↦
            let (recorded, w2) =
              services.record_job_result restore_test failure (some error_code) none w1 in
            (recorded >> err error_code, w2)
      ]

  unfoldable pub run_quarterly_job : ScheduledJobName → Job W (Unit {0})
  run_quarterly_job restore_test w = run_restore_test_job w
  run_quarterly_job signature_key_review_reminder w =
      services.record_job_result signature_key_review_reminder success none none w
  run_quarterly_job auditor_permission_review_reminder w =
      services.record_job_result auditor_permission_review_reminder success none none w
  run_quarterly_job _ w = (ok tt, w)
