-- ===== src/Scheduler/Due.antt =====
-- `run_due_jobs` of src/server/scheduler.rs.
use mipsorcu.Prelude.{
  Bool, true, false, ◌||◌, ◌&&◌, Text, codes, Option, none, some, Result, ok, err, is_ok, not, ℕ,
  List, [], ◌∷◌, if◌then◌else◌,
}
use mipsorcu.Crates.{Crates}
use mipsorcu.Scheduler.Jobs.{
  Services, record_precondition_failure_job, run_archive_export_job,
  run_full_ledger_hash_chain_verify_job, run_full_ledger_signature_verify_job,
  run_monthly_digest_generate_job, run_quarterly_job,
}
use mipsorcu.Scheduler.{
  new_runtime_state, Job, ScheduledJobName, ledger_hash_chain_full_verify,
  ledger_signature_full_verify, monthly_digest_generate, archive_export, restore_test,
  signature_key_review_reminder, auditor_permission_review_reminder, JobRunKey,
  SchedulerRuntimeState, run_once_per_period, Date, monthly_due, quarterly_due,
  previous_month_period, quarter_period_key,
}

pub record SchedulerConfig : Type 0 where
  pub monthly_day : ℕ
  pub monthly_hour_utc : ℕ
  pub quarterly_hour_utc : ℕ

abbrev pub key_of : ScheduledJobName → Text → JobRunKey
key_of job_name period = record { job_name = job_name; period_key = period }

module _ {W D : Type 0} (c : Crates) (services : Services W D) where
  -- a run whose answer is dropped
  unfoldable pub run_and_forget :
      JobRunKey → Job W (Unit {0}) → SchedulerRuntimeState × W → SchedulerRuntimeState × W
  unfolding run_once_per_period
  run_and_forget key run state =
      let (_, s, w) = run_once_per_period key run state.0 state.1 in (s, w)

  -- `record_precondition_failure_job` under the key of its job
  abbrev pub fail_precondition :
      ScheduledJobName → Text → Text → SchedulerRuntimeState × W → SchedulerRuntimeState × W
  unfolding run_and_forget
  fail_precondition job_name period error_code =
      run_and_forget (key_of job_name period)
        (record_precondition_failure_job c services job_name period error_code)

  abbrev pub run_archive : D → SchedulerRuntimeState × W → SchedulerRuntimeState × W
  unfolding run_and_forget
  run_archive digest =
      run_and_forget (key_of archive_export (services.period_of digest))
        (run_archive_export_job c services digest)

  -- The flag says whether `run_due_jobs` goes on to the quarterly jobs.
  unfoldable pub after_digest :
      Text → Result Text (Option D) → SchedulerRuntimeState × W → Bool × (SchedulerRuntimeState × W)
  after_digest period (ok (some digest)) state = (true, run_archive digest state)
  after_digest period (ok none) state =
      let (fetched, w) = services.fetch_signed_digest period state.1 in
      elim fetched [
        | ok digest ↦ (true, run_archive digest (state.0, w))
        | err error_code ↦ (false, fail_precondition archive_export period error_code (state.0, w))
      ]
  after_digest period (err _) state = (
    false,
    fail_precondition archive_export period (codes "monthly_digest_generate_failed") state,
  )

  unfoldable pub run_monthly_jobs :
      Text → SchedulerRuntimeState → W → Bool × (SchedulerRuntimeState × W)
  unfolding run_once_per_period after_digest
  run_monthly_jobs period s w =
      let (hash_result, s1, w1) =
        run_once_per_period (key_of ledger_hash_chain_full_verify period)
          (run_full_ledger_hash_chain_verify_job c services ledger_hash_chain_full_verify period) s
          w in
      let (signature_result, s2, w2) =
        run_once_per_period (key_of ledger_signature_full_verify period)
          (run_full_ledger_signature_verify_job c services ledger_signature_full_verify period) s1
          w1 in
      if not (is_ok hash_result) || not (is_ok signature_result)
      then (
        false,
        fail_precondition archive_export period (codes "ledger_verification_precondition_failed") (
            fail_precondition monthly_digest_generate period
              (codes "ledger_verification_precondition_failed") (s2, w2)),
      )
      else let (digest_result, s3, w3) =
          run_once_per_period (key_of monthly_digest_generate period)
            (run_monthly_digest_generate_job c services period) s2 w2 in
        after_digest period digest_result (s3, w3)

  unfoldable pub run_quarterly_jobs :
      Text → List ScheduledJobName → SchedulerRuntimeState × W → SchedulerRuntimeState × W
  unfolding run_and_forget
  run_quarterly_jobs quarter_key [] state = state
  run_quarterly_jobs quarter_key (job_name ∷ names) state =
      run_quarterly_jobs quarter_key names
        (run_and_forget (key_of job_name quarter_key) (run_quarterly_job c services job_name) state)

  abbrev pub quarterly_jobs : List ScheduledJobName
  quarterly_jobs =
      restore_test ∷ signature_key_review_reminder ∷ auditor_permission_review_reminder ∷ []

  -- the monthly jobs, where they are due
  unfoldable pub run_monthly :
      SchedulerConfig → Date → SchedulerRuntimeState → W → Bool × (SchedulerRuntimeState × W)
  unfolding monthly_due previous_month_period run_monthly_jobs
  run_monthly config now s w =
      if monthly_due now config.monthly_day config.monthly_hour_utc
      then elim (previous_month_period now) [
        | none ↦ (false, (s, w))
        | some period ↦ run_monthly_jobs period s w
      ]
      else (true, (s, w))

  unfoldable pub run_due_jobs :
      SchedulerConfig → Date → SchedulerRuntimeState → W → SchedulerRuntimeState × W
  unfolding run_monthly quarterly_due quarter_period_key run_quarterly_jobs
  run_due_jobs config now s w =
      let (goes_on, state) = run_monthly config now s w in
      if goes_on && quarterly_due now config.monthly_day config.quarterly_hour_utc
      then run_quarterly_jobs (quarter_period_key now) quarterly_jobs state
      else state

  -- `run_scheduler_loop`: `run_due_jobs` at the first run and at each tick until the shutdown, at the
  -- times given, on one runtime state
  unfoldable pub run_ticks :
      SchedulerConfig → List Date → SchedulerRuntimeState × W → SchedulerRuntimeState × W
  unfolding run_due_jobs
  run_ticks config [] state = state
  run_ticks config (now ∷ later) state =
      run_ticks config later (run_due_jobs config now state.0 state.1)

  unfoldable pub run_scheduler_loop : SchedulerConfig → List Date → W → SchedulerRuntimeState × W
  unfolding run_ticks new_runtime_state
  run_scheduler_loop config times w = run_ticks config times (new_runtime_state, w)
