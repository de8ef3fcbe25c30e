-- ===== src/Scheduler/Locks.antt =====
-- No lock is held between the jobs of the scheduler.
use mipsorcu.Crates.{Crates}
use mipsorcu.Prelude.{
  ◌≡◌, Text, ◌&&◌, ◌||◌, not, Option, Result, ok, err, is_ok, List, [], ◌∷◌, Bool-cases,
  Result-cases, Option-cases, inl, inr, codes,
}
use mipsorcu.Scheduler.{
  ScheduledJobName, ledger_hash_chain_full_verify, ledger_signature_full_verify,
  monthly_digest_generate, archive_export, JobRunKey, SchedulerRuntimeState, Job,
  run_once_per_period, new_runtime_state, Date, monthly_due, quarterly_due, previous_month_period,
  quarter_period_key,
}
use mipsorcu.Scheduler.Once.{once, IsFree, new-IsFree, run_once_per_period-once, run-IsFree}
use mipsorcu.Scheduler.Due.{
  SchedulerConfig, key_of, run_and_forget, fail_precondition, after_digest, run_monthly_jobs,
  run_monthly, run_quarterly_jobs, quarterly_jobs, run_due_jobs, run_ticks, run_scheduler_loop,
}
use mipsorcu.Scheduler.Jobs.{
  Services, record_precondition_failure_job, run_archive_export_job,
  run_full_ledger_hash_chain_verify_job, run_full_ledger_signature_verify_job,
  run_monthly_digest_generate_job, run_quarterly_job,
}

module _ {W D : Type 0} (c : Crates) (services : Services W D) where
  forget-IsFree :
      (key : JobRunKey) (run : Job W (Unit {0})) (state : SchedulerRuntimeState × W)
      → IsFree state.0
      → IsFree (run_and_forget c services key run state).0
  unfolding run_and_forget
  forget-IsFree key run (s, w) = run-IsFree key run s w

  failed-IsFree :
      (job_name : ScheduledJobName) (period error_code : Text) (state : SchedulerRuntimeState × W)
      → IsFree state.0
      → IsFree (fail_precondition c services job_name period error_code state).0
  unfolding run_and_forget
  failed-IsFree job_name period error_code =
      forget-IsFree (key_of job_name period)
        (record_precondition_failure_job c services job_name period error_code)

  after_digest-IsFree :
      (period : Text) (answer : Result Text (Option D)) (state : SchedulerRuntimeState × W)
      → IsFree state.0
      → IsFree (after_digest c services period answer state).1.0
  unfolding after_digest run_and_forget
  after_digest-IsFree period (ok (Option.some d)) state free =
      forget-IsFree _ (run_archive_export_job c services d) state free
  after_digest-IsFree period (ok Option.none) (s, w) free =
      elim (Result-cases (services.fetch_signed_digest period w).0) [
        | inl (d, e) ↦
            rw (after_digest, e) (forget-IsFree _ (run_archive_export_job c services d) (s, _) free)
        | inr (x, e) ↦ rw (after_digest, e) (failed-IsFree archive_export period x (s, _) free)
      ]
  after_digest-IsFree period (err x) state free =
      failed-IsFree archive_export period (codes "monthly_digest_generate_failed") state free

  monthly_jobs-IsFree :
      (period : Text) (s : SchedulerRuntimeState) (w : W)
      → IsFree s
      → IsFree (run_monthly_jobs c services period s w).1.0
  unfolding run_monthly_jobs
  monthly_jobs-IsFree period s w free =
      let hash_key = key_of ledger_hash_chain_full_verify period in
      let hash_job =
        run_full_ledger_hash_chain_verify_job c services ledger_hash_chain_full_verify period in
      let (hash_result, s1, w1) = run_once_per_period hash_key hash_job s w in
      let signature_key = key_of ledger_signature_full_verify period in
      let signature_job =
        run_full_ledger_signature_verify_job c services ledger_signature_full_verify period in
      let (signature_result, s2, w2) = run_once_per_period signature_key signature_job s1 w1 in
      let free2 =
        run-IsFree signature_key signature_job s1 w1 (run-IsFree hash_key hash_job s w free) in
      elim (Bool-cases (not (is_ok hash_result) || not (is_ok signature_result))) [
        | inl bad ↦
            rw (run_monthly_jobs, bad)
              (failed-IsFree archive_export period (codes "ledger_verification_precondition_failed")
                _
                (failed-IsFree monthly_digest_generate period
                  (codes "ledger_verification_precondition_failed") (s2, w2) free2))
        | inr good ↦
            rw (run_monthly_jobs, good)
              (after_digest-IsFree period _ _ (
                run-IsFree (key_of monthly_digest_generate period)
                  (run_monthly_digest_generate_job c services period) s2 w2 free2))
      ]

  quarterly_jobs-IsFree :
      (quarter_key : Text) (names : List ScheduledJobName) (state : SchedulerRuntimeState × W)
      → IsFree state.0
      → IsFree (run_quarterly_jobs c services quarter_key names state).0
  unfolding run_quarterly_jobs
  quarterly_jobs-IsFree quarter_key [] state free = free
  quarterly_jobs-IsFree quarter_key (job_name ∷ names) state free =
      quarterly_jobs-IsFree quarter_key names _ (
        forget-IsFree (key_of job_name quarter_key) (run_quarterly_job c services job_name) state
          free)

  monthly-IsFree :
      (config : SchedulerConfig) (now : Date) (s : SchedulerRuntimeState) (w : W)
      → IsFree s
      → IsFree (run_monthly c services config now s w).1.0
  unfolding run_monthly
  monthly-IsFree config now s w free =
      elim (Bool-cases (monthly_due now config.monthly_day config.monthly_hour_utc)) [
        | inr idle ↦ rw (run_monthly, idle) free
        | inl due ↦ elim (Option-cases (previous_month_period now)) [
          | inl e ↦ rw (run_monthly, due, e) free
          | inr (period, e) ↦ rw (run_monthly, due, e) (monthly_jobs-IsFree period s w free)
        ]
      ]

  due-IsFree :
      (config : SchedulerConfig) (now : Date) (s : SchedulerRuntimeState) (w : W)
      → IsFree s
      → IsFree (run_due_jobs c services config now s w).0
  unfolding run_due_jobs
  due-IsFree config now s w free =
      let free' = monthly-IsFree config now s w free in
      elim (Bool-cases (
        (run_monthly c services config now s w).0
        && quarterly_due now config.monthly_day config.quarterly_hour_utc)) [
          | inl due ↦
              rw (run_due_jobs, due)
                (quarterly_jobs-IsFree (quarter_period_key now) (quarterly_jobs c services)
                  (run_monthly c services config now s w).1 free')
          | inr idle ↦ rw (run_due_jobs, idle) free'
        ]

  ticks-IsFree :
      (config : SchedulerConfig) (times : List Date) (state : SchedulerRuntimeState × W)
      → IsFree state.0
      → IsFree (run_ticks c services config times state).0
  unfolding run_ticks
  ticks-IsFree config [] state free = free
  ticks-IsFree config (now ∷ later) (s, w) free =
      ticks-IsFree config later (run_due_jobs c services config now s w)
        (due-IsFree config now s w free)

  -- After any run of the scheduler, `run_once_per_period` does for every key and job what a run
  -- without locks does: no job is refused as already running; where the key is completed, the job
  -- does not run; else it runs, its answer is returned, and just a success completes the key.
  pub run_scheduler_loop-once :
      {T : Type 0} (config : SchedulerConfig) (times : List Date) (w later : W) (key : JobRunKey)
      (run : Job W T)
      → run_once_per_period key run (run_scheduler_loop c services config times w).0 later
        ≡ once key run (run_scheduler_loop c services config times w).0 later
  unfolding run_scheduler_loop
  run_scheduler_loop-once config times w later key run =
      run_once_per_period-once key run _ later
        (ticks-IsFree config times (new_runtime_state, w) new-IsFree)
