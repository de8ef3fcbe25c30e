-- ===== src/Scheduler/Loop.antt =====
-- The loop of the scheduler keeps archives behind verification; the period that it works on.
use mipsorcu.Crates.{Crates}
use mipsorcu.Prelude.{
  ◌≡◌, refl, Text, true, not, ◌&&◌, text_eq, List, [], ◌∷◌, arith, Bool-cases, inl, inr, all,
  Option-cases,
}
use mipsorcu.Scheduler.{
  ScheduledJobName, archive_export, job_as_str, SchedulerRuntimeState, contains_key,
  new_runtime_state, Date, monthly_due, quarterly_due, previous_month_period, quarter_period_key,
}
use mipsorcu.Scheduler.Due.{
  SchedulerConfig, key_of, run_and_forget, run_quarterly_jobs, quarterly_jobs, run_monthly,
  run_due_jobs, run_ticks, run_scheduler_loop,
}
use mipsorcu.Scheduler.Digests.{DigestLaws}
use mipsorcu.Scheduler.Gated.{IsGated, other-IsGated, monthly-IsGated}
use mipsorcu.Scheduler.Jobs.{Services, run_quarterly_job}

new-IsGated : IsGated new_runtime_state
unfolding IsGated new_runtime_state contains_key
new-IsGated period h = cc

module _ {W D : Type 0} (c : Crates) (services : Services W D) where
  quarterly-IsGated :
      (quarter_key : Text) (names : List ScheduledJobName) (state : SchedulerRuntimeState × W)
      → all (λ job. not (text_eq (job_as_str job) (job_as_str archive_export))) names ≡ true
      → IsGated state.0
      → IsGated (run_quarterly_jobs c services quarter_key names state).0
  unfolding run_quarterly_jobs run_and_forget
  quarterly-IsGated quarter_key [] state h g = g
  quarterly-IsGated quarter_key (job ∷ names) (s, w) h g =
      quarterly-IsGated quarter_key names _ (ground arith) (
        other-IsGated (key_of job quarter_key) (run_quarterly_job c services job) s w (ground arith)
          g)

  no_archive :
      all
        (λ job. not (text_eq (job_as_str job) (job_as_str archive_export)))
        (quarterly_jobs c services)
      ≡ true
  unfolding text_eq job_as_str
  no_archive = refl

  module _ (laws : DigestLaws c services) (config : SchedulerConfig) where
    monthly_part-IsGated :
        (now : Date) (s : SchedulerRuntimeState) (w : W)
        → IsGated s
        → IsGated (run_monthly c services config now s w).1.0
    unfolding run_monthly
    monthly_part-IsGated now s w g =
        elim (Bool-cases (monthly_due now config.monthly_day config.monthly_hour_utc)) [
          | inr idle ↦ rw (run_monthly, idle) g
          | inl due ↦ elim (Option-cases (previous_month_period now)) [
            | inl e ↦ rw (run_monthly, due, e) g
            | inr (period, e) ↦
                rw (run_monthly, due, e) (monthly-IsGated c services laws period s w g)
          ]
        ]

    due-IsGated :
        (now : Date) (s : SchedulerRuntimeState) (w : W)
        → IsGated s
        → IsGated (run_due_jobs c services config now s w).0
    unfolding run_due_jobs
    due-IsGated now s w g =
        let g' = monthly_part-IsGated now s w g in
        elim (Bool-cases (
          (run_monthly c services config now s w).0
          && quarterly_due now config.monthly_day config.quarterly_hour_utc)) [
            | inl due ↦
                rw (run_due_jobs, due)
                  (quarterly-IsGated (quarter_period_key now) (quarterly_jobs c services)
                    (run_monthly c services config now s w).1 no_archive g')
            | inr idle ↦ rw (run_due_jobs, idle) g'
          ]

    ticks-IsGated :
        (times : List Date) (state : SchedulerRuntimeState × W)
        → IsGated state.0
        → IsGated (run_ticks c services config times state).0
    unfolding run_ticks
    ticks-IsGated [] state g = g
    ticks-IsGated (now ∷ later) (s, w) g =
        ticks-IsGated later (run_due_jobs c services config now s w) (due-IsGated now s w g)

    -- However long the scheduler runs, whatever its jobs answer: a period whose archive export has
    -- succeeded is one for which both verifications of the whole ledger and the digest have succeeded,
    -- where the services generate and fetch digests for the period asked for.
    pub run_scheduler_loop-IsGated :
        (times : List Date) (w : W) → IsGated (run_scheduler_loop c services config times w).0
    unfolding run_scheduler_loop
    run_scheduler_loop-IsGated times w = ticks-IsGated times (new_runtime_state, w) new-IsGated
