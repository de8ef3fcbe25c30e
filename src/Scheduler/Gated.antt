-- ===== src/Scheduler/Gated.antt =====
-- Archives are exported after the verifications and the digest of their period.
use mipsorcu.Crates.{Crates}
use mipsorcu.Prelude.{
  ◌≡◌, refl, inl, inr, Text, codes, Bool, true, false, not, ◌||◌, Option, some, Result, ok, err,
  is_ok, text_eq, text_eq_iff, arith, Bool-cases, Result-cases, subst,
}
use mipsorcu.Scheduler.{
  ScheduledJobName, ledger_hash_chain_full_verify, ledger_signature_full_verify,
  monthly_digest_generate, archive_export, JobRunKey, key_eq, job_as_str, SchedulerRuntimeState,
  contains_key, Job, run_once_per_period,
}
use mipsorcu.Scheduler.Completed.{completed-keeps, completed-only, completed_self, answer-some}
use mipsorcu.Scheduler.Digests.{DigestLaws, failure-never-ok, digest_of}
use mipsorcu.Scheduler.Due.{
  key_of, run_and_forget, fail_precondition, run_archive, after_digest, run_monthly_jobs,
}
use mipsorcu.Scheduler.Jobs.{
  Services, record_precondition_failure_job, run_archive_export_job,
  run_full_ledger_hash_chain_verify_job, run_full_ledger_signature_verify_job,
  run_monthly_digest_generate_job,
}

-- The job has succeeded for the period.
abbrev pub HasRun : SchedulerRuntimeState → ScheduledJobName → Text → Type 0
HasRun s job_name period =
    contains_key s.completed (record { job_name = job_name; period_key = period }) ≡ true

-- Both verifications and the digest of a period have succeeded.
abbrev pub IsReady : SchedulerRuntimeState → Text → Type 0
IsReady s period =
    HasRun s ledger_hash_chain_full_verify period
    × HasRun s ledger_signature_full_verify period
    × HasRun s monthly_digest_generate period

-- What is archived was verified and digested.
unfoldable pub IsGated : SchedulerRuntimeState → Type 0
IsGated s = (period : Text) → HasRun s archive_export period → IsReady s period

archive_period :
    (a b : Text)
    → key_eq
        (record { job_name = archive_export; period_key = a })
        (record { job_name = archive_export; period_key = b })
      ≡ true
    → a ≡ b
unfolding key_eq text_eq
archive_period a b h = (text_eq_iff a b).0 (ground arith)

module _ {W T : Type 0} (key : JobRunKey) (run : Job W T) (s : SchedulerRuntimeState) (w : W) where
  IsReady-keeps :
      (period : Text) → IsReady s period → IsReady (run_once_per_period key run s w).1 period
  IsReady-keeps period (a, b, d) = (
    completed-keeps key run s w _ a,
    completed-keeps key run s w _ b,
    completed-keeps key run s w _ d,
  )

  run-IsGated :
      ((period : Text) (v : T)
        → key_eq key (record { job_name = archive_export; period_key = period }) ≡ true
        → (run w).0 ≡ ok v
        → IsReady s period)
      → IsGated s
      → IsGated (run_once_per_period key run s w).1
  unfolding IsGated
  run-IsGated ready g period h = elim (completed-only key run s w _ h) [
    | inl before ↦ IsReady-keeps period (g period before)
    | inr (same, v, done) ↦ IsReady-keeps period (ready period v same done)
  ]

  pub other-IsGated :
      text_eq (job_as_str key.job_name) (job_as_str archive_export) ≡ false
      → IsGated s
      → IsGated (run_once_per_period key run s w).1
  unfolding key_eq
  other-IsGated other = run-IsGated (λ period v same done. absurd (ground (arith, other, same)))

  archive-IsGated :
      (period : Text)
      → key ≡ record { job_name = archive_export; period_key = period }
      → IsReady s period
      → IsGated s
      → IsGated (run_once_per_period key run s w).1
  archive-IsGated period is ready =
      run-IsGated
        (λ other v same done. subst (IsReady s) (archive_period period other (rw is at same)) ready)

module _ {W D : Type 0} (c : Crates) (services : Services W D) where
  failed-IsGated :
      (period error_code : Text) (state : SchedulerRuntimeState × W)
      → IsGated state.0
      → IsGated (fail_precondition c services archive_export period error_code state).0
  unfolding run_and_forget record_precondition_failure_job
  failed-IsGated period error_code (s, w) =
      run-IsGated _ (record_precondition_failure_job c services archive_export period error_code) s
        w
        (λ other v same done.
          absurd (failure-never-ok c services archive_export period error_code w v done))

  not_archive : text_eq (job_as_str monthly_digest_generate) (job_as_str archive_export) ≡ false
  unfolding text_eq job_as_str
  not_archive = refl

  archived-IsGated :
      (digest : D) (state : SchedulerRuntimeState × W)
      → IsReady state.0 (services.period_of digest)
      → IsGated state.0
      → IsGated (run_archive c services digest state).0
  unfolding run_and_forget
  archived-IsGated digest (s, w) =
      archive-IsGated _ (run_archive_export_job c services digest) s w (services.period_of digest)
        refl

  after_digest-IsGated :
      (laws : DigestLaws c services) (period : Text) (answer : Result Text (Option D))
      (state : SchedulerRuntimeState × W)
      → ((d : D) → answer ≡ ok (some d) → services.period_of d ≡ period)
      → (is_ok answer ≡ true → IsReady state.0 period)
      → IsGated state.0
      → IsGated (after_digest c services period answer state).1.0
  unfolding after_digest
  after_digest-IsGated laws period (ok (Option.some d)) state of ready g =
      archived-IsGated d state (rw (of d refl) (ready refl)) g
  after_digest-IsGated laws period (ok Option.none) (s, w) of ready g =
      elim (Result-cases (services.fetch_signed_digest period w).0) [
        | inl (d, e) ↦
            rw (after_digest, e)
              (archived-IsGated d (s, (services.fetch_signed_digest period w).1)
                (rw (laws.fetched period w d e) (ready refl)) g)
        | inr (x, e) ↦
            rw (after_digest, e)
              (failed-IsGated period x (s, (services.fetch_signed_digest period w).1) g)
      ]
  after_digest-IsGated laws period (err x) state of ready g =
      failed-IsGated period (codes "monthly_digest_generate_failed") state g

  both_ok : (a b : Bool) → (not a || not b) ≡ false → (a ≡ true) × (b ≡ true)
  both_ok a b h = ground arith

  hash_other :
      text_eq (job_as_str ledger_hash_chain_full_verify) (job_as_str archive_export) ≡ false
  unfolding text_eq job_as_str
  hash_other = refl

  signature_other :
      text_eq (job_as_str ledger_signature_full_verify) (job_as_str archive_export) ≡ false
  unfolding text_eq job_as_str
  signature_other = refl

  module _ (laws : DigestLaws c services) (period : Text) where
    -- the digest after both verifications
    digest-IsGated :
        (s : SchedulerRuntimeState) (w : W)
        → HasRun s ledger_hash_chain_full_verify period
        → HasRun s ledger_signature_full_verify period
        → IsGated s
        → IsGated
            (after_digest c services period
              (run_once_per_period
                (key_of monthly_digest_generate period)
                (run_monthly_digest_generate_job c services period)
                s
                w).0
              (
                (run_once_per_period
                    (key_of monthly_digest_generate period)
                    (run_monthly_digest_generate_job c services period)
                    s
                    w).1,
                (run_once_per_period
                    (key_of monthly_digest_generate period)
                    (run_monthly_digest_generate_job c services period)
                    s
                    w).2,
              )).1.0
    digest-IsGated s w hash signature g =
        let key = key_of monthly_digest_generate period in
        let job = run_monthly_digest_generate_job c services period in
        after_digest-IsGated laws period _ _
          (λ d e. digest_of c services laws period w d (answer-some key job s w d e))
          (λ done. (
            completed-keeps key job s w _ hash,
            completed-keeps key job s w _ signature,
            completed_self key job s w done,
          ))
          (other-IsGated key job s w not_archive g)

    pub monthly-IsGated :
        (s : SchedulerRuntimeState) (w : W)
        → IsGated s
        → IsGated (run_monthly_jobs c services period s w).1.0
    unfolding run_monthly_jobs run_and_forget
    monthly-IsGated s w g =
        let hash_key = key_of ledger_hash_chain_full_verify period in
        let hash_job =
          run_full_ledger_hash_chain_verify_job c services ledger_hash_chain_full_verify period in
        let (hash_result, s1, w1) = run_once_per_period hash_key hash_job s w in
        let signature_key = key_of ledger_signature_full_verify period in
        let signature_job =
          run_full_ledger_signature_verify_job c services ledger_signature_full_verify period in
        let (signature_result, s2, w2) = run_once_per_period signature_key signature_job s1 w1 in
        let g2 =
          other-IsGated signature_key signature_job s1 w1 signature_other
            (other-IsGated hash_key hash_job s w hash_other g) in
        let failing =
          record_precondition_failure_job c services monthly_digest_generate period
            (codes "ledger_verification_precondition_failed") in
        elim (Bool-cases (not (is_ok hash_result) || not (is_ok signature_result))) [
          | inl bad ↦
              rw (run_monthly_jobs, bad)
                (failed-IsGated period (codes "ledger_verification_precondition_failed") _ (
                  other-IsGated (key_of monthly_digest_generate period) failing s2 w2 not_archive
                    g2))
          | inr good ↦
              let (hash_ok, signature_ok) =
                both_ok (is_ok hash_result) (is_ok signature_result) good in
              rw (run_monthly_jobs, good)
                (digest-IsGated s2 w2
                  (completed-keeps signature_key signature_job s1 w1 _
                    (completed_self hash_key hash_job s w hash_ok))
                  (completed_self signature_key signature_job s1 w1 signature_ok) g2)
        ]
