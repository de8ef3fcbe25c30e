-- ===== src/Scheduler/Digests.antt =====
-- The digest that a job ends with is for the job's period.
use mipsorcu.Crates.{Crates}
use mipsorcu.Prelude.{◌≡◌, Text, codes, ok, arith, Bool-cases, Result-cases, inl, inr, text_eq}
use mipsorcu.Scheduler.{ScheduledJobName}
use mipsorcu.Scheduler.Jobs.{
  Services, record_failure, finish_digest, existing_digest, recover_digest,
  run_monthly_digest_generate_job,
}

module _ {W D : Type 0} (c : Crates) (services : Services W D) where
  -- A digest is for the period that it is generated or fetched for.
  pub record DigestLaws : Type 0 where
    pub generated :
        (period : Text) (w : W) (d : D)
        → (services.generate_digest period w).0 ≡ ok d
        → services.period_of d ≡ period
    pub fetched :
        (period : Text) (w : W) (d : D)
        → (services.fetch_signed_digest period w).0 ≡ ok d
        → services.period_of d ≡ period

  pub failure-never-ok :
      {T : Type 0} (job_name : ScheduledJobName) (period error_code : Text) (w : W) (v : T)
      → (record_failure c services job_name period error_code w).0 ≡ ok v
      → ⊥
  unfolding record_failure
  failure-never-ok job_name period error_code w v h = ground arith

  finish_digest_lem :
      (period : Text) (digest : D) (w : W) (d : D)
      → (finish_digest c services period digest w).0 ≡ ok d
      → digest ≡ d
  unfolding finish_digest
  finish_digest_lem period digest w d h = ground arith

  module _ (laws : DigestLaws) (period : Text) where
    existing_of :
        (w : W) (d : D)
        → (existing_digest c services period w).0 ≡ ok d
        → services.period_of d ≡ period
    unfolding existing_digest
    existing_of w d h = elim (Result-cases (services.fetch_signed_digest period w).0) [
      | inl (found, e) ↦
          rw (← finish_digest_lem period found _ d (rw (existing_digest, e) at h))
            (laws.fetched period w found e)
      | inr (x, e) ↦ absurd (failure-never-ok _ period _ _ d (rw (existing_digest, e) at h))
    ]

    recovered_of :
        (error_code : Text) (w : W) (d : D)
        → (recover_digest c services period error_code w).0 ≡ ok d
        → services.period_of d ≡ period
    unfolding recover_digest
    recovered_of error_code w d h =
        elim (Bool-cases (text_eq error_code (codes "monthly_digest_duplicate"))) [
          | inl duplicate ↦ existing_of w d (rw (recover_digest, duplicate) at h)
          | inr other ↦ absurd (failure-never-ok _ period _ _ d (rw (recover_digest, other) at h))
        ]

    pub digest_of :
        (w : W) (d : D)
        → (run_monthly_digest_generate_job c services period w).0 ≡ ok d
        → services.period_of d ≡ period
    unfolding run_monthly_digest_generate_job
    digest_of w d h = elim (Result-cases (services.new_request w).0) [
      | inr (x, e) ↦ absurd (ground (arith, e, h))
      | inl (_, e) ↦
          elim (Result-cases (services.generate_digest period (services.new_request w).1).0) [
            | inl (digest, g) ↦
                rw
                  (← finish_digest_lem period digest _ d
                    (rw (run_monthly_digest_generate_job, e, g) at h))
                  (laws.generated period _ digest g)
            | inr (x, g) ↦ recovered_of x _ d (rw (run_monthly_digest_generate_job, e, g) at h)
          ]
    ]
