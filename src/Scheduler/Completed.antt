-- ===== src/Scheduler/Completed.antt =====
-- What a run under a key does to the completed keys.
use mipsorcu.Prelude.{
  some, ◌≡◌, refl, ◌⊎◌, inl, inr, Bool, true, false, ok, is_ok, text_eq_refl, List, arith, ap, ◌∙◌,
  Bool-cases, Result-cases,
}
use mipsorcu.Scheduler.{
  ScheduledJobName, ledger_hash_chain_full_verify, ledger_signature_full_verify,
  monthly_digest_generate, archive_export, restore_test, signature_key_review_reminder,
  auditor_permission_review_reminder, JobRunKey, key_eq, job_as_str, SchedulerRuntimeState,
  contains_key, insert_key, set_lock, try_enter, drop_guard, lock_for, Job, finish_run,
  run_once_per_period,
}

pub key_eq_refl : (k : JobRunKey) → key_eq k k ≡ true
unfolding key_eq
key_eq_refl k = rw (text_eq_refl (job_as_str k.job_name), text_eq_refl k.period_key) refl

insert-keeps :
    (key k : JobRunKey) (keys : List JobRunKey)
    → contains_key keys k ≡ true
    → contains_key (insert_key key keys) k ≡ true
unfolding insert_key contains_key
insert-keeps key k keys h = ground arith

insert-only :
    (key k : JobRunKey) (keys : List JobRunKey)
    → contains_key (insert_key key keys) k ≡ true
    → (contains_key keys k ≡ true) ⊎ (key_eq key k ≡ true)
unfolding insert_key contains_key
insert-only key k keys h = ground arith

insert_self :
    (key : JobRunKey) (keys : List JobRunKey) → contains_key (insert_key key keys) key ≡ true
unfolding insert_key contains_key
insert_self key keys = ground (arith, key_eq_refl key)

set_lock-completed :
    (s : SchedulerRuntimeState) (job : ScheduledJobName) (value : Bool)
    → (set_lock s job value).completed ≡ s.completed
unfolding set_lock
set_lock-completed s ledger_hash_chain_full_verify value = refl
set_lock-completed s ledger_signature_full_verify value = refl
set_lock-completed s monthly_digest_generate value = refl
set_lock-completed s archive_export value = refl
set_lock-completed s restore_test value = refl
set_lock-completed s signature_key_review_reminder value = refl
set_lock-completed s auditor_permission_review_reminder value = refl

released :
    (s : SchedulerRuntimeState) (job : ScheduledJobName)
    → (drop_guard (set_lock s job true) job).completed ≡ s.completed
unfolding drop_guard
released s job = set_lock-completed (set_lock s job true) job false ∙ set_lock-completed s job true

pub entered :
    {W T : Type 0} (key : JobRunKey) (run : Job W T) (s : SchedulerRuntimeState) (w : W)
    → contains_key s.completed key ≡ false
    → lock_for s key.job_name ≡ false
    → run_once_per_period key run s w ≡ (
      (finish_run (drop_guard (set_lock s key.job_name true) key.job_name) key (run w).0).0,
      (finish_run (drop_guard (set_lock s key.job_name true) key.job_name) key (run w).0).1,
      (run w).1,
    )
unfolding run_once_per_period try_enter
entered key run s w absent free = rw (run_once_per_period, absent, free) refl

-- Either nothing is added, and then an answer without error means that the key was there; or the job
-- was run with success, and its key is added.
pub IsOutcome : {W T : Type 0} → JobRunKey → Job W T → SchedulerRuntimeState → W → Type 0
IsOutcome {T = T} key run s w =
    (((run_once_per_period key run s w).1.completed ≡ s.completed)
      × (is_ok (run_once_per_period key run s w).0 ≡ true → contains_key s.completed key ≡ true))
    ⊎ (((run_once_per_period key run s w).1.completed ≡ insert_key key s.completed)
        × (v : T) × ((run w).0 ≡ ok v))

pub run_once_per_period-IsOutcome :
    {W T : Type 0} (key : JobRunKey) (run : Job W T) (s : SchedulerRuntimeState) (w : W)
    → IsOutcome key run s w
unfolding IsOutcome run_once_per_period try_enter drop_guard finish_run
run_once_per_period-IsOutcome key run s w = elim (Bool-cases (contains_key s.completed key)) [
  | inl there ↦ rw there (inl (refl, λ _. refl))
  | inr absent ↦ elim (Bool-cases (lock_for s key.job_name)) [
    | inl held ↦ rw (absent, held) (inl (refl, λ e. cc))
    | inr free ↦ elim (Result-cases (run w).0) [
      | inl (v, e) ↦
          rw (entered key run s w absent free, e)
            (inr (ap (insert_key key) (released s key.job_name), v, refl))
      | inr (x, e) ↦
          rw (entered key run s w absent free, e) (inl (released s key.job_name, λ failed. cc))
    ]
  ]
]

module _ {W T : Type 0} (key : JobRunKey) (run : Job W T) (s : SchedulerRuntimeState) (w : W) where
  pub completed-keeps :
      (k : JobRunKey)
      → contains_key s.completed k ≡ true
      → contains_key (run_once_per_period key run s w).1.completed k ≡ true
  unfolding IsOutcome
  completed-keeps k h = elim (run_once_per_period-IsOutcome key run s w) [
    | inl (same, _) ↦ rw same h
    | inr (added, _, _) ↦ rw added (insert-keeps key k s.completed h)
  ]

  pub completed-only :
      (k : JobRunKey)
      → contains_key (run_once_per_period key run s w).1.completed k ≡ true
      → (contains_key s.completed k ≡ true) ⊎ ((key_eq key k ≡ true) × (v : T) × ((run w).0 ≡ ok v))
  unfolding IsOutcome
  completed-only k h = elim (run_once_per_period-IsOutcome key run s w) [
    | inl (same, _) ↦ inl (rw same at h)
    | inr (added, v, done) ↦ elim (insert-only key k s.completed (rw added at h)) [
      | inl before ↦ inl before
      | inr same ↦ inr (same, v, done)
    ]
  ]

  pub completed_self :
      is_ok (run_once_per_period key run s w).0 ≡ true
      → contains_key (run_once_per_period key run s w).1.completed key ≡ true
  unfolding IsOutcome
  completed_self h = elim (run_once_per_period-IsOutcome key run s w) [
    | inl (same, there) ↦ rw same (there h)
    | inr (added, _, _) ↦ rw added (insert_self key s.completed)
  ]

  pub answer-some : (v : T) → (run_once_per_period key run s w).0 ≡ ok (some v) → (run w).0 ≡ ok v
  unfolding run_once_per_period finish_run
  answer-some v h = ground arith
