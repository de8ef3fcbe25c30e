-- ===== src/Scheduler/Once.antt =====
-- Where no lock is held, a job is skipped for its period only, and no lock is left.

use mipsorcu.Prelude.{
  ◌≡◌, refl, Text, true, false, Option, none, some, Result, ok, err, List, sym, ap, ◌∙◌, Bool-cases,
  Result-cases, inl, inr, if◌then◌else◌,
}
use mipsorcu.Scheduler.{
  ScheduledJobName, ledger_hash_chain_full_verify, ledger_signature_full_verify,
  monthly_digest_generate, archive_export, restore_test, signature_key_review_reminder,
  auditor_permission_review_reminder, JobRunKey, SchedulerRuntimeState, contains_key, insert_key,
  set_lock, drop_guard, lock_for, Job, finish_run, run_once_per_period, new_runtime_state,
}
use mipsorcu.Scheduler.Completed.{entered}

-- A run for a period without locks: nothing where the key is completed, and else the job, whose
-- success completes the key.
unfoldable pub once :
    {W T : Type 0}
    → JobRunKey
    → Job W T
    → SchedulerRuntimeState
    → W
    → Result Text (Option T) × SchedulerRuntimeState × W
once key run s w = if contains_key s.completed key then (ok none, s, w) else elim (run w).0 [
  | ok output ↦ (ok (some output), record s { completed = insert_key key s.completed }, (run w).1)
  | err error_code ↦ (err error_code, s, (run w).1)
]

-- No lock is held.
unfoldable pub IsFree : SchedulerRuntimeState → Type 0
IsFree s = (job_name : ScheduledJobName) → lock_for s job_name ≡ false

pub new-IsFree : IsFree new_runtime_state
unfolding IsFree lock_for new_runtime_state
new-IsFree ledger_hash_chain_full_verify = refl
new-IsFree ledger_signature_full_verify = refl
new-IsFree monthly_digest_generate = refl
new-IsFree archive_export = refl
new-IsFree restore_test = refl
new-IsFree signature_key_review_reminder = refl
new-IsFree auditor_permission_review_reminder = refl

lock_for-completed :
    (s : SchedulerRuntimeState) (keys : List JobRunKey) (job_name : ScheduledJobName)
    → lock_for (record s { completed = keys }) job_name ≡ lock_for s job_name
unfolding lock_for
lock_for-completed s keys ledger_hash_chain_full_verify = refl
lock_for-completed s keys ledger_signature_full_verify = refl
lock_for-completed s keys monthly_digest_generate = refl
lock_for-completed s keys archive_export = refl
lock_for-completed s keys restore_test = refl
lock_for-completed s keys signature_key_review_reminder = refl
lock_for-completed s keys auditor_permission_review_reminder = refl

drop_guard-set_lock :
    (s : SchedulerRuntimeState) (job_name : ScheduledJobName)
    → lock_for s job_name ≡ false
    → drop_guard (set_lock s job_name true) job_name ≡ s
unfolding drop_guard set_lock lock_for
drop_guard-set_lock s ledger_hash_chain_full_verify h =
    ap (λ b. record s { hash_chain_lock = b }) (sym h)
drop_guard-set_lock s ledger_signature_full_verify h =
    ap (λ b. record s { signature_lock = b }) (sym h)
drop_guard-set_lock s monthly_digest_generate h = ap (λ b. record s { digest_lock = b }) (sym h)
drop_guard-set_lock s archive_export h = ap (λ b. record s { archive_lock = b }) (sym h)
drop_guard-set_lock s restore_test h = ap (λ b. record s { restore_lock = b }) (sym h)
drop_guard-set_lock s signature_key_review_reminder h =
    ap (λ b. record s { signature_review_lock = b }) (sym h)
drop_guard-set_lock s auditor_permission_review_reminder h =
    ap (λ b. record s { auditor_review_lock = b }) (sym h)

module _ {W T : Type 0} (key : JobRunKey) (run : Job W T) (s : SchedulerRuntimeState) (w : W) where
  pub run_once_per_period-once : IsFree s → run_once_per_period key run s w ≡ once key run s w
  unfolding IsFree run_once_per_period once finish_run
  run_once_per_period-once free = elim (Bool-cases (contains_key s.completed key)) [
    | inl there ↦ rw (run_once_per_period, once, there) refl
    | inr absent ↦ elim (Result-cases (run w).0) [
      | inl (v, e) ↦
          rw
            (
              entered key run s w absent (free key.job_name),
              once,
              absent,
              e,
              drop_guard-set_lock s key.job_name (free key.job_name),
            )
            refl
      | inr (x, e) ↦
          rw
            (
              entered key run s w absent (free key.job_name),
              once,
              absent,
              e,
              drop_guard-set_lock s key.job_name (free key.job_name),
            )
            refl
    ]
  ]

  once-IsFree : IsFree s → IsFree (once key run s w).1
  unfolding once IsFree
  once-IsFree free job_name = elim (Bool-cases (contains_key s.completed key)) [
    | inl there ↦ rw (once, there) (free job_name)
    | inr absent ↦ elim (Result-cases (run w).0) [
      | inl (v, e) ↦
          rw (once, absent, e)
            (lock_for-completed s (insert_key key s.completed) job_name ∙ free job_name)
      | inr (x, e) ↦ rw (once, absent, e) (free job_name)
    ]
  ]

  pub run-IsFree : IsFree s → IsFree (run_once_per_period key run s w).1
  run-IsFree free = rw (run_once_per_period-once free) (once-IsFree free)
