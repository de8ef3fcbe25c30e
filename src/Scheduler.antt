-- ===== src/Scheduler.antt =====
-- The jobs of src/server/scheduler.rs: their names, locks and periods, `run_once_per_period`, the due
-- times, and the loop. The clock's time is given by its calendar fields. The waiting of the loop,
-- for the clock and the shutdown signal, is left out.
pub mod Rows
pub mod Jobs
pub mod Due
pub mod Completed
pub mod Digests
pub mod Gated
pub mod Loop
pub mod Once
pub mod Locks
use mipsorcu.Ledger.Payload.Fields.{is_year_month}
use mipsorcu.Prelude.{
  ℕ, ◌+◌, ◌-◌, ◌/◌, ◌%◌, Bool, true, false, not, ◌&&◌, ◌||◌, Text, codes, Option, none, some,
  Result, ok, err, is_ok, List, [], ◌∷◌, leb, ◌==◌, text_eq, if◌then◌else◌, ◌++◌,
}

pub data ScheduledJobName : Type 0 where
  ledger_hash_chain_full_verify ledger_signature_full_verify : ScheduledJobName
  monthly_digest_generate archive_export restore_test : ScheduledJobName
  signature_key_review_reminder auditor_permission_review_reminder : ScheduledJobName

unfoldable pub job_as_str : ScheduledJobName → Text
job_as_str ledger_hash_chain_full_verify = codes "ledger_hash_chain_full_verify"
job_as_str ledger_signature_full_verify = codes "ledger_signature_full_verify"
job_as_str monthly_digest_generate = codes "monthly_digest_generate"
job_as_str archive_export = codes "archive_export"
job_as_str restore_test = codes "restore_test"
job_as_str signature_key_review_reminder = codes "signature_key_review_reminder"
job_as_str auditor_permission_review_reminder = codes "auditor_permission_review_reminder"

pub record JobRunKey : Type 0 where
  pub job_name : ScheduledJobName
  pub period_key : Text

-- equality of keys, the jobs by their names
unfoldable pub key_eq : JobRunKey → JobRunKey → Bool
unfolding text_eq job_as_str
key_eq a b =
    text_eq (job_as_str a.job_name) (job_as_str b.job_name) && text_eq a.period_key b.period_key

-- The runs that have succeeded, and the flag of each lock.
pub record SchedulerRuntimeState : Type 0 where
  pub completed : List JobRunKey
  pub hash_chain_lock : Bool
  pub signature_lock : Bool
  pub digest_lock : Bool
  pub archive_lock : Bool
  pub restore_lock : Bool
  pub signature_review_lock : Bool
  pub auditor_review_lock : Bool

unfoldable pub new_runtime_state : SchedulerRuntimeState
new_runtime_state = record {
  completed = [];
  hash_chain_lock = false;
  signature_lock = false;
  digest_lock = false;
  archive_lock = false;
  restore_lock = false;
  signature_review_lock = false;
  auditor_review_lock = false;
}

-- `lock_for(job_name).running`
unfoldable pub lock_for : SchedulerRuntimeState → ScheduledJobName → Bool
lock_for s ledger_hash_chain_full_verify = s.hash_chain_lock
lock_for s ledger_signature_full_verify = s.signature_lock
lock_for s monthly_digest_generate = s.digest_lock
lock_for s archive_export = s.archive_lock
lock_for s restore_test = s.restore_lock
lock_for s signature_key_review_reminder = s.signature_review_lock
lock_for s auditor_permission_review_reminder = s.auditor_review_lock

-- `running.store(value)` of that lock
unfoldable pub set_lock : SchedulerRuntimeState → ScheduledJobName → Bool → SchedulerRuntimeState
set_lock s ledger_hash_chain_full_verify value = record s { hash_chain_lock = value }
set_lock s ledger_signature_full_verify value = record s { signature_lock = value }
set_lock s monthly_digest_generate value = record s { digest_lock = value }
set_lock s archive_export value = record s { archive_lock = value }
set_lock s restore_test value = record s { restore_lock = value }
set_lock s signature_key_review_reminder value = record s { signature_review_lock = value }
set_lock s auditor_permission_review_reminder value = record s { auditor_review_lock = value }

-- `JobLock::try_enter`, with the state in which the lock is held
unfoldable pub try_enter : SchedulerRuntimeState → ScheduledJobName → Option SchedulerRuntimeState
unfolding lock_for set_lock
try_enter s job_name = if lock_for s job_name then none else some (set_lock s job_name true)

-- `JobLockGuard::drop`
unfoldable pub drop_guard : SchedulerRuntimeState → ScheduledJobName → SchedulerRuntimeState
unfolding set_lock
drop_guard s job_name = set_lock s job_name false

unfoldable pub contains_key : List JobRunKey → JobRunKey → Bool
unfolding key_eq
contains_key [] key = false
contains_key (k ∷ keys) key = key_eq k key || contains_key keys key

-- `HashSet::insert`
unfoldable pub insert_key : JobRunKey → List JobRunKey → List JobRunKey
unfolding contains_key
insert_key key keys = if contains_key keys key then keys else key ∷ keys

-- A job reads and changes the world, and ends with a value or an error code.
abbrev pub Job : Type 0 → Type 0 → Type 0
Job W T = W → Result Text T × W

-- the end of a run that was entered: `completed` gets the key of a success
unfoldable pub finish_run :
    {T : Type 0}
    → SchedulerRuntimeState
    → JobRunKey
    → Result Text T
    → Result Text (Option T) × SchedulerRuntimeState
unfolding insert_key
finish_run s key (ok output) =
    (ok (some output), record s { completed = insert_key key s.completed })
finish_run s key (err error_code) = (err error_code, s)

unfoldable pub run_once_per_period :
    {W T : Type 0}
    → JobRunKey
    → Job W T
    → SchedulerRuntimeState
    → W
    → Result Text (Option T) × SchedulerRuntimeState × W
unfolding contains_key try_enter drop_guard finish_run
run_once_per_period key run s w =
    if contains_key s.completed key then (ok none, s, w) else elim (try_enter s key.job_name) [
      | none ↦ (err (codes "scheduler_job_already_running"), s, w)
      | some held ↦
          let (result, w') = run w in
          let (answer, s') = finish_run (drop_guard held key.job_name) key result in
          (answer, s', w')
    ]

-- the calendar fields of an `OffsetDateTime`, for the years 1 to 9999
pub record Date : Type 0 where
  pub year : ℕ
  pub month : ℕ
  pub day : ℕ
  pub hour : ℕ

unfoldable pub monthly_due : Date → ℕ → ℕ → Bool
monthly_due now monthly_day monthly_hour_utc =
    now.day == monthly_day && leb monthly_hour_utc now.hour

unfoldable pub quarterly_due : Date → ℕ → ℕ → Bool
quarterly_due now monthly_day quarterly_hour_utc =
    (now.month == 1 || now.month == 4 || now.month == 7 || now.month == 10)
    && now.day == monthly_day
    && leb quarterly_hour_utc now.hour

-- the decimal digit of a number below 10
abbrev pub digit : ℕ → ℕ
digit n = b'0' + n

-- `{:04}` of a year and `{:02}` of a month
abbrev pub four_digits : ℕ → Text
four_digits n =
    digit (n / 1000 % 10) ∷ digit (n / 100 % 10) ∷ digit (n / 10 % 10) ∷ digit (n % 10) ∷ []

abbrev pub two_digits : ℕ → Text
two_digits n = digit (n / 10 % 10) ∷ digit (n % 10) ∷ []

-- `MonthlyDigestPeriod::parse`
unfoldable pub parse_period : Text → Option Text
unfolding is_year_month
parse_period value = if is_year_month value then some value else none

-- the year and the month before a date
unfoldable pub month_before : Date → ℕ × ℕ
month_before now = if now.month == 1 then (now.year - 1, 12) else (now.year, now.month - 1)

unfoldable pub previous_month_period : Date → Option Text
unfolding month_before parse_period
previous_month_period now =
    let before = month_before now in
    parse_period (four_digits before.0 ++ codes "-" ++ two_digits before.1)

unfoldable pub quarter_period_key : Date → Text
quarter_period_key now =
    let quarter =
      if leb now.month 3
      then 1
      else if leb now.month 6
      then 2
      else if leb now.month 9
      then 3
      else 4 in
    four_digits now.year ++ codes "-Q" ++ (digit quarter ∷ [])
