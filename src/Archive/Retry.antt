-- ===== src/Archive/Retry.antt =====
-- src/archive/s3/retry.rs: an operation that is tried again after an exponential delay. A `Duration` is
-- its number of nanoseconds, and the delays that were slept are part of the result.
pub mod Attempts
pub mod Delay
use mipsorcu.Archive.Backend.{S3BackendError, is_retriable}
use mipsorcu.Ledger.Types.{u64_max}
use mathlib.Core.Logic.{dite}
use mathlib.Core.WellFounded.{Acc}
use native.Mathlib.Decide.{dec_le}
use mipsorcu.Prelude.{
  arith, ◌-◌, ◌<◌, ℕ, zero, suc, ◌+◌, ◌*◌, ◌^◌, Bool, not, ◌||◌, Option, none, some, Result, ok,
  err, List, [], ◌∷◌, ltb, leb, if◌then◌else◌,
}

-- `1u64.checked_shl(attempt).unwrap_or(u64::MAX)`
unfoldable pub multiplier : ℕ → ℕ
multiplier attempt = if ltb attempt 64 then 2 ^ attempt else u64_max

-- `u64::checked_mul`, `None` as `u64::MAX`
unfoldable pub mul_or_max : ℕ → ℕ → ℕ
mul_or_max a b = if leb (a * b) u64_max then a * b else u64_max

-- `backoff_delay`; a base that is no `u64` gives `u64::MAX`
unfoldable pub backoff_delay : ℕ → ℕ → ℕ
unfolding multiplier mul_or_max
backoff_delay base attempt =
    if leb base u64_max then mul_or_max base (multiplier attempt) else u64_max

-- `attempt += 1` leaves fewer attempts.
abbrev pub Later : ℕ → ℕ → ℕ → Type 0
Later max_retries j i = max_retries - j < max_retries - i

Later-below : (max_retries n i : ℕ) → max_retries - i < n → Acc (Later max_retries) i
Later-below max_retries zero i h = absurd (omega arith)
Later-below max_retries (suc n) i h =
    Acc.intro i (λ j later. Later-below max_retries n j (omega arith))

unfoldable pub attempts_left : (max_retries i : ℕ) → Acc (Later max_retries) i
unfolding Later-below
attempts_left max_retries i = Later-below max_retries (suc (max_retries - i)) i (omega arith)

module _ {ℓ} {T : Type ℓ} (max_retries base : ℕ) (operation : ℕ → Result S3BackendError T) where
  abbrev Answer : Type ℓ
  Answer = Result S3BackendError T × List ℕ

  abbrev slept : ℕ → Answer → Answer
  slept delay (result, delays) = (result, delay ∷ delays)

  -- The loop from an attempt on. It goes round again only where the guard has shown that the attempt
  -- is below `max_retries`.
  unfoldable pub rounds : (attempt : ℕ) → Acc (Later max_retries) attempt → Answer
  unfolding is_retriable backoff_delay dec_le
  rounds attempt (Acc.intro _ later) = elim (operation attempt) [
    | ok value ↦ (ok value, [])
    | err error ↦
        if not (is_retriable error)
        then (err error, [])
        else dite (dec_le max_retries attempt) (λ last. (err error, []))
            (λ below.
              slept (backoff_delay base attempt)
                (rounds (attempt + 1) (later (attempt + 1) (omega arith))))
  ]

  -- `run_with_backoff`: the i-th call of the operation is `operation i`; the delays are in the answer
  unfoldable pub run_with_backoff : Answer
  unfolding rounds attempts_left
  run_with_backoff = rounds 0 (attempts_left max_retries 0)
