-- ===== src/Archive/Retry/Attempts.antt =====
-- How often the operation is run, and what ends it.
use mipsorcu.Archive.Backend.{S3BackendError, is_retriable}
use mipsorcu.Archive.Retry.{Later, attempts_left, rounds, run_with_backoff, backoff_delay}
use mathlib.Core.Logic.{dif_pos, dif_neg}
use mathlib.Core.WellFounded.{Acc}
use native.Mathlib.Bridge.{le_prop}
use native.Mathlib.Decide.{dec_le}
use mipsorcu.Prelude.{
  ℕ, ◌+◌, ◌≤◌, ◌≡◌, ◌⊎◌, true, false, Result, ok, err, List, [], ◌∷◌, arith, inl, inr, Result-cases,
  Bool-cases,
}

module _ {ℓ} {T : Type ℓ} (max_retries base : ℕ) (operation : ℕ → Result S3BackendError T) where
  -- The attempts from a number on: the answer of the last one, and the delays before the later ones.
  pub data Attempts : ℕ → Result S3BackendError T → List ℕ → Type ℓ where
    succeeds :
        {i : ℕ} {value : T} → i ≤ max_retries → operation i ≡ ok value → Attempts i (ok value) []
    gives_up :
        {i : ℕ} {error : S3BackendError}
        → i ≤ max_retries
        → operation i ≡ err error
        → (is_retriable error ≡ false) ⊎ (i ≡ max_retries)
        → Attempts i (err error) []
    retries :
        {i : ℕ} {error : S3BackendError} {result : Result S3BackendError T} {delays : List ℕ}
        → operation i ≡ err error
        → is_retriable error ≡ true
        → Attempts (i + 1) result delays
        → Attempts i result (backoff_delay base i ∷ delays)

  rounds-Attempts :
      (i : ℕ) (w : Acc (Later max_retries) i)
      → i ≤ max_retries
      → Attempts i
          (rounds max_retries base operation i w).0
          (rounds max_retries base operation i w).1
  unfolding rounds
  rounds-Attempts i (Acc.intro _ later) p = elim (Result-cases (operation i)) [
    | inl (value, q) ↦ rw (rounds, q) (succeeds p q)
    | inr (error, q) ↦ elim (Bool-cases (is_retriable error)) [
      | inr r ↦ rw (rounds, q, r) (gives_up p q (inl r))
      | inl r ↦ elim (dec_le max_retries i) [
        | yes last ↦
            rw (rounds, q, r, dif_pos (dec_le max_retries i) le_prop last)
              (gives_up p q (inr (omega arith)))
        | no below ↦
            rw (rounds, q, r, dif_neg (dec_le max_retries i) below)
              (retries q r (rounds-Attempts (i + 1) (later (i + 1) (omega arith)) (omega arith)))
      ]
    ]
  ]

  -- `run_with_backoff` ends within `max_retries + 1` attempts: it returns the answer of the last one,
  -- each before it having failed with a retriable error and been followed by its delay; the last one
  -- succeeded, or failed with an error that is not retriable, or was number `max_retries`.
  pub run_with_backoff-Attempts :
      Attempts 0
        (run_with_backoff max_retries base operation).0
        (run_with_backoff max_retries base operation).1
  unfolding run_with_backoff
  run_with_backoff-Attempts = rounds-Attempts 0 (attempts_left max_retries 0) (omega arith)
