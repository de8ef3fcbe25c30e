-- ===== src/Archive/Retry/Delay.antt =====
-- The delay between two attempts.
use native.Mathlib.Nat.{mul-le-mul_left, one-le-pow, pow-le-pow_right}
use mipsorcu.Archive.Retry.{multiplier, mul_or_max, backoff_delay}
use mipsorcu.Ledger.Types.{u64_max}
use mipsorcu.Prelude.{ℕ, ◌*◌, ◌^◌, ◌≤◌, ◌≡◌, min, arith}

-- The delay before the attempt after number `attempt` is the base doubled that many times, or the
-- largest `u64` where that is smaller: the shift and the product never wrap.
pub backoff_delay_lem :
    (base attempt : ℕ) → backoff_delay base attempt ≡ min (base * 2 ^ attempt) u64_max
unfolding backoff_delay multiplier mul_or_max
backoff_delay_lem base attempt = ground (
  arith,
  mul-le-mul_left base (one-le-pow attempt 2 (omega arith)),
  λ (h : 64 ≤ attempt). mul-le-mul_left base (pow-le-pow_right {n = 2} (omega arith) h),
)
