-- ===== src/Events/RetryPolicy.antt =====
-- src/tr_shared/events/retry_policy.py.
use Prim.Native.Nat.{min}
use tr_shared_lib.Base.{ℕ, ◌^◌, ◌≤◌, arith}
use native.Mathlib.Nat.{pow-le-pow_right}

pub record RetryPolicy : Type 0 where
  pub max_retries : ℕ
  pub backoff_base : ℕ
  pub max_backoff : ℕ

unfoldable pub delay_for : RetryPolicy → ℕ → ℕ
delay_for p attempt = min (p.backoff_base ^ attempt) p.max_backoff

-- With a positive base no later attempt waits less than an earlier one, and none waits longer than
-- the cap.
delay_for_mono :
    (p : RetryPolicy) (m n : ℕ)
    → 1 ≤ p.backoff_base
    → m ≤ n
    → (delay_for p m ≤ delay_for p n) × (delay_for p n ≤ p.max_backoff)
unfolding delay_for
delay_for_mono p m n h le = (omega (arith, pow-le-pow_right {n = p.backoff_base} h le), omega arith)
