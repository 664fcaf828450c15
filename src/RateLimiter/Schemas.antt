-- ===== src/RateLimiter/Schemas.antt =====
-- src/tr_shared/rate_limiter/schemas.py. Instants are microseconds since the epoch: Python's
-- `time.time()` is a float, and `int(…)` of one is the division below, rounded down.
use tr_shared_lib.Base.{ℕ, ◌/◌, ◌*◌, Bool, List}

pub data Algorithm : Type 0 where
  fixed_window sliding_window : Algorithm

pub data FailMode : Type 0 where
  fail_open fail_closed : FailMode

pub record WindowConfig : Type 0 where
  pub limit : ℕ
  pub window_seconds : ℕ

-- The fields that the limiter reads; `key_prefix` and `methods` are for its callers.
pub record RateLimitConfig : Type 0 where
  pub windows : List WindowConfig
  pub algorithm : Algorithm
  pub fail_mode : FailMode

pub record RateLimitResult : Type 0 where
  pub allowed : Bool
  pub limit : ℕ
  pub remaining : ℕ
  pub reset_at : ℕ
  pub retry_after : ℕ

pub record RateLimitInfo : Type 0 where
  pub results : List RateLimitResult
  pub is_blocked : Bool

-- `int(instant)`
abbrev pub to_seconds : ℕ → ℕ
to_seconds instant = instant / 1000000

-- so many seconds as a distance of instants
abbrev pub of_seconds : ℕ → ℕ
of_seconds n = n * 1000000
