-- ===== src/RateLimiter/Algorithms.antt =====
-- src/tr_shared/rate_limiter/algorithms.py and lua_scripts.py. A script is atomic: it is one `eval`,
-- written here over the Redis commands that it calls. Redis and the clock are a parameter.
use Prim.Native.Nat.{max}
use tr_shared_lib.Base.{ℕ, ◌+◌, ◌-◌, String, Bool, not, List, ltb, ◌==◌, if◌then◌else◌}
use tr_shared_lib.Base.Effect.{Effect, pure, when, ◌>>=◌, ◌>>◌}
use tr_shared_lib.RateLimiter.Schemas.{
  Algorithm, fixed_window, sliding_window, RateLimitResult, to_seconds, of_seconds,
}

-- The commands that the limiter sends, on a state `R` that holds the keys of Redis and the time.
-- Each may raise. `connect` is what can fail before a script runs. A negative answer of `ttl` (no
-- key, no expiry) is read as 0: the code only takes `max(ttl, 1)` of it.
pub record LimiterRedis (R : Type 0) : Type 0 where
  pub connect : Effect R (Unit {0})
  pub incr : String → Effect R ℕ
  pub expire : String → ℕ → Effect R (Unit {0})
  pub ttl : String → Effect R ℕ
  pub get : String → Effect R ℕ
  pub delete : List String → Effect R ℕ
  pub zremrangebyscore : String → ℕ → ℕ → Effect R (Unit {0})
  pub zadd : String → ℕ → Effect R (Unit {0})
  pub zcard : String → Effect R ℕ
  pub time : Effect R ℕ

module _ {R : Type 0} (redis : LimiterRedis R) where
  -- `FIXED_WINDOW_LUA`: the count, whether it is over, and the time to live
  unfoldable pub fixed_window_lua : String → ℕ → ℕ → Effect R (ℕ × Bool × ℕ)
  fixed_window_lua key limit ttl = do
    count ← redis.incr key
    when (count == 1) (redis.expire key ttl)
    remaining_ttl ← redis.ttl key
    pure (count, ltb limit count, remaining_ttl)

  -- `SLIDING_WINDOW_LUA`; the random part of the member's name is in `zadd`
  unfoldable pub sliding_window_lua : String → ℕ → ℕ → ℕ → Effect R (ℕ × Bool)
  sliding_window_lua key now window_size limit = do
    redis.zremrangebyscore key 0 (now - of_seconds window_size)
    redis.zadd key now
    count ← redis.zcard key
    redis.expire key window_size
    pure (count, ltb limit count)

  -- `FixedWindowAlgorithm.check`
  unfoldable pub check_fixed_window : String → ℕ → ℕ → Effect R RateLimitResult
  unfolding fixed_window_lua
  check_fixed_window key limit window_seconds = do
    redis.connect
    (count, is_over, ttl) ← fixed_window_lua key limit window_seconds
    now ← redis.time
    pure (record {
      allowed = not is_over;
      limit = limit;
      remaining = limit - count;
      reset_at = to_seconds now + max ttl 1;
      retry_after = if is_over then max 1 ttl else 0;
    })

  -- `SlidingWindowAlgorithm.check`
  unfoldable pub check_sliding_window : String → ℕ → ℕ → Effect R RateLimitResult
  unfolding sliding_window_lua
  check_sliding_window key limit window_seconds = do
    now ← redis.time
    redis.connect
    (count, is_over) ← sliding_window_lua key now window_seconds limit
    pure (record {
      allowed = not is_over;
      limit = limit;
      remaining = limit - count;
      reset_at = to_seconds now + window_seconds;
      retry_after = if is_over then window_seconds else 0;
    })

  -- `_ALGORITHMS[cfg.algorithm].check`
  unfoldable pub check_by : Algorithm → String → ℕ → ℕ → Effect R RateLimitResult
  unfolding check_fixed_window check_sliding_window
  check_by fixed_window = check_fixed_window
  check_by sliding_window = check_sliding_window
