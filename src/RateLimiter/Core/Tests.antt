-- ===== src/RateLimiter/Core/Tests.antt =====
-- The limiter at concrete inputs: a Redis that cannot be reached, and one that can.
use tr_shared_lib.Base.{ℕ, ◌+◌, ◌≡◌, refl, true, false, none, [], ◌∷◌, length, any, map}
use tr_shared_lib.Base.Effect.{ok, redis_error, pure, raise}
use tr_shared_lib.RateLimiter.Schemas.{
  fixed_window, fail_open, fail_closed, RateLimitConfig, RateLimitInfo,
}
use tr_shared_lib.RateLimiter.Algorithms.{LimiterRedis, check_by}
use tr_shared_lib.RateLimiter.Core.{World, client, check, check_window}
use tr_shared_lib.RateLimiter.Core.Dependency.{Admission, Told, dependency, dependency_lem}
use tr_shared_lib.RateLimiter.Core.Decisions.{
  is_denied, denial, passage, check_flag, check_fail_closed, check_fail_open,
}

abbrev unreachable : LimiterRedis ℕ
unreachable = record {
  connect = raise redis_error;
  incr = λ _. raise redis_error;
  expire = λ _ _. raise redis_error;
  ttl = λ _. raise redis_error;
  get = λ _. raise redis_error;
  delete = λ _. raise redis_error;
  zremrangebyscore = λ _ _ _. raise redis_error;
  zadd = λ _ _. raise redis_error;
  zcard = λ _. raise redis_error;
  time = λ now. (ok now, now);
}

-- One counter for every key, whose time to live is always 30.
abbrev counting : LimiterRedis ℕ
counting = record {
  connect = pure tt;
  incr = λ _ n. (ok (n + 1), n + 1);
  expire = λ _ _. pure tt;
  ttl = λ _. pure 30;
  get = λ _ n. (ok n, n);
  delete = λ _ n. (ok 1, 0);
  zremrangebyscore = λ _ _ _. pure tt;
  zadd = λ _ _ n. (ok tt, n + 1);
  zcard = λ _ n. (ok n, n);
  time = pure 0;
}

abbrev two_windows : RateLimitConfig
two_windows = record {
  windows =
      record { limit = 1; window_seconds = 60 } ∷ record { limit = 9; window_seconds = 5 } ∷ [];
  algorithm = fixed_window;
  fail_mode = fail_closed;
}

abbrev start : World ℕ
start = record {
  outside = 1;
  limiter = record { source = client; key_prefix = "p"; memory_fallback = none };
}

abbrev info : RateLimitInfo
info = record {
  results =
      record { allowed = false; limit = 1; remaining = 0; reset_at = 30; retry_after = 30 }
      ∷ record { allowed = true; limit = 9; remaining = 6; reset_at = 30; retry_after = 0 }
      ∷ [];
  is_blocked = true;
}

second_call : (check counting (pure true) "k" two_windows start).0 ≡ ok info
unfolding check check_by check_window
second_call = refl

check_flag_example : (length info.results ≡ 2) × (info.is_blocked ≡ any is_denied info.results)
check_flag_example = check_flag counting (pure true) "k" two_windows start info second_call

check_fail_closed_example :
    check unreachable (pure true) "k" two_windows start
    ≡ (ok (record { results = map denial two_windows.windows; is_blocked = true }), start)
unfolding check_by
check_fail_closed_example =
    check_fail_closed unreachable (pure true) "k" two_windows start (λ e. cc) refl (λ _ _ _ _. refl)

abbrev lenient : RateLimitConfig
lenient = record two_windows { fail_mode = fail_open }

check_fail_open_example :
    check unreachable (pure true) "k" lenient start
    ≡ (ok (record { results = map passage lenient.windows; is_blocked = false }), start)
unfolding check_by
check_fail_open_example =
    check_fail_open unreachable (pure true) "k" lenient start (λ e. cc) refl refl (λ _ _ _ _. refl)

dependency_lem_example :
    (a : Admission) × ((dependency counting (pure true) (λ p. p) two_windows "api" "7" "/x" start).0
      ≡ ok a)
    × Told info.results a
unfolding check check_by check_window
dependency_lem_example =
    dependency_lem counting (pure true) (λ p. p) two_windows "api" "7" "/x" start info refl
