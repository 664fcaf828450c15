-- ===== src/RateLimiter/MemoryFallback.antt =====
-- src/tr_shared/rate_limiter/memory_fallback.py. The lock makes a call one step; `now` is the
-- reading of the clock at its start. `max(0, limit - n)` is the truncated difference.
pub mod Cleanup
pub mod Quota
mod Tests
use Prim.Native.Nat.{max}
use tr_shared_lib.Base.{
  ℕ, ◌+◌, ◌-◌, String, Bool, true, false, Option, none, some, List, [], ◌∷◌, length, ltb, leb,
  if◌then◌else◌,
}
use tr_shared_lib.Base.Dict.{Dict, lookup, insert, remove}
use tr_shared_lib.RateLimiter.Schemas.{RateLimitResult, to_seconds, of_seconds}

pub record Bucket : Type 0 where
  pub count : ℕ
  pub reset_time : ℕ

pub record MemoryFallback : Type 0 where
  pub buckets : Dict Bucket
  pub cleanup_threshold : ℕ

-- `DEFAULT_CLEANUP_THRESHOLD`
abbrev pub default_cleanup_threshold : ℕ
default_cleanup_threshold = 10_000

-- `[k for k, v in self._buckets.items() if now > v["reset_time"]]`
unfoldable pub expired_keys : ℕ → Dict Bucket → List String
expired_keys now [] = []
expired_keys now ((k, v) ∷ d) =
    let rest = expired_keys now d in if ltb v.reset_time now then k ∷ rest else rest

-- `for k in expired: del self._buckets[k]`
unfoldable pub delete_all : List String → Dict Bucket → Dict Bucket
delete_all [] d = d
delete_all (k ∷ ks) d = delete_all ks (remove k d)

unfoldable pub cleanup_expired : ℕ → MemoryFallback → MemoryFallback
cleanup_expired now m = record m { buckets = delete_all (expired_keys now m.buckets) m.buckets }

-- `bucket is None or now > bucket["reset_time"]`: a new window begins
abbrev fresh_window : String → ℕ → ℕ → ℕ → MemoryFallback → RateLimitResult × MemoryFallback
fresh_window key limit window_seconds now m =
    let reset_time : ℕ = now + of_seconds window_seconds in
    (
      record {
        allowed = true;
        limit = limit;
        remaining = limit - 1;
        reset_at = to_seconds reset_time;
        retry_after = 0;
      },
      record m { buckets = insert key (record { count = 1; reset_time = reset_time }) m.buckets },
    )

-- the rest of `check`, by what `self._buckets.get(key)` found
unfoldable pub check_bucket :
    String → ℕ → ℕ → ℕ → Option Bucket → MemoryFallback → RateLimitResult × MemoryFallback
check_bucket key limit window_seconds now none m = fresh_window key limit window_seconds now m
check_bucket key limit window_seconds now (some bucket) m =
    if ltb bucket.reset_time now
    then fresh_window key limit window_seconds now m
    else if leb limit bucket.count
    then (
      record {
        allowed = false;
        limit = limit;
        remaining = 0;
        reset_at = to_seconds bucket.reset_time;
        retry_after = max 1 (to_seconds (bucket.reset_time - now));
      },
      m,
    )
    else (
      record {
        allowed = true;
        limit = limit;
        remaining = limit - (bucket.count + 1);
        reset_at = to_seconds bucket.reset_time;
        retry_after = 0;
      },
      record m { buckets = insert key (record bucket { count = bucket.count + 1 }) m.buckets },
    )

-- the cleanup at the start of `check`, made when there are many buckets
unfoldable pub tidy : ℕ → MemoryFallback → MemoryFallback
unfolding cleanup_expired
tidy now m = if ltb m.cleanup_threshold (length m.buckets) then cleanup_expired now m else m

unfoldable pub check : String → ℕ → ℕ → ℕ → MemoryFallback → RateLimitResult × MemoryFallback
unfolding check_bucket tidy
check key limit window_seconds now m =
    let m' = tidy now m in check_bucket key limit window_seconds now (lookup key m'.buckets) m'
