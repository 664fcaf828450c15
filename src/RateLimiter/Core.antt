-- ===== src/RateLimiter/Core.antt =====
-- src/tr_shared/rate_limiter/core.py and dependency.py.
pub mod Decisions
pub mod Dependency
mod Tests
use Prim.Native.Nat.{max}
use Prim.Native.String
use tr_shared_lib.Base.{
  ℕ, ◌+◌, ◌-◌, String, Bool, true, false, not, ◌||◌, ◌&&◌, Option, none, some, List, [], ◌∷◌, map,
  ltb, str_eq, if◌then◌else◌,
}
use tr_shared_lib.Base.Text.{str, join_nonempty}
use tr_shared_lib.Base.Effect.{
  Exn, value_error, Result, ok, raised, Effect, pure, raise, try, ◌>>=◌, ◌>>◌,
}
use tr_shared_lib.RateLimiter.Schemas.{
  Algorithm, FailMode, fail_open, fail_closed, WindowConfig, RateLimitConfig, RateLimitResult,
  RateLimitInfo, to_seconds,
}
use tr_shared_lib.RateLimiter.MemoryFallback
use tr_shared_lib.RateLimiter.MemoryFallback.{MemoryFallback}
use tr_shared_lib.RateLimiter.Algorithms.{LimiterRedis, check_by}

-- `results.append(result)`, and `is_blocked = True` if it is not allowed
abbrev pub add_result : RateLimitResult → RateLimitInfo → RateLimitInfo
add_result r rest = record {
  results = r ∷ rest.results;
  is_blocked = not r.allowed || rest.is_blocked;
}

-- Where the client comes from: `redis_client`, `redis_url`, `redis_provider`, or nowhere.
pub data Source : Type 0 where
  client url provider absent : Source

pub record RateLimiter : Type 0 where
  pub source : Source
  pub key_prefix : String
  pub memory_fallback : Option MemoryFallback

-- `sum(sources) > 1` raises `ValueError`
choose_source : Bool → Bool → Bool → Result Source
choose_source false false false = ok absent
choose_source true false false = ok client
choose_source false true false = ok url
choose_source false false true = ok provider
choose_source _ _ _ = raised value_error

-- `__init__`, by which of the three sources are given
pub new : Bool → Bool → Bool → String → Bool → Result RateLimiter
unfolding choose_source
new has_client has_url has_provider key_prefix enable_memory_fallback =
    elim (choose_source has_client has_url has_provider) [
      | raised e ↦ raised e
      | ok source ↦ ok (record {
        source = source;
        key_prefix = key_prefix;
        memory_fallback =
            if enable_memory_fallback
            then some (record {
              buckets = [];
              cleanup_threshold = MemoryFallback.default_cleanup_threshold;
            })
            else none;
      })
    ]

-- `f"{key}:{window_seconds}s"`
unfoldable pub window_key : String → WindowConfig → String
unfolding str
window_key key w = String.◌++◌ key (String.◌++◌ ":" (String.◌++◌ (str w.window_seconds) "s"))

abbrev blocked_result : WindowConfig → RateLimitResult
blocked_result w = record {
  allowed = false;
  limit = w.limit;
  remaining = 0;
  reset_at = 0;
  retry_after = w.window_seconds;
}

abbrev open_result : WindowConfig → RateLimitResult
open_result w = record {
  allowed = true;
  limit = w.limit;
  remaining = w.limit;
  reset_at = 0;
  retry_after = 0;
}

-- The limiter with the Redis that it talks to.
pub record World (R : Type 0) : Type 0 where
  pub outside : R
  pub limiter : RateLimiter

-- `provider_has` is what `await self._redis_provider()` gives: a client, or `None`.
module _ {R : Type 0} (redis : LimiterRedis R) (provider_has : Effect R Bool) where
  abbrev outside : {A : Type 0} → Effect R A → Effect (World R) A
  outside m w = let (r, o) = m w.outside in (r, record w { outside = o })

  client_of : Source → Effect (World R) Bool
  client_of client = pure true
  client_of url = pure true
  client_of provider = outside provider_has
  client_of absent = pure false

  -- `_get_redis`: whether there is a client
  get_redis : Effect (World R) Bool
  unfolding client_of
  get_redis w = client_of w.limiter.source w

  -- the fallback's `check`, which reads the clock first
  in_memory : String → WindowConfig → MemoryFallback → Effect (World R) RateLimitResult
  unfolding window_key
  in_memory key w m = do
    now ← outside redis.time
    let (r, m') = MemoryFallback.check (window_key key w) w.limit w.window_seconds now m
    λ s. (ok r, record s { limiter = record s.limiter { memory_fallback = some m' } })

  without_redis : Option MemoryFallback → String → WindowConfig → Effect (World R) RateLimitResult
  unfolding in_memory
  without_redis none key w = pure (open_result w)
  without_redis (some m) key w = in_memory key w m

  -- `_check_window` behind the `except`: Redis is absent or has failed
  degraded : FailMode → String → WindowConfig → Effect (World R) RateLimitResult
  unfolding without_redis
  degraded fail_closed key w s = (ok (blocked_result w), s)
  degraded fail_open key w s = without_redis s.limiter.memory_fallback key w s

  -- `_check_window`
  check_window :
      Bool → Algorithm → String → FailMode → WindowConfig → Effect (World R) RateLimitResult
  unfolding degraded window_key
  check_window true algorithm key fail_mode w =
      try (outside (check_by redis algorithm (window_key key w) w.limit w.window_seconds))
        (λ _. degraded fail_mode key w)
  check_window false algorithm key fail_mode w = degraded fail_mode key w

  -- the loop of `check`; `results.append` and the flag are at the end, which is the same
  check_windows :
      Bool → Algorithm → String → FailMode → List WindowConfig → Effect (World R) RateLimitInfo
  check_windows has algorithm key fail_mode [] = pure (record { results = []; is_blocked = false })
  check_windows has algorithm key fail_mode (w ∷ ws) = do
    result ← check_window has algorithm key fail_mode w
    rest ← check_windows has algorithm key fail_mode ws
    pure (add_result result rest)

  pub check : String → RateLimitConfig → Effect (World R) RateLimitInfo
  unfolding get_redis check_windows
  check key cfg = do has ← get_redis; check_windows has cfg.algorithm key cfg.fail_mode cfg.windows

  delete_windows : String → RateLimitConfig → Effect (World R) Bool
  unfolding window_key
  delete_windows key cfg = do
    deleted ← outside (redis.delete (map (window_key key) cfg.windows))
    pure (ltb 0 deleted)

  -- `reset`: an exception of `delete` counts as nothing deleted
  pub reset : String → RateLimitConfig → Effect (World R) Bool
  unfolding get_redis delete_windows
  reset key cfg = do
    has ← get_redis
    if has then try (delete_windows key cfg) (λ _. pure false) else pure false

  -- one round of `status`: a window whose commands raise has no result
  status_window : String → WindowConfig → Effect (World R) (Option RateLimitResult)
  unfolding window_key
  status_window key w =
      try
        (do
          count ← outside (redis.get (window_key key w))
          ttl ← outside (redis.ttl (window_key key w))
          now ← outside redis.time
          let blocked = ltb w.limit count
          pure (
              some (record {
                allowed = not blocked;
                limit = w.limit;
                remaining = w.limit - count;
                reset_at = to_seconds now + max ttl 1;
                retry_after = if blocked then max ttl 1 else 0;
              })))
        (λ _. pure none)

  abbrev with_result : Option RateLimitResult → RateLimitInfo → RateLimitInfo
  with_result none rest = rest
  with_result (some r) rest = add_result r rest

  status_windows : String → List WindowConfig → Effect (World R) RateLimitInfo
  unfolding status_window
  status_windows key [] = pure (record { results = []; is_blocked = false })
  status_windows key (w ∷ ws) = do
    result ← status_window key w
    rest ← status_windows key ws
    pure (with_result result rest)

  pub status : String → RateLimitConfig → Effect (World R) RateLimitInfo
  unfolding get_redis status_windows
  status key cfg = do
    has ← get_redis
    if has
        then status_windows key cfg.windows
        else pure (record { results = []; is_blocked = false })

-- `build_key`; `normalize` is `normalize_path`
unfoldable pub build_key : (String → String) → RateLimiter → String → String → String → String
build_key normalize l identifier endpoint scope =
    let normalized = if str_eq endpoint "*" then "*" else normalize endpoint in
    join_nonempty (l.key_prefix ∷ "rl" ∷ scope ∷ identifier ∷ normalized ∷ [])
