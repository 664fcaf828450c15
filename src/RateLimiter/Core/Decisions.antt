-- ===== src/RateLimiter/Core/Decisions.antt =====
-- What `check` decides: how the flag and the results belong together, and the two fail modes.
use tr_shared_lib.Base.{
  ℕ, String, ◌≡◌, ◌≢◌, refl, ltb, Bool, true, false, not, none, List, [], ◌∷◌, map, length, any,
  arith,
}
use tr_shared_lib.Base.Effect.{ok, raised, Effect, redis_error, bind-ok, ◌>>=◌, pure}
use tr_shared_lib.RateLimiter.Schemas.{
  Algorithm, FailMode, fail_open, fail_closed, WindowConfig, RateLimitConfig, RateLimitResult,
  RateLimitInfo,
}
use tr_shared_lib.RateLimiter.Algorithms.{LimiterRedis, check_by}
use tr_shared_lib.RateLimiter.Core.{
  add_result, Source, client_of, provider, client, url, absent, World, check_window, check_windows,
  check, get_redis, window_key,
}

abbrev pub is_denied : RateLimitResult → Bool
is_denied r = not r.allowed

-- The answer for a window that fail mode "closed" gives without Redis, and that of "open".
abbrev pub denial : WindowConfig → RateLimitResult
denial w = record {
  allowed = false;
  limit = w.limit;
  remaining = 0;
  reset_at = 0;
  retry_after = w.window_seconds;
}

abbrev pub passage : WindowConfig → RateLimitResult
passage w = record {
  allowed = true;
  limit = w.limit;
  remaining = w.limit;
  reset_at = 0;
  retry_after = 0;
}

module _ {R : Type 0} (redis : LimiterRedis R) (provider_has : Effect R Bool) where
  check_windows_lem :
      (has : Bool) (algorithm : Algorithm) (key : String) (mode : FailMode) (ws : List WindowConfig)
      (s : World R) (info : RateLimitInfo)
      → (check_windows redis provider_has has algorithm key mode ws s).0 ≡ ok info
      → (length info.results ≡ length ws) × (info.is_blocked ≡ any is_denied info.results)
  unfolding check_windows
  check_windows_lem has algorithm key mode [] s info h = ground arith
  check_windows_lem has algorithm key mode (w ∷ ws) s info h =
      let first = check_window redis provider_has has algorithm key mode w in
      let s' = (first s).1 in
      let first = check_window redis provider_has has algorithm key mode w in
      let others = check_windows redis provider_has has algorithm key mode ws in
      let s' = (first s).1 in
      let (r, checked, h') =
        bind-ok first (λ r. others >>= λ rest. pure (add_result r rest)) s info h in
      let (rest, got, e) = bind-ok others (λ rest. pure (add_result r rest)) s' info h' in
      ground (arith, e, check_windows_lem has algorithm key mode ws s' rest got)

  -- If `check` returns, it has one result for each window of the configuration, and it says "blocked"
  -- exactly if one of these is not allowed.
  pub check_flag :
      (key : String) (cfg : RateLimitConfig) (s : World R) (info : RateLimitInfo)
      → (check redis provider_has key cfg s).0 ≡ ok info
      → (length info.results ≡ length cfg.windows) × (info.is_blocked ≡ any is_denied info.results)
  unfolding check
  check_flag key cfg s info h =
      let (has, got, h') =
        bind-ok (get_redis redis provider_has)
          (λ has. check_windows redis provider_has has cfg.algorithm key cfg.fail_mode cfg.windows)
          s info h in
      check_windows_lem has cfg.algorithm key cfg.fail_mode cfg.windows
        (get_redis redis provider_has s).1 info h'

  -- Redis is not reachable: every check on it raises a Redis error.
  abbrev pub IsDown : Algorithm → Type 0
  IsDown algorithm =
      (key : String) (limit seconds : ℕ) (r : R)
      → check_by redis algorithm key limit seconds r ≡ (raised redis_error, r)

  window_closed :
      (has : Bool) (algorithm : Algorithm) (key : String) (w : WindowConfig) (s : World R)
      → IsDown algorithm
      → check_window redis provider_has has algorithm key fail_closed w s ≡ (ok (denial w), s)
  unfolding check_window
  window_closed true algorithm key w s down =
      ground (arith, down (window_key key w) w.limit w.window_seconds s.outside)
  window_closed false algorithm key w s down = refl

  windows_closed :
      (has : Bool) (algorithm : Algorithm) (key : String) (ws : List WindowConfig) (s : World R)
      → IsDown algorithm
      → check_windows redis provider_has has algorithm key fail_closed ws s
        ≡ (ok (record { results = map denial ws; is_blocked = any is_denied (map denial ws) }), s)
  unfolding check_windows
  windows_closed has algorithm key [] s down = refl
  windows_closed has algorithm key (w ∷ ws) s down =
      ground (
        arith,
        window_closed has algorithm key w s down,
        windows_closed has algorithm key ws s down,
      )

  any-denial : (ws : List WindowConfig) → any is_denied (map denial ws) ≡ ltb 0 (length ws)
  any-denial [] = refl
  any-denial (w ∷ ws) = ground arith

  client_of_lem :
      (source : Source) (s : World R)
      → source ≢ provider
      → (has : Bool) × (client_of redis provider_has source s ≡ (ok has, s))
  unfolding client_of
  client_of_lem client s h = (true, refl)
  client_of_lem url s h = (true, refl)
  client_of_lem provider s h = absurd (h refl)
  client_of_lem absent s h = (false, refl)

  get_redis_lem :
      (s : World R)
      → s.limiter.source ≢ provider
      → (has : Bool) × (get_redis redis provider_has s ≡ (ok has, s))
  unfolding get_redis
  get_redis_lem s h = client_of_lem s.limiter.source s h

  -- In fail mode "closed", with Redis down and no provider, `check` returns, denies every window with
  -- the window's length as the time to wait, says "blocked" as soon as there is a window, and changes
  -- nothing.
  pub check_fail_closed :
      (key : String) (cfg : RateLimitConfig) (s : World R)
      → s.limiter.source ≢ provider
      → cfg.fail_mode ≡ fail_closed
      → IsDown cfg.algorithm
      → check redis provider_has key cfg s ≡ (
        ok (record { results = map denial cfg.windows; is_blocked = ltb 0 (length cfg.windows) }),
        s,
      )
  unfolding check
  check_fail_closed key cfg s src mode down =
      let (has, got) = get_redis_lem s src in
      ground (
        arith,
        got,
        any-denial cfg.windows,
        windows_closed has cfg.algorithm key cfg.windows s down,
      )

  window_open :
      (has : Bool) (algorithm : Algorithm) (key : String) (w : WindowConfig) (s : World R)
      → IsDown algorithm
      → s.limiter.memory_fallback ≡ none
      → check_window redis provider_has has algorithm key fail_open w s ≡ (ok (passage w), s)
  unfolding check_window
  window_open true algorithm key w s down bare =
      ground (arith, down (window_key key w) w.limit w.window_seconds s.outside)
  window_open false algorithm key w s down bare = ground arith

  windows_open :
      (has : Bool) (algorithm : Algorithm) (key : String) (ws : List WindowConfig) (s : World R)
      → IsDown algorithm
      → s.limiter.memory_fallback ≡ none
      → check_windows redis provider_has has algorithm key fail_open ws s
        ≡ (ok (record { results = map passage ws; is_blocked = false }), s)
  unfolding check_windows
  windows_open has algorithm key [] s down bare = refl
  windows_open has algorithm key (w ∷ ws) s down bare = ground (
    arith,
    window_open has algorithm key w s down bare,
    windows_open has algorithm key ws s down bare,
  )

  -- In fail mode "open", with Redis down, no provider and no memory fallback, `check` returns, allows
  -- every window in full and never says "blocked".
  pub check_fail_open :
      (key : String) (cfg : RateLimitConfig) (s : World R)
      → s.limiter.source ≢ provider
      → cfg.fail_mode ≡ fail_open
      → s.limiter.memory_fallback ≡ none
      → IsDown cfg.algorithm
      → check redis provider_has key cfg s
        ≡ (ok (record { results = map passage cfg.windows; is_blocked = false }), s)
  unfolding check
  check_fail_open key cfg s src mode bare down =
      let (has, got) = get_redis_lem s src in
      ground (arith, got, windows_open has cfg.algorithm key cfg.windows s down bare)
