-- ===== src/RateLimiter/Core/Dependency.antt =====
-- src/tr_shared/rate_limiter/dependency.py: the FastAPI dependency of one window.
use Prim.Native.Nat.{max}
use tr_shared_lib.Base.{
  ℕ, String, ◌≡◌, refl, sym, ◌∙◌, Bool, true, false, Option, none, some, List, [], ◌∷◌, ◌++◌, All,
  ap, any, arith, if◌then◌else◌, Bool-cases, inl, inr,
}
use tr_shared_lib.Base.Effect.{Result, ok, raised, Effect, other, ◌>>=◌}
use tr_shared_lib.RateLimiter.Schemas.{
  Algorithm, FailMode, RateLimitConfig, RateLimitResult, RateLimitInfo,
}
use tr_shared_lib.RateLimiter.Algorithms.{LimiterRedis}
use tr_shared_lib.RateLimiter.Core.{World, check, build_key}
use tr_shared_lib.RateLimiter.Core.Decisions.{is_denied, check_flag}

-- The numbers of the `RateLimitError` that the dependency raises, or the info that it leaves in
-- `request.state`.
pub data Admission : Type 0 where
  passed : RateLimitInfo → Admission
  limited : (limit retry_after reset_at : ℕ) → Admission

-- `next((r for r in results if not r.allowed), …)`
unfoldable pub first_denied : List RateLimitResult → Option RateLimitResult
first_denied [] = none
first_denied (r ∷ rs) = if r.allowed then first_denied rs else some r

-- `results[0]`, which raises on an empty list
first_result : List RateLimitResult → Result RateLimitResult
first_result [] = raised other
first_result (r ∷ rs) = ok r

-- `next(…, info.results[0])`: the default is computed first
tightest : List RateLimitResult → Result RateLimitResult
unfolding first_denied first_result
tightest rs = elim (first_result rs) [
  | raised e ↦ raised e
  | ok r ↦ elim (first_denied rs) [ none ↦ ok r | some d ↦ ok d ]
]

admit : RateLimitInfo → Result Admission
unfolding tightest
admit info =
    if info.is_blocked
    then elim (tightest info.results) [
      | raised e ↦ raised e
      | ok r ↦ ok (limited r.limit (max 1 r.retry_after) r.reset_at)
    ]
    else ok (passed info)

-- `config` of `create_rate_limit_dependency`
abbrev pub one_window : ℕ → ℕ → Algorithm → FailMode → RateLimitConfig
one_window limit window algorithm fail_mode = record {
  windows = record { limit = limit; window_seconds = window } ∷ [];
  algorithm = algorithm;
  fail_mode = fail_mode;
}

module _ {R : Type 0} (redis : LimiterRedis R) (provider_has : Effect R Bool)
    (normalize : String → String) where
  pub dependency : RateLimitConfig → String → String → String → Effect (World R) Admission
  unfolding admit
  dependency config key_prefix caller path s =
      (do
        info ←
            check redis provider_has (build_key normalize s.limiter caller path key_prefix) config
        λ s'. (admit info, s'))
        s

abbrev pub IsAllowed : RateLimitResult → Type 0
IsAllowed r = r.allowed ≡ true

-- What a request is told: it passes where every window allows it, and else it is given the numbers of a
-- window that denies it, with none before that one.
abbrev pub Told : List RateLimitResult → Admission → Type 0
Told rs (passed info) = (info.results ≡ rs) × All IsAllowed rs
Told rs (limited limit retry_after reset_at) =
    (before after : List RateLimitResult) × (r : RateLimitResult) × (rs ≡ before ++ r ∷ after)
    × All IsAllowed before
    × (r.allowed ≡ false)
    × (limit ≡ r.limit)
    × (retry_after ≡ max 1 r.retry_after)
    × (reset_at ≡ r.reset_at)

none_denied-IsAllowed : (rs : List RateLimitResult) → any is_denied rs ≡ false → All IsAllowed rs
none_denied-IsAllowed [] h = tt
none_denied-IsAllowed (r ∷ rs) h = (ground (arith, h), none_denied-IsAllowed rs (ground (arith, h)))

first_denied-some :
    (rs : List RateLimitResult)
    → any is_denied rs ≡ true
    → (before after : List RateLimitResult) × (r : RateLimitResult) × (first_denied rs ≡ some r)
      × (rs ≡ before ++ r ∷ after)
      × All IsAllowed before
      × (r.allowed ≡ false)
unfolding first_denied
first_denied-some [] h = cc
first_denied-some (r ∷ rs) h = elim (Bool-cases r.allowed) [
  | inl yes_allowed ↦
      let (before, after, d, e, parts, allowed, denied) = first_denied-some rs (ground arith) in
      (r ∷ before, after, d, ground (arith, e), ap (◌∷◌ r) parts, (yes_allowed, allowed), denied)
  | inr denied ↦ ([], rs, r, ground arith, refl, tt, denied)
]

tightest_lem :
    (rs : List RateLimitResult) (r : RateLimitResult)
    → first_denied rs ≡ some r
    → tightest rs ≡ ok r
unfolding tightest
tightest_lem [] r h = cc
tightest_lem (q ∷ rs) r h = ground arith

admit_lem :
    (info : RateLimitInfo)
    → info.is_blocked ≡ any is_denied info.results
    → (a : Admission) × (admit info ≡ ok a) × Told info.results a
unfolding admit
admit_lem info flag = elim (Bool-cases info.is_blocked) [
  | inl blocked ↦
      let (before, after, r, first, parts, allowed, denied) =
        first_denied-some info.results (sym flag ∙ blocked) in
      (
        limited r.limit (max 1 r.retry_after) r.reset_at,
        ground (arith, tightest_lem info.results r first),
        (before, after, r, parts, allowed, denied, refl, refl, refl),
      )
  | inr free ↦ (passed info, rw free, (refl, none_denied-IsAllowed info.results (sym flag ∙ free)))
]

module _ {R : Type 0} (redis : LimiterRedis R) (provider_has : Effect R Bool)
    (normalize : String → String) where
  -- Where `check` returns, so does the dependency: it lets the request pass, with the results of
  -- `check`, only if every window allows it, and else it raises with the limit and the reset time of
  -- the first window that denies it, and with that window's time to wait, at least 1.
  pub dependency_lem :
      (config : RateLimitConfig) (key_prefix caller path : String) (s : World R)
      (info : RateLimitInfo)
      → (check redis provider_has (build_key normalize s.limiter caller path key_prefix) config s).0
        ≡ ok info
      → (a : Admission) × ((dependency redis provider_has normalize config key_prefix caller path
            s).0
          ≡ ok a)
        × Told info.results a
  unfolding dependency
  dependency_lem config key_prefix caller path s info h =
      let (a, e, told) =
        admit_lem info
          (check_flag redis provider_has (build_key normalize s.limiter caller path key_prefix)
            config s info h).1 in
      (a, ground (arith, h, e), told)
