-- ===== src/RateLimiter/MemoryFallback/Tests.antt =====
-- The fallback limiter at concrete inputs.
use tr_shared_lib.Base.{ℕ, ◌≡◌, refl, true, false, List, [], ◌∷◌, arith, eq_iff, String}
use tr_shared_lib.Base.Dict.{lookup}
use tr_shared_lib.RateLimiter.MemoryFallback.{
  MemoryFallback, check, check_bucket, default_cleanup_threshold,
}
use tr_shared_lib.RateLimiter.MemoryFallback.Cleanup.{check_cleanup_invisible}
use tr_shared_lib.RateLimiter.MemoryFallback.Quota.{Call, answers, calls_of, quota}

abbrev empty : MemoryFallback
empty = record { buckets = []; cleanup_threshold = default_cleanup_threshold }

abbrev call : String → ℕ → Call
call key now = record { key = key; limit = 2; window_seconds = 60; now = now }

abbrev later : List Call
later = call "b" 5 ∷ call "a" 7 ∷ call "a" 60_000_000 ∷ []

quota_example : answers "a" (call "a" 0 ∷ later) empty ≡ true ∷ true ∷ false ∷ []
unfolding lookup calls_of
quota_example = quota "a" 2 (call "a" 0) later empty tt refl refl refl (
  (omega arith, λ e. cc ((eq_iff "b" "a").1 e)),
  ((omega arith, λ _. refl), ((omega arith, λ _. refl), tt)),
)

-- Two buckets over a threshold of one, the first of them expired.
abbrev crowded : MemoryFallback
crowded = record {
  buckets =
      ("a", record { count = 2; reset_time = 5 })
      ∷ ("b", record { count = 2; reset_time = 90 })
      ∷ [];
  cleanup_threshold = 1;
}

check_cleanup_invisible_example :
    (check "b" 2 60 50 crowded).0
    ≡ (check_bucket "b" 2 60 50 (lookup "b" crowded.buckets) crowded).0
unfolding lookup
check_cleanup_invisible_example = check_cleanup_invisible "b" 2 60 50 crowded (refl, (refl, tt))
