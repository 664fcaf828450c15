-- ===== src/RateLimiter/MemoryFallback/Cleanup.antt =====
-- The cleanup of expired buckets is not seen by any call.
use tr_shared_lib.Base.{
  ℕ, String, ◌≡◌, refl, Bool, false, Option, none, some, List, [], ◌∷◌, length, ltb, leb, arith,
  if◌then◌else◌, ◌||◌, str_eq, eq_iff, Bool-cases, inl, inr, ◌≤◌, ◌≤◌,
}
use tr_shared_lib.Base.Dict.{
  Dict, lookup, remove, lookup-remove, IsDistinct, insert-IsDistinct, remove-IsDistinct,
}
use tr_shared_lib.RateLimiter.MemoryFallback.{
  Bucket, MemoryFallback, expired_keys, delete_all, cleanup_expired, tidy, check_bucket, check,
}

-- A bucket as a call at `now` takes it: one whose window is over counts for nothing.
abbrev pub live : ℕ → Option Bucket → Option Bucket
live now none = none
live now (some b) = if ltb b.reset_time now then none else some b

is_in : String → List String → Bool
is_in k [] = false
is_in k (j ∷ js) = str_eq j k || is_in k js

lookup-delete_all :
    (k : String) (ks : List String) (d : Dict Bucket)
    → lookup k (delete_all ks d) ≡ (if is_in k ks then none else lookup k d)
unfolding delete_all is_in
lookup-delete_all k [] d = refl
lookup-delete_all k (j ∷ js) d =
    ground (arith, lookup-delete_all k js (remove j d), lookup-remove j k d)

is_in-expired_keys :
    (now : ℕ) (k : String) (d : Dict Bucket)
    → lookup k d ≡ none
    → is_in k (expired_keys now d) ≡ false
unfolding expired_keys is_in lookup
is_in-expired_keys now k [] h = refl
is_in-expired_keys now k ((j, b) ∷ d) h = ground (arith, is_in-expired_keys now k d)

live-lookup :
    (now : ℕ) (k : String) (d : Dict Bucket)
    → IsDistinct d
    → (if is_in k (expired_keys now d) then none else lookup k d) ≡ live now (lookup k d)
unfolding expired_keys is_in lookup
live-lookup now k [] h = refl
live-lookup now k ((j, b) ∷ d) h =
    ground (arith, live-lookup now k d h.1, is_in-expired_keys now k d, eq_iff j k)

-- After a cleanup at `now` a key has its bucket if that is live at `now`, and else none.
pub lookup-cleanup_expired :
    (now : ℕ) (k : String) (m : MemoryFallback)
    → IsDistinct m.buckets
    → lookup k (cleanup_expired now m).buckets ≡ live now (lookup k m.buckets)
unfolding cleanup_expired
lookup-cleanup_expired now k m h = ground (
  arith,
  lookup-delete_all k (expired_keys now m.buckets) m.buckets,
  live-lookup now k m.buckets h,
)

-- So too after the cleanup that `check` may make, for a bucket that is live.
pub lookup-tidy_live :
    (now : ℕ) (k : String) (b : Bucket) (m : MemoryFallback)
    → IsDistinct m.buckets
    → lookup k m.buckets ≡ some b
    → now ≤ b.reset_time
    → lookup k (tidy now m).buckets ≡ some b
unfolding tidy
lookup-tidy_live now k b m d h le =
    let cleaned : lookup k (cleanup_expired now m).buckets ≡ live now (lookup k m.buckets) =
      lookup-cleanup_expired now k m d in
    ground (arith, cleaned)

-- Live buckets are the same before and after the cleanup that `check` may make.
pub live-lookup-tidy :
    (now : ℕ) (k : String) (m : MemoryFallback)
    → IsDistinct m.buckets
    → live now (lookup k (tidy now m).buckets) ≡ live now (lookup k m.buckets)
unfolding tidy
live-lookup-tidy now k m d =
    let cleaned : lookup k (cleanup_expired now m).buckets ≡ live now (lookup k m.buckets) =
      lookup-cleanup_expired now k m d in
    ground (arith, cleaned)

check_bucket-live :
    (key : String) (limit window_seconds now : ℕ) (o : Option Bucket) (m m' : MemoryFallback)
    → (check_bucket key limit window_seconds now (live now o) m').0
      ≡ (check_bucket key limit window_seconds now o m).0
unfolding check_bucket
check_bucket-live key limit window_seconds now none m m' = refl
check_bucket-live key limit window_seconds now (some b) m m' = ground arith

check_bucket-same_result :
    (key : String) (limit window_seconds now : ℕ) (o : Option Bucket) (m m' : MemoryFallback)
    → (check_bucket key limit window_seconds now o m').0
      ≡ (check_bucket key limit window_seconds now o m).0
unfolding check_bucket
check_bucket-same_result key limit window_seconds now none m m' = refl
check_bucket-same_result key limit window_seconds now (some b) m m' = ground arith

-- The answer of a call is the one that the bucket of its key gives, whether or not the call cleans
-- up first.
pub check_cleanup_invisible :
    (key : String) (limit window_seconds now : ℕ) (m : MemoryFallback)
    → IsDistinct m.buckets
    → (check key limit window_seconds now m).0
      ≡ (check_bucket key limit window_seconds now (lookup key m.buckets) m).0
unfolding check tidy
check_cleanup_invisible key limit window_seconds now m h =
    elim (Bool-cases (ltb m.cleanup_threshold (length m.buckets))) [
      | inl full ↦
          rw (full, lookup-cleanup_expired now key m h)
            (check_bucket-live key limit window_seconds now (lookup key m.buckets) m
              (cleanup_expired now m))
      | inr room ↦ rw room
    ]

delete_all-IsDistinct :
    (ks : List String) (d : Dict Bucket) → IsDistinct d → IsDistinct (delete_all ks d)
unfolding delete_all
delete_all-IsDistinct [] d h = h
delete_all-IsDistinct (k ∷ ks) d h = delete_all-IsDistinct ks (remove k d) (remove-IsDistinct k d h)

check_bucket-IsDistinct :
    (key : String) (limit window_seconds now : ℕ) (o : Option Bucket) (m : MemoryFallback)
    → IsDistinct m.buckets
    → IsDistinct (check_bucket key limit window_seconds now o m).1.buckets
unfolding check_bucket
check_bucket-IsDistinct key limit window_seconds now none m h = insert-IsDistinct key _ m.buckets h
check_bucket-IsDistinct key limit window_seconds now (some b) m h =
    elim (Bool-cases (ltb b.reset_time now)) [
      | inl over ↦ rw over (insert-IsDistinct key _ m.buckets h)
      | inr open_window ↦ elim (Bool-cases (leb limit b.count)) [
        | inl full ↦ rw (open_window, full) h
        | inr room ↦ rw (open_window, room) (insert-IsDistinct key _ m.buckets h)
      ]
    ]

pub check-IsDistinct :
    (key : String) (limit window_seconds now : ℕ) (m : MemoryFallback)
    → IsDistinct m.buckets
    → IsDistinct (check key limit window_seconds now m).1.buckets
unfolding check tidy
check-IsDistinct key limit window_seconds now m h =
    elim (Bool-cases (ltb m.cleanup_threshold (length m.buckets))) [
      | inl full ↦ rw full (
          check_bucket-IsDistinct key limit window_seconds now _ (cleanup_expired now m) (
            unfold cleanup_expired in
            delete_all-IsDistinct (expired_keys now m.buckets) m.buckets h))
      | inr room ↦ rw room (check_bucket-IsDistinct key limit window_seconds now _ m h)
    ]
