-- ===== src/RateLimiter/MemoryFallback/Quota.antt =====
-- How many calls with one key a window admits, among any calls with other keys.
use Prim.Native.Nat.{max}
use tr_shared_lib.Base.{
  ℕ, zero, suc, ◌+◌, ◌-◌, ◌≤◌, ◌<◌, String, ◌≡◌, refl, sym, ap, ◌∙◌, Bool, true, false, Option,
  none, some, List, [], ◌∷◌, ltb, arith, if◌then◌else◌, str_eq, eq_iff, Bool-cases, inl, inr, All,
}
use tr_shared_lib.Base.Dict.{lookup, lookup-insert, IsDistinct}
use tr_shared_lib.RateLimiter.Schemas.{of_seconds}
use tr_shared_lib.RateLimiter.MemoryFallback.{Bucket, MemoryFallback, tidy, check_bucket, check}
use tr_shared_lib.RateLimiter.MemoryFallback.Cleanup.{
  live, live-lookup-tidy, lookup-tidy_live, check-IsDistinct,
}

pub record Call : Type 0 where
  pub key : String
  pub limit : ℕ
  pub window_seconds : ℕ
  pub now : ℕ

abbrev pub answer : Call → MemoryFallback → Bool
answer c m = (check c.key c.limit c.window_seconds c.now m).0.allowed

abbrev pub after : Call → MemoryFallback → MemoryFallback
after c m = (check c.key c.limit c.window_seconds c.now m).1

-- The answers that the calls with key `k` get.
unfoldable pub answers : String → List Call → MemoryFallback → List Bool
answers k [] m = []
answers k (c ∷ cs) m =
    let rest = answers k cs (after c m) in if str_eq c.key k then answer c m ∷ rest else rest

unfoldable pub calls_of : String → List Call → ℕ
calls_of k [] = 0
calls_of k (c ∷ cs) = let rest = calls_of k cs in if str_eq c.key k then suc rest else rest

-- `n` answers of which the first `left` are yes.
abbrev pub first_allowed : ℕ → ℕ → List Bool
first_allowed left zero = []
first_allowed zero (suc n) = false ∷ first_allowed zero n
first_allowed (suc left) (suc n) = true ∷ first_allowed left n

-- The calls fall into a window that ends at `reset`, and those with key `k` ask for `limit`.
abbrev pub InWindow : String → ℕ → ℕ → Call → Type 0
InWindow k limit reset c = (c.now ≤ reset) × (c.key ≡ k → c.limit ≡ limit)

check_bucket_other :
    (k key : String) (limit window_seconds now : ℕ) (o : Option Bucket) (m : MemoryFallback)
    → str_eq key k ≡ false
    → lookup k (check_bucket key limit window_seconds now o m).1.buckets ≡ lookup k m.buckets
unfolding check_bucket
check_bucket_other k key limit window_seconds now none m ne = ground (
  arith,
  lookup-insert key k (record { count = 1; reset_time = now + of_seconds window_seconds })
      m.buckets,
)
check_bucket_other k key limit window_seconds now (some b) m ne = ground (
  arith,
  lookup-insert key k (record { count = 1; reset_time = now + of_seconds window_seconds })
      m.buckets,
  lookup-insert key k (record b { count = b.count + 1 }) m.buckets,
)

-- Within the window of its bucket a call is answered by the count, which a yes raises by one.
check_bucket_self :
    (k : String) (limit window_seconds now : ℕ) (b : Bucket) (m : MemoryFallback)
    → lookup k m.buckets ≡ some b
    → now ≤ b.reset_time
    → let (r, m') = check_bucket k limit window_seconds now (some b) m in
      (r.allowed ≡ ltb b.count limit)
      × (lookup k m'.buckets
          ≡ some (if ltb b.count limit then record b { count = b.count + 1 } else b))
unfolding check_bucket
check_bucket_self k limit window_seconds now b m h le = (
  ground arith,
  ground (arith, lookup-insert k k (record b { count = b.count + 1 }) m.buckets, eq_iff k k),
)

after_other :
    (k : String) (c : Call) (b : Bucket) (m : MemoryFallback)
    → IsDistinct m.buckets
    → lookup k m.buckets ≡ some b
    → c.now ≤ b.reset_time
    → str_eq c.key k ≡ false
    → lookup k (after c m).buckets ≡ some b
unfolding check
after_other k c b m d h le ne =
    check_bucket_other k c.key c.limit c.window_seconds c.now _ (tidy c.now m) ne
    ∙ lookup-tidy_live c.now k b m d h le

answer_self :
    (c : Call) (b : Bucket) (m : MemoryFallback)
    → IsDistinct m.buckets
    → lookup c.key m.buckets ≡ some b
    → c.now ≤ b.reset_time
    → (answer c m ≡ ltb b.count c.limit)
      × (lookup c.key (after c m).buckets
          ≡ some (if ltb b.count c.limit then record b { count = b.count + 1 } else b))
unfolding check
answer_self c b m d h le =
    let there = lookup-tidy_live c.now c.key b m d h le in
    rw (there, answer, after)
      (check_bucket_self c.key c.limit c.window_seconds c.now b (tidy c.now m) there le)

-- A call whose key has no live bucket is allowed, and starts a window.
check_bucket_fresh :
    (k : String) (limit window_seconds now : ℕ) (o : Option Bucket) (m : MemoryFallback)
    → live now o ≡ none
    → let (r, m') = check_bucket k limit window_seconds now o m in
      (r.allowed ≡ true)
      × (lookup k m'.buckets
          ≡ some (record { count = 1; reset_time = now + of_seconds window_seconds }))
unfolding check_bucket
check_bucket_fresh k limit window_seconds now none m h = (
  refl,
  ground (
    arith,
    eq_iff k k,
    lookup-insert k k (record { count = 1; reset_time = now + of_seconds window_seconds })
        m.buckets,
  ),
)
check_bucket_fresh k limit window_seconds now (some b) m h = (
  ground arith,
  ground (
    arith,
    eq_iff k k,
    lookup-insert k k (record { count = 1; reset_time = now + of_seconds window_seconds })
        m.buckets,
  ),
)

answer_fresh :
    (c : Call) (m : MemoryFallback)
    → IsDistinct m.buckets
    → live c.now (lookup c.key m.buckets) ≡ none
    → (answer c m ≡ true)
      × (lookup c.key (after c m).buckets
          ≡ some (record { count = 1; reset_time = c.now + of_seconds c.window_seconds }))
unfolding check
answer_fresh c m d free =
    check_bucket_fresh c.key c.limit c.window_seconds c.now (lookup c.key (tidy c.now m).buckets)
      (tidy c.now m) (live-lookup-tidy c.now c.key m d ∙ free)

first_allowed_yes :
    (count limit n : ℕ)
    → count < limit
    → first_allowed (limit - count) (suc n) ≡ true ∷ first_allowed (limit - (count + 1)) n
first_allowed_yes count limit n h =
    let e : limit - count ≡ suc (limit - (count + 1)) = omega arith in rw e

first_allowed_no :
    (count limit n : ℕ)
    → limit ≤ count
    → first_allowed (limit - count) (suc n) ≡ false ∷ first_allowed (limit - count) n
first_allowed_no count limit n h = let e : limit - count ≡ 0 = omega arith in rw e

first_allowed_start :
    (limit n : ℕ) → first_allowed (max 1 limit) (suc n) ≡ true ∷ first_allowed (limit - 1) n
first_allowed_start limit n = let e : max 1 limit ≡ suc (limit - 1) = omega arith in rw e

module _ (k : String) (limit : ℕ) where
  -- One call with key `k`, given what the calls after it are answered from either bucket.
  answers_self :
      (b : Bucket) (c : Call) (cs : List Call) (m : MemoryFallback)
      → IsDistinct m.buckets
      → lookup k m.buckets ≡ some b
      → InWindow k limit b.reset_time c
      → c.key ≡ k
      → ((b' : Bucket)
          → b'.reset_time ≡ b.reset_time
          → lookup k (after c m).buckets ≡ some b'
          → answers k cs (after c m) ≡ first_allowed (limit - b'.count) (calls_of k cs))
      → answer c m ∷ answers k cs (after c m)
        ≡ first_allowed (limit - b.count) (suc (calls_of k cs))
  answers_self b c cs m d h w e rest =
      let here : lookup c.key m.buckets ≡ some b = ap (λ j. lookup j m.buckets) e ∙ h in
      let (said, moved) = answer_self c b m d here w.0 in
      let same : c.limit ≡ limit = w.1 e in
      let there = ap (λ j. lookup j (after c m).buckets) (sym e) ∙ moved in
      elim (Bool-cases (ltb b.count c.limit)) [
        | inl room ↦ ground (
          arith,
          said,
          room,
          same,
          rest (record b { count = b.count + 1 }) refl (there ∙ rw room),
          first_allowed_yes b.count limit (calls_of k cs),
        )
        | inr full ↦ ground (
          arith,
          said,
          full,
          same,
          rest b refl (there ∙ rw full),
          first_allowed_no b.count limit (calls_of k cs),
        )
      ]

  answers_from :
      (b : Bucket) (cs : List Call) (m : MemoryFallback)
      → IsDistinct m.buckets
      → lookup k m.buckets ≡ some b
      → All (InWindow k limit b.reset_time) cs
      → answers k cs m ≡ first_allowed (limit - b.count) (calls_of k cs)
  unfolding answers calls_of
  answers_from b [] m d h w = refl
  answers_from b (c ∷ cs) m d h w =
      let d' = check-IsDistinct c.key c.limit c.window_seconds c.now m d in
      elim (Bool-cases (str_eq c.key k)) [
        | inl same ↦ rw same (
            answers_self b c cs m d h w.0 ((eq_iff c.key k).0 same)
              (λ b' r l. answers_from b' cs (after c m) d' l (rw r w.1)))
        | inr other ↦
            rw other (answers_from b cs (after c m) d' (after_other k c b m d h w.0.0 other) w.1)
      ]

  -- Take any calls after the start of a window of key `k`, with any keys, none of them later than
  -- the end of that window, and those with key `k` asking for the same limit. Then of the calls with
  -- key `k`, the one that starts the window included, exactly the first `limit` are allowed; if the
  -- limit is 0, exactly the first one.
  pub quota :
      (c : Call) (cs : List Call) (m : MemoryFallback)
      → IsDistinct m.buckets
      → c.key ≡ k
      → c.limit ≡ limit
      → live c.now (lookup k m.buckets) ≡ none
      → All (InWindow k limit (c.now + of_seconds c.window_seconds)) cs
      → answers k (c ∷ cs) m ≡ first_allowed (max 1 limit) (calls_of k (c ∷ cs))
  unfolding answers calls_of
  quota c cs m d e l free w =
      let (said, moved) = answer_fresh c m d (ap (λ j. live c.now (lookup j m.buckets)) e ∙ free) in
      let there = ap (λ j. lookup j (after c m).buckets) (sym e) ∙ moved in
      let d' = check-IsDistinct c.key c.limit c.window_seconds c.now m d in
      let b : Bucket = record { count = 1; reset_time = c.now + of_seconds c.window_seconds } in
      rw ((eq_iff c.key k).1 e) (
        ground (
          arith,
          said,
          answers_from b cs (after c m) d' there w,
          first_allowed_start limit (calls_of k cs),
        ))
