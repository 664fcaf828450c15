-- ===== src/Events/Idempotency.antt =====
-- `IdempotencyChecker` and `InMemoryIdempotencyChecker` of src/tr_shared/events/consumer.py. The
-- `OrderedDict` is the list of its keys, the oldest first; Redis is a parameter.
pub mod Memory
mod Tests
use Prim.Native.String
use tr_shared_lib.Base.{
  ℕ, ◌*◌, String, Bool, true, false, ◌||◌, List, [], ◌∷◌, ◌++◌, length, drop, any, ltb, str_eq,
  if◌then◌else◌,
}
use tr_shared_lib.Base.Effect.{Effect, pure, ◌>>=◌, ◌>>◌}

-- The protocol that the consumer calls, on a state `S`.
pub record IdempotencyChecker (S : Type 0) : Type 0 where
  pub is_processed : String → Effect S Bool
  pub mark_processed : String → Effect S (Unit {0})

-- The two commands on the processed keys.
pub record ProcessedRedis (R : Type 0) : Type 0 where
  pub exists : String → Effect R Bool
  pub setex : String → ℕ → Effect R (Unit {0})

pub record InMemory : Type 0 where
  pub ids : List String
  pub group : String
  pub ttl : ℕ
  pub with_redis : Bool

-- `__init__`
unfoldable pub new : Bool → String → ℕ → InMemory
new with_redis group_name ttl_days = record {
  ids = [];
  group = group_name;
  ttl = ttl_days * 86400;
  with_redis = with_redis;
}

abbrev pub member : String → List String → Bool
member id = any (str_eq id)

-- `self._ids[event_id] = None`: a key that is there keeps its place
unfoldable pub remember : String → List String → List String
remember id ids = if member id ids then ids else ids ++ id ∷ []

-- FIFO eviction: past the limit so many of the oldest entries go (`drop` stops at an empty list)
pub evict_past : ℕ → ℕ → List String → List String
evict_past limit count ids = if ltb limit (length ids) then drop count ids else ids

unfoldable pub evict : List String → List String
evict = evict_past 10_000 5_000

-- `f"{self._group}:processed:{event_id}"`
abbrev processed_key : InMemory → String → String
processed_key c id = String.◌++◌ c.group (String.◌++◌ ":processed:" id)

-- the checker with the Redis that it asks
pub record Checked (R : Type 0) : Type 0 where
  pub checker : InMemory
  pub outside : R

module _ {R : Type 0} (redis : ProcessedRedis R) where
  abbrev outside : {A : Type 0} → Effect R A → Effect (Checked R) A
  outside m s = let (r, o) = m s.outside in (r, record s { outside = o })

  unfoldable pub is_processed : String → Effect (Checked R) Bool
  is_processed id s =
      if member id s.checker.ids
      then pure true s
      else if s.checker.with_redis
      then outside (redis.exists (processed_key s.checker id)) s
      else pure false s

  unfoldable pub mark_processed : String → Effect (Checked R) (Unit {0})
  mark_processed id s =
      let s' = record s {
        checker = record s.checker { ids = evict (remember id s.checker.ids) };
      } in
      if s.checker.with_redis
      then outside (redis.setex (processed_key s.checker id) s.checker.ttl) s'
      else pure tt s'

  -- the in-memory checker as the consumer sees it
  abbrev pub in_memory : IdempotencyChecker (Checked R)
  in_memory = record { is_processed = is_processed; mark_processed = mark_processed }
