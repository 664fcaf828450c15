-- ===== src/Cache/Backend.antt =====
-- What the service calls of a cache provider: `CacheInterface` of src/tr_shared/cache/interface.py.
use tr_shared_lib.Base.{ℕ, String, Option, Bool, false, List, ◌==◌}
use tr_shared_lib.Base.Dict.{Dict}
use tr_shared_lib.Base.Effect.{Effect}

-- a whole number of Python
pub data ℤ : Type 0 where
  pos : ℕ → ℤ
  -- -1 for 0, and so on downwards
  negsuc : ℕ → ℤ

abbrev pub same_integer : ℤ → ℤ → Bool
same_integer (pos a) (pos b) = a == b
same_integer (pos a) (negsuc b) = false
same_integer (negsuc a) (pos b) = false
same_integer (negsuc a) (negsuc b) = a == b

-- `S` is the provider's state, `F` a score, `B` a bound of scores, and `M` a member with its score or
-- without one.
pub record Backend (S F B M : Type 0) : Type 0 where
  pub get : String → Effect S (Option String)
  pub mget : List String → Effect S (List (Option String))
  pub setex : String → ℕ → String → Effect S (Unit {0})
  -- `set(key, value, ttl=…, nx=True)`
  pub set_nx : String → ℕ → String → Effect S Bool
  -- a pipeline of `setex`, with one time to live
  pub execute_setex : ℕ → Dict String → Effect S (Unit {0})
  pub delete : List String → Effect S ℕ
  -- a round of SCAN: cursor, pattern and count give the next cursor and a batch
  pub scan : ℕ → String → ℕ → Effect S (ℕ × List String)
  pub incrby : String → ℤ → Effect S ℤ
  pub expire : String → ℕ → Effect S Bool
  pub exists : String → Effect S ℕ
  pub ttl : String → Effect S ℤ
  pub zadd : String → Dict F → Effect S ℕ
  pub zrangebyscore : String → B → B → Bool → Effect S (List M)
  pub zrange : String → ℤ → ℤ → Effect S (List String)
  pub zrem : String → List String → Effect S ℕ
  pub sadd : String → List String → Effect S ℕ
  pub srem : String → List String → Effect S ℕ
