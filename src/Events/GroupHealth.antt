-- ===== src/Events/GroupHealth.antt =====
-- src/tr_shared/events/group_health.py: the liveness of a consumer group. A field of a record of Redis
-- is a text, a number or nil; times are whole milliseconds.
use tr_shared_lib.Base.{
  ℕ, ◌+◌, ◌*◌, ◌≤◌, String, Option, none, some, Bool, true, false, List, [], ◌∷◌, map, length, ltb,
  leb, str_eq, if◌then◌else◌, arith, All,
}
use tr_shared_lib.Base.Effect.{
  Exn, redis_error, redis_connection, redis_timeout, os_error, Result, ok, raised,
}

-- a group as XINFO GROUPS gives it; a field that is missing or nil is none
pub record GroupInfo : Type 0 where
  pub name : String
  pub consumers : Option ℕ
  pub pending : Option ℕ
  pub lag : Option ℕ

pub record GroupHealth : Type 0 where
  pub group : String
  pub exists : Bool
  pub consumers : ℕ
  pub live_consumers : ℕ
  pub pending : ℕ
  pub lag : Option ℕ
  pub min_idle_ms : Option ℕ
  pub error : Option Exn

-- `int(value or 0)`
unfoldable pub or_zero : Option ℕ → ℕ
or_zero none = 0
or_zero (some n) = n

unfoldable pub unhealthy : String → Option Exn → GroupHealth
unhealthy group error = record {
  group = group;
  exists = false;
  consumers = 0;
  live_consumers = 0;
  pending = 0;
  lag = none;
  min_idle_ms = none;
  error = error;
}

-- the first group of this name
unfoldable pub find_group : String → List GroupInfo → Option GroupInfo
find_group group [] = none
find_group group (g ∷ groups) =
    let rest = find_group group groups in if str_eq g.name group then some g else rest

unfoldable pub live : ℕ → List ℕ → ℕ
live idle_threshold [] = 0
live idle_threshold (idle ∷ idles) =
    (if ltb idle idle_threshold then 1 else 0) + live idle_threshold idles

unfoldable pub least : ℕ → List ℕ → ℕ
least n [] = n
least n (m ∷ ms) = let rest = least m ms in if leb n rest then n else rest

unfoldable pub min_of : List ℕ → Option ℕ
min_of [] = none
min_of (n ∷ ns) = some (least n ns)

unfoldable pub healthy : ℕ → String → GroupInfo → List ℕ → GroupHealth
healthy idle_threshold group g idles = record {
  group = group;
  exists = true;
  consumers = or_zero g.consumers;
  live_consumers = live idle_threshold idles;
  pending = or_zero g.pending;
  lag = g.lag;
  min_idle_ms = min_of idles;
  error = none;
}

-- `except (RedisError, OSError)`; other exceptions reach the caller
unfoldable pub on_error : String → Exn → Result GroupHealth
on_error group redis_error = ok (unhealthy group (some redis_error))
on_error group redis_connection = ok (unhealthy group (some redis_connection))
on_error group redis_timeout = ok (unhealthy group (some redis_timeout))
on_error group os_error = ok (unhealthy group (some os_error))
on_error group e = raised e

unfoldable pub with_consumers :
    ℕ → String → GroupInfo → Result (List (Option ℕ)) → Result GroupHealth
with_consumers idle_threshold group g (ok idles) =
    ok (healthy idle_threshold group g (map or_zero idles))
with_consumers idle_threshold group g (raised e) = on_error group e

unfoldable pub with_group :
    ℕ → String → (String → Result (List (Option ℕ))) → Option GroupInfo → Result GroupHealth
with_group idle_threshold group xinfo_consumers none = ok (unhealthy group none)
with_group idle_threshold group xinfo_consumers (some g) =
    with_consumers idle_threshold group g (xinfo_consumers group)

unfoldable pub with_groups :
    ℕ → String → (String → Result (List (Option ℕ))) → Result (List GroupInfo) → Result GroupHealth
with_groups idle_threshold group xinfo_consumers (ok groups) =
    with_group idle_threshold group xinfo_consumers (find_group group groups)
with_groups idle_threshold group xinfo_consumers (raised e) = on_error group e

-- on what XINFO GROUPS answered, and what XINFO CONSUMERS answers of a group: the idle times
unfoldable pub consumer_group_health :
    Result (List GroupInfo)
    → (String → Result (List (Option ℕ)))
    → String
    → ℕ
    → ℕ
    → Result GroupHealth
consumer_group_health groups xinfo_consumers group block_ms liveness_multiplier =
    with_groups (block_ms * liveness_multiplier) group xinfo_consumers groups

-- No more consumers are live than have registered.
live-le : (idle_threshold : ℕ) (idles : List ℕ) → live idle_threshold idles ≤ length idles
unfolding live
live-le idle_threshold [] = omega arith
live-le idle_threshold (idle ∷ idles) = ground (arith, live-le idle_threshold idles)

-- The least of the idle times is not above any of them.
least-All : (n : ℕ) (ns : List ℕ) → All (λ m. least n ns ≤ m) (n ∷ ns)
unfolding least
least-All n ns = (below n ns, above n ns)
  where
    below : (n : ℕ) (ns : List ℕ) → least n ns ≤ n
    below n [] = omega arith
    below n (m ∷ ms) = ground arith

    weaken : (k l : ℕ) (ms : List ℕ) → k ≤ l → All (λ m. l ≤ m) ms → All (λ m. k ≤ m) ms
    weaken k l [] h all = tt
    weaken k l (m ∷ ms) h all = (omega (arith, h, all.0), weaken k l ms h all.1)

    above : (n : ℕ) (ns : List ℕ) → All (λ m. least n ns ≤ m) ns
    above n [] = tt
    above n (m ∷ ms) =
        let le : least n (m ∷ ms) ≤ least m ms = ground arith in
        (omega (arith, le, below m ms), weaken (least n (m ∷ ms)) (least m ms) ms le (above m ms))
