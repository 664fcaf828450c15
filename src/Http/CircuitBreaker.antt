-- ===== src/Http/CircuitBreaker.antt =====
-- src/tr_shared/http/circuit_breaker.py: the breaker's fields as a record, each method as a
-- function of the fields and of the reading of `time.monotonic()`, in ticks of any fixed length.
-- `now - t < timeout` is written `now < t + timeout`, the same test on the integers.
pub mod Invariant
pub mod Traces
mod Tests
use tr_shared_lib.Base.{
  ℕ, ◌+◌, String, Bool, true, false, ◌||◌, Option, none, some, List, [], ◌∷◌, ltb, leb,
  if◌then◌else◌,
}

pub data CircuitState : Type 0 where
  closed opened half_open : CircuitState

pub record CircuitBreaker : Type 0 where
  pub name : String
  pub state : CircuitState
  pub failure_count : ℕ
  pub failure_threshold : ℕ
  pub recovery_timeout : ℕ
  pub opened_at : ℕ
  pub probe_started_at : Option ℕ

-- `__init__`
unfoldable pub new : String → ℕ → ℕ → CircuitBreaker
new name failure_threshold recovery_timeout = record {
  name = name;
  state = closed;
  failure_count = 0;
  failure_threshold = failure_threshold;
  recovery_timeout = recovery_timeout;
  opened_at = 0;
  probe_started_at = none;
}

-- `_transition`: its early return leaves the state that it was asked for; the rest is logging.
abbrev transition : CircuitState → CircuitBreaker → CircuitBreaker
transition new_state b = record b { state = new_state }

-- `self._probe_started_at is not None and now - self._probe_started_at < self.recovery_timeout`
abbrev pub probe_is_fresh : Option ℕ → ℕ → ℕ → Bool
probe_is_fresh none timeout now = false
probe_is_fresh (some started) timeout now = ltb now (started + timeout)

is_open_in : CircuitState → ℕ → CircuitBreaker → Bool × CircuitBreaker
is_open_in closed now b = (false, b)
is_open_in opened now b =
    if ltb now (b.opened_at + b.recovery_timeout)
    then (true, b)
    else (false, record (transition half_open b) { probe_started_at = some now })
is_open_in half_open now b =
    if probe_is_fresh b.probe_started_at b.recovery_timeout now
    then (true, b)
    else (false, record b { probe_started_at = some now })

unfoldable pub is_open : ℕ → CircuitBreaker → Bool × CircuitBreaker
unfolding is_open_in
is_open now b = is_open_in b.state now b

abbrev pub is_half_open : CircuitState → Bool
is_half_open half_open = true
is_half_open _ = false

unfoldable pub record_success : CircuitBreaker → CircuitBreaker
record_success b =
    let reset = record b { failure_count = 0 } in
    if is_half_open b.state
    then transition closed (record reset { probe_started_at = none })
    else reset

unfoldable pub record_failure : ℕ → CircuitBreaker → CircuitBreaker
record_failure now b =
    let counted = record b { failure_count = b.failure_count + 1 } in
    if is_half_open b.state || leb b.failure_threshold counted.failure_count
    then transition opened (record counted { opened_at = now; probe_started_at = none })
    else counted

-- What callers may do with a breaker, in any order, each with the clock's reading.
pub data Event : Type 0 where
  ask failure : ℕ → Event
  success : Event

unfoldable pub step : CircuitBreaker → Event → CircuitBreaker
step b (ask now) = (is_open now b).1
step b (failure now) = record_failure now b
step b success = record_success b

unfoldable pub run : CircuitBreaker → List Event → CircuitBreaker
run b [] = b
run b (e ∷ es) = run (step b e) es

-- The answers of successive calls of `is_open`.
unfoldable pub answers : CircuitBreaker → List ℕ → List Bool
answers b [] = []
answers b (now ∷ later) = let (blocked, b') = is_open now b in blocked ∷ answers b' later
