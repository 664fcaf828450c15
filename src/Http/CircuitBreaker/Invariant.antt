-- ===== src/Http/CircuitBreaker/Invariant.antt =====
-- What holds of a breaker between two calls, whatever the calls were.
use tr_shared_lib.Base.{ℕ, ◌<◌, String, ◌≡◌, ◌≢◌, none, List, [], ◌∷◌, arith}
use tr_shared_lib.Http.CircuitBreaker.{
  CircuitBreaker, closed, half_open, Event, ask, failure, success, new, is_open, record_success,
  record_failure, step, run,
}

-- A closed breaker is below its threshold, and a probe is outstanding exactly in the half-open
-- state.
pub record IsValid (b : CircuitBreaker) : Type 0 where
  pub below : b.state ≡ closed → b.failure_count < b.failure_threshold
  pub probing : b.state ≡ half_open → b.probe_started_at ≢ none
  pub idle : b.state ≢ half_open → b.probe_started_at ≡ none

pub new-IsValid :
    (name : String) (threshold timeout : ℕ) → 0 < threshold → IsValid (new name threshold timeout)
unfolding new
new-IsValid name threshold timeout h = ground arith

step-IsValid :
    (b : CircuitBreaker) (e : Event) → 0 < b.failure_threshold → IsValid b → IsValid (step b e)
unfolding step is_open record_success record_failure
step-IsValid b (ask now) p h = ground arith
step-IsValid b (failure now) p h = ground arith
step-IsValid b success p h = ground arith

step-failure_threshold :
    (b : CircuitBreaker) (e : Event) → (step b e).failure_threshold ≡ b.failure_threshold
unfolding step is_open record_success record_failure
step-failure_threshold b (ask now) = ground arith
step-failure_threshold b (failure now) = ground arith
step-failure_threshold b success = ground arith

run_from-IsValid :
    (b : CircuitBreaker) (es : List Event)
    → 0 < b.failure_threshold
    → IsValid b
    → IsValid (run b es)
unfolding run
run_from-IsValid b [] p h = h
run_from-IsValid b (e ∷ es) p h =
    run_from-IsValid (step b e) es (omega (arith, step-failure_threshold b e, p))
      (step-IsValid b e p h)

-- After any calls of a new breaker with a positive threshold, in any order and at any times: while
-- it is closed its failure count is below the threshold, in the half-open state a probe is
-- outstanding, and in the other two states there is none.
pub run-IsValid :
    (name : String) (threshold timeout : ℕ) (es : List Event)
    → 0 < threshold
    → IsValid (run (new name threshold timeout) es)
run-IsValid name threshold timeout es h =
    run_from-IsValid (new name threshold timeout) es (unfold new in h)
      (new-IsValid name threshold timeout h)
