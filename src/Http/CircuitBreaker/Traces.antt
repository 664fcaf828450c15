-- ===== src/Http/CircuitBreaker/Traces.antt =====
-- Runs of calls: when a breaker opens, how long it rejects, and that it admits one probe.
use tr_shared_lib.Base.{
  ℕ, ◌+◌, ◌≤◌, ◌<◌, String, ◌≡◌, Bool, true, false, some, List, [], ◌∷◌, map, length, All, arith,
  ltb, if◌then◌else◌, Bool-cases, ◌⊎◌, inl, inr,
}
use tr_shared_lib.Http.CircuitBreaker.{
  CircuitBreaker, CircuitState, closed, opened, half_open, failure, new, is_open, record_failure,
  step, run, answers,
}

abbrev pub after_failures : ℕ → ℕ → CircuitState
after_failures count threshold = if ltb count threshold then closed else opened

failures_opened :
    (b : CircuitBreaker) (ts : List ℕ) → b.state ≡ opened → (run b (map failure ts)).state ≡ opened
unfolding run step
failures_opened b [] o = o
failures_opened b (t ∷ ts) o =
    failures_opened (record_failure t b) ts (unfold record_failure in ground arith)

record_failure_below :
    (b : CircuitBreaker) (t : ℕ)
    → b.state ≡ closed
    → b.failure_count + 1 < b.failure_threshold
    → ((record_failure t b).state ≡ closed)
      × ((record_failure t b).failure_count ≡ b.failure_count + 1)
      × ((record_failure t b).failure_threshold ≡ b.failure_threshold)
unfolding record_failure
record_failure_below b t c h = (ground arith, ground arith, ground arith)

record_failure_trips :
    (b : CircuitBreaker) (t : ℕ)
    → b.failure_threshold ≤ b.failure_count + 1
    → (record_failure t b).state ≡ opened
unfolding record_failure
record_failure_trips b t h = ground arith

failures_from :
    (b : CircuitBreaker) (ts : List ℕ)
    → b.state ≡ closed
    → b.failure_count < b.failure_threshold
    → (run b (map failure ts)).state
      ≡ after_failures (b.failure_count + length ts) b.failure_threshold
unfolding run step
failures_from b [] c h = ground arith
failures_from b (t ∷ ts) c h = elim (Bool-cases (ltb (b.failure_count + 1) b.failure_threshold)) [
  | inl below ↦
      let (c', n', t') = record_failure_below b t c (ground arith) in
      ground (arith, c', n', t', failures_from (record_failure t b) ts c' (ground arith))
  | inr trips ↦
      let o = failures_opened (record_failure t b) ts (record_failure_trips b t (ground arith)) in
      ground (arith, o)
]

record_failure_opens :
    (b : CircuitBreaker) (t : ℕ)
    → (b.state ≡ half_open) ⊎ (b.failure_threshold ≤ b.failure_count + 1)
    → ((record_failure t b).state ≡ opened)
      × ((record_failure t b).opened_at ≡ t)
      × ((record_failure t b).recovery_timeout ≡ b.recovery_timeout)
unfolding record_failure
record_failure_opens b t h = (ground arith, ground arith, ground arith)

-- A new breaker with a positive threshold that sees only failures is closed while they are fewer
-- than the threshold, and open from the threshold on, whenever they come.
pub run-failures :
    (name : String) (threshold timeout : ℕ) (ts : List ℕ)
    → 0 < threshold
    → (run (new name threshold timeout) (map failure ts)).state
      ≡ after_failures (length ts) threshold
run-failures name threshold timeout ts h =
    unfold new in ground (arith, failures_from (new name threshold timeout) ts)

abbrev pub all_true : List ℕ → List Bool
all_true ts = map (λ _. true) ts

answers-opened :
    (b : CircuitBreaker) (ts : List ℕ)
    → b.state ≡ opened
    → All (λ t. t < b.opened_at + b.recovery_timeout) ts
    → answers b ts ≡ all_true ts
unfolding answers is_open
answers-opened b [] o h = ground arith
answers-opened b (t ∷ ts) o h = ground (arith, answers-opened b ts o h.1)

-- A failure in the half-open state, or one that brings the count to the threshold, makes the breaker
-- reject every call whose time is before the failure's time plus the recovery timeout.
pub answers-record_failure :
    (b : CircuitBreaker) (now : ℕ) (ts : List ℕ)
    → (b.state ≡ half_open) ⊎ (b.failure_threshold ≤ b.failure_count + 1)
    → All (λ t. t < now + b.recovery_timeout) ts
    → answers (record_failure now b) ts ≡ all_true ts
answers-record_failure b now ts trips h =
    let (o, at, same) = record_failure_opens b now trips in
    answers-opened (record_failure now b) ts o (rw (at, same) h)

answers-half_open :
    (b : CircuitBreaker) (started : ℕ) (ts : List ℕ)
    → b.state ≡ half_open
    → b.probe_started_at ≡ some started
    → All (λ t. t < started + b.recovery_timeout) ts
    → answers b ts ≡ all_true ts
unfolding answers is_open
answers-half_open b started [] o p h = ground arith
answers-half_open b started (t ∷ ts) o p h = ground (arith, answers-half_open b started ts o p h.1)

is_open_probes :
    (b : CircuitBreaker) (now : ℕ)
    → b.state ≡ opened
    → b.opened_at + b.recovery_timeout ≤ now
    → ((is_open now b).0 ≡ false)
      × ((is_open now b).1.state ≡ half_open)
      × ((is_open now b).1.probe_started_at ≡ some now)
      × ((is_open now b).1.recovery_timeout ≡ b.recovery_timeout)
unfolding is_open
is_open_probes b now o late = (ground arith, ground arith, ground arith, ground arith)

-- Once the recovery timeout of an open breaker is over, the first call is admitted as a probe, and
-- of the calls after it without a report none is admitted before another recovery timeout is over.
pub answers_one_probe :
    (b : CircuitBreaker) (now : ℕ) (ts : List ℕ)
    → b.state ≡ opened
    → b.opened_at + b.recovery_timeout ≤ now
    → All (λ t. t < now + b.recovery_timeout) ts
    → answers b (now ∷ ts) ≡ false ∷ all_true ts
unfolding answers
answers_one_probe b now ts o late h =
    let (admitted, half, started, same) = is_open_probes b now o late in
    ground (arith, admitted, answers-half_open (is_open now b).1 now ts half started (rw same h))
