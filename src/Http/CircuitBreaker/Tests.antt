-- ===== src/Http/CircuitBreaker/Tests.antt =====
-- The breaker at concrete inputs.
use tr_shared_lib.Base.{◌≡◌, refl, true, false, List, [], ◌∷◌, arith, inr}
use tr_shared_lib.Http.CircuitBreaker.{
  CircuitBreaker, opened, Event, ask, failure, success, new, is_open, record_failure, run, answers,
}
use tr_shared_lib.Http.CircuitBreaker.Invariant.{IsValid, run-IsValid}
use tr_shared_lib.Http.CircuitBreaker.Traces.{
  run-failures, answers-record_failure, answers_one_probe,
}

abbrev mixed : List Event
mixed = failure 1 ∷ failure 2 ∷ ask 5 ∷ ask 70 ∷ success ∷ failure 90 ∷ []

run-IsValid_example : IsValid (run (new "crm" 2 60) mixed)
run-IsValid_example = run-IsValid "crm" 2 60 mixed (omega arith)

run-failures_example : (run (new "crm" 2 60) (failure 1 ∷ failure 7 ∷ [])).state ≡ opened
run-failures_example = run-failures "crm" 2 60 (1 ∷ 7 ∷ []) (omega arith)

answers-record_failure_example :
    answers (record_failure 10 (new "crm" 1 60)) (10 ∷ 69 ∷ []) ≡ true ∷ true ∷ []
answers-record_failure_example =
    answers-record_failure (new "crm" 1 60) 10 (10 ∷ 69 ∷ []) (inr (unfold new in omega arith))
      (unfold new in omega arith)

abbrev tripped : CircuitBreaker
tripped = record_failure 10 (new "crm" 1 60)

answers_one_probe_example : answers tripped (70 ∷ 71 ∷ 129 ∷ []) ≡ false ∷ true ∷ true ∷ []
unfolding record_failure new
answers_one_probe_example =
    answers_one_probe tripped 70 (71 ∷ 129 ∷ []) refl (omega arith) (omega arith)

-- A probe that never reports is replaced.
lost_probe : answers tripped (70 ∷ 130 ∷ 131 ∷ []) ≡ false ∷ false ∷ true ∷ []
unfolding answers is_open record_failure new
lost_probe = refl
