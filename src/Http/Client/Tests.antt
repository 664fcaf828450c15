-- ===== src/Http/Client/Tests.antt =====
-- The client at concrete inputs.
use tr_shared_lib.Base.{
  ℕ, zero, suc, ◌≡◌, ◌≢◌, refl, Bool, Option, none, some, [], ◌∷◌, ltb, not, leb, ◌&&◌,
}
use tr_shared_lib.Base.Text.{Text, codes}
use tr_shared_lib.Http.CircuitBreaker
use tr_shared_lib.Http.CircuitBreaker.{CircuitBreaker, is_open, record_failure, record_success}
use tr_shared_lib.Http.Client.{
  Attempt, response, request_error, returned, json, circuit_open, new, request,
}
use tr_shared_lib.Http.Client.Laws.{Sends, Reported, IsQuiet, request-Sends, request-Reported}

-- httpx raises for every status that is not 2xx.
abbrev raises : ℕ → Bool
raises status = not (leb 200 status && ltb status 300)

abbrev decode : Text → Option ℕ
decode [] = none
decode (c ∷ text) = some c

abbrev flaky : ℕ → Attempt × ℕ × (CircuitBreaker → CircuitBreaker)
flaky zero = (request_error, 1, λ b. b)
flaky (suc zero) =
    (response (record { status_code = 503; content_type = []; text = [] }), 5, λ b. b)
flaky (suc (suc n)) = (
  response
      (record { status_code = 200; content_type = codes "Application/JSON"; text = codes "7" }),
  9,
  λ b. b,
)

abbrev fresh : CircuitBreaker
fresh = CircuitBreaker.new "crm" 3 60

third_time : (request raises decode flaky 0 (new 3 fresh)).0 ≡ returned (json b'7')
unfolding request new CircuitBreaker.new is_open record_failure record_success
third_time = refl

request-Sends_example : Sends 2 0 (new 3 fresh) (request raises decode flaky 0 (new 3 fresh)).1
unfolding new CircuitBreaker.new is_open
request-Sends_example = request-Sends raises decode flaky 0 2 (new 3 fresh) refl refl

quiet : IsQuiet raises decode flaky
quiet zero b = refl
quiet (suc zero) b = refl
quiet (suc (suc n)) b = refl

request-Reported_example :
    let (o, c') = request raises decode flaky 0 (new 2 fresh) in
    (o ≢ circuit_open) × Reported 0 2 o c'.circuit.failure_count
unfolding new CircuitBreaker.new is_open
request-Reported_example = request-Reported raises decode flaky 0 (new 2 fresh) quiet refl
