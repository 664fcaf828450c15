-- ===== src/Middleware/ErrorHandler/Outages.antt =====
-- From an error of the database to the alerts: an outage is answered and not paged.
use tr_shared_lib.Base.{ℕ, ◌≤◌, String, Option, some, true, ◌≡◌, refl, sym, ◌∙◌, arith}
use tr_shared_lib.Base.Dict.{Dict, lookup}
use tr_shared_lib.Base.Effect.{Result, ok}
use tr_shared_lib.Errors.Handlers.{
  Response, DatabaseOutageCode, connect_failed, connection_lost, pool_exhausted, statement_timeout,
  outage_value, DatabaseFailure, database_unavailable, pool_timeout, database_timeout,
  database_handler,
}
use tr_shared_lib.Errors.Handlers.Outage.{outage_code, outage_status, Tells, database_handler-Tells}
use tr_shared_lib.Middleware.ErrorHandler.{
  Answer, Body, known, Request, Handler, World, unpaged_error_codes, is_unpaged_code, is_unpaged,
  page_unless, rebuilt, report, in_app, is_reported, read_and_report, answered, dispatch,
}

-- The code that stands under "error" is read back from the body.
abbrev pub Renders : {S B R V : Type 0} → Handler S B R V → Type 0
Renders {S} {B} {R} {V} h =
    (content : Dict V) (code : String)
    → lookup "code" content ≡ some (h.text code)
    → h.error_code (h.render content) ≡ some code

-- The application answers a request with this response, whose body can be read.
abbrev pub Answers :
    {S B R V : Type 0}
    → Handler S B R V
    → Request
    → World S
    → Response V
    → Answer R
    → S
    → S
    → Type 0
Answers {S} {B} {R} {V} h request w response answer s s' =
    (content : Dict V) × (response.content ≡ some content)
    × (h.call_next request w.app ≡ (ok answer, s))
    × (answer.status_code ≡ response.status_code)
    × (h.read answer.body s ≡ (ok (h.render content), s'))

outage-is_unpaged_code :
    (code : DatabaseOutageCode) → is_unpaged_code (some (outage_value code)) ≡ true
unfolding is_unpaged_code unpaged_error_codes outage_value
outage-is_unpaged_code connect_failed = refl
outage-is_unpaged_code connection_lost = refl
outage-is_unpaged_code pool_exhausted = refl
outage-is_unpaged_code statement_timeout = refl

is_unpaged-code :
    (status_code : ℕ) (headers : Dict String) (code : Option String)
    → is_unpaged_code code ≡ true
    → is_unpaged status_code headers code ≡ true
unfolding is_unpaged
is_unpaged-code status_code headers code h = ground (arith, h)

outage_status-high : (failure : DatabaseFailure) → 500 ≤ outage_status failure
outage_status-high (database_unavailable code) = omega arith
outage_status-high pool_timeout = omega arith
outage_status-high database_timeout = omega arith

ok-content :
    {V : Type 0} (text : String → V) (failure : DatabaseFailure) (r r' : Response V)
    (content : Dict V)
    → ◌≡◌ {A = Result (Response V)} (ok r) (ok r')
    → Tells text failure r'
    → r.content ≡ some content
    → (lookup "code" content ≡ some (text (outage_value (outage_code failure))))
      × (r.status_code ≡ outage_status failure)
ok-content text failure r r' content same tells e =
    let (content', there, status, headers, code) = tells in
    (ground (arith, same, there, code, e), ground (arith, same, status))

module _ {S B R V : Type 0} (h : Handler S B R V) where
  -- an answer of 500 and more that is not paged
  dispatch-unpaged :
      (request : Request) (w : World S) (answer : Answer R) (body : B) (s s' : S)
      → h.call_next request w.app ≡ (ok answer, s)
      → h.read answer.body s ≡ (ok body, s')
      → is_reported h answer.status_code ≡ true
      → is_unpaged answer.status_code answer.raw_headers (h.error_code body) ≡ true
      → dispatch h request w
        ≡ (ok (rebuilt h answer body), record { app = s'; pending_alerts = w.pending_alerts })
  unfolding dispatch answered read_and_report in_app report page_unless
  dispatch-unpaged request w answer body s s' called got reported unpaged =
      ground (arith, called, got, reported, unpaged)

  -- Where the code under "error" is read back from a rendered body and answers of 500 and more are
  -- looked at: when the application answers a request with what the handlers make of a failure of the
  -- database, the middleware passes on that body with the status of the failure, 503 or 504, and
  -- queues no alert.
  pub dispatch-outage :
      (failure : DatabaseFailure) (correlation_id : Option String) (request : Request) (w : World S)
      (response : Response V) (answer : Answer R) (s s' : S)
      → Renders h
      → h.alert_on_5xx ≡ true
      → database_handler h.text h.code_prefix correlation_id failure ≡ ok response
      → Answers h request w response answer s s'
      → (passed : Answer (Body B R)) × (dispatch h request w
          ≡ (ok passed, record { app = s'; pending_alerts = w.pending_alerts }))
        × (passed.status_code ≡ outage_status failure)
        × ((content : Dict V) × (response.content ≡ some content)
            × (passed.body ≡ known (h.render content)))
  unfolding rebuilt is_reported
  dispatch-outage failure correlation_id request w response answer s s' renders alerts handled
        answers =
      let (content, there, called, status, got) = answers in
      let (r, made, tells) = database_handler-Tells h.text h.code_prefix correlation_id failure in
      let (code, outage) =
        ok-content h.text failure response r content (sym handled ∙ made) tells there in
      let read_back = renders content (outage_value (outage_code failure)) code in
      (
        rebuilt h answer (h.render content),
        dispatch-unpaged request w answer (h.render content) s s' called got
            (ground (arith, alerts, status, outage, outage_status-high failure))
            (is_unpaged-code answer.status_code answer.raw_headers (h.error_code (h.render content))
              (rw read_back (outage-is_unpaged_code (outage_code failure)))),
        status ∙ outage,
        (content, there, refl),
      )
