-- ===== src/Middleware/ErrorHandler/Tests.antt =====
-- The middleware in front of an application that fails, or answers with an outage of the database. A body
-- is what stands under "error", and a value of JSON is a text.
use tr_shared_lib.Base.{ℕ, String, none, some, true, [], ◌∷◌, ◌≡◌, refl}
use tr_shared_lib.Base.Dict.{Dict, lookup, insert}
use tr_shared_lib.Base.Effect.{other, ok, Effect, pure, raise}
use tr_shared_lib.Base.Text.{str}
use tr_shared_lib.Errors.Envelope.{add_text, add_extra, build_error_envelope, framework_error_code}
use tr_shared_lib.Errors.Exceptions.{
  plain, add_retry_after, some_headers, service_unavailable_error,
}
use tr_shared_lib.Errors.Handlers.{
  Response, is_transport, safe, safe_headers, or_else, outage_value, pool_timeout, as_text,
  with_code, base_api_exception_handler, unavailable_response, database_handler,
}
use tr_shared_lib.Errors.Handlers.Outage.{outage_status}
use tr_shared_lib.Middleware.ErrorHandler.{
  Answer, Body, known, Request, Handler, World, text_or, str_or_none, as_texts, identity_of,
  extract_identity, as_dict, or_unknown, hash_identifier, shown, build_context, fire_alert, in_app,
  page_unless, rebuilt, report, is_reported, read_and_report, internal_answer, on_exception,
  answered, dispatch, is_unpaged, is_unpaged_code,
}
use tr_shared_lib.Middleware.ErrorHandler.Outages.{Renders, dispatch-outage}

abbrev JsonBody : Type 0
JsonBody = Dict String

abbrev request : Request
request = record {
  path = "/leads";
  query = "";
  method = "GET";
  auth_context = some (record { user_id = some "u1"; tenant_id = none });
  user = none;
  correlation_id = some "c1";
}

abbrev handler : Effect ℕ (Answer JsonBody) → Handler ℕ JsonBody JsonBody String
handler application = record {
  service_name = "lead";
  environment = "test";
  slack_webhook_url = "https://hook";
  alert_on_5xx = true;
  hash_pii = true;
  code_prefix = some "LEAD";
  call_next = λ _. application;
  read = λ body s. (ok body, s);
  error_code = λ body. lookup "code" body;
  body_text = λ _. "body";
  digest = λ value. "hash";
  text = λ t. t;
  render = λ content. content;
  text_of = λ _. "boom";
  type_name = λ _. "RuntimeError";
  traceback_of = λ _. "traceback";
}

abbrev world : World ℕ
world = record { app = 0; pending_alerts = [] }

-- An exception: one alert, with hashes for the user, and for the tenant that is not there.
failed :
    (dispatch (handler (raise other)) request world).1.pending_alerts
    ≡ record {
      path = "/leads";
      query = "";
      method = "GET";
      status_code = 500;
      error = "boom";
      error_type = "RuntimeError";
      error_code = none;
      user_id = some "hash";
      tenant_id = some "hash";
      correlation_id = "c1";
      traceback = some "traceback";
      response_body = "";
    }
      ∷ []
unfolding dispatch in_app answered on_exception fire_alert build_context extract_identity
    identity_of as_texts str_or_none shown hash_identifier text_or or_unknown internal_answer
    framework_error_code
failed = refl

abbrev twice : Answer JsonBody
twice = record {
  status_code = 502;
  raw_headers = ("set-cookie", "a=1") ∷ ("set-cookie", "b=2") ∷ [];
  body = [];
}

-- Of two cookies of a reported answer the second stays.
cookies :
    (dispatch (handler (pure twice)) request world).0
    ≡ ok (record { status_code = 502; raw_headers = ("set-cookie", "b=2") ∷ []; body = known [] })
unfolding dispatch in_app answered is_reported read_and_report report page_unless is_unpaged
    is_unpaged_code lookup fire_alert rebuilt as_dict insert
cookies = refl

abbrev outage_content : Dict String
outage_content =
    ("message", "Service unavailable")
    ∷ ("code", "DATABASE_UNAVAILABLE_003")
    ∷ ("detail", "Database connection pool exhausted")
    ∷ []

abbrev outage : Response String
outage = record {
  status_code = 503;
  content = some outage_content;
  headers = some (("Retry-After", "1") ∷ []);
}

outage_lem : database_handler (λ t. t) (some "LEAD") none pool_timeout ≡ ok outage
unfolding database_handler unavailable_response base_api_exception_handler service_unavailable_error
    plain or_else outage_value with_code as_text build_error_envelope add_text add_extra insert
    safe_headers safe is_transport some_headers add_retry_after str
outage_lem = refl

abbrev answer : Answer JsonBody
answer = record {
  status_code = 503;
  raw_headers = ("Retry-After", "1") ∷ [];
  body = outage_content;
}

renders : Renders (handler (pure answer))
renders content code h = h

dispatch-outage_example :
    (passed : Answer (Body JsonBody JsonBody)) × (dispatch (handler (pure answer)) request world
      ≡ (ok passed, record { app = 0; pending_alerts = [] }))
    × (passed.status_code ≡ outage_status pool_timeout)
    × ((content : Dict String) × (outage.content ≡ some content)
        × (passed.body ≡ known ((handler (pure answer)).render content)))
dispatch-outage_example =
    dispatch-outage (handler (pure answer)) pool_timeout none request world outage answer 0 0
      renders refl outage_lem (outage_content, refl, refl, refl, refl)
