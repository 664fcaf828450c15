-- ===== src/Middleware/ErrorHandler.antt =====
-- `GlobalErrorHandlerMiddleware` of src/tr_shared/middleware/error_handler.py. The application behind,
-- JSON, the hash and the clock are parameters. The alerts wait in a list until their tasks run; the
-- layout of a message and the pool of connections to Slack are left out.
pub mod Outages
mod Tests
use tr_shared_lib.Base.{
  ℕ, ◌+◌, String, Option, none, some, Bool, true, false, ◌&&◌, ◌||◌, not, List, [], ◌∷◌, ◌++◌, any,
  leb, ◌==◌, str_eq, if◌then◌else◌,
}
use tr_shared_lib.Base.Dict.{Dict, insert}
use tr_shared_lib.Base.Effect.{Exn, Result, ok, raised, Effect, pure, try, ◌>>=◌, ◌>>◌}
use tr_shared_lib.Base.Text.{codes, lower, same_text, str}
use tr_shared_lib.Alerts.{SlackAlertBudget, allow}
use tr_shared_lib.Errors.Envelope.{build_error_envelope, framework_error_code, internal_code}
use tr_shared_lib.Errors.Handlers.{
  outage_value, connect_failed, connection_lost, pool_exhausted, statement_timeout,
}
use Prim.Native.String

pub record Answer (B : Type 0) : Type 0 where
  pub status_code : ℕ
  pub raw_headers : Dict String
  pub body : B

-- a body that the application still has to send, or one in hand
pub data Body (B R : Type 0) : Type 0 where
  unread : R → Body B R
  known : B → Body B R

-- the ids of a user, none where they are None or missing
pub record Ids : Type 0 where
  pub user_id : Option String
  pub tenant_id : Option String

-- what the request's state holds: `user` is one that has `get`, or an object
pub data User : Type 0 where
  mapping object : Ids → User

pub record Request : Type 0 where
  pub path : String
  pub query : String
  pub method : String
  -- an `auth_context` that is there and true
  pub auth_context : Option Ids
  pub user : Option User
  pub correlation_id : Option String

pub record AlertContext : Type 0 where
  pub path : String
  pub query : String
  pub method : String
  pub status_code : ℕ
  pub error : String
  pub error_type : String
  pub error_code : Option String
  pub user_id : Option String
  pub tenant_id : Option String
  pub correlation_id : String
  pub traceback : Option String
  pub response_body : String

-- `B` is a body that was read, `R` one that was not, `V` a value of JSON.
pub record Handler (S B R V : Type 0) : Type 0 where
  pub service_name : String
  pub environment : String
  pub slack_webhook_url : String
  pub alert_on_5xx : Bool
  pub hash_pii : Bool
  pub code_prefix : Option String
  -- the application behind, and the reading of its body
  pub call_next : Request → Effect S (Answer R)
  pub read : R → Effect S B
  -- `json.loads(body)["error"]["code"]`, where it is a text
  pub error_code : B → Option String
  -- the first 500 characters of a body
  pub body_text : B → String
  -- the first sixteen characters of the SHA-256
  pub digest : String → String
  pub text : String → V
  -- the body of a `JSONResponse` with this under "error"
  pub render : Dict V → B
  -- the text, the type and the traceback of an exception
  pub text_of : Exn → String
  pub type_name : Exn → String
  pub traceback_of : Exn → String

-- the application's state, and the alerts whose tasks were created
pub record World (S : Type 0) : Type 0 where
  pub app : S
  pub pending_alerts : List AlertContext

unfoldable pub text_or : String → String → String
text_or text other_text = if str_eq text "" then other_text else text

-- `str(value)` of a text or None
unfoldable pub str_or_none : Option String → String
str_or_none none = "None"
str_or_none (some text) = text

unfoldable pub as_texts : Ids → Option String × Option String
as_texts ids = (some (str_or_none ids.user_id), some (str_or_none ids.tenant_id))

unfoldable pub identity_of_user : Option User → Option String × Option String
identity_of_user none = (none, none)
identity_of_user (some (mapping ids)) = (ids.user_id, ids.tenant_id)
identity_of_user (some (object ids)) = as_texts ids

-- `_extract_identity`
unfoldable pub identity_of : Option Ids → Option User → Option String × Option String
identity_of none user = identity_of_user user
identity_of (some ids) user = as_texts ids

unfoldable pub extract_identity : Request → Option String × Option String
extract_identity request = identity_of request.auth_context request.user

-- `name in response.headers`
unfoldable pub has_header : String → Dict String → Bool
has_header name [] = false
has_header name ((other_name, value) ∷ headers) =
    same_text (lower (codes other_name)) (lower (codes name)) || has_header name headers

unfoldable pub unpaged_error_codes : List String
unpaged_error_codes =
    outage_value connect_failed
    ∷ outage_value connection_lost
    ∷ outage_value pool_exhausted
    ∷ outage_value statement_timeout
    ∷ []

unfoldable pub is_unpaged_code : Option String → Bool
is_unpaged_code none = false
is_unpaged_code (some code) = any (str_eq code) unpaged_error_codes

unfoldable pub is_unpaged : ℕ → Dict String → Option String → Bool
is_unpaged status_code headers code =
    (status_code == 503 && has_header "Retry-After" headers) || is_unpaged_code code

-- `{k: v for k, v in raw_headers}`
unfoldable pub as_dict : Dict String → Dict String → Dict String
as_dict [] headers = headers
as_dict ((name, value) ∷ raw_headers) headers = as_dict raw_headers (insert name value headers)

unfoldable pub or_unknown : Option String → String
or_unknown none = "unknown"
or_unknown (some correlation_id) = correlation_id

module _ {S B R V : Type 0} (h : Handler S B R V) where
  -- `_hash_identifier(value) if value else None`
  unfoldable pub hash_identifier : Option String → Option String
  hash_identifier none = none
  hash_identifier (some value) = if str_eq value "" then none else some (h.digest value)

  unfoldable pub shown : Option String → Option String
  shown value = if h.hash_pii then hash_identifier value else value

  unfoldable pub build_context :
      Request → ℕ → String → String → Option String → Option String → String → AlertContext
  build_context request status_code error error_type error_code traceback response_body =
      let identity = extract_identity request in
      record {
        path = request.path;
        query = request.query;
        method = request.method;
        status_code = status_code;
        error = text_or error (String.◌++◌ "HTTP " (str status_code));
        error_type = text_or error_type (String.◌++◌ "HTTP" (str status_code));
        error_code = error_code;
        user_id = shown identity.0;
        tenant_id = shown identity.1;
        correlation_id = or_unknown request.correlation_id;
        traceback = traceback;
        response_body = response_body;
      }

  -- `_fire_alert`
  unfoldable pub fire_alert : AlertContext → Effect (World S) (Unit {0})
  fire_alert ctx w =
      if str_eq h.slack_webhook_url ""
      then (ok tt, w)
      else (ok tt, record w { pending_alerts = ctx ∷ w.pending_alerts })

  -- the key of an alert in the budget, and whether its task sends a message
  unfoldable pub alert_key : AlertContext → String
  alert_key ctx = String.◌++◌ h.service_name (
      String.◌++◌ ":"
        (elim ctx.error_code [ some code ↦ text_or code ctx.error_type | none ↦ ctx.error_type ]))

  unfoldable pub send_slack_alert : AlertContext → ℕ → SlackAlertBudget → Bool × SlackAlertBudget
  send_slack_alert ctx now budget = allow (alert_key ctx) now budget

  unfoldable pub in_app : {A : Type 0} → Effect S A → Effect (World S) A
  in_app m w = let (r, s) = m w.app in (r, record w { app = s })

  unfoldable pub page_unless : Bool → AlertContext → Effect (World S) (Unit {0})
  page_unless unpaged ctx = if unpaged then pure tt else fire_alert ctx

  unfoldable pub rebuilt : Answer R → B → Answer (Body B R)
  rebuilt answer body = record {
    status_code = answer.status_code;
    raw_headers = as_dict answer.raw_headers [];
    body = known body;
  }

  unfoldable pub report : Request → Answer R → B → Effect (World S) (Answer (Body B R))
  report request answer body =
      page_unless (is_unpaged answer.status_code answer.raw_headers (h.error_code body))
        (build_context request answer.status_code "" "" (h.error_code body) none (h.body_text body))
      >> pure (rebuilt answer body)

  unfoldable pub is_reported : ℕ → Bool
  is_reported status_code = h.alert_on_5xx && leb 500 status_code

  unfoldable pub read_and_report : Request → Answer R → Effect (World S) (Answer (Body B R))
  read_and_report request answer =
      in_app (h.read answer.body) >>= λ body. report request answer body

  unfoldable pub internal_answer : Request → Result String → Result (Answer (Body B R))
  internal_answer request (raised e) = raised e
  internal_answer request (ok code) = ok (record {
    status_code = 500;
    raw_headers = ("content-type", "application/json") ∷ [];
    body = known (
        h.render (
          build_error_envelope h.text "Internal server error" (some code)
            (some (or_unknown request.correlation_id)) []));
  })

  -- `except Exception`
  unfoldable pub on_exception : Request → Exn → Effect (World S) (Answer (Body B R))
  on_exception request e =
      fire_alert
        (build_context request 500 (h.text_of e) (h.type_name e) none (some (h.traceback_of e)) "")
      >> λ w. (internal_answer request (framework_error_code h.code_prefix internal_code), w)

  unfoldable pub answered : Request → Answer R → Effect (World S) (Answer (Body B R))
  answered request answer =
      if is_reported answer.status_code
      then read_and_report request answer
      else pure (record {
        status_code = answer.status_code;
        raw_headers = answer.raw_headers;
        body = unread answer.body;
      })

  unfoldable pub dispatch : Request → Effect (World S) (Answer (Body B R))
  dispatch request = try (in_app (h.call_next request) >>= answered request) (on_exception request)
