-- ===== src/Errors/Handlers.antt =====
-- src/tr_shared/middleware/exception_handlers.py and src/tr_shared/db/exception_handlers.py: the
-- response to an exception. `V` is a value of JSON, and `text` that of a text.
pub mod Outage
mod Tests
use tr_shared_lib.Base.{
  ℕ, String, Option, none, some, Bool, true, false, ◌||◌, not, List, [], ◌∷◌, ◌++◌, str_eq,
  if◌then◌else◌, any,
}
use tr_shared_lib.Base.Dict.{Dict}
use tr_shared_lib.Base.Effect.{Result, ok, raised}
use tr_shared_lib.Base.Text.{Text, codes, lower, same_text, str}
use tr_shared_lib.Errors.Envelope.{build_error_envelope, framework_error_code, validation_code}
use tr_shared_lib.Errors.Exceptions.{
  ErrorCategory, category_value, BaseApiException, service_unavailable_error, service_timeout_error,
}
use Prim.Native.String

-- `content` is what stands under "error", none for a response with no body.
pub record Response (V : Type 0) : Type 0 where
  pub status_code : ℕ
  pub content : Option (Dict V)
  pub headers : Option (Dict String)

abbrev pub transport_headers : List String
transport_headers = "content-length" ∷ "content-type" ∷ "transfer-encoding" ∷ "connection" ∷ []

unfoldable pub is_transport : String → Bool
is_transport name = any (λ header. same_text (codes header) (lower (codes name))) transport_headers

unfoldable pub safe : Dict String → Dict String
safe [] = []
safe ((name, value) ∷ headers) =
    let rest = safe headers in if is_transport name then rest else (name, value) ∷ rest

-- `_safe_headers`
unfoldable pub safe_headers : Option (Dict String) → Option (Dict String)
safe_headers none = none
safe_headers (some headers) = some (safe headers)

unfoldable pub default_code_suffix : Option ErrorCategory → ℕ → String
default_code_suffix none status_code = String.◌++◌ "HTTP_" (str status_code)
default_code_suffix (some category) status_code = String.◌++◌ (category_value category) "_000"

-- `a or b`, where `b` may raise
unfoldable pub or_else : Option String → Result String → Result String
or_else none other_code = other_code
or_else (some code) other_code = if str_eq code "" then other_code else ok code

-- The code of a database outage.
pub data DatabaseOutageCode : Type 0 where
  connect_failed connection_lost pool_exhausted statement_timeout : DatabaseOutageCode

unfoldable pub outage_value : DatabaseOutageCode → String
outage_value connect_failed = "DATABASE_UNAVAILABLE_001"
outage_value connection_lost = "DATABASE_UNAVAILABLE_002"
outage_value pool_exhausted = "DATABASE_UNAVAILABLE_003"
outage_value statement_timeout = "DATABASE_TIMEOUT_001"

abbrev pub unavailable_retry_after_seconds : ℕ
unavailable_retry_after_seconds = 1

-- The errors of the database that have a handler.
pub data DatabaseFailure : Type 0 where
  database_unavailable : DatabaseOutageCode → DatabaseFailure
  pool_timeout database_timeout : DatabaseFailure

-- `code_prefix` is the application's, `correlation_id` the request's.
module _ {V : Type 0} (text : String → V) (code_prefix correlation_id : Option String) where
  unfoldable pub as_text : Option String → Option V
  as_text none = none
  as_text (some detail) = some (text detail)

  unfoldable pub with_code : BaseApiException V → Result String → Result (Response V)
  with_code e (raised f) = raised f
  with_code e (ok code) = ok (record {
    status_code = e.status_code;
    content = some (
        build_error_envelope text e.error (some code) correlation_id
          (("detail", as_text e.detail_message) ∷ e.extra));
    headers = safe_headers e.headers;
  })

  unfoldable pub base_api_exception_handler : BaseApiException V → Result (Response V)
  base_api_exception_handler e = with_code e (
      or_else e.error_code
        (framework_error_code code_prefix (default_code_suffix e.category e.status_code)))

  unfoldable pub plain_response :
      ℕ → String → Dict (Option V) → Option (Dict String) → Result String → Result (Response V)
  plain_response status_code message extra headers (raised f) = raised f
  plain_response status_code message extra headers (ok code) = ok (record {
    status_code = status_code;
    content = some (build_error_envelope text message (some code) correlation_id extra);
    headers = headers;
  })

  -- `is_body_allowed_for_status_code` is FastAPI's.
  unfoldable pub http_exception_handler :
      (ℕ → Bool) → ℕ → String → Option (Dict String) → Result (Response V)
  http_exception_handler is_body_allowed status_code detail headers =
      if is_body_allowed status_code
      then plain_response status_code detail [] (safe_headers headers)
          (framework_error_code code_prefix (String.◌++◌ "HTTP_" (str status_code)))
      else ok (record { status_code = status_code; content = none; headers = safe_headers headers })

  unfoldable pub validation_exception_handler : V → Result (Response V)
  validation_exception_handler fields =
      plain_response 422 "Validation failed" (("fields", some fields) ∷ []) none
        (framework_error_code code_prefix validation_code)

  -- `_unavailable`
  unfoldable pub unavailable_response : String → DatabaseOutageCode → Result (Response V)
  unavailable_response detail code = base_api_exception_handler (
      service_unavailable_error detail (some (outage_value code))
        (some unavailable_retry_after_seconds))

  -- the handlers that `register_db_exception_handlers` adds
  unfoldable pub database_handler : DatabaseFailure → Result (Response V)
  database_handler (database_unavailable code) = unavailable_response "Database unavailable" code
  database_handler pool_timeout =
      unavailable_response "Database connection pool exhausted" pool_exhausted
  database_handler database_timeout =
      base_api_exception_handler (
        service_timeout_error "Database statement timed out"
          (some (outage_value statement_timeout)))
