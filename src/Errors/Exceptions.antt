-- ===== src/Errors/Exceptions.antt =====
-- src/tr_shared/exceptions.py: what each of the shared exceptions carries. `V` is a value of JSON, and
-- `extra` has none of the names that the envelope gives itself.
use tr_shared_lib.Base.{ℕ, String, Option, none, some, [], ◌∷◌, str_eq, if◌then◌else◌}
use tr_shared_lib.Base.Dict.{Dict, insert}
use tr_shared_lib.Base.Text.{str}
use Prim.Native.String

pub data ErrorCategory : Type 0 where
  validation auth forbidden not_found conflict content_too_large : ErrorCategory
  rate_limit database internal bad_gateway unavailable timeout : ErrorCategory

unfoldable pub category_value : ErrorCategory → String
category_value validation = "VALIDATION"
category_value auth = "AUTH"
category_value forbidden = "FORBIDDEN"
category_value not_found = "NOT_FOUND"
category_value conflict = "CONFLICT"
category_value content_too_large = "CONTENT_TOO_LARGE"
category_value rate_limit = "RATE_LIMIT"
category_value database = "DATABASE"
category_value internal = "INTERNAL"
category_value bad_gateway = "BAD_GATEWAY"
category_value unavailable = "UNAVAILABLE"
category_value timeout = "TIMEOUT"

pub record BaseApiException (V : Type 0) : Type 0 where
  pub category : Option ErrorCategory
  pub status_code : ℕ
  pub error : String
  pub detail_message : Option String
  pub error_code : Option String
  pub headers : Option (Dict String)
  pub extra : Dict (Option V)

unfoldable pub not_found_detail : String → Option String → String
not_found_detail resource none = String.◌++◌ resource " not found"
not_found_detail resource (some identifier) =
    if str_eq identifier ""
    then String.◌++◌ resource " not found"
    else String.◌++◌ resource (String.◌++◌ " " (String.◌++◌ identifier " not found"))

unfoldable pub or_no_headers : Option (Dict String) → Dict String
or_no_headers none = []
or_no_headers (some headers) = headers

unfoldable pub add_retry_after : Option ℕ → Dict String → Dict String
add_retry_after none headers = headers
add_retry_after (some seconds) headers = insert "Retry-After" (str seconds) headers

-- `merged or None`
unfoldable pub some_headers : Dict String → Option (Dict String)
some_headers [] = none
some_headers (header ∷ headers) = some (header ∷ headers)

module _ {V : Type 0} where
  -- an exception of a category, with no headers and no extra
  unfoldable pub plain : ErrorCategory → ℕ → String → String → Option String → BaseApiException V
  plain category status_code error detail code = record {
    category = some category;
    status_code = status_code;
    error = error;
    detail_message = some detail;
    error_code = code;
    headers = none;
    extra = [];
  }

  unfoldable pub validation_error : String → Option String → BaseApiException V
  validation_error detail code = plain validation 400 "Validation failed" detail code

  unfoldable pub authentication_error :
      String → Option String → Option (Dict String) → BaseApiException V
  authentication_error detail code headers =
      record (plain auth 401 "Authentication failed" detail code) { headers = headers }

  unfoldable pub authorization_error : String → Option String → BaseApiException V
  authorization_error detail code = plain forbidden 403 "Authorization failed" detail code

  unfoldable pub not_found_error : String → Option String → Option String → BaseApiException V
  not_found_error resource identifier code =
      plain not_found 404 (String.◌++◌ resource " not found") (not_found_detail resource identifier)
        code

  unfoldable pub conflict_error : String → Option String → BaseApiException V
  conflict_error detail code = plain conflict 409 "Conflict" detail code

  unfoldable pub content_too_large_error : String → Option String → BaseApiException V
  content_too_large_error detail code = plain content_too_large 413 "Content too large" detail code

  unfoldable pub rate_limit_error :
      String → Option String → Option ℕ → Option (Dict String) → BaseApiException V
  rate_limit_error detail code retry_after headers =
      record (plain rate_limit 429 "Rate limit exceeded" detail code) {
        headers = some_headers (add_retry_after retry_after (or_no_headers headers));
      }

  unfoldable pub database_error : String → Option String → BaseApiException V
  database_error detail code = plain database 500 "Database error" detail code

  unfoldable pub internal_server_error : String → Option String → BaseApiException V
  internal_server_error detail code = plain internal 500 "Internal server error" detail code

  unfoldable pub bad_gateway_error : String → Option String → BaseApiException V
  bad_gateway_error detail code = plain bad_gateway 502 "Bad gateway" detail code

  unfoldable pub service_unavailable_error : String → Option String → Option ℕ → BaseApiException V
  service_unavailable_error detail code retry_after =
      record (plain unavailable 503 "Service unavailable" detail code) {
        headers = some_headers (add_retry_after retry_after []);
      }

  unfoldable pub service_timeout_error : String → Option String → BaseApiException V
  service_timeout_error detail code = plain timeout 504 "Service timeout" detail code
