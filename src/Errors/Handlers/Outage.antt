-- ===== src/Errors/Handlers/Outage.antt =====
-- What the handlers of the database's errors put in their responses.
use tr_shared_lib.Base.{ℕ, String, Option, none, some, [], ◌∷◌, ◌≡◌, refl, ap, ◌∙◌}
use tr_shared_lib.Base.Dict.{Dict, lookup, insert}
use tr_shared_lib.Base.Effect.{ok}
use tr_shared_lib.Base.Text.{str}
use tr_shared_lib.Errors.Envelope.{add_text, add_extra, build_error_envelope}
use tr_shared_lib.Errors.Exceptions.{
  plain, add_retry_after, some_headers, service_unavailable_error, service_timeout_error,
}
use tr_shared_lib.Errors.Handlers.{
  Response, is_transport, safe, safe_headers, or_else, DatabaseOutageCode, connect_failed,
  connection_lost, pool_exhausted, statement_timeout, outage_value, DatabaseFailure,
  database_unavailable, pool_timeout, database_timeout, unavailable_retry_after_seconds, as_text,
  with_code, base_api_exception_handler, unavailable_response, database_handler,
}

-- the code of a failure
abbrev pub outage_code : DatabaseFailure → DatabaseOutageCode
outage_code (database_unavailable code) = code
outage_code pool_timeout = pool_exhausted
outage_code database_timeout = statement_timeout

abbrev pub outage_status : DatabaseFailure → ℕ
outage_status (database_unavailable code) = 503
outage_status pool_timeout = 503
outage_status database_timeout = 504

abbrev pub outage_headers : DatabaseFailure → Option (Dict String)
outage_headers (database_unavailable code) = some (("Retry-After", "1") ∷ [])
outage_headers pool_timeout = some (("Retry-After", "1") ∷ [])
outage_headers database_timeout = none

-- A response to a failure: its status, its headers, and its code among what stands under "error".
abbrev pub Tells : {V : Type 0} → (String → V) → DatabaseFailure → Response V → Type 0
Tells {V} text failure r =
    (content : Dict V) × (r.content ≡ some content)
    × (r.status_code ≡ outage_status failure)
    × (r.headers ≡ outage_headers failure)
    × (lookup "code" content ≡ some (text (outage_value (outage_code failure))))

module _ {V : Type 0} (text : String → V) (code_prefix correlation_id : Option String) where
  envelope_code :
      (message code : String) (detail : V) (id : Option String)
      → lookup "code"
          (build_error_envelope text message (some code) id (("detail", some detail) ∷ []))
        ≡ some (text code)
  unfolding build_error_envelope add_text add_extra insert lookup
  envelope_code message code detail none = refl
  envelope_code message code detail (some id) = refl

  retry_after :
      safe_headers (some_headers (add_retry_after (some unavailable_retry_after_seconds) []))
      ≡ some (("Retry-After", "1") ∷ [])
  unfolding safe_headers some_headers add_retry_after insert safe is_transport str
  retry_after = refl

  -- the response to an exception with this code
  told :
      (status_code : ℕ) (error code detail : String) (headers : Option (Dict String))
      (failure : DatabaseFailure)
      → status_code ≡ outage_status failure
      → headers ≡ outage_headers failure
      → code ≡ outage_value (outage_code failure)
      → Tells text failure (record {
        status_code = status_code;
        content = some (
            build_error_envelope text error
              (some code)
              correlation_id
              (("detail", some (text detail)) ∷ []));
        headers = headers;
      })
  told status_code error code detail headers failure status same_headers same_code = (
    build_error_envelope text error (some code) correlation_id
        (("detail", some (text detail)) ∷ []),
    refl,
    status,
    same_headers,
    envelope_code error code (text detail) correlation_id
        ∙ ap (λ (c : String). some (text c)) same_code,
  )

  unavailable_response-Tells :
      (detail : String) (code : DatabaseOutageCode)
      → (r : Response V) × (unavailable_response text code_prefix correlation_id detail code ≡ ok r)
        × Tells text (database_unavailable code) r
  unfolding unavailable_response base_api_exception_handler service_unavailable_error plain or_else
      outage_value with_code as_text
  unavailable_response-Tells detail code = go code
    where
      answer : String → Response V
      answer value = record {
        status_code = 503;
        content = some (
            build_error_envelope text "Service unavailable" (some value) correlation_id
              (("detail", some (text detail)) ∷ []));
        headers =
            safe_headers (some_headers (add_retry_after (some unavailable_retry_after_seconds) []));
      }

      tells :
          (c : DatabaseOutageCode) → Tells text (database_unavailable c) (answer (outage_value c))
      tells c =
          told 503 "Service unavailable" (outage_value c) detail
            (safe_headers
              (some_headers (add_retry_after (some unavailable_retry_after_seconds) [])))
            (database_unavailable c) refl retry_after refl

      go :
          (c : DatabaseOutageCode)
          → (r : Response V) × (unavailable_response text code_prefix correlation_id detail c
              ≡ ok r)
            × Tells text (database_unavailable c) r
      go connect_failed = (answer (outage_value connect_failed), refl, tells connect_failed)
      go connection_lost = (answer (outage_value connection_lost), refl, tells connection_lost)
      go pool_exhausted = (answer (outage_value pool_exhausted), refl, tells pool_exhausted)
      go statement_timeout =
          (answer (outage_value statement_timeout), refl, tells statement_timeout)

  pub database_handler-Tells :
      (failure : DatabaseFailure)
      → (r : Response V) × (database_handler text code_prefix correlation_id failure ≡ ok r)
        × Tells text failure r
  unfolding database_handler base_api_exception_handler service_timeout_error plain or_else
      outage_value with_code as_text safe_headers
  database_handler-Tells (database_unavailable code) =
      unavailable_response-Tells "Database unavailable" code
  database_handler-Tells pool_timeout =
      unavailable_response-Tells "Database connection pool exhausted" pool_exhausted
  database_handler-Tells database_timeout = (
    record {
      status_code = 504;
      content = some (
          build_error_envelope text "Service timeout" (some (outage_value statement_timeout))
            correlation_id (("detail", some (text "Database statement timed out")) ∷ []));
      headers = none;
    },
    refl,
    told 504 "Service timeout" (outage_value statement_timeout) "Database statement timed out" none
        database_timeout refl refl refl,
  )
