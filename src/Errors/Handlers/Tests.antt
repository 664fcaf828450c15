-- ===== src/Errors/Handlers/Tests.antt =====
-- Responses to concrete exceptions; a value of JSON is a text.
use tr_shared_lib.Base.{String, none, some, false, [], ◌∷◌, ◌≡◌, refl}
use tr_shared_lib.Base.Dict.{insert}
use tr_shared_lib.Base.Effect.{ok, raised, other, value_error}
use tr_shared_lib.Base.Text.{str}
use tr_shared_lib.Errors.Envelope.{
  add_text, add_extra, build_error_envelope, is_upper, is_code_prefix, set_error_code_prefix,
  framework_error_code,
}
use tr_shared_lib.Errors.Exceptions.{
  category_value, plain, not_found_detail, not_found_error, or_no_headers, add_retry_after,
  some_headers, rate_limit_error,
}
use tr_shared_lib.Errors.Handlers.{
  is_transport, safe, safe_headers, default_code_suffix, or_else, as_text, with_code,
  base_api_exception_handler, http_exception_handler,
}

not_found :
    base_api_exception_handler
      (λ t. t)
      (some "LEAD")
      (some "c1")
      (not_found_error "Lead" (some "7") none)
    ≡ ok (record {
      status_code = 404;
      content = some (
          ("message", "Lead not found")
          ∷ ("code", "LEAD_NOT_FOUND_000")
          ∷ ("correlation_id", "c1")
          ∷ ("detail", "Lead 7 not found")
          ∷ []);
      headers = none;
    })
unfolding base_api_exception_handler not_found_error plain not_found_detail or_else
    framework_error_code default_code_suffix category_value with_code as_text build_error_envelope
    add_text add_extra insert safe_headers
not_found = refl

no_prefix :
    base_api_exception_handler {V = String} (λ t. t) none none (not_found_error "Lead" none none)
    ≡ raised other
unfolding base_api_exception_handler not_found_error plain or_else framework_error_code with_code
no_prefix = refl

-- Headers of the transport are dropped, others kept.
challenge :
    safe_headers (some (("Content-Length", "9") ∷ ("WWW-Authenticate", "Bearer") ∷ []))
    ≡ some (("WWW-Authenticate", "Bearer") ∷ [])
unfolding safe_headers safe is_transport
challenge = refl

limited :
    (rate_limit_error {V = String} "slow down" none (some 9) (some (("X-A", "1") ∷ []))).headers
    ≡ some (("X-A", "1") ∷ ("Retry-After", "9") ∷ [])
unfolding rate_limit_error or_no_headers add_retry_after some_headers insert str
limited = refl

no_body :
    http_exception_handler {V = String} (λ t. t) (some "LEAD") none (λ _. false) 204 "gone" none
    ≡ ok (record { status_code = 204; content = none; headers = none })
unfolding http_exception_handler safe_headers
no_body = refl

prefixes :
    (set_error_code_prefix "LEAD" ≡ ok "LEAD")
    × (set_error_code_prefix "Lead" ≡ raised value_error)
    × (set_error_code_prefix "" ≡ raised value_error)
unfolding set_error_code_prefix is_code_prefix is_upper
prefixes = (refl, refl, refl)
