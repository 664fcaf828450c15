-- ===== src/Http/InternalClient.antt =====
-- src/tr_shared/http/internal_client.py: `InternalServiceClient._call`, to which every verb method goes,
-- on what the HTTP client's request ends with. `J` is a value of JSON.
use tr_shared_lib.Base.{
  ℕ, String, Option, none, some, Bool, List, [], ◌∷◌, str_eq, any, ◌==◌, if◌then◌else◌, ◌≡◌, refl,
  arith,
}
use tr_shared_lib.Base.Dict.{Dict}
use tr_shared_lib.Base.Text.{str}
use tr_shared_lib.Http.Client.{
  Outcome, returned, circuit_open, client_error, crashed, exhausted, Reply, no_content, raw, json,
}
use tr_shared_lib.Errors.Exceptions.{
  BaseApiException, plain, validation_error, authentication_error, authorization_error,
  not_found_error, conflict_error, rate_limit_error, service_unavailable_error,
}
use Prim.Native.String

-- `text.removesuffix(suffix)`
unfoldable pub remove_suffix : String → String → String
remove_suffix String.[] suffix = ""
remove_suffix (String.◌∷◌ c text) suffix =
    let rest = remove_suffix text suffix in
    if str_eq (String.◌∷◌ c text) suffix then "" else String.◌∷◌ c rest

-- The response of a refusal: its text, and the texts under "error", where the body is an object that
-- has one; a text that is empty or missing is none.
pub record ErrorResponse : Type 0 where
  pub text : String
  pub message : Option String
  pub detail : Option String
  pub code : Option String

-- A call gives the data, nothing for a 204, an exception of the shared ones, or another exception.
pub data CallResult (J V : Type 0) : Type 0 where
  value : J → CallResult J V
  nothing : CallResult J V
  failed : BaseApiException V → CallResult J V
  broken : CallResult J V

unfoldable pub first_text : Option String → String → String
first_text none other_text = other_text
first_text (some text) other_text = text

unfoldable pub message_of : ErrorResponse → String
message_of r = first_text r.message (if str_eq r.text "" then "Internal error" else r.text)

module _ {V : Type 0} where
  -- `_translate_status_error`
  unfoldable pub translate_status_error : ℕ → ErrorResponse → BaseApiException V
  translate_status_error status r =
      let message = message_of r in
      let detail = first_text r.detail message in
      if status == 400
      then validation_error detail r.code
      else if status == 401
      then authentication_error detail r.code none
      else if status == 403
      then authorization_error detail r.code
      else if status == 404
      then not_found_error (remove_suffix message " not found") none r.code
      else if status == 409
      then conflict_error detail r.code
      else if status == 429
      then rate_limit_error detail r.code none none
      else service_unavailable_error detail r.code none

  unfoldable pub unavailable_as : String → String → BaseApiException V
  unavailable_as detail code = service_unavailable_error detail (some code) none

  module _ {J : Type 0} (is_object is_empty : J → Bool) (data_of : J → Option J) where
    -- `_envelope_data`, of an object
    unfoldable pub data_or_missing : Option J → CallResult J V
    data_or_missing none =
        failed (
          unavailable_as "Internal response missing 'data' field" "INTERNAL_CLIENT_UNAVAILABLE_003")
    data_or_missing (some v) = value v

    unfoldable pub envelope_data : J → CallResult J V
    envelope_data envelope =
        if is_object envelope
        then data_or_missing (data_of envelope)
        else failed (
            unavailable_as "Internal response was not a JSON object"
              "INTERNAL_CLIENT_UNAVAILABLE_002")

    -- a reply with no JSON in it comes as `{"raw": …}`, which has no "data"
    unfoldable pub after_reply : Reply J → CallResult J V
    after_reply no_content = nothing
    after_reply (raw text) = data_or_missing none
    after_reply (json envelope) = if is_empty envelope then nothing else envelope_data envelope

    -- `_call`: the clauses for other exceptions of httpx stand behind a client that turns those into
    -- `ConnectionError`
    unfoldable pub call : String → ℕ → ErrorResponse → Outcome J → CallResult J V
    call service_name max_retries response (returned reply) = after_reply reply
    call service_name max_retries response (client_error status) =
        failed (translate_status_error status response)
    call service_name max_retries response circuit_open = failed (
        unavailable_as
          (String.◌++◌ "Circuit breaker open for "
            (String.◌++◌ service_name " — requests rejected"))
          "INTERNAL_CLIENT_UNAVAILABLE_001")
    call service_name max_retries response exhausted = failed (
        unavailable_as
          (String.◌++◌ service_name
            (String.◌++◌ ": failed after " (String.◌++◌ (str max_retries) " retries")))
          "INTERNAL_CLIENT_UNAVAILABLE_001")
    call service_name max_retries response crashed = broken

-- the path, and the headers with the tenant
unfoldable pub full_path : String → String → String
full_path base_path path = if str_eq base_path "" then path else String.◌++◌ base_path path

unfoldable pub tenant_headers : Option String → Dict String
tenant_headers none = []
tenant_headers (some tenant_id) = ("X-Tenant-ID", tenant_id) ∷ []

-- the statuses that have an exception of their own
abbrev translated : List ℕ
translated = 400 ∷ 401 ∷ 403 ∷ 404 ∷ 409 ∷ 429 ∷ []

-- A refusal keeps its status where the shared exceptions have one for it, and is a 503 otherwise; it
-- keeps its code.
translate_status_error_lem :
    (V : Type 0) (status : ℕ) (r : ErrorResponse)
    → let e : BaseApiException V = translate_status_error status r in
      (e.status_code ≡ (if any (λ known. status == known) translated then status else 503))
      × (e.error_code ≡ r.code)
unfolding translate_status_error validation_error authentication_error authorization_error
    not_found_error conflict_error rate_limit_error service_unavailable_error plain
translate_status_error_lem V status r = ground arith

removed : remove_suffix "Lead not found" " not found" ≡ "Lead"
unfolding remove_suffix
removed = refl
