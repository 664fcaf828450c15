-- ===== src/Webhooks/Endpoint.antt =====
-- `receive_webhook`, the route that src/tr_shared/webhooks/endpoint.py registers for a provider, and
-- the routes beside it. Parameters: JSON, SHA-256, the clock, `str` of a number, and the collaborators
-- that the factory is given.
pub mod Checks
pub mod Accepted
use tr_shared_lib.Base.{
  ℕ, String, Option, none, some, Bool, true, false, ◌&&◌, ◌||◌, not, List, [], ◌∷◌, str_eq,
  if◌then◌else◌,
}
use tr_shared_lib.Base.Dict.{Dict, lookup, insert}
use tr_shared_lib.Base.Effect.{
  Exn, redis_error, redis_connection, redis_timeout, os_error, value_error, cancelled, other,
  Result, ok, raised, Effect, pure, raise, try, when, ◌>>=◌, ◌>>◌,
}
use tr_shared_lib.Base.Text.{str}
use tr_shared_lib.RateLimiter.Core.Dependency.{first_denied}
use tr_shared_lib.RateLimiter.Schemas.{RateLimitInfo, RateLimitResult}
use tr_shared_lib.Webhooks.Idempotency.{GuardRedis, WebhookIdempotencyGuard, is_duplicate}
use tr_shared_lib.Webhooks.Router.{WebhookRouter, dispatch}
use tr_shared_lib.Webhooks.Schemas.{
  WebhookEvent, ProviderConfig, WebhookResult, Body, error_envelope, webhook_result, Response,
  Request,
}
use tr_shared_lib.Webhooks.Verifier.{Verify, handle_handshake}
use Prim.Native.String.{◌++◌}

-- JSON values: parsing, and `payload.get(name)` as a text, which raises where the payload is no object
pub record Json (J : Type 0) : Type 0 where
  pub loads : String → Option J
  pub get : J → String → Result (Option String)

pub record Limiter (S : Type 0) : Type 0 where
  pub build_key : String → String → String → String
  pub check : String → Effect S RateLimitInfo

-- What the factory `create_webhook_router` is given for one provider.
pub record Provider (J S : Type 0) : Type 0 where
  pub config : ProviderConfig
  pub verifier : Option Verify
  pub guard : Option WebhookIdempotencyGuard
  pub publish : Option (WebhookEvent J → Effect S (Unit {0}))
  pub router : Option (WebhookRouter J S)
  pub limiter : Option (Limiter S)
  pub tenant_resolver : Option (String → Dict String → J → Option String)
  pub response_status_code : ℕ

-- Starlette has the names of the headers in lower case.
unfoldable pub correlation_id : Request → Option String
correlation_id request = lookup "x-correlation-id" request.headers

unfoldable pub extract_field : {J : Type 0} → Json J → J → List String → Result String
extract_field json payload [] = ok ""
extract_field json payload (name ∷ names) = elim (json.get payload name) [
  | raised e ↦ raised e
  | ok none ↦ extract_field json payload names
  | ok (some value) ↦ ok value
]

-- `{k.lower(): v for k, v in request.headers.items()}`, onto what is there
unfoldable pub lower_headers : (String → String) → Dict String → Dict String → Dict String
lower_headers lower acc [] = acc
lower_headers lower acc ((k, v) ∷ headers) = lower_headers lower (insert (lower k) v acc) headers

abbrev failure : ℕ → String → String → Option String → Response
failure status message code correlation = record {
  status_code = status;
  content = error_envelope message code correlation;
  headers = [];
}

abbrev success : ℕ → String → String → String → Response
success status name event_id message = record {
  status_code = status;
  content = webhook_result (record { status = name; event_id = event_id; message = message });
  headers = [];
}

-- The response for the first window that is not allowed; with none, `next` raises.
unfoldable pub blocked_response : Option RateLimitResult → Option String → Result Response
blocked_response none correlation = raised other
blocked_response (some r) correlation = ok (record {
  status_code = 429;
  content = error_envelope "Rate limit exceeded" "WEBHOOK_RATE_LIMIT_001" correlation;
  headers =
      ("X-RateLimit-Limit", str r.limit)
      ∷ ("X-RateLimit-Remaining", str r.remaining)
      ∷ ("X-RateLimit-Reset", str r.reset_at)
      ∷ [];
})

module _ {J S : Type 0} (json : Json J) (sha256 : String → String) (lower : String → String)
    (clock : Effect S String) (redis : GuardRedis S) (p : Provider J S) where
  -- After the check of the limit: the response that ends the request, if any. `except (RedisError,
  -- OSError)` lets the request pass.
  unfoldable pub after_limit : Request → Result RateLimitInfo → Result (Option Response)
  after_limit request (ok info) =
      if info.is_blocked
      then elim (blocked_response (first_denied info.results) (correlation_id request)) [
        | ok response ↦ ok (some response)
        | raised e ↦ raised e
      ]
      else ok none
  after_limit request (raised redis_error) = ok none
  after_limit request (raised redis_connection) = ok none
  after_limit request (raised redis_timeout) = ok none
  after_limit request (raised os_error) = ok none
  after_limit request (raised value_error) = raised value_error
  after_limit request (raised cancelled) = raised cancelled
  after_limit request (raised other) = raised other

  unfoldable pub limit_by : Option (Limiter S) → Request → Effect S (Option Response)
  limit_by none request s = pure none s
  limit_by (some limiter) request s =
      let key = limiter.build_key request.address ("webhook_" ++ p.config.name) "webhook" in
      let (r, s') = limiter.check key s in (after_limit request r, s')

  -- `vrf and (cfg.secret or cfg.dynamic_secret)`, then `vrf.verify(…)`
  unfoldable pub is_authentic : Request → Bool
  is_authentic request = elim p.verifier [
    | none ↦ true
    | some verify ↦
        not (not (str_eq p.config.secret "") || p.config.dynamic_secret)
        || verify request.raw_body (lower_headers lower [] request.headers) p.config.secret
  ]

  unfoldable pub event_id_of : Request → J → Result String
  event_id_of request payload = elim (extract_field json payload p.config.event_id_fields) [
    | raised e ↦ raised e
    | ok id ↦ ok (if str_eq id "" then "sha256:" ++ sha256 request.raw_body else id)
  ]

  unfoldable pub event_type_of : J → Result String
  event_type_of payload = elim (extract_field json payload p.config.event_type_fields) [
    | raised e ↦ raised e
    | ok name ↦ ok (if str_eq name "" then "unknown" else name)
  ]

  unfoldable pub resolve_tenant : Dict String → J → Option String
  resolve_tenant headers payload =
      let from_header = lookup "x-tenant-id" headers in
      elim p.tenant_resolver [
        | none ↦ from_header
        | some resolver ↦ elim (resolver p.config.name headers payload) [
          | none ↦ from_header
          | some tenant ↦ if str_eq tenant "" then from_header else some tenant
        ]
      ]

  unfoldable pub check_duplicate : String → Effect S Bool
  check_duplicate event_id = elim p.guard [
    | none ↦ pure false
    | some guard ↦
        is_duplicate redis guard p.config.name event_id (some p.config.idempotency_ttl_seconds)
  ]

  unfoldable pub publish_event : WebhookEvent J → Effect S (Unit {0})
  publish_event event = elim p.publish [
    | none ↦ pure tt
    | some publish ↦ try (publish event) (λ _. pure tt)
  ]

  unfoldable pub dispatch_event : WebhookEvent J → Effect S (Unit {0})
  dispatch_event event = elim p.router [
    | none ↦ pure tt
    | some router ↦ try (dispatch router event) (λ _. pure tt)
  ]

  unfoldable pub accept : Request → J → String → String → Effect S Response
  accept request payload event_id event_type = do
    now ← clock
    let headers = lower_headers lower [] request.headers
    let event : WebhookEvent J = record {
      provider = p.config.name;
      event_id = event_id;
      event_type = event_type;
      raw_body = request.raw_body;
      payload = payload;
      headers = headers;
      tenant_id = resolve_tenant headers payload;
      correlation_id = lookup "x-correlation-id" headers;
      received_at = now;
      ip_address = request.address;
    }
    publish_event event
    dispatch_event event
    pure (success p.response_status_code "accepted" event_id "Webhook queued for processing")

  -- after the question to the guard
  unfoldable pub after_duplicate : Request → J → String → String → Bool → Effect S Response
  after_duplicate request payload event_id event_type is_dup =
      if is_dup
      then pure (success 200 "duplicate" event_id "Duplicate webhook — already processed")
      else accept request payload event_id event_type

  unfoldable pub after_fields : Request → J → Result String → Result String → Effect S Response
  after_fields request payload (raised e) event_type = raise e
  after_fields request payload (ok event_id) (raised e) = raise e
  after_fields request payload (ok event_id) (ok event_type) =
      check_duplicate event_id >>= after_duplicate request payload event_id event_type

  unfoldable pub after_loads : Request → Option J → Effect S Response
  after_loads request none =
      pure (failure 400 "Invalid JSON payload" "WEBHOOK_VALIDATION_001" (correlation_id request))
  after_loads request (some payload) =
      after_fields request payload (event_id_of request payload) (event_type_of payload)

  unfoldable pub after_verify : Request → Bool → Effect S Response
  after_verify request false =
      pure (failure 401 "Invalid webhook signature" "WEBHOOK_AUTH_001" (correlation_id request))
  after_verify request true = after_loads request (json.loads request.raw_body)

  unfoldable pub after_limiter : Request → Option Response → Effect S Response
  after_limiter request (some response) = pure response
  after_limiter request none = after_verify request (is_authentic request)

  unfoldable pub receive_webhook : Request → Effect S Response
  receive_webhook request = limit_by p.limiter request >>= after_limiter request

-- `meta_handshake`: the challenge as text, or the refusal
pub data Handshake : Type 0 where
  challenge : String → Handshake
  refused : Response → Handshake

unfoldable pub meta_handshake :
    {N : Type 0} → (String → Option N) → (N → String) → String → Dict String → Request → Handshake
meta_handshake int_of text_of verify_token query_params request =
    elim (handle_handshake int_of verify_token query_params) [
      | some n ↦ challenge (text_of n)
      | none ↦
          refused (failure 403 "Verification failed" "WEBHOOK_AUTH_002" (correlation_id request))
    ]
