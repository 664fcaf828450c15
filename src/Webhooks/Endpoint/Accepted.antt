-- ===== src/Webhooks/Endpoint/Accepted.antt =====
-- What the answers of `receive_webhook` say about the request.
use tr_shared_lib.Base.{
  String, Option, none, some, Bool, true, false, ◌≡◌, ◌≢◌, refl, if◌then◌else◌, arith,
}
use Prim.Native.String.{◌++◌}
use tr_shared_lib.Base.Effect.{Result, ok, raised, Effect, bind-ok}
use tr_shared_lib.RateLimiter.Schemas.{RateLimitInfo}
use tr_shared_lib.Webhooks.Endpoint.{
  Json, Limiter, Provider, limit_by, after_limit, after_limiter, blocked_response, is_authentic,
  after_verify, after_loads, after_fields, event_id_of, event_type_of, check_duplicate,
  after_duplicate, accept, receive_webhook,
}
use tr_shared_lib.Webhooks.Idempotency.{GuardRedis}
use tr_shared_lib.Webhooks.Schemas.{WebhookResult, webhook_result, Response, Request}
use tr_shared_lib.Webhooks.Endpoint.Checks.{
  IsAuthentic, IsEventId, IsAnswered, after_check, is_authentic-IsAuthentic, event_id_of-IsEventId,
  check_duplicate-IsAnswered, after_check_lem,
}

module _ {J S : Type 0} (json : Json J) (sha256 : String → String) (lower : String → String)
    (clock : Effect S String) (redis : GuardRedis S) (p : Provider J S) where
  -- The response carries a result, not an error.
  abbrev pub IsResult : Response → WebhookResult → Type 0
  IsResult r w = r.content ≡ webhook_result w

  -- what a result says about a request that was received in the state `s`
  abbrev pub IsChecked : Request → S → WebhookResult → Type 0
  IsChecked request s w =
      IsAuthentic json sha256 lower clock redis p p.verifier request
      × ((payload : J) × (json.loads request.raw_body ≡ some payload)
          × IsEventId json sha256 lower clock redis p p.config.event_id_fields request payload
              w.event_id)
      × IsAnswered json sha256 lower clock redis p p.guard
          (after_check json sha256 lower clock redis p p.limiter request s) w

  accept-IsResult :
      (request : Request) (payload : J) (event_id event_type : String) (s : S) (r : Response)
      (w : WebhookResult)
      → (accept json sha256 lower clock redis p request payload event_id event_type s).0 ≡ ok r
      → IsResult r w
      → (w.event_id ≡ event_id) × (w.status ≡ "accepted")
  unfolding accept
  accept-IsResult request payload event_id event_type s r w h q = ground (arith, h, q)

  -- the guard was asked about the id of the result in this state
  abbrev IsAsked : String → S → WebhookResult → Type 0
  IsAsked event_id s w =
      (w.event_id ≡ event_id) × IsAnswered json sha256 lower clock redis p p.guard s w

  after_duplicate-IsResult :
      (request : Request) (payload : J) (event_id event_type : String) (dup : Bool) (s : S)
      (r : Response) (w : WebhookResult)
      → (after_duplicate json sha256 lower clock redis p request payload event_id event_type dup
          s).0
        ≡ ok r
      → IsResult r w
      → (w.event_id ≡ event_id) × (w.status ≡ (if dup then "duplicate" else "accepted"))
  unfolding after_duplicate
  after_duplicate-IsResult request payload event_id event_type true s r w h q = ground (arith, h, q)
  after_duplicate-IsResult request payload event_id event_type false s r w h q =
      accept-IsResult request payload event_id event_type s r w h q

  after_fields-IsAsked :
      (request : Request) (payload : J) (id type : Result String) (s : S) (r : Response)
      (w : WebhookResult)
      → (after_fields json sha256 lower clock redis p request payload id type s).0 ≡ ok r
      → IsResult r w
      → (event_id : String) × (id ≡ ok event_id) × IsAsked event_id s w
  unfolding after_fields
  after_fields-IsAsked request payload (raised e) type s r w h q = absurd (ground (arith, h))
  after_fields-IsAsked request payload (ok id) (raised e) s r w h q = absurd (ground (arith, h))
  after_fields-IsAsked request payload (ok id) (ok type) s r w h q =
      let ask = check_duplicate json sha256 lower clock redis p id in
      let after = after_duplicate json sha256 lower clock redis p request payload id type in
      let (dup, answered, h') = bind-ok ask after s r h in
      let (same, status) =
        after_duplicate-IsResult request payload id type dup (ask s).1 r w h' q in
      (
        id,
        refl,
        (
          same,
          check_duplicate-IsAnswered json sha256 lower clock redis p s w dup (rw same answered)
              status,
        ),
      )

  after_loads-IsChecked :
      (request : Request) (parsed : Option J) (s : S) (r : Response) (w : WebhookResult)
      → (after_loads json sha256 lower clock redis p request parsed s).0 ≡ ok r
      → IsResult r w
      → (payload : J) × (parsed ≡ some payload)
        × ((event_id : String) × (event_id_of json sha256 lower clock redis p request payload
              ≡ ok event_id)
            × IsAsked event_id s w)
  unfolding after_loads
  after_loads-IsChecked request none s r w h q = absurd (ground (arith, h, q))
  after_loads-IsChecked request (some payload) s r w h q =
      let id = event_id_of json sha256 lower clock redis p request payload in
      let type = event_type_of json sha256 lower clock redis p payload in
      (payload, refl, after_fields-IsAsked request payload id type s r w h q)

  -- what holds of a request that got past the limiter, into the state `s`
  abbrev IsPassed : Request → S → WebhookResult → Type 0
  IsPassed request s w =
      IsAuthentic json sha256 lower clock redis p p.verifier request
      × ((payload : J) × (json.loads request.raw_body ≡ some payload)
          × IsEventId json sha256 lower clock redis p p.config.event_id_fields request payload
              w.event_id)
      × IsAnswered json sha256 lower clock redis p p.guard s w

  after_verify-IsPassed :
      (request : Request) (authentic : Bool) (s : S) (r : Response) (w : WebhookResult)
      → is_authentic json sha256 lower clock redis p request ≡ authentic
      → (after_verify json sha256 lower clock redis p request authentic s).0 ≡ ok r
      → IsResult r w
      → IsPassed request s w
  unfolding after_verify
  after_verify-IsPassed request false s r w e h q = absurd (ground (arith, h, q))
  after_verify-IsPassed request true s r w e h q =
      let (payload, parsed, (event_id, got, (same, asked))) =
        after_loads-IsChecked request (json.loads request.raw_body) s r w h q in
      (
        is_authentic-IsAuthentic json sha256 lower clock redis p request e,
        (
          payload,
          parsed,
          rw same
              (event_id_of-IsEventId json sha256 lower clock redis p request payload event_id got),
        ),
        asked,
      )

  limit-no_result :
      (request : Request) (checked : Result RateLimitInfo) (r : Response) (w : WebhookResult)
      → after_limit json sha256 lower clock redis p request checked ≡ ok (some r)
      → r.content ≢ webhook_result w
  unfolding after_limit blocked_response
  limit-no_result request checked r w h q = ground (arith, h, q)

  limit_by-no_result :
      (limiter : Option (Limiter S)) (request : Request) (s : S) (r : Response) (w : WebhookResult)
      → (limit_by json sha256 lower clock redis p limiter request s).0 ≡ ok (some r)
      → r.content ≢ webhook_result w
  unfolding limit_by
  limit_by-no_result none request s r w h q = ground (arith, h)
  limit_by-no_result (some limiter) request s r w h q =
      let key = limiter.build_key request.address ("webhook_" ++ p.config.name) "webhook" in
      limit-no_result request (limiter.check key s).0 r w h q

  after_limiter-IsPassed :
      (request : Request) (ended : Option Response) (s before : S) (r : Response)
      (w : WebhookResult)
      → (limit_by json sha256 lower clock redis p p.limiter request before).0 ≡ ok ended
      → (after_limiter json sha256 lower clock redis p request ended s).0 ≡ ok r
      → IsResult r w
      → IsPassed request s w
  unfolding after_limiter
  after_limiter-IsPassed request none s before r w got h q =
      after_verify-IsPassed request (is_authentic json sha256 lower clock redis p request) s r w
        refl h q
  after_limiter-IsPassed request (some response) s before r w got h q =
      absurd (limit_by-no_result p.limiter request before response w got (ground (arith, h, q)))

  -- A result, be it "accepted" or "duplicate", goes only to a request that the provider's verifier
  -- takes, where one is configured, whose body is JSON, and whose event id, or digest in its place, is
  -- the result's. After the limiter the guard, where there is one, was asked about that id in the
  -- provider's name, and the result says "duplicate" exactly if it answered so.
  pub receive_webhook-IsChecked :
      (request : Request) (s : S) (r : Response) (w : WebhookResult)
      → (receive_webhook json sha256 lower clock redis p request s).0 ≡ ok r
      → IsResult r w
      → IsChecked request s w
  unfolding receive_webhook
  receive_webhook-IsChecked request s r w h q =
      let limit = limit_by json sha256 lower clock redis p p.limiter request in
      let after = after_limiter json sha256 lower clock redis p request in
      let (ended, got, h') = bind-ok limit after s r h in
      rw (after_check_lem json sha256 lower clock redis p p.limiter request s) at
        (after_limiter-IsPassed request ended (limit s).1 s r w got h' q)
