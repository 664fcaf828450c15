-- ===== src/Webhooks/Tests.antt =====
-- The webhook parts on concrete data: a guard over a set of one key, and a provider whose verifier
-- compares the body with its signature.
use tr_shared_lib.Base.{
  ℕ, String, none, some, Bool, true, false, not, ◌≡◌, ◌↔◌, refl, [], ◌∷◌, arith, eq_iff,
}
use tr_shared_lib.Base.Effect.{ok, raised, other, Effect}
use tr_shared_lib.Webhooks.Endpoint.{
  Json, Provider, extract_field, limit_by, after_limiter, is_authentic, after_verify, after_loads,
  after_fields, event_id_of, event_type_of, check_duplicate, after_duplicate, accept, publish_event,
  dispatch_event, receive_webhook,
}
use tr_shared_lib.Webhooks.Endpoint.Accepted.{IsChecked, receive_webhook-IsChecked}
use tr_shared_lib.Webhooks.Idempotency.{
  GuardRedis, WebhookIdempotencyGuard, build_key, get_redis, ask, is_duplicate,
}
use tr_shared_lib.Webhooks.Idempotency.Once.{
  Keeps, is_duplicate-is_duplicate, is_duplicate_fail_open,
}
use tr_shared_lib.Webhooks.Router.{WebhookRouter}
use tr_shared_lib.Webhooks.Schemas.{WebhookResult, webhook_result, Response, Request}
use tr_shared_lib.Webhooks.Verifier.{hmac_verify}
use tr_shared_lib.Webhooks.Verifier.Laws.{IsSigned, hmac_verify_lem}

-- whether the one key is there
abbrev one_key : GuardRedis Bool
one_key = record {
  get_redis_client = λ _ s. (ok tt, s);
  set_nx = λ _ _ _ s. (ok (not s), true);
  set = λ _ _ _ s. (ok tt, true);
}

keeps : Keeps one_key
keeps = record { holds = λ s _. s; set_lem = λ _ _ _ s. (true, refl, refl) }

abbrev guard : WebhookIdempotencyGuard
guard = record { has_client = true; redis_url = ""; key_prefix = "crm"; default_ttl = 86400 }

is_duplicate-is_duplicate_example :
    let (first, s') = is_duplicate one_key guard "bayut" "e1" none false in
    (first ≡ ok (keeps.holds false (build_key guard "bayut" "e1")))
    × ((is_duplicate one_key guard "bayut" "e1" none s').0 ≡ ok true)
is_duplicate-is_duplicate_example =
    is_duplicate-is_duplicate one_key guard keeps (λ s. s) "bayut" "e1" none none false refl
      (λ e. ground (arith, eq_iff "e1" "", e)) (λ s key h. h)

abbrev broken : GuardRedis Bool
broken = record {
  get_redis_client = λ _ s. (ok tt, s);
  set_nx = λ _ _ _ s. (raised other, s);
  set = λ _ _ _ s. (raised other, s);
}

is_duplicate_fail_open_example : (is_duplicate broken guard "bayut" "e1" none false).0 ≡ ok false
is_duplicate_fail_open_example =
    is_duplicate_fail_open broken guard "bayut" "e1" none false
      (λ key value ttl s. (other, λ e. ground (arith, e), refl)) (λ url s e. ground (arith, e))

-- the digest is the body itself
hmac_verify_lem_example :
    (hmac_verify
        (λ secret body. body)
        (record { signature_header = "x-signature"; signature_format = "hex" })
        "b"
        (("x-signature", "b") ∷ [])
        "s"
      ≡ true)
    ↔ IsSigned
        (λ secret body. body)
        (record { signature_header = "x-signature"; signature_format = "hex" })
        "b"
        (("x-signature", "b") ∷ [])
        "s"
hmac_verify_lem_example =
    hmac_verify_lem (λ secret body. body)
      (record { signature_header = "x-signature"; signature_format = "hex" }) "b"
      (("x-signature", "b") ∷ []) "s" (λ e. ground (arith, eq_iff "s" "", e))

abbrev no_routes : WebhookRouter ℕ ℕ
no_routes = record { handlers = []; default_handlers = [] }

-- JSON whose every field is "e1"
abbrev json : Json String
json = record { loads = λ body. some body; get = λ payload name. ok (some "e1") }

abbrev provider : Provider String Bool
provider = record {
  config = record {
    name = "bayut";
    secret = "s";
    signature_header = "X-Signature";
    signature_format = "hex";
    event_id_fields = "id" ∷ [];
    event_type_fields = "type" ∷ [];
    idempotency_ttl_seconds = 60;
    dynamic_secret = false;
  };
  verifier = some (λ body headers secret. true);
  guard = some guard;
  publish = none;
  router = none;
  limiter = none;
  tenant_resolver = none;
  response_status_code = 202;
}

abbrev request : Request
request = record { raw_body = "b"; headers = []; address = "10.0.0.1" }

abbrev clock : Effect Bool String
clock s = (ok "now", s)

abbrev result : WebhookResult
result = record { status = "accepted"; event_id = "e1"; message = "Webhook queued for processing" }

abbrev response : Response
response = record { status_code = 202; content = webhook_result result; headers = [] }

accepted :
    (receive_webhook json (λ b. b) (λ k. k) clock one_key provider request false).0 ≡ ok response
unfolding receive_webhook limit_by after_limiter is_authentic after_verify after_loads event_id_of
    event_type_of extract_field after_fields check_duplicate is_duplicate get_redis ask
    after_duplicate accept publish_event dispatch_event
accepted = refl

receive_webhook-IsChecked_example :
    IsChecked json (λ b. b) (λ k. k) clock one_key provider request false result
receive_webhook-IsChecked_example =
    receive_webhook-IsChecked json (λ b. b) (λ k. k) clock one_key provider request false response
      result accepted refl
