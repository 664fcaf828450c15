-- ===== src/Middleware/Idempotency/Tests.antt =====
-- The middleware with a store of one key, before an application that answers with status 201.
use tr_shared_lib.Base.{String, Option, none, some, true, false, ◌≡◌, refl, [], ◌∷◌, arith, eq_iff}
use tr_shared_lib.Base.Effect.{ok, Effect}
use tr_shared_lib.Middleware.Idempotency.{
  Request, Response, Completed, Codec, KeyRedis, ApiIdempotencyMiddleware, processing_sentinel,
  dispatch,
}
use tr_shared_lib.Middleware.Idempotency.Replay.{
  Stores, IsKeyed, key_of, Remembers, dispatch-remembered, dispatch-dispatch,
}

-- every key is one and the same
abbrev one_key : KeyRedis (Option String)
one_key = record {
  get_redis_client = λ _ s. (ok tt, s);
  set_nx = λ _ v _ s. elim s [ none ↦ (ok true, some v) | some old ↦ (ok false, some old) ];
  set = λ _ v _ s. (ok tt, some v);
  get = λ _ s. (ok s, s);
  delete = λ _ s. (ok tt, none);
}

abbrev stores : Stores one_key
stores = record {
  value = λ s _. s;
  connects = λ _ s. refl;
  set_new = λ _ v _ s h. (some v, rw h refl, refl);
  set_held = λ _ v old _ s h. rw h refl;
  set_lem = λ _ v _ s. (some v, refl, refl);
  get_lem = λ _ s. refl;
  delete_lem = λ _ s. (none, refl, refl);
}

abbrev created : Completed
created = record { sc = 201; b = "made"; ct = "application/json" }

abbrev codec : Codec
codec = record {
  dumps = λ c. "stored";
  loads = λ _. ok (some created);
  size = λ _. 4;
  decode = λ b. b;
}

abbrev middleware : ApiIdempotencyMiddleware
middleware = record {
  redis_url = "redis://cache";
  service_name = "leads";
  ttl = 86400;
  max_response_size = 1_048_576;
}

abbrev application : Request → Effect (Option String) Response
application request s = (
  ok (record { status_code = 201; body = "made"; media_type = "application/json"; headers = [] }),
  s,
)

abbrev post : Request
post = record {
  method = "POST";
  idempotency_key = some "k1";
  header_tenant = none;
  state_tenant = none;
}

keyed : IsKeyed one_key stores codec middleware application post "k1"
keyed = (
  refl,
  refl,
  λ e. ground (arith, eq_iff "k1" "", e),
  λ e. ground (arith, eq_iff "redis://cache" "", e),
)

dispatch-remembered_example :
    (reserved : Option String) × (stores.value reserved
        (key_of one_key stores codec middleware application post "k1")
      ≡ some processing_sentinel)
    × Remembers one_key stores codec middleware application (application post reserved).0 (
        stores.value
          (dispatch one_key codec middleware application post none).1
          (key_of one_key stores codec middleware application post "k1"))
dispatch-remembered_example =
    dispatch-remembered one_key stores codec middleware application post "k1" none keyed refl

-- sent twice
dispatch-dispatch_example :
    let s' = (dispatch one_key codec middleware application post none).1 in
    dispatch one_key codec middleware application post s' ≡ (
      ok (record {
        status_code = 201;
        body = "made";
        media_type = "application/json";
        headers = ("X-Idempotency-Replayed", "true") ∷ [];
      }),
      s',
    )
dispatch-dispatch_example =
    dispatch-dispatch one_key stores codec middleware application post post "k1" none
      (record { status_code = 201; body = "made"; media_type = "application/json"; headers = [] })
      (λ e. ground (arith, eq_iff "stored" "", e), refl) keyed keyed refl refl (λ s. refl)
      (omega arith, (λ e. omega arith), (λ e. omega arith), (λ e. omega arith), omega arith)
