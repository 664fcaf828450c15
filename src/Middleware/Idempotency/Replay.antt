-- ===== src/Middleware/Idempotency/Replay.antt =====
-- A POST that is sent again with its idempotency key.
use tr_shared_lib.Base.{
  ℕ, ◌<◌, ◌≤◌, String, Option, none, some, true, false, [], ◌∷◌, ◌≡◌, ◌≢◌, ◌↔◌, Bool-cases, inl,
  inr, arith, eq_iff,
}
use tr_shared_lib.Base.Effect.{Result, ok, raised, Effect}
use tr_shared_lib.Middleware.Idempotency.{
  Request, Response, Completed, Codec, KeyRedis, ApiIdempotencyMiddleware, processing_sentinel,
  processing_ttl_seconds, build_key, tenant_of, replay, get_redis, after_decode, after_get,
  handle_duplicate, release, is_uncached_status, is_storable, completed_of, store_completed,
  after_store, after_call, process_and_cache, after_set, reserve, after_redis, dispatch,
}

-- What Redis promises of a key while it does not expire: `value` is what is stored under it.
pub record Stores {S : Type 0} (redis : KeyRedis S) : Type 0 where
  pub value : S → String → Option String
  pub connects : (url : String) (s : S) → redis.get_redis_client url s ≡ (ok tt, s)
  pub set_new :
      (key v : String) (ttl : ℕ) (s : S)
      → value s key ≡ none
      → (s' : S) × (redis.set_nx key v ttl s ≡ (ok true, s')) × (value s' key ≡ some v)
  pub set_held :
      (key v old : String) (ttl : ℕ) (s : S)
      → value s key ≡ some old
      → redis.set_nx key v ttl s ≡ (ok false, s)
  pub set_lem :
      (key v : String) (ttl : ℕ) (s : S)
      → (s' : S) × (redis.set key v ttl s ≡ (ok tt, s')) × (value s' key ≡ some v)
  pub get_lem : (key : String) (s : S) → redis.get key s ≡ (ok (value s key), s)
  pub delete_lem :
      (key : String) (s : S) → (s' : S) × (redis.delete key s ≡ (ok tt, s')) × (value s' key ≡ none)

module _ {S : Type 0} (redis : KeyRedis S) (stores : Stores redis) (codec : Codec)
    (m : ApiIdempotencyMiddleware) (call_next : Request → Effect S Response) where
  -- A POST with an idempotency key, and a Redis to ask.
  abbrev pub IsKeyed : Request → String → Type 0
  IsKeyed request key =
      (request.method ≡ "POST")
      × (request.idempotency_key ≡ some key)
      × (key ≢ "")
      × (m.redis_url ≢ "")

  -- the key under which the request is remembered
  abbrev pub key_of : Request → String → String
  key_of request key = build_key m (tenant_of request) key

  dispatch-after_redis :
      (request : Request) (key : String) (s : S)
      → IsKeyed request key
      → dispatch redis codec m call_next request s
        ≡ after_redis redis codec m call_next request (key_of request key) true s
  unfolding dispatch get_redis
  dispatch-after_redis request key s (post, has, real, url) =
      let c = stores.connects m.redis_url s in
      ground (
        arith,
        post,
        has,
        real,
        url,
        c,
        eq_iff request.method "POST",
        eq_iff key "",
        eq_iff m.redis_url "",
      )

  -- A response to be remembered: it says that the request was executed, neither refused nor failed,
  -- and its body is not too large.
  abbrev pub IsStorable : Response → Type 0
  IsStorable response =
      (response.status_code < 500)
      × (response.status_code ≢ 401)
      × (response.status_code ≢ 403)
      × (response.status_code ≢ 429)
      × (codec.size response.body ≤ m.max_response_size)

  -- what is stored of a response
  abbrev pub record_of : Response → Completed
  record_of response = record {
    sc = response.status_code;
    b = codec.decode response.body;
    ct = response.media_type;
  }

  -- what the key holds after the call that reserved it
  abbrev pub Remembers : Result Response → Option String → Type 0
  Remembers (raised e) value = value ≡ none
  Remembers (ok response) value =
      (IsStorable response → value ≡ some (codec.dumps (record_of response)))
      × (¬ IsStorable response → value ≡ none)

  is_storable-IsStorable :
      (response : Response)
      → (is_storable redis codec m call_next response ≡ true) ↔ IsStorable response
  unfolding is_storable is_uncached_status
  is_storable-IsStorable response = (λ h. ground (arith, h), λ h. ground (arith, h))

  after_call_lem :
      (cache_key : String) (r : Result Response) (s : S)
      → Remembers r (stores.value (after_call redis codec m call_next cache_key r s).1 cache_key)
  unfolding after_call after_store store_completed release completed_of
  after_call_lem cache_key (raised e) s =
      let (s', d, gone) = stores.delete_lem cache_key s in ground (arith, d, gone)
  after_call_lem cache_key (ok response) s =
      let stored = codec.dumps (record_of response) in
      let (to, from) = is_storable-IsStorable response in
      let (s', d, gone) = stores.delete_lem cache_key s in
      let (s'', e, there) = stores.set_lem cache_key stored m.ttl s in
      (
        λ storable. ground (arith, from storable, d, gone, e, there),
        λ not. elim (Bool-cases (is_storable redis codec m call_next response)) [
          | inl yes_storable ↦ absurd (not (to yes_storable))
          | inr no_storable ↦ ground (arith, no_storable, d, gone, e, there)
        ],
      )

  -- The first request with a key is handed on with the key reserved. Then the key holds the status,
  -- the decoded body and the media type of the response, if its status is below 500 and none of 401,
  -- 403 and 429 and its body is not too large; and it holds nothing if the response is another one, or
  -- an exception was raised, a cancellation included.
  pub dispatch-remembered :
      (request : Request) (key : String) (s : S)
      → IsKeyed request key
      → stores.value s (key_of request key) ≡ none
      → (reserved : S) × (stores.value reserved (key_of request key) ≡ some processing_sentinel)
        × Remembers
            (call_next request reserved).0
            (stores.value (dispatch redis codec m call_next request s).1 (key_of request key))
  unfolding after_redis reserve after_set process_and_cache
  dispatch-remembered request key s keyed fresh =
      let k = key_of request key in
      let (s', e, there) = stores.set_new k processing_sentinel processing_ttl_seconds s fresh in
      let after = after_call_lem k (call_next request s').0 (call_next request s').1 in
      let step = dispatch-after_redis request key s keyed in
      let ran : dispatch redis codec m call_next request s
          ≡ after_call redis codec m call_next k (call_next request s').0 (call_next request s').1 =
        ground (arith, step, e) in
      (s', there, rw ran after)

  -- a request whose key holds a stored response
  dispatch-replay :
      (request : Request) (key : String) (s : S) (c : Completed)
      → IsKeyed request key
      → stores.value s (key_of request key) ≡ some (codec.dumps c)
      → codec.dumps c ≢ ""
      → codec.loads (codec.dumps c) ≡ ok (some c)
      → dispatch redis codec m call_next request s ≡ (ok (replay c), s)
  unfolding after_redis reserve after_set handle_duplicate after_get after_decode
  dispatch-replay request key s c keyed held full decodes =
      let k = key_of request key in
      let e = stores.set_held k processing_sentinel (codec.dumps c) processing_ttl_seconds s held in
      let g = stores.get_lem k s in
      let step = dispatch-after_redis request key s keyed in
      ground (arith, step, e, g, held, full, decodes, eq_iff (codec.dumps c) "")

  -- `json.loads` undoes `json.dumps`, which writes no empty text.
  abbrev pub IsJson : Completed → Type 0
  IsJson c = (codec.dumps c ≢ "") × (codec.loads (codec.dumps c) ≡ ok (some c))

  -- A request that is sent again, after the first one with its key was answered with a response to be
  -- remembered and while the key does not expire: it is answered with the status, the decoded body and the
  -- media type of that response and the header that says so, and the application behind the middleware
  -- is not called again: the state stays what it was.
  pub dispatch-dispatch :
      (request again : Request) (key : String) (s : S) (response : Response)
      → IsJson (record_of response)
      → IsKeyed request key
      → IsKeyed again key
      → tenant_of again ≡ tenant_of request
      → stores.value s (key_of request key) ≡ none
      → ((reserved : S) → (call_next request reserved).0 ≡ ok response)
      → IsStorable response
      → (let s' = (dispatch redis codec m call_next request s).1 in
          dispatch redis codec m call_next again s' ≡ (
            ok (record {
              status_code = response.status_code;
              body = codec.decode response.body;
              media_type = response.media_type;
              headers = ("X-Idempotency-Replayed", "true") ∷ [];
            }),
            s',
          ))
  unfolding replay
  dispatch-dispatch request again key s response json keyed keyed' same fresh answers storable =
      let (reserved, _, held) = dispatch-remembered request key s keyed fresh in
      let c = record_of response in
      let s' = (dispatch redis codec m call_next request s).1 in
      let there = (rw (answers reserved) at held).0 storable in
      dispatch-replay again key s' c keyed' (rw same there) json.0 json.1
