-- ===== src/Middleware/Idempotency.antt =====
-- `APIIdempotencyMiddleware` of src/tr_shared/middleware/idempotency.py. Redis, the JSON of a stored
-- response, the decoding of a body and the application behind the middleware are parameters; that
-- application answers with the whole body, or raises where it or the reading of its body does.
pub mod Replay
mod Tests
use tr_shared_lib.Base.{
  ℕ, ◌≤◌, String, Option, none, some, Bool, true, false, ◌&&◌, ◌||◌, not, List, [], ◌∷◌, ltb, leb,
  ◌==◌, str_eq, if◌then◌else◌,
}
use tr_shared_lib.Base.Dict.{Dict, lookup, remove}
use tr_shared_lib.Base.Effect.{Exn, Result, ok, raised, Effect, pure, raise, try, ◌>>=◌, ◌>>◌}
use tr_shared_lib.Base.Text.{join_nonempty}

pub record Request : Type 0 where
  pub method : String
  -- the two headers that the middleware reads, and `request.state.tenant_id`
  pub idempotency_key : Option String
  pub header_tenant : Option String
  pub state_tenant : Option String

-- A response with its body; `media_type` is its content type, `application/json` without one, and the
-- names of the headers are in lower case.
pub record Response : Type 0 where
  pub status_code : ℕ
  pub body : String
  pub media_type : String
  pub headers : Dict String

-- the fields "sc", "b" and "ct" of a stored response
pub record Completed : Type 0 where
  pub sc : ℕ
  pub b : String
  pub ct : String

-- `json.dumps` of a stored response, and `json.loads`, `ok none` for one whose "s" is not "completed";
-- `size` is the number of bytes of a body and `decode` that with `errors="replace"`
pub record Codec : Type 0 where
  pub dumps : Completed → String
  pub loads : String → Result (Option Completed)
  pub size : String → ℕ
  pub decode : String → String

pub record KeyRedis (S : Type 0) : Type 0 where
  pub get_redis_client : String → Effect S (Unit {0})
  pub set_nx : String → String → ℕ → Effect S Bool
  pub set : String → String → ℕ → Effect S (Unit {0})
  pub get : String → Effect S (Option String)
  pub delete : String → Effect S (Unit {0})

pub record ApiIdempotencyMiddleware : Type 0 where
  pub redis_url : String
  pub service_name : String
  pub ttl : ℕ
  pub max_response_size : ℕ

abbrev pub processing_sentinel : String
processing_sentinel = "{\"s\": \"processing\"}"

abbrev pub processing_ttl_seconds : ℕ
processing_ttl_seconds = 300

unfoldable pub is_uncached_status : ℕ → Bool
is_uncached_status status = status == 401 || status == 403 || status == 429

unfoldable pub build_key : ApiIdempotencyMiddleware → String → String → String
build_key m tenant_id idempotency_key =
    join_nonempty (m.service_name ∷ "idempotency" ∷ tenant_id ∷ idempotency_key ∷ [])

-- `a or b` on an optional text
abbrev or_else : Option String → String → String
or_else none b = b
or_else (some a) b = if str_eq a "" then b else a

abbrev default : Option String → String → String
default none b = b
default (some a) b = a

unfoldable pub tenant_of : Request → String
tenant_of request = or_else request.state_tenant (default request.header_tenant "global")

unfoldable pub conflict : String → Response
conflict message = record {
  status_code = 409;
  body = message;
  media_type = "application/json";
  headers = [];
}

unfoldable pub replay : Completed → Response
replay c = record {
  status_code = c.sc;
  body = c.b;
  media_type = c.ct;
  headers = ("X-Idempotency-Replayed", "true") ∷ [];
}

module _ {S : Type 0} (redis : KeyRedis S) (codec : Codec) (m : ApiIdempotencyMiddleware)
    (call_next : Request → Effect S Response) where
  -- `_get_redis`: whether there is a client
  unfoldable pub get_redis : Effect S Bool
  get_redis =
      if str_eq m.redis_url ""
      then pure false
      else try (redis.get_redis_client m.redis_url >> pure true) (λ _. pure false)

  unfoldable pub after_decode : Result (Option Completed) → Effect S Response
  after_decode (raised e) = raise e
  after_decode (ok none) =
      pure (conflict "A request with this idempotency key is currently being processed")
  after_decode (ok (some c)) = pure (replay c)

  unfoldable pub after_get : Option String → Effect S Response
  after_get none =
      pure (conflict "A request with this idempotency key is currently being processed")
  after_get (some cached) = after_decode (if str_eq cached "" then ok none else codec.loads cached)

  unfoldable pub handle_duplicate : String → Effect S Response
  handle_duplicate cache_key =
      try (redis.get cache_key >>= after_get)
        (λ _. pure (conflict "Unable to verify idempotency status"))

  unfoldable pub release : String → Effect S (Unit {0})
  release cache_key = try (redis.delete cache_key) (λ _. pure tt)

  -- the status says that the request was executed, and the body is not too large
  unfoldable pub is_storable : Response → Bool
  is_storable response =
      ltb response.status_code 500
      && not (is_uncached_status response.status_code)
      && leb (codec.size response.body) m.max_response_size

  unfoldable pub completed_of : Response → Completed
  completed_of response = record {
    sc = response.status_code;
    b = codec.decode response.body;
    ct = response.media_type;
  }

  unfoldable pub store_completed : String → Response → Effect S Bool
  store_completed cache_key response =
      if is_storable response
      then try (redis.set cache_key (codec.dumps (completed_of response)) m.ttl >> pure true)
          (λ _. pure false)
      else pure false

  -- `content-length` and `content-type` are written anew
  unfoldable pub rebuilt : Response → Response
  rebuilt response = record response {
    headers = remove "content-length" (remove "content-type" response.headers);
  }

  unfoldable pub after_store : String → Response → Bool → Effect S Response
  after_store cache_key response true = pure (rebuilt response)
  after_store cache_key response false = release cache_key >> pure (rebuilt response)

  -- `except BaseException` releases the key after a cancellation too
  unfoldable pub after_call : String → Result Response → Effect S Response
  after_call cache_key (raised e) = release cache_key >> raise e
  after_call cache_key (ok response) =
      store_completed cache_key response >>= after_store cache_key response

  unfoldable pub process_and_cache : Request → String → Effect S Response
  process_and_cache request cache_key s =
      let (r, s') = call_next request s in after_call cache_key r s'

  -- after `SET NX`: newly set, there already, or failed
  unfoldable pub after_set : Request → String → Option Bool → Effect S Response
  after_set request cache_key none = call_next request
  after_set request cache_key (some false) = handle_duplicate cache_key
  after_set request cache_key (some true) = process_and_cache request cache_key

  unfoldable pub reserve : String → Effect S (Option Bool)
  reserve cache_key =
      try
        (redis.set_nx cache_key processing_sentinel processing_ttl_seconds >>= λ was_set.
          pure (some was_set))
        (λ _. pure none)

  unfoldable pub after_redis : Request → String → Bool → Effect S Response
  after_redis request cache_key has =
      if has then (reserve cache_key >>= after_set request cache_key) else call_next request

  unfoldable pub dispatch : Request → Effect S Response
  dispatch request =
      if not (str_eq request.method "POST")
      then call_next request
      else elim request.idempotency_key [
        | none ↦ call_next request
        | some key ↦
            if str_eq key ""
            then call_next request
            else (get_redis >>= after_redis request (build_key m (tenant_of request) key))
      ]
