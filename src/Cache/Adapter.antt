-- ===== src/Cache/Adapter.antt =====
-- `BaseRedisAdapter` of src/tr_shared/cache/adapters/base.py, with `set` of the standard adapter: a provider
-- made of a client. The client is again a record of commands; `CacheConnectionError` and
-- `CacheOperationError` are exceptions that no clause tells apart.
use tr_shared_lib.Base.{
  ℕ, String, Option, some, Bool, true, false, List, [], ◌∷◌, if◌then◌else◌, ◌≡◌, refl, ap, ◌⊎◌, inl,
  inr, arith,
}
use tr_shared_lib.Base.Dict.{Dict}
use tr_shared_lib.Base.Effect.{
  Exn, redis_error, redis_connection, redis_timeout, os_error, value_error, cancelled, other,
  Result, ok, raised, Effect, pure, raise, try,
}
use tr_shared_lib.Cache.Backend.{ℤ, Backend}

module _ {S : Type 0} where
  -- `_check_initialized`, and the `except Exception` of every command
  unfoldable pub guarded : {A : Type 0} → Bool → Effect S A → Effect S A
  guarded available m = if available then try m (λ _. raise other) else raise other

  unfoldable pub unless_empty : {A : Type 0} → List String → A → Effect S A → Effect S A
  unless_empty [] default m = pure default
  unless_empty (key ∷ keys) default m = m

  guarded-raises :
      {A : Type 0} (available : Bool) (m : Effect S A) (s : S) (e : Exn)
      → (guarded available m s).0 ≡ raised e
      → (e ≡ other) ⊎ (e ≡ cancelled)
  unfolding guarded
  guarded-raises {A} false m s e h = inl (ground (arith, h))
  guarded-raises {A} true m s e h = go (m s) h
    where
      go :
          (r : Result A × S)
          → (let (x, s') = r in
              elim x as (λ _. Result A × S) [
                | ok a ↦ (ok a, s')
                | raised cancelled ↦ (raised cancelled, s')
                | raised f ↦ raise other s'
              ]).0
            ≡ raised e
          → (e ≡ other) ⊎ (e ≡ cancelled)
      go (ok a, s') h' = ground (arith, h')
      go (raised redis_error, s') h' = inl (ground (arith, h'))
      go (raised redis_connection, s') h' = inl (ground (arith, h'))
      go (raised redis_timeout, s') h' = inl (ground (arith, h'))
      go (raised os_error, s') h' = inl (ground (arith, h'))
      go (raised value_error, s') h' = inl (ground (arith, h'))
      go (raised cancelled, s') h' = inr (ground (arith, h'))
      go (raised other, s') h' = inl (ground (arith, h'))

  -- What returns is what the client returned, and so is the state.
  guarded-ok :
      {A : Type 0} (m : Effect S A) (s : S) (a : A)
      → (m s).0 ≡ ok a
      → guarded true m s ≡ (ok a, (m s).1)
  unfolding guarded
  guarded-ok {A} m s a h = ground (arith, h)

module _ {S F B M : Type 0} (available : Bool) (client : Backend S F B M) where
  unfoldable pub get : String → Effect S (Option String)
  get key = guarded available (client.get key)

  unfoldable pub mget : List String → Effect S (List (Option String))
  mget keys = guarded available (unless_empty keys [] (client.mget keys))

  unfoldable pub setex : String → ℕ → String → Effect S (Unit {0})
  setex key ttl value = guarded available (client.setex key ttl value)

  unfoldable pub set_nx : String → ℕ → String → Effect S Bool
  set_nx key ttl value = guarded available (client.set_nx key ttl value)

  unfoldable pub delete : List String → Effect S ℕ
  delete keys = guarded available (unless_empty keys 0 (client.delete keys))

  unfoldable pub scan : ℕ → String → ℕ → Effect S (ℕ × List String)
  scan cursor pattern count = guarded available (client.scan cursor pattern count)

  unfoldable pub incrby : String → ℤ → Effect S ℤ
  incrby key amount = guarded available (client.incrby key amount)

  unfoldable pub expire : String → ℕ → Effect S Bool
  expire key seconds = guarded available (client.expire key seconds)

  unfoldable pub exists : String → Effect S ℕ
  exists key = guarded available (client.exists key)

  unfoldable pub ttl : String → Effect S ℤ
  ttl key = guarded available (client.ttl key)

  unfoldable pub zadd : String → Dict F → Effect S ℕ
  zadd key mapping = guarded available (client.zadd key mapping)

  unfoldable pub zrangebyscore : String → B → B → Bool → Effect S (List M)
  zrangebyscore key min max withscores =
      guarded available (client.zrangebyscore key min max withscores)

  unfoldable pub zrange : String → ℤ → ℤ → Effect S (List String)
  zrange key start end = guarded available (client.zrange key start end)

  unfoldable pub zrem : String → List String → Effect S ℕ
  zrem key members = guarded available (client.zrem key members)

  unfoldable pub sadd : String → List String → Effect S ℕ
  sadd key members = guarded available (client.sadd key members)

  unfoldable pub srem : String → List String → Effect S ℕ
  srem key members = guarded available (client.srem key members)

  -- a pipeline is not guarded by the adapter
  unfoldable pub adapter : Backend S F B M
  adapter = record {
    get = get;
    mget = mget;
    setex = setex;
    set_nx = set_nx;
    execute_setex = client.execute_setex;
    delete = delete;
    scan = scan;
    incrby = incrby;
    expire = expire;
    exists = exists;
    ttl = ttl;
    zadd = zadd;
    zrangebyscore = zrangebyscore;
    zrange = zrange;
    zrem = zrem;
    sadd = sadd;
    srem = srem;
  }

-- Where a client stores a text under a key and then gives it back, so does an initialised adapter of it.
adapter-Stores :
    {S F B M : Type 0} (client : Backend S F B M) (key text : String) (seconds : ℕ) (s : S)
    → (client.setex key seconds text s).0 ≡ ok tt
    → (client.get key (client.setex key seconds text s).1).0 ≡ ok (some text)
    → ((adapter true client).setex key seconds text s).0 ≡ ok tt
      × (((adapter true client).get key ((adapter true client).setex key seconds text s).1).0
          ≡ ok (some text))
unfolding adapter get setex
adapter-Stores {S} client key text seconds s stored found =
    rw (guarded-ok (client.setex key seconds text) s tt stored) (
      refl,
      ap (λ (r : Result (Option String) × S). r.0)
          (guarded-ok (client.get key) (client.setex key seconds text s).1 (some text) found),
    )
