-- ===== src/Cache/Service/Stored.antt =====
-- What `set` stores comes back from `get`.
use tr_shared_lib.Base.{
  ℕ, String, Option, some, true, false, ◌≡◌, ◌≢◌, refl, inl, inr, arith, Bool-cases,
}
use tr_shared_lib.Base.Effect.{
  Exn, cancelled, redis_error, redis_connection, redis_timeout, os_error, value_error, other,
  Result, ok, raised, Effect, pure, try, ◌>>=◌, ◌>>◌,
}
use tr_shared_lib.Cache.Backend.{Backend}
use tr_shared_lib.Cache.Service.{
  Codec, silent, give, decode, get, after_set, store, too_large, store_checked, set,
}

module _ {S F B M V : Type 0} (cache : Backend S F B M) (c : Codec V) where
  -- What was stored under a key is read under it.
  abbrev pub Stores : Type 0
  Stores =
      (key text : String) (ttl : ℕ) (s : S)
      → (cache.setex key ttl text s).0 ≡ ok tt
      → (cache.get key (cache.setex key ttl text s).1).0 ≡ ok (some text)

  abbrev pub Decodes : Type 0
  Decodes = (value : Option V) (text : String) → c.dumps value ≡ ok text → c.loads text ≡ ok value

  after_set-false : (e : Exn) (s : S) → (after_set cache c e s).0 ≢ ok true
  unfolding after_set
  after_set-false redis_error s h = ground (arith, h)
  after_set-false redis_connection s h = ground (arith, h)
  after_set-false redis_timeout s h = ground (arith, h)
  after_set-false os_error s h = ground (arith, h)
  after_set-false value_error s h = ground (arith, h)
  after_set-false cancelled s h = ground (arith, h)
  after_set-false other s h = ground (arith, h)

  try-ok :
      {A : Type 0} (m : Effect S A) (handler : Exn → Effect S A) (s : S) (a : A)
      → ((e : Exn) (s' : S) → (handler e s').0 ≢ ok a)
      → (try m handler s).0 ≡ ok a
      → try m handler s ≡ m s
  try-ok {A} m handler s a never h = go (m s) h
    where
      run : Result A × S → Result A × S
      run r =
          let (x, s') = r in
          elim x as (λ _. Result A × S) [
            | ok b ↦ (ok b, s')
            | raised cancelled ↦ (raised cancelled, s')
            | raised e ↦ handler e s'
          ]

      go : (r : Result A × S) → (run r).0 ≡ ok a → run r ≡ r
      go (ok b, s') h' = refl
      go (raised redis_error, s') h' = elim (never redis_error s' h') [ ]
      go (raised redis_connection, s') h' = elim (never redis_connection s' h') [ ]
      go (raised redis_timeout, s') h' = elim (never redis_timeout s' h') [ ]
      go (raised os_error, s') h' = elim (never os_error s' h') [ ]
      go (raised value_error, s') h' = elim (never value_error s' h') [ ]
      go (raised cancelled, s') h' = refl
      go (raised other, s') h' = elim (never other s' h') [ ]

  get-decoded :
      (key text : String) (value : Option V) (s : S)
      → (cache.get key s).0 ≡ ok (some text)
      → c.loads text ≡ ok value
      → (get cache c key s).0 ≡ ok value
  unfolding get silent decode give
  get-decoded key text value s h e = ground (arith, h, e)

  store-stored :
      (max_value_bytes : ℕ) (key : String) (ttl : ℕ) (text : String) (s : S)
      → (store_checked cache c max_value_bytes key ttl false text s).0 ≡ ok true
      → ((cache.setex key ttl text s).0 ≡ ok tt)
        × ((store_checked cache c max_value_bytes key ttl false text s).1
            ≡ (cache.setex key ttl text s).1)
  unfolding store_checked store
  store-stored max_value_bytes key ttl text s h =
      elim (Bool-cases (too_large cache c max_value_bytes text)) [
        | inl large ↦ ground (arith, h, large)
        | inr small ↦ rw small (stored (rw small at h))
      ]
    where
      stored :
          ((cache.setex key ttl text >> pure true) s).0 ≡ ok true
          → ((cache.setex key ttl text s).0 ≡ ok tt)
            × (((cache.setex key ttl text >> pure true) s).1 ≡ (cache.setex key ttl text s).1)
      stored h' = ground (arith, h')

  given-set :
      (max_value_bytes : ℕ) (key : String) (ttl : ℕ) (value : Option V) (s : S) (r : Result String)
      → Stores
      → Decodes
      → c.dumps value ≡ r
      → ((give cache c r >>= store_checked cache c max_value_bytes key ttl false) s).0 ≡ ok true
      → (get cache c key
          ((give cache c r >>= store_checked cache c max_value_bytes key ttl false) s).1).0
        ≡ ok value
  unfolding give
  given-set max_value_bytes key ttl value s (ok text) stores decodes encoded h =
      let (stored, same) = store-stored max_value_bytes key ttl text s h in
      rw same (
        get-decoded key text value (cache.setex key ttl text s).1 (stores key text ttl s stored)
          (decodes value text encoded))
  given-set max_value_bytes key ttl value s (raised e) stores decodes encoded h = ground (arith, h)

  -- Where the provider gives back under a key what it has stored there, and JSON decodes what it has
  -- encoded: after a `set` that returned true, without `nx`, `get` returns the value.
  pub get-set :
      (max_value_bytes : ℕ) (key : String) (ttl : ℕ) (value : Option V) (s : S)
      → Stores
      → Decodes
      → (set cache c max_value_bytes key value ttl false s).0 ≡ ok true
      → (get cache c key (set cache c max_value_bytes key value ttl false s).1).0 ≡ ok value
  unfolding set
  get-set max_value_bytes key ttl value s stores decodes h =
      let m =
        give cache c (c.dumps value) >>= store_checked cache c max_value_bytes key ttl false in
      let same = try-ok m (after_set cache c) s true (after_set-false) h in
      rw same (
        given-set max_value_bytes key ttl value s (c.dumps value) stores decodes refl
          (rw same at h))
