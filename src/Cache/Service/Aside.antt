-- ===== src/Cache/Service/Aside.antt =====
-- A cache that fails costs no answer.
use tr_shared_lib.Base.{
  ℕ, String, Option, none, some, Bool, true, false, ◌≡◌, ◌≢◌, refl, inl, inr, arith, Bool-cases,
}
use tr_shared_lib.Base.Effect.{
  Exn, cancelled, redis_error, redis_connection, redis_timeout, os_error, value_error, other,
  Result, ok, raised, Effect, pure, ◌>>=◌, ◌>>◌,
}
use tr_shared_lib.Cache.Backend.{Backend}
use tr_shared_lib.Cache.Service.{
  Codec, give, get, after_set, store, too_large, store_checked, set, after_encode, keep,
  fetch_or_hit, get_or_set,
}

module _ {S F B M V : Type 0} (cache : Backend S F B M) (c : Codec V) where
  -- No call that stores a value is cancelled.
  abbrev pub IsUndisturbed : Type 0
  IsUndisturbed =
      ((key text : String) (ttl : ℕ) (s : S) → (cache.setex key ttl text s).0 ≢ raised cancelled)
      × ((value : Option V) → c.dumps value ≢ raised cancelled)

  store-undisturbed :
      (max_value_bytes : ℕ) (key : String) (ttl : ℕ) (text : String) (s : S)
      → IsUndisturbed
      → (store_checked cache c max_value_bytes key ttl false text s).0 ≢ raised cancelled
  unfolding store_checked store
  store-undisturbed max_value_bytes key ttl text s quiet h =
      elim (Bool-cases (too_large cache c max_value_bytes text)) [
        | inl large ↦ ground (arith, rw large at h)
        | inr small ↦ stored (rw small at h)
      ]
    where
      stored : ((cache.setex key ttl text >> pure true) s).0 ≢ raised cancelled
      stored h' = ground (arith, h', quiet.0 key text ttl s)

  given-undisturbed :
      (max_value_bytes : ℕ) (key : String) (ttl : ℕ) (s : S) (r : Result String)
      → IsUndisturbed
      → r ≢ raised cancelled
      → ((give cache c r >>= store_checked cache c max_value_bytes key ttl false) s).0
        ≢ raised cancelled
  unfolding give
  given-undisturbed max_value_bytes key ttl s (ok text) quiet h =
      store-undisturbed max_value_bytes key ttl text s quiet
  given-undisturbed max_value_bytes key ttl s (raised e) quiet h = λ e'. h (ground (arith, e'))

  -- nothing but a `ValueError` comes out of a `set` that is not cancelled
  set-raises :
      (max_value_bytes : ℕ) (key : String) (ttl : ℕ) (value : Option V) (s : S)
      → IsUndisturbed
      → (e : Exn) → (set cache c max_value_bytes key value ttl false s).0 ≡ raised e
      → e ≡ value_error
  unfolding set
  set-raises max_value_bytes key ttl value s quiet =
      go ((give cache c (c.dumps value) >>= store_checked cache c max_value_bytes key ttl false) s)
        (given-undisturbed max_value_bytes key ttl s (c.dumps value) quiet (quiet.1 value))
    where
      run : Result Bool × S → Result Bool × S
      run r =
          let (x, s') = r in
          elim x as (λ _. Result Bool × S) [
            | ok b ↦ (ok b, s')
            | raised cancelled ↦ (raised cancelled, s')
            | raised e ↦ after_set cache c e s'
          ]

      go :
          (r : Result Bool × S)
          → r.0 ≢ raised cancelled
          → (e : Exn) → (run r).0 ≡ raised e
          → e ≡ value_error
      go (ok b, s') never e h = ground (arith, h)
      go (raised redis_error, s') never e h = unfold after_set in ground (arith, h)
      go (raised redis_connection, s') never e h = unfold after_set in ground (arith, h)
      go (raised redis_timeout, s') never e h = unfold after_set in ground (arith, h)
      go (raised os_error, s') never e h = unfold after_set in ground (arith, h)
      go (raised value_error, s') never e h = unfold after_set in ground (arith, h)
      go (raised cancelled, s') never e h = elim (never refl) [ ]
      go (raised other, s') never e h = unfold after_set in ground (arith, h)

  keep-value :
      (max_value_bytes : ℕ) (key : String) (ttl : ℕ) (value : Option V) (s : S)
      → IsUndisturbed
      → (keep cache c max_value_bytes key ttl value s).0 ≡ ok value
  unfolding keep
  keep-value max_value_bytes key ttl none s quiet = refl
  keep-value max_value_bytes key ttl (some value) s quiet =
      go (set cache c max_value_bytes key (some value) ttl false s)
        (set-raises max_value_bytes key ttl (some value) s quiet)
    where
      run : Result Bool × S → Result Bool × S
      run r =
          let (x, s') = r in
          elim x as (λ _. Result Bool × S) [
            | ok b ↦ (ok b, s')
            | raised cancelled ↦ (raised cancelled, s')
            | raised e ↦ after_encode cache c e s'
          ]

      go :
          (r : Result Bool × S)
          → ((e : Exn) → r.0 ≡ raised e → e ≡ value_error)
          → (((λ (x : S). run r) >> pure (some value)) s).0 ≡ ok (some value)
      go (ok b, s') only = refl
      go (raised value_error, s') only = unfold after_encode in refl
      go (raised redis_error, s') only = ground (arith, only redis_error)
      go (raised redis_connection, s') only = ground (arith, only redis_connection)
      go (raised redis_timeout, s') only = ground (arith, only redis_timeout)
      go (raised os_error, s') only = ground (arith, only os_error)
      go (raised cancelled, s') only = ground (arith, only cancelled)
      go (raised other, s') only = ground (arith, only other)

  fetched-value :
      (max_value_bytes : ℕ) (key : String) (ttl : ℕ) (fetch_func : Effect S (Option V)) (s : S)
      → IsUndisturbed
      → ((fetch_func >>= keep cache c max_value_bytes key ttl) s).0 ≡ (fetch_func s).0
  fetched-value max_value_bytes key ttl fetch_func s quiet = go (fetch_func s)
    where
      go :
          (r : Result (Option V) × S)
          → (let (x, s') = r in
              elim x as (λ _. Result (Option V) × S) [
                | ok a ↦ keep cache c max_value_bytes key ttl a s'
                | raised e ↦ (raised e, s')
              ]).0
            ≡ r.0
      go (ok value, s') = keep-value max_value_bytes key ttl value s' quiet
      go (raised e, s') = refl

  -- `get_or_set`, where no call that stores is cancelled: a value that `get` finds is returned, and
  -- nothing else is done; where `get` finds none, because of a miss or an error of the cache, the
  -- outcome is that of the one call of `fetch_func`, its exceptions included, whatever the cache does
  -- with the value.
  pub get_or_set_lem :
      (max_value_bytes : ℕ) (key : String) (fetch_func : Effect S (Option V)) (ttl : ℕ) (s : S)
      → IsUndisturbed
      → ((value : V)
          → (get cache c key s).0 ≡ ok (some value)
          → get_or_set cache c max_value_bytes key fetch_func ttl s ≡ get cache c key s)
        × ((get cache c key s).0 ≡ ok none
            → (get_or_set cache c max_value_bytes key fetch_func ttl s).0
              ≡ (fetch_func (get cache c key s).1).0)
  unfolding get_or_set fetch_or_hit
  get_or_set_lem max_value_bytes key fetch_func ttl s quiet = go (get cache c key s)
    where
      run : Result (Option V) × S → Result (Option V) × S
      run r =
          let (x, s') = r in
          elim x as (λ _. Result (Option V) × S) [
            | ok a ↦ fetch_or_hit cache c max_value_bytes key fetch_func ttl a s'
            | raised e ↦ (raised e, s')
          ]

      go :
          (r : Result (Option V) × S)
          → ((value : V) → r.0 ≡ ok (some value) → run r ≡ r)
            × (r.0 ≡ ok none → (run r).0 ≡ (fetch_func r.1).0)
      go (ok none, s') = (
        λ value h. ground (arith, h),
        λ h. fetched-value max_value_bytes key ttl fetch_func s' quiet,
      )
      go (ok (some a), s') = (λ value h. refl, λ h. ground (arith, h))
      go (raised e, s') = (λ value h. ground (arith, h), λ h. ground (arith, h))
