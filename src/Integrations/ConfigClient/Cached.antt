-- ===== src/Integrations/ConfigClient/Cached.antt =====
-- What the local cache of the configuration client holds, and for how long.
use tr_shared_lib.Base.{
  ◌+◌, ◌≤◌, ◌≡◌, refl, ap, ◌∙◌, String, Option, none, some, Bool, [], ◌∷◌, length, leb,
  if◌then◌else◌, arith, eq_iff,
}
use tr_shared_lib.Base.Dict.{Dict, lookup, lookup-insert, length-insert-le, length-remove-le}
use tr_shared_lib.Http.CircuitBreaker.{is_open}
use tr_shared_lib.Integrations.ConfigClient.{
  Answer, Fetched, fetched, failed, Entry, ConfigClient, Panel, cache_key, check_entry,
  get_from_cache, drop_oldest, make_room, store_entry, put_in_cache, read_answer, fetch_config,
  after_fetch, after_second_look, after_first_look, get_config,
}

module _ {C S : Type 0} (panel : Panel C S) where
  -- The cache has room for its entries.
  abbrev pub IsBounded : ConfigClient C S → Type 0
  IsBounded c = (1 ≤ c.local_cache_max_size) × (length c.local_cache ≤ c.local_cache_max_size)

  -- What other coroutines do while one waits, for a lock or for the panel, keeps that.
  abbrev pub IsKept : Type 0
  IsKept =
      ((key : String) (c : ConfigClient C S) → IsBounded c → IsBounded (panel.acquire key c))
      × ((tenant platform : String) (secrets : Bool) (c : ConfigClient C S)
          → IsBounded c
          → IsBounded (panel.get tenant platform secrets c).1)

  get_from_cache-IsBounded :
      (key : String) (c : ConfigClient C S) → IsBounded c → IsBounded (get_from_cache panel key c).1
  unfolding get_from_cache check_entry
  get_from_cache-IsBounded key c h = ground (arith, h, length-remove-le key c.local_cache)

  store_entry-IsBounded :
      (key : String) (config : C) (c : ConfigClient C S) (room : Option (Dict (Entry C)))
      → IsBounded c
      → ((cache : Dict (Entry C)) → room ≡ some cache → length cache + 1 ≤ c.local_cache_max_size)
      → IsBounded (store_entry panel key config c room).1
  unfolding store_entry
  store_entry-IsBounded key config c none h fits = h
  store_entry-IsBounded key config c (some cache) h fits =
      let entry : Entry C = record {
        expires_at = panel.clock c.outside + c.local_cache_ttl;
        config = config;
      } in
      (h.0, omega (arith, length-insert-le key entry cache, fits cache refl))

  make_room-fits :
      (c : ConfigClient C S) (cache : Dict (Entry C))
      → IsBounded c
      → make_room panel c ≡ some cache
      → length cache + 1 ≤ c.local_cache_max_size
  unfolding make_room drop_oldest
  make_room-fits c cache h e = fits c.local_cache h.0 h.1 e
    where
      fits :
          (held : Dict (Entry C))
          → 1 ≤ c.local_cache_max_size
          → length held ≤ c.local_cache_max_size
          → (if leb c.local_cache_max_size (length held) then drop_oldest panel held else some held)
            ≡ some cache
          → length cache + 1 ≤ c.local_cache_max_size
      fits [] p q e' = ground (arith, e', p, ap (length {0}))
      fits (x ∷ held) p q e' = ground (arith, e', p, q)

  after_fetch-IsBounded :
      (key : String) (r : Fetched C) (c : ConfigClient C S)
      → IsBounded c
      → IsBounded (after_fetch panel key (r, c)).1
  unfolding after_fetch put_in_cache
  after_fetch-IsBounded key (failed e) c h = h
  after_fetch-IsBounded key (fetched config) c h =
      store_entry-IsBounded key config c (make_room panel c) h
        (λ cache e. make_room-fits c cache h e)

  read_answer-IsBounded :
      (answer : Answer C) (c : ConfigClient C S)
      → IsBounded c
      → IsBounded (read_answer panel answer c).1
  unfolding read_answer
  read_answer-IsBounded answer c h = ground (arith, h)

  fetch_config-IsBounded :
      (tenant platform : String) (secrets : Bool) (c : ConfigClient C S)
      → IsKept
      → IsBounded c
      → IsBounded (fetch_config panel tenant platform secrets c).1
  unfolding fetch_config
  fetch_config-IsBounded tenant platform secrets c waits h =
      let asked = record c { circuit = (is_open (panel.clock c.outside) c.circuit).1 } in
      let (answer, c') = panel.get tenant platform secrets asked in
      let read = read_answer-IsBounded answer c' (waits.1 tenant platform secrets asked h) in
      ground (arith, h, read)

  after_second_look-IsBounded :
      (tenant platform : String) (secrets : Bool) (found : Option C) (c : ConfigClient C S)
      → IsKept
      → IsBounded c
      → IsBounded (after_second_look panel tenant platform secrets (found, c)).1
  unfolding after_second_look
  after_second_look-IsBounded tenant platform secrets (some config) c waits h = h
  after_second_look-IsBounded tenant platform secrets none c waits h =
      let (r, c') = fetch_config panel tenant platform secrets c in
      after_fetch-IsBounded (cache_key tenant platform secrets) r c'
        (fetch_config-IsBounded tenant platform secrets c waits h)

  after_first_look-IsBounded :
      (tenant platform : String) (secrets : Bool) (found : Option C) (c : ConfigClient C S)
      → IsKept
      → IsBounded c
      → IsBounded (after_first_look panel tenant platform secrets (found, c)).1
  unfolding after_first_look
  after_first_look-IsBounded tenant platform secrets (some config) c waits h = h
  after_first_look-IsBounded tenant platform secrets none c waits h =
      let key = cache_key tenant platform secrets in
      let looked = get_from_cache panel key (panel.acquire key c) in
      after_second_look-IsBounded tenant platform secrets looked.0 looked.1 waits
        (get_from_cache-IsBounded key (panel.acquire key c) (waits.0 key c h))

  -- Whatever the admin panel answers, `get_config` keeps the cache within its size, if the coroutines
  -- that run while it waits for the lock and for the panel do, and the size is not 0.
  pub get_config-IsBounded :
      (tenant platform : String) (secrets : Bool) (c : ConfigClient C S)
      → IsKept
      → IsBounded c
      → IsBounded (get_config panel tenant platform secrets c).1
  unfolding get_config
  get_config-IsBounded tenant platform secrets c waits h =
      let key = cache_key tenant platform secrets in
      let looked = get_from_cache panel key c in
      after_first_look-IsBounded tenant platform secrets looked.0 looked.1 waits
        (get_from_cache-IsBounded key c h)

  -- a configuration that is in the cache and has not expired is the answer, and nothing changes
  get_config-lookup :
      (tenant platform : String) (secrets : Bool) (entry : Entry C) (c : ConfigClient C S)
      → lookup (cache_key tenant platform secrets) c.local_cache ≡ some entry
      → panel.clock c.outside ≤ entry.expires_at
      → get_config panel tenant platform secrets c ≡ (fetched entry.config, c)
  unfolding get_config get_from_cache check_entry after_first_look
  get_config-lookup tenant platform secrets entry c held fresh = ground (arith, held, fresh)

  store_entry-lookup :
      (key : String) (config : C) (c : ConfigClient C S) (room : Option (Dict (Entry C)))
      → (store_entry panel key config c room).0 ≡ fetched config
      → lookup key (store_entry panel key config c room).1.local_cache
        ≡ some (record { expires_at = panel.clock c.outside + c.local_cache_ttl; config = config })
  unfolding store_entry
  store_entry-lookup key config c none h = absurd (ground (arith, h))
  store_entry-lookup key config c (some cache) h =
      let entry : Entry C = record {
        expires_at = panel.clock c.outside + c.local_cache_ttl;
        config = config;
      } in
      ground (arith, lookup-insert key key entry cache, eq_iff key key)

  -- A configuration that was put in the cache is what `get_config` answers for the same tenant,
  -- platform and kind, on any later client whose cache still has under that key what the put left
  -- there, until its lifetime is over, whatever else has become of the other entries, the breaker and
  -- the admin panel; nothing is changed by it.
  pub get_config-put_in_cache :
      (tenant platform : String) (secrets : Bool) (config : C) (c later : ConfigClient C S)
      → (put_in_cache panel (cache_key tenant platform secrets) config c).0 ≡ fetched config
      → lookup (cache_key tenant platform secrets) later.local_cache
        ≡ lookup
            (cache_key tenant platform secrets)
            (put_in_cache panel (cache_key tenant platform secrets) config c).1.local_cache
      → panel.clock later.outside ≤ panel.clock c.outside + c.local_cache_ttl
      → get_config panel tenant platform secrets later ≡ (fetched config, later)
  unfolding put_in_cache
  get_config-put_in_cache tenant platform secrets config c later stored kept fresh =
      let key = cache_key tenant platform secrets in
      get_config-lookup tenant platform secrets
        (record { expires_at = panel.clock c.outside + c.local_cache_ttl; config = config }) later
        (kept ∙ store_entry-lookup key config c (make_room panel c) stored) fresh
