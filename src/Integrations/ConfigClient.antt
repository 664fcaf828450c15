-- ===== src/Integrations/ConfigClient.antt =====
-- `IntegrationConfigClient` of src/tr_shared/integrations/config_client.py: `get_config` with the local
-- cache and the circuit breaker. The admin panel, the clock and what other coroutines do to the client
-- while this one waits, for a lock or for the panel, are parameters; a configuration is a value of `C`.
pub mod Cached
pub mod Invalidate
pub mod Warm
mod Tests
use tr_shared_lib.Base.{
  ℕ, ◌+◌, ◌≤◌, String, Option, none, some, Bool, true, false, List, [], ◌∷◌, length, ltb, leb, ◌==◌,
  if◌then◌else◌,
}
use tr_shared_lib.Base.Dict.{Dict, lookup, insert, remove}
use tr_shared_lib.Http.CircuitBreaker.{CircuitBreaker, is_open, record_success, record_failure}
use Prim.Native.String.{◌++◌}

-- what the GET on the admin panel comes to; a body is read as the configuration it holds, if any
pub data Answer (C : Type 0) : Type 0 where
  timed_out network_error : Answer C
  status : ℕ → Option C → Answer C

pub data FetchError : Type 0 where
  circuit_is_open no_answer not_found bad_status malformed no_room : FetchError

pub data Fetched (C : Type 0) : Type 0 where
  fetched : C → Fetched C
  failed : FetchError → Fetched C

pub record Entry (C : Type 0) : Type 0 where
  pub expires_at : ℕ
  pub config : C

pub record ConfigClient (C S : Type 0) : Type 0 where
  pub circuit : CircuitBreaker
  pub local_cache : Dict (Entry C)
  pub local_cache_ttl : ℕ
  pub local_cache_max_size : ℕ
  -- the state of the parameters
  pub outside : S

pub record Panel (C S : Type 0) : Type 0 where
  -- the GET, with what other coroutines do to the client while it is awaited
  pub get : String → String → Bool → ConfigClient C S → Answer C × ConfigClient C S
  pub clock : S → ℕ
  -- waiting for the lock of a key
  pub acquire : String → ConfigClient C S → ConfigClient C S

unfoldable pub cache_key : String → String → Bool → String
cache_key tenant_id platform_name include_secrets =
    tenant_id ++ ":" ++ platform_name ++ ":" ++ (if include_secrets then "1" else "0")

module _ {C S : Type 0} (panel : Panel C S) where
  -- `_get_from_cache`, by what the cache holds under the key
  unfoldable pub check_entry :
      String → Option (Entry C) → ConfigClient C S → Option C × ConfigClient C S
  check_entry key none c = (none, c)
  check_entry key (some entry) c =
      if ltb entry.expires_at (panel.clock c.outside)
      then (none, record c { local_cache = remove key c.local_cache })
      else (some entry.config, c)

  unfoldable pub get_from_cache : String → ConfigClient C S → Option C × ConfigClient C S
  get_from_cache key c = check_entry key (lookup key c.local_cache) c

  -- `del self._local_cache[oldest]`; an empty cache has no oldest entry
  unfoldable pub drop_oldest : Dict (Entry C) → Option (Dict (Entry C))
  drop_oldest [] = none
  drop_oldest ((key, entry) ∷ rest) = some rest

  unfoldable pub make_room : ConfigClient C S → Option (Dict (Entry C))
  make_room c =
      if leb c.local_cache_max_size (length c.local_cache)
      then drop_oldest c.local_cache
      else some c.local_cache

  unfoldable pub store_entry :
      String → C → ConfigClient C S → Option (Dict (Entry C)) → Fetched C × ConfigClient C S
  store_entry key config c none = (failed no_room, c)
  store_entry key config c (some cache) = (
    fetched config,
    record c {
      local_cache =
          insert key
            (record { expires_at = panel.clock c.outside + c.local_cache_ttl; config = config })
            cache;
    },
  )

  unfoldable pub put_in_cache : String → C → ConfigClient C S → Fetched C × ConfigClient C S
  put_in_cache key config c = store_entry key config c (make_room c)

  abbrev fail : ConfigClient C S → FetchError → Fetched C × ConfigClient C S
  fail c e = (failed e, record c { circuit = record_failure (panel.clock c.outside) c.circuit })

  unfoldable pub read_answer : Answer C → ConfigClient C S → Fetched C × ConfigClient C S
  read_answer timed_out c = fail c no_answer
  read_answer network_error c = fail c no_answer
  read_answer (status code body) c =
      if code == 404
      then (failed not_found, c)
      else if code == 200
      then (
        elim body [ none ↦ failed malformed | some config ↦ fetched config ],
        record c { circuit = record_success c.circuit },
      )
      else fail c bad_status

  unfoldable pub fetch_config :
      String → String → Bool → ConfigClient C S → Fetched C × ConfigClient C S
  fetch_config tenant_id platform_name include_secrets c =
      let (rejected, circuit) = is_open (panel.clock c.outside) c.circuit in
      let asked = record c { circuit = circuit } in
      if rejected
      then (failed circuit_is_open, asked)
      else let (answer, c') = panel.get tenant_id platform_name include_secrets asked in
        read_answer answer c'

  unfoldable pub after_fetch : String → Fetched C × ConfigClient C S → Fetched C × ConfigClient C S
  after_fetch key (failed e, c) = (failed e, c)
  after_fetch key (fetched config, c) = put_in_cache key config c

  -- under the lock of the key: the second look, then the fetch
  unfoldable pub after_second_look :
      String → String → Bool → Option C × ConfigClient C S → Fetched C × ConfigClient C S
  after_second_look tenant_id platform_name include_secrets (some config, c) = (fetched config, c)
  after_second_look tenant_id platform_name include_secrets (none, c) =
      after_fetch (cache_key tenant_id platform_name include_secrets)
        (fetch_config tenant_id platform_name include_secrets c)

  unfoldable pub after_first_look :
      String → String → Bool → Option C × ConfigClient C S → Fetched C × ConfigClient C S
  after_first_look tenant_id platform_name include_secrets (some config, c) = (fetched config, c)
  after_first_look tenant_id platform_name include_secrets (none, c) =
      let key = cache_key tenant_id platform_name include_secrets in
      after_second_look tenant_id platform_name include_secrets
        (get_from_cache key (panel.acquire key c))

  unfoldable pub get_config :
      String → String → Bool → ConfigClient C S → Fetched C × ConfigClient C S
  get_config tenant_id platform_name include_secrets c =
      after_first_look tenant_id platform_name include_secrets
        (get_from_cache (cache_key tenant_id platform_name include_secrets) c)
