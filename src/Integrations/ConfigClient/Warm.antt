-- ===== src/Integrations/ConfigClient/Warm.antt =====
-- `get_enabled_tenants`, `warm_all` and `close` of src/tr_shared/integrations/config_client.py. The coroutines
-- that `gather` runs come here one after another; what another of them does to the client while one
-- waits is in `acquire` and `get`. The answer of the panel on the tenants of a platform is a parameter,
-- with what other coroutines do while it is awaited.
use tr_shared_lib.Base.{
  ℕ, ◌+◌, String, Option, none, some, true, List, [], ◌∷◌, ◌==◌, if◌then◌else◌, arith,
}
use tr_shared_lib.Http.CircuitBreaker.{is_open, record_success, record_failure}
use tr_shared_lib.Integrations.ConfigClient.{
  FetchError, circuit_is_open, no_answer, bad_status, malformed, Fetched, fetched, failed,
  ConfigClient, Panel, get_config,
}
use tr_shared_lib.Integrations.ConfigClient.Cached.{IsBounded, IsKept, get_config-IsBounded}

-- what the GET comes to; a body is read as the identifiers that it lists, none where it is no JSON
pub data TenantsAnswer : Type 0 where
  unreached : TenantsAnswer
  answered : ℕ → Option (List String) → TenantsAnswer

-- what an operation returns or raises
pub data Listed (A : Type 0) : Type 0 where
  listed : A → Listed A
  refused : FetchError → Listed A

module _ {C S : Type 0} (panel : Panel C S)
    (tenants : String → ConfigClient C S → TenantsAnswer × ConfigClient C S) where
  abbrev fail : ConfigClient C S → FetchError → Listed (List String) × ConfigClient C S
  fail c e = (refused e, record c { circuit = record_failure (panel.clock c.outside) c.circuit })

  unfoldable pub tenants_of : Option (List String) → Listed (List String)
  tenants_of none = refused malformed
  tenants_of (some tenant_ids) = listed tenant_ids

  unfoldable pub read_tenants :
      TenantsAnswer → ConfigClient C S → Listed (List String) × ConfigClient C S
  read_tenants unreached c = fail c no_answer
  read_tenants (answered code body) c =
      if code == 200
      then (tenants_of body, record c { circuit = record_success c.circuit })
      else fail c bad_status

  unfoldable pub get_enabled_tenants :
      String → ConfigClient C S → Listed (List String) × ConfigClient C S
  get_enabled_tenants platform_name c =
      let (rejected, circuit) = is_open (panel.clock c.outside) c.circuit in
      let asked = record c { circuit = circuit } in
      if rejected
      then (refused circuit_is_open, asked)
      else let (answer, c') = tenants platform_name asked in read_tenants answer c'

  -- 1 for a configuration that came, 0 for an exception, which is logged
  unfoldable pub warmed : Fetched C → ℕ
  warmed (fetched config) = 1
  warmed (failed e) = 0

  unfoldable pub warm_each : String → List String → ConfigClient C S → ℕ × ConfigClient C S
  warm_each platform_name [] c = (0, c)
  warm_each platform_name (tenant_id ∷ tenant_ids) c =
      let (outcome, c') = get_config panel tenant_id platform_name true c in
      let (count, last) = warm_each platform_name tenant_ids c' in (warmed outcome + count, last)

  unfoldable pub after_tenants :
      String → Listed (List String) × ConfigClient C S → Listed ℕ × ConfigClient C S
  after_tenants platform_name (refused e, c) = (refused e, c)
  after_tenants platform_name (listed tenant_ids, c) =
      let (count, c') = warm_each platform_name tenant_ids c in (listed count, c')

  unfoldable pub warm_all : String → ConfigClient C S → Listed ℕ × ConfigClient C S
  warm_all platform_name c = after_tenants platform_name (get_enabled_tenants platform_name c)

  -- `close`, less the closing of the HTTP client
  unfoldable close : ConfigClient C S → ConfigClient C S
  close c = record c { local_cache = [] }

  -- The coroutines that run while one waits keep the cache within its size.
  abbrev pub IsListKept : Type 0
  IsListKept =
      (platform : String) (c : ConfigClient C S)
      → IsBounded panel c
      → IsBounded panel (tenants platform c).1

  warm_each-IsBounded :
      (platform : String) (tenant_ids : List String) (c : ConfigClient C S)
      → IsKept panel
      → IsBounded panel c
      → IsBounded panel (warm_each platform tenant_ids c).1
  unfolding warm_each
  warm_each-IsBounded platform [] c waits h = h
  warm_each-IsBounded platform (tenant ∷ tenant_ids) c waits h =
      warm_each-IsBounded platform tenant_ids (get_config panel tenant platform true c).1 waits
        (get_config-IsBounded panel tenant platform true c waits h)

  get_enabled_tenants-IsBounded :
      (platform : String) (c : ConfigClient C S)
      → IsListKept
      → IsBounded panel c
      → IsBounded panel (get_enabled_tenants platform c).1
  unfolding get_enabled_tenants read_tenants
  get_enabled_tenants-IsBounded platform c waits h =
      let asked = record c { circuit = (is_open (panel.clock c.outside) c.circuit).1 } in
      ground (arith, h, waits platform asked h)

  after_tenants-IsBounded :
      (platform : String) (found : Listed (List String)) (c : ConfigClient C S)
      → IsKept panel
      → IsBounded panel c
      → IsBounded panel (after_tenants platform (found, c)).1
  unfolding after_tenants
  after_tenants-IsBounded platform (refused e) c waits h = h
  after_tenants-IsBounded platform (listed tenant_ids) c waits h =
      warm_each-IsBounded platform tenant_ids c waits h

  -- However many tenants the panel lists, warming them all keeps the cache within its size, if the
  -- coroutines that run while one waits do, and the size is not 0.
  warm_all-IsBounded :
      (platform : String) (c : ConfigClient C S)
      → IsKept panel
      → IsListKept
      → IsBounded panel c
      → IsBounded panel (warm_all platform c).1
  unfolding warm_all
  warm_all-IsBounded platform c waits lists h =
      let found = get_enabled_tenants platform c in
      after_tenants-IsBounded platform found.0 found.1 waits
        (get_enabled_tenants-IsBounded platform c lists h)
