-- ===== src/Integrations/ConfigClient/Tests.antt =====
-- The configuration client with a panel that is down and a clock that is the state.
use tr_shared_lib.Base.{some, none, ℕ, ◌≡◌, refl, true, false, [], ◌∷◌, arith}
use tr_shared_lib.Base.Dict.{lookup, insert}
use tr_shared_lib.Http.CircuitBreaker.{new}
use tr_shared_lib.Integrations.ConfigClient.{
  timed_out, fetched, ConfigClient, Panel, cache_key, make_room, store_entry, put_in_cache,
  get_config,
}
use tr_shared_lib.Integrations.ConfigClient.Cached.{
  IsBounded, get_config-IsBounded, get_config-put_in_cache,
}
use tr_shared_lib.Integrations.ConfigClient.Invalidate.{invalidate_cache, lookup-invalidate_cache}

abbrev down : Panel ℕ ℕ
down = record { get = λ _ _ _ c. (timed_out, c); clock = λ s. s; acquire = λ _ c. c }

abbrev client : ConfigClient ℕ ℕ
client = record {
  circuit = new "integration-config-client" 5 30;
  local_cache = [];
  local_cache_ttl = 1800;
  local_cache_max_size = 500;
  outside = 100;
}

get_config-IsBounded_example : IsBounded down (get_config down "t1" "Bayut" false client).1
get_config-IsBounded_example =
    get_config-IsBounded down "t1" "Bayut" false client (λ key c h. h, λ _ _ _ c h. h)
      (omega arith, omega arith)

put : (put_in_cache down (cache_key "t1" "Bayut" false) 7 client).0 ≡ fetched 7
unfolding put_in_cache store_entry make_room
put = refl

-- 1 800 ticks later, with another entry in front
abbrev later : ConfigClient ℕ ℕ
later = record client {
  local_cache =
      ("t2:Bayut:0", record { expires_at = 5; config = 8 })
      ∷ (cache_key "t1" "Bayut" false, record { expires_at = 1900; config = 7 })
      ∷ [];
  outside = 1900;
}

get_config-put_in_cache_example : get_config down "t1" "Bayut" false later ≡ (fetched 7, later)
unfolding put_in_cache store_entry make_room cache_key lookup insert
get_config-put_in_cache_example =
    get_config-put_in_cache down "t1" "Bayut" false 7 client later put refl (omega arith)

abbrev warm : ConfigClient ℕ ℕ
warm = record client { local_cache = ("t1:Bayut:1", record { expires_at = 900; config = 7 }) ∷ [] }

lookup-invalidate_cache_example :
    lookup (cache_key "t1" "Bayut" true) (invalidate_cache (some "t1") none warm).local_cache ≡ none
lookup-invalidate_cache_example =
    lookup-invalidate_cache (some "t1") none "t1" "Bayut" true warm refl tt refl
