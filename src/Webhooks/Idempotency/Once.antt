-- ===== src/Webhooks/Idempotency/Once.antt =====
-- What the guard answers with a Redis that works, and with one that does not.
use tr_shared_lib.Base.{ℕ, String, Option, Bool, true, false, not, ◌≡◌, ◌≢◌, arith, eq_iff}
use tr_shared_lib.Base.Effect.{Exn, cancelled, ok, raised}
use tr_shared_lib.Webhooks.Idempotency.{
  GuardRedis, WebhookIdempotencyGuard, build_key, effective_ttl, get_redis, ask, is_duplicate,
}

-- What `SET key value NX EX ttl` promises while no key expires.
pub record Keeps {S : Type 0} (redis : GuardRedis S) : Type 0 where
  pub holds : S → String → Bool
  pub set_lem :
      (key value : String) (ttl : ℕ) (s : S)
      → (s' : S) × (redis.set_nx key value ttl s ≡ (ok (not (holds s key)), s'))
        × (holds s' key ≡ true)

module _ {S : Type 0} (redis : GuardRedis S) (g : WebhookIdempotencyGuard) where
  is_duplicate-holds :
      (keeps : Keeps redis) (provider event_id : String) (ttl : Option ℕ) (s : S)
      → g.has_client ≡ true
      → event_id ≢ ""
      → (s' : S) × (is_duplicate redis g provider event_id ttl s
          ≡ (ok (keeps.holds s (build_key g provider event_id)), s'))
        × (keeps.holds s' (build_key g provider event_id) ≡ true)
  unfolding is_duplicate get_redis ask
  is_duplicate-holds keeps provider event_id ttl s has real =
      let (s', e, h) = keeps.set_lem (build_key g provider event_id) "1" (effective_ttl g ttl) s in
      (s', ground (arith, has, real, e, eq_iff event_id ""), h)

  -- With a client and an event id: the guard calls an event a duplicate exactly if its key is there
  -- already, and after that question, whatever happens that keeps the key, it always does.
  pub is_duplicate-is_duplicate :
      (keeps : Keeps redis) (between : S → S) (provider event_id : String)
      (ttl later_ttl : Option ℕ) (s : S)
      → g.has_client ≡ true
      → event_id ≢ ""
      → ((s : S) (key : String) → keeps.holds s key ≡ true → keeps.holds (between s) key ≡ true)
      → (let (first, s') = is_duplicate redis g provider event_id ttl s in
          (first ≡ ok (keeps.holds s (build_key g provider event_id)))
          × ((is_duplicate redis g provider event_id later_ttl (between s')).0 ≡ ok true))
  is_duplicate-is_duplicate keeps between provider event_id ttl later_ttl s has real kept =
      let key = build_key g provider event_id in
      let (s', e, h) = is_duplicate-holds keeps provider event_id ttl s has real in
      let (s'', e', h') =
        is_duplicate-holds keeps provider event_id later_ttl
          (between (is_duplicate redis g provider event_id ttl s).1) has real in
      let still = kept s' key h in ground (arith, e, e', still)

  -- Where `SET` raises whenever it is sent, the guard calls no event a duplicate and raises nothing
  -- (unless the connection attempt is cancelled).
  pub is_duplicate_fail_open :
      (provider event_id : String) (ttl : Option ℕ) (s : S)
      → ((key value : String) (ttl : ℕ) (s : S)
          → (e : Exn) × (e ≢ cancelled) × ((redis.set_nx key value ttl s).0 ≡ raised e))
      → ((url : String) (s : S) → (redis.get_redis_client url s).0 ≢ raised cancelled)
      → (is_duplicate redis g provider event_id ttl s).0 ≡ ok false
  unfolding is_duplicate get_redis ask
  is_duplicate_fail_open provider event_id ttl s down connects =
      let key = build_key g provider event_id in
      let ttl' = effective_ttl g ttl in
      let (e, real, raises) = down key "1" ttl' s in
      let (e', real', raises') = down key "1" ttl' (redis.get_redis_client g.redis_url s).1 in
      let c = connects g.redis_url s in ground (arith, real, raises, real', raises', c)
