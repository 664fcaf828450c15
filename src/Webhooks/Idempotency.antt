-- ===== src/Webhooks/Idempotency.antt =====
-- `WebhookIdempotencyGuard` of src/tr_shared/webhooks/idempotency.py. Redis is a parameter: `SET` with
-- NX answers whether the key was newly set. `get_redis_client` answers by returning or raising.
pub mod Once
use tr_shared_lib.Base.{
  ℕ, String, Option, none, some, Bool, true, false, not, List, [], ◌∷◌, str_eq, if◌then◌else◌, ◌==◌,
}
use tr_shared_lib.Base.Effect.{Effect, pure, try, when, ◌>>=◌, ◌>>◌}
use tr_shared_lib.Base.Text.{join_nonempty}

pub record GuardRedis (S : Type 0) : Type 0 where
  pub get_redis_client : String → Effect S (Unit {0})
  pub set_nx : String → String → ℕ → Effect S Bool
  pub set : String → String → ℕ → Effect S (Unit {0})

pub record WebhookIdempotencyGuard : Type 0 where
  pub has_client : Bool
  pub redis_url : String
  pub key_prefix : String
  pub default_ttl : ℕ

unfoldable pub build_key : WebhookIdempotencyGuard → String → String → String
build_key g provider event_id =
    join_nonempty (g.key_prefix ∷ "webhook" ∷ provider ∷ event_id ∷ "processed" ∷ [])

-- `ttl or self._default_ttl`
unfoldable pub effective_ttl : WebhookIdempotencyGuard → Option ℕ → ℕ
effective_ttl g none = g.default_ttl
effective_ttl g (some ttl) = if ttl == 0 then g.default_ttl else ttl

module _ {S : Type 0} (redis : GuardRedis S) (g : WebhookIdempotencyGuard) where
  -- `_get_redis`: whether there is a client
  unfoldable pub get_redis : Effect S Bool
  get_redis =
      if g.has_client
      then pure true
      else if str_eq g.redis_url ""
      then pure false
      else try (redis.get_redis_client g.redis_url >> pure true) (λ _. pure false)

  unfoldable pub ask : String → String → Option ℕ → Bool → Effect S Bool
  ask provider event_id ttl has =
      if has
      then try
          (redis.set_nx (build_key g provider event_id) "1" (effective_ttl g ttl) >>= λ was_set.
            pure (not was_set))
          (λ _. pure false)
      else pure false

  unfoldable pub is_duplicate : String → String → Option ℕ → Effect S Bool
  is_duplicate provider event_id ttl =
      if str_eq event_id "" then pure false else (get_redis >>= ask provider event_id ttl)

  unfoldable pub mark_processed : String → String → Option ℕ → Effect S (Unit {0})
  mark_processed provider event_id ttl = when (not (str_eq event_id "")) (
      get_redis >>= λ has.
      when has
        (try (redis.set (build_key g provider event_id) "1" (effective_ttl g ttl)) (λ _. pure tt)))
