-- ===== src/Cache/Helpers.antt =====
-- src/tr_shared/cache/helpers.py: keys and their invalidation, on any provider. The loop of
-- `invalidate_pattern` runs on fuel, and `none` says that it ran out.
use tr_shared_lib.Base.{
  ℕ, zero, suc, ◌+◌, String, Option, none, some, Bool, true, false, List, [], ◌∷◌, str_eq, ◌==◌,
  if◌then◌else◌,
}
use tr_shared_lib.Base.Dict.{Dict, insert}
use tr_shared_lib.Base.Effect.{Effect, pure, try, ◌>>=◌}
use tr_shared_lib.Cache.Backend.{Backend}
use tr_shared_lib.Cache.Service.{join_parts, clean_parts}
use Prim.Native.String

unfoldable pub build_cache_key : List (Option String) → String → String
build_cache_key parts prefix = join_parts prefix (clean_parts parts)

-- a text that is neither None nor empty
unfoldable pub present : Option String → Bool
present none = false
present (some text) = if str_eq text "" then false else true

unfoldable pub build_entity_cache_key : String → Option String → Option String → String → String
build_entity_cache_key entity identifier tenant_id prefix =
    if present tenant_id
    then build_cache_key (some entity ∷ tenant_id ∷ identifier ∷ []) prefix
    else build_cache_key (some entity ∷ identifier ∷ []) prefix

-- `{**filters, **kwargs}`
unfoldable pub merged_filters : Dict String → Dict String → Dict String
merged_filters filters [] = filters
merged_filters filters ((key, value) ∷ kwargs) = merged_filters (insert key value filters) kwargs

-- `filter_hash` gives the first eight digits of the SHA-256 of the filters in JSON.
unfoldable pub list_key : (Dict String → String) → String → Dict String → String → String
list_key filter_hash entity [] prefix =
    build_cache_key (some entity ∷ some "list" ∷ some "all" ∷ []) prefix
list_key filter_hash entity (filter ∷ filters) prefix =
    build_cache_key
      (some entity ∷ some "list" ∷ some (String.◌++◌ "hash_" (filter_hash (filter ∷ filters))) ∷ [])
      prefix

unfoldable pub build_list_cache_key :
    (Dict String → String) → String → Dict String → String → Dict String → String
build_list_cache_key filter_hash entity filters prefix kwargs =
    list_key filter_hash entity (merged_filters filters kwargs) prefix

module _ {S F B M : Type 0} (cache : Backend S F B M) where
  -- none where it raised an `Exception`
  unfoldable pub attempt : {A : Type 0} → Effect S A → Effect S (Option A)
  attempt m = try (m >>= λ a. pure (some a)) (λ _. pure none)

  unfoldable pub purge : List String → Effect S ℕ
  purge [] = pure 0
  purge (key ∷ keys) = cache.delete (key ∷ keys)

  -- An exception ends the loop, with the keys deleted so far.
  unfoldable pub invalidate_from : ℕ → String → ℕ → ℕ → Effect S (Option ℕ)
  invalidate_from zero pattern cursor deleted_count = pure none
  invalidate_from (suc fuel) pattern cursor deleted_count =
      attempt (cache.scan cursor pattern 100) >>= λ found. elim found [
        | none ↦ pure (some deleted_count)
        | some (next, keys) ↦ attempt (purge keys) >>= λ purged. elim purged [
          | none ↦ pure (some deleted_count)
          | some deleted ↦ elim (next == 0) [
            | true ↦ pure (some (deleted_count + deleted))
            | false ↦ invalidate_from fuel pattern next (deleted_count + deleted)
          ]
        ]
      ]

  unfoldable pub invalidate_pattern : ℕ → String → Effect S (Option ℕ)
  invalidate_pattern fuel pattern = invalidate_from fuel pattern 0 0

  unfoldable pub entity_pattern : String → Option String → String → String
  entity_pattern entity tenant_id prefix =
      if present tenant_id
      then build_cache_key (some entity ∷ tenant_id ∷ some "*" ∷ []) prefix
      else build_cache_key (some entity ∷ some "*" ∷ []) prefix

  unfoldable pub invalidate_entity_cache :
      ℕ → String → Option String → Option String → String → Effect S (Option ℕ)
  invalidate_entity_cache fuel entity identifier tenant_id prefix =
      if present identifier
      then (cache.delete (build_entity_cache_key entity identifier tenant_id prefix ∷ [])
          >>= λ deleted. pure (some deleted))
      else invalidate_pattern fuel (entity_pattern entity tenant_id prefix)

  unfoldable pub invalidate_list_caches : ℕ → String → String → Effect S (Option ℕ)
  invalidate_list_caches fuel entity prefix =
      invalidate_pattern fuel (build_cache_key (some entity ∷ some "list" ∷ some "*" ∷ []) prefix)
