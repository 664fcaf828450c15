-- ===== src/Cache/Service.antt =====
-- `CacheService` of src/tr_shared/cache/service.py on a provider. JSON and SHA-256 are parameters; a
-- JSON null is `none`, as a miss is for Python. The SCAN loops run on fuel, and `none` says that it
-- ran out.
pub mod Scan
pub mod Stored
pub mod Aside
mod Tests
use tr_shared_lib.Base.{
  ℕ, zero, suc, ◌+◌, String, Option, none, some, Bool, true, false, ◌&&◌, not, List, [], ◌∷◌, ◌++◌,
  length, ltb, ◌==◌, if◌then◌else◌,
}
use tr_shared_lib.Base.Dict.{Dict, insert}
use tr_shared_lib.Base.Effect.{
  Exn, value_error, cancelled, Result, ok, raised, Effect, pure, raise, try, ◌>>=◌, ◌>>◌,
}
use tr_shared_lib.Cache.Backend.{ℤ, pos, negsuc, same_integer, Backend}
use Prim.Native.String

pub record Codec (V : Type 0) : Type 0 where
  -- `json.dumps(value, default=str)` and `json.loads`
  pub dumps : Option V → Result String
  pub loads : String → Result (Option V)
  -- the bytes of a text in UTF-8
  pub size : String → ℕ

pub record CacheResult (V : Type 0) : Type 0 where
  pub value : Option V
  pub hit : Bool
  pub error : Option Exn

-- `":".join(parts)`
unfoldable pub join_parts : String → List String → String
join_parts first [] = first
join_parts first (part ∷ parts) = String.◌++◌ first (String.◌++◌ ":" (join_parts part parts))

-- `[str(part) for part in parts if part is not None]`
unfoldable pub clean_parts : List (Option String) → List String
clean_parts [] = []
clean_parts (none ∷ parts) = clean_parts parts
clean_parts (some part ∷ parts) = part ∷ clean_parts parts

-- the keys of `items`, each with its value in JSON
unfoldable pub encode_all : {V : Type 0} → Codec V → Dict (Option V) → Result (Dict String)
encode_all c [] = ok []
encode_all c ((key, value) ∷ items) =
    let rest = encode_all c items in
    elim (c.dumps value) [
      | ok text ↦ elim rest [ ok texts ↦ ok ((key, text) ∷ texts) | raised e ↦ raised e ]
      | raised e ↦ raised e
    ]

-- `dict.fromkeys(keys)`
unfoldable pub nothing_of : {V : Type 0} → List String → Dict (Option V) → Dict (Option V)
nothing_of [] found = found
nothing_of (key ∷ keys) found = nothing_of keys (insert key none found)

module _ {S F B M V : Type 0} (cache : Backend S F B M) (c : Codec V) where
  -- the `except Exception` of every method: log it, and return this
  unfoldable pub silent : {A : Type 0} → A → Effect S A → Effect S A
  silent default m = try m (λ _. pure default)

  unfoldable pub give : {A : Type 0} → Result A → Effect S A
  give r s = (r, s)

  unfoldable pub decode : Option String → Effect S (Option V)
  decode none = pure none
  decode (some text) = give (c.loads text)

  unfoldable pub get : String → Effect S (Option V)
  get key = silent none (cache.get key >>= decode)

  unfoldable pub as_hit : Option String → Effect S (CacheResult V)
  as_hit none = pure (record { value = none; hit = false; error = none })
  as_hit (some text) =
      give (c.loads text) >>= λ value. pure (record { value = value; hit = true; error = none })

  unfoldable pub get_result : String → Effect S (CacheResult V)
  get_result key =
      try (cache.get key >>= as_hit)
        (λ e. pure (record { value = none; hit = false; error = some e }))

  -- `zip(keys, cached_values, strict=False)`
  unfoldable pub decode_all :
      List String → List (Option String) → Dict (Option V) → Effect S (Dict (Option V))
  decode_all [] cached found = pure found
  decode_all (key ∷ keys) [] found = pure found
  decode_all (key ∷ keys) (text ∷ cached) found =
      decode text >>= λ value. decode_all keys cached (insert key value found)

  unfoldable pub get_many : List String → Effect S (Dict (Option V))
  get_many [] = pure []
  get_many (key ∷ keys) =
      silent (nothing_of (key ∷ keys) [])
        (cache.mget (key ∷ keys) >>= λ cached. decode_all (key ∷ keys) cached [])

  -- `except ValueError: raise` before `except Exception`
  unfoldable pub after_set : Exn → Effect S Bool
  after_set value_error = raise value_error
  after_set e = pure false

  unfoldable pub store : String → ℕ → Bool → String → Effect S Bool
  store key ttl true text = cache.set_nx key ttl text
  store key ttl false text = cache.setex key ttl text >> pure true

  -- `if self._max_value_bytes and len(serialized.encode()) > self._max_value_bytes`
  unfoldable pub too_large : ℕ → String → Bool
  too_large max_value_bytes text = not (max_value_bytes == 0) && ltb max_value_bytes (c.size text)

  unfoldable pub store_checked : ℕ → String → ℕ → Bool → String → Effect S Bool
  store_checked max_value_bytes key ttl nx text =
      if too_large max_value_bytes text then raise value_error else store key ttl nx text

  unfoldable pub set : ℕ → String → Option V → ℕ → Bool → Effect S Bool
  set max_value_bytes key value ttl nx =
      try (give (c.dumps value) >>= store_checked max_value_bytes key ttl nx) after_set

  -- `except ValueError` of the caller
  unfoldable pub after_encode : Exn → Effect S Bool
  after_encode value_error = pure false
  after_encode e = raise e

  unfoldable pub keep : ℕ → String → ℕ → Option V → Effect S (Option V)
  keep max_value_bytes key ttl none = pure none
  keep max_value_bytes key ttl (some value) =
      try (set max_value_bytes key (some value) ttl false) after_encode >> pure (some value)

  unfoldable pub fetch_or_hit :
      ℕ → String → Effect S (Option V) → ℕ → Option V → Effect S (Option V)
  fetch_or_hit max_value_bytes key fetch_func ttl (some value) = pure (some value)
  fetch_or_hit max_value_bytes key fetch_func ttl none = fetch_func >>= keep max_value_bytes key ttl

  unfoldable pub get_or_set : ℕ → String → Effect S (Option V) → ℕ → Effect S (Option V)
  get_or_set max_value_bytes key fetch_func ttl =
      get key >>= fetch_or_hit max_value_bytes key fetch_func ttl

  unfoldable pub set_many : Dict (Option V) → ℕ → Effect S ℕ
  set_many [] ttl = pure 0
  set_many (item ∷ items) ttl = silent 0 (
      give (encode_all c (item ∷ items)) >>= λ texts.
      cache.execute_setex ttl texts >> pure (length (item ∷ items)))

  unfoldable pub delete : List String → Effect S (Unit {0})
  delete [] = pure tt
  delete (key ∷ keys) = silent tt (cache.delete (key ∷ keys) >> pure tt)

  unfoldable pub delete_batch : List String → Effect S ℕ
  delete_batch [] = pure 0
  delete_batch (key ∷ keys) = cache.delete (key ∷ keys)

  unfoldable pub delete_from : ℕ → String → ℕ → ℕ → Effect S (Option ℕ)
  delete_from zero pattern cursor deleted_count = pure none
  delete_from (suc fuel) pattern cursor deleted_count =
      cache.scan cursor pattern 100 >>= λ (next, keys). delete_batch keys >>= λ deleted.
      elim (next == 0) [
        | true ↦ pure (some (deleted_count + deleted))
        | false ↦ delete_from fuel pattern next (deleted_count + deleted)
      ]

  unfoldable pub delete_pattern : ℕ → String → Effect S (Option ℕ)
  delete_pattern fuel pattern = silent (some 0) (delete_from fuel pattern 0 0)

  unfoldable pub start_ttl : String → Option ℕ → Bool → Effect S (Unit {0})
  start_ttl key none created = pure tt
  start_ttl key (some ttl) false = pure tt
  start_ttl key (some ttl) true = cache.expire key ttl >> pure tt

  unfoldable pub increment : String → ℤ → Option ℕ → Effect S ℤ
  increment key amount ttl = silent (pos 0) (
      cache.incrby key amount >>= λ new_val.
      start_ttl key ttl (same_integer new_val amount) >> pure new_val)

  unfoldable pub exists : String → Effect S Bool
  exists key = silent false (cache.exists key >>= λ n. pure (not (n == 0)))

  unfoldable pub ttl : String → Effect S ℤ
  ttl key = silent (negsuc 1) (cache.ttl key)

  unfoldable pub expire : String → ℕ → Effect S Bool
  expire key seconds = silent false (cache.expire key seconds)

  unfoldable pub scan_from : ℕ → String → ℕ → ℕ → List String → Effect S (Option (List String))
  scan_from zero pattern count cursor keys = pure none
  scan_from (suc fuel) pattern count cursor keys =
      cache.scan cursor pattern count >>= λ (next, batch). elim (next == 0) [
        | true ↦ pure (some (keys ++ batch))
        | false ↦ scan_from fuel pattern count next (keys ++ batch)
      ]

  unfoldable pub scan_keys : ℕ → String → ℕ → Effect S (Option (List String))
  scan_keys fuel pattern count = silent (some []) (scan_from fuel pattern count 0 [])

  unfoldable pub zadd : String → Dict F → Effect S ℕ
  zadd key mapping = silent 0 (cache.zadd key mapping)

  unfoldable pub zrangebyscore : String → B → B → Bool → Effect S (List M)
  zrangebyscore key min max withscores = silent [] (cache.zrangebyscore key min max withscores)

  unfoldable pub zrange : String → ℤ → ℤ → Effect S (List String)
  zrange key start end = silent [] (cache.zrange key start end)

  unfoldable pub zrem : String → List String → Effect S ℕ
  zrem key members = silent 0 (cache.zrem key members)

  unfoldable pub sadd : String → List String → Effect S ℕ
  sadd key members = silent 0 (cache.sadd key members)

  unfoldable pub srem : String → List String → Effect S ℕ
  srem key members = silent 0 (cache.srem key members)

unfoldable pub build_key : String → List (Option String) → String
build_key key_prefix parts = join_parts key_prefix (clean_parts parts)

-- `build_list_key`, with the first eight digits of the hash of the filters, none where there are none
unfoldable pub build_list_key : String → String → Option String → String
build_list_key key_prefix entity none =
    build_key key_prefix (some entity ∷ some "list" ∷ some "all" ∷ [])
build_list_key key_prefix entity (some filter_hash) =
    build_key key_prefix (some entity ∷ some "list" ∷ some (String.◌++◌ "hash_" filter_hash) ∷ [])
