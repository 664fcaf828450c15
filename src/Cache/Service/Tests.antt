-- ===== src/Cache/Service/Tests.antt =====
-- The service on a provider that is a dictionary; a scan gives its keys in two rounds.
use tr_shared_lib.Base.{
  ℕ, zero, suc, String, Option, none, some, true, false, List, [], ◌∷◌, length, map, ◌≡◌, ◌≢◌, refl,
  eq_iff, arith,
}
use tr_shared_lib.Base.Dict.{Dict, lookup, insert, remove, lookup-insert}
use tr_shared_lib.Base.Effect.{cancelled, other, ok, raised, pure, raise}
use tr_shared_lib.Cache.Backend.{Backend}
use tr_shared_lib.Cache.Service.{
  Codec, silent, give, decode, get, after_set, store, too_large, store_checked, set, after_encode,
  keep, fetch_or_hit, get_or_set, delete_pattern, scan_from, scan_keys, build_key, build_list_key,
  join_parts, clean_parts, decode_all, get_many,
}
use tr_shared_lib.Cache.Service.Scan.{Advances, Ends, scan_loops-Ends}
use tr_shared_lib.Cache.Service.Stored.{Stores, Decodes, get-set}
use tr_shared_lib.Cache.Service.Aside.{IsUndisturbed, get_or_set_lem}
use tr_shared_lib.Cache.Helpers.{
  invalidate_list_caches, invalidate_pattern, invalidate_from, attempt, purge, build_cache_key,
  build_list_cache_key, merged_filters, list_key,
}

unfoldable keys_of : Dict String → List String
keys_of [] = []
keys_of ((key, value) ∷ d) = key ∷ keys_of d

unfoldable remove_all : List String → Dict String → Dict String
remove_all [] d = d
remove_all (key ∷ keys) d = remove_all keys (remove key d)

-- the first round gives every key, the second none
unfoldable scan_round : ℕ → Dict String → ℕ × List String
scan_round zero d = (1, keys_of d)
scan_round (suc cursor) d = (0, [])

abbrev provider : Backend (Dict String) ℕ ℕ String
provider = record {
  get = λ key s. (ok (lookup key s), s);
  mget = λ keys s. (ok (map (λ key. lookup key s) keys), s);
  setex = λ key ttl text s. (ok tt, insert key text s);
  set_nx = λ key ttl text s. (ok false, s);
  execute_setex = λ ttl texts s. (raised other, s);
  delete = λ keys s. (ok (length keys), remove_all keys s);
  scan = λ cursor pattern count s. (ok (scan_round cursor s), s);
  incrby = λ key amount s. (ok amount, s);
  expire = λ key ttl s. (ok true, s);
  exists = λ key s. (ok 0, s);
  ttl = λ key s. (raised other, s);
  zadd = λ key members s. (ok 0, s);
  zrangebyscore = λ key from to with_scores s. (ok [], s);
  zrange = λ key from to s. (ok [], s);
  zrem = λ key members s. (ok 0, s);
  sadd = λ key members s. (ok 0, s);
  srem = λ key members s. (ok 0, s);
}

-- a text is its own encoding, null the empty one
abbrev codec : Codec String
codec = record {
  dumps = λ value. elim value [ some text ↦ ok text | none ↦ raised other ];
  loads = λ text. ok (some text);
  size = λ text. 2;
}

abbrev cached : Dict String
cached = ("a", "x") ∷ ("b", "y") ∷ ("c", "z") ∷ []

-- a failing source, a value that is there, and one that is too large to cache
fetched :
    (get_or_set provider codec 1 "d" (raise other) 60 cached ≡ (raised other, cached))
    × (get_or_set provider codec 1 "b" (raise other) 60 cached ≡ (ok (some "y"), cached))
    × (get_or_set provider codec 1 "d" (pure (some "w")) 60 cached ≡ (ok (some "w"), cached))
unfolding get_or_set get silent decode give fetch_or_hit keep set store_checked too_large after_set
    after_encode lookup
fetched = (refl, refl, refl)

scanned : scan_keys provider codec 2 "*" 100 cached ≡ (ok (some ("a" ∷ "b" ∷ "c" ∷ [])), cached)
unfolding scan_keys silent scan_from scan_round keys_of
scanned = refl

invalidated : invalidate_list_caches provider 2 "lead" "dev" cached ≡ (ok (some 3), [])
unfolding remove_all remove invalidate_list_caches invalidate_pattern invalidate_from attempt purge
    scan_round keys_of
invalidated = refl

keys :
    (build_key "dev" (some "lead" ∷ none ∷ some "1" ∷ []) ≡ "dev:lead:1")
    × (build_list_key "dev" "lead" none ≡ "dev:lead:list:all")
    × (build_list_cache_key (λ _. "00") "lead" [] "dev" (("a", "1") ∷ []) ≡ "dev:lead:list:hash_00")
unfolding build_key build_list_key join_parts clean_parts build_list_cache_key build_cache_key
    merged_filters list_key insert
keys = (refl, refl, refl)

-- one key too many for the values that came back
found_many :
    get_many provider codec ("b" ∷ "d" ∷ []) cached
    ≡ (ok (("b", some "y") ∷ ("d", none) ∷ []), cached)
unfolding get_many silent decode_all decode give insert lookup
found_many = refl

stores : Stores provider codec
stores key text ttl s h = rw (lookup-insert key key text s) (ground (arith, eq_iff key key))

decodes : Decodes provider codec
decodes none text h = ground (arith, h)
decodes (some value) text h = ground (arith, h)

undisturbed : IsUndisturbed provider codec
undisturbed = (λ key text ttl s h. ground (arith, h), λ value h. none_cancelled value h)
  where
    none_cancelled : (value : Option String) → codec.dumps value ≢ raised cancelled
    none_cancelled none h = ground (arith, h)
    none_cancelled (some text) h = ground (arith, h)

stored : (set provider codec 9 "d" (some "w") 60 false cached).0 ≡ ok true
unfolding set give store_checked too_large store after_set
stored = refl

get-set_example :
    (get provider codec "d" (set provider codec 9 "d" (some "w") 60 false cached).1).0
    ≡ ok (some "w")
get-set_example = get-set provider codec 9 "d" 60 (some "w") cached stores decodes stored

get_or_set_lem_example :
    ((value : String)
      → (get provider codec "d" cached).0 ≡ ok (some value)
      → get_or_set provider codec 1 "d" (pure (some "w")) 60 cached ≡ get provider codec "d" cached)
    × ((get provider codec "d" cached).0 ≡ ok none
        → (get_or_set provider codec 1 "d" (pure (some "w")) 60 cached).0
          ≡ (pure (some "w") (get provider codec "d" cached).1).0)
get_or_set_lem_example = get_or_set_lem provider codec 1 "d" (pure (some "w")) 60 cached undisturbed

distance : ℕ → ℕ
distance zero = 1
distance (suc cursor) = 0

advances : Advances provider distance
unfolding distance scan_round
advances zero pattern count s next batch h nonzero = ground (arith, h)
advances (suc cursor) pattern count s next batch h nonzero = ground (arith, h, nonzero)

scan_loops-Ends_example :
    Ends (scan_keys provider codec 2 "*" 100 cached).0
    × Ends (delete_pattern provider codec 2 "*" cached).0
scan_loops-Ends_example =
    scan_loops-Ends provider codec distance advances 2 "*" 100 cached
      (unfold distance in omega arith)
