-- ===== src/Integrations/ConfigClient/Invalidate.antt =====
-- `invalidate_cache` and `_key_matches` of src/tr_shared/integrations/config_client.py.
use Prim.Native.Char.{code}
use Prim.Native.String
use Prim.Native.String.append
use tr_shared_lib.Base.{
  String, Option, none, some, ◌≡◌, refl, ap, ◌∙◌, Bool, true, false, ◌&&◌, [], ◌∷◌, ◌++◌, any, ◌==◌,
  if◌then◌else◌, arith, eq_iff,
}
use tr_shared_lib.Base.Dict.{Dict, lookup}
use tr_shared_lib.Base.Text.{Text, codes, same_text}
use tr_shared_lib.Base.Words.{same_text_refl}
use tr_shared_lib.Integrations.ConfigClient.{ConfigClient, cache_key}

-- the parts before and after the last colon
unfoldable pub split_last : Text → Option (Text × Text)
split_last [] = none
split_last (c ∷ text) = elim (split_last text) [
  | some parts ↦ some (c ∷ parts.0, parts.1)
  | none ↦ if c == b':' then some ([], text) else none
]

-- the tenant and the platform of a key: `key.rsplit(":", 2)`, where that has three parts
unfoldable pub key_parts : Text → Option (Text × Text)
key_parts key = elim (split_last key) [ none ↦ none | some parts ↦ split_last parts.0 ]

unfoldable pub agrees : Option String → Text → Bool
agrees none part = true
agrees (some wanted) part = same_text (codes wanted) part

unfoldable pub key_matches : String → Option String → Option String → Bool
key_matches key tenant_id platform_name = elim (key_parts (codes key)) [
  | none ↦ false
  | some parts ↦ agrees tenant_id parts.0 && agrees platform_name parts.1
]

-- the deletion of every key that matches
unfoldable pub delete_matching : {V : Type 0} → Option String → Option String → Dict V → Dict V
delete_matching tenant_id platform_name [] = []
delete_matching tenant_id platform_name ((key, v) ∷ cache) =
    let rest = delete_matching tenant_id platform_name cache in
    if key_matches key tenant_id platform_name then rest else (key, v) ∷ rest

unfoldable pub invalidate_cache :
    {C S : Type 0} → Option String → Option String → ConfigClient C S → ConfigClient C S
invalidate_cache none none c = record c { local_cache = [] }
invalidate_cache (some tenant) platform_name c = record c {
  local_cache = delete_matching (some tenant) platform_name c.local_cache;
}
invalidate_cache none (some platform) c = record c {
  local_cache = delete_matching none (some platform) c.local_cache;
}

abbrev pub has_colon : Text → Bool
has_colon = any (λ c. c == b':')

split_last-none : (text : Text) → has_colon text ≡ false → split_last text ≡ none
unfolding split_last
split_last-none [] h = refl
split_last-none (c ∷ text) h = ground (arith, h, split_last-none text)

split_last-append :
    (before after : Text)
    → has_colon after ≡ false
    → split_last (before ++ b':' ∷ after) ≡ some (before, after)
unfolding split_last
split_last-append [] after h = ground (arith, split_last-none after h)
split_last-append (c ∷ before) after h = ground (arith, split_last-append before after h)

codes-append : (s t : String) → codes (String.◌++◌ s t) ≡ codes s ++ codes t
codes-append String.[] t = ap codes (append.nil t)
codes-append (String.◌∷◌ c s) t =
    ap codes (append.cons c s t) ∙ ap (λ rest. code c ∷ rest) (codes-append s t)

append_assoc_cons : (a b c : Text) → a ++ b':' ∷ (b ++ b':' ∷ c) ≡ (a ++ b':' ∷ b) ++ b':' ∷ c
append_assoc_cons [] b c = refl
append_assoc_cons (x ∷ a) b c = ap (λ rest. x ∷ rest) (append_assoc_cons a b c)

-- the last part of a key
abbrev kind_text : Bool → Text
kind_text secrets = codes (if secrets then "1" else "0")

codes-cache_key :
    (tenant platform : String) (secrets : Bool)
    → codes (cache_key tenant platform secrets)
      ≡ (codes tenant ++ b':' ∷ codes platform) ++ b':' ∷ kind_text secrets
unfolding cache_key
codes-cache_key tenant platform secrets =
    let kind = if secrets then "1" else "0" in
    let tail = String.◌++◌ platform (String.◌++◌ ":" kind) in
    codes-append tenant (String.◌++◌ ":" tail)
    ∙ ap (λ rest. codes tenant ++ rest) (codes-append ":" tail)
    ∙ ap (λ rest. codes tenant ++ b':' ∷ rest)
        (codes-append platform (String.◌++◌ ":" kind)
          ∙ ap (λ rest. codes platform ++ rest) (codes-append ":" kind))
    ∙ append_assoc_cons (codes tenant) (codes platform) (kind_text secrets)

kind_text-has_colon : (secrets : Bool) → has_colon (kind_text secrets) ≡ false
kind_text-has_colon true = refl
kind_text-has_colon false = refl

key_parts-cache_key :
    (tenant platform : String) (secrets : Bool)
    → has_colon (codes platform) ≡ false
    → key_parts (codes (cache_key tenant platform secrets)) ≡ some (codes tenant, codes platform)
unfolding key_parts
key_parts-cache_key tenant platform secrets h = ground (
  arith,
  codes-cache_key tenant platform secrets,
  split_last-append (codes tenant ++ b':' ∷ codes platform) (kind_text secrets)
      (kind_text-has_colon secrets),
  split_last-append (codes tenant) (codes platform) h,
)

lookup-delete_matching :
    {V : Type 0} (tenant platform : Option String) (key : String) (cache : Dict V)
    → key_matches key tenant platform ≡ true
    → lookup key (delete_matching tenant platform cache) ≡ none
unfolding lookup delete_matching
lookup-delete_matching tenant platform key [] h = refl
lookup-delete_matching tenant platform key ((k, v) ∷ cache) h =
    ground (arith, h, eq_iff k key, lookup-delete_matching tenant platform key cache h)

-- the request to invalidate covers this tenant and this platform
abbrev pub Covers : Option String → String → Type 0
Covers none wanted = Unit {0}
Covers (some named) wanted = named ≡ wanted

agrees-Covers :
    (asked : Option String) (wanted : String)
    → Covers asked wanted
    → agrees asked (codes wanted) ≡ true
unfolding agrees
agrees-Covers none wanted h = refl
agrees-Covers (some named) wanted h = rw h (same_text_refl (codes wanted))

-- After `invalidate_cache` for a tenant, a platform, both or neither, no configuration of theirs is
-- left in the cache, with or without secrets, if the name of the platform has no colon.
pub lookup-invalidate_cache :
    {C S : Type 0} (tenant_id platform_name : Option String) (tenant platform : String)
    (secrets : Bool) (c : ConfigClient C S)
    → Covers tenant_id tenant
    → Covers platform_name platform
    → has_colon (codes platform) ≡ false
    → lookup
        (cache_key tenant platform secrets)
        (invalidate_cache tenant_id platform_name c).local_cache
      ≡ none
unfolding invalidate_cache key_matches lookup
lookup-invalidate_cache tenant_id platform_name tenant platform secrets c ht hp h =
    let key = cache_key tenant platform secrets in
    let parts = key_parts-cache_key tenant platform secrets h in
    let t = agrees-Covers tenant_id tenant ht in
    let p = agrees-Covers platform_name platform hp in
    let matches : key_matches key tenant_id platform_name ≡ true = ground (arith, parts, t, p) in
    ground (arith, lookup-delete_matching tenant_id platform_name key c.local_cache matches)
