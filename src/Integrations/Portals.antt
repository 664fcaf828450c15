-- ===== src/Integrations/Portals.antt =====
-- src/tr_shared/integrations/portal_identity.py: the facts about each portal, and what is computed from
-- them; and the exceptions of src/tr_shared/integrations/portal_errors.py.
use tr_shared_lib.Base.{
  ℕ, String, Option, none, some, Bool, true, false, List, [], ◌∷◌, str_eq, if◌then◌else◌, ◌≡◌, refl,
  arith,
}
use tr_shared_lib.Base.Dict.{Dict}
use tr_shared_lib.Errors.Exceptions.{
  BaseApiException, validation_error, authentication_error, not_found_error, conflict_error,
  rate_limit_error, internal_server_error, bad_gateway_error, service_unavailable_error,
}

pub data PortalSlug : Type 0 where
  website propertyfinder bayut dubizzle gemini meta hikcentral calcom : PortalSlug

unfoldable pub slug_value : PortalSlug → String
slug_value website = "website"
slug_value propertyfinder = "propertyfinder"
slug_value bayut = "bayut"
slug_value dubizzle = "dubizzle"
slug_value gemini = "gemini"
slug_value meta = "meta"
slug_value hikcentral = "hikcentral"
slug_value calcom = "calcom"

pub record PortalIdentity : Type 0 where
  pub slug : PortalSlug
  pub display_name : String
  pub is_connectable_platform : Bool
  pub is_listing_portal : Bool
  pub is_externally_publishable : Bool
  pub user_id_key : Option String
  pub shares_provider_with : Option PortalSlug

-- an entry with no agent mapping and a provider of its own
unfoldable pub identity : PortalSlug → String → Bool → Bool → Bool → PortalIdentity
identity slug display_name connectable listing publishable = record {
  slug = slug;
  display_name = display_name;
  is_connectable_platform = connectable;
  is_listing_portal = listing;
  is_externally_publishable = publishable;
  user_id_key = none;
  shares_provider_with = none;
}

-- `PORTAL_REGISTRY`
unfoldable pub portal_registry : PortalSlug → PortalIdentity
portal_registry website = identity website "Website" false true false
portal_registry propertyfinder = record (identity propertyfinder "PropertyFinder" true true true) {
  user_id_key = some "public_profile_id";
}
portal_registry bayut = record (identity bayut "Bayut" true true true) {
  user_id_key = some "user_id";
}
portal_registry dubizzle = record (identity dubizzle "Dubizzle" true true true) {
  user_id_key = some "user_id";
  shares_provider_with = some bayut;
}
portal_registry gemini = identity gemini "Google Gemini AI" true false false
portal_registry meta = identity meta "Meta (Facebook Lead Ads)" false false false
portal_registry hikcentral = identity hikcentral "HikCentral" true false false
portal_registry calcom = identity calcom "Cal.com" true false false

abbrev pub portal_slugs : List PortalSlug
portal_slugs =
    website ∷ propertyfinder ∷ bayut ∷ dubizzle ∷ gemini ∷ meta ∷ hikcentral ∷ calcom ∷ []

unfoldable pub find_slug : String → List PortalSlug → Option PortalSlug
find_slug text [] = none
find_slug text (slug ∷ slugs) =
    let rest = find_slug text slugs in if str_eq (slug_value slug) text then some slug else rest

-- `PortalSlug(text)`, none where it raises `ValueError`
unfoldable pub portal_slug : String → Option PortalSlug
portal_slug text = find_slug text portal_slugs

unfoldable pub registered : Option PortalSlug → Option PortalIdentity
registered none = none
registered (some slug) = some (portal_registry slug)

unfoldable pub get_portal_identity : String → Option PortalIdentity
get_portal_identity text = registered (portal_slug text)

unfoldable pub provider_of : PortalSlug → Option PortalSlug → PortalSlug
provider_of slug none = slug
provider_of slug (some shared) = shared

unfoldable pub provider_key : PortalIdentity → String
provider_key p = slug_value (provider_of p.slug p.shares_provider_with)

unfoldable pub slugs_where : (PortalIdentity → Bool) → List PortalSlug → List String
slugs_where p [] = []
slugs_where p (slug ∷ slugs) =
    let rest = slugs_where p slugs in
    if p (portal_registry slug) then slug_value slug ∷ rest else rest

unfoldable pub known_platform_slugs : List String
known_platform_slugs = slugs_where (λ p. p.is_connectable_platform) portal_slugs

unfoldable pub listing_portal_slugs : List String
listing_portal_slugs = slugs_where (λ p. p.is_listing_portal) portal_slugs

unfoldable pub externally_publishable_slugs : List String
externally_publishable_slugs = slugs_where (λ p. p.is_externally_publishable) portal_slugs

unfoldable pub add_key : String → Option String → Dict String → Dict String
add_key slug none keys = keys
add_key slug (some key) keys = (slug, key) ∷ keys

unfoldable pub user_id_keys : List PortalSlug → Dict String
user_id_keys [] = []
user_id_keys (slug ∷ slugs) =
    add_key (slug_value slug) (portal_registry slug).user_id_key (user_id_keys slugs)

unfoldable pub portal_user_id_keys : Dict String
portal_user_id_keys = user_id_keys portal_slugs

unfoldable pub provider_keys : List PortalSlug → Dict String
provider_keys [] = []
provider_keys (slug ∷ slugs) =
    let rest = provider_keys slugs in
    if (portal_registry slug).is_connectable_platform
    then (slug_value slug, provider_key (portal_registry slug)) ∷ rest
    else rest

unfoldable pub portal_provider_keys : Dict String
portal_provider_keys = provider_keys portal_slugs

-- A slug is read back from its text, and its entry stands under it.
get_portal_identity-slug_value :
    (slug : PortalSlug)
    → (get_portal_identity (slug_value slug) ≡ some (portal_registry slug))
      × ((portal_registry slug).slug ≡ slug)
unfolding get_portal_identity portal_slug find_slug slug_value registered portal_registry identity
get_portal_identity-slug_value website = (refl, refl)
get_portal_identity-slug_value propertyfinder = (refl, refl)
get_portal_identity-slug_value bayut = (refl, refl)
get_portal_identity-slug_value dubizzle = (refl, refl)
get_portal_identity-slug_value gemini = (refl, refl)
get_portal_identity-slug_value meta = (refl, refl)
get_portal_identity-slug_value hikcentral = (refl, refl)
get_portal_identity-slug_value calcom = (refl, refl)

-- What can be published abroad can be connected, is a listing portal, has a key for its agents, and its
-- webhooks are routed to a provider that can be published to as well.
publishable-IsConnected :
    (slug : PortalSlug)
    → (portal_registry slug).is_externally_publishable ≡ true
    → ((portal_registry slug).is_connectable_platform ≡ true)
      × ((portal_registry slug).is_listing_portal ≡ true)
      × ((key : String) × ((portal_registry slug).user_id_key ≡ some key))
      × ((provider : PortalSlug) × (provider_key (portal_registry slug) ≡ slug_value provider)
          × ((portal_registry provider).is_externally_publishable ≡ true))
unfolding portal_registry identity provider_key provider_of
publishable-IsConnected website h = ground (arith, h)
publishable-IsConnected propertyfinder h =
    (refl, refl, ("public_profile_id", refl), (propertyfinder, refl, refl))
publishable-IsConnected bayut h = (refl, refl, ("user_id", refl), (bayut, refl, refl))
publishable-IsConnected dubizzle h = (refl, refl, ("user_id", refl), (bayut, refl, refl))
publishable-IsConnected gemini h = ground (arith, h)
publishable-IsConnected meta h = ground (arith, h)
publishable-IsConnected hikcentral h = ground (arith, h)
publishable-IsConnected calcom h = ground (arith, h)

known_platforms :
    known_platform_slugs
    ≡ "propertyfinder" ∷ "bayut" ∷ "dubizzle" ∷ "gemini" ∷ "hikcentral" ∷ "calcom" ∷ []
unfolding known_platform_slugs slugs_where portal_registry identity slug_value
known_platforms = refl

-- An error of a portal: the shared exception that it extends, and what it carries beside it.
pub record PortalError (V : Type 0) : Type 0 where
  pub base : BaseApiException V
  pub portal : Option String
  pub retry_after : Option ℕ
  pub existing_listing_id : Option String
  pub reference : Option String
  pub errors : List V

module _ {V : Type 0} where
  unfoldable pub carried : BaseApiException V → Option String → PortalError V
  carried base portal = record {
    base = base;
    portal = portal;
    retry_after = none;
    existing_listing_id = none;
    reference = none;
    errors = [];
  }

  unfoldable pub portal_error : String → String → Option String → PortalError V
  portal_error detail code portal = carried (bad_gateway_error detail (some code)) portal

  unfoldable pub portal_auth_error : String → String → Option String → PortalError V
  portal_auth_error detail code portal =
      carried (authentication_error detail (some code) none) portal

  unfoldable pub portal_validation_error : String → String → Option String → List V → PortalError V
  portal_validation_error detail code portal errors =
      record (carried (validation_error detail (some code)) portal) { errors = errors }

  unfoldable pub portal_rate_limit_error :
      String → String → Option String → Option ℕ → PortalError V
  portal_rate_limit_error detail code portal retry_after =
      record (carried (rate_limit_error detail (some code) none none) portal) {
        retry_after = retry_after;
      }

  unfoldable pub portal_duplicate_error :
      String → String → Option String → Option String → Option String → PortalError V
  portal_duplicate_error detail code portal existing_listing_id reference =
      record (carried (conflict_error detail (some code)) portal) {
        existing_listing_id = existing_listing_id;
        reference = reference;
      }

  unfoldable pub portal_not_found_error :
      String → Option String → String → Option String → PortalError V
  portal_not_found_error resource identifier code portal =
      carried (not_found_error resource identifier (some code)) portal

  unfoldable pub portal_unavailable_error : String → String → Option String → PortalError V
  portal_unavailable_error detail code portal =
      carried (service_unavailable_error detail (some code) none) portal

  unfoldable pub portal_server_error : String → String → Option String → PortalError V
  portal_server_error detail code portal = carried (internal_server_error detail (some code)) portal
