-- ===== src/Middleware/UnstorableText.antt =====
-- `UnstorableTextMiddleware` of src/tr_shared/middleware/unstorable_text.py: which requests reach the
-- application. The parsing of a query, of a content type and of JSON are parameters; the body is the
-- whole of the messages that carry it, which the application is given again.
mod Tests
use tr_shared_lib.Base.{
  ℕ, ◌≤◌, Option, none, some, Bool, true, false, ◌&&◌, not, List, [], ◌∷◌, ◌≡◌, refl, arith,
  if◌then◌else◌,
}
use tr_shared_lib.Base.Text.{Text, codes}
use tr_shared_lib.Schemas.Validators.{
  Json, is_unstorable, Step, key, Location, unstorable_text_location,
}
use tr_shared_lib.Schemas.Validators.Storable.{
  size, is_storable, is_none, unstorable_text_location_lem,
}

-- What a content type says of a body.
pub data BodyKind : Type 0 where
  json_body form_body other_body : BodyKind

pub record Request : Type 0 where
  pub is_http : Bool
  pub path : Text
  -- the names and values of the query
  pub query : List (Text × Text)
  pub body_kind : BodyKind
  -- the body as JSON, none where it is none, and as a form
  pub json : Option Json
  pub form : List (Text × Text)

pub data Decision : Type 0 where
  -- on to the application
  forwarded : Decision
  -- answered with 422, at this place
  rejected : Location → Decision
  stuck : Decision

-- `_pairs_location`
unfoldable pub pairs_location : List (Text × Text) → Option Location
pairs_location [] = none
pairs_location ((name, value) ∷ pairs) =
    let rest = pairs_location pairs in
    if is_unstorable name
    then some []
    else if is_unstorable value
    then some (key name ∷ [])
    else rest

unfoldable pub decide : Text → Option Location → Decision → Decision
decide part none next = next
decide part (some location) next = rejected (key part ∷ location)

unfoldable pub decide_found : Option (Option Location) → Decision
decide_found none = stuck
decide_found (some found) = decide (codes "body") found forwarded

-- `_json_location`: a body that is no JSON is the application's to refuse
unfoldable pub json_decision : ℕ → Option Json → Decision
json_decision fuel none = forwarded
json_decision fuel (some value) = decide_found (unstorable_text_location fuel value)

unfoldable pub body_decision : ℕ → BodyKind → Request → Decision
body_decision fuel json_body r = json_decision fuel r.json
body_decision fuel form_body r = decide (codes "body") (pairs_location r.form) forwarded
body_decision fuel other_body r = forwarded

-- `__call__`
unfoldable pub call : ℕ → Request → Decision
call fuel r =
    if not r.is_http
    then forwarded
    else if is_unstorable r.path
    then rejected (key (codes "path") ∷ [])
    else decide (codes "query") (pairs_location r.query) (body_decision fuel r.body_kind r)

unfoldable pub pairs_storable : List (Text × Text) → Bool
pairs_storable [] = true
pairs_storable ((name, value) ∷ pairs) =
    not (is_unstorable name) && not (is_unstorable value) && pairs_storable pairs

-- What the body of a request is looked at for.
abbrev json_storable : Option Json → Bool
json_storable none = true
json_storable (some value) = is_storable value

abbrev pub body_storable : BodyKind → Request → Bool
body_storable json_body r = json_storable r.json
body_storable form_body r = pairs_storable r.form
body_storable other_body r = true

abbrev pub json_size : Option Json → ℕ
json_size none = 0
json_size (some value) = size value

abbrev pub is_forwarded : Decision → Bool
is_forwarded forwarded = true
is_forwarded (rejected location) = false
is_forwarded stuck = false

pairs_location_lem :
    (pairs : List (Text × Text)) → is_none (pairs_location pairs) ≡ pairs_storable pairs
unfolding pairs_location pairs_storable
pairs_location_lem [] = refl
pairs_location_lem ((name, value) ∷ pairs) = ground (arith, pairs_location_lem pairs)

is_forwarded-decide :
    (part : Text) (found : Option Location) (next : Decision)
    → is_forwarded (decide part found next) ≡ (is_none found && is_forwarded next)
unfolding decide
is_forwarded-decide part none next = refl
is_forwarded-decide part (some location) next = refl

is_forwarded-json :
    (fuel : ℕ) (json : Option Json)
    → json_size json ≤ fuel
    → is_forwarded (json_decision fuel json) ≡ json_storable json
unfolding json_decision decide_found
is_forwarded-json fuel none h = refl
is_forwarded-json fuel (some value) h =
    let (found, same, storable) = unstorable_text_location_lem fuel value h in
    rw same (ground (arith, storable, is_forwarded-decide (codes "body") found forwarded))

is_forwarded-body :
    (fuel : ℕ) (kind : BodyKind) (r : Request)
    → json_size r.json ≤ fuel
    → is_forwarded (body_decision fuel kind r) ≡ body_storable kind r
unfolding body_decision
is_forwarded-body fuel json_body r h = is_forwarded-json fuel r.json h
is_forwarded-body fuel form_body r h = ground (
  arith,
  is_forwarded-decide (codes "body") (pairs_location r.form) forwarded,
  pairs_location_lem r.form,
)
is_forwarded-body fuel other_body r h = refl

-- With fuel for each value of a JSON body: an HTTP request reaches the application exactly when every
-- text of its path, its query and its JSON or form body can be stored.
pub is_forwarded-call :
    (fuel : ℕ) (r : Request)
    → r.is_http ≡ true
    → json_size r.json ≤ fuel
    → is_forwarded (call fuel r)
      ≡ (not (is_unstorable r.path) && pairs_storable r.query && body_storable r.body_kind r)
unfolding call
is_forwarded-call fuel r http h = ground (
  arith,
  http,
  is_forwarded-decide (codes "query") (pairs_location r.query) (body_decision fuel r.body_kind r),
  pairs_location_lem r.query,
  is_forwarded-body fuel r.body_kind r h,
)
