-- ===== src/Middleware/UnstorableText/Tests.antt =====
-- Requests with a NUL in one place or another.
use tr_shared_lib.Base.{some, true, ◌&&◌, not, [], ◌∷◌, ◌≡◌, refl, arith}
use tr_shared_lib.Base.Text.{codes}
use tr_shared_lib.Schemas.Validators.{
  Json, text, object, list, scalar, no_fields, field, no_items, item, key, index,
  is_unstorable_character, is_unstorable, push_fields, push_items, look, unstorable_text_location,
}
use tr_shared_lib.Schemas.Validators.Storable.{size}
use tr_shared_lib.Middleware.UnstorableText.{
  json_body, form_body, Request, rejected, pairs_location, decide, decide_found, json_decision,
  body_decision, call, pairs_storable, body_storable, is_forwarded, is_forwarded-call,
}

-- {"a": 1, "b": ["x", "\0"]}
abbrev nul_in_list : Json
nul_in_list = object (
    field (codes "a") scalar (
      field (codes "b") (list (item (text (codes "x")) (item (text (0 ∷ [])) no_items))) no_fields))

abbrev request : Json → Request
request body = record {
  is_http = true;
  path = codes "/leads";
  query = (codes "q", codes "x") ∷ [];
  body_kind = json_body;
  json = some body;
  form = [];
}

found :
    call 5 (request nul_in_list) ≡ rejected (key (codes "body") ∷ key (codes "b") ∷ index 1 ∷ [])
unfolding call is_unstorable is_unstorable_character decide pairs_location body_decision
    json_decision decide_found unstorable_text_location look push_fields push_items
found = refl

-- A surrogate in the name of a form's field names no place within the body.
in_a_name :
    body_decision 0 form_body (record (request scalar) { form = (55296 ∷ [], codes "v") ∷ [] })
    ≡ rejected (key (codes "body") ∷ [])
unfolding body_decision pairs_location is_unstorable is_unstorable_character decide
in_a_name = refl

is_forwarded-call_example : is_forwarded (call 5 (request nul_in_list)) ≡ (
    not (is_unstorable (request nul_in_list).path)
    && pairs_storable (request nul_in_list).query
    && body_storable (request nul_in_list).body_kind (request nul_in_list))
is_forwarded-call_example =
    is_forwarded-call 5 (request nul_in_list) refl (unfold size in omega arith)
