-- ===== src/Database/Repository/Tests.antt =====
-- The repository on a table of four rows, two tenants and one deleted row.
use tr_shared_lib.Base.{ℕ, ◌≡◌, refl, String, Option, none, some, true, false, List, [], ◌∷◌, All}
use tr_shared_lib.Base.Dict.{lookup}
use tr_shared_lib.Base.Effect.{value_error, other, ok, raised}
use tr_shared_lib.Database.Repository.{
  Row, Model, Database, Session, has, column, equals, is_null, satisfies, add_where, filter_rows,
  limited, one_or_none, matching, answer, execute, is_live, scoped, require_tenant, apply_filters,
  orderable, order_query, require_column, lift, get_by_id, get_all, find_in, find_by_field_in,
  page_order, page_items, get_paginated, count, flush, write, touched, marked_deleted, delete_found,
  delete_in, soft_delete,
}
use tr_shared_lib.Database.Repository.Visible.{SortsRows, IsVisible}
use tr_shared_lib.Database.Repository.Tenants.{every, read, read-IsVisible}

abbrev row : String → String → Option ℕ → Row
row id tenant deleted = record {
  id = id;
  tenant_id = some tenant;
  deleted_at = deleted;
  updated_at = 1;
  is_active = true;
  values = ("name", "n") ∷ [];
}

abbrev leads : Model
leads = record {
  attributes = "id" ∷ "tenant_id" ∷ "deleted_at" ∷ "updated_at" ∷ "is_active" ∷ "name" ∷ [];
}

-- a table in the order that it is  in, without constraints
abbrev table : Database
table = record { sort = λ _ _ rows. rows; check = λ _. ok tt }

abbrev session : Session
session = record {
  queries = 0;
  rows =
      row "a" "t1" none
      ∷ row "b" "t2" none
      ∷ row "c" "t1" (some 3)
      ∷ row "d" "t1" none
      ∷ row "e" "t1" none
      ∷ [];
  now = 9;
}

abbrev tenant_list : List Row
tenant_list = row "a" "t1" none ∷ row "d" "t1" none ∷ row "e" "t1" none ∷ []

every_of_t1 : (get_all table leads (some "t1") [] (some "name") true session).0 ≡ ok tenant_list
unfolding get_all require_tenant orderable has order_query apply_filters scoped add_where execute
    answer limited matching filter_rows satisfies is_live equals is_null
every_of_t1 = refl

count_of_t1 :
    (count table leads (some "t1") (("name", some "n") ∷ ("other", some "x") ∷ []) session).0 ≡ ok 3
unfolding count require_tenant has apply_filters scoped add_where execute answer limited matching
    filter_rows satisfies is_live equals is_null column lookup
count_of_t1 = refl

-- A second deletion does not find the row.
deleted_twice :
    let once = soft_delete table leads "d" (some "t1") session in
    ((once.0 ≡ ok true) × ((soft_delete table leads "d" (some "t1") once.1).0 ≡ ok false))
unfolding soft_delete delete_in delete_found marked_deleted touched flush write get_by_id
    require_tenant has scoped add_where execute answer limited matching filter_rows satisfies
    is_live equals is_null one_or_none lift
deleted_twice = (refl, refl)

other_tenant : (soft_delete table leads "d" (some "t2") session).0 ≡ ok false
unfolding soft_delete delete_in delete_found get_by_id require_tenant has scoped add_where execute
    answer limited matching filter_rows satisfies is_live equals is_null one_or_none lift
other_tenant = refl

page_none :
    get_paginated table leads (some "t1") 0 2 [] none session
    ≡ (raised other, record session { queries = 1 })
unfolding get_paginated require_tenant page_order orderable has order_query apply_filters scoped
    add_where execute page_items
page_none = refl

no_such_column :
    find_by_field_in table leads "phone" ("1" ∷ []) (some "t1") session
    ≡ (raised value_error, session)
unfolding find_by_field_in find_in require_tenant require_column has
no_such_column = refl

sorts : SortsRows table
sorts P query order rows h = h

read-IsVisible_example :
    (t : String) × ◌≡◌ {A = Option String} (some "t1") (some t)
    × All (IsVisible table leads t) tenant_list
read-IsVisible_example =
    read-IsVisible table leads sorts (every [] (some "name") true) (some "t1") session tenant_list
      every_lem
  where
    every_lem :
        (read table leads (every [] (some "name") true) (some "t1") session).0 ≡ ok tenant_list
    every_lem = unfold read in every_of_t1
