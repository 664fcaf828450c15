-- ===== src/Database/Repository.antt =====
-- `BaseRepository` of src/tr_shared/db/repository.py. A query is built as in the source, from WHERE
-- conditions, an order, a limit and an offset; the database answers it on the list of the rows. How it
-- orders its answers and which writes its constraints refuse are parameters. Every model that is
-- queried has the columns `id` and `tenant_id`.
pub mod Visible
pub mod Tenants
mod Tests
use tr_shared_lib.Base.{
  ℕ, zero, suc, ◌+◌, ◌-◌, ◌*◌, String, Option, none, some, Bool, true, false, ◌&&◌, ◌||◌, not, List,
  [], ◌∷◌, map, any, length, take, drop, str_eq, ◌==◌, if◌then◌else◌,
}
use tr_shared_lib.Base.Dict.{Dict, lookup}
use tr_shared_lib.Base.Effect.{
  Exn, value_error, other, Result, ok, raised, Effect, pure, raise, ◌>>=◌, ◌>>◌,
}

-- A row of the model's table. `values` are its other columns as texts, by name, and what a filter by
-- one of the two times compares with; a null has no entry.
pub record Row : Type 0 where
  pub id : String
  pub tenant_id : Option String
  pub deleted_at : Option ℕ
  pub updated_at : ℕ
  pub is_active : Bool
  pub values : Dict String

-- what `hasattr(self.model, …)` asks
pub record Model : Type 0 where
  pub attributes : List String

abbrev pub Filters : Type 0
Filters = Dict (Option String)

pub record Query : Type 0 where
  pub wheres : List (Row → Bool)
  -- the column and whether it is descending
  pub order : Option (String × Bool)
  pub limit : Option ℕ
  pub offset : ℕ

pub record Database : Type 0 where
  -- The order of one answer, by the number of the query: ORDER BY a column, descending or not, or none.
  -- SQL fixes neither the order of rows that are equal in the column nor that of a query without ORDER
  -- BY, so two queries may see two orders.
  pub sort : ℕ → Option (String × Bool) → List Row → List Row
  -- the constraints: whether the table may become this
  pub check : List Row → Result (Unit {0})

-- the session's view of the table, the number of queries so far, and the clock
pub record Session : Type 0 where
  pub queries : ℕ
  pub rows : List Row
  pub now : ℕ

unfoldable pub has : Model → String → Bool
has m name = any (str_eq name) m.attributes

-- a column as a text, none for a null
unfoldable pub column : String → Row → Option String
column name row =
    if str_eq name "id"
    then some row.id
    else if str_eq name "tenant_id"
    then row.tenant_id
    else if str_eq name "is_active"
    then some (if row.is_active then "true" else "false")
    else lookup name row.values

-- `column == value` in SQL: a null equals nothing
unfoldable pub equals : Option String → String → Bool
equals none value = false
equals (some v) value = str_eq v value

unfoldable pub is_null : Option ℕ → Bool
is_null none = true
is_null (some t) = false

unfoldable pub satisfies : List (Row → Bool) → Row → Bool
satisfies [] row = true
satisfies (p ∷ ps) row = p row && satisfies ps row

unfoldable pub add_where : (Row → Bool) → Query → Query
add_where p q = record q { wheres = p ∷ q.wheres }

unfoldable pub filter_rows : (Row → Bool) → List Row → List Row
filter_rows p [] = []
filter_rows p (row ∷ rows) = let rest = filter_rows p rows in if p row then row ∷ rest else rest

unfoldable pub limited : Option ℕ → List Row → List Row
limited none rows = rows
limited (some n) rows = take n rows

-- `scalar_one_or_none`
unfoldable pub one_or_none : List Row → Result (Option Row)
one_or_none [] = ok none
one_or_none (row ∷ []) = ok (some row)
one_or_none (row ∷ another ∷ rows) = raised other

unfoldable pub contains : List String → String → Bool
contains values v = any (str_eq v) values

unfoldable pub is_in : Option String → List String → Bool
is_in none values = false
is_in (some v) values = contains values v

module _ (d : Database) (m : Model) where
  unfoldable pub matching : Query → List Row → List Row
  matching q rows = filter_rows (satisfies q.wheres) rows

  -- what the database answers to a query: WHERE, ORDER BY, OFFSET and LIMIT, in this order
  unfoldable pub answer : ℕ → Query → List Row → List Row
  answer query q rows = limited q.limit (drop q.offset (d.sort query q.order (matching q rows)))

  unfoldable pub execute : Query → Effect Session (List Row)
  execute q s = (ok (answer s.queries q s.rows), record s { queries = s.queries + 1 })

  unfoldable pub is_live : Row → Bool
  is_live row = not (has m "deleted_at") || is_null row.deleted_at

  -- `select(self.model).where(tenant_id == …)`, and the deleted rows left out
  unfoldable pub scoped : String → Query
  scoped tenant = add_where is_live (
      add_where (λ row. equals row.tenant_id tenant)
        (record { wheres = []; order = none; limit = none; offset = 0 }))

  -- `_require_tenant`
  unfoldable pub require_tenant : Option String → Effect Session String
  require_tenant none = raise value_error
  require_tenant (some tenant) = pure tenant

  unfoldable pub apply_filters : Filters → Query → Query
  apply_filters [] q = q
  apply_filters ((key, none) ∷ filters) q = apply_filters filters q
  apply_filters ((key, some value) ∷ filters) q =
      apply_filters filters
        (if has m key then add_where (λ row. equals (column key row) value) q else q)

  -- `if order_by and hasattr(self.model, order_by)`
  unfoldable pub orderable : Option String → Option String
  orderable none = none
  orderable (some name) = if not (str_eq name "") && has m name then some name else none

  unfoldable pub order_query : Option String → Bool → Query → Query
  order_query none descending q = q
  order_query (some name) descending q = record q { order = some (name, descending) }

  -- `_column`
  unfoldable pub require_column : String → Effect Session (Unit {0})
  require_column name = if has m name then pure tt else raise value_error

  unfoldable pub lift : {A : Type 0} → Result A → Effect Session A
  lift r s = (r, s)

  unfoldable pub get_by_id : String → Option String → Effect Session (Option Row)
  get_by_id id tenant_id = do
    tenant ← require_tenant tenant_id
    rows ← execute (add_where (λ row. str_eq row.id id) (scoped tenant))
    lift (one_or_none rows)

  unfoldable pub get_all :
      Option String → Filters → Option String → Bool → Effect Session (List Row)
  get_all tenant_id filters order_by descending = do
    tenant ← require_tenant tenant_id
    execute (order_query (orderable order_by) descending (apply_filters filters (scoped tenant)))

  unfoldable pub find_by_field : String → String → Option String → Effect Session (Option Row)
  find_by_field name value tenant_id = do
    tenant ← require_tenant tenant_id
    require_column name
    rows ← execute (add_where (λ row. equals (column name row) value) (scoped tenant))
    lift (one_or_none rows)

  unfoldable pub find_in : String → List String → String → Effect Session (List Row)
  find_in name [] tenant = pure []
  find_in name (v ∷ values) tenant =
      require_column name
      >> execute (add_where (λ row. is_in (column name row) (v ∷ values)) (scoped tenant))

  unfoldable pub find_by_field_in : String → List String → Option String → Effect Session (List Row)
  find_by_field_in name values tenant_id = require_tenant tenant_id >>= find_in name values

  -- the order of `get_paginated`: the one asked for, else by creation
  unfoldable pub page_order : Option String → Option String
  page_order order_by = elim (orderable order_by) [
    | some name ↦ some name
    | none ↦ if has m "created_at" then some "created_at" else none
  ]

  -- Pages count from 1; the offset of page 0 is negative, which the database refuses.
  unfoldable pub page_items : Query → ℕ → ℕ → Effect Session (List Row)
  page_items q zero zero = execute (record q { limit = some 0; offset = 0 })
  page_items q zero (suc per_page) = raise other
  page_items q (suc page) per_page =
      execute (record q { limit = some per_page; offset = page * per_page })

  unfoldable pub get_paginated :
      Option String → ℕ → ℕ → Filters → Option String → Effect Session (List Row × ℕ)
  get_paginated tenant_id page per_page filters order_by = do
    tenant ← require_tenant tenant_id
    let q = apply_filters filters (scoped tenant)
    counted ← execute q
    items ← page_items (order_query (page_order order_by) true q) page per_page
    pure (items, length counted)

  unfoldable pub count : Option String → Filters → Effect Session ℕ
  count tenant_id filters = do
    tenant ← require_tenant tenant_id
    rows ← execute (apply_filters filters (scoped tenant))
    pure (length rows)

  -- `flush`: the table becomes this, unless a constraint refuses it
  unfoldable pub flush : List Row → Effect Session (Unit {0})
  flush rows s = elim (d.check rows) [
    | ok x ↦ (ok tt, record s { rows = rows })
    | raised e ↦ (raised e, s)
  ]

  -- the UPDATE of a tracked row, by its primary key
  unfoldable pub write : Row → List Row → List Row
  write entity rows = map (λ row. if str_eq row.id entity.id then entity else row) rows

  unfoldable pub create : Row → Effect Session Row
  create entity s = elim entity.tenant_id [
    | none ↦
        if has m "tenant_id"
        then raise value_error s
        else (flush (entity ∷ s.rows) >> pure entity) s
    | some tenant ↦ (flush (entity ∷ s.rows) >> pure entity) s
  ]

  unfoldable pub touched : ℕ → Row → Row
  touched now entity = if has m "updated_at" then record entity { updated_at = now } else entity

  unfoldable pub update : Row → Effect Session Row
  update entity s =
      let changed = touched s.now entity in (flush (write changed s.rows) >> pure changed) s

  unfoldable pub marked_deleted : ℕ → Row → Row
  marked_deleted now entity =
      let deleted = record entity { deleted_at = some now } in
      touched now (if has m "is_active" then record deleted { is_active = false } else deleted)

  unfoldable pub delete_found : Option Row → Effect Session Bool
  delete_found none s = pure false s
  delete_found (some entity) s = (flush (write (marked_deleted s.now entity) s.rows) >> pure true) s

  -- A model with no `deleted_at` raises `TypeError`.
  unfoldable pub delete_in : String → Option String → Effect Session Bool
  delete_in id tenant_id =
      if has m "deleted_at" then (get_by_id id tenant_id >>= delete_found) else raise other

  unfoldable pub soft_delete : String → Option String → Effect Session Bool
  soft_delete id tenant_id = require_tenant tenant_id >> delete_in id tenant_id
