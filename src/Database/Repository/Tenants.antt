-- ===== src/Database/Repository/Tenants.antt =====
-- That the repository keeps tenants apart.
use tr_shared_lib.Base.{
  ℕ, ◌+◌, String, Option, none, some, Bool, true, List, [], ◌∷◌, ◌≡◌, ◌≢◌, refl, All, length,
  str_eq, arith,
}
use tr_shared_lib.Base.Effect.{Result, ok, Effect, pure, bind-ok, ◌>>=◌}
use tr_shared_lib.Database.Repository.{
  Row, Model, Filters, Query, Database, Session, column, equals, add_where, one_or_none, is_in,
  answer, execute, scoped, require_tenant, apply_filters, orderable, order_query, require_column,
  lift, get_by_id, get_all, find_by_field, find_in, find_by_field_in, page_order, page_items,
  get_paginated,
}
use tr_shared_lib.Database.Repository.Visible.{
  one_row, SortsRows, IsVisible, IsScoped, scoped-IsScoped, add_where-IsScoped, answer-IsVisible,
  one_or_none-All, order_query-IsScoped, filtered-IsScoped, ok-All, execute-All, page_items-All,
}

-- The read operations, with their arguments but the tenant.
pub data Read : Type 0 where
  by_id : String → Read
  every : Filters → Option String → Bool → Read
  by_field : String → String → Read
  by_field_in : String → List String → Read
  page : ℕ → ℕ → Filters → Option String → Read

module _ (d : Database) (m : Model) where
  -- the rows that a read hands out
  unfoldable pub read : Read → Option String → Effect Session (List Row)
  read (by_id id) tenant = get_by_id d m id tenant >>= λ found. pure (one_row found)
  read (every filters order_by descending) tenant = get_all d m tenant filters order_by descending
  read (by_field name value) tenant =
      find_by_field d m name value tenant >>= λ found. pure (one_row found)
  read (by_field_in name values) tenant = find_by_field_in d m name values tenant
  read (page n per_page filters order_by) tenant =
      get_paginated d m tenant n per_page filters order_by >>= λ found. pure found.0

  find_in-All :
      (tenant name : String) (values : List String) (s : Session) (rows : List Row)
      → SortsRows d
      → (find_in d m name values tenant s).0 ≡ ok rows
      → All (IsVisible d m tenant) rows
  unfolding find_in
  find_in-All tenant name [] s rows sorts e = ok-All d m (IsVisible d m tenant) [] rows e tt
  find_in-All tenant name (v ∷ values) s rows sorts e =
      let p = λ (row : Row). is_in (column name row) (v ∷ values) in
      let (a, known, got) =
        bind-ok (require_column d m name) (λ _. execute d m (add_where p (scoped d m tenant))) s
          rows e in
      execute-All d m tenant (add_where p (scoped d m tenant)) (require_column d m name s).1 rows
        sorts (add_where-IsScoped d m tenant p (scoped d m tenant) (scoped-IsScoped d m tenant)) got

  -- the one row of a query, read by `by_id` and `by_field`
  one-All :
      (tenant : String) (q : Query) (s : Session) (found : Option Row) (rows : List Row)
      → SortsRows d
      → IsScoped d m tenant q
      → ((execute d m q >>= λ got. lift d m (one_or_none got)) s).0 ≡ ok found
      → ◌≡◌ {A = Result (List Row)} (ok (one_row found)) (ok rows)
      → All (IsVisible d m tenant) rows
  unfolding execute lift
  one-All tenant q s found rows sorts h e last =
      ok-All d m (IsVisible d m tenant) (one_row found) rows last (
        one_or_none-All d m (IsVisible d m tenant) (answer d m s.queries q s.rows) found e
          (answer-IsVisible d m tenant s.queries q s.rows sorts h))

  by_field-All :
      (tenant name value : String) (s : Session) (rows : List Row)
      → SortsRows d
      → (read (by_field name value) (some tenant) s).0 ≡ ok rows
      → All (IsVisible d m tenant) rows
  unfolding read find_by_field require_tenant require_column
  by_field-All tenant name value s rows sorts e =
      let p = λ (row : Row). equals (column name row) value in
      let (found, got, last) =
        bind-ok (find_by_field d m name value (some tenant)) (λ row. pure (one_row row)) s rows e in
      let (a, known, got') =
        bind-ok (require_column d m name)
          (λ _.
            execute d m (add_where p (scoped d m tenant)) >>= λ found. lift d m (one_or_none found))
          s found got in
      one-All tenant (add_where p (scoped d m tenant)) (require_column d m name s).1 found rows
        sorts (add_where-IsScoped d m tenant p (scoped d m tenant) (scoped-IsScoped d m tenant))
        got' last

  page-All :
      (tenant : String) (n per_page : ℕ) (filters : Filters) (order_by : Option String)
      (s : Session) (rows : List Row)
      → SortsRows d
      → (read (page n per_page filters order_by) (some tenant) s).0 ≡ ok rows
      → All (IsVisible d m tenant) rows
  unfolding read get_paginated require_tenant execute
  page-All tenant n per_page filters order_by s rows sorts e =
      let q = apply_filters d m filters (scoped d m tenant) in
      let ordered = order_query d m (page_order d m order_by) true q in
      let (found, got, last) =
        bind-ok (get_paginated d m (some tenant) n per_page filters order_by)
          (λ (found : List Row × ℕ). pure found.0) s rows e in
      let s' = record s { queries = s.queries + 1 } in
      let (items, paged, pair) =
        bind-ok (page_items d m ordered n per_page)
          (λ items. pure (items, length (answer d m s.queries q s.rows))) s' found got in
      ok-All d m (IsVisible d m tenant) items rows (ground (arith, last, pair)) (
        page_items-All d m tenant ordered n per_page s' items sorts
          (order_query-IsScoped d m tenant (page_order d m order_by) true q
            (filtered-IsScoped d m tenant filters))
          paged)

  no_tenant : (op : Read) (s : Session) (rows : List Row) → (read op none s).0 ≢ ok rows
  unfolding read get_by_id get_all find_by_field find_by_field_in get_paginated require_tenant
  no_tenant (by_id id) s rows e = ground (arith, e)
  no_tenant (every filters order_by descending) s rows e = ground (arith, e)
  no_tenant (by_field name value) s rows e = ground (arith, e)
  no_tenant (by_field_in name values) s rows e = ground (arith, e)
  no_tenant (page n per_page filters order_by) s rows e = ground (arith, e)

  -- Where a sort gives back rows that it was given: whatever read of the repository returns rows was
  -- given a tenant, and every row that it returns is that tenant's own and, where the model has
  -- `deleted_at`, not deleted.
  pub read-IsVisible :
      SortsRows d
      → (op : Read) (tenant : Option String) (s : Session) (rows : List Row)
      → (read op tenant s).0 ≡ ok rows
      → (t : String) × (tenant ≡ some t) × All (IsVisible d m t) rows
  unfolding read get_by_id get_all find_by_field_in require_tenant execute
  read-IsVisible sorts op none s rows e = elim (no_tenant op s rows e) [ ]
  read-IsVisible sorts (by_id id) (some t) s rows e =
      let p = λ (row : Row). str_eq row.id id in
      let (found, got, last) =
        bind-ok (get_by_id d m id (some t)) (λ row. pure (one_row row)) s rows e in
      (
        t,
        refl,
        one-All t (add_where p (scoped d m t)) s found rows sorts
            (add_where-IsScoped d m t p (scoped d m t) (scoped-IsScoped d m t)) got last,
      )
  read-IsVisible sorts (every filters order_by descending) (some t) s rows e =
      let q = apply_filters d m filters (scoped d m t) in
      (
        t,
        refl,
        execute-All d m t (order_query d m (orderable d m order_by) descending q) s rows sorts
            (order_query-IsScoped d m t (orderable d m order_by) descending q
              (filtered-IsScoped d m t filters))
            e,
      )
  read-IsVisible sorts (by_field name value) (some t) s rows e =
      (t, refl, by_field-All t name value s rows sorts e)
  read-IsVisible sorts (by_field_in name values) (some t) s rows e =
      (t, refl, find_in-All t name values s rows sorts e)
  read-IsVisible sorts (page n per_page filters order_by) (some t) s rows e =
      (t, refl, page-All t n per_page filters order_by s rows sorts e)
