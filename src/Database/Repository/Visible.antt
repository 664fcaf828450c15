-- ===== src/Database/Repository/Visible.antt =====
-- The rows that the queries of a tenant give back: whose they are, through the filters, the order
-- and the pages.
use tr_shared_lib.Base.{
  ℕ, zero, suc, ◌*◌, String, Option, none, some, Bool, true, false, List, [], ◌∷◌, ◌≡◌, refl, All,
  All-take, All-drop, drop, eq_iff, if◌then◌else◌, arith,
}
use tr_shared_lib.Base.Effect.{Result, ok}
use tr_shared_lib.Database.Repository.{
  Row, Model, Filters, Query, Database, Session, has, column, equals, is_null, satisfies, add_where,
  filter_rows, limited, one_or_none, matching, answer, execute, is_live, scoped, apply_filters,
  order_query, page_items,
}

abbrev pub one_row : Option Row → List Row
one_row none = []
one_row (some row) = row ∷ []

-- ORDER BY gives back rows that it was given.
abbrev pub SortsRows : Database → Type 1
SortsRows d =
    (P : Row → Type 0) (query : ℕ) (order : Option (String × Bool)) (rows : List Row)
    → All P rows
    → All P (d.sort query order rows)

module _ (d : Database) (m : Model) where
  -- the tenant's own row, not deleted where the model can say so
  abbrev pub IsVisible : String → Row → Type 0
  IsVisible tenant row =
      (row.tenant_id ≡ some tenant) × (has m "deleted_at" ≡ true → row.deleted_at ≡ none)

  -- a query that only visible rows satisfy
  abbrev pub IsScoped : String → Query → Type 0
  IsScoped tenant q = (row : Row) → satisfies q.wheres row ≡ true → IsVisible tenant row

  equals-some : (v : Option String) (value : String) → equals v value ≡ true → v ≡ some value
  unfolding equals
  equals-some none value h = ground (arith, h)
  equals-some (some v) value h = ground (arith, h, eq_iff v value)

  is_null-none : (v : Option ℕ) → is_null v ≡ true → v ≡ none
  unfolding is_null
  is_null-none none h = refl
  is_null-none (some t) h = ground (arith, h)

  pub scoped-IsScoped : (tenant : String) → IsScoped tenant (scoped d m tenant)
  unfolding scoped add_where satisfies is_live
  scoped-IsScoped tenant row h = (
    equals-some row.tenant_id tenant (ground (arith, h)),
    λ deletes. is_null-none row.deleted_at (ground (arith, h, deletes)),
  )

  pub add_where-IsScoped :
      (tenant : String) (p : Row → Bool) (q : Query)
      → IsScoped tenant q
      → IsScoped tenant (add_where p q)
  unfolding add_where satisfies
  add_where-IsScoped tenant p q h row e = h row (ground (arith, e))

  apply_filters-IsScoped :
      (tenant : String) (filters : Filters) (q : Query)
      → IsScoped tenant q
      → IsScoped tenant (apply_filters d m filters q)
  unfolding apply_filters
  apply_filters-IsScoped tenant [] q h = h
  apply_filters-IsScoped tenant ((key, none) ∷ filters) q h =
      apply_filters-IsScoped tenant filters q h
  apply_filters-IsScoped tenant ((key, some value) ∷ filters) q h =
      elim (has m key)
        as (λ known. IsScoped tenant (
          apply_filters d m filters
            (if known then add_where (λ row. equals (column key row) value) q else q))) [
              | true ↦
                  apply_filters-IsScoped tenant filters
                    (add_where (λ row. equals (column key row) value) q)
                    (add_where-IsScoped tenant (λ row. equals (column key row) value) q h)
              | false ↦ apply_filters-IsScoped tenant filters q h
            ]

  filter_rows-All :
      (P : Row → Type 0) (p : Row → Bool) (rows : List Row)
      → ((row : Row) → p row ≡ true → P row)
      → All P (filter_rows p rows)
  unfolding filter_rows
  filter_rows-All P p [] h = tt
  filter_rows-All P p (row ∷ rows) h = ground (arith, h row, filter_rows-All P p rows h)

  limited-All :
      (P : Row → Type 0) (limit : Option ℕ) (rows : List Row)
      → All P rows
      → All P (limited limit rows)
  unfolding limited
  limited-All P none rows h = h
  limited-All P (some n) rows h = All-take P n rows h

  pub answer-IsVisible :
      (tenant : String) (query : ℕ) (q : Query) (rows : List Row)
      → SortsRows d
      → IsScoped tenant q
      → All (IsVisible tenant) (answer d m query q rows)
  unfolding answer matching
  answer-IsVisible tenant query q rows sorts h =
      let P = IsVisible tenant in
      let found = filter_rows (satisfies q.wheres) rows in
      limited-All P q.limit (drop q.offset (d.sort query q.order found)) (
        All-drop P q.offset (d.sort query q.order found)
          (sorts P query q.order found (filter_rows-All P (satisfies q.wheres) rows h)))

  pub one_or_none-All :
      (P : Row → Type 0) (rows : List Row) (found : Option Row)
      → one_or_none rows ≡ ok found
      → All P rows
      → All P (one_row found)
  unfolding one_or_none
  one_or_none-All P [] found e h = ground (arith, e)
  one_or_none-All P (row ∷ []) found e h = ground (arith, e, h)
  one_or_none-All P (row ∷ another ∷ rows) found e h = ground (arith, e)

  pub order_query-IsScoped :
      (tenant : String) (order : Option String) (descending : Bool) (q : Query)
      → IsScoped tenant q
      → IsScoped tenant (order_query d m order descending q)
  unfolding order_query
  order_query-IsScoped tenant none descending q h = h
  order_query-IsScoped tenant (some name) descending q h = h

  -- what every operation asks for: the tenant's rows, filtered
  pub filtered-IsScoped :
      (tenant : String) (filters : Filters)
      → IsScoped tenant (apply_filters d m filters (scoped d m tenant))
  filtered-IsScoped tenant filters =
      apply_filters-IsScoped tenant filters (scoped d m tenant) (scoped-IsScoped tenant)

  pub ok-All :
      (P : Row → Type 0) (found rows : List Row)
      → ◌≡◌ {A = Result (List Row)} (ok found) (ok rows)
      → All P found
      → All P rows
  ok-All P found rows e h = ground (arith, e, h)

  pub execute-All :
      (tenant : String) (q : Query) (s : Session) (rows : List Row)
      → SortsRows d
      → IsScoped tenant q
      → (execute d m q s).0 ≡ ok rows
      → All (IsVisible tenant) rows
  unfolding execute
  execute-All tenant q s rows sorts h e =
      ok-All (IsVisible tenant) (answer d m s.queries q s.rows) rows e
        (answer-IsVisible tenant s.queries q s.rows sorts h)

  pub page_items-All :
      (tenant : String) (q : Query) (page per_page : ℕ) (s : Session) (rows : List Row)
      → SortsRows d
      → IsScoped tenant q
      → (page_items d m q page per_page s).0 ≡ ok rows
      → All (IsVisible tenant) rows
  unfolding page_items
  page_items-All tenant q zero zero s rows sorts h e =
      execute-All tenant (record q { limit = some 0; offset = 0 }) s rows sorts h e
  page_items-All tenant q zero (suc per_page) s rows sorts h e = ground (arith, e)
  page_items-All tenant q (suc n) per_page s rows sorts h e =
      execute-All tenant (record q { limit = some per_page; offset = n * per_page }) s rows sorts h
        e
