-- ===== src/Database/Migrations.antt =====
-- Alembic's hooks in src/tr_shared/db/migrations: include_object.py, which keeps autogenerate within a
-- service's own schema, and bootstrap.py, which puts the version table where it belongs.
use tr_shared_lib.Base.{
  String, Option, none, some, Bool, true, false, ◌&&◌, ◌||◌, not, List, [], ◌∷◌, any, str_eq,
  eq_iff, if◌then◌else◌, ◌≡◌, arith,
}

-- a schema, or none for the default one
unfoldable pub same_schema : Option String → String → Bool
same_schema none schema = false
same_schema (some s) schema = str_eq s schema

pub record Table : Type 0 where
  pub schema : Option String
  pub name : String

-- What Alembic asks about.
pub data SchemaItem : Type 0 where
  table : Table → SchemaItem
  -- an index or a constraint of a table
  of_table : Table → SchemaItem
  -- a sequence, and an object that has neither a table nor a schema
  in_schema : String → SchemaItem
  unknown : SchemaItem

-- the names of the service's tables in its metadata
unfoldable pub own_table_names : String → List Table → List String
own_table_names target_schema [] = []
own_table_names target_schema (t ∷ tables) =
    let rest = own_table_names target_schema tables in
    if same_schema t.schema target_schema then t.name ∷ rest else rest

unfoldable pub is_own : String → List Table → Table → Bool
is_own target_schema metadata t =
    same_schema t.schema target_schema
    && any (str_eq t.name) (own_table_names target_schema metadata)

-- `make_service_include_object`
unfoldable pub include_object : String → List Table → SchemaItem → Bool
include_object target_schema metadata (table t) = is_own target_schema metadata t
include_object target_schema metadata (of_table t) = is_own target_schema metadata t
include_object target_schema metadata (in_schema schema) = str_eq schema target_schema
include_object target_schema metadata unknown = true

unfoldable pub same_option : Option String → Option String → Bool
same_option none none = true
same_option none (some b) = false
same_option (some a) none = false
same_option (some a) (some b) = str_eq a b

-- `make_service_include_name`, of a schema or of something else
unfoldable pub include_name : List (Option String) → Bool → Option String → Bool
include_name allowed_schemas is_schema name =
    not is_schema || any (same_option name) allowed_schemas

-- The schemas of the database, and its tables, each in its schema.
pub record Catalog : Type 0 where
  pub schemas : List String
  pub tables : List (String × String)

pub data Location : Type 0 where
  target legacy absent : Location

unfoldable pub is_at : String → String → String × String → Bool
is_at schema name (s, n) = str_eq s schema && str_eq n name

-- `SELECT 1 FROM information_schema.tables …`
unfoldable pub exists_in : String → String → List (String × String) → Bool
exists_in schema name [] = false
exists_in schema name (t ∷ tables) = is_at schema name t || exists_in schema name tables

-- `CREATE SCHEMA IF NOT EXISTS`
unfoldable pub create_schema : String → Catalog → Catalog
create_schema schema c =
    if any (str_eq schema) c.schemas then c else record c { schemas = schema ∷ c.schemas }

-- `ALTER TABLE … SET SCHEMA`
unfoldable pub set_schema :
    String → String → String → List (String × String) → List (String × String)
set_schema from to name [] = []
set_schema from to name (t ∷ tables) =
    let rest = set_schema from to name tables in
    if is_at from name t then (to, name) ∷ rest else t ∷ rest

unfoldable pub place : String → String → String → Catalog → Location × Catalog
place schema version_table legacy_schema c =
    if exists_in schema version_table c.tables
    then (target, c)
    else if exists_in legacy_schema version_table c.tables
    then (target, record c { tables = set_schema legacy_schema schema version_table c.tables })
    else (absent, c)

unfoldable pub bootstrap_schema_and_version_table :
    String → String → String → Catalog → Location × Catalog
bootstrap_schema_and_version_table schema version_table legacy_schema c =
    place schema version_table legacy_schema (create_schema schema c)

exists_in-set_schema :
    (from to name : String) (tables : List (String × String))
    → exists_in from name tables ≡ true
    → exists_in to name (set_schema from to name tables) ≡ true
unfolding exists_in set_schema is_at
exists_in-set_schema from to name [] h = ground (arith, h)
exists_in-set_schema from to name ((s, n) ∷ tables) h =
    ground (arith, h, exists_in-set_schema from to name tables, eq_iff to to, eq_iff name name)

place-again :
    (schema version_table legacy_schema : String) (c : Catalog)
    → let (location, c') = place schema version_table legacy_schema c in
      place schema version_table legacy_schema c' ≡ (location, c')
unfolding place
place-again schema version_table legacy_schema c =
    ground (arith, exists_in-set_schema legacy_schema schema version_table c.tables)

create_schema-place :
    (schema version_table legacy_schema : String) (c : Catalog)
    → let c' = (place schema version_table legacy_schema (create_schema schema c)).1 in
      create_schema schema c' ≡ c'
unfolding place create_schema
create_schema-place schema version_table legacy_schema c = ground (arith, eq_iff schema schema)

-- A second bootstrap changes nothing and gives the same location.
bootstrap-again :
    (schema version_table legacy_schema : String) (c : Catalog)
    → let (location, c') =
        bootstrap_schema_and_version_table schema version_table legacy_schema c in
      bootstrap_schema_and_version_table schema version_table legacy_schema c' ≡ (location, c')
unfolding bootstrap_schema_and_version_table
bootstrap-again schema version_table legacy_schema c =
    rw (create_schema-place schema version_table legacy_schema c)
      (place-again schema version_table legacy_schema (create_schema schema c))

-- What autogenerate is shown of tables, indexes and constraints belongs to a table of the service's
-- schema.
include_object-IsOwn :
    (target_schema : String) (metadata : List Table) (t : Table)
    → include_object target_schema metadata (of_table t) ≡ true
    → t.schema ≡ some target_schema
unfolding include_object is_own
include_object-IsOwn target_schema metadata t h = go t.schema (ground (arith, h))
  where
    go :
        (schema : Option String)
        → same_schema schema target_schema ≡ true
        → schema ≡ some target_schema
    go none e = unfold same_schema in ground (arith, e)
    go (some s) e = unfold same_schema in ground (arith, e, eq_iff s target_schema)
