-- ===== src/Database/Session/Engine.antt =====
-- The engines that src/tr_shared/db/session.py builds: the URL, the arguments of the driver, and what
-- is installed on each engine. `V` is a value of an argument.
use tr_shared_lib.Base.{
  ℕ, String, Option, none, some, Bool, true, false, ◌||◌, [], ◌∷◌, ◌++◌, length, drop, str_eq,
  if◌then◌else◌, ◌≡◌, refl, sym, ap, ◌∙◌, arith, Bool-cases, inl, inr,
}
use tr_shared_lib.Base.Dict.{Dict, lookup, insert, lookup-insert}
use tr_shared_lib.Base.Effect.{Result, ok, raised, value_error, other}
use tr_shared_lib.Base.Text.{Text, codes, lower, starts_with, same_text, contains, str}
use tr_shared_lib.Base.Words.{replace}
use Prim.Native.String

-- `url.replace(scheme, "postgresql+asyncpg://", 1)`, where the URL starts with the scheme
unfoldable pub with_scheme : String → Text → Text
with_scheme scheme url = codes "postgresql+asyncpg://" ++ drop (length (codes scheme)) url

-- `_to_asyncpg`
unfoldable pub to_asyncpg : Text → Text
to_asyncpg url =
    if starts_with url (codes "postgresql+asyncpg://")
    then url
    else if starts_with url (codes "postgresql://")
    then with_scheme "postgresql://" url
    else if starts_with url (codes "postgres://")
    then with_scheme "postgres://" url
    else url

-- an argument of the driver
pub data Arg (V : Type 0) : Type 0 where
  server_settings : Dict String → Arg V
  plain : V → Arg V

unfoldable pub named : String → String → Bool
named wanted key = same_text (lower (codes key)) (codes wanted)

-- `lowered.get("options", "")`: the last of the keys that are spelled so
unfoldable pub options_of : Dict String → Text → Text
options_of [] found = found
options_of ((key, value) ∷ settings) found =
    options_of settings (if named "options" key then codes value else found)

unfoldable pub has_setting : String → Dict String → Bool
has_setting wanted [] = false
has_setting wanted ((key, value) ∷ settings) = named wanted key || has_setting wanted settings

-- `_sets_statement_timeout`
unfoldable pub sets_statement_timeout : Dict String → Bool
sets_statement_timeout settings =
    has_setting "statement_timeout" settings
    || contains (replace b'-' (b'_' ∷ []) (lower (options_of settings [])))
        (codes "statement_timeout")

-- `dict.update`
unfoldable pub update_settings : Dict String → Dict String → Dict String
update_settings [] settings = settings
update_settings ((key, value) ∷ more) settings = update_settings more (insert key value settings)

unfoldable pub add_setting : String → String → Dict String → Dict String
add_setting key value settings = if str_eq value "" then settings else insert key value settings

unfoldable pub search_path : String → String
search_path schema = if str_eq schema "" then "" else String.◌++◌ schema ",public"

unfoldable pub is_there : {A : Type 0} → Option A → Bool
is_there none = false
is_there (some a) = true

module _ {V : Type 0} where
  unfoldable pub settings_of : Option (Arg V) → Result (Dict String)
  settings_of none = ok []
  settings_of (some (server_settings settings)) = ok settings
  settings_of (some (plain v)) = raised other

  unfoldable pub put_settings : Dict String → Option (Arg V) → Dict (Arg V) → Dict (Arg V)
  put_settings value none args = args
  put_settings value (some (server_settings settings)) args =
      insert "server_settings" (server_settings (update_settings value settings)) args
  put_settings value (some (plain v)) args = args

  -- the loop over the overrides
  unfoldable pub put_arg : String → Arg V → Dict (Arg V) → Dict (Arg V)
  put_arg key (plain v) args = insert key (plain v) args
  put_arg key (server_settings value) args =
      if str_eq key "server_settings"
      then put_settings value (lookup "server_settings" args) args
      else insert key (server_settings value) args

  unfoldable pub put_args : Dict (Arg V) → Dict (Arg V) → Dict (Arg V)
  put_args [] args = args
  put_args ((key, value) ∷ overrides) args = put_args overrides (put_arg key value args)

  -- `PGBOUNCER_CONNECT_ARGS`, with the service's own settings: `zero`, `empty_name` and `timeout` are
  -- the values of its three entries beside the settings, `cap` that of `statement_timeout_seconds`.
  unfoldable pub default_args : V → V → V → V → String → String → Dict (Arg V)
  default_args zero empty_name timeout cap service_name schema =
      ("statement_cache_size", plain zero)
      ∷ ("prepared_statement_cache_size", plain zero)
      ∷ ("prepared_statement_name_func", plain empty_name)
      ∷ ("timeout", plain timeout)
      ∷ (
        "server_settings",
        server_settings (
            add_setting "search_path" (search_path schema)
              (add_setting "application_name" service_name (("jit", "off") ∷ []))),
      )
      ∷ ("command_timeout", plain cap)
      ∷ []

  unfoldable pub checked_args :
      Dict (Arg V) → Dict (Arg V) → Result (Dict String) → Result (Dict (Arg V))
  checked_args overrides args (raised e) = raised e
  checked_args overrides args (ok settings) =
      if sets_statement_timeout settings then raised value_error else ok (put_args overrides args)

  -- `_build_connect_args`
  unfoldable pub build_connect_args : Dict (Arg V) → Dict (Arg V) → Result (Dict (Arg V))
  build_connect_args overrides defaults =
      if is_there (lookup "command_timeout" overrides)
      then raised value_error
      else checked_args overrides defaults (settings_of (lookup "server_settings" overrides))

-- The pool classes, by what `issubclass` says of them.
pub data PoolClass : Type 0 where
  -- OutageTypedAsyncQueuePool, OutageTypedQueuePool and their subclasses
  outage_typed_async outage_typed : PoolClass
  null_pool : PoolClass
  -- a queue pool that is not outage-typed, and any other
  other_queue other_pool : PoolClass

pub record Engine (V : Type 0) : Type 0 where
  pub url : Text
  pub pool_class : PoolClass
  pub connect_args : Dict (Arg V)
  pub engine_kwargs : Dict V
  -- the listeners: of errors, of idle connections, and of `begin`, with its statement
  pub translates : Bool
  pub validates : Bool
  pub on_begin : Option String

-- `{**DEFAULT_POOL_KWARGS, **engine_kwargs}`
unfoldable pub over : {V : Type 0} → Dict V → Dict V → Dict V
over defaults [] = defaults
over defaults ((key, value) ∷ kwargs) = over (insert key value defaults) kwargs

-- `statement_timeout_seconds` in whole milliseconds
unfoldable pub set_local_statement_timeout_sql : ℕ → String
set_local_statement_timeout_sql milliseconds =
    String.◌++◌ "SET LOCAL statement_timeout = " (str milliseconds)

module _ {V : Type 0} where
  unfoldable pub pooled :
      Text → PoolClass → Dict V → Dict V → Bool → Result (Dict (Arg V)) → Result (Engine V)
  pooled url pool_class defaults kwargs is_queue (raised e) = raised e
  pooled url pool_class defaults kwargs is_queue (ok args) = ok (record {
    url = to_asyncpg url;
    pool_class = pool_class;
    connect_args = args;
    engine_kwargs = if is_queue then over defaults kwargs else kwargs;
    translates = true;
    validates = is_queue;
    on_begin = none;
  })

  unfoldable pub create_async_engine_factory :
      Text → PoolClass → Dict V → Dict V → Result (Dict (Arg V)) → Result (Engine V)
  create_async_engine_factory url outage_typed_async defaults kwargs args =
      pooled url outage_typed_async defaults kwargs true args
  create_async_engine_factory url null_pool defaults kwargs args =
      pooled url null_pool defaults kwargs false args
  create_async_engine_factory url outage_typed defaults kwargs args = raised value_error
  create_async_engine_factory url other_queue defaults kwargs args = raised value_error
  create_async_engine_factory url other_pool defaults kwargs args = raised value_error

  unfoldable pub prepared : Engine V → ℕ → Engine V
  prepared engine milliseconds = record engine {
    translates = true;
    on_begin = some (set_local_statement_timeout_sql milliseconds);
  }

  unfoldable pub prepare_by_pool : PoolClass → Engine V → ℕ → Result (Engine V)
  prepare_by_pool outage_typed engine milliseconds = ok (prepared engine milliseconds)
  prepare_by_pool outage_typed_async engine milliseconds = ok (prepared engine milliseconds)
  prepare_by_pool null_pool engine milliseconds = ok (prepared engine milliseconds)
  prepare_by_pool other_queue engine milliseconds = raised value_error
  prepare_by_pool other_pool engine milliseconds = raised value_error

  unfoldable pub prepare_sync_engine : Engine V → ℕ → Result (Engine V)
  prepare_sync_engine engine milliseconds = prepare_by_pool engine.pool_class engine milliseconds

module _ {V : Type 0} where
  put_arg-other :
      (key : String) (value : Arg V) (args : Dict (Arg V))
      → str_eq key "command_timeout" ≡ false
      → lookup "command_timeout" (put_arg key value args) ≡ lookup "command_timeout" args
  unfolding put_arg
  put_arg-other key (plain v) args h =
      rw (lookup-insert key "command_timeout" (plain v) args) (rw h refl)
  put_arg-other key (server_settings value) args h =
      elim (Bool-cases (str_eq key "server_settings")) [
        | inl same ↦ rw same (put_settings-other value (lookup "server_settings" args) args)
        | inr different ↦
            rw different
              (rw (lookup-insert key "command_timeout" (server_settings value) args) (rw h refl))
      ]
    where
      put_settings-other :
          (value : Dict String) (found : Option (Arg V)) (args : Dict (Arg V))
          → lookup "command_timeout" (put_settings value found args) ≡ lookup "command_timeout" args
      put_settings-other value none args = unfold put_settings in refl
      put_settings-other value (some (server_settings settings)) args =
          unfold put_settings in
          lookup-insert "server_settings" "command_timeout"
            (server_settings (update_settings value settings)) args
      put_settings-other value (some (plain v)) args = unfold put_settings in refl

  put_args-other :
      (overrides args : Dict (Arg V))
      → is_there (lookup "command_timeout" overrides) ≡ false
      → lookup "command_timeout" (put_args overrides args) ≡ lookup "command_timeout" args
  unfolding put_args lookup is_there
  put_args-other [] args h = refl
  put_args-other ((key, value) ∷ overrides) args h =
      elim (Bool-cases (str_eq key "command_timeout")) [
        | inl same ↦ ground (arith, h, same)
        | inr different ↦
            put_args-other overrides (put_arg key value args) (ground (arith, h, different))
            ∙ put_arg-other key value args different
      ]

  checked_args-ok :
      (overrides args built : Dict (Arg V)) (settings : Result (Dict String))
      → checked_args overrides args settings ≡ ok built
      → put_args overrides args ≡ built
  unfolding checked_args
  checked_args-ok overrides args built (raised e) h = ground (arith, h)
  checked_args-ok overrides args built (ok settings) h = ground (arith, h)

  -- Whatever overrides are accepted: the arguments of the driver have the cap that
  -- `statement_timeout_seconds` gives.
  build_connect_args-cap :
      (zero empty_name timeout cap : V) (service_name schema : String)
      (overrides built : Dict (Arg V))
      → build_connect_args overrides (default_args zero empty_name timeout cap service_name schema)
        ≡ ok built
      → lookup "command_timeout" built ≡ some (plain cap)
  unfolding build_connect_args
  build_connect_args-cap zero empty_name timeout cap service_name schema overrides built h =
      let defaults = default_args zero empty_name timeout cap service_name schema in
      elim (Bool-cases (is_there (lookup "command_timeout" overrides))) [
        | inl there ↦ ground (arith, rw there at h)
        | inr absent ↦
            sym (
              ap (λ (args : Dict (Arg V)). lookup "command_timeout" args)
                (checked_args-ok overrides defaults built
                  (settings_of (lookup "server_settings" overrides)) (rw absent at h)))
            ∙ put_args-other overrides defaults absent
            ∙ (unfold default_args lookup in refl)
      ]
