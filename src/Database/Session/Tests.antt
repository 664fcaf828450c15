-- ===== src/Database/Session/Tests.antt =====
-- Errors of a connection, and the arguments of an engine.
use tr_shared_lib.Base.{ℕ, String, Option, none, some, true, false, [], ◌∷◌, ◌≡◌, refl}
use tr_shared_lib.Base.Dict.{Dict, lookup, insert}
use tr_shared_lib.Base.Effect.{ok, raised, value_error}
use tr_shared_lib.Base.Text.{codes}
use tr_shared_lib.Base.Words.{replace}
use tr_shared_lib.Errors.Handlers.{
  database_unavailable, database_timeout, connection_lost, connect_failed,
}
use tr_shared_lib.Database.Session.{
  DriverError, driver_error, failure, text_or, sqlstate_of, has_prefix, is_state, is_unavailable,
  is_connect_failure, connect, Context, marked, marked_lost, lost, timed_out, translate, trusted,
  replaced, validate,
}
use tr_shared_lib.Database.Session.Engine.{
  with_scheme, to_asyncpg, Arg, server_settings, plain, named, options_of, has_setting,
  sets_statement_timeout, update_settings, add_setting, search_path, settings_of, is_there,
  put_settings, put_arg, put_args, default_args, checked_args, build_connect_args,
}

abbrev error : Option String → DriverError
error sqlstate = record {
  is_exception = true;
  is_os_error = false;
  is_timeout = false;
  is_operational = false;
  sqlstate = sqlstate;
  pgcode = none;
}

abbrev context : Option String → Context
context sqlstate = record {
  original_exception = error sqlstate;
  is_pre_ping = false;
  is_disconnect = false;
  invalidate_pool_on_disconnect = true;
}

-- an administrator ends the connection, a statement is cancelled, a constraint fails
translated :
    ((translate (context (some "57P01"))).0 ≡ some (database_unavailable connection_lost))
    × ((translate (context (some "57014"))).0 ≡ some database_timeout)
    × (translate (context (some "23505")) ≡ (none, context (some "23505")))
unfolding translate marked timed_out is_state sqlstate_of text_or lost marked_lost is_unavailable
    has_prefix
translated = (refl, refl, refl)

too_many_connections :
    connect {A = ℕ} true (driver_error (error (some "53300")))
    ≡ failure (database_unavailable connect_failed)
unfolding connect is_connect_failure is_unavailable sqlstate_of text_or has_prefix
too_many_connections = refl

idle : (validate (some 10) 39 30 false ≡ trusted) × (validate (some 10) 40 30 false ≡ replaced)
unfolding validate
idle = (refl, refl)

urls :
    (to_asyncpg (codes "postgres://h/d") ≡ codes "postgresql+asyncpg://h/d")
    × (to_asyncpg (codes "postgresql://h/d") ≡ codes "postgresql+asyncpg://h/d")
    × (to_asyncpg (codes "postgresql+asyncpg://h/d") ≡ codes "postgresql+asyncpg://h/d")
unfolding to_asyncpg with_scheme
urls = (refl, refl, refl)

abbrev defaults : Dict (Arg ℕ)
defaults = default_args 0 0 3 20 "lead" ""

-- the cap cannot be set in the options either
hidden_cap :
    build_connect_args
      (("server_settings", server_settings (("Options", "-c Statement-Timeout=0") ∷ [])) ∷ [])
      defaults
    ≡ raised value_error
unfolding build_connect_args is_there lookup settings_of checked_args sets_statement_timeout
    has_setting named options_of replace
hidden_cap = refl

abbrev overrides : Dict (Arg ℕ)
overrides = ("timeout", plain 7) ∷ ("server_settings", server_settings (("jit", "on") ∷ [])) ∷ []

abbrev built : Dict (Arg ℕ)
built =
    ("statement_cache_size", plain 0)
    ∷ ("prepared_statement_cache_size", plain 0)
    ∷ ("prepared_statement_name_func", plain 0)
    ∷ ("timeout", plain 7)
    ∷ ("server_settings", server_settings (("jit", "on") ∷ ("application_name", "lead") ∷ []))
    ∷ ("command_timeout", plain 20)
    ∷ []

built_lem : build_connect_args overrides defaults ≡ ok built
unfolding build_connect_args is_there lookup settings_of checked_args sets_statement_timeout
    has_setting named options_of replace put_args put_arg put_settings update_settings insert
    default_args add_setting search_path
built_lem = refl
