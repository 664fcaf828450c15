-- ===== src/Database/Session.antt =====
-- The errors of a connection in src/tr_shared/db/session.py: which of them are an outage of the
-- database, and what a pool does with an idle connection. SQLAlchemy calls these functions; its
-- exceptions are described by what the code asks of them.
pub mod Engine
pub mod Outage
mod Tests
use tr_shared_lib.Base.{
  ℕ, ◌-◌, String, Option, none, some, Bool, true, false, ◌&&◌, ◌||◌, not, List, [], ◌∷◌, any, ltb,
  str_eq, if◌then◌else◌,
}
use tr_shared_lib.Base.Text.{codes, starts_with, same_text}
use tr_shared_lib.Errors.Handlers.{
  DatabaseOutageCode, connect_failed, connection_lost, pool_exhausted, DatabaseFailure,
  database_unavailable, database_timeout,
}

-- An exception of the driver. A Python `TimeoutError` is an `OSError` too.
pub record DriverError : Type 0 where
  -- no `KeyboardInterrupt` or cancellation
  pub is_exception : Bool
  pub is_os_error : Bool
  pub is_timeout : Bool
  -- of the dialect's `OperationalError`
  pub is_operational : Bool
  pub sqlstate : Option String
  pub pgcode : Option String

-- What a call ends with: its value, the driver's own error, or one that has a handler.
pub data Outcome (A : Type 0) : Type 0 where
  done : A → Outcome A
  driver_error : DriverError → Outcome A
  failure : DatabaseFailure → Outcome A

-- `a or b` of two texts that may be missing
unfoldable pub text_or : Option String → Option String → Option String
text_or none b = b
text_or (some a) b = if str_eq a "" then b else some a

-- `_sqlstate`
unfoldable pub sqlstate_of : DriverError → Option String
sqlstate_of e = text_or e.sqlstate e.pgcode

unfoldable pub has_prefix : Option String → List String → Bool
has_prefix none prefixes = false
has_prefix (some state) prefixes = any (λ prefix. starts_with (codes state) (codes prefix)) prefixes

unfoldable pub is_state : Option String → String → Bool
is_state none wanted = false
is_state (some state) wanted = same_text (codes state) (codes wanted)

abbrev pub query_canceled_sqlstate : String
query_canceled_sqlstate = "57014"

abbrev pub connect_failed_sqlstate_prefixes : List String
connect_failed_sqlstate_prefixes = "08" ∷ "53" ∷ "57" ∷ []

abbrev pub connection_lost_sqlstate_prefixes : List String
connection_lost_sqlstate_prefixes = "08" ∷ "57P" ∷ []

unfoldable pub is_unavailable : DriverError → List String → Bool
is_unavailable e sqlstate_prefixes = e.is_os_error || has_prefix (sqlstate_of e) sqlstate_prefixes

unfoldable pub is_connect_failure : Bool → DriverError → Bool
is_connect_failure is_async e =
    if is_async then is_unavailable e connect_failed_sqlstate_prefixes else e.is_operational

-- `_connect`, on what the dialect's `connect` ended with
unfoldable pub connect : {A : Type 0} → Bool → Outcome A → Outcome A
connect is_async (done a) = done a
connect is_async (failure f) = failure f
connect is_async (driver_error e) =
    if e.is_exception && is_connect_failure is_async e
    then failure (database_unavailable connect_failed)
    else driver_error e

-- `ExceptionContextImpl`, as far as the listener uses it
pub record Context : Type 0 where
  pub original_exception : DriverError
  pub is_pre_ping : Bool
  pub is_disconnect : Bool
  pub invalidate_pool_on_disconnect : Bool

unfoldable pub marked : Context → Context
marked c =
    if c.original_exception.is_timeout
    then record c { is_disconnect = true; invalidate_pool_on_disconnect = false }
    else c

unfoldable pub marked_lost : Context → Context
marked_lost c =
    if is_unavailable c.original_exception connection_lost_sqlstate_prefixes
    then record c { is_disconnect = true }
    else c

-- `_translate`: what it raises, none where it returns and the driver's error goes on, and the context
unfoldable pub lost : Context → Option DatabaseFailure × Context
lost c = if c.is_disconnect then (some (database_unavailable connection_lost), c) else (none, c)

unfoldable pub timed_out : Context → Option DatabaseFailure × Context
timed_out c =
    let e = c.original_exception in
    if e.is_timeout || is_state (sqlstate_of e) query_canceled_sqlstate
    then (some database_timeout, c)
    else lost (marked_lost c)

unfoldable pub translate : Context → Option DatabaseFailure × Context
translate c =
    if c.is_pre_ping || not c.original_exception.is_exception
    then (none, c)
    else timed_out (marked c)

-- What a checkout does with a pooled connection.
pub data Checkout : Type 0 where
  -- handed out, after a ping or without one
  trusted pinged : Checkout
  -- terminated, and the pool is told to replace it
  replaced : Checkout

-- `_validate`, on the time of the last check-in; `ping` says whether the ping was answered
unfoldable pub validate : Option ℕ → ℕ → ℕ → Bool → Checkout
validate none now idle_ping_after ping = trusted
validate (some checked_in_at) now idle_ping_after ping =
    if ltb (now - checked_in_at) idle_ping_after then trusted else if ping then pinged else replaced

-- `OutageTypedQueuePool._do_get`; none where the pool waited out its timeout
unfoldable pub do_get : {A : Type 0} → Option A → Outcome A
do_get none = failure (database_unavailable pool_exhausted)
do_get (some connection) = done connection
