-- ===== src/Database/Session/Outage.antt =====
-- What the listeners of a connection do with an error.
use tr_shared_lib.Base.{none, some, Bool, true, false, ◌||◌, ◌≡◌, ◌↔◌, arith}
use tr_shared_lib.Errors.Handlers.{database_unavailable, database_timeout, connection_lost}
use tr_shared_lib.Database.Session.{
  DriverError, sqlstate_of, is_state, query_canceled_sqlstate, is_unavailable, Context, marked,
  marked_lost, lost, timed_out, translate,
}

-- A statement ran out of time: at the client, or at the server, which cancels it.
abbrev pub is_timed_out : DriverError → Bool
is_timed_out e = e.is_timeout || is_state (sqlstate_of e) query_canceled_sqlstate

-- An error that reaches the listener, of a connection that was not only pinged: it becomes
-- `DatabaseTimeoutError` exactly when the statement ran out of time; a connection whose client gave up
-- is discarded, but not the pool; `DatabaseUnavailableError` comes with a connection that is
-- discarded; and an error that is passed on leaves the connection as SQLAlchemy found it.
translate_lem :
    (c : Context)
    → c.is_pre_ping ≡ false
    → c.original_exception.is_exception ≡ true
    → (((translate c).0 ≡ some database_timeout) ↔ (is_timed_out c.original_exception ≡ true))
      × (c.original_exception.is_timeout ≡ true
          → ((translate c).1.is_disconnect ≡ true)
            × ((translate c).1.invalidate_pool_on_disconnect ≡ false))
      × ((translate c).0 ≡ some (database_unavailable connection_lost)
          → (translate c).1.is_disconnect ≡ true)
      × ((translate c).0 ≡ none → ((translate c).1 ≡ c) × (c.is_disconnect ≡ false))
unfolding translate timed_out lost marked marked_lost is_unavailable
translate_lem c ping exception = (
  (λ h. ground (arith, h, ping, exception), λ h. ground (arith, h, ping, exception)),
  λ h. ground (arith, h, ping, exception),
  λ h. ground (arith, h, ping, exception),
  λ h. ground (arith, h, ping, exception),
)
