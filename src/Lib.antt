-- ===== src/Lib.antt =====
-- A verification library for the shared Python library of the services (src/tr_shared).
--
-- The program is a set of parts that a service puts around its own code: clients that call other
-- services, limits and deduplication on what comes in, and the event bus between the services. The
-- parts that decide something are modelled here, each as functions on a record of its state:
--   * Base: the helpers the other files share. `Base.Dict` is `dict` as an association list in
--     insertion order, `Base.Effect` is a method that changes a state and may raise: it returns the
--     result beside the state, so that what was written before a raise stays written. `try` is
--     `except Exception`, which lets a cancellation pass.
--   * Http.CircuitBreaker and Http.Client: src/tr_shared/http/circuit_breaker.py (`is_open`,
--     `record_success`, `record_failure`) and src/tr_shared/http/client.py (`_request`: `loop`, with
--     `judge` for the outcome of one attempt). The client calls the breaker, and
--     Http.InternalClient is `_call` of src/tr_shared/http/internal_client.py on the client.
--   * RateLimiter: src/tr_shared/rate_limiter. `Schemas`, `MemoryFallback` (`check`,
--     `_cleanup_expired`), `Algorithms` with the Lua scripts as the commands they send, `Core`
--     (`check`, `reset`, `status`, `build_key`) which asks Redis, else the fallback, as the fail mode
--     says, and `Core.Dependency` (`create_rate_limit_dependency`) on top.
--   * Events: src/tr_shared/events. `RetryPolicy`, `Envelope` (`from_flat`), `RetryState` (the retry
--     counter and the dead-letter stream), `Idempotency` (`InMemoryIdempotencyChecker`), and
--     `Consumer` (`_process_message`, `_handle_failure`) with `Consumer.Loops` (`_consume_loop`,
--     `_claim_once`, `_claimer_loop`, the sweep, `start`, `stop`). `Outbox` is `drain_outbox` on the
--     table of undelivered events, `DurablePublisher` writes to it, `Producer` is `publish`.
--     `Supervisor` runs a consumer as a process, `GroupHealth` reports on a consumer group.
--   * Webhooks: src/tr_shared/webhooks. `Verifier` (the HMAC, Meta and Bayut schemes, the handshake),
--     `Idempotency` (the guard), `Router`, and `Endpoint` (`receive_webhook`) which calls them in the
--     order of the source.
--   * Middleware: `Idempotency` is src/tr_shared/middleware/idempotency.py, `ErrorHandler` is
--     src/tr_shared/middleware/error_handler.py (`dispatch`), which asks `Alerts`, the budget of
--     src/tr_shared/alerts/slack.py, before it sends; `UnstorableText`
--     is src/tr_shared/middleware/unstorable_text.py, with the search of `Schemas.Validators`;
--     `CorrelationId` is src/tr_shared/middleware/correlation_id.py, with the pattern of
--     src/tr_shared/contracts/headers.py, and `ClientIp` is src/tr_shared/client_ip.py.
--   * Errors: `Envelope` is src/tr_shared/schemas/error_envelope.py, `Exceptions` is
--     src/tr_shared/exceptions.py, `Handlers` are the exception handlers of src/tr_shared/middleware
--     and of src/tr_shared/db. What the handlers answer is what `Middleware.ErrorHandler` sees.
--   * Cache: `Backend` is the interface of a provider, `Adapter` a provider made of a client
--     (src/tr_shared/cache/adapters/base.py), `Service` is `CacheService` of
--     src/tr_shared/cache/service.py, `Helpers` is src/tr_shared/cache/helpers.py.
--   * Database: src/tr_shared/db. `Repository` is `BaseRepository` on the rows of a table, `MergeGate`
--     is migrations/merge_gate.py, `Migrations` the hooks beside it, `Session` and `Session.Engine` are session.py, `Like` is
--     `escape_like`.
--   * Integrations: `ConfigClient` is `get_config`, `warm_all` and `invalidate_cache` of
--     src/tr_shared/integrations/config_client.py, with the breaker of Http.CircuitBreaker; `Portals`
--     is the registry and the exceptions of portal_identity.py and portal_errors.py.
--
-- What is not under src/tr_shared is a parameter: Redis is a record of commands on a state of its own,
-- and so are the peer of an HTTP call, the handlers, JSON, the hash functions and the clock. Where a
-- statement needs what Redis promises (a counter that counts, SET with NX), the promise is a record of
-- laws that the statement takes, and a test fills it with a concrete store. Other tasks that run while
-- a method waits are in the parameters: a command may change its state in any way, and where a method
-- waits between two uses of an object that it shares with other tasks (the breaker of the HTTP client,
-- the cache and the breaker of the configuration client), what those do to it is a parameter too.
--
-- Times are whole numbers. A loop that runs as long as the process takes a number of rounds, and what
-- is said of it holds for every number; the retry loop of the client takes the number of attempts that
-- the source counts, so it needs no other bound; the SCAN loops of the cache take fuel, and more of it
-- than the cursor has steps to go is enough. The logging is left out. Not modelled are the wiring
-- of third-party libraries (the Redis clients, the sessions of SQLAlchemy, Celery, monitoring), the
-- clients of third-party APIs, and the test support.
pub mod Alerts
pub mod Base
pub mod Http
pub mod RateLimiter
pub mod Errors
pub mod Events
pub mod Webhooks
pub mod Middleware
pub mod Integrations
pub mod Schemas
pub mod Cache
pub mod Database
