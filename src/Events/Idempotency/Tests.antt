-- ===== src/Events/Idempotency/Tests.antt =====
-- The in-memory checker on concrete data, with a Redis that is never reached.
use tr_shared_lib.Base.{ℕ, ◌≤◌, length, true, arith}
use tr_shared_lib.Base.Effect.{raised, redis_connection}
use tr_shared_lib.Events.Idempotency.{ProcessedRedis, Checked, new, mark_processed}
use tr_shared_lib.Events.Idempotency.Memory.{mark_processed-bounded}

abbrev unreachable : ProcessedRedis ℕ
unreachable = record {
  exists = λ key r. (raised redis_connection, r);
  setex = λ key ttl r. (raised redis_connection, r);
}

abbrev fresh : Checked ℕ
fresh = record { checker = new true "crm" 7; outside = 0 }

mark_processed-bounded_example :
    length (mark_processed unreachable "a" fresh).1.checker.ids ≤ 10_000
unfolding new
mark_processed-bounded_example = mark_processed-bounded unreachable "a" fresh (omega arith)
