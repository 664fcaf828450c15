-- ===== src/Events/Consumer/Loops.antt =====
-- The loops of `EventConsumer` of src/tr_shared/events/consumer.py. The fields `_running` and
-- `_redis`, which `stop` writes while a loop waits, are read from the state `S` of the other tasks. A
-- loop takes a number of rounds; asyncio and the consumer groups of Redis are parameters.
use tr_shared_lib.Base.{
  ℕ, zero, suc, String, Option, some, Bool, true, false, ◌&&◌, List, [], ◌∷◌, length, leb, ◌==◌,
  str_eq, not, if◌then◌else◌,
}
use tr_shared_lib.Base.Dict.{Dict}
use tr_shared_lib.Base.Effect.{
  Exn, redis_error, redis_connection, redis_timeout, os_error, value_error, cancelled, other,
  Result, ok, raised, Effect, pure, raise, try, when, modify, ◌>>=◌, ◌>>◌,
}
use tr_shared_lib.Events.Consumer.{EventConsumer, process_batch}
use tr_shared_lib.Events.Envelope.{EventEnvelope}
use tr_shared_lib.Events.RetryState.{StreamRedis, new_store, new_handler}

-- What a command answers whose `ResponseError` the consumer catches, with the error's text.
pub data Reply (A : Type 0) : Type 0 where
  reply : A → Reply A
  response_error : String → Reply A

-- An entry of `XINFO CONSUMERS`; a missing name is the empty one.
pub record ConsumerInfo : Type 0 where
  pub name : String
  pub pending : ℕ
  pub idle : ℕ

pub record Timing : Type 0 where
  pub batch_size : ℕ
  pub block_ms : ℕ
  pub claim_min_idle_ms : ℕ
  pub claimer_poll_interval : ℕ
  pub claim_count : ℕ
  pub zombie_idle_ms : ℕ

-- the commands of a consumer group, with the clients and the tasks
pub record GroupRedis (S : Type 0) : Type 0 where
  pub open_client : Effect S (Unit {0})
  pub close_client : Effect S (Unit {0})
  pub running : S → Bool
  pub set_running : Bool → S → S
  pub xgroup_create : String → String → Effect S (Reply (Unit {0}))
  pub xreadgroup : String → String → String → ℕ → ℕ → Effect S (Dict (Dict (Dict String)))
  pub xautoclaim : String → String → String → ℕ → ℕ → Effect S (Dict (Dict String))
  pub xinfo_consumers : String → String → Effect S (Reply (List ConsumerInfo))
  pub xgroup_delconsumer : String → String → String → Effect S (Reply (Unit {0}))
  pub xpending_range : String → String → String → Effect S (List String)
  pub spawn_claimer : Effect S (Unit {0})
  pub cancel_claimer : Effect S (Unit {0})
  pub sleep : ℕ → Effect S (Unit {0})
  pub open_own : Effect S (Unit {0})
  pub close_own : Effect S (Unit {0})
  -- `"BUSYGROUP" in str(e)`
  pub is_busygroup : String → Bool

module _ {J S : Type 0} (group : GroupRedis S) (redis : StreamRedis S) (text_of : Exn → String)
    (parse : String → Dict String → Option (EventEnvelope J)) (t : Timing)
    (c : EventConsumer J S) where
  unfoldable pub disconnect : Effect S (Unit {0})
  disconnect s = when (redis.has_client s) group.close_client s

  unfoldable pub ensure_consumer_group : Effect S (Unit {0})
  ensure_consumer_group = do
    answer ← group.xgroup_create c.stream_name c.consumer_group
    elim answer [
      | reply x ↦ pure tt
      | response_error e ↦ when (not (group.is_busygroup e)) (raise redis_error)
    ]

  -- the guards of the sweep's loop
  unfoldable pub is_zombie : ConsumerInfo → Bool
  is_zombie info =
      not (str_eq info.name "")
      && not (str_eq info.name c.consumer_name)
      && (info.pending == 0 && leb t.zombie_idle_ms info.idle)

  unfoldable pub sweep_each : List ConsumerInfo → Effect S (Unit {0})
  sweep_each [] = pure tt
  sweep_each (info ∷ rest) =
      when (is_zombie info)
        (group.xgroup_delconsumer c.stream_name c.consumer_group info.name >>= λ answer. pure tt)
      >> sweep_each rest

  unfoldable pub after_xinfo : Reply (List ConsumerInfo) → Effect S (Unit {0})
  after_xinfo (reply consumers) = sweep_each consumers
  after_xinfo (response_error e) = pure tt

  unfoldable pub sweep_zombie_consumers : Effect S (Unit {0})
  sweep_zombie_consumers s =
      when (redis.has_client s)
        (group.xinfo_consumers c.stream_name c.consumer_group >>= after_xinfo) s

  unfoldable pub connect : Effect S (Unit {0})
  connect = do
    (λ s. when (not (redis.has_client s)) group.open_client s)
    ensure_consumer_group
    sweep_zombie_consumers

  -- the fields that `connect` sets, with which the loops run
  unfoldable pub connected : EventConsumer J S
  connected = record c {
    dlq = some (new_handler c.stream_name c.consumer_group);
    retry_state = some (new_store c.stream_name c.consumer_group);
  }

  -- `for _stream, stream_msgs in messages`
  unfoldable pub process_streams : Dict (Dict (Dict String)) → Effect S (Unit {0})
  process_streams [] = pure tt
  process_streams ((_, stream_msgs) ∷ rest) =
      process_batch redis text_of connected parse stream_msgs >> process_streams rest

  -- the body of the `try` in `_consume_loop`; without a client the attribute access raises
  unfoldable pub read_and_process : Effect S (Unit {0})
  read_and_process s =
      if redis.has_client s
      then (group.xreadgroup c.consumer_group c.consumer_name c.stream_name t.batch_size t.block_ms
            >>= process_streams)
          s
      else raise other s

  -- `False` where the loop breaks off
  unfoldable pub on_connection_error : Effect S Bool
  on_connection_error s =
      if group.running s
      then (try (disconnect >> connect) (λ _. pure tt) >> group.sleep 5 >> pure true) s
      else pure false s

  unfoldable pub after_round : Result (Unit {0}) → Effect S Bool
  after_round (ok x) = pure true
  after_round (raised redis_timeout) = pure true
  after_round (raised redis_connection) = on_connection_error
  after_round (raised cancelled) = pure false
  after_round (raised redis_error) = group.sleep 1 >> pure true
  after_round (raised os_error) = group.sleep 1 >> pure true
  after_round (raised value_error) = group.sleep 1 >> pure true
  after_round (raised other) = group.sleep 1 >> pure true

  unfoldable pub consume_round : Effect S Bool
  consume_round s = let (r, s') = read_and_process s in after_round r s'

  -- `while self._running`, so many rounds of it
  unfoldable pub consume_rounds : ℕ → Effect S (Unit {0})
  consume_rounds zero s = pure tt s
  consume_rounds (suc rounds) s =
      if group.running s
      then (consume_round >>= λ again. when again (consume_rounds rounds)) s
      else pure tt s

  -- `if self._redis is None: return` comes before the loop
  unfoldable pub consume_loop : ℕ → Effect S (Unit {0})
  consume_loop rounds s = if redis.has_client s then consume_rounds rounds s else pure tt s

  unfoldable pub claim_once : Effect S ℕ
  claim_once s =
      if redis.has_client s
      then (group.xautoclaim c.stream_name c.consumer_group c.consumer_name t.claim_min_idle_ms
              t.claim_count
            >>= λ claimed.
                process_batch redis text_of connected parse claimed >> pure (length claimed))
          s
      else pure 0 s

  unfoldable pub after_claim : Result (Unit {0}) → Effect S Bool
  after_claim (ok x) s = pure true s
  after_claim (raised cancelled) s = pure false s
  after_claim (raised e) s =
      if group.running s then (group.sleep t.claimer_poll_interval >> pure true) s else pure false s

  unfoldable pub claim_round : Effect S Bool
  claim_round s =
      let (r, s') = (claim_once >> group.sleep t.claimer_poll_interval) s in after_claim r s'

  unfoldable pub claimer_loop : ℕ → Effect S (Unit {0})
  claimer_loop zero s = pure tt s
  claimer_loop (suc rounds) s =
      if group.running s
      then (claim_round >>= λ again. when again (claimer_loop rounds)) s
      else pure tt s

  -- the `try` of `_deregister_consumer`
  unfoldable pub drop_registration : Effect S (Unit {0})
  drop_registration =
      group.xpending_range c.stream_name c.consumer_group c.consumer_name >>= λ entries.
      elim entries [
        | [] ↦
            (group.xgroup_delconsumer c.stream_name c.consumer_group c.consumer_name >>= λ answer.
            pure tt)
        | x ∷ xs ↦ pure tt
      ]

  -- `except (redis.RedisError, OSError)`; what it does not catch goes on after the `finally`
  unfoldable pub is_tidy_up_error : Exn → Bool
  is_tidy_up_error redis_error = true
  is_tidy_up_error redis_connection = true
  is_tidy_up_error redis_timeout = true
  is_tidy_up_error os_error = true
  is_tidy_up_error value_error = false
  is_tidy_up_error cancelled = false
  is_tidy_up_error other = false

  unfoldable pub after_tidy_up : Result (Unit {0}) → Effect S (Unit {0})
  after_tidy_up (ok x) = group.close_own
  after_tidy_up (raised e) = group.close_own >> when (not (is_tidy_up_error e)) (raise e)

  unfoldable pub deregister_consumer : Effect S (Unit {0})
  deregister_consumer =
      group.open_own >> λ s. let (r, s') = drop_registration s in after_tidy_up r s'

  unfoldable pub stop : Effect S (Unit {0})
  stop = modify (group.set_running false) >> disconnect

  -- the `finally` of `start`
  unfoldable pub wind_down : Effect S (Unit {0})
  wind_down = do
    modify (group.set_running false)
    group.cancel_claimer
    disconnect
    deregister_consumer

  unfoldable pub after_consuming : Result (Unit {0}) → Effect S (Unit {0})
  after_consuming (ok x) = wind_down
  after_consuming (raised e) = wind_down >> raise e

  unfoldable pub start : ℕ → Effect S (Unit {0})
  start rounds = do
    connect
    modify (group.set_running true)
    group.spawn_claimer
    λ s. let (r, s') = consume_loop rounds s in after_consuming r s'
