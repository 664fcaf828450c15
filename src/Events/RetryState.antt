-- ===== src/Events/RetryState.antt =====
-- src/tr_shared/events/retry_state.py and src/tr_shared/events/dead_letter.py: the attempt counter of
-- a message and the dead-letter stream. The commands of Redis are a parameter; `hget` comes with the
-- number that `int` reads.
use tr_shared_lib.Base.{ℕ, Bool, String, Option, none, some, [], ◌∷◌}
use tr_shared_lib.Base.Dict.{Dict}
use tr_shared_lib.Base.Effect.{Effect, pure, ◌>>=◌, ◌>>◌}
use Prim.Native.String.{◌++◌}

-- The commands on hashes and streams, on a state `S`.
pub record StreamRedis (S : Type 0) : Type 0 where
  -- whether the consumer has its client, `self._redis`, for which `stop` leaves none
  pub has_client : S → Bool
  pub hincrby : String → String → ℕ → Effect S ℕ
  pub expire : String → ℕ → Effect S (Unit {0})
  pub hget : String → String → Effect S (Option ℕ)
  pub hdel : String → String → Effect S (Unit {0})
  pub xadd : String → Dict String → ℕ → Effect S (Unit {0})
  pub xack : String → String → String → Effect S (Unit {0})
  -- `str(time.time())` and `json.dumps` of the fields
  pub now : Effect S String
  pub dumps : Dict String → String

pub record RetryStateStore : Type 0 where
  pub key : String
  pub ttl : ℕ

-- `RetryStateStore.__init__` with its default lifetime
unfoldable pub new_store : String → String → RetryStateStore
new_store stream_name group = record {
  key = stream_name ++ ":" ++ group ++ ":retries";
  ttl = 86_400;
}

pub record DeadLetterHandler : Type 0 where
  pub source_stream : String
  pub dl_stream : String
  pub consumer_group : String
  pub maxlen : ℕ

unfoldable pub dead_letter_stream_name : String → String
dead_letter_stream_name source_stream = source_stream ++ "_dead_letter"

-- `DeadLetterHandler.__init__` with its default length
unfoldable pub new_handler : String → String → DeadLetterHandler
new_handler source_stream group = record {
  source_stream = source_stream;
  dl_stream = dead_letter_stream_name source_stream;
  consumer_group = group;
  maxlen = 10_000;
}

module _ {S : Type 0} (redis : StreamRedis S) where
  unfoldable pub increment : RetryStateStore → String → Effect S ℕ
  increment store message_id = do
    count ← redis.hincrby store.key message_id 1
    redis.expire store.key store.ttl
    pure count

  unfoldable pub get : RetryStateStore → String → Effect S ℕ
  get store message_id = do
    value ← redis.hget store.key message_id
    elim value [ none ↦ pure 0 | some n ↦ pure n ]

  unfoldable pub clear : RetryStateStore → String → Effect S (Unit {0})
  clear store message_id = redis.hdel store.key message_id

  unfoldable pub entry_of : DeadLetterHandler → String → Dict String → String → String → Dict String
  entry_of dlq message_id message_data reason time =
      ("original_message_id", message_id)
      ∷ ("original_stream", dlq.source_stream)
      ∷ ("consumer_group", dlq.consumer_group)
      ∷ ("failure_reason", reason)
      ∷ ("timestamp", time)
      ∷ ("original_data", redis.dumps message_data)
      ∷ []

  -- The `except` clause only logs and raises again.
  unfoldable pub move : DeadLetterHandler → String → Dict String → String → Effect S (Unit {0})
  move dlq message_id message_data reason = do
    time ← redis.now
    redis.xadd dlq.dl_stream (entry_of dlq message_id message_data reason time) dlq.maxlen
