-- ===== src/Events/Consumer.antt =====
-- `EventConsumer` of src/tr_shared/events/consumer.py: one message, and the acknowledgement after
-- it. Redis, the decoder of messages, the handlers and the text of an exception are parameters; what
-- other tasks do in the meantime is in the state `S` that these change.
pub mod Loops
pub mod Outcomes
pub mod Retries
pub mod Sweep
pub mod Shutdown
pub mod Duplicates
mod Tests
use tr_shared_lib.Base.{
  ℕ, ◌<◌, String, Option, none, some, Bool, true, false, ◌&&◌, List, [], ◌∷◌, leb, if◌then◌else◌,
}
use tr_shared_lib.Base.Dict.{Dict, lookup, insert}
use tr_shared_lib.Base.Effect.{
  Exn, cancelled, Result, ok, raised, Effect, pure, raise, try, when, ◌>>=◌, ◌>>◌,
}
use tr_shared_lib.Base.Text.{codes, starts_with, ends_with, drop_last_two}
use tr_shared_lib.Events.Envelope.{EventEnvelope}
use tr_shared_lib.Events.Idempotency.{IdempotencyChecker}
use tr_shared_lib.Events.RetryPolicy.{RetryPolicy}
use tr_shared_lib.Events.RetryState.{
  StreamRedis, RetryStateStore, DeadLetterHandler, increment, clear, move,
}
use Prim.Native.String.{◌++◌}

abbrev pub Handler : Type 0 → Type 0 → Type 0
Handler J S = EventEnvelope J → Effect S (Unit {0})

-- The fields that processing a message reads.
pub record EventConsumer (J S : Type 0) : Type 0 where
  pub stream_name : String
  pub consumer_group : String
  pub consumer_name : String
  pub retry_policy : RetryPolicy
  pub idempotency : Option (IdempotencyChecker S)
  pub handlers : Dict (Handler J S)
  pub dlq : Option DeadLetterHandler
  pub retry_state : Option RetryStateStore

-- A message's answer: `(handler_ok, should_ack)`.
abbrev pub Answer : Type 0
Answer = Bool × Bool

-- `for pattern, h in self._handlers.items()`
unfoldable pub resolve_wildcard : {H : Type 0} → String → Dict H → Option H
resolve_wildcard event_type [] = none
resolve_wildcard event_type ((pattern, h) ∷ rest) =
    let later = resolve_wildcard event_type rest in
    if ends_with (codes pattern) (codes ".*")
      && starts_with (codes event_type) (drop_last_two (codes pattern))
    then some h
    else later

unfoldable pub resolve_handler : {H : Type 0} → Dict H → String → Option H
resolve_handler handlers event_type = elim (lookup event_type handlers) [
  | none ↦ resolve_wildcard event_type handlers
  | some h ↦ some h
]

unfoldable pub register_handler :
    {J S : Type 0} → EventConsumer J S → String → Handler J S → EventConsumer J S
register_handler c event_type h = record c { handlers = insert event_type h c.handlers }

abbrev pub pending : Answer
pending = (false, false)

module _ {J S : Type 0} (redis : StreamRedis S) (text_of : Exn → String)
    (c : EventConsumer J S) where
  -- `if self._dlq: try: await self._dlq.move(…) except Exception: log`
  unfoldable pub dead_letter : String → Dict String → String → Effect S (Unit {0})
  dead_letter message_id fields reason = elim c.dlq [
    | none ↦ pure tt
    | some dlq ↦ try (move redis dlq message_id fields reason) (λ _. pure tt)
  ]

  unfoldable pub clear_retries : String → Effect S (Unit {0})
  clear_retries message_id = elim c.retry_state [
    | none ↦ pure tt
    | some store ↦ clear redis store message_id
  ]

  -- the number of this attempt; a counter that fails counts as the last one
  unfoldable pub count_attempt : String → Effect S ℕ
  count_attempt message_id =
      try (elim c.retry_state [ none ↦ pure 1 | some store ↦ increment redis store message_id ])
        (λ _. pure c.retry_policy.max_retries)

  unfoldable pub give_up : String → Dict String → Exn → Effect S Answer
  give_up message_id fields exc = do
    dead_letter message_id fields ("Max retries exceeded: " ++ text_of exc)
    clear_retries message_id
    pure (false, true)

  unfoldable pub after_count : String → Dict String → Exn → ℕ → Effect S Answer
  after_count message_id fields exc attempts =
      if leb c.retry_policy.max_retries attempts
      then give_up message_id fields exc
      else pure pending

  unfoldable pub handle_failure : String → Dict String → Exn → Effect S Answer
  handle_failure message_id fields exc =
      count_attempt message_id >>= after_count message_id fields exc

  unfoldable pub is_duplicate : EventEnvelope J → Effect S Bool
  is_duplicate envelope = elim c.idempotency [
    | none ↦ pure false
    | some checker ↦ checker.is_processed envelope.event_id
  ]

  unfoldable pub mark_processed : EventEnvelope J → Effect S (Unit {0})
  mark_processed envelope = elim c.idempotency [
    | none ↦ pure tt
    | some checker ↦ checker.mark_processed envelope.event_id
  ]

  unfoldable pub settle_success : String → EventEnvelope J → Effect S Answer
  settle_success message_id envelope = do
    mark_processed envelope
    clear_retries message_id
    pure (true, true)

  -- after the `try` around the handler; a cancellation is no `Exception`
  unfoldable pub after_handler :
      String → Dict String → EventEnvelope J → Result (Unit {0}) → Effect S Answer
  after_handler message_id fields envelope (ok x) = settle_success message_id envelope
  after_handler message_id fields envelope (raised cancelled) = raise cancelled
  after_handler message_id fields envelope (raised exc) = handle_failure message_id fields exc

  unfoldable pub run_handler :
      String → Dict String → EventEnvelope J → Handler J S → Effect S Answer
  run_handler message_id fields envelope handler s =
      let (r, s') = handler envelope s in after_handler message_id fields envelope r s'

  unfoldable pub after_resolve :
      String → Dict String → EventEnvelope J → Option (Handler J S) → Effect S Answer
  after_resolve message_id fields envelope none = pure (true, true)
  after_resolve message_id fields envelope (some handler) =
      run_handler message_id fields envelope handler

  unfoldable pub after_lookup : String → Dict String → EventEnvelope J → Bool → Effect S Answer
  after_lookup message_id fields envelope duplicate =
      if duplicate
      then pure (true, true)
      else after_resolve message_id fields envelope (resolve_handler c.handlers envelope.event_type)

  unfoldable pub process_envelope : String → Dict String → EventEnvelope J → Effect S Answer
  process_envelope message_id fields envelope =
      is_duplicate envelope >>= after_lookup message_id fields envelope

  unfoldable pub after_parse : String → Dict String → Option (EventEnvelope J) → Effect S Answer
  after_parse message_id fields none =
      dead_letter message_id fields "Malformed message" >> pure (true, true)
  after_parse message_id fields (some envelope) = process_envelope message_id fields envelope

  -- `_ack`
  unfoldable pub acknowledge : String → Effect S (Unit {0})
  acknowledge message_id s =
      when (redis.has_client s) (redis.xack c.stream_name c.consumer_group message_id) s

  module _ (parse : String → Dict String → Option (EventEnvelope J)) where
    unfoldable pub process_message : String → Dict String → Effect S Answer
    process_message message_id fields = after_parse message_id fields (parse message_id fields)

    unfoldable pub process_and_ack : String → Dict String → Effect S (Unit {0})
    process_and_ack message_id fields = do
      answer ← process_message message_id fields
      when answer.1 (acknowledge message_id)

    -- `for msg_id, msg_data in …`
    unfoldable pub process_batch : Dict (Dict String) → Effect S (Unit {0})
    process_batch [] = pure tt
    process_batch ((msg_id, msg_data) ∷ rest) =
        process_and_ack msg_id msg_data >> process_batch rest
