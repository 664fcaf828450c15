-- ===== src/Events/Consumer/Duplicates.antt =====
-- A processed event that is delivered again.
use tr_shared_lib.Base.{◌≤◌, ◌≡◌, String, Option, some, true, false, List, length, arith}
use tr_shared_lib.Base.Dict.{Dict}
use tr_shared_lib.Base.Effect.{Exn, ok}
use tr_shared_lib.Events.Consumer.{
  EventConsumer, after_parse, after_lookup, is_duplicate, process_envelope, process_message,
}
use tr_shared_lib.Events.Envelope.{EventEnvelope}
use tr_shared_lib.Events.Idempotency.{ProcessedRedis, Checked, member, in_memory, mark_processed}
use tr_shared_lib.Events.Idempotency.Memory.{mark_all, is_processed-mark_all}
use tr_shared_lib.Events.RetryState.{StreamRedis}

module _ {J R : Type 0} (redis : StreamRedis (Checked R)) (processed : ProcessedRedis R) where
  -- With the in-memory checker: a message of an event that was not remembered before, was then marked
  -- as processed, and after it at most 5 000 further events, is acknowledged with the state unchanged:
  -- neither its handler nor Redis is reached.
  pub process_message-mark_all :
      (text_of : Exn → String) (c : EventConsumer J (Checked R))
      (parse : String → Dict String → Option (EventEnvelope J)) (message_id : String)
      (fields : Dict String) (envelope : EventEnvelope J) (later : List String) (s : Checked R)
      → c.idempotency ≡ some (in_memory processed)
      → parse message_id fields ≡ some envelope
      → member envelope.event_id s.checker.ids ≡ false
      → length later ≤ 5_000
      → (let s' = mark_all processed later (mark_processed processed envelope.event_id s).1 in
          process_message redis text_of c parse message_id fields s' ≡ (ok (true, true), s'))
  unfolding process_message after_parse process_envelope after_lookup is_duplicate
  process_message-mark_all text_of c parse message_id fields envelope later s has parsed fresh le =
      let known = is_processed-mark_all processed envelope.event_id later s fresh le in
      ground (arith, has, parsed, known)
