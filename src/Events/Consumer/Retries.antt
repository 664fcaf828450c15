-- ===== src/Events/Consumer/Retries.antt =====
-- How often a message is delivered whose handler always fails.
use tr_shared_lib.Base.{
  ℕ, zero, suc, ◌+◌, ◌-◌, ◌≤◌, ◌<◌, ◌≡◌, ◌≢◌, refl, String, Option, none, some, true, false, List,
  [], ◌∷◌, arith,
}
use Prim.Native.String
use tr_shared_lib.Base.Dict.{Dict}
use tr_shared_lib.Base.Effect.{Exn, cancelled, Result, ok, raised, Effect, pure, try}
use tr_shared_lib.Events.Consumer.{
  EventConsumer, Handler, Answer, pending, resolve_handler, dead_letter, clear_retries,
  count_attempt, give_up, after_count, handle_failure, after_handler, after_resolve, after_parse,
  after_lookup, is_duplicate, run_handler, process_envelope, process_message,
}
use tr_shared_lib.Events.Envelope.{EventEnvelope}
use tr_shared_lib.Events.RetryState.{
  StreamRedis, RetryStateStore, DeadLetterHandler, increment, clear, entry_of, move,
}

-- What `HINCRBY` and the commands beside it promise of the counter of one message.
pub record Counts {S : Type 0} (redis : StreamRedis S) (key message_id : String) : Type 0 where
  pub count : S → ℕ
  pub counted :
      (s : S)
      → (s' : S) × (redis.hincrby key message_id 1 s ≡ (ok (count s + 1), s'))
        × (count s' ≡ count s + 1)
  pub expires :
      (seconds : ℕ) (s : S)
      → (s' : S) × (redis.expire key seconds s ≡ (ok tt, s')) × (count s' ≡ count s)
  pub deleted : (s : S) → (redis.hdel key message_id s).0 ≡ ok tt
  pub clock : (s : S) → (time : String) × ((redis.now s).0 ≡ ok time)
  -- writing to the dead-letter stream may fail, but nobody cancels it
  pub not_cancelled :
      (stream : String) (entry : Dict String) (maxlen : ℕ) (s : S)
      → (redis.xadd stream entry maxlen s).0 ≢ raised cancelled

-- so many answers: the message stays pending before each but the last, which has it acknowledged
abbrev pub retried : ℕ → List (Result Answer)
retried zero = ok (false, true) ∷ []
retried (suc n) = ok pending ∷ retried n

module _ {J S : Type 0} (redis : StreamRedis S) (text_of : Exn → String) (c : EventConsumer J S)
    (parse : String → Dict String → Option (EventEnvelope J)) (message_id : String)
    (fields : Dict String) where
  -- the answers of so many deliveries of the message, one after the other
  unfoldable pub deliveries : ℕ → S → List (Result Answer)
  deliveries zero s = []
  deliveries (suc n) s =
      let (r, s') = process_message redis text_of c parse message_id fields s in r ∷ deliveries n s'

  module _ (store : RetryStateStore) (counts : Counts redis store.key message_id) where
    count_attempt_lem :
        (s : S)
        → c.retry_state ≡ some store
        → (s' : S) × (count_attempt redis text_of c message_id s ≡ (ok (counts.count s + 1), s'))
          × (counts.count s' ≡ counts.count s + 1)
    unfolding count_attempt increment
    count_attempt_lem s has =
        let (s1, e1, n1) = counts.counted s in
        let (s2, e2, n2) = counts.expires store.ttl s1 in
        (s2, ground (arith, has, e1, e2), omega (arith, n1, n2))

    swallow :
        (m : Effect S (Unit {0})) (s : S)
        → (m s).0 ≢ raised cancelled
        → (try m (λ _. pure tt) s).0 ≡ ok tt
    swallow m s h = ground arith

    move-not_cancelled :
        (dlq : DeadLetterHandler) (reason : String) (s : S)
        → (move redis dlq message_id fields reason s).0 ≢ raised cancelled
    unfolding move
    move-not_cancelled dlq reason s =
        let (time, t) = counts.clock s in
        let entry = entry_of redis dlq message_id fields reason time in
        let h = counts.not_cancelled dlq.dl_stream entry dlq.maxlen (redis.now s).1 in
        ground (arith, t, h)

    dead_letter-ok :
        (found : Option DeadLetterHandler) (reason : String) (s : S)
        → c.dlq ≡ found
        → (dead_letter redis text_of c message_id fields reason s).0 ≡ ok tt
    unfolding dead_letter
    dead_letter-ok none reason s q = ground (arith, q)
    dead_letter-ok (some dlq) reason s q =
        rw q (swallow (move redis dlq message_id fields reason) s (move-not_cancelled dlq reason s))

    give_up_lem :
        (exc : Exn) (s : S)
        → c.retry_state ≡ some store
        → (give_up redis text_of c message_id fields exc s).0 ≡ ok (false, true)
    unfolding give_up clear_retries clear
    give_up_lem exc s has =
        let reason = String.◌++◌ "Max retries exceeded: " (text_of exc) in
        let gone = counts.deleted (dead_letter redis text_of c message_id fields reason s).1 in
        ground (arith, has, gone, dead_letter-ok c.dlq reason s refl)

    module _ (envelope : EventEnvelope J) (handler : Handler J S) (exc : Exn)
        (parsed : parse message_id fields ≡ some envelope)
        (resolved : resolve_handler c.handlers envelope.event_type ≡ some handler)
        (unguarded : c.idempotency ≡ none) (has : c.retry_state ≡ some store)
        (real : exc ≢ cancelled)
        (fails : (s : S)
          → (s' : S) × (handler envelope s ≡ (raised exc, s'))
            × (counts.count s' ≡ counts.count s)) where
      after_handler_lem :
          (s : S)
          → after_handler redis text_of c message_id fields envelope (raised exc) s
            ≡ handle_failure redis text_of c message_id fields exc s
      unfolding after_handler
      after_handler_lem s = ground (arith, real)

      process_message-handle_failure :
          (s : S)
          → (s' : S) × (process_message redis text_of c parse message_id fields s
              ≡ handle_failure redis text_of c message_id fields exc s')
            × (counts.count s' ≡ counts.count s)
      unfolding process_message after_parse process_envelope after_lookup is_duplicate after_resolve
          run_handler
      process_message-handle_failure s =
          let (s', e, n) = fails s in
          (s', ground (arith, parsed, resolved, unguarded, e, after_handler_lem s'), n)

      process_message_retried :
          (s : S)
          → counts.count s + 1 < c.retry_policy.max_retries
          → (s' : S) × (process_message redis text_of c parse message_id fields s
              ≡ (ok pending, s'))
            × (counts.count s' ≡ counts.count s + 1)
      unfolding handle_failure after_count
      process_message_retried s lt =
          let (s1, e1, n1) = process_message-handle_failure s in
          let (s2, e2, n2) = count_attempt_lem s1 has in
          (s2, ground (arith, e1, e2, n1), omega (arith, n1, n2))

      process_message_exhausted :
          (s : S)
          → c.retry_policy.max_retries ≤ counts.count s + 1
          → (process_message redis text_of c parse message_id fields s).0 ≡ ok (false, true)
      unfolding handle_failure after_count
      process_message_exhausted s le =
          let (s1, e1, n1) = process_message-handle_failure s in
          let (s2, e2, n2) = count_attempt_lem s1 has in
          ground (arith, e1, e2, n1, give_up_lem exc s2 has)

      -- Under the counter's laws, for a consumer with a retry counter and no idempotency checker: a
      -- message that can be parsed and has a handler, which raises on every delivery (other than by a
      -- cancellation) and leaves the counter alone, stays pending until its attempts reach
      -- `max_retries`; the delivery that reaches them (the first one, where the count is there
      -- already) has it acknowledged.
      pub deliveries-retried :
          (n : ℕ) (s : S)
          → n ≡ c.retry_policy.max_retries - (counts.count s + 1)
          → deliveries (n + 1) s ≡ retried n
      unfolding deliveries
      deliveries-retried zero s e = ground (arith, process_message_exhausted s (omega arith))
      deliveries-retried (suc n) s e =
          let (s', p, q) = process_message_retried s (omega arith) in
          ground (arith, p, deliveries-retried n s' (omega (arith, q)))
