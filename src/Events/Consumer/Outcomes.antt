-- ===== src/Events/Consumer/Outcomes.antt =====
-- When `_process_message` leaves a message pending.
use tr_shared_lib.Base.{ℕ, ◌<◌, ◌≡◌, refl, String, Option, none, some, Bool, true, false, arith}
use Prim.Native.String
use tr_shared_lib.Base.Dict.{Dict}
use tr_shared_lib.Base.Effect.{
  Exn, redis_error, redis_connection, redis_timeout, os_error, value_error, other, cancelled,
  Result, ok, raised, Effect, pure, try, bind-ok, bind-ran, ◌>>◌,
}
use tr_shared_lib.Events.Idempotency.{IdempotencyChecker}
use tr_shared_lib.Events.Consumer.{
  EventConsumer, Handler, Answer, resolve_handler, dead_letter, clear_retries, count_attempt,
  give_up, after_count, handle_failure, after_handler, after_resolve, after_parse, after_lookup,
  is_duplicate, mark_processed, settle_success, run_handler, process_envelope, process_message,
}
use tr_shared_lib.Events.Envelope.{EventEnvelope}
use tr_shared_lib.Events.RetryState.{StreamRedis, RetryStateStore, increment}

module _ {J S : Type 0} (redis : StreamRedis S) (text_of : Exn → String)
    (c : EventConsumer J S) where
  -- From `s` to `s'` the attempt was counted, below the allowed number: by the counter in Redis, or
  -- as the first one where there is no counter.
  abbrev pub Counted : Option RetryStateStore → String → S → S → Type 0
  Counted none message_id s s' = (1 < c.retry_policy.max_retries) × (s' ≡ s)
  Counted (some store) message_id s s' =
      (n : ℕ) × (increment redis store message_id s ≡ (ok n, s')) × (n < c.retry_policy.max_retries)

  count_attempt-Counted :
      (message_id : String) (s : S) (n : ℕ)
      → (count_attempt redis text_of c message_id s).0 ≡ ok n
      → n < c.retry_policy.max_retries
      → Counted c.retry_state message_id s (count_attempt redis text_of c message_id s).1
  unfolding count_attempt
  count_attempt-Counted message_id s n = go c.retry_state
    where
      attempt : Option RetryStateStore → Effect S ℕ
      attempt retry_state =
          try (elim retry_state [ none ↦ pure 1 | some store ↦ increment redis store message_id ])
            (λ _. pure c.retry_policy.max_retries)

      counted : Result ℕ × S → Result ℕ × S
      counted r =
          let (x, s') = r in
          elim x as (λ _. Result ℕ × S) [
            | ok a ↦ (ok a, s')
            | raised cancelled ↦ (raised cancelled, s')
            | raised e ↦ (ok c.retry_policy.max_retries, s')
          ]

      look :
          (r : Result ℕ × S)
          → (counted r).0 ≡ ok n
          → n < c.retry_policy.max_retries
          → (m : ℕ) × (r ≡ (ok m, (counted r).1)) × (m < c.retry_policy.max_retries)
      look (ok m, s') h lt = (m, refl, ground (arith, h, lt))
      look (raised redis_error, s') h lt = absurd (ground (arith, h, lt))
      look (raised redis_connection, s') h lt = absurd (ground (arith, h, lt))
      look (raised redis_timeout, s') h lt = absurd (ground (arith, h, lt))
      look (raised os_error, s') h lt = absurd (ground (arith, h, lt))
      look (raised value_error, s') h lt = absurd (ground (arith, h, lt))
      look (raised cancelled, s') h lt = absurd (ground (arith, h, lt))
      look (raised other, s') h lt = absurd (ground (arith, h, lt))

      go :
          (retry_state : Option RetryStateStore)
          → (attempt retry_state s).0 ≡ ok n
          → n < c.retry_policy.max_retries
          → Counted retry_state message_id s (attempt retry_state s).1
      go none h lt = (ground (arith, h, lt), refl)
      go (some store) h lt = look (increment redis store message_id s) h lt

  -- the checker, if there is one, did not know the event
  abbrev pub Unseen : Option (IdempotencyChecker S) → EventEnvelope J → S → S → Type 0
  Unseen none envelope s s' = s' ≡ s
  Unseen (some checker) envelope s s' = checker.is_processed envelope.event_id s ≡ (ok false, s')

  is_duplicate-Unseen :
      (envelope : EventEnvelope J) (s : S)
      → (is_duplicate redis text_of c envelope s).0 ≡ ok false
      → Unseen c.idempotency envelope s (is_duplicate redis text_of c envelope s).1
  unfolding is_duplicate
  is_duplicate-Unseen envelope s = go c.idempotency
    where
      go :
          (idempotency : Option (IdempotencyChecker S))
          → ((elim idempotency as (λ _. Effect S Bool) [
            | none ↦ pure false
            | some checker ↦ checker.is_processed envelope.event_id
          ])
              s).0
            ≡ ok false
          → Unseen idempotency envelope s
              ((elim idempotency as (λ _. Effect S Bool) [
                | none ↦ pure false
                | some checker ↦ checker.is_processed envelope.event_id
              ])
                s).1
      go none h = refl
      go (some checker) h = ground (arith, h)

  -- a block that ends in `return answer` answers that, if anything
  ends : {B : Type 0} (m : Effect S B) (a b : Answer) (s : S) → ((m >> pure a) s).0 ≡ ok b → a ≡ b
  ends m a b s h = let (x, _, e) = bind-ok m (λ _. pure a) s b h in cc

  give_up-acked :
      (message_id : String) (fields : Dict String) (exc : Exn) (s : S) (a : Answer)
      → (give_up redis text_of c message_id fields exc s).0 ≡ ok a
      → (false, true) ≡ a
  unfolding give_up
  give_up-acked message_id fields exc s a e =
      let reason = String.◌++◌ "Max retries exceeded: " (text_of exc) in
      let rest = clear_retries redis text_of c message_id >> pure (false, true) in
      let letter = dead_letter redis text_of c message_id fields reason in
      let (x, _, e') = bind-ok letter (λ _. rest) s a e in
      ends (clear_retries redis text_of c message_id) (false, true) a (letter s).1 e'

  settle_success-acked :
      (message_id : String) (envelope : EventEnvelope J) (s : S) (a : Answer)
      → (settle_success redis text_of c message_id envelope s).0 ≡ ok a
      → (true, true) ≡ a
  unfolding settle_success
  settle_success-acked message_id envelope s a e =
      let rest = clear_retries redis text_of c message_id >> pure (true, true) in
      let mark = mark_processed redis text_of c envelope in
      let (x, _, e') = bind-ok mark (λ _. rest) s a e in
      ends (clear_retries redis text_of c message_id) (true, true) a (mark s).1 e'

  after_count-pending :
      (message_id : String) (fields : Dict String) (exc : Exn) (n : ℕ) (s : S) (h : Bool)
      → (after_count redis text_of c message_id fields exc n s).0 ≡ ok (h, false)
      → (n < c.retry_policy.max_retries)
        × (h ≡ false)
        × ((after_count redis text_of c message_id fields exc n s).1 ≡ s)
  unfolding after_count
  after_count-pending message_id fields exc n s h e =
      ground (arith, give_up-acked message_id fields exc s (h, false))

  handle_failure-Counted :
      (message_id : String) (fields : Dict String) (exc : Exn) (s : S) (h : Bool)
      → (handle_failure redis text_of c message_id fields exc s).0 ≡ ok (h, false)
      → Counted c.retry_state message_id s
          (handle_failure redis text_of c message_id fields exc s).1
        × (h ≡ false)
  unfolding handle_failure
  handle_failure-Counted message_id fields exc s h e =
      let attempts = count_attempt redis text_of c message_id in
      let after = after_count redis text_of c message_id fields exc in
      let (n, counted, e') = bind-ok attempts after s (h, false) e in
      let (more, failed, same) = after_count-pending message_id fields exc n (attempts s).1 h e' in
      (
        rw (bind-ran attempts after s n counted)
            (rw same (count_attempt-Counted message_id s n counted more)),
        failed,
      )

  -- From `s`, where the handler of the message's event was called, to `s'`: it raised, and after that
  -- the attempt was counted with a retry left.
  abbrev pub IsToRetry : String → EventEnvelope J → S → S → Type 0
  IsToRetry message_id envelope s s' =
      (handler : Handler J S) × (resolve_handler c.handlers envelope.event_type ≡ some handler)
      × ((exc : Exn) × ((handler envelope s).0 ≡ raised exc))
      × Counted c.retry_state message_id (handler envelope s).1 s'

  after_handler-Counted :
      (message_id : String) (fields : Dict String) (envelope : EventEnvelope J)
      (r : Result (Unit {0})) (s : S) (h : Bool)
      → (after_handler redis text_of c message_id fields envelope r s).0 ≡ ok (h, false)
      → ((exc : Exn) × (r ≡ raised exc))
        × Counted c.retry_state message_id s
            (after_handler redis text_of c message_id fields envelope r s).1
        × (h ≡ false)
  unfolding after_handler
  after_handler-Counted message_id fields envelope (ok x) s h e =
      absurd (ground (arith, settle_success-acked message_id envelope s (h, false) e))
  after_handler-Counted message_id fields envelope (raised cancelled) s h e =
      absurd (ground (arith, e))
  after_handler-Counted message_id fields envelope (raised exc) s h e =
      let (left, failed) = handle_failure-Counted message_id fields exc s h e in
      ((exc, refl), left, failed)

  after_resolve-IsToRetry :
      (message_id : String) (fields : Dict String) (envelope : EventEnvelope J)
      (found : Option (Handler J S)) (s : S) (h : Bool)
      → resolve_handler c.handlers envelope.event_type ≡ found
      → (after_resolve redis text_of c message_id fields envelope found s).0 ≡ ok (h, false)
      → IsToRetry message_id envelope s
          (after_resolve redis text_of c message_id fields envelope found s).1
        × (h ≡ false)
  unfolding after_resolve run_handler
  after_resolve-IsToRetry message_id fields envelope none s h q e = absurd (ground (arith, e))
  after_resolve-IsToRetry message_id fields envelope (some handler) s h q e =
      let (bad, left, failed) =
        after_handler-Counted message_id fields envelope (handler envelope s).0
          (handler envelope s).1 h e in
      ((handler, q, bad, left), failed)

  after_lookup-IsToRetry :
      (message_id : String) (fields : Dict String) (envelope : EventEnvelope J) (duplicate : Bool)
      (s : S) (h : Bool)
      → (after_lookup redis text_of c message_id fields envelope duplicate s).0 ≡ ok (h, false)
      → (duplicate ≡ false)
        × IsToRetry message_id envelope s
            (after_lookup redis text_of c message_id fields envelope duplicate s).1
        × (h ≡ false)
  unfolding after_lookup
  after_lookup-IsToRetry message_id fields envelope true s h e = absurd (ground (arith, e))
  after_lookup-IsToRetry message_id fields envelope false s h e =
      let (retry, failed) =
        after_resolve-IsToRetry message_id fields envelope
          (resolve_handler c.handlers envelope.event_type) s h refl e in
      (refl, retry, failed)

  abbrev pub IsPending : Option (EventEnvelope J) → String → S → S → Type 0
  IsPending parsed message_id s s' =
      (envelope : EventEnvelope J) × (parsed ≡ some envelope)
      × ((called : S) × Unseen c.idempotency envelope s called
          × IsToRetry message_id envelope called s')

  after_parse-IsPending :
      (message_id : String) (fields : Dict String) (parsed : Option (EventEnvelope J)) (s : S)
      (h : Bool)
      → (after_parse redis text_of c message_id fields parsed s).0 ≡ ok (h, false)
      → IsPending parsed message_id s (after_parse redis text_of c message_id fields parsed s).1
        × (h ≡ false)
  unfolding after_parse process_envelope
  after_parse-IsPending message_id fields none s h e = absurd (
      ground (
        arith,
        ends (dead_letter redis text_of c message_id fields "Malformed message") (true, true)
            (h, false) s e,
      ))
  after_parse-IsPending message_id fields (some envelope) s h e =
      let duplicate = is_duplicate redis text_of c envelope in
      let after = after_lookup redis text_of c message_id fields envelope in
      let (d, asked, e') = bind-ok duplicate after s (h, false) e in
      let (new, retry, failed) =
        after_lookup-IsToRetry message_id fields envelope d (duplicate s).1 h e' in
      (
        (
          envelope,
          refl,
          (
            (duplicate s).1,
            is_duplicate-Unseen envelope s (rw new at asked),
            rw (bind-ran duplicate after s d asked) retry,
          ),
        ),
        failed,
      )

  -- Whatever Redis, the handlers and the idempotency checker do: in a run that leaves its message
  -- unacknowledged, the message could be parsed, the checker did not know the event, the event has a
  -- handler, which was called next and raised, and the attempt was then counted below the allowed
  -- number, which was the last thing that the run did; the answer says that the handler failed.
  pub process_message-IsPending :
      (parse : String → Dict String → Option (EventEnvelope J)) (message_id : String)
      (fields : Dict String) (s : S) (h : Bool)
      → (process_message redis text_of c parse message_id fields s).0 ≡ ok (h, false)
      → IsPending
          (parse message_id fields)
          message_id
          s
          (process_message redis text_of c parse message_id fields s).1
        × (h ≡ false)
  unfolding process_message
  process_message-IsPending parse message_id fields s h e =
      after_parse-IsPending message_id fields (parse message_id fields) s h e
