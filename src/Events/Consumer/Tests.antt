-- ===== src/Events/Consumer/Tests.antt =====
-- The consumer on a small store: one counter, the sizes of the dead-letter stream and of the
-- acknowledged set, and whether the consumer "me" is registered.
use tr_shared_lib.Base.{
  ℕ, ◌+◌, ◌≡◌, ◌≢◌, refl, sym, String, Option, none, some, Bool, true, false, ◌||◌, List, [], ◌∷◌,
  ap, str_eq, if◌then◌else◌, arith, eq_iff,
}
use mathlib.Core.List.{Memᴰ}
use tr_shared_lib.Base.Dict.{Dict, lookup}
use tr_shared_lib.Base.Effect.{Exn, cancelled, other, ok, raised}
use tr_shared_lib.Events.Consumer.{
  EventConsumer, Handler, pending, resolve_wildcard, resolve_handler, count_attempt, after_count,
  handle_failure, after_handler, after_resolve, after_parse, after_lookup, is_duplicate,
  run_handler, process_envelope, process_message,
}
use tr_shared_lib.Events.Consumer.Duplicates.{process_message-mark_all}
use tr_shared_lib.Events.Consumer.Loops.{
  ConsumerInfo, GroupRedis, reply, Timing, sweep_zombie_consumers, read_and_process, after_round,
  consume_round, consume_rounds, consume_loop,
}
use tr_shared_lib.Events.Consumer.Outcomes.{IsPending, process_message-IsPending}
use tr_shared_lib.Events.Consumer.Retries.{Counts, retried, deliveries, deliveries-retried}
use tr_shared_lib.Events.Consumer.Sweep.{IsZombie, sweep_keeps}
use tr_shared_lib.Events.Envelope.{EventEnvelope, from_flat}
use tr_shared_lib.Events.Idempotency.{ProcessedRedis, Checked, new, in_memory, mark_processed}
use tr_shared_lib.Events.Idempotency.Memory.{mark_all}
use tr_shared_lib.Events.RetryState.{StreamRedis, new_store, new_handler, increment}

record Store : Type 0 where
  attempts : ℕ
  dead : ℕ
  acked : ℕ
  registered : Bool

abbrev empty : Store
empty = record { attempts = 0; dead = 0; acked = 0; registered = true }

abbrev small_redis : StreamRedis Store
small_redis = record {
  has_client = λ s. true;
  hincrby = λ _ _ n s. (ok (s.attempts + n), record s { attempts = s.attempts + n });
  expire = λ _ _ s. (ok tt, s);
  hget = λ _ _ s. (ok (some s.attempts), s);
  hdel = λ _ _ s. (ok tt, record s { attempts = 0 });
  xadd = λ _ _ _ s. (ok tt, record s { dead = s.dead + 1 });
  xack = λ _ _ _ s. (ok tt, record s { acked = s.acked + 1 });
  now = λ s. (ok "0", s);
  dumps = λ _. "{}";
}

abbrev fields : Dict String
fields = ("event_id", "e1") ∷ ("event_type", "lead.created") ∷ []

abbrev parse : String → Dict String → Option (EventEnvelope ℕ)
parse = from_flat (λ _. some 0)

abbrev envelope : EventEnvelope ℕ
envelope = record {
  event_id = "e1";
  event_type = "lead.created";
  version = "1.0";
  tenant_id = "";
  timestamp = "";
  source_service = "";
  actor_id = none;
  payload = 0;
  metadata = 0;
  raw_message_id = "1-0";
}

abbrev text_of : Exn → String
text_of e = "failure"

abbrev failing : {S : Type 0} → Handler ℕ S
failing e s = (raised other, s)

abbrev consumer : EventConsumer ℕ Store
consumer = record {
  stream_name = "bus";
  consumer_group = "crm";
  consumer_name = "me";
  retry_policy = record { max_retries = 3; backoff_base = 2; max_backoff = 30 };
  idempotency = none;
  handlers = ("lead.*", failing) ∷ [];
  dlq = some (new_handler "bus" "crm");
  retry_state = some (new_store "bus" "crm");
}

parsed : parse "1-0" fields ≡ some envelope
unfolding from_flat lookup
parsed = refl

resolved : resolve_handler consumer.handlers "lead.created" ≡ some failing
unfolding resolve_handler resolve_wildcard lookup
resolved = refl

first_delivery :
    (process_message small_redis text_of consumer parse "1-0" fields empty).0 ≡ ok pending
unfolding process_message after_parse process_envelope after_lookup is_duplicate after_resolve
    run_handler after_handler handle_failure after_count count_attempt increment resolve_handler
    resolve_wildcard lookup from_flat
first_delivery = refl

process_message-IsPending_example :
    IsPending small_redis text_of consumer
      (parse "1-0" fields)
      "1-0"
      empty
      (process_message small_redis text_of consumer parse "1-0" fields empty).1
    × (false ≡ false)
process_message-IsPending_example =
    process_message-IsPending small_redis text_of consumer parse "1-0" fields empty false
      first_delivery

small_not_cancelled :
    (stream : String) (entry : Dict String) (maxlen : ℕ) (s : Store)
    → (small_redis.xadd stream entry maxlen s).0 ≢ raised cancelled
small_not_cancelled stream entry maxlen s h = ground (arith, h)

abbrev counts : Counts small_redis (new_store "bus" "crm").key "1-0"
counts = record {
  count = λ s. s.attempts;
  counted = λ s. (record s { attempts = s.attempts + 1 }, refl, refl);
  expires = λ _ s. (s, refl, refl);
  deleted = λ s. refl;
  clock = λ s. ("0", refl);
  not_cancelled = small_not_cancelled;
}

deliveries-retried_example :
    deliveries small_redis text_of consumer parse "1-0" fields 3 empty ≡ retried 2
deliveries-retried_example =
    deliveries-retried small_redis text_of consumer parse "1-0" fields (new_store "bus" "crm")
      counts envelope failing other parsed resolved refl refl (λ h. ground (arith, h))
      (λ s. (s, refl, refl)) 2 empty refl

abbrev timing : Timing
timing = record {
  batch_size = 10;
  block_ms = 5000;
  claim_min_idle_ms = 30_000;
  claimer_poll_interval = 5;
  claim_count = 1000;
  zombie_idle_ms = 86_400_000;
}

abbrev listed : List ConsumerInfo
listed =
    record { name = "me"; pending = 0; idle = 90_000_000 }
    ∷ record { name = "old"; pending = 0; idle = 90_000_000 }
    ∷ record { name = "busy"; pending = 2; idle = 90_000_000 }
    ∷ []

-- A group whose stream cannot be read and whose pauses are cancelled.
abbrev group : GroupRedis Store
group = record {
  open_client = λ s. (ok tt, s);
  close_client = λ s. (ok tt, s);
  running = λ s. true;
  set_running = λ b s. s;
  xgroup_create = λ _ _ s. (ok (reply tt), s);
  xreadgroup = λ _ _ _ _ _ s. (raised other, s);
  xautoclaim = λ _ _ _ _ _ s. (ok [], s);
  xinfo_consumers = λ _ _ s. (ok (reply listed), s);
  xgroup_delconsumer = λ _ _ name s. (
    ok (reply tt),
    record s {
      registered = if str_eq name "me" || str_eq name "busy" then false else s.registered;
    },
  );
  xpending_range = λ _ _ _ s. (ok [], s);
  spawn_claimer = λ s. (ok tt, s);
  cancel_claimer = λ s. (ok tt, s);
  sleep = λ _ s. (raised cancelled, s);
  open_own = λ s. (ok tt, s);
  close_own = λ s. (ok tt, s);
  is_busygroup = λ _. true;
}

not_busy : (info : ConsumerInfo) → Memᴰ info listed → info.pending ≡ 0 → info.name ≢ "busy"
not_busy info (Memᴰ.head e) h q =
    ground (arith, ap (λ (i : ConsumerInfo). i.name) e, q, eq_iff "busy" "me")
not_busy info (Memᴰ.tail (Memᴰ.head e)) h q =
    ground (arith, ap (λ (i : ConsumerInfo). i.name) e, q, eq_iff "busy" "old")
not_busy info (Memᴰ.tail (Memᴰ.tail (Memᴰ.head e))) h q =
    absurd (ground (arith, ap (λ (i : ConsumerInfo). i.pending) e, h))
not_busy info (Memᴰ.tail (Memᴰ.tail (Memᴰ.tail m))) h q = elim m [ ]

still_registered :
    (infos : List ConsumerInfo) (info : ConsumerInfo) (s : Store)
    → (group.xinfo_consumers "bus" "crm" empty).0 ≡ ok (reply infos)
    → Memᴰ info infos
    → IsZombie group small_redis text_of parse timing consumer info
    → s.registered ≡ true
    → (group.xgroup_delconsumer "bus" "crm" info.name s).1.registered ≡ true
still_registered infos info s e m (_, not_me, idle, _) h =
    let same : listed ≡ infos = ground (arith, e) in
    ground (
      arith,
      not_me,
      not_busy info (rw (sym same) at m) idle,
      h,
      eq_iff info.name "me",
      eq_iff info.name "busy",
    )

-- "old" is removed; "me", and "busy" with its pending entries, are not
sweep_keeps_example :
    (sweep_zombie_consumers group small_redis text_of parse timing consumer empty).1.registered
    ≡ true
sweep_keeps_example =
    sweep_keeps group small_redis text_of parse timing consumer (λ s. s.registered ≡ true) empty
      refl refl still_registered

cancelled_pause :
    (consume_loop group small_redis text_of parse timing consumer 1 empty).0 ≡ raised cancelled
unfolding consume_loop consume_rounds consume_round read_and_process after_round
cancelled_pause = refl

abbrev unreachable : ProcessedRedis ℕ
unreachable = record { exists = λ _ r. (raised other, r); setex = λ _ _ r. (raised other, r) }

abbrev silent : StreamRedis (Checked ℕ)
silent = record {
  has_client = λ s. true;
  hincrby = λ _ _ _ s. (raised other, s);
  expire = λ _ _ s. (raised other, s);
  hget = λ _ _ s. (raised other, s);
  hdel = λ _ _ s. (raised other, s);
  xadd = λ _ _ _ s. (raised other, s);
  xack = λ _ _ _ s. (raised other, s);
  now = λ s. (raised other, s);
  dumps = λ _. "{}";
}

abbrev guarded : EventConsumer ℕ (Checked ℕ)
guarded = record {
  stream_name = "bus";
  consumer_group = "crm";
  consumer_name = "me";
  retry_policy = record { max_retries = 3; backoff_base = 2; max_backoff = 30 };
  idempotency = some (in_memory unreachable);
  handlers = ("lead.*", failing) ∷ [];
  dlq = none;
  retry_state = none;
}

abbrev fresh : Checked ℕ
fresh = record { checker = new true "crm" 7; outside = 0 }

process_message-mark_all_example :
    let s' = mark_all unreachable ("e2" ∷ "e3" ∷ []) (mark_processed unreachable "e1" fresh).1 in
    process_message silent text_of guarded parse "1-0" fields s' ≡ (ok (true, true), s')
unfolding new
process_message-mark_all_example =
    process_message-mark_all silent unreachable text_of guarded parse "1-0" fields envelope
      ("e2" ∷ "e3" ∷ []) fresh refl parsed refl (omega arith)
