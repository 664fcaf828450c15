-- ===== src/Events/Outbox/Tests.antt =====
-- The drainer on a table of two rows.
use tr_shared_lib.Base.{ℕ, ◌≡◌, refl, String, none, false, [], ◌∷◌, length}
use tr_shared_lib.Base.Effect.{other, value_error, Result, ok, raised}
use tr_shared_lib.Events.Outbox.{
  Row, RowValue, decoded, encoded, Drain, Database, Counts, postponed, outside, execute, postpone,
  after_failure, publish_row, after_publish, drain_row, drain_rows, drain_outbox, select, decode,
  decode_metadata, is_due, due, insert_row, order, count,
}
use tr_shared_lib.Events.Outbox.Rows.{
  total, Settled, Happened, sent, drain_outbox-total, drain_row-Settled,
}

abbrev row : String → RowValue ℕ → Row ℕ
row id value = record {
  id = id;
  event_type = "lead.created";
  tenant_id = "t1";
  actor_id = none;
  row_data = value;
  row_metadata = decoded 0;
  retry_count = 0;
  next_retry_at = 5;
  is_published = false;
  dead_letter = false;
  last_error = "";
}

-- a producer that takes every event, or none
abbrev drain : Result (Unit {0}) → Drain ℕ ℕ
drain answer = record {
  publish = λ _ s. (answer, s);
  transaction = λ s. (ok tt, s);
  on_dead_letter = λ _ s. (ok tt, s);
  loads = λ _. none;
  correlation_id = λ _. none;
  clock = λ s. s;
  text_of = λ _. "failure";
  cut = λ text. text;
  policy = record { max_retries = 3; backoff_base = 2; max_backoff = 30 };
  batch_size = 100;
}

abbrev table : Database ℕ ℕ
table = record { rows = row "a" (decoded 1) ∷ row "b" (decoded 2) ∷ []; outside = 10 }

abbrev both : Counts
both = record { published = 2; retried = 0; dead_lettered = 0 }

two_published : (drain_outbox (drain (ok tt)) table).0 ≡ ok both
unfolding drain_outbox select due is_due order insert_row drain_rows drain_row decode
    decode_metadata publish_row execute after_publish count
two_published = refl

drain_outbox-total_example :
    let s' = (outside (drain (ok tt)) (drain (ok tt)).transaction table).1 in
    total both ≡ length (select (drain (ok tt)) 10 s'.rows)
drain_outbox-total_example = drain_outbox-total (drain (ok tt)) table both two_published

one_postponed :
    (drain_row (drain (raised other)) (row "a" (decoded 1)) (ok 1) (ok 0) table).0 ≡ ok postponed
unfolding drain_row publish_row after_publish after_failure postpone execute
one_postponed = refl

drain_row-Settled_example :
    Happened
      (drain (raised other))
      postponed
      (sent (drain (raised other)) (row "a" (decoded 1)) 1 0 10)
    × Settled
        (drain (raised other))
        (row "a" (decoded 1))
        postponed
        table.rows
        (drain_row (drain (raised other)) (row "a" (decoded 1)) (ok 1) (ok 0) table).1.rows
drain_row-Settled_example =
    drain_row-Settled (drain (raised other)) (row "a" (decoded 1)) 1 0 table postponed one_postponed

-- A row whose text is no JSON ends the drain, with the row behind it left as it was.
poison_row :
    drain_outbox
      (drain (ok tt))
      (record { rows = row "a" (encoded "{") ∷ row "b" (decoded 2) ∷ []; outside = 10 })
    ≡ (
      raised value_error,
      record { rows = row "a" (encoded "{") ∷ row "b" (decoded 2) ∷ []; outside = 10 },
    )
unfolding drain_outbox select due is_due order insert_row drain_rows drain_row decode
    decode_metadata
poison_row = refl
