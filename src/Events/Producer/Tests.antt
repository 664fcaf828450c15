-- ===== src/Events/Producer/Tests.antt =====
-- One event through the producer's envelope, with texts for JSON values.
use tr_shared_lib.Base.{ℕ, String, none, some, true, false, ◌≡◌, refl}
use tr_shared_lib.Base.Effect.{ok, value_error, raised}
use tr_shared_lib.Events.Envelope.{from_flat}
use tr_shared_lib.Events.Producer.{
  JsonObjects, Bus, EventProducer, Outgoing, envelope_fields, is_complete, publish,
}
use tr_shared_lib.Events.Producer.RoundTrip.{from_flat-envelope_fields}

abbrev texts : JsonObjects String
texts = record {
  dumps = λ j. j;
  size = λ text. 5;
  has_field = λ name j. false;
  empty = "{}";
  with_correlation_id = λ id j. id;
}

abbrev bus : Bus ℕ
bus = record {
  uuid = λ s. (ok "e1", s);
  now = λ s. (ok "noon", s);
  xadd = λ stream fields maxlen s. (ok tt, s);
}

abbrev producer : EventProducer
producer = record {
  has_redis = true;
  stream_name = "tr_event_bus";
  source_service = "crm";
  maxlen = 100_000;
  max_data_bytes = 1_048_576;
}

abbrev outgoing : Outgoing String
outgoing = record {
  event_type = "lead.created";
  tenant_id = "t1";
  content = "data";
  actor_id = none;
  metadata = none;
  correlation_id = some "c1";
  strict_mode = true;
}

from_flat-envelope_fields_example :
    from_flat some "1-0" (envelope_fields texts bus producer outgoing "e1" "noon")
    ≡ some (record {
      event_id = "e1";
      event_type = "lead.created";
      version = "1.0";
      tenant_id = "t1";
      timestamp = "noon";
      source_service = "crm";
      actor_id = none;
      payload = "data";
      metadata = "c1";
      raw_message_id = "1-0";
    })
from_flat-envelope_fields_example =
    from_flat-envelope_fields texts bus producer some outgoing "e1" "noon" "1-0" (λ j. refl)

-- strict mode refuses an event without the three fields
strict_refusal : publish texts bus producer outgoing 0 ≡ (raised value_error, 0)
unfolding publish is_complete
strict_refusal = refl
