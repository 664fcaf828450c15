-- ===== src/Events/Producer/RoundTrip.antt =====
-- The consumer reads what the producer wrote.
use tr_shared_lib.Base.{String, Option, none, some, ◌≡◌, refl, sym, str_eq, if◌then◌else◌, arith}
use tr_shared_lib.Base.Dict.{lookup}
use tr_shared_lib.Events.Envelope.{from_flat}
use tr_shared_lib.Events.Producer.{
  JsonObjects, Bus, EventProducer, Outgoing, base_metadata, event_metadata, actor_text,
  envelope_fields,
}

-- What counts as given: an empty text does not.
abbrev pub given : Option String → Option String
given none = none
given (some text) = if str_eq text "" then none else some text

-- The metadata of the caller, or the empty object, with the correlation id that is given, if any.
abbrev pub expected_metadata : {J : Type 0} → JsonObjects J → Option J → Option String → J
expected_metadata json (some metadata) none = metadata
expected_metadata json none none = json.empty
expected_metadata json (some metadata) (some id) = json.with_correlation_id id metadata
expected_metadata json none (some id) = json.with_correlation_id id json.empty

module _ {J S : Type 0} (json : JsonObjects J) (bus : Bus S) (p : EventProducer)
    (loads : String → Option J) where
  actor_text_lem :
      (actor : Option String)
      → (if str_eq (actor_text json bus p actor) ""
          then none
          else some (actor_text json bus p actor))
        ≡ given actor
  unfolding actor_text
  actor_text_lem none = refl
  actor_text_lem (some id) = refl

  event_metadata_lem :
      (o : Outgoing J)
      → event_metadata json bus p o ≡ expected_metadata json o.metadata (given o.correlation_id)
  unfolding event_metadata base_metadata
  event_metadata_lem o = go o.metadata o.correlation_id refl refl
    where
      go :
          (metadata : Option J) (id : Option String)
          → o.metadata ≡ metadata
          → o.correlation_id ≡ id
          → event_metadata json bus p o ≡ expected_metadata json metadata (given id)
      go none none e q = ground (arith, e, q)
      go (some m) none e q = ground (arith, e, q)
      go none (some id) e q = ground (arith, e, q)
      go (some m) (some id) e q = ground (arith, e, q)

  -- If `json.loads` undoes `json.dumps`, the flat format reads the envelope that `publish` writes as
  -- the event that was published: its identifier, type, tenant, time and source, its data, the caller's
  -- metadata, or the empty object, with the correlation id where one is given, and the actor, an empty
  -- one being none.
  pub from_flat-envelope_fields :
      (o : Outgoing J) (event_id timestamp message_id : String)
      → ((j : J) → loads (json.dumps j) ≡ some j)
      → from_flat loads message_id (envelope_fields json bus p o event_id timestamp)
        ≡ some (record {
          event_id = event_id;
          event_type = o.event_type;
          version = "1.0";
          tenant_id = o.tenant_id;
          timestamp = timestamp;
          source_service = p.source_service;
          actor_id = given o.actor_id;
          payload = o.content;
          metadata = expected_metadata json o.metadata (given o.correlation_id);
          raw_message_id = message_id;
        })
  unfolding from_flat envelope_fields lookup
  from_flat-envelope_fields o event_id timestamp message_id h = ground (
    arith,
    h o.content,
    h (event_metadata json bus p o),
    sym (actor_text_lem o.actor_id),
    sym (event_metadata_lem o),
  )
