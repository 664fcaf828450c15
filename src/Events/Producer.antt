-- ===== src/Events/Producer.antt =====
-- `EventProducer.publish` of src/tr_shared/events/producer.py. The stream, the clock, the source of
-- identifiers and JSON are parameters; the lazy connection is made wherever there is an address.
pub mod RoundTrip
mod Tests
use tr_shared_lib.Base.{
  ℕ, String, Option, none, some, Bool, true, false, ◌&&◌, ◌||◌, not, List, [], ◌∷◌, ltb, ◌==◌,
  str_eq, if◌then◌else◌,
}
use tr_shared_lib.Base.Dict.{Dict}
use tr_shared_lib.Base.Effect.{
  Exn, redis_error, redis_connection, redis_timeout, os_error, value_error, cancelled, other,
  Result, ok, raised, Effect, pure, raise, ◌>>=◌, ◌>>◌,
}

-- JSON objects `J`: `json.dumps`, the size of its bytes, `field in data`, the empty object, and a copy
-- with "correlation_id" set
pub record JsonObjects (J : Type 0) : Type 0 where
  pub dumps : J → String
  pub size : String → ℕ
  pub has_field : String → J → Bool
  pub empty : J
  pub with_correlation_id : String → J → J

pub record Bus (S : Type 0) : Type 0 where
  pub uuid : Effect S String
  pub now : Effect S String
  pub xadd : String → Dict String → ℕ → Effect S (Unit {0})

pub record EventProducer : Type 0 where
  pub has_redis : Bool
  pub stream_name : String
  pub source_service : String
  pub maxlen : ℕ
  pub max_data_bytes : ℕ

-- the arguments of `publish`
pub record Outgoing (J : Type 0) : Type 0 where
  pub event_type : String
  pub tenant_id : String
  pub content : J
  pub actor_id : Option String
  pub metadata : Option J
  pub correlation_id : Option String
  pub strict_mode : Bool

module _ {J S : Type 0} (json : JsonObjects J) (bus : Bus S) (p : EventProducer) where
  unfoldable pub is_complete : J → Bool
  is_complete content =
      json.has_field "entity_id" content
      && json.has_field "entity_type" content
      && json.has_field "action" content

  -- `self._max_data_bytes` of 0 turns the check off
  unfoldable pub is_too_large : J → Bool
  is_too_large content =
      not (p.max_data_bytes == 0) && ltb p.max_data_bytes (json.size (json.dumps content))

  unfoldable pub base_metadata : Option J → J
  base_metadata none = json.empty
  base_metadata (some metadata) = metadata

  unfoldable pub event_metadata : Outgoing J → J
  event_metadata o = elim o.correlation_id [
    | none ↦ base_metadata o.metadata
    | some id ↦
        if str_eq id ""
        then base_metadata o.metadata
        else json.with_correlation_id id (base_metadata o.metadata)
  ]

  -- `actor_id or ""`
  unfoldable pub actor_text : Option String → String
  actor_text none = ""
  actor_text (some id) = id

  unfoldable pub envelope_fields : Outgoing J → String → String → Dict String
  envelope_fields o event_id timestamp =
      ("event_id", event_id)
      ∷ ("event_type", o.event_type)
      ∷ ("version", "1.0")
      ∷ ("tenant_id", o.tenant_id)
      ∷ ("timestamp", timestamp)
      ∷ ("source_service", p.source_service)
      ∷ ("actor_id", actor_text o.actor_id)
      ∷ ("data", json.dumps o.content)
      ∷ ("metadata", json.dumps (event_metadata o))
      ∷ []

  -- `except RedisError`: `EventPublishTransportError` is raised in its place
  unfoldable pub after_xadd : String → Result (Unit {0}) → Effect S String
  after_xadd event_id (ok x) = pure event_id
  after_xadd event_id (raised redis_error) = raise other
  after_xadd event_id (raised redis_connection) = raise other
  after_xadd event_id (raised redis_timeout) = raise other
  after_xadd event_id (raised os_error) = raise os_error
  after_xadd event_id (raised value_error) = raise value_error
  after_xadd event_id (raised cancelled) = raise cancelled
  after_xadd event_id (raised other) = raise other

  unfoldable pub add_to_stream : String → Dict String → Effect S String
  add_to_stream event_id fields s =
      let (r, s') = bus.xadd p.stream_name fields p.maxlen s in after_xadd event_id r s'

  unfoldable pub send : Outgoing J → Effect S String
  send o = bus.uuid >>= λ event_id. bus.now >>= λ timestamp.
      if p.has_redis
      then add_to_stream event_id (envelope_fields o event_id timestamp)
      else raise other

  unfoldable pub publish : Outgoing J → Effect S String
  publish o =
      if (o.strict_mode && not (is_complete o.content)) || is_too_large o.content
      then raise value_error
      else send o
