-- ===== src/Events/Envelope.antt =====
-- src/tr_shared/events/envelope.py: the flat format, in which the producer writes events. `loads` is
-- `json.loads` into the values `J`, `none` where it raises.
use tr_shared_lib.Base.{String, Option, none, some, str_eq, if◌then◌else◌}
use tr_shared_lib.Base.Dict.{Dict, lookup}

pub record EventEnvelope (J : Type 0) : Type 0 where
  pub event_id : String
  pub event_type : String
  pub version : String
  pub tenant_id : String
  pub timestamp : String
  pub source_service : String
  pub actor_id : Option String
  pub payload : J
  pub metadata : J
  pub raw_message_id : String

-- `fields.get(name, default)`
abbrev pub get_or : Dict String → String → String → String
get_or fields name default = elim (lookup name fields) [ none ↦ default | some v ↦ v ]

-- `value or None`
abbrev or_none : String → Option String
or_none value = if str_eq value "" then none else some value

module _ {J : Type 0} (loads : String → Option J) where
  -- `from_flat`; the field `data` is named `payload` here
  unfoldable pub from_flat : String → Dict String → Option (EventEnvelope J)
  unfolding lookup
  from_flat message_id fields = elim (loads (get_or fields "data" "{}")) [
    | none ↦ none
    | some payload ↦ elim (loads (get_or fields "metadata" "{}")) [
      | none ↦ none
      | some metadata ↦ some (record {
        event_id = get_or fields "event_id" "";
        event_type = get_or fields "event_type" "";
        version = get_or fields "version" "1.0";
        tenant_id = get_or fields "tenant_id" "";
        timestamp = get_or fields "timestamp" "";
        source_service = get_or fields "source_service" "";
        actor_id = or_none (get_or fields "actor_id" "");
        payload = payload;
        metadata = metadata;
        raw_message_id = message_id;
      })
    ]
  ]
