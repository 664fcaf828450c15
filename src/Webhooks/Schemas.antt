-- ===== src/Webhooks/Schemas.antt =====
-- src/tr_shared/webhooks/schemas.py, with the data classes of the request and the response that the
-- endpoint reads and builds. A payload is a value of `J`.
use tr_shared_lib.Base.{ℕ, String, Option, Bool, List}
use tr_shared_lib.Base.Dict.{Dict}

pub record WebhookEvent (J : Type 0) : Type 0 where
  pub provider : String
  pub event_id : String
  pub event_type : String
  pub raw_body : String
  pub payload : J
  pub headers : Dict String
  pub tenant_id : Option String
  pub correlation_id : Option String
  pub received_at : String
  pub ip_address : String

pub record ProviderConfig : Type 0 where
  pub name : String
  pub secret : String
  pub signature_header : String
  pub signature_format : String
  pub event_id_fields : List String
  pub event_type_fields : List String
  pub idempotency_ttl_seconds : ℕ
  pub dynamic_secret : Bool

pub record WebhookResult : Type 0 where
  pub status : String
  pub event_id : String
  pub message : String

-- The body of a response: an error envelope (its message and code) or a result.
pub data Body : Type 0 where
  error_envelope : String → String → Option String → Body
  webhook_result : WebhookResult → Body

pub record Response : Type 0 where
  pub status_code : ℕ
  pub content : Body
  pub headers : Dict String

-- What the endpoint reads of a request; `address` is what `client_ip` finds.
pub record Request : Type 0 where
  pub raw_body : String
  pub headers : Dict String
  pub address : String
