-- ===== src/Webhooks/Endpoint/Checks.antt =====
-- The checks of `receive_webhook`, described apart from its code.
use tr_shared_lib.Base.{
  String, Option, none, some, Bool, true, false, ◌||◌, not, List, [], ◌∷◌, ◌≡◌, ◌≢◌, ◌⊎◌, inl, inr,
  refl, str_eq, eq_iff, if◌then◌else◌, arith,
}
use Prim.Native.String.{◌++◌}
use tr_shared_lib.Base.Effect.{Result, ok, raised, Effect, pure}
use tr_shared_lib.Webhooks.Endpoint.{
  Json, Limiter, Provider, lower_headers, extract_field, limit_by, is_authentic, event_id_of,
  check_duplicate,
}
use tr_shared_lib.Webhooks.Idempotency.{GuardRedis, WebhookIdempotencyGuard, is_duplicate}
use tr_shared_lib.Webhooks.Verifier.{Verify}
use tr_shared_lib.Webhooks.Schemas.{WebhookResult, Request}

module _ {J S : Type 0} (json : Json J) (sha256 : String → String) (lower : String → String)
    (clock : Effect S String) (redis : GuardRedis S) (p : Provider J S) where
  -- Where the provider has a verifier, and a secret or one that the verifier looks up, the verifier
  -- takes the body, the headers and the secret.
  abbrev pub IsAuthentic : Option Verify → Request → Type 0
  IsAuthentic none request = Unit
  IsAuthentic (some verify) request =
      (p.config.secret ≢ "") ⊎ (p.config.dynamic_secret ≡ true)
      → verify request.raw_body (lower_headers lower [] request.headers) p.config.secret ≡ true

  -- The id is the value of the first of the fields that the payload has, or the digest of the body, if
  -- it has none of them or that value is empty.
  abbrev pub IsEventId : List String → Request → J → String → Type 0
  IsEventId [] request payload id = id ≡ "sha256:" ++ sha256 request.raw_body
  IsEventId (name ∷ names) request payload id =
      ((json.get payload name ≡ ok none) × IsEventId names request payload id)
      ⊎ ((value : String) × (json.get payload name ≡ ok (some value))
          × (value ≡ "" → id ≡ "sha256:" ++ sha256 request.raw_body)
          × (value ≢ "" → id ≡ value))

  -- The guard, asked about the id in this state, answered as the status says; with no guard it is
  -- "accepted".
  abbrev pub IsAnswered : Option WebhookIdempotencyGuard → S → WebhookResult → Type 0
  IsAnswered none s w = w.status ≡ "accepted"
  IsAnswered (some guard) s w =
      (dup : Bool) × ((is_duplicate redis guard p.config.name w.event_id
          (some p.config.idempotency_ttl_seconds) s).0
        ≡ ok dup)
      × (w.status ≡ (if dup then "duplicate" else "accepted"))

  -- what the limiter leaves, if there is one
  abbrev pub after_check : Option (Limiter S) → Request → S → S
  after_check none request s = s
  after_check (some limiter) request s =
      (limiter.check (limiter.build_key request.address ("webhook_" ++ p.config.name) "webhook")
        s).1

  pub is_authentic-IsAuthentic :
      (request : Request)
      → is_authentic json sha256 lower clock redis p request ≡ true
      → IsAuthentic p.verifier request
  unfolding is_authentic
  is_authentic-IsAuthentic request = go p.verifier
    where
      go :
          (verifier : Option Verify)
          → (elim verifier as (λ _. Bool) [
            | none ↦ true
            | some verify ↦
                not (not (str_eq p.config.secret "") || p.config.dynamic_secret)
                || verify request.raw_body (lower_headers lower [] request.headers) p.config.secret
          ])
            ≡ true
          → IsAuthentic verifier request
      go none h = tt
      go (some verify) h = λ configured. elim configured [
        | inl secret ↦ ground (arith, h, secret, eq_iff p.config.secret "")
        | inr dynamic ↦ ground (arith, h, dynamic)
      ]

  -- an empty value stands for none
  abbrev or_digest : Request → Result String → Result String
  or_digest request found = elim found [
    | raised e ↦ raised e
    | ok id ↦ ok (if str_eq id "" then "sha256:" ++ sha256 request.raw_body else id)
  ]

  extract_field-IsEventId :
      (names : List String) (request : Request) (payload : J) (id : String)
      → or_digest request (extract_field json payload names) ≡ ok id
      → IsEventId names request payload id
  unfolding extract_field
  extract_field-IsEventId [] request payload id h = ground (arith, h, eq_iff "" "")
  extract_field-IsEventId (name ∷ names) request payload id h =
      go (extract_field-IsEventId names request payload id) (json.get payload name) refl h
    where
      go :
          (rest : or_digest request (extract_field json payload names) ≡ ok id
            → IsEventId names request payload id)
          (got : Result (Option String))
          → json.get payload name ≡ got
          → or_digest request (elim got as (λ _. Result String) [
            | raised e ↦ raised e
            | ok none ↦ extract_field json payload names
            | ok (some value) ↦ ok value
          ])
            ≡ ok id
          → IsEventId (name ∷ names) request payload id
      go rest (raised e) q h' = absurd (ground (arith, h'))
      go rest (ok none) q h' = inl (q, rest h')
      go rest (ok (some value)) q h' = inr (
        value,
        q,
        (λ e. ground (arith, h', e, eq_iff value "")),
        (λ ne. ground (arith, h', ne, eq_iff value "")),
      )

  pub event_id_of-IsEventId :
      (request : Request) (payload : J) (id : String)
      → event_id_of json sha256 lower clock redis p request payload ≡ ok id
      → IsEventId p.config.event_id_fields request payload id
  unfolding event_id_of
  event_id_of-IsEventId request payload id h =
      extract_field-IsEventId p.config.event_id_fields request payload id h

  pub check_duplicate-IsAnswered :
      (s : S) (w : WebhookResult) (dup : Bool)
      → (check_duplicate json sha256 lower clock redis p w.event_id s).0 ≡ ok dup
      → w.status ≡ (if dup then "duplicate" else "accepted")
      → IsAnswered p.guard s w
  unfolding check_duplicate
  check_duplicate-IsAnswered s w dup = go p.guard
    where
      go :
          (guard : Option WebhookIdempotencyGuard)
          → ((elim guard as (λ _. Effect S Bool) [
            | none ↦ pure false
            | some g ↦
                is_duplicate redis g p.config.name w.event_id
                  (some p.config.idempotency_ttl_seconds)
          ])
              s).0
            ≡ ok dup
          → w.status ≡ (if dup then "duplicate" else "accepted")
          → IsAnswered guard s w
      go none h q = ground (arith, h, q)
      go (some g) h q = (dup, h, q)

  pub after_check_lem :
      (limiter : Option (Limiter S)) (request : Request) (s : S)
      → (limit_by json sha256 lower clock redis p limiter request s).1
        ≡ after_check limiter request s
  unfolding limit_by
  after_check_lem none request s = refl
  after_check_lem (some limiter) request s = refl
