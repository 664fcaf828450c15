-- ===== src/Middleware/CorrelationId.antt =====
-- src/tr_shared/middleware/correlation_id.py with `is_valid_correlation_id` of
-- src/tr_shared/contracts/headers.py. Starlette's headers are a parameter; an application is the
-- messages that it sends, in their order, and how it ends, as a function of its scope.
mod Tests
use tr_shared_lib.Base.{
  ℕ, Option, none, some, Bool, true, false, ◌&&◌, ◌||◌, not, List, [], ◌∷◌, ◌≡◌, refl, leb, ◌==◌,
  length, if◌then◌else◌, arith,
}
use tr_shared_lib.Base.Text.{Text, codes}
use tr_shared_lib.Base.Effect.{Exn}

-- `Headers.get` of X-Correlation-ID, the assignment to it, and the headers of a message with none
pub record HeaderOps (H : Type 0) : Type 0 where
  pub get : H → Option Text
  pub assign : Text → H → H
  pub empty : H

pub record Scope (H : Type 0) : Type 0 where
  pub is_http : Bool
  pub headers : H
  -- `scope["state"]["correlation_id"]`
  pub correlation_id : Option Text

-- an ASGI message: the start of a response with its headers, where it has any, or another one
pub data Message (H : Type 0) : Type 0 where
  response_start : ℕ → Option H → Message H
  another : Text → Message H

unfoldable pub is_id_character : ℕ → Bool
is_id_character c =
    (leb 65 c && leb c 90) || (leb 97 c && leb c 122) || (leb 48 c && leb c 57) || c == 45

unfoldable pub matches : Text → Bool
matches [] = true
matches (c ∷ cs) = is_id_character c && matches cs

unfoldable pub is_valid_correlation_id : Text → Bool
is_valid_correlation_id value = leb 1 (length value) && leb (length value) 64 && matches value

-- the truth value of a text, or of none
unfoldable pub given : Option Text → Bool
given none = false
given (some []) = false
given (some (c ∷ cs)) = true

-- `fresh` is what `str(uuid.uuid4())` gives
unfoldable pub choose : Option Text → Text → Text
choose none fresh = fresh
choose (some incoming) fresh =
    if given (some incoming) && is_valid_correlation_id incoming then incoming else fresh

module _ {H : Type 0} (ops : HeaderOps H) where
  -- `message.setdefault("headers", [])`
  unfoldable pub headers_of : Option H → H
  headers_of none = ops.empty
  headers_of (some headers) = headers

  -- `send_with_correlation_id`
  unfoldable pub send_with_correlation_id : Text → Message H → Message H
  send_with_correlation_id id (response_start status headers) =
      response_start status (some (ops.assign id (headers_of headers)))
  send_with_correlation_id id (another kind) = another kind

  unfoldable pub send_all : Text → List (Message H) → List (Message H)
  send_all id [] = []
  send_all id (message ∷ messages) = send_with_correlation_id id message ∷ send_all id messages

  unfoldable pub scope_id : Scope H → Text → Text
  scope_id scope fresh = choose (ops.get scope.headers) fresh

  -- what the middleware sends, and how it ends
  unfoldable pub call :
      (Scope H → List (Message H) × Option Exn) → Scope H → Text → List (Message H) × Option Exn
  call app scope fresh =
      let id = scope_id scope fresh in
      let inner = app (record scope { correlation_id = some id }) in
      if scope.is_http then (send_all id inner.0, inner.1) else app scope

  -- what is sent for a message of the application: a start of a response has its status and this
  -- id, another message is the same
  abbrev pub Carries : Text → Message H → Message H → Type 0
  Carries id (response_start status headers) (response_start sent (some carried)) =
      (sent ≡ status) × (ops.get carried ≡ some id)
  Carries id (response_start status headers) (response_start sent none) = ⊥
  Carries id (response_start status headers) (another kind) = ⊥
  Carries id (another kind) (response_start sent carried) = ⊥
  Carries id (another kind) (another sent) = sent ≡ kind

  abbrev pub AllCarry : Text → List (Message H) → List (Message H) → Type 0
  AllCarry id [] [] = Unit
  AllCarry id [] (sent ∷ rest) = ⊥
  AllCarry id (message ∷ messages) [] = ⊥
  AllCarry id (message ∷ messages) (sent ∷ rest) =
      Carries id message sent × AllCarry id messages rest

  choose-valid :
      (incoming : Option Text) (fresh : Text)
      → is_valid_correlation_id fresh ≡ true
      → is_valid_correlation_id (choose incoming fresh) ≡ true
  unfolding choose
  choose-valid none fresh h = h
  choose-valid (some incoming) fresh h = ground (arith, h)

  choose-own :
      (incoming fresh : Text)
      → is_valid_correlation_id incoming ≡ true
      → choose (some incoming) fresh ≡ incoming
  unfolding choose given is_valid_correlation_id
  choose-own [] fresh h = ground (arith, h)
  choose-own (c ∷ cs) fresh h = ground (arith, h)

  send_all-AllCarry :
      (id : Text) (messages : List (Message H))
      → ((value : Text) (headers : H) → ops.get (ops.assign value headers) ≡ some value)
      → AllCarry id messages (send_all id messages)
  unfolding send_all send_with_correlation_id
  send_all-AllCarry id [] assigned = tt
  send_all-AllCarry id (response_start status headers ∷ messages) assigned =
      ((refl, assigned id (headers_of headers)), send_all-AllCarry id messages assigned)
  send_all-AllCarry id (another kind ∷ messages) assigned =
      (refl, send_all-AllCarry id messages assigned)

  call-http :
      (app : Scope H → List (Message H) × Option Exn) (scope : Scope H) (fresh : Text)
      → scope.is_http ≡ true
      → (let id = scope_id scope fresh in
          let inner = app (record scope { correlation_id = some id }) in
          call app scope fresh ≡ (send_all id inner.0, inner.1))
  unfolding call
  call-http app scope fresh h = ground (arith, h)

  -- Where an assigned header is read back and a fresh identifier is valid: on an HTTP request there is
  -- one valid correlation id, the caller's own if that is valid, which the application finds in its
  -- scope; its messages are sent in their order, each start of a response with its status and this id,
  -- every other message as it is, and the call ends the way the application does.
  pub call-AllCarry :
      ((value : Text) (headers : H) → ops.get (ops.assign value headers) ≡ some value)
      → (app : Scope H → List (Message H) × Option Exn) (scope : Scope H) (fresh : Text)
      → is_valid_correlation_id fresh ≡ true
      → scope.is_http ≡ true
      → (id : Text) × (is_valid_correlation_id id ≡ true)
        × ((incoming : Text)
            → ops.get scope.headers ≡ some incoming
            → is_valid_correlation_id incoming ≡ true
            → id ≡ incoming)
        × (let inner = app (record scope { correlation_id = some id }) in
            ((call app scope fresh).1 ≡ inner.1) × AllCarry id inner.0 (call app scope fresh).0)
  unfolding scope_id
  call-AllCarry assigned app scope fresh valid http =
      let id = scope_id scope fresh in
      let messages = (app (record scope { correlation_id = some id })).0 in
      (
        id,
        choose-valid (ops.get scope.headers) fresh valid,
        λ incoming got fine. rw got (choose-own incoming fresh fine),
        (
          rw (call-http app scope fresh http) refl,
          rw (call-http app scope fresh http) (send_all-AllCarry id messages assigned),
        ),
      )
