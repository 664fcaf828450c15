-- ===== src/Middleware/CorrelationId/Tests.antt =====
-- A request with a valid id and one with a forged header, on headers that are the id alone.
use tr_shared_lib.Base.{Option, none, some, true, List, [], ◌∷◌, ◌≡◌, refl}
use tr_shared_lib.Base.Text.{Text, codes}
use tr_shared_lib.Base.Effect.{Exn}
use tr_shared_lib.Middleware.CorrelationId.{
  HeaderOps, Scope, Message, response_start, another, is_valid_correlation_id, is_id_character,
  matches, given, choose, headers_of, send_with_correlation_id, send_all, scope_id, call, AllCarry,
  call-AllCarry,
}

abbrev one_header : HeaderOps (Option Text)
one_header = record { get = λ headers. headers; assign = λ value headers. some value; empty = none }

abbrev app : Scope (Option Text) → List (Message (Option Text)) × Option Exn
app scope = (response_start 200 none ∷ another (codes "http.response.body") ∷ [], none)

abbrev request : Text → Scope (Option Text)
request incoming = record { is_http = true; headers = some incoming; correlation_id = none }

-- A line break in the id is replaced by a fresh id.
forged : call one_header app (request (codes "a\nb")) (codes "f-1") ≡ (
  response_start 200 (some (some (codes "f-1"))) ∷ another (codes "http.response.body") ∷ [],
  none,
)
unfolding call scope_id choose given is_valid_correlation_id matches is_id_character send_all
    send_with_correlation_id headers_of
forged = refl

call-AllCarry_example :
    (id : Text) × (is_valid_correlation_id id ≡ true)
    × ((incoming : Text)
        → some (codes "r-7") ≡ some incoming
        → is_valid_correlation_id incoming ≡ true
        → id ≡ incoming)
    × (let inner = app (record (request (codes "r-7")) { correlation_id = some id }) in
        ((call one_header app (request (codes "r-7")) (codes "f-1")).1 ≡ inner.1)
        × AllCarry one_header id inner.0
            (call one_header app (request (codes "r-7")) (codes "f-1")).0)
unfolding is_valid_correlation_id matches is_id_character
call-AllCarry_example =
    call-AllCarry one_header (λ value headers. refl) app (request (codes "r-7")) (codes "f-1") refl
      refl
