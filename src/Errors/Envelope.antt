-- ===== src/Errors/Envelope.antt =====
-- src/tr_shared/schemas/error_envelope.py. `V` is a value of JSON, and `text` that of a text.
use tr_shared_lib.Base.{
  String, Option, none, some, Bool, true, false, ◌&&◌, [], ◌∷◌, leb, if◌then◌else◌,
}
use tr_shared_lib.Base.Dict.{Dict, insert}
use tr_shared_lib.Base.Effect.{Result, ok, raised, value_error, other}
use tr_shared_lib.Base.Text.{Text, codes}
use Prim.Native.String

abbrev pub validation_code : String
validation_code = "VALIDATION_000"

abbrev pub internal_code : String
internal_code = "INTERNAL_000"

module _ {V : Type 0} (text : String → V) where
  unfoldable pub add_text : String → Option String → Dict V → Dict V
  add_text key none inner = inner
  add_text key (some value) inner = insert key (text value) inner

  unfoldable pub add_extra : Dict (Option V) → Dict V → Dict V
  add_extra [] inner = inner
  add_extra ((key, none) ∷ extra) inner = add_extra extra inner
  add_extra ((key, some value) ∷ extra) inner = add_extra extra (insert key value inner)

  -- what stands under "error"
  unfoldable pub build_error_envelope :
      String → Option String → Option String → Dict (Option V) → Dict V
  build_error_envelope message code correlation_id extra = add_extra extra (
      add_text "correlation_id" correlation_id
        (add_text "code" code (("message", text message) ∷ [])))

-- `[A-Z]+`
unfoldable pub is_upper : Text → Bool
is_upper [] = true
is_upper (c ∷ cs) = (leb b'A' c && leb c b'Z') && is_upper cs

unfoldable pub is_code_prefix : Text → Bool
is_code_prefix [] = false
is_code_prefix (c ∷ cs) = is_upper (c ∷ cs)

-- the prefix of the application after the call
unfoldable pub set_error_code_prefix : String → Result String
set_error_code_prefix code_prefix =
    if is_code_prefix (codes code_prefix) then ok code_prefix else raised value_error

-- An application with no prefix raises a `RuntimeError`.
unfoldable pub framework_error_code : Option String → String → Result String
framework_error_code none suffix = raised other
framework_error_code (some code_prefix) suffix =
    ok (String.◌++◌ code_prefix (String.◌++◌ "_" suffix))
