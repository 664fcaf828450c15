-- ===== src/Webhooks/Verifier.antt =====
-- src/tr_shared/webhooks/verifier.py and the verifiers of src/tr_shared/webhooks/providers. The hash
-- functions, `str.lower` and `int` are parameters; `constant_time_equals` is equality.
pub mod Laws
use tr_shared_lib.Base.{
  String, Option, none, some, Bool, true, false, ◌||◌, not, str_eq, if◌then◌else◌,
}
use tr_shared_lib.Base.Dict.{Dict, lookup}
use Prim.Native.String.{◌++◌}

-- `verify(raw_body, headers, secret)`
abbrev pub Verify : Type 0
Verify = String → Dict String → String → Bool

pub record HmacVerifier : Type 0 where
  pub signature_header : String
  pub signature_format : String

-- `headers.get(name)`, with an empty value as good as none
unfoldable pub header : String → Dict String → Option String
header name headers = elim (lookup name headers) [
  | none ↦ none
  | some v ↦ if str_eq v "" then none else some v
]

-- `__init__` of the two HMAC verifiers
unfoldable pub new_hmac : (String → String) → String → String → HmacVerifier
new_hmac lower signature_header signature_format = record {
  signature_header = lower signature_header;
  signature_format = signature_format;
}

abbrev pub property_finder : (String → String) → HmacVerifier
property_finder lower = new_hmac lower "x-signature" "hex"

module _ (hmac_sha256 : String → String → String) where
  unfoldable pub expected_signature : HmacVerifier → String → String → String
  expected_signature v raw_body secret =
      let digest = hmac_sha256 secret raw_body in
      if str_eq v.signature_format "sha256={hex}" then "sha256=" ++ digest else digest

  -- `HMACVerifier.verify`
  unfoldable pub hmac_verify : HmacVerifier → Verify
  hmac_verify v raw_body headers secret =
      if str_eq secret "" then true else elim (header v.signature_header headers) [
        | none ↦ false
        | some signature ↦ str_eq (expected_signature v raw_body secret) signature
      ]

  -- `MetaWebhookVerifier.verify`
  unfoldable pub meta_verify : Verify
  meta_verify raw_body headers secret =
      if str_eq secret "" then true else elim (header "x-hub-signature-256" headers) [
        | none ↦ false
        | some signature ↦ str_eq ("sha256=" ++ hmac_sha256 secret raw_body) signature
      ]

-- `BayutMD5Verifier.verify`
unfoldable pub bayut_verify : (String → String) → (String → String) → Verify
bayut_verify md5 lower raw_body headers secret =
    if str_eq secret "" then true else elim (header "x-bayut-signature" headers) [
      | none ↦ false
      | some received ↦ str_eq (md5 (secret ++ raw_body)) (lower received)
    ]

-- `MetaWebhookVerifier.handle_handshake`; `int_of` is `int`, `none` where it raises
unfoldable pub handle_handshake :
    {N : Type 0} → (String → Option N) → String → Dict String → Option N
unfolding lookup
handle_handshake int_of verify_token query_params = elim (lookup "hub.mode" query_params) [
  | none ↦ none
  | some mode ↦
      if not (str_eq mode "subscribe")
      then none
      else elim (lookup "hub.verify_token" query_params) [
        | none ↦ none
        | some token ↦
            if str_eq verify_token "" || not (str_eq token verify_token)
            then none
            else elim (header "hub.challenge" query_params) [
              | none ↦ none
              | some challenge ↦ int_of challenge
            ]
      ]
]
