-- ===== src/Webhooks/Verifier/Laws.antt =====
-- Which requests the verifiers let pass.
use tr_shared_lib.Base.{
  String, Option, none, some, true, ◌≡◌, ◌≢◌, ◌↔◌, refl, arith, eq_iff, str_eq, Bool-cases, inl,
  inr,
}
use Prim.Native.String.{◌++◌}
use tr_shared_lib.Base.Dict.{Dict, lookup}
use tr_shared_lib.Webhooks.Verifier.{
  HmacVerifier, header, expected_signature, hmac_verify, meta_verify,
}

module _ (hmac_sha256 : String → String → String) where
  -- The header is there, and it is not empty, and it is the digest of the body under the secret: after
  -- "sha256=" where the format asks for that, bare where it does not.
  abbrev pub IsSigned : HmacVerifier → String → Dict String → String → Type 0
  IsSigned v raw_body headers secret =
      (signature : String) × (lookup v.signature_header headers ≡ some signature)
      × (signature ≢ "")
      × (v.signature_format ≡ "sha256={hex}" → signature ≡ "sha256=" ++ hmac_sha256 secret raw_body)
      × (v.signature_format ≢ "sha256={hex}" → signature ≡ hmac_sha256 secret raw_body)

  expected_signature_lem :
      (v : HmacVerifier) (raw_body secret signature : String)
      → (signature ≡ expected_signature hmac_sha256 v raw_body secret) ↔ (
          (v.signature_format ≡ "sha256={hex}"
            → signature ≡ "sha256=" ++ hmac_sha256 secret raw_body)
          × (v.signature_format ≢ "sha256={hex}" → signature ≡ hmac_sha256 secret raw_body))
  unfolding expected_signature
  expected_signature_lem v raw_body secret signature =
      let e = eq_iff v.signature_format "sha256={hex}" in
      elim (Bool-cases (str_eq v.signature_format "sha256={hex}")) [
        | inl prefixed ↦ (
          λ same.
              (λ format. ground (arith, same, prefixed), λ format. absurd (format (e.0 prefixed))),
          λ (with, without). ground (arith, with (e.0 prefixed), prefixed),
        )
        | inr bare ↦ (
          λ same. (
            λ format. absurd (ground (arith, e.1 format, bare)),
            λ format. ground (arith, same, bare),
          ),
          λ (with, without). ground (arith, without (λ f. ground (arith, e.1 f, bare)), bare),
        )
      ]

  hmac_verify_found :
      (v : HmacVerifier) (raw_body : String) (headers : Dict String) (secret : String)
      (found : Option String)
      → lookup v.signature_header headers ≡ found
      → secret ≢ ""
      → (hmac_verify hmac_sha256 v raw_body headers secret ≡ true)
        ↔ IsSigned v raw_body headers secret
  unfolding hmac_verify header
  hmac_verify_found v raw_body headers secret none q h =
      let e = eq_iff secret "" in
      (
        λ accepted. absurd (ground (arith, accepted, q, h, e)),
        λ (signature, held, full, with, bare). absurd (ground (arith, held, q)),
      )
  hmac_verify_found v raw_body headers secret (some signature) q h =
      let expected = expected_signature hmac_sha256 v raw_body secret in
      let (to, from) = expected_signature_lem v raw_body secret signature in
      let e = eq_iff secret "" in
      let e' = eq_iff signature "" in
      let e'' = eq_iff expected signature in
      (
        λ accepted.
            let (with, bare) = to (ground (arith, accepted, q, h, e, e', e'')) in
            (signature, q, (λ empty. ground (arith, accepted, q, h, e, e'.1 empty)), with, bare),
        λ (other, held, full, with, bare).
            let same : other ≡ signature = ground (arith, held, q) in
            let expected_one = from (rw same at with, rw same at bare) in
            ground (arith, expected_one, rw same at full, q, h, e, e', e''),
      )

  -- With a secret, the HMAC verifier accepts exactly the requests whose signature header is not empty
  -- and carries the HMAC-SHA256 of the body under the secret: after "sha256=" where the verifier's
  -- format is "sha256={hex}", and bare otherwise.
  pub hmac_verify_lem :
      (v : HmacVerifier) (raw_body : String) (headers : Dict String) (secret : String)
      → secret ≢ ""
      → (hmac_verify hmac_sha256 v raw_body headers secret ≡ true)
        ↔ IsSigned v raw_body headers secret
  hmac_verify_lem v raw_body headers secret h =
      hmac_verify_found v raw_body headers secret (lookup v.signature_header headers) refl h

  -- The Meta verifier is the HMAC verifier for Meta's header with the prefixed format.
  meta_verify_lem :
      (raw_body : String) (headers : Dict String) (secret : String)
      → meta_verify hmac_sha256 raw_body headers secret
        ≡ hmac_verify hmac_sha256
            (record { signature_header = "x-hub-signature-256"; signature_format = "sha256={hex}" })
            raw_body
            headers
            secret
  unfolding hmac_verify meta_verify expected_signature
  meta_verify_lem raw_body headers secret = refl
