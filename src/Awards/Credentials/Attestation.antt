-- ===== src/Awards/Credentials/Attestation.antt =====
-- spikes/internal-invocation-awards/src/credentials.mjs: the attestation of the principal that
-- initiates an Invocation.
use skill_asset_protocol.Base.{
  ℕ, List, [], ◌∷◌, ◌++◌, Bool, not, ◌&&◌, JsString, js, text_eq, includes, ltb, leb, ◌==◌, Result,
  ok, ◌>>=◌, ◌>>◌, fail_if, decimal, Dictionary,
}
use skill_asset_protocol.Kernel.Patterns.{hash_pattern}
use skill_asset_protocol.Kernel.Platform.{Platform}
use skill_asset_protocol.Awards.Errors.{
  AwardError, Calendar, hash_format, nonce_format, safe_integer, attestation_version,
  attestation_window, attestation_signer, attestation_principal, attestation_binding,
  attestation_not_valid, attestation_expired, attestation_quote,
}
use skill_asset_protocol.Awards.Schema.{
  parse_utc, require_strings, json_object, Policy, policy_hash,
}
use skill_asset_protocol.Awards.Quote.{Quote}
use skill_asset_protocol.Awards.Keys.{
  Crypto, trusted_signer_key, decode_signature, require_signature, nonce_pattern,
}

pub record PrincipalPayload : Type 0 where
  pub schema_version : ℕ
  pub attestation_id : JsString
  pub identity_signer_id : JsString
  pub principal_id : JsString
  pub invocation_id : JsString
  pub idempotency_key : JsString
  pub skill_id : JsString
  pub skill_version_hash : JsString
  pub creator_id : JsString
  pub wielder_id : JsString
  pub beneficiary_id : JsString
  pub policy_id : JsString
  pub policy_version : ℕ
  pub policy_hash : JsString
  pub nonce : JsString
  pub issued_at : JsString
  pub expires_at : JsString

pub record PrincipalAttestation : Type 0 where
  pub payload : PrincipalPayload
  pub signature : JsString

unfoldable pub validate_principal_attestation_payload :
    Calendar → PrincipalPayload → Result AwardError PrincipalPayload
validate_principal_attestation_payload calendar x = do
  fail_if (not (x.schema_version == 1)) attestation_version
  require_strings (
      x.attestation_id ∷ x.identity_signer_id ∷ x.principal_id ∷ x.invocation_id ∷ x.idempotency_key
      ∷ x.skill_id ∷ x.creator_id ∷ x.wielder_id ∷ x.beneficiary_id ∷ x.policy_id ∷ [])
  fail_if (not (hash_pattern x.skill_version_hash)) hash_format
  fail_if (not (hash_pattern x.policy_hash)) hash_format
  fail_if (ltb x.policy_version 1) safe_integer
  fail_if (not (nonce_pattern x.nonce)) nonce_format
  issued_at ← parse_utc calendar x.issued_at
  expires_at ← parse_utc calendar x.expires_at
  fail_if (leb expires_at issued_at) attestation_window
  ok x

-- The twelve fields that a quote fixes.
unfoldable pub matches_quote : PrincipalPayload → Quote → Bool
matches_quote x quote =
    text_eq x.attestation_id quote.principal_attestation_id
    && text_eq x.principal_id quote.initiating_principal_id
    && text_eq x.invocation_id quote.invocation_id
    && text_eq x.idempotency_key quote.idempotency_key
    && text_eq x.skill_id quote.skill_id
    && text_eq x.skill_version_hash quote.skill_version_hash
    && text_eq x.creator_id quote.creator_id
    && text_eq x.wielder_id quote.wielder_id
    && text_eq x.beneficiary_id quote.beneficiary_id
    && text_eq x.policy_id quote.policy_id
    && x.policy_version == quote.policy_version
    && text_eq x.policy_hash quote.policy_hash

module _ (p : Platform) where
  unfoldable pub principal_members : PrincipalPayload → List (JsString × JsString)
  principal_members x =
      (js "schemaVersion", decimal x.schema_version)
      ∷ (js "attestationId", p.json_string x.attestation_id)
      ∷ (js "identitySignerId", p.json_string x.identity_signer_id)
      ∷ (js "principalId", p.json_string x.principal_id)
      ∷ (js "invocationId", p.json_string x.invocation_id)
      ∷ (js "idempotencyKey", p.json_string x.idempotency_key)
      ∷ (js "skillId", p.json_string x.skill_id)
      ∷ (js "skillVersionHash", p.json_string x.skill_version_hash)
      ∷ (js "creatorId", p.json_string x.creator_id)
      ∷ (js "wielderId", p.json_string x.wielder_id)
      ∷ (js "beneficiaryId", p.json_string x.beneficiary_id)
      ∷ (js "policyId", p.json_string x.policy_id)
      ∷ (js "policyVersion", decimal x.policy_version)
      ∷ (js "policyHash", p.json_string x.policy_hash)
      ∷ (js "nonce", p.json_string x.nonce)
      ∷ (js "issuedAt", p.json_string x.issued_at)
      ∷ (js "expiresAt", p.json_string x.expires_at)
      ∷ []

  unfoldable pub canonical_principal_attestation_bytes :
      Calendar → PrincipalPayload → Result AwardError JsString
  canonical_principal_attestation_bytes calendar x = do
    validated ← validate_principal_attestation_payload calendar x
    ok (json_object p (principal_members validated))

  unfoldable pub principal_attestation_hash :
      Crypto → Calendar → PrincipalAttestation → Result AwardError JsString
  principal_attestation_hash c calendar signed = do
    x ← validate_principal_attestation_payload calendar signed.payload
    _ ← decode_signature c signed.signature
    ok (
        p.sha256 (
          json_object p
            (principal_members x ++ (js "signature", p.json_string signed.signature) ∷ [])))

  -- The signer, the principal and the bindings; its result is the key of the signer.
  unfoldable pub require_principal :
      Crypto → PrincipalPayload → Policy → Quote → Dictionary JsString → Result AwardError JsString
  require_principal c x policy quote identity_signers = do
    fail_if (not (includes x.identity_signer_id policy.permitted_identity_signer_ids))
        attestation_signer
    key ← trusted_signer_key c identity_signers x.identity_signer_id
    fail_if (not (includes x.principal_id policy.permitted_initiating_principal_ids))
        attestation_principal
    fail_if (not (matches_quote x quote)) attestation_binding
    fail_if (not (text_eq x.policy_hash (policy_hash p policy))) attestation_binding
    ok key

  unfoldable pub verify_principal_attestation :
      Crypto
      → Calendar
      → PrincipalAttestation
      → Policy
      → Quote
      → Dictionary JsString
      → JsString
      → Result AwardError PrincipalPayload
  verify_principal_attestation c calendar signed policy quote identity_signers now = do
    payload ← validate_principal_attestation_payload calendar signed.payload
    key ← require_principal c payload policy quote identity_signers
    at ← parse_utc calendar now
    issued_at ← parse_utc calendar payload.issued_at
    fail_if (ltb at issued_at) attestation_not_valid
    expires_at ← parse_utc calendar payload.expires_at
    fail_if (leb expires_at at) attestation_expired
    quote_expires_at ← parse_utc calendar quote.expires_at
    fail_if (ltb quote_expires_at expires_at) attestation_quote
    bytes ← canonical_principal_attestation_bytes calendar payload
    signature ← decode_signature c signed.signature
    require_signature c bytes key signature
    ok payload
