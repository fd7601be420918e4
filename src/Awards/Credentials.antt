-- ===== src/Awards/Credentials.antt =====
-- spikes/internal-invocation-awards/src/credentials.mjs: execution credentials, the attestation of
-- the initiating principal, and the approval of a manager. The functions that sign are tools of the
-- tests and are not modelled.
pub mod Attestation
pub mod Approval
use skill_asset_protocol.Base.{
  ℕ, [], ◌∷◌, not, JsString, js, ltb, leb, ◌==◌, Result, ok, ◌>>=◌, ◌>>◌, fail_if, decimal,
}
use skill_asset_protocol.Kernel.Patterns.{hash_pattern}
use skill_asset_protocol.Kernel.Platform.{Platform}
use skill_asset_protocol.Awards.Errors.{
  AwardError, Calendar, hash_format, nonce_format, safe_integer, credential_version,
  credential_window, credential_not_valid, credential_expired,
}
use skill_asset_protocol.Awards.Schema.{parse_utc, require_strings, json_object}
use skill_asset_protocol.Awards.Keys.{
  Crypto, normalize_public_key, decode_signature, require_signature, nonce_pattern,
}

pub record CredentialPayload : Type 0 where
  pub schema_version : ℕ
  pub credential_authorizer_id : JsString
  pub invocation_id : JsString
  pub reservation_id : JsString
  pub idempotency_key : JsString
  pub skill_id : JsString
  pub skill_version_hash : JsString
  pub creator_id : JsString
  pub wielder_id : JsString
  pub initiating_principal_id : JsString
  pub principal_attestation_id : JsString
  pub principal_attestation_hash : JsString
  pub policy_id : JsString
  pub policy_version : ℕ
  pub policy_hash : JsString
  pub nonce : JsString
  pub issued_at : JsString
  pub expires_at : JsString

pub record Credential : Type 0 where
  pub payload : CredentialPayload
  pub signature : JsString

unfoldable pub validate_credential_payload :
    Calendar → CredentialPayload → Result AwardError CredentialPayload
validate_credential_payload calendar x = do
  fail_if (not (x.schema_version == 1)) credential_version
  require_strings (
      x.credential_authorizer_id ∷ x.invocation_id ∷ x.reservation_id ∷ x.idempotency_key
      ∷ x.skill_id ∷ x.creator_id ∷ x.wielder_id ∷ x.initiating_principal_id
      ∷ x.principal_attestation_id ∷ x.policy_id ∷ [])
  fail_if (not (hash_pattern x.skill_version_hash)) hash_format
  fail_if (ltb x.policy_version 1) safe_integer
  fail_if (not (hash_pattern x.policy_hash)) hash_format
  fail_if (not (hash_pattern x.principal_attestation_hash)) hash_format
  fail_if (not (nonce_pattern x.nonce)) nonce_format
  issued_at ← parse_utc calendar x.issued_at
  expires_at ← parse_utc calendar x.expires_at
  fail_if (leb expires_at issued_at) credential_window
  ok x

module _ (p : Platform) where
  -- `bytes(validated, CREDENTIAL_KEYS)`, as text
  unfoldable pub credential_json : CredentialPayload → JsString
  credential_json x = json_object p (
      (js "schemaVersion", decimal x.schema_version)
      ∷ (js "credentialAuthorizerId", p.json_string x.credential_authorizer_id)
      ∷ (js "invocationId", p.json_string x.invocation_id)
      ∷ (js "reservationId", p.json_string x.reservation_id)
      ∷ (js "idempotencyKey", p.json_string x.idempotency_key)
      ∷ (js "skillId", p.json_string x.skill_id)
      ∷ (js "skillVersionHash", p.json_string x.skill_version_hash)
      ∷ (js "creatorId", p.json_string x.creator_id)
      ∷ (js "wielderId", p.json_string x.wielder_id)
      ∷ (js "initiatingPrincipalId", p.json_string x.initiating_principal_id)
      ∷ (js "principalAttestationId", p.json_string x.principal_attestation_id)
      ∷ (js "principalAttestationHash", p.json_string x.principal_attestation_hash)
      ∷ (js "policyId", p.json_string x.policy_id)
      ∷ (js "policyVersion", decimal x.policy_version)
      ∷ (js "policyHash", p.json_string x.policy_hash)
      ∷ (js "nonce", p.json_string x.nonce)
      ∷ (js "issuedAt", p.json_string x.issued_at)
      ∷ (js "expiresAt", p.json_string x.expires_at)
      ∷ [])

  unfoldable pub canonical_credential_bytes :
      Calendar → CredentialPayload → Result AwardError JsString
  canonical_credential_bytes calendar x = do
    validated ← validate_credential_payload calendar x
    ok (credential_json validated)

  unfoldable pub verify_credential_signature :
      Crypto → Calendar → Credential → JsString → Result AwardError CredentialPayload
  verify_credential_signature c calendar signed public_key = do
    payload ← validate_credential_payload calendar signed.payload
    signature ← decode_signature c signed.signature
    key ← normalize_public_key c public_key
    bytes ← canonical_credential_bytes calendar payload
    require_signature c bytes key signature
    ok payload

  unfoldable pub verify_credential :
      Crypto → Calendar → Credential → JsString → JsString → Result AwardError CredentialPayload
  verify_credential c calendar signed public_key now = do
    payload ← verify_credential_signature c calendar signed public_key
    at ← parse_utc calendar now
    issued_at ← parse_utc calendar payload.issued_at
    fail_if (ltb at issued_at) credential_not_valid
    expires_at ← parse_utc calendar payload.expires_at
    fail_if (leb expires_at at) credential_expired
    ok payload
