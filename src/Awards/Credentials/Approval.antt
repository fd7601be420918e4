-- ===== src/Awards/Credentials/Approval.antt =====
-- spikes/internal-invocation-awards/src/credentials.mjs: the approval of a manager for a Creator's
-- own Invocation.
use skill_asset_protocol.Base.{
  ℕ, [], ◌∷◌, not, ◌||◌, JsString, js, text_eq, includes, ltb, leb, ◌==◌, Result, ok, ◌>>=◌, ◌>>◌,
  fail_if, decimal, Dictionary,
}
use skill_asset_protocol.Kernel.Platform.{Platform}
use skill_asset_protocol.Awards.Errors.{
  AwardError, Calendar, safe_integer, approval_version, approval_window, approval_self,
  approval_signer, approval_binding, approval_not_valid, approval_expired, approval_bounds,
}
use skill_asset_protocol.Awards.Schema.{parse_utc, require_strings, json_object, Policy}
use skill_asset_protocol.Awards.Quote.{Quote}
use skill_asset_protocol.Awards.Keys.{
  Crypto, trusted_signer_key, decode_signature, require_signature,
}

pub record ApprovalPayload : Type 0 where
  pub schema_version : ℕ
  pub approval_id : JsString
  pub manager_signer_id : JsString
  pub invocation_id : JsString
  pub creator_id : JsString
  pub policy_id : JsString
  pub policy_version : ℕ
  pub issued_at : JsString
  pub expires_at : JsString

pub record ManagerApproval : Type 0 where
  pub payload : ApprovalPayload
  pub signature : JsString

unfoldable pub validate_manager_approval_payload :
    Calendar → ApprovalPayload → Result AwardError ApprovalPayload
validate_manager_approval_payload calendar x = do
  fail_if (not (x.schema_version == 1)) approval_version
  require_strings
      (x.approval_id ∷ x.manager_signer_id ∷ x.invocation_id ∷ x.creator_id ∷ x.policy_id ∷ [])
  fail_if (ltb x.policy_version 1) safe_integer
  issued_at ← parse_utc calendar x.issued_at
  expires_at ← parse_utc calendar x.expires_at
  fail_if (leb expires_at issued_at) approval_window
  ok x

module _ (p : Platform) where
  unfoldable pub canonical_manager_approval_bytes :
      Calendar → ApprovalPayload → Result AwardError JsString
  canonical_manager_approval_bytes calendar input = do
    x ← validate_manager_approval_payload calendar input
    ok (
        json_object p (
          (js "schemaVersion", decimal x.schema_version)
          ∷ (js "approvalId", p.json_string x.approval_id)
          ∷ (js "managerSignerId", p.json_string x.manager_signer_id)
          ∷ (js "invocationId", p.json_string x.invocation_id)
          ∷ (js "creatorId", p.json_string x.creator_id)
          ∷ (js "policyId", p.json_string x.policy_id)
          ∷ (js "policyVersion", decimal x.policy_version)
          ∷ (js "issuedAt", p.json_string x.issued_at)
          ∷ (js "expiresAt", p.json_string x.expires_at)
          ∷ []))

  -- The instants at which an approval counts.
  unfoldable pub require_approval_window :
      Calendar → ApprovalPayload → Policy → Quote → JsString → Result AwardError (Unit {0})
  require_approval_window calendar x policy quote now = do
    at ← parse_utc calendar now
    issued_at ← parse_utc calendar x.issued_at
    expires_at ← parse_utc calendar x.expires_at
    fail_if (ltb at issued_at) approval_not_valid
    fail_if (leb expires_at at) approval_expired
    quote_expires_at ← parse_utc calendar quote.expires_at
    fail_if (ltb quote_expires_at expires_at) approval_bounds
    policy_expires_at ← parse_utc calendar policy.expires_at
    fail_if (ltb policy_expires_at expires_at) approval_bounds

  unfoldable pub verify_manager_approval :
      Crypto
      → Calendar
      → ManagerApproval
      → Policy
      → Quote
      → Dictionary JsString
      → JsString
      → Result AwardError ApprovalPayload
  verify_manager_approval c calendar signed policy quote manager_signers now = do
    x ← validate_manager_approval_payload calendar signed.payload
    fail_if (text_eq x.manager_signer_id quote.creator_id) approval_self
    fail_if (not (includes x.manager_signer_id policy.permitted_manager_signer_ids)) approval_signer
    key ← trusted_signer_key c manager_signers x.manager_signer_id
    fail_if
        (not (text_eq x.invocation_id quote.invocation_id)
          || not (text_eq x.creator_id quote.creator_id)
          || not (text_eq x.policy_id policy.policy_id)
          || not (x.policy_version == policy.version))
        approval_binding
    require_approval_window calendar x policy quote now
    signature ← decode_signature c signed.signature
    bytes ← canonical_manager_approval_bytes calendar x
    require_signature c bytes key signature
    ok x
