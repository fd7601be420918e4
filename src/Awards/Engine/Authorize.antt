-- ===== src/Awards/Engine/Authorize.antt =====
-- spikes/internal-invocation-awards/src/engine.mjs: the checks of `authorizeInternalInvocation`, and
-- the credential and the Invocation that it makes.
pub mod Operation
pub mod Expiry
use skill_asset_protocol.Base.{
  ℕ, List, [], ◌∷◌, not, ◌||◌, Option, none, JsString, js, includes, ltb, leb, Result, ok, ◌>>=◌,
  ◌>>◌, fail_if, if◌then◌else◌, lookup, has_key,
}
use skill_asset_protocol.Awards.Errors.{
  AwardError, Calendar, identifier_used, nonce_format, credential_authorizer, credential_issued,
  credential_window,
}
use skill_asset_protocol.Awards.Schema.{Policy, parse_utc}
use skill_asset_protocol.Awards.Quote.{Quote}
use skill_asset_protocol.Awards.Keys.{nonce_pattern}
use skill_asset_protocol.Awards.Registration.{SkillRegistration, period_end_exclusive}
use skill_asset_protocol.Awards.Credentials.{CredentialPayload}
use skill_asset_protocol.Awards.Credentials.Attestation.{
  PrincipalPayload, PrincipalAttestation, principal_attestation_hash,
}
use skill_asset_protocol.Awards.Credentials.Approval.{ManagerApproval}
use skill_asset_protocol.Awards.Budget.{Budget}
use skill_asset_protocol.Awards.Budget.Moves.{Moved}
use skill_asset_protocol.Awards.Invocation.{InvocationState, Invocation}
use skill_asset_protocol.Awards.Engine.{EngineState, require_found}

pub record AuthorizeInput : Type 0 where
  pub quote : Quote
  pub expected_revision : ℕ
  pub expected_budget_revision : ℕ
  pub reservation_id : JsString
  pub credential_nonce : JsString
  pub credential_issued_at : JsString
  pub credential_expires_at : JsString
  pub credential_authorizer_id : JsString
  pub principal_attestation : PrincipalAttestation
  pub manager_approval : Option ManagerApproval

-- The earlier of two instants, the first where they are the same.
unfoldable pub earlier : Calendar → JsString → List JsString → Result AwardError JsString
earlier calendar earliest [] = ok earliest
earlier calendar earliest (candidate ∷ rest) = do
  at ← parse_utc calendar candidate
  first ← parse_utc calendar earliest
  earlier calendar (if ltb at first then candidate else earliest) rest

unfoldable pub effective_credential_expiry :
    Calendar → JsString → Quote → Policy → Budget → Result AwardError JsString
effective_credential_expiry calendar requested quote policy budget = do
  period_end ← period_end_exclusive calendar budget.period
  _ ← parse_utc calendar requested
  earlier calendar requested
      (quote.expires_at ∷ policy.expires_at ∷ budget.authorization.expires_at ∷ period_end ∷ [])

-- Every identifier and nonce is new.
unfoldable pub require_unused : EngineState → AuthorizeInput → Result AwardError (Unit {0})
require_unused state input = do
  fail_if (has_key input.quote.idempotency_key state.idempotency) identifier_used
  fail_if (has_key input.quote.invocation_id state.invocations) identifier_used
  fail_if (has_key input.reservation_id state.reservations) identifier_used
  fail_if (not (nonce_pattern input.credential_nonce)) nonce_format
  fail_if (has_key input.credential_nonce state.issued_nonces) identifier_used

unfoldable pub require_authorizer : EngineState → Policy → JsString → Result AwardError JsString
require_authorizer state policy authorizer_id = do
  fail_if (not (includes authorizer_id policy.permitted_credential_authorizer_ids))
      credential_authorizer
  require_found credential_authorizer (lookup authorizer_id state.credential_authorizers)

-- The instants of the credential; its result is when it expires.
unfoldable pub require_credential_window :
    Calendar → EngineState → AuthorizeInput → Policy → JsString → Result AwardError JsString
require_credential_window calendar state input policy now = do
  requested_expiry ← parse_utc calendar input.credential_expires_at
  issued_at ← parse_utc calendar input.credential_issued_at
  at ← parse_utc calendar now
  fail_if (ltb at issued_at) credential_issued
  policy_effective ← parse_utc calendar policy.effective_at
  budget_effective ← parse_utc calendar state.budget.authorization.effective_at
  fail_if (ltb issued_at policy_effective || ltb issued_at budget_effective) credential_issued
  fail_if (leb requested_expiry issued_at || leb requested_expiry at) credential_window
  expires_at ←
      effective_credential_expiry calendar input.credential_expires_at input.quote policy
        state.budget
  expiry ← parse_utc calendar expires_at
  fail_if (leb expiry issued_at) credential_window
  ok expires_at

-- What an authorization has checked and made.
pub record Authorized : Type 0 where
  pub registration : SkillRegistration
  pub principal : PrincipalPayload
  pub attestation_hash : JsString
  pub expires_at : JsString
  pub reserved : Moved

unfoldable pub credential_payload_of : AuthorizeInput → Authorized → CredentialPayload
credential_payload_of input plan = record {
  schema_version = 1;
  credential_authorizer_id = input.credential_authorizer_id;
  invocation_id = input.quote.invocation_id;
  reservation_id = input.reservation_id;
  idempotency_key = input.quote.idempotency_key;
  skill_id = input.quote.skill_id;
  skill_version_hash = input.quote.skill_version_hash;
  creator_id = input.quote.creator_id;
  wielder_id = input.quote.wielder_id;
  initiating_principal_id = input.quote.initiating_principal_id;
  principal_attestation_id = plan.principal.attestation_id;
  principal_attestation_hash = plan.attestation_hash;
  policy_id = input.quote.policy_id;
  policy_version = input.quote.policy_version;
  policy_hash = input.quote.policy_hash;
  nonce = input.credential_nonce;
  issued_at = input.credential_issued_at;
  expires_at = plan.expires_at;
}

unfoldable pub authorized_invocation :
    EngineState → AuthorizeInput → Authorized → JsString → Invocation
authorized_invocation state input plan now = record {
  schema_version = 1;
  invocation_id = input.quote.invocation_id;
  idempotency_key = input.quote.idempotency_key;
  quote_id = input.quote.quote_id;
  reservation_id = input.reservation_id;
  skill_id = input.quote.skill_id;
  skill_version_hash = input.quote.skill_version_hash;
  skill_registration_id = plan.registration.registration_id;
  creator_id = input.quote.creator_id;
  wielder_id = input.quote.wielder_id;
  initiating_principal_id = input.quote.initiating_principal_id;
  principal_attestation_id = plan.principal.attestation_id;
  principal_attestation_hash = plan.attestation_hash;
  principal_attestation = input.principal_attestation;
  beneficiary_id = input.quote.beneficiary_id;
  cost_center = input.quote.cost_center;
  policy_id = input.quote.policy_id;
  policy_version = input.quote.policy_version;
  policy_hash = input.quote.policy_hash;
  period = state.budget.period;
  currency = state.budget.currency;
  atomic_scale = state.budget.atomic_scale;
  state = InvocationState.authorized;
  revision = 0;
  credential_payload = credential_payload_of input plan;
  credential_nonce = input.credential_nonce;
  credential_issued_at = input.credential_issued_at;
  credential_expires_at = plan.expires_at;
  execution_attempt_id = none;
  authorized_at = now;
  started_at = none;
  finalized_at = none;
  execution_cost_status = none;
  execution_cost_atomic = none;
  protocol_fee_atomic = js "0";
  refund_reserve_atomic = js "0";
  max_invocation_award_atomic = input.quote.max_invocation_award_atomic;
  invocation_award_atomic = js "0";
  released_atomic = js "0";
  held_reservation_atomic = js "0";
  award_id = none;
  output_hash = none;
  failure_class = none;
  unresolved_reason = none;
  external_royalty_credits_atomic = js "0";
  employer_self_credit_atomic = js "0";
  journal_entries = [];
  receipt_sequence_scope = none;
  receipt_sequence = none;
  receipt_id = none;
  receipt_hash = none;
}
