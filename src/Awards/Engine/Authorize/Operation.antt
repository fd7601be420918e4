-- ===== src/Awards/Engine/Authorize/Operation.antt =====
-- spikes/internal-invocation-awards/src/engine.mjs: `authorizeInternalInvocation`, as the transition of
-- its transaction and with it.
use skill_asset_protocol.Base.{
  ◌+◌, [], ◌∷◌, ◌++◌, not, Option, none, some, JsString, js, text_eq, Result, ok, err, ◌>>=◌, ◌>>◌,
  fail_if, if◌then◌else◌, lookup, has_key, map_with,
}
use skill_asset_protocol.Kernel.Platform.{Platform}
use skill_asset_protocol.Awards.Errors.{
  AwardError, Calendar, policy_missing, outside_budget, attestation_consumed,
  self_invocation_excluded, approval_missing, approval_unexpected,
}
use skill_asset_protocol.Awards.Schema.{Policy, validate_policy, parse_utc}
use skill_asset_protocol.Awards.Quote.{validate_quote}
use skill_asset_protocol.Awards.Keys.{Crypto}
use skill_asset_protocol.Awards.Registration.{SkillRegistration}
use skill_asset_protocol.Awards.Credentials.Attestation.{
  PrincipalPayload, verify_principal_attestation, principal_attestation_hash,
}
use skill_asset_protocol.Awards.Credentials.Approval.{ManagerApproval, verify_manager_approval}
use skill_asset_protocol.Awards.Budget.{require_revision}
use skill_asset_protocol.Awards.Budget.Moves.{reserve_budget}
use skill_asset_protocol.Awards.Store.{transact}
use skill_asset_protocol.Awards.Engine.{
  EngineState, of_budget, invocation_event, require_found, policy_key, assert_trusted_state,
  require_active_budget_period, resolve_active_registration,
}
use skill_asset_protocol.Awards.Engine.Exposure.{require_award_cap}
use skill_asset_protocol.Awards.Engine.Authorize.{
  AuthorizeInput, Authorized, require_unused, require_authorizer, require_credential_window,
  authorized_invocation,
}

unfoldable pub authorized_state : EngineState → AuthorizeInput → Authorized → JsString → EngineState
authorized_state state input plan now = record state {
  revision = state.revision + 1;
  budget = plan.reserved.budget;
  invocations =
      map_with state.invocations input.quote.invocation_id
        (authorized_invocation state input plan now);
  reservations = map_with state.reservations input.reservation_id plan.reserved.reservation;
  issued_nonces =
      map_with state.issued_nonces input.credential_nonce (record {
        invocation_id = input.quote.invocation_id;
        reservation_id = input.reservation_id;
      });
  consumed_principal_nonces =
      map_with state.consumed_principal_nonces plan.principal.nonce (record {
        invocation_id = input.quote.invocation_id;
        attestation_id = plan.principal.attestation_id;
        principal_id = plan.principal.principal_id;
        consumed_at = now;
      });
  idempotency = map_with state.idempotency input.quote.idempotency_key (record {
    invocation_id = input.quote.invocation_id;
    reservation_id = input.reservation_id;
    quote_id = input.quote.quote_id;
  });
  events =
      state.events
      ++ invocation_event (js "invocation_requested") input.quote.invocation_id now []
        ∷ invocation_event (js "invocation_quoted") input.quote.invocation_id now
            ((js "quoteId", input.quote.quote_id) ∷ [])
        ∷ of_budget plan.reserved.event
        ∷ invocation_event (js "invocation_authorized") input.quote.invocation_id now (
            (js "reservationId", input.reservation_id)
            ∷ (js "skillRegistrationId", plan.registration.registration_id)
            ∷ (js "initiatingPrincipalId", plan.principal.principal_id)
            ∷ (js "credentialAuthorizerId", input.credential_authorizer_id)
            ∷ [])
        ∷ [];
}

module _ (p : Platform) (c : Crypto) (calendar : Calendar) where
  -- The policy of the quote, which is that of the budget, and the registration of the Skill.
  unfoldable pub authorized_policy :
      EngineState → AuthorizeInput → JsString → Result AwardError (Policy × SkillRegistration)
  authorized_policy state input now = do
    trusted ← assert_trusted_state p c calendar state now
    let key = policy_key input.quote.policy_id input.quote.policy_version
    stored ← require_found policy_missing (lookup key state.policies)
    fail_if (not (text_eq key (policy_key trusted.policy_id trusted.version))) outside_budget
    policy ← validate_policy calendar stored now
    quote ← validate_quote p calendar input.quote policy now
    registration ← resolve_active_registration calendar state quote policy now
    fail_if (not (text_eq state.budget.policy_hash quote.policy_hash)) outside_budget
    require_active_budget_period state.budget now
    require_revision state.budget.revision input.expected_budget_revision
    ok (policy, registration)

  -- A Creator who initiates the Invocation needs the approval of a manager, and nobody else has one.
  unfoldable pub require_approval :
      EngineState
      → AuthorizeInput
      → Policy
      → JsString
      → Option ManagerApproval
      → Result AwardError (Unit {0})
  require_approval state input policy now approval =
      if text_eq input.quote.initiating_principal_id input.quote.creator_id
      then (do
        fail_if (text_eq policy.self_invocation (js "excluded")) self_invocation_excluded
        elim approval [
          | none ↦ err approval_missing
          | some signed ↦ do
            _ ←
                verify_manager_approval p c calendar signed policy input.quote state.manager_signers
                  now
            ok tt
        ])
      else elim approval [ none ↦ ok tt | some signed ↦ err approval_unexpected ]

  unfoldable pub require_initiator :
      EngineState
      → AuthorizeInput
      → Policy
      → JsString
      → Result AwardError (PrincipalPayload × JsString)
  require_initiator state input policy now = do
    principal ←
        verify_principal_attestation p c calendar input.principal_attestation policy input.quote
          state.identity_signers now
    fail_if (has_key principal.nonce state.consumed_principal_nonces) attestation_consumed
    attestation_hash ← principal_attestation_hash p c calendar input.principal_attestation
    require_approval state input policy now input.manager_approval
    ok (principal, attestation_hash)

  -- The transition: it reserves the maximum gross of the quote and stores what it has checked.
  unfoldable pub authorize : EngineState → AuthorizeInput → JsString → Result AwardError EngineState
  authorize state input now = do
    _ ← parse_utc calendar now
    (policy, registration) ← authorized_policy state input now
    require_unused state input
    _ ← require_authorizer state policy input.credential_authorizer_id
    (principal, attestation_hash) ← require_initiator state input policy now
    expires_at ← require_credential_window calendar state input policy now
    require_award_cap state policy state.budget.period input.quote.max_invocation_award_atomic
    reserved ←
        reserve_budget p calendar state.budget input.quote input.expected_budget_revision
          input.reservation_id now
    let plan : Authorized = record {
      registration = registration;
      principal = principal;
      attestation_hash = attestation_hash;
      expires_at = expires_at;
      reserved = reserved;
    }
    ok (authorized_state state input plan now)

  unfoldable pub authorize_internal_invocation :
      EngineState → AuthorizeInput → JsString → Result AwardError EngineState
  authorize_internal_invocation state input now =
      transact (λ (s : EngineState). s.revision) state input.expected_revision
        (λ s. authorize s input now)
