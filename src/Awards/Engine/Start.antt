-- ===== src/Awards/Engine/Start.antt =====
-- spikes/internal-invocation-awards/src/engine.mjs: the first transaction of
-- `executeAuthorizedInvocation`, which consumes the credential and starts the execution.
use skill_asset_protocol.Base.{
  ◌+◌, [], ◌∷◌, ◌++◌, not, some, JsString, js, text_eq, Result, ok, ◌>>=◌, ◌>>◌, fail_if, lookup,
  has_key, map_with,
}
use skill_asset_protocol.Kernel.Platform.{Platform}
use skill_asset_protocol.Awards.Errors.{
  AwardError, Calendar, record_missing, invocation_state, reservation_state, credential_consumed,
  registration_binding, attestation_changed,
}
use skill_asset_protocol.Awards.Schema.{Policy, parse_utc}
use skill_asset_protocol.Awards.Quote.{Quote, validate_quote}
use skill_asset_protocol.Awards.Keys.{Crypto}
use skill_asset_protocol.Awards.Credentials.{Credential, verify_credential}
use skill_asset_protocol.Awards.Credentials.Attestation.{
  verify_principal_attestation, principal_attestation_hash,
}
use skill_asset_protocol.Awards.Budget.{Reservation}
use skill_asset_protocol.Awards.Budget.Moves.{Moved, is_reserved, start_reservation_execution}
use skill_asset_protocol.Awards.Invocation.{
  InvocationState, Invocation, is_terminal, is_running, is_authorized,
}
use skill_asset_protocol.Awards.Store.{transact}
use skill_asset_protocol.Awards.Engine.{
  EngineState, of_budget, invocation_event, require_found, assert_trusted_state,
  require_active_budget_period, resolve_active_registration,
}
use skill_asset_protocol.Awards.Engine.Authorize.{require_authorizer}
use skill_asset_protocol.Awards.Engine.Replay.{
  compare_quote, compare_credential_payload, refuse_replay,
}

unfoldable pub attempt_id : Invocation → JsString
attempt_id v = js "attempt-" ++ (v.invocation_id ++ b'-' ∷ v.credential_nonce)

unfoldable pub executing_invocation : Invocation → JsString → Invocation
executing_invocation v now = record v {
  state = InvocationState.executing;
  revision = v.revision + 1;
  execution_attempt_id = some (attempt_id v);
  started_at = some now;
}

unfoldable pub started_state :
    EngineState → Invocation → Reservation → Moved → JsString → EngineState
started_state state v r execution now = record state {
  revision = state.revision + 1;
  budget = execution.budget;
  reservations = map_with state.reservations r.reservation_id execution.reservation;
  invocations = map_with state.invocations v.invocation_id (executing_invocation v now);
  consumed_nonces = map_with state.consumed_nonces v.credential_nonce (record {
    invocation_id = v.invocation_id;
    reservation_id = r.reservation_id;
    execution_attempt_id = attempt_id v;
    consumed_at = now;
  });
  events =
      state.events
      ++ of_budget execution.event
        ∷ invocation_event (js "invocation_executing") v.invocation_id now
            ((js "executionAttemptId", attempt_id v) ∷ [])
        ∷ [];
}

-- The Invocation is authorized, its credential is new, and its reservation is held for it.
unfoldable pub require_startable :
    EngineState → Invocation → Reservation → Result AwardError (Unit {0})
require_startable state v r = do
  fail_if (has_key v.credential_nonce state.consumed_nonces) credential_consumed
  fail_if (not (is_authorized v.state)) invocation_state
  fail_if (not (is_reserved r.state)) reservation_state

module _ (p : Platform) (c : Crypto) (calendar : Calendar) where
  -- What was stored at the authorization is still what the policy, the registration, the
  -- attestation and the credential say.
  unfoldable pub require_unchanged :
      EngineState
      → Invocation
      → Policy
      → Quote
      → Credential
      → JsString
      → Result AwardError (Unit {0})
  require_unchanged state v policy quote credential now = do
    registration ← resolve_active_registration calendar state quote policy now
    fail_if (not (text_eq registration.registration_id v.skill_registration_id))
        registration_binding
    _ ←
        verify_principal_attestation p c calendar v.principal_attestation policy quote
          state.identity_signers now
    attestation_hash ← principal_attestation_hash p c calendar v.principal_attestation
    fail_if (not (text_eq attestation_hash v.principal_attestation_hash)) attestation_changed
    key ← require_authorizer state policy credential.payload.credential_authorizer_id
    payload ← verify_credential p c calendar credential key now
    compare_credential_payload p c calendar payload v.credential_payload

  unfoldable pub start_execution :
      EngineState → Quote → Credential → JsString → Result AwardError EngineState
  start_execution state input credential now = do
    _ ← parse_utc calendar now
    require_active_budget_period state.budget now
    policy ← assert_trusted_state p c calendar state now
    quote ← validate_quote p calendar input policy now
    v ← require_found record_missing (lookup quote.invocation_id state.invocations)
    fail_if (is_terminal v.state) invocation_state
    fail_if (is_running v.state) invocation_state
    r ← require_found record_missing (lookup v.reservation_id state.reservations)
    require_startable state v r
    compare_quote p quote r.quote
    require_unchanged state v policy quote credential now
    execution ←
        start_reservation_execution calendar state.budget r
          (record { budget_revision = state.budget.revision; reservation_revision = r.revision })
          (attempt_id v) now
    ok (started_state state v r execution now)

  -- The part of `executeAuthorizedInvocation` before the executor is called, where no other
  -- transaction comes between the snapshot and the first one.
  unfoldable pub begin_execution :
      EngineState → Quote → Credential → JsString → Result AwardError EngineState
  begin_execution state quote credential now = do
    refuse_replay p c calendar state quote credential
    transact (λ (s : EngineState). s.revision) state state.revision
        (λ s. start_execution s quote credential now)
