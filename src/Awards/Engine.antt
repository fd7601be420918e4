-- ===== src/Awards/Engine.antt =====
-- spikes/internal-invocation-awards/src/engine.mjs: the state of the award engine, and what its
-- operations share. The model has no states but those that the engine made, so that the check of the
-- `WeakSet` of trusted states is left out; the clock of an operation is its argument `now`.
pub mod Exposure
pub mod Authorize
pub mod Commit
pub mod Cancel
pub mod Replay
pub mod Start
pub mod Finish
pub mod Queue
pub mod Reversal
pub mod Steps
pub mod Run
mod Tests
use skill_asset_protocol.Base.{
  ℕ, ◌+◌, List, ◌∷◌, ◌++◌, false, not, ◌||◌, Option, none, some, JsString, text_eq, ◌==◌, Result,
  ok, err, ◌>>=◌, ◌>>◌, fail_if, decimal, Dictionary, lookup,
}
use skill_asset_protocol.Kernel.Platform.{Platform}
use skill_asset_protocol.Awards.Errors.{
  AwardError, Calendar, policy_missing, authorization_changed, period_inactive,
  registration_missing, registration_binding,
}
use skill_asset_protocol.Awards.Schema.{Policy, validate_policy}
use skill_asset_protocol.Awards.Quote.{Quote}
use skill_asset_protocol.Awards.Keys.{Crypto}
use skill_asset_protocol.Awards.Registration.{
  SkillRegistration, skill_registration_key, validate_skill_registration,
}
use skill_asset_protocol.Awards.Budget.{Budget, Reservation, Event, remaining_atomic, first_chars}
use skill_asset_protocol.Awards.Budget.Authorized.{create_budget}
use skill_asset_protocol.Awards.Invocation.{Invocation, Award}
use skill_asset_protocol.Awards.Ledger.{ReceiptLedger}

-- Where an Invocation is bound to a nonce or an idempotency key.
pub record IssuedNonce : Type 0 where
  pub invocation_id : JsString
  pub reservation_id : JsString

pub record ConsumedNonce : Type 0 where
  pub invocation_id : JsString
  pub reservation_id : JsString
  pub execution_attempt_id : JsString
  pub consumed_at : JsString

pub record PrincipalNonce : Type 0 where
  pub invocation_id : JsString
  pub attestation_id : JsString
  pub principal_id : JsString
  pub consumed_at : JsString

pub record IdempotencyBinding : Type 0 where
  pub invocation_id : JsString
  pub reservation_id : JsString
  pub quote_id : JsString

pub record ReversalPayload : Type 0 where
  pub schema_version : ℕ
  pub reversal_id : JsString
  pub award_id : JsString
  pub invocation_id : JsString
  pub receipt_hash : JsString
  pub policy_id : JsString
  pub policy_version : ℕ
  pub policy_hash : JsString
  pub amount_atomic : JsString
  pub reason : JsString
  pub issued_at : JsString
  pub signer_id : JsString

pub record SignedReversal : Type 0 where
  pub payload : ReversalPayload
  pub signature : JsString

-- An event of the engine: its details as text, with numbers in decimal.
pub record LifecycleEvent : Type 0 where
  pub event_id : JsString
  pub event_type : JsString
  pub invocation_id : JsString
  pub occurred_at : JsString
  pub details : Dictionary JsString

pub data EngineEvent : Type 0 where
  of_budget : Event → EngineEvent
  of_lifecycle : LifecycleEvent → EngineEvent

pub record EngineState : Type 0 where
  pub revision : ℕ
  pub budget : Budget
  pub policies : Dictionary Policy
  pub skill_registrations : Dictionary SkillRegistration
  pub finance_signers : Dictionary JsString
  pub manager_signers : Dictionary JsString
  pub credential_authorizers : Dictionary JsString
  pub identity_signers : Dictionary JsString
  pub receipt_signers : Dictionary JsString
  pub invocations : Dictionary Invocation
  pub reservations : Dictionary Reservation
  pub awards : Dictionary Award
  pub consumed_nonces : Dictionary ConsumedNonce
  pub issued_nonces : Dictionary IssuedNonce
  pub consumed_principal_nonces : Dictionary PrincipalNonce
  pub idempotency : Dictionary IdempotencyBinding
  pub award_reversals : Dictionary SignedReversal
  pub events : List EngineEvent
  -- the four fields of the receipt ledger
  pub ledger : ReceiptLedger

-- `invocationEvent(type, invocationId, now, details)`
unfoldable pub invocation_event : JsString → JsString → JsString → Dictionary JsString → EngineEvent
invocation_event type invocation_id now details = of_lifecycle (record {
  event_id = invocation_id ++ b':' ∷ (type ++ b':' ∷ now);
  event_type = type;
  invocation_id = invocation_id;
  occurred_at = now;
  details = details;
})

-- `map[key]`, where a missing value is refused
unfoldable pub require_found {ℓ} : {A : Type ℓ} → AwardError → Option A → Result AwardError A
require_found e none = err e
require_found e (some a) = ok a

abbrev pub policy_key : JsString → ℕ → JsString
policy_key policy_id version = policy_id ++ b'@' ∷ decimal version

-- The fields of a budget that its authorization signs are those of the budget made of it.
unfoldable pub require_signed_fields : Budget → Budget → Result AwardError (Unit {0})
require_signed_fields budget verified =
    fail_if
      (not (text_eq budget.budget_id verified.budget_id)
        || not (text_eq budget.policy_id verified.policy_id)
        || not (budget.policy_version == verified.policy_version)
        || not (text_eq budget.policy_hash verified.policy_hash)
        || not (text_eq budget.period verified.period)
        || not (text_eq budget.currency verified.currency)
        || not (budget.atomic_scale == verified.atomic_scale)
        || not (text_eq budget.allocated_atomic verified.allocated_atomic))
      authorization_changed

module _ (p : Platform) (c : Crypto) (calendar : Calendar) where
  -- `assertTrustedState(state, now)`
  unfoldable pub assert_trusted_state : EngineState → JsString → Result AwardError Policy
  assert_trusted_state state now = do
    stored ←
        require_found policy_missing
          (lookup (policy_key state.budget.policy_id state.budget.policy_version) state.policies)
    policy ← validate_policy calendar stored now
    verified ←
        create_budget p c calendar state.budget.authorization state.finance_signers policy now
    require_signed_fields state.budget verified
    _ ← remaining_atomic state.budget
    ok policy

  -- The same as of the instant at which the authorization takes effect.
  unfoldable pub assert_historically_trusted_state : EngineState → Result AwardError Policy
  assert_historically_trusted_state state =
      assert_trusted_state state state.budget.authorization.effective_at

unfoldable pub require_active_budget_period : Budget → JsString → Result AwardError (Unit {0})
require_active_budget_period budget now =
    fail_if (not (text_eq budget.period (first_chars 7 now))) period_inactive

unfoldable pub resolve_active_registration :
    Calendar → EngineState → Quote → Policy → JsString → Result AwardError SkillRegistration
resolve_active_registration calendar state quote policy now = do
  key ← skill_registration_key quote.skill_id quote.skill_version_hash
  registration ← require_found registration_missing (lookup key state.skill_registrations)
  active ← validate_skill_registration calendar registration now false
  fail_if (not (text_eq active.creator_id quote.creator_id)) registration_binding
  fail_if
      (not (text_eq active.employer_id quote.beneficiary_id)
        || not (text_eq active.employer_id policy.employer_id))
      registration_binding
  ok active
