-- ===== src/Awards/Invocation.antt =====
-- spikes/internal-invocation-awards/src/engine.mjs: the records of Invocations and of awards, with
-- the states of schema.mjs.
use skill_asset_protocol.Base.{ℕ, List, Bool, true, false, Option, JsString, js}
use skill_asset_protocol.Awards.Outcome.{Member}
use skill_asset_protocol.Awards.Credentials.{CredentialPayload}
use skill_asset_protocol.Awards.Credentials.Attestation.{PrincipalAttestation}

pub data InvocationState : Type 0 where
  requested quoted authorized executing : InvocationState
  succeeded failed unresolved cancelled : InvocationState

unfoldable pub invocation_state_name : InvocationState → JsString
invocation_state_name requested = js "requested"
invocation_state_name quoted = js "quoted"
invocation_state_name authorized = js "authorized"
invocation_state_name executing = js "executing"
invocation_state_name succeeded = js "succeeded"
invocation_state_name failed = js "failed"
invocation_state_name unresolved = js "unresolved"
invocation_state_name cancelled = js "cancelled"

-- `TERMINAL_STATES.has(state)`
abbrev pub is_terminal : InvocationState → Bool
is_terminal succeeded = true
is_terminal failed = true
is_terminal unresolved = true
is_terminal cancelled = true
is_terminal _ = false

abbrev pub is_authorized : InvocationState → Bool
is_authorized authorized = true
is_authorized _ = false

abbrev pub is_running : InvocationState → Bool
is_running executing = true
is_running _ = false

-- `['authorized', 'executing', 'unresolved'].includes(state)`
abbrev pub may_earn : InvocationState → Bool
may_earn authorized = true
may_earn executing = true
may_earn unresolved = true
may_earn _ = false

pub data AwardState : Type 0 where
  measured vesting_pending earned payable paid : AwardState

unfoldable pub award_state_name : AwardState → JsString
award_state_name measured = js "measured"
award_state_name vesting_pending = js "vesting_pending"
award_state_name earned = js "earned"
award_state_name payable = js "payable"
award_state_name paid = js "paid"

-- `['earned', 'payable', 'paid'].includes(state)`
abbrev pub is_earned : AwardState → Bool
is_earned earned = true
is_earned payable = true
is_earned paid = true
is_earned _ = false

-- `['vesting_pending', 'earned', 'payable', 'paid'].includes(state)`
abbrev pub is_awarded : AwardState → Bool
is_awarded measured = false
is_awarded _ = true

-- An entry of a journal with its amount as a string.
pub record SerializedEntry : Type 0 where
  pub category : JsString
  pub debit_account_id : JsString
  pub credit_account_id : JsString
  pub amount_atomic : JsString

pub record Invocation : Type 0 where
  pub schema_version : ℕ
  pub invocation_id : JsString
  pub idempotency_key : JsString
  pub quote_id : JsString
  pub reservation_id : JsString
  pub skill_id : JsString
  pub skill_version_hash : JsString
  pub skill_registration_id : JsString
  pub creator_id : JsString
  pub wielder_id : JsString
  pub initiating_principal_id : JsString
  pub principal_attestation_id : JsString
  pub principal_attestation_hash : JsString
  pub principal_attestation : PrincipalAttestation
  pub beneficiary_id : JsString
  pub cost_center : JsString
  pub policy_id : JsString
  pub policy_version : ℕ
  pub policy_hash : JsString
  pub period : JsString
  pub currency : JsString
  pub atomic_scale : ℕ
  pub state : InvocationState
  pub revision : ℕ
  pub credential_payload : CredentialPayload
  pub credential_nonce : JsString
  pub credential_issued_at : JsString
  pub credential_expires_at : JsString
  pub execution_attempt_id : Option JsString
  pub authorized_at : JsString
  pub started_at : Option JsString
  pub finalized_at : Option JsString
  pub execution_cost_status : Option JsString
  pub execution_cost_atomic : Option JsString
  pub protocol_fee_atomic : JsString
  pub refund_reserve_atomic : JsString
  pub max_invocation_award_atomic : JsString
  pub invocation_award_atomic : JsString
  pub released_atomic : JsString
  pub held_reservation_atomic : JsString
  pub award_id : Option JsString
  pub output_hash : Option Member
  pub failure_class : Option JsString
  pub unresolved_reason : Option JsString
  pub external_royalty_credits_atomic : JsString
  pub employer_self_credit_atomic : JsString
  pub journal_entries : List SerializedEntry
  pub receipt_sequence_scope : Option JsString
  pub receipt_sequence : Option ℕ
  pub receipt_id : Option JsString
  pub receipt_hash : Option JsString

pub record Award : Type 0 where
  pub schema_version : ℕ
  pub award_id : JsString
  pub invocation_id : JsString
  pub recipient_id : JsString
  pub policy_id : JsString
  pub policy_version : ℕ
  pub policy_hash : JsString
  pub period : JsString
  pub currency : JsString
  pub atomic_scale : ℕ
  pub amount_atomic : JsString
  pub state : AwardState
  pub measured_at : JsString
  pub earned_at : Option JsString
  pub payable_at : Option JsString
  pub paid_at : Option JsString
