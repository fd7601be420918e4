-- ===== src/Awards/Receipts/Build.antt =====
-- spikes/internal-invocation-awards/src/statements.mjs: `buildInvocationReceipt`, and the bytes, the
-- signature and the hash of a receipt. `signReceipt`, a tool of the tests, is not modelled.
use skill_asset_protocol.Base.{
  ℕ, ◌+◌, [], ◌++◌, not, ◌||◌, Option, none, some, JsString, js, text_eq, Result, ok, err, ◌>>=◌,
  ◌>>◌, fail_if, decimal,
}
use skill_asset_protocol.Kernel.Platform.{Platform}
use skill_asset_protocol.Awards.Errors.{
  AwardError, Calendar, receipt_binding, receipt_award, receipt_state,
}
use skill_asset_protocol.Awards.Schema.{to_atomic}
use skill_asset_protocol.Awards.Budget.{Reservation, first_chars}
use skill_asset_protocol.Awards.Invocation.{
  InvocationState, AwardState, Invocation, Award, is_terminal,
}
use skill_asset_protocol.Awards.Receipts.{Receipt, is_text}
use skill_asset_protocol.Awards.Receipts.Terminal.{validate_receipt_payload}

-- A field that a terminal Invocation has; the source passes on `null`, which the validation refuses
-- as a string that is empty.
abbrev pub given : Option JsString → JsString
given none = []
given (some s) = s

abbrev pub given_number : Option ℕ → ℕ
given_number none = 0
given_number (some n) = n

-- The award that a receipt of a success has and no other has.
unfoldable pub require_award : Invocation → Option Award → Result AwardError (Option AwardState)
require_award invocation none = elim invocation.state [
  | InvocationState.succeeded ↦ err receipt_award
  | _ ↦ ok none
]
require_award invocation (some award) = elim invocation.state [
  | InvocationState.succeeded ↦ do
    fail_if
        (not (is_text award.award_id invocation.award_id)
          || not (text_eq award.amount_atomic invocation.invocation_award_atomic))
        receipt_award
    ok (some award.state)
  | _ ↦ err receipt_award
]

unfoldable pub consumed_by : Invocation → Result AwardError JsString
consumed_by invocation = elim invocation.state [
  | InvocationState.succeeded ↦ do
    cost ← to_atomic (given invocation.execution_cost_atomic)
    fee ← to_atomic invocation.protocol_fee_atomic
    reserve ← to_atomic invocation.refund_reserve_atomic
    award ← to_atomic invocation.invocation_award_atomic
    ok (decimal (cost + fee + reserve + award))
  | InvocationState.failed ↦ ok (given invocation.execution_cost_atomic)
  | _ ↦ ok (js "0")
]

abbrev pub receipt_type_of : InvocationState → JsString
receipt_type_of InvocationState.cancelled = js "internal_invocation_cancelled"
receipt_type_of _ = js "internal_invocation_finalized"

-- The payload, whose consumed amount and award are computed before.
unfoldable pub receipt_of :
    Invocation → Reservation → Option AwardState → JsString → JsString → JsString → Receipt
receipt_of v r award_state consumed_atomic employer_id signer_id = record {
  schema_version = 1;
  receipt_id = js "receipt-" ++ v.invocation_id;
  sequence = given_number v.receipt_sequence;
  receipt_sequence_scope = given v.receipt_sequence_scope;
  receipt_type = receipt_type_of v.state;
  invocation_id = v.invocation_id;
  reservation_id = r.reservation_id;
  employer_id = employer_id;
  creator_id = v.creator_id;
  skill_id = v.skill_id;
  skill_version_hash = v.skill_version_hash;
  skill_registration_id = v.skill_registration_id;
  initiating_principal_id = v.initiating_principal_id;
  principal_attestation_id = v.principal_attestation_id;
  principal_attestation_hash = v.principal_attestation_hash;
  policy_id = v.policy_id;
  policy_version = v.policy_version;
  policy_hash = v.policy_hash;
  budget_period = v.period;
  period = first_chars 7 (given v.finalized_at);
  currency = v.currency;
  atomic_scale = v.atomic_scale;
  invocation_state = v.state;
  reservation_state = r.state;
  execution_attempt_id = v.execution_attempt_id;
  reserved_atomic = r.reserved_atomic;
  consumed_atomic = consumed_atomic;
  released_atomic = v.released_atomic;
  held_reservation_atomic = v.held_reservation_atomic;
  execution_cost_status = v.execution_cost_status;
  execution_cost_atomic = v.execution_cost_atomic;
  output_hash = v.output_hash;
  failure_class = v.failure_class;
  unresolved_reason = v.unresolved_reason;
  protocol_fee_atomic = v.protocol_fee_atomic;
  refund_reserve_atomic = v.refund_reserve_atomic;
  invocation_award_atomic = v.invocation_award_atomic;
  award_state = award_state;
  external_settlement_hash = none;
  external_royalty_credits_atomic = v.external_royalty_credits_atomic;
  employer_self_credit_atomic = v.employer_self_credit_atomic;
  journal_entries = v.journal_entries;
  occurred_at = given v.finalized_at;
  receipt_signer_id = signer_id;
}

unfoldable pub build_invocation_receipt :
    Platform
    → Calendar
    → Invocation
    → Reservation
    → Option Award
    → JsString
    → JsString
    → Result AwardError Receipt
build_invocation_receipt p calendar invocation r award employer_id signer_id = do
  fail_if
      (not (text_eq invocation.reservation_id r.reservation_id)
        || not (text_eq invocation.invocation_id r.quote.invocation_id))
      receipt_binding
  fail_if (not (text_eq invocation.beneficiary_id employer_id)) receipt_binding
  fail_if (not (is_terminal invocation.state)) receipt_state
  award_state ← require_award invocation award
  consumed_atomic ← consumed_by invocation
  validate_receipt_payload p calendar
      (receipt_of invocation r award_state consumed_atomic employer_id signer_id)
