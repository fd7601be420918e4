-- ===== src/Awards/Receipts/Terminal.antt =====
-- spikes/internal-invocation-awards/src/statements.mjs: what `validateReceiptPayload` demands of the
-- receipt of each terminal state, and the whole of it.
use skill_asset_protocol.Base.{
  ℕ, ◌+◌, List, [], ◌∷◌, Bool, true, false, not, ◌&&◌, ◌||◌, Option, none, some, JsString, js,
  text_eq, text_lt, null, length, leb, ◌==◌, Result, ok, err, ◌>>=◌, ◌>>◌, fail_if, sum_by, bigint,
  pos,
}
use skill_asset_protocol.Money.Gross.{JournalEntry, JournalKind, validate_internal_journal_entries}
use skill_asset_protocol.Kernel.Platform.{Platform}
use skill_asset_protocol.Awards.Errors.{
  AwardError, Calendar, of_money, atomic_format, receipt_journal, receipt_total, receipt_succeeded,
  receipt_failed, receipt_unresolved, receipt_cancelled, receipt_state, receipt_attempt,
}
use skill_asset_protocol.Awards.Schema.{to_atomic}
use skill_asset_protocol.Awards.Budget.{ReservationState}
use skill_asset_protocol.Awards.Outcome.{failure_classes}
use skill_asset_protocol.Awards.Invocation.{InvocationState, AwardState, is_awarded}
use skill_asset_protocol.Awards.Receipts.{
  Receipt, ReceiptAmounts, is_none, is_text, is_one_of, is_hash, validate_journal_entries,
  validate_receipt_identity, validate_receipt_amounts,
}

abbrev is_consumed : ReservationState → Bool
is_consumed ReservationState.consumed = true
is_consumed _ = false

abbrev is_released : ReservationState → Bool
is_released ReservationState.released = true
is_released _ = false

abbrev is_held : ReservationState → Bool
is_held ReservationState.held_unresolved = true
is_held _ = false

abbrev finalized : JsString
finalized = js "internal_invocation_finalized"

abbrev pub has_award : Option AwardState → Bool
has_award none = false
has_award (some state) = is_awarded state

unfoldable pub required_cost : Receipt → Result AwardError ℕ
required_cost x = elim x.execution_cost_atomic [ none ↦ err atomic_format | some s ↦ to_atomic s ]

-- The fee, the reserve and the award are all '0' and there is no award.
unfoldable pub pays_nothing : Receipt → Bool
pays_nothing x =
    text_eq x.protocol_fee_atomic (js "0")
    && text_eq x.refund_reserve_atomic (js "0")
    && text_eq x.invocation_award_atomic (js "0")
    && is_none x.award_state

unfoldable pub validate_succeeded :
    Receipt → ReceiptAmounts → List JournalEntry → Result AwardError (Unit {0})
validate_succeeded x amounts entries = do
  fail_if
      (not (text_eq x.receipt_type finalized)
        || not (text_eq x.budget_period x.period)
        || not (is_consumed x.reservation_state)
        || not (is_text (js "known") x.execution_cost_status)
        || is_none x.execution_cost_atomic
        || not (is_hash x.output_hash)
        || not (is_none x.failure_class)
        || not (is_none x.unresolved_reason)
        || not (has_award x.award_state))
      receipt_succeeded
  cost ← required_cost x
  fee ← to_atomic x.protocol_fee_atomic
  reserve ← to_atomic x.refund_reserve_atomic
  award ← to_atomic x.invocation_award_atomic
  fail_if (not (cost + fee + reserve + award == amounts.consumed_amount)) receipt_total
  fail_if
      (not (sum_by (λ (e : JournalEntry). e.amount) entries == amounts.consumed_amount)
        || not (length entries == 4))
      receipt_journal
  _ ← of_money (
      validate_internal_journal_entries (record {
        kind = JournalKind.succeeded;
        allocation = record {
          gross = bigint (pos amounts.consumed_amount);
          execution_cost = bigint (pos cost);
          protocol_fee = bigint (pos fee);
          refund_reserve = bigint (pos reserve);
          recipient_id = x.creator_id;
          employer_id = some x.employer_id;
        };
        journal_entries = entries;
      }))
  ok tt

unfoldable pub validate_failed :
    Receipt → ReceiptAmounts → List JournalEntry → Result AwardError (Unit {0})
validate_failed x amounts entries = do
  fail_if
      (not (text_eq x.receipt_type finalized)
        || not (text_eq x.budget_period x.period)
        || not (is_released x.reservation_state)
        || not (is_text (js "known") x.execution_cost_status)
        || is_none x.execution_cost_atomic
        || not (is_none x.output_hash)
        || not (is_one_of failure_classes x.failure_class)
        || not (is_none x.unresolved_reason)
        || not (pays_nothing x)
        || not (length entries == 1))
      receipt_failed
  cost ← required_cost x
  fail_if (not (amounts.consumed_amount == cost)) receipt_failed
  _ ← of_money (
      validate_internal_journal_entries (record {
        kind = JournalKind.failed_after_start;
        allocation = record {
          gross = bigint (pos amounts.consumed_amount);
          execution_cost = bigint (pos cost);
          protocol_fee = bigint (pos 0);
          refund_reserve = bigint (pos 0);
          recipient_id = [];
          employer_id = none;
        };
        journal_entries = entries;
      }))
  ok tt

unfoldable pub cost_within : Option JsString → ℕ → Bool
cost_within none held = false
cost_within (some s) held = elim (to_atomic s) [ err e ↦ false | ok cost ↦ leb cost held ]

unfoldable pub known_after_close : Receipt → ReceiptAmounts → Bool
known_after_close x amounts =
    is_text (js "period_closed_after_start") x.unresolved_reason
    && text_lt x.budget_period x.period
    && is_text (js "known") x.execution_cost_status
    && cost_within x.execution_cost_atomic amounts.held_amount
    && ((is_hash x.output_hash && is_none x.failure_class)
        || (is_none x.output_hash && is_one_of failure_classes x.failure_class))

unfoldable pub unknown_cost : Receipt → Bool
unknown_cost x =
    is_one_of (js "executor_threw" ∷ js "malformed_outcome" ∷ js "cost_unknown" ∷ [])
      x.unresolved_reason
    && is_text (js "unresolved") x.execution_cost_status
    && is_none x.execution_cost_atomic
    && is_none x.output_hash
    && is_none x.failure_class

unfoldable pub validate_unresolved :
    Receipt → ReceiptAmounts → List JournalEntry → Result AwardError (Unit {0})
validate_unresolved x amounts entries =
    fail_if
      (not (text_eq x.receipt_type finalized)
        || not (is_held x.reservation_state)
        || (not (known_after_close x amounts) && not (unknown_cost x))
        || not (pays_nothing x)
        || not (amounts.consumed_amount == 0)
        || not (amounts.released_amount == 0)
        || not (amounts.held_amount == amounts.reserved_amount)
        || not (null entries))
      receipt_unresolved

unfoldable pub validate_cancelled :
    Receipt → ReceiptAmounts → List JournalEntry → Result AwardError (Unit {0})
validate_cancelled x amounts entries =
    fail_if
      (not (text_eq x.receipt_type (js "internal_invocation_cancelled"))
        || not (is_released x.reservation_state)
        || not (is_none x.execution_attempt_id)
        || not (is_none x.execution_cost_status)
        || not (is_none x.execution_cost_atomic)
        || not (is_none x.output_hash)
        || not (is_none x.failure_class)
        || not (is_none x.unresolved_reason)
        || not (pays_nothing x)
        || not (amounts.consumed_amount == 0)
        || not (amounts.released_amount == amounts.reserved_amount)
        || not (amounts.held_amount == 0)
        || not (null entries))
      receipt_cancelled

unfoldable pub validate_terminal :
    InvocationState → Receipt → ReceiptAmounts → List JournalEntry → Result AwardError (Unit {0})
validate_terminal InvocationState.succeeded x amounts entries = validate_succeeded x amounts entries
validate_terminal InvocationState.failed x amounts entries = validate_failed x amounts entries
validate_terminal InvocationState.unresolved x amounts entries =
    validate_unresolved x amounts entries
validate_terminal InvocationState.cancelled x amounts entries = validate_cancelled x amounts entries
validate_terminal _ x amounts entries = err receipt_state

abbrev is_cancelled : InvocationState → Bool
is_cancelled InvocationState.cancelled = true
is_cancelled _ = false

-- `typeof executionAttemptId === 'string' && executionAttemptId.length > 0`
abbrev is_named : Option JsString → Bool
is_named none = false
is_named (some s) = not (null s)

unfoldable pub validate_receipt_payload : Platform → Calendar → Receipt → Result AwardError Receipt
validate_receipt_payload p calendar x = do
  validate_receipt_identity p calendar x
  amounts ← validate_receipt_amounts x
  entries ← validate_journal_entries x.journal_entries
  fail_if
      (not (
        amounts.reserved_amount
        == amounts.consumed_amount + amounts.released_amount + amounts.held_amount))
      receipt_total
  validate_terminal x.invocation_state x amounts entries
  fail_if (not (is_cancelled x.invocation_state) && not (is_named x.execution_attempt_id))
      receipt_attempt
  ok x
