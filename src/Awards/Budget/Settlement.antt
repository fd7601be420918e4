-- ===== src/Awards/Budget/Settlement.antt =====
-- spikes/internal-invocation-awards/src/budget.mjs: how a reservation ends: consumed, released, or held
-- unresolved.
use skill_asset_protocol.Base.{
  ℕ, ◌+◌, ◌-◌, List, [], not, ◌||◌, Option, none, some, JsString, text_eq, ltb, ◌==◌, Result, ok,
  err, ◌>>=◌, ◌>>◌, fail_if, decimal, bigint, pos,
}
use skill_asset_protocol.Money.Gross.{
  InternalAllocation, allocate_internal_gross, allocate_internal_failure_gross, JournalEntry,
}
use skill_asset_protocol.Awards.Errors.{
  AwardError, Calendar, of_money, atomic_format, reservation_state, attempt_mismatch,
  recipient_mismatch, execution_cost_limit, fee_mismatch, reserve_mismatch, gross_mismatch,
  gross_limit, award_mismatch, cancellation_cost, unresolved_cost,
}
use skill_asset_protocol.Awards.Schema.{to_atomic, parse_utc}
use skill_asset_protocol.Awards.Budget.{
  Budget, Reservation, ReservationState, consumed, released, held_unresolved, Totals,
  validate_budget_state, validate_reservation, replace_budget, replace_reservation, from_difference,
  EventType, event, budget_consumed, budget_released, execution_period_closed,
  execution_cost_unresolved,
}
use skill_asset_protocol.Awards.Budget.Moves.{
  Moved, is_reserved, is_executing, Expected, require_transition_revisions, same_attempt,
  require_executing,
}

-- The end of a reservation that pays `cost` out of it and gives the rest back.
unfoldable pub settle_budget : Budget → Totals → ℕ → ℕ → Result AwardError Budget
settle_budget budget totals amount cost = do
  left ← from_difference totals.in_reserve amount
  rest ← from_difference amount cost
  replace_budget (record budget {
    reserved_atomic = left;
    consumed_atomic = decimal (totals.spent + cost);
    released_atomic = decimal (totals.given_back + (amount - cost));
    revision = budget.revision + 1;
  })

unfoldable pub settle_reservation :
    ReservationState → Reservation → JsString → Result AwardError Reservation
settle_reservation state r now =
    replace_reservation
      (record r { state = state; revision = r.revision + 1; finalized_at = some now })

pub record Actual : Type 0 where
  pub expected : Expected
  pub execution_attempt_id : Option JsString
  pub recipient_id : JsString
  pub execution_cost_atomic : JsString
  pub protocol_fee_atomic : JsString
  pub refund_reserve_atomic : JsString
  pub gross_atomic : JsString
  pub now : JsString

-- The gross and the allocation that the amounts make with the quote of the reservation.
unfoldable pub allocate_actual :
    Reservation → ℕ → Actual → Result AwardError (ℕ × InternalAllocation)
allocate_actual r amount actual = do
  cost ← to_atomic actual.execution_cost_atomic
  fee ← to_atomic actual.protocol_fee_atomic
  reserve ← to_atomic actual.refund_reserve_atomic
  gross ← to_atomic actual.gross_atomic
  award ← to_atomic r.quote.max_invocation_award_atomic
  max_cost ← to_atomic r.quote.max_execution_cost_atomic
  fail_if (ltb max_cost cost) execution_cost_limit
  fail_if (not (text_eq actual.protocol_fee_atomic r.quote.protocol_fee_atomic)) fee_mismatch
  fail_if (not (text_eq actual.refund_reserve_atomic r.quote.refund_reserve_atomic))
      reserve_mismatch
  fail_if (not (gross == cost + fee + reserve + award)) gross_mismatch
  fail_if (ltb amount gross) gross_limit
  allocation ← of_money (
      allocate_internal_gross (record {
        gross = bigint (pos gross);
        execution_cost = bigint (pos cost);
        protocol_fee = bigint (pos fee);
        refund_reserve = bigint (pos reserve);
        recipient_id = actual.recipient_id;
        employer_id = some r.quote.beneficiary_id;
      }))
  fail_if (not (allocation.invocation_award == award)) award_mismatch
  ok (gross, allocation)

pub record Finalized : Type 0 where
  pub moved : Moved
  pub allocation : InternalAllocation

unfoldable pub finalize_reservation :
    Calendar → Budget → Reservation → Actual → Result AwardError Finalized
finalize_reservation calendar budget r actual = do
  totals ← validate_budget_state budget
  amount ← validate_reservation r
  require_executing budget r actual.expected actual.execution_attempt_id
  _ ← parse_utc calendar actual.now
  fail_if (not (text_eq actual.recipient_id r.quote.creator_id)) recipient_mismatch
  (gross, allocation) ← allocate_actual r amount actual
  next ← settle_budget budget totals amount gross
  next_reservation ← settle_reservation consumed r actual.now
  let moved : Moved = record {
    budget = next;
    reservation = next_reservation;
    event = event budget_consumed next_reservation next actual.now allocation.journal_entries;
  }
  ok (record { moved = moved; allocation = allocation })

-- Any other reason is refused.
pub data ReleaseReason : Type 0 where
  cancelled_before_start failed_after_start : ReleaseReason

-- The checks of one reason, with the journal of what was spent.
unfoldable pub check_release :
    ReleaseReason → Reservation → Option JsString → ℕ → Result AwardError (List JournalEntry)
check_release cancelled_before_start r attempt_id cost = do
  fail_if (not (is_reserved r.state)) reservation_state
  fail_if (not (same_attempt attempt_id none) || not (cost == 0)) cancellation_cost
  ok []
check_release failed_after_start r attempt_id cost = do
  fail_if (not (is_executing r.state)) reservation_state
  fail_if (not (same_attempt r.execution_attempt_id attempt_id)) attempt_mismatch
  max_cost ← to_atomic r.quote.max_execution_cost_atomic
  fail_if (ltb max_cost cost) execution_cost_limit
  allocation ← of_money (allocate_internal_failure_gross (bigint (pos cost)))
  ok allocation.journal_entries

unfoldable pub release_reservation :
    Calendar
    → Budget
    → Reservation
    → Expected
    → ReleaseReason
    → Option JsString
    → JsString
    → JsString
    → Result AwardError Moved
release_reservation calendar budget r expected reason attempt_id cost_atomic now = do
  totals ← validate_budget_state budget
  amount ← validate_reservation r
  require_transition_revisions budget r expected
  _ ← parse_utc calendar now
  cost ← to_atomic cost_atomic
  entries ← check_release reason r attempt_id cost
  next ← settle_budget budget totals amount cost
  next_reservation ← settle_reservation released r now
  ok (record {
    budget = next;
    reservation = next_reservation;
    event = event budget_released next_reservation next now entries;
  })

-- Any other reason is refused.
pub data UnresolvedReason : Type 0 where
  executor_threw malformed_outcome cost_unknown period_closed_after_start : UnresolvedReason

-- A cost is known, and given, exactly when the period closed after the start.
unfoldable pub check_unresolved :
    UnresolvedReason → Reservation → Option JsString → Result AwardError (Unit {0})
check_unresolved period_closed_after_start r none = err atomic_format
check_unresolved period_closed_after_start r (some cost_atomic) = do
  cost ← to_atomic cost_atomic
  max_cost ← to_atomic r.quote.max_execution_cost_atomic
  fail_if (ltb max_cost cost) execution_cost_limit
check_unresolved _ r none = ok tt
check_unresolved _ r (some cost_atomic) = err unresolved_cost

abbrev pub unresolved_event : UnresolvedReason → EventType
unresolved_event period_closed_after_start = execution_period_closed
unresolved_event _ = execution_cost_unresolved

unfoldable pub hold_unresolved_reservation :
    Calendar
    → Budget
    → Reservation
    → Expected
    → UnresolvedReason
    → Option JsString
    → Option JsString
    → JsString
    → Result AwardError Moved
hold_unresolved_reservation calendar budget r expected reason attempt_id cost_atomic now = do
  _ ← validate_budget_state budget
  _ ← validate_reservation r
  require_executing budget r expected attempt_id
  _ ← parse_utc calendar now
  check_unresolved reason r cost_atomic
  next ← replace_budget (record budget { revision = budget.revision + 1 })
  next_reservation ← settle_reservation held_unresolved r now
  ok (record {
    budget = next;
    reservation = next_reservation;
    event = event (unresolved_event reason) next_reservation next now [];
  })
