-- ===== src/Awards/Budget/Moves.antt =====
-- spikes/internal-invocation-awards/src/budget.mjs: how an amount is reserved and its
-- execution starts.
use skill_asset_protocol.Base.{
  ℕ, ◌+◌, [], Bool, true, false, not, ◌||◌, Option, none, some, JsString, text_eq, null, ltb, ◌==◌,
  Result, ok, ◌>>=◌, ◌>>◌, fail_if, decimal,
}
use skill_asset_protocol.Kernel.Platform.{Platform}
use skill_asset_protocol.Awards.Errors.{
  AwardError, Calendar, string_empty, quote_binding, budget_insufficient, reservation_state,
  attempt_mismatch,
}
use skill_asset_protocol.Awards.Schema.{to_atomic, parse_utc}
use skill_asset_protocol.Awards.Quote.{Quote, validate_quote}
use skill_asset_protocol.Awards.Budget.{
  Budget, Reservation, ReservationState, reserved, executing, validate_budget_state,
  validate_reservation, require_revision, require_current_authorization, replace_budget,
  replace_reservation, Event, event, remaining_atomic, budget_reserved, execution_started,
}

-- What every operation returns.
pub record Moved : Type 0 where
  pub budget : Budget
  pub reservation : Reservation
  pub event : Event

-- `if (reservation.state !== wanted)`
abbrev pub is_reserved : ReservationState → Bool
is_reserved reserved = true
is_reserved _ = false

abbrev pub is_executing : ReservationState → Bool
is_executing executing = true
is_executing _ = false

unfoldable pub reserve_budget :
    Platform → Calendar → Budget → Quote → ℕ → JsString → JsString → Result AwardError Moved
reserve_budget p calendar budget input expected_revision reservation_id now = do
  totals ← validate_budget_state budget
  require_revision budget.revision expected_revision
  require_current_authorization calendar budget now
  fail_if (null reservation_id) string_empty
  quote ← validate_quote p calendar input budget.policy now
  fail_if
      (not (text_eq quote.policy_id budget.policy_id)
        || not (quote.policy_version == budget.policy_version))
      quote_binding
  amount ← to_atomic quote.max_gross_atomic
  remaining ← remaining_atomic budget
  fail_if (ltb remaining amount) budget_insufficient
  next ← replace_budget (record budget {
    reserved_atomic = decimal (totals.in_reserve + amount);
    revision = budget.revision + 1;
  })
  let reservation : Reservation = record {
    schema_version = 1;
    reservation_id = reservation_id;
    quote = quote;
    state = reserved;
    reserved_atomic = quote.max_gross_atomic;
    revision = 0;
    execution_attempt_id = none;
    authorized_at = now;
    started_at = none;
    finalized_at = none;
  }
  ok (record {
    budget = next;
    reservation = reservation;
    event = event budget_reserved reservation next now [];
  })

-- The revisions that the caller has seen.
pub record Expected : Type 0 where
  pub budget_revision : ℕ
  pub reservation_revision : ℕ

unfoldable pub require_transition_revisions :
    Budget → Reservation → Expected → Result AwardError (Unit {0})
require_transition_revisions budget r expected = do
  require_revision budget.revision expected.budget_revision
  require_revision r.revision expected.reservation_revision

unfoldable pub start_reservation_execution :
    Calendar → Budget → Reservation → Expected → JsString → JsString → Result AwardError Moved
start_reservation_execution calendar budget r expected attempt_id now = do
  _ ← validate_budget_state budget
  _ ← validate_reservation r
  require_transition_revisions budget r expected
  fail_if (not (is_reserved r.state)) reservation_state
  fail_if (null attempt_id) string_empty
  _ ← parse_utc calendar now
  next ← replace_budget (record budget { revision = budget.revision + 1 })
  next_reservation ← replace_reservation (record r {
    state = executing;
    revision = r.revision + 1;
    execution_attempt_id = some attempt_id;
    started_at = some now;
  })
  ok (record {
    budget = next;
    reservation = next_reservation;
    event = event execution_started next_reservation next now [];
  })

-- `left === right`, where either may be null
unfoldable pub same_attempt : Option JsString → Option JsString → Bool
same_attempt none none = true
same_attempt (some s) (some t) = text_eq s t
same_attempt _ _ = false

unfoldable pub require_executing :
    Budget → Reservation → Expected → Option JsString → Result AwardError (Unit {0})
require_executing budget r expected attempt_id = do
  require_transition_revisions budget r expected
  fail_if (not (is_executing r.state)) reservation_state
  fail_if (not (same_attempt r.execution_attempt_id attempt_id)) attempt_mismatch
