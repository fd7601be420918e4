-- ===== src/Awards/Budget.antt =====
-- spikes/internal-invocation-awards/src/budget.mjs: the state of a budget and of a reservation, and
-- the checks and replacements that its operations share.
-- `signBudget`, a tool of the tests, is not modelled.
pub mod Authorized
pub mod Moves
pub mod Settlement
pub mod Amounts
pub mod Ending
pub mod Settled
pub mod Life
pub mod Reserved
use Prim.Native.Nat.{zero, suc}
use skill_asset_protocol.Base.{
  ℕ, ◌+◌, ◌-◌, List, [], ◌∷◌, ◌++◌, not, ◌||◌, Option, JsString, js, text_eq, ltb, leb, ◌==◌,
  if◌then◌else◌, Result, ok, err, ◌>>=◌, ◌>>◌, fail_if, decimal,
}
use skill_asset_protocol.Money.Gross.{JournalEntry}
use skill_asset_protocol.Kernel.Policy.Fields.{max_safe_integer}
use skill_asset_protocol.Awards.Errors.{
  AwardError, Calendar, atomic_sign, budget_revision, budget_overdrawn, reservation_revision,
  stale_revision, authorization_not_effective, authorization_expired, period_inactive,
}
use skill_asset_protocol.Awards.Schema.{to_atomic, parse_utc, Policy, validate_policy}
use skill_asset_protocol.Awards.Quote.{Quote}

-- The signed authorization that finance gives for a budget.
pub record Authorization : Type 0 where
  pub schema_version : ℕ
  pub budget_id : JsString
  pub policy_id : JsString
  pub policy_version : ℕ
  pub policy_hash : JsString
  pub period : JsString
  pub currency : JsString
  pub atomic_scale : ℕ
  pub allocated_atomic : JsString
  pub effective_at : JsString
  pub expires_at : JsString
  pub signer_id : JsString
  pub signature : JsString

pub record Budget : Type 0 where
  pub schema_version : ℕ
  pub budget_id : JsString
  pub policy_id : JsString
  pub policy_version : ℕ
  pub policy_hash : JsString
  pub period : JsString
  pub currency : JsString
  pub atomic_scale : ℕ
  pub authorization : Authorization
  pub policy : Policy
  pub allocated_atomic : JsString
  pub reserved_atomic : JsString
  pub consumed_atomic : JsString
  pub released_atomic : JsString
  pub revision : ℕ

pub data ReservationState : Type 0 where
  reserved executing consumed released held_unresolved : ReservationState

pub record Reservation : Type 0 where
  pub schema_version : ℕ
  pub reservation_id : JsString
  pub quote : Quote
  pub state : ReservationState
  pub reserved_atomic : JsString
  pub revision : ℕ
  pub execution_attempt_id : Option JsString
  pub authorized_at : JsString
  pub started_at : Option JsString
  pub finalized_at : Option JsString

-- The amounts of a budget as numbers.
pub record Totals : Type 0 where
  pub allocated : ℕ
  pub in_reserve : ℕ
  pub spent : ℕ
  pub given_back : ℕ

unfoldable pub read_totals : Budget → Result AwardError Totals
read_totals budget = do
  allocated ← to_atomic budget.allocated_atomic
  in_reserve ← to_atomic budget.reserved_atomic
  spent ← to_atomic budget.consumed_atomic
  given_back ← to_atomic budget.released_atomic
  ok (record {
    allocated = allocated;
    in_reserve = in_reserve;
    spent = spent;
    given_back = given_back;
  })

-- The source returns the budget itself; the model returns the amounts it has read.
unfoldable pub validate_budget_state : Budget → Result AwardError Totals
validate_budget_state budget = do
  fail_if (not (budget.schema_version == 1) || ltb max_safe_integer budget.revision) budget_revision
  totals ← read_totals budget
  fail_if (ltb totals.allocated (totals.in_reserve + totals.spent)) budget_overdrawn
  ok totals

-- The same for a reservation and its amount.
unfoldable pub validate_reservation : Reservation → Result AwardError ℕ
validate_reservation r = do
  fail_if (not (r.schema_version == 1) || ltb max_safe_integer r.revision) reservation_revision
  to_atomic r.reserved_atomic

unfoldable pub require_revision : ℕ → ℕ → Result AwardError (Unit {0})
require_revision actual expected = fail_if (not (actual == expected)) stale_revision

-- `String(now).slice(0, 7)`
unfoldable pub first_chars : ℕ → JsString → JsString
first_chars zero s = []
first_chars (suc n) [] = []
first_chars (suc n) (c ∷ s) = c ∷ first_chars n s

unfoldable pub require_current_authorization :
    Calendar → Budget → JsString → Result AwardError (Unit {0})
require_current_authorization calendar budget now = do
  _ ← validate_policy calendar budget.policy now
  at ← parse_utc calendar now
  effective_at ← parse_utc calendar budget.authorization.effective_at
  fail_if (ltb at effective_at) authorization_not_effective
  expires_at ← parse_utc calendar budget.authorization.expires_at
  fail_if (leb expires_at at) authorization_expired
  fail_if (not (text_eq (first_chars 7 now) budget.period)) period_inactive

-- `replaceBudget(budget, changes)` and `replaceReservation(reservation, changes)`, with the changed
-- objects as arguments
unfoldable pub replace_budget : Budget → Result AwardError Budget
replace_budget next = do _ ← validate_budget_state next; ok next

unfoldable pub replace_reservation : Reservation → Result AwardError Reservation
replace_reservation next = do _ ← validate_reservation next; ok next

-- `fromAtomic(a - b)`, which throws where the difference is negative
unfoldable pub from_difference : ℕ → ℕ → Result AwardError JsString
from_difference a b = if ltb a b then err atomic_sign else ok (decimal (a - b))

pub data EventType : Type 0 where
  budget_reserved execution_started budget_consumed budget_released : EventType
  execution_period_closed execution_cost_unresolved : EventType

unfoldable pub event_name : EventType → JsString
event_name budget_reserved = js "budget_reserved"
event_name execution_started = js "execution_started"
event_name budget_consumed = js "budget_consumed"
event_name budget_released = js "budget_released"
event_name execution_period_closed = js "execution_period_closed"
event_name execution_cost_unresolved = js "execution_cost_unresolved"

-- The fields that all events have.
pub record Event : Type 0 where
  pub event_id : JsString
  pub event_type : EventType
  pub occurred_at : JsString
  pub budget_id : JsString
  pub budget_revision : ℕ
  pub reservation_id : JsString
  pub reservation_revision : ℕ
  pub invocation_id : JsString
  pub journal_entries : List JournalEntry

-- The details other than the journal repeat arguments of the operation and are left out.
unfoldable pub event : EventType → Reservation → Budget → JsString → List JournalEntry → Event
event type r budget now entries = record {
  event_id = r.reservation_id ++ b':' ∷ (event_name type ++ b':' ∷ decimal budget.revision);
  event_type = type;
  occurred_at = now;
  budget_id = budget.budget_id;
  budget_revision = budget.revision;
  reservation_id = r.reservation_id;
  reservation_revision = r.revision;
  invocation_id = r.quote.invocation_id;
  journal_entries = entries;
}

unfoldable pub remaining_atomic : Budget → Result AwardError ℕ
remaining_atomic budget = do
  totals ← validate_budget_state budget
  ok (totals.allocated - totals.in_reserve - totals.spent)
