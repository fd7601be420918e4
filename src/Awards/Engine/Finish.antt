-- ===== src/Awards/Engine/Finish.antt =====
-- spikes/internal-invocation-awards/src/engine.mjs: how the last transaction of
-- `executeAuthorizedInvocation` ends an execution, by the outcome of the executor.
pub mod Operation
pub mod Money
use skill_asset_protocol.Base.{
  ℕ, ◌+◌, [], ◌++◌, not, Option, none, some, JsString, js, text_eq, Result, ok, ◌>>=◌, ◌>>◌,
  if◌then◌else◌, decimal, lookup,
}
use skill_asset_protocol.Awards.Errors.{AwardError, Calendar, policy_missing}
use skill_asset_protocol.Awards.Schema.{Policy, to_atomic}
use skill_asset_protocol.Awards.Budget.{Reservation, first_chars, from_difference}
use skill_asset_protocol.Awards.Budget.Moves.{Moved, Expected}
use skill_asset_protocol.Awards.Budget.Settlement.{
  finalize_reservation, release_reservation, ReleaseReason, UnresolvedReason, executor_threw,
  malformed_outcome, cost_unknown, period_closed_after_start, hold_unresolved_reservation,
}
use skill_asset_protocol.Awards.Outcome.{
  Member, Outcome, succeeded, failed_after_start, unresolved_after_start,
}
use skill_asset_protocol.Awards.Invocation.{InvocationState, AwardState, Invocation, Award}
use skill_asset_protocol.Awards.Engine.{EngineState, require_found, policy_key}
use skill_asset_protocol.Awards.Engine.Commit.{Place, serialized_entries}

-- What an ending does with the money, and the Invocation before its receipt.
pub record Ending : Type 0 where
  pub money : Moved
  pub invocation : Invocation
  pub award : Option Award

-- The fields that every ending sets.
unfoldable pub ended_invocation : Invocation → InvocationState → Place → JsString → Invocation
ended_invocation v state place now = record v {
  state = state;
  revision = v.revision + 1;
  finalized_at = some now;
  receipt_sequence_scope = some place.scope;
  receipt_sequence = some place.sequence;
  receipt_id = some place.receipt_id;
}

abbrev pub current_revisions : EngineState → Reservation → Expected
current_revisions state r = record {
  budget_revision = state.budget.revision;
  reservation_revision = r.revision;
}

unfoldable pub reason_name : UnresolvedReason → JsString
reason_name executor_threw = js "executor_threw"
reason_name malformed_outcome = js "malformed_outcome"
reason_name cost_unknown = js "cost_unknown"
reason_name period_closed_after_start = js "period_closed_after_start"

-- The cost, the output and the class of a failure that an outcome knows, and why it is unresolved
-- where the period of the budget has closed.
abbrev pub known_cost : Outcome → Option JsString
known_cost (succeeded cost hash) = some cost
known_cost (failed_after_start cost class) = some cost
known_cost (unresolved_after_start reason) = none

abbrev pub known_output : Outcome → Option Member
known_output (succeeded cost hash) = some hash
known_output _ = none

abbrev pub known_failure : Outcome → Option JsString
known_failure (failed_after_start cost class) = some class
known_failure _ = none

abbrev pub closing_reason : Outcome → UnresolvedReason
closing_reason (unresolved_after_start reason) = reason
closing_reason _ = period_closed_after_start

abbrev pub cost_status : Option JsString → JsString
cost_status none = js "unresolved"
cost_status (some cost) = js "known"

module _ (calendar : Calendar) (state : EngineState) (v : Invocation) (r : Reservation)
    (place : Place) (now : JsString) where
  -- The reservation is held: the cost is unknown, or the period of the budget has closed.
  unfoldable pub end_held :
      UnresolvedReason
      → Option JsString
      → Option Member
      → Option JsString
      → Result AwardError Ending
  end_held reason cost output failure = do
    money ←
        hold_unresolved_reservation calendar state.budget r (current_revisions state r) reason
          v.execution_attempt_id cost now
    ok (record {
      money = money;
      invocation = record (ended_invocation v InvocationState.unresolved place now) {
        execution_cost_status = some (cost_status cost);
        execution_cost_atomic = cost;
        held_reservation_atomic = r.reserved_atomic;
        output_hash = output;
        failure_class = failure;
        unresolved_reason = some (reason_name reason);
        journal_entries = [];
      };
      award = none;
    })

  abbrev pub award_state_of : Policy → AwardState
  award_state_of policy =
      if text_eq policy.vesting_rule (js "none")
      then AwardState.earned
      else AwardState.vesting_pending

  unfoldable pub award_of : AwardState → JsString → Award
  award_of award_state amount_atomic = record {
    schema_version = 1;
    award_id = js "award-" ++ v.invocation_id;
    invocation_id = v.invocation_id;
    recipient_id = v.creator_id;
    policy_id = v.policy_id;
    policy_version = v.policy_version;
    policy_hash = v.policy_hash;
    period = v.period;
    currency = v.currency;
    atomic_scale = v.atomic_scale;
    amount_atomic = amount_atomic;
    state = award_state;
    measured_at = now;
    earned_at = elim award_state [ AwardState.earned ↦ some now | _ ↦ none ];
    payable_at = none;
    paid_at = none;
  }

  -- The gross of a success: its cost with the fee, the reserve and the award of the quote.
  unfoldable pub success_gross : JsString → Result AwardError ℕ
  success_gross cost_atomic = do
    cost ← to_atomic cost_atomic
    fee ← to_atomic r.quote.protocol_fee_atomic
    reserve ← to_atomic r.quote.refund_reserve_atomic
    award ← to_atomic r.quote.max_invocation_award_atomic
    ok (cost + fee + reserve + award)

  -- What the event of the money says was released: the amount less what is consumed.
  unfoldable pub released_by : ℕ → Result AwardError JsString
  released_by consumed_amount = do
    amount ← to_atomic r.reserved_atomic
    from_difference amount consumed_amount

  unfoldable pub end_succeeded : JsString → Member → Result AwardError Ending
  end_succeeded cost output = do
    gross ← success_gross cost
    done ← finalize_reservation calendar state.budget r (record {
      expected = current_revisions state r;
      execution_attempt_id = v.execution_attempt_id;
      recipient_id = v.creator_id;
      execution_cost_atomic = cost;
      protocol_fee_atomic = r.quote.protocol_fee_atomic;
      refund_reserve_atomic = r.quote.refund_reserve_atomic;
      gross_atomic = decimal gross;
      now = now;
    })
    policy ←
        require_found policy_missing
          (lookup (policy_key v.policy_id v.policy_version) state.policies)
    released ← released_by gross
    let award = award_of (award_state_of policy) (decimal done.allocation.invocation_award)
    ok (record {
      money = done.moved;
      invocation = record (ended_invocation v InvocationState.succeeded place now) {
        execution_cost_status = some (js "known");
        execution_cost_atomic = some cost;
        protocol_fee_atomic = r.quote.protocol_fee_atomic;
        refund_reserve_atomic = r.quote.refund_reserve_atomic;
        invocation_award_atomic = award.amount_atomic;
        released_atomic = released;
        award_id = some award.award_id;
        output_hash = some output;
        journal_entries = serialized_entries done.allocation.journal_entries;
      };
      award = some award;
    })

  unfoldable pub end_failed : JsString → JsString → Result AwardError Ending
  end_failed cost_atomic class = do
    money ←
        release_reservation calendar state.budget r (current_revisions state r)
          ReleaseReason.failed_after_start v.execution_attempt_id cost_atomic now
    cost ← to_atomic cost_atomic
    released ← released_by cost
    ok (record {
      money = money;
      invocation = record (ended_invocation v InvocationState.failed place now) {
        execution_cost_status = some (js "known");
        execution_cost_atomic = some cost_atomic;
        released_atomic = released;
        failure_class = some class;
        journal_entries = serialized_entries money.event.journal_entries;
      };
      award = none;
    })

  unfoldable pub end_in_period : Outcome → Result AwardError Ending
  end_in_period (succeeded cost output) = end_succeeded cost output
  end_in_period (failed_after_start cost class) = end_failed cost class
  end_in_period (unresolved_after_start reason) = end_held reason none v.output_hash v.failure_class

  unfoldable pub end_execution : Outcome → Result AwardError Ending
  end_execution outcome =
      if not (text_eq (first_chars 7 now) v.period)
      then end_held (closing_reason outcome) (known_cost outcome) (known_output outcome)
          (known_failure outcome)
      else end_in_period outcome
