-- ===== src/Awards/Engine/Finish/Operation.antt =====
-- spikes/internal-invocation-awards/src: `transactRecord` of store.mjs, and the last transaction of
-- `executeAuthorizedInvocation` of engine.mjs, which commits the receipt of an execution.
use skill_asset_protocol.Base.{
  ℕ, ◌+◌, List, [], ◌∷◌, ◌++◌, not, ◌||◌, Option, none, some, JsString, js, null, ◌==◌, Result, ok,
  ◌>>=◌, ◌>>◌, fail_if, decimal, lookup, map_with, Dictionary,
}
use skill_asset_protocol.Kernel.Platform.{Platform}
use skill_asset_protocol.Awards.Errors.{
  AwardError, Calendar, record_missing, stale_revision, attempt_mismatch,
}
use skill_asset_protocol.Awards.Schema.{parse_utc}
use skill_asset_protocol.Awards.Keys.{Crypto}
use skill_asset_protocol.Awards.Budget.{Reservation}
use skill_asset_protocol.Awards.Outcome.{Outcome, RawOutcome, parse_executor_outcome}
use skill_asset_protocol.Awards.Invocation.{invocation_state_name, AwardState, Invocation, Award}
use skill_asset_protocol.Awards.Receipts.{is_text}
use skill_asset_protocol.Awards.Receipts.Signed.{ReceiptSigner}
use skill_asset_protocol.Awards.Store.{advance}
use skill_asset_protocol.Awards.Engine.{
  EngineState, EngineEvent, of_budget, invocation_event, require_found,
}
use skill_asset_protocol.Awards.Engine.Commit.{Place, receipt_place, Committed, commit_receipt}
use skill_asset_protocol.Awards.Engine.Finish.{Ending, end_execution}

-- The records that an executor was called for, as it saw them.
pub record RecordCas : Type 0 where
  pub invocation_id : JsString
  pub expected_invocation_revision : ℕ
  pub reservation_id : JsString
  pub expected_reservation_revision : ℕ
  pub execution_attempt_id : JsString

unfoldable pub require_current_records :
    RecordCas → Invocation → Reservation → Result AwardError (Unit {0})
require_current_records cas v r = do
  fail_if (not (v.revision == cas.expected_invocation_revision)) stale_revision
  fail_if (not (r.revision == cas.expected_reservation_revision)) stale_revision
  fail_if
      (null cas.execution_attempt_id
        || not (is_text cas.execution_attempt_id v.execution_attempt_id)
        || not (is_text cas.execution_attempt_id r.execution_attempt_id))
      attempt_mismatch

-- The operation that `transactRecord` queues, on the state it finds.
unfoldable pub transact_record :
    EngineState
    → RecordCas
    → (EngineState → Invocation → Reservation → Result AwardError EngineState)
    → Result AwardError EngineState
transact_record state cas transition = do
  v ← require_found record_missing (lookup cas.invocation_id state.invocations)
  r ← require_found record_missing (lookup cas.reservation_id state.reservations)
  require_current_records cas v r
  advance (λ (s : EngineState). s.revision) state (λ s. transition s v r)

-- The events of an award: that it is measured, and that it is earned where it is.
unfoldable pub award_events : Option Award → JsString → JsString → List EngineEvent
award_events none invocation_id now = []
award_events (some award) invocation_id now =
    let details = (js "awardId", award.award_id) ∷ (js "amountAtomic", award.amount_atomic) ∷ [] in
    invocation_event (js "invocation_award_measured") invocation_id now details ∷ elim award.state [
      | AwardState.earned ↦
          invocation_event (js "invocation_award_earned") invocation_id now details ∷ []
      | _ ↦ []
    ]

unfoldable pub with_award : Dictionary Award → Option Award → Dictionary Award
with_award awards none = awards
with_award awards (some award) = map_with awards award.award_id award

unfoldable pub finished_state :
    EngineState → Reservation → Ending → Place → Committed → JsString → EngineState
finished_state state r ending place committed now = record state {
  revision = state.revision + 1;
  budget = ending.money.budget;
  reservations = map_with state.reservations r.reservation_id ending.money.reservation;
  invocations =
      map_with state.invocations ending.invocation.invocation_id
        (record ending.invocation { receipt_hash = some committed.hash });
  awards = with_award state.awards ending.award;
  events =
      state.events
      ++ of_budget ending.money.event
        ∷ invocation_event (js "invocation_" ++ invocation_state_name ending.invocation.state)
            ending.invocation.invocation_id now
            ((js "receiptId", place.receipt_id)
              ∷ (js "receiptHash", committed.hash)
              ∷ (js "receiptSequence", decimal place.sequence)
              ∷ (js "receiptSequenceScope", place.scope)
              ∷ attempt_detail ending.invocation.execution_attempt_id)
        ∷ award_events ending.award ending.invocation.invocation_id now;
  ledger = committed.ledger;
}
  where
    attempt_detail : Option JsString → Dictionary JsString
    attempt_detail none = []
    attempt_detail (some attempt) = (js "executionAttemptId", attempt) ∷ []

module _ (p : Platform) (c : Crypto) (calendar : Calendar) (signer : ReceiptSigner) where
  unfoldable pub finish :
      Outcome → JsString → EngineState → Invocation → Reservation → Result AwardError EngineState
  finish outcome now state v r = do
    _ ← parse_utc calendar now
    place ← receipt_place p state v
    ending ← end_execution calendar state v r place now outcome
    committed ←
        commit_receipt p c calendar signer state ending.invocation ending.money.reservation
          ending.award
    ok (finished_state state r ending place committed now)

  -- What follows the call of the executor, with what it returned; an executor that throws has
  -- returned an outcome that says so.
  unfoldable pub finish_execution :
      EngineState → RecordCas → Reservation → RawOutcome → JsString → Result AwardError EngineState
  finish_execution state cas started raw now =
      transact_record state cas (finish (parse_executor_outcome raw started.quote) now)
