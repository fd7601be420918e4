-- ===== src/Awards/Engine/Run/Change.antt =====
-- spikes/internal-invocation-awards/src/engine.mjs: what a step of the engine does to the budget and to
-- the reservations.
use skill_asset_protocol.Base.{
  ℕ, ◌≡◌, sym, ap, ◌∙◌, some, none, JsString, js, false, All, All-lookup, ok, arith, lookup,
  has_key, map_with, bind-ok, fail_if, Dictionary,
}
use skill_asset_protocol.Kernel.Platform.{Platform}
use skill_asset_protocol.Awards.Errors.{Calendar, identifier_used}
use skill_asset_protocol.Awards.Quote.{Quote}
use skill_asset_protocol.Awards.Keys.{Crypto}
use skill_asset_protocol.Awards.Credentials.{Credential}
use skill_asset_protocol.Awards.Budget.{Reservation}
use skill_asset_protocol.Awards.Budget.Moves.{Moved, reserve_budget}
use skill_asset_protocol.Awards.Budget.Settlement.{cancelled_before_start}
use skill_asset_protocol.Awards.Budget.Life.{Step, start, release}
use skill_asset_protocol.Awards.Outcome.{RawOutcome, parse_executor_outcome}
use skill_asset_protocol.Awards.Receipts.Signed.{ReceiptSigner}
use skill_asset_protocol.Awards.Engine.{EngineState}
use skill_asset_protocol.Awards.Engine.Authorize.{AuthorizeInput, require_unused}
use skill_asset_protocol.Awards.Engine.Authorize.Operation.{authorized_state}
use skill_asset_protocol.Awards.Engine.Cancel.{CancelInput, cancelled_state}
use skill_asset_protocol.Awards.Engine.Start.{attempt_id, started_state}
use skill_asset_protocol.Awards.Engine.Finish.{current_revisions}
use skill_asset_protocol.Awards.Engine.Finish.Money.{end_execution-IsEnding}
use skill_asset_protocol.Awards.Engine.Finish.Operation.{RecordCas, finished_state}
use skill_asset_protocol.Awards.Engine.Steps.{
  IsAuthorization, authorize_internal_invocation-IsAuthorization,
}
use skill_asset_protocol.Awards.Engine.Steps.Cancelled.{
  IsCancellation, cancel_internal_authorization-IsCancellation,
}
use skill_asset_protocol.Awards.Engine.Steps.Started.{IsStart, begin_execution-IsStart}
use skill_asset_protocol.Awards.Engine.Steps.Finished.{IsEnd, finish_execution-IsEnd}
use skill_asset_protocol.Awards.Engine.Steps.Reversed.{record_award_reversal-IsReversal}
use skill_asset_protocol.Awards.Engine.Run.{
  EngineStep, authorizes, cancels, begins, finishes, reverses,
}

-- Every reservation stands under its identifier.
unfoldable pub IsKeyed : Dictionary Reservation → Type 0
IsKeyed = All (λ x. x.0 ≡ x.1.reservation_id)

pub IsKeyed-lookup :
    (m : Dictionary Reservation) (key : JsString) {r : Reservation}
    → IsKeyed m
    → lookup key m ≡ some r
    → key ≡ r.reservation_id
unfolding IsKeyed
IsKeyed-lookup m key keyed found = All-lookup (λ x. x.0 ≡ x.1.reservation_id) m key keyed found

module _ (p : Platform) (calendar : Calendar) where
  -- A step reserves an amount under a new identifier, moves one reservation with the budget, or
  -- leaves both as they are.
  pub data MoneyChange (state next : EngineState) : Type 0 where
    reserves :
        (quote : Quote) (expected : ℕ) (id now : JsString) (moved : Moved)
        → has_key id state.reservations ≡ false
        → reserve_budget p calendar state.budget quote expected id now ≡ ok moved
        → next.budget ≡ moved.budget
        → next.reservations ≡ map_with state.reservations id moved.reservation
        → MoneyChange state next
    moves :
        (id : JsString) (r : Reservation) (moved : Moved)
        → lookup id state.reservations ≡ some r
        → Step calendar state.budget r moved
        → next.budget ≡ moved.budget
        → next.reservations ≡ map_with state.reservations id moved.reservation
        → MoneyChange state next
    keeps :
        next.budget ≡ state.budget → next.reservations ≡ state.reservations → MoneyChange state next

pub require_unused-has_key :
    (state : EngineState) (input : AuthorizeInput)
    → require_unused state input ≡ ok tt
    → has_key input.reservation_id state.reservations ≡ false
unfolding require_unused
require_unused-has_key state input h =
    let key =
      bind-ok (fail_if (has_key input.quote.idempotency_key state.idempotency) identifier_used) h in
    let id =
      bind-ok (fail_if (has_key input.quote.invocation_id state.invocations) identifier_used)
        key.2 in
    let unused =
      bind-ok (fail_if (has_key input.reservation_id state.reservations) identifier_used) id.2 in
    let e = unused.1 in ground arith

module _ (p : Platform) (c : Crypto) (calendar : Calendar) (signer : ReceiptSigner) where
  IsAuthorization-MoneyChange :
      (state next : EngineState) (input : AuthorizeInput) (now : JsString)
      → IsAuthorization p c calendar state input now next
      → MoneyChange p calendar state next
  unfolding authorized_state
  IsAuthorization-MoneyChange state next input now a =
      reserves input.quote input.expected_budget_revision input.reservation_id now a.plan.reserved
        (require_unused-has_key state input a.unused_part) a.money_part
        (ap (λ (s : EngineState). s.budget) a.next_part)
        (ap (λ (s : EngineState). s.reservations) a.next_part)

  IsCancellation-MoneyChange :
      (state next : EngineState) (input : CancelInput) (now : JsString)
      → IsCancellation p c calendar signer state input now next
      → MoneyChange p calendar state next
  unfolding cancelled_state
  IsCancellation-MoneyChange state next input now a =
      moves input.reservation_id a.reservation a.released a.reservation_part
        (release (current_revisions state a.reservation) cancelled_before_start none (js "0") now
          a.money_part)
        (ap (λ (s : EngineState). s.budget) a.next_part)
        (ap (λ (s : EngineState). s.reservations) a.next_part)

  IsStart-MoneyChange :
      (state next : EngineState) (quote : Quote) (credential : Credential) (now : JsString)
      → IsKeyed state.reservations
      → IsStart p c calendar state quote credential now next
      → MoneyChange p calendar state next
  unfolding started_state
  IsStart-MoneyChange state next quote credential now keyed a =
      let id = a.invocation.reservation_id in
      let e = IsKeyed-lookup state.reservations id keyed a.reservation_part in
      moves id a.reservation a.execution a.reservation_part
        (start (current_revisions state a.reservation) (attempt_id a.invocation) now a.money_part)
        (ap (λ (s : EngineState). s.budget) a.next_part)
        (ap (λ (s : EngineState). s.reservations) a.next_part
          ∙ ap (λ k. map_with state.reservations k a.execution.reservation) (sym e))

  IsEnd-MoneyChange :
      (state next : EngineState) (cas : RecordCas) (raw : RawOutcome) (started : Reservation)
      (now : JsString)
      → IsKeyed state.reservations
      → IsEnd p c calendar signer state cas (parse_executor_outcome raw started.quote) now next
      → MoneyChange p calendar state next
  unfolding finished_state
  IsEnd-MoneyChange state next cas raw started now keyed a =
      let f = a.finish_part in
      let e = IsKeyed-lookup state.reservations cas.reservation_id keyed a.reservation_part in
      let ending =
        end_execution-IsEnding calendar state a.invocation a.reservation f.place now
          (parse_executor_outcome raw started.quote) f.ending_part in
      moves cas.reservation_id a.reservation f.ending.money a.reservation_part ending.step
        (ap (λ (s : EngineState). s.budget) f.next_part)
        (ap (λ (s : EngineState). s.reservations) f.next_part
          ∙ ap (λ k. map_with state.reservations k f.ending.money.reservation) (sym e))

  pub EngineStep-MoneyChange :
      (state next : EngineState)
      → IsKeyed state.reservations
      → EngineStep p c calendar signer state next
      → MoneyChange p calendar state next
  EngineStep-MoneyChange state next keyed s = elim s [
    | authorizes input now h ↦
        IsAuthorization-MoneyChange state next input now
          (authorize_internal_invocation-IsAuthorization p c calendar state input now h)
    | cancels input now h ↦
        IsCancellation-MoneyChange state next input now
          (cancel_internal_authorization-IsCancellation p c calendar signer state input now h)
    | begins quote credential now h ↦
        IsStart-MoneyChange state next quote credential now keyed
          (begin_execution-IsStart p c calendar state quote credential now h)
    | finishes cas started raw now h ↦
        IsEnd-MoneyChange state next cas raw started now keyed
          (finish_execution-IsEnd p c calendar signer state cas started raw now h)
    | reverses expected signed now h ↦
        let a = record_award_reversal-IsReversal p c calendar state expected signed now h in
        keeps (ap (λ (s : EngineState). s.budget) a.next_part)
          (ap (λ (s : EngineState). s.reservations) a.next_part)
  ]
