-- ===== src/Awards/Engine/Cancel.antt =====
-- spikes/internal-invocation-awards/src/engine.mjs: `cancelInternalAuthorization`.
use skill_asset_protocol.Base.{
  ℕ, ◌+◌, [], ◌∷◌, ◌++◌, null, not, none, some, JsString, js, Result, ok, ◌>>=◌, ◌>>◌, fail_if,
  decimal, lookup, map_with,
}
use skill_asset_protocol.Kernel.Platform.{Platform}
use skill_asset_protocol.Awards.Errors.{
  AwardError, Calendar, string_empty, record_missing, invocation_state,
}
use skill_asset_protocol.Awards.Schema.{parse_utc}
use skill_asset_protocol.Awards.Keys.{Crypto}
use skill_asset_protocol.Awards.Budget.{Reservation}
use skill_asset_protocol.Awards.Budget.Moves.{Moved}
use skill_asset_protocol.Awards.Budget.Settlement.{release_reservation, cancelled_before_start}
use skill_asset_protocol.Awards.Invocation.{InvocationState, Invocation, is_authorized}
use skill_asset_protocol.Awards.Receipts.Signed.{ReceiptSigner}
use skill_asset_protocol.Awards.Store.{transact}
use skill_asset_protocol.Awards.Engine.{
  EngineState, of_budget, invocation_event, require_found, assert_historically_trusted_state,
}
use skill_asset_protocol.Awards.Engine.Commit.{Place, receipt_place, Committed, commit_receipt}

pub record CancelInput : Type 0 where
  pub expected_revision : ℕ
  pub reservation_id : JsString
  pub reason : JsString

unfoldable pub cancelled_invocation : Invocation → Reservation → Place → JsString → Invocation
cancelled_invocation v r place now = record v {
  state = InvocationState.cancelled;
  revision = v.revision + 1;
  finalized_at = some now;
  released_atomic = r.reserved_atomic;
  receipt_sequence_scope = some place.scope;
  receipt_sequence = some place.sequence;
  receipt_id = some place.receipt_id;
}

unfoldable pub cancelled_state :
    EngineState → CancelInput → Moved → Invocation → Place → Committed → JsString → EngineState
cancelled_state state input released cancelled place committed now = record state {
  revision = state.revision + 1;
  budget = released.budget;
  reservations = map_with state.reservations input.reservation_id released.reservation;
  invocations =
      map_with state.invocations cancelled.invocation_id
        (record cancelled { receipt_hash = some committed.hash });
  events =
      state.events
      ++ of_budget released.event
        ∷ invocation_event (js "invocation_cancelled") cancelled.invocation_id now (
            (js "reason", input.reason)
            ∷ (js "receiptId", place.receipt_id)
            ∷ (js "receiptHash", committed.hash)
            ∷ (js "receiptSequence", decimal place.sequence)
            ∷ (js "receiptSequenceScope", place.scope)
            ∷ [])
        ∷ [];
  ledger = committed.ledger;
}

-- The revisions of the records themselves, so that `releaseReservation` finds them current.
module _ (p : Platform) (c : Crypto) (calendar : Calendar) (signer : ReceiptSigner) where
  unfoldable pub cancel : EngineState → CancelInput → JsString → Result AwardError EngineState
  cancel state input now = do
    _ ← parse_utc calendar now
    _ ← assert_historically_trusted_state p c calendar state
    r ← require_found record_missing (lookup input.reservation_id state.reservations)
    v ← require_found invocation_state (lookup r.quote.invocation_id state.invocations)
    fail_if (not (is_authorized v.state)) invocation_state
    released ←
        release_reservation calendar state.budget r
          (record { budget_revision = state.budget.revision; reservation_revision = r.revision })
          cancelled_before_start none (js "0") now
    place ← receipt_place p state v
    let cancelled = cancelled_invocation v r place now
    committed ← commit_receipt p c calendar signer state cancelled released.reservation none
    ok (cancelled_state state input released cancelled place committed now)

  unfoldable pub cancel_internal_authorization :
      EngineState → CancelInput → JsString → Result AwardError EngineState
  cancel_internal_authorization state input now = do
    fail_if (null input.reason) string_empty
    transact (λ (s : EngineState). s.revision) state input.expected_revision
        (λ s. cancel s input now)
