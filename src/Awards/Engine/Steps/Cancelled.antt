-- ===== src/Awards/Engine/Steps/Cancelled.antt =====
-- spikes/internal-invocation-awards/src/engine.mjs: what `cancelInternalAuthorization` has checked and
-- made where it succeeds.
use skill_asset_protocol.Base.{
  null, ◌≡◌, sym, bind-ok, ok-injective, not, some, none, JsString, js, true, ok, fail_if, arith,
  lookup,
}
use skill_asset_protocol.Kernel.Platform.{Platform}
use skill_asset_protocol.Awards.Errors.{Calendar, string_empty, record_missing, invocation_state}
use skill_asset_protocol.Awards.Schema.{parse_utc}
use skill_asset_protocol.Awards.Keys.{Crypto}
use skill_asset_protocol.Awards.Budget.{Reservation}
use skill_asset_protocol.Awards.Budget.Moves.{Moved}
use skill_asset_protocol.Awards.Budget.Settlement.{release_reservation, cancelled_before_start}
use skill_asset_protocol.Awards.Invocation.{Invocation, is_authorized}
use skill_asset_protocol.Awards.Receipts.Signed.{ReceiptSigner}
use skill_asset_protocol.Awards.Engine.{
  EngineState, require_found, assert_historically_trusted_state,
}
use skill_asset_protocol.Awards.Engine.Commit.{Place, Committed, receipt_place, commit_receipt}
use skill_asset_protocol.Awards.Engine.Cancel.{
  CancelInput, cancelled_invocation, cancelled_state, cancel, cancel_internal_authorization,
}
use skill_asset_protocol.Awards.Store.{transact-eq-ok}
use skill_asset_protocol.Awards.Engine.Steps.{require_found-eq-ok}

module _ (p : Platform) (c : Crypto) (calendar : Calendar) (signer : ReceiptSigner) where
  pub record IsCancellation (state : EngineState) (input : CancelInput) (now : JsString)
      (next : EngineState) : Type 0 where
    pub reservation : Reservation
    pub invocation : Invocation
    pub released : Moved
    pub place : Place
    pub committed : Committed
    pub reservation_part : lookup input.reservation_id state.reservations ≡ some reservation
    pub invocation_part : lookup reservation.quote.invocation_id state.invocations ≡ some invocation
    pub state_part : is_authorized invocation.state ≡ true
    pub money_part :
        release_reservation calendar state.budget reservation
          (record {
            budget_revision = state.budget.revision;
            reservation_revision = reservation.revision;
          })
          cancelled_before_start
          none
          (js "0")
          now
        ≡ ok released
    pub place_part : receipt_place p state invocation ≡ ok place
    pub commit_part :
        commit_receipt p c calendar signer state
          (cancelled_invocation invocation reservation place now)
          released.reservation
          none
        ≡ ok committed
    pub next_part :
        next
        ≡ cancelled_state state input released
            (cancelled_invocation invocation reservation place now)
            place
            committed
            now

  cancel-IsCancellation :
      (state : EngineState) (input : CancelInput) (now : JsString) {next : EngineState}
      → cancel p c calendar signer state input now ≡ ok next
      → IsCancellation state input now next
  unfolding cancel
  cancel-IsCancellation state input now {next} h =
      let ats = bind-ok (parse_utc calendar now) h in
      let policys = bind-ok (assert_historically_trusted_state p c calendar state) ats.2 in
      let rs =
        bind-ok (require_found record_missing (lookup input.reservation_id state.reservations))
          policys.2 in
      let r = rs.0 in
      let hr = rs.1 in
      let vs =
        bind-ok (require_found invocation_state (lookup r.quote.invocation_id state.invocations))
          rs.2 in
      let v = vs.0 in
      let hv = vs.1 in
      let us = bind-ok (fail_if (not (is_authorized v.state)) invocation_state) vs.2 in
      let hs = us.1 in
      let releaseds =
        bind-ok
          (release_reservation calendar state.budget r
            (record { budget_revision = state.budget.revision; reservation_revision = r.revision })
            cancelled_before_start none (js "0") now)
          us.2 in
      let released = releaseds.0 in
      let hm = releaseds.1 in
      let places = bind-ok (receipt_place p state v) releaseds.2 in
      let place = places.0 in
      let hl = places.1 in
      let committeds =
        bind-ok
          (commit_receipt p c calendar signer state (cancelled_invocation v r place now)
            released.reservation none)
          places.2 in
      let committed = committeds.0 in
      let hc = committeds.1 in
      record {
        reservation = r;
        invocation = v;
        released = released;
        place = place;
        committed = committed;
        reservation_part =
            require_found-eq-ok record_missing (lookup input.reservation_id state.reservations) hr;
        invocation_part =
            require_found-eq-ok invocation_state (lookup r.quote.invocation_id state.invocations)
              hv;
        state_part = ground (arith, hs);
        money_part = hm;
        place_part = hl;
        commit_part = hc;
        next_part = ok-injective (sym committeds.2);
      }

  -- The same of the operation with its transaction.
  pub cancel_internal_authorization-IsCancellation :
      (state : EngineState) (input : CancelInput) (now : JsString) {next : EngineState}
      → cancel_internal_authorization p c calendar signer state input now ≡ ok next
      → IsCancellation state input now next
  unfolding cancel_internal_authorization
  cancel_internal_authorization-IsCancellation state input now h =
      let named = bind-ok (fail_if (null input.reason) string_empty) h in
      let t =
        transact-eq-ok (λ (s : EngineState). s.revision) state input.expected_revision
          (λ s. cancel p c calendar signer s input now) named.2 in
      cancel-IsCancellation state input now t.1
