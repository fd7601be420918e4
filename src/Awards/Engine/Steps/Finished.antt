-- ===== src/Awards/Engine/Steps/Finished.antt =====
-- spikes/internal-invocation-awards/src: what the last transaction of an execution has checked and made
-- where it succeeds.
use skill_asset_protocol.Base.{
  ◌≡◌, sym, bind-ok, ok-injective, some, JsString, Result, ok, Result-cases, inl, inr, arith,
  lookup,
}
use skill_asset_protocol.Kernel.Platform.{Platform}
use skill_asset_protocol.Awards.Errors.{AwardError, Calendar, record_missing}
use skill_asset_protocol.Awards.Schema.{parse_utc}
use skill_asset_protocol.Awards.Keys.{Crypto}
use skill_asset_protocol.Awards.Budget.{Reservation}
use skill_asset_protocol.Awards.Outcome.{Outcome, RawOutcome, parse_executor_outcome}
use skill_asset_protocol.Awards.Invocation.{Invocation}
use skill_asset_protocol.Awards.Receipts.Signed.{ReceiptSigner}
use skill_asset_protocol.Awards.Store.{advance}
use skill_asset_protocol.Awards.Engine.{EngineState, require_found}
use skill_asset_protocol.Awards.Engine.Commit.{Place, Committed, receipt_place, commit_receipt}
use skill_asset_protocol.Awards.Engine.Finish.{Ending, end_execution}
use skill_asset_protocol.Awards.Engine.Finish.Operation.{
  RecordCas, require_current_records, transact_record, finished_state, finish, finish_execution,
}
use skill_asset_protocol.Awards.Engine.Steps.{require_found-eq-ok}

module _ (p : Platform) (c : Crypto) (calendar : Calendar) (signer : ReceiptSigner) where
  pub record IsFinish (state : EngineState) (v : Invocation) (r : Reservation) (outcome : Outcome)
      (now : JsString) (next : EngineState) : Type 0 where
    pub place : Place
    pub ending : Ending
    pub committed : Committed
    pub place_part : receipt_place p state v ≡ ok place
    pub ending_part : end_execution calendar state v r place now outcome ≡ ok ending
    pub commit_part :
        commit_receipt p c calendar signer state ending.invocation ending.money.reservation
          ending.award
        ≡ ok committed
    pub next_part : next ≡ finished_state state r ending place committed now

  finish-IsFinish :
      (state : EngineState) (v : Invocation) (r : Reservation) (outcome : Outcome) (now : JsString)
      {next : EngineState}
      → finish p c calendar signer outcome now state v r ≡ ok next
      → IsFinish state v r outcome now next
  unfolding finish
  finish-IsFinish state v r outcome now {next} h =
      let ats = bind-ok (parse_utc calendar now) h in
      let places = bind-ok (receipt_place p state v) ats.2 in
      let place = places.0 in
      let hl = places.1 in
      let endings = bind-ok (end_execution calendar state v r place now outcome) places.2 in
      let ending = endings.0 in
      let he = endings.1 in
      let committeds =
        bind-ok
          (commit_receipt p c calendar signer state ending.invocation ending.money.reservation
            ending.award)
          endings.2 in
      let committed = committeds.0 in
      let hc = committeds.1 in
      record {
        place = place;
        ending = ending;
        committed = committed;
        place_part = hl;
        ending_part = he;
        commit_part = hc;
        next_part = ok-injective (sym committeds.2);
      }

  pub record IsEnd (state : EngineState) (cas : RecordCas) (outcome : Outcome) (now : JsString)
      (next : EngineState) : Type 0 where
    pub invocation : Invocation
    pub reservation : Reservation
    pub invocation_part : lookup cas.invocation_id state.invocations ≡ some invocation
    pub reservation_part : lookup cas.reservation_id state.reservations ≡ some reservation
    pub current_part : require_current_records cas invocation reservation ≡ ok tt
    pub finish_part : IsFinish state invocation reservation outcome now next

  advance-eq-ok :
      (state : EngineState) (transition : EngineState → Result AwardError EngineState)
      {next : EngineState}
      → advance (λ (s : EngineState). s.revision) state transition ≡ ok next
      → transition state ≡ ok next
  unfolding advance
  advance-eq-ok state transition h = elim (Result-cases (transition state)) [
    | inr (code, failed) ↦ absurd (ground arith)
    | inl (next, given) ↦ ground arith
  ]

  pub finish_execution-IsEnd :
      (state : EngineState) (cas : RecordCas) (started : Reservation) (raw : RawOutcome)
      (now : JsString) {next : EngineState}
      → finish_execution p c calendar signer state cas started raw now ≡ ok next
      → IsEnd state cas (parse_executor_outcome raw started.quote) now next
  unfolding finish_execution transact_record
  finish_execution-IsEnd state cas started raw now {next} h =
      let outcome = parse_executor_outcome raw started.quote in
      let vs =
        bind-ok (require_found record_missing (lookup cas.invocation_id state.invocations)) h in
      let v = vs.0 in
      let hv = vs.1 in
      let rs =
        bind-ok (require_found record_missing (lookup cas.reservation_id state.reservations))
          vs.2 in
      let r = rs.0 in
      let hr = rs.1 in
      let us = bind-ok (require_current_records cas v r) rs.2 in
      let hu = us.1 in
      let e : advance (λ (s : EngineState). s.revision) state
            (λ s. finish p c calendar signer outcome now s v r)
          ≡ ok next =
        us.2 in
      record {
        invocation = v;
        reservation = r;
        invocation_part =
            require_found-eq-ok record_missing (lookup cas.invocation_id state.invocations) hv;
        reservation_part =
            require_found-eq-ok record_missing (lookup cas.reservation_id state.reservations) hr;
        current_part = hu;
        finish_part =
            finish-IsFinish state v r outcome now
              (advance-eq-ok state (λ s. finish p c calendar signer outcome now s v r) e);
      }
