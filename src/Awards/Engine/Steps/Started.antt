-- ===== src/Awards/Engine/Steps/Started.antt =====
-- spikes/internal-invocation-awards/src/engine.mjs: what the start of an execution has checked and made
-- where it succeeds.
use skill_asset_protocol.Base.{
  leb, ltb, ◌≡◌, sym, bind-ok, ok-injective, some, JsString, ok, fail_if, lookup,
}
use skill_asset_protocol.Kernel.Platform.{Platform}
use skill_asset_protocol.Awards.Errors.{
  Calendar, quote_expired, quote_expiry, record_missing, invocation_state,
}
use skill_asset_protocol.Awards.Schema.{Policy, parse_utc, validate_policy}
use skill_asset_protocol.Awards.Quote.{
  Quote, validate_quote, validate_quote_binding, validate_quote_amounts,
}
use skill_asset_protocol.Awards.Keys.{Crypto}
use skill_asset_protocol.Awards.Credentials.{Credential}
use skill_asset_protocol.Awards.Budget.{Reservation}
use skill_asset_protocol.Awards.Budget.Moves.{Moved, start_reservation_execution}
use skill_asset_protocol.Awards.Invocation.{Invocation, is_terminal, is_running}
use skill_asset_protocol.Awards.Engine.{
  EngineState, require_found, assert_trusted_state, require_active_budget_period,
}
use skill_asset_protocol.Awards.Engine.Replay.{compare_quote, refuse_replay}
use skill_asset_protocol.Awards.Engine.Start.{
  attempt_id, started_state, require_startable, require_unchanged, start_execution, begin_execution,
}
use skill_asset_protocol.Awards.Store.{transact-eq-ok}
use skill_asset_protocol.Awards.Engine.Steps.{require_found-eq-ok}

-- A quote that is valid is returned as it is.
validate_quote-same :
    (p : Platform) (calendar : Calendar) (input : Quote) (policy : Policy) (now : JsString)
    {quote : Quote}
    → validate_quote p calendar input policy now ≡ ok quote
    → quote ≡ input
unfolding validate_quote
validate_quote-same p calendar input policy now {quote} h =
    let valid = bind-ok (validate_policy calendar policy now) h in
    let bound = bind-ok (validate_quote_binding p input valid.0) valid.2 in
    let amounts = bind-ok (validate_quote_amounts input valid.0) bound.2 in
    let expiry = bind-ok (parse_utc calendar input.expires_at) amounts.2 in
    let at = bind-ok (parse_utc calendar now) expiry.2 in
    let current = bind-ok (fail_if (leb expiry.0 at.0) quote_expired) at.2 in
    let policy_expiry = bind-ok (parse_utc calendar valid.0.expires_at) current.2 in
    let within = bind-ok (fail_if (ltb policy_expiry.0 expiry.0) quote_expiry) policy_expiry.2 in
    sym (ok-injective within.2)

module _ (p : Platform) (c : Crypto) (calendar : Calendar) where
  pub record IsStart (state : EngineState) (input : Quote) (credential : Credential)
      (now : JsString) (next : EngineState) : Type 0 where
    pub policy : Policy
    pub quote : Quote
    pub invocation : Invocation
    pub reservation : Reservation
    pub execution : Moved
    pub quote_part : quote ≡ input
    pub invocation_part : lookup quote.invocation_id state.invocations ≡ some invocation
    pub reservation_part : lookup invocation.reservation_id state.reservations ≡ some reservation
    pub startable_part : require_startable state invocation reservation ≡ ok tt
    pub unchanged_part :
        require_unchanged p c calendar state invocation policy quote credential now ≡ ok tt
    pub money_part :
        start_reservation_execution calendar state.budget reservation
          (record {
            budget_revision = state.budget.revision;
            reservation_revision = reservation.revision;
          })
          (attempt_id invocation)
          now
        ≡ ok execution
    pub next_part : next ≡ started_state state invocation reservation execution now

  start_execution-IsStart :
      (state : EngineState) (input : Quote) (credential : Credential) (now : JsString)
      {next : EngineState}
      → start_execution p c calendar state input credential now ≡ ok next
      → IsStart state input credential now next
  unfolding start_execution
  start_execution-IsStart state input credential now {next} h =
      let ats = bind-ok (parse_utc calendar now) h in
      let us = bind-ok (require_active_budget_period state.budget now) ats.2 in
      let policys = bind-ok (assert_trusted_state p c calendar state now) us.2 in
      let policy = policys.0 in
      let quotes = bind-ok (validate_quote p calendar input policy now) policys.2 in
      let quote = quotes.0 in
      let hq = quotes.1 in
      let vs =
        bind-ok (require_found record_missing (lookup quote.invocation_id state.invocations))
          quotes.2 in
      let v = vs.0 in
      let hv = vs.1 in
      let u1s = bind-ok (fail_if (is_terminal v.state) invocation_state) vs.2 in
      let u2s = bind-ok (fail_if (is_running v.state) invocation_state) u1s.2 in
      let rs =
        bind-ok (require_found record_missing (lookup v.reservation_id state.reservations)) u2s.2 in
      let r = rs.0 in
      let hr = rs.1 in
      let u3s = bind-ok (require_startable state v r) rs.2 in
      let hs = u3s.1 in
      let u4s = bind-ok (compare_quote p quote r.quote) u3s.2 in
      let u5s =
        bind-ok (require_unchanged p c calendar state v policy quote credential now) u4s.2 in
      let h5 = u5s.1 in
      let executions =
        bind-ok
          (start_reservation_execution calendar state.budget r
            (record { budget_revision = state.budget.revision; reservation_revision = r.revision })
            (attempt_id v) now)
          u5s.2 in
      let execution = executions.0 in
      let hm = executions.1 in
      record {
        policy = policy;
        quote = quote;
        invocation = v;
        reservation = r;
        execution = execution;
        quote_part = validate_quote-same p calendar input policy now hq;
        invocation_part =
            require_found-eq-ok record_missing (lookup quote.invocation_id state.invocations) hv;
        reservation_part =
            require_found-eq-ok record_missing (lookup v.reservation_id state.reservations) hr;
        startable_part = hs;
        unchanged_part = h5;
        money_part = hm;
        next_part = ok-injective (sym executions.2);
      }

  -- The same of the operation with its transaction.
  pub begin_execution-IsStart :
      (state : EngineState) (input : Quote) (credential : Credential) (now : JsString)
      {next : EngineState}
      → begin_execution p c calendar state input credential now ≡ ok next
      → IsStart state input credential now next
  unfolding begin_execution
  begin_execution-IsStart state input credential now h =
      let fresh = bind-ok (refuse_replay p c calendar state input credential) h in
      let t =
        transact-eq-ok (λ (s : EngineState). s.revision) state state.revision
          (λ s. start_execution p c calendar s input credential now) fresh.2 in
      start_execution-IsStart state input credential now t.1
