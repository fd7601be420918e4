-- ===== src/Awards/Engine/Steps/Reversed.antt =====
-- spikes/internal-invocation-awards/src/engine.mjs: what `recordAwardReversal` has checked and made where
-- it succeeds.
use skill_asset_protocol.Base.{
  ℕ, ◌+◌, ◌≡◌, sym, bind-ok, ok-injective, ◌++◌, [], ◌∷◌, not, some, JsString, true, ok, fail_if,
  ltb, arith, lookup, map_with,
}
use skill_asset_protocol.Kernel.Platform.{Platform}
use skill_asset_protocol.Awards.Errors.{
  Calendar, reversal_future, reversal_award, reversal_binding, reversal_early,
}
use skill_asset_protocol.Awards.Schema.{Policy, parse_utc}
use skill_asset_protocol.Awards.Keys.{Crypto}
use skill_asset_protocol.Awards.Invocation.{Invocation, Award, is_earned}
use skill_asset_protocol.Awards.Engine.{
  EngineState, SignedReversal, ReversalPayload, require_found, assert_trusted_state,
}
use skill_asset_protocol.Awards.Engine.Reversal.{
  validate_award_reversal_payload, require_authentic, require_award_binding, earned_instant,
  require_reversible, reversal_event, reverse_award, record_award_reversal,
}
use skill_asset_protocol.Awards.Store.{transact-eq-ok}
use skill_asset_protocol.Awards.Engine.Steps.{require_found-eq-ok}

module _ (p : Platform) (c : Crypto) (calendar : Calendar) where
  pub record IsReversal (state : EngineState) (signed : SignedReversal) (now : JsString)
      (next : EngineState) : Type 0 where
    pub policy : Policy
    pub payload : ReversalPayload
    pub award : Award
    pub invocation : Invocation
    pub payload_part : validate_award_reversal_payload calendar signed.payload ≡ ok payload
    pub authentic_part :
        require_authentic p c calendar state policy payload signed.signature ≡ ok tt
    pub award_part : lookup payload.award_id state.awards ≡ some award
    pub earned_part : is_earned award.state ≡ true
    pub invocation_part : lookup payload.invocation_id state.invocations ≡ some invocation
    pub binding_part : require_award_binding payload award invocation ≡ ok tt
    pub reversible_part : require_reversible state payload award ≡ ok tt
    pub next_part : next ≡ record state {
      revision = state.revision + 1;
      award_reversals = map_with state.award_reversals payload.reversal_id signed;
      events =
          state.events ++ reversal_event payload invocation.invocation_id award.award_id now ∷ [];
    }

  reverse_award-IsReversal :
      (state : EngineState) (signed : SignedReversal) (now : JsString) {next : EngineState}
      → reverse_award p c calendar state signed now ≡ ok next
      → IsReversal state signed now next
  unfolding reverse_award
  reverse_award-IsReversal state signed now {next} h =
      let ats = bind-ok (parse_utc calendar now) h in
      let at = ats.0 in
      let policys = bind-ok (assert_trusted_state p c calendar state now) ats.2 in
      let policy = policys.0 in
      let xs = bind-ok (validate_award_reversal_payload calendar signed.payload) policys.2 in
      let x = xs.0 in
      let hx = xs.1 in
      let u0s = bind-ok (require_authentic p c calendar state policy x signed.signature) xs.2 in
      let h0 = u0s.1 in
      let issued_ats = bind-ok (parse_utc calendar x.issued_at) u0s.2 in
      let issued_at = issued_ats.0 in
      let u1s = bind-ok (fail_if (ltb at issued_at) reversal_future) issued_ats.2 in
      let awards = bind-ok (require_found reversal_award (lookup x.award_id state.awards)) u1s.2 in
      let award = awards.0 in
      let hw = awards.1 in
      let u2s = bind-ok (fail_if (not (is_earned award.state)) reversal_award) awards.2 in
      let h2 = u2s.1 in
      let vs =
        bind-ok (require_found reversal_binding (lookup x.invocation_id state.invocations)) u2s.2 in
      let v = vs.0 in
      let hv = vs.1 in
      let u3s = bind-ok (require_award_binding x award v) vs.2 in
      let h3 = u3s.1 in
      let earned_ats = bind-ok (earned_instant calendar award) u3s.2 in
      let earned_at = earned_ats.0 in
      let u4s = bind-ok (fail_if (ltb issued_at earned_at) reversal_early) earned_ats.2 in
      let u5s = bind-ok (require_reversible state x award) u4s.2 in
      let h5 = u5s.1 in
      record {
        policy = policy;
        payload = x;
        award = award;
        invocation = v;
        payload_part = hx;
        authentic_part = h0;
        award_part = require_found-eq-ok reversal_award (lookup x.award_id state.awards) hw;
        earned_part = ground (arith, h2);
        invocation_part =
            require_found-eq-ok reversal_binding (lookup x.invocation_id state.invocations) hv;
        binding_part = h3;
        reversible_part = h5;
        next_part = ok-injective (sym u5s.2);
      }

  -- The same of the operation with its transaction.
  pub record_award_reversal-IsReversal :
      (state : EngineState) (expected : ℕ) (signed : SignedReversal) (now : JsString)
      {next : EngineState}
      → record_award_reversal p c calendar state expected signed now ≡ ok next
      → IsReversal state signed now next
  unfolding record_award_reversal
  record_award_reversal-IsReversal state expected signed now h =
      let t =
        transact-eq-ok (λ (s : EngineState). s.revision) state expected
          (λ s. reverse_award p c calendar s signed now) h in
      reverse_award-IsReversal state signed now t.1
