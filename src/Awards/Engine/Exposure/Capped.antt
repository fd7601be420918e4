-- ===== src/Awards/Engine/Exposure/Capped.antt =====
-- spikes/internal-invocation-awards/src/engine.mjs: the exposure of a policy after an authorization.
use skill_asset_protocol.Base.{
  ℕ, ◌+◌, ◌≤◌, ◌≡◌, ap, ◌∙◌, JsString, Bool, true, false, ok, ok-injective, arith, has_key, bind-ok,
  fail_if, ltb, if◌then◌else◌,
}
use skill_asset_protocol.Kernel.Platform.{Platform}
use skill_asset_protocol.Awards.Errors.{Calendar, award_cap, identifier_used}
use skill_asset_protocol.Awards.Schema.{Policy, to_atomic}
use skill_asset_protocol.Awards.Keys.{Crypto}
use skill_asset_protocol.Awards.Invocation.{Invocation, Award}
use skill_asset_protocol.Awards.Engine.{EngineState, SignedReversal}
use skill_asset_protocol.Awards.Counted.{counted, counted-map_with_new}
use skill_asset_protocol.Awards.Registration.{SkillRegistration}
use skill_asset_protocol.Awards.Engine.Authorize.{
  AuthorizeInput, Authorized, authorized_invocation, require_unused,
}
use skill_asset_protocol.Awards.Engine.Authorize.Operation.{
  authorized_state, authorized_policy, authorize_internal_invocation,
}
use skill_asset_protocol.Awards.Engine.Steps.{authorize_internal_invocation-IsAuthorization}
use skill_asset_protocol.Awards.Engine.Exposure.{
  Exposure, counts_award, counts_reversal, counts_invocation, award_exposure_atomic,
  require_award_cap,
}

-- The exposure of a state whose counted amounts are read.
record Reads (state : EngineState) (policy : Policy) (period : JsString) (e : Exposure)
    : Type 0 where
  awarded : ℕ
  pending : ℕ
  awards_part :
      counted (counts_award policy period) (λ (x : Award). x.amount_atomic) state.awards
      ≡ ok awarded
  reversals_part :
      counted
        (counts_reversal policy period state.awards)
        (λ (x : SignedReversal). x.payload.amount_atomic)
        state.award_reversals
      ≡ ok e.taken
  invocations_part :
      counted
        (counts_invocation policy period)
        (λ (x : Invocation). x.max_invocation_award_atomic)
        state.invocations
      ≡ ok pending
  added_part : awarded + pending ≡ e.added

award_exposure_atomic-Reads :
    (state : EngineState) (policy : Policy) (period : JsString) {e : Exposure}
    → award_exposure_atomic state policy period ≡ ok e
    → Reads state policy period e
unfolding award_exposure_atomic counted
award_exposure_atomic-Reads state policy period {e} h =
    let awarded =
      bind-ok (counted (counts_award policy period) (λ (x : Award). x.amount_atomic) state.awards)
        h in
    let reversed =
      bind-ok
        (counted (counts_reversal policy period state.awards)
          (λ (x : SignedReversal). x.payload.amount_atomic) state.award_reversals)
        awarded.2 in
    let pending =
      bind-ok
        (counted (counts_invocation policy period)
          (λ (x : Invocation). x.max_invocation_award_atomic) state.invocations)
        reversed.2 in
    let made = ok-injective pending.2 in
    record {
      awarded = awarded.0;
      pending = pending.0;
      awards_part = awarded.1;
      reversals_part = reversed.1 ∙ ap ok (ap (λ (x : Exposure). x.taken) made);
      invocations_part = pending.1;
      added_part = ap (λ (x : Exposure). x.added) made;
    }

Reads-award_exposure_atomic :
    (state : EngineState) (policy : Policy) (period : JsString) {e : Exposure}
    → Reads state policy period e
    → award_exposure_atomic state policy period ≡ ok e
unfolding award_exposure_atomic counted
Reads-award_exposure_atomic state policy period {e} r =
    let a = r.awards_part in
    let b = r.reversals_part in let d = r.invocations_part in let f = r.added_part in ground arith

-- An Invocation that is authorized under an identifier that is new adds at most its own award.
authorized_state-award_exposure_atomic :
    (state : EngineState) (policy : Policy) (period : JsString) (input : AuthorizeInput)
    (plan : Authorized) (now : JsString) {e : Exposure} {n : ℕ}
    → award_exposure_atomic state policy period ≡ ok e
    → to_atomic input.quote.max_invocation_award_atomic ≡ ok n
    → has_key input.quote.invocation_id state.invocations ≡ false
    → (more : ℕ) × (more ≤ n)
      × (award_exposure_atomic (authorized_state state input plan now) policy period
          ≡ ok (record { added = e.added + more; taken = e.taken }))
unfolding authorized_state authorized_invocation
authorized_state-award_exposure_atomic state policy period input plan now {e} {n} h hn new =
    let r = award_exposure_atomic-Reads state policy period h in
    let v = authorized_invocation state input plan now in
    let more = if counts_invocation policy period v then n else 0 in
    let grown =
      counted-map_with_new (counts_invocation policy period)
        (λ (x : Invocation). x.max_invocation_award_atomic) state.invocations
        input.quote.invocation_id v {total = r.pending} {n = n} new r.invocations_part hn in
    let sum = r.added_part in
    (
      more,
      at_most (counts_invocation policy period v),
      Reads-award_exposure_atomic (authorized_state state input plan now) policy period (record {
        awarded = r.awarded;
        pending = r.pending + more;
        awards_part = r.awards_part;
        reversals_part = r.reversals_part;
        invocations_part = grown;
        added_part = omega (arith, sum);
      }),
    )
  where
    at_most : (b : Bool) → (if b then n else 0) ≤ n
    at_most true = omega arith
    at_most false = omega arith

-- After an authorization, what the policy of the quote may still have to pay in awards for the period of
-- the budget, less what was reversed, is at most its cap.
pub authorize_internal_invocation-capped :
    (p : Platform) (c : Crypto) (calendar : Calendar) (state next : EngineState)
    (input : AuthorizeInput) (now : JsString)
    → authorize_internal_invocation p c calendar state input now ≡ ok next
    → (policy : Policy) × (registration : SkillRegistration) × (e : Exposure) × (cap : ℕ)
      × (authorized_policy p c calendar state input now ≡ ok (policy, registration))
      × (award_exposure_atomic next policy state.budget.period ≡ ok e)
      × (to_atomic policy.max_award_per_period_atomic ≡ ok cap)
      × (e.added ≤ cap + e.taken)
unfolding require_award_cap require_unused
authorize_internal_invocation-capped p c calendar state next input now h =
    let a = authorize_internal_invocation-IsAuthorization p c calendar state input now h in
    let period = state.budget.period in
    let before = bind-ok (award_exposure_atomic state a.policy period) a.cap_part in
    let award = bind-ok (to_atomic input.quote.max_invocation_award_atomic) before.2 in
    let cap = bind-ok (to_atomic a.policy.max_award_per_period_atomic) award.2 in
    let key =
      bind-ok (fail_if (has_key input.quote.idempotency_key state.idempotency) identifier_used)
        a.unused_part in
    let invocation =
      bind-ok (fail_if (has_key input.quote.invocation_id state.invocations) identifier_used)
        key.2 in
    let fresh = invocation.1 in
    let after =
      authorized_state-award_exposure_atomic state a.policy period input a.plan now before.1 award.1
        (ground arith) in
    let most = after.1 in
    let within = cap.2 in
    (
      a.policy,
      a.plan.registration,
      record { added = before.0.added + after.0; taken = before.0.taken },
      cap.0,
      a.policy_part,
      ap (λ s. award_exposure_atomic s a.policy period) a.next_part ∙ after.2,
      cap.1,
      capped before.0 award.0 cap.0 after.0 most within,
    )
  where
    capped :
        (e : Exposure) (award cap more : ℕ)
        → more ≤ award
        → fail_if (ltb (cap + e.taken) (e.added + award)) award_cap ≡ ok tt
        → e.added + more ≤ cap + e.taken
    capped e award cap more le within = ground arith
