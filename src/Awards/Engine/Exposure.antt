-- ===== src/Awards/Engine/Exposure.antt =====
-- spikes/internal-invocation-awards/src/engine.mjs: `awardExposureAtomic`, what a policy may still have
-- to pay in awards for a period.
pub mod Capped
use skill_asset_protocol.Base.{
  ℕ, ◌+◌, map, Bool, false, ◌&&◌, Option, none, some, JsString, text_eq, select, ltb, ◌==◌, Result,
  ok, ◌>>=◌, ◌>>◌, fail_if, Dictionary, lookup, values,
}
use skill_asset_protocol.Awards.Errors.{AwardError, award_cap}
use skill_asset_protocol.Awards.Schema.{Policy, to_atomic, sum_atomic}
use skill_asset_protocol.Awards.Invocation.{Invocation, Award, is_earned, is_awarded, may_earn}
use skill_asset_protocol.Awards.Engine.{EngineState, SignedReversal}

-- The awards, the reversals and the Invocations that count for a policy and a period.
module _ (policy : Policy) (period : JsString) where
  unfoldable pub counts_award : Award → Bool
  counts_award award =
      text_eq award.policy_id policy.policy_id
      && award.policy_version == policy.version
      && text_eq award.period period
      && is_awarded award.state

  unfoldable pub reverses_in : Option Award → Bool
  reverses_in none = false
  reverses_in (some award) = text_eq award.period period && is_earned award.state

  unfoldable pub counts_reversal : Dictionary Award → SignedReversal → Bool
  counts_reversal awards reversal =
      text_eq reversal.payload.policy_id policy.policy_id
      && reversal.payload.policy_version == policy.version
      && reverses_in (lookup reversal.payload.award_id awards)

  unfoldable pub counts_invocation : Invocation → Bool
  counts_invocation invocation =
      text_eq invocation.policy_id policy.policy_id
      && invocation.policy_version == policy.version
      && text_eq invocation.period period
      && may_earn invocation.state

-- The exposure is the amount that is added less the amount that is taken off it.
pub record Exposure : Type 0 where
  pub added : ℕ
  pub taken : ℕ

unfoldable pub award_exposure_atomic : EngineState → Policy → JsString → Result AwardError Exposure
award_exposure_atomic state policy period = do
  awarded ← sum_atomic (
      map (λ (x : Award). x.amount_atomic)
        (select (counts_award policy period) (values state.awards)))
  reversed ← sum_atomic (
      map (λ (x : SignedReversal). x.payload.amount_atomic)
        (select (counts_reversal policy period state.awards) (values state.award_reversals)))
  pending ← sum_atomic (
      map (λ (x : Invocation). x.max_invocation_award_atomic)
        (select (counts_invocation policy period) (values state.invocations)))
  ok (record { added = awarded + pending; taken = reversed })

-- The check of the cap: with one more award the exposure is at most the cap of the policy.
unfoldable pub require_award_cap :
    EngineState → Policy → JsString → JsString → Result AwardError (Unit {0})
require_award_cap state policy period award_atomic = do
  exposure ← award_exposure_atomic state policy period
  award ← to_atomic award_atomic
  cap ← to_atomic policy.max_award_per_period_atomic
  fail_if (ltb (cap + exposure.taken) (exposure.added + award)) award_cap
