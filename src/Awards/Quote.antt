-- ===== src/Awards/Quote.antt =====
-- spikes/internal-invocation-awards/src/schema.mjs: `validateQuote`.
use skill_asset_protocol.Base.{
  ℕ, List, [], ◌∷◌, not, ◌&&◌, ◌||◌, JsString, text_eq, ltb, leb, ◌==◌, Result, ok, ◌>>=◌, ◌>>◌,
  fail_if,
}
use skill_asset_protocol.Kernel.Patterns.{hash_pattern}
use skill_asset_protocol.Kernel.Platform.{Platform}
use skill_asset_protocol.Awards.Errors.{
  AwardError, Calendar, quote_version, quote_hash, quote_binding, quote_beneficiary, quote_gross,
  quote_limit, quote_award_limit, quote_self_award, quote_expired, quote_expiry,
}
use skill_asset_protocol.Awards.Schema.{
  to_atomic, sum_atomic, parse_utc, require_strings, assert_permitted, Policy, validate_policy,
  policy_hash,
}

pub record Quote : Type 0 where
  pub schema_version : ℕ
  pub quote_id : JsString
  pub invocation_id : JsString
  pub idempotency_key : JsString
  pub skill_id : JsString
  pub skill_version_hash : JsString
  pub creator_id : JsString
  pub wielder_id : JsString
  pub initiating_principal_id : JsString
  pub principal_attestation_id : JsString
  pub beneficiary_id : JsString
  pub cost_center : JsString
  pub policy_id : JsString
  pub policy_version : ℕ
  pub policy_hash : JsString
  pub max_execution_cost_atomic : JsString
  pub protocol_fee_atomic : JsString
  pub refund_reserve_atomic : JsString
  pub max_invocation_award_atomic : JsString
  pub max_gross_atomic : JsString
  pub expires_at : JsString

-- The identifiers that must not be empty.
abbrev pub quote_strings : Quote → List JsString
quote_strings q =
    q.quote_id ∷ q.invocation_id ∷ q.idempotency_key ∷ q.skill_id ∷ q.creator_id ∷ q.wielder_id
    ∷ q.initiating_principal_id ∷ q.principal_attestation_id ∷ q.beneficiary_id ∷ q.cost_center
    ∷ q.policy_id ∷ []

-- The part that binds the quote to its policy.
unfoldable pub validate_quote_binding : Platform → Quote → Policy → Result AwardError (Unit {0})
validate_quote_binding p q policy = do
  fail_if (not (q.schema_version == 1)) quote_version
  require_strings (quote_strings q)
  fail_if (not (hash_pattern q.skill_version_hash)) quote_hash
  fail_if (not (text_eq q.policy_id policy.policy_id) || not (q.policy_version == policy.version))
      quote_binding
  fail_if (not (text_eq q.policy_hash (policy_hash p policy))) quote_hash
  assert_permitted q.skill_id policy.permitted_skill_ids
  assert_permitted q.creator_id policy.permitted_creator_ids
  assert_permitted q.wielder_id policy.permitted_wielder_ids
  assert_permitted q.initiating_principal_id policy.permitted_initiating_principal_ids
  assert_permitted q.cost_center policy.permitted_cost_centers
  fail_if (not (text_eq q.beneficiary_id policy.employer_id)) quote_beneficiary

-- The part on the amounts; its result is the maximum gross.
unfoldable pub validate_quote_amounts : Quote → Policy → Result AwardError ℕ
validate_quote_amounts q policy = do
  expected ← sum_atomic (
      q.max_execution_cost_atomic ∷ q.protocol_fee_atomic ∷ q.refund_reserve_atomic
      ∷ q.max_invocation_award_atomic ∷ [])
  gross ← to_atomic q.max_gross_atomic
  fail_if (not (gross == expected)) quote_gross
  max_quote ← to_atomic policy.max_quote_atomic
  fail_if (ltb max_quote gross) quote_limit
  award ← to_atomic q.max_invocation_award_atomic
  max_award ← to_atomic policy.max_award_per_invocation_atomic
  fail_if (ltb max_award award) quote_award_limit
  fail_if
      (ltb 0 award
        && (text_eq q.creator_id policy.employer_id || text_eq q.creator_id q.beneficiary_id))
      quote_self_award
  ok gross

unfoldable pub validate_quote :
    Platform → Calendar → Quote → Policy → JsString → Result AwardError Quote
validate_quote p calendar q input now = do
  policy ← validate_policy calendar input now
  validate_quote_binding p q policy
  _ ← validate_quote_amounts q policy
  expiry ← parse_utc calendar q.expires_at
  at ← parse_utc calendar now
  fail_if (leb expiry at) quote_expired
  policy_expiry ← parse_utc calendar policy.expires_at
  fail_if (ltb policy_expiry expiry) quote_expiry
  ok q
