-- ===== src/Awards/Schema.antt =====
-- spikes/internal-invocation-awards/src/schema.mjs: amounts, timestamps, and `validatePolicy` with
-- the canonical bytes and the hash of a policy. The objects have exactly the keys of their schemas;
-- their numbers are nonnegative safe integers.
use skill_asset_protocol.Base.{
  ℕ, ◌+◌, List, [], ◌∷◌, ◌++◌, map, Bool, not, ◌&&◌, none, some, JsString, js, text_eq, includes,
  null, all, length, ltb, leb, ◌==◌, if◌then◌else◌, Result, ok, err, ◌>>=◌, ◌>>◌, fail_if, decimal,
  parse_atomic, sort_by,
}
use skill_asset_protocol.Kernel.Patterns.{is_upper}
use skill_asset_protocol.Kernel.Platform.{Platform}
use skill_asset_protocol.Kernel.Canonical.{join_comma}
use skill_asset_protocol.Awards.Errors.{
  AwardError, Calendar, atomic_format, timestamp_format, string_empty, set_empty, set_duplicate,
  not_permitted, policy_version, policy_status, policy_currency, policy_scale, policy_window,
  policy_not_effective, policy_expired, policy_employer, policy_award_limits, policy_award_rule,
  policy_self_invocation, policy_vesting, policy_schedule,
}

unfoldable pub to_atomic : JsString → Result AwardError ℕ
to_atomic s = elim (parse_atomic s) [ none ↦ err atomic_format | some n ↦ ok n ]

-- `values.reduce((sum, value) => sum + toAtomic(value), 0n)`
unfoldable pub sum_atomic : List JsString → Result AwardError ℕ
sum_atomic [] = ok 0
sum_atomic (s ∷ ss) = do n ← to_atomic s; rest ← sum_atomic ss; ok (n + rest)

unfoldable pub parse_utc : Calendar → JsString → Result AwardError ℕ
parse_utc calendar s = elim (calendar.parse_date s) [
  | none ↦ err timestamp_format
  | some millis ↦ if text_eq (calendar.iso_string millis) s then ok millis else err timestamp_format
]

unfoldable pub require_string : JsString → Result AwardError JsString
require_string s = if null s then err string_empty else ok s

unfoldable pub require_strings : List JsString → Result AwardError (Unit {0})
require_strings [] = ok tt
require_strings (s ∷ ss) = do _ ← require_string s; require_strings ss

-- The loop over the entries of a set, with those seen before.
unfoldable pub require_entries : List JsString → List JsString → Result AwardError (Unit {0})
require_entries seen [] = ok tt
require_entries seen (s ∷ ss) = do
  _ ← require_string s
  fail_if (includes s seen) set_duplicate
  require_entries (s ∷ seen) ss

unfoldable pub require_string_set : List JsString → Result AwardError (Unit {0})
require_string_set ss = do fail_if (null ss) set_empty; require_entries [] ss

unfoldable pub require_string_sets : List (List JsString) → Result AwardError (Unit {0})
require_string_sets [] = ok tt
require_string_sets (ss ∷ sets) = do require_string_set ss; require_string_sets sets

unfoldable pub assert_permitted : JsString → List JsString → Result AwardError (Unit {0})
assert_permitted s permitted = fail_if (not (includes s permitted)) not_permitted

pub record AwardRule : Type 0 where
  pub rule_type : JsString
  pub award_rate_bps : ℕ
  pub rate_base : JsString
  pub rounding : JsString

pub record Policy : Type 0 where
  pub schema_version : ℕ
  pub policy_id : JsString
  pub version : ℕ
  pub status : JsString
  pub currency : JsString
  pub atomic_scale : ℕ
  pub employer_id : JsString
  pub effective_at : JsString
  pub expires_at : JsString
  pub permitted_skill_ids : List JsString
  pub permitted_creator_ids : List JsString
  pub permitted_wielder_ids : List JsString
  pub permitted_initiating_principal_ids : List JsString
  pub permitted_cost_centers : List JsString
  pub max_quote_atomic : JsString
  pub award_rule : AwardRule
  pub max_award_per_invocation_atomic : JsString
  pub max_award_per_period_atomic : JsString
  pub self_invocation : JsString
  pub permitted_manager_signer_ids : List JsString
  pub permitted_credential_authorizer_ids : List JsString
  pub permitted_identity_signer_ids : List JsString
  pub permitted_finance_signer_ids : List JsString
  pub vesting_rule : JsString
  pub payment_schedule : JsString
  pub termination_treatment : JsString
  pub payment_rail : JsString

-- `/^[A-Z]{3,12}$/`
unfoldable pub currency_pattern : JsString → Bool
currency_pattern s = leb 3 (length s) && leb (length s) 12 && all is_upper s

unfoldable pub is_award_rule : AwardRule → Bool
is_award_rule r =
    text_eq r.rule_type (js "residual_after_execution_fee_and_reserve")
    && r.award_rate_bps == 10_000
    && text_eq r.rate_base (js "post_cost_residual")
    && text_eq r.rounding (js "floor_atomic")

-- The nine sets of a policy.
abbrev pub permitted_sets : Policy → List (List JsString)
permitted_sets policy =
    policy.permitted_skill_ids ∷ policy.permitted_creator_ids ∷ policy.permitted_wielder_ids
    ∷ policy.permitted_initiating_principal_ids ∷ policy.permitted_cost_centers
    ∷ policy.permitted_manager_signer_ids ∷ policy.permitted_credential_authorizer_ids
    ∷ policy.permitted_identity_signer_ids ∷ policy.permitted_finance_signer_ids ∷ []

-- What follows the check of the window: the sets, the amounts, the rule and the choices.
unfoldable pub validate_policy_terms : Policy → Result AwardError Policy
validate_policy_terms policy = do
  require_string_sets (permitted_sets policy)
  fail_if (includes policy.employer_id policy.permitted_creator_ids) policy_employer
  _ ← to_atomic policy.max_quote_atomic
  per_invocation ← to_atomic policy.max_award_per_invocation_atomic
  per_period ← to_atomic policy.max_award_per_period_atomic
  fail_if (ltb per_period per_invocation) policy_award_limits
  fail_if (not (is_award_rule policy.award_rule)) policy_award_rule
  fail_if
      (not (includes policy.self_invocation (js "excluded" ∷ js "manager_approval_required" ∷ [])))
      policy_self_invocation
  fail_if (not (includes policy.vesting_rule (js "none" ∷ js "future_policy_controlled" ∷ [])))
      policy_vesting
  fail_if (not (text_eq policy.payment_schedule (js "monthly_in_arrears"))) policy_schedule
  _ ← require_string policy.termination_treatment
  _ ← require_string policy.payment_rail
  ok policy

unfoldable pub validate_policy : Calendar → Policy → JsString → Result AwardError Policy
validate_policy calendar policy now = do
  fail_if (not (policy.schema_version == 1)) policy_version
  _ ← require_string policy.policy_id
  fail_if (ltb policy.version 1) policy_version
  fail_if (not (text_eq policy.status (js "active"))) policy_status
  fail_if (not (currency_pattern policy.currency)) policy_currency
  fail_if (ltb 18 policy.atomic_scale) policy_scale
  _ ← require_string policy.employer_id
  effective_at ← parse_utc calendar policy.effective_at
  expires_at ← parse_utc calendar policy.expires_at
  fail_if (leb expires_at effective_at) policy_window
  at ← parse_utc calendar now
  fail_if (ltb at effective_at) policy_not_effective
  fail_if (leb expires_at at) policy_expired
  validate_policy_terms policy

module _ (p : Platform) where
  -- `JSON.stringify` of a list of strings, and of an object in the order of its members
  abbrev pub json_list : List JsString → JsString
  json_list ss = b'[' ∷ (join_comma (map p.json_string ss) ++ b']' ∷ [])

  abbrev pub json_member : JsString × JsString → JsString
  json_member (key, value) = p.json_string key ++ b':' ∷ value

  abbrev pub json_object : List (JsString × JsString) → JsString
  json_object members = b'{' ∷ (join_comma (map json_member members) ++ b'}' ∷ [])

  abbrev pub json_set : List JsString → JsString
  json_set ss = json_list (sort_by (λ s. s) ss)

  unfoldable pub award_rule_json : AwardRule → JsString
  award_rule_json r = json_object (
      (js "type", p.json_string r.rule_type)
      ∷ (js "awardRateBps", decimal r.award_rate_bps)
      ∷ (js "rateBase", p.json_string r.rate_base)
      ∷ (js "rounding", p.json_string r.rounding)
      ∷ [])

  unfoldable pub canonical_policy_bytes : Policy → JsString
  canonical_policy_bytes q = json_object (
      (js "schemaVersion", decimal q.schema_version)
      ∷ (js "policyId", p.json_string q.policy_id)
      ∷ (js "version", decimal q.version)
      ∷ (js "status", p.json_string q.status)
      ∷ (js "currency", p.json_string q.currency)
      ∷ (js "atomicScale", decimal q.atomic_scale)
      ∷ (js "employerId", p.json_string q.employer_id)
      ∷ (js "effectiveAt", p.json_string q.effective_at)
      ∷ (js "expiresAt", p.json_string q.expires_at)
      ∷ (js "permittedSkillIds", json_set q.permitted_skill_ids)
      ∷ (js "permittedCreatorIds", json_set q.permitted_creator_ids)
      ∷ (js "permittedWielderIds", json_set q.permitted_wielder_ids)
      ∷ (js "permittedInitiatingPrincipalIds", json_set q.permitted_initiating_principal_ids)
      ∷ (js "permittedCostCenters", json_set q.permitted_cost_centers)
      ∷ (js "maxQuoteAtomic", p.json_string q.max_quote_atomic)
      ∷ (js "awardRule", award_rule_json q.award_rule)
      ∷ (js "maxAwardPerInvocationAtomic", p.json_string q.max_award_per_invocation_atomic)
      ∷ (js "maxAwardPerPeriodAtomic", p.json_string q.max_award_per_period_atomic)
      ∷ (js "selfInvocation", p.json_string q.self_invocation)
      ∷ (js "permittedManagerSignerIds", json_set q.permitted_manager_signer_ids)
      ∷ (js "permittedCredentialAuthorizerIds", json_set q.permitted_credential_authorizer_ids)
      ∷ (js "permittedIdentitySignerIds", json_set q.permitted_identity_signer_ids)
      ∷ (js "permittedFinanceSignerIds", json_set q.permitted_finance_signer_ids)
      ∷ (js "vestingRule", p.json_string q.vesting_rule)
      ∷ (js "paymentSchedule", p.json_string q.payment_schedule)
      ∷ (js "terminationTreatment", p.json_string q.termination_treatment)
      ∷ (js "paymentRail", p.json_string q.payment_rail)
      ∷ [])

  unfoldable pub policy_hash : Policy → JsString
  policy_hash q = p.sha256 (canonical_policy_bytes q)
