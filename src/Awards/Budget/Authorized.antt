-- ===== src/Awards/Budget/Authorized.antt =====
-- spikes/internal-invocation-awards/src/budget.mjs: `createBudget`, which makes a budget of the
-- authorization that a trusted finance signer has signed.
use skill_asset_protocol.Base.{
  ℕ, [], ◌∷◌, ◌++◌, not, ◌||◌, JsString, js, text_eq, includes, ltb, leb, ◌==◌, Option, none, some,
  Result, ok, err, ◌>>=◌, ◌>>◌, fail_if, decimal, Dictionary, lookup, map_all,
}
use skill_asset_protocol.Kernel.Platform.{Platform}
use skill_asset_protocol.Awards.Errors.{
  AwardError, Calendar, period_format, scope_scale, safe_integer, signer_untrusted,
  authorization_version, authorization_window, authorization_policy, authorization_denomination,
  authorization_signer, authorization_not_effective, authorization_expired,
}
use skill_asset_protocol.Awards.Schema.{
  to_atomic, parse_utc, require_string, require_strings, json_object, Policy, policy_hash,
  validate_policy,
}
use skill_asset_protocol.Awards.Registration.{period_parts, period_end_exclusive}
use skill_asset_protocol.Awards.Keys.{
  Crypto, normalize_public_key, decode_signature, require_signature,
}
use skill_asset_protocol.Awards.Budget.{Authorization, Budget}

-- `/^\d{4}-(0[1-9]|1[0-2])$/`
unfoldable pub require_period : Option (ℕ × ℕ) → Result AwardError (Unit {0})
require_period none = err period_format
require_period (some parts) = ok tt

unfoldable pub period_bounds : Calendar → JsString → Result AwardError (ℕ × ℕ)
period_bounds calendar period = do
  start ← parse_utc calendar (period ++ js "-01T00:00:00.000Z")
  end_text ← period_end_exclusive calendar period
  end ← parse_utc calendar end_text
  ok (start, end)

unfoldable pub validate_unsigned_authorization :
    Calendar → Authorization → Result AwardError Authorization
validate_unsigned_authorization calendar x = do
  fail_if (not (x.schema_version == 1)) authorization_version
  require_strings (x.budget_id ∷ x.policy_id ∷ x.policy_hash ∷ x.currency ∷ x.signer_id ∷ [])
  fail_if (ltb x.policy_version 1) safe_integer
  require_period (period_parts x.period)
  fail_if (ltb 18 x.atomic_scale) scope_scale
  _ ← to_atomic x.allocated_atomic
  effective_at ← parse_utc calendar x.effective_at
  expires_at ← parse_utc calendar x.expires_at
  fail_if (leb expires_at effective_at) authorization_window
  (start, end) ← period_bounds calendar x.period
  fail_if (ltb effective_at start || leb end effective_at) authorization_window
  fail_if (ltb end expires_at) authorization_window
  ok x

module _ (p : Platform) (c : Crypto) (calendar : Calendar) where
  unfoldable pub canonical_budget_bytes : Authorization → Result AwardError JsString
  canonical_budget_bytes input = do
    x ← validate_unsigned_authorization calendar input
    ok (
        json_object p (
          (js "schemaVersion", decimal x.schema_version)
          ∷ (js "budgetId", p.json_string x.budget_id)
          ∷ (js "policyId", p.json_string x.policy_id)
          ∷ (js "policyVersion", decimal x.policy_version)
          ∷ (js "policyHash", p.json_string x.policy_hash)
          ∷ (js "period", p.json_string x.period)
          ∷ (js "currency", p.json_string x.currency)
          ∷ (js "atomicScale", decimal x.atomic_scale)
          ∷ (js "allocatedAtomic", p.json_string x.allocated_atomic)
          ∷ (js "effectiveAt", p.json_string x.effective_at)
          ∷ (js "expiresAt", p.json_string x.expires_at)
          ∷ (js "signerId", p.json_string x.signer_id)
          ∷ []))

  -- `validateTrustedSignerMap`: the signers with their normalized keys.
  unfoldable pub normalize_signer : JsString × JsString → Result AwardError (JsString × JsString)
  normalize_signer x = do
    signer_id ← require_string x.0
    key ← normalize_public_key c x.1
    ok (signer_id, key)

  unfoldable pub validate_trusted_signer_map :
      Dictionary JsString → Result AwardError (Dictionary JsString)
  validate_trusted_signer_map trust = map_all normalize_signer trust

  unfoldable pub finance_key : Option JsString → Result AwardError JsString
  finance_key none = err signer_untrusted
  finance_key (some key) = ok key

  -- What binds the authorization to the policy and to a signer; its result is the signer's key.
  unfoldable pub require_authorized :
      Authorization → Policy → Dictionary JsString → Result AwardError JsString
  require_authorized x policy signers = do
    fail_if (not (text_eq x.policy_id policy.policy_id) || not (x.policy_version == policy.version))
        authorization_policy
    fail_if (not (text_eq x.policy_hash (policy_hash p policy))) authorization_policy
    fail_if
        (not (text_eq x.currency policy.currency) || not (x.atomic_scale == policy.atomic_scale))
        authorization_denomination
    fail_if (not (includes x.signer_id policy.permitted_finance_signer_ids)) authorization_signer
    finance_key (lookup x.signer_id signers)

  -- The instants at which the authorization counts.
  unfoldable pub require_authorization_window :
      Authorization → Policy → JsString → Result AwardError (Unit {0})
  require_authorization_window x policy now = do
    at ← parse_utc calendar now
    effective_at ← parse_utc calendar x.effective_at
    expires_at ← parse_utc calendar x.expires_at
    fail_if (ltb at effective_at) authorization_not_effective
    fail_if (leb expires_at at) authorization_expired
    policy_effective_at ← parse_utc calendar policy.effective_at
    policy_expires_at ← parse_utc calendar policy.expires_at
    fail_if (ltb effective_at policy_effective_at || ltb policy_expires_at expires_at)
        authorization_window

  unfoldable pub create_budget :
      Authorization → Dictionary JsString → Policy → JsString → Result AwardError Budget
  create_budget signed trusted policy_input now = do
    x ← validate_unsigned_authorization calendar signed
    policy ← validate_policy calendar policy_input now
    signers ← validate_trusted_signer_map trusted
    key ← require_authorized x policy signers
    require_authorization_window x policy now
    signature ← decode_signature c signed.signature
    bytes ← canonical_budget_bytes x
    require_signature c bytes key signature
    ok (record {
      schema_version = 1;
      budget_id = x.budget_id;
      policy_id = x.policy_id;
      policy_version = x.policy_version;
      policy_hash = x.policy_hash;
      period = x.period;
      currency = x.currency;
      atomic_scale = x.atomic_scale;
      authorization = signed;
      policy = policy;
      allocated_atomic = x.allocated_atomic;
      reserved_atomic = js "0";
      consumed_atomic = js "0";
      released_atomic = js "0";
      revision = 0;
    })
