-- ===== src/Kernel/Policy/Document.antt =====
-- spikes/pi-wielder/src/kernel/policy-engine.mjs: `validatePolicyDocument`. A document has exactly
-- the fields of its schema; canonical amounts become the numbers that they spell.
use skill_asset_protocol.Base.{
  ℕ, List, map, Bool, false, not, ◌||◌, JsString, js, text_eq, distinct, all, length, ltb, ◌==◌,
  Result, ok, ◌>>=◌, ◌>>◌, fail_if, map_all, Value, number, pos,
}
use skill_asset_protocol.Kernel.Errors.{
  KernelError, policy_address, policy_seller_origin, policy_resource_path, policy_path_duplicate,
  policy_atomic, policy_limit_order, policy_evidence_path, policy_schema_version, policy_network,
  policy_asset, policy_methods, policy_sellers, policy_seller_duplicate, policy_time,
  policy_approval_capacity, policy_default,
}
use skill_asset_protocol.Kernel.Patterns.{method_pattern}
use skill_asset_protocol.Kernel.Platform.{Platform}
use skill_asset_protocol.Kernel.Policy.Fields.{
  max_safe_integer, canonical_address, atomic_text, positive_safe_integer, normalize_origin,
  canonical_path,
}

abbrev pub base_sepolia : JsString
base_sepolia = js "eip155:84532"

abbrev pub base_sepolia_usdc : JsString
base_sepolia_usdc = js "0x036cbd53842c5426634e7929541ec2318f3dcf7e"

pub record SellerDocument : Type 0 where
  pub origin : JsString
  pub path_prefixes : List JsString
  pub pay_to : JsString
  pub evidence_path : JsString
  pub execution_signer : JsString
  pub refund_signer : JsString
  pub refund_source : JsString
  pub per_request_max : JsString
  pub auto_approve : JsString
  pub human_approve : JsString
  pub seller_session_max : JsString

pub record Seller : Type 0 where
  pub origin : JsString
  pub path_prefixes : List JsString
  pub pay_to : JsString
  pub evidence_path : JsString
  pub execution_signer : JsString
  pub refund_signer : JsString
  pub refund_source : JsString
  pub per_request_max : ℕ
  pub auto_approve : ℕ
  pub human_approve : ℕ
  pub seller_session_max : ℕ

pub record PolicyDocument : Type 0 where
  pub schema_version : Value
  pub network : JsString
  pub asset : JsString
  pub wallet : JsString
  pub methods : List JsString
  pub sellers : List SellerDocument
  pub session_max : JsString
  pub rolling_24h_max : JsString
  pub challenge_max_age_ms : Value
  pub approval_ttl_ms : Value
  pub max_pending_approvals : Value
  pub default_action : JsString

-- Behind validation the schema version is 1, the network Base Sepolia and the default a denial.
pub record Policy : Type 0 where
  pub network : JsString
  pub asset : JsString
  pub wallet : JsString
  pub methods : List JsString
  pub sellers : List Seller
  pub session_max : ℕ
  pub rolling_24h_max : ℕ
  pub challenge_max_age_ms : ℕ
  pub approval_ttl_ms : ℕ
  pub max_pending_approvals : ℕ

-- `length < 1 || length > n`
abbrev pub out_of_bounds {ℓ} : {A : Type ℓ} → ℕ → List A → Bool
out_of_bounds n xs = ltb (length xs) 1 || ltb n (length xs)

abbrev pub is_version_one : Value → Bool
is_version_one (number (pos n)) = n == 1
is_version_one _ = false

unfoldable pub validate_policy_seller : Platform → SellerDocument → Result KernelError Seller
validate_policy_seller p d = do
  origin ← normalize_origin p policy_seller_origin d.origin
  fail_if (out_of_bounds 100 d.path_prefixes) policy_resource_path
  path_prefixes ← map_all (canonical_path p policy_resource_path origin) d.path_prefixes
  fail_if (not (distinct path_prefixes)) policy_path_duplicate
  per_request ← atomic_text policy_atomic d.per_request_max
  automatic ← atomic_text policy_atomic d.auto_approve
  human ← atomic_text policy_atomic d.human_approve
  seller_session ← atomic_text policy_atomic d.seller_session_max
  fail_if (per_request == 0 || seller_session == 0 || ltb human automatic || ltb per_request human)
      policy_limit_order
  pay_to ← canonical_address policy_address d.pay_to
  evidence_path ← canonical_path p policy_evidence_path origin d.evidence_path
  execution_signer ← canonical_address policy_address d.execution_signer
  refund_signer ← canonical_address policy_address d.refund_signer
  refund_source ← canonical_address policy_address d.refund_source
  ok (record {
    origin = origin;
    path_prefixes = path_prefixes;
    pay_to = pay_to;
    evidence_path = evidence_path;
    execution_signer = execution_signer;
    refund_signer = refund_signer;
    refund_source = refund_source;
    per_request_max = per_request;
    auto_approve = automatic;
    human_approve = human;
    seller_session_max = seller_session;
  })

unfoldable pub validate_policy_document : Platform → PolicyDocument → Result KernelError Policy
validate_policy_document p d = do
  fail_if (not (is_version_one d.schema_version)) policy_schema_version
  fail_if (not (text_eq d.network base_sepolia)) policy_network
  asset ← canonical_address policy_address d.asset
  fail_if (not (text_eq asset base_sepolia_usdc)) policy_asset
  fail_if
      (out_of_bounds 32 d.methods || not (all method_pattern d.methods) || not (distinct d.methods))
      policy_methods
  fail_if (out_of_bounds 100 d.sellers) policy_sellers
  sellers ← map_all (validate_policy_seller p) d.sellers
  fail_if (not (distinct (map (λ (s : Seller). s.origin) sellers))) policy_seller_duplicate
  session ← atomic_text policy_atomic d.session_max
  rolling ← atomic_text policy_atomic d.rolling_24h_max
  fail_if (session == 0 || rolling == 0) policy_limit_order
  challenge_max_age ← positive_safe_integer policy_time max_safe_integer d.challenge_max_age_ms
  approval_ttl ← positive_safe_integer policy_time max_safe_integer d.approval_ttl_ms
  max_pending ←
      positive_safe_integer policy_approval_capacity max_safe_integer d.max_pending_approvals
  fail_if (not (text_eq d.default_action (js "deny"))) policy_default
  wallet ← canonical_address policy_address d.wallet
  ok (record {
    network = base_sepolia;
    asset = asset;
    wallet = wallet;
    methods = d.methods;
    sellers = sellers;
    session_max = session;
    rolling_24h_max = rolling;
    challenge_max_age_ms = challenge_max_age;
    approval_ttl_ms = approval_ttl;
    max_pending_approvals = max_pending;
  })
