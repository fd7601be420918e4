-- ===== src/Kernel/Policy/Request.antt =====
-- spikes/pi-wielder/src/kernel/policy-engine.mjs: the validators of the evaluation's other inputs.
-- The objects have exactly the fields of their schemas; an optional field is an `Option`.
use skill_asset_protocol.Base.{
  ℕ, List, not, ◌||◌, Option, none, some, JsString, text_eq, length, ltb, ◌==◌, Result, ok, ◌>>=◌,
  ◌>>◌, fail_if, map_all, Value,
}
use skill_asset_protocol.Kernel.Errors.{
  KernelError, input_schema, challenge_schema, challenge_amount, challenge_timeout,
  challenge_resource, policy_hash_mismatch, budget_snapshot,
}
use skill_asset_protocol.Kernel.Patterns.{method_pattern, mime_pattern, canonical_address_pattern}
use skill_asset_protocol.Kernel.Platform.{Platform}
use skill_asset_protocol.Kernel.Canonical.{canonical_token}
use skill_asset_protocol.Kernel.Policy.Fields.{
  max_safe_integer, canonical_address, canonical_hash, atomic_text, positive_safe_integer,
  nonnegative_safe_integer, protocol_token, bounded_string, normalize_origin, canonical_path,
  canonical_resource_url,
}

-- The document and the validated intent have the same fields.
pub record Intent : Type 0 where
  pub id : JsString
  pub method : JsString
  pub request_url : JsString
  pub seller_origin : JsString
  pub resource_path : JsString
  pub wallet_address : JsString

pub record Wallet : Type 0 where
  pub provider : JsString
  pub wallet_id : JsString
  pub address : JsString
  pub network : JsString

pub record Extra : Type 0 where
  pub name : JsString
  pub version : JsString
  pub asset_transfer_method : Option JsString

pub record CandidateDocument : Type 0 where
  pub scheme : JsString
  pub network : JsString
  pub asset : JsString
  pub amount : JsString
  pub pay_to : JsString
  pub max_timeout_seconds : Value
  pub extra : Extra

pub record Candidate : Type 0 where
  pub scheme : JsString
  pub network : JsString
  pub asset : JsString
  pub amount : ℕ
  pub pay_to : JsString
  pub max_timeout_seconds : ℕ
  pub extra : Extra

pub record Resource : Type 0 where
  pub url : JsString
  pub description : JsString
  pub mime_type : JsString

pub record PaymentDocument : Type 0 where
  pub x402_version : Value
  pub error : Option JsString
  pub resource : Resource
  pub accepts : List CandidateDocument

pub record PaymentRequired : Type 0 where
  pub x402_version : ℕ
  pub error : Option JsString
  pub resource : Resource
  pub accepts : List Candidate

pub record PolicyVersion : Type 0 where
  pub id : JsString
  pub hash : JsString

pub record BudgetDocument : Type 0 where
  pub seller_session_exposure : JsString
  pub session_exposure : JsString
  pub rolling_24h_exposure : JsString
  pub pending_approval_count : Value

pub record BudgetSnapshot : Type 0 where
  pub seller_session_exposure : ℕ
  pub session_exposure : ℕ
  pub rolling_24h_exposure : ℕ
  pub pending_approval_count : ℕ

-- `boundedString` of a field that may be absent
abbrev pub optional_bounded :
    Platform → KernelError → ℕ → Option JsString → Result KernelError (Option JsString)
optional_bounded p code n none = ok none
optional_bounded p code n (some s) = do t ← bounded_string p code n s; ok (some t)

unfoldable pub validate_policy_version : PolicyVersion → Result KernelError PolicyVersion
validate_policy_version d = do
  id ← canonical_token d.id
  hash ← canonical_hash policy_hash_mismatch d.hash
  ok (record { id = id; hash = hash })

unfoldable pub validate_budget_snapshot : BudgetDocument → Result KernelError BudgetSnapshot
validate_budget_snapshot d = do
  seller_session ← atomic_text budget_snapshot d.seller_session_exposure
  session ← atomic_text budget_snapshot d.session_exposure
  rolling ← atomic_text budget_snapshot d.rolling_24h_exposure
  pending ← nonnegative_safe_integer budget_snapshot d.pending_approval_count
  ok (record {
    seller_session_exposure = seller_session;
    session_exposure = session;
    rolling_24h_exposure = rolling;
    pending_approval_count = pending;
  })

unfoldable pub validate_wallet : Wallet → Result KernelError Wallet
validate_wallet d = do
  provider ← canonical_token d.provider
  wallet_id ← canonical_token d.wallet_id
  address ← canonical_address input_schema d.address
  network ← protocol_token input_schema d.network
  ok (record { provider = provider; wallet_id = wallet_id; address = address; network = network })

module _ (p : Platform) where
  unfoldable pub validate_intent : Intent → Result KernelError Intent
  validate_intent d = do
    id ← canonical_token d.id
    fail_if (not (method_pattern d.method)) input_schema
    request ← canonical_resource_url p input_schema d.request_url
    seller_origin ← normalize_origin p input_schema d.seller_origin
    resource_path ← canonical_path p input_schema seller_origin d.resource_path
    fail_if
        (not (text_eq request.origin seller_origin) || not (text_eq request.pathname resource_path))
        input_schema
    wallet_address ← canonical_address input_schema d.wallet_address
    ok (record {
      id = id;
      method = d.method;
      request_url = request.href;
      seller_origin = seller_origin;
      resource_path = resource_path;
      wallet_address = wallet_address;
    })

  unfoldable pub validate_candidate : CandidateDocument → Result KernelError Candidate
  validate_candidate d = do
    amount ← atomic_text challenge_amount d.amount
    fail_if (amount == 0) challenge_amount
    timeout ← positive_safe_integer challenge_timeout 3_600 d.max_timeout_seconds
    fail_if (not (canonical_address_pattern d.asset) || not (canonical_address_pattern d.pay_to))
        challenge_schema
    method ← optional_bounded p challenge_schema 100 d.extra.asset_transfer_method
    scheme ← protocol_token challenge_schema d.scheme
    network ← protocol_token challenge_schema d.network
    name ← bounded_string p challenge_schema 100 d.extra.name
    version ← bounded_string p challenge_schema 100 d.extra.version
    ok (record {
      scheme = scheme;
      network = network;
      asset = d.asset;
      amount = amount;
      pay_to = d.pay_to;
      max_timeout_seconds = timeout;
      extra = record { name = name; version = version; asset_transfer_method = method };
    })

  unfoldable pub validate_payment_required : PaymentDocument → Result KernelError PaymentRequired
  validate_payment_required d = do
    version ← positive_safe_integer challenge_schema max_safe_integer d.x402_version
    error ← optional_bounded p challenge_schema 2048 d.error
    url ← canonical_resource_url p challenge_resource d.resource.url
    description ← bounded_string p challenge_schema 1024 d.resource.description
    mime_type ← bounded_string p challenge_schema 200 d.resource.mime_type
    fail_if (not (mime_pattern mime_type)) challenge_schema
    fail_if (ltb 100 (length d.accepts)) challenge_schema
    accepts ← map_all validate_candidate d.accepts
    ok (record {
      x402_version = version;
      error = error;
      resource = record { url = url.href; description = description; mime_type = mime_type };
      accepts = accepts;
    })
