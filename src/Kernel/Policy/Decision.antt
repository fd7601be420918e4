-- ===== src/Kernel/Policy/Decision.antt =====
-- spikes/pi-wielder/src/kernel/policy-engine.mjs: `selectExactCandidate` and `evaluateSpendPolicy`.
pub mod Stored
pub mod Limits
pub mod Accepted
pub mod Consistent
use skill_asset_protocol.Base.{
  ℕ, suc, ◌+◌, ◌-◌, List, [], ◌∷◌, map, Bool, true, false, not, ◌&&◌, ◌||◌, Option, none, some,
  JsString, js, text_eq, includes, starts_with, null, any, select, find?, length, ltb, leb, ◌==◌,
  if◌then◌else◌, Result, ok, err, ◌>>=◌, ◌>>◌, fail_if, Value,
}
use skill_asset_protocol.Kernel.Errors.{
  KernelError, challenge_time, policy_hash_mismatch, policy_decision_schema,
}
use skill_asset_protocol.Kernel.Platform.{Platform}
use skill_asset_protocol.Kernel.Canonical.{canonical_token}
use skill_asset_protocol.Kernel.Policy.Fields.{canonical_hash, nonnegative_safe_integer}
use skill_asset_protocol.Kernel.Policy.Document.{
  Seller, Policy, PolicyDocument, validate_policy_document,
}
use skill_asset_protocol.Kernel.Policy.Request.{
  Intent, Wallet, Candidate, PaymentDocument, PaymentRequired, PolicyVersion, BudgetDocument,
  BudgetSnapshot, validate_intent, validate_wallet, validate_payment_required,
  validate_policy_version, validate_budget_snapshot,
}
use skill_asset_protocol.Kernel.Policy.Projection.{
  policy_json, challenge_projection, hash_json, quote_id_of,
}

-- An entry of `accepts` with its index, by which `indexOf` finds it: the entries are distinct objects.
pub record Offer : Type 0 where
  pub index : ℕ
  pub candidate : Candidate

unfoldable pub offers_from : ℕ → List Candidate → List Offer
offers_from i [] = []
offers_from i (c ∷ cs) = record { index = i; candidate = c } ∷ offers_from (suc i) cs

abbrev pub supports_transfer : Option JsString → Bool
supports_transfer none = true
supports_transfer (some method) = text_eq method (js "eip3009")

unfoldable pub has_scheme : Offer → Bool
has_scheme o =
    text_eq o.candidate.scheme (js "exact")
    && supports_transfer o.candidate.extra.asset_transfer_method

unfoldable pub has_network : Policy → Offer → Bool
has_network policy o = text_eq o.candidate.network policy.network

unfoldable pub has_asset : Policy → Offer → Bool
has_asset policy o =
    text_eq o.candidate.asset policy.asset
    && text_eq o.candidate.extra.name (js "USDC")
    && text_eq o.candidate.extra.version (js "2")

unfoldable pub pays : Seller → Offer → Bool
pays seller o = text_eq o.candidate.pay_to seller.pay_to

unfoldable pub seller_for : Policy → Intent → Option Seller
seller_for policy intent =
    find? (λ (s : Seller). text_eq s.origin intent.seller_origin) policy.sellers

abbrev pub payees : Option Seller → List Offer → List Offer
payees none offers = []
payees (some seller) offers = select (pays seller) offers

pub record Analysis : Type 0 where
  pub scheme : List Offer
  pub network : List Offer
  pub asset : List Offer
  pub seller : Option Seller
  pub payee : List Offer

unfoldable pub candidate_analysis : Policy → Intent → PaymentRequired → Analysis
candidate_analysis policy intent payment =
    let scheme = select has_scheme (offers_from 0 payment.accepts) in
    let network = select (has_network policy) scheme in
    let asset = select (has_asset policy) network in
    let seller = seller_for policy intent in
    record {
      scheme = scheme;
      network = network;
      asset = asset;
      seller = seller;
      payee = payees seller asset;
    }

unfoldable pub allows_path : Seller → Intent → Bool
allows_path seller intent =
    any (λ prefix. starts_with intent.resource_path prefix) seller.path_prefixes

pub record Selection : Type 0 where
  pub accepted : Option Offer
  pub reason_code : Option JsString

abbrev pub refuse : JsString → Selection
refuse reason = record { accepted = none; reason_code = some reason }

-- The last two reasons, and the only candidate that is left.
unfoldable pub select_payee : List Offer → Selection
select_payee [] = refuse (js "PAYEE_MISMATCH")
select_payee (o ∷ []) = record { accepted = some o; reason_code = none }
select_payee (o ∷ o' ∷ os) = refuse (js "PAYMENT_OPTIONS_AMBIGUOUS")

unfoldable pub select_from_seller :
    Option Seller → Intent → PaymentRequired → List Offer → Selection
select_from_seller none intent payment payee = refuse (js "SELLER_UNTRUSTED")
select_from_seller (some seller) intent payment payee =
    if not (allows_path seller intent) || not (text_eq payment.resource.url intent.request_url)
    then refuse (js "RESOURCE_PATH")
    else select_payee payee

unfoldable pub select_validated_candidate : Policy → Intent → PaymentRequired → Selection
select_validated_candidate policy intent payment =
    let analysis = candidate_analysis policy intent payment in
    if not (payment.x402_version == 2)
    then refuse (js "X402_VERSION")
    else if null analysis.scheme
    then refuse (js "SCHEME_UNSUPPORTED")
    else if null analysis.network
    then refuse (js "NETWORK_MISMATCH")
    else if null analysis.asset
    then refuse (js "ASSET_MISMATCH")
    else select_from_seller analysis.seller intent payment analysis.payee

unfoldable pub select_exact_candidate :
    Platform → PolicyDocument → Intent → PaymentDocument → Result KernelError Selection
select_exact_candidate p document intent payment = do
  normalized_policy ← validate_policy_document p document
  normalized_intent ← validate_intent p intent
  normalized_payment ← validate_payment_required p payment
  ok (select_validated_candidate normalized_policy normalized_intent normalized_payment)

pub data Outcome : Type 0 where
  allow approval_required deny : Outcome

pub record Evaluation : Type 0 where
  pub decision : Outcome
  pub reason_code : JsString
  pub policy_hash : JsString
  pub challenge_hash : JsString
  pub quote_id : Option JsString
  pub amount_ceiling : ℕ
  pub accepted_index : Option ℕ

-- What the limits say of the selected candidate.
pub record Verdict : Type 0 where
  pub outcome : Outcome
  pub reason : JsString

abbrev pub denied : JsString → Verdict
denied reason = record { outcome = deny; reason = reason }

unfoldable pub judge : Policy → Seller → BudgetSnapshot → ℕ → ℕ → ℕ → Verdict
judge policy seller budget received now amount =
    if ltb policy.challenge_max_age_ms (now - received)
    then denied (js "CHALLENGE_EXPIRED")
    else if ltb seller.per_request_max amount || ltb seller.human_approve amount
    then denied (js "PER_REQUEST_LIMIT")
    else if ltb seller.seller_session_max (budget.seller_session_exposure + amount)
    then denied (js "SELLER_SESSION_LIMIT")
    else if ltb policy.session_max (budget.session_exposure + amount)
    then denied (js "SESSION_LIMIT")
    else if ltb policy.rolling_24h_max (budget.rolling_24h_exposure + amount)
    then denied (js "ROLLING_24H_LIMIT")
    else if ltb seller.auto_approve amount
        && leb policy.max_pending_approvals budget.pending_approval_count
    then denied (js "APPROVAL_CAPACITY")
    else if leb amount seller.auto_approve
    then record { outcome = allow; reason = js "WITHIN_AUTO_LIMIT" }
    else record { outcome = approval_required; reason = js "HUMAN_APPROVAL_REQUIRED" }

module _ (p : Platform) (policy_hash challenge_hash : JsString) where
  -- `decision` with no selection and with one.
  unfoldable pub preselection_deny : JsString → Evaluation
  preselection_deny reason = record {
    decision = deny;
    reason_code = reason;
    policy_hash = policy_hash;
    challenge_hash = challenge_hash;
    quote_id = none;
    amount_ceiling = 0;
    accepted_index = none;
  }

  unfoldable pub selected_decision : Offer → Verdict → Evaluation
  selected_decision o verdict = record {
    decision = verdict.outcome;
    reason_code = verdict.reason;
    policy_hash = policy_hash;
    challenge_hash = challenge_hash;
    quote_id = some (quote_id_of p challenge_hash o.index);
    amount_ceiling = o.candidate.amount;
    accepted_index = some o.index;
  }

  unfoldable pub evaluate_payee : Policy → Seller → BudgetSnapshot → ℕ → ℕ → List Offer → Evaluation
  evaluate_payee policy seller budget received now [] = preselection_deny (js "PAYEE_MISMATCH")
  evaluate_payee policy seller budget received now (o ∷ []) =
      selected_decision o (judge policy seller budget received now o.candidate.amount)
  evaluate_payee policy seller budget received now (o ∷ o' ∷ os) =
      preselection_deny (js "PAYMENT_OPTIONS_AMBIGUOUS")

  unfoldable pub evaluate_seller :
      Policy
      → Option Seller
      → Intent
      → PaymentRequired
      → BudgetSnapshot
      → ℕ
      → ℕ
      → List Offer
      → Evaluation
  evaluate_seller policy none intent payment budget received now payee =
      preselection_deny (js "SELLER_UNTRUSTED")
  evaluate_seller policy (some seller) intent payment budget received now payee =
      if not (allows_path seller intent) || not (text_eq payment.resource.url intent.request_url)
      then preselection_deny (js "RESOURCE_PATH")
      else evaluate_payee policy seller budget received now payee

  -- What follows the validation of the inputs and the hash of the policy.
  unfoldable pub evaluate_validated :
      Policy → Intent → Wallet → PaymentRequired → BudgetSnapshot → ℕ → ℕ → Evaluation
  evaluate_validated policy intent wallet payment budget received now =
      let analysis = candidate_analysis policy intent payment in
      if not (payment.x402_version == 2)
      then preselection_deny (js "X402_VERSION")
      else if null analysis.scheme
      then preselection_deny (js "SCHEME_UNSUPPORTED")
      else if null analysis.network || not (text_eq wallet.network policy.network)
      then preselection_deny (js "NETWORK_MISMATCH")
      else if null analysis.asset
      then preselection_deny (js "ASSET_MISMATCH")
      else if not (text_eq intent.wallet_address policy.wallet)
          || not (text_eq wallet.address policy.wallet)
      then preselection_deny (js "WALLET_MISMATCH")
      else if not (includes intent.method policy.methods)
      then preselection_deny (js "METHOD_UNSUPPORTED")
      else evaluate_seller policy analysis.seller intent payment budget received now analysis.payee

pub record EvaluationInput : Type 0 where
  pub policy : PolicyDocument
  pub policy_version : PolicyVersion
  pub intent : Intent
  pub wallet : Wallet
  pub payment_required : PaymentDocument
  pub challenge_received_at_ms : Value
  pub now_ms : Value
  pub budget_snapshot : BudgetDocument

unfoldable pub evaluate_spend_policy : Platform → EvaluationInput → Result KernelError Evaluation
evaluate_spend_policy p input = do
  policy ← validate_policy_document p input.policy
  version ← validate_policy_version input.policy_version
  intent ← validate_intent p input.intent
  wallet ← validate_wallet input.wallet
  payment ← validate_payment_required p input.payment_required
  budget ← validate_budget_snapshot input.budget_snapshot
  received ← nonnegative_safe_integer challenge_time input.challenge_received_at_ms
  now ← nonnegative_safe_integer challenge_time input.now_ms
  fail_if (ltb now received) challenge_time
  let policy_hash = hash_json p (policy_json policy)
  fail_if (not (text_eq version.hash policy_hash)) policy_hash_mismatch
  let challenge_hash = hash_json p (challenge_projection p payment)
  ok (
      evaluate_validated p policy_hash challenge_hash policy intent wallet payment budget received
        now)
