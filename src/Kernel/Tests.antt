-- ===== src/Kernel/Tests.antt =====
-- A concrete policy and challenge, and the theorems of the kernel at them.
use skill_asset_protocol.Kernel.Patterns.{after_prefix, prefixed, hash_pattern}
use skill_asset_protocol.Base.{
  ok, starts_with, text_eq, ℕ, [], ◌∷◌, ◌++◌, ◌≡◌, ◌≢◌, ◌↔◌, refl, some, none, JsString, js, length,
  distinct, get_elem?, arith, true,
}
use skill_asset_protocol.Kernel.Platform.{Platform}
use skill_asset_protocol.Kernel.Canonical.{members, text, object, end, field, canonical_json}
use skill_asset_protocol.Kernel.Canonical.KeyOrder.{exchange, member_keys, canonical_json-Reordered}
use skill_asset_protocol.Kernel.Policy.Decision.Consistent.{
  validate_policy_evaluation-evaluate_validated,
}
use skill_asset_protocol.Kernel.Policy.Document.{Seller, Policy}
use skill_asset_protocol.Kernel.Policy.Request.{
  Intent, Wallet, Candidate, PaymentRequired, BudgetSnapshot,
}
use skill_asset_protocol.Kernel.Policy.Decision.{
  selected_decision, pays, evaluate_payee, allows_path, evaluate_seller, has_asset, has_network,
  has_scheme, offers_from, candidate_analysis, Offer, seller_for, select_validated_candidate, allow,
  deny, judge, evaluate_validated,
}
use skill_asset_protocol.Kernel.Policy.Decision.Stored.{validate_policy_evaluation}
use skill_asset_protocol.Kernel.Policy.Decision.Limits.{IsAuthorized, judge_monotone}
use skill_asset_protocol.Kernel.Policy.Decision.Accepted.{
  evaluate_validated_accepts, evaluate_validated_iff,
}

-- A platform without URLs, whose digests are all the same.
abbrev platform : Platform
platform = record {
  parse_url = λ s. none;
  resolve_url = λ s base. none;
  utf8_length = λ s. length s;
  sha256 = λ s. js "sha256:0123456789abcdef0123456789abcdef0123456789abcdef0123456789abcdef";
  json_string = λ s. b'"' ∷ (s ++ b'"' ∷ []);
}

two_keys :
    distinct (member_keys platform (field (js "b") (text []) (field (js "a") (text []) end))) ≡ true
unfolding members text_eq
two_keys = refl

canonical_json-Reordered_example :
    canonical_json platform (object (field (js "b") (text []) (field (js "a") (text []) end)))
    ≡ canonical_json platform (object (field (js "a") (text []) (field (js "b") (text []) end)))
canonical_json-Reordered_example =
    canonical_json-Reordered platform (exchange (js "b") (js "a") (text []) (text [])) two_keys

abbrev seller : Seller
seller = record {
  origin = js "https://s";
  path_prefixes = js "/v1/" ∷ [];
  pay_to = js "0xpay";
  evidence_path = js "/e";
  execution_signer = js "0xe";
  refund_signer = js "0xr";
  refund_source = js "0xf";
  per_request_max = 500;
  auto_approve = 100;
  human_approve = 300;
  seller_session_max = 1_000;
}

abbrev policy : Policy
policy = record {
  network = js "net";
  asset = js "0xusdc";
  wallet = js "0xw";
  methods = js "GET" ∷ [];
  sellers = seller ∷ [];
  session_max = 2_000;
  rolling_24h_max = 3_000;
  challenge_max_age_ms = 60;
  approval_ttl_ms = 60;
  max_pending_approvals = 2;
}

abbrev intent : Intent
intent = record {
  id = js "i";
  method = js "GET";
  request_url = js "https://s/v1/x";
  seller_origin = js "https://s";
  resource_path = js "/v1/x";
  wallet_address = js "0xw";
}

abbrev wallet : Wallet
wallet = record { provider = js "p"; wallet_id = js "w"; address = js "0xw"; network = js "net" }

abbrev candidate : JsString → ℕ → Candidate
candidate scheme amount = record {
  scheme = scheme;
  network = js "net";
  asset = js "0xusdc";
  amount = amount;
  pay_to = js "0xpay";
  max_timeout_seconds = 60;
  extra = record { name = js "USDC"; version = js "2"; asset_transfer_method = none };
}

-- The first offer has a scheme that is not supported.
abbrev payment : PaymentRequired
payment = record {
  x402_version = 2;
  error = none;
  resource = record { url = js "https://s/v1/x"; description = []; mime_type = js "a/b" };
  accepts = candidate (js "upto") 10 ∷ candidate (js "exact") 80 ∷ [];
}

abbrev exposure : ℕ → BudgetSnapshot
exposure n = record {
  seller_session_exposure = n;
  session_exposure = n;
  rolling_24h_exposure = n;
  pending_approval_count = 0;
}

allowed :
    (evaluate_validated platform
      (js "h")
      (js "c")
      policy
      intent
      wallet
      payment
      (exposure 900)
      10
      20).decision
    ≡ allow
unfolding evaluate_validated candidate_analysis offers_from has_scheme text_eq has_network has_asset
    evaluate_seller seller_for allows_path starts_with evaluate_payee pays selected_decision judge
allowed = refl

allowed-not-deny :
    (evaluate_validated platform
      (js "h")
      (js "c")
      policy
      intent
      wallet
      payment
      (exposure 900)
      10
      20).decision
    ≢ deny
allowed-not-deny e = cc (allowed, e)

evaluate_validated_iff_example :
    ((evaluate_validated platform
        (js "h")
        (js "c")
        policy
        intent
        wallet
        payment
        (exposure 900)
        10
        20).decision
      ≢ deny)
    ↔ IsAuthorized policy intent wallet payment (exposure 900) 10 20
evaluate_validated_iff_example =
    evaluate_validated_iff platform (js "h") (js "c") policy intent wallet payment (exposure 900) 10
      20

evaluate_validated_accepts_example :
    let e =
      evaluate_validated platform
        (js "h")
        (js "c")
        policy
        intent
        wallet
        payment
        (exposure 900)
        10
        20 in
    (o : Offer) × (seller : Seller) × (e.accepted_index ≡ some o.index)
    × (e.amount_ceiling ≡ o.candidate.amount)
    × (get_elem? payment.accepts o.index ≡ some o.candidate)
    × (o.candidate.network ≡ policy.network)
    × (o.candidate.asset ≡ policy.asset)
    × (seller_for policy intent ≡ some seller)
    × (o.candidate.pay_to ≡ seller.pay_to)
    × ((select_validated_candidate policy intent payment).accepted ≡ some o)
evaluate_validated_accepts_example =
    evaluate_validated_accepts platform (js "h") (js "c") policy intent wallet payment
      (exposure 900) 10 20 allowed-not-deny

judged_900 : (judge policy seller (exposure 900) 10 20 80).outcome ≡ allow
unfolding judge
judged_900 = refl

judge_monotone_example :
    ((judge policy seller (exposure 900) 10 20 80).outcome ≢ deny
      → (judge policy seller (exposure 5) 10 20 7).outcome ≢ deny)
    × ((judge policy seller (exposure 900) 10 20 80).outcome ≡ allow
        → (judge policy seller (exposure 5) 10 20 7).outcome ≡ allow)
judge_monotone_example =
    judge_monotone policy seller (exposure 5) (exposure 900) 10 20 7 80 (omega arith) (omega arith)
      (omega arith) (omega arith) (omega arith)

abbrev digest : JsString
digest = js "sha256:0123456789abcdef0123456789abcdef0123456789abcdef0123456789abcdef"

digest-hash_pattern : hash_pattern digest ≡ true
unfolding hash_pattern prefixed starts_with after_prefix
digest-hash_pattern = refl

validate_policy_evaluation-evaluate_validated_example :
    validate_policy_evaluation platform
      (evaluate_validated platform digest digest policy intent wallet payment (exposure 900) 10 20)
    ≡ ok (
        evaluate_validated platform digest digest policy intent wallet payment (exposure 900) 10 20)
validate_policy_evaluation-evaluate_validated_example =
    validate_policy_evaluation-evaluate_validated platform digest digest digest-hash_pattern
      digest-hash_pattern policy intent wallet payment (exposure 900) 10 20
      (omega arith, (omega arith, tt))
