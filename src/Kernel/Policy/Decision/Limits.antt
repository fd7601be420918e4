-- ===== src/Kernel/Policy/Decision/Limits.antt =====
-- What an evaluation that is no denial guarantees, and that the limits are monotone.
use skill_asset_protocol.Base.{
  ℕ, ◌+◌, ◌-◌, ◌≤◌, ◌<◌, List, [], ◌∷◌, ◌≡◌, ◌≢◌, ◌↔◌, refl, true, Option, none, some, JsString,
  includes, text_eq, text_eq→eq, arith, Bool-cases, leb, leb→le, leb-false, ◌&&◌, inl, inr,
}
use skill_asset_protocol.Kernel.Platform.{Platform}
use skill_asset_protocol.Kernel.Policy.Document.{Seller, Policy}
use skill_asset_protocol.Kernel.Policy.Request.{Intent, Wallet, PaymentRequired, BudgetSnapshot}
use skill_asset_protocol.Kernel.Policy.Decision.{
  Offer, candidate_analysis, seller_for, allows_path, allow, approval_required, deny, judge,
  preselection_deny, selected_decision, evaluate_payee, evaluate_seller, evaluate_validated,
}

-- The challenge is fresh, and the amount stays within every limit of the policy and the seller.
pub record IsWithin (policy : Policy) (seller : Seller) (budget : BudgetSnapshot)
    (received now amount : ℕ) : Type 0 where
  pub fresh : now - received ≤ policy.challenge_max_age_ms
  pub per_request : amount ≤ seller.per_request_max
  pub human : amount ≤ seller.human_approve
  pub seller_session : budget.seller_session_exposure + amount ≤ seller.seller_session_max
  pub session : budget.session_exposure + amount ≤ policy.session_max
  pub rolling : budget.rolling_24h_exposure + amount ≤ policy.rolling_24h_max
  pub capacity :
      seller.auto_approve < amount → budget.pending_approval_count < policy.max_pending_approvals

judge-IsWithin :
    (policy : Policy) (seller : Seller) (budget : BudgetSnapshot) (received now amount : ℕ)
    → (judge policy seller budget received now amount).outcome ≢ deny
    → IsWithin policy seller budget received now amount
unfolding judge
judge-IsWithin policy seller budget received now amount h = ground arith

-- Within the limits the seller's automatic limit alone decides between allowing and asking.
judge_within :
    (policy : Policy) (seller : Seller) (budget : BudgetSnapshot) (received now amount : ℕ)
    → IsWithin policy seller budget received now amount
    → ((judge policy seller budget received now amount).outcome ≡ allow
        ↔ (amount ≤ seller.auto_approve))
      × ((judge policy seller budget received now amount).outcome ≡ approval_required
          ↔ (seller.auto_approve < amount))
unfolding judge
judge_within policy seller budget received now amount h =
    ((λ e. ground arith, λ e. ground arith), (λ e. ground arith, λ e. ground arith))

pub IsWithin-not-deny :
    (policy : Policy) (seller : Seller) (budget : BudgetSnapshot) (received now amount : ℕ)
    → IsWithin policy seller budget received now amount
    → (judge policy seller budget received now amount).outcome ≢ deny
IsWithin-not-deny policy seller budget received now amount h e =
    let (auto, asked) = judge_within policy seller budget received now amount h in
    elim (Bool-cases (leb amount seller.auto_approve)) [
      | inl small ↦ cc (auto.1 (leb→le amount seller.auto_approve small))
      | inr large ↦ cc (asked.1 (leb-false amount seller.auto_approve large))
    ]

IsWithin-less :
    (policy : Policy) (seller : Seller) (less more : BudgetSnapshot) (received now small large : ℕ)
    → small ≤ large
    → less.seller_session_exposure ≤ more.seller_session_exposure
    → less.session_exposure ≤ more.session_exposure
    → less.rolling_24h_exposure ≤ more.rolling_24h_exposure
    → less.pending_approval_count ≤ more.pending_approval_count
    → IsWithin policy seller more received now large
    → IsWithin policy seller less received now small
IsWithin-less policy seller less more received now small large a b c d e w = record {
  fresh = w.fresh;
  per_request = omega arith;
  human = omega arith;
  seller_session = omega arith;
  session = omega arith;
  rolling = omega arith;
  capacity = λ over. omega (arith, w.capacity (omega arith));
}

-- Less exposure, fewer pending approvals and a smaller amount never turn a spend that is not denied
-- into a denied one, and an allowed spend stays allowed.
pub judge_monotone :
    (policy : Policy) (seller : Seller) (less more : BudgetSnapshot) (received now small large : ℕ)
    → small ≤ large
    → less.seller_session_exposure ≤ more.seller_session_exposure
    → less.session_exposure ≤ more.session_exposure
    → less.rolling_24h_exposure ≤ more.rolling_24h_exposure
    → less.pending_approval_count ≤ more.pending_approval_count
    → ((judge policy seller more received now large).outcome ≢ deny
        → (judge policy seller less received now small).outcome ≢ deny)
      × ((judge policy seller more received now large).outcome ≡ allow
          → (judge policy seller less received now small).outcome ≡ allow)
judge_monotone policy seller less more received now small large a b c d e =
    let within = λ (h : (judge policy seller more received now large).outcome ≢ deny).
      IsWithin-less policy seller less more received now small large a b c d e
        (judge-IsWithin policy seller more received now large h) in
    (
      λ h. IsWithin-not-deny policy seller less received now small (within h),
      λ allowed.
          let not_denied : (judge policy seller more received now large).outcome ≢ deny = λ z. cc in
          let automatic =
            (judge_within policy seller more received now large
                (judge-IsWithin policy seller more received now large not_denied)).0.0
              allowed in
          (judge_within policy seller less received now small (within not_denied)).0.1
            (omega (arith, automatic)),
    )

-- What a spend that is not denied has met: the seller is one of the policy's, it is reached by the
-- customer's wallet, with a permitted method, under a permitted path of the very resource that was
-- asked for; exactly one offer is left, and it is within the limits.
pub record IsAuthorized (policy : Policy) (intent : Intent) (wallet : Wallet)
    (payment : PaymentRequired) (budget : BudgetSnapshot) (received now : ℕ) : Type 0 where
  pub seller : Seller
  pub offer : Offer
  pub version : payment.x402_version ≡ 2
  pub trusted : seller_for policy intent ≡ some seller
  pub only : (candidate_analysis policy intent payment).payee ≡ offer ∷ []
  pub network : wallet.network ≡ policy.network
  pub intent_wallet : intent.wallet_address ≡ policy.wallet
  pub signing_wallet : wallet.address ≡ policy.wallet
  pub method : includes intent.method policy.methods ≡ true
  pub path : allows_path seller intent ≡ true
  pub resource : payment.resource.url ≡ intent.request_url
  pub within : IsWithin policy seller budget received now offer.candidate.amount

module _ (p : Platform) (policy_hash challenge_hash : JsString) where
  evaluate_payee_authorized :
      (policy : Policy) (seller : Seller) (budget : BudgetSnapshot) (received now : ℕ)
      (payee : List Offer)
      → (evaluate_payee p policy_hash challenge_hash policy seller budget received now
          payee).decision
        ≢ deny
      → (o : Offer) × (payee ≡ o ∷ [])
        × IsWithin policy seller budget received now o.candidate.amount
  unfolding evaluate_payee preselection_deny selected_decision
  evaluate_payee_authorized policy seller budget received now [] h = absurd (h refl)
  evaluate_payee_authorized policy seller budget received now (o ∷ []) h =
      (o, refl, judge-IsWithin policy seller budget received now o.candidate.amount h)
  evaluate_payee_authorized policy seller budget received now (o ∷ o' ∷ os) h = absurd (h refl)

  -- The gates of the trusted seller.
  record SellerGates (policy : Policy) (found : Option Seller) (intent : Intent)
      (payment : PaymentRequired) (budget : BudgetSnapshot) (received now : ℕ) (payee : List Offer)
      : Type 0 where
    seller : Seller
    offer : Offer
    trusted : found ≡ some seller
    path : allows_path seller intent ≡ true
    resource : text_eq payment.resource.url intent.request_url ≡ true
    only : payee ≡ offer ∷ []
    within : IsWithin policy seller budget received now offer.candidate.amount

  evaluate_seller-SellerGates :
      (policy : Policy) (found : Option Seller) (intent : Intent) (payment : PaymentRequired)
      (budget : BudgetSnapshot) (received now : ℕ) (payee : List Offer)
      → (evaluate_seller p policy_hash challenge_hash policy found intent payment budget received
          now payee).decision
        ≢ deny
      → SellerGates policy found intent payment budget received now payee
  unfolding evaluate_seller preselection_deny
  evaluate_seller-SellerGates policy none intent payment budget received now payee h =
      absurd (h refl)
  evaluate_seller-SellerGates policy (some seller) intent payment budget received now payee h =
      elim (Bool-cases
        (allows_path seller intent && text_eq payment.resource.url intent.request_url)) [
          | inr bad ↦ absurd (ground arith)
          | inl good ↦
              let paid =
                evaluate_payee_authorized policy seller budget received now payee
                  (λ e. h (ground arith)) in
              record {
                seller = seller;
                offer = paid.0;
                trusted = refl;
                path = ground (arith, good);
                resource = ground (arith, good);
                only = paid.1;
                within = paid.2;
              }
        ]

  -- The gates before that.
  record Gates (policy : Policy) (intent : Intent) (wallet : Wallet) (payment : PaymentRequired)
      (budget : BudgetSnapshot) (received now : ℕ) : Type 0 where
    version : payment.x402_version ≡ 2
    network : wallet.network ≡ policy.network
    intent_wallet : intent.wallet_address ≡ policy.wallet
    signing_wallet : wallet.address ≡ policy.wallet
    method : includes intent.method policy.methods ≡ true
    seller_part :
        let analysis = candidate_analysis policy intent payment in
        (evaluate_seller p policy_hash challenge_hash policy analysis.seller intent payment budget
          received now analysis.payee).decision
        ≢ deny

  evaluate_validated-Gates :
      (policy : Policy) (intent : Intent) (wallet : Wallet) (payment : PaymentRequired)
      (budget : BudgetSnapshot) (received now : ℕ)
      → (evaluate_validated p policy_hash challenge_hash policy intent wallet payment budget
          received now).decision
        ≢ deny
      → Gates policy intent wallet payment budget received now
  unfolding evaluate_validated preselection_deny
  evaluate_validated-Gates policy intent wallet payment budget received now h = record {
    version = ground arith;
    network = text_eq→eq _ _ (ground arith);
    intent_wallet = text_eq→eq _ _ (ground arith);
    signing_wallet = text_eq→eq _ _ (ground arith);
    method = ground arith;
    seller_part = λ e. h (ground arith);
  }

  -- No spend is allowed, or put up for approval, that does not meet the policy.
  pub evaluate_validated-IsAuthorized :
      (policy : Policy) (intent : Intent) (wallet : Wallet) (payment : PaymentRequired)
      (budget : BudgetSnapshot) (received now : ℕ)
      → (evaluate_validated p policy_hash challenge_hash policy intent wallet payment budget
          received now).decision
        ≢ deny
      → IsAuthorized policy intent wallet payment budget received now
  evaluate_validated-IsAuthorized policy intent wallet payment budget received now h =
      let analysis = candidate_analysis policy intent payment in
      let gates : Gates policy intent wallet payment budget received now =
        evaluate_validated-Gates policy intent wallet payment budget received now h in
      let s =
        evaluate_seller-SellerGates policy analysis.seller intent payment budget received now
          analysis.payee gates.seller_part in
      record {
        seller = s.seller;
        offer = s.offer;
        version = gates.version;
        trusted = unfold candidate_analysis in s.trusted;
        only = s.only;
        network = gates.network;
        intent_wallet = gates.intent_wallet;
        signing_wallet = gates.signing_wallet;
        method = gates.method;
        path = s.path;
        resource = text_eq→eq _ _ s.resource;
        within = s.within;
      }
