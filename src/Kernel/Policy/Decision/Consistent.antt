-- ===== src/Kernel/Policy/Decision/Consistent.antt =====
-- What the evaluation returns passes the validation that stored evaluations are read with.
use skill_asset_protocol.Base.{
  ℕ, suc, ◌<◌, List, [], ◌∷◌, ◌≡◌, refl, Bool, true, Option, none, some, JsString, js, text_eq,
  text_eq_refl, includes, select, All, arith, ok,
}
use skill_asset_protocol.Kernel.Platform.{Platform}
use skill_asset_protocol.Kernel.Patterns.{hash_pattern, token_pattern, headed}
use skill_asset_protocol.Kernel.Canonical.{canonical_token}
use skill_asset_protocol.Kernel.Policy.Fields.{canonical_hash}
use skill_asset_protocol.Kernel.Policy.Document.{Seller, Policy}
use skill_asset_protocol.Kernel.Policy.Request.{
  Intent, Wallet, Candidate, PaymentRequired, BudgetSnapshot,
}
use skill_asset_protocol.Kernel.Policy.Projection.{quote_id_of}
use skill_asset_protocol.Kernel.Policy.Decision.{
  Offer, offers_from, has_scheme, has_network, has_asset, pays, payees, candidate_analysis,
  seller_for, allow, approval_required, denied, Evaluation, Verdict, judge, preselection_deny,
  selected_decision, evaluate_payee, evaluate_seller, evaluate_validated,
}
use skill_asset_protocol.Kernel.Policy.Decision.Stored.{
  preselection_denials, reason_matches, consistent_evaluation, validate_policy_evaluation,
  selected_denials,
}
use skill_asset_protocol.Kernel.Policy.Decision.Accepted.{All-select, All-map}

-- A reason that is a token, among those of a denial before the selection.
record IsPreselection (reason : JsString) : Type 0 where
  known : includes reason preselection_denials ≡ true
  token : canonical_token reason ≡ ok reason

-- A verdict whose reason is a token and one of its outcome.
record IsReasoned (v : Verdict) : Type 0 where
  matches : reason_matches v.outcome v.reason ≡ true
  token : canonical_token v.reason ≡ ok v.reason

denied-IsReasoned :
    (reason : JsString)
    → includes reason selected_denials ≡ true
    → canonical_token reason ≡ ok reason
    → IsReasoned (denied reason)
unfolding reason_matches
denied-IsReasoned reason h k = record { matches = h; token = k }

cases_of_judge :
    (policy : Policy) (seller : Seller) (budget : BudgetSnapshot) (received now amount : ℕ)
    → IsReasoned (denied (js "CHALLENGE_EXPIRED"))
    → IsReasoned (denied (js "PER_REQUEST_LIMIT"))
    → IsReasoned (denied (js "SELLER_SESSION_LIMIT"))
    → IsReasoned (denied (js "SESSION_LIMIT"))
    → IsReasoned (denied (js "ROLLING_24H_LIMIT"))
    → IsReasoned (denied (js "APPROVAL_CAPACITY"))
    → IsReasoned (record { outcome = allow; reason = js "WITHIN_AUTO_LIMIT" })
    → IsReasoned (record { outcome = approval_required; reason = js "HUMAN_APPROVAL_REQUIRED" })
    → IsReasoned (judge policy seller budget received now amount)
unfolding judge
cases_of_judge policy seller budget received now amount a b c d e f g h = record {
  matches = ground arith;
  token = ground arith;
}

judge-IsReasoned :
    (policy : Policy) (seller : Seller) (budget : BudgetSnapshot) (received now amount : ℕ)
    → IsReasoned (judge policy seller budget received now amount)
unfolding judge reason_matches canonical_token token_pattern headed text_eq
judge-IsReasoned policy seller budget received now amount =
    let expired = denied-IsReasoned (js "CHALLENGE_EXPIRED") refl refl in
    let per_request = denied-IsReasoned (js "PER_REQUEST_LIMIT") refl refl in
    let seller_session = denied-IsReasoned (js "SELLER_SESSION_LIMIT") refl refl in
    let session = denied-IsReasoned (js "SESSION_LIMIT") refl refl in
    let rolling = denied-IsReasoned (js "ROLLING_24H_LIMIT") refl refl in
    let capacity = denied-IsReasoned (js "APPROVAL_CAPACITY") refl refl in
    let allowed : IsReasoned (record { outcome = allow; reason = js "WITHIN_AUTO_LIMIT" }) =
      record { matches = refl; token = refl } in
    let asked : IsReasoned
        (record { outcome = approval_required; reason = js "HUMAN_APPROVAL_REQUIRED" }) =
      record { matches = refl; token = refl } in
    cases_of_judge policy seller budget received now amount expired per_request seller_session
      session rolling capacity allowed asked

IsPositive : Offer → Type 0
IsPositive o = 0 < o.candidate.amount

offers_from-IsPositive :
    (i : ℕ) (cs : List Candidate) → All (λ c. 0 < c.amount) cs → All IsPositive (offers_from i cs)
unfolding offers_from IsPositive
offers_from-IsPositive i [] h = tt
offers_from-IsPositive i (c ∷ cs) h = (h.0, offers_from-IsPositive (suc i) cs h.1)

select-IsPositive :
    (test : Offer → Bool) (os : List Offer) → All IsPositive os → All IsPositive (select test os)
select-IsPositive test os h =
    All-map (λ o k. k.0) (select test os) (All-select IsPositive test os h)

module _ (p : Platform) (policy_hash challenge_hash : JsString)
    (policy_digest : hash_pattern policy_hash ≡ true)
    (challenge_digest : hash_pattern challenge_hash ≡ true) where
  record IsValid (e : Evaluation) : Type 0 where
    valid : validate_policy_evaluation p e ≡ ok e

  preselection_deny-IsValid :
      (reason : JsString)
      → IsPreselection reason
      → IsValid (preselection_deny p policy_hash challenge_hash reason)
  unfolding validate_policy_evaluation preselection_deny consistent_evaluation canonical_hash
  preselection_deny-IsValid reason h =
      let known = h.known in let token = h.token in record { valid = ground arith }

  selected_decision-IsValid :
      (o : Offer) (v : Verdict)
      → 0 < o.candidate.amount
      → IsReasoned v
      → IsValid (selected_decision p policy_hash challenge_hash o v)
  unfolding validate_policy_evaluation selected_decision consistent_evaluation canonical_hash
  selected_decision-IsValid o v positive h =
      let matches = h.matches in
      let token = h.token in
      let same = text_eq_refl (quote_id_of p challenge_hash o.index) in
      record { valid = ground arith }

  evaluate_payee-IsValid :
      (policy : Policy) (seller : Seller) (budget : BudgetSnapshot) (received now : ℕ)
      (payee : List Offer)
      → All IsPositive payee
      → IsValid
          (evaluate_payee p policy_hash challenge_hash policy seller budget received now payee)
  unfolding evaluate_payee IsPositive canonical_token token_pattern headed text_eq
  evaluate_payee-IsValid policy seller budget received now [] h =
      preselection_deny-IsValid (js "PAYEE_MISMATCH") (record { known = refl; token = refl })
  evaluate_payee-IsValid policy seller budget received now (o ∷ []) h =
      selected_decision-IsValid o (judge policy seller budget received now o.candidate.amount) h.0
        (judge-IsReasoned policy seller budget received now o.candidate.amount)
  evaluate_payee-IsValid policy seller budget received now (o ∷ o' ∷ os) h =
      preselection_deny-IsValid (js "PAYMENT_OPTIONS_AMBIGUOUS")
        (record { known = refl; token = refl })

  abbrev Denied : JsString → Type 0
  Denied reason = IsValid (preselection_deny p policy_hash challenge_hash reason)

  cases_of_seller :
      (policy : Policy) (seller : Option Seller) (intent : Intent) (payment : PaymentRequired)
      (budget : BudgetSnapshot) (received now : ℕ) (payee : List Offer)
      → Denied (js "SELLER_UNTRUSTED")
      → Denied (js "RESOURCE_PATH")
      → All IsPositive payee
      → IsValid (
          evaluate_seller p policy_hash challenge_hash policy seller intent payment budget received
            now payee)
  unfolding evaluate_seller
  cases_of_seller policy none intent payment budget received now payee untrusted path h = untrusted
  cases_of_seller policy (some seller) intent payment budget received now payee untrusted path h =
      let refused = path.valid in
      let paid = (evaluate_payee-IsValid policy seller budget received now payee h).valid in
      record { valid = ground arith }

  payees-IsPositive :
      (seller : Option Seller) (os : List Offer)
      → All IsPositive os
      → All IsPositive (payees seller os)
  payees-IsPositive none os h = tt
  payees-IsPositive (some seller) os h = select-IsPositive (pays seller) os h

  cases_of_evaluation :
      (policy : Policy) (intent : Intent) (wallet : Wallet) (payment : PaymentRequired)
      (budget : BudgetSnapshot) (received now : ℕ)
      → Denied (js "X402_VERSION")
      → Denied (js "SCHEME_UNSUPPORTED")
      → Denied (js "NETWORK_MISMATCH")
      → Denied (js "ASSET_MISMATCH")
      → Denied (js "WALLET_MISMATCH")
      → Denied (js "METHOD_UNSUPPORTED")
      → (let analysis = candidate_analysis policy intent payment in
          IsValid (
            evaluate_seller p policy_hash challenge_hash policy analysis.seller intent payment
              budget received now analysis.payee))
      → IsValid (
          evaluate_validated p policy_hash challenge_hash policy intent wallet payment budget
            received now)
  unfolding evaluate_validated
  cases_of_evaluation policy intent wallet payment budget received now a b c d e f g =
      let a' = a.valid in
      let b' = b.valid in
      let c' = c.valid in
      let d' = d.valid in
      let e' = e.valid in let f' = f.valid in let g' = g.valid in record { valid = ground arith }

  candidate_analysis-IsPositive :
      (policy : Policy) (intent : Intent) (payment : PaymentRequired)
      → All (λ (c : Candidate). 0 < c.amount) payment.accepts
      → All IsPositive (candidate_analysis policy intent payment).payee
  unfolding candidate_analysis
  candidate_analysis-IsPositive policy intent payment positive =
      let scheme = select has_scheme (offers_from 0 payment.accepts) in
      let network = select (has_network policy) scheme in
      payees-IsPositive (seller_for policy intent) (select (has_asset policy) network) (
        select-IsPositive (has_asset policy) network (
          select-IsPositive (has_network policy) scheme (
            select-IsPositive has_scheme (offers_from 0 payment.accepts)
              (offers_from-IsPositive 0 payment.accepts positive))))

  -- Where the hashes are digests and every offered amount is positive, as the validators and SHA-256
  -- see to, the evaluation passes the validation of evaluations unchanged: its reason is one of its
  -- outcome, and its quote, amount and index belong together.
  pub validate_policy_evaluation-evaluate_validated :
      (policy : Policy) (intent : Intent) (wallet : Wallet) (payment : PaymentRequired)
      (budget : BudgetSnapshot) (received now : ℕ)
      → All (λ (c : Candidate). 0 < c.amount) payment.accepts
      → validate_policy_evaluation p (
          evaluate_validated p policy_hash challenge_hash policy intent wallet payment budget
            received now)
        ≡ ok (
            evaluate_validated p policy_hash challenge_hash policy intent wallet payment budget
              received now)
  unfolding canonical_token token_pattern headed text_eq
  validate_policy_evaluation-evaluate_validated policy intent wallet payment budget received now h =
      let deny_as : (reason : JsString)
          → includes reason preselection_denials ≡ true
          → canonical_token reason ≡ ok reason
          → Denied reason =
        λ reason known token.
          preselection_deny-IsValid reason (record { known = known; token = token }) in
      let analysis = candidate_analysis policy intent payment in
      let sold =
        cases_of_seller policy analysis.seller intent payment budget received now analysis.payee
          (deny_as (js "SELLER_UNTRUSTED") refl refl) (deny_as (js "RESOURCE_PATH") refl refl)
          (candidate_analysis-IsPositive policy intent payment h) in
      (cases_of_evaluation policy intent wallet payment budget received now
        (deny_as (js "X402_VERSION") refl refl) (deny_as (js "SCHEME_UNSUPPORTED") refl refl)
        (deny_as (js "NETWORK_MISMATCH") refl refl) (deny_as (js "ASSET_MISMATCH") refl refl)
        (deny_as (js "WALLET_MISMATCH") refl refl) (deny_as (js "METHOD_UNSUPPORTED") refl refl)
        sold).valid
