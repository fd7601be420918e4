-- ===== src/Kernel/Policy/Decision/Accepted.antt =====
-- The offer that an evaluation accepts: where it stands in the challenge, and that the selection
-- without limits accepts the same one.
use skill_asset_protocol.Base.{
  ℕ, suc, ◌+◌, List, [], ◌∷◌, ◌≡◌, ◌≢◌, ◌↔◌, ◌∙◌, refl, sym, ap, subst, Bool, true, false, some,
  JsString, text_eq, text_eq→eq, text_eq_refl, null, select, get_elem?, All, arith, Bool-cases, inl,
  inr, if◌then◌else◌,
}
use skill_asset_protocol.Kernel.Platform.{Platform}
use skill_asset_protocol.Kernel.Policy.Document.{Seller, Policy}
use skill_asset_protocol.Kernel.Policy.Request.{
  Intent, Wallet, Candidate, PaymentRequired, BudgetSnapshot,
}
use skill_asset_protocol.Kernel.Policy.Decision.{
  Offer, offers_from, has_scheme, has_network, has_asset, pays, payees, candidate_analysis,
  seller_for, allows_path, select_payee, select_from_seller, select_validated_candidate, deny,
  Evaluation, evaluate_validated, evaluate_seller, evaluate_payee, selected_decision, judge,
}
use skill_asset_protocol.Kernel.Policy.Decision.Limits.{
  IsAuthorized, evaluate_validated-IsAuthorized, IsWithin-not-deny,
}

-- The entry is the one at its index, counted from `i`.
IsAt : ℕ → List Candidate → Offer → Type 0
IsAt i cs o = (k : ℕ) × (o.index ≡ i + k) × (get_elem? cs k ≡ some o.candidate)

pub All-select {ℓ κ} :
    {A : Type ℓ} (P : A → Type κ) (test : A → Bool) (xs : List A)
    → All P xs
    → All (λ x. P x × (test x ≡ true)) (select test xs)
All-select P test [] h = tt
All-select P test (x ∷ xs) h = elim (Bool-cases (test x)) [
  | inl e ↦
      subst
        (λ b. All (λ x. P x × (test x ≡ true)) (if b then x ∷ select test xs else select test xs))
        (sym e) ((h.0, e), All-select P test xs h.1)
  | inr e ↦
      subst
        (λ b. All (λ x. P x × (test x ≡ true)) (if b then x ∷ select test xs else select test xs))
        (sym e) (All-select P test xs h.1)
]

null-select {ℓ} :
    {A : Type ℓ} (test : A → Bool) (xs : List A) → null (select test xs) ≡ false → null xs ≡ false
null-select test [] h = h
null-select test (x ∷ xs) h = refl

IsAt-suc :
    (i : ℕ) (c : Candidate) (cs : List Candidate) (o : Offer)
    → IsAt (suc i) cs o
    → IsAt i (c ∷ cs) o
unfolding IsAt
IsAt-suc i c cs o (k, e, h) = (suc k, omega arith, h)

pub All-map {ℓ κ μ} :
    {A : Type ℓ} {P : A → Type κ} {Q : A → Type μ}
    → ((x : A) → P x → Q x)
    → (xs : List A) → All P xs
    → All Q xs
All-map f [] h = tt
All-map f (x ∷ xs) h = (f x h.0, All-map f xs h.1)

offers_from-IsAt : (i : ℕ) (cs : List Candidate) → All (IsAt i cs) (offers_from i cs)
unfolding offers_from IsAt
offers_from-IsAt i [] = tt
offers_from-IsAt i (c ∷ cs) = (
  (0, omega arith, refl),
  All-map (IsAt-suc i c cs) (offers_from (suc i) cs) (offers_from-IsAt (suc i) cs),
)

-- The one offer that the tests leave: its place in the challenge, and what the tests say of it.
record IsLeft (policy : Policy) (seller : Seller) (payment : PaymentRequired) (o : Offer)
    : Type 0 where
  place : IsAt 0 payment.accepts o
  scheme : has_scheme o ≡ true
  network : has_network policy o ≡ true
  asset : has_asset policy o ≡ true
  payee : pays seller o ≡ true

payee-IsLeft :
    (policy : Policy) (intent : Intent) (payment : PaymentRequired) (seller : Seller) {o : Offer}
    → seller_for policy intent ≡ some seller
    → (candidate_analysis policy intent payment).payee ≡ o ∷ []
    → IsLeft policy seller payment o
unfolding candidate_analysis
payee-IsLeft policy intent payment seller {o} trusted only =
    let offers = offers_from 0 payment.accepts in
    let scheme = select has_scheme offers in
    let network = select (has_network policy) scheme in
    let asset = select (has_asset policy) network in
    let all_left = All-select _ (pays seller) asset (
      All-select _ (has_asset policy) network (
        All-select _ (has_network policy) scheme
          (All-select _ has_scheme offers (offers_from-IsAt 0 payment.accepts)))) in
    let left : select (pays seller) asset ≡ o ∷ [] =
      subst (λ s. payees s asset ≡ o ∷ []) trusted only in
    let one = subst (All _) left all_left in
    record {
      place = one.0.0.0.0.0;
      scheme = one.0.0.0.0.1;
      network = one.0.0.0.1;
      asset = one.0.0.1;
      payee = one.0.1;
    }

-- Where the seller and the path pass, the selection accepts the one offer that is left.
select_validated_candidate-accepted :
    (policy : Policy) (intent : Intent) (payment : PaymentRequired) (seller : Seller) {o : Offer}
    → payment.x402_version ≡ 2
    → seller_for policy intent ≡ some seller
    → (candidate_analysis policy intent payment).payee ≡ o ∷ []
    → allows_path seller intent ≡ true
    → text_eq payment.resource.url intent.request_url ≡ true
    → (select_validated_candidate policy intent payment).accepted ≡ some o
unfolding select_validated_candidate select_from_seller select_payee candidate_analysis
select_validated_candidate-accepted policy intent payment seller {o} version trusted only path url =
    let offers = offers_from 0 payment.accepts in
    let scheme = select has_scheme offers in
    let network = select (has_network policy) scheme in
    let asset = select (has_asset policy) network in
    let left : select (pays seller) asset ≡ o ∷ [] =
      subst (λ s. payees s asset ≡ o ∷ []) trusted only in
    let some_asset : null asset ≡ false = null-select (pays seller) asset (ap null left) in
    let some_network : null network ≡ false = null-select (has_asset policy) network some_asset in
    let some_scheme : null scheme ≡ false = null-select (has_network policy) scheme some_network in
    ground (arith, version, some_asset, some_network, some_scheme, left)

IsAt-get_elem? :
    (cs : List Candidate) (o : Offer) → IsAt 0 cs o → get_elem? cs o.index ≡ some o.candidate
unfolding IsAt
IsAt-get_elem? cs o (k, e, h) =
    let same : k ≡ o.index = omega arith in subst (λ i. get_elem? cs i ≡ some o.candidate) same h

has_network-eq :
    (policy : Policy) (o : Offer)
    → has_network policy o ≡ true
    → o.candidate.network ≡ policy.network
unfolding has_network
has_network-eq policy o h = text_eq→eq o.candidate.network policy.network h

has_asset-eq :
    (policy : Policy) (o : Offer) → has_asset policy o ≡ true → o.candidate.asset ≡ policy.asset
unfolding has_asset
has_asset-eq policy o h = text_eq→eq o.candidate.asset policy.asset (ground arith)

pays-eq : (seller : Seller) (o : Offer) → pays seller o ≡ true → o.candidate.pay_to ≡ seller.pay_to
unfolding pays
pays-eq seller o h = text_eq→eq o.candidate.pay_to seller.pay_to h

text_eq-of : {s t : JsString} → s ≡ t → text_eq s t ≡ true
text_eq-of {s} e = subst (λ t. text_eq s t ≡ true) e (text_eq_refl s)

module _ (p : Platform) (policy_hash challenge_hash : JsString) where
  evaluate_validated-selected :
      (policy : Policy) (intent : Intent) (wallet : Wallet) (payment : PaymentRequired)
      (budget : BudgetSnapshot) (received now : ℕ)
      → (a : IsAuthorized policy intent wallet payment budget received now)
      → evaluate_validated p policy_hash challenge_hash policy intent wallet payment budget received
          now
        ≡ selected_decision p policy_hash challenge_hash a.offer
            (judge policy a.seller budget received now a.offer.candidate.amount)
  unfolding evaluate_validated evaluate_seller evaluate_payee candidate_analysis
  evaluate_validated-selected policy intent wallet payment budget received now a =
      let offers = offers_from 0 payment.accepts in
      let scheme = select has_scheme offers in
      let network = select (has_network policy) scheme in
      let asset = select (has_asset policy) network in
      let left : select (pays a.seller) asset ≡ a.offer ∷ [] =
        subst (λ s. payees s asset ≡ a.offer ∷ []) a.trusted a.only in
      let some_asset : null asset ≡ false = null-select (pays a.seller) asset (ap null left) in
      let some_network : null network ≡ false = null-select (has_asset policy) network some_asset in
      let some_scheme : null scheme ≡ false =
        null-select (has_network policy) scheme some_network in
      let h1 = text_eq-of a.network in
      let h2 = text_eq-of a.intent_wallet in
      let h3 = text_eq-of a.signing_wallet in
      let h4 = text_eq-of a.resource in
      let h5 = a.trusted in
      let h6 = a.version in let h7 = a.method in let h8 = a.path in ground arith

  -- An evaluation that is no denial names an offer by its place in the challenge, with its amount as
  -- the ceiling; the offer is in the policy's network and asset and pays a trusted seller, and it is
  -- the one that the selection without limits accepts.
  pub evaluate_validated_accepts :
      (policy : Policy) (intent : Intent) (wallet : Wallet) (payment : PaymentRequired)
      (budget : BudgetSnapshot) (received now : ℕ)
      → let e =
          evaluate_validated p policy_hash challenge_hash policy intent wallet payment budget
            received now in
        e.decision ≢ deny
        → (o : Offer) × (seller : Seller) × (e.accepted_index ≡ some o.index)
          × (e.amount_ceiling ≡ o.candidate.amount)
          × (get_elem? payment.accepts o.index ≡ some o.candidate)
          × (o.candidate.network ≡ policy.network)
          × (o.candidate.asset ≡ policy.asset)
          × (seller_for policy intent ≡ some seller)
          × (o.candidate.pay_to ≡ seller.pay_to)
          × ((select_validated_candidate policy intent payment).accepted ≡ some o)
  unfolding selected_decision
  evaluate_validated_accepts policy intent wallet payment budget received now h =
      let a =
        evaluate_validated-IsAuthorized p policy_hash challenge_hash policy intent wallet payment
          budget received now h in
      let l = payee-IsLeft policy intent payment a.seller a.trusted a.only in
      let e = evaluate_validated-selected policy intent wallet payment budget received now a in
      (
        a.offer,
        a.seller,
        ap (λ (x : Evaluation). x.accepted_index) e,
        ap (λ (x : Evaluation). x.amount_ceiling) e,
        IsAt-get_elem? payment.accepts a.offer l.place,
        has_network-eq policy a.offer l.network,
        has_asset-eq policy a.offer l.asset,
        a.trusted,
        pays-eq a.seller a.offer l.payee,
        select_validated_candidate-accepted policy intent payment a.seller a.version a.trusted
            a.only a.path (text_eq-of a.resource),
      )

  -- An evaluation is no denial exactly where the spend is authorized: every check of the policy and
  -- every limit holds, and one offer is left.
  pub evaluate_validated_iff :
      (policy : Policy) (intent : Intent) (wallet : Wallet) (payment : PaymentRequired)
      (budget : BudgetSnapshot) (received now : ℕ)
      → ((evaluate_validated p policy_hash challenge_hash policy intent wallet payment budget
            received now).decision
          ≢ deny)
        ↔ IsAuthorized policy intent wallet payment budget received now
  unfolding selected_decision
  evaluate_validated_iff policy intent wallet payment budget received now = (
    evaluate_validated-IsAuthorized p policy_hash challenge_hash policy intent wallet payment budget
        received now,
    λ (a : IsAuthorized policy intent wallet payment budget received now) denial.
        IsWithin-not-deny policy a.seller budget received now a.offer.candidate.amount a.within (
          sym (
            ap (λ (x : Evaluation). x.decision)
              (evaluate_validated-selected policy intent wallet payment budget received now a))
          ∙ denial),
  )
