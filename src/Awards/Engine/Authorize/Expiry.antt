-- ===== src/Awards/Engine/Authorize/Expiry.antt =====
-- spikes/internal-invocation-awards/src/engine.mjs: the expiry of a credential is the earliest of the
-- instants that bound it.
use skill_asset_protocol.Base.{
  ℕ, ◌≤◌, ◌≡◌, sym, subst, ◌∙◌, JsString, true, ok, inl, inr, arith, Bool-cases, ltb, ltb→lt,
  ltb-false, List, [], ◌∷◌, bind-ok, ok-injective, All, includes, text_eq_refl,
}
use skill_asset_protocol.Awards.Errors.{Calendar}
use skill_asset_protocol.Awards.Schema.{Policy, parse_utc}
use skill_asset_protocol.Awards.Quote.{Quote}
use skill_asset_protocol.Awards.Budget.{Budget}
use skill_asset_protocol.Awards.Registration.{period_end_exclusive}
use skill_asset_protocol.Awards.Engine.Authorize.{earlier, effective_credential_expiry}

-- An instant that is written and not before another one.
abbrev IsNotBefore : Calendar → ℕ → JsString → Type 0
IsNotBefore calendar at s = (n : ℕ) × (parse_utc calendar s ≡ ok n) × (at ≤ n)

earlier-earliest :
    (calendar : Calendar) (first : JsString) (rest : List JsString) {result : JsString}
    → ((n : ℕ) × (parse_utc calendar first ≡ ok n))
    → earlier calendar first rest ≡ ok result
    → (at : ℕ) × (parse_utc calendar result ≡ ok at)
      × All (IsNotBefore calendar at) (first ∷ rest)
      × (includes result (first ∷ rest) ≡ true)
unfolding earlier
earlier-earliest calendar first [] {result} (n, hn) h =
    let e = ok-injective h in
    let same = text_eq_refl result in
    subst
      (λ x.
        (at : ℕ) × (parse_utc calendar x ≡ ok at)
        × All (IsNotBefore calendar at) (first ∷ [])
        × (includes x (first ∷ []) ≡ true))
      e (n, hn, ((n, hn, omega arith), tt), ground (arith, text_eq_refl first))
earlier-earliest calendar first (s ∷ rest) {result} (n, hn) h =
    let candidate = bind-ok (parse_utc calendar s) h in
    let earliest = bind-ok (parse_utc calendar first) candidate.2 in
    let same : earliest.0 ≡ n = ok-injective (sym earliest.1 ∙ hn) in
    elim (Bool-cases (ltb candidate.0 earliest.0)) [
      | inl before ↦
          let ih =
            earlier-earliest calendar s rest (candidate.0, candidate.1)
              (ground (arith, before, earliest.2)) in
          let less = ltb→lt candidate.0 earliest.0 before in
          let bound = ih.2.0 in
          let chosen = ih.3 in
          let same_candidate : bound.0 ≡ candidate.0 = ok-injective (sym bound.1 ∙ candidate.1) in
          let most = bound.2 in
          (
            ih.0,
            ih.1,
            ((n, hn, omega (arith, same, less, same_candidate, most)), ih.2),
            ground (arith, chosen),
          )
      | inr later ↦
          let ih =
            earlier-earliest calendar first rest (n, hn) (ground (arith, later, earliest.2)) in
          let less = ltb-false candidate.0 earliest.0 later in
          let bound = ih.2.0 in
          let chosen = ih.3 in
          let same_first : bound.0 ≡ n = ok-injective (sym bound.1 ∙ hn) in
          let most = bound.2 in
          (
            ih.0,
            ih.1,
            (
              bound,
              ((candidate.0, candidate.1, omega (arith, same, less, same_first, most)), ih.2.1),
            ),
            ground (arith, chosen),
          )
    ]

-- The expiry of a credential is one of the expiry that was asked for, those of the quote, of the policy
-- and of the budget, and the end of the period, and none of these is before it.
pub effective_credential_expiry-earliest :
    (calendar : Calendar) (requested : JsString) (quote : Quote) (policy : Policy) (budget : Budget)
    {result : JsString}
    → effective_credential_expiry calendar requested quote policy budget ≡ ok result
    → (period_end : JsString) × (at : ℕ) × (period_end_exclusive calendar budget.period
        ≡ ok period_end)
      × (parse_utc calendar result ≡ ok at)
      × All
          (λ s. (n : ℕ) × (parse_utc calendar s ≡ ok n) × (at ≤ n))
          (requested ∷ quote.expires_at ∷ policy.expires_at ∷ budget.authorization.expires_at
            ∷ period_end ∷ [])
      × (includes result (
            requested ∷ quote.expires_at ∷ policy.expires_at ∷ budget.authorization.expires_at
            ∷ period_end ∷ [])
          ≡ true)
unfolding effective_credential_expiry
effective_credential_expiry-earliest calendar requested quote policy budget h =
    let period_end = bind-ok (period_end_exclusive calendar budget.period) h in
    let asked = bind-ok (parse_utc calendar requested) period_end.2 in
    let e =
      earlier-earliest calendar requested
        (quote.expires_at ∷ policy.expires_at ∷ budget.authorization.expires_at ∷ period_end.0 ∷ [])
        (asked.0, asked.1) asked.2 in
    (period_end.0, e.0, period_end.1, e.1, e.2, e.3)
