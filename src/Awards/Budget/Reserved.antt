-- ===== src/Awards/Budget/Reserved.antt =====
-- spikes/internal-invocation-awards/src/budget.mjs: the reservation that `reserveBudget` makes.
use skill_asset_protocol.Base.{
  ℕ, ◌≡◌, sym, ap, JsString, ok, ok-injective, bind-ok, fail_if, null, not, ◌||◌, text_eq, ◌==◌,
  ◌+◌, ltb, decimal,
}
use skill_asset_protocol.Kernel.Platform.{Platform}
use skill_asset_protocol.Awards.Errors.{Calendar, string_empty, quote_binding, budget_insufficient}
use skill_asset_protocol.Awards.Schema.{to_atomic}
use skill_asset_protocol.Awards.Quote.{Quote, validate_quote}
use skill_asset_protocol.Awards.Budget.{
  Budget, reserved, validate_budget_state, require_revision, require_current_authorization,
  remaining_atomic, replace_budget,
}
use skill_asset_protocol.Awards.Budget.Moves.{Moved, reserve_budget}

pub reserve_budget-reservation :
    (p : Platform) (calendar : Calendar) (budget : Budget) (quote : Quote) (expected : ℕ)
    (id now : JsString) {moved : Moved}
    → reserve_budget p calendar budget quote expected id now ≡ ok moved
    → (moved.reservation.state ≡ reserved) × (moved.reservation.reservation_id ≡ id)
unfolding reserve_budget
reserve_budget-reservation p calendar budget quote expected id now {moved} h =
    let valid = bind-ok (validate_budget_state budget) h in
    let current = bind-ok (require_revision budget.revision expected) valid.2 in
    let allowed = bind-ok (require_current_authorization calendar budget now) current.2 in
    let named = bind-ok (fail_if (null id) string_empty) allowed.2 in
    let quoted = bind-ok (validate_quote p calendar quote budget.policy now) named.2 in
    let bound =
      bind-ok
        (fail_if
          (not (text_eq quoted.0.policy_id budget.policy_id)
            || not (quoted.0.policy_version == budget.policy_version))
          quote_binding)
        quoted.2 in
    let amount = bind-ok (to_atomic quoted.0.max_gross_atomic) bound.2 in
    let left = bind-ok (remaining_atomic budget) amount.2 in
    let enough = bind-ok (fail_if (ltb left.0 amount.0) budget_insufficient) left.2 in
    let replaced =
      bind-ok
        (replace_budget (record budget {
          reserved_atomic = decimal (valid.0.in_reserve + amount.0);
          revision = budget.revision + 1;
        }))
        enough.2 in
    let e = ok-injective (sym replaced.2) in
    (ap (λ (m : Moved). m.reservation.state) e, ap (λ (m : Moved). m.reservation.reservation_id) e)
