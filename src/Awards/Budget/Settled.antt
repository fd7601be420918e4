-- ===== src/Awards/Budget/Settled.antt =====
-- What the end of a reservation does to the amounts, and that its journal balances what is spent.
use skill_asset_protocol.Base.{ℕ, ◌≤◌, ◌≡◌, ◌≢◌, ◌∙◌, ap, sym, JsString, Option, ok, arith}
use skill_asset_protocol.Money.Gross.Balance.{posted, allocate_internal_gross_balances}
use skill_asset_protocol.Awards.Errors.{Calendar}
use skill_asset_protocol.Awards.Schema.{to_atomic}
use skill_asset_protocol.Awards.Budget.{
  Budget, Reservation, Totals, ReservationState, consumed, released, read_totals,
  validate_reservation,
}
use skill_asset_protocol.Awards.Budget.Moves.{Moved, Expected}
use skill_asset_protocol.Awards.Budget.Settlement.{
  Actual, Finalized, finalize_reservation, ReleaseReason, release_reservation,
}
use skill_asset_protocol.Awards.Budget.Amounts.{
  settle_totals, settle_budget_totals, validate_budget_state-eq-ok,
}
use skill_asset_protocol.Awards.Budget.Ending.{
  IsSettlement, finalize_reservation-IsSettlement, release_reservation-IsSettlement,
}

validate_reservation-eq-ok :
    (r : Reservation) {n : ℕ} → validate_reservation r ≡ ok n → to_atomic r.reserved_atomic ≡ ok n
unfolding validate_reservation
validate_reservation-eq-ok r e = ground arith

-- The totals of a budget before and after a reservation ends that spends an amount.
pub record Settles (budget : Budget) (r : Reservation) (spending : ℕ) (next : Budget) : Type 0 where
  pub totals : Totals
  pub amount : ℕ
  pub before : read_totals budget ≡ ok totals
  pub reservation_amount : to_atomic r.reserved_atomic ≡ ok amount
  pub after : read_totals next ≡ ok (settle_totals totals amount spending)
  pub held : amount ≤ totals.in_reserve
  pub covered : spending ≤ amount

pub IsSettlement-Settles :
    (ending : ReservationState) (budget : Budget) (r : Reservation) (spending : ℕ) (moved : Moved)
    → IsSettlement ending budget r spending moved
    → Settles budget r spending moved.budget
IsSettlement-Settles ending budget r spending moved s =
    let read = (validate_budget_state-eq-ok budget s.valid).0 in
    let done = settle_budget_totals budget s.totals s.amount spending read s.budget_part in
    record {
      totals = s.totals;
      amount = s.amount;
      before = read;
      reservation_amount = validate_reservation-eq-ok r s.parsed;
      after = done.0;
      held = done.1;
      covered = done.2;
    }

-- A reservation that is finalized leaves the reserve with its whole amount, its gross is consumed and the rest is
-- released; the award goes to a recipient other than the Beneficiary, and the journal of
-- the event posts exactly the gross that is consumed.
pub finalize_reservation-Settles :
    (calendar : Calendar) (budget : Budget) (r : Reservation) (actual : Actual) {done : Finalized}
    → finalize_reservation calendar budget r actual ≡ ok done
    → (gross : ℕ) × (to_atomic actual.gross_atomic ≡ ok gross)
      × Settles budget r gross done.moved.budget
      × (posted done.moved.event.journal_entries ≡ gross)
      × (done.allocation.award_recipient_id ≢ r.quote.beneficiary_id)
finalize_reservation-Settles calendar budget r actual {done} h =
    let s = finalize_reservation-IsSettlement calendar budget r actual h in
    let a = s.2 in
    let balance =
      allocate_internal_gross_balances s.0 a.cost a.fee a.reserve actual.recipient_id
        r.quote.beneficiary_id a.split in
    (
      s.0,
      a.gross_part,
      IsSettlement-Settles consumed budget r s.0 done.moved s.3,
      ap posted s.4 ∙ balance.1,
      λ e. balance.3 (sym balance.2 ∙ e),
    )

-- A reservation that is released leaves the reserve with its whole amount, its execution cost is consumed and the
-- rest is released.
pub release_reservation-Settles :
    (calendar : Calendar) (budget : Budget) (r : Reservation) (expected : Expected)
    (reason : ReleaseReason) (attempt : Option JsString) (cost_atomic now : JsString)
    {moved : Moved}
    → release_reservation calendar budget r expected reason attempt cost_atomic now ≡ ok moved
    → (cost : ℕ) × (to_atomic cost_atomic ≡ ok cost) × Settles budget r cost moved.budget
release_reservation-Settles calendar budget r expected reason attempt cost_atomic now {moved} h =
    let s =
      release_reservation-IsSettlement calendar budget r expected reason attempt cost_atomic now
        h in
    (s.0, s.1, IsSettlement-Settles released budget r s.0 moved s.2)
