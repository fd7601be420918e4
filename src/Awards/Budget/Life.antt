-- ===== src/Awards/Budget/Life.antt =====
-- The life of a reservation: the operations as steps, and where it ends.
pub mod Conserved
use skill_asset_protocol.Base.{
  ◌+◌, ◌-◌, ◌≡◌, refl, sym, ap, true, false, JsString, Option, ok, Result-cases, inl, inr, arith,
  some,
}
use skill_asset_protocol.Awards.Errors.{Calendar}
use skill_asset_protocol.Awards.Schema.{parse_utc}
use skill_asset_protocol.Awards.Budget.{
  Budget, Reservation, ReservationState, executing, held_unresolved, read_totals,
  validate_budget_state, validate_reservation, replace_budget, replace_reservation,
}
use skill_asset_protocol.Awards.Budget.Moves.{
  Moved, Expected, start_reservation_execution, require_executing, require_transition_revisions,
}
use skill_asset_protocol.Awards.Budget.Settlement.{
  settle_reservation, Actual, Finalized, finalize_reservation, ReleaseReason, release_reservation,
  UnresolvedReason, check_unresolved, hold_unresolved_reservation,
}
use skill_asset_protocol.Awards.Budget.Amounts.{replace_budget-eq-ok}
use skill_asset_protocol.Awards.Budget.Ending.{
  is_settled, is_reserved-is_settled, require_executing-open, finalize_reservation-IsSettlement,
  release_reservation-IsSettlement,
}

-- One successful operation on a reservation and its budget.
pub data Step (calendar : Calendar) (budget : Budget) (r : Reservation) : Moved → Type 0 where
  start :
      (expected : Expected) (attempt now : JsString) {moved : Moved}
      → start_reservation_execution calendar budget r expected attempt now ≡ ok moved
      → Step calendar budget r moved
  finalize :
      (actual : Actual) (done : Finalized)
      → finalize_reservation calendar budget r actual ≡ ok done
      → Step calendar budget r done.moved
  release :
      (expected : Expected) (reason : ReleaseReason) (attempt : Option JsString)
      (cost now : JsString) {moved : Moved}
      → release_reservation calendar budget r expected reason attempt cost now ≡ ok moved
      → Step calendar budget r moved
  hold :
      (expected : Expected) (reason : UnresolvedReason) (attempt cost : Option JsString)
      (now : JsString) {moved : Moved}
      → hold_unresolved_reservation calendar budget r expected reason attempt cost now ≡ ok moved
      → Step calendar budget r moved

-- A step whose budget keeps its amounts, as a start and a hold.
pub record IsQuiet (ending : ReservationState) (budget : Budget) (r : Reservation) (moved : Moved)
    : Type 0 where
  pub budget_part : read_totals moved.budget ≡ read_totals budget
  pub amount_part : moved.reservation.reserved_atomic ≡ r.reserved_atomic
  pub state_part : moved.reservation.state ≡ ending
  pub identity_part : moved.reservation.reservation_id ≡ r.reservation_id
  pub open_part : is_settled r.state ≡ false

replace_reservation-eq-ok :
    (next : Reservation) {result : Reservation}
    → replace_reservation next ≡ ok result
    → next ≡ result
unfolding replace_reservation
replace_reservation-eq-ok next e = elim (Result-cases (validate_reservation next)) [
  | inr (code, failed) ↦ absurd (ground arith)
  | inl (t, given) ↦ ground arith
]

pub settle_reservation-eq-ok :
    (s : ReservationState) (r : Reservation) (now : JsString) {next : Reservation}
    → settle_reservation s r now ≡ ok next
    → (next.state ≡ s)
      × (next.reserved_atomic ≡ r.reserved_atomic)
      × (next.reservation_id ≡ r.reservation_id)
unfolding settle_reservation
settle_reservation-eq-ok s r now {next} h =
    let e =
      replace_reservation-eq-ok
        (record r { state = s; revision = r.revision + 1; finalized_at = some now }) h in
    (
      sym (ap (λ (x : Reservation). x.state) e),
      sym (ap (λ (x : Reservation). x.reserved_atomic) e),
      sym (ap (λ (x : Reservation). x.reservation_id) e),
    )

-- A new revision of a budget, with the amounts that it has.
renewed : Budget → Budget
renewed budget = record budget { revision = budget.revision + 1 }

renewed-read_totals :
    (budget : Budget) {next : Budget}
    → replace_budget (renewed budget) ≡ ok next
    → read_totals next ≡ read_totals budget
unfolding renewed read_totals
renewed-read_totals budget h = ap read_totals (sym (replace_budget-eq-ok (renewed budget) h))

pub start_reservation_execution-IsQuiet :
    (calendar : Calendar) (budget : Budget) (r : Reservation) (expected : Expected)
    (attempt now : JsString) {moved : Moved}
    → start_reservation_execution calendar budget r expected attempt now ≡ ok moved
    → IsQuiet executing budget r moved
unfolding start_reservation_execution renewed
start_reservation_execution-IsQuiet calendar budget r expected attempt now {moved} h =
    let started : Reservation = record r {
      state = executing;
      revision = r.revision + 1;
      execution_attempt_id = some attempt;
      started_at = some now;
    } in
    elim (Result-cases (validate_budget_state budget)) [
      | inr (code, failed) ↦ absurd (ground arith)
      | inl (t, ht) ↦ elim (Result-cases (validate_reservation r)) [
        | inr (code, failed) ↦ absurd (ground arith)
        | inl (n, hn) ↦ elim (Result-cases (require_transition_revisions budget r expected)) [
          | inr (code, failed) ↦ absurd (ground arith)
          | inl (current, hc) ↦ elim (Result-cases (parse_utc calendar now)) [
            | inr (code, failed) ↦ absurd (ground arith)
            | inl (at, ha) ↦ elim (Result-cases (replace_budget (renewed budget))) [
              | inr (code, failed) ↦ absurd (ground arith)
              | inl (next, hb) ↦ elim (Result-cases (replace_reservation started)) [
                | inr (code, failed) ↦ absurd (ground arith)
                | inl (r', hr) ↦
                    let e = replace_reservation-eq-ok started hr in
                    record {
                      budget_part = ground (arith, renewed-read_totals budget hb);
                      amount_part = ground (arith, e);
                      state_part = ground (arith, e);
                      identity_part = ground (arith, e);
                      open_part = is_reserved-is_settled r.state (ground arith);
                    }
              ]
            ]
          ]
        ]
      ]
    ]

pub hold_unresolved_reservation-IsQuiet :
    (calendar : Calendar) (budget : Budget) (r : Reservation) (expected : Expected)
    (reason : UnresolvedReason) (attempt cost : Option JsString) (now : JsString) {moved : Moved}
    → hold_unresolved_reservation calendar budget r expected reason attempt cost now ≡ ok moved
    → IsQuiet held_unresolved budget r moved
unfolding hold_unresolved_reservation renewed
hold_unresolved_reservation-IsQuiet calendar budget r expected reason attempt cost now {moved} h =
    elim (Result-cases (validate_budget_state budget)) [
      | inr (code, failed) ↦ absurd (ground arith)
      | inl (t, ht) ↦ elim (Result-cases (validate_reservation r)) [
        | inr (code, failed) ↦ absurd (ground arith)
        | inl (n, hn) ↦ elim (Result-cases (require_executing budget r expected attempt)) [
          | inr (code, failed) ↦ absurd (ground arith)
          | inl (current, hc) ↦ elim (Result-cases (parse_utc calendar now)) [
            | inr (code, failed) ↦ absurd (ground arith)
            | inl (at, ha) ↦ elim (Result-cases (check_unresolved reason r cost)) [
              | inr (code, failed) ↦ absurd (ground arith)
              | inl (known, hk) ↦ elim (Result-cases (replace_budget (renewed budget))) [
                | inr (code, failed) ↦ absurd (ground arith)
                | inl (next, hb) ↦ elim (Result-cases (settle_reservation held_unresolved r now)) [
                  | inr (code, failed) ↦ absurd (ground arith)
                  | inl (r', hr) ↦
                      let e = settle_reservation-eq-ok held_unresolved r now hr in
                      record {
                        budget_part = ground (arith, renewed-read_totals budget hb);
                        amount_part = ground (arith, e.1);
                        state_part = ground (arith, e.0);
                        identity_part = ground (arith, e.2);
                        open_part = require_executing-open budget r expected attempt hc;
                      }
                ]
              ]
            ]
          ]
        ]
      ]
    ]

-- No operation succeeds on a reservation that is consumed, released or held unresolved.
pub no-Step_after_settlement :
    (calendar : Calendar) (budget : Budget) (r : Reservation) (moved : Moved)
    → is_settled r.state ≡ true
    → ¬ Step calendar budget r moved
no-Step_after_settlement calendar budget r moved settled s = elim s [
  | start expected attempt now h ↦
      let q = start_reservation_execution-IsQuiet calendar budget r expected attempt now h in
      let unsettled = q.open_part in cc
  | finalize actual done h ↦
      let q = finalize_reservation-IsSettlement calendar budget r actual h in
      let unsettled = q.3.open_part in cc
  | release expected reason attempt cost now h ↦
      let q =
        release_reservation-IsSettlement calendar budget r expected reason attempt cost now h in
      let unsettled = q.2.open_part in cc
  | hold expected reason attempt cost now h ↦
      let q =
        hold_unresolved_reservation-IsQuiet calendar budget r expected reason attempt cost now h in
      let unsettled = q.open_part in cc
]
