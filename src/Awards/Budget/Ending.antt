-- ===== src/Awards/Budget/Ending.antt =====
-- Inversions of the operations that end a reservation: what each has read, checked and written.
use skill_asset_protocol.Base.{
  ℕ, Bool, false, List, ◌≡◌, refl, inl, inr, JsString, Option, some, true, Result, ok, err,
  Result-cases, arith,
}
use skill_asset_protocol.Money.Input.{MoneyError}
use skill_asset_protocol.Money.Gross.{InternalAllocation, allocate_internal_gross, JournalEntry}
use skill_asset_protocol.Money.Gross.Balance.{internal}
use skill_asset_protocol.Awards.Errors.{Calendar, of_money}
use skill_asset_protocol.Awards.Schema.{to_atomic, parse_utc}
use skill_asset_protocol.Awards.Budget.{
  Budget, Reservation, Totals, ReservationState, reserved, executing, consumed, released,
  held_unresolved, validate_budget_state, validate_reservation, event,
}
use skill_asset_protocol.Awards.Budget.Moves.{
  Moved, Expected, require_executing, require_transition_revisions, is_executing, is_reserved,
}
use skill_asset_protocol.Awards.Budget.Settlement.{
  settle_budget, settle_reservation, Actual, allocate_actual, Finalized, finalize_reservation,
  ReleaseReason, cancelled_before_start, failed_after_start, check_release, release_reservation,
}

-- No operation moves a reservation in one of these states.
unfoldable pub is_settled : ReservationState → Bool
is_settled reserved = false
is_settled executing = false
is_settled consumed = true
is_settled released = true
is_settled held_unresolved = true

pub is_executing-is_settled : (s : ReservationState) → is_executing s ≡ true → is_settled s ≡ false
unfolding is_settled
is_executing-is_settled executing h = refl
is_executing-is_settled reserved h = cc
is_executing-is_settled consumed h = cc
is_executing-is_settled released h = cc
is_executing-is_settled held_unresolved h = cc

pub is_reserved-is_settled : (s : ReservationState) → is_reserved s ≡ true → is_settled s ≡ false
unfolding is_settled
is_reserved-is_settled reserved h = refl
is_reserved-is_settled executing h = cc
is_reserved-is_settled consumed h = cc
is_reserved-is_settled released h = cc
is_reserved-is_settled held_unresolved h = cc

pub require_executing-open :
    (budget : Budget) (r : Reservation) (expected : Expected) (attempt : Option JsString)
    {u : Unit {0}}
    → require_executing budget r expected attempt ≡ ok u
    → is_settled r.state ≡ false
unfolding require_executing
require_executing-open budget r expected attempt h =
    elim (Result-cases (require_transition_revisions budget r expected)) [
      | inr (code, failed) ↦ absurd (ground arith)
      | inl (current, hc) ↦ is_executing-is_settled r.state (ground arith)
    ]

pub check_release-open :
    (reason : ReleaseReason) (r : Reservation) (attempt : Option JsString) (cost : ℕ)
    {entries : List JournalEntry}
    → check_release reason r attempt cost ≡ ok entries
    → is_settled r.state ≡ false
unfolding check_release
check_release-open cancelled_before_start r attempt cost h =
    is_reserved-is_settled r.state (ground arith)
check_release-open failed_after_start r attempt cost h =
    is_executing-is_settled r.state (ground arith)

of_money-eq-ok {ℓ} : {A : Type ℓ} (m : Result MoneyError A) {a : A} → of_money m ≡ ok a → m ≡ ok a
of_money-eq-ok (ok a) e = cc
of_money-eq-ok (err x) e = cc

-- What a successful allocation of the actual amounts has checked.
pub record IsAllocated (r : Reservation) (amount : ℕ) (actual : Actual) (gross : ℕ)
    (a : InternalAllocation) : Type 0 where
  pub cost : ℕ
  pub fee : ℕ
  pub reserve : ℕ
  pub cost_part : to_atomic actual.execution_cost_atomic ≡ ok cost
  pub gross_part : to_atomic actual.gross_atomic ≡ ok gross
  pub split :
      allocate_internal_gross
        (internal gross cost fee reserve actual.recipient_id (some r.quote.beneficiary_id))
      ≡ ok a

allocate_actual-IsAllocated :
    (r : Reservation) (amount : ℕ) (actual : Actual) {gross : ℕ} {a : InternalAllocation}
    → allocate_actual r amount actual ≡ ok (gross, a)
    → IsAllocated r amount actual gross a
unfolding allocate_actual
allocate_actual-IsAllocated r amount actual {gross} {a} h =
    elim (Result-cases (to_atomic actual.execution_cost_atomic)) [
      | inr (code, failed) ↦ absurd (ground arith)
      | inl (cost, h1) ↦ elim (Result-cases (to_atomic actual.protocol_fee_atomic)) [
        | inr (code, failed) ↦ absurd (ground arith)
        | inl (fee, h2) ↦ elim (Result-cases (to_atomic actual.refund_reserve_atomic)) [
          | inr (code, failed) ↦ absurd (ground arith)
          | inl (reserve, h3) ↦ elim (Result-cases (to_atomic actual.gross_atomic)) [
            | inr (code, failed) ↦ absurd (ground arith)
            | inl (g, h4) ↦ elim (Result-cases (to_atomic r.quote.max_invocation_award_atomic)) [
              | inr (code, failed) ↦ absurd (ground arith)
              | inl (award, h5) ↦
                  elim (Result-cases (to_atomic r.quote.max_execution_cost_atomic)) [
                    | inr (code, failed) ↦ absurd (ground arith)
                    | inl (limit, h6) ↦
                        let input =
                          internal g cost fee reserve actual.recipient_id
                            (some r.quote.beneficiary_id) in
                        elim (Result-cases (allocate_internal_gross input)) [
                          | inr (code, failed) ↦ absurd (ground arith)
                          | inl (b, h7) ↦ record {
                            cost = cost;
                            fee = fee;
                            reserve = reserve;
                            cost_part = h1;
                            gross_part = ground (arith, h4);
                            split = ground (arith, h7);
                          }
                        ]
                  ]
            ]
          ]
        ]
      ]
    ]

-- What a successful end of a reservation has read and written, with the amount that it spends.
pub record IsSettlement (ending : ReservationState) (budget : Budget) (r : Reservation)
    (spending : ℕ) (moved : Moved) : Type 0 where
  pub totals : Totals
  pub amount : ℕ
  pub now : JsString
  pub valid : validate_budget_state budget ≡ ok totals
  pub parsed : validate_reservation r ≡ ok amount
  pub budget_part : settle_budget budget totals amount spending ≡ ok moved.budget
  pub open_part : is_settled r.state ≡ false
  pub reservation_part : settle_reservation ending r now ≡ ok moved.reservation

pub finalize_reservation-IsSettlement :
    (calendar : Calendar) (budget : Budget) (r : Reservation) (actual : Actual) {done : Finalized}
    → finalize_reservation calendar budget r actual ≡ ok done
    → (gross : ℕ) × (amount : ℕ) × IsAllocated r amount actual gross done.allocation
      × IsSettlement consumed budget r gross done.moved
      × (done.moved.event.journal_entries ≡ done.allocation.journal_entries)
unfolding finalize_reservation event
finalize_reservation-IsSettlement calendar budget r actual {done} h =
    elim (Result-cases (validate_budget_state budget)) [
      | inr (code, failed) ↦ absurd (ground arith)
      | inl (t, ht) ↦ elim (Result-cases (validate_reservation r)) [
        | inr (code, failed) ↦ absurd (ground arith)
        | inl (n, hn) ↦
            elim (Result-cases
              (require_executing budget r actual.expected actual.execution_attempt_id)) [
                | inr (code, failed) ↦ absurd (ground arith)
                | inl (started, hs) ↦ elim (Result-cases (parse_utc calendar actual.now)) [
                  | inr (code, failed) ↦ absurd (ground arith)
                  | inl (at, ha) ↦ elim (Result-cases (allocate_actual r n actual)) [
                    | inr (code, failed) ↦ absurd (ground arith)
                    | inl ((gross, a), hg) ↦ elim (Result-cases (settle_budget budget t n gross)) [
                      | inr (code, failed) ↦ absurd (ground arith)
                      | inl (next, hb) ↦
                          elim (Result-cases (settle_reservation consumed r actual.now)) [
                            | inr (code, failed) ↦ absurd (ground arith)
                            | inl (r', hr) ↦ (
                              gross,
                              n,
                              allocate_actual-IsAllocated r n actual (ground (arith, hg)),
                              record {
                                totals = t;
                                amount = n;
                                now = actual.now;
                                valid = ht;
                                parsed = hn;
                                budget_part = ground (arith, hb);
                                open_part =
                                    require_executing-open budget r actual.expected
                                      actual.execution_attempt_id hs;
                                reservation_part = ground (arith, hr);
                              },
                              ground arith,
                            )
                          ]
                    ]
                  ]
                ]
              ]
      ]
    ]

pub release_reservation-IsSettlement :
    (calendar : Calendar) (budget : Budget) (r : Reservation) (expected : Expected)
    (reason : ReleaseReason) (attempt : Option JsString) (cost_atomic now : JsString)
    {moved : Moved}
    → release_reservation calendar budget r expected reason attempt cost_atomic now ≡ ok moved
    → (cost : ℕ) × (to_atomic cost_atomic ≡ ok cost) × IsSettlement released budget r cost moved
unfolding release_reservation
release_reservation-IsSettlement calendar budget r expected reason attempt cost_atomic now {moved}
      h =
    elim (Result-cases (validate_budget_state budget)) [
      | inr (code, failed) ↦ absurd (ground arith)
      | inl (t, ht) ↦ elim (Result-cases (validate_reservation r)) [
        | inr (code, failed) ↦ absurd (ground arith)
        | inl (n, hn) ↦ elim (Result-cases (require_transition_revisions budget r expected)) [
          | inr (code, failed) ↦ absurd (ground arith)
          | inl (current, hs) ↦ elim (Result-cases (parse_utc calendar now)) [
            | inr (code, failed) ↦ absurd (ground arith)
            | inl (at, ha) ↦ elim (Result-cases (to_atomic cost_atomic)) [
              | inr (code, failed) ↦ absurd (ground arith)
              | inl (cost, hc) ↦ elim (Result-cases (check_release reason r attempt cost)) [
                | inr (code, failed) ↦ absurd (ground arith)
                | inl (entries, he) ↦ elim (Result-cases (settle_budget budget t n cost)) [
                  | inr (code, failed) ↦ absurd (ground arith)
                  | inl (next, hb) ↦ elim (Result-cases (settle_reservation released r now)) [
                    | inr (code, failed) ↦ absurd (ground arith)
                    | inl (r', hr) ↦ (
                      cost,
                      hc,
                      record {
                        totals = t;
                        amount = n;
                        now = now;
                        valid = ht;
                        parsed = hn;
                        budget_part = ground (arith, hb);
                        open_part = check_release-open reason r attempt cost he;
                        reservation_part = ground (arith, hr);
                      },
                    )
                  ]
                ]
              ]
            ]
          ]
        ]
      ]
    ]
