-- ===== src/Awards/Budget/Life/Conserved.antt =====
-- What every sequence of operations on a reservation keeps of the totals of its budget.
use skill_asset_protocol.Base.{ℕ, ◌+◌, ◌≡◌, refl, sym, ap, ◌∙◌, false, ok, ok-injective, arith}
use skill_asset_protocol.Awards.Errors.{Calendar}
use skill_asset_protocol.Awards.Schema.{to_atomic}
use skill_asset_protocol.Awards.Budget.{
  Budget, Reservation, ReservationState, reserved, executing, consumed, released, held_unresolved,
  Totals, read_totals,
}
use skill_asset_protocol.Awards.Budget.Moves.{Moved}
use skill_asset_protocol.Awards.Budget.Amounts.{settle_totals}
use skill_asset_protocol.Awards.Budget.Settled.{Settles, IsSettlement-Settles}
use skill_asset_protocol.Awards.Budget.Ending.{
  is_settled, IsSettlement, finalize_reservation-IsSettlement, release_reservation-IsSettlement,
}
use skill_asset_protocol.Awards.Budget.Life.{
  Step, start, finalize, release, hold, IsQuiet, start_reservation_execution-IsQuiet,
  hold_unresolved_reservation-IsQuiet, settle_reservation-eq-ok,
}

-- What a reservation still holds of its amount.
unfoldable pub held_amount : ReservationState → ℕ → ℕ
held_amount reserved n = n
held_amount executing n = n
held_amount held_unresolved n = n
held_amount consumed n = 0
held_amount released n = 0

-- What a step keeps, for a reservation of `n`: the allocation, the total of what was ever reserved,
-- and the reserve but for what the reservation holds of it.
pub record Keeps (n : ℕ) (before after : Totals) (s s' : ReservationState) : Type 0 where
  pub allocation : after.allocated ≡ before.allocated
  pub total :
      after.in_reserve + after.spent + after.given_back
      ≡ before.in_reserve + before.spent + before.given_back
  pub others : after.in_reserve + held_amount s n ≡ before.in_reserve + held_amount s' n

-- The totals and the amount that a step leaves.
pub record Kept (n : ℕ) (t : Totals) (r : Reservation) (moved : Moved) : Type 0 where
  pub totals : Totals
  pub read : read_totals moved.budget ≡ ok totals
  pub amount : to_atomic moved.reservation.reserved_atomic ≡ ok n
  pub identity : moved.reservation.reservation_id ≡ r.reservation_id
  pub keeps : Keeps n t totals r.state moved.reservation.state

held_amount-unsettled : (s : ReservationState) (n : ℕ) → is_settled s ≡ false → held_amount s n ≡ n
unfolding held_amount is_settled
held_amount-unsettled reserved n h = refl
held_amount-unsettled executing n h = refl
held_amount-unsettled held_unresolved n h = cc
held_amount-unsettled consumed n h = cc
held_amount-unsettled released n h = cc

IsQuiet-Kept :
    (ending : ReservationState) (budget : Budget) (r : Reservation) (moved : Moved) {n : ℕ}
    {t : Totals}
    → read_totals budget ≡ ok t
    → to_atomic r.reserved_atomic ≡ ok n
    → held_amount ending n ≡ n
    → IsQuiet ending budget r moved
    → Kept n t r moved
IsQuiet-Kept ending budget r moved {n} {t} ht hn holding q =
    let unsettled = held_amount-unsettled r.state n q.open_part in
    let ends : held_amount moved.reservation.state n ≡ n =
      ap (λ s. held_amount s n) q.state_part ∙ holding in
    record {
      totals = t;
      read = q.budget_part ∙ ht;
      amount = ap to_atomic q.amount_part ∙ hn;
      identity = q.identity_part;
      keeps = record { allocation = refl; total = refl; others = omega (arith, unsettled, ends) };
    }

IsSettlement-Kept :
    (ending : ReservationState) (budget : Budget) (r : Reservation) (spending : ℕ) (moved : Moved)
    {n : ℕ} {t : Totals}
    → read_totals budget ≡ ok t
    → to_atomic r.reserved_atomic ≡ ok n
    → held_amount ending n ≡ 0
    → IsSettlement ending budget r spending moved
    → Kept n t r moved
IsSettlement-Kept ending budget r spending moved {n} {t} ht hn holding q =
    let s = IsSettlement-Settles ending budget r spending moved q in
    let same_totals : s.totals ≡ t = ok-injective (sym s.before ∙ ht) in
    let same_amount : s.amount ≡ n = ok-injective (sym s.reservation_amount ∙ hn) in
    let e = settle_reservation-eq-ok ending r q.now q.reservation_part in
    let unsettled = held_amount-unsettled r.state n q.open_part in
    let ends : held_amount moved.reservation.state n ≡ 0 =
      ap (λ x. held_amount x n) e.0 ∙ holding in
    record {
      totals = settle_totals s.totals s.amount spending;
      read = s.after;
      amount = ap to_atomic e.1 ∙ hn;
      identity = e.2;
      keeps = settled_keeps s same_totals same_amount unsettled ends;
    }
  where
    settled_keeps :
        (s : Settles budget r spending moved.budget)
        → s.totals ≡ t
        → s.amount ≡ n
        → held_amount r.state n ≡ n
        → held_amount moved.reservation.state n ≡ 0
        → Keeps n t (settle_totals s.totals s.amount spending) r.state moved.reservation.state
    settled_keeps s et en unsettled ends =
        let held = s.held in
        let covered = s.covered in
        let e1 = ap (λ (x : Totals). x.in_reserve) et in
        let e2 = ap (λ (x : Totals). x.spent) et in
        let e3 = ap (λ (x : Totals). x.given_back) et in
        record {
          allocation = ap (λ (x : Totals). x.allocated) et;
          total = omega arith;
          others = omega arith;
        }

pub Step-Kept :
    (calendar : Calendar) (budget : Budget) (r : Reservation) (moved : Moved) {n : ℕ} {t : Totals}
    → read_totals budget ≡ ok t
    → to_atomic r.reserved_atomic ≡ ok n
    → Step calendar budget r moved
    → Kept n t r moved
unfolding held_amount
Step-Kept calendar budget r moved ht hn s = elim s [
  | start expected attempt now h ↦
      let q = start_reservation_execution-IsQuiet calendar budget r expected attempt now h in
      IsQuiet-Kept executing budget r moved ht hn refl q
  | finalize actual done h ↦
      let q = finalize_reservation-IsSettlement calendar budget r actual h in
      IsSettlement-Kept consumed budget r q.0 done.moved ht hn refl q.3
  | release expected reason attempt cost now h ↦
      let q =
        release_reservation-IsSettlement calendar budget r expected reason attempt cost now h in
      IsSettlement-Kept released budget r q.0 moved ht hn refl q.2
  | hold expected reason attempt cost now h ↦
      let q =
        hold_unresolved_reservation-IsQuiet calendar budget r expected reason attempt cost now h in
      IsQuiet-Kept held_unresolved budget r moved ht hn refl q
]

-- Any number of steps.
pub data Run (calendar : Calendar) : Budget → Reservation → Budget → Reservation → Type 0 where
  nothing : {budget : Budget} {r : Reservation} → Run calendar budget r budget r
  then_run :
      {budget next : Budget} {r r' : Reservation} (moved : Moved)
      → Step calendar budget r moved
      → Run calendar moved.budget moved.reservation next r'
      → Run calendar budget r next r'

-- Whatever the operations do to a reservation, in any number of steps, the allocation stays, no
-- amount is made or lost among the reserve, what is consumed and what is released, and the reserve
-- changes by no more than what the reservation held of it.
pub Run-Keeps_totals :
    (calendar : Calendar) (budget next : Budget) (r r' : Reservation) (n : ℕ) (t : Totals)
    → read_totals budget ≡ ok t
    → to_atomic r.reserved_atomic ≡ ok n
    → Run calendar budget r next r'
    → (t' : Totals) × (read_totals next ≡ ok t') × Keeps n t t' r.state r'.state
Run-Keeps_totals calendar budget next r r' n t ht hn nothing =
    (t, ht, record { allocation = refl; total = refl; others = refl })
Run-Keeps_totals calendar budget next r r' n t ht hn (then_run moved s rest) =
    let k = Step-Kept calendar budget r moved ht hn s in
    let ih =
      Run-Keeps_totals calendar moved.budget next moved.reservation r' n k.totals k.read k.amount
        rest in
    (ih.0, ih.1, Keeps_trans k.keeps ih.2)
  where
    Keeps_trans :
        {n : ℕ} {a b c : Totals} {s s' s'' : ReservationState}
        → Keeps n a b s s'
        → Keeps n b c s' s''
        → Keeps n a c s s''
    Keeps_trans h k =
        let h1 = h.allocation in
        let h2 = h.total in
        let h3 = h.others in
        let k1 = k.allocation in
        let k2 = k.total in
        let k3 = k.others in
        record { allocation = omega arith; total = omega arith; others = omega arith }
