-- ===== src/Awards/Budget/Amounts.antt =====
-- What the operations do to the amounts of a budget: they refine two steps on its totals.
use skill_asset_protocol.Base.{
  ℕ, ◌+◌, ◌-◌, ◌≤◌, ◌≡◌, subst, inl, inr, JsString, ok, Result-cases, arith, decimal,
  parse_atomic-decimal,
}
use skill_asset_protocol.Kernel.Platform.{Platform}
use skill_asset_protocol.Awards.Errors.{Calendar}
use skill_asset_protocol.Awards.Schema.{to_atomic}
use skill_asset_protocol.Awards.Quote.{Quote, validate_quote}
use skill_asset_protocol.Awards.Budget.{
  Budget, Totals, reserved, read_totals, validate_budget_state, replace_budget, from_difference,
  remaining_atomic, require_revision, require_current_authorization,
}
use skill_asset_protocol.Awards.Budget.Moves.{Moved, reserve_budget}
use skill_asset_protocol.Awards.Budget.Settlement.{settle_budget}

-- The specification on numbers.
abbrev pub reserve_totals : Totals → ℕ → Totals
reserve_totals t n = record t { in_reserve = t.in_reserve + n }

abbrev pub settle_totals : Totals → ℕ → ℕ → Totals
settle_totals t amount cost = record t {
  in_reserve = t.in_reserve - amount;
  spent = t.spent + cost;
  given_back = t.given_back + (amount - cost);
}

to_atomic-decimal : (n : ℕ) → to_atomic (decimal n) ≡ ok n
unfolding to_atomic
to_atomic-decimal n = ground (arith, parse_atomic-decimal n)

-- A valid state has readable amounts, which its allocation covers.
pub validate_budget_state-eq-ok :
    (budget : Budget) {t : Totals}
    → validate_budget_state budget ≡ ok t
    → (read_totals budget ≡ ok t) × (t.in_reserve + t.spent ≤ t.allocated)
unfolding validate_budget_state
validate_budget_state-eq-ok budget {t} e = elim (Result-cases (read_totals budget)) [
  | inr (code, failed) ↦ absurd (ground arith)
  | inl (read, given) ↦ ground arith
]

pub replace_budget-eq-ok :
    (next : Budget) {result : Budget} → replace_budget next ≡ ok result → next ≡ result
unfolding replace_budget
replace_budget-eq-ok next e = elim (Result-cases (validate_budget_state next)) [
  | inr (code, failed) ↦ absurd (ground arith)
  | inl (t, given) ↦ ground arith
]

from_difference-eq-ok :
    (a b : ℕ) {s : JsString} → from_difference a b ≡ ok s → (b ≤ a) × (to_atomic s ≡ ok (a - b))
unfolding from_difference
from_difference-eq-ok a b e = ground (arith, to_atomic-decimal (a - b))

-- The amounts that a budget reads as.
record Reads (budget : Budget) (t : Totals) : Type 0 where
  allocated : to_atomic budget.allocated_atomic ≡ ok t.allocated
  in_reserve : to_atomic budget.reserved_atomic ≡ ok t.in_reserve
  spent : to_atomic budget.consumed_atomic ≡ ok t.spent
  given_back : to_atomic budget.released_atomic ≡ ok t.given_back

read_totals-Reads : (budget : Budget) {t : Totals} → read_totals budget ≡ ok t → Reads budget t
unfolding read_totals
read_totals-Reads budget {t} e = elim (Result-cases (to_atomic budget.allocated_atomic)) [
  | inr (code, failed) ↦ absurd (ground arith)
  | inl (a, ha) ↦ elim (Result-cases (to_atomic budget.reserved_atomic)) [
    | inr (code, failed) ↦ absurd (ground arith)
    | inl (b, hb) ↦ elim (Result-cases (to_atomic budget.consumed_atomic)) [
      | inr (code, failed) ↦ absurd (ground arith)
      | inl (c, hc) ↦ elim (Result-cases (to_atomic budget.released_atomic)) [
        | inr (code, failed) ↦ absurd (ground arith)
        | inl (d, hd) ↦ record {
          allocated = ground arith;
          in_reserve = ground arith;
          spent = ground arith;
          given_back = ground arith;
        }
      ]
    ]
  ]
]

Reads-read_totals : (budget : Budget) {t : Totals} → Reads budget t → read_totals budget ≡ ok t
unfolding read_totals
Reads-read_totals budget {t} r =
    let a = r.allocated in
    let b = r.in_reserve in let c = r.spent in let d = r.given_back in ground arith

-- The budget that a settlement writes.
settled : Budget → Totals → ℕ → ℕ → JsString → Budget
settled budget t amount cost left = record budget {
  reserved_atomic = left;
  consumed_atomic = decimal (t.spent + cost);
  released_atomic = decimal (t.given_back + (amount - cost));
  revision = budget.revision + 1;
}

settled-Reads :
    (budget : Budget) (t : Totals) (amount cost : ℕ) (left : JsString)
    → Reads budget t
    → to_atomic left ≡ ok (t.in_reserve - amount)
    → Reads (settled budget t amount cost left) (settle_totals t amount cost)
unfolding settled
settled-Reads budget t amount cost left r h = record {
  allocated = r.allocated;
  in_reserve = h;
  spent = to_atomic-decimal (t.spent + cost);
  given_back = to_atomic-decimal (t.given_back + (amount - cost));
}

-- The difference in the reserve, the one of the amount, and the budget that is written.
settle_budget-eq-ok :
    (budget : Budget) (t : Totals) (amount cost : ℕ) {next : Budget}
    → settle_budget budget t amount cost ≡ ok next
    → (left : JsString) × (from_difference t.in_reserve amount ≡ ok left)
      × (cost ≤ amount)
      × (settled budget t amount cost left ≡ next)
unfolding settle_budget settled
settle_budget-eq-ok budget t amount cost h =
    elim (Result-cases (from_difference t.in_reserve amount)) [
      | inr (code, failed) ↦ absurd (ground arith)
      | inl (left, hl) ↦ elim (Result-cases (from_difference amount cost)) [
        | inr (code, failed) ↦ absurd (ground arith)
        | inl (rest, hr) ↦ (
          left,
          hl,
          (from_difference-eq-ok amount cost hr).0,
          replace_budget-eq-ok (settled budget t amount cost left) (ground arith),
        )
      ]
    ]

pub settle_budget_totals :
    (budget : Budget) (t : Totals) (amount cost : ℕ) {next : Budget}
    → read_totals budget ≡ ok t
    → settle_budget budget t amount cost ≡ ok next
    → (read_totals next ≡ ok (settle_totals t amount cost))
      × (amount ≤ t.in_reserve)
      × (cost ≤ amount)
settle_budget_totals budget t amount cost {next} e h =
    let s = settle_budget-eq-ok budget t amount cost h in
    let taken = from_difference-eq-ok t.in_reserve amount s.1 in
    let reads = settled-Reads budget t amount cost s.0 (read_totals-Reads budget e) taken.1 in
    (
      subst (λ b. read_totals b ≡ ok (settle_totals t amount cost)) s.3
          (Reads-read_totals (settled budget t amount cost s.0) reads),
      taken.0,
      s.2,
    )

reserved_budget : Budget → Totals → ℕ → Budget
reserved_budget budget t n = record budget {
  reserved_atomic = decimal (t.in_reserve + n);
  revision = budget.revision + 1;
}

reserved_budget-read_totals :
    (budget : Budget) (t : Totals) (n : ℕ)
    → read_totals budget ≡ ok t
    → read_totals (reserved_budget budget t n) ≡ ok (reserve_totals t n)
unfolding reserved_budget
reserved_budget-read_totals budget t n e =
    let r = read_totals-Reads budget e in
    Reads-read_totals (reserved_budget budget t n) (record {
      allocated = r.allocated;
      in_reserve = to_atomic-decimal (t.in_reserve + n);
      spent = r.spent;
      given_back = r.given_back;
    })

-- A successful reservation of a quote: what it reads, and what it writes.
record IsReservation (budget : Budget) (moved : Moved) : Type 0 where
  totals : Totals
  amount : ℕ
  valid : validate_budget_state budget ≡ ok totals
  parsed : to_atomic moved.reservation.reserved_atomic ≡ ok amount
  covered : totals.in_reserve + totals.spent + amount ≤ totals.allocated
  budget_part : reserved_budget budget totals amount ≡ moved.budget
  state_part : moved.reservation.state ≡ reserved

reserve_budget-IsReservation :
    (p : Platform) (calendar : Calendar) (budget : Budget) (quote : Quote) (expected : ℕ)
    (id now : JsString) {moved : Moved}
    → reserve_budget p calendar budget quote expected id now ≡ ok moved
    → IsReservation budget moved
unfolding reserve_budget reserved_budget remaining_atomic require_revision
reserve_budget-IsReservation p calendar budget quote expected id now {moved} h =
    elim (Result-cases (validate_budget_state budget)) [
      | inr (code, failed) ↦ absurd (ground arith)
      | inl (t, ht) ↦ elim (Result-cases (require_current_authorization calendar budget now)) [
        | inr (code, failed) ↦ absurd (ground arith)
        | inl (allowed, ha) ↦
            elim (Result-cases (validate_quote p calendar quote budget.policy now)) [
              | inr (code, failed) ↦ absurd (ground arith)
              | inl (q, hq) ↦ elim (Result-cases (to_atomic q.max_gross_atomic)) [
                | inr (code, failed) ↦ absurd (ground arith)
                | inl (n, hn) ↦ elim (Result-cases (replace_budget (reserved_budget budget t n))) [
                  | inr (code, failed) ↦ absurd (ground arith)
                  | inl (next, hr) ↦ record {
                    totals = t;
                    amount = n;
                    valid = ht;
                    parsed = ground (arith, hn);
                    covered = ground (arith, (validate_budget_state-eq-ok budget ht).1);
                    budget_part =
                        ground (arith, replace_budget-eq-ok (reserved_budget budget t n) hr);
                    state_part = ground arith;
                  }
                ]
              ]
            ]
      ]
    ]

-- A reservation that is granted adds its amount to the reserve, changes no other amount, and stays
-- within the allocation.
pub reserve_budget_refines :
    (p : Platform) (calendar : Calendar) (budget : Budget) (quote : Quote) (expected : ℕ)
    (id now : JsString) {moved : Moved}
    → reserve_budget p calendar budget quote expected id now ≡ ok moved
    → (t : Totals) × (n : ℕ) × (read_totals budget ≡ ok t)
      × (to_atomic moved.reservation.reserved_atomic ≡ ok n)
      × (read_totals moved.budget ≡ ok (reserve_totals t n))
      × (t.in_reserve + t.spent + n ≤ t.allocated)
reserve_budget_refines p calendar budget quote expected id now {moved} h =
    let r = reserve_budget-IsReservation p calendar budget quote expected id now h in
    let read = (validate_budget_state-eq-ok budget r.valid).0 in
    (
      r.totals,
      r.amount,
      read,
      r.parsed,
      subst (λ b. read_totals b ≡ ok (reserve_totals r.totals r.amount)) r.budget_part
          (reserved_budget-read_totals budget r.totals r.amount read),
      r.covered,
    )
