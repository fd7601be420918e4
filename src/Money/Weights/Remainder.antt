-- ===== src/Money/Weights/Remainder.antt =====
-- The remainder that the rounding leaves is handed out completely, and each part stays next to its
-- exact share.
use native.Mathlib.Nat.{div-add-mod, mod-lt, le_of_mul-le-mul_left}
use skill_asset_protocol.Base.{
  ℕ, ◌+◌, ◌-◌, ◌*◌, ◌%◌, ◌≤◌, ◌<◌, List, [], ◌∷◌, map, ◌≡◌, ap, sum_by, ◌==◌, if◌then◌else◌, arith,
}
use skill_asset_protocol.Money.Weights.{Row, Allocation, floor_row, hand_out}

-- The rows that may receive a unit.
abbrev pub weighted : List Allocation → ℕ
weighted [] = 0
weighted (r ∷ rs) = (if r.weight == 0 then 0 else 1) + weighted rs

abbrev pub amounts : List Allocation → ℕ
amounts = sum_by (λ r. r.amount)

-- What one row has become: the same key and weight, and one unit more at most, none where the
-- weight is 0.
pub record IsTopped (before after : Allocation) : Type 0 where
  pub same_key : after.key ≡ before.key
  pub same_weight : after.weight ≡ before.weight
  pub no_less : before.amount ≤ after.amount
  pub one_more : after.amount ≤ before.amount + 1
  pub weightless : before.weight ≡ 0 → after.amount ≡ before.amount

abbrev pub AllTopped : List Allocation → List Allocation → Type 0
AllTopped [] [] = Unit
AllTopped (b ∷ befores) (a ∷ afters) = IsTopped b a × AllTopped befores afters
AllTopped _ _ = ⊥

IsTopped-refl : (r : Allocation) → IsTopped r r
IsTopped-refl r = ground arith

AllTopped-refl : (rs : List Allocation) → AllTopped rs rs
AllTopped-refl [] = tt
AllTopped-refl (r ∷ rs) = (IsTopped-refl r, AllTopped-refl rs)

pub hand_out-AllTopped : (n : ℕ) (rows : List Allocation) → AllTopped rows (hand_out n rows).1
unfolding hand_out
hand_out-AllTopped n [] = tt
hand_out-AllTopped n (r ∷ rs) =
    ground (arith, AllTopped-refl rs, hand_out-AllTopped n rs, hand_out-AllTopped (n - 1) rs)

-- With a row for every unit nothing is left over, and the units are all handed out.
pub hand_out_exhausts :
    (n : ℕ) (rows : List Allocation)
    → n ≤ weighted rows
    → ((hand_out n rows).0 ≡ 0) × (amounts (hand_out n rows).1 ≡ amounts rows + n)
unfolding hand_out
hand_out_exhausts n [] h = (omega arith, omega arith)
hand_out_exhausts n (r ∷ rs) h =
    ground (arith, hand_out_exhausts n rs, hand_out_exhausts (n - 1) rs)

abbrev weights : List Row → ℕ
weights = sum_by (λ r. r.weight)

module _ (amount total : ℕ) (pos : 0 < total) where
  abbrev leftovers : List Row → ℕ
  leftovers = sum_by (λ r. amount * r.weight % total)

  floors_and_leftovers :
      (rows : List Row)
      → total * amounts (map (floor_row amount total) rows) + leftovers rows ≡ amount * weights rows
  floors_and_leftovers [] = omega arith
  floors_and_leftovers (r ∷ rs) =
      omega (arith, floors_and_leftovers rs, div-add-mod (amount * r.weight) total)

  leftovers_le :
      (rows : List Row) → leftovers rows ≤ weighted (map (floor_row amount total) rows) * total
  leftovers_le [] = omega arith
  leftovers_le (r ∷ rs) = grind (arith, leftovers_le rs, mod-lt (amount * r.weight) pos)

  -- The floors do not exceed the amount, and what they leave is at most a unit for each row.
  pub floors_bounds :
      (rows : List Row)
      → weights rows ≡ total
      → let floors = map (floor_row amount total) rows in
        (amounts floors ≤ amount) × (amount - amounts floors ≤ weighted floors)
  floors_bounds rows e =
      let sums = floors_and_leftovers rows in
      let exact : amount * weights rows ≡ amount * total = ap (λ w. amount * w) e in
      let rest = leftovers_le rows in
      let floors = amounts (map (floor_row amount total) rows) in
      let units = weighted (map (floor_row amount total) rows) in
      let below : floors ≤ amount = le_of_mul-le-mul_left {k = total} (omega arith) pos in
      let above : amount ≤ floors + units = le_of_mul-le-mul_left {k = total} (omega arith) pos in
      (below, omega arith)
