-- ===== src/Money/Weights/Fair.antt =====
-- `allocateByWeights` splits the whole amount, and by the weights.
use native.Mathlib.Nat.{div-add-mod, mod-lt, mul-le-mul_left}
use skill_asset_protocol.Base.{
  ℕ, ◌+◌, ◌-◌, ◌*◌, ◌≤◌, ◌<◌, List, [], ◌∷◌, map, ◌≡◌, ◌≢◌, refl, ◌∙◌, sum_by, subst, sum_by-map,
  sum_by-sort_by, ◌==◌, arith, Value, bigint, pos, ok, err, sort_by, JsString, Bool-cases, inl, inr,
  Result-cases,
}
use skill_asset_protocol.Money.Input.{assert_atomic, remainder_not_exhausted, weight_to_bigint}
use skill_asset_protocol.Money.Weights.{
  Share, Row, Allocation, Credited, floor_row, hand_out, to_credited, read_rows, split_rows,
  allocate_by_weights,
}
use skill_asset_protocol.Money.Weights.Remainder.{
  amounts, IsTopped, AllTopped, hand_out-AllTopped, hand_out_exhausts, floors_bounds,
}

-- The part of one row: it keeps the key, it is less than one unit from the exact share
-- `amount * weight / total` where that share is below it and at most one unit above, and a row of
-- weight 0 gets nothing.
pub record IsFairPart (amount total : ℕ) (r : Row) (c : Credited) : Type 0 where
  pub same_key : c.key ≡ r.key
  pub not_short : amount * r.weight < total * c.amount + total
  pub not_over : total * c.amount ≤ amount * r.weight + total
  pub weightless : r.weight ≡ 0 → c.amount ≡ 0

abbrev pub AllFair : ℕ → ℕ → List Row → List Credited → Type 0
AllFair amount total [] [] = Unit
AllFair amount total (r ∷ rs) (c ∷ cs) = IsFairPart amount total r c × AllFair amount total rs cs
AllFair amount total _ _ = ⊥

abbrev pub row_weights : List Row → ℕ
row_weights = sum_by (λ r. r.weight)

abbrev pub credited : List Credited → ℕ
credited = sum_by (λ c. c.amount)

module _ (amount total : ℕ) (some_weight : 0 < total) where
  IsTopped-IsFairPart :
      (r : Row) (a : Allocation)
      → IsTopped (floor_row amount total r) a
      → IsFairPart amount total r (to_credited a)
  IsTopped-IsFairPart r a t =
      let exact = div-add-mod (amount * r.weight) total in
      let small = mod-lt (amount * r.weight) some_weight in
      let low = mul-le-mul_left total t.no_less in
      let high = mul-le-mul_left total t.one_more in
      record {
        same_key = t.same_key;
        not_short = omega arith;
        not_over = omega arith;
        weightless = λ h. t.weightless h ∙ rw h (omega arith);
      }

  AllTopped-AllFair :
      (rows : List Row) (after : List Allocation)
      → AllTopped (map (floor_row amount total) rows) after
      → AllFair amount total rows (map to_credited after)
  AllTopped-AllFair [] [] t = tt
  AllTopped-AllFair [] (a ∷ after) t = t
  AllTopped-AllFair (r ∷ rs) [] t = t
  AllTopped-AllFair (r ∷ rs) (a ∷ after) t =
      (IsTopped-IsFairPart r a t.0, AllTopped-AllFair rs after t.1)

pub split_rows_lem :
    (amount : ℕ) (rows : List Row)
    → 0 < row_weights rows
    → (out : List Credited) × (split_rows amount rows ≡ ok out)
      × (credited out ≡ amount)
      × AllFair amount (row_weights rows) rows out
unfolding split_rows
split_rows_lem amount rows some_weight =
    let total = row_weights rows in
    let floors = map (floor_row amount total) rows in
    let remainder = amount - amounts floors in
    let bounds = floors_bounds amount total some_weight rows refl in
    let done = hand_out_exhausts remainder floors bounds.1 in
    let after = (hand_out remainder floors).1 in
    (
      map to_credited after,
      ground arith,
      sum_by-map (λ (c : Credited). c.amount) to_credited after ∙ omega arith,
      AllTopped-AllFair amount total some_weight rows after (hand_out-AllTopped remainder floors),
    )

-- Shares that are read to rows of a positive total weight are split: the whole amount is credited,
-- in key order, and every row gets its fair part.
pub allocate_by_weights_splits :
    (amount : ℕ) (shares : List Share) (rows : List Row)
    → read_rows [] shares ≡ ok rows
    → 0 < row_weights rows
    → (out : List Credited) × (allocate_by_weights (bigint (pos amount)) shares ≡ ok out)
      × (credited out ≡ amount)
      × AllFair amount (row_weights rows) (sort_by (λ (r : Row). r.key) rows) out
unfolding allocate_by_weights assert_atomic read_rows
allocate_by_weights_splits amount [] rows h w = absurd (ground arith)
allocate_by_weights_splits amount (s ∷ ss) rows h w =
    let sorted = sort_by (λ (r : Row). r.key) rows in
    let same : row_weights sorted ≡ row_weights rows =
      sum_by-sort_by (λ (r : Row). r.key) (λ (r : Row). r.weight) rows in
    let (out, run, sum, fair) = split_rows_lem amount sorted (omega arith) in
    (out, rw h run, sum, subst (λ t. AllFair amount t sorted out) same fair)

split_rows_exhausts :
    (amount : ℕ) (rows : List Row) → split_rows amount rows ≢ err remainder_not_exhausted
split_rows_exhausts amount rows e = elim (Bool-cases (row_weights rows == 0)) [
  | inl none ↦ unfold split_rows in ground arith
  | inr some ↦ ground (arith, (split_rows_lem amount rows (ground arith)).1)
]

read_rows_exhausts :
    (seen : List JsString) (shares : List Share)
    → read_rows seen shares ≢ err remainder_not_exhausted
unfolding read_rows weight_to_bigint
read_rows_exhausts seen [] = ground arith
read_rows_exhausts seen (s ∷ ss) = ground (arith, read_rows_exhausts (s.key ∷ seen) ss)

-- The check of the remainder never fails, whatever the amount and the shares are.
pub allocate_by_weights_exhausts :
    (amount : Value) (shares : List Share)
    → allocate_by_weights amount shares ≢ err remainder_not_exhausted
unfolding allocate_by_weights assert_atomic
allocate_by_weights_exhausts (bigint (pos a)) shares e = elim (Result-cases (read_rows [] shares)) [
  | inl (rows, read) ↦ ground (arith, split_rows_exhausts a (sort_by (λ (r : Row). r.key) rows))
  | inr (code, failed) ↦ ground (arith, read_rows_exhausts [] shares)
]
allocate_by_weights_exhausts _ shares e = ground arith
