-- ===== src/Money/Weights.antt =====
-- prototype/atomic-money.mjs: `allocateByWeights` and `allocateByBps`, the split of an amount by
-- the largest remainder in key order. Keys are the strings after `String(share?.key ?? '')`.
pub mod Remainder
pub mod Fair
pub mod Bps
pub mod Order
use skill_asset_protocol.Base.{
  ℕ, ◌+◌, ◌-◌, ◌*◌, ◌/◌, List, [], ◌∷◌, map, Bool, not, Value, bigint, pos, JsString, null,
  includes, sum_by, sort_by, ◌==◌, if◌then◌else◌, Result, ok, err, ◌>>=◌, ◌>>◌, fail_if,
}
use skill_asset_protocol.Money.Input.{
  MoneyError, allocations_empty, allocation_key, allocation_duplicate, weights_zero, bps_total,
  remainder_not_exhausted, bps_denominator, assert_atomic, assert_bps, weight_to_bigint,
}

pub record Share : Type 0 where
  pub key : JsString
  pub weight : Value

pub record Row : Type 0 where
  pub key : JsString
  pub weight : ℕ

pub record Allocation : Type 0 where
  pub key : JsString
  pub weight : ℕ
  pub amount : ℕ

pub record Credited : Type 0 where
  pub key : JsString
  pub amount : ℕ

-- The `map` over the shares, with the keys seen so far.
unfoldable pub read_rows : List JsString → List Share → Result MoneyError (List Row)
read_rows seen [] = ok []
read_rows seen (s ∷ ss) = do
  fail_if (null s.key) allocation_key
  fail_if (includes s.key seen) allocation_duplicate
  w ← weight_to_bigint s.weight
  rows ← read_rows (s.key ∷ seen) ss
  ok (record { key = s.key; weight = w } ∷ rows)

-- The rounded-down part of one row.
abbrev pub floor_row : ℕ → ℕ → Row → Allocation
floor_row amount total r = record {
  key = r.key;
  weight = r.weight;
  amount = amount * r.weight / total;
}

abbrev put_row : Allocation → ℕ × List Allocation → ℕ × List Allocation
put_row row (left, rows) = (left, row ∷ rows)

-- The loop that hands out the remainder, one unit to a row; it gives what it could not hand out.
unfoldable pub hand_out : ℕ → List Allocation → ℕ × List Allocation
hand_out remainder [] = (remainder, [])
hand_out remainder (row ∷ rows) =
    let skip : ℕ × List Allocation = put_row row (hand_out remainder rows) in
    let give : ℕ × List Allocation =
      put_row (record row { amount = row.amount + 1 }) (hand_out (remainder - 1) rows) in
    if remainder == 0 then (remainder, row ∷ rows) else if row.weight == 0 then skip else give

abbrev pub to_credited : Allocation → Credited
to_credited r = record { key = r.key; amount = r.amount }

-- What follows the reading of the rows: floors, the remainder and its check.
unfoldable pub split_rows : ℕ → List Row → Result MoneyError (List Credited)
split_rows amount rows =
    let total = sum_by (λ (r : Row). r.weight) rows in
    if total == 0
    then err weights_zero
    else let floors = map (floor_row amount total) rows in
      let remainder = amount - sum_by (λ (r : Allocation). r.amount) floors in
      let (left, allocations) = hand_out remainder floors in
      if left == 0 then ok (map to_credited allocations) else err remainder_not_exhausted

unfoldable pub allocate_by_weights : Value → List Share → Result MoneyError (List Credited)
allocate_by_weights amount shares = do
  a ← assert_atomic amount
  fail_if (null shares) allocations_empty
  rows ← read_rows [] shares
  split_rows a (sort_by (λ (r : Row). r.key) rows)

pub record BpsShare : Type 0 where
  pub key : JsString
  pub bps : Value

-- The `map` of `allocateByBps`; a basis-point count is a weight from here on.
unfoldable pub normalize_bps : List BpsShare → Result MoneyError (List Row)
normalize_bps [] = ok []
normalize_bps (s ∷ ss) = do
  b ← assert_bps s.bps
  rows ← normalize_bps ss
  ok (record { key = s.key; weight = b } ∷ rows)

abbrev pub row_share : Row → Share
row_share r = record { key = r.key; weight = bigint (pos r.weight) }

unfoldable pub allocate_by_bps : Value → List BpsShare → Result MoneyError (List Credited)
allocate_by_bps amount shares = do
  fail_if (null shares) allocations_empty
  rows ← normalize_bps shares
  fail_if (not (sum_by (λ (r : Row). r.weight) rows == bps_denominator)) bps_total
  allocate_by_weights amount (map row_share rows)
