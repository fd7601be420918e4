-- ===== src/Money/Royalty/Flow/Hops.antt =====
-- prototype/atomic-money.mjs: every visit of `distribute` divides its amount fairly.
use skill_asset_protocol.Base.{
  ℕ, ◌+◌, ◌-◌, ◌*◌, ◌/◌, ◌≤◌, ◌<◌, List, [], ◌∷◌, map, ◌≡◌, ◌⊎◌, ◌∙◌, refl, sym, ap, ok-injective,
  subst, Value, number, bigint, pos, length, null, ok, arith, Result-cases, Bool-cases, bind-ok,
  inl, inr, JsString, ◌==◌,
}
use skill_asset_protocol.Money.Input.{floor_bps, assert_atomic, assert_bps, weight_to_bigint}
use skill_asset_protocol.Money.Weights.{
  Row, Credited, read_rows, allocate_by_weights, allocate_by_bps,
}
use skill_asset_protocol.Money.Weights.Fair.{AllFair, row_weights, credited}
use skill_asset_protocol.Money.Weights.Bps.{
  allocate_by_bps_splits, allocate_by_weights-eq-ok, assert_bps-eq-ok,
}
use skill_asset_protocol.Money.Royalty.{
  Skill, Skills, Hop, hop, normalized_node, equal_share, ancestor_pool_of, parent_rows,
}
use skill_asset_protocol.Money.Royalty.Conserves.{hop_splits}
use skill_asset_protocol.Money.Royalty.Flow.{by_key, unit_row, IsInherited, IsFairHop}

floor_bps-bounds :
    (a : ℕ) (bps : Value) {p : ℕ}
    → floor_bps (bigint (pos a)) bps ≡ ok p
    → (b : ℕ) × (bps ≡ number (pos b))
      × (b ≤ 10_000)
      × (p * 10_000 ≤ a * b)
      × (a * b < p * 10_000 + 10_000)
unfolding floor_bps assert_atomic
floor_bps-bounds a bps {p} e = elim (Result-cases (assert_bps bps)) [
  | inr (code, failed) ↦ absurd (ground arith)
  | inl (b, read) ↦
      let (exact, small) = assert_bps-eq-ok bps read in
      let floored : a * b / 10_000 ≡ p = ground arith in (b, exact, small, omega arith, omega arith)
]

ancestor_pool_of-IsInherited :
    (node : Skill) (amount : ℕ) {up : ℕ}
    → ancestor_pool_of node amount ≡ ok up
    → IsInherited node amount up
unfolding ancestor_pool_of
ancestor_pool_of-IsInherited node amount e = elim (Bool-cases (null node.parent_ids)) [
  | inl none ↦ inl (ground arith, ground arith)
  | inr some ↦ inr (floor_bps-bounds amount node.inherit_bps (ground arith))
]

-- Equal shares are read to rows of weight 1.
read_rows-equal_share :
    (seen ids : List JsString) (rows : List Row)
    → read_rows seen (map equal_share ids) ≡ ok rows
    → rows ≡ map unit_row ids
unfolding read_rows weight_to_bigint
read_rows-equal_share seen [] rows e = ground arith
read_rows-equal_share seen (id ∷ ids) rows e =
    elim (Result-cases (read_rows (id ∷ seen) (map equal_share ids))) [
      | inr (code, failed) ↦ absurd (ground arith)
      | inl (rest, done) ↦ ground (arith, read_rows-equal_share (id ∷ seen) ids rest done)
    ]

row_weights-unit_row : (ids : List JsString) → row_weights (map unit_row ids) ≡ length ids
row_weights-unit_row [] = refl
row_weights-unit_row (id ∷ ids) = omega (arith, row_weights-unit_row ids)

parent_rows-fair :
    (node : Skill) (up : ℕ) {rows : List Credited}
    → parent_rows node up ≡ ok rows
    → ((rows ≡ []) × ((node.parent_ids ≡ []) ⊎ (up ≡ 0)))
      ⊎ ((credited rows ≡ up)
          × AllFair up (length node.parent_ids) (by_key (map unit_row node.parent_ids)) rows)
unfolding parent_rows
parent_rows-fair node up {rows} e = elim (Bool-cases (null node.parent_ids)) [
  | inl none ↦ inl (ground arith, inl (ground arith))
  | inr some ↦ elim (Bool-cases (up == 0)) [
    | inl nothing ↦ inl (ground arith, inr (ground arith))
    | inr more ↦
        let paid : allocate_by_weights (bigint (pos up)) (map equal_share node.parent_ids)
            ≡ ok rows =
          ground arith in
        let (found, read, sum, fair) =
          allocate_by_weights-eq-ok up (map equal_share node.parent_ids) paid in
        let same = read_rows-equal_share [] node.parent_ids found read in
        inr (
          sum,
          subst (λ n. AllFair up n (by_key (map unit_row node.parent_ids)) rows)
              (row_weights-unit_row node.parent_ids)
              (subst (λ rs. AllFair up (row_weights rs) (by_key rs) rows) same fair),
        )
  ]
]

-- What the parts of a visit give makes it a fair one.
module _ (skills : Skills) (to : Credited) (node : Skill) (up : ℕ) (own rows : List Credited)
    (found : normalized_node skills to.key ≡ ok node)
    (taken : ancestor_pool_of node to.amount ≡ ok up)
    (given : allocate_by_bps (bigint (pos (to.amount - up))) node.holders ≡ ok own)
    (passed : parent_rows node up ≡ ok rows) (kept : credited own + credited rows ≡ to.amount) where
  credited-passed : credited rows ≡ up
  credited-passed = elim (parent_rows-fair node up passed) [
    | inl (none, inr nothing) ↦ rw none (sym nothing)
    | inl (none, inl root) ↦ elim (ancestor_pool_of-IsInherited node to.amount taken) [
      | inl (_, nothing) ↦ rw none (sym nothing)
      | inr (b, exact, small, low, high) ↦ unfold ancestor_pool_of in rw none (ground arith)
    ]
    | inr (sum, fair) ↦ sum
  ]

  parts-IsFairHop : IsFairHop skills to (record { holder_rows = own; rows = rows })
  parts-IsFairHop =
      let (weights, read, full, sum, fair) =
        allocate_by_bps_splits (to.amount - up) node.holders given in
      record {
        node = node;
        holder_weights = weights;
        known = found;
        inherited =
            subst (IsInherited node to.amount) (sym credited-passed)
              (ancestor_pool_of-IsInherited node to.amount taken);
        parents = elim (parent_rows-fair node up passed) [
          | inl (none, _) ↦ inl (none, ap credited none)
          | inr (total, equal) ↦ inr (
              subst
                (λ n.
                  AllFair n (length node.parent_ids) (by_key (map unit_row node.parent_ids)) rows)
                (sym total) equal)
        ];
        kept = kept;
        read = read;
        full = full;
        holders = subst (λ n. AllFair n 10_000 (by_key weights) own) (sym sum) fair;
      }

pub hop-IsFairHop :
    (skills : Skills) (to : Credited) {h : Hop} → hop skills to ≡ ok h → IsFairHop skills to h
unfolding hop
hop-IsFairHop skills to {h} e =
    let (node, found, e1) = bind-ok (normalized_node skills to.key) e in
    let (up, taken, e2) = bind-ok (ancestor_pool_of node to.amount) e1 in
    let (own, given, e3) =
      bind-ok (allocate_by_bps (bigint (pos (to.amount - up))) node.holders) e2 in
    let (rows, passed, e4) = bind-ok (parent_rows node up) e3 in
    let made : record { holder_rows = own; rows = rows } ≡ h = ok-injective e4 in
    let kept = ap (λ (s : Hop). credited s.holder_rows + credited s.rows) made in
    subst (IsFairHop skills to) made (
      parts-IsFairHop skills to node up own rows found taken given passed
        (kept ∙ hop_splits skills to e))
