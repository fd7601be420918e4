-- ===== src/Money/Royalty/Conserves.antt =====
-- Every unit of the Royalty pool is credited, at every hop of the ancestry.
use native.Mathlib.Nat.{mul-le-mul_left}
use Prim.Native.Nat.{zero, suc}
use skill_asset_protocol.Base.{
  ℕ, ◌+◌, ◌-◌, ◌*◌, ◌/◌, ◌≤◌, List, [], ◌∷◌, ◌++◌, map, ◌≡◌, ap, ok-injective, number, negsuc,
  Value, bigint, pos, sum_by, sum_by-append, sum_by-map, Result, ok, arith, Result-cases, inl, inr,
  JsString, includes, false,
}
use skill_asset_protocol.Money.Input.{MoneyError, floor_bps, assert_atomic, assert_bps}
use skill_asset_protocol.Money.Weights.{Credited, allocate_by_bps}
use skill_asset_protocol.Money.Weights.Fair.{credited}
use skill_asset_protocol.Money.Weights.Bps.{credited-allocate_by_weights, allocate_by_bps_splits}
use skill_asset_protocol.Money.Royalty.{
  Skill, Skills, Hop, hop, normalized_node, each, Spread, Credit, credit_of, equal_share,
  ancestor_pool_of, parent_rows, distribute, Royalty, total_credits, allocate_royalty_graph,
  validate_reachable, ancestry_fuel, no_visits, no_credits, start_credit, max_distribution_visits,
  max_ancestry_depth, without,
}

assert_bps-le : (v : Value) {b : ℕ} → assert_bps v ≡ ok b → b ≤ 10_000
unfolding assert_bps
assert_bps-le (number (pos n)) e = ground arith
assert_bps-le (number (negsuc n)) e = ground arith
assert_bps-le _ e = ground arith

floor_bps-le : (a : ℕ) (bps : Value) {p : ℕ} → floor_bps (bigint (pos a)) bps ≡ ok p → p ≤ a
unfolding floor_bps assert_atomic
floor_bps-le a bps {p} e = elim (Result-cases (assert_bps bps)) [
  | inr (code, failed) ↦ absurd (ground arith)
  | inl (b, read) ↦
      let scaled = mul-le-mul_left a (assert_bps-le bps read) in
      let part : a * b / 10_000 ≤ a = omega arith in ground (arith, part)
]

ancestor_pool_of-le :
    (node : Skill) (amount : ℕ) {p : ℕ} → ancestor_pool_of node amount ≡ ok p → p ≤ amount
unfolding ancestor_pool_of
ancestor_pool_of-le node amount {p} e = ground (arith, floor_bps-le amount node.inherit_bps {p = p})

credited-parent_rows :
    (node : Skill) (amount pool : ℕ) {rows : List Credited}
    → ancestor_pool_of node amount ≡ ok pool
    → parent_rows node pool ≡ ok rows
    → credited rows ≡ pool
unfolding ancestor_pool_of parent_rows
credited-parent_rows node amount pool {rows} e h =
    ground (arith, credited-allocate_by_weights pool (map equal_share node.parent_ids) {out = rows})

-- A visit that adds the weight of its item to a total adds up over a loop.
pub each_total {ℓ κ} :
    {A : Type ℓ} {S : Type κ} (visit : A → S → Result MoneyError S) (total : S → ℕ) (weight : A → ℕ)
    → ((x : A) (s s' : S) → visit x s ≡ ok s' → total s' ≡ total s + weight x)
    → (xs : List A) (s s' : S) → each visit xs s ≡ ok s'
    → total s' ≡ total s + sum_by weight xs
unfolding each
each_total visit total weight step [] s s' e = ground (arith, ap total (ok-injective e))
each_total visit total weight step (x ∷ xs) s s' e = elim (Result-cases (visit x s)) [
  | inr (code, failed) ↦ absurd (ground arith)
  | inl (middle, first) ↦
      ground (arith, step x s middle first, each_total visit total weight step xs middle s')
]

-- One hop splits its amount: what its holders and what its parents get adds up.
pub hop_splits :
    (skills : Skills) (to : Credited) {h : Hop}
    → hop skills to ≡ ok h
    → credited h.holder_rows + credited h.rows ≡ to.amount
unfolding hop
hop_splits skills to {h} e = elim (Result-cases (normalized_node skills to.key)) [
  | inr (code, failed) ↦ absurd (ground arith)
  | inl (node, found) ↦ elim (Result-cases (ancestor_pool_of node to.amount)) [
    | inr (code, failed) ↦ absurd (ground arith)
    | inl (pool, taken) ↦
        let holders = allocate_by_bps (bigint (pos (to.amount - pool))) node.holders in
        elim (Result-cases holders) [
          | inr (code, failed) ↦ absurd (ground arith)
          | inl (own, given) ↦ elim (Result-cases (parent_rows node pool)) [
            | inr (code, failed) ↦ absurd (ground arith)
            | inl (up, passed) ↦ ground (
              arith,
              ancestor_pool_of-le node to.amount taken,
              (allocate_by_bps_splits (to.amount - pool) node.holders given).3,
              credited-parent_rows node to.amount pool taken passed,
            )
          ]
        ]
  ]
]

-- The state in which the parents are visited.
abbrev pub entered : ℕ → Credited → Spread → Hop → Spread
entered depth to state split = record {
  credits = state.credits ++ map (credit_of to.key depth) split.holder_rows;
  visiting = to.key ∷ state.visiting;
  visits = state.visits + 1;
}

-- What a successful visit has done.
pub record IsVisit (skills : Skills) (fuel depth : ℕ) (to : Credited) (state after : Spread)
    : Type 0 where
  pub split : Hop
  pub end : Spread
  pub found : hop skills to ≡ ok split
  pub done :
      each (distribute skills fuel (depth + 1)) split.rows (entered depth to state split) ≡ ok end
  pub few : state.visits + 1 ≤ max_distribution_visits
  pub shallow : depth ≤ max_ancestry_depth
  pub fresh : includes to.key state.visiting ≡ false
  pub left : after ≡ record end { visiting = without to.key end.visiting }

pub distribute-IsVisit :
    (skills : Skills) (fuel depth : ℕ) (to : Credited) (state after : Spread)
    → distribute skills (suc fuel) depth to state ≡ ok after
    → IsVisit skills fuel depth to state after
unfolding distribute
distribute-IsVisit skills fuel depth to state after e = elim (Result-cases (hop skills to)) [
  | inr (code, failed) ↦ absurd (ground arith)
  | inl (split, found) ↦
      let run =
        each (distribute skills fuel (depth + 1)) split.rows (entered depth to state split) in
      elim (Result-cases run) [
        | inr (code, failed) ↦ absurd (ground arith)
        | inl (end, done) ↦ record {
          split = split;
          end = end;
          found = found;
          done = done;
          few = ground arith;
          shallow = ground arith;
          fresh = ground arith;
          left = ground arith;
        }
      ]
]

-- A distribution adds exactly its amount to the credits.
pub distribute_total :
    (skills : Skills) (fuel depth : ℕ) (to : Credited) (state after : Spread)
    → distribute skills fuel depth to state ≡ ok after
    → total_credits after.credits ≡ total_credits state.credits + to.amount
distribute_total skills zero depth to state after e = unfold distribute in cc
distribute_total skills (suc fuel) depth to state after e =
    let v = distribute-IsVisit skills fuel depth to state after e in
    let visit = distribute skills fuel (depth + 1) in
    let start = entered depth to state v.split in
    let added =
      each_total visit (λ (s : Spread). total_credits s.credits) (λ (c : Credited). c.amount)
        (distribute_total skills fuel (depth + 1)) v.split.rows start v.end v.done in
    let own =
      sum_by-append (λ (c : Credit). c.amount) state.credits
        (map (credit_of to.key depth) v.split.holder_rows) in
    let named =
      sum_by-map (λ (c : Credit). c.amount) (credit_of to.key depth) v.split.holder_rows in
    ground (arith, v.left, hop_splits skills to v.found)

-- An accepted Royalty allocation credits the whole pool.
pub allocate_royalty_graph_conserves :
    (pool : ℕ) (leaf : JsString) (skills : Skills) (policy : JsString) {r : Royalty}
    → allocate_royalty_graph (bigint (pos pool)) leaf skills policy ≡ ok r
    → (r.royalty_pool ≡ pool) × (total_credits r.credits ≡ pool)
unfolding allocate_royalty_graph assert_atomic
allocate_royalty_graph_conserves pool leaf skills policy {r} e =
    elim (Result-cases (validate_reachable skills ancestry_fuel 0 leaf no_visits)) [
      | inr (code, failed) ↦ absurd (ground arith)
      | inl (checked, valid) ↦
          elim (Result-cases
            (distribute skills ancestry_fuel 0 (start_credit leaf pool) no_credits)) [
              | inr (code, failed) ↦ absurd (ground arith)
              | inl (spread, done) ↦ ground (
                arith,
                distribute_total skills ancestry_fuel 0 (start_credit leaf pool) no_credits spread
                    done,
              )
            ]
    ]
