-- ===== src/Money/Royalty/Total.antt =====
-- The allocation of a Royalty pool ends, and its internal checks never fail.
use Prim.Native.Nat.{zero, suc}
use skill_asset_protocol.Base.{
  ℕ, ◌+◌, ◌≤◌, ◌≡◌, refl, Bool, true, false, Value, number, bigint, pos, negsuc, List, [], ◌∷◌, map,
  JsString, Result, ok, err, ◌>>=◌, ◌>>◌, fail_if, arith, inl, inr, ltb, ltb-false, Bool-cases,
  sort_by, null, ◌==◌, ◌-◌, not, distinct, if◌then◌else◌, includes, length, text_eq,
}
use skill_asset_protocol.Money.Input.{
  MoneyError, allocations_empty, parent_duplicate, ancestry_depth, ancestry_cycle, ancestry_visits,
  ancestry_nodes, allocation_policy_unsupported, remainder_not_exhausted, credits_not_pool,
  out_of_fuel, assert_atomic, assert_bps, floor_bps, weight_to_bigint,
}
use skill_asset_protocol.Money.Weights.{
  Share, Row, Credited, BpsShare, read_rows, split_rows, allocate_by_weights, normalize_bps,
  allocate_by_bps, row_share,
}
use skill_asset_protocol.Money.Weights.Fair.{row_weights, split_rows_lem}
use skill_asset_protocol.Money.Royalty.{
  Skill, Skills, require_skill, normalized_node, each, Visits, validate_reachable, Spread,
  ancestor_pool_of, parent_rows, hop, distribute, allocate_royalty_graph, covers, deepest_depth,
  max_reachable_skills, with_member, sort_text, royalty_allocation_policy, no_visits, no_credits,
  start_credit, ancestry_fuel, max_ancestry_depth, max_distribution_visits, equal_share,
}
use skill_asset_protocol.Money.Royalty.Conserves.{entered, distribute_total}

-- The errors that would mean a broken invariant of the allocation itself.
abbrev pub is_internal : MoneyError → Bool
is_internal remainder_not_exhausted = true
is_internal credits_not_pool = true
is_internal out_of_fuel = true
is_internal _ = false

-- The result is a value, or an error that the input is to blame for.
abbrev pub Blameless {ℓ} : {A : Type ℓ} → Result MoneyError A → Type 0
Blameless (ok a) = Unit
Blameless (err e) = is_internal e ≡ false

bind-Blameless {ℓ κ} :
    {A : Type ℓ} {B : Type κ} (m : Result MoneyError A) (f : A → Result MoneyError B)
    → Blameless m
    → ((a : A) → m ≡ ok a → Blameless (f a))
    → Blameless (m >>= f)
bind-Blameless (ok a) f h k = k a refl
bind-Blameless (err e) f h k = h

assert_bps-Blameless : (v : Value) → Blameless (assert_bps v)
unfolding assert_bps
assert_bps-Blameless (number (pos n)) = ground arith
assert_bps-Blameless (number (negsuc n)) = refl
assert_bps-Blameless _ = refl

weight_to_bigint-Blameless : (v : Value) → Blameless (weight_to_bigint v)
unfolding weight_to_bigint
weight_to_bigint-Blameless (bigint (pos n)) = tt
weight_to_bigint-Blameless (bigint (negsuc n)) = refl
weight_to_bigint-Blameless (number (pos n)) = tt
weight_to_bigint-Blameless _ = refl

read_rows-Blameless : (seen : List JsString) (ss : List Share) → Blameless (read_rows seen ss)
unfolding read_rows
read_rows-Blameless seen [] = tt
read_rows-Blameless seen (s ∷ ss) =
    ground (arith, weight_to_bigint-Blameless s.weight, read_rows-Blameless (s.key ∷ seen) ss)

split_rows-Blameless : (a : ℕ) (rows : List Row) → Blameless (split_rows a rows)
split_rows-Blameless a rows = elim (Bool-cases (row_weights rows == 0)) [
  | inl none ↦ unfold split_rows in ground arith
  | inr some ↦ rw ((split_rows_lem a rows (ground arith)).1) tt
]

assert_atomic-Blameless : (v : Value) → Blameless (assert_atomic v)
unfolding assert_atomic
assert_atomic-Blameless (bigint (pos n)) = tt
assert_atomic-Blameless (bigint (negsuc n)) = refl
assert_atomic-Blameless _ = refl

-- A guard blames the input.
guard-Blameless {ℓ} :
    {A : Type ℓ} (c : Bool) (e : MoneyError) (k : Result MoneyError A)
    → is_internal e ≡ false
    → (c ≡ false → Blameless k)
    → Blameless (fail_if c e >> k)
guard-Blameless true e k h next = h
guard-Blameless false e k h next = next refl

allocate_by_weights-Blameless : (v : Value) (ss : List Share) → Blameless (allocate_by_weights v ss)
unfolding allocate_by_weights
allocate_by_weights-Blameless v ss =
    bind-Blameless (assert_atomic v) _ (assert_atomic-Blameless v) λ a _.
      guard-Blameless _ _ _ refl λ _.
        bind-Blameless (read_rows [] ss) _ (read_rows-Blameless [] ss)
          λ rows _. split_rows-Blameless a (sort_by (λ (r : Row). r.key) rows)

normalize_bps-Blameless : (ss : List BpsShare) → Blameless (normalize_bps ss)
unfolding normalize_bps
normalize_bps-Blameless [] = tt
normalize_bps-Blameless (s ∷ ss) =
    ground (arith, assert_bps-Blameless s.bps, normalize_bps-Blameless ss)

allocate_by_bps-Blameless : (v : Value) (ss : List BpsShare) → Blameless (allocate_by_bps v ss)
unfolding allocate_by_bps
allocate_by_bps-Blameless v ss = guard-Blameless (null ss) allocations_empty _ refl λ _.
    bind-Blameless (normalize_bps ss) _ (normalize_bps-Blameless ss)
      λ rows _. guard-Blameless _ _ _ refl λ _. allocate_by_weights-Blameless v (map row_share rows)

floor_bps-Blameless : (v w : Value) → Blameless (floor_bps v w)
unfolding floor_bps
floor_bps-Blameless v w = ground (arith, assert_atomic-Blameless v, assert_bps-Blameless w)

require_skill-Blameless : (skills : Skills) (id : JsString) → Blameless (require_skill skills id)
unfolding require_skill
require_skill-Blameless [] id = refl
require_skill-Blameless ((key, skill) ∷ skills) id =
    ground (arith, require_skill-Blameless skills id)

normalized_node-Blameless :
    (skills : Skills) (id : JsString) → Blameless (normalized_node skills id)
unfolding normalized_node
normalized_node-Blameless skills id =
    bind-Blameless (require_skill skills id) _ (require_skill-Blameless skills id) λ skill _.
      guard-Blameless (not (distinct (sort_text skill.parent_ids))) parent_duplicate _ refl λ _.
        bind-Blameless (assert_bps skill.inherit_bps) _ (assert_bps-Blameless skill.inherit_bps)
          λ b _.
            bind-Blameless (allocate_by_bps (bigint (pos 0)) skill.holders) _
              (allocate_by_bps-Blameless (bigint (pos 0)) skill.holders) λ rows _. tt

ancestor_pool_of-Blameless : (node : Skill) (a : ℕ) → Blameless (ancestor_pool_of node a)
unfolding ancestor_pool_of
ancestor_pool_of-Blameless node a =
    ground (arith, floor_bps-Blameless (bigint (pos a)) node.inherit_bps)

parent_rows-Blameless : (node : Skill) (pool : ℕ) → Blameless (parent_rows node pool)
unfolding parent_rows
parent_rows-Blameless node pool =
    ground
      (arith, allocate_by_weights-Blameless (bigint (pos pool)) (map equal_share node.parent_ids))

hop-Blameless : (skills : Skills) (to : Credited) → Blameless (hop skills to)
unfolding hop
hop-Blameless skills to =
    bind-Blameless (normalized_node skills to.key) _ (normalized_node-Blameless skills to.key)
      λ node _.
        bind-Blameless (ancestor_pool_of node to.amount) _
          (ancestor_pool_of-Blameless node to.amount)
          λ pool _.
            bind-Blameless (allocate_by_bps (bigint (pos (to.amount - pool))) node.holders) _
              (allocate_by_bps-Blameless (bigint (pos (to.amount - pool))) node.holders)
              λ own _.
                bind-Blameless (parent_rows node pool) _ (parent_rows-Blameless node pool)
                  λ up _. tt

each-Blameless {ℓ κ} :
    {A : Type ℓ} {S : Type κ} (visit : A → S → Result MoneyError S)
    → ((x : A) (s : S) → Blameless (visit x s))
    → (xs : List A) (s : S) → Blameless (each visit xs s)
unfolding each
each-Blameless visit h [] s = tt
each-Blameless visit h (x ∷ xs) s =
    bind-Blameless (visit x s) _ (h x s) λ s' _. each-Blameless visit h xs s'

if-Blameless {ℓ} :
    {A : Type ℓ} (c : Bool) (a b : Result MoneyError A)
    → Blameless a
    → Blameless b
    → Blameless (if c then a else b)
if-Blameless true a b h k = h
if-Blameless false a b h k = k

-- A visit is blameless if the visits of the parents are, which are made within the depth limit.
validate_reachable_step :
    (skills : Skills) (fuel depth : ℕ) (id : JsString) (state : Visits)
    → (depth ≤ max_ancestry_depth
        → (p : JsString) (s : Visits) → Blameless (validate_reachable skills fuel (depth + 1) p s))
    → Blameless (validate_reachable skills (suc fuel) depth id state)
unfolding validate_reachable
validate_reachable_step skills fuel depth id state parents =
    guard-Blameless (ltb max_ancestry_depth depth) ancestry_depth _ refl λ shallow.
      guard-Blameless (includes id state.validating) ancestry_cycle _ refl λ fresh.
        if-Blameless (covers (deepest_depth id state.deepest) depth) (ok state) _ tt (
          bind-Blameless (normalized_node skills id) _ (normalized_node-Blameless skills id)
            λ node _.
              guard-Blameless (ltb max_reachable_skills (length (with_member id state.reachable)))
                ancestry_nodes _ refl
                λ few.
                  bind-Blameless
                    (each (validate_reachable skills fuel (depth + 1)) node.parent_ids _) _
                    (each-Blameless (validate_reachable skills fuel (depth + 1))
                      (parents (ltb-false _ _ shallow)) node.parent_ids _)
                    λ after _. tt)

-- With fuel for every level down to the limit, the validation does not run out of it.
validate_reachable-Blameless :
    (skills : Skills) (fuel depth : ℕ) (id : JsString) (state : Visits)
    → depth ≤ 33
    → 34 ≤ fuel + depth
    → Blameless (validate_reachable skills fuel depth id state)
validate_reachable-Blameless skills zero depth id state low high = absurd (omega arith)
validate_reachable-Blameless skills (suc fuel) depth id state low high =
    validate_reachable_step skills fuel depth id state λ shallow p s.
      validate_reachable-Blameless skills fuel (depth + 1) p s (omega arith) (omega arith)

distribute_step :
    (skills : Skills) (fuel depth : ℕ) (to : Credited) (state : Spread)
    → (depth ≤ max_ancestry_depth
        → (p : Credited) (s : Spread) → Blameless (distribute skills fuel (depth + 1) p s))
    → Blameless (distribute skills (suc fuel) depth to state)
unfolding distribute
distribute_step skills fuel depth to state parents =
    guard-Blameless (ltb max_distribution_visits (state.visits + 1)) ancestry_visits _ refl λ few.
      guard-Blameless (ltb max_ancestry_depth depth) ancestry_depth _ refl λ shallow.
        guard-Blameless (includes to.key state.visiting) ancestry_cycle _ refl λ fresh.
          bind-Blameless (hop skills to) _ (hop-Blameless skills to) λ split _.
            let start = entered depth to state split in
            bind-Blameless (each (distribute skills fuel (depth + 1)) split.rows start) _
              (each-Blameless (distribute skills fuel (depth + 1)) (parents (ltb-false _ _ shallow))
                split.rows start)
              λ after _. tt

distribute-Blameless :
    (skills : Skills) (fuel depth : ℕ) (to : Credited) (state : Spread)
    → depth ≤ 33
    → 34 ≤ fuel + depth
    → Blameless (distribute skills fuel depth to state)
distribute-Blameless skills zero depth to state low high = absurd (omega arith)
distribute-Blameless skills (suc fuel) depth to state low high =
    distribute_step skills fuel depth to state
      λ shallow p s. distribute-Blameless skills fuel (depth + 1) p s (omega arith) (omega arith)

-- Whatever the input, the allocation of a Royalty pool gives a result or rejects the input: the
-- recursion ends within its fuel, and neither the check of a remainder nor
-- the one of the credits fails.
pub allocate_royalty_graph-Blameless :
    (pool : Value) (leaf : JsString) (skills : Skills) (policy : JsString)
    → Blameless (allocate_royalty_graph pool leaf skills policy)
allocate_royalty_graph-Blameless pool leaf skills policy =
    unfold allocate_royalty_graph in
    bind-Blameless (assert_atomic pool) _ (assert_atomic-Blameless pool) λ a _.
      guard-Blameless (not (text_eq policy royalty_allocation_policy)) allocation_policy_unsupported
        _ refl
        λ _.
          bind-Blameless (validate_reachable skills ancestry_fuel 0 leaf no_visits) _
            (validate_reachable-Blameless skills ancestry_fuel 0 leaf no_visits (omega arith)
              (omega arith))
            λ checked _.
              bind-Blameless (distribute skills ancestry_fuel 0 (start_credit leaf a) no_credits) _
                (distribute-Blameless skills ancestry_fuel 0 (start_credit leaf a) no_credits
                  (omega arith) (omega arith))
                λ spread done. ground (
                  arith,
                  distribute_total skills ancestry_fuel 0 (start_credit leaf a) no_credits spread
                      done,
                )
