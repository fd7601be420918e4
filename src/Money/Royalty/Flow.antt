-- ===== src/Money/Royalty/Flow.antt =====
-- prototype/atomic-money.mjs: how `allocateRoyaltyGraph` lets the pool flow through the ancestry,
-- described without its loops and states.
pub mod Hops
pub mod Credits
use Prim.Native.Nat.{zero, suc}
use mathlib.Core.List.{append-nil, append_assoc}
use skill_asset_protocol.Base.{
  ℕ, ◌+◌, ◌-◌, ◌*◌, ◌/◌, ◌≤◌, ◌<◌, List, [], ◌∷◌, ◌++◌, map, ◌≡◌, ◌⊎◌, ◌∙◌, refl, sym, ap,
  ok-injective, subst, Value, number, bigint, pos, sort_by, length, null, select, not, Bool, Result,
  ok, arith, Result-cases, Bool-cases, bind-ok, inl, inr, JsString, ◌==◌,
}
use skill_asset_protocol.Money.Input.{
  MoneyError, floor_bps, assert_atomic, assert_bps, weight_to_bigint,
}
use skill_asset_protocol.Money.Weights.{
  Row, Credited, read_rows, allocate_by_weights, allocate_by_bps,
}
use skill_asset_protocol.Money.Weights.Fair.{AllFair, row_weights, credited}
use skill_asset_protocol.Money.Weights.Bps.{
  AllRead, allocate_by_bps_splits, allocate_by_weights-eq-ok, assert_bps-eq-ok,
}
use skill_asset_protocol.Money.Royalty.{
  Skill, Skills, Hop, hop, normalized_node, each, Spread, Credit, credit_of, equal_share,
  ancestor_pool_of, parent_rows, distribute, is_holder, Royalty, total_credits,
  allocate_royalty_graph, validate_reachable, ancestry_fuel, no_visits, no_credits, start_credit,
  max_ancestry_depth,
}
use skill_asset_protocol.Money.Royalty.Conserves.{
  distribute-IsVisit, entered, hop_splits, allocate_royalty_graph_conserves,
}

abbrev pub by_key : List Row → List Row
by_key = sort_by (λ r. r.key)

-- Every parent has the same weight.
abbrev pub unit_row : JsString → Row
unit_row id = record { key = id; weight = 1 }

-- The part of an amount that goes up: nothing without a parent, else the rounded-down share of the
-- basis points that the Skill inherits.
abbrev pub IsInherited : Skill → ℕ → ℕ → Type 0
IsInherited node amount up =
    ((node.parent_ids ≡ []) × (up ≡ 0))
    ⊎ ((bps : ℕ) × (node.inherit_bps ≡ number (pos bps))
        × (bps ≤ 10_000)
        × (up * 10_000 ≤ amount * bps)
        × (amount * bps < up * 10_000 + 10_000))

-- What the Skill of a visit passes on and keeps: the parents have equal parts of what goes up, or
-- none where it is nothing, and the holders share the rest by their basis points, each to a unit.
pub record IsFairHop (skills : Skills) (to : Credited) (split : Hop) : Type 0 where
  pub node : Skill
  pub holder_weights : List Row
  pub known : normalized_node skills to.key ≡ ok node
  pub inherited : IsInherited node to.amount (credited split.rows)
  pub parents :
      ((split.rows ≡ []) × (credited split.rows ≡ 0))
      ⊎ AllFair
          (credited split.rows)
          (length node.parent_ids)
          (by_key (map unit_row node.parent_ids))
          split.rows
  pub kept : credited split.holder_rows + credited split.rows ≡ to.amount
  pub read : AllRead node.holders holder_weights
  pub full : row_weights holder_weights ≡ 10_000
  pub holders :
      AllFair (credited split.holder_rows) 10_000 (by_key holder_weights) split.holder_rows

mutual
  -- The credits of an amount that reaches a Skill: those of its holders, and then those of what
  -- each parent gets, one level deeper.
  pub data Flow (skills : Skills) : ℕ → Credited → List Credit → Type 0 where
    flow :
        {depth : ℕ} {to : Credited} {credits up : List Credit} (split : Hop)
        → IsFairHop skills to split
        → depth ≤ max_ancestry_depth
        → Flows skills (depth + 1) split.rows up
        → credits ≡ map (credit_of to.key depth) split.holder_rows ++ up
        → Flow skills depth to credits

  pub data Flows (skills : Skills) : ℕ → List Credited → List Credit → Type 0 where
    nowhere : {depth : ℕ} → Flows skills depth [] []
    onward :
        {depth : ℕ} {to : Credited} {others : List Credited} {first rest credits : List Credit}
        → Flow skills depth to first
        → Flows skills depth others rest
        → credits ≡ first ++ rest
        → Flows skills depth (to ∷ others) credits

-- The credits of the leaf itself
abbrev pub at_leaf : Credit → Bool
at_leaf c = c.depth == 0
