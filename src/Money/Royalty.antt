-- ===== src/Money/Royalty.antt =====
-- prototype/atomic-money.mjs: `allocateRoyaltyGraph`, the flow of a Royalty pool through the
-- ancestry of a Skill. The maps and sets of its closures are an explicit state; the recursion over
-- the ancestry takes fuel, which the depth limit bounds.
pub mod Conserves
pub mod Total
pub mod Flow
use Prim.Native.Nat.{zero, suc}
use skill_asset_protocol.Base.{
  ℕ, ◌+◌, ◌-◌, List, [], ◌∷◌, ◌++◌, map, Bool, true, false, not, ◌&&◌, ◌||◌, Option, none, some,
  Value, bigint, number, pos, JsString, js, text_eq, includes, distinct, null, length, select,
  sum_by, sort_by, ltb, leb, ◌==◌, if◌then◌else◌, Result, ok, err, ◌>>=◌, ◌>>◌, fail_if,
}
use skill_asset_protocol.Money.Input.{
  MoneyError, allocation_policy_unsupported, skill_unknown, parent_duplicate, ancestry_depth,
  ancestry_cycle, ancestry_nodes, ancestry_visits, credits_not_pool, out_of_fuel, assert_atomic,
  assert_bps, floor_bps,
}
use skill_asset_protocol.Money.Weights.{
  Share, BpsShare, Credited, allocate_by_weights, allocate_by_bps,
}

abbrev pub royalty_allocation_policy : JsString
royalty_allocation_policy = js "lrp-per-hop-v1"

abbrev pub max_ancestry_depth : ℕ
max_ancestry_depth = 32

abbrev pub max_reachable_skills : ℕ
max_reachable_skills = 128

abbrev pub max_distribution_visits : ℕ
max_distribution_visits = 1024

-- One level more than the depth limit lets through.
abbrev pub ancestry_fuel : ℕ
ancestry_fuel = 34

pub record Skill : Type 0 where
  pub parent_ids : List JsString
  pub inherit_bps : Value
  pub holders : List BpsShare

-- An object keyed by Skill identifier.
abbrev pub Skills : Type 0
Skills = List (JsString × Skill)

unfoldable pub require_skill : Skills → JsString → Result MoneyError Skill
require_skill [] id = err skill_unknown
require_skill ((key, skill) ∷ skills) id =
    if text_eq key id then ok skill else require_skill skills id

abbrev pub sort_text : List JsString → List JsString
sort_text = sort_by (λ s. s)

unfoldable pub normalized_node : Skills → JsString → Result MoneyError Skill
normalized_node skills id = do
  skill ← require_skill skills id
  let parents = sort_text skill.parent_ids
  fail_if (not (distinct parents)) parent_duplicate
  _ ← assert_bps skill.inherit_bps
  _ ← allocate_by_bps (bigint (pos 0)) skill.holders
  ok (record skill { parent_ids = parents })

-- `set.delete(id)` and `set.add(id)`
abbrev pub without : JsString → List JsString → List JsString
without id = select (λ s. not (text_eq s id))

abbrev pub with_member : JsString → List JsString → List JsString
with_member id set = if includes id set then set else id ∷ set

-- `for (const item of items) visit(item)`
unfoldable pub each {ℓ κ} :
    {A : Type ℓ} {S : Type κ} → (A → S → Result MoneyError S) → List A → S → Result MoneyError S
each visit [] state = ok state
each visit (x ∷ xs) state = visit x state >>= each visit xs

-- What `validateReachable` keeps between its calls.
pub record Visits : Type 0 where
  pub deepest : List (JsString × ℕ)
  pub validating : List JsString
  pub reachable : List JsString

unfoldable pub deepest_depth : JsString → List (JsString × ℕ) → Option ℕ
deepest_depth id [] = none
deepest_depth id ((key, depth) ∷ rest) =
    if text_eq key id then some depth else deepest_depth id rest

-- `priorDepth != null && priorDepth >= depth`
abbrev pub covers : Option ℕ → ℕ → Bool
covers none depth = false
covers (some prior) depth = leb depth prior

-- The depth that is stored: the deeper of the two.
abbrev pub deeper : Option ℕ → ℕ → ℕ
deeper none depth = depth
deeper (some prior) depth = if ltb prior depth then depth else prior

module _ (skills : Skills) where
  unfoldable pub validate_reachable : ℕ → ℕ → JsString → Visits → Result MoneyError Visits
  validate_reachable zero depth id state = err out_of_fuel
  validate_reachable (suc fuel) depth id state = do
    fail_if (ltb max_ancestry_depth depth) ancestry_depth
    fail_if (includes id state.validating) ancestry_cycle
    let prior = deepest_depth id state.deepest
    let enter : Result MoneyError Visits = do
      node ← normalized_node skills id
      let reachable = with_member id state.reachable
      fail_if (ltb max_reachable_skills (length reachable)) ancestry_nodes
      after ←
          each (validate_reachable fuel (depth + 1)) node.parent_ids
            (record state { validating = id ∷ state.validating; reachable = reachable })
      ok (record after {
        validating = without id after.validating;
        deepest = (id, deeper prior depth) ∷ after.deepest;
      })
    if covers prior depth then ok state else enter

pub data CreditKind : Type 0 where
  holder ancestor : CreditKind

pub record Credit : Type 0 where
  pub recipient_id : JsString
  pub via_skill_id : JsString
  pub depth : ℕ
  pub kind : CreditKind
  pub amount : ℕ

-- What `distribute` keeps between its calls.
pub record Spread : Type 0 where
  pub credits : List Credit
  pub visiting : List JsString
  pub visits : ℕ

abbrev pub credit_of : JsString → ℕ → Credited → Credit
credit_of id depth row = record {
  recipient_id = row.key;
  via_skill_id = id;
  depth = depth;
  kind = if depth == 0 then holder else ancestor;
  amount = row.amount;
}

abbrev pub equal_share : JsString → Share
equal_share id = record { key = id; weight = number (pos 1) }

-- `node.parentIds.length ? floorBps(amountAtomic, node.inheritBps) : 0n`
unfoldable pub ancestor_pool_of : Skill → ℕ → Result MoneyError ℕ
ancestor_pool_of node amount =
    if null node.parent_ids then ok 0 else floor_bps (bigint (pos amount)) node.inherit_bps

-- The rows that go up: none without a parent or with nothing to pass on.
unfoldable pub parent_rows : Skill → ℕ → Result MoneyError (List Credited)
parent_rows node pool =
    if null node.parent_ids || pool == 0
    then ok []
    else allocate_by_weights (bigint (pos pool)) (map equal_share node.parent_ids)

-- What one visit of `distribute` splits its amount into.
pub record Hop : Type 0 where
  pub holder_rows : List Credited
  pub rows : List Credited

-- `ancestor_pool_of` never exceeds the amount, so the subtraction is exact.
unfoldable pub hop : Skills → Credited → Result MoneyError Hop
hop skills to = do
  node ← normalized_node skills to.key
  pool ← ancestor_pool_of node to.amount
  own_rows ← allocate_by_bps (bigint (pos (to.amount - pool))) node.holders
  up_rows ← parent_rows node pool
  ok (record { holder_rows = own_rows; rows = up_rows })

module _ (skills : Skills) where
  unfoldable pub distribute : ℕ → ℕ → Credited → Spread → Result MoneyError Spread
  distribute zero depth to state = err out_of_fuel
  distribute (suc fuel) depth to state = do
    let visits = state.visits + 1
    fail_if (ltb max_distribution_visits visits) ancestry_visits
    fail_if (ltb max_ancestry_depth depth) ancestry_depth
    fail_if (includes to.key state.visiting) ancestry_cycle
    split ← hop skills to
    after ← each (distribute fuel (depth + 1)) split.rows (record {
      credits = state.credits ++ map (credit_of to.key depth) split.holder_rows;
      visiting = to.key ∷ state.visiting;
      visits = visits;
    })
    ok (record after { visiting = without to.key after.visiting })

abbrev pub is_holder : Credit → Bool
is_holder c = elim c.kind [ holder ↦ true | ancestor ↦ false ]

pub record Royalty : Type 0 where
  pub allocation_policy : JsString
  pub royalty_pool : ℕ
  pub credits : List Credit
  pub holder_credits : List Credit
  pub ancestor_credits : List Credit

abbrev pub total_credits : List Credit → ℕ
total_credits = sum_by (λ c. c.amount)

-- The states and the amount that the two traversals start with.
abbrev pub no_visits : Visits
no_visits = record { deepest = []; validating = []; reachable = [] }

abbrev pub no_credits : Spread
no_credits = record { credits = []; visiting = []; visits = 0 }

abbrev pub start_credit : JsString → ℕ → Credited
start_credit leaf pool = record { key = leaf; amount = pool }

unfoldable pub allocate_royalty_graph :
    Value → JsString → Skills → JsString → Result MoneyError Royalty
allocate_royalty_graph royalty_pool leaf skills policy = do
  pool ← assert_atomic royalty_pool
  fail_if (not (text_eq policy royalty_allocation_policy)) allocation_policy_unsupported
  _ ← validate_reachable skills ancestry_fuel 0 leaf no_visits
  spread ← distribute skills ancestry_fuel 0 (start_credit leaf pool) no_credits
  fail_if (not (total_credits spread.credits == pool)) credits_not_pool
  ok (record {
    allocation_policy = policy;
    royalty_pool = pool;
    credits = spread.credits;
    holder_credits = select is_holder spread.credits;
    ancestor_credits = select (λ c. not (is_holder c)) spread.credits;
  })
