-- ===== src/Money/Tests.antt =====
-- Concrete runs of the money functions, and the theorems at concrete inputs.
use mathlib.Core.List.{Permᴰ}
use skill_asset_protocol.Base.{
  compare_text, text_lt, insert_by, text_eq, ℕ, ◌+◌, List, [], ◌∷◌, ◌≡◌, ◌≢◌, ◌↔◌, refl, Option,
  some, none, ok, err, Result, map, number, bigint, text, pos, JsString, js, arith, sort_by, select,
  not,
}
use skill_asset_protocol.Money.Input.{
  assert_bps, assert_atomic, weight_to_bigint, MoneyError, ancestry_cycle, remainder_not_exhausted,
  floor_bps,
}
use skill_asset_protocol.Money.Weights.{
  normalize_bps, hand_out, split_rows, Share, Row, Credited, BpsShare, read_rows,
  allocate_by_weights, allocate_by_bps,
}
use skill_asset_protocol.Money.Weights.Fair.{
  AllFair, row_weights, credited, allocate_by_weights_splits, allocate_by_weights_exhausts,
}
use skill_asset_protocol.Money.Weights.Bps.{
  AllRead, FreshKeys, allocate_by_bps_splits, allocate_by_bps_succeeds,
}
use skill_asset_protocol.Money.Weights.Order.{allocate_by_weights-perm}
use skill_asset_protocol.Money.Display.{parse_usdc, format_usdc}
use skill_asset_protocol.Money.Display.RoundTrip.{parse_usdc-format_usdc}
use skill_asset_protocol.Money.Royalty.{
  validate_reachable, deepest_depth, normalized_node, require_skill, ancestor_pool_of, distribute,
  each, hop, parent_rows, Skills, Credit, Royalty, allocate_royalty_graph,
  royalty_allocation_policy, total_credits, start_credit,
}
use skill_asset_protocol.Money.Royalty.Flow.{Flow, at_leaf}
use skill_asset_protocol.Money.Royalty.Flow.Credits.{allocate_royalty_graph-Flow}
use skill_asset_protocol.Money.Royalty.Total.{Blameless, allocate_royalty_graph-Blameless}
use skill_asset_protocol.Money.Gross.{
  require_covered_gross, journal_entry, JournalInput, succeeded, ExternalAllocation,
  allocate_external_gross, InternalAllocation, allocate_internal_gross, internal_entries,
  expected_entries, validate_internal_journal_entries,
}
use skill_asset_protocol.Money.Gross.Balance.{
  posted, external, internal, allocate_external_gross_balances, allocate_internal_gross_balances,
  validate_internal_journal_entries_iff,
}

abbrev share : JsString → ℕ → Share
share key weight = record { key = key; weight = number (pos weight) }

abbrev row : JsString → ℕ → Row
row key weight = record { key = key; weight = weight }

abbrev pay : JsString → ℕ → Credited
pay key amount = record { key = key; amount = amount }

abbrev three : List Share
three = share (js "b") 1 ∷ share (js "a") 1 ∷ share (js "c") 1 ∷ []

abbrev three_swapped : List Share
three_swapped = share (js "a") 1 ∷ share (js "b") 1 ∷ share (js "c") 1 ∷ []

abbrev three_rows : List Row
three_rows = row (js "b") 1 ∷ row (js "a") 1 ∷ row (js "c") 1 ∷ []

three-read_rows : read_rows [] three ≡ ok three_rows
unfolding read_rows weight_to_bigint text_eq
three-read_rows = refl

-- The remainder goes to the first key in order.
three-allocate_by_weights :
    allocate_by_weights (bigint (pos 10)) three
    ≡ ok (pay (js "a") 4 ∷ pay (js "b") 3 ∷ pay (js "c") 3 ∷ [])
unfolding allocate_by_weights assert_atomic read_rows weight_to_bigint text_eq split_rows sort_by
    insert_by text_lt compare_text hand_out
three-allocate_by_weights = refl

allocate_by_weights_splits_example :
    (out : List Credited) × (allocate_by_weights (bigint (pos 10)) three ≡ ok out)
    × (credited out ≡ 10)
    × AllFair 10 (row_weights three_rows) (sort_by (λ (r : Row). r.key) three_rows) out
allocate_by_weights_splits_example =
    allocate_by_weights_splits 10 three three_rows three-read_rows (omega arith)

allocate_by_weights_exhausts_example :
    allocate_by_weights (bigint (pos 10)) three ≢ err remainder_not_exhausted
allocate_by_weights_exhausts_example = allocate_by_weights_exhausts (bigint (pos 10)) three

allocate_by_weights-perm_example :
    allocate_by_weights (bigint (pos 10)) three_swapped
    ≡ ok (pay (js "a") 4 ∷ pay (js "b") 3 ∷ pay (js "c") 3 ∷ [])
allocate_by_weights-perm_example =
    allocate_by_weights-perm (bigint (pos 10)) three three_swapped (Permᴰ.swap refl refl)
      three-allocate_by_weights

parse_usdc-format_usdc_example :
    (s : JsString) × (format_usdc (bigint (pos 1_050_000)) ≡ ok s)
    × (parse_usdc (text s) ≡ ok 1_050_000)
parse_usdc-format_usdc_example = parse_usdc-format_usdc 1_050_000

abbrev whole_to : JsString → List BpsShare
whole_to key = record { key = key; bps = number (pos 10_000) } ∷ []

abbrev halves : List BpsShare
halves =
    record { key = js "ann"; bps = number (pos 5_000) }
    ∷ record { key = js "bob"; bps = number (pos 5_000) }
    ∷ []

halves-allocate_by_bps :
    allocate_by_bps (bigint (pos 9)) halves ≡ ok (pay (js "ann") 5 ∷ pay (js "bob") 4 ∷ [])
unfolding allocate_by_bps allocate_by_weights normalize_bps assert_bps assert_atomic read_rows
    weight_to_bigint text_eq split_rows sort_by insert_by text_lt compare_text hand_out
halves-allocate_by_bps = refl

allocate_by_bps_splits_example :
    (rows : List Row) × AllRead halves rows
    × (row_weights rows ≡ 10_000)
    × (credited (pay (js "ann") 5 ∷ pay (js "bob") 4 ∷ []) ≡ 9)
    × AllFair 9 10_000
        (sort_by (λ (r : Row). r.key) rows)
        (pay (js "ann") 5 ∷ pay (js "bob") 4 ∷ [])
allocate_by_bps_splits_example = allocate_by_bps_splits 9 halves halves-allocate_by_bps

halves-AllRead : AllRead halves (row (js "ann") 5_000 ∷ row (js "bob") 5_000 ∷ [])
halves-AllRead = ((refl, refl, omega arith), ((refl, refl, omega arith), tt))

halves-FreshKeys : FreshKeys [] halves
unfolding text_eq
halves-FreshKeys = (refl, refl, (refl, refl, tt))

allocate_by_bps_succeeds_example :
    (out : List Credited) × (allocate_by_bps (bigint (pos 9)) halves ≡ ok out)
allocate_by_bps_succeeds_example =
    allocate_by_bps_succeeds 9 halves (row (js "ann") 5_000 ∷ row (js "bob") 5_000 ∷ [])
      halves-AllRead refl halves-FreshKeys

-- A Skill that passes a fifth of its pool on to its one parent.
abbrev family : Skills
family =
    (
      js "leaf",
      record { parent_ids = js "root" ∷ []; inherit_bps = number (pos 2_000); holders = halves },
    )
    ∷ (
      js "root",
      record { parent_ids = []; inherit_bps = number (pos 0); holders = whole_to (js "cy") },
    )
    ∷ []

abbrev family_royalty : Result MoneyError Royalty
family_royalty =
    allocate_royalty_graph (bigint (pos 100)) (js "leaf") family royalty_allocation_policy

-- The value of a run that is known to succeed.
value_of {ℓ κ} : {E : Type 0} {A : Type ℓ} {B : Type κ} → (A → B) → Result E A → Option B
value_of f (ok a) = some (f a)
value_of f (err e) = none

family_amounts :
    value_of (λ (r : Royalty). map (λ (c : Credit). c.amount) r.credits) family_royalty
    ≡ some (40 ∷ 40 ∷ 20 ∷ [])
unfolding value_of allocate_royalty_graph assert_atomic text_eq validate_reachable deepest_depth
    normalized_node require_skill sort_by insert_by assert_bps allocate_by_bps normalize_bps
    allocate_by_weights read_rows weight_to_bigint split_rows text_lt compare_text floor_bps
    ancestor_pool_of distribute each hop parent_rows hand_out
family_amounts = refl

or_else {ℓ} : {E : Type 0} {A : Type ℓ} → A → Result E A → A
or_else d (ok a) = a
or_else d (err e) = d

abbrev no_royalty : Royalty
no_royalty = record {
  allocation_policy = [];
  royalty_pool = 0;
  credits = [];
  holder_credits = [];
  ancestor_credits = [];
}

family_royalty-ok : family_royalty ≡ ok (or_else no_royalty family_royalty)
unfolding or_else allocate_royalty_graph assert_atomic text_eq validate_reachable deepest_depth
    normalized_node require_skill sort_by insert_by assert_bps allocate_by_bps normalize_bps
    allocate_by_weights read_rows weight_to_bigint split_rows text_lt compare_text floor_bps
    ancestor_pool_of distribute each hop parent_rows hand_out
family_royalty-ok = refl

allocate_royalty_graph-Flow_example :
    let r = or_else no_royalty family_royalty in
    Flow family 0 (start_credit (js "leaf") 100) r.credits
    × (r.royalty_pool ≡ 100)
    × (total_credits r.credits ≡ 100)
    × (r.holder_credits ≡ select at_leaf r.credits)
    × (r.ancestor_credits ≡ select (λ c. not (at_leaf c)) r.credits)
allocate_royalty_graph-Flow_example =
    allocate_royalty_graph-Flow 100 (js "leaf") family royalty_allocation_policy family_royalty-ok

-- A Skill that is its own ancestor is refused.
abbrev cyclic : Skills
cyclic =
    (
      js "loop",
      record { parent_ids = js "loop" ∷ []; inherit_bps = number (pos 1); holders = halves },
    )
    ∷ []

cyclic-refused :
    allocate_royalty_graph (bigint (pos 100)) (js "loop") cyclic royalty_allocation_policy
    ≡ err ancestry_cycle
unfolding allocate_royalty_graph assert_atomic text_eq validate_reachable deepest_depth
    normalized_node require_skill sort_by insert_by assert_bps allocate_by_bps normalize_bps
    allocate_by_weights read_rows weight_to_bigint split_rows text_lt compare_text floor_bps
    ancestor_pool_of distribute each hop parent_rows hand_out
cyclic-refused = refl

allocate_royalty_graph-Blameless_example :
    Blameless
      (allocate_royalty_graph (bigint (pos 100)) (js "loop") cyclic royalty_allocation_policy)
allocate_royalty_graph-Blameless_example =
    allocate_royalty_graph-Blameless (bigint (pos 100)) (js "loop") cyclic royalty_allocation_policy

abbrev sale : Result MoneyError ExternalAllocation
sale =
    allocate_external_gross
      (external 1_000 300 20 50 (number (pos 500)) (js "leaf") family royalty_allocation_policy)

abbrev no_sale : ExternalAllocation
no_sale = record {
  allocation_policy = [];
  gross = 0;
  execution_cost = 0;
  settlement_cost = 0;
  protocol_fee = 0;
  royalty_pool = 0;
  refund_reserve = 0;
  credits = [];
  holder_credits = [];
  ancestor_credits = [];
  journal_entries = [];
}

sale-ok : sale ≡ ok (or_else no_sale sale)
unfolding or_else allocate_external_gross require_covered_gross journal_entry allocate_royalty_graph
    assert_atomic text_eq validate_reachable deepest_depth normalized_node require_skill sort_by
    insert_by assert_bps allocate_by_bps normalize_bps allocate_by_weights read_rows
    weight_to_bigint split_rows text_lt compare_text floor_bps ancestor_pool_of distribute each hop
    parent_rows hand_out
sale-ok = refl

allocate_external_gross_balances_example :
    let a = or_else no_sale sale in
    (300 + 20 + a.protocol_fee + 50 + total_credits a.credits ≡ 1_000)
    × (floor_bps (bigint (pos 1_000)) (number (pos 500)) ≡ ok a.protocol_fee)
    × (posted a.journal_entries ≡ 1_000)
allocate_external_gross_balances_example =
    allocate_external_gross_balances 1_000 300 20 50 (number (pos 500)) (js "leaf") family
      royalty_allocation_policy sale-ok

abbrev award : Result MoneyError InternalAllocation
award = allocate_internal_gross (internal 100 60 5 10 (js "ann") (some (js "acme")))

abbrev no_award : InternalAllocation
no_award = record {
  gross = 0;
  execution_cost = 0;
  protocol_fee = 0;
  refund_reserve = 0;
  invocation_award = 0;
  award_recipient_id = [];
  journal_entries = [];
}

award-ok : award ≡ ok (or_else no_award award)
unfolding or_else allocate_internal_gross assert_atomic require_covered_gross text_eq
award-ok = refl

allocate_internal_gross_balances_example :
    let a = or_else no_award award in
    (60 + 5 + 10 + a.invocation_award ≡ 100)
    × (posted a.journal_entries ≡ 100)
    × (a.award_recipient_id ≡ js "ann")
    × (js "ann" ≢ js "acme")
    × (js "ann" ≢ [])
allocate_internal_gross_balances_example =
    allocate_internal_gross_balances 100 60 5 10 (js "ann") (js "acme") award-ok

-- The journal of that award, presented without its last entry.
abbrev short_journal : JournalInput
short_journal = record {
  kind = succeeded;
  allocation = internal 100 60 5 10 (js "ann") (some (js "acme"));
  journal_entries = [];
}

award_entries :
    expected_entries succeeded (internal 100 60 5 10 (js "ann") (some (js "acme")))
    ≡ ok (internal_entries 60 5 10 (js "ann") 25)
unfolding expected_entries allocate_internal_gross assert_atomic require_covered_gross text_eq
award_entries = refl

validate_internal_journal_entries_iff_example :
    (validate_internal_journal_entries short_journal ≡ ok [])
    ↔ ([] ≡ internal_entries 60 5 10 (js "ann") 25)
validate_internal_journal_entries_iff_example =
    validate_internal_journal_entries_iff short_journal (internal_entries 60 5 10 (js "ann") 25)
      award_entries
