-- ===== src/Money/Gross/Balance.antt =====
-- The journal of an allocation balances its gross, and the validation of a journal is exact.
use skill_asset_protocol.Base.{
  ℕ, ◌+◌, List, [], ◌∷◌, map, ◌≡◌, ◌≢◌, ◌↔◌, refl, sum_by, arith, ok, Result-cases, inl, inr, Value,
  bigint, pos, JsString, text_eq→eq, text_eq_refl, text_eq_iff, Option, some, true,
}
use skill_asset_protocol.Money.Input.{assert_atomic, floor_bps}
use skill_asset_protocol.Money.Royalty.{Skills, Credit, total_credits, allocate_royalty_graph}
use skill_asset_protocol.Money.Royalty.Conserves.{allocate_royalty_graph_conserves}
use skill_asset_protocol.Money.Gross.{
  JournalEntry, total_amounts, require_covered_gross, journal_entry, royalty_entry, ExternalInput,
  ExternalAllocation, allocate_external_gross, InternalInput, InternalAllocation,
  allocate_internal_gross, internal_entries, same_internal_journal_entry, same_journal,
  validate_internal_journal_entries, expected_entries, JournalInput,
}

abbrev pub posted : List JournalEntry → ℕ
posted = sum_by (λ e. e.amount)

same_journal→eq :
    (actual expected : List JournalEntry) → same_journal actual expected ≡ true → actual ≡ expected
unfolding same_journal same_internal_journal_entry
same_journal→eq [] [] h = refl
same_journal→eq [] (e ∷ es) h = cc
same_journal→eq (a ∷ as') [] h = cc
same_journal→eq (a ∷ as') (e ∷ es) h = ground (
  arith,
  text_eq→eq a.category e.category,
  text_eq→eq a.debit_account_id e.debit_account_id,
  text_eq→eq a.credit_account_id e.credit_account_id,
  same_journal→eq as' es,
)

same_journal_refl : (es : List JournalEntry) → same_journal es es ≡ true
unfolding same_journal same_internal_journal_entry
same_journal_refl [] = refl
same_journal_refl (e ∷ es) = ground (
  arith,
  text_eq_refl e.category,
  text_eq_refl e.debit_account_id,
  text_eq_refl e.credit_account_id,
  same_journal_refl es,
)

require_covered_gross_pool :
    (gross : ℕ) (components : List ℕ) {pool : ℕ}
    → require_covered_gross gross components ≡ ok pool
    → total_amounts components + pool ≡ gross
unfolding require_covered_gross
require_covered_gross_pool gross components e = ground arith

posted-royalty_entry : (cs : List Credit) → posted (map royalty_entry cs) ≡ total_credits cs
unfolding journal_entry
posted-royalty_entry [] = refl
posted-royalty_entry (c ∷ cs) = omega (arith, posted-royalty_entry cs)

-- The arguments of an external split, with amounts that are nonnegative bigints.
abbrev pub external :
    (gross execution settlement reserve : ℕ) (bps : Value) (leaf : JsString) (skills : Skills)
    (policy : JsString)
    → ExternalInput
external gross execution settlement reserve bps leaf skills policy = record {
  gross = bigint (pos gross);
  execution_cost = bigint (pos execution);
  settlement_cost = bigint (pos settlement);
  protocol_fee_bps = bps;
  refund_reserve = bigint (pos reserve);
  leaf_skill_id = leaf;
  skills = skills;
  allocation_policy = policy;
}

-- An accepted external split spends the gross exactly: costs, fee, reserve and Royalty credits add up
-- to it, the fee is the rounded-down share of the gross, and so do the entries of the journal.
pub allocate_external_gross_balances :
    (gross execution settlement reserve : ℕ) (bps : Value) (leaf : JsString) (skills : Skills)
    (policy : JsString) {a : ExternalAllocation}
    → allocate_external_gross (external gross execution settlement reserve bps leaf skills policy)
      ≡ ok a
    → (execution + settlement + a.protocol_fee + reserve + total_credits a.credits ≡ gross)
      × (floor_bps (bigint (pos gross)) bps ≡ ok a.protocol_fee)
      × (posted a.journal_entries ≡ gross)
unfolding allocate_external_gross assert_atomic journal_entry
allocate_external_gross_balances gross execution settlement reserve bps leaf skills policy {a} e =
    elim (Result-cases (floor_bps (bigint (pos gross)) bps)) [
      | inr (code, failed) ↦ absurd (ground arith)
      | inl (fee, taken) ↦
          let components = execution ∷ settlement ∷ fee ∷ reserve ∷ [] in
          elim (Result-cases (require_covered_gross gross components)) [
            | inr (code, failed) ↦ absurd (ground arith)
            | inl (pool, covered) ↦
                elim (Result-cases
                  (allocate_royalty_graph (bigint (pos pool)) leaf skills policy)) [
                    | inr (code, failed) ↦ absurd (ground arith)
                    | inl (royalty, given) ↦ ground (
                      arith,
                      require_covered_gross_pool gross components covered,
                      allocate_royalty_graph_conserves pool leaf skills policy given,
                      posted-royalty_entry royalty.credits,
                    )
                  ]
          ]
    ]

abbrev pub internal :
    (gross execution fee reserve : ℕ) (recipient : JsString) (employer : Option JsString)
    → InternalInput
internal gross execution fee reserve recipient employer = record {
  gross = bigint (pos gross);
  execution_cost = bigint (pos execution);
  protocol_fee = bigint (pos fee);
  refund_reserve = bigint (pos reserve);
  recipient_id = recipient;
  employer_id = employer;
}

-- An accepted internal split awards what the costs leave to a named recipient other than the
-- employer, and its journal balances the gross.
pub allocate_internal_gross_balances :
    (gross execution fee reserve : ℕ) (recipient employer : JsString) {a : InternalAllocation}
    → allocate_internal_gross (internal gross execution fee reserve recipient (some employer))
      ≡ ok a
    → (execution + fee + reserve + a.invocation_award ≡ gross)
      × (posted a.journal_entries ≡ gross)
      × (a.award_recipient_id ≡ recipient)
      × (recipient ≢ employer)
      × (recipient ≢ [])
unfolding allocate_internal_gross assert_atomic require_covered_gross internal_entries journal_entry
allocate_internal_gross_balances gross execution fee reserve recipient employer {a} e =
    (ground arith, ground arith, ground arith, not_employer, named)
  where
    not_employer : recipient ≢ employer
    not_employer h = ground (arith, text_eq_iff recipient employer)

    named : recipient ≢ []
    named h = ground arith

-- The validation accepts exactly the journal that the allocation makes: an accepted journal is that
-- one, and that one is accepted.
pub validate_internal_journal_entries_iff :
    (input : JournalInput) (expected : List JournalEntry)
    → expected_entries input.kind input.allocation ≡ ok expected
    → (validate_internal_journal_entries input ≡ ok input.journal_entries)
      ↔ (input.journal_entries ≡ expected)
unfolding validate_internal_journal_entries
validate_internal_journal_entries_iff input expected e = (
  λ h. ground (arith, same_journal→eq input.journal_entries expected),
  λ h. ground (arith, same_journal_refl expected),
)
