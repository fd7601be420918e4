-- ===== src/Money/Gross.antt =====
-- prototype/atomic-money.mjs: `allocateExternalGross`, `allocateInternalGross`,
-- `allocateInternalFailureGross` and `validateInternalJournalEntries`.
pub mod Balance
use skill_asset_protocol.Base.{
  ℕ, ◌+◌, ◌-◌, List, [], ◌∷◌, ◌++◌, map, Bool, true, false, not, ◌&&◌, Option, none, some, Value,
  bigint, pos, JsString, js, text_eq, null, sum_by, ltb, ◌==◌, if◌then◌else◌, Result, ok, err,
  ◌>>=◌, ◌>>◌, fail_if,
}
use skill_asset_protocol.Money.Input.{
  MoneyError, gross_insufficient, recipient_required, employer_award_recipient,
  internal_journal_gross, internal_journal_kind, internal_journal_mismatch, assert_atomic,
  floor_bps,
}
use skill_asset_protocol.Money.Royalty.{Skills, Credit, is_holder, Royalty, allocate_royalty_graph}

pub record JournalEntry : Type 0 where
  pub category : JsString
  pub debit_account_id : JsString
  pub credit_account_id : JsString
  pub amount : ℕ

abbrev pub total_amounts : List ℕ → ℕ
total_amounts = sum_by (λ n. n)

unfoldable pub require_covered_gross : ℕ → List ℕ → Result MoneyError ℕ
require_covered_gross gross components =
    let required = total_amounts components in
    if ltb gross required then err gross_insufficient else ok (gross - required)

unfoldable pub journal_entry : JsString → JsString → JsString → ℕ → JournalEntry
journal_entry category debit credit amount = record {
  category = category;
  debit_account_id = debit;
  credit_account_id = credit;
  amount = amount;
}

abbrev pub external_account : JsString
external_account = js "wielder:external-gross"

abbrev pub internal_account : JsString
internal_account = js "employer:invocation-gross"

abbrev pub royalty_entry : Credit → JournalEntry
royalty_entry c =
    journal_entry (if is_holder c then js "royalty-holder" else js "royalty-ancestor")
      external_account (js "royalty:" ++ c.recipient_id) c.amount

pub record ExternalInput : Type 0 where
  pub gross : Value
  pub execution_cost : Value
  pub settlement_cost : Value
  pub protocol_fee_bps : Value
  pub refund_reserve : Value
  pub leaf_skill_id : JsString
  pub skills : Skills
  pub allocation_policy : JsString

pub record ExternalAllocation : Type 0 where
  pub allocation_policy : JsString
  pub gross : ℕ
  pub execution_cost : ℕ
  pub settlement_cost : ℕ
  pub protocol_fee : ℕ
  pub royalty_pool : ℕ
  pub refund_reserve : ℕ
  pub credits : List Credit
  pub holder_credits : List Credit
  pub ancestor_credits : List Credit
  pub journal_entries : List JournalEntry

unfoldable pub allocate_external_gross : ExternalInput → Result MoneyError ExternalAllocation
allocate_external_gross input = do
  gross ← assert_atomic input.gross
  execution_cost ← assert_atomic input.execution_cost
  settlement_cost ← assert_atomic input.settlement_cost
  refund_reserve ← assert_atomic input.refund_reserve
  protocol_fee ← floor_bps input.gross input.protocol_fee_bps
  pool ←
      require_covered_gross gross
        (execution_cost ∷ settlement_cost ∷ protocol_fee ∷ refund_reserve ∷ [])
  royalty ←
      allocate_royalty_graph (bigint (pos pool)) input.leaf_skill_id input.skills
        input.allocation_policy
  ok (record {
    allocation_policy = royalty.allocation_policy;
    gross = gross;
    execution_cost = execution_cost;
    settlement_cost = settlement_cost;
    protocol_fee = protocol_fee;
    royalty_pool = pool;
    refund_reserve = refund_reserve;
    credits = royalty.credits;
    holder_credits = royalty.holder_credits;
    ancestor_credits = royalty.ancestor_credits;
    journal_entries =
        journal_entry (js "execution-cogs") external_account (js "provider:execution")
          execution_cost
        ∷ journal_entry (js "settlement-cogs") external_account (js "provider:settlement")
            settlement_cost
        ∷ journal_entry (js "protocol-fee") external_account (js "protocol:treasury") protocol_fee
        ∷ journal_entry (js "refund-reserve") external_account (js "reserve:refund") refund_reserve
        ∷ map royalty_entry royalty.credits;
  })

pub record InternalInput : Type 0 where
  pub gross : Value
  pub execution_cost : Value
  pub protocol_fee : Value
  pub refund_reserve : Value
  pub recipient_id : JsString
  pub employer_id : Option JsString

pub record InternalAllocation : Type 0 where
  pub gross : ℕ
  pub execution_cost : ℕ
  pub protocol_fee : ℕ
  pub refund_reserve : ℕ
  pub invocation_award : ℕ
  pub award_recipient_id : JsString
  pub journal_entries : List JournalEntry

-- `employerId != null && recipient === String(employerId)`
abbrev pub is_employer : JsString → Option JsString → Bool
is_employer recipient none = false
is_employer recipient (some employer) = text_eq recipient employer

unfoldable pub internal_entries : ℕ → ℕ → ℕ → JsString → ℕ → List JournalEntry
internal_entries execution_cost protocol_fee refund_reserve recipient award =
    journal_entry (js "execution-cogs") internal_account (js "provider:execution") execution_cost
    ∷ journal_entry (js "protocol-fee") internal_account (js "protocol:treasury") protocol_fee
    ∷ journal_entry (js "refund-reserve") internal_account (js "reserve:refund") refund_reserve
    ∷ journal_entry (js "invocation-award") internal_account (js "employee:" ++ recipient) award
    ∷ []

unfoldable pub allocate_internal_gross : InternalInput → Result MoneyError InternalAllocation
allocate_internal_gross input = do
  gross ← assert_atomic input.gross
  execution_cost ← assert_atomic input.execution_cost
  protocol_fee ← assert_atomic input.protocol_fee
  refund_reserve ← assert_atomic input.refund_reserve
  award ← require_covered_gross gross (execution_cost ∷ protocol_fee ∷ refund_reserve ∷ [])
  fail_if (null input.recipient_id) recipient_required
  fail_if (is_employer input.recipient_id input.employer_id) employer_award_recipient
  ok (record {
    gross = gross;
    execution_cost = execution_cost;
    protocol_fee = protocol_fee;
    refund_reserve = refund_reserve;
    invocation_award = award;
    award_recipient_id = input.recipient_id;
    journal_entries =
        internal_entries execution_cost protocol_fee refund_reserve input.recipient_id award;
  })

pub record FailureAllocation : Type 0 where
  pub gross : ℕ
  pub execution_cost : ℕ
  pub journal_entries : List JournalEntry

unfoldable pub allocate_internal_failure_gross : Value → Result MoneyError FailureAllocation
allocate_internal_failure_gross execution_cost = do
  cost ← assert_atomic execution_cost
  ok (record {
    gross = cost;
    execution_cost = cost;
    journal_entries =
        journal_entry (js "execution-cogs") internal_account (js "provider:execution") cost ∷ [];
  })

unfoldable pub same_internal_journal_entry : JournalEntry → JournalEntry → Bool
same_internal_journal_entry actual expected =
    text_eq actual.category expected.category
    && text_eq actual.debit_account_id expected.debit_account_id
    && text_eq actual.credit_account_id expected.credit_account_id
    && actual.amount == expected.amount

-- Equal lengths, and no index at which the entries differ.
unfoldable pub same_journal : List JournalEntry → List JournalEntry → Bool
same_journal [] [] = true
same_journal (a ∷ actual) (e ∷ expected) =
    same_internal_journal_entry a e && same_journal actual expected
same_journal _ _ = false

pub data JournalKind : Type 0 where
  succeeded failed_after_start unsupported : JournalKind

pub record JournalInput : Type 0 where
  pub kind : JournalKind
  pub allocation : InternalInput
  pub journal_entries : List JournalEntry

unfoldable pub expected_entries :
    JournalKind → InternalInput → Result MoneyError (List JournalEntry)
expected_entries succeeded input = do a ← allocate_internal_gross input; ok a.journal_entries
expected_entries failed_after_start input = do
  a ← allocate_internal_failure_gross input.execution_cost
  gross ← assert_atomic input.gross
  fail_if (not (gross == a.gross)) internal_journal_gross
  ok a.journal_entries
expected_entries unsupported input = err internal_journal_kind

unfoldable pub validate_internal_journal_entries :
    JournalInput → Result MoneyError (List JournalEntry)
validate_internal_journal_entries input = do
  expected ← expected_entries input.kind input.allocation
  fail_if (not (same_journal input.journal_entries expected)) internal_journal_mismatch
  ok input.journal_entries
