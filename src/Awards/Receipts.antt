-- ===== src/Awards/Receipts.antt =====
-- spikes/internal-invocation-awards/src/statements.mjs: the receipt of an Invocation and what
-- `validateReceiptPayload` accepts. `sequence` is a positive safe integer.
pub mod Terminal
pub mod Build
pub mod Signed
pub mod Merkle
use skill_asset_protocol.Base.{
  ℕ, List, [], ◌∷◌, Bool, true, false, not, ◌||◌, Option, none, some, JsString, js, text_eq,
  text_lt, includes, ltb, ◌==◌, Result, ok, ◌>>=◌, ◌>>◌, fail_if, map_all,
}
use skill_asset_protocol.Money.Gross.{JournalEntry, internal_account}
use skill_asset_protocol.Kernel.Patterns.{hash_pattern}
use skill_asset_protocol.Kernel.Platform.{Platform}
use skill_asset_protocol.Awards.Errors.{
  AwardError, Calendar, safe_integer, scope_scale, hash_format, receipt_version, receipt_sequence,
  receipt_period, receipt_scope, receipt_settlement, receipt_credits, receipt_journal,
}
use skill_asset_protocol.Awards.Schema.{to_atomic, parse_utc, require_strings}
use skill_asset_protocol.Awards.Registration.{receipt_sequence_scope, period_parts}
use skill_asset_protocol.Awards.Budget.{ReservationState, first_chars}
use skill_asset_protocol.Awards.Budget.Authorized.{require_period}
use skill_asset_protocol.Awards.Outcome.{Member, member_text}
use skill_asset_protocol.Awards.Invocation.{InvocationState, AwardState, SerializedEntry}

pub record Receipt : Type 0 where
  pub schema_version : ℕ
  pub receipt_id : JsString
  pub sequence : ℕ
  pub receipt_sequence_scope : JsString
  pub receipt_type : JsString
  pub invocation_id : JsString
  pub reservation_id : JsString
  pub employer_id : JsString
  pub creator_id : JsString
  pub skill_id : JsString
  pub skill_version_hash : JsString
  pub skill_registration_id : JsString
  pub initiating_principal_id : JsString
  pub principal_attestation_id : JsString
  pub principal_attestation_hash : JsString
  pub policy_id : JsString
  pub policy_version : ℕ
  pub policy_hash : JsString
  pub budget_period : JsString
  pub period : JsString
  pub currency : JsString
  pub atomic_scale : ℕ
  pub invocation_state : InvocationState
  pub reservation_state : ReservationState
  pub execution_attempt_id : Option JsString
  pub reserved_atomic : JsString
  pub consumed_atomic : JsString
  pub released_atomic : JsString
  pub held_reservation_atomic : JsString
  pub execution_cost_status : Option JsString
  pub execution_cost_atomic : Option JsString
  pub output_hash : Option Member
  pub failure_class : Option JsString
  pub unresolved_reason : Option JsString
  pub protocol_fee_atomic : JsString
  pub refund_reserve_atomic : JsString
  pub invocation_award_atomic : JsString
  pub award_state : Option AwardState
  pub external_settlement_hash : Option JsString
  pub external_royalty_credits_atomic : JsString
  pub employer_self_credit_atomic : JsString
  pub journal_entries : List SerializedEntry
  pub occurred_at : JsString
  pub receipt_signer_id : JsString

pub record SignedReceipt : Type 0 where
  pub payload : Receipt
  pub signature : JsString

-- What a receipt says of the amount that was reserved.
pub record ReceiptAmounts : Type 0 where
  pub reserved_amount : ℕ
  pub consumed_amount : ℕ
  pub released_amount : ℕ
  pub held_amount : ℕ

-- `value === null`
abbrev pub is_none {ℓ} : {A : Type ℓ} → Option A → Bool
is_none none = true
is_none (some a) = false

-- `value === text`, and a test of a list of texts
abbrev pub is_text : JsString → Option JsString → Bool
is_text s none = false
is_text s (some t) = text_eq t s

abbrev pub is_one_of : List JsString → Option JsString → Bool
is_one_of ss none = false
is_one_of ss (some s) = includes s ss

-- `SHA256_PATTERN.test(outputHash)`
abbrev pub is_hash : Option Member → Bool
is_hash none = false
is_hash (some m) = hash_pattern (member_text m)

unfoldable pub journal_entry_of : SerializedEntry → Result AwardError JournalEntry
journal_entry_of x = do
  require_strings (x.category ∷ x.debit_account_id ∷ x.credit_account_id ∷ [])
  amount ← to_atomic x.amount_atomic
  fail_if (not (text_eq x.debit_account_id internal_account)) receipt_journal
  ok (record {
    category = x.category;
    debit_account_id = x.debit_account_id;
    credit_account_id = x.credit_account_id;
    amount = amount;
  })

-- `validateJournalEntries`, with the amounts as numbers
unfoldable pub validate_journal_entries :
    List SerializedEntry → Result AwardError (List JournalEntry)
validate_journal_entries = map_all journal_entry_of

unfoldable pub optional_atomic : Option JsString → Result AwardError (Unit {0})
optional_atomic none = ok tt
optional_atomic (some s) = do _ ← to_atomic s; ok tt

abbrev pub receipt_strings : Receipt → List JsString
receipt_strings x =
    x.receipt_id ∷ x.receipt_type ∷ x.invocation_id ∷ x.reservation_id ∷ x.employer_id
    ∷ x.creator_id ∷ x.skill_id ∷ x.skill_registration_id ∷ x.initiating_principal_id
    ∷ x.principal_attestation_id ∷ x.policy_id ∷ x.budget_period ∷ x.period ∷ x.currency
    ∷ x.receipt_signer_id ∷ x.receipt_sequence_scope ∷ []

-- The part on identity and time.
unfoldable pub validate_receipt_identity :
    Platform → Calendar → Receipt → Result AwardError (Unit {0})
validate_receipt_identity p calendar x = do
  fail_if (not (x.schema_version == 1)) receipt_version
  require_strings (receipt_strings x)
  fail_if (ltb x.sequence 1) receipt_sequence
  fail_if (ltb x.policy_version 1) safe_integer
  fail_if (ltb 18 x.atomic_scale) scope_scale
  require_period (period_parts x.period)
  require_period (period_parts x.budget_period)
  fail_if (text_lt x.period x.budget_period) receipt_period
  fail_if (not (hash_pattern x.skill_version_hash)) hash_format
  fail_if (not (hash_pattern x.policy_hash)) hash_format
  fail_if (not (hash_pattern x.principal_attestation_hash)) hash_format
  scope ← receipt_sequence_scope p x.employer_id x.creator_id x.currency x.atomic_scale
  fail_if (not (text_eq x.receipt_sequence_scope scope)) receipt_scope
  _ ← parse_utc calendar x.occurred_at
  fail_if (not (text_eq (first_chars 7 x.occurred_at) x.period)) receipt_period

-- The part on the amounts, and that nothing is settled or credited elsewhere.
unfoldable pub validate_receipt_amounts : Receipt → Result AwardError ReceiptAmounts
validate_receipt_amounts x = do
  reserved_amount ← to_atomic x.reserved_atomic
  consumed_amount ← to_atomic x.consumed_atomic
  released_amount ← to_atomic x.released_atomic
  held_amount ← to_atomic x.held_reservation_atomic
  _ ← to_atomic x.protocol_fee_atomic
  _ ← to_atomic x.refund_reserve_atomic
  _ ← to_atomic x.invocation_award_atomic
  _ ← to_atomic x.external_royalty_credits_atomic
  _ ← to_atomic x.employer_self_credit_atomic
  optional_atomic x.execution_cost_atomic
  fail_if (not (is_none x.external_settlement_hash)) receipt_settlement
  fail_if
      (not (text_eq x.external_royalty_credits_atomic (js "0"))
        || not (text_eq x.employer_self_credit_atomic (js "0")))
      receipt_credits
  ok (record {
    reserved_amount = reserved_amount;
    consumed_amount = consumed_amount;
    released_amount = released_amount;
    held_amount = held_amount;
  })
