-- ===== src/Awards/Ledger.antt =====
-- spikes/internal-invocation-awards/src/receipt-ledger.mjs: the ledger of signed receipts, whose
-- sequences are counted from 1 in each scope.
pub mod Contiguous
use skill_asset_protocol.Base.{
  ℕ, ◌+◌, [], ◌∷◌, ◌++◌, not, Option, none, some, JsString, text_eq, includes, ltb, ◌==◌, Result,
  ok, ◌>>=◌, ◌>>◌, fail_if, decimal, Dictionary, lookup, has_key, map_with, values,
}
use skill_asset_protocol.Kernel.Patterns.{hash_pattern}
use skill_asset_protocol.Kernel.Platform.{Platform}
use skill_asset_protocol.Kernel.Canonical.{join_comma}
use skill_asset_protocol.Awards.Errors.{
  AwardError, Calendar, hash_format, receipt_sequence, receipt_hash_mismatch, receipt_committed,
}
use skill_asset_protocol.Awards.Schema.{require_string}
use skill_asset_protocol.Awards.Keys.{Crypto}
use skill_asset_protocol.Awards.Receipts.{SignedReceipt}
use skill_asset_protocol.Awards.Receipts.Signed.{receipt_hash}

pub record ReceiptLedger : Type 0 where
  pub receipts : Dictionary SignedReceipt
  pub receipt_hashes : Dictionary JsString
  pub receipt_sequence_index : Dictionary JsString
  pub next_receipt_sequences : Dictionary ℕ

unfoldable pub create_receipt_ledger_state : ReceiptLedger
create_receipt_ledger_state = record {
  receipts = [];
  receipt_hashes = [];
  receipt_sequence_index = [];
  next_receipt_sequences = [];
}

abbrev pub or_one : Option ℕ → ℕ
or_one none = 1
or_one (some n) = n

-- `state.nextReceiptSequences[scope] ?? 1`
unfoldable pub next_sequence : ReceiptLedger → JsString → ℕ
next_sequence ledger scope = or_one (lookup scope ledger.next_receipt_sequences)

-- `JSON.stringify([scope, sequence])`
abbrev pub index_key : Platform → JsString → ℕ → JsString
index_key p scope sequence =
    b'[' ∷ (join_comma (p.json_string scope ∷ decimal sequence ∷ []) ++ b']' ∷ [])

-- What is refused of a receipt that was committed before, and of a sequence that is not the next.
unfoldable pub require_next :
    Platform → ReceiptLedger → SignedReceipt → JsString → Result AwardError (Unit {0})
require_next p ledger signed hash = do
  fail_if (has_key signed.payload.receipt_id ledger.receipts) receipt_committed
  fail_if (includes hash (values ledger.receipt_hashes)) receipt_committed
  fail_if
      (has_key (index_key p signed.payload.receipt_sequence_scope signed.payload.sequence)
        ledger.receipt_sequence_index)
      receipt_committed
  fail_if
      (not (signed.payload.sequence == next_sequence ledger signed.payload.receipt_sequence_scope))
      receipt_sequence

unfoldable pub append_signed_receipt :
    Platform
    → Crypto
    → Calendar
    → ReceiptLedger
    → SignedReceipt
    → JsString
    → Result AwardError ReceiptLedger
append_signed_receipt p c calendar ledger signed hash = do
  _ ← require_string signed.payload.receipt_id
  _ ← require_string signed.payload.receipt_sequence_scope
  fail_if (ltb signed.payload.sequence 1) receipt_sequence
  fail_if (not (hash_pattern hash)) hash_format
  computed_hash ← receipt_hash p c calendar signed
  fail_if (not (text_eq hash computed_hash)) receipt_hash_mismatch
  require_next p ledger signed hash
  let scope = signed.payload.receipt_sequence_scope
  let expected = next_sequence ledger scope
  ok (record {
    receipts = map_with ledger.receipts signed.payload.receipt_id signed;
    receipt_hashes = map_with ledger.receipt_hashes signed.payload.receipt_id hash;
    receipt_sequence_index =
        map_with ledger.receipt_sequence_index (index_key p scope signed.payload.sequence)
          signed.payload.receipt_id;
    next_receipt_sequences = map_with ledger.next_receipt_sequences scope (expected + 1);
  })
