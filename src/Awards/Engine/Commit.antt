-- ===== src/Awards/Engine/Commit.antt =====
-- spikes/internal-invocation-awards/src/engine.mjs: `commitReceipt`, which builds, signs, verifies and
-- appends the receipt of an Invocation.
use skill_asset_protocol.Base.{ℕ, Option, List, map, JsString, js, ◌++◌, decimal, Result, ok, ◌>>=◌}
use skill_asset_protocol.Money.Gross.{JournalEntry}
use skill_asset_protocol.Kernel.Platform.{Platform}
use skill_asset_protocol.Awards.Errors.{AwardError, Calendar}
use skill_asset_protocol.Awards.Keys.{Crypto}
use skill_asset_protocol.Awards.Registration.{receipt_sequence_scope}
use skill_asset_protocol.Awards.Budget.{Reservation}
use skill_asset_protocol.Awards.Invocation.{Invocation, Award, SerializedEntry}
use skill_asset_protocol.Awards.Receipts.{SignedReceipt}
use skill_asset_protocol.Awards.Receipts.Build.{build_invocation_receipt}
use skill_asset_protocol.Awards.Receipts.Signed.{
  ReceiptSigner, sign_receipt_with_capability, verify_receipt, receipt_hash,
}
use skill_asset_protocol.Awards.Ledger.{ReceiptLedger, append_signed_receipt, next_sequence}
use skill_asset_protocol.Awards.Engine.{EngineState}

-- `serializedAllocation(allocation).journalEntries`
unfoldable pub serialized_entries : List JournalEntry → List SerializedEntry
serialized_entries = map (λ (e : JournalEntry). record {
  category = e.category;
  debit_account_id = e.debit_account_id;
  credit_account_id = e.credit_account_id;
  amount_atomic = decimal e.amount;
})

pub record Committed : Type 0 where
  pub signed_receipt : SignedReceipt
  pub hash : JsString
  pub ledger : ReceiptLedger

-- Where the receipt of an Invocation goes.
pub record Place : Type 0 where
  pub scope : JsString
  pub sequence : ℕ
  pub receipt_id : JsString

unfoldable pub receipt_place : Platform → EngineState → Invocation → Result AwardError Place
receipt_place p state v = do
  scope ← receipt_sequence_scope p v.beneficiary_id v.creator_id v.currency v.atomic_scale
  ok (record {
    scope = scope;
    sequence = next_sequence state.ledger scope;
    receipt_id = js "receipt-" ++ v.invocation_id;
  })

module _ (p : Platform) (c : Crypto) (calendar : Calendar) (signer : ReceiptSigner) where
  unfoldable pub commit_receipt :
      EngineState → Invocation → Reservation → Option Award → Result AwardError Committed
  commit_receipt state invocation reservation award = do
    unsigned ←
        build_invocation_receipt p calendar invocation reservation award invocation.beneficiary_id
          signer.signer_id
    signed ← sign_receipt_with_capability p c calendar unsigned signer
    _ ← verify_receipt p c calendar signed state.receipt_signers
    hash ← receipt_hash p c calendar signed
    ledger ← append_signed_receipt p c calendar state.ledger signed hash
    ok (record { signed_receipt = signed; hash = hash; ledger = ledger })
