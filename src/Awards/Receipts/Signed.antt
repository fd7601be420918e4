-- ===== src/Awards/Receipts/Signed.antt =====
-- spikes/internal-invocation-awards/src/statements.mjs: the bytes, the signature and the hash of a
-- receipt. `signReceipt`, a tool of the tests, is not modelled.
use skill_asset_protocol.Base.{
  List, [], ◌∷◌, ◌++◌, map, not, Option, none, some, JsString, js, text_eq, Result, ok, err, ◌>>=◌,
  ◌>>◌, fail_if, decimal, Dictionary,
}
use skill_asset_protocol.Kernel.Platform.{Platform}
use skill_asset_protocol.Kernel.Canonical.{join_comma}
use skill_asset_protocol.Awards.Errors.{AwardError, Calendar, receipt_signer}
use skill_asset_protocol.Awards.Schema.{json_object}
use skill_asset_protocol.Awards.Keys.{
  Crypto, decode_signature, require_signature, trusted_signer_key,
}
use skill_asset_protocol.Awards.Budget.{
  ReservationState, reserved, executing, consumed, released, held_unresolved,
}
use skill_asset_protocol.Awards.Outcome.{Member, text, coerced}
use skill_asset_protocol.Awards.Invocation.{
  invocation_state_name, AwardState, award_state_name, SerializedEntry,
}
use skill_asset_protocol.Awards.Receipts.{Receipt, SignedReceipt}
use skill_asset_protocol.Awards.Receipts.Terminal.{validate_receipt_payload}

unfoldable pub reservation_state_name : ReservationState → JsString
reservation_state_name reserved = js "reserved"
reservation_state_name executing = js "executing"
reservation_state_name consumed = js "consumed"
reservation_state_name released = js "released"
reservation_state_name held_unresolved = js "held_unresolved"

-- The capability that the engine is provisioned with; `none` where `sign` throws or does not return
-- a string.
pub record ReceiptSigner : Type 0 where
  pub signer_id : JsString
  pub sign : JsString → Option JsString

module _ (p : Platform) where
  abbrev json_option : Option JsString → JsString
  json_option none = js "null"
  json_option (some s) = p.json_string s

  abbrev json_output : Option Member → JsString
  json_output none = js "null"
  json_output (some (text s)) = p.json_string s
  json_output (some (coerced shown json)) = json

  abbrev json_award_state : Option AwardState → JsString
  json_award_state none = js "null"
  json_award_state (some state) = p.json_string (award_state_name state)

  abbrev json_entry : SerializedEntry → JsString
  json_entry x = json_object p (
      (js "category", p.json_string x.category)
      ∷ (js "debitAccountId", p.json_string x.debit_account_id)
      ∷ (js "creditAccountId", p.json_string x.credit_account_id)
      ∷ (js "amountAtomic", p.json_string x.amount_atomic)
      ∷ [])

  abbrev json_entries : List SerializedEntry → JsString
  json_entries xs = b'[' ∷ (join_comma (map json_entry xs) ++ b']' ∷ [])

  -- `ordered(receipt, RECEIPT_KEYS)` as members of JSON
  unfoldable pub receipt_members : Receipt → List (JsString × JsString)
  receipt_members x =
      (js "schemaVersion", decimal x.schema_version)
      ∷ (js "receiptId", p.json_string x.receipt_id)
      ∷ (js "sequence", decimal x.sequence)
      ∷ (js "receiptSequenceScope", p.json_string x.receipt_sequence_scope)
      ∷ (js "receiptType", p.json_string x.receipt_type)
      ∷ (js "invocationId", p.json_string x.invocation_id)
      ∷ (js "reservationId", p.json_string x.reservation_id)
      ∷ (js "employerId", p.json_string x.employer_id)
      ∷ (js "creatorId", p.json_string x.creator_id)
      ∷ (js "skillId", p.json_string x.skill_id)
      ∷ (js "skillVersionHash", p.json_string x.skill_version_hash)
      ∷ (js "skillRegistrationId", p.json_string x.skill_registration_id)
      ∷ (js "initiatingPrincipalId", p.json_string x.initiating_principal_id)
      ∷ (js "principalAttestationId", p.json_string x.principal_attestation_id)
      ∷ (js "principalAttestationHash", p.json_string x.principal_attestation_hash)
      ∷ (js "policyId", p.json_string x.policy_id)
      ∷ (js "policyVersion", decimal x.policy_version)
      ∷ (js "policyHash", p.json_string x.policy_hash)
      ∷ (js "budgetPeriod", p.json_string x.budget_period)
      ∷ (js "period", p.json_string x.period)
      ∷ (js "currency", p.json_string x.currency)
      ∷ (js "atomicScale", decimal x.atomic_scale)
      ∷ (js "invocationState", p.json_string (invocation_state_name x.invocation_state))
      ∷ (js "reservationState", p.json_string (reservation_state_name x.reservation_state))
      ∷ (js "executionAttemptId", json_option x.execution_attempt_id)
      ∷ (js "reservedAtomic", p.json_string x.reserved_atomic)
      ∷ (js "consumedAtomic", p.json_string x.consumed_atomic)
      ∷ (js "releasedAtomic", p.json_string x.released_atomic)
      ∷ (js "heldReservationAtomic", p.json_string x.held_reservation_atomic)
      ∷ (js "executionCostStatus", json_option x.execution_cost_status)
      ∷ (js "executionCostAtomic", json_option x.execution_cost_atomic)
      ∷ (js "outputHash", json_output x.output_hash)
      ∷ (js "failureClass", json_option x.failure_class)
      ∷ (js "unresolvedReason", json_option x.unresolved_reason)
      ∷ (js "protocolFeeAtomic", p.json_string x.protocol_fee_atomic)
      ∷ (js "refundReserveAtomic", p.json_string x.refund_reserve_atomic)
      ∷ (js "invocationAwardAtomic", p.json_string x.invocation_award_atomic)
      ∷ (js "awardState", json_award_state x.award_state)
      ∷ (js "externalSettlementHash", json_option x.external_settlement_hash)
      ∷ (js "externalRoyaltyCreditsAtomic", p.json_string x.external_royalty_credits_atomic)
      ∷ (js "employerSelfCreditAtomic", p.json_string x.employer_self_credit_atomic)
      ∷ (js "journalEntries", json_entries x.journal_entries)
      ∷ (js "occurredAt", p.json_string x.occurred_at)
      ∷ (js "receiptSignerId", p.json_string x.receipt_signer_id)
      ∷ []

  module _ (c : Crypto) (calendar : Calendar) where
    unfoldable pub canonical_receipt_bytes : Receipt → Result AwardError JsString
    canonical_receipt_bytes x = do
      validated ← validate_receipt_payload p calendar x
      ok (json_object p (receipt_members validated))

    unfoldable pub validate_signed_receipt_shape : SignedReceipt → Result AwardError Receipt
    validate_signed_receipt_shape signed = do
      receipt ← validate_receipt_payload p calendar signed.payload
      _ ← decode_signature c signed.signature
      ok receipt

    unfoldable pub require_made : Option JsString → Result AwardError JsString
    require_made none = err receipt_signer
    require_made (some signature) = ok signature

    unfoldable pub sign_receipt_with_capability :
        Receipt → ReceiptSigner → Result AwardError SignedReceipt
    sign_receipt_with_capability x capability = do
      validated ← validate_receipt_payload p calendar x
      fail_if (not (text_eq capability.signer_id validated.receipt_signer_id)) receipt_signer
      bytes ← canonical_receipt_bytes validated
      signature ← require_made (capability.sign bytes)
      let signed : SignedReceipt = record { payload = validated; signature = signature }
      _ ← validate_signed_receipt_shape signed
      ok signed

    unfoldable pub verify_receipt : SignedReceipt → Dictionary JsString → Result AwardError Receipt
    verify_receipt signed trusted = do
      receipt ← validate_signed_receipt_shape signed
      key ← trusted_signer_key c trusted receipt.receipt_signer_id
      bytes ← canonical_receipt_bytes receipt
      signature ← decode_signature c signed.signature
      require_signature c bytes key signature
      ok receipt

    unfoldable pub receipt_hash : SignedReceipt → Result AwardError JsString
    receipt_hash signed = do
      _ ← validate_signed_receipt_shape signed
      ok (
          p.sha256 (
            json_object p (
              receipt_members signed.payload
              ++ (js "signature", p.json_string signed.signature) ∷ [])))
