-- ===== src/Awards/Engine/Replay.antt =====
-- spikes/internal-invocation-awards/src/engine.mjs: `verifyTerminalReplay`, and the comparisons with
-- what an authorization has stored. A quote is compared with its keys in the order of the schema.
use skill_asset_protocol.Base.{
  [], ◌∷◌, not, ◌||◌, Option, none, some, JsString, js, text_eq, Result, ok, err, ◌>>=◌, ◌>>◌,
  fail_if, if◌then◌else◌, decimal, lookup,
}
use skill_asset_protocol.Kernel.Platform.{Platform}
use skill_asset_protocol.Awards.Errors.{
  AwardError, Calendar, record_missing, quote_changed, credential_mismatch, credential_authorizer,
  credential_consumed, receipt_hash_mismatch,
}
use skill_asset_protocol.Awards.Schema.{json_object}
use skill_asset_protocol.Awards.Quote.{Quote}
use skill_asset_protocol.Awards.Keys.{Crypto}
use skill_asset_protocol.Awards.Credentials.{
  CredentialPayload, Credential, canonical_credential_bytes, verify_credential_signature,
}
use skill_asset_protocol.Awards.Invocation.{Invocation, is_terminal}
use skill_asset_protocol.Awards.Receipts.{is_text}
use skill_asset_protocol.Awards.Receipts.Signed.{verify_receipt, receipt_hash}
use skill_asset_protocol.Awards.Engine.{EngineState, require_found}

module _ (p : Platform) where
  unfoldable pub quote_json : Quote → JsString
  quote_json q = json_object p (
      (js "schemaVersion", decimal q.schema_version)
      ∷ (js "quoteId", p.json_string q.quote_id)
      ∷ (js "invocationId", p.json_string q.invocation_id)
      ∷ (js "idempotencyKey", p.json_string q.idempotency_key)
      ∷ (js "skillId", p.json_string q.skill_id)
      ∷ (js "skillVersionHash", p.json_string q.skill_version_hash)
      ∷ (js "creatorId", p.json_string q.creator_id)
      ∷ (js "wielderId", p.json_string q.wielder_id)
      ∷ (js "initiatingPrincipalId", p.json_string q.initiating_principal_id)
      ∷ (js "principalAttestationId", p.json_string q.principal_attestation_id)
      ∷ (js "beneficiaryId", p.json_string q.beneficiary_id)
      ∷ (js "costCenter", p.json_string q.cost_center)
      ∷ (js "policyId", p.json_string q.policy_id)
      ∷ (js "policyVersion", decimal q.policy_version)
      ∷ (js "policyHash", p.json_string q.policy_hash)
      ∷ (js "maxExecutionCostAtomic", p.json_string q.max_execution_cost_atomic)
      ∷ (js "protocolFeeAtomic", p.json_string q.protocol_fee_atomic)
      ∷ (js "refundReserveAtomic", p.json_string q.refund_reserve_atomic)
      ∷ (js "maxInvocationAwardAtomic", p.json_string q.max_invocation_award_atomic)
      ∷ (js "maxGrossAtomic", p.json_string q.max_gross_atomic)
      ∷ (js "expiresAt", p.json_string q.expires_at)
      ∷ [])

  unfoldable pub compare_quote : Quote → Quote → Result AwardError (Unit {0})
  compare_quote left right =
      fail_if (not (text_eq (quote_json left) (quote_json right))) quote_changed

  module _ (c : Crypto) (calendar : Calendar) where
    unfoldable pub compare_credential_payload :
        CredentialPayload → CredentialPayload → Result AwardError (Unit {0})
    compare_credential_payload left right = do
      left_bytes ← canonical_credential_bytes p calendar left
      right_bytes ← canonical_credential_bytes p calendar right
      fail_if (not (text_eq left_bytes right_bytes)) credential_mismatch

    -- The checks of a terminal Invocation whose execution is asked for again.
    unfoldable pub verify_replay :
        EngineState → Invocation → Quote → Credential → Result AwardError (Unit {0})
    verify_replay state v quote credential = do
      r ← require_found record_missing (lookup v.reservation_id state.reservations)
      compare_quote quote r.quote
      key ←
          require_found credential_authorizer
            (lookup credential.payload.credential_authorizer_id state.credential_authorizers)
      payload ← verify_credential_signature p c calendar credential key
      compare_credential_payload payload v.credential_payload
      receipt_id ← require_found record_missing v.receipt_id
      stored_hash ← require_found record_missing v.receipt_hash
      signed ← require_found record_missing (lookup receipt_id state.ledger.receipts)
      _ ← verify_receipt p c calendar signed state.receipt_signers
      hash ← receipt_hash p c calendar signed
      fail_if
          (not (text_eq hash stored_hash)
            || not (is_text stored_hash (lookup receipt_id state.ledger.receipt_hashes)))
          receipt_hash_mismatch

    -- A terminal Invocation is never executed again: a replay that verifies is refused too.
    unfoldable pub refuse_terminal :
        EngineState → Option Invocation → Quote → Credential → Result AwardError (Unit {0})
    refuse_terminal state none quote credential = ok tt
    refuse_terminal state (some v) quote credential =
        let verified = verify_replay state v quote credential in
        if is_terminal v.state then (do verified; err credential_consumed) else ok tt

    unfoldable pub refuse_replay : EngineState → Quote → Credential → Result AwardError (Unit {0})
    refuse_replay state quote credential =
        refuse_terminal state (lookup quote.invocation_id state.invocations) quote credential
