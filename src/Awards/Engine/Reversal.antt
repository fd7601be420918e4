-- ===== src/Awards/Engine/Reversal.antt =====
-- spikes/internal-invocation-awards/src/engine.mjs: `recordAwardReversal`.
pub mod Bounded
use skill_asset_protocol.Base.{
  ℕ, ◌+◌, List, [], ◌∷◌, ◌++◌, map, not, ◌||◌, none, some, JsString, js, text_eq, includes, select,
  ltb, ◌==◌, Result, ok, err, ◌>>=◌, ◌>>◌, fail_if, decimal, lookup, has_key, map_with, values,
}
use skill_asset_protocol.Kernel.Patterns.{hash_pattern}
use skill_asset_protocol.Kernel.Platform.{Platform}
use skill_asset_protocol.Awards.Errors.{
  AwardError, Calendar, hash_format, safe_integer, identifier_used, reversal_version,
  reversal_amount, reversal_policy, reversal_signer, reversal_future, reversal_award,
  reversal_binding, reversal_early, reversal_exceeds, timestamp_format,
}
use skill_asset_protocol.Awards.Schema.{
  Policy, to_atomic, sum_atomic, parse_utc, require_strings, json_object,
}
use skill_asset_protocol.Awards.Keys.{Crypto, decode_signature, require_signature}
use skill_asset_protocol.Awards.Invocation.{Invocation, Award, is_earned}
use skill_asset_protocol.Awards.Receipts.{is_text}
use skill_asset_protocol.Awards.Store.{transact}
use skill_asset_protocol.Awards.Engine.{
  EngineState, EngineEvent, of_lifecycle, ReversalPayload, SignedReversal, require_found,
  assert_trusted_state,
}

unfoldable pub validate_award_reversal_payload :
    Calendar → ReversalPayload → Result AwardError ReversalPayload
validate_award_reversal_payload calendar x = do
  fail_if (not (x.schema_version == 1)) reversal_version
  require_strings
      (x.reversal_id ∷ x.award_id ∷ x.invocation_id ∷ x.policy_id ∷ x.reason ∷ x.signer_id ∷ [])
  fail_if (not (hash_pattern x.receipt_hash)) hash_format
  fail_if (not (hash_pattern x.policy_hash)) hash_format
  fail_if (ltb x.policy_version 1) safe_integer
  amount ← to_atomic x.amount_atomic
  fail_if (amount == 0) reversal_amount
  _ ← parse_utc calendar x.issued_at
  ok x

-- The reversal is of this award and of the receipt of its Invocation.
unfoldable pub require_award_binding :
    ReversalPayload → Award → Invocation → Result AwardError (Unit {0})
require_award_binding x award v =
    fail_if
      (not (is_text award.award_id v.award_id)
        || not (is_text x.receipt_hash v.receipt_hash)
        || not (text_eq award.invocation_id x.invocation_id)
        || not (text_eq award.policy_id x.policy_id)
        || not (award.policy_version == x.policy_version)
        || not (text_eq award.policy_hash x.policy_hash))
      reversal_binding

-- The reversals of one award.
abbrev pub reversals_of : JsString → List SignedReversal → List SignedReversal
reversals_of award_id = select (λ (x : SignedReversal). text_eq x.payload.award_id award_id)

abbrev pub reversal_amounts : List SignedReversal → List JsString
reversal_amounts = map (λ (x : SignedReversal). x.payload.amount_atomic)

-- All reversals of an award together are at most the award.
unfoldable pub require_reversible :
    EngineState → ReversalPayload → Award → Result AwardError (Unit {0})
require_reversible state x award = do
  prior ← sum_atomic (reversal_amounts (reversals_of award.award_id (values state.award_reversals)))
  amount ← to_atomic x.amount_atomic
  earned ← to_atomic award.amount_atomic
  fail_if (ltb earned (prior + amount)) reversal_exceeds

unfoldable pub reversal_event : ReversalPayload → JsString → JsString → JsString → EngineEvent
reversal_event x invocation_id award_id now = of_lifecycle (record {
  event_id = invocation_id ++ (js ":invocation_award_reversed:" ++ x.reversal_id);
  event_type = js "invocation_award_reversed";
  invocation_id = invocation_id;
  occurred_at = now;
  details =
      (js "reversalId", x.reversal_id)
      ∷ (js "awardId", award_id)
      ∷ (js "amountAtomic", x.amount_atomic)
      ∷ (js "financeSignerId", x.signer_id)
      ∷ [];
})

unfoldable pub earned_instant : Calendar → Award → Result AwardError ℕ
earned_instant calendar award = elim award.earned_at [
  | none ↦ err timestamp_format
  | some at ↦ parse_utc calendar at
]

module _ (p : Platform) (c : Crypto) (calendar : Calendar) where
  unfoldable pub canonical_award_reversal_bytes : ReversalPayload → Result AwardError JsString
  canonical_award_reversal_bytes input = do
    x ← validate_award_reversal_payload calendar input
    ok (
        json_object p (
          (js "schemaVersion", decimal x.schema_version)
          ∷ (js "reversalId", p.json_string x.reversal_id)
          ∷ (js "awardId", p.json_string x.award_id)
          ∷ (js "invocationId", p.json_string x.invocation_id)
          ∷ (js "receiptHash", p.json_string x.receipt_hash)
          ∷ (js "policyId", p.json_string x.policy_id)
          ∷ (js "policyVersion", decimal x.policy_version)
          ∷ (js "policyHash", p.json_string x.policy_hash)
          ∷ (js "amountAtomic", p.json_string x.amount_atomic)
          ∷ (js "reason", p.json_string x.reason)
          ∷ (js "issuedAt", p.json_string x.issued_at)
          ∷ (js "signerId", p.json_string x.signer_id)
          ∷ []))

  -- The reversal is new, of the policy of the budget, and signed by a finance signer.
  unfoldable pub require_authentic :
      EngineState → Policy → ReversalPayload → JsString → Result AwardError (Unit {0})
  require_authentic state policy x signature_text = do
    fail_if (has_key x.reversal_id state.award_reversals) identifier_used
    fail_if
        (not (text_eq x.policy_id policy.policy_id)
          || not (x.policy_version == policy.version)
          || not (text_eq x.policy_hash state.budget.policy_hash))
        reversal_policy
    fail_if (not (includes x.signer_id policy.permitted_finance_signer_ids)) reversal_signer
    key ← require_found reversal_signer (lookup x.signer_id state.finance_signers)
    bytes ← canonical_award_reversal_bytes x
    signature ← decode_signature c signature_text
    require_signature c bytes key signature

  unfoldable pub reverse_award :
      EngineState → SignedReversal → JsString → Result AwardError EngineState
  reverse_award state signed now = do
    at ← parse_utc calendar now
    policy ← assert_trusted_state p c calendar state now
    x ← validate_award_reversal_payload calendar signed.payload
    require_authentic state policy x signed.signature
    issued_at ← parse_utc calendar x.issued_at
    fail_if (ltb at issued_at) reversal_future
    award ← require_found reversal_award (lookup x.award_id state.awards)
    fail_if (not (is_earned award.state)) reversal_award
    v ← require_found reversal_binding (lookup x.invocation_id state.invocations)
    require_award_binding x award v
    earned_at ← earned_instant calendar award
    fail_if (ltb issued_at earned_at) reversal_early
    require_reversible state x award
    ok (record state {
      revision = state.revision + 1;
      award_reversals = map_with state.award_reversals x.reversal_id signed;
      events = state.events ++ reversal_event x v.invocation_id award.award_id now ∷ [];
    })

  unfoldable pub record_award_reversal :
      EngineState → ℕ → SignedReversal → JsString → Result AwardError EngineState
  record_award_reversal state expected_revision signed now =
      transact (λ (s : EngineState). s.revision) state expected_revision
        (λ s. reverse_award s signed now)
