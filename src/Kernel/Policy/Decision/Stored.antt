-- ===== src/Kernel/Policy/Decision/Stored.antt =====
-- spikes/pi-wielder/src/kernel/policy-engine.mjs: `validatePolicyEvaluation`, by which an evaluation is
-- read back.
use skill_asset_protocol.Base.{
  ℕ, List, [], ◌∷◌, Bool, true, false, not, ◌&&◌, Option, none, some, JsString, js, text_eq,
  includes, ◌==◌, Result, ok, ◌>>=◌, ◌>>◌, fail_if,
}
use skill_asset_protocol.Kernel.Errors.{KernelError, policy_decision_schema}
use skill_asset_protocol.Kernel.Platform.{Platform}
use skill_asset_protocol.Kernel.Canonical.{canonical_token}
use skill_asset_protocol.Kernel.Policy.Fields.{canonical_hash}
use skill_asset_protocol.Kernel.Policy.Projection.{quote_id_of}
use skill_asset_protocol.Kernel.Policy.Decision.{
  Outcome, allow, approval_required, deny, Evaluation,
}

abbrev pub preselection_denials : List JsString
preselection_denials =
    js "X402_VERSION"
    ∷ js "SCHEME_UNSUPPORTED"
    ∷ js "NETWORK_MISMATCH"
    ∷ js "ASSET_MISMATCH"
    ∷ js "WALLET_MISMATCH"
    ∷ js "METHOD_UNSUPPORTED"
    ∷ js "SELLER_UNTRUSTED"
    ∷ js "RESOURCE_PATH"
    ∷ js "PAYEE_MISMATCH"
    ∷ js "PAYMENT_OPTIONS_AMBIGUOUS"
    ∷ []

abbrev pub selected_denials : List JsString
selected_denials =
    js "CHALLENGE_EXPIRED"
    ∷ js "PER_REQUEST_LIMIT"
    ∷ js "SELLER_SESSION_LIMIT"
    ∷ js "SESSION_LIMIT"
    ∷ js "ROLLING_24H_LIMIT"
    ∷ js "APPROVAL_CAPACITY"
    ∷ []

abbrev pub is_deny : Outcome → Bool
is_deny deny = true
is_deny _ = false

unfoldable pub reason_matches : Outcome → JsString → Bool
reason_matches allow reason = text_eq reason (js "WITHIN_AUTO_LIMIT")
reason_matches approval_required reason = text_eq reason (js "HUMAN_APPROVAL_REQUIRED")
reason_matches deny reason = includes reason selected_denials

-- `evaluation.quoteId === expected` where `quoteId` may be null.
abbrev pub is_quote : Option JsString → JsString → Bool
is_quote none expected = false
is_quote (some quote) expected = text_eq quote expected

abbrev pub is_absent : Option JsString → Bool
is_absent none = true
is_absent (some quote) = false

-- The tests on the index, the quote, the amount and the reason.
unfoldable pub consistent_evaluation : Platform → Evaluation → Option ℕ → Bool
consistent_evaluation p e none =
    is_absent e.quote_id
    && e.amount_ceiling == 0
    && is_deny e.decision
    && includes e.reason_code preselection_denials
consistent_evaluation p e (some index) =
    not (e.amount_ceiling == 0)
    && is_quote e.quote_id (quote_id_of p e.challenge_hash index)
    && reason_matches e.decision e.reason_code

unfoldable pub validate_policy_evaluation : Platform → Evaluation → Result KernelError Evaluation
validate_policy_evaluation p e = do
  reason ← canonical_token e.reason_code
  policy_hash ← canonical_hash policy_decision_schema e.policy_hash
  challenge_hash ← canonical_hash policy_decision_schema e.challenge_hash
  fail_if (not (consistent_evaluation p e e.accepted_index)) policy_decision_schema
  ok e
