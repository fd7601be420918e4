-- ===== src/Awards/Engine/Reversal/Bounded.antt =====
-- spikes/internal-invocation-awards/src/engine.mjs: the reversals of an award together are at most the
-- award.
use skill_asset_protocol.Base.{
  ℕ, ◌+◌, ◌≤◌, ◌≡◌, ap, ◌∙◌, [], ◌∷◌, not, JsString, Bool, true, false, ok, ok-injective, arith,
  lookup, has_key, bind-ok, fail_if, some, ltb, values, if◌then◌else◌, text_eq, ◌==◌,
}
use skill_asset_protocol.Kernel.Patterns.{hash_pattern}
use skill_asset_protocol.Kernel.Platform.{Platform}
use skill_asset_protocol.Awards.Errors.{
  Calendar, reversal_exceeds, reversal_version, reversal_amount, identifier_used, hash_format,
  safe_integer,
}
use skill_asset_protocol.Awards.Schema.{to_atomic, sum_atomic, require_strings, parse_utc, Policy}
use skill_asset_protocol.Awards.Keys.{Crypto}
use skill_asset_protocol.Awards.Invocation.{Award}
use skill_asset_protocol.Awards.Counted.{counted, counted-map_with_new}
use skill_asset_protocol.Awards.Engine.{EngineState, SignedReversal, ReversalPayload}
use skill_asset_protocol.Awards.Engine.Reversal.{
  validate_award_reversal_payload, reversals_of, reversal_amounts, require_reversible,
  require_authentic, record_award_reversal,
}
use skill_asset_protocol.Awards.Engine.Steps.Reversed.{record_award_reversal-IsReversal}

validate_award_reversal_payload-same :
    (calendar : Calendar) (input : ReversalPayload) {x : ReversalPayload}
    → validate_award_reversal_payload calendar input ≡ ok x
    → input ≡ x
unfolding validate_award_reversal_payload
validate_award_reversal_payload-same calendar x h =
    let version = bind-ok (fail_if (not (x.schema_version == 1)) reversal_version) h in
    let strings =
      bind-ok
        (require_strings (
          x.reversal_id ∷ x.award_id ∷ x.invocation_id ∷ x.policy_id ∷ x.reason ∷ x.signer_id ∷ []))
        version.2 in
    let receipt = bind-ok (fail_if (not (hash_pattern x.receipt_hash)) hash_format) strings.2 in
    let policy = bind-ok (fail_if (not (hash_pattern x.policy_hash)) hash_format) receipt.2 in
    let number = bind-ok (fail_if (ltb x.policy_version 1) safe_integer) policy.2 in
    let amount = bind-ok (to_atomic x.amount_atomic) number.2 in
    let positive = bind-ok (fail_if (amount.0 == 0) reversal_amount) amount.2 in
    let issued = bind-ok (parse_utc calendar x.issued_at) positive.2 in ok-injective issued.2

require_authentic-new :
    (p : Platform) (c : Crypto) (calendar : Calendar) (state : EngineState) (policy : Policy)
    (x : ReversalPayload) (signature : JsString)
    → require_authentic p c calendar state policy x signature ≡ ok tt
    → has_key x.reversal_id state.award_reversals ≡ false
unfolding require_authentic
require_authentic-new p c calendar state policy x signature h =
    let unused =
      bind-ok (fail_if (has_key x.reversal_id state.award_reversals) identifier_used) h in
    let e = unused.1 in ground arith

-- After a reversal is recorded, all reversals of its award together are at most the amount of the award.
pub record_award_reversal-bounded :
    (p : Platform) (c : Crypto) (calendar : Calendar) (state next : EngineState) (expected : ℕ)
    (signed : SignedReversal) (now : JsString)
    → record_award_reversal p c calendar state expected signed now ≡ ok next
    → (award : Award) × (total : ℕ) × (earned : ℕ) × (lookup signed.payload.award_id state.awards
        ≡ some award)
      × (sum_atomic (reversal_amounts (reversals_of award.award_id (values next.award_reversals)))
          ≡ ok total)
      × (to_atomic award.amount_atomic ≡ ok earned)
      × (total ≤ earned)
unfolding require_reversible counted
record_award_reversal-bounded p c calendar state next expected signed now h =
    let a = record_award_reversal-IsReversal p c calendar state expected signed now h in
    let same = validate_award_reversal_payload-same calendar signed.payload a.payload_part in
    let counts = λ (x : SignedReversal). text_eq x.payload.award_id a.award.award_id in
    let amount_of = λ (x : SignedReversal). x.payload.amount_atomic in
    let prior = bind-ok (counted counts amount_of state.award_reversals) a.reversible_part in
    let amount = bind-ok (to_atomic a.payload.amount_atomic) prior.2 in
    let earned = bind-ok (to_atomic a.award.amount_atomic) amount.2 in
    let within = earned.2 in
    let new =
      require_authentic-new p c calendar state a.policy a.payload signed.signature
        a.authentic_part in
    let read = ap (λ (x : ReversalPayload). to_atomic x.amount_atomic) same ∙ amount.1 in
    let more = if counts signed then amount.0 else 0 in
    let grown =
      counted-map_with_new counts amount_of state.award_reversals a.payload.reversal_id signed
        {total = prior.0} {n = amount.0} new prior.1 read in
    (
      a.award,
      prior.0 + more,
      earned.0,
      ap (λ (x : ReversalPayload). lookup x.award_id state.awards) same ∙ a.award_part,
      ap (λ (s : EngineState). counted counts amount_of s.award_reversals) a.next_part ∙ grown,
      earned.1,
      bounded prior.0 amount.0 earned.0 (counts signed) within,
    )
  where
    bounded :
        (prior amount earned : ℕ) (b : Bool)
        → fail_if (ltb earned (prior + amount)) reversal_exceeds ≡ ok tt
        → prior + (if b then amount else 0) ≤ earned
    bounded prior amount earned true h = ground arith
    bounded prior amount earned false h = ground arith
