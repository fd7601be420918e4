-- ===== src/Awards/Errors.antt =====
-- spikes/internal-invocation-awards/src/schema.mjs and budget.mjs: the messages of their errors, and
-- what they call of the platform's dates.
use skill_asset_protocol.Base.{ℕ, JsString, Option, Result, ok, err}
use skill_asset_protocol.Money.Input.{MoneyError}

pub data AwardError : Type 0 where
  atomic_format atomic_sign timestamp_format string_empty : AwardError
  set_empty set_duplicate not_permitted : AwardError
  policy_version policy_status policy_currency policy_scale policy_window : AwardError
  policy_not_effective policy_expired policy_employer policy_award_limits : AwardError
  policy_award_rule policy_self_invocation policy_vesting policy_schedule : AwardError
  quote_version quote_hash quote_binding quote_beneficiary quote_gross quote_limit : AwardError
  quote_award_limit quote_self_award quote_expired quote_expiry : AwardError
  budget_revision budget_overdrawn reservation_revision stale_revision : AwardError
  authorization_not_effective authorization_expired period_inactive : AwardError
  budget_insufficient reservation_state attempt_mismatch recipient_mismatch : AwardError
  execution_cost_limit fee_mismatch reserve_mismatch gross_mismatch gross_limit : AwardError
  award_mismatch cancellation_cost release_reason unresolved_reason unresolved_cost : AwardError
  allocation : MoneyError → AwardError
  key_format signature_format signature_invalid signer_untrusted : AwardError
  period_format scope_scale hash_format nonce_format safe_integer : AwardError
  authorization_version authorization_window authorization_policy : AwardError
  authorization_denomination authorization_signer authorization_changed : AwardError
  registration_version registration_status registration_creator registration_window : AwardError
  registration_revoked registration_not_effective registration_expired : AwardError
  registration_missing registration_binding : AwardError
  credential_version credential_window credential_not_valid credential_expired : AwardError
  credential_mismatch credential_authorizer credential_issued credential_consumed : AwardError
  attestation_version attestation_window attestation_signer attestation_principal : AwardError
  attestation_binding attestation_not_valid attestation_expired attestation_quote : AwardError
  attestation_consumed attestation_changed : AwardError
  approval_version approval_window approval_self approval_signer approval_binding : AwardError
  approval_not_valid approval_expired approval_bounds approval_missing : AwardError
  approval_unexpected self_invocation_excluded : AwardError
  receipt_version receipt_sequence receipt_period receipt_scope receipt_settlement : AwardError
  receipt_credits receipt_journal receipt_total receipt_succeeded receipt_failed : AwardError
  receipt_unresolved receipt_cancelled receipt_state receipt_attempt receipt_binding : AwardError
  receipt_award receipt_signer receipt_hash_mismatch receipt_committed : AwardError
  stale_engine_revision revision_not_advanced record_missing : AwardError
  policy_missing outside_budget identifier_used award_cap invocation_state quote_changed :
      AwardError
  reversal_version reversal_amount reversal_policy reversal_signer reversal_future : AwardError
  reversal_award reversal_binding reversal_early reversal_exceeds : AwardError

-- An error of the money functions, thrown on.
abbrev pub of_money {ℓ} : {A : Type ℓ} → Result MoneyError A → Result AwardError A
of_money (ok a) = ok a
of_money (err e) = err (allocation e)

-- `Date.parse` and `toISOString`. An instant is counted in milliseconds from the earliest `Date`, so
-- that it is a natural number; the code only compares instants.
pub record Calendar : Type 0 where
  pub parse_date : JsString → Option ℕ
  pub iso_string : ℕ → JsString
  -- the first instant of a month, counted from 0, of a year
  pub month_start : ℕ → ℕ → ℕ
