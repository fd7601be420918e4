-- ===== src/Awards/Engine/Tests/Runs.antt =====
-- Operations of the concrete engine: authorizations, starts, an ending and a reversal, which succeed.
use skill_asset_protocol.Awards.Budget.{
  read_totals, validate_budget_state, validate_reservation, require_revision, first_chars,
  require_current_authorization, replace_budget, replace_reservation, from_difference, event_name,
  event, remaining_atomic, reserved, executing, consumed, ReservationState, budget_reserved, Budget,
  Reservation,
}
use skill_asset_protocol.Awards.Budget.Authorized.{
  require_period, period_bounds, validate_unsigned_authorization, canonical_budget_bytes,
  normalize_signer, validate_trusted_signer_map, finance_key, require_authorized,
  require_authorization_window, create_budget,
}
use skill_asset_protocol.Awards.Budget.Ending.{is_settled}
use skill_asset_protocol.Awards.Budget.Life.Conserved.{held_amount}
use skill_asset_protocol.Awards.Budget.Moves.{
  reserve_budget, require_transition_revisions, start_reservation_execution, same_attempt,
  require_executing, Moved,
}
use skill_asset_protocol.Awards.Budget.Settlement.{
  settle_budget, settle_reservation, allocate_actual, finalize_reservation, check_release,
  release_reservation, check_unresolved, hold_unresolved_reservation,
}
use skill_asset_protocol.Awards.Credentials.{
  validate_credential_payload, credential_json, canonical_credential_bytes,
  verify_credential_signature, verify_credential,
}
use skill_asset_protocol.Awards.Credentials.Approval.{
  validate_manager_approval_payload, canonical_manager_approval_bytes, require_approval_window,
  verify_manager_approval,
}
use skill_asset_protocol.Awards.Credentials.Attestation.{
  validate_principal_attestation_payload, matches_quote, principal_members,
  canonical_principal_attestation_bytes, principal_attestation_hash, require_principal,
  verify_principal_attestation,
}
use skill_asset_protocol.Awards.Engine.{
  invocation_event, require_found, require_signed_fields, assert_trusted_state,
  assert_historically_trusted_state, require_active_budget_period, resolve_active_registration,
  EngineState, SignedReversal,
}
use skill_asset_protocol.Awards.Engine.Authorize.{
  earlier, effective_credential_expiry, require_unused, require_authorizer,
  require_credential_window, credential_payload_of, authorized_invocation, AuthorizeInput,
  Authorized,
}
use skill_asset_protocol.Awards.Engine.Authorize.Operation.{
  authorized_state, authorized_policy, require_approval, require_initiator, authorize,
  authorize_internal_invocation,
}
use skill_asset_protocol.Awards.Engine.Cancel.{
  cancelled_invocation, cancelled_state, cancel, cancel_internal_authorization,
}
use skill_asset_protocol.Awards.Engine.Commit.{
  serialized_entries, receipt_place, commit_receipt, Place,
}
use skill_asset_protocol.Awards.Engine.Exposure.{
  counts_award, reverses_in, counts_reversal, counts_invocation, award_exposure_atomic,
  require_award_cap,
}
use skill_asset_protocol.Awards.Engine.Finish.{
  ended_invocation, reason_name, end_held, award_of, success_gross, released_by, end_succeeded,
  end_failed, end_in_period, end_execution,
}
use skill_asset_protocol.Awards.Engine.Finish.Operation.{
  require_current_records, transact_record, award_events, with_award, finished_state, finish,
  finish_execution, RecordCas,
}
use skill_asset_protocol.Awards.Engine.Replay.{
  quote_json, compare_quote, compare_credential_payload, verify_replay, refuse_terminal,
  refuse_replay,
}
use skill_asset_protocol.Awards.Engine.Reversal.{
  validate_award_reversal_payload, require_award_binding, require_reversible, reversal_event,
  earned_instant, canonical_award_reversal_bytes, require_authentic, reverse_award,
  record_award_reversal,
}
use skill_asset_protocol.Awards.Engine.Start.{
  attempt_id, executing_invocation, started_state, require_startable, require_unchanged,
  start_execution, begin_execution,
}
use skill_asset_protocol.Awards.Errors.{AwardError}
use skill_asset_protocol.Awards.Invocation.{
  invocation_state_name, award_state_name, InvocationState, AwardState,
}
use skill_asset_protocol.Awards.Keys.{
  require_canonical_key, normalize_public_key, base64_rest, base64_pattern, decode_signature,
  require_signature, configured_key, trusted_signer_key, nonce_pattern,
}
use skill_asset_protocol.Awards.Ledger.{
  create_receipt_ledger_state, next_sequence, require_next, append_signed_receipt,
}
use skill_asset_protocol.Awards.Outcome.{
  exact_keys, within_quote, succeeded_outcome, failed_outcome, unresolved_outcome, is_kind,
  try_outcome, or_sentinel, parse_executor_outcome, RawOutcome, plain_object, string, clone_member,
}
use skill_asset_protocol.Awards.Quote.{
  validate_quote_binding, validate_quote_amounts, validate_quote,
}
use skill_asset_protocol.Awards.Receipts.{
  journal_entry_of, validate_journal_entries, optional_atomic, validate_receipt_identity,
  validate_receipt_amounts,
}
use skill_asset_protocol.Awards.Receipts.Build.{
  require_award, consumed_by, receipt_of, build_invocation_receipt,
}
use skill_asset_protocol.Awards.Receipts.Signed.{
  reservation_state_name, receipt_members, canonical_receipt_bytes, validate_signed_receipt_shape,
  require_made, sign_receipt_with_capability, verify_receipt, receipt_hash,
}
use skill_asset_protocol.Awards.Receipts.Terminal.{
  required_cost, pays_nothing, validate_succeeded, validate_failed, cost_within, known_after_close,
  unknown_cost, validate_unresolved, validate_cancelled, validate_terminal,
  validate_receipt_payload,
}
use skill_asset_protocol.Awards.Registration.{
  period_parts, period_end, period_end_exclusive, receipt_sequence_scope, skill_registration_key,
  require_active, validate_skill_registration,
}
use skill_asset_protocol.Awards.Schema.{
  to_atomic, sum_atomic, parse_utc, require_string, require_strings, require_entries,
  require_string_set, require_string_sets, assert_permitted, currency_pattern, is_award_rule,
  validate_policy_terms, validate_policy, award_rule_json, canonical_policy_bytes, policy_hash,
}
use skill_asset_protocol.Awards.Store.{advance, transact}
use skill_asset_protocol.Base.{
  ℕ, [], ◌∷◌, ◌++◌, ◌≡◌, refl, some, none, JsString, js, Option, Result, ok, text_eq, is_canonical,
  value, digits, decimal, parse_atomic, lookup, has_key, map_with, starts_with, text_lt,
  compare_text, sort_by, insert_by,
}
use skill_asset_protocol.Kernel.Canonical.{join_comma}
use skill_asset_protocol.Kernel.Patterns.{after_prefix, prefixed, hash_pattern, before, behind}
use skill_asset_protocol.Money.Gross.{
  require_covered_gross, journal_entry, internal_entries, allocate_internal_gross,
  same_internal_journal_entry, same_journal, expected_entries, validate_internal_journal_entries,
  allocate_internal_failure_gross,
}
use skill_asset_protocol.Money.Input.{assert_atomic}
use skill_asset_protocol.Awards.Engine.Tests.{
  platform, hash, calendar, crypto, signer, quote, budget_with, registration, idle, nonce_with,
  attestation, asked, credential, noon, or_idle,
}

abbrev pub authorizing : Result AwardError EngineState
authorizing =
    authorize_internal_invocation platform crypto calendar idle (asked (js "v") (js "1") 0) noon

abbrev pub authorized_once : EngineState
authorized_once = or_idle authorizing

-- A second Invocation, authorized after the first.
abbrev pub asked_again : AuthorizeInput
asked_again = asked (js "u") (js "2") 1

abbrev pub authorizing_again : Result AwardError EngineState
authorizing_again =
    authorize_internal_invocation platform crypto calendar authorized_once asked_again noon

abbrev pub authorized_twice : EngineState
authorized_twice = or_idle authorizing_again

-- A reservation of 12 and the event that tells of it.
abbrev pub reservation_in : JsString → ReservationState → ℕ → Option JsString → Reservation
reservation_in id state revision attempt = record {
  schema_version = 1;
  reservation_id = id;
  quote = quote id;
  state = state;
  reserved_atomic = js "12";
  revision = revision;
  execution_attempt_id = attempt;
  authorized_at = noon;
  started_at = none;
  finalized_at = none;
}

abbrev moved_to : Budget → Reservation → Moved
moved_to budget r = record {
  budget = budget;
  reservation = r;
  event = event budget_reserved r budget noon [];
}

abbrev plan : JsString → JsString → Budget → Authorized
plan id digit budget = record {
  registration = registration;
  principal = (attestation id digit).payload;
  attestation_hash = hash;
  expires_at = js "2020-01-04T00:00:00.000Z";
  reserved = moved_to budget (reservation_in id reserved 0 none);
}

-- A state with two authorized Invocations.
abbrev pub ready : EngineState
ready =
    let first = asked (js "v") (js "1") 0 in
    let second = asked (js "u") (js "2") 1 in
    authorized_state
      (authorized_state idle first (plan (js "v") (js "1") (budget_with (js "12") 1)) noon) second
      (plan (js "u") (js "2") (budget_with (js "24") 2)) noon

abbrev pub beginning : Result AwardError EngineState
beginning =
    begin_execution platform crypto calendar ready (quote (js "v")) (credential (js "v") (js "1"))
      noon

abbrev pub begun_once : EngineState
begun_once = or_idle beginning

abbrev pub beginning_again : Result AwardError EngineState
beginning_again =
    begin_execution platform crypto calendar begun_once (quote (js "u"))
      (credential (js "u") (js "2")) noon

abbrev pub begun_twice : EngineState
begun_twice = or_idle beginning_again

-- A state in which one Invocation executes.
abbrev attempt : JsString
attempt = js "attempt-v-" ++ nonce_with (js "1")

abbrev pub running : EngineState
running =
    let first = asked (js "v") (js "1") 0 in
    let made = plan (js "v") (js "1") (budget_with (js "12") 1) in
    let state = authorized_state idle first made noon in
    started_state state (authorized_invocation idle first made noon)
      (reservation_in (js "v") reserved 0 none)
      (moved_to (budget_with (js "12") 2) (reservation_in (js "v") executing 1 (some attempt))) noon

-- What the executor returns: a success that cost 4.
abbrev pub success : RawOutcome
success = plain_object (
    (js "kind", string (js "succeeded"))
    ∷ (js "executionCostAtomic", string (js "4"))
    ∷ (js "outputHash", string hash)
    ∷ [])

abbrev pub cas : RecordCas
cas = record {
  invocation_id = js "v";
  expected_invocation_revision = 1;
  reservation_id = js "v";
  expected_reservation_revision = 1;
  execution_attempt_id = attempt;
}

abbrev pub held : Reservation
held = reservation_in (js "v") executing 1 (some attempt)

abbrev pub finishing : Result AwardError EngineState
finishing = finish_execution platform crypto calendar signer running cas held success noon

abbrev pub finished : EngineState
finished = or_idle finishing

-- The same reservation after its execution.
abbrev pub settled : Reservation
settled = reservation_in (js "v") consumed 2 (some attempt)

-- A state in which an award of 3 is earned, and the reversal of 2 of it.
abbrev pub earned_state : EngineState
earned_state =
    let made = plan (js "v") (js "1") (budget_with (js "12") 1) in
    let v = authorized_invocation idle (asked (js "v") (js "1") 0) made noon in
    let place : Place = record { scope = []; sequence = 1; receipt_id = [] } in
    record running {
      budget = budget_with (js "0") 3;
      reservations = (js "v", settled) ∷ [];
      invocations =
          (
            js "v",
            record v {
              state = InvocationState.succeeded;
              award_id = some (js "award-v");
              receipt_hash = some hash;
            },
          )
          ∷ [];
      awards =
          (js "award-v", award_of calendar running v held place noon AwardState.earned (js "3"))
          ∷ [];
    }

abbrev pub reversal : SignedReversal
reversal = record {
  payload = record {
    schema_version = 1;
    reversal_id = js "x";
    award_id = js "award-v";
    invocation_id = js "v";
    receipt_hash = hash;
    policy_id = js "p";
    policy_version = 1;
    policy_hash = hash;
    amount_atomic = js "2";
    reason = js "r";
    issued_at = noon;
    signer_id = js "m";
  };
  signature = js "AA==";
}

abbrev pub reversing : Result AwardError EngineState
reversing = record_award_reversal platform crypto calendar earned_state 2 reversal noon

abbrev pub reversed_once : EngineState
reversed_once = or_idle reversing

-- Each of these operations succeeds.
pub examples_succeed :
    (authorizing ≡ ok authorized_once)
    × (authorizing_again ≡ ok authorized_twice)
    × (beginning ≡ ok begun_once)
    × (beginning_again ≡ ok begun_twice)
    × (finishing ≡ ok finished)
    × (reversing ≡ ok reversed_once)
unfolding text_eq is_canonical value digits decimal parse_atomic lookup has_key map_with starts_with
    text_lt compare_text read_totals validate_budget_state validate_reservation require_revision
    first_chars require_current_authorization replace_budget replace_reservation from_difference
    event_name event remaining_atomic require_period period_bounds validate_unsigned_authorization
    canonical_budget_bytes normalize_signer validate_trusted_signer_map finance_key
    require_authorized require_authorization_window create_budget is_settled held_amount
    reserve_budget require_transition_revisions start_reservation_execution same_attempt
    require_executing settle_budget settle_reservation allocate_actual finalize_reservation
    check_release release_reservation check_unresolved hold_unresolved_reservation
    validate_credential_payload credential_json canonical_credential_bytes
    verify_credential_signature verify_credential validate_manager_approval_payload
    canonical_manager_approval_bytes require_approval_window verify_manager_approval
    validate_principal_attestation_payload matches_quote principal_members
    canonical_principal_attestation_bytes principal_attestation_hash require_principal
    verify_principal_attestation invocation_event require_found require_signed_fields
    assert_trusted_state assert_historically_trusted_state require_active_budget_period
    resolve_active_registration earlier effective_credential_expiry require_unused
    require_authorizer require_credential_window credential_payload_of authorized_invocation
    authorized_state authorized_policy require_approval require_initiator authorize
    authorize_internal_invocation cancelled_invocation cancelled_state cancel
    cancel_internal_authorization serialized_entries receipt_place commit_receipt counts_award
    reverses_in counts_reversal counts_invocation award_exposure_atomic require_award_cap
    ended_invocation reason_name end_held award_of success_gross released_by end_succeeded
    end_failed end_in_period end_execution require_current_records transact_record award_events
    with_award finished_state finish finish_execution quote_json compare_quote
    compare_credential_payload verify_replay refuse_terminal refuse_replay
    validate_award_reversal_payload require_award_binding require_reversible reversal_event
    earned_instant canonical_award_reversal_bytes require_authentic reverse_award
    record_award_reversal attempt_id executing_invocation started_state require_startable
    require_unchanged start_execution begin_execution invocation_state_name award_state_name
    require_canonical_key normalize_public_key base64_rest base64_pattern decode_signature
    require_signature configured_key trusted_signer_key nonce_pattern create_receipt_ledger_state
    next_sequence require_next append_signed_receipt exact_keys within_quote clone_member
    succeeded_outcome failed_outcome unresolved_outcome is_kind try_outcome or_sentinel
    parse_executor_outcome validate_quote_binding validate_quote_amounts validate_quote
    journal_entry_of validate_journal_entries optional_atomic validate_receipt_identity
    validate_receipt_amounts require_award consumed_by receipt_of build_invocation_receipt
    reservation_state_name receipt_members canonical_receipt_bytes validate_signed_receipt_shape
    require_made sign_receipt_with_capability verify_receipt receipt_hash required_cost pays_nothing
    validate_succeeded validate_failed cost_within known_after_close unknown_cost
    validate_unresolved validate_cancelled validate_terminal validate_receipt_payload period_parts
    period_end period_end_exclusive receipt_sequence_scope skill_registration_key require_active
    validate_skill_registration to_atomic sum_atomic parse_utc require_string require_strings
    require_entries require_string_set require_string_sets assert_permitted currency_pattern
    is_award_rule validate_policy_terms validate_policy award_rule_json canonical_policy_bytes
    policy_hash advance transact after_prefix prefixed hash_pattern before behind
    require_covered_gross journal_entry internal_entries allocate_internal_gross
    same_internal_journal_entry same_journal expected_entries validate_internal_journal_entries
    allocate_internal_failure_gross assert_atomic sort_by insert_by join_comma
examples_succeed = (refl, refl, refl, refl, refl, refl)
