-- ===== src/Awards/Tests.antt =====
-- A concrete budget through the life of a reservation, and the theorems at it.
use skill_asset_protocol.Money.Input.{assert_atomic}
use skill_asset_protocol.Money.Gross.{
  allocate_internal_gross, internal_entries, journal_entry, require_covered_gross,
  allocate_internal_failure_gross,
}
use skill_asset_protocol.Kernel.Patterns.{after_prefix, hash_pattern, prefixed}
use skill_asset_protocol.Base.{
  is_canonical, value, text_eq, digits, starts_with, ℕ, ◌+◌, ◌≤◌, [], ◌∷◌, ◌++◌, ◌≡◌, ◌≢◌, refl,
  true, some, none, JsString, js, length, Result, ok, err, decimal, parse_atomic,
}
use skill_asset_protocol.Money.Gross.Balance.{posted}
use skill_asset_protocol.Kernel.Platform.{Platform}
use skill_asset_protocol.Awards.Errors.{AwardError, Calendar}
use skill_asset_protocol.Awards.Schema.{
  validate_policy, require_string, currency_pattern, parse_utc, validate_policy_terms,
  require_string_sets, assert_permitted, award_rule_json, canonical_policy_bytes, is_award_rule,
  policy_hash, require_entries, require_string_set, require_strings, sum_atomic, Policy, to_atomic,
}
use skill_asset_protocol.Awards.Quote.{
  validate_quote, validate_quote_amounts, validate_quote_binding, Quote,
}
use skill_asset_protocol.Awards.Budget.{
  validate_reservation, from_difference, replace_reservation, validate_budget_state,
  require_revision, require_current_authorization, event, event_name, first_chars, remaining_atomic,
  replace_budget, Budget, Reservation, ReservationState, reserved, executing, consumed, Totals,
  read_totals, budget_reserved,
}
use skill_asset_protocol.Awards.Budget.Moves.{
  require_executing, require_transition_revisions, same_attempt, Moved, Expected, reserve_budget,
}
use skill_asset_protocol.Awards.Budget.Settlement.{
  allocate_actual, settle_budget, settle_reservation, check_release, Actual, Finalized,
  finalize_reservation, failed_after_start, release_reservation,
}
use skill_asset_protocol.Awards.Budget.Amounts.{reserve_totals, reserve_budget_refines}
use skill_asset_protocol.Awards.Budget.Settled.{
  Settles, finalize_reservation-Settles, release_reservation-Settles,
}
use skill_asset_protocol.Awards.Budget.Ending.{is_settled}
use skill_asset_protocol.Awards.Budget.Life.{Step, finalize, no-Step_after_settlement}
use skill_asset_protocol.Awards.Budget.Life.Conserved.{then_run, nothing, Keeps, Run-Keeps_totals}

abbrev platform : Platform
platform = record {
  parse_url = λ s. none;
  resolve_url = λ s base. none;
  utf8_length = λ s. length s;
  sha256 = λ s. js "sha256:0123456789abcdef0123456789abcdef0123456789abcdef0123456789abcdef";
  json_string = λ s. b'"' ∷ (s ++ b'"' ∷ []);
}

-- A calendar in which an instant is written as its number.
abbrev calendar : Calendar
calendar = record { parse_date = parse_atomic; iso_string = decimal; month_start = λ year month. 0 }

abbrev policy : Policy
policy = record {
  schema_version = 1;
  policy_id = js "p";
  version = 1;
  status = js "active";
  currency = js "USD";
  atomic_scale = 6;
  employer_id = js "acme";
  effective_at = js "10";
  expires_at = js "90";
  permitted_skill_ids = js "s" ∷ [];
  permitted_creator_ids = js "ann" ∷ [];
  permitted_wielder_ids = js "w" ∷ [];
  permitted_initiating_principal_ids = js "i" ∷ [];
  permitted_cost_centers = js "c" ∷ [];
  max_quote_atomic = js "500";
  award_rule = record {
    rule_type = js "residual_after_execution_fee_and_reserve";
    award_rate_bps = 10_000;
    rate_base = js "post_cost_residual";
    rounding = js "floor_atomic";
  };
  max_award_per_invocation_atomic = js "100";
  max_award_per_period_atomic = js "200";
  self_invocation = js "excluded";
  permitted_manager_signer_ids = js "m" ∷ [];
  permitted_credential_authorizer_ids = js "m" ∷ [];
  permitted_identity_signer_ids = js "m" ∷ [];
  permitted_finance_signer_ids = js "m" ∷ [];
  vesting_rule = js "none";
  payment_schedule = js "monthly_in_arrears";
  termination_treatment = js "t";
  payment_rail = js "r";
}

abbrev quote : Quote
quote = record {
  schema_version = 1;
  quote_id = js "q";
  invocation_id = js "v";
  idempotency_key = js "k";
  skill_id = js "s";
  skill_version_hash = js "sha256:0123456789abcdef0123456789abcdef0123456789abcdef0123456789abcdef";
  creator_id = js "ann";
  wielder_id = js "w";
  initiating_principal_id = js "i";
  principal_attestation_id = js "a";
  beneficiary_id = js "acme";
  cost_center = js "c";
  policy_id = js "p";
  policy_version = 1;
  policy_hash = js "sha256:0123456789abcdef0123456789abcdef0123456789abcdef0123456789abcdef";
  max_execution_cost_atomic = js "60";
  protocol_fee_atomic = js "5";
  refund_reserve_atomic = js "10";
  max_invocation_award_atomic = js "25";
  max_gross_atomic = js "100";
  expires_at = js "30";
}

abbrev budget_with : JsString → ℕ → Budget
budget_with in_reserve revision = record {
  schema_version = 1;
  budget_id = js "b";
  policy_id = js "p";
  policy_version = 1;
  policy_hash = js "h";
  period = js "20";
  currency = js "USD";
  atomic_scale = 6;
  authorization = record {
    schema_version = 1;
    budget_id = js "b";
    policy_id = js "p";
    policy_version = 1;
    policy_hash = js "h";
    period = js "20";
    currency = js "USD";
    atomic_scale = 6;
    allocated_atomic = js "1000";
    effective_at = js "10";
    expires_at = js "80";
    signer_id = js "m";
    signature = [];
  };
  policy = policy;
  allocated_atomic = js "1000";
  reserved_atomic = in_reserve;
  consumed_atomic = js "7";
  released_atomic = js "0";
  revision = revision;
}

abbrev reservation_in : ReservationState → Reservation
reservation_in state = record {
  schema_version = 1;
  reservation_id = js "x";
  quote = quote;
  state = state;
  reserved_atomic = js "100";
  revision = 1;
  execution_attempt_id = some (js "e");
  authorized_at = js "20";
  started_at = some (js "20");
  finalized_at = none;
}

abbrev nothing_moved : Moved
nothing_moved = record {
  budget = budget_with (js "0") 0;
  reservation = reservation_in reserved;
  event = record {
    event_id = [];
    event_type = budget_reserved;
    occurred_at = [];
    budget_id = [];
    budget_revision = 0;
    reservation_id = [];
    reservation_revision = 0;
    invocation_id = [];
    journal_entries = [];
  };
}

or_else {ℓ} : {E : Type 0} {A : Type ℓ} → A → Result E A → A
or_else d (ok a) = a
or_else d (err e) = d

abbrev reserving : Result AwardError Moved
reserving = reserve_budget platform calendar (budget_with (js "0") 3) quote 3 (js "x") (js "20")

reserving-ok : reserving ≡ ok (or_else nothing_moved reserving)
unfolding or_else reserve_budget validate_budget_state read_totals to_atomic parse_atomic
    is_canonical value require_revision require_current_authorization validate_policy require_string
    text_eq currency_pattern parse_utc decimal digits validate_policy_terms require_string_sets
    event event_name first_chars remaining_atomic replace_budget validate_quote
    validate_quote_amounts validate_quote_binding assert_permitted award_rule_json
    canonical_policy_bytes is_award_rule policy_hash require_entries require_string_set
    require_strings sum_atomic after_prefix hash_pattern prefixed starts_with
reserving-ok = refl

reserve_budget_refines_example :
    let moved = or_else nothing_moved reserving in
    (t : Totals) × (n : ℕ) × (read_totals (budget_with (js "0") 3) ≡ ok t)
    × (to_atomic moved.reservation.reserved_atomic ≡ ok n)
    × (read_totals moved.budget ≡ ok (reserve_totals t n))
    × (t.in_reserve + t.spent + n ≤ t.allocated)
reserve_budget_refines_example =
    reserve_budget_refines platform calendar (budget_with (js "0") 3) quote 3 (js "x") (js "20")
      reserving-ok

abbrev seen : Expected
seen = record { budget_revision = 4; reservation_revision = 1 }

-- An execution that cost 40 of the 60 that were quoted.
abbrev actual : Actual
actual = record {
  expected = seen;
  execution_attempt_id = some (js "e");
  recipient_id = js "ann";
  execution_cost_atomic = js "40";
  protocol_fee_atomic = js "5";
  refund_reserve_atomic = js "10";
  gross_atomic = js "80";
  now = js "20";
}

abbrev nothing_finalized : Finalized
nothing_finalized = record {
  moved = nothing_moved;
  allocation = record {
    gross = 0;
    execution_cost = 0;
    protocol_fee = 0;
    refund_reserve = 0;
    invocation_award = 0;
    award_recipient_id = [];
    journal_entries = [];
  };
}

abbrev finalizing : Result AwardError Finalized
finalizing =
    finalize_reservation calendar (budget_with (js "100") 4) (reservation_in executing) actual

finalizing-ok : finalizing ≡ ok (or_else nothing_finalized finalizing)
unfolding or_else finalize_reservation require_executing allocate_actual allocate_internal_gross
    internal_entries require_covered_gross validate_budget_state read_totals to_atomic parse_atomic
    is_canonical value validate_reservation require_transition_revisions require_revision parse_utc
    text_eq decimal digits same_attempt settle_budget settle_reservation event event_name
    from_difference replace_budget replace_reservation journal_entry assert_atomic
finalizing-ok = refl

finalize_reservation-Settles_example :
    let done = or_else nothing_finalized finalizing in
    (gross : ℕ) × (to_atomic actual.gross_atomic ≡ ok gross)
    × Settles (budget_with (js "100") 4) (reservation_in executing) gross done.moved.budget
    × (posted done.moved.event.journal_entries ≡ gross)
    × (done.allocation.award_recipient_id ≢ js "acme")
finalize_reservation-Settles_example =
    finalize_reservation-Settles calendar (budget_with (js "100") 4) (reservation_in executing)
      actual finalizing-ok

abbrev releasing : Result AwardError Moved
releasing =
    release_reservation calendar (budget_with (js "100") 4) (reservation_in executing) seen
      failed_after_start (some (js "e")) (js "40") (js "20")

releasing-ok : releasing ≡ ok (or_else nothing_moved releasing)
unfolding or_else release_reservation check_release allocate_internal_failure_gross
    validate_budget_state read_totals to_atomic parse_atomic is_canonical value validate_reservation
    require_transition_revisions require_revision parse_utc text_eq decimal digits same_attempt
    settle_budget settle_reservation event event_name from_difference replace_budget
    replace_reservation journal_entry assert_atomic
releasing-ok = refl

release_reservation-Settles_example :
    (cost : ℕ) × (to_atomic (js "40") ≡ ok cost)
    × Settles
        (budget_with (js "100") 4)
        (reservation_in executing)
        cost
        (or_else nothing_moved releasing).budget
release_reservation-Settles_example =
    release_reservation-Settles calendar (budget_with (js "100") 4) (reservation_in executing) seen
      failed_after_start (some (js "e")) (js "40") (js "20") releasing-ok

consumed-is_settled : is_settled consumed ≡ true
unfolding is_settled
consumed-is_settled = refl

no-Step_after_settlement_example :
    ¬ Step calendar (budget_with (js "0") 5) (reservation_in consumed) nothing_moved
no-Step_after_settlement_example =
    no-Step_after_settlement calendar (budget_with (js "0") 5) (reservation_in consumed)
      nothing_moved consumed-is_settled

abbrev totals_100 : Totals
totals_100 = record { allocated = 1_000; in_reserve = 100; spent = 7; given_back = 0 }

budget-totals : read_totals (budget_with (js "100") 4) ≡ ok totals_100
unfolding read_totals to_atomic parse_atomic is_canonical value
budget-totals = refl

reservation-amount : to_atomic (js "100") ≡ ok 100
unfolding to_atomic parse_atomic is_canonical value
reservation-amount = refl

abbrev finalized : Moved
finalized = (or_else nothing_finalized finalizing).moved

Run-Keeps_totals_example :
    (t' : Totals) × (read_totals finalized.budget ≡ ok t')
    × Keeps 100 totals_100 t' executing finalized.reservation.state
Run-Keeps_totals_example =
    Run-Keeps_totals calendar (budget_with (js "100") 4) finalized.budget (reservation_in executing)
      finalized.reservation 100 totals_100 budget-totals reservation-amount
      (then_run finalized (finalize actual (or_else nothing_finalized finalizing) finalizing-ok)
        nothing)
