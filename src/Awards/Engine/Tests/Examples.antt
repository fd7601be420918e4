-- ===== src/Awards/Engine/Tests/Examples.antt =====
-- The theorems on the engine, its store and its receipts, at the concrete engine.
use skill_asset_protocol.Base.{
  ℕ, ◌+◌, ◌≤◌, ◌≡◌, refl, List, [], ◌∷◌, All, length, lookup, map_with, values, some, true, false,
  JsString, js, text_eq, includes, ok, arith, is_canonical, value, parse_atomic,
}
use skill_asset_protocol.Kernel.Patterns.{before, behind}
use skill_asset_protocol.Awards.Schema.{Policy, to_atomic, sum_atomic, parse_utc}
use skill_asset_protocol.Awards.Registration.{
  SkillRegistration, period_end_exclusive, period_end, period_parts,
}
use skill_asset_protocol.Awards.Invocation.{Invocation, Award}
use skill_asset_protocol.Awards.Budget.{read_totals}
use skill_asset_protocol.Awards.Budget.Life.Conserved.{held_amount}
use skill_asset_protocol.Awards.Budget.Ending.{is_settled}
use skill_asset_protocol.Awards.Outcome.{parse_executor_outcome}
use skill_asset_protocol.Awards.Outcome.Bounds.{IsOutcome, parse_executor_outcome-IsOutcome}
use skill_asset_protocol.Awards.Receipts.Merkle.{root_of, root_of-terminates}
use skill_asset_protocol.Awards.Store.{advance, transact}
use skill_asset_protocol.Awards.Engine.{require_found}
use skill_asset_protocol.Awards.Engine.Finish.Operation.{require_current_records, transact_record}
use skill_asset_protocol.Awards.Engine.Queue.{
  Request, engine_request, record_request, perform, Served, serve_one, serve, Serves, InOrder,
  serve_lem,
}
use skill_asset_protocol.Awards.Ledger.Contiguous.{
  IsContiguous, create_receipt_ledger_state-IsContiguous,
}
use skill_asset_protocol.Awards.Engine.Authorize.Expiry.{effective_credential_expiry-earliest}
use skill_asset_protocol.Awards.Engine.Authorize.{
  authorized_invocation, earlier, effective_credential_expiry,
}
use skill_asset_protocol.Awards.Engine.Authorize.Operation.{authorized_policy, authorized_state}
use skill_asset_protocol.Awards.Engine.Start.{started_state, executing_invocation, attempt_id}
use skill_asset_protocol.Awards.Engine.Exposure.{Exposure, award_exposure_atomic}
use skill_asset_protocol.Awards.Engine.Exposure.Capped.{authorize_internal_invocation-capped}
use skill_asset_protocol.Awards.Engine.Reversal.{reversals_of, reversal_amounts}
use skill_asset_protocol.Awards.Engine.Reversal.Bounded.{record_award_reversal-bounded}
use skill_asset_protocol.Awards.Engine.Run.{EngineRun, then_step, nothing, finishes, reverses}
use skill_asset_protocol.Awards.Engine.Run.Change.{IsKeyed}
use skill_asset_protocol.Awards.Engine.Run.Funded.{
  IsFunded, IsReadable, held_by, EngineRun-IsFunded,
}
use skill_asset_protocol.Awards.Engine.Run.Settled.{EngineRun-keeps_settled}
use skill_asset_protocol.Awards.Engine.Run.Numbered.{EngineRun-IsContiguous}
use skill_asset_protocol.Awards.Engine.Run.Remembered.{
  authorize_internal_invocation-once, begin_execution-once,
}
use skill_asset_protocol.Awards.Engine.Tests.{
  platform, crypto, calendar, signer, quote, budget_with, policy, idle, asked, credential, noon,
}
use skill_asset_protocol.Awards.Engine.Tests.Runs.{
  asked_again, authorized_once, authorized_twice, ready, begun_once, begun_twice, running, success,
  cas, held, finished, earned_state, reversal, reversed_once, settled, examples_succeed,
}

running-IsFunded : IsFunded running
unfolding held_by held_amount IsKeyed IsReadable read_totals to_atomic parse_atomic is_canonical
    value authorized_state started_state map_with text_eq
running-IsFunded = record {
  totals = record { allocated = 50; in_reserve = 12; spent = 0; given_back = 0 };
  read = refl;
  keyed = (refl, tt);
  readable = ((12, refl), tt);
  funded = refl;
}

one_finish : EngineRun platform crypto calendar signer running finished
one_finish = then_step nothing (finishes cas held success noon examples_succeed.4)

EngineRun-IsFunded_example : IsFunded finished
EngineRun-IsFunded_example =
    EngineRun-IsFunded platform crypto calendar signer running finished running-IsFunded one_finish

earned_state-IsFunded : IsFunded earned_state
unfolding held_by held_amount IsKeyed IsReadable read_totals to_atomic parse_atomic is_canonical
    value authorized_state started_state map_with text_eq
earned_state-IsFunded = record {
  totals = record { allocated = 50; in_reserve = 0; spent = 0; given_back = 0 };
  read = refl;
  keyed = (refl, tt);
  readable = ((12, refl), tt);
  funded = refl;
}

found_settled : lookup (js "v") earned_state.reservations ≡ some settled
unfolding lookup text_eq
found_settled = refl

settled-is_settled : is_settled settled.state ≡ true
unfolding is_settled
settled-is_settled = refl

EngineRun-keeps_settled_example : lookup (js "v") reversed_once.reservations ≡ some settled
EngineRun-keeps_settled_example =
    EngineRun-keeps_settled platform crypto calendar signer earned_state reversed_once (js "v")
      settled earned_state-IsFunded found_settled settled-is_settled
      (then_step nothing (reverses 2 reversal noon examples_succeed.5))

running-IsContiguous : IsContiguous running.ledger
unfolding authorized_state started_state
running-IsContiguous = create_receipt_ledger_state-IsContiguous

EngineRun-IsContiguous_example : IsContiguous finished.ledger
EngineRun-IsContiguous_example =
    EngineRun-IsContiguous platform crypto calendar signer running finished running-IsContiguous
      one_finish

authorize_internal_invocation-once_example :
    (text_eq (js "v") (js "u") ≡ false)
    × (text_eq (asked (js "v") (js "1") 0).credential_nonce asked_again.credential_nonce ≡ false)
authorize_internal_invocation-once_example =
    authorize_internal_invocation-once platform crypto calendar signer idle authorized_once
      authorized_once authorized_twice (asked (js "v") (js "1") 0) asked_again noon noon
      examples_succeed.0 nothing examples_succeed.1

begin_execution-once_example :
    (v : Invocation) × (v' : Invocation) × (lookup (js "v") ready.invocations ≡ some v)
    × (lookup (js "u") begun_once.invocations ≡ some v')
    × (text_eq v.credential_nonce v'.credential_nonce ≡ false)
begin_execution-once_example =
    begin_execution-once platform crypto calendar signer ready begun_once begun_once begun_twice
      (quote (js "v")) (quote (js "u")) (credential (js "v") (js "1"))
      (credential (js "u") (js "2")) noon noon examples_succeed.2 nothing examples_succeed.3

authorize_internal_invocation-capped_example :
    (policy : Policy) × (registration : SkillRegistration) × (e : Exposure) × (cap : ℕ)
    × (authorized_policy platform crypto calendar idle (asked (js "v") (js "1") 0) noon
        ≡ ok (policy, registration))
    × (award_exposure_atomic authorized_once policy (js "2020-01") ≡ ok e)
    × (to_atomic policy.max_award_per_period_atomic ≡ ok cap)
    × (e.added ≤ cap + e.taken)
authorize_internal_invocation-capped_example =
    authorize_internal_invocation-capped platform crypto calendar idle authorized_once
      (asked (js "v") (js "1") 0) noon examples_succeed.0

record_award_reversal-bounded_example :
    (award : Award) × (total : ℕ) × (earned : ℕ) × (lookup (js "award-v") earned_state.awards
      ≡ some award)
    × (sum_atomic
          (reversal_amounts (reversals_of award.award_id (values reversed_once.award_reversals)))
        ≡ ok total)
    × (to_atomic award.amount_atomic ≡ ok earned)
    × (total ≤ earned)
record_award_reversal-bounded_example =
    record_award_reversal-bounded platform crypto calendar earned_state reversed_once 2 reversal
      noon examples_succeed.5

parse_executor_outcome-IsOutcome_example :
    IsOutcome (quote (js "v")) success (parse_executor_outcome success (quote (js "v")))
parse_executor_outcome-IsOutcome_example = parse_executor_outcome-IsOutcome success (quote (js "v"))

root_of-terminates_example :
    (root : List ℕ) × ((n : ℕ)
      → 2 ≤ n
      → root_of (λ b. b) n ((1 ∷ []) ∷ (2 ∷ []) ∷ (3 ∷ []) ∷ []) ≡ some root)
root_of-terminates_example =
    root_of-terminates (λ b. b) 2 (1 ∷ []) ((2 ∷ []) ∷ (3 ∷ []) ∷ []) (omega arith)

-- A queue with a stale transaction, and one of the records of an Invocation that executes.
abbrev queue : List Request
queue =
    engine_request 2 (λ s. ok (record s { revision = s.revision + 1 }))
    ∷ engine_request 2 (λ s. ok (record s { revision = s.revision + 1 }))
    ∷ record_request cas (λ s v r. ok (record s { revision = s.revision + 1 }))
    ∷ engine_request 4 (λ s. ok (record s { revision = s.revision + 1 }))
    ∷ []

abbrev queue_served : Served
queue_served = serve running queue

-- All but the stale one are accepted.
queue-accepted :
    (running.revision ≡ 2) × (queue_served.state.revision ≡ 5) × (length queue_served.accepted ≡ 3)
unfolding serve serve_one perform transact transact_record advance require_found lookup text_eq
    require_current_records started_state authorized_state map_with authorized_invocation
    executing_invocation attempt_id
queue-accepted = (refl, refl, refl)

serve_example :
    Serves running queue queue_served.accepted queue_served.state
    × (queue_served.state.revision ≡ running.revision + length queue_served.accepted)
    × InOrder running.revision queue_served.accepted
serve_example = serve_lem running queue

expiry-ok :
    effective_credential_expiry calendar
      (js "2020-01-03T00:00:00.000Z")
      (quote (js "v"))
      policy
      (budget_with (js "0") 0)
    ≡ ok (js "2020-01-03T00:00:00.000Z")
unfolding effective_credential_expiry earlier parse_utc text_eq period_end_exclusive period_end
    period_parts before behind value
expiry-ok = refl

effective_credential_expiry-earliest_example :
    (period_end : JsString) × (at : ℕ) × (period_end_exclusive calendar (js "2020-01")
      ≡ ok period_end)
    × (parse_utc calendar (js "2020-01-03T00:00:00.000Z") ≡ ok at)
    × All
        (λ s. (n : ℕ) × (parse_utc calendar s ≡ ok n) × (at ≤ n))
        (js "2020-01-03T00:00:00.000Z"
          ∷ js "2020-01-04T00:00:00.000Z"
          ∷ js "2020-02-01T00:00:00.000Z"
          ∷ js "2020-02-01T00:00:00.000Z"
          ∷ period_end
          ∷ [])
    × (includes (js "2020-01-03T00:00:00.000Z") (
          js "2020-01-03T00:00:00.000Z"
          ∷ js "2020-01-04T00:00:00.000Z"
          ∷ js "2020-02-01T00:00:00.000Z"
          ∷ js "2020-02-01T00:00:00.000Z"
          ∷ period_end
          ∷ [])
        ≡ true)
effective_credential_expiry-earliest_example =
    effective_credential_expiry-earliest calendar (js "2020-01-03T00:00:00.000Z") (quote (js "v"))
      policy (budget_with (js "0") 0) expiry-ok
