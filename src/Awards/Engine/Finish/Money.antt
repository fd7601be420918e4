-- ===== src/Awards/Engine/Finish/Money.antt =====
-- spikes/internal-invocation-awards/src/engine.mjs: the money of an ending is moved by an operation of
-- the budget, and the Invocation it leaves is terminal.
use skill_asset_protocol.Base.{
  ◌≡◌, refl, subst, true, not, Option, none, JsString, text_eq, decimal, ok, ok-injective, bind-ok,
  Bool-cases, inl, inr, lookup, arith,
}
use skill_asset_protocol.Awards.Errors.{Calendar, policy_missing}
use skill_asset_protocol.Awards.Schema.{to_atomic}
use skill_asset_protocol.Awards.Budget.{Reservation, first_chars}
use skill_asset_protocol.Awards.Budget.Settlement.{
  Actual, finalize_reservation, release_reservation, ReleaseReason, UnresolvedReason,
  hold_unresolved_reservation,
}
use skill_asset_protocol.Awards.Budget.Life.{Step, finalize, release, hold}
use skill_asset_protocol.Awards.Outcome.{
  Member, Outcome, succeeded, failed_after_start, unresolved_after_start,
}
use skill_asset_protocol.Awards.Invocation.{Invocation, is_terminal}
use skill_asset_protocol.Awards.Engine.{EngineState, policy_key, require_found}
use skill_asset_protocol.Awards.Engine.Commit.{Place}
use skill_asset_protocol.Awards.Engine.Finish.{
  Ending, current_revisions, ended_invocation, end_held, end_succeeded, end_failed, end_in_period,
  end_execution, success_gross, released_by, closing_reason, known_cost, known_output,
  known_failure,
}

module _ (calendar : Calendar) (state : EngineState) (v : Invocation) (r : Reservation)
    (place : Place) (now : JsString) where
  -- What an ending has: a step of the budget, and a terminal Invocation with the same identity.
  pub record IsEnding (ending : Ending) : Type 0 where
    pub step : Step calendar state.budget r ending.money
    pub terminal : is_terminal ending.invocation.state ≡ true
    pub identity : ending.invocation.invocation_id ≡ v.invocation_id

  end_held-IsEnding :
      (reason : UnresolvedReason) (cost : Option JsString) (output : Option Member)
      (failure : Option JsString) {ending : Ending}
      → end_held calendar state v r place now reason cost output failure ≡ ok ending
      → IsEnding ending
  unfolding end_held ended_invocation
  end_held-IsEnding reason cost output failure {ending} h =
      let money =
        bind-ok
          (hold_unresolved_reservation calendar state.budget r (current_revisions state r) reason
            v.execution_attempt_id cost now)
          h in
      let e = ok-injective money.2 in
      subst IsEnding e (record {
        step = hold (current_revisions state r) reason v.execution_attempt_id cost now money.1;
        terminal = refl;
        identity = refl;
      })

  end_failed-IsEnding :
      (cost class : JsString) {ending : Ending}
      → end_failed calendar state v r place now cost class ≡ ok ending
      → IsEnding ending
  unfolding end_failed ended_invocation
  end_failed-IsEnding cost class {ending} h =
      let money =
        bind-ok
          (release_reservation calendar state.budget r (current_revisions state r)
            ReleaseReason.failed_after_start v.execution_attempt_id cost now)
          h in
      let amount = bind-ok (to_atomic cost) money.2 in
      let released = bind-ok (released_by calendar state v r place now amount.0) amount.2 in
      let e = ok-injective released.2 in
      subst IsEnding e (record {
        step =
            release (current_revisions state r) ReleaseReason.failed_after_start
              v.execution_attempt_id cost now money.1;
        terminal = refl;
        identity = refl;
      })

  end_succeeded-IsEnding :
      (cost : JsString) (output : Member) {ending : Ending}
      → end_succeeded calendar state v r place now cost output ≡ ok ending
      → IsEnding ending
  unfolding end_succeeded ended_invocation
  end_succeeded-IsEnding cost output {ending} h =
      let gross = bind-ok (success_gross calendar state v r place now cost) h in
      let actual : Actual = record {
        expected = current_revisions state r;
        execution_attempt_id = v.execution_attempt_id;
        recipient_id = v.creator_id;
        execution_cost_atomic = cost;
        protocol_fee_atomic = r.quote.protocol_fee_atomic;
        refund_reserve_atomic = r.quote.refund_reserve_atomic;
        gross_atomic = decimal gross.0;
        now = now;
      } in
      let done = bind-ok (finalize_reservation calendar state.budget r actual) gross.2 in
      let policy =
        bind-ok
          (require_found policy_missing
            (lookup (policy_key v.policy_id v.policy_version) state.policies))
          done.2 in
      let released = bind-ok (released_by calendar state v r place now gross.0) policy.2 in
      let e = ok-injective released.2 in
      subst IsEnding e
        (record { step = finalize actual done.0 done.1; terminal = refl; identity = refl })

  pub end_execution-IsEnding :
      (outcome : Outcome) {ending : Ending}
      → end_execution calendar state v r place now outcome ≡ ok ending
      → IsEnding ending
  unfolding end_execution end_in_period
  end_execution-IsEnding outcome {ending} h =
      elim (Bool-cases (not (text_eq (first_chars 7 now) v.period))) [
        | inl closed ↦
            end_held-IsEnding (closing_reason outcome) (known_cost outcome) (known_output outcome)
              (known_failure outcome) (ground (arith, closed))
        | inr current ↦ in_period outcome (ground (arith, current))
      ]
    where
      in_period :
          (outcome : Outcome)
          → end_in_period calendar state v r place now outcome ≡ ok ending
          → IsEnding ending
      in_period (succeeded cost output) g = end_succeeded-IsEnding cost output g
      in_period (failed_after_start cost class) g = end_failed-IsEnding cost class g
      in_period (unresolved_after_start reason) g =
          end_held-IsEnding reason none v.output_hash v.failure_class g
