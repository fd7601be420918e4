-- ===== src/Awards/Engine/Steps.antt =====
-- spikes/internal-invocation-awards/src/engine.mjs: what each of the five operations has checked and made
-- where it succeeds, and the operations as steps of the engine.
pub mod Cancelled
pub mod Started
pub mod Finished
pub mod Reversed
use skill_asset_protocol.Base.{
  ◌≡◌, refl, Option, some, none, JsString, ok, Result-cases, inl, inr, arith,
}
use skill_asset_protocol.Kernel.Platform.{Platform}
use skill_asset_protocol.Awards.Errors.{AwardError, Calendar}
use skill_asset_protocol.Awards.Schema.{Policy, parse_utc}
use skill_asset_protocol.Awards.Keys.{Crypto}
use skill_asset_protocol.Awards.Budget.Moves.{reserve_budget}
use skill_asset_protocol.Awards.Engine.{EngineState, require_found}
use skill_asset_protocol.Awards.Engine.Exposure.{require_award_cap}
use skill_asset_protocol.Awards.Engine.Authorize.{
  AuthorizeInput, Authorized, require_unused, require_authorizer, require_credential_window,
}
use skill_asset_protocol.Awards.Engine.Authorize.Operation.{
  authorized_state, authorized_policy, require_initiator, authorize, authorize_internal_invocation,
}
use skill_asset_protocol.Awards.Store.{transact-eq-ok}

pub require_found-eq-ok :
    {A : Type 0} (e : AwardError) (o : Option A) {a : A} → require_found e o ≡ ok a → o ≡ some a
unfolding require_found
require_found-eq-ok e none h = absurd (ground arith)
require_found-eq-ok e (some x) h = ground arith

module _ (p : Platform) (c : Crypto) (calendar : Calendar) where
  pub record IsAuthorization (state : EngineState) (input : AuthorizeInput) (now : JsString)
      (next : EngineState) : Type 0 where
    pub policy : Policy
    pub plan : Authorized
    pub policy_part :
        authorized_policy p c calendar state input now ≡ ok (policy, plan.registration)
    pub unused_part : require_unused state input ≡ ok tt
    pub initiator_part :
        require_initiator p c calendar state input policy now
        ≡ ok (plan.principal, plan.attestation_hash)
    pub expiry_part : require_credential_window calendar state input policy now ≡ ok plan.expires_at
    pub cap_part :
        require_award_cap state policy state.budget.period input.quote.max_invocation_award_atomic
        ≡ ok tt
    pub money_part :
        reserve_budget p calendar state.budget input.quote input.expected_budget_revision
          input.reservation_id now
        ≡ ok plan.reserved
    pub next_part : next ≡ authorized_state state input plan now

  authorize-IsAuthorization :
      (state : EngineState) (input : AuthorizeInput) (now : JsString) {next : EngineState}
      → authorize p c calendar state input now ≡ ok next
      → IsAuthorization state input now next
  unfolding authorize
  authorize-IsAuthorization state input now {next} h =
      elim (Result-cases (parse_utc calendar now)) [
        | inr (code, failed) ↦ absurd (ground arith)
        | inl (at, hat) ↦ elim (Result-cases (authorized_policy p c calendar state input now)) [
          | inr (code, failed) ↦ absurd (ground arith)
          | inl (pr, hp) ↦ elim (Result-cases (require_unused state input)) [
            | inr (code, failed) ↦ absurd (ground arith)
            | inl (u, hu) ↦
                elim (Result-cases (require_authorizer state pr.0 input.credential_authorizer_id)) [
                  | inr (code, failed) ↦ absurd (ground arith)
                  | inl (key, hk) ↦
                      elim (Result-cases (require_initiator p c calendar state input pr.0 now)) [
                        | inr (code, failed) ↦ absurd (ground arith)
                        | inl (ini, hi) ↦
                            elim (Result-cases
                              (require_credential_window calendar state input pr.0 now)) [
                                | inr (code, failed) ↦ absurd (ground arith)
                                | inl (expires_at, hx) ↦
                                    elim (Result-cases (
                                      require_award_cap state pr.0 state.budget.period
                                        input.quote.max_invocation_award_atomic)) [
                                          | inr (code, failed) ↦ absurd (ground arith)
                                          | inl (u', hc) ↦
                                              elim (Result-cases (
                                                reserve_budget p calendar state.budget input.quote
                                                  input.expected_budget_revision
                                                  input.reservation_id now)) [
                                                    | inr (code, failed) ↦ absurd (ground arith)
                                                    | inl (reserving, hr) ↦ record {
                                                      policy = pr.0;
                                                      plan = record {
                                                        registration = pr.1;
                                                        principal = ini.0;
                                                        attestation_hash = ini.1;
                                                        expires_at = expires_at;
                                                        reserved = reserving;
                                                      };
                                                      policy_part = hp;
                                                      unused_part = hu;
                                                      initiator_part = hi;
                                                      expiry_part = hx;
                                                      cap_part = hc;
                                                      money_part = hr;
                                                      next_part = ground arith;
                                                    }
                                                  ]
                                        ]
                              ]
                      ]
                ]
          ]
        ]
      ]

  -- The same of the operation with its transaction.
  pub authorize_internal_invocation-IsAuthorization :
      (state : EngineState) (input : AuthorizeInput) (now : JsString) {next : EngineState}
      → authorize_internal_invocation p c calendar state input now ≡ ok next
      → IsAuthorization state input now next
  unfolding authorize_internal_invocation
  authorize_internal_invocation-IsAuthorization state input now h =
      let t =
        transact-eq-ok (λ (s : EngineState). s.revision) state input.expected_revision
          (λ s. authorize p c calendar s input now) h in
      authorize-IsAuthorization state input now t.1
