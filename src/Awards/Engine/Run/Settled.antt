-- ===== src/Awards/Engine/Run/Settled.antt =====
-- spikes/internal-invocation-awards/src/engine.mjs and budget.mjs: the reservations that an Invocation has
-- settled.
use skill_asset_protocol.Base.{
  ◌≡◌, ap, ◌∙◌, some, JsString, text_eq, text_eq→eq, true, inl, inr, Bool-cases, arith, lookup,
  lookup-has_key, lookup-map_with_other,
}
use skill_asset_protocol.Kernel.Platform.{Platform}
use skill_asset_protocol.Awards.Errors.{Calendar}
use skill_asset_protocol.Awards.Keys.{Crypto}
use skill_asset_protocol.Awards.Budget.{Reservation}
use skill_asset_protocol.Awards.Budget.Ending.{is_settled}
use skill_asset_protocol.Awards.Budget.Life.{no-Step_after_settlement}
use skill_asset_protocol.Awards.Receipts.Signed.{ReceiptSigner}
use skill_asset_protocol.Awards.Engine.{EngineState}
use skill_asset_protocol.Awards.Engine.Run.{EngineRun, nothing, then_step}
use skill_asset_protocol.Awards.Engine.Run.Change.{
  MoneyChange, reserves, moves, keeps, EngineStep-MoneyChange,
}
use skill_asset_protocol.Awards.Engine.Run.Funded.{IsFunded, EngineRun-IsFunded}

-- A change is no step of a settled reservation, and it leaves every other one than its own.
MoneyChange-settled :
    (p : Platform) (calendar : Calendar) (state next : EngineState) (key : JsString)
    (r : Reservation)
    → MoneyChange p calendar state next
    → lookup key state.reservations ≡ some r
    → is_settled r.state ≡ true
    → lookup key next.reservations ≡ some r
MoneyChange-settled p calendar state next key r change found settled = elim change [
  | keeps hb hr ↦ ap (lookup key) hr ∙ found
  | reserves quote expected id now moved new h hb hr ↦ elim (Bool-cases (text_eq id key)) [
    | inl same ↦
        let e = text_eq→eq id key same in
        let present = lookup-has_key state.reservations key found in
        absurd (ground (arith, e, present, new))
    | inr other ↦
        ap (lookup key) hr
        ∙ (lookup-map_with_other state.reservations id key moved.reservation other ∙ found)
  ]
  | moves id old moved at st hb hr ↦ elim (Bool-cases (text_eq id key)) [
    | inl same ↦
        let e = text_eq→eq id key same in
        let it : old ≡ r = ground (arith, e, at, found) in
        absurd (
          no-Step_after_settlement calendar state.budget old moved
            (ap (λ x. is_settled x.state) it ∙ settled) st)
    | inr other ↦
        ap (lookup key) hr
        ∙ (lookup-map_with_other state.reservations id key moved.reservation other ∙ found)
  ]
]

-- Where the reserve is what the reservations hold, a reservation that is consumed, released or held
-- unresolved stays as it is, whatever the engine carries out from then on.
pub EngineRun-keeps_settled :
    (p : Platform) (c : Crypto) (calendar : Calendar) (signer : ReceiptSigner)
    (state next : EngineState) (key : JsString) (r : Reservation)
    → IsFunded state
    → lookup key state.reservations ≡ some r
    → is_settled r.state ≡ true
    → EngineRun p c calendar signer state next
    → lookup key next.reservations ≡ some r
EngineRun-keeps_settled p c calendar signer state next key r f found settled nothing = found
EngineRun-keeps_settled p c calendar signer state next key r f found settled
      (then_step {middle = middle} run s) =
    let ih = EngineRun-keeps_settled p c calendar signer state middle key r f found settled run in
    let funded = EngineRun-IsFunded p c calendar signer state middle f run in
    MoneyChange-settled p calendar middle next key r
      (EngineStep-MoneyChange p c calendar signer middle next funded.keyed s) ih settled
