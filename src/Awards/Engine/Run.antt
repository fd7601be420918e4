-- ===== src/Awards/Engine/Run.antt =====
-- spikes/internal-invocation-awards/src/engine.mjs: the operations as steps of the engine, and runs of
-- any number of them.
pub mod Change
pub mod Funded
pub mod Remembered
pub mod Numbered
pub mod Settled
use skill_asset_protocol.Base.{ℕ, ◌≡◌, refl, JsString, ok, arith}
use skill_asset_protocol.Kernel.Platform.{Platform}
use skill_asset_protocol.Awards.Errors.{Calendar}
use skill_asset_protocol.Awards.Quote.{Quote}
use skill_asset_protocol.Awards.Keys.{Crypto}
use skill_asset_protocol.Awards.Credentials.{Credential}
use skill_asset_protocol.Awards.Budget.{Reservation}
use skill_asset_protocol.Awards.Outcome.{RawOutcome}
use skill_asset_protocol.Awards.Receipts.Signed.{ReceiptSigner}
use skill_asset_protocol.Awards.Engine.{EngineState, SignedReversal}
use skill_asset_protocol.Awards.Engine.Authorize.{AuthorizeInput}
use skill_asset_protocol.Awards.Engine.Authorize.Operation.{authorize_internal_invocation}
use skill_asset_protocol.Awards.Engine.Cancel.{CancelInput, cancel_internal_authorization}
use skill_asset_protocol.Awards.Engine.Start.{begin_execution}
use skill_asset_protocol.Awards.Engine.Finish.Operation.{RecordCas, finish_execution}
use skill_asset_protocol.Awards.Engine.Reversal.{record_award_reversal}

module _ (p : Platform) (c : Crypto) (calendar : Calendar) (signer : ReceiptSigner) where
  -- One operation that the engine has carried out. The last one of an execution is given whatever
  -- its executor returned.
  pub data EngineStep (state next : EngineState) : Type 0 where
    authorizes :
        (input : AuthorizeInput) (now : JsString)
        → authorize_internal_invocation p c calendar state input now ≡ ok next
        → EngineStep state next
    cancels :
        (input : CancelInput) (now : JsString)
        → cancel_internal_authorization p c calendar signer state input now ≡ ok next
        → EngineStep state next
    begins :
        (quote : Quote) (credential : Credential) (now : JsString)
        → begin_execution p c calendar state quote credential now ≡ ok next
        → EngineStep state next
    finishes :
        (cas : RecordCas) (started : Reservation) (raw : RawOutcome) (now : JsString)
        → finish_execution p c calendar signer state cas started raw now ≡ ok next
        → EngineStep state next
    reverses :
        (expected : ℕ) (signed : SignedReversal) (now : JsString)
        → record_award_reversal p c calendar state expected signed now ≡ ok next
        → EngineStep state next

  pub data EngineRun (state : EngineState) : EngineState → Type 0 where
    nothing : EngineRun state state
    then_step :
        {middle next : EngineState}
        → EngineRun state middle
        → EngineStep middle next
        → EngineRun state next
