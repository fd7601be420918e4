-- ===== src/Awards/Engine/Run/Numbered.antt =====
-- spikes/internal-invocation-awards/src/engine.mjs: the receipts that the engine commits are numbered
-- without a gap.
use skill_asset_protocol.Base.{◌≡◌, sym, ap, subst, ok, ok-injective, bind-ok, Option, none}
use skill_asset_protocol.Kernel.Platform.{Platform}
use skill_asset_protocol.Awards.Errors.{Calendar}
use skill_asset_protocol.Awards.Keys.{Crypto}
use skill_asset_protocol.Awards.Budget.{Reservation}
use skill_asset_protocol.Awards.Invocation.{Invocation, Award}
use skill_asset_protocol.Awards.Receipts.Build.{build_invocation_receipt}
use skill_asset_protocol.Awards.Receipts.Signed.{
  ReceiptSigner, sign_receipt_with_capability, verify_receipt, receipt_hash,
}
use skill_asset_protocol.Awards.Ledger.{append_signed_receipt}
use skill_asset_protocol.Awards.Ledger.Contiguous.{IsContiguous, append_signed_receipt-IsContiguous}
use skill_asset_protocol.Awards.Engine.{EngineState}
use skill_asset_protocol.Awards.Engine.Authorize.Operation.{authorized_state}
use skill_asset_protocol.Awards.Engine.Commit.{Committed, commit_receipt}
use skill_asset_protocol.Awards.Engine.Cancel.{cancelled_state, cancelled_invocation}
use skill_asset_protocol.Awards.Engine.Start.{started_state}
use skill_asset_protocol.Awards.Engine.Finish.Operation.{finished_state}
use skill_asset_protocol.Awards.Engine.Steps.{authorize_internal_invocation-IsAuthorization}
use skill_asset_protocol.Awards.Engine.Steps.Cancelled.{
  cancel_internal_authorization-IsCancellation,
}
use skill_asset_protocol.Awards.Engine.Steps.Started.{begin_execution-IsStart}
use skill_asset_protocol.Awards.Engine.Steps.Finished.{finish_execution-IsEnd}
use skill_asset_protocol.Awards.Engine.Steps.Reversed.{record_award_reversal-IsReversal}
use skill_asset_protocol.Awards.Engine.Run.{
  EngineStep, authorizes, cancels, begins, finishes, reverses, EngineRun, nothing, then_step,
}

module _ (p : Platform) (c : Crypto) (calendar : Calendar) (signer : ReceiptSigner) where
  commit_receipt-IsContiguous :
      (state : EngineState) (v : Invocation) (r : Reservation) (award : Option Award)
      {committed : Committed}
      → IsContiguous state.ledger
      → commit_receipt p c calendar signer state v r award ≡ ok committed
      → IsContiguous committed.ledger
  unfolding commit_receipt
  commit_receipt-IsContiguous state v r award {committed} k h =
      let unsigned =
        bind-ok (build_invocation_receipt p calendar v r award v.beneficiary_id signer.signer_id)
          h in
      let signed =
        bind-ok (sign_receipt_with_capability p c calendar unsigned.0 signer) unsigned.2 in
      let verified =
        bind-ok (verify_receipt p c calendar signed.0 state.receipt_signers) signed.2 in
      let hash = bind-ok (receipt_hash p c calendar signed.0) verified.2 in
      let ledger =
        bind-ok (append_signed_receipt p c calendar state.ledger signed.0 hash.0) hash.2 in
      let e = ap (λ (x : Committed). x.ledger) (ok-injective ledger.2) in
      subst IsContiguous e (
        append_signed_receipt-IsContiguous p c calendar state.ledger ledger.0 signed.0 hash.0 k
          ledger.1)

  EngineStep-IsContiguous :
      (state next : EngineState)
      → IsContiguous state.ledger
      → EngineStep p c calendar signer state next
      → IsContiguous next.ledger
  unfolding authorized_state cancelled_state started_state finished_state
  EngineStep-IsContiguous state next k s = elim s [
    | authorizes input now h ↦
        let a = authorize_internal_invocation-IsAuthorization p c calendar state input now h in
        subst IsContiguous (sym (ap (λ (s : EngineState). s.ledger) a.next_part)) k
    | cancels input now h ↦
        let a =
          cancel_internal_authorization-IsCancellation p c calendar signer state input now h in
        subst IsContiguous (sym (ap (λ (s : EngineState). s.ledger) a.next_part)) (
          commit_receipt-IsContiguous state
            (cancelled_invocation a.invocation a.reservation a.place now) a.released.reservation
            none k a.commit_part)
    | begins quote credential now h ↦
        let a = begin_execution-IsStart p c calendar state quote credential now h in
        subst IsContiguous (sym (ap (λ (s : EngineState). s.ledger) a.next_part)) k
    | finishes cas started raw now h ↦
        let a = finish_execution-IsEnd p c calendar signer state cas started raw now h in
        let f = a.finish_part in
        subst IsContiguous (sym (ap (λ (s : EngineState). s.ledger) f.next_part)) (
          commit_receipt-IsContiguous state f.ending.invocation f.ending.money.reservation
            f.ending.award k f.commit_part)
    | reverses expected signed now h ↦
        let a = record_award_reversal-IsReversal p c calendar state expected signed now h in
        subst IsContiguous (sym (ap (λ (s : EngineState). s.ledger) a.next_part)) k
  ]

  -- Whatever the engine carries out from a state whose receipts are numbered from 1 in each scope without a
  -- gap or a repetition, the receipts of the state it leaves are so numbered.
  pub EngineRun-IsContiguous :
      (state next : EngineState)
      → IsContiguous state.ledger
      → EngineRun p c calendar signer state next
      → IsContiguous next.ledger
  EngineRun-IsContiguous state next k nothing = k
  EngineRun-IsContiguous state next k (then_step {middle = middle} run s) =
      EngineStep-IsContiguous middle next (EngineRun-IsContiguous state middle k run) s
