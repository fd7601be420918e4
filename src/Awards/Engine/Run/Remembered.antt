-- ===== src/Awards/Engine/Run/Remembered.antt =====
-- spikes/internal-invocation-awards/src/engine.mjs: the nonces and the keys that the engine has seen stay
-- in its state, and none of them is used twice.
use skill_asset_protocol.Base.{
  ◌≡◌, refl, ap, subst, ◌∙◌, JsString, text_eq, true, false, ok, arith, lookup, has_key, map_with,
  has_key-map_with, has_key-map_with_same, has_key-distinct, bind-ok, fail_if, Dictionary, not,
  some,
}
use skill_asset_protocol.Kernel.Platform.{Platform}
use skill_asset_protocol.Awards.Errors.{
  Calendar, identifier_used, nonce_format, credential_consumed,
}
use skill_asset_protocol.Awards.Quote.{Quote}
use skill_asset_protocol.Awards.Keys.{Crypto, nonce_pattern}
use skill_asset_protocol.Awards.Credentials.{Credential}
use skill_asset_protocol.Awards.Invocation.{Invocation}
use skill_asset_protocol.Awards.Receipts.Signed.{ReceiptSigner}
use skill_asset_protocol.Awards.Engine.{EngineState}
use skill_asset_protocol.Awards.Engine.Authorize.{AuthorizeInput, require_unused}
use skill_asset_protocol.Awards.Engine.Authorize.Operation.{
  authorized_state, authorize_internal_invocation,
}
use skill_asset_protocol.Awards.Engine.Cancel.{cancelled_state}
use skill_asset_protocol.Awards.Engine.Start.{started_state, begin_execution, require_startable}
use skill_asset_protocol.Awards.Engine.Finish.Operation.{finished_state}
use skill_asset_protocol.Awards.Engine.Steps.{authorize_internal_invocation-IsAuthorization}
use skill_asset_protocol.Awards.Engine.Steps.Cancelled.{
  cancel_internal_authorization-IsCancellation,
}
use skill_asset_protocol.Awards.Engine.Steps.Started.{begin_execution-IsStart}
use skill_asset_protocol.Awards.Engine.Steps.Finished.{finish_execution-IsEnd}
use skill_asset_protocol.Awards.Engine.Steps.Reversed.{record_award_reversal-IsReversal}
use skill_asset_protocol.Awards.Engine.Run.{
  EngineStep, authorizes, cancels, begins, finishes, reverses, EngineRun, nothing, then_step,
}

-- A map that has every key of another.
unfoldable pub Extends {ℓ} : {A : Type ℓ} → Dictionary A → Dictionary A → Type 0
Extends m m' = (key : JsString) → has_key key m ≡ true → has_key key m' ≡ true

Extends_refl {ℓ} : {A : Type ℓ} {m m' : Dictionary A} → m' ≡ m → Extends m m'
unfolding Extends
Extends_refl e key h = ap (has_key key) e ∙ h

Extends-map_with {ℓ} :
    {A : Type ℓ} (m : Dictionary A) {m' : Dictionary A} (k : JsString) (a : A)
    → m' ≡ map_with m k a
    → Extends m m'
unfolding Extends
Extends-map_with m k a e key h = ap (has_key key) e ∙ has_key-map_with m k key a h

Extends_trans {ℓ} :
    {A : Type ℓ} (m m' m'' : Dictionary A) → Extends m m' → Extends m' m'' → Extends m m''
unfolding Extends
Extends_trans m m' m'' h k key e = k key (h key e)

-- What a state has seen, a later state has seen.
pub record Remembers (state next : EngineState) : Type 0 where
  pub consumed : Extends state.consumed_nonces next.consumed_nonces
  pub issued : Extends state.issued_nonces next.issued_nonces
  pub principals : Extends state.consumed_principal_nonces next.consumed_principal_nonces
  pub keys : Extends state.idempotency next.idempotency

-- What a step leaves of the four maps.
quiet :
    (state next : EngineState)
    → next.consumed_nonces ≡ state.consumed_nonces
    → next.issued_nonces ≡ state.issued_nonces
    → next.consumed_principal_nonces ≡ state.consumed_principal_nonces
    → next.idempotency ≡ state.idempotency
    → Remembers state next
quiet state next a b c d = record {
  consumed = Extends_refl a;
  issued = Extends_refl b;
  principals = Extends_refl c;
  keys = Extends_refl d;
}

Remembers-trans : {a b c : EngineState} → Remembers a b → Remembers b c → Remembers a c
Remembers-trans h k = record {
  consumed = Extends_trans _ _ _ h.consumed k.consumed;
  issued = Extends_trans _ _ _ h.issued k.issued;
  principals = Extends_trans _ _ _ h.principals k.principals;
  keys = Extends_trans _ _ _ h.keys k.keys;
}

module _ (p : Platform) (c : Crypto) (calendar : Calendar) (signer : ReceiptSigner) where
  EngineStep-Remembers :
      (state next : EngineState) → EngineStep p c calendar signer state next → Remembers state next
  unfolding authorized_state cancelled_state started_state finished_state
  EngineStep-Remembers state next s = elim s [
    | authorizes input now h ↦
        let a = authorize_internal_invocation-IsAuthorization p c calendar state input now h in
        let e = a.next_part in
        record {
          consumed = Extends_refl (ap (λ (s : EngineState). s.consumed_nonces) e);
          issued =
              Extends-map_with state.issued_nonces input.credential_nonce _
                (ap (λ (s : EngineState). s.issued_nonces) e);
          principals =
              Extends-map_with state.consumed_principal_nonces a.plan.principal.nonce _
                (ap (λ (s : EngineState). s.consumed_principal_nonces) e);
          keys =
              Extends-map_with state.idempotency input.quote.idempotency_key _
                (ap (λ (s : EngineState). s.idempotency) e);
        }
    | cancels input now h ↦
        let e =
          (cancel_internal_authorization-IsCancellation p c calendar signer state input now
            h).next_part in
        quiet state next (ap (λ (s : EngineState). s.consumed_nonces) e)
          (ap (λ (s : EngineState). s.issued_nonces) e)
          (ap (λ (s : EngineState). s.consumed_principal_nonces) e)
          (ap (λ (s : EngineState). s.idempotency) e)
    | begins quote credential now h ↦
        let a = begin_execution-IsStart p c calendar state quote credential now h in
        let e = a.next_part in
        record {
          consumed =
              Extends-map_with state.consumed_nonces a.invocation.credential_nonce _
                (ap (λ (s : EngineState). s.consumed_nonces) e);
          issued = Extends_refl (ap (λ (s : EngineState). s.issued_nonces) e);
          principals = Extends_refl (ap (λ (s : EngineState). s.consumed_principal_nonces) e);
          keys = Extends_refl (ap (λ (s : EngineState). s.idempotency) e);
        }
    | finishes cas started raw now h ↦
        let a = finish_execution-IsEnd p c calendar signer state cas started raw now h in
        let e = a.finish_part.next_part in
        quiet state next (ap (λ (s : EngineState). s.consumed_nonces) e)
          (ap (λ (s : EngineState). s.issued_nonces) e)
          (ap (λ (s : EngineState). s.consumed_principal_nonces) e)
          (ap (λ (s : EngineState). s.idempotency) e)
    | reverses expected signed now h ↦
        let e =
          (record_award_reversal-IsReversal p c calendar state expected signed now h).next_part in
        quiet state next (ap (λ (s : EngineState). s.consumed_nonces) e)
          (ap (λ (s : EngineState). s.issued_nonces) e)
          (ap (λ (s : EngineState). s.consumed_principal_nonces) e)
          (ap (λ (s : EngineState). s.idempotency) e)
  ]

  pub EngineRun-Remembers :
      (state next : EngineState) → EngineRun p c calendar signer state next → Remembers state next
  EngineRun-Remembers state next nothing = quiet state next refl refl refl refl
  EngineRun-Remembers state next (then_step {middle = middle} run s) =
      Remembers-trans (EngineRun-Remembers state middle run) (EngineStep-Remembers middle next s)

  -- What an authorization and a start leave in the state.
  authorize_internal_invocation-has_key :
      (state next : EngineState) (input : AuthorizeInput) (now : JsString)
      → authorize_internal_invocation p c calendar state input now ≡ ok next
      → (has_key input.quote.idempotency_key next.idempotency ≡ true)
        × (has_key input.credential_nonce next.issued_nonces ≡ true)
  unfolding authorized_state
  authorize_internal_invocation-has_key state next input now h =
      let a = authorize_internal_invocation-IsAuthorization p c calendar state input now h in
      let e = a.next_part in
      (
        ap (λ (s : EngineState). has_key input.quote.idempotency_key s.idempotency) e
            ∙ has_key-map_with_same state.idempotency input.quote.idempotency_key _,
        ap (λ (s : EngineState). has_key input.credential_nonce s.issued_nonces) e
            ∙ has_key-map_with_same state.issued_nonces input.credential_nonce _,
      )

  authorize_internal_invocation-unused :
      (state next : EngineState) (input : AuthorizeInput) (now : JsString)
      → authorize_internal_invocation p c calendar state input now ≡ ok next
      → (has_key input.quote.idempotency_key state.idempotency ≡ false)
        × (has_key input.credential_nonce state.issued_nonces ≡ false)
  unfolding require_unused
  authorize_internal_invocation-unused state next input now h =
      let a = authorize_internal_invocation-IsAuthorization p c calendar state input now h in
      let key =
        bind-ok (fail_if (has_key input.quote.idempotency_key state.idempotency) identifier_used)
          a.unused_part in
      let invocation =
        bind-ok (fail_if (has_key input.quote.invocation_id state.invocations) identifier_used)
          key.2 in
      let reservation =
        bind-ok (fail_if (has_key input.reservation_id state.reservations) identifier_used)
          invocation.2 in
      let format =
        bind-ok (fail_if (not (nonce_pattern input.credential_nonce)) nonce_format) reservation.2 in
      let unused = key.1 in let fresh = format.2 in (ground arith, ground arith)

  -- Two authorizations that the engine grants, with whatever it carries out between them, have
  -- different idempotency keys and different credential nonces.
  pub authorize_internal_invocation-once :
      (before after later last : EngineState) (input next_input : AuthorizeInput)
      (now then_now : JsString)
      → authorize_internal_invocation p c calendar before input now ≡ ok after
      → EngineRun p c calendar signer after later
      → authorize_internal_invocation p c calendar later next_input then_now ≡ ok last
      → (text_eq input.quote.idempotency_key next_input.quote.idempotency_key ≡ false)
        × (text_eq input.credential_nonce next_input.credential_nonce ≡ false)
  unfolding Extends
  authorize_internal_invocation-once before after later last input next_input now then_now h run k =
      let seen = authorize_internal_invocation-has_key before after input now h in
      let unused = authorize_internal_invocation-unused later last next_input then_now k in
      let kept = EngineRun-Remembers after later run in
      (
        has_key-distinct later.idempotency input.quote.idempotency_key
            next_input.quote.idempotency_key (kept.keys input.quote.idempotency_key seen.0)
            unused.0,
        has_key-distinct later.issued_nonces input.credential_nonce next_input.credential_nonce
            (kept.issued input.credential_nonce seen.1) unused.1,
      )

  -- Two executions that the engine starts, with whatever it carries out between them, are of
  -- Invocations with different credential nonces: a credential starts one execution.
  pub begin_execution-once :
      (before after later last : EngineState) (quote next_quote : Quote)
      (credential next_credential : Credential) (now then_now : JsString)
      → begin_execution p c calendar before quote credential now ≡ ok after
      → EngineRun p c calendar signer after later
      → begin_execution p c calendar later next_quote next_credential then_now ≡ ok last
      → (v : Invocation) × (v' : Invocation) × (lookup quote.invocation_id before.invocations
          ≡ some v)
        × (lookup next_quote.invocation_id later.invocations ≡ some v')
        × (text_eq v.credential_nonce v'.credential_nonce ≡ false)
  unfolding Extends started_state require_startable
  begin_execution-once before after later last quote next_quote credential next_credential now
        then_now h run k =
      let a = begin_execution-IsStart p c calendar before quote credential now h in
      let b = begin_execution-IsStart p c calendar later next_quote next_credential then_now k in
      let kept = EngineRun-Remembers after later run in
      let nonce = a.invocation.credential_nonce in
      let seen : has_key nonce after.consumed_nonces ≡ true =
        ap (λ (s : EngineState). has_key nonce s.consumed_nonces) a.next_part
        ∙ has_key-map_with_same before.consumed_nonces nonce _ in
      let fresh =
        bind-ok
          (fail_if (has_key b.invocation.credential_nonce later.consumed_nonces)
            credential_consumed)
          b.startable_part in
      let unused = fresh.1 in
      (
        a.invocation,
        b.invocation,
        subst (λ (q : Quote). lookup q.invocation_id before.invocations ≡ some a.invocation)
            a.quote_part a.invocation_part,
        subst (λ (q : Quote). lookup q.invocation_id later.invocations ≡ some b.invocation)
            b.quote_part b.invocation_part,
        has_key-distinct later.consumed_nonces nonce b.invocation.credential_nonce
            (kept.consumed nonce seen) (ground arith),
      )
