-- ===== src/Awards/Engine/Queue.antt =====
-- spikes/internal-invocation-awards/src/store.mjs: the queue of the store. The operations of
-- `transact` and of `transactRecord` run one after the other, in the order in which they were queued.
use skill_asset_protocol.Base.{
  ℕ, ◌+◌, ◌≡◌, sym, ap, subst, List, [], ◌∷◌, Option, some, none, JsString, length, Result, ok, err,
  Result-cases, bind-ok, inl, inr, arith, lookup, text_eq→eq, text_eq_refl, null, true, false,
}
use skill_asset_protocol.Awards.Errors.{AwardError, record_missing}
use skill_asset_protocol.Awards.Budget.{Reservation}
use skill_asset_protocol.Awards.Invocation.{Invocation}
use skill_asset_protocol.Awards.Receipts.{is_text}
use skill_asset_protocol.Awards.Store.{advance, transact, transact-eq-ok, advance-eq-ok}
use skill_asset_protocol.Awards.Engine.{EngineState, require_found}
use skill_asset_protocol.Awards.Engine.Finish.Operation.{
  RecordCas, require_current_records, transact_record,
}
use skill_asset_protocol.Awards.Engine.Steps.{require_found-eq-ok}

-- A call of `transact` or of `transactRecord`.
pub data Request : Type 0 where
  engine_request :
      (expected : ℕ) (transition : EngineState → Result AwardError EngineState) → Request
  record_request :
      (cas : RecordCas)
      (transition : EngineState → Invocation → Reservation → Result AwardError EngineState)
      → Request

-- The operation of a request, on the state it finds.
unfoldable pub perform : EngineState → Request → Result AwardError EngineState
perform state (engine_request expected transition) =
    transact (λ (s : EngineState). s.revision) state expected transition
perform state (record_request cas transition) = transact_record state cas transition

-- The state that is left, and the requests that were accepted.
pub record Served : Type 0 where
  pub state : EngineState
  pub accepted : List Request

-- One operation of the queue: a failed one leaves the state.
unfoldable pub serve_one : Request → Result AwardError EngineState → Served → Served
serve_one request (ok next) rest = record rest { accepted = request ∷ rest.accepted }
serve_one request (err e) rest = rest

abbrev pub left : EngineState → Result AwardError EngineState → EngineState
left current (ok next) = next
left current (err e) = current

-- The queue `#tail`: every operation runs on the state that those before it have left.
unfoldable pub serve : EngineState → List Request → Served
serve current [] = record { state = current; accepted = [] }
serve current (request ∷ requests) =
    let result = perform current request in
    serve_one request result (serve (left current result) requests)

-- A request that the state is the one for: its revision, or the revisions and the attempt of the
-- two records; its transition leads to the next state, which is one revision further.
abbrev pub Accepts : EngineState → Request → EngineState → Type 0
Accepts s (engine_request expected transition) next =
    (s.revision ≡ expected) × (transition s ≡ ok next) × (next.revision ≡ s.revision + 1)
Accepts s (record_request cas transition) next =
    (v : Invocation) × (r : Reservation) × (lookup cas.invocation_id s.invocations ≡ some v)
    × (lookup cas.reservation_id s.reservations ≡ some r)
    × (v.revision ≡ cas.expected_invocation_revision)
    × (r.revision ≡ cas.expected_reservation_revision)
    × (null cas.execution_attempt_id ≡ false)
    × (v.execution_attempt_id ≡ some cas.execution_attempt_id)
    × (r.execution_attempt_id ≡ some cas.execution_attempt_id)
    × (transition s v r ≡ ok next)
    × (next.revision ≡ s.revision + 1)

-- The requests, those of them that are accepted, and the state that these lead to.
pub data Serves : EngineState → List Request → List Request → EngineState → Type 0 where
  idle : {s : EngineState} → Serves s [] [] s
  accept :
      {s next end : EngineState} {request : Request} {requests accepted : List Request}
      → Accepts s request next
      → Serves next requests accepted end
      → Serves s (request ∷ requests) (request ∷ accepted) end
  refuse :
      {s end : EngineState} {request : Request} {requests accepted : List Request}
      → ((next : EngineState) → ¬ Accepts s request next)
      → Serves s requests accepted end
      → Serves s (request ∷ requests) accepted end

-- The n-th accepted request, counted from a revision, was sent for that revision if it was sent
-- for a revision of the engine.
abbrev pub InOrder : ℕ → List Request → Type 0
InOrder n [] = Unit
InOrder n (engine_request expected transition ∷ rest) = (expected ≡ n) × InOrder (n + 1) rest
InOrder n (record_request cas transition ∷ rest) = InOrder (n + 1) rest

is_text→eq : (s : JsString) (o : Option JsString) → is_text s o ≡ true → o ≡ some s
is_text→eq s none h = absurd (ground arith)
is_text→eq s (some t) h = ap some (text_eq→eq t s h)

is_text-some : (s : JsString) (o : Option JsString) → o ≡ some s → is_text s o ≡ true
is_text-some s o h = rw h (text_eq_refl s)

-- The records are the ones that were named exactly where the check of them passes.
current_records :
    (cas : RecordCas) (v : Invocation) (r : Reservation)
    → require_current_records cas v r ≡ ok tt
    → (v.revision ≡ cas.expected_invocation_revision)
      × (r.revision ≡ cas.expected_reservation_revision)
      × (null cas.execution_attempt_id ≡ false)
      × (v.execution_attempt_id ≡ some cas.execution_attempt_id)
      × (r.execution_attempt_id ≡ some cas.execution_attempt_id)
unfolding require_current_records
current_records cas v r h = (
  ground arith,
  ground arith,
  ground arith,
  is_text→eq cas.execution_attempt_id v.execution_attempt_id (ground arith),
  is_text→eq cas.execution_attempt_id r.execution_attempt_id (ground arith),
)

perform-Accepts :
    (s : EngineState) (request : Request) {next : EngineState}
    → perform s request ≡ ok next
    → Accepts s request next
unfolding perform
perform-Accepts s (engine_request expected transition) h =
    transact-eq-ok (λ (t : EngineState). t.revision) s expected transition h
perform-Accepts s (record_request cas transition) h =
    unfold transact_record in
    let (v, found_v, h1) =
      bind-ok (require_found record_missing (lookup cas.invocation_id s.invocations)) h in
    let (r, found_r, h2) =
      bind-ok (require_found record_missing (lookup cas.reservation_id s.reservations)) h1 in
    let (u, checked, h3) = bind-ok (require_current_records cas v r) h2 in
    let (a, b, c, d, e) = current_records cas v r checked in
    let (made, further) =
      advance-eq-ok (λ (t : EngineState). t.revision) s (λ t. transition t v r) h3 in
    (
      v,
      r,
      require_found-eq-ok record_missing (lookup cas.invocation_id s.invocations) found_v,
      require_found-eq-ok record_missing (lookup cas.reservation_id s.reservations) found_r,
      a,
      b,
      c,
      d,
      e,
      made,
      further,
    )

Accepts-perform :
    (s : EngineState) (request : Request) {next : EngineState}
    → Accepts s request next
    → perform s request ≡ ok next
unfolding perform transact advance
Accepts-perform s (engine_request expected transition) h = ground (arith, h.0, h.1, h.2)
Accepts-perform s (record_request cas transition)
      (v, r, found_v, found_r, a, b, c, d, e, made, further) =
    unfold transact_record require_found require_current_records in
    let is_v = is_text-some cas.execution_attempt_id v.execution_attempt_id d in
    let is_r = is_text-some cas.execution_attempt_id r.execution_attempt_id e in
    rw found_v (rw found_r (ground (arith, is_v, is_r)))

Accepts-revision :
    (s next : EngineState) (request : Request)
    → Accepts s request next
    → next.revision ≡ s.revision + 1
Accepts-revision s next (engine_request expected transition) h = h.2
Accepts-revision s next (record_request cas transition)
      (v, r, found_v, found_r, a, b, c, d, e, made, further) =
    further

serve-Serves :
    (s : EngineState) (requests : List Request)
    → Serves s requests (serve s requests).accepted (serve s requests).state
unfolding serve serve_one
serve-Serves s [] = idle
serve-Serves s (request ∷ requests) = elim (Result-cases (perform s request)) [
  | inl (next, done) ↦
      rw done (accept (perform-Accepts s request done) (serve-Serves next requests))
  | inr (code, failed) ↦ rw failed (
      refuse (λ next a. absurd (Result-distinct (Accepts-perform s request a) failed))
        (serve-Serves s requests))
]
  where
    Result-distinct :
        {m : Result AwardError EngineState} {next : EngineState} {code : AwardError}
        → m ≡ ok next
        → m ≡ err code
        → ⊥
    Result-distinct g f = cc

-- What the accepted requests say of the revisions.
Serves-revision :
    {s end : EngineState} {requests accepted : List Request}
    → Serves s requests accepted end
    → end.revision ≡ s.revision + length accepted
Serves-revision idle = omega arith
Serves-revision {s} (accept {next = next} {request = request} a rest) =
    omega (arith, Accepts-revision s next request a, Serves-revision rest)
Serves-revision (refuse a rest) = Serves-revision rest

Serves-InOrder :
    {s end : EngineState} {requests accepted : List Request}
    → Serves s requests accepted end
    → InOrder s.revision accepted
Serves-InOrder idle = tt
Serves-InOrder {s}
      (accept {next = next} {request = engine_request expected transition} {accepted = accepted} a
        rest) =
    (sym a.0, subst (λ n. InOrder n accepted) a.2 (Serves-InOrder rest))
Serves-InOrder {s}
      (accept {next = next} {request = record_request cas transition} {accepted = accepted} a
        rest) =
    subst (λ n. InOrder n accepted) (Accepts-revision s next (record_request cas transition) a)
      (Serves-InOrder rest)
Serves-InOrder (refuse a rest) = Serves-InOrder rest

-- Whatever transactions of both kinds are queued: each is accepted exactly if the state that those
-- before it have left is the one it was sent for, by the revision of the engine or by the revisions
-- and the attempt of the two records, and its transition leads to a state of the next revision;
-- otherwise it changes nothing. The revision at the end counts the accepted ones, and one that was
-- accepted for a revision of the engine was sent for the first revision and as many further as
-- were accepted before it: no two of them were sent for the same revision.
pub serve_lem :
    (current : EngineState) (requests : List Request)
    → let served = serve current requests in
      Serves current requests served.accepted served.state
      × (served.state.revision ≡ current.revision + length served.accepted)
      × InOrder current.revision served.accepted
serve_lem current requests =
    let run = serve-Serves current requests in (run, Serves-revision run, Serves-InOrder run)
