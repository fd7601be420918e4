-- ===== src/Awards/Store.antt =====
-- spikes/internal-invocation-awards/src/store.mjs: the store of a state with a revision. Its
-- transactions run on the state they find and leave one of the next revision.
use skill_asset_protocol.Base.{
  ℕ, ◌+◌, ◌≡◌, not, ◌==◌, Result, ok, ◌>>=◌, ◌>>◌, fail_if, Result-cases, inl, inr, arith,
}
use skill_asset_protocol.Awards.Errors.{AwardError, stale_engine_revision, revision_not_advanced}

module _ {S : Type 0} (revision : S → ℕ) where
  -- The state that a transition returns is one revision further.
  unfoldable pub advance : S → (S → Result AwardError S) → Result AwardError S
  advance current transition = do
    next ← transition current
    fail_if (not (revision next == revision current + 1)) revision_not_advanced
    ok next

  -- The operation that `transact` queues, on the state it finds.
  unfoldable pub transact : S → ℕ → (S → Result AwardError S) → Result AwardError S
  transact current expected transition = do
    fail_if (not (revision current == expected)) stale_engine_revision
    advance current transition

  pub advance-eq-ok :
      (current : S) (transition : S → Result AwardError S) {next : S}
      → advance current transition ≡ ok next
      → (transition current ≡ ok next) × (revision next ≡ revision current + 1)
  unfolding advance
  advance-eq-ok current transition h = elim (Result-cases (transition current)) [
    | inr (code, failed) ↦ absurd (ground arith)
    | inl (next, given) ↦ ground arith
  ]

  pub transact-eq-ok :
      (current : S) (expected : ℕ) (transition : S → Result AwardError S) {next : S}
      → transact current expected transition ≡ ok next
      → (revision current ≡ expected)
        × (transition current ≡ ok next)
        × (revision next ≡ revision current + 1)
  unfolding transact advance
  transact-eq-ok current expected transition h = elim (Result-cases (transition current)) [
    | inr (code, failed) ↦ absurd (ground arith)
    | inl (next, given) ↦ ground arith
  ]
