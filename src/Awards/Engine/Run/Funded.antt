-- ===== src/Awards/Engine/Run/Funded.antt =====
-- spikes/internal-invocation-awards/src/engine.mjs and budget.mjs: the reserve of the budget is what the
-- reservations of the engine hold of it.
use skill_asset_protocol.Base.{
  ℕ, ◌+◌, ◌≡◌, sym, ap, subst, ◌∙◌, some, JsString, false, All, All-lookup, All-map_with, Result,
  ok, err, ok-injective, arith, lookup, has_key, map_with, values, sum_by, sum_by-map_with,
  sum_by-map_with_new, Dictionary,
}
use skill_asset_protocol.Kernel.Platform.{Platform}
use skill_asset_protocol.Awards.Errors.{AwardError, Calendar}
use skill_asset_protocol.Awards.Schema.{to_atomic}
use skill_asset_protocol.Awards.Keys.{Crypto}
use skill_asset_protocol.Awards.Budget.{Reservation, Totals, read_totals}
use skill_asset_protocol.Awards.Quote.{Quote}
use skill_asset_protocol.Awards.Budget.Moves.{Moved, reserve_budget}
use skill_asset_protocol.Awards.Budget.Life.{Step}
use skill_asset_protocol.Awards.Budget.Amounts.{reserve_totals, reserve_budget_refines}
use skill_asset_protocol.Awards.Budget.Reserved.{reserve_budget-reservation}
use skill_asset_protocol.Awards.Budget.Life.Conserved.{Step-Kept, held_amount}
use skill_asset_protocol.Awards.Receipts.Signed.{ReceiptSigner}
use skill_asset_protocol.Awards.Engine.{EngineState}
use skill_asset_protocol.Awards.Engine.Run.{EngineRun, nothing, then_step}
use skill_asset_protocol.Awards.Engine.Run.Change.{
  IsKeyed, IsKeyed-lookup, MoneyChange, reserves, moves, keeps, EngineStep-MoneyChange,
}

abbrev amount_or_zero : Result AwardError ℕ → ℕ
amount_or_zero (ok n) = n
amount_or_zero (err e) = 0

-- What a reservation holds of the reserve of its budget.
unfoldable pub held_by : Reservation → ℕ
held_by r = held_amount r.state (amount_or_zero (to_atomic r.reserved_atomic))

held_by-readable :
    (r : Reservation) {n : ℕ}
    → to_atomic r.reserved_atomic ≡ ok n
    → held_by r ≡ held_amount r.state n
unfolding held_by
held_by-readable r e = ap (λ m. held_amount r.state (amount_or_zero m)) e

unfoldable pub IsReadable : Dictionary Reservation → Type 0
IsReadable = All (λ x. (n : ℕ) × (to_atomic x.1.reserved_atomic ≡ ok n))

-- The reserve of the budget is the sum of what the reservations hold, and every reservation stands
-- under its identifier with a readable amount.
pub record IsFunded (state : EngineState) : Type 0 where
  pub totals : Totals
  pub read : read_totals state.budget ≡ ok totals
  pub keyed : IsKeyed state.reservations
  pub readable : IsReadable state.reservations
  pub funded : totals.in_reserve ≡ sum_by held_by (values state.reservations)

module _ (p : Platform) (calendar : Calendar) where
  keeps-IsFunded :
      (state next : EngineState)
      → IsFunded state
      → next.budget ≡ state.budget
      → next.reservations ≡ state.reservations
      → IsFunded next
  keeps-IsFunded state next f hb hr = record {
    totals = f.totals;
    read = ap read_totals hb ∙ f.read;
    keyed = subst IsKeyed (sym hr) f.keyed;
    readable = subst IsReadable (sym hr) f.readable;
    funded = f.funded ∙ ap (λ m. sum_by held_by (values m)) (sym hr);
  }

  reserves-IsFunded :
      (state next : EngineState) (quote : Quote) (expected : ℕ) (id now : JsString) (moved : Moved)
      → IsFunded state
      → has_key id state.reservations ≡ false
      → reserve_budget p calendar state.budget quote expected id now ≡ ok moved
      → next.budget ≡ moved.budget
      → next.reservations ≡ map_with state.reservations id moved.reservation
      → IsFunded next
  unfolding held_amount IsKeyed IsReadable
  reserves-IsFunded state next quote expected id now moved f new h hb hr =
      let t = reserve_budget_refines p calendar state.budget quote expected id now h in
      let made = reserve_budget-reservation p calendar state.budget quote expected id now h in
      let same : t.0 ≡ f.totals = ok-injective (sym t.2 ∙ f.read) in
      let e = ap (λ (x : Totals). x.in_reserve) same in
      let holds : held_by moved.reservation ≡ t.1 =
        held_by-readable moved.reservation t.3 ∙ ap (λ s. held_amount s t.1) made.0 in
      let total = sum_by-map_with_new held_by state.reservations id moved.reservation new in
      let before = f.funded in
      let sum : t.0.in_reserve + t.1
          ≡ sum_by held_by (values (map_with state.reservations id moved.reservation)) =
        omega (arith, e, holds, total, before) in
      record {
        totals = reserve_totals t.0 t.1;
        read = ap read_totals hb ∙ t.4;
        keyed = subst IsKeyed (sym hr) (
            All-map_with (λ x. x.0 ≡ x.1.reservation_id) state.reservations id moved.reservation
              f.keyed (sym made.1));
        readable = subst IsReadable (sym hr) (
            All-map_with (λ x. (n : ℕ) × (to_atomic x.1.reserved_atomic ≡ ok n)) state.reservations
              id moved.reservation f.readable (t.1, t.3));
        funded = sum ∙ ap (λ m. sum_by held_by (values m)) (sym hr);
      }

  moves-IsFunded :
      (state next : EngineState) (id : JsString) (r : Reservation) (moved : Moved)
      → IsFunded state
      → lookup id state.reservations ≡ some r
      → Step calendar state.budget r moved
      → next.budget ≡ moved.budget
      → next.reservations ≡ map_with state.reservations id moved.reservation
      → IsFunded next
  unfolding IsKeyed IsReadable
  moves-IsFunded state next id r moved f found s hb hr =
      let n =
        All-lookup (λ x. (n : ℕ) × (to_atomic x.1.reserved_atomic ≡ ok n)) state.reservations id
          f.readable found in
      let k = Step-Kept calendar state.budget r moved f.read n.1 s in
      let others = k.keeps.others in
      let before = held_by-readable r n.1 in
      let after = held_by-readable moved.reservation k.amount in
      let total = sum_by-map_with held_by state.reservations id moved.reservation found in
      let all_before = f.funded in
      let sum : k.totals.in_reserve
          ≡ sum_by held_by (values (map_with state.reservations id moved.reservation)) =
        omega (arith, others, before, after, total, all_before) in
      record {
        totals = k.totals;
        read = ap read_totals hb ∙ k.read;
        keyed = subst IsKeyed (sym hr) (
            All-map_with (λ x. x.0 ≡ x.1.reservation_id) state.reservations id moved.reservation
              f.keyed (IsKeyed-lookup state.reservations id f.keyed found ∙ sym k.identity));
        readable = subst IsReadable (sym hr) (
            All-map_with (λ x. (n : ℕ) × (to_atomic x.1.reserved_atomic ≡ ok n)) state.reservations
              id moved.reservation f.readable (n.0, k.amount));
        funded = sum ∙ ap (λ m. sum_by held_by (values m)) (sym hr);
      }

-- Whatever the engine carries out, in any number of steps and with whatever the executors return, the
-- reserve of its budget stays the sum of what its reservations hold.
pub EngineRun-IsFunded :
    (p : Platform) (c : Crypto) (calendar : Calendar) (signer : ReceiptSigner)
    (state next : EngineState)
    → IsFunded state
    → EngineRun p c calendar signer state next
    → IsFunded next
EngineRun-IsFunded p c calendar signer state next f nothing = f
EngineRun-IsFunded p c calendar signer state next f (then_step {middle = middle} run s) =
    let ih = EngineRun-IsFunded p c calendar signer state middle f run in
    by_change middle ih (EngineStep-MoneyChange p c calendar signer middle next ih.keyed s)
  where
    by_change :
        (middle : EngineState)
        → IsFunded middle
        → MoneyChange p calendar middle next
        → IsFunded next
    by_change middle g (keeps hb hr) = keeps-IsFunded p calendar middle next g hb hr
    by_change middle g (reserves quote expected id now moved new h hb hr) =
        reserves-IsFunded p calendar middle next quote expected id now moved g new h hb hr
    by_change middle g (moves id r moved found st hb hr) =
        moves-IsFunded p calendar middle next id r moved g found st hb hr
