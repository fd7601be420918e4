-- ===== src/Money/Royalty/Flow/Credits.antt =====
-- prototype/atomic-money.mjs: the credits of `allocateRoyaltyGraph` are those of the flow.
use Prim.Native.Nat.{zero, suc}
use mathlib.Core.List.{append-nil, append_assoc}
use skill_asset_protocol.Base.{
  ℕ, ◌+◌, List, [], ◌∷◌, ◌++◌, map, ◌≡◌, ◌∙◌, refl, sym, ap, ok-injective, subst, bigint, pos,
  select, not, Result, ok, arith, Result-cases, Bool-cases, bind-ok, inl, inr, JsString,
}
use skill_asset_protocol.Money.Input.{MoneyError, assert_atomic}
use skill_asset_protocol.Money.Weights.{Credited}
use skill_asset_protocol.Money.Royalty.{
  Skills, each, Spread, Credit, credit_of, distribute, is_holder, Royalty, total_credits,
  allocate_royalty_graph, validate_reachable, ancestry_fuel, no_visits, no_credits, start_credit,
}
use skill_asset_protocol.Money.Royalty.Conserves.{
  distribute-IsVisit, entered, allocate_royalty_graph_conserves,
}
use skill_asset_protocol.Money.Royalty.Flow.{Flow, flow, Flows, nowhere, onward, at_leaf}
use skill_asset_protocol.Money.Royalty.Flow.Hops.{hop-IsFairHop}

-- A visit adds the credits of a flow to those that it finds.
Adds : Skills → ℕ → Credited → Spread → Spread → Type 0
Adds skills depth to s s' =
    (cs : List Credit) × Flow skills depth to cs × (s'.credits ≡ s.credits ++ cs)

each-Flows :
    (skills : Skills) (depth : ℕ) (visit : Credited → Spread → Result MoneyError Spread)
    → ((x : Credited) (s s' : Spread) → visit x s ≡ ok s' → Adds skills depth x s s')
    → (xs : List Credited) (s s' : Spread) → each visit xs s ≡ ok s'
    → (cs : List Credit) × Flows skills depth xs cs × (s'.credits ≡ s.credits ++ cs)
unfolding each Adds
each-Flows skills depth visit step [] s s' e =
    ([], nowhere, rw append-nil (ap (λ (t : Spread). t.credits) (sym (ok-injective e))))
each-Flows skills depth visit step (x ∷ xs) s s' e =
    let (middle, first, e1) = bind-ok (visit x s) e in
    let (cs, along, added) = step x s middle first in
    let (rest, others, more) = each-Flows skills depth visit step xs middle s' e1 in
    (
      cs ++ rest,
      onward along others refl,
      more ∙ ap (λ l. l ++ rest) added ∙ append_assoc s.credits cs rest,
    )

distribute-Flow :
    (skills : Skills) (fuel depth : ℕ) (to : Credited) (state after : Spread)
    → distribute skills fuel depth to state ≡ ok after
    → Adds skills depth to state after
unfolding Adds
distribute-Flow skills zero depth to state after e = unfold distribute in absurd (ground arith)
distribute-Flow skills (suc fuel) depth to state after e =
    let v = distribute-IsVisit skills fuel depth to state after e in
    let own = map (credit_of to.key depth) v.split.holder_rows in
    let (up, along, added) =
      each-Flows skills (depth + 1) (distribute skills fuel (depth + 1))
        (distribute-Flow skills fuel (depth + 1)) v.split.rows (entered depth to state v.split)
        v.end v.done in
    (
      own ++ up,
      flow v.split (hop-IsFairHop skills to v.found) v.shallow along refl,
      ap (λ (s : Spread). s.credits) v.left ∙ added ∙ append_assoc state.credits own up,
    )

-- Every credit is of the kind that its depth says.
abbrev AllNamed : List Credit → Type 0
AllNamed [] = Unit
AllNamed (c ∷ cs) = (is_holder c ≡ at_leaf c) × AllNamed cs

AllNamed-append : (cs ds : List Credit) → AllNamed cs → AllNamed ds → AllNamed (cs ++ ds)
AllNamed-append [] ds h k = k
AllNamed-append (c ∷ cs) ds h k = (h.0, AllNamed-append cs ds h.1 k)

credit_of-AllNamed :
    (id : JsString) (depth : ℕ) (rows : List Credited) → AllNamed (map (credit_of id depth) rows)
credit_of-AllNamed id depth [] = tt
credit_of-AllNamed id depth (r ∷ rows) = (ground arith, credit_of-AllNamed id depth rows)

mutual
  Flow-AllNamed :
      {skills : Skills} {depth : ℕ} {to : Credited} {cs : List Credit}
      → Flow skills depth to cs
      → AllNamed cs
  Flow-AllNamed {depth = depth} {to = to} (flow {up = up} split fair shallow along e) =
      subst AllNamed (sym e) (
        AllNamed-append (map (credit_of to.key depth) split.holder_rows) up
          (credit_of-AllNamed to.key depth split.holder_rows) (Flows-AllNamed along))

  Flows-AllNamed :
      {skills : Skills} {depth : ℕ} {tos : List Credited} {cs : List Credit}
      → Flows skills depth tos cs
      → AllNamed cs
  Flows-AllNamed nowhere = tt
  Flows-AllNamed (onward {first = first} {rest = rest} one others e) =
      subst AllNamed (sym e)
        (AllNamed-append first rest (Flow-AllNamed one) (Flows-AllNamed others))

select_kinds :
    (cs : List Credit)
    → AllNamed cs
    → (select is_holder cs ≡ select at_leaf cs)
      × (select (λ c. not (is_holder c)) cs ≡ select (λ c. not (at_leaf c)) cs)
select_kinds [] h = (refl, refl)
select_kinds (c ∷ cs) h =
    let (own, above) = select_kinds cs h.1 in
    elim (Bool-cases (at_leaf c)) [
      | inl leaf ↦
          let holds = h.0 ∙ leaf in (rw (holds, leaf) (ap (λ l. c ∷ l) own), rw (holds, leaf) above)
      | inr higher ↦
          let holds = h.0 ∙ higher in
          (rw (holds, higher) own, rw (holds, higher) (ap (λ l. c ∷ l) above))
    ]

-- An accepted allocation credits the flow of the pool from the leaf: at every Skill that it
-- reaches, what goes up to the parents is the rounded-down share that the Skill inherits, the
-- parents have equal parts of it, and the holders share the rest by their basis points, each to a
-- unit. The credits make the pool; the holder credits are those of the leaf, the ancestor credits
-- all others.
pub allocate_royalty_graph-Flow :
    (pool : ℕ) (leaf : JsString) (skills : Skills) (policy : JsString) {r : Royalty}
    → allocate_royalty_graph (bigint (pos pool)) leaf skills policy ≡ ok r
    → Flow skills 0 (start_credit leaf pool) r.credits
      × (r.royalty_pool ≡ pool)
      × (total_credits r.credits ≡ pool)
      × (r.holder_credits ≡ select at_leaf r.credits)
      × (r.ancestor_credits ≡ select (λ c. not (at_leaf c)) r.credits)
unfolding allocate_royalty_graph assert_atomic Adds
allocate_royalty_graph-Flow pool leaf skills policy {r} e =
    let conserved = allocate_royalty_graph_conserves pool leaf skills policy e in
    elim (Result-cases (validate_reachable skills ancestry_fuel 0 leaf no_visits)) [
      | inr (code, failed) ↦ absurd (ground arith)
      | inl (checked, valid) ↦
          elim (Result-cases
            (distribute skills ancestry_fuel 0 (start_credit leaf pool) no_credits)) [
              | inr (code, failed) ↦ absurd (ground arith)
              | inl (spread, done) ↦
                  let (cs, along, added) =
                    distribute-Flow skills ancestry_fuel 0 (start_credit leaf pool) no_credits
                      spread done in
                  let same : cs ≡ r.credits = ground arith in
                  let flows = subst (Flow skills 0 (start_credit leaf pool)) same along in
                  let (own, above) = select_kinds r.credits (Flow-AllNamed flows) in
                  (flows, conserved.0, conserved.1, ground arith, ground arith)
            ]
    ]
