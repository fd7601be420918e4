-- ===== src/Awards/Outcome/Bounds.antt =====
-- spikes/internal-invocation-awards/src/schema.mjs: the costs that `parseExecutorOutcome` lets through.
use skill_asset_protocol.Base.{
  ℕ, ◌≤◌, ◌≡◌, ◌≢◌, ◌⊎◌, ◌∙◌, ap, refl, subst, JsString, Option, some, none, true, ok, Result-cases,
  inl, inr, arith, Bool-cases, includes, js, lookup, Dictionary, [], ◌∷◌, Option-cases, text_eq,
  text_eq→eq,
}
use skill_asset_protocol.Kernel.Patterns.{hash_pattern}
use skill_asset_protocol.Awards.Schema.{to_atomic}
use skill_asset_protocol.Awards.Quote.{Quote}
use skill_asset_protocol.Awards.Budget.Settlement.{
  UnresolvedReason, executor_threw, malformed_outcome, cost_unknown, period_closed_after_start,
}
use skill_asset_protocol.Awards.Outcome.{
  Member, text, coerced, RawMember, string, other, raw_text, clone_member, RawOutcome, plain_object,
  not_plain, Outcome, succeeded, failed_after_start, unresolved_after_start, exact_keys,
  within_quote, succeeded_outcome, failed_outcome, unresolved_outcome, is_kind, as_text,
  try_outcome, or_sentinel, parse_executor_outcome, failure_classes,
}

-- The names of the reasons of an outcome.
abbrev pub reason_text : UnresolvedReason → JsString
reason_text executor_threw = js "executor_threw"
reason_text malformed_outcome = js "malformed_outcome"
reason_text cost_unknown = js "cost_unknown"
reason_text period_closed_after_start = js "period_closed_after_start"

abbrev pub IsCostWithin : Quote → JsString → Type 0
IsCostWithin quote cost =
    (n : ℕ) × (most : ℕ) × (to_atomic cost ≡ ok n)
    × (to_atomic quote.max_execution_cost_atomic ≡ ok most)
    × (n ≤ most)

-- A member that an object has as a string.
abbrev pub Says : Dictionary RawMember → JsString → JsString → Type 0
Says members key s = lookup key members ≡ some (string s)

-- The hash of a success: the digest that was returned, or the clone of another value that is shown
-- as a digest.
abbrev pub HashOf : RawMember → Member → Type 0
HashOf (string s) hash = (hash ≡ text s) × (hash_pattern s ≡ true)
HashOf (other shown clone) hash =
    (hash_pattern shown ≡ true)
    × ((own : JsString) × (json : JsString) × (clone ≡ some (own, json))
        × (hash ≡ coerced own json))

-- What the outcome of a returned object may say: the kind, the cost within the quote, and the hash
-- or the class of failure that the object has; an unresolved one is unresolved for a reason that
-- the object has, or since the object is refused.
abbrev pub IsAllowed : Quote → Dictionary RawMember → Outcome → Type 0
IsAllowed quote members (succeeded cost hash) =
    Says members (js "kind") (js "succeeded")
    × Says members (js "executionCostAtomic") cost
    × IsCostWithin quote cost
    × ((m : RawMember) × (lookup (js "outputHash") members ≡ some m) × HashOf m hash)
IsAllowed quote members (failed_after_start cost class) =
    Says members (js "kind") (js "failed_after_start")
    × Says members (js "executionCostAtomic") cost
    × IsCostWithin quote cost
    × Says members (js "failureClass") class
    × (includes class failure_classes ≡ true)
IsAllowed quote members (unresolved_after_start reason) =
    (reason ≢ period_closed_after_start)
    × ((reason ≡ malformed_outcome)
        ⊎ (Says members (js "kind") (js "unresolved_after_start")
            × Says members (js "reason") (reason_text reason)))

abbrev pub IsOutcome : Quote → RawOutcome → Outcome → Type 0
IsOutcome quote (plain_object members) outcome = IsAllowed quote members outcome
IsOutcome quote not_plain outcome = outcome ≡ unresolved_after_start malformed_outcome

as_text-eq-some :
    (members : Dictionary RawMember) (key : JsString) {s : JsString}
    → as_text (lookup key members) ≡ some s
    → Says members key s
as_text-eq-some members key {s} h = elim (Option-cases (lookup key members)) [
  | inl nothing ↦ absurd (ground (arith, nothing))
  | inr (string t, found) ↦ ground (arith, found)
  | inr (other shown clone, found) ↦ absurd (ground (arith, found))
]

is_kind-Says :
    (members : Dictionary RawMember) (kind : JsString)
    → is_kind (as_text (lookup (js "kind") members)) kind ≡ true
    → Says members (js "kind") kind
unfolding is_kind
is_kind-Says members kind h = elim (Option-cases (as_text (lookup (js "kind") members))) [
  | inl nothing ↦ absurd (ground (arith, nothing))
  | inr (t, found) ↦
      let same = text_eq→eq t kind (ground (arith, found)) in
      as_text-eq-some members (js "kind") (found ∙ ap some same)
]

within_quote-eq-some :
    (quote : Quote) (o : Option JsString) {cost : JsString}
    → within_quote quote o ≡ some cost
    → (o ≡ some cost) × IsCostWithin quote cost
unfolding within_quote
within_quote-eq-some quote none h = absurd (ground arith)
within_quote-eq-some quote (some c) {cost} h = elim (Result-cases (to_atomic c)) [
  | inr (code, failed) ↦ absurd (ground (arith, failed))
  | inl (n, hn) ↦ elim (Result-cases (to_atomic quote.max_execution_cost_atomic)) [
    | inr (code, failed) ↦ absurd (ground (arith, failed))
    | inl (most, hm) ↦
        (ground (arith, hn, hm), (n, most, ground (arith, hn, hm), hm, ground (arith, hn, hm)))
  ]
]

clone_member-HashOf :
    (m : RawMember) (hash : Member)
    → hash_pattern (raw_text m) ≡ true
    → clone_member m ≡ some hash
    → HashOf m hash
unfolding clone_member
clone_member-HashOf (string s) hash valid h = (ground arith, valid)
clone_member-HashOf (other shown none) hash valid h = absurd (ground arith)
clone_member-HashOf (other shown (some (own, json))) hash valid h =
    (valid, (own, json, refl, ground arith))

-- The outcomes that are made of a cost within the quote.
module _ (quote : Quote) (members : Dictionary RawMember) where
  abbrev cost_text : Option JsString
  cost_text = as_text (lookup (js "executionCostAtomic") members)

  succeeded_outcome-IsAllowed :
      (w : Option JsString) (hash : Option RawMember) {outcome : Outcome}
      → Says members (js "kind") (js "succeeded")
      → within_quote quote cost_text ≡ w
      → lookup (js "outputHash") members ≡ hash
      → succeeded_outcome w hash ≡ some outcome
      → IsAllowed quote members outcome
  unfolding succeeded_outcome
  succeeded_outcome-IsAllowed none hash k e f h = absurd (ground arith)
  succeeded_outcome-IsAllowed (some cost) none k e f h = absurd (ground arith)
  succeeded_outcome-IsAllowed (some cost) (some m) {outcome} k e f h =
      let (same, within) = within_quote-eq-some quote cost_text e in
      elim (Bool-cases (hash_pattern (raw_text m))) [
        | inr invalid ↦ absurd (ground (arith, invalid))
        | inl valid ↦ elim (Option-cases (clone_member m)) [
          | inl nothing ↦ absurd (ground (arith, valid, nothing))
          | inr (kept, made) ↦
              let done : succeeded cost kept ≡ outcome = ground (arith, valid, made) in
              subst (IsAllowed quote members) done (
                k,
                as_text-eq-some members (js "executionCostAtomic") same,
                within,
                (m, f, clone_member-HashOf m kept valid made),
              )
        ]
      ]

  failed_outcome-IsAllowed :
      (w class : Option JsString) {outcome : Outcome}
      → Says members (js "kind") (js "failed_after_start")
      → within_quote quote cost_text ≡ w
      → as_text (lookup (js "failureClass") members) ≡ class
      → failed_outcome w class ≡ some outcome
      → IsAllowed quote members outcome
  unfolding failed_outcome
  failed_outcome-IsAllowed none class k e f h = absurd (ground arith)
  failed_outcome-IsAllowed (some cost) none k e f h = absurd (ground arith)
  failed_outcome-IsAllowed (some cost) (some given) {outcome} k e f h =
      let (same, within) = within_quote-eq-some quote cost_text e in
      elim (Bool-cases (includes given failure_classes)) [
        | inl valid ↦
            let done : failed_after_start cost given ≡ outcome = ground (arith, valid) in
            subst (IsAllowed quote members) done (
              k,
              as_text-eq-some members (js "executionCostAtomic") same,
              within,
              as_text-eq-some members (js "failureClass") f,
              valid,
            )
        | inr invalid ↦ absurd (ground (arith, invalid))
      ]

  unresolved_outcome-IsAllowed :
      (reason : Option JsString) {outcome : Outcome}
      → Says members (js "kind") (js "unresolved_after_start")
      → as_text (lookup (js "reason") members) ≡ reason
      → unresolved_outcome reason ≡ some outcome
      → IsAllowed quote members outcome
  unfolding unresolved_outcome
  unresolved_outcome-IsAllowed none k f h = absurd (ground arith)
  unresolved_outcome-IsAllowed (some reason) {outcome} k f h =
      let says = as_text-eq-some members (js "reason") f in
      elim (Bool-cases (text_eq reason (js "executor_threw"))) [
        | inl t ↦
            let done : unresolved_after_start executor_threw ≡ outcome = ground (arith, t) in
            subst (IsAllowed quote members) done
              (λ x. cc, inr (k, says ∙ ap (λ s. some (string s)) (text_eq→eq _ _ t)))
        | inr f1 ↦ elim (Bool-cases (text_eq reason (js "malformed_outcome"))) [
          | inl t ↦
              let done : unresolved_after_start malformed_outcome ≡ outcome =
                ground (arith, f1, t) in
              subst (IsAllowed quote members) done (λ x. cc, inl refl)
          | inr f2 ↦ elim (Bool-cases (text_eq reason (js "cost_unknown"))) [
            | inl t ↦
                let done : unresolved_after_start cost_unknown ≡ outcome =
                  ground (arith, f1, f2, t) in
                subst (IsAllowed quote members) done
                  (λ x. cc, inr (k, says ∙ ap (λ s. some (string s)) (text_eq→eq _ _ t)))
            | inr f3 ↦ absurd (ground (arith, f1, f2, f3))
          ]
        ]
      ]

  try_outcome-IsAllowed :
      {outcome : Outcome}
      → try_outcome (plain_object members) quote ≡ some outcome
      → IsAllowed quote members outcome
  unfolding try_outcome
  try_outcome-IsAllowed h =
      let kind = as_text (lookup (js "kind") members) in
      let class = as_text (lookup (js "failureClass") members) in
      let reason = as_text (lookup (js "reason") members) in
      let hash = lookup (js "outputHash") members in
      elim (Bool-cases (is_kind kind (js "succeeded"))) [
        | inl k ↦
            elim (Bool-cases
              (exact_keys (js "kind" ∷ js "executionCostAtomic" ∷ js "outputHash" ∷ []) members)) [
                | inl keys ↦
                    succeeded_outcome-IsAllowed (within_quote quote cost_text) hash
                      (is_kind-Says members (js "succeeded") k) refl refl
                      (ground (arith, k, keys, h))
                | inr keys ↦ absurd (ground (arith, k, keys))
              ]
        | inr k ↦ elim (Bool-cases (is_kind kind (js "failed_after_start"))) [
          | inl k2 ↦
              elim (Bool-cases (
                exact_keys (js "kind" ∷ js "executionCostAtomic" ∷ js "failureClass" ∷ [])
                  members)) [
                    | inl keys ↦
                        failed_outcome-IsAllowed (within_quote quote cost_text) class
                          (is_kind-Says members (js "failed_after_start") k2) refl refl
                          (ground (arith, k, k2, keys, h))
                    | inr keys ↦ absurd (ground (arith, k, k2, keys))
                  ]
          | inr k2 ↦ elim (Bool-cases (is_kind kind (js "unresolved_after_start"))) [
            | inl k3 ↦ elim (Bool-cases (exact_keys (js "kind" ∷ js "reason" ∷ []) members)) [
              | inl keys ↦
                  unresolved_outcome-IsAllowed reason
                    (is_kind-Says members (js "unresolved_after_start") k3) refl
                    (ground (arith, k, k2, k3, keys, h))
              | inr keys ↦ absurd (ground (arith, k, k2, k3, keys))
            ]
            | inr k3 ↦ absurd (ground (arith, k, k2, k3))
          ]
        ]
      ]

-- The outcome of a plain object says the kind and the cost that the object has, the cost is
-- readable and at most the maximum of the quote, and so a success has the hash that was returned, a
-- digest, or the clone of another value that is shown as one, and a failure the returned class, one
-- of the three. Otherwise the outcome is unresolved, for the reason that the object has or as
-- malformed, but never since a period closed; so is the outcome of any other value, as malformed.
pub parse_executor_outcome-IsOutcome :
    (raw : RawOutcome) (quote : Quote) → IsOutcome quote raw (parse_executor_outcome raw quote)
unfolding parse_executor_outcome or_sentinel
parse_executor_outcome-IsOutcome not_plain quote = unfold try_outcome in refl
parse_executor_outcome-IsOutcome (plain_object members) quote =
    elim (Option-cases (try_outcome (plain_object members) quote)) [
      | inl nothing ↦ rw nothing (λ x. cc, inl refl)
      | inr (outcome, made) ↦ rw made (try_outcome-IsAllowed quote members made)
    ]
