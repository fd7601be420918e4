-- ===== src/Awards/Outcome.antt =====
-- spikes/internal-invocation-awards/src/schema.mjs: `parseExecutorOutcome`.
pub mod Bounds
use skill_asset_protocol.Base.{
  refl, List, [], ◌∷◌, Bool, false, ◌&&◌, Option, none, some, JsString, js, text_eq, includes, all,
  ltb, ok, err, ◌>>=◌, ◌>>◌, arith, Dictionary, lookup, has_key, if◌then◌else◌,
}
use skill_asset_protocol.Kernel.Patterns.{hash_pattern}
use skill_asset_protocol.Awards.Schema.{to_atomic}
use skill_asset_protocol.Awards.Quote.{Quote}
use skill_asset_protocol.Awards.Budget.Settlement.{
  UnresolvedReason, executor_threw, malformed_outcome, cost_unknown,
}

-- A member of an outcome that is kept: a string, or another value with its string, which a regular
-- expression tests, and its JSON.
pub data Member : Type 0 where
  text : JsString → Member
  coerced : (shown json : JsString) → Member

-- What the platform's `structuredClone` makes of a value that is no string: a value with its own
-- string and JSON, which need not be those of the original, or nothing where it throws.
abbrev pub Clone : Type 0
Clone = Option (JsString × JsString)

-- A member of what an executor returned: a string, or another value with its string and its clone.
pub data RawMember : Type 0 where
  string : JsString → RawMember
  other : (shown : JsString) (clone : Clone) → RawMember

-- What an executor returned: a plain object with its own members, which are enumerable and no
-- accessors, or any other value.
pub data RawOutcome : Type 0 where
  plain_object : Dictionary RawMember → RawOutcome
  not_plain : RawOutcome

pub data Outcome : Type 0 where
  succeeded : (execution_cost_atomic : JsString) (output_hash : Member) → Outcome
  failed_after_start : (execution_cost_atomic failure_class : JsString) → Outcome
  unresolved_after_start : UnresolvedReason → Outcome

-- `requireExactKeys(value, keys)`
unfoldable pub exact_keys : List JsString → Dictionary RawMember → Bool
exact_keys keys members =
    all (λ x. includes x.0 keys) members && all (λ key. has_key key members) keys

abbrev pub as_text : Option RawMember → Option JsString
as_text (some (string s)) = some s
as_text _ = none

-- The text that a regular expression tests, before the clone and after it.
abbrev pub raw_text : RawMember → JsString
raw_text (string s) = s
raw_text (other shown clone) = shown

abbrev pub member_text : Member → JsString
member_text (text s) = s
member_text (coerced shown json) = shown

abbrev pub cloned : Clone → Option Member
cloned none = none
cloned (some (shown, json)) = some (coerced shown json)

-- `cloneFrozen` of an object clones its members: a string is its own clone.
unfoldable pub clone_member : RawMember → Option Member
clone_member (string s) = some (text s)
clone_member (other shown clone) = cloned clone

-- `toAtomic(value.executionCostAtomic)` within the maximum of the quote
unfoldable pub within_quote : Quote → Option JsString → Option JsString
within_quote quote none = none
within_quote quote (some cost) = elim (to_atomic cost) [
  | err e ↦ none
  | ok n ↦ elim (to_atomic quote.max_execution_cost_atomic) [
    | err e ↦ none
    | ok most ↦ if ltb most n then none else some cost
  ]
]

abbrev pub failure_classes : List JsString
failure_classes = js "provider_error" ∷ js "skill_error" ∷ js "invalid_output" ∷ []

-- `{ kind, executionCostAtomic, outputHash }` after the clone; none where that throws.
abbrev pub with_hash : JsString → Option Member → Option Outcome
with_hash cost none = none
with_hash cost (some hash) = some (succeeded cost hash)

unfoldable pub succeeded_outcome : Option JsString → Option RawMember → Option Outcome
succeeded_outcome (some cost) (some hash) =
    if hash_pattern (raw_text hash) then with_hash cost (clone_member hash) else none
succeeded_outcome _ _ = none

unfoldable pub failed_outcome : Option JsString → Option JsString → Option Outcome
failed_outcome (some cost) (some class) =
    if includes class failure_classes then some (failed_after_start cost class) else none
failed_outcome _ _ = none

unfoldable pub unresolved_outcome : Option JsString → Option Outcome
unresolved_outcome none = none
unresolved_outcome (some reason) =
    if text_eq reason (js "executor_threw")
    then some (unresolved_after_start executor_threw)
    else if text_eq reason (js "malformed_outcome")
    then some (unresolved_after_start malformed_outcome)
    else if text_eq reason (js "cost_unknown")
    then some (unresolved_after_start cost_unknown)
    else none

-- `value.kind === kind`
unfoldable pub is_kind : Option JsString → JsString → Bool
is_kind none s = false
is_kind (some kind) s = text_eq kind s

-- The body of the `try`; `none` where it throws.
unfoldable pub try_outcome : RawOutcome → Quote → Option Outcome
try_outcome not_plain quote = none
try_outcome (plain_object members) quote =
    let kind = as_text (lookup (js "kind") members) in
    let cost = within_quote quote (as_text (lookup (js "executionCostAtomic") members)) in
    if is_kind kind (js "succeeded")
    then (if exact_keys (js "kind" ∷ js "executionCostAtomic" ∷ js "outputHash" ∷ []) members
        then succeeded_outcome cost (lookup (js "outputHash") members)
        else none)
    else if is_kind kind (js "failed_after_start")
    then (if exact_keys (js "kind" ∷ js "executionCostAtomic" ∷ js "failureClass" ∷ []) members
        then failed_outcome cost (as_text (lookup (js "failureClass") members))
        else none)
    else if is_kind kind (js "unresolved_after_start")
    then (if exact_keys (js "kind" ∷ js "reason" ∷ []) members
        then unresolved_outcome (as_text (lookup (js "reason") members))
        else none)
    else none

unfoldable pub or_sentinel : Option Outcome → Outcome
or_sentinel none = unresolved_after_start malformed_outcome
or_sentinel (some outcome) = outcome

unfoldable pub parse_executor_outcome : RawOutcome → Quote → Outcome
parse_executor_outcome raw quote = or_sentinel (try_outcome raw quote)
