-- ===== src/Kernel/Canonical.antt =====
-- spikes/pi-wielder/src/kernel/canonical.mjs: canonical JSON text, amounts and tokens. The values
-- are plain data; proxies, accessors, cycles and exotic prototypes, which the source rejects, are
-- not among them.
pub mod KeyOrder
use skill_asset_protocol.Base.{
  ℕ, List, [], ◌∷◌, ◌++◌, map, Bool, true, false, not, ◌&&◌, ◌||◌, Option, none, some, JsString, js,
  length, ltb, if◌then◌else◌, Result, ok, err, ◌>>=◌, ◌>>◌, fail_if, ℤ, pos, negsuc, decimal,
  parse_atomic, sort_by, suc,
}
use skill_asset_protocol.Kernel.Errors.{KernelError, atomic_format, token_format}
use skill_asset_protocol.Kernel.Patterns.{token_pattern}
use skill_asset_protocol.Kernel.Platform.{Platform}

mutual
  pub data Json : Type 0 where
    null : Json
    text : JsString → Json
    boolean : Bool → Json
    number : ℤ → Json
    array : Items → Json
    object : Fields → Json

  pub data Items : Type 0 where
    nil : Items
    cons : Json → Items → Items

  pub data Fields : Type 0 where
    end : Fields
    field : JsString → Json → Fields → Fields

-- One member of an object: its key and the text of its value.
pub record Member : Type 0 where
  pub key : JsString
  pub value : JsString

abbrev pub integer_text : ℤ → JsString
integer_text (pos n) = decimal n
integer_text (negsuc n) = b'-' ∷ decimal (suc n)

-- `parts.join(',')`
unfoldable pub join_comma : List JsString → JsString
join_comma [] = []
join_comma (s ∷ []) = s
join_comma (s ∷ t ∷ ts) = s ++ b',' ∷ join_comma (t ∷ ts)

module _ (p : Platform) where
  abbrev pub member_text : Member → JsString
  member_text m = p.json_string m.key ++ b':' ∷ m.value

  -- The members in key order.
  unfoldable pub object_text : List Member → JsString
  object_text members =
      b'{' ∷ (join_comma (map member_text (sort_by (λ (m : Member). m.key) members)) ++ b'}' ∷ [])

  unfoldable mutual
    pub canonical_json : Json → JsString
    canonical_json null = js "null"
    canonical_json (text s) = p.json_string s
    canonical_json (boolean true) = js "true"
    canonical_json (boolean false) = js "false"
    canonical_json (number n) = integer_text n
    canonical_json (array items) = b'[' ∷ (join_comma (item_texts items) ++ b']' ∷ [])
    canonical_json (object fields) = object_text (members fields)

    pub item_texts : Items → List JsString
    item_texts nil = []
    item_texts (cons j items) = canonical_json j ∷ item_texts items

    pub members : Fields → List Member
    members end = []
    members (field key j fields) = record { key = key; value = canonical_json j } ∷ members fields

-- `canonicalAtomic`: the text stands for its value, which determines it.
unfoldable pub canonical_atomic : JsString → Result KernelError ℕ
canonical_atomic s = elim (parse_atomic s) [ none ↦ err atomic_format | some n ↦ ok n ]

unfoldable pub canonical_token : JsString → Result KernelError JsString
canonical_token s = if ltb 200 (length s) || not (token_pattern s) then err token_format else ok s
