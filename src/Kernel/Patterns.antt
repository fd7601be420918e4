-- ===== src/Kernel/Patterns.antt =====
-- The regular expressions of spikes/pi-wielder/src/kernel/policy-engine.mjs and canonical.mjs.
use skill_asset_protocol.Base.{
  ℕ, ◌+◌, [], ◌∷◌, Bool, true, false, ◌&&◌, ◌||◌, JsString, js, starts_with, null, any, all, length,
  leb, ◌==◌, if◌then◌else◌, is_digit,
}

abbrev pub is_lower : ℕ → Bool
is_lower c = leb b'a' c && leb c b'z'

abbrev pub is_upper : ℕ → Bool
is_upper c = leb b'A' c && leb c b'Z'

abbrev pub is_alphanumeric : ℕ → Bool
is_alphanumeric c = is_digit c || is_lower c || is_upper c

abbrev pub is_lower_hex : ℕ → Bool
is_lower_hex c = is_digit c || (leb b'a' c && leb c b'f')

abbrev pub is_hex : ℕ → Bool
is_hex c = is_lower_hex c || (leb b'A' c && leb c b'F')

abbrev pub one_of : JsString → ℕ → Bool
one_of cs c = any (λ d. d == c) cs

-- The text behind a prefix, if it has that prefix.
unfoldable pub after_prefix : JsString → JsString → JsString
after_prefix [] s = s
after_prefix (p ∷ ps) [] = []
after_prefix (p ∷ ps) (c ∷ s) = after_prefix ps s

-- A prefix and then exactly `n` characters of a class.
unfoldable pub prefixed : JsString → ℕ → (ℕ → Bool) → JsString → Bool
prefixed prefix n class s =
    let rest = after_prefix prefix s in starts_with s prefix && length rest == n && all class rest

-- `/^sha256:[0-9a-f]{64}$/`
unfoldable pub hash_pattern : JsString → Bool
hash_pattern = prefixed (js "sha256:") 64 is_lower_hex

-- `/^0x[0-9a-fA-F]{40}$/` and `/^0x[0-9a-f]{40}$/`
unfoldable pub address_pattern : JsString → Bool
address_pattern = prefixed (js "0x") 40 is_hex

unfoldable pub canonical_address_pattern : JsString → Bool
canonical_address_pattern = prefixed (js "0x") 40 is_lower_hex

-- The first character of one class and the others of another.
unfoldable pub headed : (ℕ → Bool) → (ℕ → Bool) → JsString → Bool
headed first rest [] = false
headed first rest (c ∷ s) = first c && all rest s

-- `/^[A-Z][A-Z0-9-]{0,31}$/`
unfoldable pub method_pattern : JsString → Bool
method_pattern s =
    headed is_upper (λ c. is_upper c || is_digit c || c == b'-') s && leb (length s) 32

-- `/^[A-Za-z0-9][A-Za-z0-9._:+-]*$/` and `/^[A-Za-z0-9][A-Za-z0-9._:-]*$/`
unfoldable pub protocol_pattern : JsString → Bool
protocol_pattern = headed is_alphanumeric (λ c. is_alphanumeric c || one_of (js "._:+-") c)

unfoldable pub token_pattern : JsString → Bool
token_pattern = headed is_alphanumeric (λ c. is_alphanumeric c || one_of (js "._:-") c)

-- The part before the first character of a class, and what follows that character.
unfoldable pub before : (ℕ → Bool) → JsString → JsString
before stop [] = []
before stop (c ∷ s) = if stop c then [] else c ∷ before stop s

unfoldable pub behind : (ℕ → Bool) → JsString → JsString
behind stop [] = []
behind stop (c ∷ s) = if stop c then s else behind stop s

-- `/^[A-Za-z0-9][A-Za-z0-9!#$&^_.+-]*\/[A-Za-z0-9][A-Za-z0-9!#$&^_.+-]*$/`
unfoldable pub mime_pattern : JsString → Bool
mime_pattern s =
    let part = headed is_alphanumeric (λ c. is_alphanumeric c || one_of (js "!#$&^_.+-") c) in
    let slash = λ (c : ℕ). c == b'/' in
    any slash s && part (before slash s) && part (behind slash s)

-- `text.includes(part)`
unfoldable pub contains : JsString → JsString → Bool
contains [] part = null part
contains (c ∷ s) part = starts_with (c ∷ s) part || contains s part

abbrev pub to_lower : ℕ → ℕ
to_lower c = if is_upper c then c + 32 else c

unfoldable pub lower_case : JsString → JsString
lower_case [] = []
lower_case (c ∷ s) = to_lower c ∷ lower_case s

-- `/%(?:2f|5c)/i`
unfoldable pub encoded_path_separator : JsString → Bool
encoded_path_separator s = contains (lower_case s) (js "%2f") || contains (lower_case s) (js "%5c")

-- `(?::[1-9][0-9]{0,4})?$`
unfoldable pub optional_port : JsString → Bool
optional_port [] = true
optional_port (c ∷ s) =
    c == b':' && headed (λ d. leb b'1' d && leb d b'9') is_digit s && leb (length s) 5

-- `/^(?:127\.0\.0\.1|\[::1\])(?::[1-9][0-9]{0,4})?$/`
unfoldable pub loopback_authority : JsString → Bool
loopback_authority s =
    (starts_with s (js "127.0.0.1") && optional_port (after_prefix (js "127.0.0.1") s))
    || (starts_with s (js "[::1]") && optional_port (after_prefix (js "[::1]") s))
