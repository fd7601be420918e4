-- ===== src/Kernel/Policy/Fields.antt =====
-- spikes/pi-wielder/src/kernel/policy-engine.mjs: the validators of single fields.
use Prim.Native.Nat.{zero, suc}
use skill_asset_protocol.Base.{
  ℕ, ◌++◌, Bool, false, not, ◌&&◌, ◌||◌, Option, none, some, JsString, js, text_eq, starts_with,
  null, any, length, ltb, if◌then◌else◌, Result, ok, err, ◌>>=◌, Value, number, pos,
}
use skill_asset_protocol.Kernel.Errors.{KernelError}
use skill_asset_protocol.Kernel.Patterns.{
  hash_pattern, address_pattern, protocol_pattern, encoded_path_separator, loopback_authority,
  before, lower_case, after_prefix, one_of,
}
use skill_asset_protocol.Kernel.Platform.{Platform, Url}
use skill_asset_protocol.Kernel.Canonical.{canonical_atomic}

abbrev pub max_safe_integer : ℕ
max_safe_integer = 9_007_199_254_740_991

-- `fail(code)` where a step throws with another code.
abbrev pub recode {ℓ} : {A : Type ℓ} → KernelError → Result KernelError A → Result KernelError A
recode code (ok a) = ok a
recode code (err e) = err code

unfoldable pub canonical_address : KernelError → JsString → Result KernelError JsString
canonical_address code s = if address_pattern s then ok (lower_case s) else err code

unfoldable pub canonical_hash : KernelError → JsString → Result KernelError JsString
canonical_hash code s = if hash_pattern s then ok s else err code

unfoldable pub atomic_text : KernelError → JsString → Result KernelError ℕ
atomic_text code s = recode code (canonical_atomic s)

unfoldable pub positive_safe_integer : KernelError → ℕ → Value → Result KernelError ℕ
positive_safe_integer code maximum (number (pos zero)) = err code
positive_safe_integer code maximum (number (pos (suc n))) =
    if ltb maximum (suc n) then err code else ok (suc n)
positive_safe_integer code maximum _ = err code

unfoldable pub nonnegative_safe_integer : KernelError → Value → Result KernelError ℕ
nonnegative_safe_integer code (number (pos n)) = ok n
nonnegative_safe_integer code _ = err code

unfoldable pub protocol_token : KernelError → JsString → Result KernelError JsString
protocol_token code s = if ltb 200 (length s) || not (protocol_pattern s) then err code else ok s

pub record ResourceUrl : Type 0 where
  pub href : JsString
  pub origin : JsString
  pub pathname : JsString

module _ (p : Platform) where
  unfoldable pub bounded_string : KernelError → ℕ → JsString → Result KernelError JsString
  bounded_string code maximum s = if null s || ltb maximum (p.utf8_length s) then err code else ok s

  unfoldable pub is_canonical_literal_loopback_http : JsString → Url → Bool
  is_canonical_literal_loopback_http s url =
      let authority = before (one_of (js "/?#")) (after_prefix (js "http://") s) in
      text_eq url.protocol (js "http:")
      && starts_with s (js "http://")
      && loopback_authority authority
      && text_eq url.origin (js "http://" ++ authority)

  -- The tests of `normalizeOrigin` behind `new URL`.
  unfoldable pub is_bare_origin : Url → Bool
  is_bare_origin url =
      null url.username
      && null url.password
      && text_eq url.pathname (js "/")
      && null url.search
      && null url.hash
      && not (text_eq url.origin (js "null"))

  unfoldable pub is_secure_scheme : JsString → Url → Bool
  is_secure_scheme s url =
      text_eq url.protocol (js "https:") || is_canonical_literal_loopback_http s url

  unfoldable pub origin_of : KernelError → JsString → Option Url → Result KernelError JsString
  origin_of code s none = err code
  origin_of code s (some url) =
      if is_bare_origin url && is_secure_scheme s url then ok url.origin else err code

  unfoldable pub normalize_origin : KernelError → JsString → Result KernelError JsString
  normalize_origin code s = do _ ← bounded_string code 2048 s; origin_of code s (p.parse_url s)

  unfoldable pub is_plain_path : JsString → Bool
  is_plain_path s =
      starts_with s (js "/")
      && not (starts_with s (js "//"))
      && not (any (one_of (js "?#\\")) s)
      && not (encoded_path_separator s)

  unfoldable pub keeps_path : JsString → JsString → Option Url → Bool
  keeps_path s origin none = false
  keeps_path s origin (some url) =
      text_eq url.origin origin && text_eq url.pathname s && null url.search && null url.hash

  unfoldable pub canonical_path : KernelError → JsString → JsString → Result KernelError JsString
  canonical_path code origin s = do
    _ ← bounded_string code 2048 s
    let kept = keeps_path s origin (p.resolve_url s (origin ++ js "/"))
    if is_plain_path s && kept then ok s else err code

  unfoldable pub is_exact_resource : JsString → Url → Bool
  is_exact_resource s url =
      is_secure_scheme s url
      && null url.username
      && null url.password
      && null url.search
      && null url.hash
      && text_eq url.href s
      && not (starts_with url.pathname (js "//"))
      && not (any (one_of (js "\\")) url.pathname)
      && not (encoded_path_separator url.pathname)

  unfoldable pub resource_of : KernelError → JsString → Option Url → Result KernelError ResourceUrl
  resource_of code s none = err code
  resource_of code s (some url) =
      if is_exact_resource s url
      then ok (record { href = s; origin = url.origin; pathname = url.pathname })
      else err code

  unfoldable pub canonical_resource_url : KernelError → JsString → Result KernelError ResourceUrl
  canonical_resource_url code s = do
    _ ← bounded_string code 4096 s
    resource_of code s (p.parse_url s)
