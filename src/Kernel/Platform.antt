-- ===== src/Kernel/Platform.antt =====
-- What the policy engine calls of its platform: `new URL`, `Buffer.byteLength`, SHA-256 and
-- `JSON.stringify` of a string.
use skill_asset_protocol.Base.{ℕ, JsString, Option}

pub record Url : Type 0 where
  pub protocol : JsString
  pub username : JsString
  pub password : JsString
  pub pathname : JsString
  pub search : JsString
  pub hash : JsString
  pub origin : JsString
  pub href : JsString

pub record Platform : Type 0 where
  -- `new URL(value)` and `new URL(value, base)`; `none` where they throw
  pub parse_url : JsString → Option Url
  pub resolve_url : JsString → JsString → Option Url
  pub utf8_length : JsString → ℕ
  -- `sha256:` and the digest in lower-case hexadecimal
  pub sha256 : JsString → JsString
  pub json_string : JsString → JsString
