-- ===== src/Awards/Keys.antt =====
-- spikes/internal-invocation-awards/src/public-keys.mjs, and the signatures and trust maps of
-- credentials.mjs, budget.mjs, engine.mjs and statements.mjs, which check them with the same code.
use skill_asset_protocol.Base.{
  ℕ, List, [], ◌∷◌, ◌||◌, Bool, true, not, ◌&&◌, Option, none, some, JsString, js, text_eq, length,
  null, all, starts_with, ◌==◌, Result, ok, err, ◌>>◌, fail_if, if◌then◌else◌, Dictionary, lookup,
}
use skill_asset_protocol.Kernel.Patterns.{is_alphanumeric, is_lower_hex}
use skill_asset_protocol.Awards.Errors.{
  AwardError, key_format, signature_format, signature_invalid, signer_untrusted,
}

pub record PublicKey : Type 0 where
  pub asymmetric_key_type : JsString
  -- `key.export({ type: 'spki', format: 'pem' })`
  pub spki_pem : JsString

-- What the code calls of `node:crypto` and `Buffer`.
pub record Crypto : Type 0 where
  -- `createPublicKey`, `none` where it throws
  pub create_public_key : JsString → Option PublicKey
  pub from_base64 : JsString → List ℕ
  pub to_base64 : List ℕ → JsString
  -- `cryptoVerify(null, bytes, key, signature)`
  pub verify : JsString → JsString → List ℕ → Bool

module _ (c : Crypto) where
  -- The part behind the prefix, on the imported key. The input is a string.
  unfoldable pub require_canonical_key : JsString → Option PublicKey → Result AwardError JsString
  require_canonical_key input none = err key_format
  require_canonical_key input (some key) = do
    fail_if (not (text_eq key.asymmetric_key_type (js "ed25519"))) key_format
    fail_if (not (text_eq input key.spki_pem)) key_format
    ok key.spki_pem

  unfoldable pub normalize_public_key : JsString → Result AwardError JsString
  normalize_public_key input = do
    fail_if (not (starts_with input (js "-----BEGIN PUBLIC KEY-----\n"))) key_format
    require_canonical_key input (c.create_public_key input)

  -- `={0,2}$`
  abbrev pub base64_padding : JsString → Bool
  base64_padding s = text_eq s [] || text_eq s (js "=") || text_eq s (js "==")

  -- `[A-Za-z0-9+/]*={0,2}$`
  unfoldable pub base64_rest : JsString → Bool
  base64_rest [] = true
  base64_rest (d ∷ s) =
      if is_alphanumeric d || d == b'+' || d == b'/' then base64_rest s else base64_padding (d ∷ s)

  -- `/^[A-Za-z0-9+/]+={0,2}$/`
  unfoldable pub base64_pattern : JsString → Bool
  base64_pattern s = not (starts_with s (js "=")) && not (null s) && base64_rest s

  unfoldable pub decode_signature : JsString → Result AwardError (List ℕ)
  decode_signature value = do
    fail_if (not (base64_pattern value)) signature_format
    let bytes = c.from_base64 value
    fail_if (not (length bytes == 64) || not (text_eq (c.to_base64 bytes) value)) signature_format
    ok bytes

  unfoldable pub require_signature : JsString → JsString → List ℕ → Result AwardError (Unit {0})
  require_signature bytes key signature =
      fail_if (not (c.verify bytes key signature)) signature_invalid

  -- The key of a signer in a trust map.
  unfoldable pub configured_key : Option JsString → Result AwardError JsString
  configured_key none = err signer_untrusted
  configured_key (some key) = do fail_if (null key) signer_untrusted; normalize_public_key key

  unfoldable pub trusted_signer_key : Dictionary JsString → JsString → Result AwardError JsString
  trusted_signer_key trust signer_id = configured_key (lookup signer_id trust)

-- `/^[0-9a-f]{64}$/`
unfoldable pub nonce_pattern : JsString → Bool
nonce_pattern s = length s == 64 && all is_lower_hex s
