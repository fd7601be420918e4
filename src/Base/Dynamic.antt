-- ===== src/Base/Dynamic.antt =====
-- The dynamic values that the money functions test with `typeof` and `Number.isSafeInteger`.
use Prim.Native.Nat.{ℕ}
use skill_asset_protocol.Base.Text.{JsString}

-- `negsuc n` is -(n + 1).
pub data ℤ : Type 0 where
  pos : ℕ → ℤ
  negsuc : ℕ → ℤ

-- A bigint, a safe integer number, a string, or any other value (a fraction, `undefined`, an object).
pub data Value : Type 0 where
  bigint : ℤ → Value
  number : ℤ → Value
  text : JsString → Value
  other : Value
