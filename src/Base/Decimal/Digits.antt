-- ===== src/Base/Decimal/Digits.antt =====
-- `String(n)`, `BigInt(text)` and the pattern `^(0|[1-9]\d*)$`.
use Prim.Native.Nat.{ℕ, zero, suc, ◌+◌, ◌-◌, ◌*◌, ◌/◌, ◌%◌}
use mathlib.Core.Bool.{Bool, false, ◌&&◌}
use mathlib.Core.List.{[], ◌∷◌}
use mathlib.Core.Option.{Option, none, some}
use skill_asset_protocol.Base.Tests.{ltb, leb, ◌==◌, if◌then◌else◌}
use skill_asset_protocol.Base.Lists.{null, all}
use skill_asset_protocol.Base.Text.{JsString}

abbrev pub is_digit : ℕ → Bool
is_digit c = leb b'0' c && leb c b'9'

-- The last digit first; the fuel is at least the number of digits.
unfoldable pub digits : ℕ → ℕ → JsString → JsString
digits zero n out = out
digits (suc fuel) n out =
    let rest = digits fuel (n / 10) ((b'0' + n % 10) ∷ out) in
    if ltb n 10 then (b'0' + n) ∷ out else rest

-- `String(n)` of a nonnegative bigint
unfoldable pub decimal : ℕ → JsString
decimal n = digits (suc n) n []

-- the number that digits spell behind `acc`
unfoldable pub value : ℕ → JsString → ℕ
value acc [] = acc
value acc (c ∷ s) = value (acc * 10 + (c - b'0')) s

-- `/^(0|[1-9]\d*)$/.test(text)`
unfoldable pub is_canonical : JsString → Bool
is_canonical [] = false
is_canonical (c ∷ s) = if c == b'0' then null s else is_digit c && all is_digit s

-- `BigInt(text)` behind that test
unfoldable pub parse_atomic : JsString → Option ℕ
parse_atomic s = if is_canonical s then some (value 0 s) else none
