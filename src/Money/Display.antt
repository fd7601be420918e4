-- ===== src/Money/Display.antt =====
-- prototype/atomic-money.mjs: `parseUsdc` and `formatUsdc`.
pub mod RoundTrip
use Prim.Native.Nat.{ℕ, zero, suc}
use skill_asset_protocol.Base.{
  ◌+◌, ◌-◌, ◌*◌, ◌/◌, ◌%◌, List, [], ◌∷◌, ◌++◌, Bool, false, true, ◌&&◌, ◌||◌, Value, text, bigint,
  JsString, null, all, length, ltb, leb, ◌==◌, if◌then◌else◌, Result, ok, err, ◌>>=◌, ◌>>◌, fail_if,
  Option, none, some, is_digit, is_canonical, value, decimal,
}
use skill_asset_protocol.Money.Input.{
  MoneyError, display_type, display_format, assert_atomic, usdc_decimals, atomic_per_usdc,
}

-- The code units that `trim` removes.
unfoldable pub is_space : ℕ → Bool
is_space c =
    (leb 9 c && leb c 13)
    || c == 0x20
    || c == 0xa0
    || c == 0x1680
    || (leb 0x2000 c && leb c 0x200a)
    || c == 0x2028
    || c == 0x2029
    || c == 0x202f
    || c == 0x205f
    || c == 0x3000
    || c == 0xfeff

unfoldable pub trim_start : JsString → JsString
trim_start [] = []
trim_start (c ∷ s) = if is_space c then trim_start s else c ∷ s

unfoldable pub trim_end : JsString → JsString
trim_end [] = []
trim_end (c ∷ s) = if is_space c && null (trim_end s) then [] else c ∷ trim_end s

unfoldable pub trim : JsString → JsString
trim s = trim_end (trim_start s)

abbrev pub dot : ℕ
dot = b'.'

-- The text before the first dot, and the text behind it if there is a dot.
unfoldable pub split_dot : JsString → JsString × Option JsString
split_dot [] = ([], none)
split_dot (c ∷ s) =
    if c == dot then ([], some s) else let (whole, fraction) = split_dot s in (c ∷ whole, fraction)

abbrev pub zeros : ℕ → JsString
zeros zero = []
zeros (suc n) = b'0' ∷ zeros n

-- `s.padEnd(n, '0')` and `s.padStart(n, '0')`
abbrev pub pad_end : ℕ → JsString → JsString
pad_end n s = s ++ zeros (n - length s)

abbrev pub pad_start : ℕ → JsString → JsString
pad_start n s = zeros (n - length s) ++ s

-- Group 2 of the pattern, `\d{1,6}`.
unfoldable pub is_fraction : JsString → Bool
is_fraction s = leb 1 (length s) && leb (length s) 6 && all is_digit s

-- The match of `/^(0|[1-9]\d*)(?:\.(\d{1,6}))?$/`: its two groups, the second empty if it is absent.
unfoldable pub usdc_groups : JsString → Option JsString → Option (JsString × JsString)
usdc_groups whole none = if is_canonical whole then some (whole, []) else none
usdc_groups whole (some f) = if is_canonical whole && is_fraction f then some (whole, f) else none

unfoldable pub match_usdc : JsString → Option (JsString × JsString)
match_usdc s = let (whole, fraction) = split_dot s in usdc_groups whole fraction

abbrev pub usdc_value : Option (JsString × JsString) → Result MoneyError ℕ
usdc_value none = err display_format
usdc_value (some (whole, fraction)) =
    ok (value 0 whole * atomic_per_usdc + value 0 (pad_end usdc_decimals fraction))

unfoldable pub parse_usdc : Value → Result MoneyError ℕ
parse_usdc (text s) = usdc_value (match_usdc (trim s))
parse_usdc _ = err display_type

unfoldable pub format_usdc : Value → Result MoneyError JsString
format_usdc v = do
  a ← assert_atomic v
  ok (
      decimal (a / atomic_per_usdc)
      ++ dot ∷ pad_start usdc_decimals (decimal (a % atomic_per_usdc)))
