-- ===== src/Base/Decimal/Inverse.antt =====
-- Printing and reading decimal text are inverse to one another.
use Prim.Native.Nat.{ℕ, zero, suc, ◌+◌, ◌-◌, ◌*◌, ◌/◌, ◌%◌, ◌^◌, ◌≤◌, ◌<◌}
use mathlib.Core.Path.{◌≡◌, refl, ◌∙◌}
use mathlib.Core.Bool.{true, false}
use mathlib.Core.List.{[], ◌∷◌, ◌++◌, append-nil}
use mathlib.Core.Option.{some}
use native.Mathlib.Omega.{arith}
use native.Mathlib.Nat.{pow-suc}
use skill_asset_protocol.Base.Tests.{ltb}
use skill_asset_protocol.Base.Lists.{length, all}
use skill_asset_protocol.Base.Text.{JsString}
use skill_asset_protocol.Base.Decimal.Digits.{
  is_digit, digits, decimal, value, is_canonical, parse_atomic,
}

value-digits : (fuel n : ℕ) (out : JsString) → n < fuel → value 0 (digits fuel n out) ≡ value n out
unfolding digits value
value-digits zero n out h = elim h [ ]
value-digits (suc fuel) n out h = ground (arith, value-digits fuel (n / 10) ((b'0' + n % 10) ∷ out))

pub value-decimal : (n : ℕ) → value 0 (decimal n) ≡ n
unfolding decimal value
value-decimal n = value-digits (suc n) n [] (omega arith)

all-digits-digits :
    (fuel n : ℕ) (out : JsString)
    → all is_digit out ≡ true
    → all is_digit (digits fuel n out) ≡ true
unfolding digits
all-digits-digits zero n out h = h
all-digits-digits (suc fuel) n out h =
    ground (arith, all-digits-digits fuel (n / 10) ((b'0' + n % 10) ∷ out))

pub all_digits-decimal : (n : ℕ) → all is_digit (decimal n) ≡ true
unfolding decimal
all_digits-decimal n = all-digits-digits (suc n) n [] refl

digits_canonical :
    (fuel n : ℕ) (out : JsString)
    → 0 < n
    → n < fuel
    → all is_digit out ≡ true
    → is_canonical (digits fuel n out) ≡ true
unfolding digits is_canonical
digits_canonical zero n out p h a = elim h [ ]
digits_canonical (suc fuel) n out p h a =
    ground (arith, digits_canonical fuel (n / 10) ((b'0' + n % 10) ∷ out))

pub decimal_canonical : (n : ℕ) → is_canonical (decimal n) ≡ true
unfolding decimal
decimal_canonical zero = unfold digits is_canonical in refl
decimal_canonical (suc n) =
    digits_canonical (suc (suc n)) (suc n) [] (omega arith) (omega arith) refl

-- Any text that an amount prints to reads back as that amount.
pub parse_atomic-decimal : (n : ℕ) → parse_atomic (decimal n) ≡ some n
unfolding parse_atomic
parse_atomic-decimal n = rw (decimal_canonical n, value-decimal n)

digits_fuel : (f g n : ℕ) (out : JsString) → n < f → n < g → digits f n out ≡ digits g n out
unfolding digits
digits_fuel zero g n out h k = elim h [ ]
digits_fuel (suc f) zero n out h k = elim k [ ]
digits_fuel (suc f) (suc g) n out h k =
    ground (arith, digits_fuel f g (n / 10) ((b'0' + n % 10) ∷ out))

le-value : (n : ℕ) (s : JsString) → n ≤ value n s
unfolding value
le-value n [] = omega arith
le-value n (c ∷ s) = omega (arith, le-value (n * 10 + (c - b'0')) s)

digits_push :
    (fuel n c : ℕ) (out : JsString)
    → 0 < n
    → is_digit c ≡ true
    → digits (suc fuel) (n * 10 + (c - b'0')) out ≡ digits fuel n (c ∷ out)
unfolding digits
digits_push fuel n c out p d =
    let range : (48 ≤ c) × (c ≤ 57) = (ground arith, ground arith) in
    let quotient : (n * 10 + (c - b'0')) / 10 ≡ n = omega arith in
    let last : b'0' + (n * 10 + (c - b'0')) % 10 ≡ c = omega arith in
    let long : ltb (n * 10 + (c - b'0')) 10 ≡ false = ground arith in rw (long, quotient, last)

digits-value :
    (fuel n : ℕ) (s out : JsString)
    → 0 < n
    → value n s < fuel
    → all is_digit s ≡ true
    → digits fuel (value n s) out ≡ digits fuel n (s ++ out)
unfolding value
digits-value fuel n [] out p h a = refl
digits-value zero n (c ∷ s) out p h a = elim h [ ]
digits-value (suc fuel) n (c ∷ s) out p h a =
    let bound : n * 10 + (c - b'0') ≤ value (n * 10 + (c - b'0')) s =
      le-value (n * 10 + (c - b'0')) s in
    digits-value (suc fuel) (n * 10 + (c - b'0')) s out (omega arith) h (ground arith)
    ∙ digits_push fuel n c (s ++ out) p (ground arith)
    ∙ digits_fuel fuel (suc fuel) n (c ∷ (s ++ out)) (omega arith) (omega arith)

digits_leading :
    (fuel c : ℕ) (s : JsString) → is_digit c ≡ true → digits (suc fuel) (c - b'0') s ≡ c ∷ s
unfolding digits
digits_leading fuel c s d =
    let range : (48 ≤ c) × (c ≤ 57) = (ground arith, ground arith) in
    let short : ltb (c - b'0') 10 ≡ true = ground arith in
    let back : b'0' + (c - b'0') ≡ c = omega arith in rw (short, back)

-- A canonical text is what its value prints to.
pub decimal-value : (s : JsString) → is_canonical s ≡ true → decimal (value 0 s) ≡ s
unfolding decimal is_canonical value
decimal-value [] h = cc
decimal-value (c ∷ []) h =
    let start : 0 * 10 + (c - b'0') ≡ c - b'0' = omega arith in
    rw start (digits_leading (c - b'0') c [] (ground arith))
decimal-value (c ∷ d ∷ s) h =
    let start : 0 * 10 + (c - b'0') ≡ c - b'0' = omega arith in
    let rest = d ∷ s in
    rw start (
      digits-value (suc (value (c - b'0') rest)) (c - b'0') rest [] (ground arith) (omega arith)
        (ground arith)
      ∙ rw append-nil (digits_leading (value (c - b'0') rest) c rest (ground arith)))

length-digits :
    (fuel n k : ℕ) (out : JsString)
    → n < 10 ^ suc k
    → length (digits fuel n out) ≤ suc k + length out
unfolding digits
length-digits zero n k out h = omega arith
length-digits (suc fuel) n zero out h = ground (arith, less)
  where
    less : n < 10
    less = omega arith
length-digits (suc fuel) n (suc k) out h = ground (
  arith,
  length-digits fuel (n / 10) k ((b'0' + n % 10) ∷ out) (omega (arith, pow-suc 10 (suc k))),
)

pub length-decimal : (n k : ℕ) → n < 10 ^ suc k → length (decimal n) ≤ suc k
unfolding decimal
length-decimal n k h = omega (arith, length-digits (suc n) n k [] h)
