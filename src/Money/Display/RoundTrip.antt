-- ===== src/Money/Display/RoundTrip.antt =====
-- The display text of an amount reads back as that amount.
use mathlib.Core.List.{append-nil}
use skill_asset_protocol.Base.{
  ℕ, zero, suc, ◌+◌, ◌-◌, ◌*◌, ◌/◌, ◌%◌, ◌≤◌, ◌<◌, ◌≡◌, refl, ap, ◌∙◌, [], ◌∷◌, ◌++◌, true, false,
  Bool, ◌||◌, text, bigint, pos, JsString, all, length, ◌==◌, ok, some, is_digit, is_canonical,
  value, decimal, arith, value-decimal, decimal_canonical, all_digits-decimal, length-decimal,
}
use skill_asset_protocol.Money.Input.{assert_atomic, usdc_decimals, atomic_per_usdc}
use skill_asset_protocol.Money.Display.{
  is_space, trim_start, trim_end, trim, dot, split_dot, zeros, pad_end, pad_start, is_fraction,
  usdc_groups, match_usdc, parse_usdc, format_usdc,
}

-- A digit or a dot, which is what a display text consists of.
abbrev is_printed : ℕ → Bool
is_printed c = is_digit c || c == dot

printed_range : (c : ℕ) → is_printed c ≡ true → (46 ≤ c) × (c ≤ 57)
printed_range c h = (ground arith, ground arith)

is_space-is_printed : (c : ℕ) → is_printed c ≡ true → is_space c ≡ false
unfolding is_space
is_space-is_printed c h = ground (arith, printed_range c h)

trim_start-printed : (s : JsString) → all is_printed s ≡ true → trim_start s ≡ s
unfolding trim_start
trim_start-printed [] h = refl
trim_start-printed (c ∷ s) h = ground (arith, is_space-is_printed c)

trim_end-printed : (s : JsString) → all is_printed s ≡ true → trim_end s ≡ s
unfolding trim_end
trim_end-printed [] h = refl
trim_end-printed (c ∷ s) h = ground (arith, is_space-is_printed c, trim_end-printed s)

trim-printed : (s : JsString) → all is_printed s ≡ true → trim s ≡ s
unfolding trim
trim-printed s h = ap trim_end (trim_start-printed s h) ∙ trim_end-printed s h

all_digits-append :
    (s t : JsString) → all is_digit s ≡ true → all is_digit t ≡ true → all is_digit (s ++ t) ≡ true
all_digits-append [] t h k = k
all_digits-append (c ∷ s) t h k = ground (arith, all_digits-append s t)

all_digits-zeros : (n : ℕ) → all is_digit (zeros n) ≡ true
all_digits-zeros zero = refl
all_digits-zeros (suc n) = all_digits-zeros n

printed_digits-append :
    (s t : JsString)
    → all is_digit s ≡ true
    → all is_printed t ≡ true
    → all is_printed (s ++ t) ≡ true
printed_digits-append [] t h k = k
printed_digits-append (c ∷ s) t h k = ground (arith, printed_digits-append s t)

printed_digits : (t : JsString) → all is_digit t ≡ true → all is_printed t ≡ true
printed_digits [] h = refl
printed_digits (c ∷ t) h = ground (arith, printed_digits t)

split_dot-append : (s t : JsString) → all is_digit s ≡ true → split_dot (s ++ dot ∷ t) ≡ (s, some t)
unfolding split_dot
split_dot-append [] t h = refl
split_dot-append (c ∷ s) t h = ground (arith, split_dot-append s t)

length-zeros : (n : ℕ) → length (zeros n) ≡ n
length-zeros zero = refl
length-zeros (suc n) = ap suc (length-zeros n)

length_append : (s t : JsString) → length (s ++ t) ≡ length s + length t
length_append [] t = omega arith
length_append (c ∷ s) t = omega (arith, length_append s t)

value-zeros : (n : ℕ) (s : JsString) → value 0 (zeros n ++ s) ≡ value 0 s
unfolding value
value-zeros zero s = refl
value-zeros (suc n) s = value-zeros n s

pad_start_six :
    (r : ℕ) → r < atomic_per_usdc → length (pad_start usdc_decimals (decimal r)) ≡ usdc_decimals
pad_start_six r h =
    length_append (zeros (6 - length (decimal r))) (decimal r)
    ∙ omega (arith, length-zeros (6 - length (decimal r)), length-decimal r 5 h)

all_digits-pad_start : (n r : ℕ) → all is_digit (pad_start n (decimal r)) ≡ true
all_digits-pad_start n r =
    all_digits-append (zeros (n - length (decimal r))) (decimal r)
      (all_digits-zeros (n - length (decimal r))) (all_digits-decimal r)

pad_end_full : (s : JsString) → length s ≡ usdc_decimals → pad_end usdc_decimals s ≡ s
pad_end_full s h = rw (h, append-nil)

is_fraction_six : (s : JsString) → length s ≡ 6 → all is_digit s ≡ true → is_fraction s ≡ true
unfolding is_fraction
is_fraction_six s h d = rw (h, d)

-- A whole part and six digits behind a dot are read as they stand.
parse_usdc_parts :
    (whole fraction : JsString)
    → is_canonical whole ≡ true
    → all is_digit whole ≡ true
    → length fraction ≡ 6
    → all is_digit fraction ≡ true
    → parse_usdc (text (whole ++ dot ∷ fraction))
      ≡ ok (value 0 whole * atomic_per_usdc + value 0 fraction)
unfolding parse_usdc match_usdc usdc_groups
parse_usdc_parts whole fraction canonical whole_digits six fraction_digits =
    rw
      (
        trim-printed (whole ++ dot ∷ fraction) (
            printed_digits-append whole (dot ∷ fraction) whole_digits
              (printed_digits fraction fraction_digits)),
        split_dot-append whole fraction whole_digits,
        canonical,
        is_fraction_six fraction six fraction_digits,
      )
      (ap (λ f. ok (value 0 whole * atomic_per_usdc + value 0 f)) (pad_end_full fraction six))

-- Every amount has a display text, and it reads back as that amount.
pub parse_usdc-format_usdc :
    (a : ℕ) → (s : JsString) × (format_usdc (bigint (pos a)) ≡ ok s) × (parse_usdc (text s) ≡ ok a)
unfolding format_usdc assert_atomic
parse_usdc-format_usdc a =
    let whole = decimal (a / atomic_per_usdc) in
    let rest = a % atomic_per_usdc in
    let fraction = pad_start usdc_decimals (decimal rest) in
    let parts =
      parse_usdc_parts whole fraction (decimal_canonical (a / atomic_per_usdc))
        (all_digits-decimal (a / atomic_per_usdc)) (pad_start_six rest (omega arith))
        (all_digits-pad_start usdc_decimals rest) in
    let whole_value : value 0 whole ≡ a / atomic_per_usdc = value-decimal (a / atomic_per_usdc) in
    let fraction_value : value 0 fraction ≡ rest =
      value-zeros (6 - length (decimal rest)) (decimal rest) ∙ value-decimal rest in
    (whole ++ dot ∷ fraction, refl, parts ∙ ap ok (omega arith))
