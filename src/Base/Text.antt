-- ===== src/Base/Text.antt =====
-- JavaScript strings: lists of UTF-16 code units, with their equality and their order.
use Prim.Native.Nat.{ℕ, compare, Ordering}
use Prim.Native.Char.{code}
use Prim.Native.String.{String}
use mathlib.Core.Path.{◌≡◌, refl}
use mathlib.Core.Logic.{◌↔◌}
use mathlib.Core.Bool.{Bool, true, false, ◌&&◌, ◌||◌, not}
use mathlib.Core.List.{List, [], ◌∷◌}
use native.Mathlib.Omega.{arith}
use skill_asset_protocol.Base.Tests.{◌==◌}

abbrev pub JsString : Type 0
JsString = List ℕ

-- A literal of the source. All of them are ASCII, so code points are code units.
abbrev pub js : String → JsString
js String.[] = []
js (String.◌∷◌ c s) = code c ∷ js s

-- The order of `<` on strings.
unfoldable pub compare_text : JsString → JsString → Ordering
compare_text [] [] = Ordering.eq
compare_text [] (b ∷ t) = Ordering.lt
compare_text (a ∷ s) [] = Ordering.gt
compare_text (a ∷ s) (b ∷ t) = elim (compare a b) [
  | Ordering.lt ↦ Ordering.lt
  | Ordering.eq ↦ compare_text s t
  | Ordering.gt ↦ Ordering.gt
]

-- `s < t`
unfoldable pub text_lt : JsString → JsString → Bool
text_lt s t = elim (compare_text s t) [ Ordering.lt ↦ true | _ ↦ false ]

-- `s === t`
unfoldable pub text_eq : JsString → JsString → Bool
text_eq [] [] = true
text_eq [] (b ∷ t) = false
text_eq (a ∷ s) [] = false
text_eq (a ∷ s) (b ∷ t) = a == b && text_eq s t

pub text_eq_refl : (s : JsString) → text_eq s s ≡ true
unfolding text_eq
text_eq_refl [] = refl
text_eq_refl (a ∷ s) = ground (arith, text_eq_refl s)

pub text_eq→eq : (s t : JsString) → text_eq s t ≡ true → s ≡ t
unfolding text_eq
text_eq→eq [] [] h = refl
text_eq→eq [] (b ∷ t) h = cc
text_eq→eq (a ∷ s) [] h = cc
text_eq→eq (a ∷ s) (b ∷ t) h = ground (arith, text_eq→eq s t)

pub text_eq_iff : (s t : JsString) → (text_eq s t ≡ true) ↔ (s ≡ t)
text_eq_iff s t = (text_eq→eq s t, λ e. rw e (text_eq_refl t))

pub text_eq_comm : (s t : JsString) → text_eq s t ≡ text_eq t s
unfolding text_eq
text_eq_comm [] [] = refl
text_eq_comm [] (b ∷ t) = refl
text_eq_comm (a ∷ s) [] = refl
text_eq_comm (a ∷ s) (b ∷ t) = ground (arith, text_eq_comm s t)

pub text_lt_irrefl : (s : JsString) → text_lt s s ≡ false
unfolding text_lt compare_text
text_lt_irrefl [] = refl
text_lt_irrefl (a ∷ s) = ground (arith, text_lt_irrefl s)

pub text_lt_asymm : (s t : JsString) → text_lt s t ≡ true → text_lt t s ≡ false
unfolding text_lt compare_text
text_lt_asymm [] [] h = cc
text_lt_asymm [] (b ∷ t) h = refl
text_lt_asymm (a ∷ s) [] h = cc
text_lt_asymm (a ∷ s) (b ∷ t) h = ground (arith, text_lt_asymm s t)

-- Two strings, neither of which is before the other, are equal.
pub text_lt_total : (s t : JsString) → text_lt s t ≡ false → text_lt t s ≡ false → s ≡ t
unfolding text_lt compare_text
text_lt_total [] [] h k = refl
text_lt_total [] (b ∷ t) h k = cc
text_lt_total (a ∷ s) [] h k = cc
text_lt_total (a ∷ s) (b ∷ t) h k = ground (arith, text_lt_total s t)

pub text_lt_trans :
    (s t u : JsString) → text_lt s t ≡ true → text_lt t u ≡ true → text_lt s u ≡ true
unfolding text_lt compare_text
text_lt_trans [] [] u h k = cc
text_lt_trans [] (b ∷ t) [] h k = cc
text_lt_trans [] (b ∷ t) (c ∷ u) h k = refl
text_lt_trans (a ∷ s) [] u h k = cc
text_lt_trans (a ∷ s) (b ∷ t) [] h k = cc
text_lt_trans (a ∷ s) (b ∷ t) (c ∷ u) h k = ground (arith, text_lt_trans s t u)

-- `strings.includes(s)`
abbrev pub includes : JsString → List JsString → Bool
includes s [] = false
includes s (t ∷ ts) = text_eq t s || includes s ts

-- `new Set(strings).size === strings.length`
abbrev pub distinct : List JsString → Bool
distinct [] = true
distinct (s ∷ ts) = not (includes s ts) && distinct ts

-- `s.startsWith(prefix)`
unfoldable pub starts_with : JsString → JsString → Bool
starts_with s [] = true
starts_with [] (p ∷ ps) = false
starts_with (c ∷ s) (p ∷ ps) = c == p && starts_with s ps
