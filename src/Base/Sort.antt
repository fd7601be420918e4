-- ===== src/Base/Sort.antt =====
-- `array.sort(compareKeys)`: a stable sort by a string key, as a stable insertion sort.
use mathlib.Core.List.{Permᴰ}
use skill_asset_protocol.Base.Tests.{if◌then◌else◌}
use skill_asset_protocol.Base.Lists.{sum_by}
use skill_asset_protocol.Base.Text.{
  JsString, text_lt, text_eq, text_eq_refl, text_eq_comm, text_lt_asymm, text_lt_total,
  text_lt_trans, includes, distinct,
}
use Prim.Native.Nat.{ℕ, ◌+◌}
use mathlib.Core.Path.{◌≡◌, refl, ap, ◌∙◌, subst₂}
use mathlib.Core.Logic.{◌≢◌}
use mathlib.Core.Bool.{true}
use mathlib.Core.List.{List, [], ◌∷◌, map}
use native.Mathlib.Omega.{arith}

module _ {ℓ} {A : Type ℓ} (key : A → JsString) where
  unfoldable pub insert_by : A → List A → List A
  insert_by x [] = x ∷ []
  insert_by x (y ∷ ys) = if text_lt (key y) (key x) then y ∷ insert_by x ys else x ∷ y ∷ ys

  unfoldable pub sort_by : List A → List A
  sort_by [] = []
  sort_by (x ∷ xs) = insert_by x (sort_by xs)

  sum_by-insert_by :
      (f : A → ℕ) (x : A) (xs : List A) → sum_by f (insert_by x xs) ≡ f x + sum_by f xs
  unfolding insert_by
  sum_by-insert_by f x [] = refl
  sum_by-insert_by f x (y ∷ ys) = ground (arith, sum_by-insert_by f x ys)

  pub sum_by-sort_by : (f : A → ℕ) (xs : List A) → sum_by f (sort_by xs) ≡ sum_by f xs
  unfolding sort_by
  sum_by-sort_by f [] = refl
  sum_by-sort_by f (x ∷ xs) = omega (arith, sum_by-insert_by f x (sort_by xs), sum_by-sort_by f xs)

  -- Two insertions commute where the keys differ.
  insert_by_comm :
      (x y : A) (l : List A)
      → key x ≢ key y
      → insert_by x (insert_by y l) ≡ insert_by y (insert_by x l)
  unfolding insert_by
  insert_by_comm x y [] ne =
      ground (arith, text_lt_asymm (key x) (key y), text_lt_total (key x) (key y))
  insert_by_comm x y (z ∷ l) ne = ground (
    arith,
    insert_by_comm x y l ne,
    text_lt_asymm (key x) (key y),
    text_lt_total (key x) (key y),
    text_lt_asymm (key x) (key z),
    text_lt_total (key x) (key z),
    text_lt_asymm (key y) (key z),
    text_lt_total (key y) (key z),
    text_lt_trans (key x) (key y) (key z),
    text_lt_trans (key z) (key x) (key y),
    text_lt_trans (key x) (key z) (key y),
    text_lt_trans (key y) (key z) (key x),
    text_lt_trans (key z) (key y) (key x),
    text_lt_trans (key y) (key x) (key z),
  )

  includes-perm :
      (s : JsString) {xs ys : List A}
      → Permᴰ xs ys
      → includes s (map key xs) ≡ includes s (map key ys)
  includes-perm s Permᴰ.nil = refl
  includes-perm s (Permᴰ.cons {a} {b} e p) = rw (e, includes-perm s p)
  includes-perm s (Permᴰ.swap {a} {b} {l = l} e f) = rw (e, f) (ground arith)
  includes-perm s (Permᴰ.trans p q) = includes-perm s p ∙ includes-perm s q

  distinct_swap :
      (a b : A) (l : List A)
      → distinct (map key (a ∷ b ∷ l)) ≡ true
      → distinct (map key (b ∷ a ∷ l)) ≡ true
  distinct_swap a b l h = ground (arith, text_eq_comm (key a) (key b))

  pub distinct-perm :
      {xs ys : List A} → Permᴰ xs ys → distinct (map key xs) ≡ true → distinct (map key ys) ≡ true
  distinct-perm Permᴰ.nil h = h
  distinct-perm (Permᴰ.cons {a} {b} e p) h =
      ground (arith, ap key e, includes-perm (key b) p, distinct-perm p)
  distinct-perm (Permᴰ.swap {a} {b} {l} e f) h =
      subst₂ (λ v w. distinct (map key (v ∷ w ∷ l)) ≡ true) f e (distinct_swap a b l h)
  distinct-perm (Permᴰ.trans p q) h = distinct-perm q (distinct-perm p h)

  -- With distinct keys the sorted list does not depend on the order of the input.
  pub sort_by-perm :
      {xs ys : List A} → Permᴰ xs ys → distinct (map key xs) ≡ true → sort_by xs ≡ sort_by ys
  unfolding sort_by
  sort_by-perm Permᴰ.nil h = refl
  sort_by-perm (Permᴰ.cons {a} {b} {l₁} e p) h =
      ap (λ x. insert_by x (sort_by l₁)) e ∙ ap (insert_by b) (sort_by-perm p (ground arith))
  sort_by-perm (Permᴰ.swap {a} {b} {l = l} e f) h =
      rw (← e, ← f)
        (insert_by_comm a b (sort_by l) (λ same.
          ground
            (arith, text_eq_refl (key a), ap (text_eq (key b)) same, text_eq_comm (key a) (key b))))
  sort_by-perm (Permᴰ.trans p q) h = sort_by-perm p h ∙ sort_by-perm q (distinct-perm p h)
