-- ===== src/Base/Maps.antt =====
-- Objects that the source uses as maps, as lists of keys and values. The order of the keys is the
-- order in which they were set, and the keys that `Object.prototype` has are not looked up.
use Prim.Native.Nat.{ℕ, ◌+◌}
use mathlib.Core.Path.{◌≡◌, sym, subst, ap}
use mathlib.Core.Bool.{Bool, true, false}
use mathlib.Core.Option.{Option, none, some}
use mathlib.Core.List.{List, [], ◌∷◌, map}
use mathlib.Core.Logic.{inl, inr}
use native.Mathlib.Omega.{arith}
use skill_asset_protocol.Base.Tests.{if◌then◌else◌, Bool-cases}
use skill_asset_protocol.Base.Lists.{sum_by, All}
use skill_asset_protocol.Base.Text.{JsString, text_eq, text_eq_refl, text_eq→eq}

abbrev pub Dictionary {ℓ} : Type ℓ → Type ℓ
Dictionary A = List (JsString × A)

module _ {ℓ} {A : Type ℓ} where
  -- `map[key]`
  unfoldable pub lookup : JsString → Dictionary A → Option A
  lookup key [] = none
  lookup key (x ∷ xs) = if text_eq x.0 key then some x.1 else lookup key xs

  -- `Object.hasOwn(map, key)`
  unfoldable pub has_key : JsString → Dictionary A → Bool
  has_key key [] = false
  has_key key (x ∷ xs) = if text_eq x.0 key then true else has_key key xs

  -- `{ ...map, [key]: value }`
  unfoldable pub map_with : Dictionary A → JsString → A → Dictionary A
  map_with [] key a = (key, a) ∷ []
  map_with (x ∷ xs) key a = if text_eq x.0 key then (x.0, a) ∷ xs else x ∷ map_with xs key a

  -- `Object.values(map)`
  abbrev pub values : Dictionary A → List A
  values = map (λ x. x.1)

  pub lookup-map_with_same :
      (m : Dictionary A) (key : JsString) (a : A) → lookup key (map_with m key a) ≡ some a
  unfolding lookup map_with
  lookup-map_with_same [] key a = ground (arith, text_eq_refl key)
  lookup-map_with_same (x ∷ xs) key a = elim (Bool-cases (text_eq x.0 key)) [
    | inl h ↦ ground (arith, h)
    | inr h ↦ ground (arith, h, lookup-map_with_same xs key a)
  ]

  pub lookup-map_with_other :
      (m : Dictionary A) (key other : JsString) (a : A)
      → text_eq key other ≡ false
      → lookup other (map_with m key a) ≡ lookup other m
  unfolding lookup map_with
  lookup-map_with_other [] key other a distinct = ground (arith, distinct)
  lookup-map_with_other (x ∷ xs) key other a distinct = elim (Bool-cases (text_eq x.0 key)) [
    | inl h ↦ let e = text_eq→eq x.0 key h in ground (arith, h, e, distinct)
    | inr h ↦ ground (arith, h, lookup-map_with_other xs key other a distinct)
  ]

  -- What a map has is kept by an assignment.
  pub has_key-map_with :
      (m : Dictionary A) (key other : JsString) (a : A)
      → has_key other m ≡ true
      → has_key other (map_with m key a) ≡ true
  unfolding has_key map_with
  has_key-map_with [] key other a h = cc
  has_key-map_with (x ∷ xs) key other a h = ground (arith, has_key-map_with xs key other a)

  pub has_key-map_with_same :
      (m : Dictionary A) (key : JsString) (a : A) → has_key key (map_with m key a) ≡ true
  unfolding has_key map_with
  has_key-map_with_same [] key a = ground (arith, text_eq_refl key)
  has_key-map_with_same (x ∷ xs) key a = elim (Bool-cases (text_eq x.0 key)) [
    | inl h ↦ ground (arith, h)
    | inr h ↦ ground (arith, h, has_key-map_with_same xs key a)
  ]

  -- An assignment to a key that the map has not adds its value to a sum over the values, and an
  -- assignment to one that it has replaces the old value.
  pub sum_by-map_with_new :
      (f : A → ℕ) (m : Dictionary A) (key : JsString) (a : A)
      → has_key key m ≡ false
      → sum_by f (values (map_with m key a)) ≡ sum_by f (values m) + f a
  unfolding has_key map_with
  sum_by-map_with_new f [] key a h = omega arith
  sum_by-map_with_new f (x ∷ xs) key a h = ground (arith, sum_by-map_with_new f xs key a)

  pub sum_by-map_with :
      (f : A → ℕ) (m : Dictionary A) (key : JsString) (a : A) {old : A}
      → lookup key m ≡ some old
      → sum_by f (values (map_with m key a)) + f old ≡ sum_by f (values m) + f a
  unfolding lookup map_with
  sum_by-map_with f [] key a h = cc
  sum_by-map_with f (x ∷ xs) key a {old} h = elim (Bool-cases (text_eq x.0 key)) [
    | inl same ↦ ground (arith, same)
    | inr other ↦
        (let rest : lookup key xs ≡ some old = ground (arith, other) in
          ground (arith, other, sum_by-map_with f xs key a rest))
  ]

  -- A predicate on keys and values that holds of a map and of an assignment holds after it.
  pub All-map_with {κ} :
      (P : JsString × A → Type κ) (m : Dictionary A) (key : JsString) (a : A)
      → All P m
      → P (key, a)
      → All P (map_with m key a)
  unfolding map_with
  All-map_with P [] key a hm ha = (ha, tt)
  All-map_with P (x ∷ xs) key a hm ha = elim (Bool-cases (text_eq x.0 key)) [
    | inl h ↦
        let p : P (x.0, a) = subst (λ k. P (k, a)) (sym (text_eq→eq x.0 key h)) ha in rw h (p, hm.1)
    | inr h ↦ rw h (hm.0, All-map_with P xs key a hm.1 ha)
  ]

  pub All-lookup {κ} :
      (P : JsString × A → Type κ) (m : Dictionary A) (key : JsString) {a : A}
      → All P m
      → lookup key m ≡ some a
      → P (key, a)
  unfolding lookup
  All-lookup P [] key hm h = absurd (ground arith)
  All-lookup P (x ∷ xs) key {a} hm h = elim (Bool-cases (text_eq x.0 key)) [
    | inl same ↦
        let e : x.1 ≡ a = ground (arith, same) in
        subst P (pair_path (text_eq→eq x.0 key same) e) hm.0
    | inr other ↦ All-lookup P xs key hm.1 (ground (arith, other))
  ]
    where
      pair_path :
          {k : JsString} {v w : A} {k' : JsString}
          → k ≡ k'
          → v ≡ w
          → ◌≡◌ {A = JsString × A} (k, v) (k', w)
      pair_path e f = cc

  pub lookup-has_key :
      (m : Dictionary A) (key : JsString) {a : A} → lookup key m ≡ some a → has_key key m ≡ true
  unfolding lookup has_key
  lookup-has_key [] key h = absurd (ground arith)
  lookup-has_key (x ∷ xs) key {a} h = elim (Bool-cases (text_eq x.0 key)) [
    | inl same ↦ ground (arith, same)
    | inr other ↦
        let rest : lookup key xs ≡ some a = ground (arith, other) in
        ground (arith, other, lookup-has_key xs key rest)
  ]

  -- A key that a map has is not one that it has not.
  pub has_key-distinct :
      (m : Dictionary A) (key other : JsString)
      → has_key key m ≡ true
      → has_key other m ≡ false
      → text_eq key other ≡ false
  has_key-distinct m key other h k = elim (Bool-cases (text_eq key other)) [
    | inl same ↦
        let e = ap (λ s. has_key s m) (text_eq→eq key other same) in absurd (ground (arith, e))
    | inr distinct ↦ distinct
  ]
