-- ===== src/Money/Weights/Order.antt =====
-- `allocateByWeights` sorts its rows, so the order of the shares does not matter.
use mathlib.Core.List.{Permᴰ}
use mathlib.Core.List.Permᴰ
use mathlib.Core.Path.{subst₂}
use skill_asset_protocol.Base.{
  ℕ, List, [], ◌∷◌, map, ◌≡◌, refl, sym, subst, ap, ◌∙◌, arith, Value, ok, sort_by, JsString,
  includes, distinct, true, false, null, text_eq, text_eq_refl, text_eq→eq, ◌||◌, Result-cases,
  text_eq_comm, sort_by-perm, inl, inr,
}
use skill_asset_protocol.Money.Input.{weight_to_bigint}
use skill_asset_protocol.Money.Weights.{Share, Row, Credited, read_rows, allocate_by_weights}

abbrev keys : List Row → List JsString
keys = map (λ r. r.key)

-- A successful reading of a first share and the rest.
record IsRead (seen : List JsString) (s : Share) (ss : List Share) (rows : List Row) : Type 0 where
  weight : ℕ
  rest : List Row
  named : null s.key ≡ false
  fresh : includes s.key seen ≡ false
  weighed : weight_to_bigint s.weight ≡ ok weight
  tail : read_rows (s.key ∷ seen) ss ≡ ok rest
  whole : rows ≡ record { key = s.key; weight = weight } ∷ rest

read_rows-IsRead :
    (seen : List JsString) (s : Share) (ss : List Share) (rows : List Row)
    → read_rows seen (s ∷ ss) ≡ ok rows
    → IsRead seen s ss rows
unfolding read_rows
read_rows-IsRead seen s ss rows h = elim (Result-cases (weight_to_bigint s.weight)) [
  | inr (e, bad) ↦ absurd (ground arith)
  | inl (w, good) ↦ elim (Result-cases (read_rows (s.key ∷ seen) ss)) [
    | inr (e, bad) ↦ absurd (ground arith)
    | inl (rest, read) ↦ record {
      weight = w;
      rest = rest;
      named = ground arith;
      fresh = ground arith;
      weighed = good;
      tail = read;
      whole = ground arith;
    }
  ]
]

IsRead-read_rows :
    (seen : List JsString) (s : Share) (ss : List Share) (rows : List Row)
    → IsRead seen s ss rows
    → read_rows seen (s ∷ ss) ≡ ok rows
unfolding read_rows
IsRead-read_rows seen s ss rows r = ground arith

-- What was read has no key that was seen before.
read_rows_fresh :
    (k : JsString) (seen : List JsString) (shares : List Share) (rows : List Row)
    → read_rows seen shares ≡ ok rows
    → includes k seen ≡ true
    → includes k (keys rows) ≡ false
unfolding read_rows
read_rows_fresh k seen [] rows h i = ground arith
read_rows_fresh k seen (s ∷ ss) rows h i =
    let r = read_rows-IsRead seen s ss rows h in
    ground (
      arith,
      r.fresh,
      r.whole,
      text_eq→eq s.key k,
      read_rows_fresh k (s.key ∷ seen) ss r.rest r.tail,
    )

read_rows-distinct :
    (seen : List JsString) (shares : List Share) (rows : List Row)
    → read_rows seen shares ≡ ok rows
    → distinct (keys rows) ≡ true
unfolding read_rows
read_rows-distinct seen [] rows h = ground arith
read_rows-distinct seen (s ∷ ss) rows h =
    let r = read_rows-IsRead seen s ss rows h in
    ground (
      arith,
      r.whole,
      text_eq_refl s.key,
      read_rows_fresh s.key (s.key ∷ seen) ss r.rest r.tail,
      read_rows-distinct (s.key ∷ seen) ss r.rest r.tail,
    )

-- Only the set of the keys seen matters.
read_rows_same_seen :
    (seen seen' : List JsString) (shares : List Share)
    → ((k : JsString) → includes k seen ≡ includes k seen')
    → read_rows seen shares ≡ read_rows seen' shares
unfolding read_rows
read_rows_same_seen seen seen' [] same = refl
read_rows_same_seen seen seen' (s ∷ ss) same = rw (
  same s.key,
  read_rows_same_seen (s.key ∷ seen) (s.key ∷ seen') ss
      (λ k. ap (λ b. text_eq s.key k || b) (same k)),
)

includes_swap :
    (s t : JsString) (seen : List JsString) (k : JsString)
    → includes k (t ∷ s ∷ seen) ≡ includes k (s ∷ t ∷ seen)
includes_swap s t seen k = ground arith

abbrev Reads : List JsString → List Share → List Row → Type 0
Reads seen shares rows = (rows' : List Row) × (read_rows seen shares ≡ ok rows') × Permᴰ rows rows'

read_rows_swap :
    (a b : Share) (l : List Share) (seen : List JsString) (rows : List Row)
    → read_rows seen (a ∷ b ∷ l) ≡ ok rows
    → Reads seen (b ∷ a ∷ l) rows
read_rows_swap a b l seen rows h =
    let ra = read_rows-IsRead seen a (b ∷ l) rows h in
    let rb = read_rows-IsRead (a.key ∷ seen) b l ra.rest ra.tail in
    let row_a : Row = record { key = a.key; weight = ra.weight } in
    let row_b : Row = record { key = b.key; weight = rb.weight } in
    let found_a : IsRead (b.key ∷ seen) a l (row_a ∷ rb.rest) = record {
      weight = ra.weight;
      rest = rb.rest;
      named = ra.named;
      fresh = ground (arith, ra.fresh, rb.fresh, text_eq_comm a.key b.key);
      weighed = ra.weighed;
      tail =
          sym (
            read_rows_same_seen (b.key ∷ a.key ∷ seen) (a.key ∷ b.key ∷ seen) l
              (includes_swap a.key b.key seen))
          ∙ rb.tail;
      whole = refl;
    } in
    let found_b : IsRead seen b (a ∷ l) (row_b ∷ row_a ∷ rb.rest) = record {
      weight = rb.weight;
      rest = row_a ∷ rb.rest;
      named = rb.named;
      fresh = ground (arith, rb.fresh);
      weighed = rb.weighed;
      tail = IsRead-read_rows (b.key ∷ seen) a l _ found_a;
      whole = refl;
    } in
    (
      row_b ∷ row_a ∷ rb.rest,
      IsRead-read_rows seen b (a ∷ l) _ found_b,
      subst (λ v. Permᴰ v (row_b ∷ row_a ∷ rb.rest)) (sym (ra.whole ∙ ap (λ v. row_a ∷ v) rb.whole))
          (Permᴰ.swap refl refl),
    )

read_rows-perm :
    {xs ys : List Share}
    → Permᴰ xs ys
    → (seen : List JsString) (rows : List Row) → read_rows seen xs ≡ ok rows
    → Reads seen ys rows
read_rows-perm Permᴰ.nil seen rows h = (rows, h, Permᴰ.refl rows)
read_rows-perm (Permᴰ.cons {a} {b} {l₁} {l₂} e p) seen rows h =
    let r = read_rows-IsRead seen a l₁ rows h in
    let (rest, read, q) = read_rows-perm p (a.key ∷ seen) r.rest r.tail in
    let row : Row = record { key = a.key; weight = r.weight } in
    let found : IsRead seen a l₂ (row ∷ rest) = record {
      weight = r.weight;
      rest = rest;
      named = r.named;
      fresh = r.fresh;
      weighed = r.weighed;
      tail = read;
      whole = refl;
    } in
    (
      row ∷ rest,
      subst (λ v. read_rows seen (v ∷ l₂) ≡ ok (row ∷ rest)) e (IsRead-read_rows seen a l₂ _ found),
      subst (λ v. Permᴰ v (row ∷ rest)) (sym r.whole) (Permᴰ.cons refl q),
    )
read_rows-perm (Permᴰ.swap {a} {b} {a'} {b'} {l} e f) seen rows h =
    let (rows', read, q) = read_rows_swap a b l seen rows h in
    (rows', subst₂ (λ v w. read_rows seen (v ∷ w ∷ l) ≡ ok rows') f e read, q)
read_rows-perm (Permᴰ.trans p q) seen rows h =
    let (middle, m, pm) = read_rows-perm p seen rows h in
    let (last, n, qn) = read_rows-perm q seen middle m in (last, n, Permᴰ.trans pm qn)

null-perm : {xs ys : List Share} → Permᴰ xs ys → null xs ≡ null ys
null-perm Permᴰ.nil = refl
null-perm (Permᴰ.cons e p) = refl
null-perm (Permᴰ.swap e f) = refl
null-perm (Permᴰ.trans p q) = null-perm p ∙ null-perm q

-- An accepted split is the same in every order of the shares, to the last unit.
pub allocate_by_weights-perm :
    (amount : Value) (xs ys : List Share) {out : List Credited}
    → Permᴰ xs ys
    → allocate_by_weights amount xs ≡ ok out
    → allocate_by_weights amount ys ≡ ok out
unfolding allocate_by_weights
allocate_by_weights-perm amount xs ys p h = elim (Result-cases (read_rows [] xs)) [
  | inr (e, bad) ↦ absurd (ground arith)
  | inl (rows, read) ↦
      let (rows', read', q) = read_rows-perm p [] rows read in
      let same : sort_by (λ (r : Row). r.key) rows ≡ sort_by (λ (r : Row). r.key) rows' =
        sort_by-perm (λ (r : Row). r.key) q (read_rows-distinct [] xs rows read) in
      ground (arith, null-perm p, read, read', same)
]
