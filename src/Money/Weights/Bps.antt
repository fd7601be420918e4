-- ===== src/Money/Weights/Bps.antt =====
-- prototype/atomic-money.mjs: `allocateByBps` pays every share by its basis points.
use skill_asset_protocol.Base.{
  ℕ, ◌≤◌, List, [], ◌∷◌, map, ◌≡◌, refl, subst, ◌==◌, arith, Value, number, bigint, pos, negsuc, ok,
  sort_by, sum_by-sort_by, JsString, Bool-cases, inl, inr, Result-cases, null, includes, false,
}
use skill_asset_protocol.Money.Input.{assert_atomic, assert_bps, weight_to_bigint}
use skill_asset_protocol.Money.Weights.{
  Share, Row, Credited, BpsShare, read_rows, split_rows, allocate_by_weights, normalize_bps,
  row_share, allocate_by_bps,
}
use skill_asset_protocol.Money.Weights.Fair.{
  AllFair, row_weights, credited, allocate_by_weights_splits,
}

-- A row has the key of its share, and its weight is the basis points, a number up to 10000.
abbrev pub AllRead : List BpsShare → List Row → Type 0
AllRead [] [] = Unit
AllRead (s ∷ ss) (r ∷ rs) =
    ((r.key ≡ s.key) × (s.bps ≡ number (pos r.weight)) × (r.weight ≤ 10_000)) × AllRead ss rs
AllRead _ _ = ⊥

pub assert_bps-eq-ok :
    (v : Value) {b : ℕ} → assert_bps v ≡ ok b → (v ≡ number (pos b)) × (b ≤ 10_000)
unfolding assert_bps
assert_bps-eq-ok (number (pos n)) e = ground arith
assert_bps-eq-ok (number (negsuc n)) e = absurd (ground arith)
assert_bps-eq-ok _ e = absurd (ground arith)

normalize_bps-AllRead :
    (shares : List BpsShare) (rows : List Row)
    → normalize_bps shares ≡ ok rows
    → AllRead shares rows
unfolding normalize_bps
normalize_bps-AllRead [] [] e = tt
normalize_bps-AllRead [] (r ∷ rows) e = absurd (ground arith)
normalize_bps-AllRead (s ∷ ss) rows e = elim (Result-cases (assert_bps s.bps)) [
  | inr (code, failed) ↦ absurd (ground arith)
  | inl (b, read) ↦ elim (Result-cases (normalize_bps ss)) [
    | inr (code, failed) ↦ absurd (ground arith)
    | inl (rest, done) ↦
        let first : Row = record { key = s.key; weight = b } in
        let made : first ∷ rest ≡ rows = ground arith in
        let (exact, small) = assert_bps-eq-ok s.bps read in
        subst (AllRead (s ∷ ss)) made ((refl, exact, small), normalize_bps-AllRead ss rest done)
  ]
]

-- The weights that `allocateByBps` passes on are read back as they are.
read_rows-row_share :
    (seen : List JsString) (rows out : List Row)
    → read_rows seen (map row_share rows) ≡ ok out
    → out ≡ rows
unfolding read_rows weight_to_bigint
read_rows-row_share seen [] out e = ground arith
read_rows-row_share seen (r ∷ rows) out e =
    elim (Result-cases (read_rows (r.key ∷ seen) (map row_share rows))) [
      | inr (code, failed) ↦ absurd (ground arith)
      | inl (rest, done) ↦ ground (arith, read_rows-row_share (r.key ∷ seen) rows rest done)
    ]

-- What an accepted split has read and paid.
pub allocate_by_weights-eq-ok :
    (amount : ℕ) (shares : List Share) {out : List Credited}
    → allocate_by_weights (bigint (pos amount)) shares ≡ ok out
    → (rows : List Row) × (read_rows [] shares ≡ ok rows)
      × (credited out ≡ amount)
      × AllFair amount (row_weights rows) (sort_by (λ (r : Row). r.key) rows) out
allocate_by_weights-eq-ok amount shares {out} e = elim (Result-cases (read_rows [] shares)) [
  | inr (code, failed) ↦ unfold allocate_by_weights assert_atomic in absurd (ground arith)
  | inl (rows, read) ↦ elim (Bool-cases (row_weights rows == 0)) [
    | inl none ↦
        let same = sum_by-sort_by (λ (r : Row). r.key) (λ (r : Row). r.weight) rows in
        unfold allocate_by_weights assert_atomic split_rows in absurd (ground arith)
    | inr some ↦
        let (result, run, sum, fair) =
          allocate_by_weights_splits amount shares rows read (ground arith) in
        let same : result ≡ out = ground arith in
        (
          rows,
          read,
          ground arith,
          subst (AllFair amount (row_weights rows) (sort_by (λ (r : Row). r.key) rows)) same fair,
        )
  ]
]

-- An accepted split credits the whole amount.
pub credited-allocate_by_weights :
    (amount : ℕ) (shares : List Share) {out : List Credited}
    → allocate_by_weights (bigint (pos amount)) shares ≡ ok out
    → credited out ≡ amount
credited-allocate_by_weights amount shares e = (allocate_by_weights-eq-ok amount shares e).2

-- An accepted split by basis points: the shares are read to rows of their keys and basis points,
-- these make 10000 together, the whole amount is credited, in key order, and every share gets its
-- fair part of the amount, less than a unit below and at most a unit above `amount * bps / 10000`.
pub allocate_by_bps_splits :
    (amount : ℕ) (shares : List BpsShare) {out : List Credited}
    → allocate_by_bps (bigint (pos amount)) shares ≡ ok out
    → (rows : List Row) × AllRead shares rows
      × (row_weights rows ≡ 10_000)
      × (credited out ≡ amount)
      × AllFair amount 10_000 (sort_by (λ (r : Row). r.key) rows) out
allocate_by_bps_splits amount shares {out} e = elim (Result-cases (normalize_bps shares)) [
  | inr (code, failed) ↦ unfold allocate_by_bps in absurd (ground arith)
  | inl (rows, normal) ↦
      let full : row_weights rows ≡ 10_000 = unfold allocate_by_bps in ground arith in
      let paid : allocate_by_weights (bigint (pos amount)) (map row_share rows) ≡ ok out =
        unfold allocate_by_bps in ground arith in
      let (again, read, sum, fair) = allocate_by_weights-eq-ok amount (map row_share rows) paid in
      let same = read_rows-row_share [] rows again read in
      let sorted = λ (rs : List Row). sort_by (λ (r : Row). r.key) rs in
      (
        rows,
        normalize_bps-AllRead shares rows normal,
        full,
        sum,
        subst (λ t. AllFair amount t (sorted rows) out) full
            (subst (λ rs. AllFair amount (row_weights rs) (sorted rs) out) same fair),
      )
]

-- No key is empty, and none is among those seen or comes twice.
abbrev pub FreshKeys : List JsString → List BpsShare → Type 0
FreshKeys seen [] = Unit
FreshKeys seen (s ∷ ss) =
    (null s.key ≡ false) × (includes s.key seen ≡ false) × FreshKeys (s.key ∷ seen) ss

assert_bps-ok : (n : ℕ) → n ≤ 10_000 → assert_bps (number (pos n)) ≡ ok n
unfolding assert_bps
assert_bps-ok n h = ground arith

AllRead-normalize_bps :
    (shares : List BpsShare) (rows : List Row)
    → AllRead shares rows
    → normalize_bps shares ≡ ok rows
unfolding normalize_bps
AllRead-normalize_bps [] [] h = refl
AllRead-normalize_bps [] (r ∷ rows) h = absurd h
AllRead-normalize_bps (s ∷ ss) [] h = absurd h
AllRead-normalize_bps (s ∷ ss) (r ∷ rows) ((same, exact, small), rest) =
    rw exact (ground (arith, assert_bps-ok r.weight small, AllRead-normalize_bps ss rows rest))

FreshKeys-read_rows :
    (seen : List JsString) (shares : List BpsShare) (rows : List Row)
    → AllRead shares rows
    → FreshKeys seen shares
    → read_rows seen (map row_share rows) ≡ ok rows
unfolding read_rows weight_to_bigint
FreshKeys-read_rows seen [] [] h k = refl
FreshKeys-read_rows seen [] (r ∷ rows) h k = absurd h
FreshKeys-read_rows seen (s ∷ ss) [] h k = absurd h
FreshKeys-read_rows seen (s ∷ ss) (r ∷ rows) ((same, exact, small), rest) (full, fresh, others) =
    rw same
      (rw full (rw fresh (ground (arith, FreshKeys-read_rows (s.key ∷ seen) ss rows rest others))))

-- Shares with keys that are not empty and different, of basis points that are numbers up to 10000
-- and make 10000 together, are split: the call does not fail.
pub allocate_by_bps_succeeds :
    (amount : ℕ) (shares : List BpsShare) (rows : List Row)
    → AllRead shares rows
    → row_weights rows ≡ 10_000
    → FreshKeys [] shares
    → (out : List Credited) × (allocate_by_bps (bigint (pos amount)) shares ≡ ok out)
unfolding allocate_by_bps
allocate_by_bps_succeeds amount [] [] read full fresh = absurd (omega arith)
allocate_by_bps_succeeds amount [] (r ∷ rows) read full fresh = absurd read
allocate_by_bps_succeeds amount (s ∷ ss) rows read full fresh =
    let normal = AllRead-normalize_bps (s ∷ ss) rows read in
    let again = FreshKeys-read_rows [] (s ∷ ss) rows read fresh in
    let (out, paid, _, _) =
      allocate_by_weights_splits amount (map row_share rows) rows again (omega arith) in
    (out, rw normal (ground (arith, paid)))
