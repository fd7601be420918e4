-- ===== src/Awards/Receipts/Merkle.antt =====
-- spikes/internal-invocation-awards/src/statements.mjs: `receiptMerkleRoot`. The digests are bytes; the
-- SHA-256 of bytes and their hexadecimal text are parameters.
use Prim.Native.Nat.{zero, suc}
use skill_asset_protocol.Base.{
  ℕ, ◌+◌, ◌*◌, ◌≤◌, ◌≡◌, refl, sym, ap, ◌∙◌, ok-injective, bind-ok, List, [], ◌∷◌, ◌++◌, map_all,
  length, JsString, js, Result, ok, ◌>>=◌, arith, Option, some, none,
}
use skill_asset_protocol.Kernel.Platform.{Platform}
use skill_asset_protocol.Kernel.Patterns.{after_prefix}
use skill_asset_protocol.Awards.Errors.{AwardError, Calendar}
use skill_asset_protocol.Awards.Keys.{Crypto}
use skill_asset_protocol.Awards.Receipts.{SignedReceipt}
use skill_asset_protocol.Awards.Receipts.Signed.{receipt_hash}

abbrev pub Bytes : Type 0
Bytes = List ℕ

module _ (sha256 : Bytes → Bytes) where
  abbrev pub leaf_of : Bytes → Bytes
  leaf_of digest = sha256 (js "internal-invocation-awards:receipt-merkle:v1:leaf" ++ 0 ∷ digest)

  abbrev pub node_of : Bytes → Bytes → Bytes
  node_of left right =
      sha256 (js "internal-invocation-awards:receipt-merkle:v1:node" ++ 0 ∷ (left ++ right))

  -- One pass of the inner loop: the nodes of two neighbours each, the last of an odd number with itself.
  unfoldable pub next_level : List Bytes → List Bytes
  next_level [] = []
  next_level (left ∷ []) = node_of left left ∷ []
  next_level (left ∷ right ∷ rest) = node_of left right ∷ next_level rest

  -- The loop `while (level.length > 1)`, on fuel; `none` where the fuel is used up.
  unfoldable pub root_of : ℕ → List Bytes → Option Bytes
  root_of fuel [] = none
  root_of fuel (root ∷ []) = some root
  root_of zero (a ∷ b ∷ rest) = none
  root_of (suc fuel) (a ∷ b ∷ rest) = root_of fuel (next_level (a ∷ b ∷ rest))

  next_level-length : (level : List Bytes) → (length (next_level level) * 2 ≤ length level + 1)
  unfolding next_level
  next_level-length [] = omega arith
  next_level-length (a ∷ []) = omega arith
  next_level-length (a ∷ b ∷ rest) = let most = next_level-length rest in omega (arith, most)

  -- The levels end in one root: with as much fuel as there are neighbours of the first digest the loop
  -- returns it, and so it does with more fuel.
  pub root_of-terminates :
      (fuel : ℕ) (first : Bytes) (rest : List Bytes)
      → length rest ≤ fuel
      → (root : Bytes) × ((n : ℕ) → fuel ≤ n → root_of n (first ∷ rest) ≡ some root)
  unfolding root_of next_level
  root_of-terminates fuel first [] h = (first, λ n le. short n first)
    where
      short : (n : ℕ) (root : Bytes) → root_of n (root ∷ []) ≡ some root
      short zero root = refl
      short (suc n) root = refl
  root_of-terminates zero first (b ∷ rest) h = absurd (omega arith)
  root_of-terminates (suc fuel) first (b ∷ rest) h =
      let shorter = next_level-length rest in
      let ih =
        root_of-terminates fuel (node_of first b) (next_level rest) (omega (arith, shorter)) in
      (ih.0, λ n le. one_more n le ih.1)
    where
      one_more :
          (n : ℕ) {root : Bytes}
          → suc fuel ≤ n
          → ((k : ℕ) → fuel ≤ k → root_of k (next_level (first ∷ b ∷ rest)) ≡ some root)
          → root_of n (first ∷ b ∷ rest) ≡ some root
      one_more zero le ih = absurd (omega arith)
      one_more (suc k) le ih = ih k (omega arith)

  module _ (p : Platform) (c : Crypto) (calendar : Calendar) (hex : Bytes → JsString)
      (from_hex : JsString → Bytes) where
    abbrev tagged : Bytes → JsString
    tagged bytes = js "sha256:" ++ hex bytes

    unfoldable pub receipt_leaf : SignedReceipt → Result AwardError Bytes
    receipt_leaf signed = do
      hash ← receipt_hash p c calendar signed
      ok (leaf_of (from_hex (after_prefix (js "sha256:") hash)))

    abbrev or_empty : Option Bytes → Bytes
    or_empty none = []
    or_empty (some root) = root

    unfoldable pub receipt_merkle_root : List SignedReceipt → Result AwardError JsString
    receipt_merkle_root [] =
        ok (tagged (sha256 (js "internal-invocation-awards:receipt-merkle:v1:empty")))
    receipt_merkle_root (first ∷ rest) = do
      level ← map_all receipt_leaf (first ∷ rest)
      ok (tagged (or_empty (root_of (length rest) level)))

    map_all-length :
        (xs : List SignedReceipt) {ys : List Bytes}
        → map_all receipt_leaf xs ≡ ok ys
        → length ys ≡ length xs
    map_all-length [] h = ap length (sym (ok-injective h))
    map_all-length (x ∷ xs) h =
        let leaf = bind-ok (receipt_leaf x) h in
        let leaves = bind-ok (map_all receipt_leaf xs) leaf.2 in
        ap length (sym (ok-injective leaves.2)) ∙ ap suc (map_all-length xs leaves.1)

    -- Wherever the root of a nonempty list of receipts is computed, it is the hash of the digest at
    -- which the loop over the levels ends, with that fuel or more.
    pub receipt_merkle_root-root_of :
        (first : SignedReceipt) (rest : List SignedReceipt) {text : JsString}
        → receipt_merkle_root (first ∷ rest) ≡ ok text
        → (level : List Bytes) × (root : Bytes) × (map_all receipt_leaf (first ∷ rest) ≡ ok level)
          × (text ≡ js "sha256:" ++ hex root)
          × ((n : ℕ) → length rest ≤ n → root_of n level ≡ some root)
    unfolding receipt_merkle_root
    receipt_merkle_root-root_of first rest h =
        let level = bind-ok (map_all receipt_leaf (first ∷ rest)) h in
        let ends = level_ends level.0 (map_all-length (first ∷ rest) level.1) in
        let at = ends.1 (length rest) (omega arith) in
        (
          level.0,
          ends.0,
          level.1,
          sym (ok-injective level.2) ∙ ap (λ o. js "sha256:" ++ hex (or_empty o)) at,
          ends.1,
        )
      where
        level_ends :
            (level : List Bytes)
            → length level ≡ suc (length rest)
            → (root : Bytes) × ((n : ℕ) → length rest ≤ n → root_of n level ≡ some root)
        level_ends [] e = absurd (omega arith)
        level_ends (d ∷ ds) e = root_of-terminates (length rest) d ds (omega arith)
