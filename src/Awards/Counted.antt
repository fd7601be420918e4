-- ===== src/Awards/Counted.antt =====
-- spikes/internal-invocation-awards/src/engine.mjs: the sums of amounts over the values of a map that a
-- test selects, and what an assignment to a new key does to them.
use skill_asset_protocol.Base.{
  ℕ, ◌+◌, ◌≡◌, [], ◌∷◌, map, JsString, Bool, false, ok, ok-injective, inl, inr, arith, Bool-cases,
  has_key, map_with, bind-ok, Dictionary, select, values, Result, if◌then◌else◌, text_eq, ◌>>=◌,
}
use skill_asset_protocol.Awards.Errors.{AwardError}
use skill_asset_protocol.Awards.Schema.{to_atomic, sum_atomic}

-- A sum of amounts that is grown by one amount at the end of a map: the values of an assignment to a
-- new key are the values with one more.
module _ {A : Type 0} (counts : A → Bool) (amount : A → JsString) where
  unfoldable pub counted : Dictionary A → Result AwardError ℕ
  counted m = sum_atomic (map amount (select counts (values m)))

  pub counted-map_with_new :
      (m : Dictionary A) (key : JsString) (a : A) {total n : ℕ}
      → has_key key m ≡ false
      → counted m ≡ ok total
      → to_atomic (amount a) ≡ ok n
      → counted (map_with m key a) ≡ ok (total + (if counts a then n else 0))
  unfolding counted sum_atomic map_with has_key
  counted-map_with_new [] key a {total} {n} new h hn =
      let zero = ok-injective h in
      elim (Bool-cases (counts a)) [
        | inl c ↦ ground (arith, c, hn, zero)
        | inr c ↦ ground (arith, c, zero)
      ]
  counted-map_with_new (x ∷ xs) key a {total} {n} new h hn = elim (Bool-cases (text_eq x.0 key)) [
    | inl same ↦ absurd (ground (arith, same))
    | inr other ↦ elim (Bool-cases (counts x.1)) [
      | inl c ↦
          let whole : (to_atomic (amount x.1) >>= λ m. counted xs >>= λ rest. ok (m + rest))
              ≡ ok total =
            ground (arith, c, h) in
          let first = bind-ok (to_atomic (amount x.1)) whole in
          let rest = bind-ok (counted xs) first.2 in
          let one = first.1 in
          let e = ok-injective rest.2 in
          let ih = counted-map_with_new xs key a (ground (arith, other)) rest.1 hn in
          ground (arith, other, c, one, ih, e)
      | inr c ↦
          let ih =
            counted-map_with_new xs key a {total = total} (ground (arith, other))
              (ground (arith, c, h)) hn in
          ground (arith, other, c, ih)
    ]
  ]
