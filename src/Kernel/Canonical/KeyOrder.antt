-- ===== src/Kernel/Canonical/KeyOrder.antt =====
-- The canonical text of an object does not depend on the order in which its keys were written.
use mathlib.Core.List.{Permᴰ}
use skill_asset_protocol.Base.{
  JsString, ◌≡◌, refl, ap, map, distinct, true, List, [], ◌∷◌, ◌++◌, sort_by-perm,
}
use skill_asset_protocol.Kernel.Platform.{Platform}
use skill_asset_protocol.Kernel.Canonical.{
  Json, object, Fields, end, field, Member, join_comma, member_text, object_text, canonical_json,
  members,
}

module _ (p : Platform) where
  -- Two objects with the same members, up to their order and the inner texts.
  pub data Reordered : Fields → Fields → Type 0 where
    empty : Reordered end end
    keep :
        {f g : Fields} (key : JsString) (j k : Json)
        → canonical_json p j ≡ canonical_json p k
        → Reordered f g
        → Reordered (field key j f) (field key k g)
    exchange :
        {f : Fields} (key key' : JsString) (j j' : Json)
        → Reordered (field key j (field key' j' f)) (field key' j' (field key j f))
    chain : {f g h : Fields} → Reordered f g → Reordered g h → Reordered f h

  member_of : JsString → JsString → Member
  member_of key value = record { key = key; value = value }

  members-perm : {f g : Fields} → Reordered f g → Permᴰ (members p f) (members p g)
  unfolding canonical_json member_of
  members-perm empty = Permᴰ.nil
  members-perm (keep key j k e r) = Permᴰ.cons (ap (member_of key) e) (members-perm r)
  members-perm (exchange key key' j j') = Permᴰ.swap refl refl
  members-perm (chain r s) = Permᴰ.trans (members-perm r) (members-perm s)

  abbrev pub member_keys : Fields → List JsString
  member_keys f = map (λ (m : Member). m.key) (members p f)

  -- Objects with the same members in another order have one canonical text, if no key is twice there.
  pub canonical_json-Reordered :
      {f g : Fields}
      → Reordered f g
      → distinct (member_keys f) ≡ true
      → canonical_json p (object f) ≡ canonical_json p (object g)
  unfolding canonical_json object_text
  canonical_json-Reordered {f} {g} r h =
      ap (λ ms. b'{' ∷ (join_comma (map (member_text p) ms) ++ b'}' ∷ []))
        (sort_by-perm (λ (m : Member). m.key) (members-perm r) h)
