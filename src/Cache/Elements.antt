-- ===== src/Cache/Elements.antt =====
-- The cache seen as a map from a path and a hash to an element.
use vray_for_houdini.Base.{
  ℕ, ◌+◌, ◌-◌, ◌≡◌, true, false, ◌&&◌, Option, none, some, ◌==◌, if◌then◌else◌, arith,
}
use vray_for_houdini.Qt.Text.{QString, is_empty, same_text, same_text_iff}
use vray_for_houdini.Qt.Map
use vray_for_houdini.Qt.Map.{QMap, Key, number_key, text_key, find-insert, find-remove}
use vray_for_houdini.Cache.Detail.{
  CacheElement, DetailCache, Builder, elements_of, element_of, put_element, drop_element, is_cached,
  store_detail, register_in_cache, unregister,
}

module _ {T F K D R : Type 0} ⦃o : Key K⦄ (b : Builder T F K D R) where
  unfoldable pub element : DetailCache T F K D → QString → ℕ → Option (CacheElement K D)
  element c p h = elim (Map.find p c.elements) [ none ↦ none | some els ↦ Map.find h els ]

  pub element-put_element :
      (c : DetailCache T F K D) (p q : QString) (h g : ℕ) (e : CacheElement K D)
      → element (put_element b c p h e) q g
        ≡ (if same_text p q && h == g then some e else element c q g)
  unfolding element Map.find_or Map.find
  element-put_element c p q h g e =
      let els = elements_of b c p in
      ground (
        arith,
        same_text_iff p q,
        find-insert p q (Map.insert h e els) c.elements,
        find-insert h g e els,
      )

  pub element-drop_element :
      (c : DetailCache T F K D) (p q : QString) (h g : ℕ)
      → element (drop_element b c p h) q g
        ≡ (if same_text p q && h == g then none else element c q g)
  unfolding element drop_element Map.find_or Map.find
  element-drop_element c p q h g =
      let els = elements_of b c p in
      let rest = Map.remove h els in
      ground (
        arith,
        same_text_iff p q,
        find-remove p q c.elements,
        find-insert p q rest c.elements,
        find-remove h g els,
        Map.find_empty g rest,
      )

  pub element_of-element :
      (c : DetailCache T F K D) (p : QString) (h : ℕ) {e : CacheElement K D}
      → element c p h ≡ some e
      → element_of b c p h ≡ e
  unfolding element Map.find_or
  element_of-element c p h e = ground arith

  pub element-is_cached :
      (c : DetailCache T F K D) (p : QString) (h : ℕ) {e : CacheElement K D}
      → is_empty p ≡ false
      → element c p h ≡ some e
      → is_cached b c p ≡ true
  unfolding element is_cached
  element-is_cached c p h ne e = ground arith

  -- A registration or a release leaves the elements of other pairs as they are.
  pub element-register_in_cache_ne :
      (c : DetailCache T F K D) (p q : QString) (s : T) (g : ℕ)
      → same_text p q && b.hash s == g ≡ false
      → element (register_in_cache b c p s) q g ≡ element c q g
  unfolding register_in_cache
  element-register_in_cache_ne c p q s g ne =
      let e = element_of b c p (b.hash s) in
      ground
        (arith, element-put_element c p q (b.hash s) g (record e { references = e.references + 1 }))

  pub element-unregister_ne :
      (c : DetailCache T F K D) (p q : QString) (s : T) (g : ℕ)
      → same_text p q && b.hash s == g ≡ false
      → element (unregister b c p s) q g ≡ element c q g
  unfolding unregister
  element-unregister_ne c p q s g ne =
      let e = element_of b c p (b.hash s) in
      let e' = record e { references = e.references - 1 } in
      ground (
        arith,
        element-put_element c p q (b.hash s) g e',
        element-drop_element (put_element b c p (b.hash s) e') p q (b.hash s) g,
      )

  pub element-store_detail :
      (c : DetailCache T F K D) (p q : QString) (s : T) (frame : F) (d : Option D) (g : ℕ)
      → element (store_detail b c p s frame d) q g ≡ (
          if same_text p q && b.hash s == g
          then some (
              let e = element_of b c p (b.hash s) in
              record e { details = Map.insert (b.frame_key frame) d e.details })
          else element c q g)
  unfolding store_detail
  element-store_detail c p q s frame d g =
      let e = element_of b c p (b.hash s) in
      element-put_element c p q (b.hash s) g
        (record e { details = Map.insert (b.frame_key frame) d e.details })
