-- ===== src/Cache/References.antt =====
-- The reference counters of the detail cache, and when a resource is cleaned.
use vray_for_houdini.Base.{
  ℕ, ◌+◌, ◌-◌, ◌<◌, ◌≡◌, true, false, not, ◌&&◌, [], ◌∷◌, ◌++◌, ltb, ◌==◌, if◌then◌else◌, arith,
  append-nil,
}
use vray_for_houdini.Qt.Text.{QString, is_empty, same_text, same_text_iff}
use vray_for_houdini.Qt.Map
use vray_for_houdini.Qt.Map.{
  QMap, Key, number_key, text_key, find_or-insert, find_or-remove, find-insert, find-remove,
}
use vray_for_houdini.Cache.Detail.{
  CacheElement, DetailCache, Builder, clean_resource, new_element, elements_of, element_of,
  put_element, register_in_cache, unregister, drop_element, is_cached,
}

module _ {T F K D R : Type 0} ⦃o : Key K⦄ (b : Builder T F K D R) where
  -- The counter of a path and a hash; a pair that is not in the table has none.
  abbrev pub references : DetailCache T F K D → QString → ℕ → ℕ
  references c path h = (element_of b c path h).references

  pub element_of-put_element :
      (c : DetailCache T F K D) (p q : QString) (h g : ℕ) (e : CacheElement K D)
      → element_of b (put_element b c p h e) q g
        ≡ (if same_text p q && h == g then e else element_of b c q g)
  element_of-put_element c p q h g e = ground (
    arith,
    same_text_iff p q,
    find_or-insert p q [] (Map.insert h e (elements_of b c p)) c.elements,
    find_or-insert h g (new_element b) e (elements_of b c p),
  )

  pub references-register_in_cache :
      (c : DetailCache T F K D) (p q : QString) (s : T) (g : ℕ)
      → is_empty p ≡ false
      → references (register_in_cache b c p s) q g
        ≡ references c q g + (if same_text p q && b.hash s == g then 1 else 0)
  unfolding register_in_cache
  references-register_in_cache c p q s g h =
      let e = element_of b c p (b.hash s) in
      ground (
        arith,
        same_text_iff p q,
        element_of-put_element c p q (b.hash s) g (record e { references = e.references + 1 }),
      )

  references-drop_element :
      (c : DetailCache T F K D) (p q : QString) (h g : ℕ)
      → references (drop_element b c p h) q g
        ≡ (if same_text p q && h == g then 0 else references c q g)
  unfolding drop_element
  references-drop_element c p q h g =
      let rest = Map.remove h (elements_of b c p) in
      ground (
        arith,
        same_text_iff p q,
        Map.find_or_empty g (new_element b) rest,
        find_or-remove h g (new_element b) (elements_of b c p),
        find_or-remove p q [] c.elements,
        find_or-insert p q [] rest c.elements,
      )

  references-unregister :
      (c : DetailCache T F K D) (p q : QString) (s : T) (g : ℕ)
      → is_empty p ≡ false
      → references (unregister b c p s) q g
        ≡ references c q g - (if same_text p q && b.hash s == g then 1 else 0)
  unfolding unregister
  references-unregister c p q s g h =
      let hash = b.hash s in
      let e = element_of b c p hash in
      let e' = record e { references = e.references - 1 } in
      let c' = put_element b c p hash e' in
      ground (
        arith,
        same_text_iff p q,
        element_of-put_element c p q hash g e',
        references-drop_element c' p q hash g,
      )

  -- A path is cleaned as it leaves the table, and at no other time.
  drop_element-events :
      (c : DetailCache T F K D) (p : QString) (h : ℕ)
      → is_empty p ≡ false
      → (drop_element b c p h).events
        ≡ c.events ++ (if is_cached b (drop_element b c p h) p then [] else clean_resource p ∷ [])
  unfolding drop_element is_cached
  drop_element-events c p h ne =
      let rest = Map.remove h (elements_of b c p) in
      ground (
        arith,
        find-remove p p c.elements,
        find-insert p p rest c.elements,
        Map.same_refl p,
        append-nil c.events,
      )

  unregister-events :
      (c : DetailCache T F K D) (p : QString) (s : T)
      → is_empty p ≡ false
      → (unregister b c p s).events
        ≡ c.events ++ (if is_cached b (unregister b c p s) p then [] else clean_resource p ∷ [])
  unfolding unregister is_cached
  unregister-events c p s ne =
      let hash = b.hash s in
      let e = element_of b c p hash in
      let e' = record e { references = e.references - 1 } in
      let c' = put_element b c p hash e' in
      ground (
        arith,
        drop_element-events c' p hash ne,
        find-insert p p (Map.insert hash e' (elements_of b c p)) c.elements,
        Map.same_refl p,
        append-nil c.events,
      )

  -- A counter that is not 0 keeps its path in the table.
  references-is_cached :
      (c : DetailCache T F K D) (p : QString) (h : ℕ)
      → is_empty p ≡ false
      → 0 < references c p h
      → is_cached b c p ≡ true
  unfolding is_cached Map.find_or Map.find
  references-is_cached c p h ne pos = ground arith

  counter-is_cached :
      (c : DetailCache T F K D) (p : QString) (h : ℕ)
      → is_empty p ≡ false
      → ltb 0 (references c p h) && not (is_cached b c p) ≡ false
  counter-is_cached c p h ne = ground (arith, references-is_cached c p h ne)

  -- On a path that is not empty `unregister` takes one reference from the counter of its pair and leaves every other counter,
  -- and it cleans the resource exactly if the path has left the table; a path with a counter above
  -- 0 is in the table.
  pub unregister_lem :
      (c : DetailCache T F K D) (p : QString) (s : T)
      → is_empty p ≡ false
      → let c' = unregister b c p s in
        ((q : QString) (g : ℕ)
          → references c' q g
            ≡ references c q g - (if same_text p q && b.hash s == g then 1 else 0))
        × (c'.events ≡ c.events ++ (if is_cached b c' p then [] else clean_resource p ∷ []))
        × ((g : ℕ) → ltb 0 (references c' p g) && not (is_cached b c' p) ≡ false)
  unregister_lem c p s ne =
      let c' = unregister b c p s in
      (
        λ q g. references-unregister c p q s g ne,
        unregister-events c p s ne,
        λ g. counter-is_cached c' p g ne,
      )
