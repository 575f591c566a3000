-- ===== src/Cache/Release.antt =====
-- What a release leaves behind.
use vray_for_houdini.Base.{
  ℕ, ◌+◌, ◌-◌, ◌≡◌, refl, ap, ◌≢◌, true, false, ◌&&◌, [], ◌∷◌, ◌++◌, Option, none, some, ◌==◌,
  arith, append-nil, ◌∙◌,
}
use vray_for_houdini.Qt.Text.{QString, is_empty, same_text}
use vray_for_houdini.Qt.Map
use vray_for_houdini.Qt.Map.{
  QMap, Key, number_key, text_key, find-insert, find-remove, find_or-insert, remove-insert_new,
}
use vray_for_houdini.Cache.Detail.{
  CacheElement, DetailCache, Builder, clean_resource, build_detail, new_element, elements_of,
  element_of, put_element, register_in_cache, unregister, drop_element, is_cached, get_detail,
  store_detail, get_cached,
}
use vray_for_houdini.Cache.Elements.{
  element, element-is_cached, element-register_in_cache_ne, element-unregister_ne,
  element-store_detail,
}
use vray_for_houdini.Cache.Runs.{references-get_detail}
use vray_for_houdini.Cache.References.{
  references, references-register_in_cache, unregister_lem, element_of-put_element,
}

module _ {T F K D R : Type 0} ⦃o : Key K⦄ (b : Builder T F K D R) (c : DetailCache T F K D)
    (p : QString) (s : T) (ne : is_empty p ≡ false) where
  put-put :
      (e e' : CacheElement K D)
      → put_element b (put_element b c p (b.hash s) e') p (b.hash s) e
        ≡ put_element b c p (b.hash s) e
  put-put e e' =
      let els = elements_of b c p in
      ground (
        arith,
        find_or-insert p p [] (Map.insert (b.hash s) e' els) c.elements,
        Map.same_refl p,
        Map.insert-insert (b.hash s) e e' els,
        Map.insert-insert p (Map.insert (b.hash s) e els) (Map.insert (b.hash s) e' els) c.elements,
      )

  -- On a path that is not in the table.
  module _ (new : Map.find p c.elements ≡ none) where
    new_elements : elements_of b c p ≡ []
    unfolding Map.find_or
    new_elements = ground arith

    remove_last :
        (e : CacheElement K D)
        → Map.remove (b.hash s) (Map.insert (b.hash s) e (elements_of b c p)) ≡ []
    unfolding Map.insert Map.remove
    remove_last e = rw new_elements (ground arith)

    drop_last :
        (e : CacheElement K D)
        → drop_element b (put_element b c p (b.hash s) e) p (b.hash s)
          ≡ record c { events = c.events ++ clean_resource p ∷ [] }
    unfolding drop_element
    drop_last e =
        let els = Map.insert (b.hash s) e (elements_of b c p) in
        ground (
          arith,
          remove_last e,
          find_or-insert p p [] els c.elements,
          Map.same_refl p,
          remove-insert_new p els c.elements new,
        )

    fresh_element : element_of b c p (b.hash s) ≡ new_element b
    unfolding Map.find_or Map.find
    fresh_element = rw new_elements

    -- An `unregister` of a path that is not in the table changes nothing and cleans the resource
    -- all the same.
    unregister_new : unregister b c p s ≡ record c { events = c.events ++ clean_resource p ∷ [] }
    unfolding unregister
    unregister_new =
        let e = element_of b c p (b.hash s) in
        ground (
          arith,
          drop_last (record e { references = e.references - 1 }),
          ap (λ (x : CacheElement K D). x.references) fresh_element,
        )

    -- A registration of a path that is not in the table and its release restore the table, and
    -- clean the resource once.
    unregister-register_in_cache :
        unregister b (register_in_cache b c p s) p s
        ≡ record c { events = c.events ++ clean_resource p ∷ [] }
    unfolding unregister register_in_cache
    unregister-register_in_cache =
        let e = element_of b c p (b.hash s) in
        let e' = record e { references = e.references + 1 } in
        let e'' = record e { references = e.references + 1 - 1 } in
        ground (
          arith,
          drop_last e'',
          put-put e'' e',
          ap (λ (x : CacheElement K D). x.references) fresh_element,
          element_of-put_element b c p p (b.hash s) (b.hash s) e',
          Map.same_refl p,
        )

  store_detail-events :
      (c : DetailCache T F K D) (s : T) (frame : F) (d : Option D)
      → (store_detail b c p s frame d).events ≡ c.events
  unfolding store_detail
  store_detail-events c s frame d = refl

  element-get_detail :
      (frame : F) (rval : R)
      → c.is_on ≡ true
      → get_cached b c p s frame ≡ none
      → let c' = (get_detail b c p s frame rval).0 in
        (e : CacheElement K D) × (element b c' p (b.hash s) ≡ some e)
        × (c'.events ≡ c.events ++ build_detail p s frame ∷ [])
  unfolding get_detail
  element-get_detail frame rval on miss =
      let d = (b.build p s frame).0 in
      let called = record c { events = c.events ++ build_detail p s frame ∷ [] } in
      let e = element_of b c p (b.hash s) in
      (
        record e { details = Map.insert (b.frame_key frame) d e.details },
        ground (arith, element-store_detail b called p p s frame d (b.hash s), Map.same_refl p),
        ground (
          arith,
          element-store_detail b called p p s frame d (b.hash s),
          store_detail-events called s frame d,
        ),
      )

  register_in_cache-events :
      (c : DetailCache T F K D) (s : T) → (register_in_cache b c p s).events ≡ c.events
  unfolding register_in_cache
  register_in_cache-events c s = ground arith

  -- On a path that is not empty, with the cache on, a lookup that misses, under settings with
  -- another hash, leaves an element that nobody releases: after a registration and its release
  -- every counter of the path is as before the lookup, and the path stays in the table and is not
  -- cleaned.
  pub unregister-get_detail :
      (s' : T) (frame : F) (rval : R)
      → c.is_on ≡ true
      → get_cached b c p s frame ≡ none
      → b.hash s ≢ b.hash s'
      → let c' = (get_detail b c p s frame rval).0 in
        let c'' = unregister b (register_in_cache b c' p s') p s' in
        (is_cached b c'' p ≡ true)
        × (c''.events ≡ c.events ++ build_detail p s frame ∷ [])
        × ((g : ℕ) → references b c'' p g ≡ references b c p g)
  unregister-get_detail s' frame rval on miss other =
      let c' = (get_detail b c p s frame rval).0 in
      let kept = element-get_detail frame rval on miss in
      let apart : same_text p p && b.hash s' == b.hash s ≡ false = ground arith in
      let registered = register_in_cache b c' p s' in
      let stays : element b (unregister b registered p s') p (b.hash s) ≡ some kept.0 =
        element-unregister_ne b registered p p s' (b.hash s) apart
        ∙ element-register_in_cache_ne b c' p p s' (b.hash s) apart
        ∙ kept.1 in
      let cached = element-is_cached b (unregister b registered p s') p (b.hash s) ne stays in
      let (counts, events, _) = unregister_lem b registered p s' ne in
      (
        cached,
        ground (arith, events, register_in_cache-events c' s', append-nil c'.events, kept.2),
        λ g. ground (
          arith,
          counts p g,
          references-register_in_cache b c' p p s' g ne,
          references-get_detail b rval c p p s frame g,
        ),
      )
