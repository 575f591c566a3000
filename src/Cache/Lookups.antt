-- ===== src/Cache/Lookups.antt =====
-- What the cache holds for a path, after each of its operations.
use vray_for_houdini.Base.{
  ℕ, ◌≡◌, false, ◌&&◌, Option, none, some, ◌==◌, if◌then◌else◌, arith, Bool-cases, Option-cases,
  inl, inr, ◌⊎◌,
}
use vray_for_houdini.Qt.Text.{QString, is_empty, same_text, same_text_iff}
use vray_for_houdini.Qt.Map
use vray_for_houdini.Qt.Map.{QMap, Key, number_key, text_key, find-insert}
use vray_for_houdini.Cache.Detail.{
  CacheElement, DetailCache, Builder, element_of, put_element, drop_element, get_detail,
  store_detail, get_cached, call_build,
}
use vray_for_houdini.Cache.Elements.{
  element, element-put_element, element-drop_element, element-store_detail,
}

module _ {T F K D R : Type 0} ⦃o : Key K⦄ (b : Builder T F K D R) where
  -- The detail of one element.
  abbrev pub detail_in : Option (CacheElement K D) → F → Option D
  detail_in none frame = none
  detail_in (some e) frame = elim (Map.find (b.frame_key frame) e.details) [
    | none ↦ none
    | some d ↦ d
  ]

  detail_in-element_of :
      (c : DetailCache T F K D) (p : QString) (h : ℕ) (frame : F)
      → detail_in (some (element_of b c p h)) frame ≡ detail_in (element b c p h) frame
  unfolding element Map.find_or Map.find
  detail_in-element_of c p h frame = ground arith

  pub get_cached-detail_in :
      (c : DetailCache T F K D) (p : QString) (s : T) (frame : F)
      → get_cached b c p s frame
        ≡ (if is_empty p then none else detail_in (element b c p (b.hash s)) frame)
  unfolding get_cached element
  get_cached-detail_in c p s frame = ground arith

  pub get_cached-store_detail :
      (c : DetailCache T F K D) (p q : QString) (s s' : T) (frame frame' : F) (d : Option D)
      → is_empty q ≡ false
      → get_cached b (store_detail b c p s frame d) q s' frame' ≡ (
          if same_text p q
            && b.hash s == b.hash s'
            && o.same (b.frame_key frame) (b.frame_key frame')
          then d
          else get_cached b c q s' frame')
  get_cached-store_detail c p q s s' frame frame' d ne =
      let e = element_of b c p (b.hash s) in
      let e' = record e { details = Map.insert (b.frame_key frame) d e.details } in
      ground (
        arith,
        get_cached-detail_in (store_detail b c p s frame d) q s' frame',
        get_cached-detail_in c q s' frame',
        element-store_detail b c p q s frame d (b.hash s'),
        same_text_iff p q,
        find-insert (b.frame_key frame) (b.frame_key frame') d e.details,
        detail_in-element_of c p (b.hash s) frame',
      )

  pub get_cached-put_element :
      (c : DetailCache T F K D) (p q : QString) (h : ℕ) (n : ℕ) (s : T) (frame : F)
      → let e = element_of b c p h in
        get_cached b (put_element b c p h (record e { references = n })) q s frame
        ≡ get_cached b c q s frame
  get_cached-put_element c p q h n s frame =
      let e = element_of b c p h in
      let e' = record e { references = n } in
      ground (
        arith,
        get_cached-detail_in (put_element b c p h e') q s frame,
        get_cached-detail_in c q s frame,
        element-put_element b c p q h (b.hash s) e',
        same_text_iff p q,
        detail_in-element_of c p h frame,
      )

  pub get_cached-drop_element :
      (c : DetailCache T F K D) (p q : QString) (h : ℕ) (s : T) (frame : F)
      → get_cached b (drop_element b c p h) q s frame
        ≡ (if same_text p q && h == b.hash s then none else get_cached b c q s frame)
  get_cached-drop_element c p q h s frame = ground (
    arith,
    get_cached-detail_in (drop_element b c p h) q s frame,
    get_cached-detail_in c q s frame,
    element-drop_element b c p q h (b.hash s),
  )

  pub get_detail_cases :
      (c : DetailCache T F K D) (p : QString) (s : T) (frame : F) (rval : R)
      → let c' = (get_detail b c p s frame rval).0 in
        let called = call_build b c p s frame in
        (c' ≡ c) ⊎ ((c' ≡ called) ⊎ (c' ≡ store_detail b called p s frame (b.build p s frame).0))
  unfolding get_detail
  get_detail_cases c p s frame rval = elim (Bool-cases (is_empty p)) [
    | inl e ↦ inl (ground arith)
    | inr e ↦ elim (Bool-cases c.is_on) [
      | inl on ↦ elim (Option-cases (get_cached b c p s frame)) [
        | inl miss ↦ inr (inr (ground arith))
        | inr (d, hit) ↦ inl (ground arith)
      ]
      | inr off ↦ inr (inl (ground arith))
    ]
  ]
