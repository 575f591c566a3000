-- ===== src/Cache/Transparency.antt =====
-- The details that the cache hands out, and the calls of the builder that made them.
use vray_for_houdini.Base.{
  ℕ, ◌≡◌, refl, sym, ap, subst, ◌∙◌, Bool, true, false, ◌&&◌, List, [], ◌∷◌, ◌++◌, Option, none,
  some, ◌==◌, if◌then◌else◌, arith, Bool-cases, Option-cases, inl, inr, ◌⊎◌, append_assoc,
  append-nil,
}
use vray_for_houdini.Qt.Text.{QString, is_empty, same_text, same_text_iff}
use vray_for_houdini.Qt.Map
use vray_for_houdini.Qt.Map.{QMap, Key, number_key, text_key, find-insert}
use vray_for_houdini.Cache.Detail.{
  Event, build_detail, clean_resource, DetailCache, Builder, elements_of, element_of, put_element,
  register_in_cache, unregister, drop_element, get_detail, store_detail, get_cached, enable_cache,
  call_build,
}
use vray_for_houdini.Cache.Runs.{Call, enables, registers, unregisters, gets, step, run}
use vray_for_houdini.Cache.Lookups.{
  get_cached-detail_in, get_cached-store_detail, get_cached-put_element, get_cached-drop_element,
  get_detail_cases,
}

module _ {T F K D R : Type 0} ⦃o : Key K⦄ (b : Builder T F K D R) where
  -- A new cache: empty, and on.
  abbrev pub start : DetailCache T F K D
  start = record { is_on = true; elements = []; events = [] }

  -- A call of the builder among the events, for the path and with the hash and the frame key, gave
  -- the detail.
  abbrev pub IsBuilt : List (Event T F) → QString → T → F → Option D → Type 0
  IsBuilt events p s frame d =
      (s' : T) × (frame' : F) × (before : List (Event T F)) × (after : List (Event T F)) × (events
        ≡ before ++ build_detail p s' frame' ∷ after)
      × (b.hash s' ≡ b.hash s)
      × (b.frame_key frame' ≡ b.frame_key frame)
      × ((b.build p s' frame').0 ≡ d)

  IsBuilt-append :
      (events more : List (Event T F)) (p : QString) (s : T) (frame : F) (d : Option D)
      → IsBuilt events p s frame d
      → IsBuilt (events ++ more) p s frame d
  IsBuilt-append events more p s frame d (s', frame', before, after, e, hash, key, built) = (
    s',
    frame',
    before,
    after ++ more,
    ap (λ l. l ++ more) e ∙ append_assoc before (build_detail p s' frame' ∷ after) more,
    hash,
    key,
    built,
  )

  IsBuilt-now :
      (events : List (Event T F)) (p : QString) (s : T) (frame : F)
      → IsBuilt (events ++ build_detail p s frame ∷ []) p s frame (b.build p s frame).0
  IsBuilt-now events p s frame = (s, frame, events, [], refl, refl, refl, refl)

  abbrev CoveredBy : List (Event T F) → DetailCache T F K D → Type 0
  CoveredBy events c =
      (p : QString) (s : T) (frame : F) (d : D)
      → get_cached b c p s frame ≡ some d
      → IsBuilt events p s frame (some d)

  -- Whatever the cache holds was built by one of its events.
  abbrev IsCoherent : DetailCache T F K D → Type 0
  IsCoherent c = CoveredBy c.events c

  store_detail-CoveredBy :
      (events : List (Event T F)) (c : DetailCache T F K D) (p : QString) (s : T) (frame : F)
      → CoveredBy events c
      → CoveredBy
          (events ++ build_detail p s frame ∷ [])
          (store_detail b c p s frame (b.build p s frame).0)
  store_detail-CoveredBy events c p s frame covered q s' frame' d found =
      let built = (b.build p s frame).0 in
      let called = events ++ build_detail p s frame ∷ [] in
      let is_same =
        same_text p q && b.hash s == b.hash s' && o.same (b.frame_key frame) (b.frame_key frame') in
      elim (Bool-cases (is_empty q)) [
        | inl e ↦
            absurd (
              ground (arith, get_cached-detail_in b (store_detail b c p s frame built) q s' frame'))
        | inr ne ↦
            let read = sym (get_cached-store_detail b c p q s s' frame frame' built ne) ∙ found in
            elim (Bool-cases is_same) [
              | inl e ↦
                  let path : p ≡ q = ground (arith, same_text_iff p q) in
                  let hash : b.hash s ≡ b.hash s' = ground arith in
                  let key : b.frame_key frame ≡ b.frame_key frame' =
                    ground (arith, o.same_iff (b.frame_key frame) (b.frame_key frame')) in
                  subst (λ r. IsBuilt called r s' frame' (some d)) path
                    (s, frame, events, [], refl, hash, key, rw e at read)
              | inr e ↦
                  IsBuilt-append events (build_detail p s frame ∷ []) q s' frame' (some d)
                    (covered q s' frame' d (rw e at read))
            ]
      ]

  module _ (rval : R) where
    get_detail-IsCoherent :
        (c : DetailCache T F K D) (p : QString) (s : T) (frame : F)
        → IsCoherent c
        → IsCoherent (get_detail b c p s frame rval).0
    get_detail-IsCoherent c p s frame coherent =
        let called = call_build b c p s frame in
        let same : CoveredBy c.events called = unfold get_cached in coherent in
        let grown : IsCoherent called = λ q s' frame' d found.
          IsBuilt-append c.events (build_detail p s frame ∷ []) q s' frame' (some d)
            (same q s' frame' d found) in
        let stored : IsCoherent (store_detail b called p s frame (b.build p s frame).0) =
          unfold store_detail in store_detail-CoveredBy c.events called p s frame same in
        elim (get_detail_cases b c p s frame rval) [
          | inl e ↦ rw e coherent
          | inr (inl e) ↦ rw e grown
          | inr (inr e) ↦ rw e stored
        ]

    drop_element-events :
        (c : DetailCache T F K D) (p : QString) (h : ℕ)
        → (more : List (Event T F)) × ((drop_element b c p h).events ≡ c.events ++ more)
    unfolding drop_element
    drop_element-events c p h = elim (Bool-cases (is_empty (Map.remove h (elements_of b c p)))) [
      | inl e ↦ (clean_resource p ∷ [], ground arith)
      | inr e ↦ ([], ground (arith, append-nil c.events))
    ]

    drop_element-IsCoherent :
        (c : DetailCache T F K D) (p : QString) (h : ℕ)
        → IsCoherent c
        → IsCoherent (drop_element b c p h)
    drop_element-IsCoherent c p h coherent q s' frame d found =
        let (more, e) = drop_element-events c p h in
        let held : get_cached b c q s' frame ≡ some d =
          ground (arith, get_cached-drop_element b c p q h s' frame) in
        rw e (IsBuilt-append c.events more q s' frame (some d) (coherent q s' frame d held))

    put_element-IsCoherent :
        (c : DetailCache T F K D) (p : QString) (h n : ℕ)
        → IsCoherent c
        → IsCoherent (put_element b c p h (record (element_of b c p h) { references = n }))
    put_element-IsCoherent c p h n coherent q s' frame d found =
        coherent q s' frame d (sym (get_cached-put_element b c p q h n s' frame) ∙ found)

    if-IsCoherent :
        (t : Bool) (c c' : DetailCache T F K D)
        → IsCoherent c
        → IsCoherent c'
        → IsCoherent (if t then c else c')
    if-IsCoherent true c c' h k = h
    if-IsCoherent false c c' h k = k

    step-IsCoherent :
        (c : DetailCache T F K D) (call : Call T F) → IsCoherent c → IsCoherent (step b rval c call)
    unfolding step register_in_cache unregister enable_cache
    step-IsCoherent c (enables state) coherent = unfold get_cached in coherent
    step-IsCoherent c (registers p s) coherent =
        if-IsCoherent (is_empty p) c _ coherent (put_element-IsCoherent c p (b.hash s) _ coherent)
    step-IsCoherent c (unregisters p s) coherent =
        let put = put_element-IsCoherent c p (b.hash s) _ coherent in
        if-IsCoherent (is_empty p) c _ coherent
          (if-IsCoherent _ _ _ (drop_element-IsCoherent _ p (b.hash s) put) put)
    step-IsCoherent c (gets p s frame) coherent = get_detail-IsCoherent c p s frame coherent

    run-IsCoherent :
        (c : DetailCache T F K D) (calls : List (Call T F))
        → IsCoherent c
        → IsCoherent (run b rval c calls)
    unfolding run
    run-IsCoherent c [] coherent = coherent
    run-IsCoherent c (call ∷ calls) coherent =
        run-IsCoherent (step b rval c call) calls (step-IsCoherent c call coherent)

    start-IsCoherent : IsCoherent start
    unfolding get_cached Map.find
    start-IsCoherent p s frame d found = absurd (ground arith)

    module _ (c : DetailCache T F K D) (p : QString) (s : T) (frame : F)
        (ne : is_empty p ≡ false) where
      get_detail_hit :
          (d : D)
          → c.is_on ≡ true
          → get_cached b c p s frame ≡ some d
          → get_detail b c p s frame rval ≡ (c, some d, rval)
      unfolding get_detail
      get_detail_hit d on hit = ground arith

      get_detail_built :
          (c.is_on ≡ false) ⊎ (get_cached b c p s frame ≡ none)
          → ((get_detail b c p s frame rval).0.events ≡ c.events ++ build_detail p s frame ∷ [])
            × ((get_detail b c p s frame rval).1 ≡ (b.build p s frame).0)
      unfolding get_detail store_detail
      get_detail_built (inl off) = (ground arith, ground arith)
      get_detail_built (inr miss) = (ground arith, ground arith)

      get_detail_origin :
          IsCoherent c
          → let (c', d, _) = get_detail b c p s frame rval in IsBuilt c'.events p s frame d
      get_detail_origin coherent =
          let now = IsBuilt-now c.events p s frame in
          elim (Bool-cases c.is_on) [
            | inr off ↦ let (e, d) = get_detail_built (inl off) in rw (e, d) now
            | inl on ↦ elim (Option-cases (get_cached b c p s frame)) [
              | inl miss ↦ let (e, d) = get_detail_built (inr miss) in rw (e, d) now
              | inr (d, hit) ↦ rw (get_detail_hit d on hit) (coherent p s frame d hit)
            ]
          ]

    -- After any calls on a new cache, with the cache on or off, a lookup returns the empty handle
    -- for an empty path, and otherwise the detail of a recorded call of the builder, of this lookup
    -- or of an earlier one, for the same path, the same hash of the settings and the same frame
    -- key.
    pub get_detail-run :
        (calls : List (Call T F)) (p : QString) (s : T) (frame : F)
        → let (c', d, _) = get_detail b (run b rval start calls) p s frame rval in
          ((is_empty p ≡ true) × (d ≡ none))
          ⊎ ((is_empty p ≡ false) × IsBuilt c'.events p s frame d)
    unfolding get_detail
    get_detail-run calls p s frame = elim (Bool-cases (is_empty p)) [
      | inl e ↦ inl (e, ground arith)
      | inr ne ↦ inr (
        ne,
        unfold get_detail in
            get_detail_origin (run b rval start calls) p s frame ne
              (run-IsCoherent start calls start-IsCoherent),
      )
    ]
