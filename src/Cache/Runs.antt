-- ===== src/Cache/Runs.antt =====
-- Histories of the detail cache, and the entries that no registration made.
use vray_for_houdini.Base.{
  ℕ, ◌+◌, ◌-◌, ◌≡◌, refl, Bool, not, ◌&&◌, List, [], ◌∷◌, ◌++◌, Option, ◌==◌, if◌then◌else◌, arith,
  Bool-cases, inl, inr, ◌∙◌,
}
use vray_for_houdini.Qt.Text.{QString, is_empty, same_text, same_text_iff}
use vray_for_houdini.Qt.Map
use vray_for_houdini.Qt.Map.{
  QMap, Key, number_key, text_key, find_or-insert, find_or-remove, find-insert, find-remove,
}
use vray_for_houdini.Cache.Detail.{
  DetailCache, Builder, build_detail, element_of, register_in_cache, unregister, get_detail,
  store_detail, enable_cache,
}
use vray_for_houdini.Cache.References.{
  references, references-register_in_cache, unregister_lem, element_of-put_element,
}

-- A call of the cache's interface that may change it.
pub data Call (T F : Type 0) : Type 0 where
  enables : Bool → Call T F
  registers unregisters : QString → T → Call T F
  gets : QString → T → F → Call T F

module _ {T F K D R : Type 0} ⦃o : Key K⦄ (b : Builder T F K D R) (rval : R) where
  unfoldable pub step : DetailCache T F K D → Call T F → DetailCache T F K D
  step c (enables state) = enable_cache b c state
  step c (registers p s) = register_in_cache b c p s
  step c (unregisters p s) = unregister b c p s
  step c (gets p s frame) = (get_detail b c p s frame rval).0

  unfoldable pub run : DetailCache T F K D → List (Call T F) → DetailCache T F K D
  run c [] = c
  run c (call ∷ calls) = run (step c call) calls

  -- The counter of one pair by the calls alone.
  abbrev pub counted : QString → ℕ → ℕ → Call T F → ℕ
  counted q g n (enables state) = n
  counted q g n (registers p s) =
      n + (if not (is_empty p) && (same_text p q && b.hash s == g) then 1 else 0)
  counted q g n (unregisters p s) =
      n - (if not (is_empty p) && (same_text p q && b.hash s == g) then 1 else 0)
  counted q g n (gets p s frame) = n

  abbrev pub count_calls : QString → ℕ → ℕ → List (Call T F) → ℕ
  count_calls q g n [] = n
  count_calls q g n (call ∷ calls) = count_calls q g (counted q g n call) calls

  references-store_detail :
      (c : DetailCache T F K D) (p q : QString) (s : T) (frame : F) (d : Option D) (g : ℕ)
      → references b (store_detail b c p s frame d) q g ≡ references b c q g
  unfolding store_detail
  references-store_detail c p q s frame d g =
      let e = element_of b c p (b.hash s) in
      let e' = record e { details = Map.insert (b.frame_key frame) d e.details } in
      ground (arith, same_text_iff p q, element_of-put_element b c p q (b.hash s) g e')

  pub references-get_detail :
      (c : DetailCache T F K D) (p q : QString) (s : T) (frame : F) (g : ℕ)
      → references b (get_detail b c p s frame rval).0 q g ≡ references b c q g
  unfolding get_detail
  references-get_detail c p q s frame g =
      let c' = record c { events = c.events ++ build_detail p s frame ∷ [] } in
      ground (arith, references-store_detail c' p q s frame (b.build p s frame).0 g)

  references-step :
      (c : DetailCache T F K D) (q : QString) (g : ℕ) (call : Call T F)
      → references b (step c call) q g ≡ counted q g (references b c q g) call
  unfolding step register_in_cache unregister enable_cache
  references-step c q g (enables state) = refl
  references-step c q g (registers p s) = elim (Bool-cases (is_empty p)) [
    | inl e ↦ ground arith
    | inr e ↦ ground (arith, references-register_in_cache b c p q s g e)
  ]
  references-step c q g (unregisters p s) = elim (Bool-cases (is_empty p)) [
    | inl e ↦ ground arith
    | inr e ↦ ground (arith, (unregister_lem b c p s e).0 q g)
  ]
  references-step c q g (gets p s frame) = references-get_detail c p q s frame g

  -- After any calls, the counter of a path and a hash is what its own registrations and
  -- unregistrations make of it; other pairs, lookups and the switch have no part in it.
  pub references-run :
      (c : DetailCache T F K D) (q : QString) (g : ℕ) (calls : List (Call T F))
      → references b (run c calls) q g ≡ count_calls q g (references b c q g) calls
  unfolding run
  references-run c q g [] = refl
  references-run c q g (call ∷ calls) =
      references-run (step c call) q g calls ∙ ground (arith, references-step c q g call)
