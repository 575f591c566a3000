-- ===== src/Tests/Details.antt =====
-- A detail cache over numbers.
use vray_for_houdini.Base.{
  ℕ, ◌+◌, ◌-◌, ◌≡◌, refl, true, false, not, ◌&&◌, List, [], ◌∷◌, ◌++◌, none, some, ltb, ◌==◌,
  if◌then◌else◌, arith, ◌⊎◌,
}
use vray_for_houdini.Qt.Text.{QString, lit, is_empty, same_text}
use vray_for_houdini.Qt.Map
use vray_for_houdini.Qt.Map.{number_key}
use vray_for_houdini.Cache.Detail.{
  DetailCache, Builder, build_detail, clean_resource, register_in_cache, unregister, get_detail,
  get_cached, is_cached,
}
use vray_for_houdini.Cache.References.{references, unregister_lem}
use vray_for_houdini.Cache.Runs.{
  Call, registers, unregisters, gets, enables, run, count_calls, references-run,
}
use vray_for_houdini.Cache.Release.{unregister-get_detail}
use vray_for_houdini.Cache.Transparency.{start, IsBuilt, get_detail-run}

-- A detail is the sum of the settings and the frame.
abbrev builder : Builder ℕ ℕ ℕ ℕ ℕ
builder = record {
  build = λ path settings frame. (some (settings + frame), 0);
  hash = λ settings. settings;
  frame_key = λ frame. frame;
}

abbrev path : QString
path = lit "geo"

abbrev new_cache : DetailCache ℕ ℕ ℕ ℕ
new_cache = record { is_on = true; elements = []; events = [] }

abbrev used : DetailCache ℕ ℕ ℕ ℕ
used = register_in_cache builder new_cache path 1

abbrev history : List (Call ℕ ℕ)
history =
    registers path 1 ∷ registers path 1 ∷ gets path 1 24 ∷ unregisters path 1 ∷ enables false ∷ []

references-run_example :
    references builder (run builder 0 new_cache history) path 1
    ≡ count_calls builder 0 path 1 (references builder new_cache path 1) history
references-run_example = references-run builder 0 new_cache path 1 history

unregister_lem_example :
    let c' = unregister builder used path 1 in
    ((q : QString) (g : ℕ)
      → references builder c' q g
        ≡ references builder used q g - (if same_text path q && 1 == g then 1 else 0))
    × (c'.events
        ≡ used.events ++ (if is_cached builder c' path then [] else clean_resource path ∷ []))
    × ((g : ℕ) → ltb 0 (references builder c' path g) && not (is_cached builder c' path) ≡ false)
unregister_lem_example = unregister_lem builder used path 1 refl

get_detail-run_example :
    let (c', d, _) = get_detail builder (run builder 0 (start builder) history) path 1 24 0 in
    ((is_empty path ≡ true) × (d ≡ none))
    ⊎ ((is_empty path ≡ false) × IsBuilt builder c'.events path 1 24 d)
get_detail-run_example = get_detail-run builder 0 history path 1 24

unregister-get_detail_example :
    let c' = (get_detail builder new_cache path 1 24 0).0 in
    let c'' = unregister builder (register_in_cache builder c' path 2) path 2 in
    (is_cached builder c'' path ≡ true)
    × (c''.events ≡ build_detail path 1 24 ∷ [])
    × ((g : ℕ) → references builder c'' path g ≡ references builder new_cache path g)
unfolding get_cached Map.find
unregister-get_detail_example =
    unregister-get_detail builder new_cache path 1 refl 2 24 0 refl refl (λ e. omega (arith, e))
