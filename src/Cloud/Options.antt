-- ===== src/Cloud/Options.antt =====
-- The command line of a job, read by a client, and the filter of its names.
use vray_for_houdini.Base.{
  ◌≡◌, refl, Bool, true, ◌||◌, List, [], ◌∷◌, ◌++◌, Option, none, some, arith, All, if◌then◌else◌,
}
use vray_for_houdini.Qt.Text.{QString, lit, is_empty, same_text}
use vray_for_houdini.Cloud.Job.{Numerals, Job, is_allowed, filter_name, frame_range, to_arguments}

-- The options that take no value.
abbrev pub is_flag : QString → Bool
is_flag s =
    same_text s (lit "--animation")
    || same_text s (lit "--ignoreWarnings")
    || same_text s (lit "--no-progress")
    || same_text s (lit "--vr")

-- A command line read from the left: a flag stands alone, and any other option takes the argument
-- after it, whatever that is.
unfoldable pub read_options : List QString → List (QString × Option QString)
read_options [] = []
read_options (s ∷ []) = (s, none) ∷ []
read_options (s ∷ v ∷ rest) =
    let alone = (s, none) ∷ read_options (v ∷ rest) in
    let paired = (s, some v) ∷ read_options rest in if is_flag s then alone else paired

abbrev pub flag : Bool → QString → List (QString × Option QString)
flag b s = if b then (s, none) ∷ [] else []

-- The options of a job.
abbrev pub options : Numerals → Job → List (QString × Option QString)
options q job =
    (lit "--project", some job.project)
    ∷ (lit "--name", some job.name)
    ∷ (lit "--sceneFile", some job.scene_file)
    ∷ (lit "--renderMode", some job.render_mode)
    ∷ (lit "--width", some (q.number job.width))
    ∷ (lit "--height", some (q.number job.height))
    ∷ ((if job.animation
          then (lit "--animation", none)
            ∷ (lit "--frameRange", some (frame_range q job))
            ∷ (lit "--frameStep", some (q.number job.frame_step))
            ∷ []
          else [])
        ++ flag job.ignore_warnings (lit "--ignoreWarnings")
        ++ flag job.no_progress (lit "--no-progress")
        ++ flag job.vr (lit "--vr")
        ++ (if is_empty job.color_corrections_file
            then []
            else (lit "--colorCorrectionsFile", some job.color_corrections_file) ∷ []))

-- A client that reads the arguments of a job from the left finds exactly its options, in order and
-- with their values, even if a value is empty or looks like an option.
pub read_options-to_arguments :
    (q : Numerals) (job : Job) → read_options (to_arguments q job []) ≡ options q job
unfolding read_options to_arguments same_text
read_options-to_arguments q job = ground arith

filter_name_allowed :
    (q : Numerals) (s : QString) → All (λ c. is_allowed q c ≡ true) s → filter_name q s ≡ s
unfolding filter_name
filter_name_allowed q [] h = refl
filter_name_allowed q (c ∷ s) (first, rest) = ground (arith, filter_name_allowed q s rest)

allowed-filter_name :
    (q : Numerals) (s : QString) → All (λ c. is_allowed q c ≡ true) (filter_name q s)
unfolding filter_name
allowed-filter_name q [] = tt
allowed-filter_name q (c ∷ s) = ground (arith, allowed-filter_name q s)

-- The filter leaves allowed characters only, so that a second pass changes nothing.
filter_name_lem :
    (q : Numerals) (s : QString)
    → All (λ c. is_allowed q c ≡ true) (filter_name q s)
      × (filter_name q (filter_name q s) ≡ filter_name q s)
filter_name_lem q s =
    (allowed-filter_name q s, filter_name_allowed q (filter_name q s) (allowed-filter_name q s))
