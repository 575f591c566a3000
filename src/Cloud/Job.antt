-- ===== src/Cloud/Job.antt =====
-- `Cloud::Job` and its command line. Numbers are written by `Numerals`, which stands for
-- `QString::number` and `QString::arg` on an `int`, given as its 32-bit pattern.
use vray_for_houdini.Base.{
  ℕ, Bool, true, false, ◌&&◌, ◌||◌, List, [], ◌∷◌, ◌++◌, leb, ◌==◌, if◌then◌else◌,
}
use vray_for_houdini.Qt.Text.{QString, lit, is_empty}
use vray_for_houdini.Exporter.State.{RenderMode}

-- Qt's `\d` and `\s`, and its decimal numerals.
pub record Numerals : Type 0 where
  pub is_digit : ℕ → Bool
  pub is_space : ℕ → Bool
  pub number : ℕ → QString

pub record Job : Type 0 where
  pub scene_file : QString
  pub render_mode : QString
  pub width : ℕ
  pub height : ℕ
  pub animation : Bool
  pub first_frame : ℕ
  pub last_frame : ℕ
  pub frame_step : ℕ
  pub vr : Bool
  pub ignore_warnings : Bool
  pub no_progress : Bool
  pub color_corrections_file : QString
  pub project : QString
  pub name : QString

abbrev pub has_unit : QString → ℕ → Bool
has_unit [] c = false
has_unit (d ∷ s) c = (d == c) || has_unit s c

-- The negated class of `cloudNameFilter`: what is kept.
unfoldable pub is_allowed : Numerals → ℕ → Bool
is_allowed q c =
    (leb 97 c && leb c 122)
    || (leb 65 c && leb c 90)
    || q.is_digit c
    || q.is_space c
    || has_unit (lit "_-.,()[]") c

-- `remove` with the regular expression.
unfoldable pub filter_name : Numerals → QString → QString
filter_name q [] = []
filter_name q (c ∷ s) = let rest = filter_name q s in if is_allowed q c then c ∷ rest else rest

-- `Job(sceneFile)`
unfoldable pub new_job : QString → Job
new_job scene_file = record {
  scene_file = scene_file;
  render_mode = lit "bucket";
  width = 1920;
  height = 1080;
  animation = false;
  first_frame = 0;
  last_frame = 0;
  frame_step = 1;
  vr = false;
  ignore_warnings = true;
  no_progress = false;
  color_corrections_file = [];
  project = [];
  name = [];
}

unfoldable pub set_project : Numerals → QString → Job → Job
unfolding filter_name
set_project q value job = record job { project = filter_name q value }

unfoldable pub set_name : Numerals → QString → Job → Job
unfolding filter_name
set_name q value job = record job { name = filter_name q value }

unfoldable pub render_mode_to_string : RenderMode → QString
render_mode_to_string RenderMode.production = lit "-1"
render_mode_to_string RenderMode.interactive = lit "0"
render_mode_to_string RenderMode.interactive_opencl = lit "1"
render_mode_to_string RenderMode.interactive_cuda = lit "4"
render_mode_to_string RenderMode.production_opencl = lit "101"
render_mode_to_string RenderMode.production_cuda = lit "104"

-- `frameRangeFmt`
abbrev pub frame_range : Numerals → Job → QString
frame_range q job = q.number job.first_frame ++ lit "-" ++ q.number job.last_frame

-- The arguments that are appended.
unfoldable pub to_arguments : Numerals → Job → List QString → List QString
to_arguments q job arguments =
    arguments
    ++ (lit "--project" ∷ job.project ∷ [])
    ++ (lit "--name" ∷ job.name ∷ [])
    ++ (lit "--sceneFile" ∷ job.scene_file ∷ [])
    ++ (lit "--renderMode" ∷ job.render_mode ∷ [])
    ++ (lit "--width" ∷ q.number job.width ∷ [])
    ++ (lit "--height" ∷ q.number job.height ∷ [])
    ++ (if job.animation
        then lit "--animation"
          ∷ lit "--frameRange"
          ∷ frame_range q job
          ∷ lit "--frameStep"
          ∷ q.number job.frame_step
          ∷ []
        else [])
    ++ (if job.ignore_warnings then lit "--ignoreWarnings" ∷ [] else [])
    ++ (if job.no_progress then lit "--no-progress" ∷ [] else [])
    ++ (if job.vr then lit "--vr" ∷ [] else [])
    ++ (if is_empty job.color_corrections_file
        then []
        else lit "--colorCorrectionsFile" ∷ job.color_corrections_file ∷ [])
