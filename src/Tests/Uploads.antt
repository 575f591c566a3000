-- ===== src/Tests/Uploads.antt =====
-- The submission of a sample job.
use vray_for_houdini.Base.{
  ◌≡◌, ◌≢◌, refl, true, false, not, ◌&&◌, ◌||◌, List, [], ◌∷◌, ◌++◌, none, some, ◌==◌, leb,
  if◌then◌else◌, arith, length,
}
use vray_for_houdini.Qt.Text.{QString, lit, is_empty, contains}
use vray_for_houdini.Cloud.Job.{Numerals, Job, new_job, to_arguments}
use vray_for_houdini.Cloud.Options.{options, read_options, read_options-to_arguments}
use vray_for_houdini.Cloud.Desk.{Machine, CloudWindow, CloudCommand, Desk}
use vray_for_houdini.Cloud.Window.{
  new_window, upload_scene, execute_client, on_proc_finished, finished, handle_all, close_window,
}
use vray_for_houdini.Cloud.Upload.{
  finishes, finishes-upload_scene, IsUpload, Reach, Step, Reach-IsUpload,
}
use vray_for_houdini.Cloud.Outcome.{close_window_lem}

-- One digit for any number.
abbrev numerals : Numerals
numerals = record {
  is_digit = λ c. leb 48 c && leb c 57;
  is_space = λ c. c == 32;
  number = λ n. (48 ∷ []);
}

abbrev scene : QString
scene = lit "/tmp/vfhVRayCloud.vrscene"

abbrev job : Job
job = record (new_job scene) { animation = true; project = lit "P"; name = lit "--vr" }

abbrev machine : Machine
machine = record {
  home = lit "/home/u";
  exists = λ path. true;
  opens = λ path. true;
  json = λ path. some ((lit "executable", lit "vcloud") ∷ []);
  temp = lit "/tmp";
  temp_is_dir = true;
  temp_is_writable = true;
  removes = λ path. true;
  has_ui = false;
  trimmed = λ s. s;
  linked = λ s. s;
}

abbrev ui_machine : Machine
ui_machine = record machine { has_ui = true }

abbrev desk : Desk
desk = record {
  files = scene ∷ [];
  cloud_client = [];
  client_checked = false;
  window = none;
  started = [];
  notes = [];
}

read_options-to_arguments_example :
    read_options (to_arguments numerals job []) ≡ options numerals job
read_options-to_arguments_example = read_options-to_arguments numerals job

abbrev other_window : CloudWindow
other_window = new_window (lit "/tmp/other.vrscene")

abbrev busy_desk : Desk
busy_desk = record desk {
  window = some other_window;
  client_checked = true;
  cloud_client = lit "c";
}

abbrev commands : List CloudCommand
commands =
    record { command = lit "c"; arguments = lit "project" ∷ [] }
    ∷ record { command = lit "c"; arguments = lit "job" ∷ [] }
    ∷ []

abbrev window : CloudWindow
window = new_window scene

close_window_lem_example :
    let (d, w) = upload_scene commands desk window in
    let busy = w.is_running || not (is_empty w.commands) in
    let (d1, w1) = if busy then handle_all machine (finished ∷ []) d w else (d, w) in
    let d' = close_window machine (finished ∷ []) true true true d w in
    (d'.started ≡ d1.started)
    × (d'.window ≡ (if busy && not true then some w1 else none))
    × (not (busy && not true) && machine.removes w.job_file && contains d'.files w.job_file ≡ false)
close_window_lem_example =
    close_window_lem machine (finished ∷ []) true true true (upload_scene commands desk window).0
      (upload_scene commands desk window).1

commands_ne : commands ≢ []
commands_ne e = ground (arith, e)

finishes-upload_scene_example :
    let (d', w') = finishes (length commands) (upload_scene commands desk window) in
    (d'.started ≡ desk.started ++ commands)
    × (w'.commands ≡ [])
    × (w'.is_running ≡ false)
    × (w'.is_completed ≡ true)
finishes-upload_scene_example = finishes-upload_scene commands desk window commands_ne

abbrev begun : Desk × CloudWindow
begun = upload_scene commands desk window

-- The first process ends.
begun_path : Reach machine begun (on_proc_finished begun.0 begun.1)
unfolding upload_scene execute_client
begun_path = Reach.then Reach.here (Step.ends refl)

Reach-IsUpload_example : IsUpload desk.started commands (on_proc_finished begun.0 begun.1)
Reach-IsUpload_example =
    Reach-IsUpload machine commands desk window (on_proc_finished begun.0 begun.1) commands_ne
      begun_path
