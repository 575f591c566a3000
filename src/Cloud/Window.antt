-- ===== src/Cloud/Window.antt =====
-- `CloudWindow`: the queue of commands, one process at a time. An operation takes the state with
-- the window and returns both; `WA_DeleteOnClose` deletes the window that is closed.
use vray_for_houdini.Base.{
  Bool, true, false, not, ◌&&◌, ◌||◌, List, [], ◌∷◌, ◌++◌, none, some, if◌then◌else◌,
}
use vray_for_houdini.Qt.Text.{QString, lit, is_empty}
use vray_for_houdini.Cloud.Desk.{CloudCommand, Machine, CloudWindow, Desk, start, remove_file_path}

-- A window as it is made.
abbrev pub new_window : QString → CloudWindow
new_window job_file = record {
  commands = [];
  is_running = false;
  maximum = 100;
  is_completed = false;
  is_aborting = false;
  text = [];
  job_file = job_file;
}

unfoldable pub upload_completed : CloudWindow → CloudWindow
upload_completed w = record w { is_completed = true }

-- The text between the two halves of `preTag`, and a line break.
unfoldable pub append_text : Machine → QString → CloudWindow → CloudWindow
append_text m data_ w = if is_empty (m.trimmed data_) then w else record w {
  text = w.text ++ (lit "<pre>" ++ m.linked (m.trimmed data_) ++ lit "</pre>") ∷ lit "\n" ∷ [];
}

-- `executeVRayCloudClient`
unfoldable pub execute_client : Desk → CloudWindow → Desk × CloudWindow
execute_client d w = elim w.commands [
  | [] ↦ (d, w)
  | c ∷ rest ↦ (start c d, record w { commands = rest; is_running = true })
]

unfoldable pub upload_scene : List CloudCommand → Desk → CloudWindow → Desk × CloudWindow
unfolding execute_client
upload_scene job d w = execute_client d (record w { commands = job; maximum = 0 })

-- An error of the process, which may still run.
unfoldable pub on_proc_error : Bool → CloudWindow → CloudWindow
unfolding upload_completed
on_proc_error runs w = upload_completed (record w { commands = []; is_running = runs })

-- The process is over.
unfoldable pub on_proc_finished : Desk → CloudWindow → Desk × CloudWindow
unfolding upload_completed execute_client
on_proc_finished d w =
    let w' = record w { is_running = false } in
    if is_empty w.commands then (d, upload_completed w') else execute_client d w'

-- `terminateProcess`. If the process `ends` in time, it reports that it is over.
unfoldable pub terminate_process : Bool → Desk → CloudWindow → Desk × CloudWindow
unfolding on_proc_finished
terminate_process ends d w =
    let w' = record w { commands = []; maximum = 1; is_aborting = true } in
    if w.is_running then if ends then on_proc_finished d w' else (d, w') else (d, w)

-- The destructor, with the window's pointer and the job file: a process that still runs is
-- terminated once more.
unfoldable pub delete_window : Machine → Bool → Desk → CloudWindow → Desk
unfolding terminate_process
delete_window m ends d w =
    let (d', w') = terminate_process ends d w in
    remove_file_path m w'.job_file (record d' { window = none })

-- What the process reports, handled one report after the other.
pub data Report : Type 0 where
  failed : Bool → Report
  finished : Report
  printed : QString → Report

unfoldable pub handle : Machine → Report → Desk → CloudWindow → Desk × CloudWindow
unfolding on_proc_error on_proc_finished append_text
handle m (failed runs) d w = (d, on_proc_error runs w)
handle m finished d w = on_proc_finished d w
handle m (printed data_) d w = (d, append_text m data_ w)

unfoldable pub handle_all : Machine → List Report → Desk → CloudWindow → Desk × CloudWindow
unfolding handle
handle_all m [] d w = (d, w)
handle_all m (r ∷ reports) d w = let (d', w') = handle m r d w in handle_all m reports d' w'

-- `closeEvent`, where `agrees` is the answer if there is something to abort, and `reports` what the
-- process reports while the question is open.
unfoldable pub close_window : Machine → List Report → Bool → Bool → Bool → Desk → CloudWindow → Desk
unfolding handle_all terminate_process delete_window
close_window m reports agrees ends again d w =
    let busy = w.is_running || not (is_empty w.commands) in
    let (d1, w1) = if busy then handle_all m reports d w else (d, w) in
    let (d2, w2) = terminate_process ends d1 w1 in
    if busy && not agrees then record d1 { window = some w1 } else delete_window m again d2 w2
