-- ===== src/Cloud/Outcome.antt =====
-- What a submission leaves behind: the commands that ran, the window and the scene file.
use vray_for_houdini.Base.{
  ◌≡◌, refl, sym, subst, ◌∙◌, Bool, false, not, ◌&&◌, ◌||◌, List, [], ◌∷◌, ◌++◌, append_assoc,
  append-nil, none, some, arith, if◌then◌else◌,
}
use vray_for_houdini.Qt.Text.{QString, is_empty, same_text_iff, contains}
use vray_for_houdini.Cloud.Job.{Numerals, Job}
use vray_for_houdini.Cloud.Desk.{
  CloudCommand, Machine, CloudWindow, Desk, start, note, using_client, find_client, without,
  remove_file_path, create_file_path, temp_file,
}
use vray_for_houdini.Cloud.Window.{
  upload_completed, on_proc_error, append_text, execute_client, on_proc_finished, terminate_process,
  delete_window, Report, failed, finished, printed, handle, handle_all, close_window,
}
use vray_for_houdini.Cloud.Submit.{execute_all, job_commands, run_commands, submit_job}

without_lem : (f : QString) (files : List QString) → contains (without f files) f ≡ false
unfolding contains without
without_lem f [] = refl
without_lem f (g ∷ files) =
    ground (arith, same_text_iff f g, same_text_iff g f, without_lem f files)

-- The file is gone, unless it cannot be removed.
abbrev pub IsGone : Machine → QString → Desk → Type 0
IsGone m f d = m.removes f && contains d.files f ≡ false

remove_file_path_lem :
    (m : Machine) (f : QString) (d : Desk)
    → IsGone m f (remove_file_path m f d)
      × ((remove_file_path m f d).started ≡ d.started)
      × ((remove_file_path m f d).window ≡ d.window)
unfolding remove_file_path
remove_file_path_lem m f d = (ground (arith, without_lem f d.files), ground arith, ground arith)

-- The path for a scene is empty exactly if the temporary folder cannot be written; otherwise no
-- file of an earlier submission is left there, unless it cannot be removed.
create_file_path_lem :
    (m : Machine) (d : Desk)
    → let (d', path) = create_file_path m d in
      (path ≡ (if m.temp_is_dir && m.temp_is_writable then temp_file m else []))
      × (m.temp_is_dir
            && m.temp_is_writable
            && m.removes (temp_file m)
            && contains d'.files (temp_file m)
          ≡ false)
unfolding create_file_path
create_file_path_lem m d =
    (ground arith, ground (arith, (remove_file_path_lem m (temp_file m) d).0))

-- The client is looked for once: any later search, on whatever machine state, changes nothing, also
-- where the first one failed.
find_client-find_client :
    (m again : Machine) (d : Desk) → find_client again (find_client m d) ≡ find_client m d
unfolding find_client
find_client-find_client m again d = ground arith

execute_all_lem :
    (commands : List CloudCommand) (d : Desk)
    → ((execute_all commands d).started ≡ d.started ++ commands)
      × ((execute_all commands d).files ≡ d.files)
unfolding execute_all
execute_all_lem [] d = (sym (append-nil d.started), refl)
execute_all_lem (c ∷ commands) d =
    let next = execute_all_lem commands (start c d) in
    (next.0 ∙ append_assoc d.started (c ∷ []) commands, next.1)

find_client_started :
    (m : Machine) (d : Desk)
    → ((find_client m d).started ≡ d.started)
      × ((find_client m d).files ≡ d.files)
      × ((find_client m d).window ≡ d.window)
unfolding find_client
find_client_started m d = (ground arith, ground arith, ground arith)

-- Without a user interface a submission with a client runs both commands of the job to their end
-- and removes the scene file; without a client it reports failure and runs nothing.
submit_job_batch :
    (q : Numerals) (m : Machine) (job : Job) (d : Desk)
    → m.has_ui ≡ false
    → let (d', ok) = submit_job q m job d in
      let client = (find_client m d).cloud_client in
      (ok ≡ not (is_empty client))
      × (d'.started ≡ d.started ++ (if is_empty client then [] else job_commands q client job))
      × (not (is_empty client) && m.removes job.scene_file && contains d'.files job.scene_file
          ≡ false)
unfolding submit_job run_commands
submit_job_batch q m job d batch =
    let d1 = find_client m d in
    let d2 = note (using_client d1.cloud_client) d1 in
    let commands = job_commands q d1.cloud_client job in
    let d3 = execute_all commands d2 in
    (
      ground arith,
      ground (
        arith,
        (remove_file_path_lem m job.scene_file d3).1,
        (execute_all_lem commands d2).0,
        (find_client_started m d).0,
        append-nil d.started,
      ),
      ground (arith, (remove_file_path_lem m job.scene_file d3).0),
    )

terminate_process_lem :
    (ends : Bool) (d : Desk) (w : CloudWindow)
    → let (d', w') = terminate_process ends d w in
      (d'.started ≡ d.started) × (w'.job_file ≡ w.job_file)
unfolding terminate_process on_proc_finished upload_completed
terminate_process_lem ends d w = (ground arith, ground arith)

delete_window_lem :
    (m : Machine) (ends : Bool) (d : Desk) (w : CloudWindow)
    → let d' = delete_window m ends d w in
      (d'.started ≡ d.started) × (d'.window ≡ none) × IsGone m w.job_file d'
unfolding delete_window
delete_window_lem m ends d w =
    let (d1, w1) = terminate_process ends d w in
    let before = terminate_process_lem ends d w in
    let after = remove_file_path_lem m w1.job_file (record d1 { window = none }) in
    (
      after.1 ∙ before.0,
      after.2,
      subst (λ f. IsGone m f (remove_file_path m w1.job_file (record d1 { window = none })))
          before.1 after.0,
    )

on_proc_finished-job_file :
    (d : Desk) (w : CloudWindow) → (on_proc_finished d w).1.job_file ≡ w.job_file
unfolding on_proc_finished upload_completed execute_client
on_proc_finished-job_file d w = ground arith

handle-job_file :
    (m : Machine) (r : Report) (d : Desk) (w : CloudWindow)
    → (handle m r d w).1.job_file ≡ w.job_file
unfolding handle on_proc_error upload_completed append_text
handle-job_file m (failed runs) d w = refl
handle-job_file m finished d w = on_proc_finished-job_file d w
handle-job_file m (printed data_) d w = ground arith

handle_all-job_file :
    (m : Machine) (reports : List Report) (d : Desk) (w : CloudWindow)
    → (handle_all m reports d w).1.job_file ≡ w.job_file
unfolding handle_all
handle_all-job_file m [] d w = refl
handle_all-job_file m (r ∷ reports) d w =
    let (d', w') = handle m r d w in handle_all-job_file m reports d' w' ∙ handle-job_file m r d w

-- Where a window is closed while a process runs or commands wait, what the process reports before
-- the answer is handled, and if the user does not agree the window stays as this leaves it;
-- otherwise it is gone with its scene file, unless that cannot be removed. After the answer no
-- command is started.
pub close_window_lem :
    (m : Machine) (reports : List Report) (agrees ends again : Bool) (d : Desk) (w : CloudWindow)
    → let busy = w.is_running || not (is_empty w.commands) in
      let (d1, w1) = if busy then handle_all m reports d w else (d, w) in
      let d' = close_window m reports agrees ends again d w in
      (d'.started ≡ d1.started)
      × (d'.window ≡ (if busy && not agrees then some w1 else none))
      × (not (busy && not agrees) && m.removes w.job_file && contains d'.files w.job_file ≡ false)
unfolding close_window
close_window_lem m reports agrees ends again d w =
    let busy = w.is_running || not (is_empty w.commands) in
    let (d1, w1) = if busy then handle_all m reports d w else (d, w) in
    let (d2, w2) = terminate_process ends d1 w1 in
    let same : w1.job_file ≡ w.job_file = ground (arith, handle_all-job_file m reports d w) in
    let first = terminate_process_lem ends d1 w1 in
    let second = delete_window_lem m again d2 w2 in
    (ground (arith, first, second), ground (arith, second), ground (arith, same, first, second))
