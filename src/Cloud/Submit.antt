-- ===== src/Cloud/Submit.antt =====
-- `submitJob` and `isClientAvailable`.
use vray_for_houdini.Base.{Bool, true, false, List, [], ◌∷◌, none, some, if◌then◌else◌}
use vray_for_houdini.Qt.Text.{QString, lit, is_empty}
use vray_for_houdini.Cloud.Job.{Numerals, Job, to_arguments}
use vray_for_houdini.Cloud.Desk.{
  CloudCommand, Machine, CloudWindow, Desk, Note, note, start, find_client, remove_file_path,
}
use vray_for_houdini.Cloud.Window.{new_window, upload_scene, upload_completed, append_text}

-- The two commands of a job.
unfoldable pub job_commands : Numerals → QString → Job → List CloudCommand
unfolding to_arguments
job_commands q client job =
    record {
      command = client;
      arguments = lit "project" ∷ lit "create" ∷ lit "--name" ∷ job.project ∷ [];
    }
    ∷ record { command = client; arguments = to_arguments q job (lit "job" ∷ lit "submit" ∷ []) }
    ∷ []

-- The blocking calls without a user interface.
unfoldable pub execute_all : List CloudCommand → Desk → Desk
execute_all [] d = d
execute_all (c ∷ commands) d = execute_all commands (start c d)

abbrev pub put_window : Desk × CloudWindow → Desk
put_window (d, w) = record d { window = some w }

-- What follows the search for the client.
unfoldable pub run_commands : Machine → QString → List CloudCommand → Desk → Desk
unfolding execute_all upload_scene remove_file_path
run_commands m scene_file commands d =
    if m.has_ui
    then elim d.window [
      | none ↦ put_window (upload_scene commands d (new_window scene_file))
      | some w ↦ d
    ]
    else remove_file_path m scene_file (execute_all commands d)

unfoldable pub submit_job : Numerals → Machine → Job → Desk → Desk × Bool
unfolding find_client job_commands run_commands
submit_job q m job d =
    let d' = find_client m d in
    if is_empty d'.cloud_client then (d', false) else (
      run_commands m job.scene_file (job_commands q d'.cloud_client job)
          (note (Note.using_client d'.cloud_client) d'),
      true,
    )

-- The window that says that there is no client.
abbrev pub missing_window : Machine → CloudWindow
missing_window m = upload_completed (
    append_text m (lit "Please, visit https://www.chaosgroup.com/cloud")
      (append_text m (lit "V-Ray Cloud Client is not found!") (new_window [])))

unfoldable pub is_client_available : Machine → Desk → Desk × Bool
unfolding find_client upload_completed append_text
is_client_available m d =
    let d' = find_client m d in
    if is_empty d'.cloud_client
    then (
      if m.has_ui
          then elim d'.window [
            | none ↦ record d' { window = some (missing_window m) }
            | some w ↦ d'
          ]
          else d',
      false,
    )
    else (d', true)
