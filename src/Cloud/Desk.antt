-- ===== src/Cloud/Desk.antt =====
-- What the submission reads and changes: the files, the client's path, the upload window and the
-- commands that are started. `Machine` holds the answers of Qt and of the file system.
use vray_for_houdini.Base.{
  ℕ, Bool, true, not, ◌&&◌, ◌||◌, List, [], ◌∷◌, ◌++◌, Option, none, some, if◌then◌else◌,
}
use vray_for_houdini.Qt.Text.{QString, lit, is_empty, same_text, contains, join}
use vray_for_houdini.Qt.Map
use vray_for_houdini.Qt.Map.{QMap, text_key}

pub record CloudCommand : Type 0 where
  pub command : QString
  pub arguments : List QString

pub record Machine : Type 0 where
  -- `QDir::homePath()`, and whether the configuration file exists and can be opened.
  pub home : QString
  pub exists : QString → Bool
  pub opens : QString → Bool
  -- The JSON object in a file, if its document is one, with its values as text.
  pub json : QString → Option (QMap QString QString)
  -- `QDir::tempPath()` as an absolute path, and what `QFileInfo` says of it.
  pub temp : QString
  pub temp_is_dir : Bool
  pub temp_is_writable : Bool
  -- `QFile::remove` succeeds.
  pub removes : QString → Bool
  pub has_ui : Bool
  -- `trimmed()`, and the replacement of URLs by links.
  pub trimmed : QString → QString
  pub linked : QString → QString

pub data Note : Type 0 where
  client_not_found : Note
  temp_not_writable remove_failed using_client : QString → Note
  calling : List QString → Note

pub record CloudWindow : Type 0 where
  pub commands : List CloudCommand
  -- `proc.state()` is not `NotRunning`.
  pub is_running : Bool
  -- The range of the progress bar, and whether it and the button are hidden.
  pub maximum : ℕ
  pub is_completed : Bool
  -- The button takes no more clicks.
  pub is_aborting : Bool
  pub text : List QString
  pub job_file : QString

pub record Desk : Type 0 where
  pub files : List QString
  pub cloud_client : QString
  pub client_checked : Bool
  pub window : Option CloudWindow
  pub started : List CloudCommand
  pub notes : List Note

abbrev pub note : Note → Desk → Desk
note n d = record d { notes = d.notes ++ n ∷ [] }

abbrev pub key_executable : QString
key_executable = lit "executable"

-- The path of the configuration, on a system other than Windows.
abbrev pub config_path : Machine → QString
config_path m =
    join 47 (m.home ∷ lit ".ChaosGroup" ∷ lit "vcloud" ∷ lit "client" ∷ lit "vcloud.json" ∷ [])

-- The executable that the configuration names, or what was there before.
unfoldable pub read_client : Machine → QString → QString
unfolding join Map.find
read_client m before =
    if m.exists (config_path m) && m.opens (config_path m)
    then elim (m.json (config_path m)) [
      | none ↦ before
      | some object ↦ elim (Map.find key_executable object) [ none ↦ before | some path ↦ path ]
    ]
    else before

-- `findVRayCloudClient`
unfoldable pub find_client : Machine → Desk → Desk
unfolding read_client
find_client m d =
    let d' = record d { cloud_client = read_client m d.cloud_client; client_checked = true } in
    if d.client_checked
    then d
    else if is_empty d'.cloud_client
    then note client_not_found d'
    else d'

unfoldable pub without : QString → List QString → List QString
without f [] = []
without f (g ∷ files) = let rest = without f files in if same_text f g then rest else g ∷ rest

-- `removeFilePath`
unfoldable pub remove_file_path : Machine → QString → Desk → Desk
unfolding contains without
remove_file_path m path d =
    if contains d.files path
    then if m.removes path
      then record d { files = without path d.files }
      else note (remove_failed path) d
    else d

abbrev pub temp_file : Machine → QString
temp_file m = m.temp ++ lit "/vfhVRayCloud.vrscene"

-- `createFilePath`
unfoldable pub create_file_path : Machine → Desk → Desk × QString
unfolding remove_file_path
create_file_path m d =
    if not m.temp_is_dir || not m.temp_is_writable
    then (note (temp_not_writable m.temp) d, [])
    else (
      if contains d.files (temp_file m) then remove_file_path m (temp_file m) d else d,
      temp_file m,
    )

-- The start of a command, with its line in the log.
abbrev pub start : CloudCommand → Desk → Desk
start c d = record d { started = d.started ++ c ∷ []; notes = d.notes ++ calling c.arguments ∷ [] }
