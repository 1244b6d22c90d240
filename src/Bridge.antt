-- ===== src/Bridge.antt =====
-- internal/tools/bridge.go: MemoryBridge, which records each completed stage of a project or of a
-- change in the memory. A failed save is logged by the source and has no other effect.
pub mod Summary
pub mod Recorded
pub mod Topics
use sdd_hoffy.Common.{
  String, ℕ, suc, ◌-◌, ◌/◌, List, [], ◌∷◌, ◌++◌, Option, none, some, Bool, ◌&&◌, ◌||◌, ◌==◌, nat_eq,
  leb, ltb, length, take, map, keep, if◌then◌else◌,
}
use sdd_hoffy.Common.Result.{Result}
use sdd_hoffy.Common.Text.{Text, codes, to_lower, trim_space}
use sdd_hoffy.Memory.Types.{Db, StoreConfig, Engine, Error}
use sdd_hoffy.Memory.Observations.{create_session, AddObservationParams, add_observation}

abbrev pub is_project_byte : ℕ → Bool
is_project_byte c =
    (leb b'a' c && leb c b'z') || ((leb b'0' c && leb c b'9') || (c == b'-' || c == b'_'))

abbrev pub hyphen_for_space : ℕ → ℕ
hyphen_for_space c = if c == b' ' then b'-' else c

unfoldable pub normalize_project : Text → Text
unfolding to_lower trim_space
normalize_project name = keep is_project_byte (map hyphen_for_space (to_lower (trim_space name)))

-- `strings.LastIndex` of a newline
unfoldable pub last_newline : Text → Option ℕ
last_newline [] = none
last_newline (c ∷ s) = elim (last_newline s) [
  | some i ↦ some (suc i)
  | none ↦ if c == 10 then some 0 else none
]

-- The cut is made before the last newline where that stands in the second half.
abbrev pub cut_at_line : ℕ → Text → Option ℕ → Text
cut_at_line remaining s none = s
cut_at_line remaining s (some i) = if ltb (remaining / 2) i then take i s else s

abbrev pub truncated_mark : Text
truncated_mark = codes "\n\n[...truncated]"

-- As much of `content` after `header` as 500 characters hold.
unfoldable pub fitted : Text → Text → Text
unfolding last_newline
fitted header content =
    let remaining = 500 - length header in
    if remaining == 0
    then header
    else if leb (length content) remaining
    then header ++ content
    else let cut = take remaining content in
      header ++ (cut_at_line remaining cut (last_newline cut) ++ truncated_mark)

abbrev pub stage_header : String → Text
stage_header stage = codes "**Stage**: " ++ (codes stage ++ codes " completed\n\n")

unfoldable pub compact_summary : String → Text → Text
unfolding fitted
compact_summary stage content = fitted (stage_header stage) content

unfoldable pub stage_topic : String → String → Text
unfolding normalize_project
stage_topic project stage =
    codes "sdd/" ++ (normalize_project (codes project) ++ (codes "/" ++ codes stage))

unfoldable pub stage_params : String → String → Text → AddObservationParams
unfolding stage_topic compact_summary
stage_params project stage content = record {
  session_id = "manual-save";
  type = "decision";
  title = codes "SDD " ++ (codes stage ++ (codes ": " ++ codes project));
  content = compact_summary stage content;
  tool_name = "";
  project = project;
  scope = codes "project";
  topic_key = stage_topic project stage;
  namespace = "";
}

-- CreateSession, then AddObservation.
unfoldable pub save_in_session :
    Engine → StoreConfig → ℕ → String → AddObservationParams → Db → Db × Result Error ℕ
unfolding create_session add_observation
save_in_session engine cfg now project p db =
    add_observation engine cfg now p (create_session now "manual-save" project "" db)

unfoldable pub on_stage_complete : Engine → StoreConfig → ℕ → String → String → Text → Db → Db
unfolding save_in_session stage_params
on_stage_complete engine cfg now project stage content db =
    (save_in_session engine cfg now project (stage_params project stage content) db).0

abbrev pub change_header : String → String → Text
change_header change_id stage =
    codes "**Stage**: "
    ++ (codes stage ++ (codes " completed for change `" ++ (codes change_id ++ codes "`\n\n")))

unfoldable pub change_topic : String → String → Text
change_topic change_id stage =
    codes "change/unknown/" ++ (codes change_id ++ (codes "/" ++ codes stage))

unfoldable pub change_params : String → String → Text → AddObservationParams
unfolding change_topic fitted
change_params change_id stage content = record {
  session_id = "manual-save";
  type = "decision";
  title = codes "Change " ++ (codes stage ++ (codes ": " ++ codes change_id));
  content = fitted (change_header change_id stage) content;
  tool_name = "";
  project = "";
  scope = codes "project";
  topic_key = change_topic change_id stage;
  namespace = "";
}

unfoldable pub on_change_stage_complete :
    Engine → StoreConfig → ℕ → String → String → Text → Db → Db
unfolding save_in_session change_params
on_change_stage_complete engine cfg now change_id stage content db =
    (save_in_session engine cfg now "" (change_params change_id stage content) db).0

-- `notifyObserver`: there may be no observer.
unfoldable pub notify_observer :
    Option (Engine × StoreConfig) → ℕ → String → String → Text → Db → Db
unfolding on_stage_complete
notify_observer none now project stage content db = db
notify_observer (some (engine, cfg)) now project stage content db =
    on_stage_complete engine cfg now project stage content db

-- `notifyChangeObserver`
unfoldable pub notify_change_observer :
    Option (Engine × StoreConfig) → ℕ → String → String → Text → Db → Db
unfolding on_change_stage_complete
notify_change_observer none now change_id stage content db = db
notify_change_observer (some (engine, cfg)) now change_id stage content db =
    on_change_stage_complete engine cfg now change_id stage content db
