-- ===== src/Memtools/Progress.antt =====
-- internal/memtools/progress.go: the handler of mem_progress, which reads or replaces the progress
-- document of a project. Whether a text is JSON is a parameter (`json.Valid`).
pub mod RoundTrip
use sdd_hoffy.Common.{
  String, ℕ, List, [], ◌∷◌, ◌++◌, Option, none, some, Bool, true, false, not, ◌==◌, string_eq,
  if◌then◌else◌,
}
use sdd_hoffy.Common.Result.{Result, ok, err}
use sdd_hoffy.Common.Text.{Text, codes, is_empty}
use sdd_hoffy.Memory.Types.{Observation, Db, StoreConfig, Engine, Error}
use sdd_hoffy.Memory.Observations.{AddObservationParams, add_observation}
use sdd_hoffy.Memory.Search.{find_by_topic_key}

-- The arguments; a session that is not given is "manual-save".
pub record ProgressRequest : Type 0 where
  pub project : String
  pub content : Text
  pub session_id : String
  pub namespace : String

-- The answers: errors, no document, a document that is shown, and a document that is saved.
pub data Answer : Type 0 where
  project_required : Answer
  not_json : Answer
  failed : Error → Answer
  no_progress : Answer
  shown : Observation → Answer
  updated : ℕ → Answer

unfoldable pub progress_topic_key : String → String → Text
progress_topic_key project namespace =
    if namespace == ""
    then codes "progress/" ++ codes project
    else codes "progress/" ++ (codes namespace ++ (codes "/" ++ codes project))

unfoldable pub progress_params : ProgressRequest → AddObservationParams
unfolding progress_topic_key
progress_params r = record {
  session_id = r.session_id;
  type = "progress";
  title = codes "Progress: " ++ codes r.project;
  content = r.content;
  tool_name = "";
  project = r.project;
  scope = codes "project";
  topic_key = progress_topic_key r.project r.namespace;
  namespace = r.namespace;
}

abbrev pub found_answer : Option Observation → Answer
found_answer none = no_progress
found_answer (some o) = shown o

unfoldable pub handle_read : Engine → String → String → Db → Answer
unfolding find_by_topic_key progress_topic_key
handle_read engine project namespace db =
    found_answer
      (find_by_topic_key engine (progress_topic_key project namespace) project (codes "project") db)

abbrev pub saved_answer : Db × Result Error ℕ → Db × Answer
saved_answer (db, err e) = (db, failed e)
saved_answer (db, ok id) = (db, updated id)

unfoldable pub handle_write :
    Engine → StoreConfig → (Text → Bool) → ℕ → ProgressRequest → Db → Db × Answer
unfolding add_observation progress_params
handle_write engine cfg json_valid now r db =
    if not (json_valid r.content)
    then (db, not_json)
    else saved_answer (add_observation engine cfg now (progress_params r) db)

unfoldable pub handle_progress :
    Engine → StoreConfig → (Text → Bool) → ℕ → ProgressRequest → Db → Db × Answer
unfolding handle_read handle_write
handle_progress engine cfg json_valid now r db =
    if r.project == ""
    then (db, project_required)
    else if is_empty r.content
    then (db, handle_read engine r.project r.namespace db)
    else handle_write engine cfg json_valid now r db
