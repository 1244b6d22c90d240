-- ===== src/Memtools/Handlers.antt =====
-- internal/memtools: manage.go, relate.go, session.go and compact.go, the handlers of mem_delete,
-- mem_update, mem_suggest_topic_key, mem_relate, mem_session and mem_compact. A number that is missing
-- is 0, and so is one below 0, which names no row either; the decoding of a JSON array of integers is a
-- parameter.
use sdd_hoffy.Common.{
  String, ℕ, List, [], ◌∷◌, Option, none, some, Bool, not, ◌&&◌, ◌==◌, nat_eq, text_eq, string_eq,
  length, if◌then◌else◌,
}
use sdd_hoffy.Common.Result.{Result, ok, err}
use sdd_hoffy.Common.Text.{Text, codes, is_empty, to_lower, trim_space}
use sdd_hoffy.Memory.Types.{Observation, Db, StoreConfig, Engine, Error}
use sdd_hoffy.Memory.Text.{nullable_text}
use sdd_hoffy.Memory.Observations.{create_session, end_session}
use sdd_hoffy.Memory.Observations.Edits.{
  UpdateObservationParams, update_observation, delete_observation, CompactParams, CompactResult,
  compact_observations, count_observations,
}
use sdd_hoffy.Memory.Relations.{AddRelationParams, add_relation, remove_relation}
use sdd_hoffy.Memory.Search.{Index, find_stale_observations}
use sdd_hoffy.Memory.Suggest.{suggest_topic_key}

pub data ToolError : Type 0 where
  -- A parameter that has to be given.
  required : String → ToolError
  unknown_action no_updates not_an_array : ToolError
  failed : Error → ToolError

pub data Done : Type 0 where
  deleted : ℕ → Bool → Done
  edited : Observation → Done
  related : List ℕ → Done
  unrelated : ℕ → Done
  started : String → Done
  ended : String → Done
  compacted : CompactResult → Done
  -- The candidates for a compaction, and how many observations there are.
  candidates : List Observation → ℕ → Done

abbrev pub Answer : Type 0
Answer = Db × Result ToolError Done

abbrev pub refuse : String → Db → Answer
refuse name db = (db, err (required name))

-- `DeleteTool.Handle`; DeleteObservation does not fail.
unfoldable pub handle_delete : ℕ → ℕ → Bool → Db → Answer
unfolding delete_observation
handle_delete now id hard db =
    if id == 0 then refuse "id" db else (delete_observation now id hard db, ok (deleted id hard))

pub record UpdateRequest : Type 0 where
  pub id : ℕ
  pub title : Text
  pub content : Text
  pub type : Text
  pub project : Text
  pub scope : Text
  pub topic_key : Text

-- A field that is empty is not changed.
abbrev pub given_name : (Text → String) → Text → Option String
given_name name [] = none
given_name name (c ∷ s) = some (name (c ∷ s))

unfoldable pub update_params : (Text → String) → UpdateRequest → UpdateObservationParams
update_params name r = record {
  type = given_name name r.type;
  title = nullable_text r.title;
  content = nullable_text r.content;
  project = given_name name r.project;
  scope = nullable_text r.scope;
  topic_key = nullable_text r.topic_key;
}

abbrev pub has_no_updates : UpdateRequest → Bool
has_no_updates r =
    is_empty r.title
    && (is_empty r.content
        && (is_empty r.type && (is_empty r.project && (is_empty r.scope && is_empty r.topic_key))))

abbrev pub edited_answer : Db × Result Error Observation → Answer
edited_answer (db, err e) = (db, err (failed e))
edited_answer (db, ok o) = (db, ok (edited o))

-- `UpdateTool.Handle`; `name` gives the string of a text.
unfoldable pub handle_update :
    Engine → StoreConfig → (Text → String) → ℕ → UpdateRequest → Db → Answer
unfolding update_observation update_params
handle_update engine cfg name now r db =
    if r.id == 0
    then refuse "id" db
    else if has_no_updates r
    then (db, err no_updates)
    else edited_answer (update_observation engine cfg now r.id (update_params name r) db)

-- `SuggestTopicKeyTool.Handle`
unfoldable pub handle_suggest_topic_key : Text → Text → Text → Option Text
unfolding suggest_topic_key
handle_suggest_topic_key title content type =
    if is_empty title && is_empty content then none else some (suggest_topic_key type title content)

pub record RelateRequest : Type 0 where
  pub action : Text
  pub id : ℕ
  pub from_id : ℕ
  pub to_id : ℕ
  pub relation_type : String
  pub note : String
  pub bidirectional : Bool

abbrev pub removed_answer : ℕ → Db × Result Error (Unit {0}) → Answer
removed_answer id (db, err e) = (db, err (failed e))
removed_answer id (db, ok done) = (db, ok (unrelated id))

abbrev pub related_answer : Db × Result Error (List ℕ) → Answer
related_answer (db, err e) = (db, err (failed e))
related_answer (db, ok ids) = (db, ok (related ids))

abbrev action_of : Text → Text → Text
action_of default action = let a = to_lower (trim_space action) in if is_empty a then default else a

abbrev pub relation_params : RelateRequest → AddRelationParams
relation_params r = record {
  from_id = r.from_id;
  to_id = r.to_id;
  type = r.relation_type;
  note = r.note;
  bidirectional = r.bidirectional;
}

-- `RelateTool.Handle`
unfoldable pub handle_relate : ℕ → RelateRequest → Db → Answer
unfolding add_relation remove_relation to_lower trim_space
handle_relate now r db =
    if action_of (codes "add") r.action == codes "remove"
    then (if r.id == 0 then refuse "id" db else removed_answer r.id (remove_relation r.id db))
    else if not (action_of (codes "add") r.action == codes "add")
    then (db, err unknown_action)
    else if r.from_id == 0
    then refuse "from_id" db
    else if r.to_id == 0
    then refuse "to_id" db
    else if r.relation_type == ""
    then refuse "relation_type" db
    else related_answer (add_relation now (relation_params r) db)

pub record SessionRequest : Type 0 where
  pub action : Text
  pub id : String
  pub project : String
  pub directory : String
  pub summary : String

-- `SessionTool.Handle`
unfoldable pub handle_session : ℕ → SessionRequest → Db → Answer
unfolding create_session end_session to_lower trim_space
handle_session now r db =
    if r.id == ""
    then refuse "id" db
    else if to_lower (trim_space r.action) == codes "start"
    then (if r.project == ""
        then refuse "project" db
        else (create_session now r.id r.project r.directory db, ok (started r.id)))
    else if to_lower (trim_space r.action) == codes "end"
    then (end_session now r.id r.summary db, ok (ended r.id))
    else (db, err unknown_action)

pub record CompactRequest : Type 0 where
  pub older_than_days : ℕ
  pub project : String
  pub scope : Text
  pub compact_ids : Text
  pub namespace : String
  pub summary_title : Text
  pub summary_content : Text
  pub session_id : String

abbrev pub compacted_answer : Db × Result Error CompactResult → Answer
compacted_answer (db, err e) = (db, err (failed e))
compacted_answer (db, ok r) = (db, ok (compacted r))

abbrev pub compact_params : CompactRequest → List ℕ → CompactParams
compact_params r ids = record {
  ids = ids;
  summary_title = r.summary_title;
  summary_content = r.summary_content;
  project = r.project;
  scope = r.scope;
  session_id = r.session_id;
}

abbrev pub execute_on : Engine → ℕ → CompactRequest → Option (List ℕ) → Db → Answer
execute_on engine now r none db = (db, err not_an_array)
execute_on engine now r (some ids) db =
    if length ids == 0
    then refuse "compact_ids" db
    else if not (is_empty r.summary_content) && is_empty r.summary_title
    then refuse "summary_title" db
    else compacted_answer (compact_observations engine now (compact_params r ids) db)

abbrev pub identified : CompactRequest → Option (List Observation) → Db → Answer
identified r none db = refuse "older_than_days" db
identified r (some stale) db =
    (db, ok (candidates stale (count_observations r.project r.scope r.namespace db)))

-- `CompactTool.Handle`: without identifiers it lists candidates, with them it compacts.
unfoldable pub handle_compact :
    Index → Engine → (Text → Option (List ℕ)) → ℕ → CompactRequest → Db → Answer
unfolding compact_observations find_stale_observations count_observations
handle_compact index engine json_ids now r db =
    if r.older_than_days == 0
    then refuse "older_than_days" db
    else if is_empty r.compact_ids
    then identified r
        (find_stale_observations index now r.project r.scope r.namespace r.older_than_days 200 db)
        db
    else execute_on engine now r (json_ids r.compact_ids) db
