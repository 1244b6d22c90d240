-- ===== src/Memtools/Save.antt =====
-- internal/memtools/save.go: the handler of mem_save. ExtractLearnings, which applies regular
-- expressions, and the decoding of a JSON array of numbers are parameters; a number is its integer
-- part, and 0 where that is 0 or less.
use sdd_hoffy.Common.{
  String, ℕ, suc, List, [], ◌∷◌, Option, none, some, Bool, false, not, ◌&&◌, ◌==◌, nat_eq, text_eq,
  string_eq, length, if◌then◌else◌,
}
use sdd_hoffy.Common.Result.{Result, ok, err}
use sdd_hoffy.Common.Text.{Text, codes, is_empty, to_lower, trim_space}
use sdd_hoffy.Memory.Types.{Db, StoreConfig, Engine, Error}
use sdd_hoffy.Memory.Observations.{AddObservationParams, add_observation}
use sdd_hoffy.Memory.Relations.{AddRelationParams, add_relation}
use sdd_hoffy.Memory.Suggest.{suggest_topic_key}
use sdd_hoffy.Memory.Passive.{PassiveCaptureParams, PassiveCaptureResult, passive_capture}
use sdd_hoffy.Memory.Prompts.{AddPromptParams, add_prompt}
use sdd_hoffy.Memory.Transfer.{Store}

-- The argument `relate_to`; an element of an array that is no number is `none`.
pub data RelateTo : Type 0 where
  absent : RelateTo
  text : Text → RelateTo
  array : List (Option ℕ) → RelateTo
  unsupported : RelateTo

-- The arguments, with the handler's defaults in place of those that are missing.
pub record SaveRequest : Type 0 where
  pub save_type : Text
  pub content : Text
  pub session_id : String
  pub project : String
  pub namespace : String
  pub source : String
  pub title : Text
  pub type : String
  pub scope : Text
  pub topic_key : Text
  pub upsert : Bool
  pub relate_to : RelateTo

-- An identifier that is named in the answer, beside the topic key or its suggestion, and the relations.
pub record Saved : Type 0 where
  pub id : ℕ
  pub topic_key : Text
  pub suggested : Option Text
  pub related : Option ℕ
  pub linked : ℕ

pub data Answer : Type 0 where
  content_required title_required unknown_save_type : Answer
  failed : Error → Answer
  prompt_saved : ℕ → Answer
  captured : PassiveCaptureResult → Answer
  saved : Saved → Answer

abbrev and_positive : ℕ → Option (List ℕ) → Option (List ℕ)
and_positive n none = none
and_positive n (some ns) = if n == 0 then none else some (n ∷ ns)

-- All of the numbers, if each of them is positive.
unfoldable pub positive_ids : List ℕ → Option (List ℕ)
positive_ids [] = some []
positive_ids (n ∷ ns) = and_positive n (positive_ids ns)

unfoldable pub numbers : List (Option ℕ) → Option (List ℕ)
numbers [] = some []
numbers (none ∷ items) = none
numbers (some n ∷ items) = and_positive n (numbers items)

abbrev decoded : Option (List ℕ) → Option (List ℕ)
decoded none = none
decoded (some ns) = positive_ids ns

unfoldable pub parse_related_ids : (Text → Option (List ℕ)) → RelateTo → Option (List ℕ)
unfolding positive_ids numbers trim_space
parse_related_ids json_numbers absent = some []
parse_related_ids json_numbers (text v) =
    let trimmed = trim_space v in
    if is_empty trimmed then some [] else decoded (json_numbers trimmed)
parse_related_ids json_numbers (array items) = numbers items
parse_related_ids json_numbers unsupported = none

abbrev count_ok : Result Error (List ℕ) → ℕ → ℕ
count_ok (err e) n = n
count_ok (ok ids) n = suc n

abbrev pub link_params : ℕ → ℕ → AddRelationParams
link_params id target = record {
  from_id = id;
  to_id = target;
  type = "relates_to";
  note = "";
  bidirectional = false;
}

-- A relation that fails is a warning.
unfoldable pub relate_all : ℕ → ℕ → List ℕ → Db → Db × ℕ
unfolding add_relation
relate_all now id [] db = (db, 0)
relate_all now id (target ∷ targets) db =
    let first = add_relation now (link_params id target) db in
    let rest = relate_all now id targets first.0 in (rest.0, count_ok first.1 rest.1)

abbrev pub chosen_key : SaveRequest → Text
chosen_key r =
    if r.upsert && is_empty r.topic_key
    then suggest_topic_key (codes r.type) r.title r.content
    else r.topic_key

unfoldable pub save_params : SaveRequest → AddObservationParams
unfolding suggest_topic_key
save_params r = record {
  session_id = r.session_id;
  type = r.type;
  title = r.title;
  content = r.content;
  tool_name = "";
  project = r.project;
  scope = r.scope;
  topic_key = chosen_key r;
  namespace = r.namespace;
}

abbrev suggestion : SaveRequest → Option Text
suggestion r =
    if is_empty r.topic_key && not r.upsert
    then some (suggest_topic_key (codes r.type) r.title r.content)
    else none

abbrev pub linked_answer : ℕ → SaveRequest → ℕ → Option (List ℕ) → Db → Db × Answer
linked_answer now r id none db = (
  db,
  saved record {
    id = id;
    topic_key = chosen_key r;
    suggested = suggestion r;
    related = none;
    linked = 0;
  },
)
linked_answer now r id (some targets) db =
    let after = relate_all now id targets db in
    (
      after.0,
      saved record {
        id = id;
        topic_key = chosen_key r;
        suggested = suggestion r;
        related = some (length targets);
        linked = after.1;
      },
    )

abbrev pub then_relate : ℕ → SaveRequest → Option (List ℕ) → Db × Result Error ℕ → Db × Answer
then_relate now r targets (db, err e) = (db, failed e)
then_relate now r targets (db, ok id) = linked_answer now r id targets db

unfoldable pub handle_save_observation :
    Engine → StoreConfig → (Text → Option (List ℕ)) → ℕ → SaveRequest → Db → Db × Answer
unfolding add_observation save_params parse_related_ids relate_all suggest_topic_key
handle_save_observation engine cfg json_numbers now r db =
    if is_empty r.title
    then (db, title_required)
    else then_relate now r (parse_related_ids json_numbers r.relate_to)
        (add_observation engine cfg now (save_params r) db)

abbrev save_kind : Text → Text
save_kind save_type =
    let t = to_lower (trim_space save_type) in if is_empty t then codes "observation" else t

abbrev pub prompt_answer : Store × Result Error ℕ → Store × Answer
prompt_answer (st, err e) = (st, failed e)
prompt_answer (st, ok id) = (st, prompt_saved id)

abbrev pub capture_answer : Store → Db × Result Error PassiveCaptureResult → Store × Answer
capture_answer st (db, err e) = (record st { db = db }, failed e)
capture_answer st (db, ok r) = (record st { db = db }, captured r)

abbrev pub observation_answer : Store → Db × Answer → Store × Answer
observation_answer st (db, answer) = (record st { db = db }, answer)

abbrev pub prompt_params : SaveRequest → AddPromptParams
prompt_params r = record {
  session_id = r.session_id;
  content = r.content;
  project = r.project;
  namespace = r.namespace;
}

abbrev pub capture_params : SaveRequest → PassiveCaptureParams
capture_params r = record { session_id = r.session_id; project = r.project; source = r.source }

-- `Handle`
unfoldable pub handle_save :
    Engine
    → StoreConfig
    → (Text → Option (List ℕ))
    → (Text → List Text)
    → ℕ
    → SaveRequest
    → Store
    → Store × Answer
unfolding handle_save_observation add_prompt passive_capture to_lower trim_space
handle_save engine cfg json_numbers extract now r st =
    if is_empty r.content
    then (st, content_required)
    else if save_kind r.save_type == codes "observation"
    then observation_answer st (handle_save_observation engine cfg json_numbers now r st.db)
    else if save_kind r.save_type == codes "prompt"
    then prompt_answer (add_prompt cfg now (prompt_params r) st)
    else if save_kind r.save_type == codes "passive"
    then capture_answer st
        (passive_capture engine cfg now (capture_params r) (extract r.content) st.db)
    else (st, unknown_save_type)
