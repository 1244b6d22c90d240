-- ===== src/Changes/Tools.antt =====
-- internal/tools/change.go and internal/tools/change_advance.go: the handlers of `sdd_change` and
-- `sdd_change_advance`. The answer's text, the search for the project's root and the notice to the
-- memory are left out; whether the project has the three baseline documents is an argument.
use sdd_hoffy.Common.{
  String, ℕ, List, [], ◌∷◌, Option, none, some, Bool, true, false, not, ◌&&◌, ◌||◌, ◌==◌, string_eq,
  if◌then◌else◌,
}
use sdd_hoffy.Common.Result.{Result, ok, err, ◌>>=◌, ◌>>◌, require}
use sdd_hoffy.Common.Text.{Text, is_empty}
use sdd_hoffy.Changes.Types.{
  StageEntry, ChangeRecord, Error, out_of_range, description_required, active_exists,
  artifacts_required, content_required, no_active_change, no_stage_file, stage_write_failed,
}
use sdd_hoffy.Changes.Flow.{validate_type, validate_size, stage_flow, stage_filename}
use sdd_hoffy.Changes.Slug.{trim_spaces, slugify}
use sdd_hoffy.Changes.Machine.{is_last_stage, advance, complete_change}
use sdd_hoffy.Changes.Store.{FileStore, Faults, load_active, create, save}
pub mod Start
pub mod Sound
pub mod Lifecycle

pub record ChangeRequest : Type 0 where
  pub type : String
  pub size : String
  pub description : Text

abbrev is_none : Option ChangeRecord → Bool
is_none none = true
is_none (some c) = false

abbrev pending : List String → List StageEntry
pending [] = []
pending (stage ∷ flow) =
    record { name = stage; status = "pending"; started_at = ""; completed_at = "" } ∷ pending flow

-- The `for i, stage := range flow` loop: the first stage is in progress.
unfoldable pub stage_entries : String → List String → List StageEntry
stage_entries now [] = []
stage_entries now (stage ∷ flow) =
    record { name = stage; status = "in_progress"; started_at = now; completed_at = "" }
    ∷ pending flow

-- `flow[0]` is a panic on an empty flow.
unfoldable pub new_change : String → ChangeRequest → List String → Result Error ChangeRecord
unfolding stage_entries
new_change now req [] = err out_of_range
new_change now req (stage ∷ flow) = ok (record {
  id = slugify req.description;
  type = req.type;
  size = req.size;
  description = req.description;
  stages = stage_entries now (stage ∷ flow);
  current_stage = stage;
  adrs = [];
  status = "active";
  created_at = now;
  updated_at = now;
})

-- The part of the handler before anything is written.
unfoldable pub prepare_change :
    String → Faults → Bool → ChangeRequest → FileStore → Result Error ChangeRecord
prepare_change now io artifacts req st = do
  validate_type req.type
  validate_size req.size
  require (not (is_empty (trim_spaces req.description))) description_required
  active ← load_active io st
  require (is_none active) active_exists
  require (artifacts || not (req.size == "medium" || req.size == "large")) artifacts_required
  flow ← stage_flow req.type req.size
  new_change now req flow

abbrev create_prepared :
    Faults → FileStore → Result Error ChangeRecord → FileStore × Result Error ChangeRecord
create_prepared io st (err e) = (st, err e)
create_prepared io st (ok change) = create io change st

unfoldable pub handle_change :
    String → Faults → Bool → ChangeRequest → FileStore → FileStore × Result Error ChangeRecord
unfolding prepare_change
handle_change now io artifacts req st =
    create_prepared io st (prepare_change now io artifacts req st)

abbrev or_no_active : Option ChangeRecord → Result Error ChangeRecord
or_no_active none = err no_active_change
or_no_active (some c) = ok c

-- The stage's file is written before the state machine moves.
unfoldable pub move_on : String → Faults → Text → FileStore → Result Error ChangeRecord
move_on now io content st = do
  require (not (is_empty (trim_spaces content))) content_required
  found ← load_active io st
  active ← or_no_active found
  require (not (stage_filename active.current_stage == "")) no_stage_file
  require (not io.stage_file) stage_write_failed
  if is_last_stage active then complete_change now active else advance now active

abbrev save_moved :
    String → Faults → FileStore → Result Error ChangeRecord → FileStore × Result Error ChangeRecord
save_moved now io st (err e) = (st, err e)
save_moved now io st (ok change) = save now io change st

unfoldable pub handle_advance :
    String → Faults → Text → FileStore → FileStore × Result Error ChangeRecord
unfolding move_on
handle_advance now io content st = save_moved now io st (move_on now io content st)
