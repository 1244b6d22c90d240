-- ===== src/Changes/Types.antt =====
-- internal/changes/types.go: the data of the change pipeline. Go's string types stay strings, since
-- a value read from a file or a request may be any string. A timestamp is the string that the code
-- writes; the clock is an argument of the functions that read it.
use sdd_hoffy.Common.{String, List}
use sdd_hoffy.Common.Text.{Text}

pub record StageEntry : Type 0 where
  pub name : String
  pub status : String
  pub started_at : String
  pub completed_at : String

pub record ChangeRecord : Type 0 where
  pub id : Text
  pub type : String
  pub size : String
  pub description : Text
  pub stages : List StageEntry
  pub current_stage : String
  pub adrs : List Text
  pub status : String
  pub created_at : String
  pub updated_at : String

-- The errors of the package and of its two tools, one constructor for each message. `diverges` is no
-- error of the code: it stands for a loop that has not ended within its fuel.
pub data Error : Type 0 where
  invalid_type invalid_size no_flow_for_type no_flow : Error
  not_active unknown_stage at_final_stage not_at_final_stage out_of_range : Error
  not_found read_failed read_dir_failed unparsable archive_active in_history : Error
  mkdir_failed write_failed rename_failed diverges : Error
  description_required active_exists artifacts_required : Error
  content_required no_active_change no_stage_file stage_write_failed : Error
