-- ===== src/Stages/Files.antt =====
-- internal/config/config.go (Load, Save, Exists) and internal/tools/helpers.go (readStageFile,
-- writeStageFile): the files of one project. hoofy.json is the record that `encoding/json` reads back
-- from it. The docs directory is the one that `ResolveDocsDir` finds. Which calls to the file system
-- fail, and what a failed write leaves, is an argument, `Faults`.
use sdd_hoffy.Common.{
  String, List, [], Option, none, some, Bool, true, false, string_eq, get, put, if◌then◌else◌,
}
use sdd_hoffy.Common.Result.{Result, ok, err}
use sdd_hoffy.Common.Text.{Text}
use sdd_hoffy.Pipeline.Config.{ProjectConfig}
use sdd_hoffy.Pipeline.Machine as Machine

pub data Error : Type 0 where
  field_required : String → Error
  invalid_mode invalid_verdict project_exists : Error
  not_initialized config_unreadable config_unparsable : Error
  pipeline : Machine.Error → Error
  unreadable missing render_failed : String → Error
  write_failed : String → Error
  mkdir_failed save_failed nothing_given : Error

pub data ConfigFile : Type 0 where
  absent corrupt : ConfigFile
  saved : ProjectConfig → ConfigFile

pub record Project : Type 0 where
  pub config : ConfigFile
  pub files : List (String × Text)

-- How a write fails: before anything happens, with the file left holding some other text, or after all
-- of it is written.
pub data WriteFault : Type 0 where
  refused : WriteFault
  torn : Text → WriteFault
  late : WriteFault

pub record Faults : Type 0 where
  pub read_config : Bool
  pub read : String → Bool
  pub write : String → Option WriteFault
  pub mkdir : Bool
  pub save : Option WriteFault

abbrev pub loaded : Bool → ConfigFile → Result Error ProjectConfig
loaded fails absent = err not_initialized
loaded fails corrupt = if fails then err config_unreadable else err config_unparsable
loaded fails (saved cfg) = if fails then err config_unreadable else ok cfg

unfoldable pub load : Faults → Project → Result Error ProjectConfig
load io p = loaded io.read_config p.config

-- A torn hoofy.json does not parse.
abbrev pub config_left : Option WriteFault → ProjectConfig → ConfigFile → ConfigFile
config_left none cfg old = saved cfg
config_left (some refused) cfg old = old
config_left (some (torn s)) cfg old = corrupt
config_left (some late) cfg old = saved cfg

abbrev pub save_result : Option WriteFault → ProjectConfig → Result Error ProjectConfig
save_result none cfg = ok cfg
save_result (some fault) cfg = err save_failed

-- `Save` stamps the record.
unfoldable pub save :
    String → Faults → ProjectConfig → Project → Project × Result Error ProjectConfig
save now io cfg p =
    let stamped = record cfg { updated_at = now } in
    (record p { config = config_left io.save stamped p.config }, save_result io.save stamped)

-- `config.Exists`
abbrev pub exists : ConfigFile → Bool
exists absent = false
exists corrupt = true
exists (saved cfg) = true

abbrev pub or_blank : Option Text → Text
or_blank none = []
or_blank (some s) = s

-- A file that does not exist reads as the empty text.
unfoldable pub read_stage_file : Faults → String → Project → Result Error Text
unfolding get
read_stage_file io name p =
    if io.read name then err (unreadable name) else ok (or_blank (get p.files name))

abbrev pub files_left :
    Option WriteFault → String → Text → List (String × Text) → List (String × Text)
files_left none name content files = put name content files
files_left (some refused) name content files = files
files_left (some (torn s)) name content files = put name s files
files_left (some late) name content files = put name content files

abbrev pub write_result : Option WriteFault → String → Result Error (Unit {0})
write_result none name = ok tt
write_result (some fault) name = err (write_failed name)

unfoldable pub write_stage_file :
    Faults → String → Text → Project → Project × Result Error (Unit {0})
unfolding put
write_stage_file io name content p = (
  record p { files = files_left (io.write name) name content p.files },
  write_result (io.write name) name,
)
