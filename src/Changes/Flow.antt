-- ===== src/Changes/Flow.antt =====
-- internal/changes/types.go (validation) and internal/changes/flows.go: the stage sequence of every
-- pair of a change type and a change size.
pub mod Shape
use sdd_hoffy.Common.{
  String, List, [], ◌∷◌, Option, none, some, Bool, true, false, get, ◌==◌, string_eq,
}
use sdd_hoffy.Common.Result.{Result, ok, err, ◌>>=◌, ◌>>◌, require}
use sdd_hoffy.Changes.Types.{Error, invalid_type, invalid_size, no_flow_for_type, no_flow}

-- A Go lookup `m[k]` in a set that is a map to `bool`.
abbrev member : Option Bool → Bool
member none = false
member (some b) = b

abbrev valid_types : List (String × Bool)
valid_types = ("feature", true) ∷ ("fix", true) ∷ ("refactor", true) ∷ ("enhancement", true) ∷ []

abbrev valid_sizes : List (String × Bool)
valid_sizes = ("small", true) ∷ ("medium", true) ∷ ("large", true) ∷ []

unfoldable pub validate_type : String → Result Error (Unit {0})
unfolding get
validate_type t = require (member (get valid_types t)) invalid_type

unfoldable pub validate_size : String → Result Error (Unit {0})
unfolding get
validate_size s = require (member (get valid_sizes s)) invalid_size

abbrev flows : List String → List String → List String → List (String × List String)
flows small medium large = ("small", small) ∷ ("medium", medium) ∷ ("large", large) ∷ []

abbrev flow_registry : List (String × List (String × List String))
flow_registry =
    (
      "fix",
      flows ("describe" ∷ "context-check" ∷ "tasks" ∷ "verify" ∷ [])
          ("describe" ∷ "context-check" ∷ "spec" ∷ "tasks" ∷ "verify" ∷ [])
          ("describe" ∷ "context-check" ∷ "spec" ∷ "design" ∷ "tasks" ∷ "verify" ∷ []),
    )
    ∷ (
      "feature",
      flows ("describe" ∷ "context-check" ∷ "tasks" ∷ "verify" ∷ [])
          ("charter" ∷ "context-check" ∷ "spec" ∷ "tasks" ∷ "verify" ∷ [])
          ("charter" ∷ "context-check" ∷ "spec" ∷ "clarify" ∷ "design" ∷ "tasks" ∷ "verify" ∷ []),
    )
    ∷ (
      "refactor",
      flows ("scope" ∷ "context-check" ∷ "tasks" ∷ "verify" ∷ [])
          ("scope" ∷ "context-check" ∷ "design" ∷ "tasks" ∷ "verify" ∷ [])
          ("scope" ∷ "context-check" ∷ "spec" ∷ "design" ∷ "tasks" ∷ "verify" ∷ []),
    )
    ∷ (
      "enhancement",
      flows ("describe" ∷ "context-check" ∷ "tasks" ∷ "verify" ∷ [])
          ("charter" ∷ "context-check" ∷ "spec" ∷ "tasks" ∷ "verify" ∷ [])
          ("charter" ∷ "context-check" ∷ "spec" ∷ "clarify" ∷ "design" ∷ "tasks" ∷ "verify" ∷ []),
    )
    ∷ []

-- `v, ok := m[k]; if !ok { return err }`
abbrev or_fail {ℓ} : {A : Type ℓ} → Error → Option A → Result Error A
or_fail e none = err e
or_fail e (some a) = ok a

-- The fresh slice that the code returns is a value here.
unfoldable pub stage_flow : String → String → Result Error (List String)
unfolding validate_type validate_size get
stage_flow t s = do
  validate_type t
  validate_size s
  sizes ← or_fail no_flow_for_type (get flow_registry t)
  or_fail no_flow (get sizes s)

abbrev stage_filenames : List (String × String)
stage_filenames =
    ("describe", "describe.md")
    ∷ ("scope", "scope.md")
    ∷ ("charter", "charter.md")
    ∷ ("context-check", "context-check.md")
    ∷ ("spec", "spec.md")
    ∷ ("clarify", "clarify.md")
    ∷ ("design", "design.md")
    ∷ ("tasks", "tasks.md")
    ∷ ("verify", "verify.md")
    ∷ []

abbrev or_empty : Option String → String
or_empty none = ""
or_empty (some s) = s

unfoldable pub stage_filename : String → String
unfolding get
stage_filename stage = or_empty (get stage_filenames stage)
