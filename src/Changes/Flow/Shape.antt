-- ===== src/Changes/Flow/Shape.antt =====
-- internal/changes/flows.go: the form of a flow.
use sdd_hoffy.Common.{
  Distinct, String, ℕ, ◌≤◌, ◌≡◌, List, [], ◌∷◌, Option, none, some, false, ◌==◌, string_eq, All,
  arith, length, get_elem?, if◌then◌else◌, ◌⊎◌,
}
use sdd_hoffy.Common.Result.{ok, err}
use sdd_hoffy.Changes.Types.{Error, invalid_type, invalid_size}
use sdd_hoffy.Changes.Flow.{validate_type, validate_size, stage_flow, stage_filename}

abbrev pub last? : List String → Option String
last? [] = none
last? (x ∷ []) = some x
last? (x ∷ y ∷ r) = last? (y ∷ r)

-- The least and the largest number of stages for a size.
abbrev pub at_least : String → ℕ
at_least s = if "small" == s then 4 else if "medium" == s then 5 else 6

abbrev pub at_most : String → ℕ
at_most s = if "small" == s then 4 else if "medium" == s then 5 else 7

pub record IsFlow (s : String) (flow : List String) : Type 0 where
  pub context_check_second : get_elem? flow 1 ≡ some "context-check"
  pub verify_last : last? flow ≡ some "verify"
  pub distinct : Distinct flow
  pub lower : at_least s ≤ length flow
  pub upper : length flow ≤ at_most s
  pub filed : All (λ stage. (stage_filename stage == "") ≡ false) flow

-- Whatever the type and the size, a flow that `StageFlow` returns has the context check at index 1,
-- ends with the verify stage, repeats no stage, has a file name for each of its stages, and has 4
-- stages for a small change, 5 for a medium one and 6 or 7 for a large one.
pub stage_flow-IsFlow :
    (t s : String) {flow : List String} → stage_flow t s ≡ ok flow → IsFlow s flow
unfolding stage_flow stage_filename
stage_flow-IsFlow t s h = ground arith

-- `StageFlow` fails only on an unrecognised type, or on a recognised type with an unrecognised size;
-- the registry lacks no pair, so the two "no flow defined" errors are never returned.
stage_flow-err :
    (t s : String) {e : Error}
    → stage_flow t s ≡ err e
    → (validate_type t ≡ err invalid_type) × (e ≡ invalid_type)
      ⊎ (validate_type t ≡ ok tt) × (validate_size s ≡ err invalid_size) × (e ≡ invalid_size)
unfolding stage_flow
stage_flow-err t s h = ground arith
