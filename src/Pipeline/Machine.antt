-- ===== src/Pipeline/Machine.antt =====
-- internal/pipeline/state.go: the transitions of the project pipeline. A function that mutates
-- `*ProjectConfig` returns the new record; `now` is what the clock reads; the index -1 is `none`.
use sdd_hoffy.Common.{
  String, ℕ, suc, ◌+◌, List, [], ◌∷◌, Option, none, some, Bool, true, false, ◌&&◌, ◌==◌, string_eq,
  ltb, leb, length, get_elem?, get, put, if◌then◌else◌,
}
use sdd_hoffy.Common.Result.{Result, ok, err, ◌>>=◌, ◌>>◌, require}
use sdd_hoffy.Pipeline.Config.{StageStatus, Statuses, ProjectConfig, stage_order, zero_status}
pub mod Progress
pub mod Kept

pub data Error : Type 0 where
  gate_not_passed unknown_stage at_final_stage wrong_stage out_of_range : Error

unfoldable pub clarity_threshold : String → ℕ
clarity_threshold mode = if mode == "expert" then 50 else 70

unfoldable pub index_in : ℕ → String → List String → Option ℕ
index_in i stage [] = none
index_in i stage (s ∷ order) =
    let rest = index_in (suc i) stage order in if s == stage then some i else rest

unfoldable pub stage_index : String → Option ℕ
unfolding index_in
stage_index stage = index_in 0 stage stage_order

abbrev check_index : Option ℕ → Result Error ℕ
check_index none = err unknown_stage
check_index (some i) = if leb 8 i then err at_final_stage else ok i

-- Beyond its error, `CanAdvance` hands on the index that `Advance` computes again.
unfoldable pub can_advance : ProjectConfig → Result Error ℕ
unfolding clarity_threshold
can_advance cfg =
    if cfg.current_stage == "clarify" && ltb cfg.clarity_score (clarity_threshold cfg.mode)
    then err gate_not_passed
    else check_index (stage_index cfg.current_stage)

abbrev or_zero : Option StageStatus → StageStatus
or_zero none = zero_status
or_zero (some st) = st

unfoldable pub mark_completed : String → String → ProjectConfig → ProjectConfig
mark_completed now stage cfg =
    let st = or_zero (get cfg.stage_status stage) in
    record cfg {
      stage_status =
          put stage (record st { status = "completed"; completed_at = now }) cfg.stage_status;
    }

abbrev started : String → StageStatus → String
started now st = if st.started_at == "" then now else st.started_at

unfoldable pub mark_in_progress : String → String → ProjectConfig → ProjectConfig
mark_in_progress now stage cfg =
    let st = or_zero (get cfg.stage_status stage) in
    record cfg {
      stage_status =
          put stage
            (record st {
              status = "in_progress";
              started_at = started now st;
              iterations = st.iterations + 1;
            })
            cfg.stage_status;
    }

-- Reading past the end of `StageOrder` is a panic.
abbrev move_to : String → ProjectConfig → Option String → Result Error ProjectConfig
move_to now cfg none = err out_of_range
move_to now cfg (some next) =
    let done = mark_completed now cfg.current_stage cfg in
    ok (mark_in_progress now next (record done { current_stage = next }))

unfoldable pub advance : String → ProjectConfig → Result Error ProjectConfig
unfolding can_advance mark_completed mark_in_progress
advance now cfg = do idx ← can_advance cfg; move_to now cfg (get_elem? stage_order (suc idx))

abbrev is_status : String → Option StageStatus → Bool
is_status s none = false
is_status s (some st) = st.status == s

unfoldable pub is_completed : ProjectConfig → String → Bool
is_completed cfg stage = is_status "completed" (get cfg.stage_status stage)

unfoldable pub require_stage : ProjectConfig → String → Result Error (Unit {0})
require_stage cfg expected = require (cfg.current_stage == expected) wrong_stage
