-- ===== src/Changes/Machine.antt =====
-- internal/changes/state.go: the state machine of one change. A method that mutates `*ChangeRecord`
-- returns the new record; `now` is what the clock reads. The index -1 is `none`.
pub mod Progress
use sdd_hoffy.Common.{
  String, ℕ, zero, suc, ◌+◌, ◌-◌, List, [], ◌∷◌, Option, none, some, Bool, true, false, not, ◌==◌,
  nat_eq, string_eq, length, get_elem?, leb, if◌then◌else◌,
}
use sdd_hoffy.Common.Result.{Result, ok, err, ◌>>=◌, ◌>>◌, require}
use sdd_hoffy.Changes.Types.{
  StageEntry, ChangeRecord, Error, not_active, unknown_stage, at_final_stage, not_at_final_stage,
  out_of_range,
}

-- The position of the first entry with the given name.
unfoldable pub index_from : ℕ → String → List StageEntry → Option ℕ
index_from i stage [] = none
index_from i stage (entry ∷ entries) =
    let rest = index_from (suc i) stage entries in if entry.name == stage then some i else rest

unfoldable pub current_stage_index : ChangeRecord → Option ℕ
unfolding index_from
current_stage_index change = index_from 0 change.current_stage change.stages

abbrev is_final : ℕ → Option ℕ → Bool
is_final n none = false
is_final n (some i) = i == n - 1

unfoldable pub is_last_stage : ChangeRecord → Bool
unfolding current_stage_index
is_last_stage change = is_final (length change.stages) (current_stage_index change)

-- What `CanAdvance` returns beyond its error is the index that `Advance` computes again.
abbrev check_index : ℕ → Option ℕ → Result Error ℕ
check_index n none = err unknown_stage
check_index n (some i) = if leb (n - 1) i then err at_final_stage else ok i

unfoldable pub can_advance : ChangeRecord → Result Error ℕ
unfolding current_stage_index
can_advance change = do
  require (change.status == "active") not_active
  check_index (length change.stages) (current_stage_index change)

-- `change.Stages[i]` is updated in place.
abbrev pub modify : ℕ → (StageEntry → StageEntry) → List StageEntry → List StageEntry
modify i f [] = []
modify zero f (entry ∷ entries) = f entry ∷ entries
modify (suc i) f (entry ∷ entries) = entry ∷ modify i f entries

abbrev pub finish : String → StageEntry → StageEntry
finish now entry = record entry { status = "completed"; completed_at = now }

abbrev pub begin : String → StageEntry → StageEntry
begin now entry = record entry { status = "in_progress"; started_at = now }

-- Reading past the end of a slice is a panic in Go.
abbrev enter :
    String → ChangeRecord → List StageEntry → Option StageEntry → Result Error ChangeRecord
enter now change stages none = err out_of_range
enter now change stages (some entry) =
    ok (record change { stages = stages; current_stage = entry.name; updated_at = now })

unfoldable pub advance : String → ChangeRecord → Result Error ChangeRecord
unfolding can_advance
advance now change = do
  idx ← can_advance change
  let stages = modify (suc idx) (begin now) (modify idx (finish now) change.stages)
  enter now change stages (get_elem? stages (suc idx))

abbrev known_index : Option ℕ → Result Error ℕ
known_index none = err unknown_stage
known_index (some i) = ok i

unfoldable pub complete_change : String → ChangeRecord → Result Error ChangeRecord
complete_change now change = do
  require (change.status == "active") not_active
  idx ← known_index (current_stage_index change)
  require (is_last_stage change) not_at_final_stage
  ok (record change {
    stages = modify idx (finish now) change.stages;
    status = "completed";
    updated_at = now;
  })
