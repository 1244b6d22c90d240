-- ===== src/Memtools/Calls/Handled.antt =====
-- internal/memtools: the handlers as sequences of steps of the store.
use sdd_hoffy.Common.{
  String, ℕ, List, Option, none, some, Bool, true, false, not, ◌&&◌, ◌==◌, nat_eq, text_eq,
  string_eq, length, if◌then◌else◌,
}
use sdd_hoffy.Common.Result.{Result, ok, err}
use sdd_hoffy.Common.Text.{Text, is_empty}
use sdd_hoffy.Memory.Types.{Observation, Db, StoreConfig, Engine, Error}
use sdd_hoffy.Memory.Observations.{create_session, AddObservationParams}
use sdd_hoffy.Memory.Observations.Edits.{CompactResult}
use sdd_hoffy.Memory.Search.{Index}
use sdd_hoffy.Memory.Steps.{Steps, stop, Steps-trans}
use sdd_hoffy.Memory.Steps.Operations.{
  create_session-Steps, end_session-Steps, add_observation-Steps, update_observation-Steps,
  delete_observation-Steps, compact_observations-Steps,
}
use sdd_hoffy.Memory.Steps.Relating.{add_relation-Steps, remove_relation-Steps}
use sdd_hoffy.Bridge.{save_in_session}
use sdd_hoffy.Memtools.Progress.{
  ProgressRequest, saved_answer, handle_write, handle_progress, progress_params,
}
use sdd_hoffy.Memtools.Handlers.{
  UpdateRequest, RelateRequest, SessionRequest, CompactRequest, edited_answer, removed_answer,
  related_answer, compacted_answer, execute_on, identified, has_no_updates, update_params,
  relation_params, compact_params, handle_delete, handle_update, handle_relate, handle_session,
  handle_compact,
}

-- A result whose database is reached by steps.
pub record Leads {A : Type 0} (db : Db) (result : Db × A) : Type 0 where
  pub steps : Steps db result.0

pub stay : {A : Type 0} {db : Db} {a : A} → Leads db (db, a)
stay = record { steps = stop }

pub choose :
    {A : Type 0} {db : Db} (b : Bool) (x y : Db × A)
    → Leads db x
    → Leads db y
    → Leads db (if b then x else y)
choose true x y hx hy = hx
choose false x y hx hy = hy

pub save_in_session-Steps :
    (engine : Engine) (cfg : StoreConfig) (now : ℕ) (project : String) (p : AddObservationParams)
    (db : Db)
    → Steps db (save_in_session engine cfg now project p db).0
unfolding save_in_session
save_in_session-Steps engine cfg now project p db =
    Steps-trans (create_session-Steps now "manual-save" project "" db)
      (add_observation-Steps engine cfg now p (create_session now "manual-save" project "" db))

saved_answer-Leads :
    (db : Db) (added : Db × Result Error ℕ) → Steps db added.0 → Leads db (saved_answer added)
saved_answer-Leads db (after, err e) steps = record { steps = steps }
saved_answer-Leads db (after, ok id) steps = record { steps = steps }

module _ (now : ℕ) where
  pub handle_progress-Leads :
      (engine : Engine) (cfg : StoreConfig) (json_valid : Text → Bool) (r : ProgressRequest)
      (db : Db)
      → Leads db (handle_progress engine cfg json_valid now r db)
  unfolding handle_progress handle_write
  handle_progress-Leads engine cfg json_valid r db = choose (r.project == "") _ _ stay (
      choose (is_empty r.content) _ _ stay (
        choose (not (json_valid r.content)) _ _ stay
          (saved_answer-Leads db _ (add_observation-Steps engine cfg now (progress_params r) db))))

  pub handle_delete-Leads :
      (id : ℕ) (hard : Bool) (db : Db) → Leads db (handle_delete now id hard db)
  unfolding handle_delete
  handle_delete-Leads id hard db =
      choose (id == 0) _ _ stay (record { steps = delete_observation-Steps now id hard db })

  edited_answer-Leads :
      (db : Db) (r : Db × Result Error Observation) → Steps db r.0 → Leads db (edited_answer r)
  edited_answer-Leads db (after, err e) steps = record { steps = steps }
  edited_answer-Leads db (after, ok o) steps = record { steps = steps }

  pub handle_update-Leads :
      (engine : Engine) (cfg : StoreConfig) (name : Text → String) (r : UpdateRequest) (db : Db)
      → Leads db (handle_update engine cfg name now r db)
  unfolding handle_update
  handle_update-Leads engine cfg name r db = choose (r.id == 0) _ _ stay (
      choose (has_no_updates r) _ _ stay (
        edited_answer-Leads db _
          (update_observation-Steps engine cfg now r.id (update_params name r) db)))

  removed_answer-Leads :
      (db : Db) (id : ℕ) (r : Db × Result Error (Unit {0}))
      → Steps db r.0
      → Leads db (removed_answer id r)
  removed_answer-Leads db id (after, err e) steps = record { steps = steps }
  removed_answer-Leads db id (after, ok done) steps = record { steps = steps }

  related_answer-Leads :
      (db : Db) (r : Db × Result Error (List ℕ)) → Steps db r.0 → Leads db (related_answer r)
  related_answer-Leads db (after, err e) steps = record { steps = steps }
  related_answer-Leads db (after, ok ids) steps = record { steps = steps }

  pub handle_relate-Leads : (r : RelateRequest) (db : Db) → Leads db (handle_relate now r db)
  unfolding handle_relate
  handle_relate-Leads r db =
      choose _ _ _
        (choose (r.id == 0) _ _ stay
          (removed_answer-Leads db r.id _ (remove_relation-Steps r.id db)))
        (choose _ _ _ stay (
          choose (r.from_id == 0) _ _ stay (
            choose (r.to_id == 0) _ _ stay (
              choose (r.relation_type == "") _ _ stay
                (related_answer-Leads db _ (add_relation-Steps now (relation_params r) db))))))

  pub handle_session-Leads : (r : SessionRequest) (db : Db) → Leads db (handle_session now r db)
  unfolding handle_session
  handle_session-Leads r db = choose (r.id == "") _ _ stay (
      choose _ _ _
        (choose (r.project == "") _ _ stay
          (record { steps = create_session-Steps now r.id r.project r.directory db }))
        (choose _ _ _ (record { steps = end_session-Steps now r.id r.summary db }) stay))

  compacted_answer-Leads :
      (db : Db) (r : Db × Result Error CompactResult) → Steps db r.0 → Leads db (compacted_answer r)
  compacted_answer-Leads db (after, err e) steps = record { steps = steps }
  compacted_answer-Leads db (after, ok done) steps = record { steps = steps }

  execute_on-Leads :
      (engine : Engine) (r : CompactRequest) (ids : Option (List ℕ)) (db : Db)
      → Leads db (execute_on engine now r ids db)
  execute_on-Leads engine r none db = stay
  execute_on-Leads engine r (some ids) db = choose (length ids == 0) _ _ stay (
      choose (not (is_empty r.summary_content) && is_empty r.summary_title) _ _ stay (
        compacted_answer-Leads db _
          (compact_observations-Steps engine now (compact_params r ids) db)))

  identified-Leads :
      (r : CompactRequest) (stale : Option (List Observation)) (db : Db)
      → Leads db (identified r stale db)
  identified-Leads r none db = stay
  identified-Leads r (some stale) db = stay

  pub handle_compact-Leads :
      (index : Index) (engine : Engine) (json_ids : Text → Option (List ℕ)) (r : CompactRequest)
      (db : Db)
      → Leads db (handle_compact index engine json_ids now r db)
  unfolding handle_compact
  handle_compact-Leads index engine json_ids r db = choose (r.older_than_days == 0) _ _ stay (
      choose (is_empty r.compact_ids) _ _ (identified-Leads r _ db)
        (execute_on-Leads engine r (json_ids r.compact_ids) db))
