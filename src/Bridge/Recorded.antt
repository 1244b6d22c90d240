-- ===== src/Bridge/Recorded.antt =====
-- internal/tools/bridge.go: what the memory has after a stage is completed.
use sdd_hoffy.Common.{String, ℕ, ◌≡◌, refl, ◌∙◌, ◌++◌, some, true, false, nat_eq, string_eq}
use sdd_hoffy.Common.Text.{Text, codes, is_empty, is_space, lower_byte}
use sdd_hoffy.Memory.Types.{Observation, Db, StoreConfig, Engine, IsEngine}
use sdd_hoffy.Memory.Text.{normalize_topic_key, truncate_content}
use sdd_hoffy.Memory.Text.Private.{strip_private_tags}
use sdd_hoffy.Memory.Text.Keys.{normalize_topic_key-nonempty}
use sdd_hoffy.Memory.Observations.{create_session, AddObservationParams, prepare, session_exists}
use sdd_hoffy.Memory.Observations.Topics.{IsKept}
use sdd_hoffy.Memory.Observations.Upsert.{add_observation-IsKept}
use sdd_hoffy.Memory.Observations.Sessions.{
  create_session-rows, create_session-IsKept, create_session-exists,
}
use sdd_hoffy.Memory.Search.{find_by_topic_key}
use sdd_hoffy.Memory.Search.Written.{InNamespace}
use sdd_hoffy.Memory.Search.Topic.{Unshadowed, find_by_topic_key-add}
use sdd_hoffy.Bridge.{
  stage_topic, stage_params, normalize_project, compact_summary, fitted, change_header,
  save_in_session, on_stage_complete, change_topic, change_params, on_change_stage_complete,
}

module _ (engine : Engine) (cfg : StoreConfig) (now : ℕ) where
  -- The memory when AddObservation is called.
  abbrev pub in_manual_session : String → Db → Db
  in_manual_session project db = create_session now "manual-save" project "" db

  -- The memory keeps its invariant, and a read of the topic gives a decision with this heading
  -- and summary, stripped of private parts and the summary cut to the limit.
  pub record IsRecorded (topic : Text) (project : String) (heading summary : Text) (after : Db)
      : Type 0 where
    pub kept : IsKept after
    pub row : Observation
    pub read : find_by_topic_key engine topic project (codes "project") after ≡ some row
    pub type : row.type ≡ "decision"
    pub title : row.title ≡ strip_private_tags heading
    pub content :
        row.content ≡ truncate_content cfg.max_observation_length (strip_private_tags summary)
    pub updated : row.updated_at ≡ now

  save_in_session-IsRecorded :
      (project : String) (p : AddObservationParams) (db : Db)
      → IsEngine engine
      → IsKept db
      → p.session_id ≡ "manual-save"
      → p.type ≡ "decision"
      → p.scope ≡ codes "project"
      → is_empty (normalize_topic_key p.topic_key) ≡ false
      → InNamespace (prepare engine cfg p) db.observations
      → Unshadowed engine cfg now db (prepare engine cfg p)
      → IsRecorded p.topic_key p.project p.title p.content
          (save_in_session engine cfg now project p db).0
  unfolding save_in_session
  save_in_session-IsRecorded project p db lawful kept session decision scope keyed spaces clear =
      let before = in_manual_session project db in
      let same = create_session-rows now "manual-save" project "" db in
      let kept_before = create_session-IsKept now "manual-save" project "" db kept in
      let there : session_exists p.session_id before ≡ true =
        rw session (create_session-exists now "manual-save" project "" db) in
      let found =
        find_by_topic_key-add engine cfg now before p lawful kept_before keyed (rw same spaces)
          there (rw same clear) in
      record {
        kept = add_observation-IsKept engine cfg now p before lawful kept_before;
        row = found.0;
        read = rw (← scope) found.1;
        type = found.2.type ∙ decision;
        title = found.2.title;
        content = found.2.content;
        updated = found.2.updated;
      }

  stage_keyed :
      (project stage : String) (content : Text)
      → is_empty (normalize_topic_key (stage_params project stage content).topic_key) ≡ false
  unfolding stage_params stage_topic is_space lower_byte
  stage_keyed project stage content = normalize_topic_key-nonempty b's' _ refl

  change_keyed :
      (change_id stage : String) (content : Text)
      → is_empty (normalize_topic_key (change_params change_id stage content).topic_key) ≡ false
  unfolding change_params change_topic is_space lower_byte
  change_keyed change_id stage content = normalize_topic_key-nonempty b'c' _ refl

  -- Once a stage of a project is completed, FindByTopicKey gives, under the topic "sdd/", the project's
  -- normalized name, "/" and the stage, a decision with the title "SDD ", the stage, ": " and the
  -- project, and with the compact summary of the document as its content, both stripped of private
  -- parts and the content cut to the limit; and the memory keeps its invariant. The conditions: before,
  -- identifiers are distinct and below the next one, and no topic has two live rows; the rows of the
  -- topic are in no namespace; and unless there is one, no row counts as a duplicate of the new one
  -- within the deduplication window.
  pub on_stage_complete-IsRecorded :
      (project stage : String) (content : Text) (db : Db)
      → IsEngine engine
      → IsKept db
      → InNamespace (prepare engine cfg (stage_params project stage content)) db.observations
      → Unshadowed engine cfg now db (prepare engine cfg (stage_params project stage content))
      → IsRecorded
          (codes "sdd/" ++ (normalize_project (codes project) ++ (codes "/" ++ codes stage)))
          project
          (codes "SDD " ++ (codes stage ++ (codes ": " ++ codes project)))
          (compact_summary stage content)
          (on_stage_complete engine cfg now project stage content db)
  unfolding on_stage_complete stage_params stage_topic
  on_stage_complete-IsRecorded project stage content db lawful kept spaces clear =
      save_in_session-IsRecorded project (stage_params project stage content) db lawful kept refl
        refl refl (stage_keyed project stage content) spaces clear

  -- The same for a stage of a change, whose topic has the change's identifier.
  pub on_change_stage_complete-IsRecorded :
      (change_id stage : String) (content : Text) (db : Db)
      → IsEngine engine
      → IsKept db
      → InNamespace (prepare engine cfg (change_params change_id stage content)) db.observations
      → Unshadowed engine cfg now db (prepare engine cfg (change_params change_id stage content))
      → IsRecorded
          (codes "change/unknown/" ++ (codes change_id ++ (codes "/" ++ codes stage)))
          ""
          (codes "Change " ++ (codes stage ++ (codes ": " ++ codes change_id)))
          (fitted (change_header change_id stage) content)
          (on_change_stage_complete engine cfg now change_id stage content db)
  unfolding on_change_stage_complete change_params change_topic
  on_change_stage_complete-IsRecorded change_id stage content db lawful kept spaces clear =
      save_in_session-IsRecorded "" (change_params change_id stage content) db lawful kept refl refl
        refl (change_keyed change_id stage content) spaces clear
