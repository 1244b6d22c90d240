-- ===== src/Memtools/Progress/RoundTrip.antt =====
-- internal/memtools/progress.go: a document that is saved and then read.
use sdd_hoffy.Common.{
  ℕ, ◌≡◌, refl, ap, ◌∙◌, [], Bool, true, false, ◌==◌, string_eq, Bool-cases, inl, inr,
}
use sdd_hoffy.Common.Text.{Text, is_empty, is_space, lower_byte}
use sdd_hoffy.Memory.Types.{Observation, Db, StoreConfig, Engine, IsEngine}
use sdd_hoffy.Memory.Text.{normalize_topic_key, truncate_content}
use sdd_hoffy.Memory.Text.Private.{strip_private_tags}
use sdd_hoffy.Memory.Text.Keys.{normalize_topic_key-nonempty}
use sdd_hoffy.Memory.Observations.{prepare, add_observation, session_exists}
use sdd_hoffy.Memory.Observations.Topics.{IsKept}
use sdd_hoffy.Memory.Search.{find_by_topic_key}
use sdd_hoffy.Memory.Search.Written.{InNamespace}
use sdd_hoffy.Memory.Search.Topic.{Unshadowed, find_by_topic_key-add}
use sdd_hoffy.Memtools.Progress.{
  ProgressRequest, shown, updated, progress_topic_key, progress_params, found_answer, handle_read,
  handle_write, handle_progress, saved_answer,
}

-- The request without a document, which reads.
abbrev pub reading : ProgressRequest → ProgressRequest
reading r = record r { content = [] }

progress_session : (r : ProgressRequest) → (progress_params r).session_id ≡ r.session_id
unfolding progress_params
progress_session r = refl

progress_content : (r : ProgressRequest) → (progress_params r).content ≡ r.content
unfolding progress_params
progress_content r = refl

module _ (engine : Engine) (cfg : StoreConfig) (json_valid : Text → Bool) (now : ℕ) where
  progress_keyed :
      (r : ProgressRequest) → is_empty (normalize_topic_key (progress_params r).topic_key) ≡ false
  unfolding progress_params progress_topic_key is_space lower_byte
  progress_keyed r = elim (Bool-cases (r.namespace == "")) [
    | inl plain ↦ rw plain (normalize_topic_key-nonempty b'p' _ refl)
    | inr isolated ↦ rw isolated (normalize_topic_key-nonempty b'p' _ refl)
  ]

  write_answer :
      (r : ProgressRequest) (db : Db)
      → (r.project == "") ≡ false
      → is_empty r.content ≡ false
      → json_valid r.content ≡ true
      → handle_progress engine cfg json_valid now r db
        ≡ saved_answer (add_observation engine cfg now (progress_params r) db)
  unfolding handle_progress handle_write
  write_answer r db named given valid = rw (named, given, valid) refl

  read_answer :
      (r : ProgressRequest) (later : ℕ) (db : Db)
      → (r.project == "") ≡ false
      → handle_progress engine cfg json_valid later (reading r) db ≡ (
        db,
        found_answer (
            find_by_topic_key engine
              (progress_params r).topic_key
              (progress_params r).project
              (progress_params r).scope
              db),
      )
  unfolding handle_progress handle_read progress_params
  read_answer r later db named = rw named refl

  -- A progress document that is valid JSON is saved, and a later read of the same project and namespace
  -- changes nothing and shows the row that has been written, whose content is the document stripped of
  -- private parts and cut to the limit. The conditions: the project is named and the document not
  -- empty; in the database, identifiers are distinct and below the next one, and no topic has two live
  -- rows; the session exists; the rows of the topic are all in the request's namespace; and, unless
  -- there is one, no row counts as a duplicate of the document's within the deduplication window.
  pub handle_progress-reading :
      (r : ProgressRequest) (db : Db)
      → IsEngine engine
      → IsKept db
      → (r.project == "") ≡ false
      → is_empty r.content ≡ false
      → json_valid r.content ≡ true
      → session_exists r.session_id db ≡ true
      → InNamespace (prepare engine cfg (progress_params r)) db.observations
      → Unshadowed engine cfg now db (prepare engine cfg (progress_params r))
      → (after : Db) × (o : Observation) × (handle_progress engine cfg json_valid now r db
          ≡ (after, updated o.id))
        × ((later : ℕ)
            → handle_progress engine cfg json_valid later (reading r) after ≡ (after, shown o))
        × (o.content ≡ truncate_content cfg.max_observation_length (strip_private_tags r.content))
        × (o.updated_at ≡ now)
  handle_progress-reading r db lawful kept named given valid session spaces clear =
      let p = progress_params r in
      let read =
        find_by_topic_key-add engine cfg now db p lawful kept (progress_keyed r) spaces
          (ap (λ i. session_exists i db) (progress_session r) ∙ session) clear in
      let after = (add_observation engine cfg now p db).0 in
      (
        after,
        read.0,
        write_answer r db named given valid ∙ ap (λ x. saved_answer (after, x)) read.2.returned,
        (λ later. read_answer r later after named ∙ ap (λ x. (after, found_answer x)) read.1),
        read.2.content
            ∙ ap (λ s. truncate_content cfg.max_observation_length (strip_private_tags s))
                (progress_content r),
        read.2.updated,
      )
