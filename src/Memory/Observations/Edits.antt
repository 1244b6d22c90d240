-- ===== src/Memory/Observations/Edits.antt =====
-- internal/memory/store.go: `UpdateObservation`, `DeleteObservation`, `CountObservations` and
-- `CompactObservations`. A failed statement of a transaction rolls all of it back.
use sdd_hoffy.Common.{
  String, ℕ, ◌+◌, List, [], ◌∷◌, ◌++◌, Option, none, some, Bool, true, not, ◌&&◌, ◌||◌, ◌==◌,
  nat_eq, text_eq, string_eq, ltb, length, keep, update_where, if◌then◌else◌,
}
use sdd_hoffy.Common.Result.{Result, ok, err}
use sdd_hoffy.Common.Text.{Text, codes, is_empty}
use sdd_hoffy.Memory.Types.{
  Observation, Db, StoreConfig, Engine, Error, no_rows, no_ids, too_many_ids, summary_without_title,
  foreign_key,
}
use sdd_hoffy.Memory.Text.{
  nullable_string, nullable_text, truncate_content, normalize_scope, normalize_topic_key,
  hash_normalized,
}
use sdd_hoffy.Memory.Text.Private.{strip_private_tags}
use sdd_hoffy.Memory.Observations.{is_live, or_blank, session_exists, get_observation}

pub record UpdateObservationParams : Type 0 where
  pub type : Option String
  pub title : Option Text
  pub content : Option Text
  pub project : Option String
  pub scope : Option Text
  pub topic_key : Option Text

abbrev pub or_else {ℓ} : {A : Type ℓ} → A → Option A → A
or_else a none = a
or_else a (some b) = b

abbrev pub map_some {ℓ κ} : {A : Type ℓ} {B : Type κ} → (A → B) → Option A → Option B
map_some f none = none
map_some f (some a) = some (f a)

-- The row that `UpdateObservation`, having found one, writes over `o`.
abbrev pub edited :
    Engine → StoreConfig → ℕ → UpdateObservationParams → Observation → Observation → Observation
edited engine cfg now p found o =
    let content = or_else found.content (
      map_some (λ c. truncate_content cfg.max_observation_length (strip_private_tags c))
        p.content) in
    record o {
      type = or_else found.type p.type;
      title = or_else found.title (map_some strip_private_tags p.title);
      content = content;
      project = nullable_string (or_else (or_blank found.project) p.project);
      scope = or_else found.scope (map_some normalize_scope p.scope);
      topic_key =
          nullable_text
            (or_else (or_else [] found.topic_key) (map_some normalize_topic_key p.topic_key));
      normalized_hash = hash_normalized engine.digest content;
      revision_count = o.revision_count + 1;
      updated_at = now;
    }

abbrev pub read_back : ℕ → Db → Db × Result Error Observation
read_back id db = (db, elim (get_observation id db) [ none ↦ err no_rows | some o ↦ ok o ])

unfoldable pub update_observation :
    Engine → StoreConfig → ℕ → ℕ → UpdateObservationParams → Db → Db × Result Error Observation
unfolding get_observation nullable_string
update_observation engine cfg now id p db = elim (get_observation id db) [
  | none ↦ (db, err no_rows)
  | some found ↦ read_back id record db {
    observations =
        update_where (λ o. o.id == id && is_live o) (edited engine cfg now p found) db.observations;
  }
]

abbrev pub bury : ℕ → Observation → Observation
bury now o = record o { deleted_at = some now; updated_at = now }

abbrev pub soft_delete : ℕ → ℕ → Db → Db
soft_delete now id db = record db {
  observations = update_where (λ o. o.id == id && is_live o) (bury now) db.observations;
}

-- The relations of a deleted row go with it: ON DELETE CASCADE.
abbrev pub hard_delete : ℕ → Db → Db
hard_delete id db = record db {
  observations = keep (λ o. not (o.id == id)) db.observations;
  relations = keep (λ r. not (r.from_id == id || r.to_id == id)) db.relations;
}

unfoldable pub delete_observation : ℕ → ℕ → Bool → Db → Db
delete_observation now id hard db = if hard then hard_delete id db else soft_delete now id db

abbrev pub filter_is : String → String → Bool
filter_is wanted value = if wanted == "" then true else value == wanted

unfoldable pub count_observations : String → Text → String → Db → ℕ
unfolding normalize_scope
count_observations project scope namespace db = length (
    keep
      (λ o.
        is_live o
        && (filter_is project (or_blank o.project)
            && ((if is_empty scope then true else o.scope == normalize_scope scope)
                && filter_is namespace (or_blank o.namespace))))
      db.observations)

pub record CompactParams : Type 0 where
  pub ids : List ℕ
  pub summary_title : Text
  pub summary_content : Text
  pub project : String
  pub scope : Text
  pub session_id : String

pub record CompactResult : Type 0 where
  pub deleted_count : ℕ
  pub summary_id : Option ℕ
  pub total_before : ℕ
  pub total_after : ℕ

-- The loop over the identifiers, and the rows that it affected.
unfoldable pub delete_all : ℕ → List ℕ → Db → Db × ℕ
delete_all now [] db = (db, 0)
delete_all now (id ∷ rest) db =
    let affected = length (keep (λ o. o.id == id && is_live o) db.observations) in
    let after = delete_all now rest (soft_delete now id db) in (after.0, affected + after.1)

abbrev pub summary_row : Engine → ℕ → CompactParams → ℕ → String → Observation
summary_row engine now p id session = record {
  id = id;
  session_id = session;
  type = "compaction_summary";
  title = p.summary_title;
  content = p.summary_content;
  tool_name = none;
  project = nullable_string p.project;
  scope = normalize_scope p.scope;
  topic_key = none;
  namespace = none;
  normalized_hash = hash_normalized engine.digest p.summary_content;
  revision_count = 1;
  duplicate_count = 1;
  last_seen_at = some now;
  created_at = now;
  updated_at = now;
  deleted_at = none;
}

abbrev pub summary_session : CompactParams → String
summary_session p = if p.session_id == "" then "manual-save" else p.session_id

abbrev pub add_summary : Engine → ℕ → CompactParams → Db → Result Error (Db × Option ℕ)
add_summary engine now p db =
    if is_empty p.summary_title
    then ok (db, none)
    else if session_exists (summary_session p) db
    then ok (
      record db {
        observations =
            db.observations
            ++ summary_row engine now p db.next_observation (summary_session p) ∷ [];
        next_observation = db.next_observation + 1;
      },
      some db.next_observation,
    )
    else err foreign_key

abbrev pub compacted :
    Db → CompactParams → ℕ → Result Error (Db × Option ℕ) → Db × Result Error CompactResult
compacted db p deleted (err e) = (db, err e)
compacted db p deleted (ok (after, summary)) = (
  after,
  ok record {
    deleted_count = deleted;
    summary_id = summary;
    total_before = count_observations p.project (codes (normalize_scope p.scope)) "" db;
    total_after = count_observations p.project (codes (normalize_scope p.scope)) "" after;
  },
)

unfoldable pub compact_observations :
    Engine → ℕ → CompactParams → Db → Db × Result Error CompactResult
unfolding nullable_string normalize_scope delete_all count_observations
compact_observations engine now p db =
    if length p.ids == 0
    then (db, err no_ids)
    else if ltb 200 (length p.ids)
    then (db, err too_many_ids)
    else if not (is_empty p.summary_content) && is_empty p.summary_title
    then (db, err summary_without_title)
    else let deleted = delete_all now p.ids db in
      compacted db p deleted.1 (add_summary engine now p deleted.0)
