-- ===== src/Memory/Observations.antt =====
-- internal/memory/store.go: sessions and observations. The operations return the database that they
-- leave beside their result; a constraint of the schema that fails is an error and leaves the
-- database as it was. SQLite is taken to fail in no other way.
pub mod Kept
pub mod Topics
pub mod Upsert
pub mod Revised
pub mod Edits
pub mod Compaction
pub mod Compacted
pub mod Sessions
use sdd_hoffy.Common.{
  String, ℕ, zero, suc, ◌+◌, ◌*◌, ◌≤◌, List, [], ◌∷◌, ◌++◌, Option, none, some, Bool, true, false,
  not, ◌&&◌, ◌||◌, ◌==◌, nat_eq, text_eq, string_eq, leb, ltb, length, take, keep, find, any,
  update_where, if◌then◌else◌,
}
use sdd_hoffy.Common.Result.{Result, ok, err}
use sdd_hoffy.Common.Text.{Text, is_empty}
use sdd_hoffy.Memory.Types.{
  Session, Observation, Db, StoreConfig, Engine, Error, foreign_key, no_rows,
}
use sdd_hoffy.Memory.Text.{
  nullable_string, nullable_text, truncate_content, normalize_scope, normalize_topic_key,
  hash_normalized, dedupe_seconds,
}
use sdd_hoffy.Memory.Text.Private.{strip_private_tags}

-- `INSERT OR IGNORE`
unfoldable pub create_session : ℕ → String → String → String → Db → Db
create_session now id project directory db =
    if any (λ s. s.id == id) db.sessions then db else record db {
      sessions =
          db.sessions
          ++ record {
            id = id;
            project = project;
            directory = directory;
            started_at = now;
            ended_at = none;
            summary = none;
          }
            ∷ [];
    }

unfoldable pub end_session : ℕ → String → String → Db → Db
unfolding nullable_string
end_session now id summary db = record db {
  sessions =
      update_where (λ s. s.id == id)
        (λ s. record s { ended_at = some now; summary = nullable_string summary }) db.sessions;
}

unfoldable pub get_session : String → Db → Option Session
get_session id db = find (λ s. s.id == id) db.sessions

abbrev pub is_live : Observation → Bool
is_live o = elim o.deleted_at [ none ↦ true | some t ↦ false ]

-- `ifnull(column, '')`
abbrev pub or_blank : Option String → String
or_blank none = ""
or_blank (some s) = s

abbrev pub topic_is : Text → Option Text → Bool
topic_is key none = false
topic_is key (some k) = k == key

pub record AddObservationParams : Type 0 where
  pub session_id : String
  pub type : String
  pub title : Text
  pub content : Text
  pub tool_name : String
  pub project : String
  pub scope : Text
  pub topic_key : Text
  pub namespace : String

-- What `AddObservation` computes from its parameters before it asks the database.
pub record Entry : Type 0 where
  pub session_id : String
  pub type : String
  pub title : Text
  pub content : Text
  pub tool_name : Option String
  pub project : Option String
  pub scope : String
  pub topic_key : Text
  pub namespace : Option String
  pub hash : Text

unfoldable pub prepare : Engine → StoreConfig → AddObservationParams → Entry
unfolding nullable_string
prepare engine cfg p =
    let content = truncate_content cfg.max_observation_length (strip_private_tags p.content) in
    record {
      session_id = p.session_id;
      type = p.type;
      title = strip_private_tags p.title;
      content = content;
      tool_name = nullable_string p.tool_name;
      project = nullable_string p.project;
      scope = normalize_scope p.scope;
      topic_key = normalize_topic_key p.topic_key;
      namespace = nullable_string p.namespace;
      hash = hash_normalized engine.digest content;
    }

-- `AND namespace = ?`, or `AND namespace IS NULL` without one: NULL equals only NULL here.
abbrev pub namespace_is : Option String → Option String → Bool
namespace_is none none = true
namespace_is (some a) (some b) = a == b
namespace_is none (some b) = false
namespace_is (some a) none = false

-- The rows with one topic key in one project, scope and namespace.
abbrev pub same_topic : Entry → Observation → Bool
same_topic e o =
    topic_is e.topic_key o.topic_key
    && (or_blank o.project == or_blank e.project
        && (o.scope == e.scope && (is_live o && namespace_is e.namespace o.namespace)))

abbrev pub duplicate_of : ℕ → ℕ → Entry → Observation → Bool
duplicate_of now window e o =
    o.normalized_hash == e.hash
    && (or_blank o.project == or_blank e.project
        && (o.scope == e.scope
            && (o.type == e.type
                && (o.title == e.title
                    && (is_live o
                        && (leb now (o.created_at + dedupe_seconds window)
                            && namespace_is e.namespace o.namespace))))))

abbrev pub revise : ℕ → Entry → Observation → Observation
revise now e o = record o {
  type = e.type;
  title = e.title;
  content = e.content;
  tool_name = e.tool_name;
  topic_key = nullable_text e.topic_key;
  normalized_hash = e.hash;
  revision_count = o.revision_count + 1;
  last_seen_at = some now;
  updated_at = now;
}

abbrev pub count_duplicate : ℕ → Observation → Observation
count_duplicate now o = record o {
  duplicate_count = o.duplicate_count + 1;
  last_seen_at = some now;
  updated_at = now;
}

abbrev pub new_row : ℕ → Entry → ℕ → Observation
new_row now e id = record {
  id = id;
  session_id = e.session_id;
  type = e.type;
  title = e.title;
  content = e.content;
  tool_name = e.tool_name;
  project = e.project;
  scope = e.scope;
  topic_key = nullable_text e.topic_key;
  namespace = e.namespace;
  normalized_hash = e.hash;
  revision_count = 1;
  duplicate_count = 1;
  last_seen_at = some now;
  created_at = now;
  updated_at = now;
  deleted_at = none;
}

abbrev pub update_row : ℕ → (Observation → Observation) → Db → Db
update_row id f db = record db { observations = update_where (λ o. o.id == id) f db.observations }

abbrev pub session_exists : String → Db → Bool
session_exists id db = any (λ s. s.id == id) db.sessions

-- `INSERT INTO observations`: the session is a foreign key.
unfoldable pub insert_row : ℕ → Entry → Db → Db × Result Error ℕ
insert_row now e db =
    if session_exists e.session_id db
    then (
      record db {
        observations = db.observations ++ new_row now e db.next_observation ∷ [];
        next_observation = db.next_observation + 1;
      },
      ok db.next_observation,
    )
    else (db, err foreign_key)

abbrev pub dedupe_or_insert : ℕ → Entry → Option Observation → Db → Db × Result Error ℕ
dedupe_or_insert now e none db = insert_row now e db
dedupe_or_insert now e (some o) db = (update_row o.id (count_duplicate now) db, ok o.id)

abbrev pub upsert_or :
    ℕ → Entry → Option Observation → Db → Db × Result Error ℕ → Db × Result Error ℕ
upsert_or now e none db other = other
upsert_or now e (some o) db other = (update_row o.id (revise now e) db, ok o.id)

-- Without a topic key there is no upsert.
abbrev pub topic_match : Engine → Entry → Db → Option Observation
topic_match engine e db =
    if is_empty e.topic_key then none else engine.latest (keep (same_topic e) db.observations)

unfoldable pub add_entry : Engine → StoreConfig → ℕ → Entry → Db → Db × Result Error ℕ
unfolding insert_row
add_entry engine cfg now e db = upsert_or now e (topic_match engine e db) db (
    dedupe_or_insert now e
      (engine.newest (keep (duplicate_of now cfg.dedupe_window e) db.observations)) db)

unfoldable pub add_observation :
    Engine → StoreConfig → ℕ → AddObservationParams → Db → Db × Result Error ℕ
unfolding add_entry
add_observation engine cfg now p db = add_entry engine cfg now (prepare engine cfg p) db

-- Reads see live rows only.
unfoldable pub get_observation : ℕ → Db → Option Observation
get_observation id db = find (λ o. o.id == id && is_live o) db.observations
