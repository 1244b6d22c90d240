-- ===== src/Memory/Types.antt =====
-- internal/memory/store.go: the rows of the tables, the parameters of the operations and the
-- configuration. A nullable column is an `Option`. `datetime('now')` has whole seconds; a time is a
-- number of seconds. Texts that the code takes apart are byte sequences, those that it only compares
-- are strings.
use sdd_hoffy.Common.{String, ℕ, ◌≡◌, ◌≢◌, List, ◌∷◌, Option, none, some, All}
use sdd_hoffy.Common.Text.{Text}

pub record Session : Type 0 where
  pub id : String
  pub project : String
  pub directory : String
  pub started_at : ℕ
  pub ended_at : Option ℕ
  pub summary : Option String

pub record Observation : Type 0 where
  pub id : ℕ
  pub session_id : String
  pub type : String
  pub title : Text
  pub content : Text
  pub tool_name : Option String
  pub project : Option String
  pub scope : String
  pub topic_key : Option Text
  pub namespace : Option String
  pub normalized_hash : Text
  pub revision_count : ℕ
  pub duplicate_count : ℕ
  pub last_seen_at : Option ℕ
  pub created_at : ℕ
  pub updated_at : ℕ
  pub deleted_at : Option ℕ

pub record Relation : Type 0 where
  pub id : ℕ
  pub from_id : ℕ
  pub to_id : ℕ
  pub type : String
  pub note : Option String
  pub created_at : ℕ

-- The tables, each in the order of its identifiers, with the counters of AUTOINCREMENT.
pub record Db : Type 0 where
  pub sessions : List Session
  pub observations : List Observation
  pub relations : List Relation
  pub next_observation : ℕ
  pub next_relation : ℕ

pub record StoreConfig : Type 0 where
  pub max_observation_length : ℕ
  pub max_context_results : ℕ
  pub max_search_results : ℕ
  pub dedupe_window : ℕ

abbrev pub default_config : StoreConfig
default_config = record {
  max_observation_length = 2000;
  max_context_results = 20;
  max_search_results = 20;
  dedupe_window = 900;
}

pub data Error : Type 0 where
  foreign_key no_rows : Error
  no_ids too_many_ids summary_without_title : Error
  self_relation observation_missing relation_exists reverse_exists relation_missing : Error

-- What the code uses of SHA-256 and of SQLite beyond its statements: the digest of a text, and the
-- rows that `ORDER BY datetime(updated_at) DESC, datetime(created_at) DESC LIMIT 1` and `ORDER BY
-- created_at DESC LIMIT 1` choose, where SQL leaves open which of several equal rows it is.
pub record Engine : Type 0 where
  pub digest : Text → Text
  pub latest : List Observation → Option Observation
  pub newest : List Observation → Option Observation

-- The rows that `latest` and `newest` choose are among those given, and `latest` chooses one if any is
-- given.
pub record IsEngine (engine : Engine) : Type 1 where
  pub latest_among :
      (P : Observation → Type 0) (rows : List Observation) (o : Observation)
      → All P rows
      → engine.latest rows ≡ some o
      → P o
  pub newest_among :
      (P : Observation → Type 0) (rows : List Observation) (o : Observation)
      → All P rows
      → engine.newest rows ≡ some o
      → P o
  pub latest_some : (r : Observation) (rows : List Observation) → engine.latest (r ∷ rows) ≢ none
