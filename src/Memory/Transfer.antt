-- ===== src/Memory/Transfer.antt =====
-- internal/memory/store.go: Export and Import of the whole memory. The table of prompts stands beside the
-- others here. The order of sessions that start at the same time is a parameter.
use sdd_hoffy.Common.{
  ℕ, zero, suc, ◌+◌, max, String, List, [], ◌∷◌, ◌++◌, Option, none, some, Bool, true, false, ◌==◌,
  string_eq, any, if◌then◌else◌,
}
use sdd_hoffy.Common.Result.{Result, ok, err}
use sdd_hoffy.Common.Text.{Text, codes}
use sdd_hoffy.Memory.Types.{Session, Observation, Db, Engine, Error, foreign_key}
use sdd_hoffy.Memory.Text.{normalize_scope, normalize_topic_key, nullable_text, hash_normalized}
use sdd_hoffy.Memory.Observations.{session_exists}
use sdd_hoffy.Memory.Recent.{Prompt}
pub mod RoundTrip
pub mod Restored

pub record Store : Type 0 where
  pub db : Db
  pub prompts : List Prompt
  pub next_prompt : ℕ

-- Without the version and the time of the export.
pub record ExportData : Type 0 where
  pub sessions : List Session
  pub observations : List Observation
  pub prompts : List Prompt

pub record ImportResult : Type 0 where
  pub sessions_imported : ℕ
  pub observations_imported : ℕ
  pub prompts_imported : ℕ

-- What Export reads of the prompts: all columns but the namespace.
unfoldable pub exported_prompts : List Prompt → List Prompt
exported_prompts [] = []
exported_prompts (p ∷ ps) = record p { namespace = none } ∷ exported_prompts ps

unfoldable pub export : (List Session → List Session) → Store → ExportData
unfolding exported_prompts
export by_start st = record {
  sessions = by_start st.db.sessions;
  observations = st.db.observations;
  prompts = exported_prompts st.prompts;
}

-- `INSERT OR IGNORE INTO sessions`
unfoldable pub import_sessions : List Session → ℕ → Db → Db × ℕ
import_sessions [] count db = (db, count)
import_sessions (s ∷ ss) count db =
    let skipped = import_sessions ss count db in
    let added = import_sessions ss (suc count) (record db { sessions = db.sessions ++ (s ∷ []) }) in
    if session_exists s.id db then skipped else added

abbrev pub or_blank_text : Option Text → Text
or_blank_text none = []
or_blank_text (some s) = s

-- The row of an observation that is imported: with a new identifier, and without a namespace.
abbrev pub imported_row : Engine → ℕ → Observation → Observation
imported_row engine id o = record o {
  id = id;
  scope = normalize_scope (codes o.scope);
  topic_key = nullable_text (normalize_topic_key (or_blank_text o.topic_key));
  namespace = none;
  normalized_hash = hash_normalized engine.digest o.content;
  revision_count = max o.revision_count 1;
  duplicate_count = max o.duplicate_count 1;
}

unfoldable pub import_observations : Engine → List Observation → ℕ → Db → Db × Result Error ℕ
unfolding normalize_scope normalize_topic_key hash_normalized
import_observations engine [] count db = (db, ok count)
import_observations engine (o ∷ os) count db =
    let added = import_observations engine os (suc count) (record db {
      observations = db.observations ++ (imported_row engine db.next_observation o ∷ []);
      next_observation = db.next_observation + 1;
    }) in
    if session_exists o.session_id db then added else (db, err foreign_key)

-- The row of a prompt is inserted without a namespace.
unfoldable pub import_prompts : List Prompt → ℕ → Store → Store × Result Error ℕ
import_prompts [] count st = (st, ok count)
import_prompts (p ∷ ps) count st =
    let added = import_prompts ps (suc count) (record st {
      prompts = st.prompts ++ (record p { id = st.next_prompt; namespace = none } ∷ []);
      next_prompt = st.next_prompt + 1;
    }) in
    if session_exists p.session_id st.db then added else (st, err foreign_key)

-- The transaction is committed, or rolled back to `old`.
abbrev pub committed : Store → ℕ → ℕ → Store × Result Error ℕ → Store × Result Error ImportResult
committed old sessions observations (st, err e) = (old, err e)
committed old sessions observations (st, ok prompts) = (
  st,
  ok record {
    sessions_imported = sessions;
    observations_imported = observations;
    prompts_imported = prompts;
  },
)

abbrev pub then_prompts :
    List Prompt → Store → ℕ → Db × Result Error ℕ → Store × Result Error ImportResult
then_prompts prompts old sessions (db, err e) = (old, err e)
then_prompts prompts old sessions (db, ok observations) =
    committed old sessions observations (import_prompts prompts 0 (record old { db = db }))

abbrev pub then_observations :
    Engine → ExportData → Store → Db × ℕ → Store × Result Error ImportResult
then_observations engine exported old (db, sessions) =
    then_prompts exported.prompts old sessions
      (import_observations engine exported.observations 0 db)

unfoldable pub import : Engine → ExportData → Store → Store × Result Error ImportResult
unfolding import_sessions import_observations import_prompts
import engine exported st =
    then_observations engine exported st (import_sessions exported.sessions 0 st.db)
