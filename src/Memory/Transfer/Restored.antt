-- ===== src/Memory/Transfer/Restored.antt =====
-- internal/memory/store.go: Export and Import as a round trip.
use sdd_hoffy.Common.{
  ℕ, ◌+◌, ◌≤◌, ◌≡◌, refl, max, String, List, [], ◌∷◌, none, Bool, true, false, ◌==◌, string_eq, any,
  length, All, arith,
}
use sdd_hoffy.Common.Result.{ok}
use sdd_hoffy.Common.Text.{codes}
use sdd_hoffy.Memory.Types.{Session, Observation, Db, Engine}
use sdd_hoffy.Memory.Text.{normalize_scope, normalize_topic_key, nullable_text, hash_normalized}
use sdd_hoffy.Memory.Transfer.{Store, export, exported_prompts, imported_row, import, or_blank_text}
use sdd_hoffy.Memory.Transfer.RoundTrip.{
  DistinctIds, import_sessions-Fresh, import_observations-renumbered, import_prompts-renumbered,
  renumbered, renumbered_prompts, renumbered-exported, length-exported, exported_sessions,
}

-- What `ORDER BY` does to sessions: none is lost, and none is doubled.
pub record IsSessionOrder (by_start : List Session → List Session) : Type 0 where
  pub no_loss :
      (p : Session → Bool) (rows : List Session) → any p rows ≡ true → any p (by_start rows) ≡ true
  pub distinct : (rows : List Session) → DistinctIds rows → DistinctIds (by_start rows)

-- A row as AddObservation writes it: its scope, its topic and its hash are normalized, and the counts are
-- positive.
pub record IsNormal (engine : Engine) (o : Observation) : Type 0 where
  pub scope : normalize_scope (codes o.scope) ≡ o.scope
  pub topic : nullable_text (normalize_topic_key (or_blank_text o.topic_key)) ≡ o.topic_key
  pub hash : hash_normalized engine.digest o.content ≡ o.normalized_hash
  pub revisions : 1 ≤ o.revision_count
  pub duplicates : 1 ≤ o.duplicate_count

-- The same rows with new identifiers from `id` on, and without their namespaces.
abbrev pub restored : ℕ → List Observation → List Observation
restored id [] = []
restored id (o ∷ os) = record o { id = id; namespace = none } ∷ restored (id + 1) os

imported_row-IsNormal :
    (engine : Engine) (id : ℕ) (o : Observation)
    → IsNormal engine o
    → imported_row engine id o ≡ record o { id = id; namespace = none }
imported_row-IsNormal engine id o n =
    let revisions : max o.revision_count 1 ≡ o.revision_count = omega (arith, n.revisions) in
    let duplicates : max o.duplicate_count 1 ≡ o.duplicate_count = omega (arith, n.duplicates) in
    rw (n.scope, n.topic, n.hash, revisions, duplicates) refl

renumbered-IsNormal :
    (engine : Engine) (id : ℕ) (os : List Observation)
    → All (IsNormal engine) os
    → renumbered engine id os ≡ restored id os
renumbered-IsNormal engine id [] h = refl
renumbered-IsNormal engine id (o ∷ os) h =
    rw (imported_row-IsNormal engine id o h.0, renumbered-IsNormal engine (id + 1) os h.1) refl

abbrev pub no_rows : Store
no_rows = record {
  db = record {
    sessions = [];
    observations = [];
    relations = [];
    next_observation = 1;
    next_relation = 1;
  };
  prompts = [];
  next_prompt = 1;
}

still_there :
    (by_start : List Session → List Session) (sessions : List Session) {A : Type 0}
    (of : A → String) (rows : List A)
    → IsSessionOrder by_start
    → All (λ a. any (λ s. s.id == of a) sessions ≡ true) rows
    → All (λ a. any (λ s. s.id == of a) (by_start sessions) ≡ true) rows
still_there by_start sessions of [] lawful h = tt
still_there by_start sessions of (a ∷ rows) lawful h = (
  lawful.no_loss (λ s. s.id == of a) sessions h.0,
  still_there by_start sessions of rows lawful h.1,
)

-- Export and then Import into an empty memory give back every session, observation and prompt, deleted
-- ones included: the sessions as they are, the observations and the prompts with new identifiers in the
-- same order, and both without their namespaces. Relations are lost. The conditions: no two
-- sessions share an identifier, every observation and prompt has its session, and the observations are
-- as AddObservation writes them.
pub import-export :
    (engine : Engine) (by_start : List Session → List Session) (st : Store)
    → IsSessionOrder by_start
    → DistinctIds st.db.sessions
    → All (IsNormal engine) st.db.observations
    → All (λ o. any (λ s. s.id == o.session_id) st.db.sessions ≡ true) st.db.observations
    → All (λ p. any (λ s. s.id == p.session_id) st.db.sessions ≡ true) st.prompts
    → import engine (export by_start st) no_rows ≡ (
      record {
        db = record {
          sessions = by_start st.db.sessions;
          observations = restored 1 st.db.observations;
          relations = [];
          next_observation = 1 + length st.db.observations;
          next_relation = 1;
        };
        prompts = renumbered_prompts 1 st.prompts;
        next_prompt = 1 + length st.prompts;
      },
      ok record {
        sessions_imported = length (by_start st.db.sessions);
        observations_imported = length st.db.observations;
        prompts_imported = length st.prompts;
      },
    )
unfolding import export
import-export engine by_start st lawful distinct normal observations prompts =
    let sessions = by_start st.db.sessions in
    let with_sessions : Db = record no_rows.db { sessions = sessions } in
    let fresh =
      import_sessions-Fresh sessions 0 no_rows.db (all_fresh sessions)
        (lawful.distinct st.db.sessions distinct) in
    let rows = import_observations-renumbered engine st.db.observations 0 with_sessions (
      still_there by_start st.db.sessions (λ o. o.session_id) st.db.observations lawful
        observations) in
    let with_rows : Db = record with_sessions {
      observations = renumbered engine 1 st.db.observations;
      next_observation = 1 + length st.db.observations;
    } in
    let asked =
      import_prompts-renumbered (exported_prompts st.prompts) 0 (record no_rows { db = with_rows })
        (exported_sessions (λ i. any (λ s. s.id == i) sessions) st.prompts
          (still_there by_start st.db.sessions (λ p. p.session_id) st.prompts lawful prompts)) in
    let none_before : 0 + length sessions ≡ length sessions = omega arith in
    let no_row_before : 0 + length st.db.observations ≡ length st.db.observations = omega arith in
    let no_prompt_before : 0 + length st.prompts ≡ length st.prompts = omega arith in
    let same_rows = renumbered-IsNormal engine 1 st.db.observations normal in
    rw
      (
        fresh,
        rows,
        asked,
        same_rows,
        renumbered-exported 1 st.prompts,
        length-exported st.prompts,
        none_before,
        no_row_before,
        no_prompt_before,
      )
      refl
  where
    all_fresh : (ss : List Session) → All (λ s. any (λ (t : Session). t.id == s.id) [] ≡ false) ss
    all_fresh [] = tt
    all_fresh (s ∷ ss) = (refl, all_fresh ss)
