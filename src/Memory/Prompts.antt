-- ===== src/Memory/Prompts.antt =====
-- internal/memory/store.go: AddPrompt, SearchPrompts and Stats. The namespace of a prompt is written
-- to the table, but no statement reads it.
use sdd_hoffy.Common.{
  String, ℕ, ◌+◌, List, [], ◌∷◌, ◌++◌, Option, none, some, Bool, not, ◌&&◌, ◌==◌, nat_eq, string_eq,
  length, take, keep, any, if◌then◌else◌,
}
use sdd_hoffy.Common.Result.{Result, ok, err}
use sdd_hoffy.Common.Text.{Text}
use sdd_hoffy.Memory.Types.{Observation, StoreConfig, Error, foreign_key}
use sdd_hoffy.Memory.Text.{truncate_content, nullable_string}
use sdd_hoffy.Memory.Text.Private.{strip_private_tags}
use sdd_hoffy.Memory.Observations.{session_exists, is_live}
use sdd_hoffy.Memory.Observations.Edits.{filter_is}
use sdd_hoffy.Memory.Recent.{Prompt}
use sdd_hoffy.Memory.Search.{sanitize_fts}
use sdd_hoffy.Memory.Transfer.{Store}

pub record AddPromptParams : Type 0 where
  pub session_id : String
  pub content : Text
  pub project : String
  pub namespace : String

unfoldable pub add_prompt : StoreConfig → ℕ → AddPromptParams → Store → Store × Result Error ℕ
add_prompt cfg now p st =
    if session_exists p.session_id st.db
    then (
      record st {
        prompts =
            st.prompts
            ++ record {
              id = st.next_prompt;
              session_id = p.session_id;
              content = truncate_content cfg.max_observation_length (strip_private_tags p.content);
              project = p.project;
              namespace = nullable_string p.namespace;
              created_at = now;
            }
              ∷ [];
        next_prompt = st.next_prompt + 1;
      },
      ok st.next_prompt,
    )
    else (st, err foreign_key)

-- The rows that FTS5 matches (`none` where it refuses the query), and `ORDER BY fts.rank`.
pub record PromptIndex : Type 0 where
  pub matching : Text → Option (Prompt → Bool)
  pub by_rank : Text → List Prompt → List Prompt

unfoldable pub search_prompts : PromptIndex → Text → String → ℕ → List Prompt → Option (List Prompt)
unfolding sanitize_fts
search_prompts index query project limit rows =
    let fts_query = sanitize_fts query in
    elim (index.matching fts_query) [
      | none ↦ none
      | some hit ↦ some (
          take (if limit == 0 then 10 else limit)
            (index.by_rank fts_query (keep (λ p. hit p && filter_is project p.project) rows)))
    ]

pub record Stats : Type 0 where
  pub total_sessions : ℕ
  pub total_observations : ℕ
  pub total_prompts : ℕ
  pub projects : List String

-- `GROUP BY project`: each project of a live row once.
unfoldable pub live_projects : List Observation → List String
live_projects [] = []
live_projects (o ∷ rows) =
    let rest = live_projects rows in
    elim o.project [
      | none ↦ rest
      | some project ↦
          if is_live o && not (any (λ p. p == project) rest) then project ∷ rest else rest
    ]

-- The order of the groups is an argument.
unfoldable pub stats : (List String → List String) → Store → Stats
unfolding live_projects
stats latest_first st = record {
  total_sessions = length st.db.sessions;
  total_observations = length (keep is_live st.db.observations);
  total_prompts = length st.prompts;
  projects = latest_first (live_projects st.db.observations);
}
