-- ===== src/Memory/Recent.antt =====
-- internal/memory/store.go: the reads of the newest rows (RecentSessions, RecentObservations,
-- RecentPrompts). The order that `ORDER BY` gives to rows, and the text of a time, are parameters.
use sdd_hoffy.Common.{
  ℕ, String, List, Option, true, ◌&&◌, ◌==◌, nat_eq, string_eq, map, keep, length, take,
  if◌then◌else◌,
}
use sdd_hoffy.Common.Text.{Text, is_empty}
use sdd_hoffy.Memory.Types.{Session, Observation, Db, StoreConfig}
use sdd_hoffy.Memory.Text.{normalize_scope}
use sdd_hoffy.Memory.Observations.{or_blank, is_live}
use sdd_hoffy.Memory.Observations.Edits.{filter_is}

pub record SessionSummary : Type 0 where
  pub id : String
  pub project : String
  pub started_at : ℕ
  pub ended_at : Option ℕ
  pub summary : Option String
  pub observation_count : ℕ

-- A row of the table of prompts, whose namespace no statement reads.
pub record Prompt : Type 0 where
  pub id : ℕ
  pub session_id : String
  pub content : Text
  pub project : String
  pub namespace : Option String
  pub created_at : ℕ

pub record Ordering : Type 0 where
  pub observations : List Observation → List Observation
  pub sessions : List Session → List Session
  pub prompts : List Prompt → List Prompt
  pub time : ℕ → Text

abbrev limit_or : ℕ → ℕ → ℕ
limit_or default limit = if limit == 0 then default else limit

unfoldable pub recent_observations :
    Ordering → StoreConfig → String → Text → String → ℕ → Db → List Observation
unfolding normalize_scope
recent_observations order cfg project scope namespace limit db =
    take (limit_or cfg.max_context_results limit) (
      order.observations (
        keep
          (λ o.
            is_live o
            && (filter_is project (or_blank o.project)
                && ((if is_empty scope then true else o.scope == normalize_scope scope)
                    && filter_is namespace (or_blank o.namespace))))
          db.observations))

abbrev summarised : Db → Session → SessionSummary
summarised db s = record {
  id = s.id;
  project = s.project;
  started_at = s.started_at;
  ended_at = s.ended_at;
  summary = s.summary;
  observation_count = length (keep (λ o. o.session_id == s.id && is_live o) db.observations);
}

unfoldable pub recent_sessions : Ordering → String → ℕ → Db → List SessionSummary
recent_sessions order project limit db =
    map (summarised db) (
      take (limit_or 5 limit)
        (order.sessions (keep (λ s. filter_is project s.project) db.sessions)))

-- The rows of `user_prompts` are an argument; a missing project reads as "".
unfoldable pub recent_prompts : Ordering → String → ℕ → List Prompt → List Prompt
recent_prompts order project limit rows =
    take (limit_or 20 limit) (order.prompts (keep (λ p. filter_is project p.project) rows))
