-- ===== src/Memory/Search.antt =====
-- internal/memory/store.go: Search, CountSearchResults and their fallbacks to the newest rows,
-- FindStaleObservations and FindByTopicKey. What FTS5 matches and how it ranks, and the order of rows
-- with equal keys, are parameters. The rank itself is left out of the results.
pub mod Found
pub mod Written
pub mod Topic
use sdd_hoffy.Common.{
  String, ℕ, ◌+◌, ◌*◌, ◌<◌, List, [], ◌∷◌, ◌++◌, Option, none, some, Bool, true, ◌&&◌, ◌==◌, nat_eq,
  text_eq, string_eq, ltb, map, length, take, keep, if◌then◌else◌,
}
use sdd_hoffy.Common.Text.{Text, codes, is_empty, trim_left, trim_right}
use sdd_hoffy.Memory.Types.{Observation, Db, StoreConfig, Engine}
use sdd_hoffy.Memory.Text.{fields, join, normalize_scope, normalize_topic_key}
use sdd_hoffy.Memory.Observations.{is_live, or_blank, topic_is}
use sdd_hoffy.Memory.Observations.Edits.{filter_is}

pub record SearchOptions : Type 0 where
  pub type : String
  pub project : String
  pub scope : Text
  pub namespace : String
  pub limit : ℕ

-- `matching` is the rows that FTS5 matches with a query, or `none` where it refuses the query;
-- `by_rank` is `ORDER BY fts.rank`, `latest_first` and `oldest_first` order by the time of creation.
pub record Index : Type 0 where
  pub matching : Text → Option (Observation → Bool)
  pub by_rank : Text → List Observation → List Observation
  pub latest_first : List Observation → List Observation
  pub oldest_first : List Observation → List Observation

abbrev is_quote : ℕ → Bool
is_quote c = c == b'"'

abbrev quoted : Text → Text
quoted word = b'"' ∷ (trim_right is_quote (trim_left is_quote word) ++ (b'"' ∷ []))

-- `sanitizeFTS`
unfoldable pub sanitize_fts : Text → Text
unfolding fields join trim_left trim_right
sanitize_fts query = join (codes " ") (map quoted (fields query))

abbrev pub passes : SearchOptions → Observation → Bool
passes opts o =
    is_live o
    && (filter_is opts.type o.type
        && (filter_is opts.project (or_blank o.project)
            && ((if is_empty opts.scope then true else o.scope == normalize_scope opts.scope)
                && filter_is opts.namespace (or_blank o.namespace))))

-- A limit of 0 or less (0 here) is 10, and a larger one than the configuration's is cut.
abbrev pub search_limit : StoreConfig → ℕ → ℕ
search_limit cfg limit =
    let l = (if limit == 0 then 10 else limit) in
    if ltb cfg.max_search_results l then cfg.max_search_results else l

unfoldable pub search_recent : Index → SearchOptions → ℕ → Db → List Observation
unfolding normalize_scope
search_recent index opts limit db =
    take limit (index.latest_first (keep (passes opts) db.observations))

unfoldable pub count_recent_results : SearchOptions → Db → ℕ
unfolding normalize_scope
count_recent_results opts db = length (keep (passes opts) db.observations)

unfoldable pub search : Index → StoreConfig → Text → SearchOptions → Db → Option (List Observation)
unfolding search_recent sanitize_fts normalize_scope
search index cfg query opts db =
    let limit = search_limit cfg opts.limit in
    let fts_query = sanitize_fts query in
    if is_empty fts_query
    then some (search_recent index opts limit db)
    else elim (index.matching fts_query) [
      | none ↦ none
      | some hit ↦ some (
          take limit (index.by_rank fts_query (keep (λ o. hit o && passes opts o) db.observations)))
    ]

unfoldable pub count_search_results : Index → Text → SearchOptions → Db → Option ℕ
unfolding count_recent_results sanitize_fts normalize_scope
count_search_results index query opts db =
    let fts_query = sanitize_fts query in
    if is_empty fts_query
    then some (count_recent_results opts db)
    else elim (index.matching fts_query) [
      | none ↦ none
      | some hit ↦ some (length (keep (λ o. hit o && passes opts o) db.observations))
    ]

abbrev day : ℕ
day = 86400

abbrev pub stale_limit : ℕ → ℕ
stale_limit limit = let l = (if limit == 0 then 50 else limit) in if ltb 200 l then 200 else l

-- The age is a number of days above 0; the code refuses any other.
unfoldable pub find_stale_observations :
    Index → ℕ → String → Text → String → ℕ → ℕ → Db → Option (List Observation)
unfolding normalize_scope
find_stale_observations index now project scope namespace older_than_days limit db =
    if older_than_days == 0
    then none
    else some (
        take (stale_limit limit) (
          index.oldest_first (
            keep
              (λ o.
                is_live o
                && (ltb (o.created_at + older_than_days * day) now
                    && (filter_is project (or_blank o.project)
                        && ((if is_empty scope then true else o.scope == normalize_scope scope)
                            && filter_is namespace (or_blank o.namespace)))))
              db.observations)))

-- The namespace of a row plays no part here.
abbrev pub topic_row : Text → String → String → Observation → Bool
topic_row key project scope o =
    topic_is key o.topic_key && (or_blank o.project == project && (o.scope == scope && is_live o))

unfoldable pub find_by_topic_key : Engine → Text → String → Text → Db → Option Observation
unfolding normalize_scope normalize_topic_key
find_by_topic_key engine topic_key project scope db =
    if is_empty topic_key
    then none
    else engine.latest (
        keep (topic_row (normalize_topic_key topic_key) project (normalize_scope scope))
          db.observations)
