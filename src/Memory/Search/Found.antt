-- ===== src/Memory/Search/Found.antt =====
-- internal/memory/store.go: what Search finds, with and without a query.
use mathlib.Core.List.{Memᴰ}
use sdd_hoffy.Common.{
  ℕ, ◌≤◌, ◌≢◌, ◌≡◌, if◌then◌else◌, refl, ap, ◌∙◌, List, Option, none, some, Bool, true, false, ◌&&◌,
  nat_eq, string_eq, min, length, take, keep, All, All-take, arith, inl, inr, Option-cases,
  Bool-cases,
}
use sdd_hoffy.Common.Text.{Text, is_empty}
use sdd_hoffy.Common.Rows.{length-take, kept_from}
use sdd_hoffy.Memory.Types.{Observation, Db, StoreConfig}
use sdd_hoffy.Memory.Search.{
  SearchOptions, Index, sanitize_fts, passes, search_limit, search_recent, count_recent_results,
  search, count_search_results,
}

-- An order only moves rows.
pub record IsOrdering (order : List Observation → List Observation) : Type 1 where
  pub same_rows :
      (P : Observation → Type 0) (rows : List Observation) → All P rows → All P (order rows)
  pub same_length : (rows : List Observation) → length (order rows) ≡ length rows

pub record IsIndex (index : Index) : Type 1 where
  pub ranked : (query : Text) → IsOrdering (index.by_rank query)
  pub latest : IsOrdering index.latest_first

abbrev pub hit_by : Option (Observation → Bool) → Observation → Bool
hit_by none o = false
hit_by (some hit) o = hit o

-- The rows that a query selects: all of them where it has no word.
abbrev pub hits : Index → Text → Observation → Bool
hits index fts_query o = if is_empty fts_query then true else hit_by (index.matching fts_query) o

-- Rows of the table that the query selects, live and within the filters of the request, as many as
-- there are up to the limit.
pub record IsFound (index : Index) (cfg : StoreConfig) (query : Text) (opts : SearchOptions)
    (rows found : List Observation) (total : ℕ) : Type 0 where
  pub from_table :
      All (λ o. Memᴰ o rows × ((hits index (sanitize_fts query) o && passes opts o) ≡ true)) found
  pub as_many : length found ≡ min (search_limit cfg opts.limit) total
  pub bounded : length found ≤ cfg.max_search_results

module _ (index : Index) (cfg : StoreConfig) (query : Text) (opts : SearchOptions) where
  take-IsFound :
      (order : List Observation → List Observation) (p : Observation → Bool)
      (rows : List Observation)
      → IsOrdering order
      → ((o : Observation)
          → p o ≡ true
          → (hits index (sanitize_fts query) o && passes opts o) ≡ true)
      → IsFound index cfg query opts rows
          (take (search_limit cfg opts.limit) (order (keep p rows)))
          (length (keep p rows))
  take-IsFound order p rows lawful passing =
      let limit = search_limit cfg opts.limit in
      let selected = λ (o : Observation).
        Memᴰ o rows × ((hits index (sanitize_fts query) o && passes opts o) ≡ true) in
      let many =
        length-take limit (order (keep p rows))
        ∙ ap (min limit) (lawful.same_length (keep p rows)) in
      record {
        from_table = All-take selected limit (order (keep p rows)) (
            lawful.same_rows selected (keep p rows) (
              kept_from p (λ o. (hits index (sanitize_fts query) o && passes opts o) ≡ true) rows
                passing));
        as_many = many;
        bounded = ground (arith, many);
      }

  -- What Search and CountSearchResults answer together.
  abbrev pub Answers : Db → Type 0
  Answers db =
      (found : List Observation) × (total : ℕ) × (search index cfg query opts db ≡ some found)
      × (count_search_results index query opts db ≡ some total)
      × IsFound index cfg query opts db.observations found total

  without_words : (db : Db) → IsIndex index → is_empty (sanitize_fts query) ≡ true → Answers db
  unfolding search count_search_results search_recent count_recent_results
  without_words db lawful blank = (
    _,
    _,
    rw blank refl,
    rw blank refl,
    take-IsFound index.latest_first (passes opts) db.observations lawful.latest (λ o h. rw blank h),
  )

  with_words :
      (db : Db) (hit : Observation → Bool)
      → IsIndex index
      → is_empty (sanitize_fts query) ≡ false
      → index.matching (sanitize_fts query) ≡ some hit
      → Answers db
  unfolding search count_search_results
  with_words db hit lawful words matched = (
    _,
    _,
    rw (words, matched) refl,
    rw (words, matched) refl,
    take-IsFound (index.by_rank (sanitize_fts query)) (λ o. hit o && passes opts o) db.observations
        (lawful.ranked (sanitize_fts query)) (λ o h. rw (words, matched) h),
  )

  -- Search answers every query that FTS5 accepts, and a query without words in any case, with rows of
  -- the table that the query selects, that are live and that pass the filters of the request; there
  -- are as many of them as CountSearchResults counts, up to the limit that the request and the
  -- configuration set, and never more than the configuration allows. Orders only move rows.
  pub search-Answers :
      (db : Db)
      → IsIndex index
      → (is_empty (sanitize_fts query) ≡ false → index.matching (sanitize_fts query) ≢ none)
      → Answers db
  search-Answers db lawful accepted = elim (Bool-cases (is_empty (sanitize_fts query))) [
    | inl blank ↦ without_words db lawful blank
    | inr words ↦ elim (Option-cases (index.matching (sanitize_fts query))) [
      | inl refused ↦ absurd (accepted words refused)
      | inr (hit, matched) ↦ with_words db hit lawful words matched
    ]
  ]
