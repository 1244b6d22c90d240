-- ===== src/Memory/Timeline.antt =====
-- internal/memory/store.go: Timeline, the live rows of one session around an observation.
use mathlib.Core.List.{reverse}
use sdd_hoffy.Common.{
  ℕ, List, Option, none, some, Bool, ◌&&◌, ◌==◌, nat_eq, string_eq, leb, ltb, length, take, keep,
  if◌then◌else◌,
}
use sdd_hoffy.Common.Result.{Result, ok, err}
use sdd_hoffy.Common.Sorting.{sort_by}
use sdd_hoffy.Memory.Types.{Session, Observation, Db, Error, no_rows}
use sdd_hoffy.Memory.Observations.{is_live, get_observation, get_session}
pub mod Around

pub record TimelineResult : Type 0 where
  pub focus : Observation
  pub before : List Observation
  pub after : List Observation
  pub session_info : Option Session
  pub total_in_range : ℕ

-- A limit of 0 or less is replaced; a negative one is 0 here.
abbrev pub or_five : ℕ → ℕ
or_five limit = if limit == 0 then 5 else limit

-- `ORDER BY id ASC` and `ORDER BY id DESC`
abbrev pub older : Observation → Observation → Bool
older o r = leb o.id r.id

abbrev pub newer : Observation → Observation → Bool
newer o r = leb r.id o.id

abbrev pub in_session : Observation → Observation → Bool
in_session focus o = o.session_id == focus.session_id && is_live o

unfoldable pub before_entries : Observation → ℕ → ℕ → List Observation → List Observation
unfolding sort_by
before_entries focus id limit rows =
    reverse (take limit (sort_by newer (keep (λ o. in_session focus o && ltb o.id id) rows)))

unfoldable pub after_entries : Observation → ℕ → ℕ → List Observation → List Observation
unfolding sort_by
after_entries focus id limit rows =
    take limit (sort_by older (keep (λ o. in_session focus o && ltb id o.id) rows))

abbrev pub around : ℕ → ℕ → ℕ → Db → Observation → TimelineResult
around id before after db focus = record {
  focus = focus;
  before = before_entries focus id (or_five before) db.observations;
  after = after_entries focus id (or_five after) db.observations;
  session_info = get_session focus.session_id db;
  total_in_range = length (keep (in_session focus) db.observations);
}

unfoldable pub timeline : ℕ → ℕ → ℕ → Db → Result Error TimelineResult
unfolding before_entries after_entries get_session
timeline id before after db = elim (get_observation id db) [
  | none ↦ err no_rows
  | some focus ↦ ok (around id before after db focus)
]
