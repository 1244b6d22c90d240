-- ===== src/Memory/Timeline/Around.antt =====
-- internal/memory/store.go: what Timeline shows of a session.
use sdd_hoffy.Common.{
  ℕ, ◌≤◌, ◌+◌, ◌≡◌, ◌≢◌, refl, List, [], ◌∷◌, none, some, ◌&&◌, ◌==◌, nat_eq, string_eq, ==_iff,
  ltb, length, keep, arith, inl, inr, Option-cases,
}
use sdd_hoffy.Common.Result.{ok}
use sdd_hoffy.Common.Rows.{find-Memᴰ, keep-some}
use sdd_hoffy.Common.Limits.{IsLimited, sort_by-IsLimited, reverse-IsLimited}
use sdd_hoffy.Memory.Types.{Observation, Db}
use sdd_hoffy.Memory.Observations.{is_live, get_observation, get_session}
use sdd_hoffy.Memory.Timeline.{
  TimelineResult, or_five, older, newer, in_session, before_entries, after_entries, around,
  timeline,
}

pub record IsTimeline (id before after : ℕ) (db : Db) (r : TimelineResult) : Type 0 where
  pub of_focus : get_observation id db ≡ some r.focus
  pub earlier :
      IsLimited older newer
        (λ o. in_session r.focus o && ltb o.id id)
        (or_five before)
        db.observations
        r.before
  pub later :
      IsLimited older older
        (λ o. in_session r.focus o && ltb id o.id)
        (or_five after)
        db.observations
        r.after
  pub counted : length r.before + length r.after + 1 ≤ r.total_in_range

before_entries-IsLimited :
    (focus : Observation) (id limit : ℕ) (rows : List Observation)
    → IsLimited older newer
        (λ o. in_session focus o && ltb o.id id)
        limit
        rows
        (before_entries focus id limit rows)
unfolding before_entries
before_entries-IsLimited focus id limit rows =
    let p = λ (o : Observation). in_session focus o && ltb o.id id in
    reverse-IsLimited older newer p limit rows _
      (sort_by-IsLimited newer p limit rows (λ x y h. ground arith) (λ x y z h k. ground arith))

after_entries-IsLimited :
    (focus : Observation) (id limit : ℕ) (rows : List Observation)
    → IsLimited older older
        (λ o. in_session focus o && ltb id o.id)
        limit
        rows
        (after_entries focus id limit rows)
unfolding after_entries
after_entries-IsLimited focus id limit rows =
    sort_by-IsLimited older (λ o. in_session focus o && ltb id o.id) limit rows
      (λ x y h. ground arith) (λ x y z h k. ground arith)

-- The rows before, after and at an identifier are the rows of the session.
parts_counted :
    (focus : Observation) (id : ℕ) (rows : List Observation)
    → length (keep (λ o. in_session focus o && ltb o.id id) rows)
        + length (keep (λ o. in_session focus o && ltb id o.id) rows)
        + length (keep (λ o. in_session focus o && (o.id == id)) rows)
      ≡ length (keep (in_session focus) rows)
parts_counted focus id [] = omega arith
parts_counted focus id (o ∷ rows) = ground (arith, parts_counted focus id rows)

-- The focus is one of the rows of its session.
focus_counted :
    (id : ℕ) (db : Db) (focus : Observation)
    → get_observation id db ≡ some focus
    → 1 ≤ length (keep (λ o. in_session focus o && (o.id == id)) db.observations)
unfolding get_observation
focus_counted id db focus h =
    let found = find-Memᴰ (λ o. o.id == id && is_live o) db.observations h in
    keep-some (λ o. in_session focus o && (o.id == id)) focus db.observations found.0
      (ground (arith, found.1, (==_iff focus.session_id focus.session_id).1 refl))

timeline_found :
    (id before after : ℕ) (db : Db) (focus : Observation)
    → get_observation id db ≡ some focus
    → (r : TimelineResult) × ((timeline id before after db ≡ ok r)
        × IsTimeline id before after db r)
unfolding timeline before_entries after_entries get_session
timeline_found id before after db focus found =
    let earlier = before_entries-IsLimited focus id (or_five before) db.observations in
    let later = after_entries-IsLimited focus id (or_five after) db.observations in
    (
      around id before after db focus,
      (
        rw (found, timeline) refl,
        record {
          of_focus = found;
          earlier = earlier;
          later = later;
          counted = omega (
            arith,
            earlier.as_many,
            later.as_many,
            parts_counted focus id db.observations,
            focus_counted id db focus found,
          );
        },
      ),
    )

-- Timeline answers for each live observation: with that row; before it live rows of its session with
-- smaller identifiers and after it live rows with larger ones, both in the order of identifiers, as
-- many as the session has up to the limit (5 where it is 0), and none left out that is nearer than
-- those shown; and with a total that counts at least all of these.
pub timeline-IsTimeline :
    (id before after : ℕ) (db : Db)
    → get_observation id db ≢ none
    → (r : TimelineResult) × ((timeline id before after db ≡ ok r)
        × IsTimeline id before after db r)
timeline-IsTimeline id before after db readable = elim (Option-cases (get_observation id db)) [
  | inl missing ↦ absurd (readable missing)
  | inr (focus, found) ↦ timeline_found id before after db focus found
]
