-- ===== src/Memory/Steps/Operations.antt =====
-- internal/memory/store.go: the operations on sessions and observations as sequences of steps.
use sdd_hoffy.Common.{
  String, ℕ, ◌≡◌, refl, ◌∙◌, List, [], ◌∷◌, Option, none, some, Bool, true, false, not, ◌&&◌, ◌==◌,
  nat_eq, string_eq, ltb, any, any-append_left, keep, update_where, length, Bool-cases,
  Option-cases, inl, inr,
}
use sdd_hoffy.Common.Result.{Result, ok, err}
use sdd_hoffy.Common.Text.{is_empty}
use sdd_hoffy.Memory.Types.{Session, Observation, Db, StoreConfig, Engine, Error}
use sdd_hoffy.Memory.Observations.{
  create_session, end_session, session_exists, Entry, AddObservationParams, prepare, add_entry,
  add_observation, insert_row, dedupe_or_insert, duplicate_of, topic_match, upsert_or, revise,
  count_duplicate, new_row, is_live, get_observation,
}
use sdd_hoffy.Memory.Observations.Edits.{
  UpdateObservationParams, edited, update_observation, bury, soft_delete, delete_observation,
  CompactParams, delete_all, summary_row, summary_session, add_summary, compacted,
  compact_observations,
}
use sdd_hoffy.Memory.Steps.{sessions, edit, insert, erase, Steps, stop, Steps-trans, one-Step}

pub create_session-Steps :
    (now : ℕ) (id project directory : String) (db : Db)
    → Steps db (create_session now id project directory db)
unfolding create_session
create_session-Steps now id project directory db =
    elim (Bool-cases (any (λ s. s.id == id) db.sessions)) [
      | inl there ↦ rw there stop
      | inr new ↦
          rw new (one-Step (sessions _ (λ i h. any-append_left (λ s. s.id == i) db.sessions _ h)))
    ]

any-update_where :
    (p q : Session → Bool) (f : Session → Session) (rows : List Session)
    → ((s : Session) → p (f s) ≡ p s)
    → any p (update_where q f rows) ≡ any p rows
any-update_where p q f [] same = refl
any-update_where p q f (s ∷ rows) same = elim (Bool-cases (q s)) [
  | inl here ↦ rw (here, same s, any-update_where p q f rows same) refl
  | inr there ↦ rw (there, any-update_where p q f rows same) refl
]

pub end_session-Steps :
    (now : ℕ) (id summary : String) (db : Db) → Steps db (end_session now id summary db)
unfolding end_session
end_session-Steps now id summary db = one-Step (
    sessions _
      (λ i h. any-update_where (λ s. s.id == i) (λ s. s.id == id) _ db.sessions (λ s. refl) ∙ h))

insert_row-Steps : (now : ℕ) (e : Entry) (db : Db) → Steps db (insert_row now e db).0
unfolding insert_row
insert_row-Steps now e db = elim (Bool-cases (session_exists e.session_id db)) [
  | inl there ↦ rw there (one-Step (insert (new_row now e db.next_observation) refl there))
  | inr absent ↦ rw absent stop
]

dedupe_or_insert-Steps :
    (now : ℕ) (e : Entry) (duplicate : Option Observation) (db : Db)
    → Steps db (dedupe_or_insert now e duplicate db).0
dedupe_or_insert-Steps now e none db = insert_row-Steps now e db
dedupe_or_insert-Steps now e (some o) db =
    one-Step (edit (λ r. r.id == o.id) (count_duplicate now) (λ r. refl) (λ r. refl))

upsert_or-Steps :
    (now : ℕ) (e : Entry) (row : Option Observation) (db : Db) (other : Db × Result Error ℕ)
    → Steps db other.0
    → Steps db (upsert_or now e row db other).0
upsert_or-Steps now e none db other steps = steps
upsert_or-Steps now e (some o) db other steps =
    one-Step (edit (λ r. r.id == o.id) (revise now e) (λ r. refl) (λ r. refl))

pub add_observation-Steps :
    (engine : Engine) (cfg : StoreConfig) (now : ℕ) (p : AddObservationParams) (db : Db)
    → Steps db (add_observation engine cfg now p db).0
unfolding add_observation add_entry
add_observation-Steps engine cfg now p db =
    let e = prepare engine cfg p in
    upsert_or-Steps now e (topic_match engine e db) db _ (
      dedupe_or_insert-Steps now e
        (engine.newest (keep (duplicate_of now cfg.dedupe_window e) db.observations)) db)

pub update_observation-Steps :
    (engine : Engine) (cfg : StoreConfig) (now id : ℕ) (p : UpdateObservationParams) (db : Db)
    → Steps db (update_observation engine cfg now id p db).0
unfolding update_observation
update_observation-Steps engine cfg now id p db = elim (Option-cases (get_observation id db)) [
  | inl missing ↦ rw (missing, update_observation) stop
  | inr (o, found) ↦
      rw (found, update_observation)
        (one-Step
          (edit (λ r. r.id == id && is_live r) (edited engine cfg now p o) (λ r. refl) (λ r. refl)))
]

soft_delete-Steps : (now id : ℕ) (db : Db) → Steps db (soft_delete now id db)
soft_delete-Steps now id db =
    one-Step (edit (λ o. o.id == id && is_live o) (bury now) (λ o. refl) (λ o. refl))

pub delete_observation-Steps :
    (now id : ℕ) (hard : Bool) (db : Db) → Steps db (delete_observation now id hard db)
unfolding delete_observation
delete_observation-Steps now id true db = one-Step (erase id)
delete_observation-Steps now id false db = soft_delete-Steps now id db

delete_all-Steps : (now : ℕ) (ids : List ℕ) (db : Db) → Steps db (delete_all now ids db).0
unfolding delete_all
delete_all-Steps now [] db = stop
delete_all-Steps now (id ∷ rest) db =
    Steps-trans (soft_delete-Steps now id db) (delete_all-Steps now rest (soft_delete now id db))

abbrev Added : Db → Result Error (Db × Option ℕ) → Type 0
Added db (err e) = Unit {0}
Added db (ok (after, summary)) = Steps db after

add_summary-Added :
    (engine : Engine) (now : ℕ) (p : CompactParams) (db : Db)
    → Added db (add_summary engine now p db)
add_summary-Added engine now p db = elim (Bool-cases (is_empty p.summary_title)) [
  | inl untitled ↦ rw untitled stop
  | inr titled ↦ elim (Bool-cases (session_exists (summary_session p) db)) [
    | inl there ↦
        rw (titled, there)
          (one-Step
            (insert (summary_row engine now p db.next_observation (summary_session p)) refl there))
    | inr absent ↦ rw (titled, absent) tt
  ]
]

compacted-Steps :
    (db : Db) (p : CompactParams) (deleted : ℕ) (after : Db) (r : Result Error (Db × Option ℕ))
    → Steps db after
    → Added after r
    → Steps db (compacted db p deleted r).0
compacted-Steps db p deleted after (err e) first added = stop
compacted-Steps db p deleted after (ok (last, summary)) first added = Steps-trans first added

pub compact_observations-Steps :
    (engine : Engine) (now : ℕ) (p : CompactParams) (db : Db)
    → Steps db (compact_observations engine now p db).0
unfolding compact_observations
compact_observations-Steps engine now p db = elim (Bool-cases (length p.ids == 0)) [
  | inl nothing ↦ rw (nothing, compact_observations) stop
  | inr given ↦ elim (Bool-cases (ltb 200 (length p.ids))) [
    | inl many ↦ rw (given, many, compact_observations) stop
    | inr few ↦ elim (Bool-cases (not (is_empty p.summary_content) && is_empty p.summary_title)) [
      | inl untitled ↦ rw (given, few, untitled, compact_observations) stop
      | inr fine ↦
          let deleted = delete_all now p.ids db in
          rw (given, few, fine, compact_observations)
            (compacted-Steps db p deleted.1 deleted.0 (add_summary engine now p deleted.0)
              (delete_all-Steps now p.ids db) (add_summary-Added engine now p deleted.0))
    ]
  ]
]
