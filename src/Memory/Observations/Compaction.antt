-- ===== src/Memory/Observations/Compaction.antt =====
-- internal/memory/store.go: deletions, one or many, and reading after them.
use sdd_hoffy.Common.{
  ℕ, ◌≡◌, refl, List, [], ◌∷◌, Option, none, Bool, true, false, not, ◌&&◌, ◌==◌, nat_eq, ltb,
  length, Bool-cases, inl, inr, arith, update_where, find, keep,
}
use sdd_hoffy.Common.Result.{Result, ok, err}
use sdd_hoffy.Common.Text.{is_empty}
use sdd_hoffy.Memory.Types.{Db, Engine, Error, Observation}
use sdd_hoffy.Memory.Observations.{is_live, get_observation}
use sdd_hoffy.Memory.Observations.Edits.{
  CompactParams, add_summary, compacted, compact_observations, delete_all, bury, delete_observation,
}

compacted_failed :
    (db : Db) (p : CompactParams) (n : ℕ) (r : Result Error (Db × Option ℕ)) (e : Error)
    → (compacted db p n r).1 ≡ err e
    → (compacted db p n r).0 ≡ db
compacted_failed db p n (err x) e h = refl
compacted_failed db p n (ok (after, summary)) e h = cc

-- When `CompactObservations` fails, on a check of its parameters or on the insert of the summary after
-- the deletions, the database is as it was before: nothing is deleted without its summary.
compact_failed :
    (engine : Engine) (now : ℕ) (p : CompactParams) (db : Db) (e : Error)
    → (compact_observations engine now p db).1 ≡ err e
    → (compact_observations engine now p db).0 ≡ db
unfolding compact_observations
compact_failed engine now p db e h = elim (Bool-cases (length p.ids == 0)) [
  | inl no_id ↦ rw no_id refl
  | inr some_id ↦ elim (Bool-cases (ltb 200 (length p.ids))) [
    | inl many ↦ rw (some_id, many) refl
    | inr few ↦ elim (Bool-cases (not (is_empty p.summary_content) && is_empty p.summary_title)) [
      | inl untitled ↦ rw (some_id, few, untitled) refl
      | inr titled ↦
          let deleted = delete_all now p.ids db in
          rw (some_id, few, titled)
            (compacted_failed db p deleted.1 (add_summary engine now p deleted.0) e
              (rw (some_id, few, titled) at h))
    ]
  ]
]

gone : (id : ℕ) (o : Observation) → (o.id == id && false) ≡ false
gone id o = ground arith

no_live :
    (id : ℕ) (now : ℕ) (os : List Observation)
    → find
        (λ o. o.id == id && is_live o)
        (update_where (λ o. o.id == id && is_live o) (bury now) os)
      ≡ none
no_live id now [] = refl
no_live id now (o ∷ os) = elim (Bool-cases (o.id == id && is_live o)) [
  | inl here ↦ rw (here, gone id o) (no_live id now os)
  | inr other ↦ rw (other, other) (no_live id now os)
]

no_row :
    (id : ℕ) (os : List Observation)
    → find (λ o. o.id == id && is_live o) (keep (λ o. not (o.id == id)) os) ≡ none
no_row id [] = refl
no_row id (o ∷ os) = elim (Bool-cases (o.id == id)) [
  | inl here ↦ rw here (no_row id os)
  | inr other ↦ rw (other, other) (no_row id os)
]

-- An observation that is deleted, softly or not, can no longer be read.
pub deleted_unread :
    (now id : ℕ) (hard : Bool) (db : Db)
    → get_observation id (delete_observation now id hard db) ≡ none
unfolding get_observation delete_observation
deleted_unread now id true db = no_row id db.observations
deleted_unread now id false db = no_live id now db.observations
