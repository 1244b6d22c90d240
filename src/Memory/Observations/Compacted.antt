-- ===== src/Memory/Observations/Compacted.antt =====
-- internal/memory/store.go: reading after `CompactObservations` has succeeded.
use sdd_hoffy.Common.{
  ℕ, ◌<◌, ◌≡◌, refl, ap, ◌∙◌, List, [], ◌∷◌, ◌++◌, Option, none, some, Bool, true, false, not, ◌&&◌,
  ◌==◌, nat_eq, ==_iff, ltb, length, find, any, update_where, if◌then◌else◌, Bool-cases, inl, inr,
  arith, string_eq,
}
use sdd_hoffy.Common.Result.{Result, ok, err}
use sdd_hoffy.Common.Text.{is_empty}
use sdd_hoffy.Memory.Types.{Observation, Db, Engine, Error}
use sdd_hoffy.Memory.Observations.{is_live, get_observation, session_exists}
use sdd_hoffy.Memory.Observations.Edits.{
  CompactParams, CompactResult, bury, soft_delete, delete_all, summary_row, summary_session,
  add_summary, compacted, compact_observations, delete_observation,
}
use sdd_hoffy.Memory.Observations.Compaction.{deleted_unread}

read_other :
    (now i j : ℕ) (os : List Observation)
    → (i == j) ≡ false
    → find (λ o. o.id == j && is_live o) (update_where (λ o. o.id == i && is_live o) (bury now) os)
      ≡ find (λ o. o.id == j && is_live o) os
read_other now i j [] h = refl
read_other now i j (o ∷ os) h = elim (Bool-cases (o.id == i && is_live o)) [
  | inl hit ↦
      let same : o.id ≡ i = (==_iff o.id i).0 (ground arith) in
      let apart : (o.id == j) ≡ false = ap (λ k. k == j) same ∙ h in
      rw (hit, apart) (read_other now i j os h)
  | inr missed ↦
      rw missed (ap (λ r. if o.id == j && is_live o then some o else r) (read_other now i j os h))
]

soft_delete-other :
    (now i j : ℕ) (db : Db)
    → (i == j) ≡ false
    → get_observation j (soft_delete now i db) ≡ get_observation j db
unfolding get_observation
soft_delete-other now i j db h = read_other now i j db.observations h

soft_delete-same :
    (now i j : ℕ) (db : Db) → (i == j) ≡ true → get_observation j (soft_delete now i db) ≡ none
unfolding delete_observation
soft_delete-same now i j db h = rw ((==_iff i j).0 h) (deleted_unread now j false db)

-- A row that cannot be read stays so.
delete_all-gone :
    (now j : ℕ) (is : List ℕ) (db : Db)
    → get_observation j db ≡ none
    → get_observation j (delete_all now is db).0 ≡ none
unfolding delete_all
delete_all-gone now j [] db h = h
delete_all-gone now j (i ∷ is) db h =
    delete_all-gone now j is (soft_delete now i db) (elim (Bool-cases (i == j)) [
      | inl same ↦ soft_delete-same now i j db same
      | inr other ↦ soft_delete-other now i j db other ∙ h
    ])

delete_all-read :
    (now j : ℕ) (is : List ℕ) (db : Db)
    → get_observation j (delete_all now is db).0
      ≡ (if any (λ i. i == j) is then none else get_observation j db)
unfolding delete_all
delete_all-read now j [] db = refl
delete_all-read now j (i ∷ is) db = elim (Bool-cases (i == j)) [
  | inl same ↦
      rw same (delete_all-gone now j is (soft_delete now i db) (soft_delete-same now i j db same))
  | inr other ↦ rw other (
      delete_all-read now j is (soft_delete now i db)
      ∙ ap (λ r. if any (λ k. k == j) is then none else r) (soft_delete-other now i j db other))
]

delete_all-next :
    (now : ℕ) (is : List ℕ) (db : Db)
    → (delete_all now is db).0.next_observation ≡ db.next_observation
unfolding delete_all
delete_all-next now [] db = refl
delete_all-next now (i ∷ is) db = delete_all-next now is (soft_delete now i db)

find-append :
    (p : Observation → Bool) (os : List Observation) (o : Observation)
    → p o ≡ false
    → find p (os ++ o ∷ []) ≡ find p os
find-append p [] o h = rw h refl
find-append p (x ∷ os) o h = ap (λ r. if p x then some x else r) (find-append p os o h)

-- What the last step of compaction does to the reading of a row that was there before.
abbrev Reads : ℕ → Option Observation → Db × Result Error CompactResult → Type 0
Reads j o (after, err e) = Unit {0}
Reads j o (after, ok r) = get_observation j after ≡ o

above_differs : (j n : ℕ) → j < n → (n == j) ≡ false
above_differs j n h = elim (Bool-cases (n == j)) [
  | inl same ↦ absurd (let e : n ≡ j = (==_iff n j).0 same in omega arith)
  | inr differs ↦ differs
]

summary-Reads :
    (engine : Engine) (now j n : ℕ) (p : CompactParams) (db mid : Db)
    → j < mid.next_observation
    → Reads j (get_observation j mid) (compacted db p n (add_summary engine now p mid))
unfolding get_observation
summary-Reads engine now j n p db mid h = elim (Bool-cases (is_empty p.summary_title)) [
  | inl untitled ↦ rw untitled refl
  | inr titled ↦ elim (Bool-cases (session_exists (summary_session p) mid)) [
    | inr missing ↦ rw (titled, missing) tt
    | inl present ↦
        let row = summary_row engine now p mid.next_observation (summary_session p) in
        let apart = above_differs j mid.next_observation h in
        rw (titled, present)
          (find-append (λ o. o.id == j && is_live o) mid.observations row (rw apart refl))
  ]
]

Reads-ok :
    (j : ℕ) (o : Option Observation) (x : Db × Result Error CompactResult) (r : CompactResult)
    → Reads j o x
    → x.1 ≡ ok r
    → get_observation j x.0 ≡ o
Reads-ok j o (after, err e) r h k = absurd (cc)
Reads-ok j o (after, ok x) r h k = h

-- When `CompactObservations` succeeds, an identifier that was in use before can be read exactly if it
-- could be read before and is not in the list: the listed observations are gone, every other one reads
-- as it did, whether a summary is added or not.
pub compact_reads :
    (engine : Engine) (now : ℕ) (p : CompactParams) (db : Db) (r : CompactResult)
    → (compact_observations engine now p db).1 ≡ ok r
    → (j : ℕ) → j < db.next_observation
    → get_observation j (compact_observations engine now p db).0
      ≡ (if any (λ i. i == j) p.ids then none else get_observation j db)
unfolding compact_observations
compact_reads engine now p db r h j used = elim (Bool-cases (length p.ids == 0)) [
  | inl no_id ↦ absurd (let g = rw no_id at h in cc)
  | inr some_id ↦ elim (Bool-cases (ltb 200 (length p.ids))) [
    | inl many ↦ absurd (let g = rw (some_id, many) at h in cc)
    | inr few ↦ elim (Bool-cases (not (is_empty p.summary_content) && is_empty p.summary_title)) [
      | inl untitled ↦ absurd (let g = rw (some_id, few, untitled) at h in cc)
      | inr titled ↦
          let deleted = delete_all now p.ids db in
          rw (some_id, few, titled)
            (Reads-ok j (get_observation j deleted.0)
                (compacted db p deleted.1 (add_summary engine now p deleted.0)) r
                (summary-Reads engine now j deleted.1 p db deleted.0
                  (rw (delete_all-next now p.ids db) used))
                (rw (some_id, few, titled) at h)
              ∙ delete_all-read now j p.ids db)
    ]
  ]
]
