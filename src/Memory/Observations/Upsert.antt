-- ===== src/Memory/Observations/Upsert.antt =====
-- internal/memory/store.go: `AddObservation` on the rows with one topic.
use mathlib.Core.Bool.{false≢true}
use sdd_hoffy.Common.{
  ℕ, ◌+◌, ◌<◌, ◌≤◌, ◌≡◌, ◌≢◌, refl, sym, ap, ◌∙◌, List, [], ◌∷◌, ◌++◌, Option, none, some, true,
  false, ◌==◌, nat_eq, text_eq, string_eq, All-append, keep, length, arith, Bool-cases,
  Option-cases, inl, inr,
}
use sdd_hoffy.Common.Text.{Text, is_empty}
use sdd_hoffy.Memory.Types.{Observation, Db, StoreConfig, Engine, IsEngine}
use sdd_hoffy.Memory.Text.{nullable_text}
use sdd_hoffy.Memory.Observations.{
  Entry, topic_is, same_topic, revise, count_duplicate, new_row, update_row, insert_row,
  dedupe_or_insert, topic_match, add_entry, add_observation, AddObservationParams, prepare,
  duplicate_of, session_exists,
}
use sdd_hoffy.Memory.Observations.Kept.{
  length-keep-append, length-keep-agree, All-from, All-keep, All-map_into,
}
use sdd_hoffy.Memory.Observations.Topics.{
  ids, IsKept, OnlyRow, update_row-IsKept, ids-append, All-fresh, DistinctIds-append, same_entry,
  only_rows, revise_same,
}

keyed_new :
    (now id : ℕ) (e e' : Entry)
    → same_topic e' (new_row now e id) ≡ true
    → nullable_text e.topic_key ≢ none
keyed_new now id e e' h unkeyed =
    elim (Bool-cases (topic_is e'.topic_key (nullable_text e.topic_key))) [
      | inl keyed ↦ absurd (false≢true (ap (topic_is e'.topic_key) (sym unkeyed) ∙ keyed))
      | inr unequal ↦ absurd (ground arith)
    ]

one_row :
    (now : ℕ) (e e' : Entry) (db : Db)
    → IsKept db
    → (nullable_text e.topic_key ≢ none → keep (same_topic e) db.observations ≡ [])
    → length (keep (same_topic e') (db.observations ++ new_row now e db.next_observation ∷ [])) ≤ 1
one_row now e e' db k unmatched =
    rw (length-keep-append (same_topic e') db.observations (new_row now e db.next_observation))
      (elim (Bool-cases (same_topic e' (new_row now e db.next_observation))) [
        | inr other ↦ rw other (omega (arith, k.single e'))
        | inl same ↦
            rw
              (
                same,
                length-keep-agree (same_topic e') (same_topic e) db.observations (
                    All-from (λ r. same_topic e' r ≡ same_topic e r) db.observations
                      (same_entry now db.next_observation e e' same)),
                unmatched (keyed_new now db.next_observation e e' same),
              )
              (omega arith)
      ])

insert_row-IsKept :
    (now : ℕ) (e : Entry) (db : Db)
    → IsKept db
    → (nullable_text e.topic_key ≢ none → keep (same_topic e) db.observations ≡ [])
    → IsKept (insert_row now e db).0
unfolding insert_row
insert_row-IsKept now e db k unmatched = elim (Bool-cases (session_exists e.session_id db)) [
  | inr absent ↦ rw absent k
  | inl present ↦
      let same_ids = ids-append db.observations (new_row now e db.next_observation) in
      rw present record {
        fresh = rw same_ids (
            All-append (λ i. i < db.next_observation + 1) (ids db.observations)
              (db.next_observation ∷ [])
              (All-fresh db.next_observation (ids db.observations) k.fresh) (omega arith, tt));
        distinct =
            rw same_ids
              (DistinctIds-append db.next_observation (ids db.observations) k.fresh k.distinct);
        single = λ e'. one_row now e e' db k unmatched;
      }
]

nothing_kept :
    (engine : Engine)
    → IsEngine engine
    → (rows : List Observation) → engine.latest rows ≡ none
    → rows ≡ []
nothing_kept engine lawful [] h = refl
nothing_kept engine lawful (r ∷ rows) h = absurd (lawful.latest_some r rows h)

unkeyed_null : (s : Text) → is_empty s ≡ true → nullable_text s ≡ none
unkeyed_null [] h = refl
unkeyed_null (c ∷ s) h = cc

pub unmatched_topic :
    (engine : Engine) (e : Entry) (db : Db)
    → IsEngine engine
    → topic_match engine e db ≡ none
    → nullable_text e.topic_key ≢ none
    → keep (same_topic e) db.observations ≡ []
unmatched_topic engine e db lawful h keyed = elim (Bool-cases (is_empty e.topic_key)) [
  | inl unkeyed ↦ absurd (keyed (unkeyed_null e.topic_key unkeyed))
  | inr has_key ↦ nothing_kept engine lawful (keep (same_topic e) db.observations) (ground arith)
]

-- The row that an upsert takes: the only row with its identifier, and one with the topic.
pub matched_row :
    (engine : Engine) (e : Entry) (db : Db) (o : Observation)
    → IsEngine engine
    → IsKept db
    → topic_match engine e db ≡ some o
    → OnlyRow db.observations o × ((same_topic e o ≡ true) × (is_empty e.topic_key ≡ false))
matched_row engine e db o lawful k h = elim (Bool-cases (is_empty e.topic_key)) [
  | inl unkeyed ↦ absurd (ground arith)
  | inr has_key ↦
      let found =
        lawful.latest_among (λ r. OnlyRow db.observations r × (same_topic e r ≡ true))
          (keep (same_topic e) db.observations) o
          (All-keep (OnlyRow db.observations) (same_topic e) db.observations
            (only_rows db.observations k.distinct))
          (ground arith) in
      (found.0, (found.1, has_key))
]

revise-IsKept :
    (engine : Engine) (now : ℕ) (e : Entry) (db : Db) (o : Observation)
    → IsEngine engine
    → IsKept db
    → topic_match engine e db ≡ some o
    → IsKept (update_row o.id (revise now e) db)
revise-IsKept engine now e db o lawful k h =
    let found = matched_row engine e db o lawful k h in
    update_row-IsKept o (revise now e) db (λ r. refl)
      (λ e'.
        All-map_into (λ r. (r.id == o.id) ≡ true → r ≡ o)
          (λ r. (r.id == o.id) ≡ true → same_topic e' (revise now e r) ≡ same_topic e' r)
          db.observations
          (λ r only here.
            revise_same now e e' r found.1.1 (ap (same_topic e) (only here) ∙ found.1.0))
          found.0)
      k

dedupe_or_insert-IsKept :
    (now : ℕ) (e : Entry) (duplicate : Option Observation) (db : Db)
    → IsKept db
    → (nullable_text e.topic_key ≢ none → keep (same_topic e) db.observations ≡ [])
    → IsKept (dedupe_or_insert now e duplicate db).0
dedupe_or_insert-IsKept now e none db k unmatched = insert_row-IsKept now e db k unmatched
dedupe_or_insert-IsKept now e (some o) db k unmatched =
    update_row-IsKept o (count_duplicate now) db (λ r. refl)
      (λ e'.
        All-from
          (λ r. (r.id == o.id) ≡ true → same_topic e' (count_duplicate now r) ≡ same_topic e' r)
          db.observations (λ r here. refl))
      k

-- `AddObservation` keeps the invariant, whatever it is given and whether it revises a row, counts a
-- duplicate, inserts a row or fails: identifiers stay distinct and below the counter, and no topic
-- gets a second live row in its project, scope and namespace. The rows that the engine's `LIMIT 1`
-- chooses are among those that it chooses from.
pub add_observation-IsKept :
    (engine : Engine) (cfg : StoreConfig) (now : ℕ) (p : AddObservationParams) (db : Db)
    → IsEngine engine
    → IsKept db
    → IsKept (add_observation engine cfg now p db).0
unfolding add_observation add_entry
add_observation-IsKept engine cfg now p db lawful k =
    let e = prepare engine cfg p in
    elim (Option-cases (topic_match engine e db)) [
      | inl unmatched ↦ rw unmatched (
          dedupe_or_insert-IsKept now e
            (engine.newest (keep (duplicate_of now cfg.dedupe_window e) db.observations)) db k
            (unmatched_topic engine e db lawful unmatched))
      | inr (o, matched) ↦ rw matched (revise-IsKept engine now e db o lawful k matched)
    ]
