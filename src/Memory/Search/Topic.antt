-- ===== src/Memory/Search/Topic.antt =====
-- internal/memory/store.go: FindByTopicKey after AddObservation, as a round trip.
use mathlib.Core.List.{Memᴰ}
use mathlib.Core.List.Memᴰ
use mathlib.Core.Option.{none-ne-some}
use sdd_hoffy.Common.{
  ℕ, ◌≡◌, ◌≢◌, refl, ap, ◌∙◌, sym, List, [], ◌∷◌, ◌++◌, none, some, true, false, ◌==◌, nat_eq,
  text_eq, string_eq, ==_refl, keep, All-append, arith, ◌⊎◌, Option-cases, inl, inr,
}
use sdd_hoffy.Common.Result.{Result, ok}
use sdd_hoffy.Common.Rows.{All-itself, Memᴰ-keep, kept_from}
use sdd_hoffy.Common.Text.{Text, is_empty}
use sdd_hoffy.Memory.Types.{Observation, Db, StoreConfig, Engine, IsEngine, Error}
use sdd_hoffy.Memory.Text.{normalize_topic_key}
use sdd_hoffy.Memory.Observations.{
  Entry, AddObservationParams, prepare, add_entry, add_observation, insert_row, duplicate_of,
  new_row, revise, same_topic, session_exists, topic_match, update_row,
}
use sdd_hoffy.Memory.Observations.Topics.{IsKept, nullable_some, or_blank-nullable}
use sdd_hoffy.Memory.Observations.Upsert.{unmatched_topic}
use sdd_hoffy.Memory.Search.{find_by_topic_key}
use sdd_hoffy.Memory.Search.Written.{
  on_topic, IsWritten, IsStored, IsStored-written, InNamespace, latest-IsWritten, revised_rows,
  no_other_rows, new_row-on_topic, Memᴰ-update_where,
}

revised-on_topic :
    (now : ℕ) (e : Entry) (o : Observation)
    → is_empty e.topic_key ≡ false
    → same_topic e o ≡ true
    → on_topic e (revise now e o) ≡ true
revised-on_topic now e o keyed h =
    rw (nullable_some e.topic_key keyed) (ground (arith, ==_refl e.topic_key))

module _ (engine : Engine) (now : ℕ) (e : Entry) (db : Db) where
  -- What FindByTopicKey then answers.
  abbrev pub Reads : Db × Result Error ℕ → Type 0
  Reads after =
      (o : Observation) × (engine.latest (keep (on_topic e) after.0.observations) ≡ some o)
      × IsWritten now e after.1 o

  revise-Reads :
      (o : Observation)
      → IsEngine engine
      → IsKept db
      → is_empty e.topic_key ≡ false
      → InNamespace e db.observations
      → topic_match engine e db ≡ some o
      → Reads (update_row o.id (revise now e) db, ok o.id)
  revise-Reads o lawful kept keyed spaces matched =
      let rows = db.observations in
      let chosen : engine.latest (keep (same_topic e) rows) ≡ some o = rw keyed at matched in
      let there =
        lawful.latest_among (λ r. Memᴰ r rows × (same_topic e r ≡ true)) (keep (same_topic e) rows)
          o (kept_from (same_topic e) (λ r. same_topic e r ≡ true) rows (λ r h. h)) chosen in
      latest-IsWritten engine now e (ok o.id) _ (revise now e o) lawful
        (revised_rows now e rows rows o (kept.single e)
          (Memᴰ-keep (same_topic e) o rows there.1 there.0) (All-itself rows) spaces)
        (Memᴰ-update_where (λ r. r.id == o.id) (revise now e) o rows there.0 (==_refl o.id))
        (revised-on_topic now e o keyed there.1)

  insert_row-Reads :
      IsEngine engine
      → is_empty e.topic_key ≡ false
      → InNamespace e db.observations
      → session_exists e.session_id db ≡ true
      → keep (same_topic e) db.observations ≡ []
      → Reads (insert_row now e db)
  unfolding insert_row
  insert_row-Reads lawful keyed spaces session unmatched =
      let rows = db.observations in
      let row = new_row now e db.next_observation in
      rw session (
        latest-IsWritten engine now e (ok db.next_observation) (rows ++ row ∷ []) row lawful
          (All-append (λ r. on_topic e r ≡ true → IsWritten now e (ok db.next_observation) r) rows
            (row ∷ [])
            (no_other_rows now e (ok db.next_observation) rows rows unmatched (All-itself rows)
              spaces)
            (
              (λ h. record {
                returned = refl;
                type = refl;
                title = refl;
                content = refl;
                updated = refl;
              }),
              tt,
            ))
          (Memᴰ.append_right rows (Memᴰ.head refl))
          (new_row-on_topic now db.next_observation e keyed))

no_duplicate :
    (engine : Engine)
    → IsEngine engine
    → (rows : List Observation) → rows ≡ []
    → engine.newest rows ≡ none
no_duplicate engine lawful rows h = elim (Option-cases (engine.newest rows)) [
  | inl nothing ↦ nothing
  | inr (o, found) ↦ absurd (lawful.newest_among (λ r. ⊥) rows o (rw h tt) found)
]

prepared_session :
    (engine : Engine) (cfg : StoreConfig) (p : AddObservationParams)
    → (prepare engine cfg p).session_id ≡ p.session_id
unfolding prepare
prepared_session engine cfg p = refl

prepared_key :
    (engine : Engine) (cfg : StoreConfig) (p : AddObservationParams)
    → is_empty (prepare engine cfg p).topic_key ≡ is_empty (normalize_topic_key p.topic_key)
unfolding prepare
prepared_key engine cfg p = refl

key_given : (key : Text) → is_empty (normalize_topic_key key) ≡ false → is_empty key ≡ false
unfolding normalize_topic_key
key_given [] h = cc
key_given (c ∷ key) h = refl

find_on_topic :
    (engine : Engine) (cfg : StoreConfig) (p : AddObservationParams) (db : Db)
    → is_empty (prepare engine cfg p).topic_key ≡ false
    → find_by_topic_key engine p.topic_key p.project p.scope db
      ≡ engine.latest (keep (on_topic (prepare engine cfg p)) db.observations)
unfolding find_by_topic_key prepare
find_on_topic engine cfg p db keyed =
    rw (key_given p.topic_key keyed, or_blank-nullable p.project) refl

module _ (engine : Engine) (cfg : StoreConfig) (now : ℕ) (db : Db) where
  -- No recent row is a duplicate of the entry, or its topic has a row already.
  abbrev pub Unshadowed : Entry → Type 0
  Unshadowed e =
      (keep (duplicate_of now cfg.dedupe_window e) db.observations ≡ [])
      ⊎ (keep (same_topic e) db.observations ≢ [])

  add_entry-Reads :
      (e : Entry)
      → IsEngine engine
      → IsKept db
      → is_empty e.topic_key ≡ false
      → InNamespace e db.observations
      → session_exists e.session_id db ≡ true
      → Unshadowed e
      → Reads engine now e db (add_entry engine cfg now e db)
  unfolding add_entry
  add_entry-Reads e lawful kept keyed spaces session clear =
      elim (Option-cases (topic_match engine e db)) [
        | inr (o, matched) ↦
            rw matched (revise-Reads engine now e db o lawful kept keyed spaces matched)
        | inl unmatched ↦
            let no_topic =
              unmatched_topic engine e db lawful unmatched
                (λ null. none-ne-some e.topic_key (sym null ∙ nullable_some e.topic_key keyed)) in
            elim clear [
              | inr topic ↦ absurd (topic no_topic)
              | inl alone ↦
                  rw (unmatched, no_duplicate engine lawful _ alone)
                    (insert_row-Reads engine now e db lawful keyed spaces session no_topic)
            ]
      ]

  -- What AddObservation writes under a topic is what FindByTopicKey reads under it: the row has the
  -- type of the call, its title stripped of private parts, its content stripped of them and cut to the
  -- limit, the time of the call, and the identifier that the call has returned. The conditions: in the
  -- database, identifiers are distinct and below the next one, and no topic has two live rows; the
  -- topic key of the call is not empty once normalized; its session exists; the topic's rows in the
  -- project and scope are all in the namespace of the call; and, unless the topic has a row, no row
  -- counts as a duplicate of the call's within the deduplication window.
  pub find_by_topic_key-add :
      (p : AddObservationParams)
      → IsEngine engine
      → IsKept db
      → is_empty (normalize_topic_key p.topic_key) ≡ false
      → InNamespace (prepare engine cfg p) db.observations
      → session_exists p.session_id db ≡ true
      → Unshadowed (prepare engine cfg p)
      → (o : Observation) × (find_by_topic_key engine p.topic_key p.project p.scope
            (add_observation engine cfg now p db).0
          ≡ some o)
        × IsStored cfg.max_observation_length now p (add_observation engine cfg now p db).1 o
  unfolding add_observation
  find_by_topic_key-add p lawful kept keyed spaces session clear =
      let e = prepare engine cfg p in
      let there = ap (λ i. session_exists i db) (prepared_session engine cfg p) ∙ session in
      let keyed' : is_empty e.topic_key ≡ false = prepared_key engine cfg p ∙ keyed in
      let read = add_entry-Reads e lawful kept keyed' spaces there clear in
      (
        read.0,
        find_on_topic engine cfg p (add_entry engine cfg now e db).0 keyed' ∙ read.1,
        IsStored-written engine cfg now p (add_entry engine cfg now e db).1 read.0 read.2,
      )
