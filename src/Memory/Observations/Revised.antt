-- ===== src/Memory/Observations/Revised.antt =====
-- internal/memory/store.go: AddObservation on a topic that a row has already.
use mathlib.Core.Bool.{false≢true}
use mathlib.Core.List.{Memᴰ}
use mathlib.Core.List.Memᴰ
use mathlib.Core.Option.{none-ne-some}
use sdd_hoffy.Common.{
  ℕ, ◌+◌, ◌≡◌, ◌≢◌, refl, sym, ap, ◌∙◌, List, [], ◌∷◌, some, true, false, ◌&&◌, ◌==◌, nat_eq,
  ==_iff, find, keep, update_where, if◌then◌else◌, Bool-cases, Option-cases, inl, inr, arith,
}
use sdd_hoffy.Common.Result.{ok}
use sdd_hoffy.Common.Rows.{kept_from}
use sdd_hoffy.Common.Text.{is_empty}
use sdd_hoffy.Memory.Types.{Observation, Db, StoreConfig, Engine, IsEngine}
use sdd_hoffy.Memory.Text.{truncate_content, normalize_topic_key, nullable_string, hash_normalized}
use sdd_hoffy.Memory.Text.Private.{strip_private_tags}
use sdd_hoffy.Memory.Observations.{
  AddObservationParams, Entry, prepare, add_entry, add_observation, get_observation, is_live,
  revise, same_topic, topic_match,
}
use sdd_hoffy.Memory.Observations.Topics.{IsKept, OnlyRow, ids, ids-update_where, nullable_some}
use sdd_hoffy.Memory.Observations.Upsert.{matched_row, unmatched_topic}

module _ (f : Observation → Observation) (o : Observation)
    (same : (r : Observation) → (f r).id ≡ r.id) where
  find_updated :
      (rows : List Observation)
      → OnlyRow rows o
      → Memᴰ o rows
      → is_live (f o) ≡ true
      → find (λ r. r.id == o.id && is_live r) (update_where (λ r. r.id == o.id) f rows) ≡ some (f o)
  find_updated [] only m live = absurd (Memᴰ.not-nil m)
  find_updated (r ∷ rows) only m live = elim (Bool-cases (r.id == o.id)) [
    | inl here ↦
        let row : r ≡ o = only.0 here in
        let shown : ((f r).id == o.id && is_live (f r)) ≡ true =
          rw (same r, here, row, live) refl in
        rw (here, shown) (ap (λ x. some (f x)) row)
    | inr other ↦ elim (Memᴰ.cases_cons m) [
      | inl first ↦
          absurd (false≢true (sym other ∙ (==_iff r.id o.id).1 (ap (λ x. x.id) (sym first))))
      | inr later ↦ rw (other, other) (find_updated rows only.1 later live)
    ]
  ]

  find_kept :
      (i : ℕ) (rows : List Observation)
      → i ≢ o.id
      → find (λ r. r.id == i && is_live r) (update_where (λ r. r.id == o.id) f rows)
        ≡ find (λ r. r.id == i && is_live r) rows
  find_kept i [] other = refl
  find_kept i (r ∷ rows) other = elim (Bool-cases (r.id == o.id)) [
    | inl here ↦
        let away : (r.id == i) ≡ false = elim (Bool-cases (r.id == i)) [
          | inl at ↦ absurd (other (sym ((==_iff r.id i).0 at) ∙ (==_iff r.id o.id).0 here))
          | inr e ↦ e
        ] in
        rw (here, same r, away) (find_kept i rows other)
    | inr e ↦ rw e (ap (λ x. if r.id == i && is_live r then some r else x) (find_kept i rows other))
  ]

-- A row that a call has revised, in terms of the call and of the row before.
pub record IsRevised (engine : Engine) (limit now : ℕ) (p : AddObservationParams)
    (before after : Observation) : Type 0 where
  pub id : after.id ≡ before.id
  pub type : after.type ≡ p.type
  pub title : after.title ≡ strip_private_tags p.title
  pub content : after.content ≡ truncate_content limit (strip_private_tags p.content)
  pub hash :
      after.normalized_hash
      ≡ hash_normalized engine.digest (truncate_content limit (strip_private_tags p.content))
  pub tool : after.tool_name ≡ nullable_string p.tool_name
  pub topic : after.topic_key ≡ some (normalize_topic_key p.topic_key)
  pub revisions : after.revision_count ≡ before.revision_count + 1
  pub duplicates : after.duplicate_count ≡ before.duplicate_count
  pub updated : after.updated_at ≡ now
  pub created : after.created_at ≡ before.created_at
  pub session : after.session_id ≡ before.session_id
  pub project : after.project ≡ before.project
  pub scope : after.scope ≡ before.scope
  pub namespace : after.namespace ≡ before.namespace
  pub deleted : after.deleted_at ≡ before.deleted_at

revise-IsRevised :
    (engine : Engine) (cfg : StoreConfig) (now : ℕ) (p : AddObservationParams) (o : Observation)
    → is_empty (normalize_topic_key p.topic_key) ≡ false
    → IsRevised engine cfg.max_observation_length now p o (revise now (prepare engine cfg p) o)
unfolding prepare
revise-IsRevised engine cfg now p o keyed = record {
  id = refl;
  type = refl;
  title = refl;
  content = refl;
  hash = refl;
  tool = refl;
  topic = nullable_some (normalize_topic_key p.topic_key) keyed;
  revisions = refl;
  duplicates = refl;
  updated = refl;
  created = refl;
  session = refl;
  project = refl;
  scope = refl;
  namespace = refl;
  deleted = refl;
}

prepared_key :
    (engine : Engine) (cfg : StoreConfig) (p : AddObservationParams)
    → is_empty (prepare engine cfg p).topic_key ≡ is_empty (normalize_topic_key p.topic_key)
unfolding prepare
prepared_key engine cfg p = refl

-- What is found of the topic before the call, and what the rows are after it.
abbrev pub Revises : Engine → StoreConfig → ℕ → AddObservationParams → Db → Type 0
Revises engine cfg now p db =
    let after = (add_observation engine cfg now p db).0 in
    (old : Observation) × (new : Observation) × (same_topic (prepare engine cfg p) old ≡ true)
    × (get_observation old.id db ≡ some old)
    × ((add_observation engine cfg now p db).1 ≡ ok old.id)
    × (get_observation old.id after ≡ some new)
    × IsRevised engine cfg.max_observation_length now p old new
    × ((i : ℕ) → i ≢ old.id → get_observation i after ≡ get_observation i db)
    × (ids after.observations ≡ ids db.observations)

revised :
    (engine : Engine) (cfg : StoreConfig) (now : ℕ) (p : AddObservationParams) (db : Db)
    (o : Observation)
    → IsEngine engine
    → IsKept db
    → is_empty (normalize_topic_key p.topic_key) ≡ false
    → topic_match engine (prepare engine cfg p) db ≡ some o
    → Revises engine cfg now p db
unfolding add_observation add_entry get_observation
revised engine cfg now p db o lawful k keyed matched =
    let e = prepare engine cfg p in
    let rows = db.observations in
    let keyed' : is_empty e.topic_key ≡ false = prepared_key engine cfg p ∙ keyed in
    let chosen : engine.latest (keep (same_topic e) rows) ≡ some o = rw keyed' at matched in
    let there =
      lawful.latest_among (λ r. Memᴰ r rows × (same_topic e r ≡ true)) (keep (same_topic e) rows) o
        (kept_from (same_topic e) (λ r. same_topic e r ≡ true) rows (λ r h. h)) chosen in
    let only = (matched_row engine e db o lawful k matched).0 in
    let live : is_live o ≡ true = live_on_topic e o there.1 in
    (
      o,
      revise now e o,
      there.1,
      kept_row o rows only there.0 live,
      rw matched refl,
      rw matched (find_updated (revise now e) o (λ r. refl) rows only there.0 live),
      revise-IsRevised engine cfg now p o keyed,
      (λ i other. rw matched (find_kept (revise now e) o (λ r. refl) i rows other)),
      rw matched (ids-update_where (λ r. r.id == o.id) (revise now e) rows (λ r. refl)),
    )
  where
    live_on_topic : (e : Entry) (r : Observation) → same_topic e r ≡ true → is_live r ≡ true
    live_on_topic e r h = ground arith

    kept_row :
        (o : Observation) (rows : List Observation)
        → OnlyRow rows o
        → Memᴰ o rows
        → is_live o ≡ true
        → find (λ r. r.id == o.id && is_live r) rows ≡ some o
    kept_row o [] only m live = absurd (Memᴰ.not-nil m)
    kept_row o (r ∷ rows) only m live = elim (Bool-cases (r.id == o.id)) [
      | inl here ↦
          let row : r ≡ o = only.0 here in
          let shown : (r.id == o.id && is_live r) ≡ true = rw (here, row, live) refl in
          rw shown (ap some row)
      | inr other ↦ elim (Memᴰ.cases_cons m) [
        | inl first ↦
            absurd (false≢true (sym other ∙ (==_iff r.id o.id).1 (ap (λ x. x.id) (sym first))))
        | inr later ↦ rw other (kept_row o rows only.1 later live)
      ]
    ]

-- A call of AddObservation on a topic that a live row of its project, scope and namespace already has
-- revises such a row and returns its identifier. Under it, a read then gives the type of the call, its
-- title stripped of private parts, its content stripped of them and cut to the limit, the hash of that
-- content, one revision more and the time of the call, with the creation, the session, the project, the
-- scope, the namespace and the count of duplicates of before. Every other identifier reads as before,
-- and no row is added or removed. The conditions: identifiers are distinct and below the next one, no
-- topic has two live rows, and the topic key is not empty once normalized.
pub add_observation-Revises :
    (engine : Engine) (cfg : StoreConfig) (now : ℕ) (p : AddObservationParams) (db : Db)
    → IsEngine engine
    → IsKept db
    → is_empty (normalize_topic_key p.topic_key) ≡ false
    → keep (same_topic (prepare engine cfg p)) db.observations ≢ []
    → Revises engine cfg now p db
add_observation-Revises engine cfg now p db lawful k keyed some_row =
    let e = prepare engine cfg p in
    let keyed' : is_empty e.topic_key ≡ false = prepared_key engine cfg p ∙ keyed in
    elim (Option-cases (topic_match engine e db)) [
      | inl unmatched ↦ absurd (
          some_row (
            unmatched_topic engine e db lawful unmatched
              (λ null. none-ne-some e.topic_key (sym null ∙ nullable_some e.topic_key keyed'))))
      | inr (o, matched) ↦ revised engine cfg now p db o lawful k keyed matched
    ]
