-- ===== src/Memory/Steps/Relating.antt =====
-- internal/memory/store.go: the operations on relations, and PassiveCapture, as sequences of steps.
use sdd_hoffy.Common.{
  String, ℕ, ◌≡◌, refl, ap, ◌∙◌, List, [], ◌∷◌, true, false, ◌&&◌, ◌==◌, nat_eq, string_eq, any,
  arith, Bool-cases, inl, inr,
}
use sdd_hoffy.Common.Result.{Result, ok, err}
use sdd_hoffy.Common.Text.{Text}
use sdd_hoffy.Memory.Types.{
  Observation, Db, StoreConfig, Engine, Error, relation_exists, reverse_exists,
}
use sdd_hoffy.Memory.Observations.{is_live}
use sdd_hoffy.Memory.Relations.{
  AddRelationParams, live_row, same_edge, insert_relation, one_edge, second_edge, two_edges,
  relation_type, link, add_relation, remove_relation,
}
use sdd_hoffy.Memory.Relations.Laws.{apart_back}
use sdd_hoffy.Memory.Passive.{
  PassiveCaptureParams, PassiveCaptureResult, is_known, learning_params, saved_one, capture_one,
  capture_all, passive_capture,
}
use sdd_hoffy.Memory.Steps.{
  has_row, Step, relate, unrelate, Steps, stop, then_step, Steps-trans, one-Step,
}
use sdd_hoffy.Memory.Steps.Operations.{add_observation-Steps}

-- An insert that is not refused is one step, and changes no observation.
abbrev Inserted : Db → Result Error (Db × ℕ) → Type 0
Inserted db (err e) = Unit {0}
Inserted db (ok (after, id)) = Step db after × (after.observations ≡ db.observations)

insert_relation-Inserted :
    (now from to : ℕ) (type note : String) (refused : Error) (db : Db)
    → (from == to) ≡ false
    → has_row db.observations from ≡ true
    → has_row db.observations to ≡ true
    → Inserted db (insert_relation now from to type note refused db)
insert_relation-Inserted now from to type note refused db apart source target =
    elim (Bool-cases (any (same_edge from to type) db.relations)) [
      | inl used ↦ rw used tt
      | inr unused ↦ rw unused (relate _ apart source target unused, refl)
    ]

one_edge-Steps : (db : Db) (r : Result Error (Db × ℕ)) → Inserted db r → Steps db (one_edge db r).0
one_edge-Steps db (err e) h = stop
one_edge-Steps db (ok (after, id)) h = one-Step h.0

second_edge-Steps :
    (db mid : Db) (first : ℕ) (r : Result Error (Db × ℕ))
    → Steps db mid
    → Inserted mid r
    → Steps db (second_edge db first r).0
second_edge-Steps db mid first (err e) steps h = stop
second_edge-Steps db mid first (ok (after, id)) steps h = then_step steps h.0

two_edges-Steps :
    (now : ℕ) (p : AddRelationParams) (type : String) (db : Db) (r : Result Error (Db × ℕ))
    → (p.from_id == p.to_id) ≡ false
    → has_row db.observations p.from_id ≡ true
    → has_row db.observations p.to_id ≡ true
    → Inserted db r
    → Steps db (two_edges now p type db r).0
two_edges-Steps now p type db (err e) apart source target h = stop
two_edges-Steps now p type db (ok (after, id)) apart source target h =
    second_edge-Steps db after id _ (one-Step h.0) (
      insert_relation-Inserted now p.to_id p.from_id type p.note reverse_exists after
        (apart_back p.from_id p.to_id apart) (ap (λ rows. has_row rows p.to_id) h.1 ∙ target)
        (ap (λ rows. has_row rows p.from_id) h.1 ∙ source))

live_row-has_row :
    (id : ℕ) (rows : List Observation)
    → any (λ o. o.id == id && is_live o) rows ≡ true
    → has_row rows id ≡ true
live_row-has_row id [] h = h
live_row-has_row id (o ∷ rows) h = elim (Bool-cases (o.id == id)) [
  | inl here ↦ rw here refl
  | inr there ↦ rw there (live_row-has_row id rows (rw there at h))
]

link-Steps :
    (now : ℕ) (p : AddRelationParams) (type : String) (db : Db)
    → (p.from_id == p.to_id) ≡ false
    → has_row db.observations p.from_id ≡ true
    → has_row db.observations p.to_id ≡ true
    → Steps db (link now p type db).0
link-Steps now p type db apart source target =
    let inserted =
      insert_relation-Inserted now p.from_id p.to_id type p.note relation_exists db apart source
        target in
    elim (Bool-cases p.bidirectional) [
      | inl both ↦ rw both (two_edges-Steps now p type db _ apart source target inserted)
      | inr single ↦ rw single (one_edge-Steps db _ inserted)
    ]

pub add_relation-Steps :
    (now : ℕ) (p : AddRelationParams) (db : Db) → Steps db (add_relation now p db).0
unfolding add_relation
add_relation-Steps now p db = elim (Bool-cases (p.from_id == p.to_id)) [
  | inl loop ↦ rw loop stop
  | inr apart ↦ elim (Bool-cases (live_row p.from_id db && live_row p.to_id db)) [
    | inr missing ↦ rw (apart, missing) stop
    | inl present ↦
        rw (apart, present)
          (link-Steps now p (relation_type p.type) db apart
            (live_row-has_row p.from_id db.observations (ground arith))
            (live_row-has_row p.to_id db.observations (ground arith)))
  ]
]

pub remove_relation-Steps : (id : ℕ) (db : Db) → Steps db (remove_relation id db).0
unfolding remove_relation
remove_relation-Steps id db = elim (Bool-cases (any (λ r. r.id == id) db.relations)) [
  | inl there ↦ rw there (one-Step (unrelate id))
  | inr missing ↦ rw missing stop
]

saved_one-Steps :
    (db : Db) (r : PassiveCaptureResult) (added : Db × Result Error ℕ)
    → Steps db added.0
    → Steps db (saved_one r added).0
saved_one-Steps db r (after, err e) steps = steps
saved_one-Steps db r (after, ok id) steps = steps

capture_one-Steps :
    (engine : Engine) (cfg : StoreConfig) (now : ℕ) (p : PassiveCaptureParams) (learning : Text)
    (state : Db × Result Error PassiveCaptureResult)
    → Steps state.0 (capture_one engine cfg now p learning state).0
unfolding capture_one
capture_one-Steps engine cfg now p learning (db, err e) = stop
capture_one-Steps engine cfg now p learning (db, ok r) =
    elim (Bool-cases (is_known engine p.project learning db)) [
      | inl known ↦ rw known stop
      | inr unknown ↦ rw unknown (
          saved_one-Steps db r _
            (add_observation-Steps engine cfg now (learning_params p learning) db))
    ]

capture_all-Steps :
    (engine : Engine) (cfg : StoreConfig) (now : ℕ) (p : PassiveCaptureParams)
    (learnings : List Text) (state : Db × Result Error PassiveCaptureResult)
    → Steps state.0 (capture_all engine cfg now p learnings state).0
unfolding capture_all
capture_all-Steps engine cfg now p [] state = stop
capture_all-Steps engine cfg now p (learning ∷ learnings) state =
    Steps-trans (capture_one-Steps engine cfg now p learning state)
      (capture_all-Steps engine cfg now p learnings (capture_one engine cfg now p learning state))

pub passive_capture-Steps :
    (engine : Engine) (cfg : StoreConfig) (now : ℕ) (p : PassiveCaptureParams)
    (learnings : List Text) (db : Db)
    → Steps db (passive_capture engine cfg now p learnings db).0
unfolding passive_capture
passive_capture-Steps engine cfg now p learnings db =
    capture_all-Steps engine cfg now p learnings (db, _)
