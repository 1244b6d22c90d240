-- ===== src/Memory/Steps/Linked.antt =====
-- internal/memory/store.go: the integrity of the tables. Identifiers of observations are distinct and
-- below the counter, an observation's session exists, a relation joins two observations that exist.
use sdd_hoffy.Common.{
  String, ℕ, ◌+◌, ◌<◌, ◌≡◌, refl, ap, ◌∙◌, List, [], ◌∷◌, ◌++◌, Bool, true, ◌==◌, nat_eq, string_eq,
  All, All-append, any, any-append_left, update_where, arith, Bool-cases, inl, inr,
}
use sdd_hoffy.Memory.Types.{Session, Observation, Relation, Db}
use sdd_hoffy.Memory.Observations.{session_exists}
use sdd_hoffy.Memory.Observations.Kept.{All-map_into}
use sdd_hoffy.Memory.Observations.Topics.{
  ids, DistinctIds, ids-update_where, ids-append, All-fresh, DistinctIds-append,
}
use sdd_hoffy.Memory.Relations.Laws.{IsRelated}
use sdd_hoffy.Memory.Steps.{has_row}

abbrev pub Joined : List Observation → Relation → Type 0
Joined rows r = (has_row rows r.from_id ≡ true) × (has_row rows r.to_id ≡ true)

pub record IsLinked (db : Db) : Type 0 where
  pub fresh : All (λ i. i < db.next_observation) (ids db.observations)
  pub distinct : DistinctIds (ids db.observations)
  pub in_session : All (λ o. session_exists o.session_id db ≡ true) db.observations
  pub joined : All (Joined db.observations) db.relations
  pub related : IsRelated db.relations

pub sessions-IsLinked :
    (db : Db) (rows : List Session)
    → ((id : String) → session_exists id db ≡ true → any (λ s. s.id == id) rows ≡ true)
    → IsLinked db
    → IsLinked (record db { sessions = rows })
sessions-IsLinked db rows grown k = record {
  fresh = k.fresh;
  distinct = k.distinct;
  in_session =
      All-map_into (λ o. session_exists o.session_id db ≡ true)
        (λ o. any (λ s. s.id == o.session_id) rows ≡ true) db.observations
        (λ o h. grown o.session_id h) k.in_session;
  joined = k.joined;
  related = k.related;
}

has_row-update_where :
    (q : Observation → Bool) (f : Observation → Observation) (rows : List Observation) (id : ℕ)
    → ((o : Observation) → (f o).id ≡ o.id)
    → has_row (update_where q f rows) id ≡ has_row rows id
has_row-update_where q f [] id same = refl
has_row-update_where q f (o ∷ rows) id same = elim (Bool-cases (q o)) [
  | inl here ↦ rw (here, same o, has_row-update_where q f rows id same) refl
  | inr there ↦ rw (there, has_row-update_where q f rows id same) refl
]

sessions-update_where :
    (db : Db) (q : Observation → Bool) (f : Observation → Observation) (rows : List Observation)
    → ((o : Observation) → (f o).session_id ≡ o.session_id)
    → All (λ o. session_exists o.session_id db ≡ true) rows
    → All (λ o. session_exists o.session_id db ≡ true) (update_where q f rows)
sessions-update_where db q f [] same h = tt
sessions-update_where db q f (o ∷ rows) same h = elim (Bool-cases (q o)) [
  | inl here ↦
      rw here
        (ap (λ i. session_exists i db) (same o) ∙ h.0, sessions-update_where db q f rows same h.1)
  | inr there ↦ rw there (h.0, sessions-update_where db q f rows same h.1)
]

pub edit-IsLinked :
    (db : Db) (q : Observation → Bool) (f : Observation → Observation)
    → ((o : Observation) → (f o).id ≡ o.id)
    → ((o : Observation) → (f o).session_id ≡ o.session_id)
    → IsLinked db
    → IsLinked (record db { observations = update_where q f db.observations })
edit-IsLinked db q f same_id same_session k =
    let same = ids-update_where q f db.observations same_id in
    record {
      fresh = rw same k.fresh;
      distinct = rw same k.distinct;
      in_session = sessions-update_where db q f db.observations same_session k.in_session;
      joined =
          All-map_into (Joined db.observations) (Joined (update_where q f db.observations))
            db.relations
            (λ r h. (
              has_row-update_where q f db.observations r.from_id same_id ∙ h.0,
              has_row-update_where q f db.observations r.to_id same_id ∙ h.1,
            ))
            k.joined;
      related = k.related;
    }

pub insert-IsLinked :
    (db : Db) (o : Observation)
    → o.id ≡ db.next_observation
    → session_exists o.session_id db ≡ true
    → IsLinked db
    → IsLinked (record db {
      observations = db.observations ++ o ∷ [];
      next_observation = db.next_observation + 1;
    })
insert-IsLinked db o new there k =
    let split = ids-append db.observations o in
    record {
      fresh =
          rw (split, new)
            (All-append (λ i. i < db.next_observation + 1) (ids db.observations)
              (db.next_observation ∷ [])
              (All-fresh db.next_observation (ids db.observations) k.fresh) (omega arith, tt));
      distinct =
          rw (split, new)
            (DistinctIds-append db.next_observation (ids db.observations) k.fresh k.distinct);
      in_session =
          All-append (λ x. session_exists x.session_id db ≡ true) db.observations (o ∷ [])
            k.in_session (there, tt);
      joined =
          All-map_into (Joined db.observations) (Joined (db.observations ++ o ∷ [])) db.relations
            (λ r h. (
              any-append_left (λ x. x.id == r.from_id) db.observations (o ∷ []) h.0,
              any-append_left (λ x. x.id == r.to_id) db.observations (o ∷ []) h.1,
            ))
            k.joined;
      related = k.related;
    }
