-- ===== src/Memory/Steps/Reached.antt =====
-- internal/memory/store.go: the integrity of the tables along steps.
use sdd_hoffy.Common.{
  String, ℕ, ◌+◌, ◌≤◌, ◌<◌, ◌≡◌, List, [], ◌∷◌, ◌++◌, Bool, true, false, not, ◌||◌, ◌==◌, nat_eq,
  string_eq, All, All-append, any, keep, length, arith, Bool-cases, inl, inr,
}
use sdd_hoffy.Memory.Types.{Observation, Relation, Db}
use sdd_hoffy.Memory.Observations.{session_exists}
use sdd_hoffy.Memory.Observations.Edits.{hard_delete}
use sdd_hoffy.Memory.Observations.Kept.{All-keep, All-map_into}
use sdd_hoffy.Memory.Observations.Topics.{ids, DistinctIds}
use sdd_hoffy.Memory.Relations.{same_edge}
use sdd_hoffy.Memory.Relations.Laws.{IsRelated, add-IsRelated}
use sdd_hoffy.Memory.Steps.{
  has_row, Step, sessions, edit, insert, erase, relate, unrelate, Steps, stop, then_step,
}
use sdd_hoffy.Memory.Steps.Linked.{
  Joined, IsLinked, sessions-IsLinked, edit-IsLinked, insert-IsLinked,
}

relate-IsLinked :
    (db : Db) (r : Relation)
    → (r.from_id == r.to_id) ≡ false
    → has_row db.observations r.from_id ≡ true
    → has_row db.observations r.to_id ≡ true
    → any (same_edge r.from_id r.to_id r.type) db.relations ≡ false
    → IsLinked db
    → IsLinked
        (record db { relations = db.relations ++ r ∷ []; next_relation = db.next_relation + 1 })
relate-IsLinked db r apart from to unused k = record {
  fresh = k.fresh;
  distinct = k.distinct;
  in_session = k.in_session;
  joined = All-append (Joined db.observations) db.relations (r ∷ []) k.joined ((from, to), tt);
  related = add-IsRelated r db.relations apart unused k.related;
}

length-keep-keep :
    (e p : Relation → Bool) (rows : List Relation)
    → length (keep e (keep p rows)) ≤ length (keep e rows)
length-keep-keep e p [] = omega arith
length-keep-keep e p (r ∷ rows) = elim (Bool-cases (p r)) [
  | inl kept ↦ rw kept (ground (arith, length-keep-keep e p rows))
  | inr dropped ↦ rw dropped (ground (arith, length-keep-keep e p rows))
]

keep-IsRelated :
    (p : Relation → Bool) (rows : List Relation) → IsRelated rows → IsRelated (keep p rows)
keep-IsRelated p rows k = record {
  no_loop =
      All-map_into (λ r. ((r.from_id == r.to_id) ≡ false) × (p r ≡ true))
        (λ r. (r.from_id == r.to_id) ≡ false) (keep p rows) (λ r h. h.0)
        (All-keep (λ r. (r.from_id == r.to_id) ≡ false) p rows k.no_loop);
  single = λ from to type.
      omega (arith, length-keep-keep (same_edge from to type) p rows, k.single from to type);
}

All-weaker :
    {A : Type 0} (P : A → Type 0) (p : A → Bool) (rows : List A) → All P rows → All P (keep p rows)
All-weaker P p rows h =
    All-map_into (λ x. P x × (p x ≡ true)) P (keep p rows) (λ x k. k.0) (All-keep P p rows h)

unrelate-IsLinked :
    (db : Db) (p : Relation → Bool)
    → IsLinked db
    → IsLinked (record db { relations = keep p db.relations })
unrelate-IsLinked db p k = record {
  fresh = k.fresh;
  distinct = k.distinct;
  in_session = k.in_session;
  joined = All-weaker (Joined db.observations) p db.relations k.joined;
  related = keep-IsRelated p db.relations k.related;
}

ids-keep :
    (P : ℕ → Type 0) (p : Observation → Bool) (rows : List Observation)
    → All P (ids rows)
    → All P (ids (keep p rows))
ids-keep P p [] h = tt
ids-keep P p (o ∷ rows) h = elim (Bool-cases (p o)) [
  | inl kept ↦ rw kept (h.0, ids-keep P p rows h.1)
  | inr dropped ↦ rw dropped (ids-keep P p rows h.1)
]

DistinctIds-keep :
    (p : Observation → Bool) (rows : List Observation)
    → DistinctIds (ids rows)
    → DistinctIds (ids (keep p rows))
DistinctIds-keep p [] h = tt
DistinctIds-keep p (o ∷ rows) h = elim (Bool-cases (p o)) [
  | inl kept ↦ rw kept (ids-keep (λ j. (o.id == j) ≡ false) p rows h.0, DistinctIds-keep p rows h.1)
  | inr dropped ↦ rw dropped (DistinctIds-keep p rows h.1)
]

-- A row other than the erased one is still there.
has_row-keep :
    (id other : ℕ) (rows : List Observation)
    → (other == id) ≡ false
    → has_row rows other ≡ true
    → has_row (keep (λ o. not (o.id == id)) rows) other ≡ true
has_row-keep id other [] apart h = h
has_row-keep id other (o ∷ rows) apart h = ground (arith, has_row-keep id other rows apart)

still_joined :
    (id : ℕ) (rows : List Observation) (r : Relation)
    → Joined rows r × (not (r.from_id == id || r.to_id == id) ≡ true)
    → Joined (keep (λ o. not (o.id == id)) rows) r
still_joined id rows r h = (
  has_row-keep id r.from_id rows (ground arith) h.0.0,
  has_row-keep id r.to_id rows (ground arith) h.0.1,
)

erase-IsLinked : (db : Db) (id : ℕ) → IsLinked db → IsLinked (hard_delete id db)
erase-IsLinked db id k =
    let p = λ (o : Observation). not (o.id == id) in
    let q = λ (r : Relation). not (r.from_id == id || r.to_id == id) in
    record {
      fresh = ids-keep (λ i. i < db.next_observation) p db.observations k.fresh;
      distinct = DistinctIds-keep p db.observations k.distinct;
      in_session =
          All-weaker (λ o. session_exists o.session_id db ≡ true) p db.observations k.in_session;
      joined =
          All-map_into (λ r. Joined db.observations r × (q r ≡ true))
            (Joined (keep p db.observations)) (keep q db.relations)
            (still_joined id db.observations)
            (All-keep (Joined db.observations) q db.relations k.joined);
      related = keep-IsRelated q db.relations k.related;
    }

Step-IsLinked : {db after : Db} → Step db after → IsLinked db → IsLinked after
Step-IsLinked {db} (sessions rows grown) k = sessions-IsLinked db rows grown k
Step-IsLinked {db} (edit q f same_id same_session) k = edit-IsLinked db q f same_id same_session k
Step-IsLinked {db} (insert o new there) k = insert-IsLinked db o new there k
Step-IsLinked {db} (erase id) k = erase-IsLinked db id k
Step-IsLinked {db} (relate r apart from to unused) k = relate-IsLinked db r apart from to unused k
Step-IsLinked {db} (unrelate id) k = unrelate-IsLinked db (λ r. not (r.id == id)) k

pub Steps-IsLinked : {db after : Db} → Steps db after → IsLinked db → IsLinked after
Steps-IsLinked stop k = k
Steps-IsLinked (then_step rest last) k = Step-IsLinked last (Steps-IsLinked rest k)

Step-sessions :
    {db after : Db} (id : String)
    → Step db after
    → session_exists id db ≡ true
    → session_exists id after ≡ true
Step-sessions id (sessions rows grown) h = grown id h
Step-sessions id (edit q f same_id same_session) h = h
Step-sessions id (insert o new there) h = h
Step-sessions id (erase i) h = h
Step-sessions id (relate r apart from to unused) h = h
Step-sessions id (unrelate i) h = h

-- Steps lose no session.
pub Steps-sessions :
    {db after : Db} (id : String)
    → Steps db after
    → session_exists id db ≡ true
    → session_exists id after ≡ true
Steps-sessions id stop h = h
Steps-sessions id (then_step rest last) h = Step-sessions id last (Steps-sessions id rest h)
