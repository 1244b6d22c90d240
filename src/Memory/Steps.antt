-- ===== src/Memory/Steps.antt =====
-- internal/memory/store.go: the changes that the statements of the store make to its tables, as a step
-- relation. Each operation of the store is a sequence of them (Steps/Operations).
pub mod Linked
pub mod Reached
pub mod Operations
pub mod Relating
use sdd_hoffy.Common.{
  String, ℕ, ◌+◌, ◌≡◌, List, [], ◌∷◌, ◌++◌, Bool, true, false, not, ◌||◌, ◌==◌, nat_eq, string_eq,
  any, keep, update_where,
}
use sdd_hoffy.Memory.Types.{Session, Observation, Relation, Db}
use sdd_hoffy.Memory.Observations.{session_exists}
use sdd_hoffy.Memory.Observations.Edits.{hard_delete}
use sdd_hoffy.Memory.Relations.{same_edge}

abbrev pub has_row : List Observation → ℕ → Bool
has_row rows id = any (λ o. o.id == id) rows

-- One statement: sessions are added or edited, an observation is edited, inserted or erased with its
-- relations, a relation is inserted or removed.
pub data Step (db : Db) : Db → Type 0 where
  sessions :
      (rows : List Session)
      → ((id : String) → session_exists id db ≡ true → any (λ s. s.id == id) rows ≡ true)
      → Step db (record db { sessions = rows })
  edit :
      (q : Observation → Bool) (f : Observation → Observation)
      → ((o : Observation) → (f o).id ≡ o.id)
      → ((o : Observation) → (f o).session_id ≡ o.session_id)
      → Step db (record db { observations = update_where q f db.observations })
  insert :
      (o : Observation)
      → o.id ≡ db.next_observation
      → session_exists o.session_id db ≡ true
      → Step db (record db {
        observations = db.observations ++ o ∷ [];
        next_observation = db.next_observation + 1;
      })
  erase : (id : ℕ) → Step db (hard_delete id db)
  relate :
      (r : Relation)
      → (r.from_id == r.to_id) ≡ false
      → has_row db.observations r.from_id ≡ true
      → has_row db.observations r.to_id ≡ true
      → any (same_edge r.from_id r.to_id r.type) db.relations ≡ false
      → Step db
          (record db { relations = db.relations ++ r ∷ []; next_relation = db.next_relation + 1 })
  unrelate :
      (id : ℕ) → Step db (record db { relations = keep (λ r. not (r.id == id)) db.relations })

pub data Steps (db : Db) : Db → Type 0 where
  stop : Steps db db
  then_step : {mid after : Db} → Steps db mid → Step mid after → Steps db after

pub Steps-trans : {db mid after : Db} → Steps db mid → Steps mid after → Steps db after
Steps-trans first stop = first
Steps-trans first (then_step rest last) = then_step (Steps-trans first rest) last

pub one-Step : {db after : Db} → Step db after → Steps db after
one-Step s = then_step stop s
