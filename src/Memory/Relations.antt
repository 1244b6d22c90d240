-- ===== src/Memory/Relations.antt =====
-- internal/memory/store.go: the relations between observations. The table's unique index is on
-- (from_id, to_id, type).
pub mod Laws
use sdd_hoffy.Common.{
  String, ℕ, zero, suc, ◌+◌, List, [], ◌∷◌, ◌++◌, Option, none, some, Bool, true, false, not, ◌&&◌,
  ◌||◌, ◌==◌, nat_eq, string_eq, length, keep, any, if◌then◌else◌,
}
use sdd_hoffy.Common.Result.{Result, ok, err}
use sdd_hoffy.Memory.Types.{
  Relation, Db, Error, self_relation, observation_missing, relation_exists, reverse_exists,
  relation_missing,
}
use sdd_hoffy.Memory.Text.{nullable_string}
use sdd_hoffy.Memory.Observations.{is_live}

pub record AddRelationParams : Type 0 where
  pub from_id : ℕ
  pub to_id : ℕ
  pub type : String
  pub note : String
  pub bidirectional : Bool

abbrev pub live_row : ℕ → Db → Bool
live_row id db = any (λ o. o.id == id && is_live o) db.observations

abbrev pub same_edge : ℕ → ℕ → String → Relation → Bool
same_edge from to type r = r.from_id == from && (r.to_id == to && r.type == type)

-- `INSERT INTO relations`, refused by the unique index with the given error
abbrev pub insert_relation : ℕ → ℕ → ℕ → String → String → Error → Db → Result Error (Db × ℕ)
insert_relation now from to type note refused db =
    if any (same_edge from to type) db.relations
    then err refused
    else ok (
      record db {
        relations =
            db.relations
            ++ record {
              id = db.next_relation;
              from_id = from;
              to_id = to;
              type = type;
              note = nullable_string note;
              created_at = now;
            }
              ∷ [];
        next_relation = db.next_relation + 1;
      },
      db.next_relation,
    )

abbrev pub one_edge : Db → Result Error (Db × ℕ) → Db × Result Error (List ℕ)
one_edge db (err e) = (db, err e)
one_edge db (ok (after, id)) = (after, ok (id ∷ []))

-- The second insert stands in the transaction of the first.
abbrev pub second_edge : Db → ℕ → Result Error (Db × ℕ) → Db × Result Error (List ℕ)
second_edge db first (err e) = (db, err e)
second_edge db first (ok (after, id)) = (after, ok (first ∷ id ∷ []))

abbrev pub two_edges :
    ℕ → AddRelationParams → String → Db → Result Error (Db × ℕ) → Db × Result Error (List ℕ)
two_edges now p type db (err e) = (db, err e)
two_edges now p type db (ok (after, id)) =
    second_edge db id (insert_relation now p.to_id p.from_id type p.note reverse_exists after)

abbrev pub relation_type : String → String
relation_type type = if type == "" then "relates_to" else type

abbrev pub link : ℕ → AddRelationParams → String → Db → Db × Result Error (List ℕ)
link now p type db =
    let forward = insert_relation now p.from_id p.to_id type p.note relation_exists db in
    if p.bidirectional then two_edges now p type db forward else one_edge db forward

unfoldable pub add_relation : ℕ → AddRelationParams → Db → Db × Result Error (List ℕ)
unfolding nullable_string
add_relation now p db =
    if p.from_id == p.to_id
    then (db, err self_relation)
    else if not (live_row p.from_id db && live_row p.to_id db)
    then (db, err observation_missing)
    else link now p (relation_type p.type) db

unfoldable pub remove_relation : ℕ → Db → Db × Result Error (Unit {0})
remove_relation id db =
    if any (λ r. r.id == id) db.relations
    then (record db { relations = keep (λ r. not (r.id == id)) db.relations }, ok tt)
    else (db, err relation_missing)

-- `GetRelations`; `ORDER BY created_at` leaves the order of relations of one second open.
unfoldable pub get_relations : (List Relation → List Relation) → ℕ → Db → List Relation
get_relations in_order id db = in_order (keep (λ r. r.from_id == id || r.to_id == id) db.relations)
