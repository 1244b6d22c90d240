-- ===== src/Memory/Relations/Laws.antt =====
-- internal/memory/store.go: the invariant of the relations. No relation joins an observation with
-- itself, and at most one of a type leads from one observation to another.
use mathlib.Core.Bool.{false≢true}
use sdd_hoffy.Common.{
  ◌∙◌, String, ℕ, ◌≤◌, ◌≡◌, refl, sym, List, [], ◌∷◌, ◌++◌, Bool, false, ◌&&◌, ◌==◌, nat_eq,
  string_eq, ==_iff, All, All-append, length, keep, any, Bool-cases, inl, inr, arith,
}
use sdd_hoffy.Common.Result.{Result, ok, err}
use sdd_hoffy.Memory.Types.{Relation, Db, Error, relation_exists, reverse_exists}
use sdd_hoffy.Memory.Text.{nullable_string}
use sdd_hoffy.Memory.Observations.Kept.{length-keep-append}
use sdd_hoffy.Memory.Relations.{
  AddRelationParams, same_edge, insert_relation, one_edge, second_edge, two_edges, relation_type,
  link, add_relation, live_row,
}

pub record IsRelated (rows : List Relation) : Type 0 where
  pub no_loop : All (λ r. (r.from_id == r.to_id) ≡ false) rows
  pub single : (from to : ℕ) (type : String) → length (keep (same_edge from to type) rows) ≤ 1

none_kept {ℓ} :
    {A : Type ℓ} (p : A → Bool) (xs : List A) → any p xs ≡ false → length (keep p xs) ≡ 0
none_kept p [] h = refl
none_kept p (x ∷ xs) h = elim (Bool-cases (p x)) [
  | inl kept ↦ absurd (ground arith)
  | inr dropped ↦ rw dropped (none_kept p xs (ground arith))
]

pub add-IsRelated :
    (r : Relation) (rows : List Relation)
    → (r.from_id == r.to_id) ≡ false
    → any (same_edge r.from_id r.to_id r.type) rows ≡ false
    → IsRelated rows
    → IsRelated (rows ++ r ∷ [])
add-IsRelated r rows apart unused k = record {
  no_loop = All-append (λ x. (x.from_id == x.to_id) ≡ false) rows (r ∷ []) k.no_loop (apart, tt);
  single = λ from to type.
      rw (length-keep-append (same_edge from to type) rows r)
        (elim (Bool-cases (same_edge from to type r)) [
          | inr other ↦ rw other (omega (arith, k.single from to type))
          | inl same ↦
              let from_same : r.from_id ≡ from = (==_iff r.from_id from).0 (ground arith) in
              let to_same : r.to_id ≡ to = (==_iff r.to_id to).0 (ground arith) in
              let type_same : r.type ≡ type = (==_iff r.type type).0 (ground arith) in
              let empty = none_kept (same_edge r.from_id r.to_id r.type) rows unused in
              rw (same, sym from_same, sym to_same, sym type_same, empty) (omega arith)
        ]);
}

-- An insert that is not refused leaves the invariant.
abbrev IsInserted : Result Error (Db × ℕ) → Type 0
IsInserted (err e) = Unit {0}
IsInserted (ok (after, id)) = IsRelated after.relations

insert_relation-IsInserted :
    (now from to : ℕ) (type note : String) (refused : Error) (db : Db)
    → (from == to) ≡ false
    → IsRelated db.relations
    → IsInserted (insert_relation now from to type note refused db)
insert_relation-IsInserted now from to type note refused db apart k =
    elim (Bool-cases (any (same_edge from to type) db.relations)) [
      | inl used ↦ rw used tt
      | inr unused ↦ rw unused (
          add-IsRelated
            record {
              id = db.next_relation;
              from_id = from;
              to_id = to;
              type = type;
              note = nullable_string note;
              created_at = now;
            }
            db.relations apart unused k)
    ]

one_edge-IsRelated :
    (db : Db) (r : Result Error (Db × ℕ))
    → IsRelated db.relations
    → IsInserted r
    → IsRelated (one_edge db r).0.relations
one_edge-IsRelated db (err e) k h = k
one_edge-IsRelated db (ok (after, id)) k h = h

second_edge-IsRelated :
    (db : Db) (first : ℕ) (r : Result Error (Db × ℕ))
    → IsRelated db.relations
    → IsInserted r
    → IsRelated (second_edge db first r).0.relations
second_edge-IsRelated db first (err e) k h = k
second_edge-IsRelated db first (ok (after, id)) k h = h

pub apart_back : (m n : ℕ) → (m == n) ≡ false → (n == m) ≡ false
apart_back m n h = elim (Bool-cases (n == m)) [
  | inl same ↦ absurd (false≢true (sym h ∙ (==_iff m n).1 (sym ((==_iff n m).0 same))))
  | inr differs ↦ differs
]

two_edges-IsRelated :
    (now : ℕ) (p : AddRelationParams) (type : String) (db : Db) (r : Result Error (Db × ℕ))
    → (p.from_id == p.to_id) ≡ false
    → IsRelated db.relations
    → IsInserted r
    → IsRelated (two_edges now p type db r).0.relations
two_edges-IsRelated now p type db (err e) apart k h = k
two_edges-IsRelated now p type db (ok (after, id)) apart k h =
    second_edge-IsRelated db id
      (insert_relation now p.to_id p.from_id type p.note reverse_exists after) k
      (insert_relation-IsInserted now p.to_id p.from_id type p.note reverse_exists after
        (apart_back p.from_id p.to_id apart) h)

link-IsRelated :
    (now : ℕ) (p : AddRelationParams) (type : String) (db : Db)
    → (p.from_id == p.to_id) ≡ false
    → IsRelated db.relations
    → IsRelated (link now p type db).0.relations
link-IsRelated now p type db apart k =
    let forward = insert_relation now p.from_id p.to_id type p.note relation_exists db in
    let inserted =
      insert_relation-IsInserted now p.from_id p.to_id type p.note relation_exists db apart k in
    elim (Bool-cases p.bidirectional) [
      | inl both ↦ rw both (two_edges-IsRelated now p type db forward apart k inserted)
      | inr single ↦ rw single (one_edge-IsRelated db forward k inserted)
    ]

-- `AddRelation` keeps the invariant, whether it adds one direction or both, or fails: no relation
-- joins an observation with itself, and there is at most one of a type in each direction.
pub add_relation-IsRelated :
    (now : ℕ) (p : AddRelationParams) (db : Db)
    → IsRelated db.relations
    → IsRelated (add_relation now p db).0.relations
unfolding add_relation
add_relation-IsRelated now p db k = elim (Bool-cases (p.from_id == p.to_id)) [
  | inl loop ↦ rw loop k
  | inr apart ↦ elim (Bool-cases (live_row p.from_id db && live_row p.to_id db)) [
    | inl present ↦ rw (apart, present) (link-IsRelated now p (relation_type p.type) db apart k)
    | inr missing ↦ rw (apart, missing) k
  ]
]

one_edge_failed :
    (db : Db) (r : Result Error (Db × ℕ)) (e : Error)
    → (one_edge db r).1 ≡ err e
    → (one_edge db r).0 ≡ db
one_edge_failed db (err x) e h = refl
one_edge_failed db (ok (after, id)) e h = cc

second_edge_failed :
    (db : Db) (first : ℕ) (r : Result Error (Db × ℕ)) (e : Error)
    → (second_edge db first r).1 ≡ err e
    → (second_edge db first r).0 ≡ db
second_edge_failed db first (err x) e h = refl
second_edge_failed db first (ok (after, id)) e h = cc

two_edges_failed :
    (now : ℕ) (p : AddRelationParams) (type : String) (db : Db) (r : Result Error (Db × ℕ))
    (e : Error)
    → (two_edges now p type db r).1 ≡ err e
    → (two_edges now p type db r).0 ≡ db
two_edges_failed now p type db (err x) e h = refl
two_edges_failed now p type db (ok (after, id)) e h =
    second_edge_failed db id
      (insert_relation now p.to_id p.from_id type p.note reverse_exists after) e h

link_failed :
    (now : ℕ) (p : AddRelationParams) (type : String) (db : Db) (e : Error)
    → (link now p type db).1 ≡ err e
    → (link now p type db).0 ≡ db
link_failed now p type db e h =
    let forward = insert_relation now p.from_id p.to_id type p.note relation_exists db in
    elim (Bool-cases p.bidirectional) [
      | inl both ↦ rw both (two_edges_failed now p type db forward e (rw both at h))
      | inr single ↦ rw single (one_edge_failed db forward e (rw single at h))
    ]

-- When `AddRelation` fails, on whichever check or insert, the database is as it was before: of two
-- directions that are asked for together, never only one is left.
pub add_relation_failed :
    (now : ℕ) (p : AddRelationParams) (db : Db) (e : Error)
    → (add_relation now p db).1 ≡ err e
    → (add_relation now p db).0 ≡ db
unfolding add_relation
add_relation_failed now p db e h = elim (Bool-cases (p.from_id == p.to_id)) [
  | inl loop ↦ rw loop refl
  | inr apart ↦ elim (Bool-cases (live_row p.from_id db && live_row p.to_id db)) [
    | inl present ↦
        rw (apart, present)
          (link_failed now p (relation_type p.type) db e (rw (apart, present) at h))
    | inr missing ↦ rw (apart, missing) refl
  ]
]
