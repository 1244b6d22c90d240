-- ===== src/Memory/Graph/Context.antt =====
-- internal/memory/store.go: the result of `BuildContext`.
use sdd_hoffy.Common.{
  ℕ, zero, suc, ◌≤◌, ◌≡◌, ◌≢◌, refl, List, [], ◌∷◌, none, true, ◌||◌, ◌==◌, nat_eq, ==_iff, All,
  length, keep, leb, Bool-cases, Option-cases, inl, inr, arith, ◌⊎◌,
}
use sdd_hoffy.Common.Result.{ok}
use sdd_hoffy.Memory.Types.{Relation, Db}
use sdd_hoffy.Memory.Observations.{get_observation}
use sdd_hoffy.Memory.Observations.Kept.{All-keep, All-map_into}
use sdd_hoffy.Memory.Observations.Topics.{DistinctIds}
use sdd_hoffy.Memory.Relations.{get_relations}
use sdd_hoffy.Memory.Graph.{
  QueueItem, Walk, ContextNode, ContextResult, turn, traverse, start, turns, build_context,
  context_of, clamp_depth,
}
use sdd_hoffy.Memory.Graph.Sound.{
  Occurs, Touches, Reaches, at_root, IsWalk, node_ids, follow_all-IsWalk,
}

-- What `ORDER BY` does to rows: it returns the same ones.
pub record IsOrder (in_order : List Relation → List Relation) : Type 1 where
  pub same_rows :
      (P : Relation → Type 0) (rows : List Relation) → All P rows → All P (in_order rows)

All-occur :
    (rows more : List Relation)
    → ((r : Relation) → Occurs r rows → Occurs r more)
    → All (λ r. Occurs r more) rows
All-occur [] more h = tt
All-occur (x ∷ rows) more h = (h x (inl refl), All-occur rows more (λ r o. h r (inr o)))

touches_end :
    (i : ℕ) (r : Relation)
    → (r.from_id == i || r.to_id == i) ≡ true
    → (r.from_id ≡ i) ⊎ (r.to_id ≡ i)
touches_end i r h = elim (Bool-cases (r.from_id == i)) [
  | inl leaves ↦ inl ((==_iff r.from_id i).0 leaves)
  | inr other ↦ inr ((==_iff r.to_id i).0 (rw other at h))
]

get_relations-Touches :
    (in_order : List Relation → List Relation) (i : ℕ) (db : Db)
    → IsOrder in_order
    → All (Touches db.relations i) (get_relations in_order i db)
unfolding get_relations
get_relations-Touches in_order i db lawful =
    let test = λ (r : Relation). (r.from_id == i || r.to_id == i) in
    lawful.same_rows (Touches db.relations i) (keep test db.relations) (
      All-map_into (λ r. Occurs r db.relations × (test r ≡ true)) (Touches db.relations i)
        (keep test db.relations) (λ r both. (both.0, touches_end i r both.1))
        (All-keep (λ r. Occurs r db.relations) test db.relations
          (All-occur db.relations db.relations (λ r o. o))))

turn-IsWalk :
    (in_order : List Relation → List Relation) (db : Db) (root max : ℕ) (queue : List QueueItem)
    (w : Walk)
    → IsOrder in_order
    → All (λ q. (q.depth ≤ max) × Reaches db.relations root q.id q.depth) queue
    → IsWalk db root max w
    → IsWalk db root max (turn in_order db max queue w)
turn-IsWalk in_order db root max [] w lawful h k = k
turn-IsWalk in_order db root max (q ∷ qs) w lawful h k =
    let rest : IsWalk db root max (record w { queue = qs }) = record {
      queued = h.1;
      found = k.found;
      depths = k.depths;
      within = k.within;
      distinct = k.distinct;
      known = k.known;
    } in
    elim (Bool-cases (leb max q.depth)) [
      | inl deep ↦ rw deep rest
      | inr shallow ↦ rw shallow (
          follow_all-IsWalk db root max q (get_relations in_order q.id db) (record w { queue = qs })
            (ground arith) h.0.1 (get_relations-Touches in_order q.id db lawful) rest)
    ]

traverse-IsWalk :
    (in_order : List Relation → List Relation) (db : Db) (root max fuel : ℕ) (w : Walk)
    → IsOrder in_order
    → IsWalk db root max w
    → IsWalk db root max (traverse in_order db max fuel w)
unfolding traverse
traverse-IsWalk in_order db root max zero w lawful k = k
traverse-IsWalk in_order db root max (suc fuel) w lawful k =
    traverse-IsWalk in_order db root max fuel (turn in_order db max w.queue w) lawful
      (turn-IsWalk in_order db root max w.queue w lawful k.queued k)

start-IsWalk : (db : Db) (root max : ℕ) → IsWalk db root max (start root)
start-IsWalk db root max = record {
  queued = ((omega arith, at_root), tt);
  found = tt;
  depths = tt;
  within = omega arith;
  distinct = (tt, tt);
  known = (rw ((==_iff root root).1 refl) refl, tt);
}

clamp_between : (max : ℕ) → (1 ≤ clamp_depth max) × (clamp_depth max ≤ 5)
unfolding clamp_depth
clamp_between max = ground arith

-- What a context promises of its nodes.
pub record IsContext (db : Db) (id max : ℕ) (result : ContextResult) : Type 0 where
  pub distinct : DistinctIds (id ∷ node_ids result.connected)
  pub found :
      All
        (λ n. ((1 ≤ n.depth) × (n.depth ≤ result.max_depth)) × Reaches db.relations id n.id n.depth)
        result.connected
  pub within : (result.max_depth ≤ clamp_depth max) × (clamp_depth max ≤ 5)
  pub counted : result.total_nodes ≡ length result.connected

both_bounds :
    (db : Db) (id max m : ℕ) (ns : List ContextNode)
    → All (λ n. ((1 ≤ n.depth) × (n.depth ≤ max)) × Reaches db.relations id n.id n.depth) ns
    → All (λ n. n.depth ≤ m) ns
    → All (λ n. ((1 ≤ n.depth) × (n.depth ≤ m)) × Reaches db.relations id n.id n.depth) ns
both_bounds db id max m [] h d = tt
both_bounds db id max m (n ∷ ns) h d = (((h.0.0.0, d.0), h.0.1), both_bounds db id max m ns h.1 d.1)

-- `BuildContext` on an observation that can be read returns a context, for any relations, cycles
-- included: each observation at most once and never the root, each reached from the root over as many
-- relations as its depth says, at depth 1 to the reported maximal depth, which is at most the limit
-- and so at most 5, with their number. `ORDER BY` is taken to return the rows that it is given.
pub build_context-IsContext :
    (in_order : List Relation → List Relation) (id max : ℕ) (db : Db)
    → IsOrder in_order
    → get_observation id db ≢ none
    → (result : ContextResult) × ((build_context in_order id max db ≡ ok result)
        × IsContext db id max result)
unfolding build_context
build_context-IsContext in_order id max db lawful live =
    elim (Option-cases (get_observation id db)) [
      | inl missing ↦ absurd (live missing)
      | inr (root, present) ↦
          let walk = traverse in_order db (clamp_depth max) (turns db) (start id) in
          let k =
            traverse-IsWalk in_order db id (clamp_depth max) (turns db) (start id) lawful
              (start-IsWalk db id (clamp_depth max)) in
          (
            context_of root walk,
            (
              rw (present, build_context) refl,
              record {
                distinct = k.distinct;
                found =
                    both_bounds db id (clamp_depth max) walk.deepest walk.connected k.found
                      k.depths;
                within = (k.within, (clamp_between max).1);
                counted = refl;
              },
            ),
          )
    ]
