-- ===== src/Memory/Graph/Sound.antt =====
-- internal/memory/store.go: the invariant of the walk of `BuildContext`.
use sdd_hoffy.Common.{
  ℕ, ◌+◌, ◌≤◌, ◌<◌, ◌≡◌, refl, sym, ap, ◌∙◌, List, [], ◌∷◌, ◌++◌, some, true, false, ◌==◌, nat_eq,
  ==_iff, All, All-append, find, ltb, if◌then◌else◌, Bool-cases, Option-cases, inl, inr, arith, ◌⊎◌,
}
use mathlib.Core.Bool.{false≢true}
use mathlib.Core.Option.{none-ne-some, some-injective}
use sdd_hoffy.Memory.Types.{Observation, Relation, Db}
use sdd_hoffy.Memory.Observations.Kept.{All-map_into}
use sdd_hoffy.Memory.Observations.Topics.{DistinctIds}
use sdd_hoffy.Memory.Graph.{
  QueueItem, Walk, ContextNode, other_end, row_of, is_visited, reach, follow, follow_all, node_of,
}
use sdd_hoffy.Memory.Graph.Drained.{any-append, seen}

abbrev pub Occurs : Relation → List Relation → Type 0
Occurs x [] = ⊥
Occurs x (y ∷ ys) = (x ≡ y) ⊎ Occurs x ys

-- `b` is reached from `a` over `n` relations, each followed in either direction.
pub data Reaches (rows : List Relation) (a : ℕ) : ℕ → ℕ → Type 0 where
  at_root : Reaches rows a a 0
  over :
      (b n : ℕ) (r : Relation)
      → Reaches rows a b n
      → Occurs r rows
      → ((r.from_id ≡ b) ⊎ (r.to_id ≡ b))
      → Reaches rows a (other_end b r) (n + 1)

abbrev pub node_ids : List ContextNode → List ℕ
node_ids [] = []
node_ids (n ∷ ns) = n.id ∷ node_ids ns

pub record IsWalk (db : Db) (root max : ℕ) (w : Walk) : Type 0 where
  pub queued : All (λ q. (q.depth ≤ max) × Reaches db.relations root q.id q.depth) w.queue
  pub found :
      All
        (λ n. ((1 ≤ n.depth) × (n.depth ≤ max)) × Reaches db.relations root n.id n.depth)
        w.connected
  pub depths : All (λ n. n.depth ≤ w.deepest) w.connected
  pub within : w.deepest ≤ max
  pub distinct : DistinctIds (root ∷ node_ids w.connected)
  pub known : All (λ i. seen w.visited i ≡ true) (root ∷ node_ids w.connected)

seen_more : (vs : List ℕ) (x i : ℕ) → seen vs i ≡ true → seen (vs ++ x ∷ []) i ≡ true
seen_more vs x i h = rw (any-append (λ v. v == i) vs x, h) refl

seen_new : (vs : List ℕ) (x : ℕ) → seen (vs ++ x ∷ []) x ≡ true
seen_new vs x = elim (Bool-cases (seen vs x)) [
  | inl old ↦ seen_more vs x x old
  | inr new ↦ rw (any-append (λ v. v == x) vs x, new, (==_iff x x).1 refl) refl
]

known_apart :
    (vs : List ℕ) (x : ℕ) (is : List ℕ)
    → All (λ i. seen vs i ≡ true) is
    → seen vs x ≡ false
    → All (λ i. (i == x) ≡ false) is
known_apart vs x [] k new = tt
known_apart vs x (i ∷ is) k new = (
  elim (Bool-cases (i == x)) [
    | inl same ↦ absurd (false≢true (sym new ∙ (ap (seen vs) (sym ((==_iff i x).0 same)) ∙ k.0)))
    | inr apart ↦ apart
  ],
  known_apart vs x is k.1 new,
)

DistinctIds-add :
    (n : ℕ) (is : List ℕ)
    → All (λ i. (i == n) ≡ false) is
    → DistinctIds is
    → DistinctIds (is ++ n ∷ [])
DistinctIds-add n [] h d = (tt, tt)
DistinctIds-add n (i ∷ is) h d =
    (All-append (λ j. (i == j) ≡ false) is (n ∷ []) d.0 (h.0, tt), DistinctIds-add n is h.1 d.1)

node_ids-append :
    (ns : List ContextNode) (n : ContextNode) → node_ids (ns ++ n ∷ []) ≡ node_ids ns ++ n.id ∷ []
node_ids-append [] n = refl
node_ids-append (m ∷ ns) n = ap (λ is. m.id ∷ is) (node_ids-append ns n)

found_id :
    (x : ℕ) (os : List Observation) (o : Observation) → find (λ r. r.id == x) os ≡ some o → o.id ≡ x
found_id x [] o h = absurd (none-ne-some o h)
found_id x (r ∷ os) o h = elim (Bool-cases (r.id == x)) [
  | inl here ↦
      let same : r ≡ o = some-injective r o (rw here at h) in
      sym (ap (λ q. q.id) same) ∙ (==_iff r.id x).0 here
  | inr other ↦ found_id x os o (rw other at h)
]

missed-IsWalk :
    (db : Db) (root max x : ℕ) (w : Walk)
    → IsWalk db root max w
    → IsWalk db root max (record w { visited = w.visited ++ x ∷ [] })
missed-IsWalk db root max x w k = record {
  queued = k.queued;
  found = k.found;
  depths = k.depths;
  within = k.within;
  distinct = k.distinct;
  known =
      All-map_into (λ i. seen w.visited i ≡ true) (λ i. seen (w.visited ++ x ∷ []) i ≡ true)
        (root ∷ node_ids w.connected) (seen_more w.visited x) k.known;
}

-- The new value of `actualMaxDepth`.
deepest_ge : (a b : ℕ) → (a ≤ (if ltb a b then b else a)) × (b ≤ (if ltb a b then b else a))
deepest_ge a b = ground arith

deepest_le : (a b max : ℕ) → a ≤ max → b ≤ max → (if ltb a b then b else a) ≤ max
deepest_le a b max ha hb = ground arith

reached-IsWalk :
    (db : Db) (root max : ℕ) (current : QueueItem) (r : Relation) (o : Observation) (w : Walk)
    → IsWalk db root max w
    → current.depth < max
    → Reaches db.relations root (other_end current.id r) (current.depth + 1)
    → o.id ≡ other_end current.id r
    → seen w.visited (other_end current.id r) ≡ false
    → IsWalk db root max (reach current r (some o) w)
reached-IsWalk db root max current r o w k shallow reached same_id new =
    let x = other_end current.id r in
    let more = node_ids-append w.connected (node_of current r o) in
    record {
      queued =
          All-append (λ q. (q.depth ≤ max) × Reaches db.relations root q.id q.depth) w.queue _
            k.queued ((omega arith, reached), tt);
      found =
          All-append
            (λ n. ((1 ≤ n.depth) × (n.depth ≤ max)) × Reaches db.relations root n.id n.depth)
            w.connected _ k.found (((omega arith, omega arith), rw same_id reached), tt);
      depths =
          All-append (λ n. n.depth ≤ (reach current r (some o) w).deepest) w.connected _
            (All-map_into (λ n. n.depth ≤ w.deepest)
              (λ n. n.depth ≤ (reach current r (some o) w).deepest) w.connected
              (λ n below. omega (arith, below, (deepest_ge w.deepest (current.depth + 1)).0))
              k.depths)
            ((deepest_ge w.deepest (current.depth + 1)).1, tt);
      within = deepest_le w.deepest (current.depth + 1) max k.within (omega arith);
      distinct =
          rw (more, same_id)
            (DistinctIds-add x (root ∷ node_ids w.connected)
              (known_apart w.visited x (root ∷ node_ids w.connected) k.known new) k.distinct);
      known =
          rw (more, same_id)
            (All-append (λ i. seen (w.visited ++ x ∷ []) i ≡ true) (root ∷ node_ids w.connected)
              (x ∷ []) (missed-IsWalk db root max x w k).known (seen_new w.visited x, tt));
    }

-- What the inner loop knows of its relations.
abbrev pub Touches : List Relation → ℕ → Relation → Type 0
Touches rows i r = Occurs r rows × ((r.from_id ≡ i) ⊎ (r.to_id ≡ i))

follow-IsWalk :
    (db : Db) (root max : ℕ) (current : QueueItem) (r : Relation) (w : Walk)
    → current.depth < max
    → Reaches db.relations root current.id current.depth
    → Touches db.relations current.id r
    → IsWalk db root max w
    → IsWalk db root max (follow db current r w)
follow-IsWalk db root max current r w shallow reached touches k =
    let x = other_end current.id r in
    elim (Bool-cases (is_visited x w)) [
      | inl old ↦ rw old k
      | inr new ↦ elim (Option-cases (row_of x db)) [
        | inl missing ↦ rw (new, missing) (missed-IsWalk db root max x w k)
        | inr (o, found) ↦
            rw (new, found)
              (reached-IsWalk db root max current r o w k shallow
                (over current.id current.depth r reached touches.0 touches.1)
                (found_id x db.observations o found) new)
      ]
    ]

pub follow_all-IsWalk :
    (db : Db) (root max : ℕ) (current : QueueItem) (rs : List Relation) (w : Walk)
    → current.depth < max
    → Reaches db.relations root current.id current.depth
    → All (Touches db.relations current.id) rs
    → IsWalk db root max w
    → IsWalk db root max (follow_all db current rs w)
unfolding follow_all
follow_all-IsWalk db root max current [] w shallow reached touches k = k
follow_all-IsWalk db root max current (r ∷ rs) w shallow reached touches k =
    follow_all-IsWalk db root max current rs (follow db current r w) shallow reached touches.1
      (follow-IsWalk db root max current r w shallow reached touches.0 k)
