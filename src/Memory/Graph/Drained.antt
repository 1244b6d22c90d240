-- ===== src/Memory/Graph/Drained.antt =====
-- internal/memory/store.go: how much of the walk of `BuildContext` is left.
use sdd_hoffy.Common.{
  ℕ, zero, suc, ◌+◌, ◌≤◌, ◌<◌, ◌≡◌, refl, sym, ap, ◌∙◌, List, [], ◌∷◌, ◌++◌, some, Bool, true,
  false, not, ◌||◌, ◌==◌, nat_eq, ==_iff, length, length-append, length-keep-le, keep, find, any,
  leb, Bool-cases, Option-cases, inl, inr, arith,
}
use mathlib.Core.Option.{none-ne-some}
use sdd_hoffy.Memory.Types.{Observation, Relation, Db}
use sdd_hoffy.Memory.Relations.{get_relations}
use sdd_hoffy.Memory.Graph.{
  QueueItem, Walk, other_end, row_of, is_visited, follow, follow_all, expand, turn, traverse, start,
  turns,
}

pub any-append {ℓ} :
    {A : Type ℓ} (p : A → Bool) (xs : List A) (y : A) → any p (xs ++ y ∷ []) ≡ (any p xs || p y)
any-append p [] y = ground arith
any-append p (x ∷ xs) y = ground (arith, any-append p xs y)

abbrev pub seen : List ℕ → ℕ → Bool
seen vs i = any (λ v. v == i) vs

abbrev unvisited : List ℕ → List Observation → ℕ
unvisited vs os = length (keep (λ o. not (seen vs o.id)) os)

unvisited_shrinks :
    (vs : List ℕ) (x : ℕ) (os : List Observation) → unvisited (vs ++ x ∷ []) os ≤ unvisited vs os
unvisited_shrinks vs x [] = ground arith
unvisited_shrinks vs x (o ∷ os) =
    let more = any-append (λ v. v == o.id) vs x in
    elim (Bool-cases (seen vs o.id)) [
      | inl old ↦ rw (more, old) (unvisited_shrinks vs x os)
      | inr new ↦ elim (Bool-cases (x == o.id)) [
        | inl here ↦ rw (more, new, here) (omega (arith, unvisited_shrinks vs x os))
        | inr other ↦ rw (more, new, other) (omega (arith, unvisited_shrinks vs x os))
      ]
    ]

unvisited_less :
    (vs : List ℕ) (x : ℕ) (os : List Observation) (o : Observation)
    → find (λ r. r.id == x) os ≡ some o
    → seen vs x ≡ false
    → unvisited (vs ++ x ∷ []) os < unvisited vs os
unvisited_less vs x [] o found new = absurd (none-ne-some o found)
unvisited_less vs x (r ∷ os) o found new =
    let more = any-append (λ v. v == r.id) vs x in
    elim (Bool-cases (r.id == x)) [
      | inl here ↦
          let same : r.id ≡ x = (==_iff r.id x).0 here in
          let back : (x == r.id) ≡ true = (==_iff x r.id).1 (sym same) in
          let not_seen : seen vs r.id ≡ false = ap (seen vs) same ∙ new in
          rw (more, not_seen, back) (omega (arith, unvisited_shrinks vs x os))
      | inr other ↦
          let rest = unvisited_less vs x os o (rw other at found) new in
          elim (Bool-cases (seen vs r.id)) [
            | inl old ↦ rw (more, old) rest
            | inr unseen ↦ elim (Bool-cases (x == r.id)) [
              | inl back ↦ rw (more, unseen, back) (omega (arith, rest))
              | inr apart ↦ rw (more, unseen, apart) (omega (arith, rest))
            ]
          ]
    ]

-- What is left to do.
abbrev left : Db → Walk → ℕ
left db w = length w.queue + unvisited w.visited db.observations

left-follow :
    (db : Db) (current : QueueItem) (r : Relation) (w : Walk)
    → left db (follow db current r w) ≤ left db w
left-follow db current r w =
    let x = other_end current.id r in
    elim (Bool-cases (is_visited x w)) [
      | inl old ↦ rw old (omega arith)
      | inr new ↦ elim (Option-cases (row_of x db)) [
        | inl missing ↦
            rw (new, missing) (omega (arith, unvisited_shrinks w.visited x db.observations))
        | inr (o, found) ↦
            rw
              (
                new,
                found,
                length-append w.queue (record { id = x; depth = current.depth + 1 } ∷ []),
              )
              (omega (arith, unvisited_less w.visited x db.observations o found new))
      ]
    ]

left-follow_all :
    (db : Db) (current : QueueItem) (rs : List Relation) (w : Walk)
    → left db (follow_all db current rs w) ≤ left db w
unfolding follow_all
left-follow_all db current [] w = omega arith
left-follow_all db current (r ∷ rs) w =
    omega (arith, left-follow_all db current rs (follow db current r w), left-follow db current r w)

left-expand :
    (in_order : List Relation → List Relation) (db : Db) (max : ℕ) (current : QueueItem) (w : Walk)
    → left db (expand in_order db max current w) ≤ left db w
left-expand in_order db max current w = elim (Bool-cases (leb max current.depth)) [
  | inl deep ↦ rw deep (omega arith)
  | inr shallow ↦ rw shallow (left-follow_all db current (get_relations in_order current.id db) w)
]

one_turn :
    (in_order : List Relation → List Relation) (db : Db) (max fuel : ℕ) (queue : List QueueItem)
    (w : Walk)
    → w.queue ≡ queue
    → (traverse in_order db max (suc fuel) w).queue
      ≡ (traverse in_order db max fuel (turn in_order db max queue w)).queue
unfolding traverse
one_turn in_order db max fuel queue w e =
    ap (λ q. (traverse in_order db max fuel (turn in_order db max q w)).queue) e

stays_drained :
    (in_order : List Relation → List Relation) (db : Db) (max fuel : ℕ) (w : Walk)
    → w.queue ≡ []
    → (traverse in_order db max fuel w).queue ≡ []
unfolding traverse
stays_drained in_order db max zero w e = e
stays_drained in_order db max (suc fuel) w e =
    one_turn in_order db max fuel [] w e ∙ stays_drained in_order db max fuel w e

drains :
    (in_order : List Relation → List Relation) (db : Db) (max fuel : ℕ) (queue : List QueueItem)
    (w : Walk)
    → w.queue ≡ queue
    → left db w ≤ fuel
    → (traverse in_order db max fuel w).queue ≡ []
unfolding traverse
drains in_order db max fuel [] w e h = stays_drained in_order db max fuel w e
drains in_order db max zero (q ∷ qs) w e h = absurd (let l = ap length e in omega arith)
drains in_order db max (suc fuel) (q ∷ qs) w e h =
    let next = expand in_order db max q (record w { queue = qs }) in
    one_turn in_order db max fuel (q ∷ qs) w e
    ∙ drains in_order db max fuel next.queue next refl (
        let l = ap length e in
        omega (arith, left-expand in_order db max q (record w { queue = qs })))

-- The fuel of `BuildContext`, one turn more than there are observations, is enough: whatever the
-- relations, cycles included, the walk from any start ends with an empty queue.
traverse_ends :
    (in_order : List Relation → List Relation) (id max : ℕ) (db : Db)
    → (traverse in_order db max (turns db) (start id)).queue ≡ []
traverse_ends in_order id max db =
    drains in_order db max (turns db) (start id).queue (start id) refl
      (omega (arith, length-keep-le (λ o. not (seen (id ∷ []) o.id)) db.observations))
