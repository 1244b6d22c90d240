-- ===== src/Memory/Graph.antt =====
-- internal/memory/store.go: `BuildContext`, the breadth-first walk over the relations. Each turn of
-- the outer loop takes one item off the queue; the fuel counts these turns.
pub mod Sound
pub mod Drained
pub mod Context
use sdd_hoffy.Common.{
  String, ℕ, zero, suc, ◌+◌, List, [], ◌∷◌, ◌++◌, Option, none, some, Bool, true, false, ◌&&◌, ◌==◌,
  nat_eq, ltb, leb, length, find, any, if◌then◌else◌,
}
use sdd_hoffy.Common.Result.{Result, ok, err}
use sdd_hoffy.Common.Text.{Text}
use sdd_hoffy.Memory.Types.{Observation, Relation, Db, Error, no_rows}
use sdd_hoffy.Memory.Observations.{or_blank, get_observation}
use sdd_hoffy.Memory.Relations.{get_relations}

pub data Direction : Type 0 where
  outgoing incoming : Direction

pub record ContextNode : Type 0 where
  pub id : ℕ
  pub title : Text
  pub type : String
  pub project : String
  pub created_at : ℕ
  pub relation_type : String
  pub direction : Direction
  pub note : String
  pub depth : ℕ

pub record ContextResult : Type 0 where
  pub root : Observation
  pub connected : List ContextNode
  pub total_nodes : ℕ
  pub max_depth : ℕ

pub record QueueItem : Type 0 where
  pub id : ℕ
  pub depth : ℕ

-- The variables of the walk.
pub record Walk : Type 0 where
  pub queue : List QueueItem
  pub visited : List ℕ
  pub connected : List ContextNode
  pub deepest : ℕ

-- 0, or less, is the default.
unfoldable pub clamp_depth : ℕ → ℕ
clamp_depth max = if max == 0 then 2 else if ltb 5 max then 5 else max

abbrev pub other_end : ℕ → Relation → ℕ
other_end current r = if r.to_id == current then r.from_id else r.to_id

abbrev pub direction_of : ℕ → Relation → Direction
direction_of current r = if r.to_id == current then incoming else outgoing

abbrev pub node_of : QueueItem → Relation → Observation → ContextNode
node_of current r o = record {
  id = o.id;
  title = o.title;
  type = o.type;
  project = or_blank o.project;
  created_at = o.created_at;
  relation_type = r.type;
  direction = direction_of current.id r;
  note = or_blank r.note;
  depth = current.depth + 1;
}

-- The connected observation, deleted softly or not.
abbrev pub row_of : ℕ → Db → Option Observation
row_of id db = find (λ o. o.id == id) db.observations

abbrev pub reach : QueueItem → Relation → Option Observation → Walk → Walk
reach current r none w = record w { visited = w.visited ++ other_end current.id r ∷ [] }
reach current r (some o) w = record {
  queue = w.queue ++ record { id = other_end current.id r; depth = current.depth + 1 } ∷ [];
  visited = w.visited ++ other_end current.id r ∷ [];
  connected = w.connected ++ node_of current r o ∷ [];
  deepest = if ltb w.deepest (current.depth + 1) then current.depth + 1 else w.deepest;
}

abbrev pub is_visited : ℕ → Walk → Bool
is_visited id w = any (λ v. v == id) w.visited

-- The body of the inner loop.
abbrev pub follow : Db → QueueItem → Relation → Walk → Walk
follow db current r w =
    if is_visited (other_end current.id r) w
    then w
    else reach current r (row_of (other_end current.id r) db) w

unfoldable pub follow_all : Db → QueueItem → List Relation → Walk → Walk
follow_all db current [] w = w
follow_all db current (r ∷ rs) w = follow_all db current rs (follow db current r w)

abbrev pub expand : (List Relation → List Relation) → Db → ℕ → QueueItem → Walk → Walk
expand in_order db max current w =
    if leb max current.depth
    then w
    else follow_all db current (get_relations in_order current.id db) w

abbrev pub turn : (List Relation → List Relation) → Db → ℕ → List QueueItem → Walk → Walk
turn in_order db max [] w = w
turn in_order db max (current ∷ queue) w =
    expand in_order db max current (record w { queue = queue })

unfoldable pub traverse : (List Relation → List Relation) → Db → ℕ → ℕ → Walk → Walk
unfolding follow_all get_relations
traverse in_order db max zero w = w
traverse in_order db max (suc fuel) w =
    let next = turn in_order db max w.queue w in traverse in_order db max fuel next

abbrev pub start : ℕ → Walk
start id = record {
  queue = record { id = id; depth = 0 } ∷ [];
  visited = id ∷ [];
  connected = [];
  deepest = 0;
}

-- A turn for the start and one for each observation.
abbrev pub turns : Db → ℕ
turns db = suc (length db.observations)

abbrev pub context_of : Observation → Walk → ContextResult
context_of root w = record {
  root = root;
  connected = w.connected;
  total_nodes = length w.connected;
  max_depth = w.deepest;
}

unfoldable pub build_context :
    (List Relation → List Relation) → ℕ → ℕ → Db → Result Error ContextResult
unfolding get_observation clamp_depth traverse
build_context in_order id max_depth db = elim (get_observation id db) [
  | none ↦ err no_rows
  | some root ↦
      ok (context_of root (traverse in_order db (clamp_depth max_depth) (turns db) (start id)))
]
