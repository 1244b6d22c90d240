-- ===== src/Examples/Memory.antt =====
-- Concrete databases for the theorems on the memory.
use mathlib.Core.Option.{none-ne-some, some-injective}
use mathlib.Core.Path.{subst}
use sdd_hoffy.Common.{
  ◌++◌, ◌==◌, nat_eq, any, if◌then◌else◌, ℕ, suc, ◌≤◌, ◌≡◌, ◌≢◌, refl, sym, ap, text_beq, List, [],
  ◌∷◌, Option, some, none, Bool, true, false, length, keep, arith, All,
}
use sdd_hoffy.Common.Result.{ok, err}
use sdd_hoffy.Memory.Text.Private.{strip_private_tags, open_tag, close_tag, redacted, redact}
use sdd_hoffy.Memory.Text.Redaction.{strip_private_tags_hides}
use sdd_hoffy.Memory.Observations.Compacted.{compact_reads}
use sdd_hoffy.Common.Text.{trim_space, Text, codes, is_empty}
use sdd_hoffy.Memory.Types.{
  Observation, Db, Engine, IsEngine, default_config, relation_exists, foreign_key,
}
use sdd_hoffy.Memory.Text.{normalize_topic_key, normalize_scope, nullable_string}
use sdd_hoffy.Memory.Observations.{
  AddObservationParams, prepare, add_observation, same_topic, get_observation,
}
use sdd_hoffy.Memory.Observations.Topics.{IsKept}
use sdd_hoffy.Memory.Observations.Upsert.{add_observation-IsKept}
use sdd_hoffy.Memory.Observations.Revised.{Revises, add_observation-Revises}
use sdd_hoffy.Memory.Observations.Edits.{CompactParams, compact_observations}
use sdd_hoffy.Memory.Relations.{AddRelationParams, add_relation}
use sdd_hoffy.Memory.Relations.Laws.{IsRelated, add_relation-IsRelated, add_relation_failed}
use sdd_hoffy.Memory.Graph.{ContextResult, build_context}
use sdd_hoffy.Memory.Graph.Context.{IsOrder, IsContext, build_context-IsContext}

abbrev pub head_of : List Observation → Option Observation
head_of [] = none
head_of (o ∷ os) = some o

-- The engine that takes the first row of those that it may choose, and keeps texts as digests.
abbrev pub first_row : Engine
first_row = record { digest = λ s. s; latest = head_of; newest = head_of }

head_of-among :
    (P : Observation → Type 0) (rows : List Observation) (o : Observation)
    → All P rows
    → head_of rows ≡ some o
    → P o
head_of-among P [] o h e = absurd (none-ne-some o e)
head_of-among P (r ∷ rows) o h e = subst P (some-injective r o e) h.0

pub first_row-IsEngine : IsEngine first_row
first_row-IsEngine = record {
  latest_among = head_of-among;
  newest_among = head_of-among;
  latest_some = λ r rows h. none-ne-some r (sym h);
}

as_given-IsOrder : IsOrder (λ rows. rows)
as_given-IsOrder = record { same_rows = λ P rows h. h }

abbrev pub params : AddObservationParams
params = record {
  session_id = "s1";
  type = "decision";
  title = codes "Tokens";
  content = codes "Use short tokens";
  tool_name = "";
  project = "shop";
  scope = codes "project";
  topic_key = codes "decision/tokens";
  namespace = "";
}

abbrev pub no_rows_yet : Db
no_rows_yet = record {
  sessions =
      record {
        id = "s1";
        project = "shop";
        directory = "/shop";
        started_at = 1;
        ended_at = none;
        summary = none;
      }
      ∷ [];
  observations = [];
  relations = [];
  next_observation = 1;
  next_relation = 1;
}

abbrev pub row : ℕ → Option Text → Observation
row id topic = record {
  id = id;
  session_id = "s1";
  type = "decision";
  title = codes "Tokens";
  content = codes "Use tokens";
  tool_name = none;
  project = some "shop";
  scope = "project";
  topic_key = topic;
  namespace = none;
  normalized_hash = codes "use tokens";
  revision_count = 1;
  duplicate_count = 1;
  last_seen_at = some 2;
  created_at = 2;
  updated_at = 2;
  deleted_at = none;
}

-- One row with the topic of `params`.
abbrev pub one_row : Db
one_row = record no_rows_yet {
  observations = row 1 (some (codes "decision/tokens")) ∷ [];
  next_observation = 2;
}

abbrev pub cycle : Db
cycle = record no_rows_yet {
  observations = row 1 none ∷ row 2 none ∷ [];
  relations =
      record { id = 1; from_id = 1; to_id = 2; type = "relates_to"; note = none; created_at = 3 }
      ∷ record { id = 2; from_id = 2; to_id = 1; type = "relates_to"; note = none; created_at = 3 }
      ∷ [];
  next_observation = 3;
  next_relation = 3;
}

at_most_one : (p : Observation → Bool) (o : Observation) → length (keep p (o ∷ [])) ≤ 1
at_most_one p o = ground arith

pub one_row-IsKept : IsKept one_row
one_row-IsKept = record {
  fresh = (omega arith, tt);
  distinct = (tt, tt);
  single = λ e. at_most_one (same_topic e) (row 1 (some (codes "decision/tokens")));
}

add_observation-IsKept_example :
    IsKept (add_observation first_row default_config 5 params one_row).0
add_observation-IsKept_example =
    add_observation-IsKept first_row default_config 5 params one_row first_row-IsEngine
      one_row-IsKept

abbrev link_params : AddRelationParams
link_params = record { from_id = 2; to_id = 1; type = ""; note = ""; bidirectional = true }

abbrev unlinked : Db
unlinked = record cycle { relations = []; next_relation = 1 }

unlinked-IsRelated : IsRelated unlinked.relations
unlinked-IsRelated = record { no_loop = tt; single = λ from to type. omega arith }

add_relation-IsRelated_example : IsRelated (add_relation 9 link_params unlinked).0.relations
add_relation-IsRelated_example = add_relation-IsRelated 9 link_params unlinked unlinked-IsRelated

already_linked : (add_relation 9 link_params cycle).1 ≡ err relation_exists
unfolding add_relation
already_linked = refl

add_relation_failed_example : (add_relation 9 link_params cycle).0 ≡ cycle
add_relation_failed_example = add_relation_failed 9 link_params cycle relation_exists already_linked

abbrev compact_params : CompactParams
compact_params = record {
  ids = 1 ∷ [];
  summary_title = codes "Summary";
  summary_content = codes "All of it";
  project = "shop";
  scope = codes "project";
  session_id = "";
}

no_session : (compact_observations first_row 9 compact_params one_row).1 ≡ err foreign_key
unfolding compact_observations
no_session = refl

pub first_readable : get_observation 1 cycle ≢ none
unfolding get_observation
first_readable h = none-ne-some (row 1 none) (sym h)

build_context-IsContext_example :
    (result : ContextResult) × ((build_context (λ rows. rows) 1 3 cycle ≡ ok result)
      × IsContext cycle 1 3 result)
build_context-IsContext_example =
    build_context-IsContext (λ rows. rows) 1 3 cycle as_given-IsOrder first_readable

pub has_topic : is_empty (prepare first_row default_config params).topic_key ≡ false
unfolding prepare normalize_topic_key
has_topic = refl

not_empty : (xs : List Observation) (n : ℕ) → length xs ≡ suc n → xs ≢ []
not_empty xs n h e = let l = ap length e in omega arith

pub topic_there :
    keep (same_topic (prepare first_row default_config params)) one_row.observations ≢ []
unfolding prepare normalize_topic_key normalize_scope nullable_string text_beq
topic_there =
    not_empty (keep (same_topic (prepare first_row default_config params)) one_row.observations) 0
      refl

add_observation-Revises_example : Revises first_row default_config 5 params one_row
unfolding prepare normalize_topic_key
add_observation-Revises_example =
    add_observation-Revises first_row default_config 5 params one_row first_row-IsEngine
      one_row-IsKept has_topic topic_there

strip_private_tags_hides_example :
    strip_private_tags
      (codes "key: " ++ (open_tag ++ (codes "s3cret" ++ (close_tag ++ codes " end "))))
    ≡ trim_space (codes "key: " ++ (redacted ++ redact (length (codes " end ")) (codes " end ")))
strip_private_tags_hides_example =
    strip_private_tags_hides (codes "key: ") (codes "s3cret") (codes " end ")
      (refl, (refl, (refl, (refl, (refl, tt))))) (refl, (refl, (refl, (refl, (refl, (refl, tt))))))

abbrev with_session : CompactParams
with_session = record compact_params { session_id = "s1" }

compacted_one :
    (compact_observations first_row 9 with_session one_row).1
    ≡ ok record { deleted_count = 1; summary_id = some 2; total_before = 1; total_after = 1 }
unfolding compact_observations text_beq
compacted_one = refl

compact_reads_example :
    get_observation 1 (compact_observations first_row 9 with_session one_row).0
    ≡ (if any (λ i. i == 1) with_session.ids then none else get_observation 1 one_row)
compact_reads_example =
    compact_reads first_row 9 with_session one_row
      record { deleted_count = 1; summary_id = some 2; total_before = 1; total_after = 1 }
      compacted_one 1 (omega arith)
