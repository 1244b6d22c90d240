-- ===== src/Examples/Reads.antt =====
-- Concrete databases for the theorems on reads of the memory, passive capture, the bridge and progress.
use mathlib.Core.Option.{none-ne-some}
use sdd_hoffy.Common.{
  ◌++◌, String, ℕ, ◌+◌, ◌≤◌, ◌≡◌, refl, sym, List, [], ◌∷◌, some, true, string_eq, length, arith,
  inl, inr, All,
}
use sdd_hoffy.Common.Result.{ok}
use sdd_hoffy.Common.Text.{Text, codes}
use sdd_hoffy.Memory.Types.{Observation, Db, default_config}
use sdd_hoffy.Memory.Text.{truncate_content, normalize_topic_key, hash_normalized, nullable_string}
use sdd_hoffy.Memory.Text.Private.{strip_private_tags}
use sdd_hoffy.Memory.Observations.{prepare, add_observation}
use sdd_hoffy.Memory.Observations.Topics.{IsKept}
use sdd_hoffy.Memory.Timeline.{TimelineResult, timeline}
use sdd_hoffy.Memory.Timeline.Around.{IsTimeline, timeline-IsTimeline}
use sdd_hoffy.Memory.Search.{SearchOptions, Index, find_by_topic_key}
use sdd_hoffy.Memory.Search.Found.{IsOrdering, IsIndex, Answers, search-Answers}
use sdd_hoffy.Memory.Search.Written.{IsStored, InNamespace}
use sdd_hoffy.Memory.Search.Topic.{find_by_topic_key-add}
use sdd_hoffy.Memory.Suggest.{suggest_topic_key}
use sdd_hoffy.Memory.Suggest.Fixed.{IsTopicKey, suggest_topic_key-IsTopicKey}
use sdd_hoffy.Memory.Passive.{
  PassiveCaptureParams, PassiveCaptureResult, learning_params, passive_capture,
}
use sdd_hoffy.Memory.Passive.Round.{Plain}
use sdd_hoffy.Memory.Passive.Again.{passive_capture_again}
use sdd_hoffy.Bridge.{
  normalize_project, stage_header, compact_summary, on_stage_complete, stage_topic,
}
use sdd_hoffy.Bridge.Summary.{IsSummary, compact_summary-IsSummary}
use sdd_hoffy.Bridge.Recorded.{IsRecorded, on_stage_complete-IsRecorded}
use sdd_hoffy.Bridge.Topics.{long_name_shares_topic}
use sdd_hoffy.Memtools.Progress.{ProgressRequest, updated, shown, handle_progress}
use sdd_hoffy.Memtools.Progress.RoundTrip.{reading, handle_progress-reading}
use sdd_hoffy.Examples.Memory.{
  first_row, first_row-IsEngine, params, no_rows_yet, one_row, cycle, one_row-IsKept, has_topic,
  topic_there, first_readable,
}

timeline-IsTimeline_example :
    (r : TimelineResult) × ((timeline 1 0 3 cycle ≡ ok r) × IsTimeline 1 0 3 cycle r)
timeline-IsTimeline_example = timeline-IsTimeline 1 0 3 cycle first_readable

-- Every query matches every row.
abbrev pub index : Index
index = record {
  matching = λ query. some (λ o. true);
  by_rank = λ query rows. rows;
  latest_first = λ rows. rows;
  oldest_first = λ rows. rows;
}

as_given-IsOrdering : IsOrdering (λ rows. rows)
as_given-IsOrdering = record { same_rows = λ P rows h. h; same_length = λ rows. refl }

index-IsIndex : IsIndex index
index-IsIndex = record { ranked = λ query. as_given-IsOrdering; latest = as_given-IsOrdering }

abbrev in_shop : SearchOptions
in_shop = record { type = ""; project = "shop"; scope = []; namespace = ""; limit = 1 }

search-Answers_example : Answers index default_config (codes "tokens") in_shop cycle
search-Answers_example =
    search-Answers index default_config (codes "tokens") in_shop cycle index-IsIndex
      (λ words h. none-ne-some (λ o. true) (sym h))

suggest_topic_key-IsTopicKey_example :
    IsTopicKey (suggest_topic_key (codes "bugfix") (codes "Fix: N+1 query!") (codes "in the list"))
suggest_topic_key-IsTopicKey_example =
    suggest_topic_key-IsTopicKey (codes "bugfix") (codes "Fix: N+1 query!") (codes "in the list")

abbrev capture_params : PassiveCaptureParams
capture_params = record { session_id = "s1"; project = "shop"; source = "agent" }

abbrev learnings : List Text
learnings = codes "short tokens are enough here" ∷ codes "sessions end on sign-out" ∷ []

learnings-Plain : All (Plain first_row default_config capture_params) learnings
unfolding prepare learning_params strip_private_tags hash_normalized truncate_content
learnings-Plain = (refl, (refl, tt))

passive_capture_again_example :
    (r : PassiveCaptureResult) × ((passive_capture first_row default_config 5 capture_params
        learnings no_rows_yet).1
      ≡ ok r)
    × (r.extracted ≡ length learnings)
    × (r.saved + r.duplicates ≡ length learnings)
    × ((later : ℕ)
        → passive_capture first_row default_config later capture_params learnings
            (passive_capture first_row default_config 5 capture_params learnings no_rows_yet).0
          ≡ (
            (passive_capture first_row default_config 5 capture_params learnings no_rows_yet).0,
            ok record { extracted = length learnings; saved = 0; duplicates = length learnings },
          ))
passive_capture_again_example =
    passive_capture_again first_row default_config capture_params 5 learnings no_rows_yet
      first_row-IsEngine learnings-Plain refl

in_no_namespace : InNamespace (prepare first_row default_config params) one_row.observations
unfolding prepare nullable_string
in_no_namespace = ((λ h. refl), tt)

find_by_topic_key-add_example :
    (o : Observation) × (find_by_topic_key first_row params.topic_key params.project params.scope
        (add_observation first_row default_config 5 params one_row).0
      ≡ some o)
    × IsStored default_config.max_observation_length 5 params
        (add_observation first_row default_config 5 params one_row).1
        o
unfolding prepare normalize_topic_key
find_by_topic_key-add_example =
    find_by_topic_key-add first_row default_config 5 one_row params first_row-IsEngine
      one_row-IsKept has_topic in_no_namespace refl (inr topic_there)

compact_summary-IsSummary_example :
    IsSummary
      (stage_header "charter")
      (codes "# Charter")
      (compact_summary "charter" (codes "# Charter"))
    × (length (stage_header "charter") ≤ 500
        → length (compact_summary "charter" (codes "# Charter")) ≤ 516)
compact_summary-IsSummary_example = compact_summary-IsSummary "charter" (codes "# Charter")

no_rows-IsKept : IsKept no_rows_yet
no_rows-IsKept = record { fresh = tt; distinct = tt; single = λ e. omega arith }

on_stage_complete-IsRecorded_example :
    IsRecorded first_row default_config 5
      (codes "sdd/" ++ (normalize_project (codes "shop") ++ (codes "/" ++ codes "charter")))
      "shop"
      (codes "SDD " ++ (codes "charter" ++ (codes ": " ++ codes "shop")))
      (compact_summary "charter" (codes "# Charter"))
      (on_stage_complete first_row default_config 5 "shop" "charter"
        (codes "# Charter")
        no_rows_yet)
on_stage_complete-IsRecorded_example =
    on_stage_complete-IsRecorded first_row default_config 5 "shop" "charter" (codes "# Charter")
      no_rows_yet first_row-IsEngine no_rows-IsKept tt (inl refl)

abbrev long_name : String
long_name =
    "a-name-of-more-than-one-hundred-and-sixteen-characters-a-name-of-more-than-one-hundred-and-sixteen-characters-of-a-project"

long_enough : 116 ≤ length (normalize_project (codes long_name))
unfolding normalize_project
long_enough = omega arith

long_name_shares_topic_example :
    normalize_topic_key (stage_topic long_name "charter")
    ≡ normalize_topic_key (stage_topic long_name "design")
long_name_shares_topic_example =
    long_name_shares_topic long_name "charter" "design" long_enough
      (refl, (refl, (refl, (refl, (refl, (refl, (refl, tt)))))))
      (refl, (refl, (refl, (refl, (refl, (refl, tt))))))

abbrev progress : ProgressRequest
progress = record { project = "shop"; content = codes "{}"; session_id = "s1"; namespace = "" }

handle_progress-reading_example :
    (after : Db) × (o : Observation) × (handle_progress first_row default_config
        (λ s. true)
        5
        progress
        no_rows_yet
      ≡ (after, updated o.id))
    × ((later : ℕ)
        → handle_progress first_row default_config (λ s. true) later (reading progress) after
          ≡ (after, shown o))
    × (o.content
        ≡ truncate_content default_config.max_observation_length (strip_private_tags (codes "{}")))
    × (o.updated_at ≡ 5)
handle_progress-reading_example =
    handle_progress-reading first_row default_config (λ s. true) 5 progress no_rows_yet
      first_row-IsEngine no_rows-IsKept refl refl refl refl tt (inl refl)
