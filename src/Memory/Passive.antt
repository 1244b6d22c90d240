-- ===== src/Memory/Passive.antt =====
-- internal/memory/store.go: PassiveCapture on the learnings that ExtractLearnings takes from a text.
pub mod Round
pub mod Again
use sdd_hoffy.Common.{
  String, ℕ, suc, ◌+◌, List, [], ◌∷◌, ◌++◌, Option, Bool, ◌&&◌, ◌==◌, nat_eq, text_eq, string_eq,
  ltb, length, take, any, if◌then◌else◌,
}
use sdd_hoffy.Common.Result.{Result, ok, err}
use sdd_hoffy.Common.Text.{Text, codes}
use sdd_hoffy.Memory.Types.{Observation, Db, StoreConfig, Engine, Error}
use sdd_hoffy.Memory.Text.{hash_normalized}
use sdd_hoffy.Memory.Observations.{is_live, or_blank, AddObservationParams, add_observation}

-- Without the text, from which the learnings come.
pub record PassiveCaptureParams : Type 0 where
  pub session_id : String
  pub project : String
  pub source : String

pub record PassiveCaptureResult : Type 0 where
  pub extracted : ℕ
  pub saved : ℕ
  pub duplicates : ℕ

-- A live row of the project that has the hash of the learning.
abbrev pub holds : Engine → String → Text → Observation → Bool
holds engine project learning o =
    o.normalized_hash == hash_normalized engine.digest learning
    && (or_blank o.project == project && is_live o)

abbrev pub is_known : Engine → String → Text → Db → Bool
is_known engine project learning db = any (holds engine project learning) db.observations

abbrev learning_title : Text → Text
learning_title learning =
    if ltb 60 (length learning) then take 60 learning ++ codes "..." else learning

unfoldable pub learning_params : PassiveCaptureParams → Text → AddObservationParams
learning_params p learning = record {
  session_id = p.session_id;
  type = "passive";
  title = learning_title learning;
  content = learning;
  tool_name = p.source;
  project = p.project;
  scope = codes "project";
  topic_key = [];
  namespace = "";
}

abbrev pub saved_one :
    PassiveCaptureResult → Db × Result Error ℕ → Db × Result Error PassiveCaptureResult
saved_one r (db, err e) = (db, err e)
saved_one r (db, ok id) = (db, ok record r { saved = r.saved + 1 })

-- One round of the loop; an error ends it.
unfoldable pub capture_one :
    Engine
    → StoreConfig
    → ℕ
    → PassiveCaptureParams
    → Text
    → Db × Result Error PassiveCaptureResult
    → Db × Result Error PassiveCaptureResult
unfolding hash_normalized learning_params add_observation
capture_one engine cfg now p learning (db, err e) = (db, err e)
capture_one engine cfg now p learning (db, ok r) =
    if is_known engine p.project learning db
    then (db, ok record r { duplicates = r.duplicates + 1 })
    else saved_one r (add_observation engine cfg now (learning_params p learning) db)

unfoldable pub capture_all :
    Engine
    → StoreConfig
    → ℕ
    → PassiveCaptureParams
    → List Text
    → Db × Result Error PassiveCaptureResult
    → Db × Result Error PassiveCaptureResult
unfolding capture_one
capture_all engine cfg now p [] state = state
capture_all engine cfg now p (learning ∷ learnings) state =
    capture_all engine cfg now p learnings (capture_one engine cfg now p learning state)

unfoldable pub passive_capture :
    Engine
    → StoreConfig
    → ℕ
    → PassiveCaptureParams
    → List Text
    → Db
    → Db × Result Error PassiveCaptureResult
unfolding capture_all
passive_capture engine cfg now p learnings db =
    capture_all engine cfg now p learnings
      (db, ok record { extracted = length learnings; saved = 0; duplicates = 0 })
