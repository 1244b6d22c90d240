-- ===== src/Examples/Answers.antt =====
-- Concrete rows and numbers for the theorems on the answers of the memory and on its export.
use sdd_hoffy.Common.{
  String, ℕ, Option, some, ◌≡◌, refl, [], ◌∷◌, ◌++◌, none, ltb, ◌/◌, ◌%◌, arith, if◌then◌else◌,
}
use sdd_hoffy.Common.Text.{Text, codes}
use sdd_hoffy.Changes.Decimal.{decimal}
use sdd_hoffy.Common.{text_beq, string_eq}
use sdd_hoffy.Common.Result.{ok}
use sdd_hoffy.Memory.Types.{Session, Observation, Engine}
use sdd_hoffy.Memory.Text.{normalize_scope, normalize_topic_key, hash_normalized}
use sdd_hoffy.Memory.Transfer.{Store, import, export}
use sdd_hoffy.Memory.Transfer.Restored.{IsSessionOrder, IsNormal, no_rows, restored, import-export}
use sdd_hoffy.Memory.Detail.{format_number}
use sdd_hoffy.Memory.Detail.Thousands.{three_digits, format_number-thousands}
use sdd_hoffy.Memory.Recent.{Ordering, Prompt}
use sdd_hoffy.Memory.Format.{summary_layout, laid_out, preamble}
use sdd_hoffy.Memory.Format.Budget.{IsCut, laid_out-IsCut}

format_number-thousands_example : format_number 1234567 ≡ (
    if ltb 1234567 1000
    then decimal 1234567
    else format_number (1234567 / 1000) ++ (b',' ∷ three_digits (1234567 % 1000)))
format_number-thousands_example = format_number-thousands 1234567

format_number_run : format_number 1234567 ≡ codes "1,234,567"
unfolding format_number
format_number_run = refl

abbrev as_stored : Ordering
as_stored = record {
  observations = λ rows. rows;
  sessions = λ rows. rows;
  prompts = λ rows. rows;
  time = decimal;
}

abbrev titled : ℕ → Text → Observation
titled id title = record {
  id = id;
  session_id = "s1";
  type = "decision";
  title = title;
  content = codes "Use short tokens";
  tool_name = none;
  project = none;
  scope = "project";
  topic_key = none;
  namespace = none;
  normalized_hash = [];
  revision_count = 1;
  duplicate_count = 1;
  last_seen_at = none;
  created_at = 5;
  updated_at = 5;
  deleted_at = none;
}

laid_out-IsCut_example :
    IsCut 20 2
      (summary_layout as_stored).entry
      (summary_layout as_stored).closing
      0
      (preamble (summary_layout as_stored) [] [] ++ (summary_layout as_stored).observations_heading)
      (titled 1 (codes "Tokens") ∷ titled 2 (codes "Keys") ∷ [])
      (laid_out
        (summary_layout as_stored)
        []
        (titled 1 (codes "Tokens") ∷ titled 2 (codes "Keys") ∷ [])
        []
        20)
laid_out-IsCut_example =
    laid_out-IsCut (summary_layout as_stored) [] (titled 1 (codes "Tokens"))
      (titled 2 (codes "Keys") ∷ []) [] 20 (omega arith)

abbrev no_digest : Engine
no_digest = record { digest = λ s. []; latest = λ rows. none; newest = λ rows. none }

abbrev first_session : Session
first_session = record {
  id = "s1";
  project = "shop";
  directory = "/shop";
  started_at = 3;
  ended_at = none;
  summary = none;
}

abbrev asked : ℕ → Option String → Prompt
asked id namespace = record {
  id = id;
  session_id = first_session.id;
  content = codes "Add coupons";
  project = "shop";
  namespace = namespace;
  created_at = 6;
}

abbrev small_store : Store
small_store = record {
  db = record {
    sessions = first_session ∷ [];
    observations = titled 4 (codes "Tokens") ∷ [];
    relations = [];
    next_observation = 5;
    next_relation = 1;
  };
  prompts = asked 7 (some "sub") ∷ [];
  next_prompt = 8;
}

as_given-IsSessionOrder : IsSessionOrder (λ rows. rows)
as_given-IsSessionOrder = record { no_loss = λ p rows h. h; distinct = λ rows h. h }

titled-IsNormal : IsNormal no_digest (titled 4 (codes "Tokens"))
unfolding normalize_scope normalize_topic_key hash_normalized text_beq
titled-IsNormal = record {
  scope = refl;
  topic = refl;
  hash = refl;
  revisions = omega arith;
  duplicates = omega arith;
}

import-export_example : import no_digest (export (λ rows. rows) small_store) no_rows ≡ (
  record {
    db = record {
      sessions = first_session ∷ [];
      observations = restored 1 (titled 4 (codes "Tokens") ∷ []);
      relations = [];
      next_observation = 2;
      next_relation = 1;
    };
    prompts = asked 1 none ∷ [];
    next_prompt = 2;
  },
  ok record { sessions_imported = 1; observations_imported = 1; prompts_imported = 1 },
)
import-export_example =
    import-export no_digest (λ rows. rows) small_store as_given-IsSessionOrder (tt, tt)
      (titled-IsNormal, tt) (refl, tt) (refl, tt)
