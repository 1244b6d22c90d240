-- ===== src/Examples/Calls.antt =====
-- A run of requests on the memory.
use sdd_hoffy.Common.{ℕ, List, [], ◌∷◌, none, true, arith}
use sdd_hoffy.Common.Text.{codes}
use sdd_hoffy.Memory.Types.{default_config}
use sdd_hoffy.Memory.Transfer.{Store}
use sdd_hoffy.Memtools.Save.{SaveRequest, absent}
use sdd_hoffy.Memtools.Handlers.{RelateRequest, SessionRequest}
use sdd_hoffy.Memtools.Calls.{
  Setting, Call, save, relate, session, delete, stage_complete, run_calls,
}
use sdd_hoffy.Memtools.Calls.Saved.{IsSound}
use sdd_hoffy.Memtools.Calls.Sound.{run_calls-IsSound}
use sdd_hoffy.Examples.Memory.{first_row, no_rows_yet}
use sdd_hoffy.Examples.Reads.{index}

abbrev setting : Setting
setting = record {
  engine = first_row;
  cfg = default_config;
  index = index;
  json_numbers = λ s. none;
  json_valid = λ s. true;
  extract = λ s. [];
  name = λ s. "shop";
}

abbrev start : SessionRequest
start = record { action = codes "start"; id = "s2"; project = "shop"; directory = ""; summary = "" }

abbrev note : SaveRequest
note = record {
  save_type = [];
  content = codes "Tokens are short";
  session_id = "s2";
  project = "shop";
  namespace = "";
  source = "";
  title = codes "Tokens";
  type = "decision";
  scope = codes "project";
  topic_key = [];
  upsert = true;
  relate_to = absent;
}

abbrev link : RelateRequest
link = record {
  action = [];
  id = 0;
  from_id = 1;
  to_id = 2;
  relation_type = "relates_to";
  note = "";
  bidirectional = true;
}

abbrev requests : List (ℕ × Call)
requests =
    (1, session start)
    ∷ (2, save note)
    ∷ (3, stage_complete "shop" "charter" (codes "# Charter"))
    ∷ (4, relate link)
    ∷ (5, delete 1 true)
    ∷ []

abbrev empty_store : Store
empty_store = record { db = no_rows_yet; prompts = []; next_prompt = 1 }

empty_store-IsSound : IsSound empty_store
empty_store-IsSound = record {
  linked = record {
    fresh = tt;
    distinct = tt;
    in_session = tt;
    joined = tt;
    related = record { no_loop = tt; single = λ from to type. omega arith };
  };
  prompts = tt;
}

run_calls-IsSound_example : IsSound (run_calls setting requests empty_store)
run_calls-IsSound_example = run_calls-IsSound setting requests empty_store empty_store-IsSound
