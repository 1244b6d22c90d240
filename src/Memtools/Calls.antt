-- ===== src/Memtools/Calls.antt =====
-- internal/memtools and internal/tools/bridge.go together: the requests that change the memory, one
-- after another. The server registers one handler for each of the tools.
pub mod Handled
pub mod Saved
pub mod Sound
use sdd_hoffy.Common.{String, ℕ, List, [], ◌∷◌, Option, Bool}
use sdd_hoffy.Common.Text.{Text}
use sdd_hoffy.Memory.Types.{Db, StoreConfig, Engine}
use sdd_hoffy.Memory.Search.{Index}
use sdd_hoffy.Memory.Transfer.{Store}
use sdd_hoffy.Memtools.Save.{SaveRequest, handle_save}
use sdd_hoffy.Memtools.Progress.{ProgressRequest, handle_progress}
use sdd_hoffy.Memtools.Handlers.{
  UpdateRequest, RelateRequest, SessionRequest, CompactRequest, handle_delete, handle_update,
  handle_relate, handle_session, handle_compact,
}
use sdd_hoffy.Bridge.{on_stage_complete, on_change_stage_complete}

-- What the handlers take from elsewhere.
pub record Setting : Type 0 where
  pub engine : Engine
  pub cfg : StoreConfig
  pub index : Index
  pub json_numbers : Text → Option (List ℕ)
  pub json_valid : Text → Bool
  pub extract : Text → List Text
  pub name : Text → String

pub data Call : Type 0 where
  save : SaveRequest → Call
  progress : ProgressRequest → Call
  delete : ℕ → Bool → Call
  update : UpdateRequest → Call
  relate : RelateRequest → Call
  session : SessionRequest → Call
  compact : CompactRequest → Call
  stage_complete : String → String → Text → Call
  change_stage_complete : String → String → Text → Call

-- The store after a call; its answer is left out.
unfoldable pub run_call : Setting → ℕ → Call → Store → Store
unfolding handle_save handle_progress handle_delete handle_update handle_relate handle_session
    handle_compact on_stage_complete on_change_stage_complete
run_call s now (save r) st = (handle_save s.engine s.cfg s.json_numbers s.extract now r st).0
run_call s now (progress r) st = record st {
  db = (handle_progress s.engine s.cfg s.json_valid now r st.db).0;
}
run_call s now (delete id hard) st = record st { db = (handle_delete now id hard st.db).0 }
run_call s now (update r) st = record st {
  db = (handle_update s.engine s.cfg s.name now r st.db).0;
}
run_call s now (relate r) st = record st { db = (handle_relate now r st.db).0 }
run_call s now (session r) st = record st { db = (handle_session now r st.db).0 }
run_call s now (compact r) st = record st {
  db = (handle_compact s.index s.engine s.json_numbers now r st.db).0;
}
run_call s now (stage_complete project stage content) st = record st {
  db = on_stage_complete s.engine s.cfg now project stage content st.db;
}
run_call s now (change_stage_complete change_id stage content) st = record st {
  db = on_change_stage_complete s.engine s.cfg now change_id stage content st.db;
}

-- Calls with the times at which they run.
unfoldable pub run_calls : Setting → List (ℕ × Call) → Store → Store
unfolding run_call
run_calls s [] st = st
run_calls s ((now, call) ∷ calls) st = run_calls s calls (run_call s now call st)
