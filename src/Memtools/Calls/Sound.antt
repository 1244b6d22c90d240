-- ===== src/Memtools/Calls/Sound.antt =====
-- internal/memtools: the integrity of the memory under requests.
use sdd_hoffy.Common.{ℕ, List, [], ◌∷◌}
use sdd_hoffy.Memory.Transfer.{Store}
use sdd_hoffy.Bridge.{on_stage_complete, on_change_stage_complete, stage_params, change_params}
use sdd_hoffy.Memtools.Calls.{
  Setting, Call, save, progress, delete, update, relate, session, compact, stage_complete,
  change_stage_complete, run_call, run_calls,
}
use sdd_hoffy.Memtools.Calls.Handled.{
  save_in_session-Steps, handle_progress-Leads, handle_delete-Leads, handle_update-Leads,
  handle_relate-Leads, handle_session-Leads, handle_compact-Leads,
}
use sdd_hoffy.Memtools.Calls.Saved.{IsSound, Steps-IsSound, handle_save-IsSound}

run_call-IsSound :
    (s : Setting) (now : ℕ) (call : Call) (st : Store)
    → IsSound st
    → IsSound (run_call s now call st)
unfolding run_call on_stage_complete on_change_stage_complete
run_call-IsSound s now (save r) st k =
    handle_save-IsSound s.engine s.cfg s.json_numbers s.extract now r st k
run_call-IsSound s now (progress r) st k =
    Steps-IsSound st _ (handle_progress-Leads now s.engine s.cfg s.json_valid r st.db).steps k
run_call-IsSound s now (delete id hard) st k =
    Steps-IsSound st _ (handle_delete-Leads now id hard st.db).steps k
run_call-IsSound s now (update r) st k =
    Steps-IsSound st _ (handle_update-Leads now s.engine s.cfg s.name r st.db).steps k
run_call-IsSound s now (relate r) st k =
    Steps-IsSound st _ (handle_relate-Leads now r st.db).steps k
run_call-IsSound s now (session r) st k =
    Steps-IsSound st _ (handle_session-Leads now r st.db).steps k
run_call-IsSound s now (compact r) st k =
    Steps-IsSound st _ (handle_compact-Leads now s.index s.engine s.json_numbers r st.db).steps k
run_call-IsSound s now (stage_complete project stage content) st k =
    Steps-IsSound st _
      (save_in_session-Steps s.engine s.cfg now project (stage_params project stage content) st.db)
      k
run_call-IsSound s now (change_stage_complete change_id stage content) st k =
    Steps-IsSound st _
      (save_in_session-Steps s.engine s.cfg now "" (change_params change_id stage content) st.db) k

-- Whatever requests come, in whatever order and at whatever times, each of them accepted or refused, the
-- memory keeps its integrity: identifiers of observations are distinct and below the counter; each
-- observation and each prompt has a session that exists; each relation joins two different observations
-- that exist, live or softly deleted, and no relation is there twice.
pub run_calls-IsSound :
    (s : Setting) (calls : List (ℕ × Call)) (st : Store)
    → IsSound st
    → IsSound (run_calls s calls st)
unfolding run_calls
run_calls-IsSound s [] st k = k
run_calls-IsSound s ((now, call) ∷ calls) st k =
    run_calls-IsSound s calls (run_call s now call st) (run_call-IsSound s now call st k)
