-- ===== src/Memtools/Calls/Saved.antt =====
-- internal/memtools/save.go: the handler of mem_save, on observations and on prompts.
use sdd_hoffy.Common.{
  ℕ, ◌≡◌, List, [], ◌∷◌, Option, none, some, Bool, true, false, nat_eq, text_eq, string_eq, All,
  All-append, Bool-cases, inl, inr, if◌then◌else◌,
}
use sdd_hoffy.Common.Result.{Result, ok, err}
use sdd_hoffy.Common.Text.{Text, is_empty}
use sdd_hoffy.Memory.Types.{Db, StoreConfig, Engine, Error}
use sdd_hoffy.Memory.Observations.{session_exists}
use sdd_hoffy.Memory.Observations.Kept.{All-map_into}
use sdd_hoffy.Memory.Passive.{PassiveCaptureResult, passive_capture}
use sdd_hoffy.Memory.Relations.{add_relation}
use sdd_hoffy.Memory.Prompts.{AddPromptParams, add_prompt}
use sdd_hoffy.Memory.Transfer.{Store}
use sdd_hoffy.Memory.Steps.{Steps, stop, Steps-trans}
use sdd_hoffy.Memory.Steps.Linked.{IsLinked}
use sdd_hoffy.Memory.Steps.Reached.{Steps-IsLinked, Steps-sessions}
use sdd_hoffy.Memory.Steps.Operations.{add_observation-Steps}
use sdd_hoffy.Memory.Steps.Relating.{add_relation-Steps, passive_capture-Steps}
use sdd_hoffy.Memtools.Save.{
  SaveRequest, parse_related_ids, relate_all, save_params, then_relate, handle_save_observation,
  prompt_answer, capture_answer, observation_answer, handle_save, link_params, prompt_params,
  capture_params, content_required, unknown_save_type,
}
use sdd_hoffy.Memtools.Calls.Handled.{Leads, stay, choose}

-- The integrity of the store: that of its tables, and each prompt has its session.
pub record IsSound (st : Store) : Type 0 where
  pub linked : IsLinked st.db
  pub prompts : All (λ p. session_exists p.session_id st.db ≡ true) st.prompts

pub Steps-IsSound :
    (st : Store) (after : Db) → Steps st.db after → IsSound st → IsSound (record st { db = after })
Steps-IsSound st after steps k = record {
  linked = Steps-IsLinked steps k.linked;
  prompts =
      All-map_into (λ p. session_exists p.session_id st.db ≡ true)
        (λ p. session_exists p.session_id after ≡ true) st.prompts
        (λ p h. Steps-sessions p.session_id steps h) k.prompts;
}

relate_all-Steps :
    (now id : ℕ) (targets : List ℕ) (db : Db) → Steps db (relate_all now id targets db).0
unfolding relate_all
relate_all-Steps now id [] db = stop
relate_all-Steps now id (target ∷ targets) db =
    Steps-trans (add_relation-Steps now (link_params id target) db)
      (relate_all-Steps now id targets (add_relation now (link_params id target) db).0)

then_relate-Leads :
    (now : ℕ) (r : SaveRequest) (targets : Option (List ℕ)) (db : Db) (added : Db × Result Error ℕ)
    → Steps db added.0
    → Leads db (then_relate now r targets added)
then_relate-Leads now r targets db (after, err e) steps = record { steps = steps }
then_relate-Leads now r none db (after, ok id) steps = record { steps = steps }
then_relate-Leads now r (some targets) db (after, ok id) steps = record {
  steps = Steps-trans steps (relate_all-Steps now id targets after);
}

handle_save_observation-Leads :
    (engine : Engine) (cfg : StoreConfig) (json_numbers : Text → Option (List ℕ)) (now : ℕ)
    (r : SaveRequest) (db : Db)
    → Leads db (handle_save_observation engine cfg json_numbers now r db)
unfolding handle_save_observation
handle_save_observation-Leads engine cfg json_numbers now r db =
    choose (is_empty r.title) _ _ stay (
      then_relate-Leads now r (parse_related_ids json_numbers r.relate_to) db _
        (add_observation-Steps engine cfg now (save_params r) db))

add_prompt-IsSound :
    (cfg : StoreConfig) (now : ℕ) (p : AddPromptParams) (st : Store)
    → IsSound st
    → IsSound (add_prompt cfg now p st).0
unfolding add_prompt
add_prompt-IsSound cfg now p st k = elim (Bool-cases (session_exists p.session_id st.db)) [
  | inr absent ↦ rw absent k
  | inl there ↦ rw there record {
    linked = k.linked;
    prompts =
        All-append (λ x. session_exists x.session_id st.db ≡ true) st.prompts _ k.prompts
          (there, tt);
  }
]

prompt_answer-IsSound :
    (added : Store × Result Error ℕ) → IsSound added.0 → IsSound (prompt_answer added).0
prompt_answer-IsSound (st, err e) k = k
prompt_answer-IsSound (st, ok id) k = k

capture_answer-IsSound :
    (st : Store) (done : Db × Result Error PassiveCaptureResult)
    → Steps st.db done.0
    → IsSound st
    → IsSound (capture_answer st done).0
capture_answer-IsSound st (db, err e) steps k = Steps-IsSound st db steps k
capture_answer-IsSound st (db, ok r) steps k = Steps-IsSound st db steps k

either-IsSound :
    {A : Type 0} (b : Bool) (x y : Store × A)
    → IsSound x.0
    → IsSound y.0
    → IsSound (if b then x else y).0
either-IsSound true x y hx hy = hx
either-IsSound false x y hx hy = hy

pub handle_save-IsSound :
    (engine : Engine) (cfg : StoreConfig) (json_numbers : Text → Option (List ℕ))
    (extract : Text → List Text) (now : ℕ) (r : SaveRequest) (st : Store)
    → IsSound st
    → IsSound (handle_save engine cfg json_numbers extract now r st).0
unfolding handle_save
handle_save-IsSound engine cfg json_numbers extract now r st k =
    let observed = handle_save_observation engine cfg json_numbers now r st.db in
    let saved = handle_save_observation-Leads engine cfg json_numbers now r st.db in
    let captured = passive_capture engine cfg now (capture_params r) (extract r.content) st.db in
    either-IsSound (is_empty r.content) (st, content_required) _ k
      (either-IsSound _ (observation_answer st observed) _
        (Steps-IsSound st observed.0 saved.steps k)
        (either-IsSound _ (prompt_answer (add_prompt cfg now (prompt_params r) st)) _
          (prompt_answer-IsSound _ (add_prompt-IsSound cfg now (prompt_params r) st k))
          (either-IsSound _ (capture_answer st captured) (st, unknown_save_type)
            (capture_answer-IsSound st captured
              (passive_capture-Steps engine cfg now (capture_params r) (extract r.content) st.db) k)
            k)))
