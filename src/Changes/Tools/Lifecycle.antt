-- ===== src/Changes/Tools/Lifecycle.antt =====
-- internal/tools/change_advance.go: the calls of `sdd_change_advance` on one change, from its first
-- stage on.
use mathlib.Core.Bool.{false≢true}
use mathlib.Core.Path.{subst}
use sdd_hoffy.Common.{
  String, ℕ, suc, ◌+◌, ◌<◌, ◌≡◌, sym, ap, ◌∙◌, List, [], ◌∷◌, none, some, true, false, ◌==◌,
  text_eq, string_eq, ==_iff, ==_refl, arith, if◌then◌else◌, Bool-cases, inl, inr, length,
  All-get_elem?, get_elem?-lt_length, refl,
}
use sdd_hoffy.Common.Result.{ok}
use sdd_hoffy.Common.Text.{Text, is_empty}
use sdd_hoffy.Changes.Types.{ChangeRecord}
use sdd_hoffy.Changes.Flow.{stage_flow, stage_filename}
use sdd_hoffy.Changes.Flow.Shape.{IsFlow, stage_flow-IsFlow}
use sdd_hoffy.Changes.Slug.{trim_spaces}
use sdd_hoffy.Changes.Machine.{is_last_stage, advance, complete_change}
use sdd_hoffy.Changes.Machine.Progress.{
  IsAt, IsDone, advance-IsAt, complete_change-IsDone, is_last_stage_at,
}
use sdd_hoffy.Changes.Store.{
  FileStore, config, folder, entry, set_entry, load_active, is_active, save,
}
use sdd_hoffy.Changes.Store.Entries.{entry-set_entry}
use sdd_hoffy.Changes.Store.Laws.{no_faults}
use sdd_hoffy.Changes.Store.Sound.{
  IsSound, holds, where_set, load_active-some, load_active-none, load_active-cases,
}
use sdd_hoffy.Changes.Tools.Sound.{handle_advance-IsSound}
use sdd_hoffy.Changes.Tools.{move_on, save_moved, handle_advance}

-- The store holds the active change `c` at position `k` of its flow.
pub record Stands (flow : List String) (k : ℕ) (id : Text) (st : FileStore) : Type 0 where
  pub sound : IsSound st
  pub change : ChangeRecord
  pub named : change.id ≡ id
  pub found : load_active no_faults st ≡ ok (some change)
  pub at : IsAt flow k change

abbrev NotBlank : Text → Type 0
NotBlank s = is_empty (trim_spaces s) ≡ false

-- In a sound store the active change that a name holds is the one that is found.
found_there :
    (st : FileStore) (n : Text) (c : ChangeRecord)
    → IsSound st
    → entry st.changes n ≡ holds c
    → is_active c ≡ true
    → load_active no_faults st ≡ ok (some c)
found_there st n c s e a = elim (load_active-cases no_faults st refl) [
  | inl h ↦ absurd (false≢true (sym (load_active-none no_faults st n c h (λ n c e a. refl) e) ∙ a))
  | inr (d, h) ↦
      let (there, active) = load_active-some no_faults st d s h in
      let same : n ≡ d.id = s.single n d.id c d e there a active in
      let both : holds c ≡ holds d = sym e ∙ (ap (entry st.changes) same ∙ there) in
      let equal : c ≡ d = cc in h ∙ ap (λ x. ok (some x)) (sym equal)
]

abbrev stamped : String → ChangeRecord → ChangeRecord
stamped now c = record c { updated_at = now }

abbrev with_record : ChangeRecord → FileStore → FileStore
with_record c st = record st { changes = set_entry c.id (folder (config c)) st.changes }

-- Saving over a record that is there succeeds.
saved :
    (now : String) (c c' : ChangeRecord) (st : FileStore)
    → entry st.changes c'.id ≡ holds c
    → save now no_faults c' st ≡ (with_record (stamped now c') st, ok (stamped now c'))
unfolding save
saved now c c' st h = rw h

entry-with_record :
    (c : ChangeRecord) (st : FileStore) → entry (with_record c st).changes c.id ≡ holds c
entry-with_record c st = rw (entry-set_entry c.id c.id (folder (config c)) st.changes, ==_refl c.id)

-- Once the active change has been written back as inactive, no change is active.
none_after :
    (c c' : ChangeRecord) (st : FileStore)
    → IsSound st
    → load_active no_faults st ≡ ok (some c)
    → c'.id ≡ c.id
    → is_active c' ≡ false
    → IsSound (with_record c' st)
    → load_active no_faults (with_record c' st) ≡ ok none
none_after c c' st s found same idle after =
    elim (load_active-cases no_faults (with_record c' st) refl) [
      | inl h ↦ h
      | inr (d, h) ↦
          let (there, active) = load_active-some no_faults (with_record c' st) d after h in
          let (here, was_active) = load_active-some no_faults st c s found in
          elim (where_set st c'.id d.id (folder (config c')) d there) [
            | inl (_, e) ↦
                let equal : c' ≡ d = cc in
                absurd
                  (false≢true (sym idle ∙ (ap (λ (x : ChangeRecord). is_active x) equal ∙ active)))
            | inr (ne, old) ↦
                absurd (ne (s.single d.id c.id d c old here active was_active ∙ sym same))
          ]
    ]

-- The store has no active change, and under `id` a completed change that followed the flow.
pub record Finished (flow : List String) (id : Text) (st : FileStore) : Type 0 where
  pub sound : IsSound st
  pub idle : load_active no_faults st ≡ ok none
  pub change : ChangeRecord
  pub stored : entry st.changes id ≡ holds change
  pub done : IsDone flow change

module _ {flow : List String} {size : String} (shape : IsFlow size flow) {k : ℕ} {id : Text}
    {st : FileStore} (stands : Stands flow k id st) (now : String) (content : Text)
    (filled : NotBlank content) where
  open stands use {change, sound, found, at, named}

  moved_on :
      move_on now no_faults content st
      ≡ (if is_last_stage change then complete_change now change else advance now change)
  unfolding move_on
  moved_on = rw (
    filled,
    found,
    All-get_elem? (λ stage. (stage_filename stage == "") ≡ false) k flow shape.filed at.here,
  )

  -- What the handler writes once the state machine has moved to `c'`.
  handled :
      (c' : ChangeRecord)
      → (if is_last_stage change then complete_change now change else advance now change) ≡ ok c'
      → c'.id ≡ change.id
      → handle_advance now no_faults content st
        ≡ (with_record (stamped now c') st, ok (stamped now c'))
  unfolding handle_advance
  handled c' e same =
      ap (save_moved now no_faults st) (moved_on ∙ e)
      ∙ saved now change c' st (
          subst (λ m. entry st.changes m ≡ holds change) (sym same)
            (load_active-some no_faults st change sound found).0)

  IsSound-after :
      (c' : ChangeRecord)
      → handle_advance now no_faults content st
        ≡ (with_record (stamped now c') st, ok (stamped now c'))
      → IsSound (with_record (stamped now c') st)
  IsSound-after c' run =
      subst (λ p. IsSound p.0) run (handle_advance-IsSound now no_faults content st sound)

  -- A call before the last stage moves the active change to the next stage of its flow.
  step_before :
      suc k < length flow
      → (c' : ChangeRecord) × (st' : FileStore) × (handle_advance now no_faults content st
          ≡ (st', ok c'))
        × Stands flow (suc k) id st'
  step_before lt =
      let (c', move, at', same, _, _, _, _, _, _) = advance-IsAt shape.distinct at now lt in
      let early : is_last_stage change ≡ false = elim (Bool-cases (is_last_stage change)) [
        | inl last ↦ absurd (omega (arith, (is_last_stage_at shape.distinct at).0 last))
        | inr e ↦ e
      ] in
      let run = handled c' (rw early move) same in
      let after = IsSound-after c' run in
      let st' : FileStore = with_record (stamped now c') st in
      (
        stamped now c',
        st',
        run,
        record {
          sound = after;
          change = stamped now c';
          named = same ∙ named;
          found =
              found_there st' c'.id (stamped now c') after (entry-with_record (stamped now c') st)
                ((==_iff c'.status "active").1 at'.active);
          at = record {
            active = at'.active;
            follows = at'.follows;
            here = at'.here;
            statuses = at'.statuses;
          };
        },
      )

  -- A call at the last stage completes the change, and no change is active afterwards.
  step_last :
      suc k ≡ length flow
      → (c' : ChangeRecord) × (st' : FileStore) × (handle_advance now no_faults content st
          ≡ (st', ok c'))
        × Finished flow id st'
  step_last last =
      let (c', complete, done, same) = complete_change-IsDone shape.distinct at now last in
      let run = handled c' (rw ((is_last_stage_at shape.distinct at).1 last) complete) same in
      let after = IsSound-after c' run in
      let st' : FileStore = with_record (stamped now c') st in
      (
        stamped now c',
        st',
        run,
        record {
          sound = after;
          idle =
              none_after change (stamped now c') st sound found same
                (ap (λ s'. s' == "active") done.completed) after;
          change = stamped now c';
          stored =
              subst (λ m. entry st'.changes m ≡ holds (stamped now c')) (same ∙ named)
                (entry-with_record (stamped now c') st);
          done = record {
            completed = done.completed;
            follows = done.follows;
            all_completed = done.all_completed;
          };
        },
      )

-- `sdd_change_advance` once for each input, a time and a content.
pub run_advances : List (String × Text) → FileStore → FileStore
run_advances [] st = st
run_advances ((now, content) ∷ inputs) st =
    run_advances inputs (handle_advance now no_faults content st).0

abbrev AllFilled : List (String × Text) → Type 0
AllFilled [] = Unit
AllFilled ((now, content) ∷ inputs) = NotBlank content × AllFilled inputs

finishes :
    {flow : List String} {size : String}
    → IsFlow size flow
    → {id : Text} (inputs : List (String × Text)) (k : ℕ) (st : FileStore) → Stands flow k id st
    → k + length inputs ≡ length flow
    → AllFilled inputs
    → Finished flow id (run_advances inputs st)
unfolding run_advances
finishes {flow} shape {id} [] k st stands enough filled =
    absurd (omega (arith, get_elem?-lt_length k _ stands.at.here))
finishes {flow} shape {id} ((now, content) ∷ []) k st stands enough filled =
    let (c', st', run, done) = step_last shape stands now content filled.0 (omega arith) in
    subst (λ p. Finished flow id p.0) (sym run) done
finishes {flow} shape {id} ((now, content) ∷ next ∷ inputs) k st stands enough filled =
    let (c', st', run, stands') = step_before shape stands now content filled.0 (omega arith) in
    subst (λ p. Finished flow id (run_advances (next ∷ inputs) p.0)) (sym run)
      (finishes shape (next ∷ inputs) (suc k) st' stands' (omega arith) filled.1)

-- From the first stage of its flow, exactly as many calls of `sdd_change_advance` as the flow has
-- stages, each with a content that is not blank and none failing to write, complete the change: its
-- stages are those of the flow and all are completed, and no change is active any more.
pub run_advances-Finished :
    (type size : String) {flow : List String}
    → stage_flow type size ≡ ok flow
    → {id : Text} (inputs : List (String × Text)) (st : FileStore) → Stands flow 0 id st
    → length inputs ≡ length flow
    → AllFilled inputs
    → Finished flow id (run_advances inputs st)
run_advances-Finished type size known inputs st stands enough filled =
    finishes (stage_flow-IsFlow type size known) inputs 0 st stands (omega arith) filled
