-- ===== src/Examples/Changes.antt =====
-- Concrete changes and stores for the theorems on changes.
use sdd_hoffy.Common.{
  String, ◌≡◌, ◌≢◌, refl, sym, List, [], ◌∷◌, some, true, false, arith, ◌∙◌, Bool-cases, inl, inr,
  text_eq, text_beq, ◌==◌, ==_iff, Distinct,
}
use sdd_hoffy.Common.Result.{ok, err}
use sdd_hoffy.Common.Text.{Text, codes, trim_left, trim_right}
use sdd_hoffy.Changes.Types.{ChangeRecord, StageEntry, Error}
use sdd_hoffy.Changes.Flow.{stage_flow}
use sdd_hoffy.Changes.Flow.Shape.{IsFlow, stage_flow-IsFlow}
use sdd_hoffy.Changes.Slug.{slugify, is_space_rune}
use sdd_hoffy.Changes.Slug.Shape.{IsSlug, slugify-IsSlug}
use sdd_hoffy.Changes.Machine.{advance}
use sdd_hoffy.Changes.Machine.Progress.{IsAt, advance-IsAt}
use sdd_hoffy.Changes.Store.{
  FileStore, Listing, Entry, folder, config, entry, exists, load, load_active, create, archive,
  free_id, rounds,
}
use sdd_hoffy.Changes.Store.Sound.{IsSound, holds}
use sdd_hoffy.Changes.Store.Laws.{no_faults, reused_id_never_archived}
use sdd_hoffy.Changes.Store.Archived.{IsArchived, archive-IsArchived}
use sdd_hoffy.Changes.Store.FreeId.{IsCandidate, free_id_total}
use sdd_hoffy.Changes.Tools.{ChangeRequest, handle_change, handle_advance}
use sdd_hoffy.Changes.Tools.Sound.{handle_change-IsSound, handle_advance-IsSound}
use sdd_hoffy.Changes.Tools.Start.{handle_change_starts}
use sdd_hoffy.Changes.Tools.Lifecycle.{Finished, run_advances, run_advances-Finished}

abbrev request : ChangeRequest
request = record { type = "fix"; size = "small"; description = codes "Repair login" }

abbrev fix_flow : List String
fix_flow = "describe" ∷ "context-check" ∷ "tasks" ∷ "verify" ∷ []

abbrev empty_store : FileStore
empty_store = record { changes = []; history = [] }

abbrev waiting : String → StageEntry
waiting name = record { name = name; status = "pending"; started_at = ""; completed_at = "" }

abbrev done : String → StageEntry
done name = record { name = name; status = "completed"; started_at = "t0"; completed_at = "t1" }

abbrev started : ChangeRecord
started = record {
  id = codes "repair-login";
  type = "fix";
  size = "small";
  description = codes "Repair login";
  stages =
      record { name = "describe"; status = "in_progress"; started_at = "t0"; completed_at = "" }
      ∷ waiting "context-check"
      ∷ waiting "tasks"
      ∷ waiting "verify"
      ∷ [];
  current_stage = "describe";
  adrs = [];
  status = "active";
  created_at = "t0";
  updated_at = "t0";
}

abbrev store_of : ChangeRecord → FileStore
store_of c = record { changes = (c.id, folder (config c)) ∷ []; history = [] }

abbrev verifying : ChangeRecord
verifying = record started {
  stages =
      done "describe"
      ∷ done "context-check"
      ∷ done "tasks"
      ∷ record { name = "verify"; status = "in_progress"; started_at = "t1"; completed_at = "" }
      ∷ [];
  current_stage = "verify";
}

abbrev old : ChangeRecord
old = record started { status = "completed" }

empty-IsSound : IsSound empty_store
unfolding entry
empty-IsSound = record {
  unique = tt;
  named = λ n c h. absurd (cc);
  single = λ m n c d h g a b. absurd (cc);
}

only_entry :
    (id n : Text) (e : Entry) (c : ChangeRecord)
    → entry ((id, e) ∷ []) n ≡ holds c
    → (id ≡ n) × (some e ≡ holds c)
unfolding entry
only_entry id n e c h = elim (Bool-cases (id == n)) [
  | inl here ↦ ((==_iff id n).0 here, rw here at h)
  | inr other ↦ absurd (let g = rw other at h in cc)
]

same_change : (c d : ChangeRecord) → holds c ≡ holds d → c ≡ d
same_change c d h = cc

store_of-IsSound : (c : ChangeRecord) → IsSound (store_of c)
unfolding entry
store_of-IsSound c = record {
  unique = (refl, tt);
  named = λ n d h.
      let o = only_entry c.id n (folder (config c)) d h in
      let same = same_change c d o.1 in rw (← same) o.0;
  single = λ m n d e h g a b.
      sym (only_entry c.id m (folder (config c)) d h).0
      ∙ (only_entry c.id n (folder (config c)) e g).0;
}

started-IsAt : IsAt fix_flow 0 started
started-IsAt = record {
  active = refl;
  follows = refl;
  here = refl;
  statuses = (refl, (refl, (refl, (refl, tt))));
}

verifying-IsAt : IsAt fix_flow 3 verifying
verifying-IsAt = record {
  active = refl;
  follows = refl;
  here = refl;
  statuses = (refl, (refl, (refl, (refl, tt))));
}

fix_flow_known : stage_flow "fix" "small" ≡ ok fix_flow
unfolding stage_flow
fix_flow_known = refl

fix_flow-Distinct : Distinct fix_flow
fix_flow-Distinct = (stage_flow-IsFlow "fix" "small" fix_flow_known).distinct

started_found : load_active no_faults (store_of started) ≡ ok (some started)
unfolding load_active
started_found = refl

abbrev four_inputs : List (String × Text)
four_inputs = ("t1", codes "a") ∷ ("t2", codes "b") ∷ ("t3", codes "c") ∷ ("t4", codes "d") ∷ []

run_advances-Finished_example :
    Finished fix_flow (codes "repair-login") (run_advances four_inputs (store_of started))
unfolding is_space_rune trim_left trim_right
run_advances-Finished_example =
    run_advances-Finished "fix" "small" fix_flow_known four_inputs (store_of started)
      record {
        sound = store_of-IsSound started;
        change = started;
        named = refl;
        found = started_found;
        at = started-IsAt;
      }
      refl (refl, (refl, (refl, (refl, tt))))

handle_change-IsSound_example : IsSound (handle_change "t0" no_faults true request empty_store).0
handle_change-IsSound_example =
    handle_change-IsSound "t0" no_faults true request empty_store empty-IsSound (λ n c e a. refl)

handle_advance-IsSound_example :
    IsSound (handle_advance "t1" no_faults (codes "a") (store_of started)).0
handle_advance-IsSound_example =
    handle_advance-IsSound "t1" no_faults (codes "a") (store_of started) (store_of-IsSound started)

archive-IsArchived_example :
    IsArchived "t5" no_faults
      (codes "repair-login")
      (store_of old)
      (archive "t5" no_faults (codes "repair-login") (store_of old))
archive-IsArchived_example =
    archive-IsArchived "t5" no_faults (codes "repair-login") (store_of old) (store_of-IsSound old)

handle_change_starts_example :
    (c : ChangeRecord) × (st' : FileStore) × (handle_change "t0" no_faults true request empty_store
      ≡ (st', ok c))
    × IsAt fix_flow 0 c
    × IsCandidate (slugify request.description) c.id
    × (exists (entry empty_store.changes c.id) ≡ false)
    × (load no_faults c.id st' ≡ ok c)
    × ((m : Text) → m ≢ c.id → entry st'.changes m ≡ entry empty_store.changes m)
unfolding load_active is_space_rune trim_left trim_right
handle_change_starts_example =
    handle_change_starts "t0" true request empty_store fix_flow_known refl refl refl

advance-IsAt_example :
    (c' : ChangeRecord) × (advance "t1" started ≡ ok c')
    × IsAt fix_flow 1 c'
    × (c'.id ≡ started.id)
    × (c'.type ≡ started.type)
    × (c'.size ≡ started.size)
    × (c'.description ≡ started.description)
    × (c'.adrs ≡ started.adrs)
    × (c'.created_at ≡ started.created_at)
    × (c'.updated_at ≡ "t1")
advance-IsAt_example = advance-IsAt fix_flow-Distinct started-IsAt "t1" (omega arith)

stage_flow-IsFlow_example : IsFlow "small" fix_flow
stage_flow-IsFlow_example = stage_flow-IsFlow "fix" "small" fix_flow_known

slugify-IsSlug_example : IsSlug (slugify (codes "  Repair -- the LOGIN!"))
slugify-IsSlug_example = slugify-IsSlug (codes "  Repair -- the LOGIN!")

abbrev taken : Listing
taken = (codes "repair-login", folder (config old)) ∷ []

free_id_total_example :
    (new : Text) × (free_id (rounds taken) taken (codes "repair-login") (codes "repair-login") 2
      ≡ some new)
    × (exists (entry taken new) ≡ false)
    × IsCandidate (codes "repair-login") new
free_id_total_example = free_id_total taken (codes "repair-login")

abbrev archived_before : FileStore
archived_before = record {
  changes = [];
  history = (codes "repair-login", folder (config old)) ∷ [];
}

abbrev completed_later : FileStore
completed_later = record archived_before {
  changes = (codes "repair-login", folder (config old)) ∷ [];
}

reused_id_never_archived_example :
    ((create no_faults started archived_before).1 ≡ ok started)
    × ((archive "t9" no_faults started.id completed_later).0 ≡ completed_later)
    × ((e : Error) × ((archive "t9" no_faults started.id completed_later).1 ≡ err e))
unfolding entry text_beq
reused_id_never_archived_example =
    reused_id_never_archived "t9" no_faults started archived_before completed_later refl refl refl
