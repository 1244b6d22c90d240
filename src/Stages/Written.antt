-- ===== src/Stages/Written.antt =====
-- internal/tools: the position of a project when its files are written, and when a write fails.
use sdd_hoffy.Common.{
  String, ℕ, suc, ◌≡◌, refl, List, Option, none, some, Bool, true, false, ◌==◌, string_eq, ==_iff,
  take, get_elem?, All, put, arith, Bool-cases, inl, inr,
}
use sdd_hoffy.Common.Result.{ok, Result-cases}
use sdd_hoffy.Common.Text.{Text, is_empty}
use sdd_hoffy.Pipeline.Config.{ProjectConfig, stage_order, stage_filename}
use sdd_hoffy.Pipeline.Machine.{mark_in_progress, advance, require_stage}
use sdd_hoffy.Pipeline.Machine.Progress.{IsAt}
use sdd_hoffy.Pipeline.Machine.Kept.{advance_ok, same_statuses-IsAt}
use sdd_hoffy.Stages.Files.{
  ConfigFile, absent, corrupt, saved, Project, Faults, WriteFault, refused, torn, late, load,
  loaded, save, config_left, write_stage_file, files_left, write_result,
}
use sdd_hoffy.Stages.Steps.{entered, needed, from_pipeline, save_moved, advanced}
use sdd_hoffy.Stages.Position.{
  documents, HasText, IsBehind, Position, lost, after, Stands, ◌⟶◌, stay, forward, lose,
  written-put, written-put_more,
}

-- One move leads to what a project stands for.
abbrev pub Outcome : Position → Project → Type 0
Outcome x q = (y : Position) × ((x ⟶ y) × Stands q y)

pub stays : (x : Position) (p : Project) → Stands p x → Outcome x p
stays x p s = (x, (stay x, s))

config_left-Outcome :
    (fault : Option WriteFault) (cfg : ProjectConfig) (p : Project) (x : Position) (j : ℕ)
    → Stands p x
    → (x ⟶ after j)
    → IsBehind j cfg p.files
    → Outcome x (record p { config = config_left fault cfg p.config })
config_left-Outcome none cfg p x j s m b = (after j, (m, (cfg, (refl, b))))
config_left-Outcome (some refused) cfg p x j s m b = (x, (stay x, s))
config_left-Outcome (some (torn t)) cfg p x j s m b = (lost, (lose x, refl))
config_left-Outcome (some late) cfg p x j s m b = (after j, (m, (cfg, (refl, b))))

-- Saving what stands at the end of a move makes that move, or none, or loses the configuration.
pub save-Outcome :
    (now : String) (io : Faults) (cfg : ProjectConfig) (p : Project) (x : Position) (j : ℕ)
    → Stands p x
    → (x ⟶ after j)
    → IsBehind j cfg p.files
    → Outcome x (save now io cfg p).0
unfolding save
save-Outcome now io cfg p x j s m b =
    config_left-Outcome io.save (record cfg { updated_at = now }) p x j s m
      record { at = (same_statuses-IsAt (suc j) cfg now 0 b.at).0; written = b.written }

-- Writing the document of the current stage leaves the position, whatever becomes of the write.
pub files_left-written :
    (fault : Option WriteFault) (j : ℕ) (stage : String) (content : Text)
    (files : List (String × Text))
    → get_elem? stage_order (suc j) ≡ some stage
    → All (HasText files) (take j documents)
    → All (HasText (files_left fault (stage_filename stage) content files)) (take j documents)
files_left-written none j stage content files h w = written-put j stage content files h w
files_left-written (some refused) j stage content files h w = w
files_left-written (some (torn t)) j stage content files h w = written-put j stage t files h w
files_left-written (some late) j stage content files h w = written-put j stage content files h w

pub write-Stands :
    (io : Faults) (j : ℕ) (stage : String) (content : Text) (p : Project)
    → get_elem? stage_order (suc j) ≡ some stage
    → Stands p (after j)
    → Stands (write_stage_file io (stage_filename stage) content p).0 (after j)
unfolding write_stage_file
write-Stands io j stage content p h (cfg, (e, b)) = (
  cfg,
  (
    e,
    record {
      at = b.at;
      written =
          files_left-written (io.write (stage_filename stage)) j stage content p.files h b.written;
    },
  ),
)

-- After `Advance` the project stands one stage further, if the document has been written.
pub save_moved-Outcome :
    (now : String) (io : Faults) (cfg : ProjectConfig) (p : Project) (j : ℕ)
    → Stands p (after j)
    → IsAt (suc j) cfg
    → All (HasText p.files) (take (suc j) documents)
    → Outcome (after j) (save_moved now io p (from_pipeline (advance now cfg))).0
save_moved-Outcome now io cfg p j s at w = elim (Result-cases (advance now cfg)) [
  | inl (next, e) ↦
      let (lt, at') = advance_ok now (suc j) cfg next at e in
      rw e (
        save-Outcome now io next p (after j) (suc j) s (forward j (omega arith))
          record { at = at'; written = w })
  | inr (x, e) ↦ rw e (stays (after j) p s)
]

-- A stage's document is written, and then the pipeline moves.
pub advanced-Outcome :
    (now : String) (io : Faults) (stage : String) (content : Text) (cfg : ProjectConfig)
    (p : Project) (j : ℕ)
    → Stands p (after j)
    → IsAt (suc j) cfg
    → get_elem? stage_order (suc j) ≡ some stage
    → is_empty content ≡ false
    → Outcome
        (after j)
        (advanced now io cfg (write_stage_file io (stage_filename stage) content p)).0
unfolding write_stage_file
advanced-Outcome now io stage content cfg p j (c, (e, b)) at h full =
    go (io.write (stage_filename stage))
  where
    go :
        (fault : Option WriteFault)
        → Outcome
            (after j)
            (advanced now io cfg (
              record p { files = files_left fault (stage_filename stage) content p.files },
              write_result fault (stage_filename stage),
            )).0
    go none =
        save_moved-Outcome now io cfg
          (record p { files = put (stage_filename stage) content p.files }) j
          (c, (e, record { at = b.at; written = written-put j stage content p.files h b.written }))
          at (written-put_more j stage content p.files h full b.written)
    go (some fault) = (
      after j,
      (
        stay (after j),
        (
          c,
          (
            e,
            record {
              at = b.at;
              written = files_left-written (some fault) j stage content p.files h b.written;
            },
          ),
        ),
      ),
    )

-- What a handler knows when it has passed its checks.
pub record IsEntered (now stage : String) (p : Project) (cfg : ProjectConfig) : Type 0 where
  pub base : ProjectConfig
  pub held : p.config ≡ saved base
  pub here : base.current_stage ≡ stage
  pub marked : cfg ≡ mark_in_progress now base.current_stage base

loaded_ok :
    (fails : Bool) (f : ConfigFile) (cfg : ProjectConfig) → loaded fails f ≡ ok cfg → f ≡ saved cfg
loaded_ok fails absent cfg h = cc
loaded_ok true corrupt cfg h = cc
loaded_ok false corrupt cfg h = cc
loaded_ok true (saved c) cfg h = cc
loaded_ok false (saved c) cfg h = cc

pub entered_ok :
    (now : String) (io : Faults) (stage : String) (needs : List String) (p : Project)
    (cfg : ProjectConfig)
    → entered now io stage needs p ≡ ok cfg
    → IsEntered now stage p cfg
unfolding entered load require_stage
entered_ok now io stage needs p cfg h = elim (Result-cases (loaded io.read_config p.config)) [
  | inr (x, e) ↦ absurd (let g = rw e at h in cc)
  | inl (base, e) ↦ elim (Bool-cases (base.current_stage == stage)) [
    | inr other ↦ absurd (let g = rw (e, other) at h in cc)
    | inl same ↦ elim (Result-cases (needed io needs p)) [
      | inr (x, d) ↦ absurd (let g = rw (e, same, d) at h in cc)
      | inl (u, d) ↦ record {
        base = base;
        held = loaded_ok io.read_config p.config base e;
        here = (==_iff base.current_stage stage).0 same;
        marked = let g = rw (e, same, d) at h in cc;
      }
    ]
  ]
]
