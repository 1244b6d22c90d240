-- ===== src/Stages/Run.antt =====
-- internal/tools: a sequence of calls of the stages' handlers, each at its own time and with its own
-- failures.
use sdd_hoffy.Common.{
  String, ℕ, zero, suc, ◌<◌, ◌≡◌, List, [], ◌∷◌, some, true, take, get_elem?, All, refl, ==_iff,
  string_eq, arith, false, get,
}
use mathlib.Core.Path.{subst}
use mathlib.Core.Option.{some-injective}
use sdd_hoffy.Common.Text.{Text, is_empty}
use sdd_hoffy.Pipeline.Config.{stage_filename}
use sdd_hoffy.Pipeline.Machine.Progress.{same_position}
use sdd_hoffy.Stages.Position.{IsBehind, document_at}
use sdd_hoffy.Stages.Files.{or_blank}
use sdd_hoffy.Pipeline.Config.{ProjectConfig, stage_order}
use sdd_hoffy.Pipeline.Machine.{is_completed}
use sdd_hoffy.Stages.Files.{Project, Faults, absent, saved}
use sdd_hoffy.Stages.Documents.{Renderer, IsRenderer}
use sdd_hoffy.Stages.Position.{documents, HasText, Position, unborn, lost, after, Stands, ◌⟶◌}
use sdd_hoffy.Stages.Refined.{same_saved}
use sdd_hoffy.Stages.Moves.{Call, run_call, run_call-Outcome}

pub record Attempt : Type 0 where
  pub now : String
  pub io : Faults
  pub call : Call

unfoldable pub run_calls : Renderer → List Attempt → Project → Project
unfolding run_call
run_calls render [] p = p
run_calls render (a ∷ attempts) p =
    run_calls render attempts (run_call a.now a.io render a.call p).0

abbrev pub no_project : Project
no_project = record { config = absent; files = [] }

infix 40 ◌⟶*◌
pub data ◌⟶*◌ : Position → Position → Type 0 where
  done : (x : Position) → x ⟶* x
  next : {x y z : Position} → (x ⟶ y) → (y ⟶* z) → x ⟶* z

-- Any number of calls, whatever of their reads and writes fails, is a chain of moves of the position, at
-- most one for each call, and the project that they leave stands for the end of the chain: if no
-- template renders to the empty text.
pub run_calls-Stands :
    (render : Renderer) (attempts : List Attempt) (p : Project) (x : Position)
    → IsRenderer render
    → Stands p x
    → (y : Position) × ((x ⟶* y) × Stands (run_calls render attempts p) y)
unfolding run_calls
run_calls-Stands render [] p x lawful s = (x, (done x, s))
run_calls-Stands render (a ∷ attempts) p x lawful s =
    let (y, (m, t)) = run_call-Outcome a.now a.io render a.call p x lawful s in
    let (z, (ms, u)) =
      run_calls-Stands render attempts (run_call a.now a.io render a.call p).0 y lawful t in
    (z, (next m ms, u))

All-take-get_elem? :
    (P : String → Type 0) (xs : List String) (k i : ℕ) (n : String)
    → All P (take k xs)
    → i < k
    → get_elem? xs i ≡ some n
    → P n
All-take-get_elem? P [] k i n a lt h = cc
All-take-get_elem? P (x ∷ xs) zero i n a lt h = absurd (omega (arith, lt))
All-take-get_elem? P (x ∷ xs) (suc k) zero n a lt h = subst P (some-injective x n h) a.0
All-take-get_elem? P (x ∷ xs) (suc k) (suc i) n a lt h =
    All-take-get_elem? P xs k i n a.1 (omega arith) h

pub behind-IsBehind :
    (k i j : ℕ) (stage : String) (cfg : ProjectConfig) (files : List (String × Text))
    → IsBehind k cfg files
    → get_elem? stage_order (suc j) ≡ some cfg.current_stage
    → get_elem? stage_order (suc i) ≡ some stage
    → i < j
    → (is_completed cfg stage ≡ true) × HasText files (stage_filename stage)
behind-IsBehind k i j stage cfg files b here there lt =
    let same : suc k ≡ suc j =
      same_position (suc k) (suc j) cfg.current_stage cfg.current_stage b.at.here here
        ((==_iff cfg.current_stage cfg.current_stage).1 refl) in
    (
      b.at.behind (suc i) stage (omega arith) there,
      All-take-get_elem? (HasText files) documents k i (stage_filename stage) b.written
          (omega arith) (document_at i stage there),
    )

-- In the project that any number of calls leaves of none, whatever of their reads and writes fails,
-- every stage after "init" and before the current one is completed, and the file of its document is not
-- empty: if no template renders to the empty text.
pub run_calls-behind :
    (render : Renderer) (attempts : List Attempt) (cfg : ProjectConfig) (i j : ℕ) (stage : String)
    → IsRenderer render
    → (run_calls render attempts no_project).config ≡ saved cfg
    → get_elem? stage_order (suc j) ≡ some cfg.current_stage
    → get_elem? stage_order (suc i) ≡ some stage
    → i < j
    → (is_completed cfg stage ≡ true)
      × (is_empty
            (or_blank (get (run_calls render attempts no_project).files (stage_filename stage)))
          ≡ false)
run_calls-behind render attempts cfg i j stage lawful h here there lt =
    go (run_calls-Stands render attempts no_project unborn lawful refl).0
      (run_calls-Stands render attempts no_project unborn lawful refl).1.1
  where
    go :
        (x : Position)
        → Stands (run_calls render attempts no_project) x
        → (is_completed cfg stage ≡ true)
          × (is_empty
                (or_blank (get (run_calls render attempts no_project).files (stage_filename stage)))
              ≡ false)
    go unborn s = absurd cc
    go lost s = absurd cc
    go (after k) (c, (e, b)) =
        behind-IsBehind k i j stage cfg (run_calls render attempts no_project).files
          (subst (λ f. IsBehind k f (run_calls render attempts no_project).files)
            (same_saved c cfg (run_calls render attempts no_project).config e h) b)
          here there lt
