-- ===== src/Stages/Bootstrap/Laws.antt =====
-- internal/tools/bootstrap.go: what sdd_bootstrap keeps and what it writes.
use mathlib.Core.Bool.{false≢true}
use sdd_hoffy.Common.{
  String, ◌≡◌, refl, sym, ◌∙◌, List, [], ◌∷◌, Option, none, some, Bool, true, false, not, ◌||◌,
  ◌==◌, string_eq, ==_iff, All, get, put, get-put, Bool-cases, Option-cases, inl, inr,
  if◌then◌else◌,
}
use sdd_hoffy.Common.Result.{Result, ok, err}
use sdd_hoffy.Common.Text.{Text, is_empty}
use sdd_hoffy.Pipeline.Config.{stage_filename}
use sdd_hoffy.Stages.Files.{
  Error, Faults, WriteFault, refused, torn, late, Project, read_stage_file, write_stage_file,
  files_left, write_result, or_blank, mkdir_failed, nothing_given, render_failed,
}
use sdd_hoffy.Stages.Documents.{Document, Renderer}
use sdd_hoffy.Stages.Tools.{or_default}
use sdd_hoffy.Stages.Position.{HasText}
use sdd_hoffy.Stages.Bootstrap.{
  BootstrapRequest, Report, headed, render_and_write, artifact_exists, noted, write_artifact,
  write_artifacts, handle_bootstrap, requirements_given, rules_given, design_given, requirements_of,
  rules_of, design_of, no_report,
}

-- The configuration is the same, and so is every file that had text.
pub record IsKept (p q : Project) : Type 0 where
  pub config : q.config ≡ p.config
  pub same : (name : String) → HasText p.files name → get q.files name ≡ get p.files name

-- What holds between the groups: `names` are the files that have been asked for.
pub record IsStep (p : Project) (names : List String) (x : Project × Result Error Report)
    : Type 0 where
  pub kept : IsKept p x.0
  pub there : (report : Report) → x.1 ≡ ok report → All (HasText x.0.files) names

abbrev pub asked : Bool → String → List String → List String
asked is_given name names = if is_given then name ∷ names else names

files_left-get :
    (fault : Option WriteFault) (name other : String) (content : Text)
    (files : List (String × Text))
    → (name == other) ≡ false
    → get (files_left fault name content files) other ≡ get files other
files_left-get none name other content files h = rw (get-put, h) refl
files_left-get (some refused) name other content files h = refl
files_left-get (some (torn s)) name other content files h = rw (get-put, h) refl
files_left-get (some late) name other content files h = rw (get-put, h) refl

HasText-put_full :
    (name : String) (content : Text) (files : List (String × Text)) (names : List String)
    → is_empty content ≡ false
    → All (HasText files) names
    → All (HasText (put name content files)) names
HasText-put_full name content files [] full h = tt
HasText-put_full name content files (m ∷ names) full h = (
  elim (Bool-cases (name == m)) [
    | inl same ↦ rw (get-put, same) full
    | inr other ↦ rw (get-put, other) h.0
  ],
  HasText-put_full name content files names full h.1,
)

headed_full : (content : Text) → is_empty content ≡ false → is_empty (headed true content) ≡ false
headed_full content full = refl

-- If no read fails then an artifact exists when its file has text.
exists_iff :
    (io : Faults) (stage : String) (p : Project)
    → ((name : String) → io.read name ≡ false)
    → (stage_filename stage == "") ≡ false
    → artifact_exists io stage p ≡ not (is_empty (or_blank (get p.files (stage_filename stage))))
unfolding artifact_exists read_stage_file
exists_iff io stage p readable named = rw (named, readable (stage_filename stage)) refl

refused-IsStep :
    (p : Project) (names : List String) (q : Project) (e : Error)
    → IsKept p q
    → IsStep p names (q, err e)
refused-IsStep p names q e k = record { kept = k; there = λ report h. cc }

text_kept :
    (p q : Project) (name : String) → IsKept p q → HasText p.files name → HasText q.files name
text_kept p q name k h = rw (k.same name h) h

written-IsStep :
    (io : Faults) (stage : String) (content : Text) (report : Report) (p q : Project)
    (names : List String)
    → IsKept p q
    → All (HasText q.files) names
    → is_empty (or_blank (get p.files (stage_filename stage))) ≡ true
    → is_empty content ≡ false
    → IsStep p
        (stage_filename stage ∷ names)
        (noted report (stage_filename stage) (write_stage_file io (stage_filename stage) content q))
unfolding write_stage_file
written-IsStep io stage content report p q names k all blank full =
    go (io.write (stage_filename stage))
  where
    still :
        (fault : Option WriteFault)
        → IsKept p (record q { files = files_left fault (stage_filename stage) content q.files })
    still fault = record {
      config = k.config;
      same = λ name h. elim (Bool-cases (stage_filename stage == name)) [
        | inl same ↦
            absurd (false≢true (sym h ∙ rw ((==_iff (stage_filename stage) name).0 same) at blank))
        | inr other ↦
            files_left-get fault (stage_filename stage) name content q.files other ∙ k.same name h
      ];
    }

    go :
        (fault : Option WriteFault)
        → IsStep p (stage_filename stage ∷ names) (
            noted report (stage_filename stage) (
              record q { files = files_left fault (stage_filename stage) content q.files },
              write_result fault (stage_filename stage),
            ))
    go none = record {
      kept = still none;
      there = λ r h. (
        rw (get-put, (==_iff (stage_filename stage) (stage_filename stage)).1 refl) full,
        HasText-put_full (stage_filename stage) content q.files names full all,
      );
    }
    go (some fault) = refused-IsStep p (stage_filename stage ∷ names) _ _ (still (some fault))

-- One group keeps what was there, and its document is there afterwards if it is asked for.
write_artifact-IsStep :
    (io : Faults) (render : Renderer) (stage : String) (is_given : Bool) (document : Document)
    (p : Project) (names : List String) (x : Project × Result Error Report)
    → ((name : String) → io.read name ≡ false)
    → (stage_filename stage == "") ≡ false
    → IsStep p names x
    → IsStep p
        (asked is_given (stage_filename stage) names)
        (write_artifact io render stage is_given (artifact_exists io stage p) document x)
unfolding render_and_write
write_artifact-IsStep io render stage is_given document p names (q, err e) readable named s =
    refused-IsStep p (asked is_given (stage_filename stage) names) q e s.kept
write_artifact-IsStep io render stage true document p names (q, ok report) readable named s =
    elim (Bool-cases (is_empty (or_blank (get p.files (stage_filename stage))))) [
      | inl blank ↦ elim (Option-cases (render document)) [
        | inl failed ↦
            rw (exists_iff io stage p readable named, blank, failed)
              (refused-IsStep p (stage_filename stage ∷ names) q (render_failed stage) s.kept)
        | inr (content, made) ↦
            rw (exists_iff io stage p readable named, blank, made)
              (written-IsStep io stage (headed true content) report p q names s.kept
                (s.there report refl) blank refl)
      ]
      | inr text ↦
          rw (exists_iff io stage p readable named, text)
            record {
              kept = s.kept;
              there =
                  λ r h. (text_kept p q (stage_filename stage) s.kept text, s.there report refl);
            }
    ]
write_artifact-IsStep io render stage false document p names (q, ok report) readable named s =
    elim (Bool-cases (artifact_exists io stage p)) [
      | inl there ↦ rw there record { kept = s.kept; there = λ r h. s.there report refl }
      | inr absent ↦ rw absent s
    ]

abbrev pub asked_documents : BootstrapRequest → List String
asked_documents r = asked (design_given r.design) (stage_filename "design") (
    asked (rules_given r.rules) (stage_filename "business-rules")
      (asked (requirements_given r.requirements) (stage_filename "specify") []))

write_artifacts-IsStep :
    (base : String) (io : Faults) (render : Renderer) (r : BootstrapRequest) (p : Project)
    → ((name : String) → io.read name ≡ false)
    → IsStep p (asked_documents r) (write_artifacts base io render r p)
unfolding write_artifacts stage_filename
write_artifacts-IsStep base io render r p readable =
    write_artifact-IsStep io render "design" (design_given r.design)
      (design_of (or_default base r.project_name) r.design) p _ _ readable refl
      (write_artifact-IsStep io render "business-rules" (rules_given r.rules)
        (rules_of (or_default base r.project_name) r.rules) p _ _ readable refl
        (write_artifact-IsStep io render "specify" (requirements_given r.requirements)
          (requirements_of (or_default base r.project_name) r.requirements) p [] (p, ok no_report)
          readable refl
          record {
            kept = record { config = refl; same = λ name h. refl };
            there = λ report h. tt;
          }))

if-IsStep :
    (b : Bool) (p : Project) (names : List String) (x y : Project × Result Error Report)
    → IsStep p names x
    → IsStep p names y
    → IsStep p names (if b then x else y)
if-IsStep true p names x y s t = s
if-IsStep false p names x y s t = t

-- `sdd_bootstrap` leaves the configuration of the project, and every file that has text, as they are,
-- also where it fails midway; and if it succeeds, the document of each group of parameters that is
-- given has text afterwards: if no read fails.
pub handle_bootstrap-IsStep :
    (base : String) (io : Faults) (render : Renderer) (r : BootstrapRequest) (p : Project)
    → ((name : String) → io.read name ≡ false)
    → IsStep p (asked_documents r) (handle_bootstrap base io render r p)
unfolding handle_bootstrap
handle_bootstrap-IsStep base io render r p readable =
    if-IsStep io.mkdir p (asked_documents r) _ _
      (refused-IsStep p (asked_documents r) p mkdir_failed same)
      (if-IsStep
        (requirements_given r.requirements || (rules_given r.rules || design_given r.design)) p
        (asked_documents r) _ _ (write_artifacts-IsStep base io render r p readable)
        (refused-IsStep p (asked_documents r) p nothing_given same))
  where
    same : IsKept p p
    same = record { config = refl; same = λ name h. refl }
