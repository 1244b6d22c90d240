-- ===== src/Stages/Position.antt =====
-- internal/tools, internal/pipeline/state.go: the abstract view of a project. What counts is how many
-- stages after "init" are behind it; each of these is completed and has left its document.
use mathlib.Core.Bool.{false≢true}
use mathlib.Core.Option.{some-injective}
use sdd_hoffy.Common.{
  String, ℕ, zero, suc, ◌<◌, ◌≡◌, refl, sym, ap, ◌∙◌, List, [], ◌∷◌, some, false, ◌==◌, string_eq,
  ==_iff, Distinct, take, get_elem?, All, All-get_elem?, get, put, get-put, arith, Bool-cases, inl,
  inr,
}
use sdd_hoffy.Common.Text.{Text, is_empty}
use sdd_hoffy.Pipeline.Config.{ProjectConfig, stage_order, stage_filename}
use sdd_hoffy.Pipeline.Machine.Progress.{IsAt}
use sdd_hoffy.Stages.Files.{absent, corrupt, saved, Project, or_blank}

abbrev pub filenames : List String → List String
filenames [] = []
filenames (s ∷ stages) = stage_filename s ∷ filenames stages

abbrev pub later_stages : List String
later_stages =
    "principles" ∷ "charter" ∷ "specify" ∷ "business-rules" ∷ "clarify" ∷ "design" ∷ "tasks"
    ∷ "validate" ∷ []

-- The documents of the stages after "init", in their order.
abbrev pub documents : List String
documents = filenames later_stages

documents-Distinct : Distinct documents
unfolding stage_filename
documents-Distinct = ground arith

abbrev pub HasText : List (String × Text) → String → Type 0
HasText files name = is_empty (or_blank (get files name)) ≡ false

-- A configuration with `j` stages after "init" behind it, and the documents of these.
pub record IsBehind (j : ℕ) (cfg : ProjectConfig) (files : List (String × Text)) : Type 0 where
  pub at : IsAt (suc j) cfg
  pub written : All (HasText files) (take j documents)

pub data Position : Type 0 where
  unborn lost : Position
  after : ℕ → Position

-- What a project stands for.
abbrev pub Stands : Project → Position → Type 0
Stands p unborn = p.config ≡ absent
Stands p lost = p.config ≡ corrupt
Stands p (after j) = (cfg : ProjectConfig) × ((p.config ≡ saved cfg) × IsBehind j cfg p.files)

-- The moves of a position: none, the start, one stage forward, or the loss of a configuration that is
-- torn while it is written.
infix 40 ◌⟶◌
pub data ◌⟶◌ : Position → Position → Type 0 where
  stay : (x : Position) → x ⟶ x
  begin : unborn ⟶ after 0
  forward : (j : ℕ) → suc j < 8 → after j ⟶ after (suc j)
  lose : (x : Position) → x ⟶ lost

get_elem?-filenames :
    (j : ℕ) (s : String) (stages : List String)
    → get_elem? stages j ≡ some s
    → get_elem? (filenames stages) j ≡ some (stage_filename s)
get_elem?-filenames j s [] h = cc
get_elem?-filenames zero s (x ∷ stages) h = ap some (ap stage_filename (some-injective x s h))
get_elem?-filenames (suc j) s (x ∷ stages) h = get_elem?-filenames j s stages h

pub document_at :
    (j : ℕ) (s : String)
    → get_elem? stage_order (suc j) ≡ some s
    → get_elem? documents j ≡ some (stage_filename s)
document_at j s h = get_elem?-filenames j s later_stages h

differs_back : (s t : String) → (s == t) ≡ false → (t == s) ≡ false
differs_back s t h = elim (Bool-cases (t == s)) [
  | inl same ↦ absurd (false≢true (sym h ∙ (==_iff s t).1 (sym ((==_iff t s).0 same))))
  | inr other ↦ other
]

differs_before :
    (xs : List String) (j : ℕ) (n : String)
    → Distinct xs
    → get_elem? xs j ≡ some n
    → All (λ m. (n == m) ≡ false) (take j xs)
differs_before [] zero n d h = tt
differs_before [] (suc j) n d h = tt
differs_before (x ∷ xs) zero n d h = tt
differs_before (x ∷ xs) (suc j) n d h = (
  differs_back x n (All-get_elem? (λ y. (x == y) ≡ false) j xs d.0 h),
  differs_before xs j n d.1 h,
)

HasText-put :
    (n : String) (content : Text) (files : List (String × Text)) (names : List String)
    → All (λ m. (n == m) ≡ false) names
    → All (HasText files) names
    → All (HasText (put n content files)) names
HasText-put n content files [] d h = tt
HasText-put n content files (m ∷ names) d h =
    (rw (get-put, d.0) h.0, HasText-put n content files names d.1 h.1)

-- Writing the document of the stage at position `j`, with whatever, keeps those before it.
pub written-put :
    (j : ℕ) (s : String) (content : Text) (files : List (String × Text))
    → get_elem? stage_order (suc j) ≡ some s
    → All (HasText files) (take j documents)
    → All (HasText (put (stage_filename s) content files)) (take j documents)
written-put j s content files h w =
    HasText-put (stage_filename s) content files (take j documents)
      (differs_before documents j (stage_filename s) documents-Distinct (document_at j s h)) w

All-take-suc :
    (P : String → Type 0) (xs : List String) (j : ℕ) (n : String)
    → get_elem? xs j ≡ some n
    → P n
    → All P (take j xs)
    → All P (take (suc j) xs)
All-take-suc P [] j n h x a = tt
All-take-suc P (y ∷ xs) zero n h x a = (rw (some-injective y n h) x, tt)
All-take-suc P (y ∷ xs) (suc j) n h x a = (a.0, All-take-suc P xs j n h x a.1)

pub written-put_more :
    (j : ℕ) (s : String) (content : Text) (files : List (String × Text))
    → get_elem? stage_order (suc j) ≡ some s
    → is_empty content ≡ false
    → All (HasText files) (take j documents)
    → All (HasText (put (stage_filename s) content files)) (take (suc j) documents)
written-put_more j s content files h full w =
    All-take-suc (HasText (put (stage_filename s) content files)) documents j (stage_filename s)
      (document_at j s h) (rw (get-put, (==_iff (stage_filename s) (stage_filename s)).1 refl) full)
      (written-put j s content files h w)
