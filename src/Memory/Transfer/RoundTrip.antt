-- ===== src/Memory/Transfer/RoundTrip.antt =====
-- internal/memory/store.go: what Import makes of an Export in an empty memory.
use mathlib.Core.Bool.{false≢true}
use sdd_hoffy.Common.{
  ℕ, suc, ◌+◌, ◌≡◌, refl, sym, ap, ◌∙◌, String, List, [], ◌∷◌, ◌++◌, none, Bool, true, false, ◌==◌,
  string_eq, ==_iff, any, length, All, arith, Bool-cases, inl, inr,
}
use sdd_hoffy.Common.Result.{ok}
use sdd_hoffy.Memory.Types.{Session, Observation, Db, Engine}
use sdd_hoffy.Memory.Observations.{session_exists}
use sdd_hoffy.Memory.Recent.{Prompt}
use sdd_hoffy.Memory.Transfer.{
  Store, import_sessions, import_observations, import_prompts, imported_row, exported_prompts,
}

-- No two sessions have the same identifier.
abbrev pub DistinctIds : List Session → Type 0
DistinctIds [] = Unit
DistinctIds (s ∷ ss) = All (λ t. (t.id == s.id) ≡ false) ss × DistinctIds ss

append_cons :
    {A : Type 0} (xs : List A) (x : A) (ys : List A) → (xs ++ (x ∷ [])) ++ ys ≡ xs ++ (x ∷ ys)
append_cons [] x ys = refl
append_cons (y ∷ xs) x ys = ap (λ t. y ∷ t) (append_cons xs x ys)

append_nil : {A : Type 0} (xs : List A) → xs ++ [] ≡ xs
append_nil [] = refl
append_nil (x ∷ xs) = ap (λ t. x ∷ t) (append_nil xs)

absent_after :
    (id : String) (have : List Session) (s : Session)
    → any (λ t. t.id == id) have ≡ false
    → (s.id == id) ≡ false
    → any (λ t. t.id == id) (have ++ (s ∷ [])) ≡ false
absent_after id [] s h k = rw k refl
absent_after id (t ∷ have) s h k = ground (arith, absent_after id have s)

-- None of the sessions to come is among those that are there.
abbrev Fresh : List Session → List Session → Type 0
Fresh have ss = All (λ s. any (λ t. t.id == s.id) have ≡ false) ss

differs_back : (s t : String) → (s == t) ≡ false → (t == s) ≡ false
differs_back s t h = elim (Bool-cases (t == s)) [
  | inl same ↦ absurd (false≢true (sym h ∙ (==_iff s t).1 (sym ((==_iff t s).0 same))))
  | inr other ↦ other
]

Fresh-after :
    (have : List Session) (s : Session) (ss : List Session)
    → Fresh have ss
    → All (λ t. (t.id == s.id) ≡ false) ss
    → Fresh (have ++ (s ∷ [])) ss
Fresh-after have s [] f d = tt
Fresh-after have s (t ∷ ss) f d =
    (absent_after t.id have s f.0 (differs_back t.id s.id d.0), Fresh-after have s ss f.1 d.1)

pub import_sessions-Fresh :
    (ss : List Session) (count : ℕ) (db : Db)
    → Fresh db.sessions ss
    → DistinctIds ss
    → import_sessions ss count db ≡ (record db { sessions = db.sessions ++ ss }, count + length ss)
unfolding import_sessions
import_sessions-Fresh [] count db f d =
    let same : count + 0 ≡ count = omega arith in rw (append_nil db.sessions, same) refl
import_sessions-Fresh (s ∷ ss) count db f d =
    let added : Db = record db { sessions = db.sessions ++ (s ∷ []) } in
    let rest =
      import_sessions-Fresh ss (suc count) added (Fresh-after db.sessions s ss f.1 d.0) d.1 in
    let number : suc count + length ss ≡ count + suc (length ss) = omega arith in
    rw (f.0, rest, append_cons db.sessions s ss, number) refl

-- The rows of observations that are imported, numbered from `id` on.
abbrev pub renumbered : Engine → ℕ → List Observation → List Observation
renumbered engine id [] = []
renumbered engine id (o ∷ os) = imported_row engine id o ∷ renumbered engine (id + 1) os

-- The rows of prompts that are imported, numbered from `id` on and without their namespaces.
abbrev pub renumbered_prompts : ℕ → List Prompt → List Prompt
renumbered_prompts id [] = []
renumbered_prompts id (p ∷ ps) =
    record p { id = id; namespace = none } ∷ renumbered_prompts (id + 1) ps

pub import_observations-renumbered :
    (engine : Engine) (os : List Observation) (count : ℕ) (db : Db)
    → All (λ o. session_exists o.session_id db ≡ true) os
    → import_observations engine os count db ≡ (
      record db {
        observations = db.observations ++ renumbered engine db.next_observation os;
        next_observation = db.next_observation + length os;
      },
      ok (count + length os),
    )
unfolding import_observations
import_observations-renumbered engine [] count db h =
    let same : count + 0 ≡ count = omega arith in
    let same_next : db.next_observation + 0 ≡ db.next_observation = omega arith in
    rw (append_nil db.observations, same, same_next) refl
import_observations-renumbered engine (o ∷ os) count db h =
    let row = imported_row engine db.next_observation o in
    let added : Db = record db {
      observations = db.observations ++ (row ∷ []);
      next_observation = db.next_observation + 1;
    } in
    let rest = import_observations-renumbered engine os (suc count) added h.1 in
    let number : suc count + length os ≡ count + suc (length os) = omega arith in
    let next : db.next_observation + 1 + length os ≡ db.next_observation + suc (length os) =
      omega arith in
    rw
      (
        h.0,
        rest,
        append_cons db.observations row (renumbered engine (db.next_observation + 1) os),
        number,
        next,
      )
      refl

pub import_prompts-renumbered :
    (ps : List Prompt) (count : ℕ) (st : Store)
    → All (λ p. session_exists p.session_id st.db ≡ true) ps
    → import_prompts ps count st ≡ (
      record st {
        prompts = st.prompts ++ renumbered_prompts st.next_prompt ps;
        next_prompt = st.next_prompt + length ps;
      },
      ok (count + length ps),
    )
unfolding import_prompts
import_prompts-renumbered [] count st h =
    let same : count + 0 ≡ count = omega arith in
    let same_next : st.next_prompt + 0 ≡ st.next_prompt = omega arith in
    rw (append_nil st.prompts, same, same_next) refl
import_prompts-renumbered (p ∷ ps) count st h =
    let row : Prompt = record p { id = st.next_prompt; namespace = none } in
    let added : Store = record st {
      prompts = st.prompts ++ (row ∷ []);
      next_prompt = st.next_prompt + 1;
    } in
    let rest = import_prompts-renumbered ps (suc count) added h.1 in
    let number : suc count + length ps ≡ count + suc (length ps) = omega arith in
    let next : st.next_prompt + 1 + length ps ≡ st.next_prompt + suc (length ps) = omega arith in
    rw
      (
        h.0,
        rest,
        append_cons st.prompts row (renumbered_prompts (st.next_prompt + 1) ps),
        number,
        next,
      )
      refl

-- What Export reads of the prompts has all that Import writes.
pub renumbered-exported :
    (id : ℕ) (ps : List Prompt)
    → renumbered_prompts id (exported_prompts ps) ≡ renumbered_prompts id ps
unfolding exported_prompts
renumbered-exported id [] = refl
renumbered-exported id (p ∷ ps) =
    ap (λ r. record p { id = id; namespace = none } ∷ r) (renumbered-exported (id + 1) ps)

pub length-exported : (ps : List Prompt) → length (exported_prompts ps) ≡ length ps
unfolding exported_prompts
length-exported [] = refl
length-exported (p ∷ ps) = ap suc (length-exported ps)

pub exported_sessions :
    (known : String → Bool) (ps : List Prompt)
    → All (λ p. known p.session_id ≡ true) ps
    → All (λ p. known p.session_id ≡ true) (exported_prompts ps)
unfolding exported_prompts
exported_sessions known [] h = tt
exported_sessions known (p ∷ ps) h = (h.0, exported_sessions known ps h.1)
