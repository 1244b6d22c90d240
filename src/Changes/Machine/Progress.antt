-- ===== src/Changes/Machine/Progress.antt =====
-- internal/changes/state.go: the abstract state of a change is a position in its flow, where the stages
-- before it are completed, the stage at it is in progress and the others are pending.
use sdd_hoffy.Common.{
  Distinct, String, ℕ, zero, suc, ◌+◌, ◌<◌, ◌≡◌, refl, ap, sym, ◌∙◌, List, [], ◌∷◌, some, true,
  false, ◌==◌, nat_eq, string_eq, length, get_elem?, arith, ◌↔◌, inl, inr, Bool-cases, ==_iff,
  All-get_elem?, get_elem?-in_range, get_elem?-lt_length,
}
use sdd_hoffy.Common.Result.{ok, err}
use sdd_hoffy.Changes.Types.{
  StageEntry, ChangeRecord, not_active, at_final_stage, not_at_final_stage,
}
use sdd_hoffy.Changes.Machine.{
  index_from, current_stage_index, is_last_stage, can_advance, modify, finish, begin, advance,
  complete_change,
}

abbrev pub names : List StageEntry → List String
names [] = []
names (e ∷ es) = e.name ∷ names es

abbrev pub AllPending : List StageEntry → Type 0
AllPending [] = Unit
AllPending (e ∷ es) = (e.status ≡ "pending") × AllPending es

abbrev pub AllCompleted : List StageEntry → Type 0
AllCompleted [] = Unit
AllCompleted (e ∷ es) = (e.status ≡ "completed") × AllCompleted es

abbrev pub StatusesAt : ℕ → List StageEntry → Type 0
StatusesAt k [] = ⊥
StatusesAt zero (e ∷ es) = (e.status ≡ "in_progress") × AllPending es
StatusesAt (suc k) (e ∷ es) = (e.status ≡ "completed") × StatusesAt k es

-- An active change with the given flow stands at position `k`.
pub record IsAt (flow : List String) (k : ℕ) (c : ChangeRecord) : Type 0 where
  pub active : c.status ≡ "active"
  pub follows : names c.stages ≡ flow
  pub here : get_elem? flow k ≡ some c.current_stage
  pub statuses : StatusesAt k c.stages

pub record IsDone (flow : List String) (c : ChangeRecord) : Type 0 where
  pub completed : c.status ≡ "completed"
  pub follows : names c.stages ≡ flow
  pub all_completed : AllCompleted c.stages

index_from-get_elem? :
    (i k : ℕ) (stage : String) (es : List StageEntry)
    → Distinct (names es)
    → get_elem? (names es) k ≡ some stage
    → index_from i stage es ≡ some (i + k)
unfolding index_from
index_from-get_elem? i k stage [] d h = cc
index_from-get_elem? i zero stage (e ∷ es) d h = ground (arith, ==_iff e.name stage)
index_from-get_elem? i (suc k) stage (e ∷ es) d h = ground (
  arith,
  All-get_elem? (λ y. (e.name == y) ≡ false) k (names es) d.0 h,
  index_from-get_elem? (suc i) k stage es d.1 h,
)

names-modify :
    (i : ℕ) (f : StageEntry → StageEntry) (es : List StageEntry)
    → ((e : StageEntry) → (f e).name ≡ e.name)
    → names (modify i f es) ≡ names es
names-modify i f [] h = refl
names-modify zero f (e ∷ es) h = rw (h e)
names-modify (suc i) f (e ∷ es) h = ap (λ r. e.name ∷ r) (names-modify i f es h)

length-names : (es : List StageEntry) → length (names es) ≡ length es
length-names [] = refl
length-names (e ∷ es) = ap suc (length-names es)

length-modify :
    (i : ℕ) (f : StageEntry → StageEntry) (es : List StageEntry)
    → length (modify i f es) ≡ length es
length-modify i f [] = refl
length-modify zero f (e ∷ es) = refl
length-modify (suc i) f (e ∷ es) = ap suc (length-modify i f es)

get_elem?-names :
    (k : ℕ) (es : List StageEntry) {e : StageEntry}
    → get_elem? es k ≡ some e
    → get_elem? (names es) k ≡ some e.name
get_elem?-names k [] h = cc
get_elem?-names zero (x ∷ es) h = ground arith
get_elem?-names (suc k) (x ∷ es) h = get_elem?-names k es h

-- The two in-place updates of `Advance`.
abbrev shift : String → ℕ → List StageEntry → List StageEntry
shift now k es = modify (suc k) (begin now) (modify k (finish now) es)

StatusesAt-shift :
    (now : String) (k : ℕ) (es : List StageEntry)
    → StatusesAt k es
    → suc k < length es
    → StatusesAt (suc k) (shift now k es)
StatusesAt-shift now k [] h lt = h
StatusesAt-shift now zero (e ∷ []) h lt = absurd (omega arith)
StatusesAt-shift now zero (e ∷ d ∷ es) h lt = (refl, (refl, h.1.1))
StatusesAt-shift now (suc k) (e ∷ es) h lt = (h.0, StatusesAt-shift now k es h.1 (omega arith))

StatusesAt-finish :
    (now : String) (k : ℕ) (es : List StageEntry)
    → StatusesAt k es
    → suc k ≡ length es
    → AllCompleted (modify k (finish now) es)
StatusesAt-finish now k [] h lt = absurd h
StatusesAt-finish now zero (e ∷ []) h lt = (refl, tt)
StatusesAt-finish now zero (e ∷ d ∷ es) h lt = absurd (omega arith)
StatusesAt-finish now (suc k) (e ∷ es) h lt = (h.0, StatusesAt-finish now k es h.1 (omega arith))

module _ {flow : List String} {k : ℕ} {c : ChangeRecord} (distinct : Distinct flow)
    (at : IsAt flow k c) where
  index_at : current_stage_index c ≡ some k
  unfolding current_stage_index
  index_at =
      index_from-get_elem? 0 k c.current_stage c.stages (rw at.follows distinct)
        (rw at.follows at.here)
      ∙ ap some (omega arith)

  length_at : length c.stages ≡ length flow
  length_at = sym (length-names c.stages) ∙ ap length at.follows

  can_advance_at : suc k < length flow → can_advance c ≡ ok k
  unfolding can_advance
  can_advance_at lt = rw (at.active, index_at, length_at) (ground arith)

  -- From a position before the last one, `Advance` succeeds, moves the position by exactly one, and
  -- leaves the identity, the description, the flow, the ADRs and the creation time of the change.
  pub advance-IsAt :
      (now : String)
      → suc k < length flow
      → (c' : ChangeRecord) × (advance now c ≡ ok c')
        × IsAt flow (suc k) c'
        × (c'.id ≡ c.id)
        × (c'.type ≡ c.type)
        × (c'.size ≡ c.size)
        × (c'.description ≡ c.description)
        × (c'.adrs ≡ c.adrs)
        × (c'.created_at ≡ c.created_at)
        × (c'.updated_at ≡ now)
  unfolding advance
  advance-IsAt now lt =
      let stages = shift now k c.stages in
      let fits : suc k < length stages = omega (
        arith,
        length_at,
        length-modify (suc k) (begin now) (modify k (finish now) c.stages),
        length-modify k (finish now) c.stages,
      ) in
      let (entry, found) = get_elem?-in_range (suc k) stages fits in
      let same : names stages ≡ flow =
        names-modify (suc k) (begin now) (modify k (finish now) c.stages) (λ e. refl)
        ∙ names-modify k (finish now) c.stages (λ e. refl)
        ∙ at.follows in
      (
        record c { stages = stages; current_stage = entry.name; updated_at = now },
        rw (can_advance_at lt, found),
        record {
          active = at.active;
          follows = same;
          here = rw same at (get_elem?-names (suc k) stages found);
          statuses = StatusesAt-shift now k c.stages at.statuses (omega (arith, length_at));
        },
        refl,
        refl,
        refl,
        refl,
        refl,
        refl,
        refl,
      )

  pub is_last_stage_at : (is_last_stage c ≡ true) ↔ (suc k ≡ length flow)
  unfolding is_last_stage
  is_last_stage_at = rw (index_at, length_at) (ground (arith, get_elem?-lt_length k flow at.here))

  -- At the last position `Advance` is refused, whatever the clock reads.
  pub advance_at_final : (now : String) → suc k ≡ length flow → advance now c ≡ err at_final_stage
  unfolding advance can_advance
  advance_at_final now last = rw (at.active, index_at, length_at) (ground arith)

  -- At the last position `CompleteChange` succeeds: every stage and the change are completed.
  pub complete_change-IsDone :
      (now : String)
      → suc k ≡ length flow
      → (c' : ChangeRecord) × (complete_change now c ≡ ok c') × IsDone flow c' × (c'.id ≡ c.id)
  unfolding complete_change
  complete_change-IsDone now last =
      let stages = modify k (finish now) c.stages in
      (
        record c { stages = stages; status = "completed"; updated_at = now },
        rw (index_at, is_last_stage_at.1 last, at.active),
        record {
          completed = refl;
          follows = names-modify k (finish now) c.stages (λ e. refl) ∙ at.follows;
          all_completed = StatusesAt-finish now k c.stages at.statuses (last ∙ sym length_at);
        },
        refl,
      )

  -- Before the last position `CompleteChange` is refused.
  pub complete_change_early :
      (now : String) → suc k < length flow → complete_change now c ≡ err not_at_final_stage
  unfolding complete_change
  complete_change_early now lt = elim (Bool-cases (is_last_stage c)) [
    | inl last ↦ absurd (omega (arith, is_last_stage_at.0 last))
    | inr early ↦ rw (index_at, early, at.active)
  ]

-- A change that is not active can neither advance nor be completed.
pub inactive_refused :
    (now : String) (c : ChangeRecord)
    → (c.status == "active") ≡ false
    → (advance now c ≡ err not_active) × (complete_change now c ≡ err not_active)
unfolding advance can_advance complete_change
inactive_refused now c h = rw h (refl, refl)
