-- ===== src/Pipeline/Machine/Progress.antt =====
-- internal/pipeline/state.go: the abstract state of a project is a position in the order of the stages.
use mathlib.Core.Bool.{false≢true}
use native.Mathlib.Decide.{ℕ_discrete}
use mathlib.Core.Option.{some-injective}
use sdd_hoffy.Common.{
  Distinct, String, ℕ, zero, suc, ◌+◌, ◌<◌, ◌≤◌, ◌≡◌, ◌↔◌, refl, sym, ap, ◌∙◌, List, [], ◌∷◌, some,
  true, false, ◌==◌, string_eq, ==_iff, length, get_elem?, get, get-put, if◌then◌else◌, arith,
  All-get_elem?, get_elem?-in_range, Bool-cases, inl, inr,
}
use sdd_hoffy.Common.Result.{Result, ok, err, ◌>>=◌}
use sdd_hoffy.Pipeline.Config.{ProjectConfig, stage_order, new_project_config}
use sdd_hoffy.Pipeline.Machine.{
  Error, gate_not_passed, at_final_stage, clarity_threshold, index_in, stage_index, can_advance,
  mark_completed, mark_in_progress, advance, is_completed,
}

stage_order-Distinct : Distinct stage_order
stage_order-Distinct = ground arith

index_in-get_elem? :
    (i k : ℕ) (stage : String) (order : List String)
    → Distinct order
    → get_elem? order k ≡ some stage
    → index_in i stage order ≡ some (i + k)
unfolding index_in
index_in-get_elem? i k stage [] d h = cc
index_in-get_elem? i zero stage (s ∷ order) d h = ground (arith, ==_iff s stage)
index_in-get_elem? i (suc k) stage (s ∷ order) d h = ground (
  arith,
  All-get_elem? (λ y. (s == y) ≡ false) k order d.0 h,
  index_in-get_elem? (suc i) k stage order d.1 h,
)

pub stage_index-get_elem? :
    (k : ℕ) (stage : String) → get_elem? stage_order k ≡ some stage → stage_index stage ≡ some k
unfolding stage_index
stage_index-get_elem? k stage h =
    index_in-get_elem? 0 k stage stage_order stage_order-Distinct h ∙ ap some (omega arith)

-- The gate is open unless the stage is "clarify" with a score below the mode's threshold.
abbrev pub GateOpen : ProjectConfig → Type 0
GateOpen cfg = cfg.current_stage ≡ "clarify" → clarity_threshold cfg.mode ≤ cfg.clarity_score

-- A project at position `k`: every stage before it is completed.
pub record IsAt (k : ℕ) (cfg : ProjectConfig) : Type 0 where
  pub here : get_elem? stage_order k ≡ some cfg.current_stage
  pub behind :
      (i : ℕ) (stage : String)
      → i < k
      → get_elem? stage_order i ≡ some stage
      → is_completed cfg stage ≡ true

pub can_advance_at :
    (k : ℕ) (cfg : ProjectConfig)
    → get_elem? stage_order k ≡ some cfg.current_stage
    → suc k < length stage_order
    → GateOpen cfg
    → can_advance cfg ≡ ok k
unfolding can_advance
can_advance_at k cfg here lt open_gate =
    rw (stage_index-get_elem? k cfg.current_stage here)
      (ground (arith, ==_iff cfg.current_stage "clarify"))

-- The two writes of `Advance` to the statuses, seen through `IsCompleted`.
is_completed-after :
    (now cur next s : String) (cfg : ProjectConfig)
    → is_completed
        (mark_in_progress now next (record (mark_completed now cur cfg) { current_stage = next }))
        s
      ≡ (if next == s then false else if cur == s then true else is_completed cfg s)
unfolding is_completed mark_in_progress mark_completed
is_completed-after now cur next s cfg = simp get-put (ground arith)

-- Two positions with one stage are one.
pub same_position :
    (i k : ℕ) (s t : String)
    → get_elem? stage_order i ≡ some s
    → get_elem? stage_order k ≡ some t
    → (t == s) ≡ true
    → i ≡ k
same_position i k s t hi hk e = some-injective i k (
    sym (stage_index-get_elem? i s hi)
    ∙ (ap stage_index (sym ((==_iff t s).0 e)) ∙ stage_index-get_elem? k t hk))

pub earlier :
    (i k : ℕ) (s t : String)
    → get_elem? stage_order i ≡ some s
    → get_elem? stage_order k ≡ some t
    → (t == s) ≡ false
    → i < suc k
    → i < k
earlier i k s t hi hk ne lt = elim (ℕ_discrete i k) [
  | yes same ↦ absurd (
      false≢true (
        sym ne
        ∙ (==_iff t s).1
            (some-injective t s (sym hk ∙ (ap (get_elem? stage_order) (sym same) ∙ hi)))))
  | no other ↦ omega arith
]

behind_after :
    (now : String) (k : ℕ) (cfg : ProjectConfig) (next : String)
    → IsAt k cfg
    → get_elem? stage_order (suc k) ≡ some next
    → (i : ℕ) (stage : String) → i < suc k
    → get_elem? stage_order i ≡ some stage
    → is_completed
        (mark_in_progress now next
          (record (mark_completed now cfg.current_stage cfg) { current_stage = next }))
        stage
      ≡ true
behind_after now k cfg next at e i stage lt g =
    rw (is_completed-after now cfg.current_stage next stage cfg)
      (elim (Bool-cases (next == stage)) [
        | inl same ↦ absurd (omega (arith, same_position i (suc k) stage next g e same))
        | inr other ↦ elim (Bool-cases (cfg.current_stage == stage)) [
          | inl cur ↦ rw (other, cur)
          | inr old ↦
              rw (other, old)
                (at.behind i stage (earlier i k stage cfg.current_stage g at.here old lt) g)
        ]
      ])

-- From a position before the last one, and with the gate open, `Advance` succeeds: the position goes
-- up by exactly one, and every stage before the new position is completed; name, mode and clarity
-- score stay.
pub advance_reaches :
    (now : String) (k : ℕ) (cfg : ProjectConfig)
    → IsAt k cfg
    → suc k < length stage_order
    → GateOpen cfg
    → (cfg' : ProjectConfig) × (advance now cfg ≡ ok cfg')
      × IsAt (suc k) cfg'
      × (cfg'.name ≡ cfg.name)
      × (cfg'.mode ≡ cfg.mode)
      × (cfg'.clarity_score ≡ cfg.clarity_score)
unfolding advance
advance_reaches now k cfg at lt open_gate =
    let (next, e) = get_elem?-in_range (suc k) stage_order lt in
    let cfg' : ProjectConfig =
      mark_in_progress now next
        (record (mark_completed now cfg.current_stage cfg) { current_stage = next }) in
    (
      cfg',
      rw (can_advance_at k cfg at.here lt open_gate) (rw e),
      record { here = e; behind = behind_after now k cfg next at e },
      refl,
      refl,
      refl,
    )

-- At the last position `Advance` is refused.
pub advance_past_validate :
    (now : String) (cfg : ProjectConfig)
    → cfg.current_stage ≡ "validate"
    → advance now cfg ≡ err at_final_stage
unfolding advance stage_index
advance_past_validate now cfg last = rw last

-- `Advance` returns the error of the gate exactly when the stage is "clarify" and the clarity score
-- is below the threshold of the mode, which is 50 for "expert" and 70 for every other mode.
pub clarity_gate :
    (now : String) (cfg : ProjectConfig)
    → (advance now cfg ≡ err gate_not_passed)
      ↔ ((cfg.current_stage ≡ "clarify") × (cfg.clarity_score < clarity_threshold cfg.mode))
unfolding advance
clarity_gate now cfg = (
  (λ h. ground (arith, ==_iff cfg.current_stage "clarify")),
  (λ h. ground (arith, ==_iff cfg.current_stage "clarify")),
)

pub IsAt-new :
    (now name description mode : String) → IsAt 1 (new_project_config now name description mode)
unfolding new_project_config is_completed get
IsAt-new now name description mode = record { here = refl; behind = behind_new }
  where
    behind_new :
        (i : ℕ) (stage : String)
        → i < 1
        → get_elem? stage_order i ≡ some stage
        → is_completed (new_project_config now name description mode) stage ≡ true
    behind_new zero stage h e = rw (← some-injective "init" stage e)
    behind_new (suc i) stage h e = absurd (omega arith)

-- Every stage from the current one on is passed by one `Advance`, given that the gate is open.
pub advance_all : String → ℕ → ProjectConfig → Result Error ProjectConfig
advance_all now zero cfg = ok cfg
advance_all now (suc n) cfg = do cfg' ← advance now cfg; advance_all now n cfg'

-- With a score that passes the gate, the position goes up by one with each call.
pub advance_all-IsAt :
    (now : String) (n k : ℕ) (cfg : ProjectConfig)
    → IsAt k cfg
    → k + n < length stage_order
    → clarity_threshold cfg.mode ≤ cfg.clarity_score
    → (cfg' : ProjectConfig) × (advance_all now n cfg ≡ ok cfg') × IsAt (k + n) cfg'
unfolding advance_all
advance_all-IsAt now zero k cfg at lt passed =
    let same : k ≡ k + 0 = omega arith in (cfg, refl, rw (← same) at)
advance_all-IsAt now (suc n) k cfg at lt passed =
    let (c, e, at', _, mode, score) = advance_reaches now k cfg at (omega arith) (λ _. passed) in
    let (c', e', at'') =
      advance_all-IsAt now n (suc k) c at' (omega arith) (rw (mode, score) passed) in
    let shift : suc k + n ≡ k + suc n = omega arith in (c', rw e e', rw shift at at'')

-- A new project whose clarity score reaches the threshold of its mode is taken from "principles" to
-- "validate" by seven calls of `Advance`, which leave every earlier stage completed; an eighth call
-- is refused.
pub pipeline_completes :
    (now name description mode : String) (score : ℕ)
    → clarity_threshold mode ≤ score
    → (cfg : ProjectConfig) × (advance_all now 7
          (record (new_project_config now name description mode) { clarity_score = score })
        ≡ ok cfg)
      × (cfg.current_stage ≡ "validate")
      × ((i : ℕ) (stage : String)
          → i < 8
          → get_elem? stage_order i ≡ some stage
          → is_completed cfg stage ≡ true)
      × (advance now cfg ≡ err at_final_stage)
unfolding new_project_config is_completed
pipeline_completes now name description mode score passed =
    let new : ProjectConfig = new_project_config now name description mode in
    let fresh = IsAt-new now name description mode in
    let start : IsAt 1 (record new { clarity_score = score }) = record {
      here = fresh.here;
      behind = fresh.behind;
    } in
    let (cfg, e, at) =
      advance_all-IsAt now 7 1 (record new { clarity_score = score }) start (omega arith) passed in
    let last : cfg.current_stage ≡ "validate" = sym (some-injective _ _ at.here) in
    (cfg, e, last, at.behind, advance_past_validate now cfg last)
