-- ===== src/Pipeline/Machine/Kept.antt =====
-- internal/pipeline/state.go: the position of a project under the steps of a handler.
use mathlib.Core.Option.{some-injective}
use mathlib.Core.Path.{subst}
use sdd_hoffy.Common.{
  String, ℕ, suc, ◌<◌, ◌≤◌, ◌≡◌, sym, some, false, ◌==◌, ◌&&◌, string_eq, ==_iff, get_elem?,
  get-put, ltb, arith, Bool-cases, inl, inr, get_elem?-lt_length,
}
use sdd_hoffy.Common.Result.{Result, ok, err}
use sdd_hoffy.Pipeline.Config.{ProjectConfig, stage_order}
use sdd_hoffy.Pipeline.Machine.{
  Error, gate_not_passed, at_final_stage, mark_completed, mark_in_progress, is_completed, advance,
  clarity_threshold,
}
use sdd_hoffy.Pipeline.Machine.Progress.{
  IsAt, GateOpen, same_position, advance_reaches, advance_past_validate, clarity_gate,
}

current_apart :
    (i k : ℕ) (cfg : ProjectConfig) (stage : String)
    → i < k
    → get_elem? stage_order k ≡ some cfg.current_stage
    → get_elem? stage_order i ≡ some stage
    → (cfg.current_stage == stage) ≡ false
current_apart i k cfg stage lt here there = elim (Bool-cases (cfg.current_stage == stage)) [
  | inl same ↦ absurd (omega (arith, same_position i k stage cfg.current_stage there here same))
  | inr other ↦ other
]

-- Marking the current stage, in progress or completed, leaves the position.
pub mark_in_progress-IsAt :
    (now : String) (k : ℕ) (cfg : ProjectConfig)
    → IsAt k cfg
    → IsAt k (mark_in_progress now cfg.current_stage cfg)
unfolding mark_in_progress is_completed
mark_in_progress-IsAt now k cfg at = record {
  here = at.here;
  behind = λ i stage lt there.
      rw (get-put, current_apart i k cfg stage lt at.here there) (at.behind i stage lt there);
}

pub mark_completed-IsAt :
    (now : String) (k : ℕ) (cfg : ProjectConfig)
    → IsAt k cfg
    → IsAt k (mark_completed now cfg.current_stage cfg)
unfolding mark_completed is_completed
mark_completed-IsAt now k cfg at = record {
  here = at.here;
  behind = λ i stage lt there.
      rw (get-put, current_apart i k cfg stage lt at.here there) (at.behind i stage lt there);
}

-- Time stamp and score are not part of the position.
pub same_statuses-IsAt :
    (k : ℕ) (cfg : ProjectConfig) (now : String) (score : ℕ)
    → IsAt k cfg
    → IsAt k (record cfg { updated_at = now }) × IsAt k (record cfg { clarity_score = score })
unfolding is_completed
same_statuses-IsAt k cfg now score at =
    (record { here = at.here; behind = at.behind }, record { here = at.here; behind = at.behind })

last_stage :
    (k : ℕ) (cfg : ProjectConfig)
    → get_elem? stage_order k ≡ some cfg.current_stage
    → 8 ≤ k
    → cfg.current_stage ≡ "validate"
last_stage k cfg h last =
    let lt : k < 9 = get_elem?-lt_length k stage_order h in
    let eighth : k ≡ 8 = omega arith in
    sym (some-injective "validate" cfg.current_stage (rw eighth at h))

gate_of :
    (cfg : ProjectConfig)
    → (cfg.current_stage == "clarify" && ltb cfg.clarity_score (clarity_threshold cfg.mode)) ≡ false
    → GateOpen cfg
gate_of cfg h here = ground (arith, ==_iff cfg.current_stage "clarify")

same_ok : (a b : ProjectConfig) {r : Result Error ProjectConfig} → r ≡ ok a → r ≡ ok b → a ≡ b
same_ok a b h k = cc

not_both :
    (a : ProjectConfig) (e : Error) {r : Result Error ProjectConfig} → r ≡ err e → ¬ (r ≡ ok a)
not_both a e h k = cc

-- If `Advance` succeeds then it goes one position forward.
pub advance_ok :
    (now : String) (k : ℕ) (cfg next : ProjectConfig)
    → IsAt k cfg
    → advance now cfg ≡ ok next
    → (suc k < 9) × IsAt (suc k) next
advance_ok now k cfg next at h =
    elim (Bool-cases
      (cfg.current_stage == "clarify" && ltb cfg.clarity_score (clarity_threshold cfg.mode))) [
        | inl shut ↦ absurd (
            not_both next gate_not_passed
              ((clarity_gate now cfg).1 (ground (arith, ==_iff cfg.current_stage "clarify"))) h)
        | inr open_gate ↦ elim (Bool-cases (ltb (suc k) 9)) [
          | inl before ↦
              let lt : suc k < 9 = ground arith in
              let (cfg', e, at', _, _, _) =
                advance_reaches now k cfg at lt (gate_of cfg open_gate) in
              (lt, subst (IsAt (suc k)) (same_ok cfg' next e h) at')
          | inr last ↦ absurd (
              not_both next at_final_stage
                (advance_past_validate now cfg (last_stage k cfg at.here (ground arith))) h)
        ]
      ]
