-- ===== src/Memory/Format/Budget.antt =====
-- internal/memory/store.go: the budget of tokens of the answers that list recent memory.
use sdd_hoffy.Common.{
  ℕ, suc, ◌+◌, ◌<◌, ◌≤◌, ◌≡◌, ◌⊎◌, inl, inr, refl, ap, List, [], ◌∷◌, ◌++◌, true, false, ◌==◌,
  nat_eq, ltb, length, take, arith, Bool-cases, if◌then◌else◌,
}
use sdd_hoffy.Common.Text.{Text}
use sdd_hoffy.Memory.Types.{Observation}
use sdd_hoffy.Memory.Detail.{estimate_tokens, budget_footer}
use sdd_hoffy.Memory.Recent.{SessionSummary, Prompt}
use sdd_hoffy.Memory.Format.{Layout, joined, preamble, add_entries, laid_out}

-- The text up to the first `count` entries.
abbrev pub up_to : (Observation → Text) → Text → List Observation → ℕ → Text
up_to entry b os count = b ++ joined entry (take count os)

-- How a list of entries is cut at the budget: `count` of them are written, these fit, and either they are
-- all or one more would not fit. Where some are left out a footer says how many are shown.
pub record IsCut (max total : ℕ) (entry : Observation → Text) (closing : Text) (shown : ℕ)
    (b : Text) (os : List Observation) (result : Text) : Type 0 where
  pub count : ℕ
  pub within : count ≤ length os
  pub text : result ≡ (
      if count == length os
      then up_to entry b os count ++ closing
      else up_to entry b os count
        ++ budget_footer (estimate_tokens (up_to entry b os count)) max (shown + count) total)
  pub fits : (count ≡ 0) ⊎ (estimate_tokens (up_to entry b os count) ≤ max)
  pub next : (count ≡ length os) ⊎ (max < estimate_tokens (up_to entry b os (suc count)))

append_assoc : (a b c : Text) → (a ++ b) ++ c ≡ a ++ (b ++ c)
append_assoc [] b c = refl
append_assoc (x ∷ a) b c = ap (λ t. x ∷ t) (append_assoc a b c)

append_nil : (a : Text) → a ++ [] ≡ a
append_nil [] = refl
append_nil (x ∷ a) = ap (λ t. x ∷ t) (append_nil a)

up_to-shift :
    (entry : Observation → Text) (b : Text) (o : Observation) (os : List Observation) (count : ℕ)
    → up_to entry (b ++ entry o) os count ≡ up_to entry b (o ∷ os) (suc count)
up_to-shift entry b o os count = append_assoc b (entry o) (joined entry (take count os))

-- One more entry that fits, before entries that are cut.
one_more-IsCut :
    (max total : ℕ) (entry : Observation → Text) (closing : Text) (shown : ℕ) (b : Text)
    (o : Observation) (os : List Observation) (result : Text)
    → estimate_tokens (b ++ entry o) ≤ max
    → IsCut max total entry closing (suc shown) (b ++ entry o) os result
    → IsCut max total entry closing shown b (o ∷ os) result
one_more-IsCut max total entry closing shown b o os result small rest =
    let shift = up_to-shift entry b o os rest.count in
    let past = up_to-shift entry b o os (suc rest.count) in
    let number : suc shown + rest.count ≡ shown + suc rest.count = omega arith in
    let same : (rest.count == length os) ≡ (suc rest.count == suc (length os)) = ground arith in
    let text = rest.text in
    record {
      count = suc rest.count;
      within = omega (arith, rest.within);
      text = rw (shift, number, same) at text;
      fits = inr (elim rest.fits [
        | inl none ↦ rw (none, append_nil (entry o)) small
        | inr fit ↦ rw shift at fit
      ]);
      next = elim rest.next [ inl all ↦ inl (ap suc all) | inr over ↦ inr (rw past at over) ];
    }

add_entries-IsCut :
    (max total : ℕ) (entry : Observation → Text) (closing : Text) (shown : ℕ) (b : Text)
    (os : List Observation)
    → 0 < max
    → IsCut max total entry closing shown b os (add_entries max total entry closing shown b os)
unfolding add_entries
add_entries-IsCut max total entry closing shown b [] h = record {
  count = 0;
  within = omega arith;
  text = rw (append_nil b) refl;
  fits = inl refl;
  next = inl refl;
}
add_entries-IsCut max total entry closing shown b (o ∷ os) h =
    let some_budget : ltb 0 max ≡ true = ground arith in
    elim (Bool-cases (ltb max (estimate_tokens (b ++ entry o)))) [
      | inl over ↦
          let none_shown : shown + 0 ≡ shown = omega arith in
          let more : (0 == suc (length os)) ≡ false = ground arith in
          rw (some_budget, over)
            record {
              count = 0;
              within = omega arith;
              text = rw (more, append_nil b, none_shown) refl;
              fits = inl refl;
              next = inr (rw (append_nil (entry o)) (ground arith));
            }
      | inr under ↦
          rw (some_budget, under)
            (one_more-IsCut max total entry closing shown b o os _ (ground arith)
              (add_entries-IsCut max total entry closing (suc shown) (b ++ entry o) os h))
    ]

-- With a budget, the entries of observations that a level of detail writes are as many of the first ones
-- as fit, counted with all that stands before them: either all of them, or as many that one more would
-- exceed the budget, and then a footer says how many are shown, and what the text took before it.
pub laid_out-IsCut :
    (l : Layout) (sessions : List SessionSummary) (o : Observation) (os : List Observation)
    (prompts : List Prompt) (max : ℕ)
    → 0 < max
    → IsCut max
        (length (o ∷ os))
        l.entry
        l.closing
        0
        (preamble l sessions prompts ++ l.observations_heading)
        (o ∷ os)
        (laid_out l sessions (o ∷ os) prompts max)
unfolding laid_out
laid_out-IsCut l sessions o os prompts max h =
    add_entries-IsCut max (length (o ∷ os)) l.entry l.closing 0
      (preamble l sessions prompts ++ l.observations_heading) (o ∷ os) h
