-- ===== src/Bridge/Summary.antt =====
-- internal/tools/bridge.go: the summaries of completed stages.
use mathlib.Core.List.{append_assoc, append-nil}
use mathlib.Core.Option.{none-ne-some, some-injective}
use sdd_hoffy.Common.{
  String, ℕ, suc, zero, ◌-◌, ◌+◌, ◌/◌, ◌≤◌, ◌<◌, ◌≡◌, refl, ap, sym, ◌∙◌, [], ◌∷◌, ◌++◌, Option,
  none, some, leb, ltb, ◌==◌, nat_eq, length, take, length-append, arith, inl, inr, Bool-cases,
  Option-cases,
}
use sdd_hoffy.Common.Rows.{length-take}
use sdd_hoffy.Common.Text.{Text}
use sdd_hoffy.Bridge.{
  last_newline, cut_at_line, truncated_mark, fitted, stage_header, compact_summary,
}

abbrev pub Prefix : Text → Text → Type 0
Prefix s t = (rest : Text) × (s ++ rest ≡ t)

-- The forms of a summary: the header alone where it leaves no room, the whole content where it fits, or
-- else a part of the content from its start, which is at least half of what there is room for.
pub data IsSummary (header content : Text) : Text → Type 0 where
  no_room : 500 ≤ length header → IsSummary header content header
  whole : length header + length content ≤ 500 → IsSummary header content (header ++ content)
  cut :
      (shown : Text)
      → Prefix shown content
      → 500 < length header + length content
      → (500 - length header) / 2 ≤ length shown
      → length header + length shown ≤ 500
      → IsSummary header content (header ++ (shown ++ truncated_mark))

Prefix-take : (n : ℕ) (s : Text) → Prefix (take n s) s
Prefix-take zero s = (s, refl)
Prefix-take (suc n) [] = ([], refl)
Prefix-take (suc n) (c ∷ s) = let p = Prefix-take n s in (p.0, ap (λ r. c ∷ r) p.1)

Prefix-trans : (r s t : Text) → Prefix r s → Prefix s t → Prefix r t
Prefix-trans r s t p q = (p.0 ++ q.0, sym (append_assoc r p.0 q.0) ∙ ap (λ x. x ++ q.0) p.1 ∙ q.1)

last_newline-lt : (s : Text) {i : ℕ} → last_newline s ≡ some i → i < length s
unfolding last_newline
last_newline-lt [] h = absurd (none-ne-some _ h)
last_newline-lt (c ∷ s) {i} h = elim (Option-cases (last_newline s)) [
  | inr (j, later) ↦
      let next : suc j ≡ i = some-injective (suc j) i (rw (later, last_newline) at h) in
      omega (arith, last_newline-lt s later)
  | inl last ↦ ground (arith, rw (last, last_newline) at h)
]

-- What the cut at a line keeps of a text that fills the room.
record IsCut (remaining : ℕ) (s shown : Text) : Type 0 where
  start : Prefix shown s
  half : remaining / 2 ≤ length shown
  within : length shown ≤ remaining

cut_at_line-IsCut :
    (remaining : ℕ) (s : Text) (line : Option ℕ)
    → length s ≡ remaining
    → last_newline s ≡ line
    → IsCut remaining s (cut_at_line remaining s line)
cut_at_line-IsCut remaining s none full h = record {
  start = ([], append-nil s);
  half = omega arith;
  within = omega arith;
}
cut_at_line-IsCut remaining s (some i) full h = elim (Bool-cases (ltb (remaining / 2) i)) [
  | inr early ↦
      rw early record { start = ([], append-nil s); half = omega arith; within = omega arith }
  | inl late ↦
      let below = last_newline-lt s h in
      rw late record {
        start = Prefix-take i s;
        half = ground (arith, length-take i s);
        within = omega (arith, length-take i s);
      }
]

fitted-IsSummary : (header content : Text) → IsSummary header content (fitted header content)
unfolding fitted
fitted-IsSummary header content =
    let remaining = 500 - length header in
    elim (Bool-cases (remaining == 0)) [
      | inl full ↦ rw full (no_room (ground arith))
      | inr room ↦ elim (Bool-cases (leb (length content) remaining)) [
        | inl fits ↦ rw (room, fits) (whole (ground arith))
        | inr long ↦
            let start = take remaining content in
            let more : 500 < length header + length content = ground arith in
            let k =
              cut_at_line-IsCut remaining start (last_newline start)
                (ground (arith, length-take remaining content)) refl in
            rw (room, long)
              (cut (cut_at_line remaining start (last_newline start))
                (Prefix-trans _ start content k.start (Prefix-take remaining content)) more k.half
                (ground (arith, k.within)))
      ]
    ]

IsSummary-short :
    (header content summary : Text)
    → IsSummary header content summary
    → length header ≤ 500
    → length summary ≤ 516
IsSummary-short header content _ (no_room h) short = omega arith
IsSummary-short header content _ (whole h) short = omega (arith, length-append {0} header content)
IsSummary-short header content _ (cut shown p long half h) short = omega (
  arith,
  length-append {0} header (shown ++ truncated_mark),
  length-append {0} shown truncated_mark,
)

-- A stage's summary has the stage's header and then the whole artifact where both fit into 500
-- characters, or else a part of it from its start, at least half of what there is room for, and a mark;
-- it never has more than 516 characters unless the header alone has more than 500.
pub compact_summary-IsSummary :
    (stage : String) (content : Text)
    → IsSummary (stage_header stage) content (compact_summary stage content)
      × (length (stage_header stage) ≤ 500 → length (compact_summary stage content) ≤ 516)
unfolding compact_summary
compact_summary-IsSummary stage content =
    let k = fitted-IsSummary (stage_header stage) content in
    (k, IsSummary-short (stage_header stage) content _ k)
