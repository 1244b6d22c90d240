-- ===== src/Memory/Suggest/Segments.antt =====
-- internal/memory/store.go: texts of letters in lower case, digits and hyphens, and the segments that
-- `normalizeTopicSegment` makes of them.
use mathlib.Core.Option.{none-ne-some, some-injective}
use sdd_hoffy.Common.{
  ℕ, ◌≤◌, ◌≡◌, refl, sym, List, [], ◌∷◌, ◌++◌, some, Bool, true, ◌&&◌, ◌||◌, ◌==◌, nat_eq, text_eq,
  ltb, length, length-take-le, take, All, All-append, All-take, arith, inl, inr, Bool-cases,
  if◌then◌else◌,
}
use sdd_hoffy.Common.Text.{Text, codes, is_space, is_empty, to_lower, trim_space}
use sdd_hoffy.Memory.Text.{fields, join}
use sdd_hoffy.Memory.Text.Keys.{Every}
use sdd_hoffy.Memory.Suggest.{
  is_segment_byte, starts_with_space, spaced_out, normalize_topic_segment, after_prefix,
}

-- Letters in lower case, digits and hyphens.
abbrev pub in_segment : ℕ → Bool
in_segment c = is_segment_byte c || c == b'-'

spaced_out-Every : (s : Text) → Every (λ c. is_space c || in_segment c) (spaced_out s)
unfolding spaced_out is_space
spaced_out-Every [] = tt
spaced_out-Every (c ∷ s) = elim (Bool-cases (is_segment_byte c)) [
  | inl yes_s ↦ rw (yes_s, spaced_out) (ground arith, spaced_out-Every s)
  | inr no_s ↦ elim (Bool-cases (starts_with_space (spaced_out s))) [
    | inl blank ↦ rw (no_s, blank, spaced_out) (spaced_out-Every s)
    | inr word ↦ rw (no_s, word, spaced_out) (refl, spaced_out-Every s)
  ]
]

module _ (p : ℕ → Bool) where
  add_char :
      (c d : ℕ) (words : List Text)
      → (is_space c || p c) ≡ true
      → All (Every p) words
      → All (Every p) (elim words [
        | [] ↦ if is_space c then [] else (c ∷ []) ∷ []
        | word ∷ words ↦
            if is_space c
            then word ∷ words
            else if is_space d
            then (c ∷ []) ∷ word ∷ words
            else (c ∷ word) ∷ words
      ])
  add_char c d [] h hs = elim (Bool-cases (is_space c)) [
    | inl blank ↦ rw blank tt
    | inr word ↦ rw word ((rw word at h, tt), tt)
  ]
  add_char c d (w ∷ ws) h hs = elim (Bool-cases (is_space c)) [
    | inl blank ↦ rw blank hs
    | inr word ↦ elim (Bool-cases (is_space d)) [
      | inl apart ↦ rw (word, apart) ((rw word at h, tt), hs)
      | inr joined ↦ rw (word, joined) ((rw word at h, hs.0), hs.1)
    ]
  ]

  fields-Every : (s : Text) → Every (λ c. is_space c || p c) s → All (Every p) (fields s)
  unfolding fields
  fields-Every [] h = tt
  fields-Every (c ∷ []) h = elim (Bool-cases (is_space c)) [
    | inl blank ↦ rw blank tt
    | inr word ↦ rw word ((rw word at h.0, tt), tt)
  ]
  fields-Every (c ∷ d ∷ s) h = add_char c d (fields (d ∷ s)) h.0 (fields-Every (d ∷ s) h.1)

  join-Every :
      (sep : Text) (words : List Text)
      → Every p sep
      → All (Every p) words
      → Every p (join sep words)
  unfolding join
  join-Every sep [] h hs = tt
  join-Every sep (word ∷ []) h hs = hs.0
  join-Every sep (word ∷ next ∷ words) h hs =
      All-append (λ c. p c ≡ true) word (sep ++ join sep (next ∷ words)) hs.0
        (All-append (λ c. p c ≡ true) sep (join sep (next ∷ words)) h
          (join-Every sep (next ∷ words) h hs.1))

  pub after_prefix-Every :
      (prefix s rest : Text)
      → after_prefix prefix s ≡ some rest
      → Every p s
      → Every p rest × (length rest ≤ length s)
  unfolding after_prefix
  after_prefix-Every [] s rest h hs = rw (sym (some-injective s rest h)) (hs, omega arith)
  after_prefix-Every (c ∷ prefix) [] rest h hs = absurd (none-ne-some rest h)
  after_prefix-Every (c ∷ prefix) (d ∷ s) rest h hs = elim (Bool-cases (d == c)) [
    | inl same ↦
        let found = after_prefix-Every prefix s rest (rw same at h) hs.1 in
        (found.0, omega (arith, found.1))
    | inr differs ↦ absurd (none-ne-some rest (rw differs at h))
  ]

  unfoldable pub every : Text → Bool
  every [] = true
  every (c ∷ s) = p c && every s

  pub every_lem : (s : Text) → every s ≡ true → Every p s
  unfolding every
  every_lem [] h = tt
  every_lem (c ∷ s) h = (ground arith, every_lem s (ground arith))

-- A segment of a topic key.
pub record IsSegment (s : Text) : Type 0 where
  pub written : Every in_segment s
  pub short : length s ≤ 100

cut : (s : Text) → Every in_segment s → IsSegment (if ltb 100 (length s) then take 100 s else s)
cut s h = elim (Bool-cases (ltb 100 (length s))) [
  | inl long ↦
      rw long record {
        written = All-take (λ c. in_segment c ≡ true) 100 s h;
        short = length-take-le 100 s;
      }
  | inr fits ↦ rw fits record { written = h; short = ground arith }
]

pub normalize_topic_segment-IsSegment : (s : Text) → IsSegment (normalize_topic_segment s)
unfolding normalize_topic_segment
normalize_topic_segment-IsSegment s = elim (Bool-cases (is_empty (to_lower (trim_space s)))) [
  | inl blank ↦ rw blank record { written = tt; short = omega arith }
  | inr some_text ↦ rw some_text (
      cut _ (
        join-Every in_segment (codes "-") (fields (spaced_out (to_lower (trim_space s)))) (refl, tt)
          (fields-Every in_segment (spaced_out (to_lower (trim_space s)))
            (spaced_out-Every (to_lower (trim_space s))))))
]
