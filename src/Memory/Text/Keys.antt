-- ===== src/Memory/Text/Keys.antt =====
-- internal/memory/store.go, `normalizeTopicKey`: keys that it leaves alone, and keys that it never
-- empties.
use sdd_hoffy.Common.{
  ℕ, suc, zero, ◌≤◌, ◌≡◌, refl, ap, ◌∙◌, sym, List, [], ◌∷◌, Bool, true, false, ◌&&◌, ◌||◌, ◌==◌,
  nat_eq, leb, ltb, length, take, All, arith, inl, inr, Bool-cases, if◌then◌else◌,
}
use sdd_hoffy.Common.Text.{
  Text, codes, is_space, is_empty, lower_byte, to_lower, trim_space, trim_left, trim_right,
}
use sdd_hoffy.Common.Trimming.{trim_left_none, trim_right_none}
use sdd_hoffy.Memory.Text.{fields, join, cut_key, topic_key_of, normalize_topic_key}

abbrev pub Every : (ℕ → Bool) → Text → Type 0
Every p = All (λ c. p c ≡ true)

-- Letters in lower case, digits, hyphens, underscores and slashes.
abbrev pub in_key : ℕ → Bool
in_key c =
    (leb b'a' c && leb c b'z')
    || ((leb b'0' c && leb c b'9') || (c == b'-' || (c == b'_' || c == b'/')))

key_not_space : (c : ℕ) → in_key c ≡ true → is_space c ≡ false
unfolding is_space
key_not_space c h = ground arith

key_lower : (c : ℕ) → in_key c ≡ true → lower_byte c ≡ c
unfolding lower_byte
key_lower c h = ground arith

key_no_spaces : (s : Text) → Every in_key s → All (λ c. is_space c ≡ false) s
key_no_spaces [] h = tt
key_no_spaces (c ∷ s) h = (key_not_space c h.0, key_no_spaces s h.1)

to_lower-key : (s : Text) → Every in_key s → to_lower s ≡ s
unfolding to_lower
to_lower-key [] h = refl
to_lower-key (c ∷ s) h = rw (key_lower c h.0, to_lower-key s h.1) refl

trim_space-key : (s : Text) → Every in_key s → trim_space s ≡ s
unfolding trim_space
trim_space-key s h =
    rw
      (
        trim_left_none is_space s (key_no_spaces s h),
        trim_right_none is_space s (key_no_spaces s h),
      )
      refl

fields-key : (c : ℕ) (s : Text) → Every in_key (c ∷ s) → fields (c ∷ s) ≡ (c ∷ s) ∷ []
unfolding fields
fields-key c [] h = rw (key_not_space c h.0) refl
fields-key c (d ∷ s) h = rw (fields-key d s h.1, key_not_space c h.0, key_not_space d h.1.0) refl

take_all : (n : ℕ) (s : Text) → length s ≤ n → take n s ≡ s
take_all zero [] h = refl
take_all (suc n) [] h = refl
take_all zero (c ∷ s) h = absurd (omega arith)
take_all (suc n) (c ∷ s) h = ap (λ r. c ∷ r) (take_all n s (omega arith))

topic_key_of-key :
    (c : ℕ) (s : Text) → Every in_key (c ∷ s) → topic_key_of (c ∷ s) ≡ take 120 (c ∷ s)
unfolding topic_key_of join
topic_key_of-key c s h = rw (fields-key c s h) (elim (Bool-cases (ltb 120 (length (c ∷ s)))) [
  | inl long ↦ rw long refl
  | inr fits ↦ rw fits (sym (take_all 120 (c ∷ s) (ground arith)))
])

normalize_topic_key-key :
    (c : ℕ) (s : Text) → Every in_key (c ∷ s) → normalize_topic_key (c ∷ s) ≡ take 120 (c ∷ s)
unfolding normalize_topic_key
normalize_topic_key-key c s h =
    ap topic_key_of (ap trim_space (to_lower-key (c ∷ s) h) ∙ trim_space-key (c ∷ s) h)
    ∙ topic_key_of-key c s h

-- A key of such characters stays as it is, cut to 120.
pub nonempty_key :
    (s : Text) → is_empty s ≡ false → Every in_key s → normalize_topic_key s ≡ take 120 s
nonempty_key [] h hs = cc
nonempty_key (c ∷ s) h hs = normalize_topic_key-key c s hs

trim_right-head :
    (p : ℕ → Bool) (c : ℕ) (s : Text) → p c ≡ false → (r : Text) × (trim_right p (c ∷ s) ≡ c ∷ r)
unfolding trim_right
trim_right-head p c s h = trimmed (trim_right p s)
  where
    trimmed :
        (t : Text)
        → (r : Text) × ((elim t [ [] ↦ if p c then [] else c ∷ [] | d ∷ r ↦ c ∷ d ∷ r ]) ≡ c ∷ r)
    trimmed [] = ([], rw h refl)
    trimmed (d ∷ r) = (d ∷ r, refl)

fields-head :
    (c : ℕ) (s : Text)
    → is_space c ≡ false
    → (word : Text) × (words : List Text) × (fields (c ∷ s) ≡ (c ∷ word) ∷ words)
unfolding fields
fields-head c [] h = ([], [], rw h refl)
fields-head c (d ∷ s) h = extended (fields (d ∷ s))
  where
    extended :
        (ws : List Text)
        → (word : Text) × (words : List Text) × ((elim ws [
          | [] ↦ if is_space c then [] else (c ∷ []) ∷ []
          | word ∷ words ↦
              if is_space c
              then word ∷ words
              else if is_space d
              then (c ∷ []) ∷ word ∷ words
              else (c ∷ word) ∷ words
        ])
            ≡ (c ∷ word) ∷ words)
    extended [] = ([], [], rw h refl)
    extended (w ∷ ws) = elim (Bool-cases (is_space d)) [
      | inl apart ↦ ([], w ∷ ws, rw (h, apart) refl)
      | inr joined ↦ (w, ws, rw (h, joined) refl)
    ]

cut_nonempty : (c : ℕ) (s : Text) → is_empty (cut_key (c ∷ s)) ≡ false
cut_nonempty c s = elim (Bool-cases (ltb 120 (length (c ∷ s)))) [
  | inl long ↦ rw long refl
  | inr fits ↦ rw fits refl
]

joined_key :
    (c : ℕ) (word : Text) (words : List Text)
    → is_empty (cut_key (join (codes "-") ((c ∷ word) ∷ words))) ≡ false
unfolding join
joined_key c word [] = cut_nonempty c word
joined_key c word (next ∷ words) = cut_nonempty c _

trimmed_head :
    (c : ℕ) (s : Text)
    → is_space (lower_byte c) ≡ false
    → (r : Text) × (trim_space (to_lower (c ∷ s)) ≡ lower_byte c ∷ r)
unfolding trim_space to_lower trim_left
trimmed_head c s h = rw h (trim_right-head is_space (lower_byte c) (to_lower s) h)

topic_key_of-nonempty :
    (c : ℕ) (s : Text) → is_space c ≡ false → is_empty (topic_key_of (c ∷ s)) ≡ false
unfolding topic_key_of
topic_key_of-nonempty c s h =
    let found = fields-head c s h in rw found.2 (joined_key c found.0 found.1)

-- A key that starts with a character other than white space is never emptied.
pub normalize_topic_key-nonempty :
    (c : ℕ) (s : Text)
    → is_space (lower_byte c) ≡ false
    → is_empty (normalize_topic_key (c ∷ s)) ≡ false
unfolding normalize_topic_key
normalize_topic_key-nonempty c s h =
    let trimmed = trimmed_head c s h in
    ap (λ v. is_empty (topic_key_of v)) trimmed.1 ∙ topic_key_of-nonempty (lower_byte c) trimmed.0 h
