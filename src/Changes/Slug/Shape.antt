-- ===== src/Changes/Slug/Shape.antt =====
-- internal/changes/types.go: the form of the slugs of `Slugify`.
use sdd_hoffy.Common.{
  ℕ, suc, zero, ◌≤◌, ◌<◌, ◌≡◌, refl, ◌⊎◌, inl, inr, [], ◌∷◌, map, Bool, true, false, leb, nat_eq,
  arith, leb→le, length, take, length-take-le, Bool-cases, Option, none, some,
}
use sdd_hoffy.Common.Text.{Text, is_empty, trim_left, trim_right}
use sdd_hoffy.Changes.Slug.{
  is_alnum, is_hyphen, hyphen, write_runes, last_hyphen, cut_at_word, shorten, unnamed, trim_spaces,
  hyphenated, slugify, lower_rune, max_slug_len,
}
use sdd_hoffy.Common.Trimming.{length-trim_right-le, trim_right-nonempty}

-- Lower-case letters, digits and single hyphens; `after` says that the rune before is a hyphen (or
-- that there is none). `Spaced` may end with a hyphen, `Runs` may not.
abbrev pub Spaced : Bool → Text → Type 0
Spaced after [] = Unit
Spaced after (c ∷ s) =
    (is_alnum c ≡ true) × Spaced false s ⊎ (c ≡ hyphen) × (after ≡ false) × Spaced true s

abbrev pub Runs : Bool → Text → Type 0
Runs after [] = after ≡ false
Runs after (c ∷ s) =
    (is_alnum c ≡ true) × Runs false s ⊎ (c ≡ hyphen) × (after ≡ false) × Runs true s

-- A slug starts and ends with a letter or a digit, and its hyphens stand alone.
pub record IsSlug (s : Text) : Type 0 where
  pub runs : Runs true s
  pub short : length s ≤ max_slug_len

write_runes-Spaced : (after : Bool) (s : Text) → Spaced after (write_runes s after)
unfolding write_runes
write_runes-Spaced after [] = tt
write_runes-Spaced after (r ∷ s) =
    ground
      (arith, write_runes-Spaced false s, write_runes-Spaced true s, write_runes-Spaced after s)

Spaced-trim_left : (after : Bool) (s : Text) → Spaced after s → Spaced true (trim_left is_hyphen s)
unfolding trim_left is_alnum
Spaced-trim_left after [] h = tt
Spaced-trim_left after (c ∷ s) h = ground (arith, Spaced-trim_left true s)

trim_right-Runs :
    (after : Bool) (s : Text)
    → Spaced after s
    → (is_empty (trim_right is_hyphen s) ≡ true) ⊎ Runs after (trim_right is_hyphen s)
unfolding trim_right is_alnum
trim_right-Runs after [] h = inl refl
trim_right-Runs after (c ∷ s) h = ground (arith, trim_right-Runs false s, trim_right-Runs true s)

Runs→Spaced : (after : Bool) (s : Text) → Runs after s → Spaced after s
Runs→Spaced after [] h = tt
Runs→Spaced after (c ∷ s) (inl h) = inl (h.0, Runs→Spaced false s h.1)
Runs→Spaced after (c ∷ s) (inr h) = inr (h.0, h.1, Runs→Spaced true s h.2)

Spaced-take : (after : Bool) (n : ℕ) (s : Text) → Spaced after s → Spaced after (take n s)
Spaced-take after zero s h = tt
Spaced-take after (suc n) [] h = tt
Spaced-take after (suc n) (c ∷ s) (inl h) = inl (h.0, Spaced-take false n s h.1)
Spaced-take after (suc n) (c ∷ s) (inr h) = inr (h.0, h.1, Spaced-take true n s h.2)

abbrev Cut : Text → Text → Type 0
Cut truncated t = Spaced true t × (is_empty t ≡ false) × (length t ≤ length truncated)

length-take-le_self : (n : ℕ) (s : Text) → length (take n s) ≤ length s
length-take-le_self zero s = omega arith
length-take-le_self (suc n) [] = omega arith
length-take-le_self (suc n) (c ∷ s) = omega (arith, length-take-le_self n s)

take-nonempty : (n : ℕ) (s : Text) → is_empty s ≡ false → 0 < n → is_empty (take n s) ≡ false
take-nonempty zero s h p = absurd (omega arith)
take-nonempty (suc n) [] h p = h
take-nonempty (suc n) (c ∷ s) h p = refl

cut_at_word-Cut :
    (s : Text) (o : Option ℕ) → Spaced true s → is_empty s ≡ false → Cut s (cut_at_word s o)
unfolding cut_at_word
cut_at_word-Cut s none h n = (h, n, omega arith)
cut_at_word-Cut s (some i) h n =
    ground (arith, Spaced-take true i s, take-nonempty i s, length-take-le_self i s)

trim_right-Cut :
    (s t : Text)
    → Cut s t
    → Runs true (trim_right is_hyphen t) × (length (trim_right is_hyphen t) ≤ length s)
unfolding is_alnum
trim_right-Cut s [] h = cc
trim_right-Cut s (c ∷ t) h = ground (
  arith,
  trim_right-Runs true (c ∷ t),
  trim_right-nonempty is_hyphen c t,
  length-trim_right-le is_hyphen (c ∷ t),
)

shortened :
    (s : Text)
    → Runs true s
    → is_empty s ≡ false
    → Cut (take 50 s) (cut_at_word (take 50 s) (last_hyphen (take 50 s)))
shortened s h n =
    cut_at_word-Cut (take 50 s) (last_hyphen (take 50 s))
      (Spaced-take true 50 s (Runs→Spaced true s h)) (take-nonempty 50 s n (omega arith))

shorten-IsSlug : (s : Text) → Runs true s → is_empty s ≡ false → IsSlug (shorten s)
unfolding shorten
shorten-IsSlug s h n = elim (Bool-cases (leb (length s) max_slug_len)) [
  | inl fits ↦ rw fits (record { runs = h; short = leb→le (length s) max_slug_len fits })
  | inr long ↦
      let cut = trim_right-Cut (take 50 s) _ (shortened s h n) in
      rw long (record { runs = cut.0; short = omega (arith, cut.1, length-take-le 50 s) })
]

hyphenated-Runs : (s : Text) → (is_empty (hyphenated s) ≡ true) ⊎ Runs true (hyphenated s)
hyphenated-Runs s =
    trim_right-Runs true (trim_left is_hyphen (write_runes s false))
      (Spaced-trim_left false (write_runes s false) (write_runes-Spaced false s))

unnamed-IsSlug : IsSlug unnamed
unfolding is_alnum
unnamed-IsSlug = ground arith

-- Whatever the description, `Slugify` returns 1 to 50 characters, each a lower-case letter, a digit
-- or a hyphen; the first and the last are no hyphens, and no two hyphens are adjacent.
pub slugify-IsSlug : (description : Text) → IsSlug (slugify description)
unfolding slugify
slugify-IsSlug description = ground (
  arith,
  unnamed-IsSlug,
  hyphenated-Runs (map lower_rune (trim_spaces description)),
  Bool-cases (is_empty (hyphenated (map lower_rune (trim_spaces description)))),
  shorten-IsSlug (hyphenated (map lower_rune (trim_spaces description))),
)
