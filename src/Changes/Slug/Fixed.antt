-- ===== src/Changes/Slug/Fixed.antt =====
-- internal/changes/types.go: `Slugify` on slugs.
use sdd_hoffy.Common.{
  ◌≡◌, refl, ap, inl, inr, [], ◌∷◌, map, Bool, true, false, nat_eq, arith, le→leb, All, length, ◌∙◌,
}
use sdd_hoffy.Common.Text.{Text, is_empty, trim_left, trim_right}
use sdd_hoffy.Changes.Slug.{
  is_alnum, is_separator, is_hyphen, is_space_rune, write_runes, trim_spaces, hyphenated, slugify,
  lower_rune, max_slug_len,
}
use sdd_hoffy.Common.Trimming.{trim_left_none, trim_right_none}
use sdd_hoffy.Changes.Slug.Shape.{Runs, IsSlug}

Runs-no_space : (after : Bool) (s : Text) → Runs after s → All (λ c. is_space_rune c ≡ false) s
unfolding is_space_rune is_alnum
Runs-no_space after [] h = tt
Runs-no_space after (c ∷ s) (inl h) = (ground arith, Runs-no_space false s h.1)
Runs-no_space after (c ∷ s) (inr h) = (ground arith, Runs-no_space true s h.2)

Runs-lower : (after : Bool) (s : Text) → Runs after s → map lower_rune s ≡ s
unfolding lower_rune is_alnum
Runs-lower after [] h = refl
Runs-lower after (c ∷ s) (inl h) = ground (arith, Runs-lower false s h.1)
Runs-lower after (c ∷ s) (inr h) = ground (arith, Runs-lower true s h.2)

Runs-write_runes : (after : Bool) (s : Text) → Runs after s → write_runes s after ≡ s
unfolding write_runes is_separator is_alnum
Runs-write_runes after [] h = refl
Runs-write_runes after (c ∷ s) (inl h) = ground (arith, Runs-write_runes false s h.1)
Runs-write_runes after (c ∷ s) (inr h) = ground (arith, Runs-write_runes true s h.2)

Runs-trim_right : (after : Bool) (s : Text) → Runs after s → trim_right is_hyphen s ≡ s
unfolding trim_right is_alnum
Runs-trim_right after [] h = refl
Runs-trim_right after (c ∷ s) (inl h) = ground (arith, Runs-trim_right false s h.1)
Runs-trim_right after (c ∷ s) (inr h) = ground (arith, Runs-trim_right true s h.2)

Runs-trim_left : (s : Text) → Runs true s → trim_left is_hyphen s ≡ s
unfolding trim_left is_alnum
Runs-trim_left [] h = refl
Runs-trim_left (c ∷ s) h = ground arith

Runs-weaken : (s : Text) → Runs true s → Runs false s
Runs-weaken [] h = refl
Runs-weaken (c ∷ s) h = ground arith

trim_spaces-slug : (s : Text) → Runs true s → trim_spaces s ≡ s
trim_spaces-slug s h =
    ap (trim_right is_space_rune) (trim_left_none is_space_rune s (Runs-no_space true s h))
    ∙ trim_right_none is_space_rune s (Runs-no_space true s h)

hyphenated-slug : (s : Text) → Runs true s → hyphenated s ≡ s
hyphenated-slug s h =
    rw (Runs-write_runes false s (Runs-weaken s h), Runs-trim_left s h) (Runs-trim_right true s h)

Runs-nonempty : (s : Text) → Runs true s → is_empty s ≡ false
Runs-nonempty [] h = h
Runs-nonempty (c ∷ s) h = refl

-- `Slugify` leaves every text of the form of a slug as it is; so a second call changes nothing.
slugify-slug : (s : Text) → IsSlug s → slugify s ≡ s
unfolding slugify
slugify-slug s h =
    rw (trim_spaces-slug s h.runs, Runs-lower true s h.runs, hyphenated-slug s h.runs)
      (rw (Runs-nonempty s h.runs, le→leb (length s) max_slug_len h.short))
