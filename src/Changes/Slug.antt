-- ===== src/Changes/Slug.antt =====
-- internal/changes/types.go, `Slugify`: a description becomes a name that is safe in a path.
-- The text is the sequence of its runes. Of `unicode.ToLower` only what reaches ASCII matters: the
-- two other runes with an ASCII lower case are written out, and every other rune above 127 is left
-- alone, since the loop drops it whatever its case.
pub mod Shape
pub mod Fixed
use sdd_hoffy.Common.{
  ℕ, ◌+◌, ◌≤◌, List, [], ◌∷◌, map, Bool, true, false, ◌&&◌, ◌||◌, not, Option, none, some, leb, ltb,
  ◌==◌, nat_eq, if◌then◌else◌, take, length,
}
use sdd_hoffy.Common.Text.{Text, codes, is_empty, trim_left, trim_right}

-- `unicode.IsSpace`
unfoldable pub is_space_rune : ℕ → Bool
is_space_rune r =
    leb 9 r && leb r 13
    || r == 32
    || r == 0x85
    || r == 0xa0
    || r == 0x1680
    || leb 0x2000 r && leb r 0x200a
    || r == 0x2028
    || r == 0x2029
    || r == 0x202f
    || r == 0x205f
    || r == 0x3000

-- `unicode.ToLower`: U+0130 goes to `i` and U+212A to `k`.
unfoldable pub lower_rune : ℕ → ℕ
lower_rune r =
    if leb b'A' r && leb r b'Z'
    then r + 32
    else if r == 0x130
    then b'i'
    else if r == 0x212a
    then b'k'
    else r

abbrev pub hyphen : ℕ
hyphen = 45

unfoldable pub is_alnum : ℕ → Bool
is_alnum r = leb b'a' r && leb r b'z' || leb b'0' r && leb r b'9'

unfoldable pub is_separator : ℕ → Bool
is_separator r = r == 32 || r == 95 || r == hyphen

-- The `for _, r := range s` loop: what the builder receives from here on.
unfoldable pub write_runes : Text → Bool → Text
write_runes [] prev_hyphen = []
write_runes (r ∷ s) prev_hyphen =
    let rest =
      write_runes s (if is_alnum r then false else if is_separator r then true else prev_hyphen) in
    if is_alnum r
    then r ∷ rest
    else if is_separator r
    then (if prev_hyphen then rest else hyphen ∷ rest)
    else rest

abbrev pub is_hyphen : ℕ → Bool
is_hyphen r = r == hyphen

-- `strings.LastIndex(s, "-")`, with `none` for -1
unfoldable pub last_hyphen : Text → Option ℕ
last_hyphen [] = none
last_hyphen (c ∷ s) = elim (last_hyphen s) [
  | none ↦ if is_hyphen c then some 0 else none
  | some i ↦ some (i + 1)
]

abbrev pub max_slug_len : ℕ
max_slug_len = 50

-- `if lastHyphen > maxSlugLen/2 { truncated = truncated[:lastHyphen] }`
unfoldable pub cut_at_word : Text → Option ℕ → Text
cut_at_word truncated none = truncated
cut_at_word truncated (some i) = if ltb 25 i then take i truncated else truncated

unfoldable pub shorten : Text → Text
unfolding cut_at_word last_hyphen trim_right
shorten slug =
    if leb (length slug) max_slug_len
    then slug
    else let truncated = take max_slug_len slug in
      trim_right is_hyphen (cut_at_word truncated (last_hyphen truncated))

abbrev pub unnamed : Text
unnamed = codes "unnamed-change"

abbrev pub trim_spaces : Text → Text
trim_spaces s = trim_right is_space_rune (trim_left is_space_rune s)

abbrev pub hyphenated : Text → Text
hyphenated s = trim_right is_hyphen (trim_left is_hyphen (write_runes s false))

unfoldable pub slugify : Text → Text
unfolding trim_left trim_right is_space_rune lower_rune is_alnum is_separator write_runes shorten
slugify description =
    if is_empty (trim_spaces description)
    then unnamed
    else let slug = hyphenated (map lower_rune (trim_spaces description)) in
      if is_empty slug then unnamed else shorten slug
