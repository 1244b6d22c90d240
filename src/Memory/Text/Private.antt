-- ===== src/Memory/Text/Private.antt =====
-- `stripPrivateTags` of internal/memory/store.go: the regular expression `(?is)<private>.*?</private>`
-- of package regexp, replaced everywhere, and a trim. A match is the leftmost opening tag that a
-- closing tag follows, up to the nearest closing tag; case is ignored.
use sdd_hoffy.Common.{
  ℕ, zero, suc, [], ◌∷◌, ◌++◌, Option, none, some, ◌==◌, nat_eq, length, if◌then◌else◌,
}
use sdd_hoffy.Common.Text.{Text, codes, lower_byte, trim_space}

-- The rest after a tag (in lower case) at the head of a text.
unfoldable pub after_tag : Text → Text → Option Text
unfolding lower_byte
after_tag [] s = some s
after_tag (t ∷ tag) [] = none
after_tag (t ∷ tag) (c ∷ s) = if lower_byte c == t then after_tag tag s else none

abbrev pub open_tag : Text
open_tag = codes "<private>"

abbrev pub close_tag : Text
close_tag = codes "</private>"

-- The rest after the nearest closing tag.
unfoldable pub after_close : Text → Option Text
unfolding after_tag
after_close [] = none
after_close (c ∷ s) =
    let later = after_close s in
    elim (after_tag close_tag (c ∷ s)) [ some rest ↦ some rest | none ↦ later ]

-- A match at the head: the rest after it.
abbrev pub closed : Option Text → Option Text
closed none = none
closed (some s) = after_close s

unfoldable pub private_match : Text → Option Text
unfolding after_close
private_match s = closed (after_tag open_tag s)

abbrev pub redacted : Text
redacted = codes "[REDACTED]"

-- `ReplaceAllString`, on fuel: each round passes one character or one match.
unfoldable pub redact : ℕ → Text → Text
unfolding private_match
redact zero s = s
redact (suc fuel) [] = []
redact (suc fuel) (c ∷ s) = elim (private_match (c ∷ s)) [
  | some rest ↦ redacted ++ redact fuel rest
  | none ↦ c ∷ redact fuel s
]

unfoldable pub strip_private_tags : Text → Text
unfolding redact trim_space
strip_private_tags s = trim_space (redact (length s) s)
