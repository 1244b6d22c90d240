-- ===== src/Memory/Text.antt =====
-- The text helpers at the end of internal/memory/store.go, on bytes; upper case and white space are
-- those of ASCII.
pub mod Private
pub mod Redaction
pub mod Keys
use sdd_hoffy.Common.{
  String, ℕ, zero, suc, ◌+◌, ◌*◌, ◌/◌, ◌≤◌, List, [], ◌∷◌, ◌++◌, Option, none, some, Bool, true,
  false, ◌&&◌, ◌==◌, nat_eq, text_eq, string_eq, leb, ltb, length, take, if◌then◌else◌,
}
use sdd_hoffy.Common.Text.{Text, codes, is_space, is_empty, lower_byte, to_lower, trim_space}

unfoldable pub nullable_string : String → Option String
nullable_string s = if s == "" then none else some s

abbrev pub nullable_text : Text → Option Text
nullable_text [] = none
nullable_text (c ∷ s) = some (c ∷ s)

-- `Truncate`
unfoldable pub truncate : Text → ℕ → Text
truncate s max = if leb (length s) max then s else take max s ++ codes "..."

-- The cut of an observation's content.
unfoldable pub truncate_content : ℕ → Text → Text
truncate_content max s = if ltb max (length s) then take max s ++ codes "... [truncated]" else s

-- `strings.Fields`: the runs of characters that are no white space
unfoldable pub fields : Text → List Text
fields [] = []
fields (c ∷ []) = if is_space c then [] else (c ∷ []) ∷ []
fields (c ∷ d ∷ s) = elim (fields (d ∷ s)) [
  | [] ↦ if is_space c then [] else (c ∷ []) ∷ []
  | word ∷ words ↦
      if is_space c
      then word ∷ words
      else if is_space d
      then (c ∷ []) ∷ word ∷ words
      else (c ∷ word) ∷ words
]

-- `strings.Join`
unfoldable pub join : Text → List Text → Text
join sep [] = []
join sep (word ∷ []) = word
join sep (word ∷ next ∷ words) = word ++ (sep ++ join sep (next ∷ words))

unfoldable pub normalize_scope : Text → String
unfolding to_lower trim_space
normalize_scope scope =
    if trim_space (to_lower scope) == codes "personal" then "personal" else "project"

abbrev pub cut_key : Text → Text
cut_key key = if ltb 120 (length key) then take 120 key else key

-- The key of a text that is trimmed and in lower case.
unfoldable pub topic_key_of : Text → Text
unfolding fields join
topic_key_of v = if is_empty v then [] else cut_key (join (codes "-") (fields v))

unfoldable pub normalize_topic_key : Text → Text
unfolding to_lower trim_space topic_key_of
normalize_topic_key topic = topic_key_of (trim_space (to_lower topic))

-- `hashNormalized`, over the digest of package crypto/sha256
unfoldable pub hash_normalized : (Text → Text) → Text → Text
unfolding to_lower fields join
hash_normalized digest content = digest (to_lower (join (codes " ") (fields content)))

-- `dedupeWindowExpression`, in seconds
unfoldable pub dedupe_seconds : ℕ → ℕ
dedupe_seconds window =
    let minutes = (if window == 0 then 900 else window) / 60 in
    (if ltb minutes 1 then 1 else minutes) * 60
