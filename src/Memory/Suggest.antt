-- ===== src/Memory/Suggest.antt =====
-- internal/memory/store.go: SuggestTopicKey with its helpers, and ClassifyTool. Case and white space
-- are those of ASCII.
pub mod Segments
pub mod Shape
pub mod Fixed
use sdd_hoffy.Common.{
  String, ℕ, List, [], ◌∷◌, ◌++◌, Option, none, some, Bool, true, false, not, ◌&&◌, ◌||◌, ◌==◌,
  nat_eq, text_eq, string_eq, leb, ltb, length, take, any, if◌then◌else◌,
}
use sdd_hoffy.Common.Text.{Text, codes, is_empty, to_lower, trim_space}
use sdd_hoffy.Memory.Text.{fields, join}
use sdd_hoffy.Memory.Text.Private.{strip_private_tags}

-- A character that `[^a-z0-9]` does not match.
abbrev pub is_segment_byte : ℕ → Bool
is_segment_byte c = (leb b'a' c && leb c b'z') || (leb b'0' c && leb c b'9')

abbrev pub starts_with_space : Text → Bool
starts_with_space [] = false
starts_with_space (c ∷ s) = c == b' '

-- `ReplaceAllString` of `[^a-z0-9]+` by a space
unfoldable pub spaced_out : Text → Text
spaced_out [] = []
spaced_out (c ∷ s) =
    let rest = spaced_out s in
    if is_segment_byte c then c ∷ rest else if starts_with_space rest then rest else b' ' ∷ rest

unfoldable pub normalize_topic_segment : Text → Text
unfolding to_lower trim_space fields join spaced_out
normalize_topic_segment s =
    let v = to_lower (trim_space s) in
    if is_empty v
    then []
    else let segment = join (codes "-") (fields (spaced_out v)) in
      if ltb 100 (length segment) then take 100 segment else segment

-- `strings.TrimPrefix`, where there is the prefix
unfoldable pub after_prefix : Text → Text → Option Text
after_prefix [] s = some s
after_prefix (p ∷ prefix) [] = none
after_prefix (p ∷ prefix) (c ∷ s) =
    let rest = after_prefix prefix s in if c == p then rest else none

-- `strings.Contains`
unfoldable pub contains : Text → Text → Bool
unfolding after_prefix
contains word [] = is_empty word
contains word (c ∷ s) =
    let later = contains word s in
    elim (after_prefix word (c ∷ s)) [ none ↦ later | some rest ↦ true ]

unfoldable pub has_any : Text → List String → Bool
unfolding contains
has_any text words = any (λ w. contains (codes w) text) words

abbrev one_of : Text → List String → Bool
one_of t names = any (λ n. t == codes n) names

-- The family that a type names by itself.
unfoldable pub family_of_type : Text → Option Text
family_of_type t =
    if one_of t ("architecture" ∷ "design" ∷ "adr" ∷ "refactor" ∷ [])
    then some (codes "architecture")
    else if one_of t ("bug" ∷ "bugfix" ∷ "fix" ∷ "incident" ∷ "hotfix" ∷ [])
    then some (codes "bug")
    else if one_of t ("decision" ∷ [])
    then some (codes "decision")
    else if one_of t ("pattern" ∷ "convention" ∷ "guideline" ∷ [])
    then some (codes "pattern")
    else if one_of t ("config" ∷ "setup" ∷ "infra" ∷ "infrastructure" ∷ "ci" ∷ [])
    then some (codes "config")
    else if one_of t ("discovery" ∷ "investigation" ∷ "root_cause" ∷ "root-cause" ∷ [])
    then some (codes "discovery")
    else if one_of t ("explore" ∷ "exploration" ∷ "context" ∷ "discuss" ∷ [])
    then some (codes "explore")
    else if one_of t ("learning" ∷ "learn" ∷ [])
    then some (codes "learning")
    else if one_of t ("session_summary" ∷ [])
    then some (codes "session")
    else none

-- The family that the words of a text suggest.
unfoldable pub family_of_words : Text → Option Text
unfolding has_any
family_of_words text =
    if has_any text
      ("bug" ∷ "fix" ∷ "panic" ∷ "error" ∷ "crash" ∷ "regression" ∷ "incident" ∷ "hotfix" ∷ [])
    then some (codes "bug")
    else if has_any text
        ("architecture" ∷ "design" ∷ "adr" ∷ "boundary" ∷ "hexagonal" ∷ "refactor" ∷ [])
    then some (codes "architecture")
    else if has_any text ("decision" ∷ "tradeoff" ∷ "chose" ∷ "choose" ∷ "decide" ∷ [])
    then some (codes "decision")
    else if has_any text ("pattern" ∷ "convention" ∷ "naming" ∷ "guideline" ∷ [])
    then some (codes "pattern")
    else if has_any text ("config" ∷ "setup" ∷ "environment" ∷ "env" ∷ "docker" ∷ "pipeline" ∷ [])
    then some (codes "config")
    else if has_any text
        ("discovery" ∷ "investigate" ∷ "investigation" ∷ "found" ∷ "root cause" ∷ [])
    then some (codes "discovery")
    else if has_any text ("learned" ∷ "learning" ∷ [])
    then some (codes "learning")
    else none

unfoldable pub infer_topic_family : Text → Text → Text → Text
unfolding to_lower trim_space family_of_type family_of_words normalize_topic_segment
infer_topic_family type title content =
    let t = trim_space (to_lower type) in
    elim (family_of_type t) [
      | some family ↦ family
      | none ↦ elim (family_of_words (to_lower (title ++ (codes " " ++ content)))) [
        | some family ↦ family
        | none ↦
            if not (is_empty t) && not (t == codes "manual")
            then normalize_topic_segment t
            else codes "topic"
      ]
    ]

-- The segment from the title, or else from the first words of the content.
unfoldable pub first_segment : Text → Text → Text
unfolding to_lower fields join normalize_topic_segment strip_private_tags
first_segment title content =
    let segment = normalize_topic_segment (strip_private_tags title) in
    if is_empty segment
    then normalize_topic_segment
        (join (codes " ") (take 8 (fields (to_lower (strip_private_tags content)))))
    else segment

abbrev pub or_general : Text → Text
or_general segment = if is_empty segment then codes "general" else segment

abbrev pub without_family : Text → Text → Text
without_family family segment = elim (after_prefix (family ++ codes "-") segment) [
  | none ↦ segment
  | some rest ↦ rest
]

unfoldable pub topic_segment : Text → Text → Text → Text
unfolding first_segment after_prefix
topic_segment family title content =
    let segment = without_family family (or_general (first_segment title content)) in
    if is_empty segment || segment == family then codes "general" else segment

unfoldable pub suggest_topic_key : Text → Text → Text → Text
unfolding infer_topic_family topic_segment
suggest_topic_key type title content =
    let family = infer_topic_family type title content in
    family ++ (codes "/" ++ topic_segment family title content)

unfoldable pub classify_tool : String → String
classify_tool name =
    if any (λ n. name == n) ("write" ∷ "edit" ∷ "patch" ∷ [])
    then "file_change"
    else if name == "bash"
    then "command"
    else if any (λ n. name == n) ("read" ∷ "view" ∷ [])
    then "file_read"
    else if any (λ n. name == n) ("grep" ∷ "glob" ∷ "ls" ∷ [])
    then "search"
    else "tool_use"
