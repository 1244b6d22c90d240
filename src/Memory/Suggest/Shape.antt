-- ===== src/Memory/Suggest/Shape.antt =====
-- internal/memory/store.go: the form of the topic keys of SuggestTopicKey.
use mathlib.Core.Path.{subst}
use mathlib.Core.Option.{none-ne-some, some-injective}
use sdd_hoffy.Common.{
  ◌≡◌, refl, ◌++◌, Option, none, some, Bool, true, false, not, ◌&&◌, ◌||◌, ◌==◌, nat_eq, text_eq,
  leb, length, take, arith, inl, inr, Bool-cases, Option-cases, if◌then◌else◌,
}
use sdd_hoffy.Common.Text.{Text, codes, is_empty, to_lower, trim_space}
use sdd_hoffy.Memory.Text.{fields, join}
use sdd_hoffy.Memory.Text.Private.{strip_private_tags}
use sdd_hoffy.Memory.Suggest.{
  normalize_topic_segment, after_prefix, family_of_type, family_of_words, infer_topic_family,
  first_segment, or_general, without_family, topic_segment,
}
use sdd_hoffy.Memory.Suggest.Segments.{
  in_segment, IsSegment, every, every_lem, after_prefix-Every, normalize_topic_segment-IsSegment,
}

IsSegment-codes : (s : Text) → every in_segment s ≡ true → leb (length s) 100 ≡ true → IsSegment s
IsSegment-codes s h short = record { written = every_lem in_segment s h; short = ground arith }

data Suggested : Option Text → Type 0 where
  unknown : Suggested none
  known : {family : Text} → IsSegment family → Suggested (some family)

family-IsSegment :
    {o : Option Text} {family : Text} → Suggested o → o ≡ some family → IsSegment family
family-IsSegment unknown e = absurd (none-ne-some _ e)
family-IsSegment (known k) e = subst IsSegment (some-injective _ _ e) k

named :
    (family : Text)
    → every in_segment family ≡ true
    → leb (length family) 100 ≡ true
    → Suggested (some family)
named family h short = known (IsSegment-codes family h short)

either : (b : Bool) (x y : Option Text) → Suggested x → Suggested y → Suggested (if b then x else y)
either true x y hx hy = hx
either false x y hx hy = hy

family_of_type-Suggested : (t : Text) → Suggested (family_of_type t)
unfolding family_of_type every
family_of_type-Suggested t = either _ _ _ (named (codes "architecture") refl refl) (
    either _ _ _ (named (codes "bug") refl refl) (
      either _ _ _ (named (codes "decision") refl refl) (
        either _ _ _ (named (codes "pattern") refl refl) (
          either _ _ _ (named (codes "config") refl refl) (
            either _ _ _ (named (codes "discovery") refl refl) (
              either _ _ _ (named (codes "explore") refl refl) (
                either _ _ _ (named (codes "learning") refl refl)
                  (either _ _ _ (named (codes "session") refl refl) unknown))))))))

family_of_words-Suggested : (text : Text) → Suggested (family_of_words text)
unfolding family_of_words every
family_of_words-Suggested text = either _ _ _ (named (codes "bug") refl refl) (
    either _ _ _ (named (codes "architecture") refl refl) (
      either _ _ _ (named (codes "decision") refl refl) (
        either _ _ _ (named (codes "pattern") refl refl) (
          either _ _ _ (named (codes "config") refl refl) (
            either _ _ _ (named (codes "discovery") refl refl)
              (either _ _ _ (named (codes "learning") refl refl) unknown))))))

one_of_two : (b : Bool) (x y : Text) → IsSegment x → IsSegment y → IsSegment (if b then x else y)
one_of_two true x y hx hy = hx
one_of_two false x y hx hy = hy

pub infer_topic_family-IsSegment :
    (type title content : Text) → IsSegment (infer_topic_family type title content)
unfolding every infer_topic_family
infer_topic_family-IsSegment type title content =
    let t = trim_space (to_lower type) in
    let words = to_lower (title ++ (codes " " ++ content)) in
    elim (Option-cases (family_of_type t)) [
      | inr (family, by_type) ↦
          rw (by_type, infer_topic_family) (family-IsSegment (family_of_type-Suggested t) by_type)
      | inl unnamed ↦ elim (Option-cases (family_of_words words)) [
        | inr (family, found) ↦
            rw (unnamed, found, infer_topic_family)
              (family-IsSegment (family_of_words-Suggested words) found)
        | inl nothing ↦
            rw (unnamed, nothing, infer_topic_family)
              (one_of_two (not (is_empty t) && not (t == codes "manual")) _ _
                (normalize_topic_segment-IsSegment t) (IsSegment-codes (codes "topic") refl refl))
      ]
    ]

general : IsSegment (codes "general")
unfolding every
general = IsSegment-codes (codes "general") refl refl

first_segment-IsSegment :
    (title content : Text) → IsSegment (or_general (first_segment title content))
unfolding first_segment
first_segment-IsSegment title content =
    one_of_two (is_empty (first_segment title content)) (codes "general") _ general (
      one_of_two (is_empty (normalize_topic_segment (strip_private_tags title))) _ _
        (normalize_topic_segment-IsSegment
          (join (codes " ") (take 8 (fields (to_lower (strip_private_tags content))))))
        (normalize_topic_segment-IsSegment (strip_private_tags title)))

without_family-IsSegment :
    (family segment : Text) → IsSegment segment → IsSegment (without_family family segment)
without_family-IsSegment family segment k =
    elim (Option-cases (after_prefix (family ++ codes "-") segment)) [
      | inl other ↦ rw (other, without_family) k
      | inr (rest, found) ↦
          let part =
            after_prefix-Every in_segment (family ++ codes "-") segment rest found k.written in
          rw (found, without_family)
            record { written = part.0; short = omega (arith, part.1, k.short) }
    ]

-- The segment is not empty, whatever is left of the title.
pub topic_segment-IsSegment :
    (family title content : Text)
    → IsSegment (topic_segment family title content)
      × (is_empty (topic_segment family title content) ≡ false)
unfolding topic_segment
topic_segment-IsSegment family title content =
    let segment = without_family family (or_general (first_segment title content)) in
    let k = without_family-IsSegment family _ (first_segment-IsSegment title content) in
    elim (Bool-cases (is_empty segment || segment == family)) [
      | inl replaced ↦ rw replaced (general, refl)
      | inr kept ↦ rw kept (k, ground arith)
    ]
