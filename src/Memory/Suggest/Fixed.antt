-- ===== src/Memory/Suggest/Fixed.antt =====
-- internal/memory/store.go: the topic keys of SuggestTopicKey as keys of AddObservation.
use sdd_hoffy.Common.{ℕ, ◌≡◌, refl, [], ◌∷◌, ◌++◌, true, false, nat_eq, take, All-append, arith}
use sdd_hoffy.Common.Text.{Text, codes, is_empty}
use sdd_hoffy.Memory.Text.{normalize_topic_key}
use sdd_hoffy.Memory.Suggest.{infer_topic_family, topic_segment, suggest_topic_key}
use sdd_hoffy.Memory.Text.Keys.{Every, in_key, nonempty_key}
use sdd_hoffy.Memory.Suggest.Segments.{in_segment, IsSegment}
use sdd_hoffy.Memory.Suggest.Shape.{infer_topic_family-IsSegment, topic_segment-IsSegment}

segment-Every : (s : Text) → Every in_segment s → Every in_key s
segment-Every [] h = tt
segment-Every (c ∷ s) h = (ground (arith, h.0), segment-Every s h.1)

joined_nonempty : (a b : Text) (c : ℕ) → is_empty (a ++ (c ∷ b)) ≡ false
joined_nonempty [] b c = refl
joined_nonempty (d ∷ a) b c = refl

-- A topic key as SuggestTopicKey builds it.
pub record IsTopicKey (key : Text) : Type 0 where
  pub family : Text
  pub segment : Text
  pub parts : key ≡ family ++ (codes "/" ++ segment)
  pub family_written : IsSegment family
  pub segment_written : IsSegment segment
  pub named : is_empty segment ≡ false
  pub normal : normalize_topic_key key ≡ take 120 key

-- Whatever the type, title and content, SuggestTopicKey gives a family and a segment around a slash:
-- both of lower-case letters, digits and hyphens only and of at most 100 characters, the segment not
-- empty. AddObservation takes such a key as it stands, cut to 120 characters.
pub suggest_topic_key-IsTopicKey :
    (type title content : Text) → IsTopicKey (suggest_topic_key type title content)
unfolding suggest_topic_key
suggest_topic_key-IsTopicKey type title content =
    let family = infer_topic_family type title content in
    let segment = topic_segment family title content in
    let f = infer_topic_family-IsSegment type title content in
    let s = topic_segment-IsSegment family title content in
    record {
      family = family;
      segment = segment;
      parts = refl;
      family_written = f;
      segment_written = s.0;
      named = s.1;
      normal =
          nonempty_key (family ++ (codes "/" ++ segment)) (joined_nonempty family segment b'/') (
            All-append (λ c. in_key c ≡ true) family (codes "/" ++ segment)
              (segment-Every family f.written) (refl, segment-Every segment s.0.written));
    }
