-- ===== src/Memory/Text/Redaction.antt =====
-- internal/memory/store.go: `stripPrivateTags` on a text with a private part.
use mathlib.Core.Option.{none-ne-some, some-injective}
use sdd_hoffy.Common.{
  ℕ, zero, suc, ◌+◌, ◌≤◌, ◌≡◌, refl, ap, ◌∙◌, [], ◌∷◌, ◌++◌, none, some, false, ◌==◌, nat_eq, All,
  length, length-append, arith, inl, inr, Bool-cases, Option-cases,
}
use sdd_hoffy.Common.Text.{Text, codes, lower_byte, trim_space}
use sdd_hoffy.Memory.Text.Private.{
  after_tag, open_tag, close_tag, after_close, closed, private_match, redacted, redact,
  strip_private_tags,
}

-- A text without the character `<`.
abbrev pub Untagged : Text → Type 0
Untagged = All (λ c. (c == b'<') ≡ false)

lower_untagged : (c : ℕ) → (c == b'<') ≡ false → (lower_byte c == b'<') ≡ false
unfolding lower_byte
lower_untagged c h = ground arith

no_tag_here :
    (tag : Text) (c : ℕ) (s : Text) → (c == b'<') ≡ false → after_tag (b'<' ∷ tag) (c ∷ s) ≡ none
unfolding after_tag
no_tag_here tag c s h = rw (lower_untagged c h) refl

length-after_tag : (tag s rest : Text) → after_tag tag s ≡ some rest → length rest ≤ length s
unfolding after_tag
length-after_tag [] s rest h = rw (some-injective s rest h) (omega arith)
length-after_tag (t ∷ tag) [] rest h = absurd (none-ne-some rest h)
length-after_tag (t ∷ tag) (c ∷ s) rest h = elim (Bool-cases (lower_byte c == t)) [
  | inl same ↦ omega (arith, length-after_tag tag s rest (rw same at h))
  | inr differs ↦ absurd (none-ne-some rest (rw differs at h))
]

length-after_close : (s rest : Text) → after_close s ≡ some rest → length rest ≤ length s
unfolding after_close
length-after_close [] rest h = absurd (none-ne-some rest h)
length-after_close (c ∷ s) rest h = elim (Option-cases (after_tag close_tag (c ∷ s))) [
  | inl unclosed ↦ omega (arith, length-after_close s rest (rw (unclosed, after_close) at h))
  | inr (r, found) ↦
      length-after_tag close_tag (c ∷ s) rest (found ∙ (rw (found, after_close) at h))
]

after_tag-shorter :
    (t : ℕ) (tag : Text) (c : ℕ) (s rest : Text)
    → after_tag (t ∷ tag) (c ∷ s) ≡ some rest
    → length rest ≤ length s
unfolding after_tag
after_tag-shorter t tag c s rest h = elim (Bool-cases (lower_byte c == t)) [
  | inl same ↦ length-after_tag tag s rest (rw same at h)
  | inr differs ↦ absurd (none-ne-some rest (rw differs at h))
]

length-private_match :
    (c : ℕ) (s rest : Text) → private_match (c ∷ s) ≡ some rest → length rest ≤ length s
unfolding private_match
length-private_match c s rest h = elim (Option-cases (after_tag open_tag (c ∷ s))) [
  | inl untagged ↦ absurd (none-ne-some rest (rw (untagged, private_match) at h))
  | inr (r, tagged) ↦ omega (
    arith,
    after_tag-shorter b'<' (codes "private>") c s r tagged,
    length-after_close r rest (rw (tagged, private_match) at h),
  )
]

-- Any fuel that is not less than the length gives the same.
redact_any : (m n : ℕ) (s : Text) → length s ≤ m → length s ≤ n → redact m s ≡ redact n s
unfolding redact
redact_any zero zero s hm hn = refl
redact_any zero (suc n) [] hm hn = refl
redact_any zero (suc n) (c ∷ s) hm hn = absurd (omega arith)
redact_any (suc m) zero [] hm hn = refl
redact_any (suc m) zero (c ∷ s) hm hn = absurd (omega arith)
redact_any (suc m) (suc n) [] hm hn = refl
redact_any (suc m) (suc n) (c ∷ s) hm hn = elim (Option-cases (private_match (c ∷ s))) [
  | inl public ↦
      rw (public, redact) (ap (λ r. c ∷ r) (redact_any m n s (omega arith) (omega arith)))
  | inr (rest, private) ↦
      let shorter = length-private_match c s rest private in
      rw (private, redact)
        (ap (λ r. redacted ++ r) (redact_any m n rest (omega arith) (omega arith)))
]

no_match : (c : ℕ) (s : Text) → (c == b'<') ≡ false → private_match (c ∷ s) ≡ none
unfolding private_match
no_match c s h = ap closed (no_tag_here (codes "private>") c s h)

one_character : (n c : ℕ) (s : Text) → (c == b'<') ≡ false → redact (suc n) (c ∷ s) ≡ c ∷ redact n s
unfolding redact
one_character n c s h = rw (no_match c s h, redact) refl

redact-Untagged :
    (n : ℕ) (before t : Text)
    → Untagged before
    → redact (length before + n) (before ++ t) ≡ before ++ redact n t
unfolding redact private_match
redact-Untagged n [] t h = ap (λ k. redact k t) (omega arith)
redact-Untagged n (c ∷ before) t h =
    let shift : suc (length before) + n ≡ suc (length before + n) = omega arith in
    ap (λ k. redact k (c ∷ (before ++ t))) shift
    ∙ (one_character (length before + n) c (before ++ t) h.0
        ∙ ap (λ r. c ∷ r) (redact-Untagged n before t h.1))

after_close-Untagged :
    (secret after : Text)
    → Untagged secret
    → after_close (secret ++ (close_tag ++ after)) ≡ some after
unfolding after_close after_tag lower_byte
after_close-Untagged [] after h = refl
after_close-Untagged (c ∷ secret) after h =
    rw (no_tag_here (codes "/private>") c (secret ++ (close_tag ++ after)) h.0, after_close)
      (after_close-Untagged secret after h.1)

private_match-Untagged :
    (secret after : Text)
    → Untagged secret
    → private_match (open_tag ++ (secret ++ (close_tag ++ after))) ≡ some after
unfolding private_match after_tag lower_byte
private_match-Untagged secret after h = after_close-Untagged secret after h

redact-private :
    (n : ℕ) (secret after : Text)
    → Untagged secret
    → redact (suc n) (open_tag ++ (secret ++ (close_tag ++ after))) ≡ redacted ++ redact n after
unfolding redact
redact-private n secret after h = rw (private_match-Untagged secret after h, redact) refl

-- What stands between `<private>` and `</private>` does not reach the result of `stripPrivateTags`: a
-- text before the tags and a private text, both without "<", give the text before, "[REDACTED]" and
-- what becomes of the text after, whatever that is, with the white space around all of it removed.
pub strip_private_tags_hides :
    (before secret after : Text)
    → Untagged before
    → Untagged secret
    → strip_private_tags (before ++ (open_tag ++ (secret ++ (close_tag ++ after))))
      ≡ trim_space (before ++ (redacted ++ redact (length after) after))
unfolding strip_private_tags
strip_private_tags_hides before secret after plain hidden =
    let tail = open_tag ++ (secret ++ (close_tag ++ after)) in
    let all = before ++ tail in
    let fits : length after ≤ length all = omega (
      arith,
      length-append before tail,
      length-append open_tag (secret ++ (close_tag ++ after)),
      length-append secret (close_tag ++ after),
      length-append close_tag after,
    ) in
    ap trim_space (
      redact_any (length all) (length before + suc (length all)) all (omega arith) (omega arith)
      ∙ (redact-Untagged (suc (length all)) before tail plain
          ∙ (ap (λ r. before ++ r) (redact-private (length all) secret after hidden)
              ∙ ap (λ r. before ++ (redacted ++ r))
                  (redact_any (length all) (length after) after fits (omega arith)))))
