-- ===== src/Changes/Decisions/Numbers.antt =====
-- internal/tools/adr.go: the numbers of decisions are read back from their files' names.
use sdd_hoffy.Common.{
  ℕ, ◌+◌, ◌/◌, ◌%◌, ◌<◌, ◌≤◌, ◌≡◌, ◌≢◌, ◌⊎◌, inl, inr, refl, ap, ◌∙◌, List, [], ◌∷◌, ◌++◌, Option,
  none, some, false, nat_eq, ltb, All, arith, Bool-cases, Option-cases, if◌then◌else◌,
}
use sdd_hoffy.Common.Text.{Text, codes}
use sdd_hoffy.Changes.Decimal.{decimal, decimal-small, decimal-last}
use sdd_hoffy.Changes.Decisions.{
  AdrEntry, adr_number, raised, number_of, highest_number, next_adr_number, padded, adr_filename,
}

three : ℕ → Text
three n = (48 + n / 100) ∷ (48 + n / 10 % 10) ∷ (48 + n % 10) ∷ []

two_digits : (n : ℕ) → 10 ≤ n → n < 100 → decimal n ≡ (48 + n / 10) ∷ (48 + n % 10) ∷ []
two_digits n h k =
    decimal-last n h
    ∙ ap (λ s. s ++ ((48 + n % 10) ∷ [])) (decimal-small (n / 10) (omega (arith, k)))

padded_cases :
    (n : ℕ)
    → padded n ≡ (
        if ltb n 10
        then codes "00" ++ decimal n
        else if ltb n 100
        then codes "0" ++ decimal n
        else decimal n)
unfolding padded
padded_cases n = refl

three_hundred : (n : ℕ) → 100 ≤ n → n < 1000 → decimal n ≡ three n
unfolding three
three_hundred n h k =
    let hundreds : n / 10 / 10 ≡ n / 100 = omega arith in
    decimal-last n (omega (arith, h))
    ∙ ap (λ s. s ++ ((48 + n % 10) ∷ []))
        (two_digits (n / 10) (omega (arith, h)) (omega (arith, k)))
    ∙ rw hundreds refl

padded-three : (n : ℕ) → n < 1000 → padded n ≡ three n
unfolding three
padded-three n h = padded_cases n ∙ elim (Bool-cases (ltb n 10)) [
  | inl small ↦
      let hundreds : n / 100 ≡ 0 = ground arith in
      let tens : n / 10 ≡ 0 = ground arith in
      let ones : n % 10 ≡ n = ground arith in
      rw (small, decimal-small n (ground arith), hundreds, tens, ones) refl
  | inr from_ten ↦ elim (Bool-cases (ltb n 100)) [
    | inl small ↦
        let hundreds : n / 100 ≡ 0 = ground arith in
        let tens : n / 10 % 10 ≡ n / 10 = ground arith in
        rw (from_ten, small, two_digits n (ground arith) (ground arith), hundreds, tens) refl
    | inr from_hundred ↦ rw (from_ten, from_hundred) (three_hundred n (ground arith) h)
  ]
]

-- The number of a decision below 1000 is read back from the name of its file.
adr_number-adr_filename :
    (n : ℕ) (slug : Text) → n < 1000 → adr_number (adr_filename n slug) ≡ some n
unfolding adr_number three
adr_number-adr_filename n slug h = rw (padded-three n h) (ground arith)

highest_number-le : (highest : ℕ) (es : List AdrEntry) → highest ≤ highest_number highest es
unfolding highest_number
highest_number-le highest [] = omega arith
highest_number-le highest (e ∷ es) =
    omega
      (arith, raised-le highest (number_of e), highest_number-le (raised highest (number_of e)) es)
  where
    raised-le : (m : ℕ) (n : Option ℕ) → m ≤ raised m n
    raised-le m none = omega arith
    raised-le m (some n) = ground arith

-- Every number among the entries is at most `most`, if the highest is.
AtMost : ℕ → AdrEntry → Type 0
AtMost most e = (n : ℕ) → number_of e ≡ some n → n ≤ most

raised-le : (highest n : ℕ) → n ≤ raised highest (some n)
raised-le highest n = ground arith

highest_number-AtMost :
    (highest most : ℕ) (es : List AdrEntry)
    → highest_number highest es ≤ most
    → All (AtMost most) es
unfolding highest_number AtMost
highest_number-AtMost highest most [] h = tt
highest_number-AtMost highest most (e ∷ es) h = (
  λ n same.
      let first : n ≤ raised highest (number_of e) = rw same (raised-le highest n) in
      omega (arith, h, first, highest_number-le (raised highest (number_of e)) es),
  highest_number-AtMost (raised highest (number_of e)) most es h,
)

abbrev pub Apart : Text → AdrEntry → Type 0
Apart name e = (e.content ≡ none) ⊎ (e.name ≢ name)

number_of-file : (e : AdrEntry) (s : Text) → e.content ≡ some s → number_of e ≡ adr_number e.name
number_of-file e s h = rw h refl

AtMost-Apart :
    (most : ℕ) (slug : Text) (e : AdrEntry)
    → most + 1 < 1000
    → AtMost most e
    → Apart (adr_filename (most + 1) slug) e
unfolding AtMost
AtMost-Apart most slug e h bound = elim (Option-cases e.content) [
  | inl folder ↦ inl folder
  | inr (s, file) ↦ inr (λ same.
      let read : number_of e ≡ some (most + 1) =
        number_of-file e s file ∙ ap adr_number same ∙ adr_number-adr_filename (most + 1) slug h in
      omega (arith, bound (most + 1) read))
]

All-Apart :
    (most : ℕ) (slug : Text) (es : List AdrEntry)
    → most + 1 < 1000
    → All (AtMost most) es
    → All (Apart (adr_filename (most + 1) slug)) es
All-Apart most slug [] h b = tt
All-Apart most slug (e ∷ es) h b = (AtMost-Apart most slug e h b.0, All-Apart most slug es h b.1)

-- While the numbers have three digits, no file among the entries has the name of the next decision,
-- whatever its title: if the entries can be read.
pub next_adr_number-fresh :
    (es : List AdrEntry) (slug : Text)
    → next_adr_number false es < 1000
    → All (λ e. (e.content ≡ none) ⊎ (e.name ≢ adr_filename (next_adr_number false es) slug)) es
unfolding next_adr_number
next_adr_number-fresh es slug h =
    All-Apart (highest_number 0 es) slug es h
      (highest_number-AtMost 0 (highest_number 0 es) es (omega arith))
