-- ===== src/Memory/Detail/Thousands.antt =====
-- internal/memory/detail_level.go: `formatNumber` sets a comma before every three digits.
use sdd_hoffy.Common.{
  ℕ, suc, ◌+◌, ◌-◌, ◌/◌, ◌%◌, ◌<◌, ◌≤◌, ◌≡◌, refl, sym, ap, ◌∙◌, [], ◌∷◌, ◌++◌, true, ◌&&◌, ◌==◌,
  nat_eq, ltb, length, length-append, arith, Bool-cases, inl, inr, if◌then◌else◌,
}
use sdd_hoffy.Common.Text.{Text}
use sdd_hoffy.Changes.Decimal.{decimal, decimal-small, decimal-last}
use sdd_hoffy.Memory.Detail.{insert_commas, format_number}

-- The three digits of a number below 1000.
abbrev pub three_digits : ℕ → Text
three_digits m = (48 + m / 100) ∷ (48 + m / 10 % 10) ∷ (48 + m % 10) ∷ []

append_three :
    (s : Text) (a b c : ℕ) → ((s ++ (a ∷ [])) ++ (b ∷ [])) ++ (c ∷ []) ≡ s ++ (a ∷ b ∷ c ∷ [])
append_three [] a b c = refl
append_three (d ∷ s) a b c = ap (λ t. d ∷ t) (append_three s a b c)

decimal_thousand : (n : ℕ) → 1000 ≤ n → decimal n ≡ decimal (n / 1000) ++ three_digits (n % 1000)
decimal_thousand n h =
    let front : n / 10 / 10 / 10 ≡ n / 1000 = omega arith in
    let hundreds : n / 10 / 10 % 10 ≡ n % 1000 / 100 = omega arith in
    let tens : n / 10 % 10 ≡ n % 1000 / 10 % 10 = omega arith in
    let ones : n % 10 ≡ n % 1000 % 10 = omega arith in
    decimal-last n (omega (arith, h))
    ∙ ap (λ s. s ++ ((48 + n % 10) ∷ []))
        (decimal-last (n / 10) (omega (arith, h))
          ∙ ap (λ s. s ++ ((48 + n / 10 % 10) ∷ []))
              (decimal-last (n / 10 / 10) (omega (arith, h))))
    ∙ append_three (decimal (n / 10 / 10 / 10)) (48 + n / 10 / 10 % 10) (48 + n / 10 % 10)
        (48 + n % 10)
    ∙ rw (front, hundreds, tens, ones) refl

insert_commas_three :
    (i : ℕ) (s : Text) (x y z : ℕ)
    → 0 < i + length s
    → insert_commas i (i + length s + 3) (s ++ (x ∷ y ∷ z ∷ []))
      ≡ insert_commas i (i + length s) s ++ (b',' ∷ x ∷ y ∷ z ∷ [])
unfolding insert_commas
insert_commas_three i [] x y z h = ground arith
insert_commas_three i (c ∷ s) x y z h =
    let shift : i + suc (length s) ≡ suc i + length s = omega arith in
    let same : (suc i + length s + 3 - i) % 3 ≡ (suc i + length s - i) % 3 = omega arith in
    let rest = insert_commas_three (suc i) s x y z (omega arith) in
    rw (shift, rest, same)
      (elim (Bool-cases (ltb 0 i && (suc i + length s - i) % 3 == 0)) [
        | inl comma ↦ rw comma refl
        | inr none ↦ rw none refl
      ])

insert_commas_start :
    (s : Text) (x y z : ℕ)
    → 0 < length s
    → insert_commas 0 (length s + 3) (s ++ (x ∷ y ∷ z ∷ []))
      ≡ insert_commas 0 (length s) s ++ (b',' ∷ x ∷ y ∷ z ∷ [])
insert_commas_start s x y z h =
    let same : 0 + length s ≡ length s = omega arith in
    let all = insert_commas_three 0 s x y z (omega (arith, h)) in rw same at all

insert_commas_short : (s : Text) → length s ≤ 3 → insert_commas 0 (length s) s ≡ s
unfolding insert_commas
insert_commas_short [] h = refl
insert_commas_short (a ∷ []) h = refl
insert_commas_short (a ∷ b ∷ []) h = refl
insert_commas_short (a ∷ b ∷ c ∷ []) h = refl
insert_commas_short (a ∷ b ∷ c ∷ d ∷ s) h = absurd (omega (arith, h))

length_last : (n : ℕ) → 10 ≤ n → length (decimal n) ≡ suc (length (decimal (n / 10)))
length_last n h =
    ap length (decimal-last n h)
    ∙ length-append (decimal (n / 10)) ((48 + n % 10) ∷ [])
    ∙ omega arith

length_small : (n : ℕ) → n < 10 → length (decimal n) ≡ 1
length_small n h = ap length (decimal-small n h)

length_thousand : (n : ℕ) → n < 1000 → length (decimal n) ≤ 3
length_thousand n h = ground (
  arith,
  length_small n,
  length_last n,
  length_small (n / 10),
  length_last (n / 10),
  length_small (n / 10 / 10),
)

format_number-commas : (n : ℕ) → format_number n ≡ insert_commas 0 (length (decimal n)) (decimal n)
unfolding format_number
format_number-commas n = elim (Bool-cases (ltb n 1000)) [
  | inl small ↦ rw small (sym (insert_commas_short (decimal n) (length_thousand n (ground arith))))
  | inr large ↦ rw large refl
]

length_positive : (n : ℕ) → 0 < length (decimal n)
length_positive n = ground (arith, length_small n, length_last n)

commas_thousand :
    (n : ℕ)
    → 1000 ≤ n
    → insert_commas 0 (length (decimal n)) (decimal n)
      ≡ format_number (n / 1000) ++ (b',' ∷ three_digits (n % 1000))
commas_thousand n h =
    let front = decimal (n / 1000) in
    let back = three_digits (n % 1000) in
    let len : length (front ++ back) ≡ length front + 3 = length-append front back in
    ap (λ s. insert_commas 0 (length s) s) (decimal_thousand n h)
    ∙ ap (λ l. insert_commas 0 l (front ++ back)) len
    ∙ insert_commas_start front (48 + n % 1000 / 100) (48 + n % 1000 / 10 % 10) (48 + n % 1000 % 10)
        (length_positive (n / 1000))
    ∙ ap (λ s. s ++ (b',' ∷ back)) (sym (format_number-commas (n / 1000)))

format_number-small : (n : ℕ) → ltb n 1000 ≡ true → format_number n ≡ decimal n
unfolding format_number
format_number-small n h = rw h refl

-- `formatNumber` groups digits by thousands: a number from 1000 on is written as its thousands, written
-- in the same way, a comma and three digits; a smaller number is written in decimal.
pub format_number-thousands :
    (n : ℕ)
    → format_number n ≡ (
        if ltb n 1000
        then decimal n
        else format_number (n / 1000) ++ (b',' ∷ three_digits (n % 1000)))
format_number-thousands n = elim (Bool-cases (ltb n 1000)) [
  | inl small ↦ rw small (format_number-small n small)
  | inr large ↦ rw large (format_number-commas n ∙ commas_thousand n (ground arith))
]
