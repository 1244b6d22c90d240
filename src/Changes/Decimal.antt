-- ===== src/Changes/Decimal.antt =====
-- `%d` of package `fmt` for natural numbers: decimal digits without leading zeros, by fuel.
use sdd_hoffy.Common.{
  ℕ, zero, suc, ◌+◌, ◌-◌, ◌*◌, ◌/◌, ◌%◌, ◌<◌, ◌≤◌, ◌≡◌, inl, inr, Bool-cases, All, All-append, true,
  false, refl, sym, ap, ◌∙◌, [], ◌∷◌, ◌++◌, ltb, arith, if◌then◌else◌,
}
use sdd_hoffy.Common.Text.{Text}

digits : ℕ → ℕ → Text
digits zero n = []
digits (suc fuel) n =
    let front = digits fuel (n / 10) in
    if ltb n 10 then (48 + n) ∷ [] else front ++ ((48 + n % 10) ∷ [])

-- A number has at most as many digits as it has units, and one more.
unfoldable pub decimal : ℕ → Text
unfolding digits
decimal n = digits (suc n) n

-- The value of a text of digits, read after a number `acc`.
unfoldable pub value : ℕ → Text → ℕ
value acc [] = acc
value acc (c ∷ s) = value (acc * 10 + (c - 48)) s

value-append : (acc c : ℕ) (s : Text) → value acc (s ++ c ∷ []) ≡ value acc s * 10 + (c - 48)
unfolding value
value-append acc c [] = refl
value-append acc c (d ∷ s) = value-append (acc * 10 + (d - 48)) c s

value-digits : (fuel n : ℕ) → n < fuel → value 0 (digits fuel n) ≡ n
unfolding value digits
value-digits zero n h = elim h [ ]
value-digits (suc fuel) n h =
    ground (arith, value-digits fuel (n / 10), value-append 0 (48 + n % 10) (digits fuel (n / 10)))

pub value-decimal : (n : ℕ) → value 0 (decimal n) ≡ n
unfolding decimal
value-decimal n = value-digits (suc n) n (omega arith)

abbrev pub IsDigit : ℕ → Type 0
IsDigit c = (48 ≤ c) × (c ≤ 57)

digits-IsDigit : (fuel n : ℕ) → All IsDigit (digits fuel n)
unfolding digits
digits-IsDigit zero n = tt
digits-IsDigit (suc fuel) n = elim (Bool-cases (ltb n 10)) [
  | inl small ↦ rw small ((omega arith, ground arith), tt)
  | inr large ↦ rw large (
      All-append IsDigit (digits fuel (n / 10)) ((48 + n % 10) ∷ []) (digits-IsDigit fuel (n / 10))
        ((omega arith, omega arith), tt))
]

pub decimal-IsDigit : (n : ℕ) → All IsDigit (decimal n)
unfolding decimal
decimal-IsDigit n = digits-IsDigit (suc n) n

digits-fuel : (fuel more n : ℕ) → n < fuel → n < more → digits fuel n ≡ digits more n
unfolding digits
digits-fuel zero more n h k = absurd (omega (arith, h))
digits-fuel (suc fuel) zero n h k = absurd (omega (arith, k))
digits-fuel (suc fuel) (suc more) n h k = elim (Bool-cases (ltb n 10)) [
  | inl small ↦ rw small refl
  | inr large ↦
      let smaller : n / 10 < fuel = ground arith in
      let same = digits-fuel fuel more (n / 10) smaller (ground arith) in rw (large, same) refl
]

pub decimal-small : (n : ℕ) → n < 10 → decimal n ≡ (48 + n) ∷ []
unfolding decimal digits
decimal-small n h = let small : ltb n 10 ≡ true = ground arith in rw small refl

-- What stands before the last digit.
pub decimal-last : (n : ℕ) → 10 ≤ n → decimal n ≡ decimal (n / 10) ++ ((48 + n % 10) ∷ [])
unfolding decimal digits
decimal-last n h =
    let large : ltb n 10 ≡ false = ground arith in
    let same = digits-fuel n (suc (n / 10)) (n / 10) (omega arith) (omega arith) in
    rw (large, same) refl

-- Different numbers are printed differently.
pub decimal-injective : (m n : ℕ) → decimal m ≡ decimal n → m ≡ n
unfolding decimal
decimal-injective m n e =
    sym (value-digits (suc m) m (omega arith))
    ∙ ap (value 0) e
    ∙ value-digits (suc n) n (omega arith)
