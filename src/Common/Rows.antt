-- ===== src/Common/Rows.antt =====
-- Membership in lists of rows that are kept, cut, reversed or searched.
use Prim.Native.Nat.{ℕ, zero, suc, ◌≤◌, min}
use mathlib.Core.Path.{◌≡◌, refl, ap, subst, sym, ◌∙◌}
use mathlib.Core.Logic.{inl, inr}
use mathlib.Core.Bool.{Bool, true}
use mathlib.Core.Option.{some, none-ne-some, some-injective}
use mathlib.Core.List.{List, [], ◌∷◌, reverse, reverse-cons, Memᴰ}
use mathlib.Core.List.Memᴰ
use native.Mathlib.Omega.{arith}
use sdd_hoffy.Common.Lists.{All, All-append, length, length-append, take, keep, find}
use sdd_hoffy.Common.Tests.{if◌then◌else◌, Bool-cases}

module _ {ℓ} {A : Type ℓ} where
  pub All-Memᴰ {κ} : (P : A → Type κ) (xs : List A) (z : A) → All P xs → Memᴰ z xs → P z
  All-Memᴰ P [] z h m = absurd (Memᴰ.not-nil m)
  All-Memᴰ P (x ∷ xs) z h m = elim (Memᴰ.cases_cons m) [
    | inl same ↦ subst P (sym same) h.0
    | inr later ↦ All-Memᴰ P xs z h.1 later
  ]

module _ {ℓ} {A : Type ℓ} where
  pub length-take : (n : ℕ) (xs : List A) → length (take n xs) ≡ min n (length xs)
  length-take zero xs = omega arith
  length-take (suc n) [] = omega arith
  length-take (suc n) (x ∷ xs) = omega (arith, length-take n xs)

  pub Memᴰ-keep : (p : A → Bool) (z : A) (xs : List A) → p z ≡ true → Memᴰ z xs → Memᴰ z (keep p xs)
  Memᴰ-keep p z [] h m = m
  Memᴰ-keep p z (x ∷ xs) h m = elim (Memᴰ.cases_cons m) [
    | inl same ↦ rw (ap p (sym same) ∙ h) (Memᴰ.head same)
    | inr later ↦ elim (Bool-cases (p x)) [
      | inl yes_p ↦ rw yes_p (Memᴰ.tail (Memᴰ-keep p z xs h later))
      | inr no_p ↦ rw no_p (Memᴰ-keep p z xs h later)
    ]
  ]

  pub length-reverse : (xs : List A) → length (reverse xs) ≡ length xs
  length-reverse [] = refl
  length-reverse (x ∷ xs) =
      rw (reverse-cons x xs, length-append (reverse xs) (x ∷ [])) (omega (arith, length-reverse xs))

  pub All-reverse {κ} : (P : A → Type κ) (xs : List A) → All P xs → All P (reverse xs)
  All-reverse P [] h = tt
  All-reverse P (x ∷ xs) h =
      rw (reverse-cons x xs) (All-append P (reverse xs) (x ∷ []) (All-reverse P xs h.1) (h.0, tt))

  pub Memᴰ-reverse : (z : A) (xs : List A) → Memᴰ z xs → Memᴰ z (reverse xs)
  Memᴰ-reverse z [] h = h
  Memᴰ-reverse z (x ∷ xs) h = rw (reverse-cons x xs) (elim (Memᴰ.cases_cons h) [
    | inl same ↦ Memᴰ.append_right (reverse xs) (Memᴰ.head same)
    | inr later ↦ Memᴰ.append_left (x ∷ []) (Memᴰ-reverse z xs later)
  ])

module _ {ℓ} {A : Type ℓ} where
  All-within : (xs rows : List A) → ((x : A) → Memᴰ x xs → Memᴰ x rows) → All (λ x. Memᴰ x rows) xs
  All-within [] rows f = tt
  All-within (x ∷ xs) rows f = (f x (Memᴰ.head refl), All-within xs rows (λ y m. f y (Memᴰ.tail m)))

  pub All-itself : (xs : List A) → All (λ x. Memᴰ x xs) xs
  All-itself xs = All-within xs xs (λ x m. m)

  pub kept_passed :
      (p : A → Bool) (xs rows : List A)
      → All (λ x. Memᴰ x rows) xs
      → All (λ x. Memᴰ x rows × (p x ≡ true)) (keep p xs)
  kept_passed p [] rows h = tt
  kept_passed p (x ∷ xs) rows h = elim (Bool-cases (p x)) [
    | inl yes_p ↦ rw yes_p ((h.0, yes_p), kept_passed p xs rows h.1)
    | inr no_p ↦ rw no_p (kept_passed p xs rows h.1)
  ]

  -- Rows that are kept are rows of the table, with what their test implies.
  pub kept_from {κ} :
      (p : A → Bool) (P : A → Type κ) (rows : List A)
      → ((x : A) → p x ≡ true → P x)
      → All (λ x. Memᴰ x rows × P x) (keep p rows)
  kept_from p P rows f = All-weaken (keep p rows) (kept_passed p rows rows (All-itself rows))
    where
      All-weaken :
          (xs : List A) → All (λ x. Memᴰ x rows × (p x ≡ true)) xs → All (λ x. Memᴰ x rows × P x) xs
      All-weaken [] h = tt
      All-weaken (x ∷ xs) h = ((h.0.0, f x h.0.1), All-weaken xs h.1)

  pub find-Memᴰ :
      (p : A → Bool) (xs : List A) {x : A} → find p xs ≡ some x → Memᴰ x xs × (p x ≡ true)
  find-Memᴰ p [] h = absurd (none-ne-some _ h)
  find-Memᴰ p (y ∷ xs) {x} h = elim (Bool-cases (p y)) [
    | inl yes_p ↦
        let same : y ≡ x =
          some-injective y x (sym (ap (λ b. if b then some y else find p xs) yes_p) ∙ h) in
        (Memᴰ.head (sym same), ap p (sym same) ∙ yes_p)
    | inr no_p ↦
        let later = find-Memᴰ p xs (sym (ap (λ b. if b then some y else find p xs) no_p) ∙ h) in
        (Memᴰ.tail later.0, later.1)
  ]

  pub keep-some :
      (p : A → Bool) (x : A) (xs : List A) → Memᴰ x xs → p x ≡ true → 1 ≤ length (keep p xs)
  keep-some p x [] m h = absurd (Memᴰ.not-nil m)
  keep-some p x (y ∷ xs) m h = elim (Memᴰ.cases_cons m) [
    | inl same ↦ rw (ap p (sym same) ∙ h) (omega arith)
    | inr later ↦ ground (arith, keep-some p x xs later h)
  ]
