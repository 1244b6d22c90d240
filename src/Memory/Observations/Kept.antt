-- ===== src/Memory/Observations/Kept.antt =====
-- internal/memory/store.go: facts on rows that a statement selects or updates in place.
use sdd_hoffy.Common.{
  ◌+◌, ◌≡◌, refl, List, [], ◌∷◌, ◌++◌, Bool, true, All, keep, update_where, length, arith,
  if◌then◌else◌, Bool-cases, inl, inr,
}

module _ {ℓ} {A : Type ℓ} where
  pub length-keep-update_where :
      (p q : A → Bool) (f : A → A) (xs : List A)
      → All (λ x. q x ≡ true → p (f x) ≡ p x) xs
      → length (keep p (update_where q f xs)) ≡ length (keep p xs)
  length-keep-update_where p q f [] h = refl
  length-keep-update_where p q f (x ∷ xs) h = elim (Bool-cases (q x)) [
    | inl yes_q ↦ rw (yes_q, h.0 yes_q) (ground (arith, length-keep-update_where p q f xs h.1))
    | inr no_q ↦ rw no_q (ground (arith, length-keep-update_where p q f xs h.1))
  ]

  pub length-keep-append :
      (p : A → Bool) (xs : List A) (y : A)
      → length (keep p (xs ++ y ∷ [])) ≡ length (keep p xs) + (if p y then 1 else 0)
  length-keep-append p [] y = ground arith
  length-keep-append p (x ∷ xs) y = ground (arith, length-keep-append p xs y)

  -- Tests that agree on every element keep as many.
  pub length-keep-agree :
      (p q : A → Bool) (xs : List A)
      → All (λ x. p x ≡ q x) xs
      → length (keep p xs) ≡ length (keep q xs)
  length-keep-agree p q [] h = refl
  length-keep-agree p q (x ∷ xs) h = rw h.0 (ground (arith, length-keep-agree p q xs h.1))

  pub All-from : (P : A → Type 0) (xs : List A) → ((x : A) → P x) → All P xs
  All-from P [] h = tt
  All-from P (x ∷ xs) h = (h x, All-from P xs h)

  -- What is kept has passed the test, and has every property that all elements have.
  pub All-keep :
      (P : A → Type 0) (q : A → Bool) (xs : List A)
      → All P xs
      → All (λ x. P x × (q x ≡ true)) (keep q xs)
  All-keep P q [] h = tt
  All-keep P q (x ∷ xs) h = elim (Bool-cases (q x)) [
    | inl yes_q ↦ rw yes_q ((h.0, yes_q), All-keep P q xs h.1)
    | inr no_q ↦ rw no_q (All-keep P q xs h.1)
  ]

  pub All-map_into : (P Q : A → Type 0) (xs : List A) → ((x : A) → P x → Q x) → All P xs → All Q xs
  All-map_into P Q [] f h = tt
  All-map_into P Q (x ∷ xs) f h = (f x h.0, All-map_into P Q xs f h.1)

  pub All-update_where :
      (P : A → Type 0) (q : A → Bool) (f : A → A) (xs : List A)
      → ((x : A) → P x → P (f x))
      → All P xs
      → All P (update_where q f xs)
  All-update_where P q f [] k h = tt
  All-update_where P q f (x ∷ xs) k h = elim (Bool-cases (q x)) [
    | inl yes_q ↦ rw yes_q (k x h.0, All-update_where P q f xs k h.1)
    | inr no_q ↦ rw no_q (h.0, All-update_where P q f xs k h.1)
  ]
