-- ===== src/Common/Sorting.antt =====
-- `ORDER BY`: insertion sort by a Boolean order, and what a `LIMIT` takes of the rows it sorts.
use Prim.Native.Nat.{suc}
use mathlib.Core.Path.{◌≡◌, refl, ap, ◌∙◌}
use mathlib.Core.Logic.{inl, inr}
use mathlib.Core.Bool.{Bool, true, false}
use mathlib.Core.List.{List, [], ◌∷◌, Memᴰ}
use mathlib.Core.List.Memᴰ
use native.Mathlib.Omega.{arith}
use sdd_hoffy.Common.Lists.{All, length}
use sdd_hoffy.Common.Tests.{if◌then◌else◌, Bool-cases}

module _ {ℓ} {A : Type ℓ} (before : A → A → Bool) where
  unfoldable pub insert_by : A → List A → List A
  insert_by x [] = x ∷ []
  insert_by x (y ∷ ys) = let rest = insert_by x ys in if before x y then x ∷ y ∷ ys else y ∷ rest

  unfoldable pub sort_by : List A → List A
  unfolding insert_by
  sort_by [] = []
  sort_by (x ∷ xs) = insert_by x (sort_by xs)

  -- No element comes after one that should follow it.
  abbrev pub Ordered : List A → Type 0
  Ordered [] = Unit
  Ordered (x ∷ xs) = All (λ y. before x y ≡ true) xs × Ordered xs

module _ {ℓ} {A : Type ℓ} (before : A → A → Bool) where
  length-insert_by : (x : A) (ys : List A) → length (insert_by before x ys) ≡ suc (length ys)
  unfolding insert_by
  length-insert_by x [] = refl
  length-insert_by x (y ∷ ys) = ground (arith, length-insert_by x ys)

  pub length-sort_by : (xs : List A) → length (sort_by before xs) ≡ length xs
  unfolding sort_by
  length-sort_by [] = refl
  length-sort_by (x ∷ xs) = length-insert_by x (sort_by before xs) ∙ ap suc (length-sort_by xs)

  All-insert_by {κ} :
      (P : A → Type κ) (x : A) (ys : List A) → P x → All P ys → All P (insert_by before x ys)
  unfolding insert_by
  All-insert_by P x [] h hs = (h, tt)
  All-insert_by P x (y ∷ ys) h hs = elim (Bool-cases (before x y)) [
    | inl yes_b ↦ rw yes_b (h, hs)
    | inr no_b ↦ rw no_b (hs.0, All-insert_by P x ys h hs.1)
  ]

  pub All-sort_by {κ} : (P : A → Type κ) (xs : List A) → All P xs → All P (sort_by before xs)
  unfolding sort_by
  All-sort_by P [] h = tt
  All-sort_by P (x ∷ xs) h = All-insert_by P x (sort_by before xs) h.0 (All-sort_by P xs h.1)

module _ {ℓ} {A : Type ℓ} (before : A → A → Bool)
    (total : (x y : A) → before x y ≡ false → before y x ≡ true)
    (trans : (x y z : A) → before x y ≡ true → before y z ≡ true → before x z ≡ true) where
  after_all :
      (x y : A) (ys : List A)
      → before x y ≡ true
      → All (λ z. before y z ≡ true) ys
      → All (λ z. before x z ≡ true) ys
  after_all x y [] h hs = tt
  after_all x y (z ∷ zs) h hs = (trans x y z h hs.0, after_all x y zs h hs.1)

  Ordered-insert_by :
      (x : A) (ys : List A) → Ordered before ys → Ordered before (insert_by before x ys)
  unfolding insert_by
  Ordered-insert_by x [] h = (tt, tt)
  Ordered-insert_by x (y ∷ ys) h = elim (Bool-cases (before x y)) [
    | inl yes_b ↦ rw yes_b ((yes_b, after_all x y ys yes_b h.0), h)
    | inr no_b ↦ rw no_b (
      All-insert_by before (λ z. before y z ≡ true) x ys (total x y no_b) h.0,
      Ordered-insert_by x ys h.1,
    )
  ]

  pub Ordered-sort_by : (xs : List A) → Ordered before (sort_by before xs)
  unfolding sort_by
  Ordered-sort_by [] = tt
  Ordered-sort_by (x ∷ xs) = Ordered-insert_by x (sort_by before xs) (Ordered-sort_by xs)

module _ {ℓ} {A : Type ℓ} (before : A → A → Bool) where
  Memᴰ-insert_by : (z x : A) (ys : List A) → Memᴰ z (x ∷ ys) → Memᴰ z (insert_by before x ys)
  unfolding insert_by
  Memᴰ-insert_by z x [] h = h
  Memᴰ-insert_by z x (y ∷ ys) h = elim (Bool-cases (before x y)) [
    | inl yes_b ↦ rw yes_b h
    | inr no_b ↦ rw no_b (elim (Memᴰ.cases_cons h) [
      | inl same ↦ Memᴰ.tail (Memᴰ-insert_by z x ys (Memᴰ.head same))
      | inr later ↦ elim (Memᴰ.cases_cons later) [
        | inl next ↦ Memᴰ.head next
        | inr rest ↦ Memᴰ.tail (Memᴰ-insert_by z x ys (Memᴰ.tail rest))
      ]
    ])
  ]

  pub Memᴰ-sort_by : (z : A) (xs : List A) → Memᴰ z xs → Memᴰ z (sort_by before xs)
  unfolding sort_by
  Memᴰ-sort_by z [] h = h
  Memᴰ-sort_by z (x ∷ xs) h = Memᴰ-insert_by z x (sort_by before xs) (elim (Memᴰ.cases_cons h) [
    | inl same ↦ Memᴰ.head same
    | inr later ↦ Memᴰ.tail (Memᴰ-sort_by z xs later)
  ])
