-- ===== src/Common/Limits.antt =====
-- What a `LIMIT` takes of the rows that an order sorts.
use Prim.Native.Nat.{ℕ, zero, suc, min}
use mathlib.Core.Path.{◌≡◌, ap, ◌∙◌}
use mathlib.Core.Logic.{◌⊎◌, inl, inr}
use mathlib.Core.Bool.{Bool, true, false}
use mathlib.Core.List.{List, [], ◌∷◌, ◌++◌, reverse, reverse-cons, Memᴰ}
use mathlib.Core.List.Memᴰ
use sdd_hoffy.Common.Lists.{All, All-append, All-take, length, take, keep}
use sdd_hoffy.Common.Sorting.{
  Ordered, sort_by, length-sort_by, All-sort_by, Ordered-sort_by, Memᴰ-sort_by,
}
use sdd_hoffy.Common.Rows.{
  All-Memᴰ, length-take, Memᴰ-keep, length-reverse, All-reverse, Memᴰ-reverse, All-itself,
  kept_passed,
}

module _ {ℓ} {A : Type ℓ} (before : A → A → Bool) where
  pub Ordered-take : (n : ℕ) (xs : List A) → Ordered before xs → Ordered before (take n xs)
  Ordered-take zero xs h = tt
  Ordered-take (suc n) [] h = tt
  Ordered-take (suc n) (x ∷ xs) h =
      (All-take (λ y. before x y ≡ true) n xs h.0, Ordered-take n xs h.1)

  -- What a limit leaves out comes after all that it takes.
  pub Memᴰ-take :
      (n : ℕ) (xs : List A) (z : A)
      → Ordered before xs
      → Memᴰ z xs
      → Memᴰ z (take n xs) ⊎ All (λ y. before y z ≡ true) (take n xs)
  Memᴰ-take zero xs z h m = inr tt
  Memᴰ-take (suc n) [] z h m = inr tt
  Memᴰ-take (suc n) (x ∷ xs) z h m = elim (Memᴰ.cases_cons m) [
    | inl same ↦ inl (Memᴰ.head same)
    | inr later ↦ elim (Memᴰ-take n xs z h.1 later) [
      | inl taken ↦ inl (Memᴰ.tail taken)
      | inr past ↦ inr (All-Memᴰ (λ y. before x y ≡ true) xs z h.0 later, past)
    ]
  ]

module _ {ℓ} {A : Type ℓ} (before : A → A → Bool) where
  Ordered-append :
      (xs : List A) (z : A)
      → Ordered before xs
      → All (λ x. before x z ≡ true) xs
      → Ordered before (xs ++ (z ∷ []))
  Ordered-append [] z h hs = (tt, tt)
  Ordered-append (x ∷ xs) z h hs =
      (All-append (λ y. before x y ≡ true) xs (z ∷ []) h.0 (hs.0, tt), Ordered-append xs z h.1 hs.1)

  -- What stands in the opposite order is in order from its end.
  pub Ordered-reverse : (xs : List A) → Ordered (λ x y. before y x) xs → Ordered before (reverse xs)
  Ordered-reverse [] h = tt
  Ordered-reverse (x ∷ xs) h = rw (reverse-cons x xs) (
      Ordered-append (reverse xs) x (Ordered-reverse xs h.1)
        (All-reverse (λ y. before y x ≡ true) xs h.0))

-- The rows that a limit leaves of those that pass a test: rows of the table that pass it, in an
-- order, as many as there are up to the limit, and none left out that is nearer than those shown.
pub record IsLimited {ℓ} {A : Type ℓ} (order nearer : A → A → Bool) (p : A → Bool) (limit : ℕ)
    (rows shown : List A) : Type ℓ where
  pub passed : All (λ x. Memᴰ x rows × (p x ≡ true)) shown
  pub in_order : Ordered order shown
  pub as_many : length shown ≡ min limit (length (keep p rows))
  pub nearest :
      (x : A) → Memᴰ x rows → p x ≡ true → Memᴰ x shown ⊎ All (λ y. nearer y x ≡ true) shown

module _ {ℓ} {A : Type ℓ} where
  -- `WHERE … ORDER BY … LIMIT`
  pub sort_by-IsLimited :
      (before : A → A → Bool) (p : A → Bool) (limit : ℕ) (rows : List A)
      → ((x y : A) → before x y ≡ false → before y x ≡ true)
      → ((x y z : A) → before x y ≡ true → before y z ≡ true → before x z ≡ true)
      → IsLimited before before p limit rows (take limit (sort_by before (keep p rows)))
  sort_by-IsLimited before p limit rows total trans =
      let sorted = Ordered-sort_by before total trans (keep p rows) in
      record {
        passed =
            All-take (λ x. Memᴰ x rows × (p x ≡ true)) limit (sort_by before (keep p rows))
              (All-sort_by before (λ x. Memᴰ x rows × (p x ≡ true)) (keep p rows)
                (kept_passed p rows rows (All-itself rows)));
        in_order = Ordered-take before limit (sort_by before (keep p rows)) sorted;
        as_many =
            length-take limit (sort_by before (keep p rows))
            ∙ ap (min limit) (length-sort_by before (keep p rows));
        nearest = λ x m h.
            Memᴰ-take before limit (sort_by before (keep p rows)) x sorted
              (Memᴰ-sort_by before x (keep p rows) (Memᴰ-keep p x rows h m));
      }

  -- The same rows from the last to the first.
  pub reverse-IsLimited :
      (order nearer : A → A → Bool) (p : A → Bool) (limit : ℕ) (rows shown : List A)
      → IsLimited (λ x y. order y x) nearer p limit rows shown
      → IsLimited order nearer p limit rows (reverse shown)
  reverse-IsLimited order nearer p limit rows shown k = record {
    passed = All-reverse (λ x. Memᴰ x rows × (p x ≡ true)) shown k.passed;
    in_order = Ordered-reverse order shown k.in_order;
    as_many = length-reverse shown ∙ k.as_many;
    nearest = λ x m h. elim (k.nearest x m h) [
      | inl taken ↦ inl (Memᴰ-reverse x shown taken)
      | inr past ↦ inr (All-reverse (λ y. nearer y x ≡ true) shown past)
    ];
  }
