-- ===== src/Common/Equality.antt =====
-- Equality tests by instances (Go's `==` on integers, strings and byte slices), and a Go map as an
-- association list.
use Prim.Native.Nat.{ℕ}
use Prim.Native.String.{String}
use mathlib.Core.Path.{◌≡◌, refl}
use mathlib.Core.Logic.{◌↔◌}
use mathlib.Core.Bool.{Bool, true, false, ◌&&◌}
use mathlib.Core.Option.{Option, none, some}
use mathlib.Core.List.{List, [], ◌∷◌}
use native.Mathlib.Omega.{arith}
use text.Mathlib.Text.{◌==◌ as str_eq}
use text.Mathlib.TextEquality.{eq_iff}
use sdd_hoffy.Common.Lists.{All}
use sdd_hoffy.Common.Tests.{if◌then◌else◌, nat_beq, nat_beq_iff}

-- A type whose equality a test decides.
pub record Eq {κ} (T : Type κ) : Type κ where
  pub test : T → T → Bool
  pub decides : (s t : T) → (test s t ≡ true) ↔ (s ≡ t)

infix 50 ◌==◌
abbrev pub ◌==◌ {κ} : {T : Type κ} ⦃q : Eq T⦄ (s t : T) → Bool
◌==◌ ⦃q⦄ s t = q.test s t

pub ==_iff {κ} : {T : Type κ} ⦃q : Eq T⦄ (s t : T) → ((s == t) ≡ true) ↔ (s ≡ t)
==_iff ⦃q⦄ s t = q.decides s t

pub ==_refl {κ} : {T : Type κ} ⦃q : Eq T⦄ (t : T) → (t == t) ≡ true
==_refl ⦃q⦄ t = (q.decides t t).1 refl

instance abbrev pub nat_eq : Eq ℕ
nat_eq = record { test = nat_beq; decides = nat_beq_iff }

instance abbrev pub string_eq : Eq String
string_eq = record { test = str_eq; decides = eq_iff }

list_beq : List ℕ → List ℕ → Bool
list_beq [] [] = true
list_beq (x ∷ xs) (y ∷ ys) = nat_beq x y && list_beq xs ys
list_beq _ _ = false

list_beq_refl : (xs : List ℕ) → list_beq xs xs ≡ true
unfolding list_beq
list_beq_refl [] = refl
list_beq_refl (x ∷ xs) = ground (arith, list_beq_refl xs)

list_beq_sound : (xs ys : List ℕ) → list_beq xs ys ≡ true → xs ≡ ys
unfolding list_beq
list_beq_sound [] [] h = refl
list_beq_sound [] (y ∷ ys) h = cc
list_beq_sound (x ∷ xs) [] h = cc
list_beq_sound (x ∷ xs) (y ∷ ys) h = ground (arith, list_beq_sound xs ys)

list_beq_complete : (xs ys : List ℕ) → xs ≡ ys → list_beq xs ys ≡ true
list_beq_complete xs ys e = rw e (list_beq_refl ys)

unfoldable pub text_beq : List ℕ → List ℕ → Bool
unfolding list_beq
text_beq = list_beq

pub text_beq_iff : (xs ys : List ℕ) → (text_beq xs ys ≡ true) ↔ (xs ≡ ys)
unfolding text_beq
text_beq_iff xs ys = (list_beq_sound xs ys, list_beq_complete xs ys)

instance abbrev pub text_eq : Eq (List ℕ)
text_eq = record { test = text_beq; decides = text_beq_iff }

-- A Go map from strings: a missing key reads as `none`, a write replaces or adds.
module _ {ℓ} {V : Type ℓ} where
  unfoldable pub get : List (String × V) → String → Option V
  get [] k = none
  get ((j, v) ∷ m) k = if j == k then some v else get m k

  unfoldable pub put : String → V → List (String × V) → List (String × V)
  put k v [] = (k, v) ∷ []
  put k v ((j, w) ∷ m) = if j == k then (k, v) ∷ m else (j, w) ∷ put k v m

  pub get-put :
      (k j : String) (v : V) (m : List (String × V))
      → get (put k v m) j ≡ (if k == j then some v else get m j)
  unfolding get put
  get-put k j v [] = refl
  get-put k j v ((i, w) ∷ m) = ground (arith, eq_iff k j, eq_iff i k, eq_iff i j, get-put k j v m)

-- No string occurs twice.
abbrev pub Distinct : List String → Type 0
Distinct [] = Unit
Distinct (x ∷ xs) = All (λ y. (x == y) ≡ false) xs × Distinct xs
