-- ===== src/Changes/Store/FreeId.antt =====
-- internal/changes/store.go: the loop of `Create` over candidate identifiers.
use sdd_hoffy.Common.{
  ℕ, zero, suc, ◌+◌, ◌<◌, ◌≤◌, ◌≡◌, ◌≢◌, ◌⊎◌, inl, inr, sym, [], ◌∷◌, none, some, true, false, ◌==◌,
  text_eq, ==_iff, length, arith, Bool-cases, Option-cases,
}
use mathlib.Core.Option.{some-injective, some-ne-none}
use mathlib.Core.List.{append_cancel_left}
use sdd_hoffy.Common.Text.{Text}
use sdd_hoffy.Changes.Decimal.{decimal, decimal-injective}
use sdd_hoffy.Changes.Store.{Listing, entry, remove_entry, exists, suffixed, free_id, rounds}
use sdd_hoffy.Changes.Store.Entries.{entry-remove_entry}

suffixed-injective : (id : Text) (m n : ℕ) → suffixed id m ≡ suffixed id n → m ≡ n
suffixed-injective id m n e =
    let same = append_cancel_left id (45 ∷ decimal m) (45 ∷ decimal n) e in
    decimal-injective m n (cc)

length-remove_entry-le : (name : Text) (l : Listing) → length (remove_entry name l) ≤ length l
unfolding remove_entry
length-remove_entry-le name [] = omega arith
length-remove_entry-le name ((n, d) ∷ l) = ground (arith, length-remove_entry-le name l)

length-remove_entry-lt :
    (name : Text) (l : Listing)
    → exists (entry l name) ≡ true
    → length (remove_entry name l) < length l
unfolding remove_entry entry
length-remove_entry-lt name [] h = cc
length-remove_entry-lt name ((n, d) ∷ l) h =
    ground (arith, length-remove_entry-le name l, length-remove_entry-lt name l)

differ : (id : Text) (m n : ℕ) → m ≢ n → (suffixed id m == suffixed id n) ≡ false
differ id m n h = elim (Bool-cases (suffixed id m == suffixed id n)) [
  | inl same ↦
      absurd (h (suffixed-injective id m n ((==_iff (suffixed id m) (suffixed id n)).0 same)))
  | inr other ↦ other
]

still_taken :
    (id : Text) (s n : ℕ) (l : Listing)
    → s ≢ n
    → exists (entry l (suffixed id n)) ≡ true
    → exists (entry (remove_entry (suffixed id s) l) (suffixed id n)) ≡ true
still_taken id s n l ne h =
    rw (entry-remove_entry (suffixed id s) (suffixed id n) l, differ id s n ne) h

-- If `f` suffixes in a row are taken, the directory has at least `f` entries.
pigeonhole :
    (id : Text) (f s : ℕ) (l : Listing)
    → ((i : ℕ) → i < f → exists (entry l (suffixed id (s + i))) ≡ true)
    → f ≤ length l
pigeonhole id zero s l h = omega arith
pigeonhole id (suc f) s l h =
    let shift : (i : ℕ) → s + suc i ≡ suc s + i = λ i. omega arith in
    let here : s + 0 ≡ s = omega arith in
    let rest = pigeonhole id f (suc s) (remove_entry (suffixed id s) l) (λ i lt.
      still_taken id s (suc s + i) l (omega arith) (rw (shift i) at (h (suc i) (omega arith)))) in
    omega (arith, length-remove_entry-lt (suffixed id s) l (rw here at (h 0 (omega arith))))

next_round :
    (fuel : ℕ) (l : Listing) (id candidate : Text) (s : ℕ)
    → free_id (suc fuel) l id candidate s ≡ none
    → (exists (entry l candidate) ≡ true) × (free_id fuel l id (suffixed id s) (s + 1) ≡ none)
unfolding free_id
next_round fuel l id candidate s h = elim (Bool-cases (exists (entry l candidate))) [
  | inl taken ↦ (taken, rw (taken, free_id) at h)
  | inr free ↦ absurd (some-ne-none candidate (rw (free, free_id) at h))
]

-- A search that has found nothing has met a taken name in every round.
all_taken :
    (fuel : ℕ) (l : Listing) (id candidate : Text) (s : ℕ)
    → free_id (suc fuel) l id candidate s ≡ none
    → (i : ℕ) → i < fuel
    → exists (entry l (suffixed id (s + i))) ≡ true
all_taken zero l id candidate s h i lt = elim lt [ ]
all_taken (suc fuel) l id candidate s h zero lt =
    let here : s ≡ s + 0 = omega arith in
    rw here at
      (next_round fuel l id (suffixed id s) (s + 1) (next_round (suc fuel) l id candidate s h).1).0
all_taken (suc fuel) l id candidate s h (suc i) lt =
    let there : s + 1 + i ≡ s + suc i = omega arith in
    rw there at (
      all_taken fuel l id (suffixed id s) (s + 1) (next_round (suc fuel) l id candidate s h).1 i
        (omega arith))

abbrev FoundFrom : Listing → Text → Text → ℕ → Text → Type 0
FoundFrom l id candidate s new =
    (exists (entry l new) ≡ false)
    × ((new ≡ candidate) ⊎ ((n : ℕ) × (s ≤ n) × (new ≡ suffixed id n)))

later :
    (l : Listing) (id candidate : Text) (s : ℕ) (new : Text)
    → FoundFrom l id (suffixed id s) (s + 1) new
    → FoundFrom l id candidate s new
later l id candidate s new (f, inl e) = (f, inr (s, omega arith, e))
later l id candidate s new (f, inr (n, h, e)) = (f, inr (n, omega arith, e))

found :
    (fuel : ℕ) (l : Listing) (id candidate : Text) (s : ℕ) (new : Text)
    → free_id fuel l id candidate s ≡ some new
    → FoundFrom l id candidate s new
unfolding free_id
found zero l id candidate s new h = cc
found (suc fuel) l id candidate s new h = elim (Bool-cases (exists (entry l candidate))) [
  | inl taken ↦
      later l id candidate s new
        (found fuel l id (suffixed id s) (s + 1) new (rw (taken, free_id) at h))
  | inr free ↦
      let e : candidate ≡ new = some-injective _ _ (rw (free, free_id) at h) in
      (rw (← e) free, inl (sym e))
]

abbrev pub IsCandidate : Text → Text → Type 0
IsCandidate id new = (new ≡ id) ⊎ ((n : ℕ) × (2 ≤ n) × (new ≡ suffixed id n))

-- Whatever the directory holds, the search for a free identifier ends within the rounds given, with
-- a name that is not taken: the identifier itself, or the identifier with a suffix from 2 on.
pub free_id_total :
    (l : Listing) (id : Text)
    → (new : Text) × (free_id (rounds l) l id id 2 ≡ some new)
      × (exists (entry l new) ≡ false)
      × IsCandidate id new
free_id_total l id = elim (Option-cases (free_id (rounds l) l id id 2)) [
  | inl none_found ↦
      let enough : rounds l ≡ suc (suc (length l)) = omega arith in
      absurd (
        omega (
          arith,
          pigeonhole id (suc (length l)) 2 l
              (all_taken (suc (length l)) l id id 2 (rw enough at none_found)),
        ))
  | inr (new, e) ↦ let f = found (rounds l) l id id 2 new e in (new, e, f.0, f.1)
]
