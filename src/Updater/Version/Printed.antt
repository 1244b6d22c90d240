-- ===== src/Updater/Version/Printed.antt =====
-- internal/updater/updater.go: reading back the versions that are printed as three decimal numbers.
use sdd_hoffy.Common.{
  ℕ, ◌+◌, ◌-◌, ◌*◌, ◌<◌, ◌≤◌, ◌≡◌, ◌⊎◌, ◌↔◌, inl, inr, refl, ap, ◌∙◌, List, [], ◌∷◌, ◌++◌, true,
  false, ◌==◌, nat_beq, text_eq, nat_eq, ==_iff, All, ltb, arith, Bool-cases, if◌then◌else◌,
}
use sdd_hoffy.Common.Text.{Text, codes, is_empty, split}
use sdd_hoffy.Changes.Decimal.{decimal, value, value-decimal, IsDigit, decimal-IsDigit}
use sdd_hoffy.Updater.Version.{
  word, less_int, parse_digits, parse_int_safe, pad, newer_parts, is_newer,
}

value-le : (acc : ℕ) (s : Text) → acc ≤ value acc s
unfolding value
value-le acc [] = omega arith
value-le acc (c ∷ s) = omega (arith, value-le (acc * 10 + (c - 48)) s)

parse_digits-value :
    (acc : ℕ) (s : Text)
    → All IsDigit s
    → value acc s < 9223372036854775808
    → parse_digits acc s ≡ value acc s
unfolding parse_digits value
parse_digits-value acc [] d h = refl
parse_digits-value acc (c ∷ s) (d, ds) h =
    let fits : word (acc * 10 + (c - 48)) ≡ acc * 10 + (c - 48) =
      omega (arith, value-le (acc * 10 + (c - 48)) s, h) in
    rw fits (ground (arith, parse_digits-value (acc * 10 + (c - 48)) s ds h))

-- A number below 2 ^ 63 is read back from its decimal digits by `parseIntSafe`.
parse_int_safe-decimal : (n : ℕ) → n < 9223372036854775808 → parse_int_safe (decimal n) ≡ n
unfolding parse_int_safe
parse_int_safe-decimal n h =
    let back = value-decimal n in
    parse_digits-value 0 (decimal n) (decimal-IsDigit n) (rw back h) ∙ back

split_parts : (s : Text) → (part : Text) × (parts : List Text) × (split b'.' s ≡ part ∷ parts)
unfolding split
split_parts [] = ([], [], refl)
split_parts (c ∷ s) =
    let (part, parts, e) = split_parts s in
    elim (Bool-cases (nat_beq c b'.')) [
      | inl dot ↦ ([], part ∷ parts, rw (e, dot) refl)
      | inr other ↦ (c ∷ part, parts, rw (e, other) refl)
    ]

no_dot : (c : ℕ) → IsDigit c → nat_beq c b'.' ≡ false
no_dot c d = elim (Bool-cases (nat_beq c b'.')) [
  | inl dot ↦ absurd (let e = (==_iff c b'.').0 dot in omega (arith, d, e))
  | inr other ↦ other
]

split-dot : (a rest : Text) → All IsDigit a → split b'.' (a ++ (b'.' ∷ rest)) ≡ a ∷ split b'.' rest
unfolding split
split-dot [] rest d = let (part, parts, e) = split_parts rest in rw e refl
split-dot (c ∷ a) rest (d, ds) = rw (split-dot a rest ds, no_dot c d) refl

split-IsDigit : (a : Text) → All IsDigit a → split b'.' a ≡ a ∷ []
unfolding split
split-IsDigit [] d = refl
split-IsDigit (c ∷ a) (d, ds) = rw (split-IsDigit a ds, no_dot c d) refl

-- "major.minor.patch"
abbrev pub version : ℕ → ℕ → ℕ → Text
version major minor patch = decimal major ++ (b'.' ∷ (decimal minor ++ (b'.' ∷ decimal patch)))

split-version :
    (a b c : ℕ) → pad 3 (split b'.' (version a b c)) ≡ decimal a ∷ decimal b ∷ decimal c ∷ []
unfolding pad
split-version a b c =
    rw
      (
        split-dot (decimal a) (decimal b ++ (b'.' ∷ decimal c)) (decimal-IsDigit a),
        split-dot (decimal b) (decimal c) (decimal-IsDigit b),
        split-IsDigit (decimal c) (decimal-IsDigit c),
      )
      refl

-- Later in the order of the three numbers.
abbrev pub IsLater : ℕ → ℕ → ℕ → ℕ → ℕ → ℕ → Type 0
IsLater a b c x y z = (a < x) ⊎ ((a ≡ x) × ((b < y) ⊎ ((b ≡ y) × (c < z))))

abbrev pub Small : ℕ → Type 0
Small n = n < 9223372036854775808

less_int-Small : (a b : ℕ) → Small a → Small b → less_int a b ≡ ltb a b
less_int-Small a b ha hb = ground arith

-- A dot stands in a version, so it is not empty; it starts with no letter, so it is not "dev".
not_empty : (a rest : Text) → is_empty (a ++ (b'.' ∷ rest)) ≡ false
not_empty [] rest = refl
not_empty (c ∷ a) rest = refl

first : Text → ℕ
first [] = 0
first (c ∷ s) = c

first_le : (a rest : Text) → All IsDigit a → first (a ++ (b'.' ∷ rest)) ≤ 57
unfolding first
first_le [] rest d = omega arith
first_le (c ∷ a) rest (d, ds) = d.1

not_dev : (a rest : Text) → All IsDigit a → ((a ++ (b'.' ∷ rest)) == codes "dev") ≡ false
unfolding first
not_dev a rest d = elim (Bool-cases ((a ++ (b'.' ∷ rest)) == codes "dev")) [
  | inl dev ↦ absurd (
      let same : first (a ++ (b'.' ∷ rest)) ≡ first (codes "dev") =
        ap first ((==_iff (a ++ (b'.' ∷ rest)) (codes "dev")).0 dev) in
      let low = first_le a rest d in not_low (rw same at low))
  | inr other ↦ other
]
  where
    not_low : ¬ (first (codes "dev") ≤ 57)
    not_low h = omega (arith, h)

newer_three :
    (a b c x y z : ℕ)
    → Small a
    → Small b
    → Small c
    → Small x
    → Small y
    → Small z
    → newer_parts 3
        (decimal a ∷ decimal b ∷ decimal c ∷ [])
        (decimal x ∷ decimal y ∷ decimal z ∷ [])
      ≡ (if ltb a x
          then true
          else if ltb x a
          then false
          else if ltb b y
          then true
          else if ltb y b
          then false
          else if ltb c z
          then true
          else if ltb z c
          then false
          else false)
unfolding newer_parts
newer_three a b c x y z ha hb hc hx hy hz =
    rw
      (
        parse_int_safe-decimal a ha,
        parse_int_safe-decimal b hb,
        parse_int_safe-decimal c hc,
        parse_int_safe-decimal x hx,
        parse_int_safe-decimal y hy,
        parse_int_safe-decimal z hz,
        less_int-Small a x ha hx,
        less_int-Small x a hx ha,
        less_int-Small b y hb hy,
        less_int-Small y b hy hb,
        less_int-Small c z hc hz,
        less_int-Small z c hz hc,
      )
      refl

order_iff :
    (a b c x y z : ℕ)
    → ((if ltb a x
          then true
          else if ltb x a
          then false
          else if ltb b y
          then true
          else if ltb y b
          then false
          else if ltb c z
          then true
          else if ltb z c
          then false
          else false)
        ≡ true)
      ↔ IsLater a b c x y z
order_iff a b c x y z = ((λ h. ground arith), (λ h. ground arith))

-- On versions that are printed as three numbers below 2 ^ 63, `isNewer` is the order of the numbers.
pub is_newer-version :
    (a b c x y z : ℕ)
    → Small a
    → Small b
    → Small c
    → Small x
    → Small y
    → Small z
    → (is_newer (version a b c) (version x y z) ≡ true) ↔ IsLater a b c x y z
unfolding is_newer
is_newer-version a b c x y z ha hb hc hx hy hz =
    rw
      (
        not_empty (decimal a) (decimal b ++ (b'.' ∷ decimal c)),
        not_empty (decimal x) (decimal y ++ (b'.' ∷ decimal z)),
        not_dev (decimal a) (decimal b ++ (b'.' ∷ decimal c)) (decimal-IsDigit a),
        split-version a b c,
        split-version x y z,
        newer_three a b c x y z ha hb hc hx hy hz,
      )
      (order_iff a b c x y z)
