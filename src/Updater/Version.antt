-- ===== src/Updater/Version.antt =====
-- internal/updater/updater.go: versions, their comparison and the name of a release's archive. An `int`
-- is a word of 64 bits in two's complement.
pub mod Printed
pub mod Order
use sdd_hoffy.Common.{
  ℕ, zero, suc, ◌+◌, ◌-◌, ◌*◌, ◌%◌, String, List, [], ◌∷◌, ◌++◌, Bool, true, false, ◌&&◌, ◌||◌,
  ◌==◌, text_eq, nat_eq, string_eq, ltb, leb, if◌then◌else◌,
}
use sdd_hoffy.Common.Text.{Text, codes, is_empty, split}

-- `strings.TrimPrefix(v, "v")`
unfoldable pub normalize_version : Text → Text
normalize_version [] = []
normalize_version (c ∷ s) = if c == b'v' then s else c ∷ s

abbrev pub word : ℕ → ℕ
word n = n % 18446744073709551616

-- `a < b` on words that stand for signed numbers
abbrev pub less_int : ℕ → ℕ → Bool
less_int a b = ltb (word (a + 9223372036854775808)) (word (b + 9223372036854775808))

abbrev is_digit : ℕ → Bool
is_digit c = leb 48 c && leb c 57

-- The loop of `parseIntSafe`, which ends at the first character that is no digit.
unfoldable pub parse_digits : ℕ → Text → ℕ
parse_digits n [] = n
parse_digits n (c ∷ s) =
    let rest = parse_digits (word (n * 10 + (c - 48))) s in if is_digit c then rest else n

unfoldable pub parse_int_safe : Text → ℕ
unfolding parse_digits
parse_int_safe s = parse_digits 0 s

-- `for len(parts) < n { parts = append(parts, "0") }`
unfoldable pub pad : ℕ → List Text → List Text
pad zero parts = parts
pad (suc n) [] = codes "0" ∷ pad n []
pad (suc n) (part ∷ parts) = part ∷ pad n parts

-- The loop over the first `n` parts.
unfoldable pub newer_parts : ℕ → List Text → List Text → Bool
unfolding parse_int_safe
newer_parts (suc n) (current ∷ currents) (latest ∷ latests) =
    let c = parse_int_safe current in
    let l = parse_int_safe latest in
    let rest = newer_parts n currents latests in
    if less_int c l then true else if less_int l c then false else rest
newer_parts _ _ _ = false

unfoldable pub is_newer : Text → Text → Bool
unfolding pad newer_parts split
is_newer current latest =
    if is_empty current || (is_empty latest || current == codes "dev")
    then false
    else newer_parts 3 (pad 3 (split b'.' current)) (pad 3 (split b'.' latest))

-- `buildAssetName`, with the operating system and the architecture as arguments.
unfoldable pub build_asset_name : String → String → Text → Text
build_asset_name os arch version =
    codes "hoofy_"
    ++ (version
        ++ (codes "_"
            ++ (codes os
                ++ (codes "_"
                    ++ (codes arch
                        ++ (codes "." ++ codes (if os == "windows" then "zip" else "tar.gz")))))))
