-- ===== src/Memory/Detail.antt =====
-- internal/memory/detail_level.go: levels of detail, estimates of tokens, and the footers of answers. A
-- limit or a count below 0 is not modelled.
use sdd_hoffy.Common.{
  ℕ, zero, suc, ◌+◌, ◌-◌, ◌/◌, ◌%◌, String, List, [], ◌∷◌, ◌++◌, Bool, true, false, ◌&&◌, ◌||◌,
  ◌==◌, nat_eq, string_eq, ltb, leb, length, if◌then◌else◌,
}
use sdd_hoffy.Common.Text.{Text, codes}
use sdd_hoffy.Changes.Decimal.{decimal}
pub mod Thousands

-- The signs 📊, 📏 and ⚡ in UTF-8
abbrev chart_sign : Text
chart_sign = 240 ∷ 159 ∷ 147 ∷ 138 ∷ []

abbrev ruler_sign : Text
ruler_sign = 240 ∷ 159 ∷ 147 ∷ 143 ∷ []

abbrev flash_sign : Text
flash_sign = 226 ∷ 154 ∷ 161 ∷ []

abbrev pub detail_level_values : List String
detail_level_values = "summary" ∷ "standard" ∷ "full" ∷ []

unfoldable pub parse_detail_level : String → String
parse_detail_level s = if s == "summary" || s == "full" then s else "standard"

unfoldable showing_of : ℕ → ℕ → Text → Text
unfolding decimal
showing_of showing total rest =
    codes "\n"
    ++ (chart_sign
        ++ (codes " Showing " ++ (decimal showing ++ (codes " of " ++ (decimal total ++ rest)))))

unfoldable pub navigation_hint : ℕ → ℕ → String → Text
unfolding showing_of
navigation_hint showing total hint =
    if total == 0 || leb total showing
    then []
    else if hint == ""
    then showing_of showing total (codes ".")
    else showing_of showing total (codes ". " ++ codes hint)

-- A quarter of the bytes, and at least 1 for a text that is not empty.
unfoldable pub estimate_tokens : Text → ℕ
estimate_tokens text =
    if length text == 0 then 0 else if length text / 4 == 0 then 1 else length text / 4

-- The loop of `formatNumber` over the digits, from the digit at `i`.
unfoldable pub insert_commas : ℕ → ℕ → Text → Text
insert_commas i len [] = []
insert_commas i len (c ∷ s) =
    let rest = insert_commas (suc i) len s in
    if ltb 0 i && (len - i) % 3 == 0 then b',' ∷ c ∷ rest else c ∷ rest

unfoldable pub format_number : ℕ → Text
unfolding decimal insert_commas
format_number n = if ltb n 1000 then decimal n else insert_commas 0 (length (decimal n)) (decimal n)

unfoldable pub token_footer : ℕ → Text
unfolding format_number
token_footer tokens =
    codes "\n" ++ (ruler_sign ++ (codes " ~" ++ (format_number tokens ++ codes " tokens")))

unfoldable pub budget_footer : ℕ → ℕ → ℕ → ℕ → Text
unfolding format_number
budget_footer used budget shown total =
    codes "\n"
    ++ (flash_sign
        ++ (codes " Budget: ~"
            ++ (format_number used
                ++ (codes "/"
                    ++ (format_number budget
                        ++ (codes " tokens used. "
                            ++ (decimal shown
                                ++ (codes " of "
                                    ++ (decimal total
                                        ++ codes
                                            " items shown. Increase max_tokens or use detail_level=summary for more.")))))))))
