-- ===== src/Changes/Decisions.antt =====
-- internal/tools/adr.go: decisions, their numbers and their files in docs/adrs, and the link from the
-- active change. Titles are ASCII; the Markdown answer and the notice to the memory are left out.
use sdd_hoffy.Common.{
  ℕ, zero, suc, ◌+◌, ◌-◌, ◌*◌, String, List, [], ◌∷◌, ◌++◌, Option, none, some, Bool, true, false,
  not, ◌&&◌, ◌||◌, ◌==◌, nat_eq, text_eq, string_eq, ltb, leb, length, take, if◌then◌else◌,
}
use sdd_hoffy.Common.Result.{Result, ok, err, ◌>>=◌, ◌>>◌, require}
use sdd_hoffy.Common.Text.{Text, codes, is_empty, trim_space, trim_left, trim_right, to_lower}
use sdd_hoffy.Changes.Decimal.{decimal}
use sdd_hoffy.Changes.Slug.{is_alnum, is_hyphen, last_hyphen}
use sdd_hoffy.Changes.Types.{ChangeRecord}
use sdd_hoffy.Changes.Store.{FileStore, Faults, load_active, save}
pub mod Numbers
pub mod Kept

pub data AdrError : Type 0 where
  field_required : String → AdrError
  invalid_status mkdir_failed load_failed write_failed save_failed : AdrError

pub record AdrRequest : Type 0 where
  pub title : Text
  pub context : Text
  pub decision : Text
  pub rationale : Text
  pub alternatives_rejected : Text
  pub status : String

-- An entry of docs/adrs: its name, and its text if it is no directory.
pub record AdrEntry : Type 0 where
  pub name : Text
  pub content : Option Text

pub record Decisions : Type 0 where
  pub store : FileStore
  pub adrs : List AdrEntry

-- Which calls fail; `write` is the text that a failed write leaves.
pub record AdrFaults : Type 0 where
  pub mkdir : Bool
  pub unreadable : Bool
  pub write : Option Text
  pub store : Faults

abbrev is_digit : ℕ → Bool
is_digit c = leb 48 c && leb c 57

-- The pattern `^(\d{3})-` and `strconv.Atoi`
unfoldable pub adr_number : Text → Option ℕ
adr_number (a ∷ b ∷ c ∷ d ∷ s) =
    if is_digit a && (is_digit b && (is_digit c && d == b'-'))
    then some ((a - 48) * 100 + (b - 48) * 10 + (c - 48))
    else none
adr_number _ = none

abbrev pub raised : ℕ → Option ℕ → ℕ
raised highest none = highest
raised highest (some n) = if ltb highest n then n else highest

abbrev pub number_of : AdrEntry → Option ℕ
number_of e = elim e.content [ none ↦ none | some s ↦ adr_number e.name ]

unfoldable pub highest_number : ℕ → List AdrEntry → ℕ
unfolding adr_number
highest_number highest [] = highest
highest_number highest (e ∷ es) = highest_number (raised highest (number_of e)) es

unfoldable pub next_adr_number : Bool → List AdrEntry → ℕ
unfolding highest_number
next_adr_number unreadable entries = if unreadable then 1 else highest_number 0 entries + 1

-- `%03d`
unfoldable pub padded : ℕ → Text
unfolding decimal
padded n =
    if ltb n 10
    then codes "00" ++ decimal n
    else if ltb n 100
    then codes "0" ++ decimal n
    else decimal n

-- `[^a-z0-9]+` replaced by one hyphen
unfoldable pub hyphenate_title : Bool → Text → Text
unfolding is_alnum
hyphenate_title after [] = []
hyphenate_title after (c ∷ s) =
    let kept = c ∷ hyphenate_title false s in
    let skipped = hyphenate_title true s in
    if is_alnum c then kept else if after then skipped else b'-' ∷ skipped

abbrev cut_title : Text → Option ℕ → Text
cut_title s none = s
cut_title s (some i) = if ltb 30 i then take i s else s

unfoldable pub slugify_title : Text → Text
unfolding to_lower trim_left trim_right hyphenate_title last_hyphen
slugify_title title =
    let s = trim_right is_hyphen (trim_left is_hyphen (hyphenate_title false (to_lower title))) in
    if ltb 60 (length s) then cut_title (take 60 s) (last_hyphen (take 60 s)) else s

abbrev pub adr_filename : ℕ → Text → Text
adr_filename n slug = padded n ++ (b'-' ∷ (slug ++ codes ".md"))

unfoldable pub check_adr : AdrRequest → Result AdrError (Unit {0})
unfolding trim_space
check_adr r = do
  require (not (is_empty (trim_space r.title))) (field_required "title")
  require (not (is_empty (trim_space r.context))) (field_required "context")
  require (not (is_empty (trim_space r.decision))) (field_required "decision")
  require (not (is_empty (trim_space r.rationale))) (field_required "rationale")
  require
      (r.status == "proposed"
        || (r.status == "accepted" || (r.status == "deprecated" || r.status == "superseded")))
      invalid_status

abbrev change_line : Option ChangeRecord → Text
change_line none = []
change_line (some c) = codes "**Change:** `" ++ (c.id ++ codes "`\n\n")

unfoldable pub adr_content : Text → AdrRequest → Option ChangeRecord → Text
adr_content id r active =
    codes "# "
    ++ (r.title
        ++ (codes "\n\n**ID:** "
            ++ (id
                ++ (codes "\n**Status:** "
                    ++ (codes r.status
                        ++ (codes "\n\n"
                            ++ (change_line active
                                ++ (codes "## Context\n\n"
                                    ++ (r.context
                                        ++ (codes "\n\n## Decision\n\n"
                                            ++ (r.decision
                                                ++ (codes "\n\n## Rationale\n\n"
                                                    ++ (r.rationale
                                                        ++ (codes "\n\n"
                                                            ++ (if is_empty r.alternatives_rejected
                                                            then []
                                                            else codes
                                                            "## Alternatives Rejected\n\n"
                                                            ++ (r.alternatives_rejected
                                                            ++ codes "\n"))))))))))))))))

abbrev pub after : AdrEntry → Option (List AdrEntry) → Option (List AdrEntry)
after e none = none
after e (some es) = some (e ∷ es)

abbrev pub replaced : Option Text → Text → Text → List AdrEntry → Option (List AdrEntry)
replaced none name content es = none
replaced (some old) name content es = some (record { name = name; content = some content } ∷ es)

-- A file is written over; a directory of the name makes the write fail.
unfoldable pub write_entry : Text → Text → List AdrEntry → Option (List AdrEntry)
write_entry name content [] = some (record { name = name; content = some content } ∷ [])
write_entry name content (e ∷ es) =
    let later = after e (write_entry name content es) in
    if e.name == name then replaced e.content name content es else later

abbrev pub saved_link :
    {E : Type 0}
    → Text
    → Decisions
    → FileStore × Result E ChangeRecord
    → Decisions × Result AdrError Text
saved_link id d (store, err e) = (record d { store = store }, err save_failed)
saved_link id d (store, ok c) = (record d { store = store }, ok id)

-- The identifier goes to the list of the active change, if there is one.
abbrev pub linked :
    String → AdrFaults → Text → Option ChangeRecord → Decisions → Decisions × Result AdrError Text
linked now io id none d = (d, ok id)
linked now io id (some c) d =
    saved_link id d (save now io.store (record c { adrs = c.adrs ++ (id ∷ []) }) d.store)

-- After the write, with the text that a failed one leaves.
abbrev pub written_as :
    String
    → AdrFaults
    → Text
    → Option ChangeRecord
    → Decisions
    → Option Text
    → Option (List AdrEntry)
    → Decisions × Result AdrError Text
written_as now io id active d fault none = (d, err write_failed)
written_as now io id active d none (some adrs) = linked now io id active (record d { adrs = adrs })
written_as now io id active d (some left) (some adrs) = (record d { adrs = adrs }, err write_failed)

abbrev pub or_left : Option Text → Text → Text
or_left none content = content
or_left (some left) content = left

-- The file is written once the active change is known.
abbrev pub recorded :
    {E : Type 0}
    → String
    → AdrFaults
    → AdrRequest
    → Decisions
    → ℕ
    → Result E (Option ChangeRecord)
    → Decisions × Result AdrError Text
recorded now io r d n (err e) = (d, err load_failed)
recorded now io r d n (ok active) =
    let id = codes "ADR-" ++ padded n in
    let name = adr_filename n (slugify_title r.title) in
    written_as now io id active d io.write
      (write_entry name (or_left io.write (adr_content id r active)) d.adrs)

unfoldable pub record_adr :
    String → AdrFaults → AdrRequest → Decisions → Decisions × Result AdrError Text
unfolding next_adr_number padded slugify_title adr_content write_entry load_active save
record_adr now io r d =
    recorded now io r d (next_adr_number io.unreadable d.adrs) (load_active io.store d.store)

abbrev pub if_checked :
    Decisions
    → Result AdrError (Unit {0})
    → Decisions × Result AdrError Text
    → Decisions × Result AdrError Text
if_checked d (err e) rest = (d, err e)
if_checked d (ok u) rest = rest

unfoldable pub handle_adr :
    String → AdrFaults → AdrRequest → Decisions → Decisions × Result AdrError Text
unfolding check_adr record_adr
handle_adr now io r d =
    if_checked d (check_adr r) (if io.mkdir then (d, err mkdir_failed) else record_adr now io r d)
