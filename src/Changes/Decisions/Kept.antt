-- ===== src/Changes/Decisions/Kept.antt =====
-- internal/tools/adr.go: a new decision leaves the files of the others.
use mathlib.Core.Path.{subst}
use sdd_hoffy.Common.{
  String, ℕ, ◌<◌, ◌≡◌, ◌⊎◌, inl, inr, refl, sym, ap, List, [], ◌∷◌, ◌++◌, Option, none, some, Bool,
  true, false, ◌==◌, text_eq, ==_iff, All, Bool-cases, if◌then◌else◌,
}
use sdd_hoffy.Common.Result.{Result, ok, err}
use sdd_hoffy.Common.Text.{Text, codes}
use sdd_hoffy.Changes.Types.{ChangeRecord}
use sdd_hoffy.Changes.Store.{FileStore, save, load_active}
use sdd_hoffy.Changes.Decisions.{
  AdrEntry, AdrError, AdrFaults, AdrRequest, Decisions, mkdir_failed, next_adr_number, padded,
  adr_filename, slugify_title, adr_content, check_adr, write_entry, after, saved_link, linked,
  written_as, or_left, recorded, record_adr, if_checked, handle_adr,
}
use sdd_hoffy.Changes.Decisions.Numbers.{Apart, next_adr_number-fresh}

-- The entries are the same, or there is one more file at the end.
abbrev pub IsGrown : List AdrEntry → Text → List AdrEntry → Type 0
IsGrown es name more =
    (more ≡ es)
    ⊎ ((content : Text) × (more ≡ es ++ (record { name = name; content = some content } ∷ [])))

-- Where no file has the name, a write appends, or fails on a directory.
data Written (es : List AdrEntry) (name content : Text) : Option (List AdrEntry) → Type 0 where
  stopped : Written es name content none
  appended :
      Written es name content (some (es ++ (record { name = name; content = some content } ∷ [])))

later-Written :
    (e : AdrEntry) (es : List AdrEntry) (name content : Text) (result : Option (List AdrEntry))
    → Written es name content result
    → Written (e ∷ es) name content (after e result)
later-Written e es name content none stopped = stopped
later-Written e es name content (some more) appended = appended

write_entry-Written :
    (name content : Text) (es : List AdrEntry)
    → All (Apart name) es
    → Written es name content (write_entry name content es)
unfolding write_entry
write_entry-Written name content [] h = appended
write_entry-Written name content (e ∷ es) (inl folder, h) = elim (Bool-cases (e.name == name)) [
  | inl same ↦ rw (same, folder) stopped
  | inr other ↦ rw other (later-Written e es name content _ (write_entry-Written name content es h))
]
write_entry-Written name content (e ∷ es) (inr apart, h) = elim (Bool-cases (e.name == name)) [
  | inl same ↦ absurd (apart ((==_iff e.name name).0 same))
  | inr other ↦ rw other (later-Written e es name content _ (write_entry-Written name content es h))
]

linked-adrs :
    (now : String) (io : AdrFaults) (id : Text) (active : Option ChangeRecord) (d : Decisions)
    → (linked now io id active d).0.adrs ≡ d.adrs
linked-adrs now io id none d = refl
linked-adrs now io id (some c) d =
    saved_adrs (save now io.store (record c { adrs = c.adrs ++ (id ∷ []) }) d.store)
  where
    saved_adrs :
        {E : Type 0} (x : FileStore × Result E ChangeRecord) → (saved_link id d x).0.adrs ≡ d.adrs
    saved_adrs (store, err e) = refl
    saved_adrs (store, ok c') = refl

written_as-IsGrown :
    (now : String) (io : AdrFaults) (id : Text) (active : Option ChangeRecord) (d : Decisions)
    (fault : Option Text) (name content : Text) (result : Option (List AdrEntry))
    → Written d.adrs name content result
    → IsGrown d.adrs name (written_as now io id active d fault result).0.adrs
written_as-IsGrown now io id active d fault name content none w = inl refl
written_as-IsGrown now io id active d none name content (some more) appended =
    inr (content, linked-adrs now io id active (record d { adrs = more }))
written_as-IsGrown now io id active d (some left) name content (some more) appended =
    inr (content, refl)

recorded-IsGrown :
    {E : Type 0} (now : String) (io : AdrFaults) (r : AdrRequest) (d : Decisions) (n : ℕ)
    (active : Result E (Option ChangeRecord))
    → All (Apart (adr_filename n (slugify_title r.title))) d.adrs
    → IsGrown d.adrs (adr_filename n (slugify_title r.title)) (recorded now io r d n active).0.adrs
recorded-IsGrown now io r d n (err e) apart = inl refl
recorded-IsGrown now io r d n (ok active) apart =
    let id = codes "ADR-" ++ padded n in
    let name = adr_filename n (slugify_title r.title) in
    let content = or_left io.write (adr_content id r active) in
    written_as-IsGrown now io id active d io.write name content (write_entry name content d.adrs)
      (write_entry-Written name content d.adrs apart)

record_adr-IsGrown :
    (now : String) (io : AdrFaults) (r : AdrRequest) (d : Decisions) (n : ℕ)
    → n ≡ next_adr_number io.unreadable d.adrs
    → All (Apart (adr_filename n (slugify_title r.title))) d.adrs
    → IsGrown d.adrs (adr_filename n (slugify_title r.title)) (record_adr now io r d).0.adrs
unfolding record_adr
record_adr-IsGrown now io r d n same apart =
    let active = load_active io.store d.store in
    let name = adr_filename n (slugify_title r.title) in
    subst (λ k. IsGrown d.adrs name (recorded now io r d k active).0.adrs) same
      (recorded-IsGrown now io r d n active apart)

checked-IsGrown :
    (d : Decisions) (name : Text) (c : Result AdrError (Unit {0}))
    (rest : Decisions × Result AdrError Text)
    → IsGrown d.adrs name rest.0.adrs
    → IsGrown d.adrs name (if_checked d c rest).0.adrs
checked-IsGrown d name (err e) rest g = inl refl
checked-IsGrown d name (ok u) rest g = g

made-IsGrown :
    (d : Decisions) (name : Text) (fails : Bool) (rest : Decisions × Result AdrError Text)
    → IsGrown d.adrs name rest.0.adrs
    → IsGrown d.adrs name (if fails then (d, err mkdir_failed) else rest).0.adrs
made-IsGrown d name true rest g = inl refl
made-IsGrown d name false rest g = g

-- A call of the tool for decisions changes no file of an earlier one: the entries stay as they are, or
-- one file comes to them, with the next number in its name, whatever fails: if the directory can be read
-- and the next number has at most three digits.
pub handle_adr-IsGrown :
    (now : String) (io : AdrFaults) (r : AdrRequest) (d : Decisions)
    → io.unreadable ≡ false
    → next_adr_number false d.adrs < 1000
    → IsGrown d.adrs
        (adr_filename (next_adr_number false d.adrs) (slugify_title r.title))
        (handle_adr now io r d).0.adrs
unfolding handle_adr
handle_adr-IsGrown now io r d readable small =
    let n = next_adr_number false d.adrs in
    let name = adr_filename n (slugify_title r.title) in
    checked-IsGrown d name (check_adr r) _ (
      made-IsGrown d name io.mkdir (record_adr now io r d) (
        record_adr-IsGrown now io r d n (ap (λ b. next_adr_number b d.adrs) (sym readable))
          (next_adr_number-fresh d.adrs (slugify_title r.title) small)))
