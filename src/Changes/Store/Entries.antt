-- ===== src/Changes/Store/Entries.antt =====
-- internal/changes/store.go: reading an entry after a directory has been written.
use sdd_hoffy.Common.{
  ◌≡◌, refl, [], ◌∷◌, none, some, ◌==◌, text_eq, ==_iff, ==_refl, arith, if◌then◌else◌,
}
use sdd_hoffy.Common.Text.{Text}
use sdd_hoffy.Changes.Store.{Entry, Listing, entry, insert_entry, set_entry, remove_entry}

pub entry-remove_entry :
    (name m : Text) (l : Listing)
    → entry (remove_entry name l) m ≡ (if name == m then none else entry l m)
unfolding entry remove_entry
entry-remove_entry name m [] = ground arith
entry-remove_entry name m ((n, d) ∷ l) =
    ground (arith, ==_iff name m, ==_iff n name, ==_iff n m, entry-remove_entry name m l)

pub entry-insert_entry :
    (name m : Text) (e : Entry) (l : Listing)
    → entry l name ≡ none
    → entry (insert_entry name e l) m ≡ (if name == m then some e else entry l m)
unfolding entry insert_entry
entry-insert_entry name m e [] h = refl
entry-insert_entry name m e ((n, d) ∷ l) h =
    ground (arith, ==_iff name m, ==_iff n name, ==_iff n m, entry-insert_entry name m e l)

pub entry-set_entry :
    (name m : Text) (e : Entry) (l : Listing)
    → entry (set_entry name e l) m ≡ (if name == m then some e else entry l m)
unfolding set_entry
entry-set_entry name m e l = ground (
  arith,
  ==_refl name,
  entry-remove_entry name name l,
  entry-remove_entry name m l,
  entry-insert_entry name m e (remove_entry name l),
)
