-- ===== src/Changes/Store.antt =====
-- internal/changes/store.go: the file store of the changes. The two directories docs/changes and
-- docs/history are lists of entries in the order of `os.ReadDir`, which sorts by name. The document
-- change.json is the record that `encoding/json` reads back from it. What the file system may refuse
-- is an argument, `Faults`; a check whether a file exists is taken to answer.
use sdd_hoffy.Common.{
  String, ℕ, zero, suc, ◌+◌, List, [], ◌∷◌, ◌++◌, Option, none, some, Bool, true, false, ◌||◌, ◌==◌,
  string_eq, text_eq, length, ltb, if◌then◌else◌,
}
use sdd_hoffy.Common.Result.{Result, ok, err}
use sdd_hoffy.Common.Text.{Text}
use sdd_hoffy.Changes.Decimal.{decimal}
use sdd_hoffy.Changes.Types.{
  ChangeRecord, Error, not_found, read_failed, read_dir_failed, unparsable, archive_active,
  in_history, mkdir_failed, write_failed, rename_failed, diverges,
}
pub mod Entries
pub mod FreeId
pub mod Laws
pub mod Sound
pub mod Kept
pub mod Archived

-- What a directory of a change holds as its change.json.
pub data Config : Type 0 where
  absent corrupt : Config
  config : ChangeRecord → Config

pub data Entry : Type 0 where
  file : Entry
  folder : Config → Entry

abbrev pub Listing : Type 0
Listing = List (Text × Entry)

pub record FileStore : Type 0 where
  pub changes : Listing
  pub history : Listing

-- How writing change.json fails: the file cannot be opened, or it is left torn (a strict prefix of
-- the document, which does not parse), or the error comes after all of it is written.
pub data WriteFault : Type 0 where
  refused torn late : WriteFault

-- How making a new change's directory fails: nothing is made, or only the directory inside it is not.
pub data MkdirFault : Type 0 where
  unmade partial : MkdirFault

-- Which reads of a directory of changes fail: that of its list, and that of the change.json under a
-- name.
pub record ReadFaults : Type 0 where
  pub dir : Bool
  pub document : Text → Bool

-- Which calls to the file system fail: the making of the parent directory (docs/changes in Create,
-- docs/history in Archive), that of a new change's directory, which may leave the directory made, and
-- that of the directory in `writeConfig`, before the write.
pub record Faults : Type 0 where
  pub reads : ReadFaults
  pub history_reads : ReadFaults
  pub mkdir : Bool
  pub mkdir_change : Option MkdirFault
  pub mkdir_config : Bool
  pub write : Option WriteFault
  pub stage_file : Bool
  pub rename : Bool

-- The order of names in `os.ReadDir`: bytewise.
unfoldable pub name_lt : Text → Text → Bool
name_lt s [] = false
name_lt [] (d ∷ t) = true
name_lt (c ∷ s) (d ∷ t) = if ltb c d then true else if ltb d c then false else name_lt s t

unfoldable pub entry : Listing → Text → Option Entry
entry [] name = none
entry ((n, e) ∷ l) name = if n == name then some e else entry l name

unfoldable pub remove_entry : Text → Listing → Listing
remove_entry name [] = []
remove_entry name ((n, d) ∷ l) =
    let rest = remove_entry name l in if n == name then rest else (n, d) ∷ rest

-- A new entry stands where the order of names puts it.
unfoldable pub insert_entry : Text → Entry → Listing → Listing
unfolding name_lt
insert_entry name e [] = (name, e) ∷ []
insert_entry name e ((n, d) ∷ l) =
    let rest = (n, d) ∷ insert_entry name e l in
    if name_lt name n then (name, e) ∷ (n, d) ∷ l else rest

-- A replaced entry keeps its place, since names are unique and the order is theirs.
unfoldable pub set_entry : Text → Entry → Listing → Listing
unfolding remove_entry insert_entry
set_entry name e l = insert_entry name e (remove_entry name l)

abbrev pub exists : Option Entry → Bool
exists none = false
exists (some e) = true

abbrev read_config : Option Entry → Result Error ChangeRecord
read_config none = err not_found
read_config (some file) = err read_failed
read_config (some (folder absent)) = err not_found
read_config (some (folder corrupt)) = err unparsable
read_config (some (folder (config c))) = ok c

unfoldable pub load : Faults → Text → FileStore → Result Error ChangeRecord
load io change_id st =
    if io.reads.document change_id
    then err read_failed
    else read_config (entry st.changes change_id)

abbrev pub is_active : ChangeRecord → Bool
is_active c = c.status == "active"

-- The loop of `LoadActive`: entries that are no directories or cannot be read are skipped.
unfoldable pub first_active : (Text → Bool) → Listing → Option ChangeRecord
first_active fails [] = none
first_active fails ((n, folder (config c)) ∷ l) =
    let rest = first_active fails l in
    if fails n then rest else if is_active c then some c else rest
first_active fails ((n, e) ∷ l) = first_active fails l

unfoldable pub load_active : Faults → FileStore → Result Error (Option ChangeRecord)
unfolding first_active
load_active io st =
    if io.reads.dir then err read_dir_failed else ok (first_active io.reads.document st.changes)

abbrev pub is_file : Option Entry → Bool
is_file (some file) = true
is_file _ = false

abbrev pub left_by : WriteFault → Option Entry → ChangeRecord → Entry
left_by refused none change = folder absent
left_by refused (some e) change = e
left_by torn old change = folder corrupt
left_by late old change = folder (config change)

-- The error comes back beside the store that is left.
abbrev pub write_outcome :
    Bool → Option WriteFault → ChangeRecord → FileStore → FileStore × Result Error ChangeRecord
write_outcome true fault change st = (st, err mkdir_failed)
write_outcome false none change st =
    (record st { changes = set_entry change.id (folder (config change)) st.changes }, ok change)
write_outcome false (some fault) change st =
    let left = left_by fault (entry st.changes change.id) change in
    (record st { changes = set_entry change.id left st.changes }, err write_failed)

-- `MkdirAll` fails where a file has the name.
unfoldable pub write_config :
    Faults → ChangeRecord → FileStore → FileStore × Result Error ChangeRecord
write_config io change st =
    write_outcome (io.mkdir_config || is_file (entry st.changes change.id)) io.write change st

abbrev pub suffixed : Text → ℕ → Text
suffixed id suffix = id ++ 45 ∷ decimal suffix

-- The `for` loop of `Create`, on fuel.
unfoldable pub free_id : ℕ → Listing → Text → Text → ℕ → Option Text
free_id zero l original candidate suffix = none
free_id (suc fuel) l original candidate suffix =
    let next = free_id fuel l original (suffixed original suffix) (suffix + 1) in
    if exists (entry l candidate) then next else some candidate

-- One round more than there are suffixed names that can be taken.
abbrev pub rounds : Listing → ℕ
rounds l = length l + 2

abbrev with_dir : Text → FileStore → FileStore
with_dir id st = record st { changes = set_entry id (folder absent) st.changes }

abbrev create_in :
    Option MkdirFault → Faults → ChangeRecord → FileStore → FileStore × Result Error ChangeRecord
create_in (some unmade) io change st = (st, err mkdir_failed)
create_in (some partial) io change st = (with_dir change.id st, err mkdir_failed)
create_in none io change st = write_config io change (with_dir change.id st)

-- The directory is made first, then change.json is written in it.
abbrev create_as :
    Faults → ChangeRecord → FileStore → Option Text → FileStore × Result Error ChangeRecord
create_as io change st none = (st, err diverges)
create_as io change st (some id) = create_in io.mkdir_change io (record change { id = id }) st

unfoldable pub create : Faults → ChangeRecord → FileStore → FileStore × Result Error ChangeRecord
unfolding free_id write_config
create io change st =
    if io.mkdir
    then (st, err mkdir_failed)
    else create_as io change st (free_id (rounds st.changes) st.changes change.id change.id 2)

unfoldable pub save :
    String → Faults → ChangeRecord → FileStore → FileStore × Result Error ChangeRecord
unfolding write_config
save now io change st = write_config io (record change { updated_at = now }) st

-- `os.Rename` of the change's directory into the history.
abbrev move_entry : Text → Option Entry → FileStore → FileStore
move_entry id none st = st
move_entry id (some e) st = record {
  changes = remove_entry id st.changes;
  history = set_entry id e st.history;
}

abbrev rename :
    Bool → Text → FileStore × Result Error ChangeRecord → FileStore × Result Error ChangeRecord
rename fails id (st, err e) = (st, err e)
rename fails id (st, ok c) =
    if fails then (st, err rename_failed) else (move_entry id (entry st.changes id) st, ok c)

abbrev archive_loaded :
    String
    → Faults
    → Text
    → FileStore
    → Result Error ChangeRecord
    → FileStore × Result Error ChangeRecord
archive_loaded now io id st (err e) = (st, err e)
archive_loaded now io id st (ok change) =
    if is_active change
    then (st, err archive_active)
    else if io.mkdir
    then (st, err mkdir_failed)
    else if exists (entry st.history id)
    then (st, err in_history)
    else rename io.rename id
        (write_config io (record change { status = "archived"; updated_at = now }) st)

unfoldable pub archive : String → Faults → Text → FileStore → FileStore × Result Error ChangeRecord
unfolding load write_config
archive now io change_id st = archive_loaded now io change_id st (load io change_id st)

-- The records of a directory that can be read, in its order.
unfoldable pub readable : (Text → Bool) → Listing → List ChangeRecord
readable fails [] = []
readable fails ((n, folder (config c)) ∷ l) =
    let rest = readable fails l in if fails n then rest else c ∷ rest
readable fails ((n, e) ∷ l) = readable fails l

abbrev listed : ReadFaults → Listing → List ChangeRecord
listed io l = if io.dir then [] else readable io.document l

unfoldable pub list : Faults → FileStore → List ChangeRecord
unfolding readable
list io st = listed io.reads st.changes ++ listed io.history_reads st.history
