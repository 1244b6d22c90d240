-- ===== src/Changes/Store/Kept.antt =====
-- internal/changes/store.go: `Create`, `Archive` and the invariant of the file store.
use mathlib.Core.Bool.{false≢true}
use sdd_hoffy.Common.{
  String, ◌≡◌, ◌≢◌, refl, sym, ◌∙◌, Option, none, some, Bool, true, false, text_eq, ==_iff, arith,
  if◌then◌else◌, Bool-cases, inl, inr,
}
use sdd_hoffy.Common.Result.{Result, ok, err}
use sdd_hoffy.Common.Text.{Text}
use sdd_hoffy.Changes.Types.{ChangeRecord, Error}
use sdd_hoffy.Changes.Store.{
  MkdirFault, unmade, partial, create_in, Entry, folder, absent, FileStore, Faults, entry,
  set_entry, exists, load, load_active, is_active, create, create_as, free_id, rounds, archive,
  write_config, rename, move_entry, archive_loaded,
}
use sdd_hoffy.Changes.Store.Entries.{entry-set_entry}
use sdd_hoffy.Changes.Store.Sound.{
  IsSound, Writable, holds, write_config-IsSound, make_dir-IsSound, remove_entry-IsSound,
  load_active-some, load_active-none, ActiveReads,
}

if-IsSound :
    (b : Bool) (p q : FileStore × Result Error ChangeRecord)
    → IsSound p.0
    → IsSound q.0
    → IsSound (if b then p else q).0
if-IsSound true p q hp hq = hp
if-IsSound false p q hp hq = hq

-- While no change is active, a record may be written in a new directory.
Writable-new :
    (io : Faults) (id : Text) (c : ChangeRecord) (st : FileStore)
    → load_active io st ≡ ok none
    → ActiveReads io st
    → Writable (record st { changes = set_entry id (folder absent) st.changes }) c
Writable-new io id c st idle reads = record {
  alone = λ d n a ne e.
      load_active-none io st n d idle reads
        (ground (arith, ==_iff id n, entry-set_entry id n (folder absent) st.changes));
}

create_in-IsSound :
    (fault : Option MkdirFault) (io : Faults) (c : ChangeRecord) (st : FileStore)
    → IsSound st
    → load_active io st ≡ ok none
    → ActiveReads io st
    → IsSound (create_in fault io c st).0
create_in-IsSound (some unmade) io c st s idle reads = s
create_in-IsSound (some partial) io c st s idle reads = make_dir-IsSound c.id st s
create_in-IsSound none io c st s idle reads =
    write_config-IsSound io c _ (make_dir-IsSound c.id st s) (Writable-new io c.id c st idle reads)

create_as-IsSound :
    (io : Faults) (c : ChangeRecord) (st : FileStore) (o : Option Text)
    → IsSound st
    → load_active io st ≡ ok none
    → ActiveReads io st
    → IsSound (create_as io c st o).0
create_as-IsSound io c st none s idle reads = s
create_as-IsSound io c st (some id) s idle reads =
    create_in-IsSound io.mkdir_change io (record c { id = id }) st s idle reads

-- When no change is found active, and the active ones can be read, a new one keeps the store sound.
pub create-IsSound :
    (io : Faults) (c : ChangeRecord) (st : FileStore)
    → IsSound st
    → load_active io st ≡ ok none
    → ActiveReads io st
    → IsSound (create io c st).0
unfolding create
create-IsSound io c st s idle reads =
    if-IsSound io.mkdir _ _ s
      (create_as-IsSound io c st (free_id (rounds st.changes) st.changes c.id c.id 2) s idle reads)

move_entry-IsSound :
    (id : Text) (o : Option Entry) (st : FileStore) → IsSound st → IsSound (move_entry id o st)
move_entry-IsSound id none st s = s
move_entry-IsSound id (some e) st s = remove_entry-IsSound id st (set_entry id e st.history) s

rename-IsSound :
    (fails : Bool) (id : Text) (p : FileStore × Result Error ChangeRecord)
    → IsSound p.0
    → IsSound (rename fails id p).0
rename-IsSound fails id (st, err e) s = s
rename-IsSound fails id (st, ok c) s =
    if-IsSound fails _ _ s (move_entry-IsSound id (entry st.changes id) st s)

-- A record that is not active may always be written.
Writable-inactive : (c : ChangeRecord) (st : FileStore) → is_active c ≡ false → Writable st c
Writable-inactive c st idle = record { alone = λ d n a ne e. absurd (false≢true (sym idle ∙ a)) }

archive_loaded-IsSound :
    (now : String) (io : Faults) (id : Text) (st : FileStore) (r : Result Error ChangeRecord)
    → IsSound st
    → IsSound (archive_loaded now io id st r).0
archive_loaded-IsSound now io id st (err e) s = s
archive_loaded-IsSound now io id st (ok c) s =
    let a : ChangeRecord = record c { status = "archived"; updated_at = now } in
    if-IsSound (is_active c) _ _ s (
      if-IsSound io.mkdir _ _ s (
        if-IsSound (exists (entry st.history id)) _ _ s (
          rename-IsSound io.rename id (write_config io a st)
            (write_config-IsSound io a st s (Writable-inactive a st refl)))))

-- Archiving keeps the store sound, also where the write or the rename fails.
archive-IsSound :
    (now : String) (io : Faults) (id : Text) (st : FileStore)
    → IsSound st
    → IsSound (archive now io id st).0
unfolding archive
archive-IsSound now io id st s = archive_loaded-IsSound now io id st (load io id st) s

-- The active change may be written again under its identifier.
pub Writable-active :
    (io : Faults) (c c' : ChangeRecord) (st : FileStore)
    → IsSound st
    → load_active io st ≡ ok (some c)
    → c'.id ≡ c.id
    → Writable st c'
Writable-active io c c' st s found same = record {
  alone = λ d n a ne e. other d n (λ q. ne (q ∙ sym same)) e;
}
  where
    other :
        (d : ChangeRecord) (n : Text)
        → n ≢ c.id
        → entry st.changes n ≡ holds d
        → is_active d ≡ false
    other d n ne e =
        let (here, active) = load_active-some io st c s found in
        elim (Bool-cases (is_active d)) [
          | inl yes_d ↦ absurd (ne (s.single n c.id d c e here yes_d active))
          | inr no_d ↦ no_d
        ]
