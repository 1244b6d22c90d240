-- ===== src/Changes/Tools/Sound.antt =====
-- internal/tools/change.go, internal/tools/change_advance.go: the handlers and the invariant of the file
-- store.
use sdd_hoffy.Common.{String, ◌≡◌, refl, none, some, Bool, string_eq, arith, inl, inr}
use sdd_hoffy.Common.Result.{Result, ok, err, Result-cases}
use sdd_hoffy.Common.Text.{Text}
use sdd_hoffy.Changes.Types.{ChangeRecord, Error}
use sdd_hoffy.Changes.Machine.{advance, complete_change}
use sdd_hoffy.Changes.Store.{FileStore, Faults, load_active}
use sdd_hoffy.Changes.Store.Sound.{IsSound, ActiveReads, write_config-IsSound}
use sdd_hoffy.Changes.Store.Kept.{create-IsSound, Writable-active}
use sdd_hoffy.Changes.Store.{save}
use sdd_hoffy.Changes.Tools.{
  ChangeRequest, prepare_change, create_prepared, handle_change, move_on, save_moved,
  handle_advance,
}

pub prepare_change-idle :
    (now : String) (io : Faults) (artifacts : Bool) (req : ChangeRequest) (st : FileStore)
    (c : ChangeRecord)
    → prepare_change now io artifacts req st ≡ ok c
    → load_active io st ≡ ok none
unfolding prepare_change
prepare_change-idle now io artifacts req st c h = ground arith

created :
    (io : Faults) (st : FileStore) (r : Result Error ChangeRecord)
    → IsSound st
    → ActiveReads io st
    → ((c : ChangeRecord) → r ≡ ok c → load_active io st ≡ ok none)
    → IsSound (create_prepared io st r).0
created io st (err e) s reads h = s
created io st (ok c) s reads h = create-IsSound io c st s (h c refl) reads

-- The handler of `sdd_change` keeps the file store sound, whatever the request and whatever other reads
-- and writes fail, if the change.json of the active change can be read: at most one change is active,
-- every record stands under its identifier, and names are unique. A check whether a file exists is
-- taken to answer.
pub handle_change-IsSound :
    (now : String) (io : Faults) (artifacts : Bool) (req : ChangeRequest) (st : FileStore)
    → IsSound st
    → ActiveReads io st
    → IsSound (handle_change now io artifacts req st).0
unfolding handle_change
handle_change-IsSound now io artifacts req st s reads =
    created io st (prepare_change now io artifacts req st) s reads
      (prepare_change-idle now io artifacts req st)

advance-id : (now : String) (c c' : ChangeRecord) → advance now c ≡ ok c' → c'.id ≡ c.id
unfolding advance
advance-id now c c' h = ground arith

complete_change-id :
    (now : String) (c c' : ChangeRecord) → complete_change now c ≡ ok c' → c'.id ≡ c.id
unfolding complete_change
complete_change-id now c c' h = ground arith

move_on-id :
    (now : String) (io : Faults) (content : Text) (st : FileStore) (c' : ChangeRecord)
    → move_on now io content st ≡ ok c'
    → (c : ChangeRecord) × (load_active io st ≡ ok (some c)) × (c'.id ≡ c.id)
unfolding move_on
move_on-id now io content st c' h = elim (Result-cases (load_active io st)) [
  | inr (f, e) ↦ absurd (ground arith)
  | inl (none, e) ↦ absurd (ground arith)
  | inl (some c, e) ↦ (c, e, ground (arith, advance-id now c c', complete_change-id now c c'))
]

moved :
    (now : String) (io : Faults) (st : FileStore) (r : Result Error ChangeRecord)
    → IsSound st
    → ((c' : ChangeRecord)
        → r ≡ ok c'
        → (c : ChangeRecord) × (load_active io st ≡ ok (some c)) × (c'.id ≡ c.id))
    → IsSound (save_moved now io st r).0
unfolding save
moved now io st (err e) s h = s
moved now io st (ok c') s h =
    let (c, found, same) = h c' refl in
    let c'' : ChangeRecord = record c' { updated_at = now } in
    write_config-IsSound io c'' st s (Writable-active io c c'' st s found same)

-- The handler of `sdd_change_advance` keeps the file store sound, whatever reads and writes fail: reads
-- of the changes and of their directory, the making of a directory, and the writes of the stage's file
-- and of change.json.
pub handle_advance-IsSound :
    (now : String) (io : Faults) (content : Text) (st : FileStore)
    → IsSound st
    → IsSound (handle_advance now io content st).0
unfolding handle_advance
handle_advance-IsSound now io content st s =
    moved now io st (move_on now io content st) s (move_on-id now io content st)
