-- ===== src/Changes/Store/Laws.antt =====
-- internal/changes/store.go: `Create`, `Load` and `Archive` when they follow each other.
use sdd_hoffy.Common.{
  String, suc, ◌+◌, length, ◌≡◌, ◌≢◌, refl, Option, none, some, Bool, true, false, text_eq,
  string_eq, ==_iff, ==_refl, arith, if◌then◌else◌, Bool-cases, inl, inr,
}
use sdd_hoffy.Common.Result.{Result, ok, err}
use sdd_hoffy.Common.Text.{Text}
use sdd_hoffy.Changes.Types.{ChangeRecord, Error, archive_active, in_history}
use sdd_hoffy.Changes.Store.{
  absent, corrupt, config, Entry, file, folder, FileStore, Faults, entry, set_entry, remove_entry,
  exists, is_active, load, create, rounds, archive, archive_loaded, read_config,
}
use sdd_hoffy.Changes.Store.Entries.{entry-set_entry, entry-remove_entry}
use sdd_hoffy.Changes.Store.FreeId.{IsCandidate, free_id_total}

-- No call to the file system fails.
abbrev pub no_faults : Faults
no_faults = record {
  reads = record { dir = false; document = λ _. false };
  history_reads = record { dir = false; document = λ _. false };
  mkdir = false;
  mkdir_change = none;
  mkdir_config = false;
  write = none;
  stage_file = false;
  rename = false;
}

-- Without faults `Create` always succeeds: it stores the record under an identifier that was not
-- taken (its own, or its own with a suffix from 2 on), from which it can be loaded, and it changes no
-- other entry and nothing of the history.
pub create_lem :
    (c : ChangeRecord) (st : FileStore)
    → (id : Text) × (st' : FileStore) × (create no_faults c st ≡ (st', ok (record c { id = id })))
      × (exists (entry st.changes id) ≡ false)
      × IsCandidate c.id id
      × (load no_faults id st' ≡ ok (record c { id = id }))
      × ((m : Text) → m ≢ id → entry st'.changes m ≡ entry st.changes m)
      × (st'.history ≡ st.history)
unfolding create load
create_lem c st =
    let (id, e, free, candidate) = free_id_total st.changes c.id in
    let made = set_entry id (folder absent) st.changes in
    (
      id,
      record st { changes = set_entry id (folder (config (record c { id = id }))) made },
      rw (e, entry-set_entry id id (folder absent) st.changes, ==_refl id),
      free,
      candidate,
      rw (entry-set_entry id id (folder (config (record c { id = id }))) made, ==_refl id),
      λ m ne. ground (
        arith,
        ==_iff id m,
        entry-set_entry id m (folder (config (record c { id = id }))) made,
        entry-set_entry id m (folder absent) st.changes,
      ),
      refl,
    )

config_of_ok :
    (o : Option Entry) (c : ChangeRecord) → read_config o ≡ ok c → o ≡ some (folder (config c))
config_of_ok none c h = cc
config_of_ok (some file) c h = cc
config_of_ok (some (folder absent)) c h = cc
config_of_ok (some (folder corrupt)) c h = cc
config_of_ok (some (folder (config d))) c h = cc

-- What loads is what the directory of that name holds.
pub entry-load :
    (io : Faults) (id : Text) (c : ChangeRecord) (st : FileStore)
    → load io id st ≡ ok c
    → entry st.changes id ≡ some (folder (config c))
unfolding load
entry-load io id c st l = elim (Bool-cases (io.reads.document id)) [
  | inl unread ↦ absurd (let h = rw unread at l in cc)
  | inr read ↦ config_of_ok (entry st.changes id) c (rw read at l)
]

abbrev pub archived : String → ChangeRecord → ChangeRecord
archived now c = record c { status = "archived"; updated_at = now }

-- A change that is no longer active, that is stored under its own identifier and whose identifier is
-- not in the history, is archived when no call fails: it leaves the changes, it is in the history
-- with the status "archived", and every other entry of both directories stays as it was.
archive_lem :
    (now : String) (id : Text) (c : ChangeRecord) (st : FileStore)
    → load no_faults id st ≡ ok c
    → c.id ≡ id
    → is_active c ≡ false
    → exists (entry st.history id) ≡ false
    → (st' : FileStore) × (archive now no_faults id st ≡ (st', ok (archived now c)))
      × (entry st'.changes id ≡ none)
      × (entry st'.history id ≡ some (folder (config (archived now c))))
      × ((m : Text) → m ≢ id → entry st'.changes m ≡ entry st.changes m)
      × ((m : Text) → m ≢ id → entry st'.history m ≡ entry st.history m)
unfolding archive
archive_lem now id c st l own idle new =
    let a : ChangeRecord = archived now c in
    let written = set_entry id (folder (config a)) st.changes in
    (
      record {
        changes = remove_entry id written;
        history = set_entry id (folder (config a)) st.history;
      },
      rw (l, idle, new, own, entry-load no_faults id c st l, entry-set_entry, ==_refl id),
      rw (entry-remove_entry id id written, ==_refl id),
      rw (entry-set_entry id id (folder (config a)) st.history, ==_refl id),
      λ m ne. ground (
        arith,
        ==_iff id m,
        entry-remove_entry id m written,
        entry-set_entry id m (folder (config a)) st.changes,
      ),
      λ m ne. ground (arith, ==_iff id m, entry-set_entry id m (folder (config a)) st.history),
    )

-- An active change is never archived: the store stays as it is.
pub archive-active :
    (now : String) (io : Faults) (id : Text) (c : ChangeRecord) (st : FileStore)
    → load io id st ≡ ok c
    → is_active c ≡ true
    → archive now io id st ≡ (st, err archive_active)
unfolding archive
archive-active now io id c st l active = rw (l, active)

abbrev Refused : FileStore → FileStore × Result Error ChangeRecord → Type 0
Refused st (st', r) = (st' ≡ st) × ((e : Error) × (r ≡ err e))

Refused-if :
    (b : Bool) (e : Error) (st : FileStore) (other : FileStore × Result Error ChangeRecord)
    → (b ≡ false → Refused st other)
    → Refused st (if b then (st, err e) else other)
Refused-if true e st other h = (refl, (e, refl))
Refused-if false e st other h = h refl

Refused-loaded :
    (now : String) (io : Faults) (id : Text) (st : FileStore) (r : Result Error ChangeRecord)
    → exists (entry st.history id) ≡ true
    → Refused st (archive_loaded now io id st r)
Refused-loaded now io id st (err e) h = (refl, (e, refl))
Refused-loaded now io id st (ok c) h =
    Refused-if (is_active c) _ st _
      (λ _. Refused-if io.mkdir _ st _ (λ _. rw h (refl, (in_history, refl))))

-- Whatever fails, nothing whose identifier is in the history is archived, and the store stays as it
-- is.
pub archive-in_history :
    (now : String) (io : Faults) (id : Text) (st : FileStore)
    → exists (entry st.history id) ≡ true
    → ((archive now io id st).0 ≡ st) × ((e : Error) × ((archive now io id st).1 ≡ err e))
unfolding archive
archive-in_history now io id st h = Refused-loaded now io id st (load io id st) h

-- `Create` looks for a free identifier among the changes alone: an identifier that only the history
-- has is given out again, and then, as long as the history keeps it, `Archive` refuses it whatever
-- happens to the changes.
pub reused_id_never_archived :
    (now : String) (io : Faults) (c : ChangeRecord) (st later : FileStore)
    → entry st.changes c.id ≡ none
    → exists (entry st.history c.id) ≡ true
    → later.history ≡ st.history
    → ((create no_faults c st).1 ≡ ok c)
      × ((archive now io c.id later).0 ≡ later)
      × ((e : Error) × ((archive now io c.id later).1 ≡ err e))
unfolding create
reused_id_never_archived now io c st later free old kept =
    let refusal = archive-in_history now io c.id later (rw kept old) in
    let enough : rounds st.changes ≡ suc (length st.changes + 1) = omega arith in
    (rw (enough, free, entry-set_entry, ==_refl c.id), refusal.0, refusal.1)
