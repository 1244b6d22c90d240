-- ===== src/Changes/Store/Archived.antt =====
-- internal/changes/store.go: what `Archive` leaves, on success and on every error.
use mathlib.Core.Bool.{false≢true}
use sdd_hoffy.Common.{
  String, ◌≡◌, ◌≢◌, refl, sym, ◌∙◌, ap, Option, none, some, Bool, true, false, ◌||◌, text_eq,
  ==_iff, ==_refl, arith, if◌then◌else◌,
}
use sdd_hoffy.Common.Result.{Result, ok, err}
use sdd_hoffy.Common.Text.{Text}
use sdd_hoffy.Changes.Types.{ChangeRecord, Error}
use sdd_hoffy.Changes.Store.{
  Entry, folder, config, FileStore, Faults, WriteFault, left_by, entry, set_entry, exists, is_file,
  load, is_active, archive, write_config, write_outcome, rename, archive_loaded,
}
use sdd_hoffy.Changes.Store.Entries.{entry-set_entry, entry-remove_entry}
use sdd_hoffy.Changes.Store.Laws.{archived, entry-load}
use sdd_hoffy.Changes.Store.Sound.{IsSound, holds}

module _ (now : String) (io : Faults) (id : Text) (st : FileStore) where
  -- Success: the change was not active, the history had no entry of its name, and now the history has
  -- it, with the status "archived", in place of the changes.
  pub record IsMoved (st' : FileStore) (a : ChangeRecord) : Type 0 where
    pub change : ChangeRecord
    pub loaded : load io id st ≡ ok change
    pub idle : is_active change ≡ false
    pub new : exists (entry st.history id) ≡ false
    pub result : a ≡ archived now change
    pub gone : entry st'.changes id ≡ none
    pub there : entry st'.history id ≡ holds a
    pub changes : (m : Text) → m ≢ id → entry st'.changes m ≡ entry st.changes m
    pub history : (m : Text) → m ≢ id → entry st'.history m ≡ entry st.history m

  -- An error: the history is as it was, and so is every change of another name and every active one.
  pub record IsLeft (st' : FileStore) : Type 0 where
    pub history : st'.history ≡ st.history
    pub changes : (m : Text) → m ≢ id → entry st'.changes m ≡ entry st.changes m
    pub active :
        (c : ChangeRecord)
        → entry st.changes id ≡ holds c
        → is_active c ≡ true
        → entry st'.changes id ≡ holds c

  abbrev pub IsArchived : FileStore × Result Error ChangeRecord → Type 0
  IsArchived (st', ok a) = IsMoved st' a
  IsArchived (st', err e) = IsLeft st'

  unchanged : IsLeft st
  unchanged = record { history = refl; changes = λ m ne. refl; active = λ c h a. h }

  module _ (c : ChangeRecord) (loaded : load io id st ≡ ok c) (own : c.id ≡ id)
      (idle : is_active c ≡ false) (new : exists (entry st.history id) ≡ false) where
    kept_changes :
        (e : Entry) (m : Text) → m ≢ id → entry (set_entry c.id e st.changes) m ≡ entry st.changes m
    kept_changes e m ne = rw own (ground (arith, ==_iff id m, entry-set_entry id m e st.changes))

    left : (e : Entry) → IsLeft (record st { changes = set_entry c.id e st.changes })
    left e = record {
      history = refl;
      changes = kept_changes e;
      active = λ d h a.
          let both : holds c ≡ holds d = sym (entry-load io id c st loaded) ∙ h in
          let same : c ≡ d = cc in
          absurd (false≢true (sym idle ∙ (ap (λ (x : ChangeRecord). is_active x) same ∙ a)));
    }

    moved :
        (fails : Bool) → IsArchived (rename fails id (write_outcome false none (archived now c) st))
    moved true = left (folder (config (archived now c)))
    moved false =
        let a = archived now c in
        let written = set_entry c.id (folder (config a)) st.changes in
        let here : entry written id ≡ holds a =
          rw (entry-set_entry c.id id (folder (config a)) st.changes, own, ==_refl id) in
        rw here (record {
          change = c;
          loaded = loaded;
          idle = idle;
          new = new;
          result = refl;
          gone = rw (entry-remove_entry id id written, ==_refl id);
          there = rw (entry-set_entry id id (folder (config a)) st.history, ==_refl id);
          changes = λ m ne.
              ground (arith, ==_iff id m, entry-remove_entry id m written)
              ∙ kept_changes (folder (config a)) m ne;
          history = λ m ne.
              ground (arith, ==_iff id m, entry-set_entry id m (folder (config a)) st.history);
        })

    after_write :
        (b : Bool) (fault : Option WriteFault)
        → IsArchived (rename io.rename id (write_outcome b fault (archived now c) st))
    after_write true fault = unchanged
    after_write false none = moved io.rename
    after_write false (some fault) = left (left_by fault (entry st.changes c.id) (archived now c))

  checked :
      (b : Bool) (p q : FileStore × Result Error ChangeRecord)
      → (b ≡ true → IsArchived p)
      → (b ≡ false → IsArchived q)
      → IsArchived (if b then p else q)
  checked true p q hp hq = hp refl
  checked false p q hp hq = hq refl

  archive_loaded-IsArchived :
      (r : Result Error ChangeRecord)
      → load io id st ≡ r
      → IsSound st
      → IsArchived (archive_loaded now io id st r)
  unfolding write_config
  archive_loaded-IsArchived (err e) h s = unchanged
  archive_loaded-IsArchived (ok c) h s =
      checked (is_active c) _ _ (λ _. unchanged)
        (λ idle.
          checked io.mkdir _ _ (λ _. unchanged)
            (λ _.
              checked (exists (entry st.history id)) _ _ (λ _. unchanged)
                (λ new.
                  after_write c h (s.named id c (entry-load io id c st h)) idle new
                    (io.mkdir_config || is_file (entry st.changes c.id)) io.write)))

  -- `Archive` on a sound store, whatever reads, writes and renames fail, if the check whether the
  -- history has the name answers: it succeeds only for a change that it loads, that is not active and
  -- whose name the history does not have, and then the entry is gone from the changes and stands in
  -- the history with the status "archived" and the time of the call, and every other entry of both
  -- directories is as before. With an error, the history is as before, and so is every change of
  -- another name, and the change itself if it is active.
  pub archive-IsArchived : IsSound st → IsArchived (archive now io id st)
  unfolding archive
  archive-IsArchived s = archive_loaded-IsArchived (load io id st) refl s
