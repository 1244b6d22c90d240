-- ===== src/Changes/Store/Sound.antt =====
-- internal/changes/store.go: the invariant of the file store. Names are unique, a record stands under
-- its own identifier, and at most one change is active.
use mathlib.Core.Bool.{false≢true}
use mathlib.Core.Path.{subst}
use mathlib.Core.Option.{some-injective}
use sdd_hoffy.Common.{
  ◌≡◌, ◌≢◌, refl, ◌∙◌, ap, sym, [], ◌∷◌, ◌⊎◌, inl, inr, Option, none, some, Bool, true, false, ◌==◌,
  ◌||◌, text_eq, string_eq, ==_iff, ==_refl, arith, Bool-cases, Option-cases,
}
use sdd_hoffy.Common.Result.{ok}
use sdd_hoffy.Common.Text.{Text}
use sdd_hoffy.Changes.Types.{ChangeRecord}
use sdd_hoffy.Changes.Store.{
  absent, corrupt, config, Entry, file, folder, Listing, FileStore, Faults, WriteFault, refused,
  torn, late, left_by, entry, insert_entry, set_entry, remove_entry, is_active, first_active,
  write_config, write_outcome, load_active, is_file,
}
use sdd_hoffy.Changes.Store.Entries.{entry-insert_entry, entry-set_entry, entry-remove_entry}

abbrev pub holds : ChangeRecord → Option Entry
holds c = some (folder (config c))

abbrev Unique : Listing → Type 0
Unique [] = Unit
Unique ((n, e) ∷ l) = (entry l n ≡ none) × Unique l

pub record IsSound (st : FileStore) : Type 0 where
  pub unique : Unique st.changes
  pub named : (n : Text) (c : ChangeRecord) → entry st.changes n ≡ holds c → c.id ≡ n
  pub single :
      (m n : Text) (c d : ChangeRecord)
      → entry st.changes m ≡ holds c
      → entry st.changes n ≡ holds d
      → is_active c ≡ true
      → is_active d ≡ true
      → m ≡ n

Unique-remove_entry : (name : Text) (l : Listing) → Unique l → Unique (remove_entry name l)
unfolding remove_entry entry
Unique-remove_entry name [] u = tt
Unique-remove_entry name ((n, d) ∷ l) u =
    ground (arith, entry-remove_entry name n l, Unique-remove_entry name l)

Unique-insert_entry :
    (name : Text) (e : Entry) (l : Listing)
    → entry l name ≡ none
    → Unique l
    → Unique (insert_entry name e l)
unfolding insert_entry entry
Unique-insert_entry name e [] h u = (refl, tt)
Unique-insert_entry name e ((n, d) ∷ l) h u = ground (
  arith,
  ==_iff n name,
  ==_iff name n,
  entry-insert_entry name n e l,
  Unique-insert_entry name e l,
)

Unique-set_entry : (name : Text) (e : Entry) (l : Listing) → Unique l → Unique (set_entry name e l)
unfolding set_entry
Unique-set_entry name e l u =
    Unique-insert_entry name e (remove_entry name l)
      (rw (entry-remove_entry name name l, ==_refl name)) (Unique-remove_entry name l u)

abbrev FoundIn : (Text → Bool) → Listing → ChangeRecord → Type 0
FoundIn fails l c = (n : Text) × (entry l n ≡ holds c) × (is_active c ≡ true) × (fails n ≡ false)

found_later :
    (fails : Text → Bool) (n : Text) (e : Entry) (l : Listing) (c : ChangeRecord)
    → entry l n ≡ none
    → FoundIn fails l c
    → FoundIn fails ((n, e) ∷ l) c
unfolding entry
found_later fails n e l c none_here (m, h, a, read) = (m, ground (arith, ==_iff n m), a, read)

first_active-some :
    (fails : Text → Bool) (l : Listing) (c : ChangeRecord)
    → Unique l
    → first_active fails l ≡ some c
    → FoundIn fails l c
unfolding first_active entry
first_active-some fails [] c u h = cc
first_active-some fails ((n, file) ∷ l) c u h =
    found_later fails n file l c u.0 (first_active-some fails l c u.1 h)
first_active-some fails ((n, folder absent) ∷ l) c u h =
    found_later fails n (folder absent) l c u.0 (first_active-some fails l c u.1 h)
first_active-some fails ((n, folder corrupt) ∷ l) c u h =
    found_later fails n (folder corrupt) l c u.0 (first_active-some fails l c u.1 h)
first_active-some fails ((n, folder (config d)) ∷ l) c u h =
    let later = λ (e : first_active fails l ≡ some c).
      found_later fails n (folder (config d)) l c u.0 (first_active-some fails l c u.1 e) in
    elim (Bool-cases (fails n)) [
      | inl unread ↦ later (rw (unread, first_active) at h)
      | inr read ↦ elim (Bool-cases (is_active d)) [
        | inl yes_d ↦
            let same : d ≡ c = some-injective _ _ (rw (read, yes_d, first_active) at h) in
            (n, rw (← same) (ground (arith, ==_refl n)), rw (← same) yes_d, read)
        | inr no_d ↦ later (rw (read, no_d, first_active) at h)
      ]
    ]

first_active-none :
    (fails : Text → Bool) (l : Listing) (n : Text) (c : ChangeRecord)
    → first_active fails l ≡ none
    → fails n ≡ false
    → entry l n ≡ holds c
    → is_active c ≡ false
unfolding first_active entry
first_active-none fails [] n c h read e = cc
first_active-none fails ((m, file) ∷ l) n c h read e = ground (arith, first_active-none fails l n c)
first_active-none fails ((m, folder absent) ∷ l) n c h read e =
    ground (arith, first_active-none fails l n c)
first_active-none fails ((m, folder corrupt) ∷ l) n c h read e =
    ground (arith, first_active-none fails l n c)
first_active-none fails ((m, folder (config d)) ∷ l) n c h read e =
    ground (arith, first_active-none fails l n c, ==_iff m n)

-- What may be written under a name: if it is a record, the record is named so, and if the record is
-- active, no other change is.
record Harmless (st : FileStore) (id : Text) (e : Entry) : Type 0 where
  own : (c : ChangeRecord) → e ≡ folder (config c) → c.id ≡ id
  alone :
      (c d : ChangeRecord) (n : Text)
      → e ≡ folder (config c)
      → is_active c ≡ true
      → n ≢ id
      → entry st.changes n ≡ holds d
      → is_active d ≡ false

pub where_set :
    (st : FileStore) (id n : Text) (e : Entry) (c : ChangeRecord)
    → entry (set_entry id e st.changes) n ≡ holds c
    → (n ≡ id) × (e ≡ folder (config c)) ⊎ (n ≢ id) × (entry st.changes n ≡ holds c)
where_set st id n e c h =
    let law = entry-set_entry id n e st.changes in
    elim (Bool-cases (id == n)) [
      | inl same ↦ inl (sym ((==_iff id n).0 same), some-injective _ _ (rw (law, same) at h))
      | inr other ↦
          inr ((λ q. false≢true (sym other ∙ (==_iff id n).1 (sym q))), (rw (law, other) at h))
    ]

set_entry-IsSound :
    (st : FileStore) (id : Text) (e : Entry)
    → IsSound st
    → Harmless st id e
    → IsSound (record st { changes = set_entry id e st.changes })
set_entry-IsSound st id e s h = record {
  unique = Unique-set_entry id e st.changes s.unique;
  named = λ n c eq. elim (where_set st id n e c eq) [
    | inl (q, p) ↦ h.own c p ∙ sym q
    | inr (q, p) ↦ s.named n c p
  ];
  single = λ m n c d ec ed ac ad. elim (where_set st id m e c ec) [
    | inl (q, p) ↦ elim (where_set st id n e d ed) [
      | inl (q', p') ↦ q ∙ sym q'
      | inr (q', p') ↦ absurd (false≢true (sym (h.alone c d n p ac q' p') ∙ ad))
    ]
    | inr (q, p) ↦ elim (where_set st id n e d ed) [
      | inl (q', p') ↦ absurd (false≢true (sym (h.alone d c m p' ad q p) ∙ ac))
      | inr (q', p') ↦ s.single m n c d p p' ac ad
    ]
  ];
}

-- A record that is written under its own identifier keeps the store sound if no other change is
-- active or if it is not active itself, whatever becomes of the write.
pub record Writable (st : FileStore) (c : ChangeRecord) : Type 0 where
  pub alone :
      (d : ChangeRecord) (n : Text)
      → is_active c ≡ true
      → n ≢ c.id
      → entry st.changes n ≡ holds d
      → is_active d ≡ false

Harmless-record :
    (st : FileStore) (c : ChangeRecord) → Writable st c → Harmless st c.id (folder (config c))
Harmless-record st c w = record {
  own = λ d e. let same : c ≡ d = cc in ap (λ (x : ChangeRecord). x.id) (sym same);
  alone = λ d d' n e a ne en. let same : c ≡ d = cc in w.alone d' n (rw same a) ne en;
}

-- An entry that holds no record is always harmless.
Harmless-absent : (st : FileStore) (id : Text) → Harmless st id (folder absent)
Harmless-absent st id = record { own = λ c e. cc; alone = λ c d n e a ne en. cc }

Harmless-corrupt : (st : FileStore) (id : Text) → Harmless st id (folder corrupt)
Harmless-corrupt st id = record { own = λ c e. cc; alone = λ c d n e a ne en. cc }

Harmless-old :
    (st : FileStore) (id : Text) (e : Entry)
    → IsSound st
    → entry st.changes id ≡ some e
    → Harmless st id e
Harmless-old st id e s h = record {
  own = λ c q. s.named id c (rw (← q) h);
  alone = λ c d n q a ne en. elim (Bool-cases (is_active d)) [
    | inl yes_d ↦ absurd (ne (s.single n id d c en (rw (← q) h) yes_d a))
    | inr no_d ↦ no_d
  ];
}

Harmless-left_by :
    (fault : WriteFault) (old : Option Entry) (st : FileStore) (c : ChangeRecord)
    → IsSound st
    → Writable st c
    → entry st.changes c.id ≡ old
    → Harmless st c.id (left_by fault old c)
Harmless-left_by refused none st c s w h = Harmless-absent st c.id
Harmless-left_by refused (some e) st c s w h = Harmless-old st c.id e s h
Harmless-left_by torn old st c s w h = Harmless-corrupt st c.id
Harmless-left_by late old st c s w h = Harmless-record st c w

outcome :
    (b : Bool) (o : Option WriteFault) (st : FileStore) (c : ChangeRecord)
    → IsSound st
    → Writable st c
    → IsSound (write_outcome b o c st).0
outcome true o st c s w = s
outcome false none st c s w = set_entry-IsSound st c.id _ s (Harmless-record st c w)
outcome false (some fault) st c s w =
    set_entry-IsSound st c.id _ s (Harmless-left_by fault (entry st.changes c.id) st c s w refl)

pub write_config-IsSound :
    (io : Faults) (c : ChangeRecord) (st : FileStore)
    → IsSound st
    → Writable st c
    → IsSound (write_config io c st).0
unfolding write_config
write_config-IsSound io c st s w =
    outcome (io.mkdir_config || is_file (entry st.changes c.id)) io.write st c s w

-- Making an empty directory keeps the store sound.
pub make_dir-IsSound :
    (id : Text) (st : FileStore)
    → IsSound st
    → IsSound (record st { changes = set_entry id (folder absent) st.changes })
make_dir-IsSound id st s = set_entry-IsSound st id (folder absent) s (Harmless-absent st id)

pub remove_entry-IsSound :
    (id : Text) (st : FileStore) (history : Listing)
    → IsSound st
    → IsSound (record { changes = remove_entry id st.changes; history = history })
remove_entry-IsSound id st history s = record {
  unique = Unique-remove_entry id st.changes s.unique;
  named = λ n c eq. s.named n c (kept n c eq);
  single = λ m n c d ec ed ac ad. s.single m n c d (kept m c ec) (kept n d ed) ac ad;
}
  where
    kept :
        (n : Text) (c : ChangeRecord)
        → entry (remove_entry id st.changes) n ≡ holds c
        → entry st.changes n ≡ holds c
    kept n c h = ground (arith, entry-remove_entry id n st.changes)

-- The directory could be listed if `LoadActive` has an answer.
pub load_active-ok :
    (io : Faults) (st : FileStore) (o : Option ChangeRecord)
    → load_active io st ≡ ok o
    → first_active io.reads.document st.changes ≡ o
unfolding load_active
load_active-ok io st o h = elim (Bool-cases io.reads.dir) [
  | inl unread ↦ absurd (let g = rw unread at h in cc)
  | inr read ↦ let g = rw read at h in cc
]

-- When the directory can be listed, `LoadActive` answers.
pub load_active-cases :
    (io : Faults) (st : FileStore)
    → io.reads.dir ≡ false
    → (load_active io st ≡ ok none) ⊎ ((c : ChangeRecord) × (load_active io st ≡ ok (some c)))
unfolding load_active
load_active-cases io st read = elim (Option-cases (first_active io.reads.document st.changes)) [
  | inl h ↦ inl (rw (read, h) refl)
  | inr (c, h) ↦ inr (c, rw (read, h) refl)
]

-- What `LoadActive` finds is the active change.
pub load_active-some :
    (io : Faults) (st : FileStore) (c : ChangeRecord)
    → IsSound st
    → load_active io st ≡ ok (some c)
    → (entry st.changes c.id ≡ holds c) × (is_active c ≡ true)
load_active-some io st c s h =
    let (n, e, a, read) =
      first_active-some io.reads.document st.changes c s.unique (load_active-ok io st (some c) h) in
    (subst (λ m. entry st.changes m ≡ holds c) (sym (s.named n c e)) e, a)

pub load_active-read :
    (io : Faults) (st : FileStore) (c : ChangeRecord)
    → IsSound st
    → load_active io st ≡ ok (some c)
    → io.reads.document c.id ≡ false
load_active-read io st c s h =
    let (n, e, a, read) =
      first_active-some io.reads.document st.changes c s.unique (load_active-ok io st (some c) h) in
    subst (λ m. io.reads.document m ≡ false) (sym (s.named n c e)) read

-- The change.json of an active change can be read.
abbrev pub ActiveReads : Faults → FileStore → Type 0
ActiveReads io st =
    (n : Text) (c : ChangeRecord)
    → entry st.changes n ≡ holds c
    → is_active c ≡ true
    → io.reads.document n ≡ false

-- `LoadActive` finds nothing only if no change is active whose change.json can be read.
pub load_active-none :
    (io : Faults) (st : FileStore) (n : Text) (c : ChangeRecord)
    → load_active io st ≡ ok none
    → ActiveReads io st
    → entry st.changes n ≡ holds c
    → is_active c ≡ false
load_active-none io st n c h reads e = elim (Bool-cases (is_active c)) [
  | inl active ↦
      first_active-none io.reads.document st.changes n c (load_active-ok io st none h)
        (reads n c e active) e
  | inr idle ↦ idle
]
