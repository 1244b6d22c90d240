-- ===== src/Changes/Tools/Start.antt =====
-- internal/tools/change.go: `sdd_change` on a store without an active change, and on one with it.
use mathlib.Core.Bool.{false≢true}
use sdd_hoffy.Common.{
  String, sym, ◌∙◌, ==_iff, ◌<◌, ◌≡◌, ◌≢◌, refl, ap, List, [], ◌∷◌, none, some, Bool, true, false,
  not, ◌==◌, ◌||◌, string_eq, arith, inl, inr, length, get_elem?,
}
use sdd_hoffy.Common.Result.{ok, err, Result-cases}
use sdd_hoffy.Common.Text.{Text, is_empty}
use sdd_hoffy.Changes.Types.{ChangeRecord, Error}
use sdd_hoffy.Changes.Flow.{validate_type, validate_size, stage_flow}
use sdd_hoffy.Changes.Flow.Shape.{stage_flow-IsFlow}
use sdd_hoffy.Changes.Slug.{trim_spaces, slugify}
use sdd_hoffy.Changes.Machine.Progress.{IsAt, names, AllPending}
use sdd_hoffy.Changes.Store.{FileStore, Faults, entry, exists, load, load_active, create, is_active}
use sdd_hoffy.Changes.Store.Sound.{
  IsSound, holds, load_active-cases, load_active-some, load_active-read,
}
use sdd_hoffy.Changes.Store.FreeId.{IsCandidate}
use sdd_hoffy.Changes.Store.Laws.{no_faults, create_lem, entry-load}
use sdd_hoffy.Changes.Tools.Sound.{prepare_change-idle}
use sdd_hoffy.Changes.Tools.{ChangeRequest, pending, new_change, prepare_change, handle_change}

names-pending : (flow : List String) → names (pending flow) ≡ flow
names-pending [] = refl
names-pending (s ∷ flow) = ap (λ r. s ∷ r) (names-pending flow)

AllPending-pending : (flow : List String) → AllPending (pending flow)
AllPending-pending [] = tt
AllPending-pending (s ∷ flow) = (refl, AllPending-pending flow)

abbrev Created : String → ChangeRequest → List String → ChangeRecord → Type 0
Created now req flow c =
    IsAt flow 0 c
    × (c.id ≡ slugify req.description)
    × (c.type ≡ req.type)
    × (c.size ≡ req.size)
    × (c.description ≡ req.description)
    × (c.created_at ≡ now)

new_change-Created :
    (now : String) (req : ChangeRequest) (flow : List String)
    → 0 < length flow
    → (c : ChangeRecord) × (new_change now req flow ≡ ok c) × Created now req flow c
unfolding new_change
new_change-Created now req [] h = elim h [ ]
new_change-Created now req (s ∷ flow) h = (
  _,
  refl,
  (
    record {
      active = refl;
      follows = ap (λ r. s ∷ r) (names-pending flow);
      here = refl;
      statuses = (refl, AllPending-pending flow);
    },
    refl,
    refl,
    refl,
    refl,
    refl,
  ),
)

stage_flow-valid :
    (t s : String) {flow : List String}
    → stage_flow t s ≡ ok flow
    → (validate_type t ≡ ok tt) × (validate_size s ≡ ok tt)
unfolding stage_flow
stage_flow-valid t s h = ground arith

flow-nonempty : (flow : List String) {x : String} → get_elem? flow 1 ≡ some x → 0 < length flow
flow-nonempty [] h = absurd (cc)
flow-nonempty (s ∷ flow) h = omega arith

abbrev pub needs_artifacts : String → Bool
needs_artifacts size = size == "medium" || size == "large"

prepared :
    (now : String) (io : Faults) (artifacts : Bool) (req : ChangeRequest) (st : FileStore)
    {flow : List String}
    → stage_flow req.type req.size ≡ ok flow
    → is_empty (trim_spaces req.description) ≡ false
    → load_active io st ≡ ok none
    → (artifacts || not (needs_artifacts req.size)) ≡ true
    → prepare_change now io artifacts req st ≡ new_change now req flow
unfolding prepare_change
prepared now io artifacts req st known described idle grounded =
    let valid = stage_flow-valid req.type req.size known in
    rw (valid.0, valid.1, described, idle, grounded, known)

module _ (now : String) (artifacts : Bool) (req : ChangeRequest) (st : FileStore)
    {flow : List String} (known : stage_flow req.type req.size ≡ ok flow)
    (described : is_empty (trim_spaces req.description) ≡ false)
    (idle : load_active no_faults st ≡ ok none)
    (grounded : (artifacts || not (needs_artifacts req.size)) ≡ true) where
  -- With a known type and size, a description that is not blank, no active change, and the baseline
  -- documents where the size asks for them, and when no call fails, `sdd_change` succeeds: the new
  -- change is active, at the first stage of the flow of its type and size, with the slug of its
  -- description, or that slug with a suffix, as an identifier that was not taken, from which it
  -- loads; no other entry is touched.
  pub handle_change_starts :
      (c : ChangeRecord) × (st' : FileStore) × (handle_change now no_faults artifacts req st
        ≡ (st', ok c))
      × IsAt flow 0 c
      × IsCandidate (slugify req.description) c.id
      × (exists (entry st.changes c.id) ≡ false)
      × (load no_faults c.id st' ≡ ok c)
      × ((m : Text) → m ≢ c.id → entry st'.changes m ≡ entry st.changes m)
  unfolding handle_change
  handle_change_starts =
      let nonempty =
        flow-nonempty flow (stage_flow-IsFlow req.type req.size known).context_check_second in
      let (c0, made, shape) = new_change-Created now req flow nonempty in
      let (at, own, _, _, _, _) = shape in
      let (id, st', e, free, candidate, loads, others, _) = create_lem c0 st in
      (
        record c0 { id = id },
        st',
        rw (prepared now no_faults artifacts req st known described idle grounded, made) e,
        record { active = at.active; follows = at.follows; here = at.here; statuses = at.statuses },
        rw (← own) candidate,
        free,
        loads,
        others,
      )

-- No call fails but the reads of some of the changes.
abbrev unread : (Text → Bool) → Faults
unread fails = record no_faults { reads = record { dir = false; document = fails } }

unread-idle :
    (fails : Text → Bool) (st : FileStore) (n : Text) (c : ChangeRecord)
    → IsSound st
    → entry st.changes n ≡ holds c
    → is_active c ≡ true
    → fails n ≡ true
    → load_active (unread fails) st ≡ ok none
unread-idle fails st n c s there active unseen = elim (load_active-cases (unread fails) st refl) [
  | inl idle ↦ idle
  | inr (d, found) ↦
      let (here, on) = load_active-some (unread fails) st d s found in
      let read : fails d.id ≡ false = load_active-read (unread fails) st d s found in
      let same : n ≡ d.id = s.single n d.id c d there here active on in
      absurd (false≢true (sym read ∙ (ap fails (sym same) ∙ unseen)))
]

taken :
    (n id : Text) (st : FileStore) (c : ChangeRecord)
    → entry st.changes n ≡ holds c
    → exists (entry st.changes id) ≡ false
    → n ≢ id
taken n id st c there free q =
    false≢true (sym free ∙ ap exists (ap (entry st.changes) (sym q) ∙ there))

-- `LoadActive` passes over a change whose change.json it cannot read: where that of the active change
-- of a sound store cannot be read, and no call fails but such reads, `sdd_change` with a known type and
-- size, a description that is not blank, and the baseline documents where the size asks for them starts
-- another change, and the store then has two active changes under different names.
handle_change_doubles :
    (now : String) (fails : Text → Bool) (artifacts : Bool) (req : ChangeRequest) (st : FileStore)
    {flow : List String} (n : Text) (c : ChangeRecord)
    → stage_flow req.type req.size ≡ ok flow
    → is_empty (trim_spaces req.description) ≡ false
    → (artifacts || not (needs_artifacts req.size)) ≡ true
    → IsSound st
    → entry st.changes n ≡ holds c
    → is_active c ≡ true
    → fails n ≡ true
    → (c' : ChangeRecord) × (st' : FileStore) × (handle_change now (unread fails) artifacts req st
        ≡ (st', ok c'))
      × (n ≢ c'.id)
      × (entry st'.changes n ≡ holds c)
      × (entry st'.changes c'.id ≡ holds c')
      × (is_active c' ≡ true)
unfolding handle_change create
handle_change_doubles now fails artifacts req st {flow} n c known described grounded s there active
      unseen =
    let nonempty =
      flow-nonempty flow (stage_flow-IsFlow req.type req.size known).context_check_second in
    let (c0, made, shape) = new_change-Created now req flow nonempty in
    let idle = unread-idle fails st n c s there active unseen in
    let (id, st', e, free, candidate, loads, others, _) = create_lem c0 st in
    let apart : n ≢ id = taken n id st c there free in
    (
      record c0 { id = id },
      st',
      rw (prepared now (unread fails) artifacts req st known described idle grounded, made) e,
      apart,
      others n apart ∙ there,
      entry-load no_faults id (record c0 { id = id }) st' loads,
      (==_iff c0.status "active").1 shape.0.active,
    )

-- While a change is active, `sdd_change` writes nothing and returns an error, whatever it is asked.
handle_change_busy :
    (now : String) (io : Faults) (artifacts : Bool) (req : ChangeRequest) (st : FileStore)
    (a : ChangeRecord)
    → load_active io st ≡ ok (some a)
    → (e : Error) × (handle_change now io artifacts req st ≡ (st, err e))
unfolding handle_change
handle_change_busy now io artifacts req st a h =
    elim (Result-cases (prepare_change now io artifacts req st)) [
      | inl (c, e) ↦ absurd (cc (h, prepare_change-idle now io artifacts req st c e))
      | inr (e, refused) ↦ (e, rw refused)
    ]
