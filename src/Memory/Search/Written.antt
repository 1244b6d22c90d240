-- ===== src/Memory/Search/Written.antt =====
-- internal/memory/store.go: FindByTopicKey after AddObservation.
use mathlib.Core.Bool.{false≢true}
use mathlib.Core.Path.{subst}
use mathlib.Core.List.{Memᴰ}
use mathlib.Core.List.Memᴰ
use mathlib.Core.Option.{none-ne-some, some-injective}
use sdd_hoffy.Common.{
  String, ℕ, ◌≤◌, ◌≡◌, ◌≢◌, refl, ap, ◌∙◌, sym, List, [], ◌∷◌, Option, none, some, Bool, true,
  false, ◌==◌, nat_eq, text_eq, string_eq, ==_refl, ==_iff, length, keep, update_where, All, arith,
  Bool-cases, Option-cases, inl, inr,
}
use sdd_hoffy.Common.Result.{Result, ok}
use sdd_hoffy.Common.Rows.{Memᴰ-keep}
use sdd_hoffy.Common.Text.{is_empty}
use sdd_hoffy.Memory.Types.{Observation, StoreConfig, Engine, IsEngine, Error}
use sdd_hoffy.Memory.Text.{truncate_content}
use sdd_hoffy.Memory.Text.Private.{strip_private_tags}
use sdd_hoffy.Memory.Observations.{
  AddObservationParams, prepare, Entry, or_blank, namespace_is, new_row, revise, same_topic,
}
use sdd_hoffy.Memory.Observations.Kept.{All-map_into, All-keep}
use sdd_hoffy.Memory.Observations.Topics.{nullable_some}
use sdd_hoffy.Memory.Search.{topic_row}

-- The rows of an entry's topic, in whatever namespace.
abbrev pub on_topic : Entry → Observation → Bool
on_topic e = topic_row e.topic_key (or_blank e.project) e.scope

same_namespace : (a b : Option String) → a ≡ b → namespace_is b a ≡ true
same_namespace none none h = refl
same_namespace none (some b) h = absurd (none-ne-some b h)
same_namespace (some a) none h = absurd (none-ne-some a (sym h))
same_namespace (some a) (some b) h =
    subst (λ s. (b == s) ≡ true) (sym (some-injective a b h)) (==_refl b)

topic_in_namespace :
    (e : Entry) (r : Observation)
    → on_topic e r ≡ true
    → r.namespace ≡ e.namespace
    → same_topic e r ≡ true
topic_in_namespace e r h space = ground (arith, same_namespace r.namespace e.namespace space)

only_one :
    (q : Observation → Bool) (rows : List Observation) (x y : Observation)
    → length (keep q rows) ≤ 1
    → Memᴰ x (keep q rows)
    → Memᴰ y (keep q rows)
    → x ≡ y
only_one q rows x y h mx my = single (keep q rows) h mx my
  where
    single : (xs : List Observation) → length xs ≤ 1 → Memᴰ x xs → Memᴰ y xs → x ≡ y
    single [] h mx my = absurd (Memᴰ.not-nil mx)
    single (z ∷ []) h mx my = elim (Memᴰ.cases_cons mx) [
      | inr later ↦ absurd (Memᴰ.not-nil later)
      | inl ex ↦ elim (Memᴰ.cases_cons my) [
        | inr later ↦ absurd (Memᴰ.not-nil later)
        | inl ey ↦ ex ∙ sym ey
      ]
    ]
    single (z ∷ w ∷ xs) h mx my = absurd (omega arith)

-- A row as the call has written it.
pub record IsWritten (now : ℕ) (e : Entry) (result : Result Error ℕ) (o : Observation)
    : Type 0 where
  pub returned : result ≡ ok o.id
  pub type : o.type ≡ e.type
  pub title : o.title ≡ e.title
  pub content : o.content ≡ e.content
  pub updated : o.updated_at ≡ now

-- A row as a call of AddObservation leaves it, in terms of the call: title and content are stripped of
-- their private parts, and the content is cut to the limit.
pub record IsStored (limit now : ℕ) (p : AddObservationParams) (result : Result Error ℕ)
    (o : Observation) : Type 0 where
  pub returned : result ≡ ok o.id
  pub type : o.type ≡ p.type
  pub title : o.title ≡ strip_private_tags p.title
  pub content : o.content ≡ truncate_content limit (strip_private_tags p.content)
  pub updated : o.updated_at ≡ now

pub IsStored-written :
    (engine : Engine) (cfg : StoreConfig) (now : ℕ) (p : AddObservationParams)
    (result : Result Error ℕ) (o : Observation)
    → IsWritten now (prepare engine cfg p) result o
    → IsStored cfg.max_observation_length now p result o
unfolding prepare
IsStored-written engine cfg now p result o w = record {
  returned = w.returned;
  type = w.type;
  title = w.title;
  content = w.content;
  updated = w.updated;
}

pub Memᴰ-update_where :
    (q : Observation → Bool) (f : Observation → Observation) (x : Observation)
    (rows : List Observation)
    → Memᴰ x rows
    → q x ≡ true
    → Memᴰ (f x) (update_where q f rows)
Memᴰ-update_where q f x [] m h = absurd (Memᴰ.not-nil m)
Memᴰ-update_where q f x (r ∷ rows) m h = elim (Memᴰ.cases_cons m) [
  | inl same ↦ rw (ap q (sym same) ∙ h) (Memᴰ.head (ap f same))
  | inr later ↦ Memᴰ.tail (Memᴰ-update_where q f x rows later h)
]

-- What a choice among rows that are on the topic comes to.
pub latest-IsWritten :
    (engine : Engine) (now : ℕ) (e : Entry) (result : Result Error ℕ) (rows : List Observation)
    (x : Observation)
    → IsEngine engine
    → All (λ r. on_topic e r ≡ true → IsWritten now e result r) rows
    → Memᴰ x rows
    → on_topic e x ≡ true
    → (o : Observation) × (engine.latest (keep (on_topic e) rows) ≡ some o)
      × IsWritten now e result o
latest-IsWritten engine now e result rows x lawful all m h =
    elim (Option-cases (engine.latest (keep (on_topic e) rows))) [
      | inl nothing ↦
          absurd (nonempty (keep (on_topic e) rows) (Memᴰ-keep (on_topic e) x rows h m) nothing)
      | inr (o, found) ↦ (
        o,
        found,
        lawful.latest_among (IsWritten now e result) (keep (on_topic e) rows) o
            (All-map_into
              (λ r. (on_topic e r ≡ true → IsWritten now e result r) × (on_topic e r ≡ true))
              (IsWritten now e result) (keep (on_topic e) rows) (λ r k. k.0 k.1)
              (All-keep (λ r. on_topic e r ≡ true → IsWritten now e result r) (on_topic e) rows
                all))
            found,
      )
    ]
  where
    nonempty : (xs : List Observation) → Memᴰ x xs → engine.latest xs ≢ none
    nonempty [] m = absurd (Memᴰ.not-nil m)
    nonempty (y ∷ xs) m = lawful.latest_some y xs

-- The rows of the topic are all in the namespace of the entry.
abbrev pub InNamespace : Entry → List Observation → Type 0
InNamespace e = All (λ r. on_topic e r ≡ true → r.namespace ≡ e.namespace)

pub revised_rows :
    (now : ℕ) (e : Entry) (rows all : List Observation) (o : Observation)
    → length (keep (same_topic e) all) ≤ 1
    → Memᴰ o (keep (same_topic e) all)
    → All (λ r. Memᴰ r all) rows
    → InNamespace e rows
    → All
        (λ r. on_topic e r ≡ true → IsWritten now e (ok o.id) r)
        (update_where (λ r. r.id == o.id) (revise now e) rows)
revised_rows now e [] all o single there here spaces = tt
revised_rows now e (r ∷ rows) all o single there here spaces = elim (Bool-cases (r.id == o.id)) [
  | inl same ↦ rw same (
    (λ h. record {
      returned = ap ok (sym ((==_iff r.id o.id).0 same));
      type = refl;
      title = refl;
      content = refl;
      updated = refl;
    }),
    revised_rows now e rows all o single there here.1 spaces.1,
  )
  | inr other ↦ rw other (
    (λ h.
        let own = topic_in_namespace e r h (spaces.0 h) in
        let equal =
          only_one (same_topic e) all r o single (Memᴰ-keep (same_topic e) r all own here.0)
            there in
        absurd (false≢true (sym other ∙ (==_iff r.id o.id).1 (ap (λ x. x.id) equal)))),
    revised_rows now e rows all o single there here.1 spaces.1,
  )
]

pub no_other_rows :
    (now : ℕ) (e : Entry) (result : Result Error ℕ) (rows all : List Observation)
    → keep (same_topic e) all ≡ []
    → All (λ r. Memᴰ r all) rows
    → InNamespace e rows
    → All (λ r. on_topic e r ≡ true → IsWritten now e result r) rows
no_other_rows now e result [] all none_there here spaces = tt
no_other_rows now e result (r ∷ rows) all none_there here spaces = (
  (λ h.
      let own = topic_in_namespace e r h (spaces.0 h) in
      absurd
        (Memᴰ.not-nil (subst (Memᴰ r) none_there (Memᴰ-keep (same_topic e) r all own here.0)))),
  no_other_rows now e result rows all none_there here.1 spaces.1,
)

pub new_row-on_topic :
    (now id : ℕ) (e : Entry) → is_empty e.topic_key ≡ false → on_topic e (new_row now e id) ≡ true
new_row-on_topic now id e keyed =
    rw
      (
        nullable_some e.topic_key keyed,
        ==_refl e.topic_key,
        ==_refl (or_blank e.project),
        ==_refl e.scope,
      )
      refl
