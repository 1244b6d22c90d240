-- ===== src/Memory/Observations/Topics.antt =====
-- internal/memory/store.go: the invariant of the observations. Identifiers are fresh, and at most one
-- live row has a given topic key in a given project, scope and namespace.
use mathlib.Core.Bool.{false≢true}
use sdd_hoffy.Common.{
  String, ℕ, ◌+◌, ◌<◌, ◌≤◌, ◌≡◌, refl, sym, ap, ◌∙◌, List, [], ◌∷◌, ◌++◌, Option, none, some, Bool,
  true, false, ◌==◌, nat_eq, text_eq, string_eq, ==_iff, All, All-append, keep, update_where,
  length, arith, Bool-cases, inl, inr,
}
use sdd_hoffy.Common.Text.{Text, is_empty}
use sdd_hoffy.Memory.Types.{Observation, Db}
use sdd_hoffy.Memory.Text.{nullable_text, nullable_string}
use sdd_hoffy.Memory.Observations.{
  Entry, or_blank, topic_is, namespace_is, same_topic, revise, new_row, update_row,
}
use sdd_hoffy.Memory.Observations.Kept.{length-keep-update_where}

abbrev pub ids : List Observation → List ℕ
ids [] = []
ids (o ∷ os) = o.id ∷ ids os

abbrev pub DistinctIds : List ℕ → Type 0
DistinctIds [] = Unit
DistinctIds (i ∷ is) = All (λ j. (i == j) ≡ false) is × DistinctIds is

pub record IsKept (db : Db) : Type 0 where
  pub fresh : All (λ i. i < db.next_observation) (ids db.observations)
  pub distinct : DistinctIds (ids db.observations)
  pub single : (e : Entry) → length (keep (same_topic e) db.observations) ≤ 1

pub ids-update_where :
    (q : Observation → Bool) (f : Observation → Observation) (os : List Observation)
    → ((o : Observation) → (f o).id ≡ o.id)
    → ids (update_where q f os) ≡ ids os
ids-update_where q f [] h = refl
ids-update_where q f (o ∷ os) h = elim (Bool-cases (q o)) [
  | inl yes_q ↦ rw (yes_q, h o) (ap (λ r. o.id ∷ r) (ids-update_where q f os h))
  | inr no_q ↦ rw no_q (ap (λ r. o.id ∷ r) (ids-update_where q f os h))
]

-- With distinct identifiers, a row is the only one with its identifier.
abbrev pub OnlyRow : List Observation → Observation → Type 0
OnlyRow os o = All (λ r. (r.id == o.id) ≡ true → r ≡ o) os

other_ids :
    (i : ℕ) (os : List Observation)
    → All (λ j. (i == j) ≡ false) (ids os)
    → All (λ r. (i == r.id) ≡ false) os
other_ids i [] h = tt
other_ids i (o ∷ os) h = (h.0, other_ids i os h.1)

add_row :
    (x : Observation) (os rows : List Observation)
    → All (λ r. (x.id == r.id) ≡ false) rows
    → All (OnlyRow os) rows
    → All (OnlyRow (x ∷ os)) rows
add_row x os [] h a = tt
add_row x os (r ∷ rows) h a =
    (((λ e. absurd (false≢true (sym h.0 ∙ e))), a.0), add_row x os rows h.1 a.1)

others :
    (x : Observation) (os : List Observation) → All (λ r. (x.id == r.id) ≡ false) os → OnlyRow os x
others x [] h = tt
others x (r ∷ os) h = (
  (λ e. absurd (false≢true (sym h.0 ∙ (==_iff x.id r.id).1 (sym ((==_iff r.id x.id).0 e))))),
  others x os h.1,
)

pub only_rows : (os : List Observation) → DistinctIds (ids os) → All (OnlyRow os) os
only_rows [] d = tt
only_rows (o ∷ os) d =
    let apart = other_ids o.id os d.0 in
    (((λ e. refl), others o os apart), add_row o os os apart (only_rows os d.1))

topic_some : (key : Text) (o : Option Text) → topic_is key o ≡ true → o ≡ some key
topic_some key none h = cc
topic_some key (some k) h = ap some ((==_iff k key).0 h)

pub nullable_some : (s : Text) → is_empty s ≡ false → nullable_text s ≡ some s
nullable_some [] h = cc
nullable_some (c ∷ s) h = refl

matched_topic :
    (e : Entry) (o : Observation) → same_topic e o ≡ true → o.topic_key ≡ some e.topic_key
matched_topic e o h = topic_some e.topic_key o.topic_key (ground arith)

pub revise_same :
    (now : ℕ) (e e' : Entry) (o : Observation)
    → is_empty e.topic_key ≡ false
    → same_topic e o ≡ true
    → same_topic e' (revise now e o) ≡ same_topic e' o
revise_same now e e' o keyed h = rw (nullable_some e.topic_key keyed, matched_topic e o h)

pub update_row-IsKept :
    (o : Observation) (f : Observation → Observation) (db : Db)
    → ((r : Observation) → (f r).id ≡ r.id)
    → ((e : Entry)
        → All (λ r. (r.id == o.id) ≡ true → same_topic e (f r) ≡ same_topic e r) db.observations)
    → IsKept db
    → IsKept (update_row o.id f db)
update_row-IsKept o f db same_id same_kept k =
    let same_ids = ids-update_where (λ r. r.id == o.id) f db.observations same_id in
    record {
      fresh = rw same_ids k.fresh;
      distinct = rw same_ids k.distinct;
      single = λ e.
          rw
            (length-keep-update_where (same_topic e) (λ r. r.id == o.id) f db.observations
              (same_kept e))
            (k.single e);
    }

pub ids-append :
    (os : List Observation) (o : Observation) → ids (os ++ o ∷ []) ≡ ids os ++ o.id ∷ []
ids-append [] o = refl
ids-append (x ∷ os) o = ap (λ r. x.id ∷ r) (ids-append os o)

pub All-fresh : (n : ℕ) (is : List ℕ) → All (λ i. i < n) is → All (λ i. i < n + 1) is
All-fresh n [] h = tt
All-fresh n (i ∷ is) h = (omega (arith, h.0), All-fresh n is h.1)

below_differs : (i n : ℕ) → i < n → (i == n) ≡ false
below_differs i n h = elim (Bool-cases (i == n)) [
  | inl same ↦ absurd (let e : i ≡ n = (==_iff i n).0 same in omega arith)
  | inr differs ↦ differs
]

pub DistinctIds-append :
    (n : ℕ) (is : List ℕ) → All (λ i. i < n) is → DistinctIds is → DistinctIds (is ++ n ∷ [])
DistinctIds-append n [] h d = (tt, tt)
DistinctIds-append n (i ∷ is) h d = (
  All-append (λ j. (i == j) ≡ false) is (n ∷ []) d.0 (below_differs i n h.0, tt),
  DistinctIds-append n is h.1 d.1,
)

namespace_same : (a b : Option String) → namespace_is a b ≡ true → a ≡ b
namespace_same none none h = refl
namespace_same none (some b) h = cc
namespace_same (some a) none h = cc
namespace_same (some a) (some b) h = ap some ((==_iff a b).0 h)

topic_nullable : (key s : Text) → topic_is key (nullable_text s) ≡ true → s ≡ key
topic_nullable key [] h = cc
topic_nullable key (c ∷ s) h = (==_iff (c ∷ s) key).0 h

-- A new row has the topic of another entry only if that entry asks for the same rows.
pub same_entry :
    (now id : ℕ) (e e' : Entry)
    → same_topic e' (new_row now e id) ≡ true
    → (r : Observation) → same_topic e' r ≡ same_topic e r
same_entry now id e e' h r =
    let key = topic_nullable e'.topic_key e.topic_key (ground arith) in
    let project : or_blank e.project ≡ or_blank e'.project =
      (==_iff (or_blank e.project) (or_blank e'.project)).0 (ground arith) in
    let scope : e.scope ≡ e'.scope = (==_iff e.scope e'.scope).0 (ground arith) in
    let space = namespace_same e'.namespace e.namespace (ground arith) in
    rw (key, project, scope, space) refl

pub or_blank-nullable : (s : String) → or_blank (nullable_string s) ≡ s
unfolding nullable_string
or_blank-nullable s = elim (Bool-cases (s == "")) [
  | inl blank ↦ rw blank (sym ((==_iff s "").0 blank))
  | inr given ↦ rw given refl
]
