-- ===== src/Memory/Observations/Sessions.antt =====
-- internal/memory/store.go: `CreateSession` and the observations.
use sdd_hoffy.Common.{
  String, ℕ, ◌≡◌, refl, true, ◌==◌, string_eq, ==_refl, any, any-append_right, Bool-cases, inl, inr,
}
use sdd_hoffy.Memory.Types.{Db}
use sdd_hoffy.Memory.Observations.{create_session, session_exists}
use sdd_hoffy.Memory.Observations.Topics.{IsKept}

pub create_session-rows :
    (now : ℕ) (id project directory : String) (db : Db)
    → (create_session now id project directory db).observations ≡ db.observations
unfolding create_session
create_session-rows now id project directory db =
    elim (Bool-cases (any (λ s. s.id == id) db.sessions)) [
      | inl there ↦ rw there refl
      | inr new ↦ rw new refl
    ]

pub create_session-IsKept :
    (now : ℕ) (id project directory : String) (db : Db)
    → IsKept db
    → IsKept (create_session now id project directory db)
unfolding create_session
create_session-IsKept now id project directory db k =
    elim (Bool-cases (any (λ s. s.id == id) db.sessions)) [
      | inl there ↦ rw there k
      | inr new ↦ rw new record { fresh = k.fresh; distinct = k.distinct; single = k.single }
    ]

pub create_session-exists :
    (now : ℕ) (id project directory : String) (db : Db)
    → session_exists id (create_session now id project directory db) ≡ true
unfolding create_session
create_session-exists now id project directory db =
    elim (Bool-cases (any (λ s. s.id == id) db.sessions)) [
      | inl there ↦ rw there there
      | inr new ↦ rw new (any-append_right (λ s. s.id == id) db.sessions _ (rw (==_refl id) refl))
    ]
