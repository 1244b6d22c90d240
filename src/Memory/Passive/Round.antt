-- ===== src/Memory/Passive/Round.antt =====
-- internal/memory/store.go: one round of PassiveCapture, for a learning that the memory has and for one
-- that it has not.
use mathlib.Core.Bool.{false≢true}
use mathlib.Core.List.{Memᴰ}
use mathlib.Core.List.Memᴰ
use sdd_hoffy.Common.{
  ℕ, ◌+◌, ◌≡◌, refl, ap, ◌∙◌, sym, List, [], ◌∷◌, ◌++◌, Bool, true, false, nat_eq, text_eq,
  string_eq, ==_refl, any, keep, arith, Option-cases, inl, inr,
}
use sdd_hoffy.Common.Result.{ok}
use sdd_hoffy.Common.Rows.{kept_from}
use sdd_hoffy.Memory.Observations.Topics.{or_blank-nullable}
use sdd_hoffy.Memory.Observations.Kept.{All-map_into}
use sdd_hoffy.Common.Text.{Text}
use sdd_hoffy.Memory.Types.{Observation, Db, StoreConfig, Engine, IsEngine}
use sdd_hoffy.Memory.Text.{hash_normalized, normalize_topic_key}
use sdd_hoffy.Memory.Observations.{
  Entry, or_blank, prepare, add_entry, add_observation, insert_row, dedupe_or_insert, duplicate_of,
  new_row, session_exists,
}
use sdd_hoffy.Memory.Passive.{
  PassiveCaptureParams, PassiveCaptureResult, holds, is_known, learning_params, saved_one,
  capture_one,
}

-- A learning that AddObservation stores as it stands, as far as its hash goes: without private parts, and
-- not too long.
abbrev pub Plain : Engine → StoreConfig → PassiveCaptureParams → Text → Type 0
Plain engine cfg p learning =
    (prepare engine cfg (learning_params p learning)).hash ≡ hash_normalized engine.digest learning

any-Memᴰ :
    (q : Observation → Bool) (xs : List Observation) (y : Observation)
    → Memᴰ y xs
    → q y ≡ true
    → any q xs ≡ true
any-Memᴰ q [] y m h = absurd (Memᴰ.not-nil m)
any-Memᴰ q (x ∷ xs) y m h = elim (Memᴰ.cases_cons m) [
  | inl same ↦ rw (ap q (sym same) ∙ h) refl
  | inr later ↦ ground (arith, any-Memᴰ q xs y later h)
]

inserted :
    (now : ℕ) (e : Entry) (db : Db)
    → session_exists e.session_id db ≡ true
    → insert_row now e db ≡ (
      record db {
        observations = db.observations ++ new_row now e db.next_observation ∷ [];
        next_observation = db.next_observation + 1;
      },
      ok db.next_observation,
    )
unfolding insert_row
inserted now e db h = rw h refl

module _ (engine : Engine) (cfg : StoreConfig) (p : PassiveCaptureParams) where
  -- What AddObservation does with a learning: there is no topic.
  add_learning :
      (now : ℕ) (learning : Text) (db : Db)
      → add_observation engine cfg now (learning_params p learning) db
        ≡ dedupe_or_insert now
            (prepare engine cfg (learning_params p learning))
            (engine.newest (
              keep
                (duplicate_of now cfg.dedupe_window
                  (prepare engine cfg (learning_params p learning)))
                db.observations))
            db
  unfolding add_observation add_entry prepare learning_params normalize_topic_key
  add_learning now learning db = refl

  prepared_project :
      (learning : Text)
      → or_blank (prepare engine cfg (learning_params p learning)).project ≡ p.project
  unfolding prepare learning_params
  prepared_project learning = or_blank-nullable p.project

  prepared_session :
      (learning : Text)
      → (prepare engine cfg (learning_params p learning)).session_id ≡ p.session_id
  unfolding prepare learning_params
  prepared_session learning = refl

  matched_known :
      (now : ℕ) (learning : Text) (rows : List Observation) (o : Observation)
      → Plain engine cfg p learning
      → Memᴰ o rows
      → duplicate_of now cfg.dedupe_window (prepare engine cfg (learning_params p learning)) o
        ≡ true
      → any (holds engine p.project learning) rows ≡ true
  matched_known now learning rows o plain here same =
      any-Memᴰ (holds engine p.project learning) rows o here
        (let at_project = rw (plain, prepared_project learning) at same in ground arith)

  -- A learning that is not known has no duplicate, and becomes a new row.
  add_unknown :
      (now : ℕ) (learning : Text) (db : Db)
      → IsEngine engine
      → Plain engine cfg p learning
      → is_known engine p.project learning db ≡ false
      → add_observation engine cfg now (learning_params p learning) db
        ≡ insert_row now (prepare engine cfg (learning_params p learning)) db
  add_unknown now learning db lawful plain unknown =
      let e = prepare engine cfg (learning_params p learning) in
      let duplicates = keep (duplicate_of now cfg.dedupe_window e) db.observations in
      elim (Option-cases (engine.newest duplicates)) [
        | inl single ↦ add_learning now learning db ∙ ap (λ d. dedupe_or_insert now e d db) single
        | inr (o, found) ↦ absurd (
            false≢true (
              sym unknown
              ∙ lawful.newest_among (λ r. is_known engine p.project learning db ≡ true) duplicates o
                  (All-map_into _ _ duplicates
                    (λ r h. matched_known now learning db.observations r plain h.0 h.1)
                    (kept_from (duplicate_of now cfg.dedupe_window e)
                      (λ r. duplicate_of now cfg.dedupe_window e r ≡ true) db.observations
                      (λ r h. h)))
                  found))
      ]

  -- The new row holds its learning, and the rows before it are still there.
  pub new_row-holds :
      (now id : ℕ) (learning : Text)
      → Plain engine cfg p learning
      → holds engine p.project learning
          (new_row now (prepare engine cfg (learning_params p learning)) id)
        ≡ true
  new_row-holds now id learning plain =
      rw
        (
          plain,
          prepared_project learning,
          ==_refl (hash_normalized engine.digest learning),
          ==_refl p.project,
        )
        refl

  pub capture_unknown :
      (now : ℕ) (learning : Text) (db : Db) (r : PassiveCaptureResult)
      → IsEngine engine
      → Plain engine cfg p learning
      → session_exists p.session_id db ≡ true
      → is_known engine p.project learning db ≡ false
      → capture_one engine cfg now p learning (db, ok r) ≡ (
        record db {
          observations =
              db.observations
              ++ new_row now (prepare engine cfg (learning_params p learning)) db.next_observation
                ∷ [];
          next_observation = db.next_observation + 1;
        },
        ok record r { saved = r.saved + 1 },
      )
  unfolding capture_one
  capture_unknown now learning db r lawful plain session unknown =
      let there = ap (λ i. session_exists i db) (prepared_session learning) ∙ session in
      rw unknown (
        ap (saved_one r)
          (add_unknown now learning db lawful plain unknown ∙ inserted now _ db there))

  pub capture_known :
      (now : ℕ) (learning : Text) (db : Db) (r : PassiveCaptureResult)
      → is_known engine p.project learning db ≡ true
      → capture_one engine cfg now p learning (db, ok r)
        ≡ (db, ok record r { duplicates = r.duplicates + 1 })
  unfolding capture_one
  capture_known now learning db r known = rw known refl
