-- ===== src/Memory/Passive/Again.antt =====
-- internal/memory/store.go: PassiveCapture of learnings that the memory has already.
use mathlib.Core.Path.{subst}
use sdd_hoffy.Common.{
  ℕ, suc, ◌+◌, ◌≡◌, refl, ap, ◌∙◌, sym, List, [], ◌∷◌, true, ◌==◌, nat_eq, text_eq, string_eq,
  length, any, any-append_left, any-append_right, All, arith, Bool-cases, inl, inr,
}
use sdd_hoffy.Common.Result.{Result, ok}
use sdd_hoffy.Common.Text.{Text}
use sdd_hoffy.Memory.Types.{Db, StoreConfig, Engine, IsEngine, Error}
use sdd_hoffy.Memory.Observations.{session_exists}
use sdd_hoffy.Memory.Passive.{
  PassiveCaptureParams, PassiveCaptureResult, holds, is_known, capture_one, capture_all,
  passive_capture,
}
use sdd_hoffy.Memory.Passive.Round.{Plain, new_row-holds, capture_unknown, capture_known}

module _ (engine : Engine) (cfg : StoreConfig) (p : PassiveCaptureParams) where
  -- What the loop leaves where it has been given learnings.
  pub record IsCaptured (learnings : List Text) (db : Db) (r : PassiveCaptureResult)
      (after : Db × Result Error PassiveCaptureResult) : Type 0 where
    pub answer : PassiveCaptureResult
    pub answered : after.1 ≡ ok answer
    pub extracted : answer.extracted ≡ r.extracted
    pub counted : answer.saved + answer.duplicates ≡ r.saved + r.duplicates + length learnings
    pub known : All (λ learning. is_known engine p.project learning after.0 ≡ true) learnings
    pub still_known :
        (other : Text)
        → is_known engine p.project other db ≡ true
        → is_known engine p.project other after.0 ≡ true
    pub same_sessions : after.0.sessions ≡ db.sessions

  capture_one-IsCaptured :
      (now : ℕ) (learning : Text) (db : Db) (r : PassiveCaptureResult)
      → IsEngine engine
      → Plain engine cfg p learning
      → session_exists p.session_id db ≡ true
      → IsCaptured (learning ∷ []) db r (capture_one engine cfg now p learning (db, ok r))
  capture_one-IsCaptured now learning db r lawful plain session =
      elim (Bool-cases (is_known engine p.project learning db)) [
        | inl known ↦ rw (capture_known engine cfg p now learning db r known) record {
          answer = record r { duplicates = r.duplicates + 1 };
          answered = refl;
          extracted = refl;
          counted = omega arith;
          known = (known, tt);
          still_known = λ other h. h;
          same_sessions = refl;
        }
        | inr unknown ↦
            rw (capture_unknown engine cfg p now learning db r lawful plain session unknown)
              record {
                answer = record r { saved = r.saved + 1 };
                answered = refl;
                extracted = refl;
                counted = omega arith;
                known = (
                  any-append_right (holds engine p.project learning) db.observations _
                      (rw (new_row-holds engine cfg p now db.next_observation learning plain) refl),
                  tt,
                );
                still_known =
                    λ other h. any-append_left (holds engine p.project other) db.observations _ h;
                same_sessions = refl;
              }
      ]

  capture_all-IsCaptured :
      (now : ℕ) (learnings : List Text) (db : Db) (r : PassiveCaptureResult)
      → IsEngine engine
      → All (Plain engine cfg p) learnings
      → session_exists p.session_id db ≡ true
      → IsCaptured learnings db r (capture_all engine cfg now p learnings (db, ok r))
  unfolding capture_all
  capture_all-IsCaptured now [] db r lawful plain session = record {
    answer = r;
    answered = refl;
    extracted = refl;
    counted = omega arith;
    known = tt;
    still_known = λ other h. h;
    same_sessions = refl;
  }
  capture_all-IsCaptured now (learning ∷ learnings) db r lawful plain session =
      let first = capture_one-IsCaptured now learning db r lawful plain.0 session in
      let state = capture_one engine cfg now p learning (db, ok r) in
      let there = ap (any (λ s. s.id == p.session_id)) first.same_sessions ∙ session in
      let rest = capture_all-IsCaptured now learnings state.0 first.answer lawful plain.1 there in
      let same : (state.0, ok first.answer) ≡ state = λ i. (state.0, sym first.answered i) in
      subst
        (λ st. IsCaptured (learning ∷ learnings) db r (capture_all engine cfg now p learnings st))
        same
        record {
          answer = rest.answer;
          answered = rest.answered;
          extracted = rest.extracted ∙ first.extracted;
          counted = omega (arith, rest.counted, first.counted);
          known = (rest.still_known learning first.known.0, rest.known);
          still_known = λ other h. rest.still_known other (first.still_known other h);
          same_sessions = rest.same_sessions ∙ first.same_sessions;
        }

  capture_all_known :
      (now : ℕ) (learnings : List Text) (db : Db) (r : PassiveCaptureResult)
      → All (λ learning. is_known engine p.project learning db ≡ true) learnings
      → capture_all engine cfg now p learnings (db, ok r)
        ≡ (db, ok record r { duplicates = r.duplicates + length learnings })
  unfolding capture_all
  capture_all_known now [] db r h =
      let none_more : r.duplicates + 0 ≡ r.duplicates = omega arith in rw none_more refl
  capture_all_known now (learning ∷ learnings) db r h =
      let more : r.duplicates + 1 + length learnings ≡ r.duplicates + suc (length learnings) =
        omega arith in
      rw (capture_known engine cfg p now learning db r h.0) (
        capture_all_known now learnings db (record r { duplicates = r.duplicates + 1 }) h.1
        ∙ ap (λ n. (db, ok record r { duplicates = n })) more)

  -- PassiveCapture, in an existing session and with learnings whose hash AddObservation stores as it
  -- stands, succeeds and counts each learning as saved or as a duplicate; a second capture of the same
  -- learnings, at any time, finds all of them to be duplicates and changes nothing.
  pub passive_capture_again :
      (now : ℕ) (learnings : List Text) (db : Db)
      → IsEngine engine
      → All (Plain engine cfg p) learnings
      → session_exists p.session_id db ≡ true
      → (r : PassiveCaptureResult) × ((passive_capture engine cfg now p learnings db).1 ≡ ok r)
        × (r.extracted ≡ length learnings)
        × (r.saved + r.duplicates ≡ length learnings)
        × ((later : ℕ)
            → passive_capture engine cfg later p learnings
                (passive_capture engine cfg now p learnings db).0
              ≡ (
                (passive_capture engine cfg now p learnings db).0,
                ok record {
                  extracted = length learnings;
                  saved = 0;
                  duplicates = length learnings;
                },
              ))
  unfolding passive_capture
  passive_capture_again now learnings db lawful plain session =
      let none_yet : PassiveCaptureResult = record {
        extracted = length learnings;
        saved = 0;
        duplicates = 0;
      } in
      let none_before : 0 + length learnings ≡ length learnings = omega arith in
      let k = capture_all-IsCaptured now learnings db none_yet lawful plain session in
      (
        k.answer,
        k.answered,
        k.extracted,
        omega (arith, k.counted),
        λ later.
            capture_all_known later learnings
              (capture_all engine cfg now p learnings (db, ok none_yet)).0 none_yet k.known
            ∙ ap
                (λ n. (
                  (capture_all engine cfg now p learnings (db, ok none_yet)).0,
                  ok record none_yet { duplicates = n },
                ))
                none_before,
      )
