-- ===== src/Examples/Decisions.antt =====
-- Concrete decisions for the theorem on their files.
use sdd_hoffy.Common.{◌<◌, ◌≡◌, refl, [], ◌∷◌, none, some, false, arith}
use sdd_hoffy.Common.Text.{codes}
use sdd_hoffy.Changes.Store.Laws.{no_faults}
use sdd_hoffy.Changes.Decisions.{
  AdrFaults, AdrRequest, Decisions, next_adr_number, adr_filename, slugify_title, handle_adr,
}
use sdd_hoffy.Changes.Decisions.Kept.{IsGrown, handle_adr-IsGrown}

abbrev request : AdrRequest
request = record {
  title = codes "Use PostgreSQL over MongoDB!";
  context = codes "We need a database";
  decision = codes "PostgreSQL";
  rationale = codes "It is known";
  alternatives_rejected = [];
  status = "accepted";
}

request_slug : slugify_title request.title ≡ codes "use-postgresql-over-mongodb"
unfolding slugify_title
request_slug = refl

abbrev nothing_fails : AdrFaults
nothing_fails = record { mkdir = false; unreadable = false; write = none; store = no_faults }

abbrev with_two : Decisions
with_two = record {
  store = record { changes = []; history = [] };
  adrs =
      record { name = codes "001-use-go.md"; content = some (codes "# Use Go") }
      ∷ record { name = codes "007-drafts"; content = none }
      ∷ [];
}

with_two_small : next_adr_number false with_two.adrs < 1000
unfolding next_adr_number
with_two_small = omega arith

handle_adr-IsGrown_example :
    IsGrown with_two.adrs
      (adr_filename (next_adr_number false with_two.adrs) (slugify_title request.title))
      (handle_adr "t0" nothing_fails request with_two).0.adrs
handle_adr-IsGrown_example =
    handle_adr-IsGrown "t0" nothing_fails request with_two refl with_two_small
