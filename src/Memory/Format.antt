-- ===== src/Memory/Format.antt =====
-- internal/memory/store.go: the answers that list recent memory (FormatContextDetailed and its three
-- levels of detail). A text is the bytes that are counted; the strings of a row are taken to be ASCII.
pub mod Budget
use sdd_hoffy.Common.{
  ℕ, zero, suc, String, List, [], ◌∷◌, ◌++◌, Option, none, some, Bool, true, false, ◌&&◌, ◌==◌,
  nat_eq, string_eq, ltb, length, if◌then◌else◌,
}
use sdd_hoffy.Common.Text.{Text, codes}
use sdd_hoffy.Changes.Decimal.{decimal}
use sdd_hoffy.Memory.Types.{Observation, Db, StoreConfig}
use sdd_hoffy.Memory.Text.{truncate}
use sdd_hoffy.Memory.Detail.{parse_detail_level, estimate_tokens, budget_footer}
use sdd_hoffy.Memory.Recent.{
  SessionSummary, Prompt, Ordering, recent_observations, recent_sessions, recent_prompts,
}

pub record ContextFormatOptions : Type 0 where
  pub detail_level : String
  pub limit : ℕ
  pub namespace : String
  pub max_tokens : ℕ

abbrev pub joined {ℓ} : {A : Type ℓ} → (A → Text) → List A → Text
joined f [] = []
joined f (a ∷ rows) = f a ++ joined f rows

-- `if len(rows) > 0`: a heading, a line for each row and an empty line.
abbrev pub listed {ℓ} : {A : Type ℓ} → Text → (A → Text) → List A → Text
listed heading f [] = []
listed heading f (a ∷ rows) = heading ++ (joined f (a ∷ rows) ++ codes "\n")

-- The loop over the observations: `shown` of `total` are in `b`. With a budget it ends with a footer
-- before the first entry that does not fit.
unfoldable pub add_entries :
    ℕ → ℕ → (Observation → Text) → Text → ℕ → Text → List Observation → Text
unfolding estimate_tokens budget_footer
add_entries max total entry closing shown b [] = b ++ closing
add_entries max total entry closing shown b (o ∷ os) =
    let rest = add_entries max total entry closing (suc shown) (b ++ entry o) os in
    if ltb 0 max && ltb max (estimate_tokens (b ++ entry o))
    then b ++ budget_footer (estimate_tokens b) max shown total
    else rest

-- How a level of detail writes the rows.
pub record Layout : Type 0 where
  pub title : Text
  pub sessions_heading : Text
  pub session_line : SessionSummary → Text
  pub prompts_heading : Text
  pub prompt_line : Prompt → Text
  pub observations_heading : Text
  pub entry : Observation → Text
  pub closing : Text

abbrev pub preamble : Layout → List SessionSummary → List Prompt → Text
preamble l sessions prompts =
    l.title
    ++ (listed l.sessions_heading l.session_line sessions
        ++ listed l.prompts_heading l.prompt_line prompts)

abbrev pub with_observations : Layout → ℕ → Text → List Observation → Text
with_observations l max b [] = b
with_observations l max b (o ∷ os) =
    add_entries max (length (o ∷ os)) l.entry l.closing 0 (b ++ l.observations_heading) (o ∷ os)

unfoldable pub laid_out : Layout → List SessionSummary → List Observation → List Prompt → ℕ → Text
unfolding add_entries
laid_out l sessions observations prompts max =
    with_observations l max (preamble l sessions prompts) observations

abbrev summary_part : (Text → Text) → Option String → Text
summary_part cut none = []
summary_part cut (some s) = codes ": " ++ cut (codes s)

abbrev long_session_line : Ordering → (Text → Text) → SessionSummary → Text
long_session_line order cut s =
    codes "- **"
    ++ (codes s.project
        ++ (codes "** ("
            ++ (order.time s.started_at
                ++ (codes ")"
                    ++ (summary_part cut s.summary
                        ++ (codes " ["
                            ++ (decimal s.observation_count ++ codes " observations]\n")))))))

abbrev any_prompt_line : Ordering → (Text → Text) → Prompt → Text
any_prompt_line order cut p =
    codes "- " ++ (order.time p.created_at ++ (codes ": " ++ (cut p.content ++ codes "\n")))

-- `formatContextStandard`
unfoldable pub standard_layout : Ordering → Layout
unfolding decimal truncate
standard_layout order = record {
  title = codes "## Memory from Previous Sessions\n\n";
  sessions_heading = codes "### Recent Sessions\n";
  session_line = long_session_line order (λ s. truncate s 200);
  prompts_heading = codes "### Recent User Prompts\n";
  prompt_line = any_prompt_line order (λ s. truncate s 200);
  observations_heading = codes "### Recent Observations\n";
  entry = λ o.
      codes "- ["
      ++ (codes o.type
          ++ (codes "] **"
              ++ (o.title ++ (codes "**: " ++ (truncate o.content 300 ++ codes "\n")))));
  closing = codes "\n";
}

-- `formatContextSummary`
unfoldable pub summary_layout : Ordering → Layout
unfolding decimal truncate
summary_layout order = record {
  title = codes "## Memory Context (summary)\n\n";
  sessions_heading = codes "### Sessions\n";
  session_line = λ s.
      codes "- "
      ++ (codes s.project
          ++ (codes " ("
              ++ (order.time s.started_at
                  ++ (codes ") [" ++ (decimal s.observation_count ++ codes " obs]\n")))));
  prompts_heading = codes "### Prompts\n";
  prompt_line = any_prompt_line order (λ s. truncate s 80);
  observations_heading = codes "### Observations\n";
  entry = λ o.
      codes "- #"
      ++ (decimal o.id
          ++ (codes " [" ++ (codes o.type ++ (codes "] " ++ (o.title ++ codes "\n")))));
  closing = codes "\n";
}

-- `formatContextFull`, whose list of observations ends without an empty line
unfoldable pub full_layout : Ordering → Layout
unfolding decimal
full_layout order = record {
  title = codes "## Memory from Previous Sessions (full)\n\n";
  sessions_heading = codes "### Recent Sessions\n";
  session_line = long_session_line order (λ s. s);
  prompts_heading = codes "### Recent User Prompts\n";
  prompt_line = any_prompt_line order (λ s. s);
  observations_heading = codes "### Recent Observations\n";
  entry = λ o.
      codes "#### ["
      ++ (codes o.type
          ++ (codes "] "
              ++ (o.title
                  ++ (codes " (ID: "
                      ++ (decimal o.id ++ (codes ")\n" ++ (o.content ++ codes "\n\n")))))));
  closing = [];
}

abbrev pub layout_of : Ordering → String → Layout
layout_of order detail =
    if detail == "summary"
    then summary_layout order
    else if detail == "full"
    then full_layout order
    else standard_layout order

abbrev pub format_rows : Layout → List SessionSummary → List Observation → List Prompt → ℕ → Text
format_rows l [] [] [] max = []
format_rows l sessions observations prompts max = laid_out l sessions observations prompts max

unfoldable pub format_context_detailed :
    Ordering → StoreConfig → String → Text → ContextFormatOptions → List Prompt → Db → Text
unfolding parse_detail_level laid_out standard_layout summary_layout full_layout recent_observations
    recent_sessions recent_prompts
format_context_detailed order cfg project scope opts prompt_rows db =
    format_rows (layout_of order (parse_detail_level opts.detail_level))
      (recent_sessions order project 5 db)
      (recent_observations order cfg project scope opts.namespace
        (if ltb 0 opts.limit then opts.limit else cfg.max_context_results) db)
      (recent_prompts order project 10 prompt_rows) opts.max_tokens
