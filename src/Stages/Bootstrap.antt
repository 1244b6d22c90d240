-- ===== src/Stages/Bootstrap.antt =====
-- internal/tools/artifacts.go and internal/tools/bootstrap.go: the documents that sdd_bootstrap writes
-- for a project that has code and no documents. The name of the project's directory is an argument; the
-- Markdown answer is the report of what is written and what is skipped.
pub mod Laws
use sdd_hoffy.Common.{
  String, List, [], ◌∷◌, ◌++◌, Option, none, some, Bool, true, false, not, ◌&&◌, ◌||◌, ◌==◌,
  string_eq, if◌then◌else◌,
}
use sdd_hoffy.Common.Result.{Result, ok, err}
use sdd_hoffy.Common.Text.{Text, codes, is_empty}
use sdd_hoffy.Pipeline.Config.{stage_filename}
use sdd_hoffy.Stages.Files.{
  Error, Faults, Project, read_stage_file, write_stage_file, mkdir_failed, nothing_given,
  render_failed,
}
use sdd_hoffy.Stages.Documents.{Document, Renderer, requirements, business_rules, design}
use sdd_hoffy.Stages.Requests.{SpecifyRequest, BusinessRulesRequest, DesignRequest}
use sdd_hoffy.Stages.Tools.{or_default}

abbrev pub auto_generated_header : Text
auto_generated_header =
    codes "> ⚡ Auto-generated by sdd_reverse_engineer — review and refine as needed\n\n"

abbrev pub headed : Bool → Text → Text
headed auto content = if auto then auto_generated_header ++ content else content

abbrev pub write_content :
    Faults → String → Bool → Option Text → Project → Project × Result Error (Unit {0})
write_content io stage auto none p = (p, err (render_failed stage))
write_content io stage auto (some content) p =
    write_stage_file io (stage_filename stage) (headed auto content) p

-- `RenderAndWriteRequirements`, `RenderAndWriteBusinessRules` and `RenderAndWriteDesign`
unfoldable pub render_and_write :
    Faults → Renderer → String → Document → Bool → Project → Project × Result Error (Unit {0})
unfolding write_stage_file stage_filename
render_and_write io render stage document auto p = write_content io stage auto (render document) p

abbrev pub has_content : Result Error Text → Bool
has_content (ok s) = not (is_empty s)
has_content (err e) = false

-- A file that cannot be read counts as absent.
unfoldable pub artifact_exists : Faults → String → Project → Bool
unfolding read_stage_file stage_filename
artifact_exists io stage p =
    if stage_filename stage == ""
    then false
    else has_content (read_stage_file io (stage_filename stage) p)

unfoldable pub check_sdd_artifacts : Faults → Project → Bool
unfolding artifact_exists
check_sdd_artifacts io p =
    artifact_exists io "business-rules" p
    || (artifact_exists io "specify" p || artifact_exists io "design" p)

pub record BootstrapRequest : Type 0 where
  pub project_name : String
  pub requirements : SpecifyRequest
  pub rules : BusinessRulesRequest
  pub design : DesignRequest

pub record Report : Type 0 where
  pub written : List String
  pub skipped : List String

abbrev given : String → Bool
given value = not (value == "")

abbrev pub requirements_given : SpecifyRequest → Bool
requirements_given r = given r.must_have || (given r.should_have || given r.non_functional)

abbrev pub rules_given : BusinessRulesRequest → Bool
rules_given r = given r.definitions || (given r.facts || given r.constraints)

abbrev pub design_given : DesignRequest → Bool
design_given r =
    given r.architecture_overview
    || (given r.tech_stack || (given r.components || given r.data_model))

abbrev pub noted :
    Report → String → Project × Result Error (Unit {0}) → Project × Result Error Report
noted report name (p, err e) = (p, err e)
noted report name (p, ok u) = (p, ok (record report { written = report.written ++ (name ∷ []) }))

-- One group of parameters: its document is written if it is given and not there, and is noted as
-- skipped if it is there.
abbrev pub write_artifact :
    Faults
    → Renderer
    → String
    → Bool
    → Bool
    → Document
    → Project × Result Error Report
    → Project × Result Error Report
write_artifact io render stage is_given is_there document (p, err e) = (p, err e)
write_artifact io render stage is_given is_there document (p, ok report) =
    if is_given && not is_there
    then noted report (stage_filename stage) (render_and_write io render stage document true p)
    else if is_there
    then (p, ok (record report { skipped = report.skipped ++ (stage_filename stage ∷ []) }))
    else (p, ok report)

abbrev to_extract : String → String
to_extract value = or_default "_To be extracted from project analysis._" value

abbrev pub requirements_of : String → SpecifyRequest → Document
requirements_of name r = requirements record {
  name = name;
  must_have = to_extract r.must_have;
  should_have = to_extract r.should_have;
  could_have = or_default "_None defined for this version._" r.could_have;
  wont_have = or_default "_None defined for this version._" r.wont_have;
  non_functional = to_extract r.non_functional;
  constraints = or_default "_None identified._" r.constraints;
  assumptions = or_default "_None identified._" r.assumptions;
  dependencies = or_default "_None identified._" r.dependencies;
}

abbrev pub rules_of : String → BusinessRulesRequest → Document
rules_of name r = business_rules record {
  name = name;
  definitions = to_extract r.definitions;
  facts = to_extract r.facts;
  constraints = to_extract r.constraints;
  derivations = r.derivations;
  glossary = r.glossary;
}

abbrev pub design_of : String → DesignRequest → Document
design_of name r = design record {
  name = name;
  architecture_overview = to_extract r.architecture_overview;
  tech_stack = to_extract r.tech_stack;
  components = to_extract r.components;
  api_contracts =
      or_default "_No API contracts defined — this project does not expose an API._"
        r.api_contracts;
  data_model = to_extract r.data_model;
  infrastructure = or_default "_Not yet defined._" r.infrastructure;
  security = or_default "_Not yet defined._" r.security;
  quality_analysis = or_default "_No structural quality analysis provided._" r.quality_analysis;
}

abbrev pub no_report : Report
no_report = record { written = []; skipped = [] }

-- The three groups, in their order; what is there is looked up before anything is written.
unfoldable pub write_artifacts :
    String → Faults → Renderer → BootstrapRequest → Project → Project × Result Error Report
unfolding render_and_write artifact_exists
write_artifacts base io render r p =
    let name = or_default base r.project_name in
    let has_requirements = artifact_exists io "specify" p in
    let has_rules = artifact_exists io "business-rules" p in
    let has_design = artifact_exists io "design" p in
    write_artifact io render "design" (design_given r.design) has_design (design_of name r.design) (
      write_artifact io render "business-rules" (rules_given r.rules) has_rules
        (rules_of name r.rules)
        (write_artifact io render "specify" (requirements_given r.requirements) has_requirements
          (requirements_of name r.requirements) (p, ok no_report)))

unfoldable pub handle_bootstrap :
    String → Faults → Renderer → BootstrapRequest → Project → Project × Result Error Report
unfolding write_artifacts
handle_bootstrap base io render r p =
    if io.mkdir
    then (p, err mkdir_failed)
    else if requirements_given r.requirements || (rules_given r.rules || design_given r.design)
    then write_artifacts base io render r p
    else (p, err nothing_given)
