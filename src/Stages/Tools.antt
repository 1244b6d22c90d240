-- ===== src/Stages/Tools.antt =====
-- internal/tools: the handlers of the project's stages. Beside the project they return the saved
-- configuration or the error; agent instruction files are left out.
use sdd_hoffy.Common.{String, [], ◌∷◌, ◌==◌, string_eq, if◌then◌else◌}
use sdd_hoffy.Common.Result.{Result, err}
use sdd_hoffy.Pipeline.Config.{ProjectConfig, new_project_config}
use sdd_hoffy.Stages.Files.{Error, Faults, Project, save, exists, project_exists, mkdir_failed}
use sdd_hoffy.Stages.Documents.{
  Document, Renderer, principles, charter, requirements, design, tasks, business_rules,
}
use sdd_hoffy.Stages.Steps.{complete_stage, checked}
use sdd_hoffy.Stages.Requests.{
  InitRequest, PrinciplesRequest, CharterRequest, SpecifyRequest, BusinessRulesRequest,
  DesignRequest, TasksRequest, check_init, check_principles, check_charter, check_specify,
  check_business_rules, check_design, check_tasks,
}

-- `if field == "" { field = value }`
abbrev pub or_default : String → String → String
or_default value field = if field == "" then value else field

unfoldable pub handle_init :
    String → Faults → InitRequest → Project → Project × Result Error ProjectConfig
unfolding check_init save new_project_config
handle_init now io r p = checked p (check_init r) (
    if exists p.config
    then (p, err project_exists)
    else if io.mkdir
    then (p, err mkdir_failed)
    else save now io (new_project_config now r.name r.description r.mode) p)

abbrev pub principles_document : PrinciplesRequest → ProjectConfig → Document
principles_document r cfg = principles record {
  name = cfg.name;
  principles = r.principles;
  coding_standards = r.coding_standards;
  domain_truths = r.domain_truths;
}

unfoldable pub handle_principles :
    String → Faults → Renderer → PrinciplesRequest → Project → Project × Result Error ProjectConfig
unfolding check_principles complete_stage
handle_principles now io render r p =
    checked p (check_principles r)
      (complete_stage now io render "principles" [] (principles_document r) p)

abbrev pub charter_document : CharterRequest → ProjectConfig → Document
charter_document r cfg = charter record {
  name = cfg.name;
  problem_statement = r.problem_statement;
  target_users = r.target_users;
  proposed_solution = r.proposed_solution;
  success_criteria = r.success_criteria;
  domain_context = r.domain_context;
  stakeholders = r.stakeholders;
  vision = r.vision;
  boundaries = r.boundaries;
  existing_systems = r.existing_systems;
  constraints = r.constraints;
}

unfoldable pub handle_charter :
    String → Faults → Renderer → CharterRequest → Project → Project × Result Error ProjectConfig
unfolding check_charter complete_stage
handle_charter now io render r p =
    checked p (check_charter r) (complete_stage now io render "charter" [] (charter_document r) p)

abbrev pub specify_document : SpecifyRequest → ProjectConfig → Document
specify_document r cfg = requirements record {
  name = cfg.name;
  must_have = r.must_have;
  should_have = r.should_have;
  could_have = or_default "_None defined for this version._" r.could_have;
  wont_have = or_default "_None defined for this version._" r.wont_have;
  non_functional = r.non_functional;
  constraints = or_default "_None identified._" r.constraints;
  assumptions = or_default "_None identified._" r.assumptions;
  dependencies = or_default "_None identified._" r.dependencies;
}

unfoldable pub handle_specify :
    String → Faults → Renderer → SpecifyRequest → Project → Project × Result Error ProjectConfig
unfolding check_specify complete_stage
handle_specify now io render r p =
    checked p (check_specify r)
      (complete_stage now io render "specify" ("charter" ∷ []) (specify_document r) p)

abbrev pub business_rules_document : BusinessRulesRequest → ProjectConfig → Document
business_rules_document r cfg = business_rules record {
  name = cfg.name;
  definitions = r.definitions;
  facts = r.facts;
  constraints = r.constraints;
  derivations = r.derivations;
  glossary = r.glossary;
}

unfoldable pub handle_business_rules :
    String
    → Faults
    → Renderer
    → BusinessRulesRequest
    → Project
    → Project × Result Error ProjectConfig
unfolding check_business_rules complete_stage
handle_business_rules now io render r p =
    checked p (check_business_rules r)
      (complete_stage now io render "business-rules" ("specify" ∷ []) (business_rules_document r) p)

abbrev pub design_document : DesignRequest → ProjectConfig → Document
design_document r cfg = design record {
  name = cfg.name;
  architecture_overview = r.architecture_overview;
  tech_stack = r.tech_stack;
  components = r.components;
  api_contracts =
      or_default "_No API contracts defined — this project does not expose an API._"
        r.api_contracts;
  data_model = r.data_model;
  infrastructure = or_default "_Not yet defined._" r.infrastructure;
  security = or_default "_Not yet defined._" r.security;
  quality_analysis = or_default "_No structural quality analysis provided._" r.quality_analysis;
}

unfoldable pub handle_design :
    String → Faults → Renderer → DesignRequest → Project → Project × Result Error ProjectConfig
unfolding check_design complete_stage
handle_design now io render r p =
    checked p (check_design r)
      (complete_stage now io render "design" ("specify" ∷ []) (design_document r) p)

abbrev pub tasks_document : TasksRequest → ProjectConfig → Document
tasks_document r cfg = tasks record {
  name = cfg.name;
  total_tasks = r.total_tasks;
  estimated_effort = r.estimated_effort;
  tasks = r.tasks;
  dependency_graph =
      or_default "_No explicit dependency graph defined. Tasks should be executed in order._"
        r.dependency_graph;
  wave_assignments = r.wave_assignments;
  acceptance_criteria =
      or_default "_No global acceptance criteria defined. See individual task criteria._"
        r.acceptance_criteria;
}

unfoldable pub handle_tasks :
    String → Faults → Renderer → TasksRequest → Project → Project × Result Error ProjectConfig
unfolding check_tasks complete_stage
handle_tasks now io render r p =
    checked p (check_tasks r)
      (complete_stage now io render "tasks" ("design" ∷ []) (tasks_document r) p)
