-- ===== src/Stages/Documents.antt =====
-- internal/templates/templates.go: the data of the documents, and the interface `Renderer`. What the
-- templates make of the data is a parameter.
use sdd_hoffy.Common.{String, ℕ, Option, some, ◌≡◌, false}
use sdd_hoffy.Common.Text.{Text, is_empty}

pub record PrinciplesData : Type 0 where
  pub name : String
  pub principles : String
  pub coding_standards : String
  pub domain_truths : String

pub record CharterData : Type 0 where
  pub name : String
  pub problem_statement : String
  pub target_users : String
  pub proposed_solution : String
  pub success_criteria : String
  pub domain_context : String
  pub stakeholders : String
  pub vision : String
  pub boundaries : String
  pub existing_systems : String
  pub constraints : String

pub record RequirementsData : Type 0 where
  pub name : String
  pub must_have : String
  pub should_have : String
  pub could_have : String
  pub wont_have : String
  pub non_functional : String
  pub constraints : String
  pub assumptions : String
  pub dependencies : String

pub record ClarificationsData : Type 0 where
  pub name : String
  pub clarity_score : ℕ
  pub mode : String
  pub threshold : ℕ
  pub status : String
  pub rounds : Text

pub record DesignData : Type 0 where
  pub name : String
  pub architecture_overview : String
  pub tech_stack : String
  pub components : String
  pub api_contracts : String
  pub data_model : String
  pub infrastructure : String
  pub security : String
  pub quality_analysis : String

pub record TasksData : Type 0 where
  pub name : String
  pub total_tasks : String
  pub estimated_effort : String
  pub tasks : String
  pub dependency_graph : String
  pub wave_assignments : String
  pub acceptance_criteria : String

pub record BusinessRulesData : Type 0 where
  pub name : String
  pub definitions : String
  pub facts : String
  pub constraints : String
  pub derivations : String
  pub glossary : String

-- The template that is named, with its data.
pub data Document : Type 0 where
  principles : PrinciplesData → Document
  charter : CharterData → Document
  requirements : RequirementsData → Document
  clarifications : ClarificationsData → Document
  design : DesignData → Document
  tasks : TasksData → Document
  business_rules : BusinessRulesData → Document

-- `Render`; `none` is its error.
abbrev pub Renderer : Type 0
Renderer = Document → Option Text

-- Every template has text of its own, so that no document is empty.
abbrev pub IsRenderer : Renderer → Type 0
IsRenderer render =
    (d : Document) (content : Text) → render d ≡ some content → is_empty content ≡ false
