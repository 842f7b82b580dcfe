-- ===== src/Repository.antt =====
-- infrastructure/db/models.py and infrastructure/db/repositories.py: the rows that the services of the
-- ontology and of the rules read and write, with the columns that some branch reads. The order of the
-- rows of a table means nothing, except where a query asks for the newest: new rows stand first.
pub mod Rules
pub mod Ontologies
pub mod Reviews
use andromeda_knowledge_core.Prelude.{
  ℕ, zero, suc, String, Bool, true, false, not, Option, none, some, List, str_eq,
}
use andromeda_knowledge_core.Json.{Value, Fields}
use andromeda_knowledge_core.Rules.{Rule}
use andromeda_knowledge_core.Rules.Payload.{RuleProblem}
use andromeda_knowledge_core.DependencyService

-- `RuleModel`; its status and JSON columns are in the `Rule`.
pub record RuleRow : Type 0 where
  pub rule : Rule
  pub rule_type : String
  pub valid_from : Option ℕ
  pub valid_to : Option ℕ
  pub transaction_from : ℕ
  pub transaction_to : Option ℕ
  pub provenance_id : Option String
  pub ontology_version_id : String
  pub replaces_rule_id : Option String
  pub idempotency_key : Option String
  pub validation_report : List RuleProblem
  pub row_version : ℕ

-- `RuleTestCaseModel`
pub record RuleTest : Type 0 where
  pub rule_id : String
  pub name : String
  pub expected_effects : Value
  pub passed : Option Bool

-- `RuleRelationModel`
pub record RuleRelation : Type 0 where
  pub source_rule_id : String
  pub relation_type : String
  pub target_rule_id : String

-- `OntologyVersionModel`
pub record Ontology : Type 0 where
  pub id : String
  pub version_code : String
  pub previous_version_id : Option String
  pub status : String
  pub change_type : String
  pub migration_requirements : Value
  pub activated_at : Option ℕ
  pub row_version : ℕ

-- A row of one of the three tables of definitions
pub record Definition : Type 0 where
  pub id : String
  pub kind : String
  pub ontology_version_id : String
  pub content : Fields

-- `ReviewItemModel`
pub record Review : Type 0 where
  pub id : String
  pub reason : String
  pub status : String
  pub entity_type : String
  pub entity_id : String
  pub evidence : Value
  pub proposed_change : Fields
  pub decision : Fields
  pub decided_by : Option String
  pub row_version : ℕ

-- `OntologyChangeProposalModel`
pub record OntologyProposal : Type 0 where
  pub id : String
  pub concept_key : String
  pub reason : String
  pub source_evidence : Value
  pub confidence : Value
  pub status : String
  pub review_id : String
  pub row_version : ℕ

-- `ChangeEventModel`
pub record Change : Type 0 where
  pub classification : String
  pub entity_type : String
  pub entity_id : String
  pub reason : String

-- `AuditEventModel`
pub record AuditEvent : Type 0 where
  pub actor : String
  pub action : String
  pub entity_type : String
  pub entity_id : String
  pub reason : Option String

pub record Core : Type 0 where
  pub rules : List RuleRow
  pub tests : List RuleTest
  pub relations : List RuleRelation
  pub ontologies : List Ontology
  pub definitions : List Definition
  pub reviews : List Review
  pub proposals : List OntologyProposal
  pub changes : List Change
  pub audit : List AuditEvent
  pub derivations : DependencyService.Store

-- `bool(s)` of a text that may be missing, with the text
unfoldable pub given_text : Option String → Option String
given_text none = none
given_text (some String.[]) = none
given_text (some (String.◌∷◌ c s)) = some (String.◌∷◌ c s)

-- `n or m` of a number that may be missing
unfoldable pub given_number : Option ℕ → ℕ → ℕ
given_number none default = default
given_number (some zero) default = default
given_number (some (suc n)) default = suc n
