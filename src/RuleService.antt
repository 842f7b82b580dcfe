-- ===== src/RuleService.antt =====
-- `RuleService` of application/rule_service.py: proposing a rule version, validating it, and making it
-- active. What raises leaves nothing behind, since the session is not committed; the one exception is
-- an activation that meets a conflict, which commits a review before it raises.
pub mod Activate
pub mod Sound
pub mod Reachable
pub mod Decided
pub mod Known
pub mod Guards
pub mod Versions
mod Tests
use andromeda_knowledge_core.Prelude.{
  ℕ, zero, suc, ◌+◌, String, ◌≡◌, refl, Bool, true, false, not, Option, none, some, List, [], ◌∷◌,
  ◌++◌, ◌&&◌, ◌||◌, any, all, keep, map, max, str_eq, if◌then◌else◌,
}
use andromeda_knowledge_core.Prelude.Int.{ℤ}
use andromeda_knowledge_core.Prelude.Tables.{find}
use andromeda_knowledge_core.Errors.{Result, ok, err, Error, validation, conflict, ◌>>=◌, or_raise}
use andromeda_knowledge_core.Json.{Value, str, obj, Fields, field, end}
use andromeda_knowledge_core.Temporal.{TemporalWindow, temporal_window}
use andromeda_knowledge_core.Dsl.Validate.{default_depth}
use andromeda_knowledge_core.Rules.{Rule}
use andromeda_knowledge_core.Rules.Payload.{RuleProblem, RuleReport, validate_rule_payload}
use andromeda_knowledge_core.Repository.{
  RuleRow, RuleTest, RuleRelation, Ontology, Core, given_text, given_number,
}
use andromeda_knowledge_core.Repository.Rules.{
  get_rule, find_rule_by_idempotency, create_rule, create_rule_relation, update_rule,
}
use andromeda_knowledge_core.Repository.Ontologies.{get_ontology, get_active_ontology}
use andromeda_knowledge_core.ChangeService.{classify_rule, record_audit, create_change}

-- The payload of `create`
pub record RuleData : Type 0 where
  pub logical_key : String
  pub version : Option ℕ
  pub rule_type : String
  pub scope : Fields
  pub conditions : Value
  pub effects : Value
  pub exceptions : Value
  pub priority : ℤ
  pub valid_from : Option ℕ
  pub valid_to : Option ℕ
  pub transaction_from : Option ℕ
  pub transaction_to : Option ℕ
  pub provenance_id : Option String
  pub ontology_version_id : Option String
  pub replaces_rule_id : Option String
  pub idempotency_key : Option String
  pub relationships : List (String × String)
  pub test_cases : List (String × Value)

-- what `validate_rule_payload` reads of a rule: `_rule_payload` of a row, and the payload in `create`
unfoldable pub payload_of : String → String → Value → Value → Value → Fields
payload_of logical_key ontology_id conditions effects exceptions =
    field "logical_key" (str logical_key) (
      field "ontology_version_id" (str ontology_id) (
        field "conditions" conditions
          (field "effects" effects (field "exceptions" exceptions end))))

-- `_rule_payload(rule)`
unfoldable pub rule_payload : RuleRow → Fields
rule_payload row =
    payload_of row.rule.logical_key row.ontology_version_id row.rule.conditions row.rule.effects
      row.rule.exceptions

-- the rule that an earlier request with the same key has made
unfoldable pub existing_rule : Core → Option String → Option RuleRow
existing_rule core key = elim (given_text key) [
  | none ↦ none
  | some k ↦ find_rule_by_idempotency core k
]

unfoldable pub check_times : RuleData → Result TemporalWindow
check_times data' =
    elim (temporal_window data'.valid_from data'.valid_to data'.transaction_from
      data'.transaction_to) [
        | ok window ↦ ok window
        | err e ↦ err (validation "INVALID_TEMPORAL_INTERVAL")
      ]

unfoldable pub ontology_for : Core → Option String → Result Ontology
ontology_for core id = elim (given_text id) [
  | some named ↦ get_ontology core named
  | none ↦ or_raise (validation "NO_ACTIVE_ONTOLOGY") (get_active_ontology core)
]

abbrev pub relation_types : List String
relation_types = "REPLACES" ∷ "OVERRIDES" ∷ "EXCLUDES" ∷ "CONFLICTS_WITH" ∷ []

-- The rule that is replaced must be there.
unfoldable pub check_replaced : Core → Option String → Result (Option String)
check_replaced core replaces = elim (given_text replaces) [
  | none ↦ ok none
  | some id ↦ do row ← get_rule core id; ok (some id)
]

-- The loop over the relationships
unfoldable pub check_relationships : Core → List (String × String) → Result ℕ
check_relationships core [] = ok 0
check_relationships core ((relation_type, target) ∷ relationships) =
    if any (str_eq relation_type) relation_types
    then (do row ← get_rule core target; check_relationships core relationships)
    else err (validation "INVALID_RULE_RELATION")

-- `max(…, default=0)` of the versions of a logical key
unfoldable pub latest_version : String → List RuleRow → ℕ
latest_version key [] = 0
latest_version key (row ∷ rows) =
    let rest = latest_version key rows in
    if str_eq row.rule.logical_key key then max row.rule.version rest else rest

-- the row that `create` stores
unfoldable pub new_rule : String → RuleData → String → ℕ → List RuleProblem → ℕ → RuleRow
new_rule id data' ontology_id version report now = record {
  rule = record {
    id = id;
    logical_key = data'.logical_key;
    version = version;
    status = "DRAFT";
    priority = data'.priority;
    scope = data'.scope;
    conditions = data'.conditions;
    effects = data'.effects;
    exceptions = data'.exceptions;
  };
  rule_type = data'.rule_type;
  valid_from = data'.valid_from;
  valid_to = data'.valid_to;
  transaction_from = now;
  transaction_to = none;
  provenance_id = data'.provenance_id;
  ontology_version_id = ontology_id;
  replaces_rule_id = data'.replaces_rule_id;
  idempotency_key = data'.idempotency_key;
  validation_report = report;
  row_version = 1;
}

abbrev new_test : String → String × Value → RuleTest
new_test id (name, expected) = record {
  rule_id = id;
  name = name;
  expected_effects = expected;
  passed = none;
}

abbrev pub relation : String → String → String → RuleRelation
relation source relation_type target = record {
  source_rule_id = source;
  relation_type = relation_type;
  target_rule_id = target;
}

unfoldable pub add_relationships : String → List (String × String) → Core → Core
add_relationships id [] core = core
add_relationships id ((relation_type, target) ∷ relationships) core =
    add_relationships id relationships
      (create_rule_relation (relation id relation_type target) core)

unfoldable pub add_replaces : String → Option String → Core → Core
add_replaces id none core = core
add_replaces id (some replaced) core = create_rule_relation (relation id "REPLACES" replaced) core

-- what `create` writes once the row is stored
unfoldable pub finish_create : String → RuleData → RuleRow → String → Core → Core
finish_create id data' row actor core =
    record_audit
      (record {
        actor = actor;
        action = "RULE_PROPOSED";
        entity_type = "rule";
        entity_id = id;
        reason = none;
      })
      (create_change
        (record {
          classification = classify_rule none (some row);
          entity_type = "rule";
          entity_id = id;
          reason = "Declarative rule proposed.";
        })
        (add_relationships id data'.relationships (
          add_replaces id (given_text data'.replaces_rule_id)
            (record core { tests = map (new_test id) data'.test_cases ++ core.tests }))))

-- the insertion, with what its conflict does: a rule with the same key is returned instead
unfoldable pub insert_rule : Core → String → RuleData → RuleRow → String → Result (Core × RuleRow)
insert_rule core id data' row actor = elim (create_rule core row) [
  | ok stored ↦
      let written = finish_create id data' row actor stored in
      do kept ← get_rule written id; ok (written, kept)
  | err e ↦ elim (existing_rule core data'.idempotency_key) [
    | some existing ↦ do kept ← get_rule core existing.rule.id; ok (core, kept)
    | none ↦ err e
  ]
]

-- `create(data, actor)` for a key that is new
unfoldable pub create_new : Core → String → RuleData → String → ℕ → Result (Core × RuleRow)
create_new core id data' actor now = do
  window ← check_times data'
  ontology ← ontology_for core data'.ontology_version_id
  replaced ← check_replaced core data'.replaces_rule_id
  related ← check_relationships core data'.relationships
  let version = given_number data'.version (latest_version data'.logical_key core.rules + 1)
  report ←
      validate_rule_payload default_depth
        (payload_of data'.logical_key ontology.id data'.conditions data'.effects data'.exceptions)
  insert_rule core id data' (new_rule id data' ontology.id version report now) actor

-- `create(data, actor)`; `id` is the new one of the rule.
unfoldable pub create : Core → String → RuleData → String → ℕ → Result (Core × RuleRow)
create core id data' actor now = elim (existing_rule core data'.idempotency_key) [
  | some existing ↦ do kept ← get_rule core existing.rule.id; ok (core, kept)
  | none ↦ create_new core id data' actor now
]

abbrev pub set_status : String → RuleRow → RuleRow
set_status status row = record row { rule = record row.rule { status = status } }

-- the status after a validation
unfoldable pub validated_status : List RuleProblem → String
validated_status [] = "REVIEW"
validated_status (problem ∷ problems) = "VALIDATING"

abbrev pub set_validated : List RuleProblem → RuleRow → RuleRow
set_validated report row = record (set_status (validated_status report) row) {
  validation_report = report;
}

-- `validate(rule_id, actor)`
unfoldable pub validate : Core → String → String → Result (Core × RuleRow)
validate core id actor = do
  row ← get_rule core id
  report ← validate_rule_payload default_depth (rule_payload row)
  updated ← update_rule core id (set_validated report) (some row.row_version)
  ok (
    record_audit
        (record {
          actor = actor;
          action = "RULE_VALIDATED";
          entity_type = "rule";
          entity_id = id;
          reason = none;
        })
        updated.0,
    updated.1,
  )
