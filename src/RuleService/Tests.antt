-- ===== src/RuleService/Tests.antt =====
-- A rule that is proposed, activated and replaced, and the theorems at those calls.
use andromeda_knowledge_core.Prelude.{
  ℕ, String, ◌≡◌, refl, inl, ◌<◌, true, none, some, Option, [], ◌∷◌, any, all, keep,
}
use andromeda_knowledge_core.Text.{◌+++◌}
use andromeda_knowledge_core.Prelude.Tables.{find, update_where}
use andromeda_knowledge_core.Prelude.Int.{pos}
use andromeda_knowledge_core.Errors.{Result, ok, err}
use andromeda_knowledge_core.Json.{
  Value, str, num, bool, obj, arr, field, end, of_list, to_list, get,
}
use andromeda_knowledge_core.Json.Compare.{py_eq, is_in}
use andromeda_knowledge_core.Dsl.{kind_of, node_kind, in_texts, is_word, iterate}
use andromeda_knowledge_core.Dsl.Validate.{
  validate_dsl, validate_node, validate_shape, validate_object, validate_kind, is_empty,
}
use andromeda_knowledge_core.Rules.Payload.{
  allowed_effects, safe_validate_condition, is_mark, is_filled, validate_effect_value,
  validate_effect, enumerate, validate_effects, validate_exceptions, is_blank, has_logical_key,
  validate_rule_payload,
}
use andromeda_knowledge_core.ChangeService.{classify_rule}
use andromeda_knowledge_core.Temporal.{temporal_window, is_reversed}
use andromeda_knowledge_core.Repository.Ontologies.{get_active_ontology}
use andromeda_knowledge_core.RuleService.Sound.{is_effective}
use andromeda_knowledge_core.Graph.{targets, is_visited, sorted_nodes}
use andromeda_knowledge_core.DependencyService.{
  Report, invalidate, collect, unvisited, invalidate_derived, is_stale, is_listed, stale_count,
  audited,
}
use andromeda_knowledge_core.Repository.{
  RuleRow, RuleTest, Ontology, AuditEvent, Core, given_text, given_number,
}
use andromeda_knowledge_core.Repository.Rules.{
  get_rule, active_rules, known, has_key, bumped, list_rule_tests, status_counts, in_force,
  update_rule, check_version, create_rule, clashes, same_version, same_idempotency,
  create_rule_relation,
}
use andromeda_knowledge_core.RuleService.{
  RuleData, create, existing_rule, new_rule, set_status, rule_payload, payload_of, create_new,
  check_times, ontology_for, check_replaced, check_relationships, latest_version, insert_rule,
  finish_create, add_relationships, add_replaces,
}
use andromeda_knowledge_core.RuleService.Activate.{
  activated, activate, is_rival, tests_passed, has_passed, decide, check_ready, same_key_active,
  is_other, is_id, conflicting, make_active, supersede, add_change, changed_node,
  invalidation_reason, replacement_name,
}
use andromeda_knowledge_core.RuleService.Reachable.{
  Reachable, one_active_version, created, decided, elsewhere, here, after,
}
use andromeda_knowledge_core.RuleService.Decided.{IsReady}
use andromeda_knowledge_core.RuleService.Guards.{activate_guards, IsUncontested}
use andromeda_knowledge_core.RuleService.Versions.{create_newest}
use andromeda_knowledge_core.Rules.{effect_conflicts}

abbrev always : Value
always = obj (field "kind" (str "literal") (field "value" (bool true) end))

abbrev grant : Value
grant = arr (
    of_list (
      obj (
        field "type" (str "GRANT") (field "target" (str "bonus") (field "value" (num (pos 1)) end)))
      ∷ []))

abbrev proposal : RuleData
proposal = record {
  logical_key = "bonus";
  version = none;
  rule_type = "generic";
  scope = end;
  conditions = always;
  effects = grant;
  exceptions = arr (of_list []);
  priority = pos 0;
  valid_from = none;
  valid_to = none;
  transaction_from = none;
  transaction_to = none;
  provenance_id = some "document";
  ontology_version_id = none;
  replaces_rule_id = none;
  idempotency_key = none;
  relationships = [];
  test_cases = ("it grants", grant) ∷ [];
}

abbrev current : Ontology
current = record {
  id = "o1";
  version_code = "1";
  previous_version_id = none;
  status = "ACTIVE";
  change_type = "BACKWARD_COMPATIBLE";
  migration_requirements = str "";
  activated_at = none;
  row_version = 1;
}

abbrev start : Core
start = record {
  rules = [];
  tests = [];
  relations = [];
  ontologies = current ∷ [];
  definitions = [];
  reviews = [];
  proposals = [];
  changes = [];
  audit = [];
  derivations = record { dependencies = []; derived = []; audit = [] };
}

-- a draft whose test has passed
abbrev draft : String → ℕ → Option String → RuleRow
draft id version replaces = record (new_rule id proposal "o1" version [] 5) {
  replaces_rule_id = replaces;
}

abbrev passed_test : String → RuleTest
passed_test id = record {
  rule_id = id;
  name = "it grants";
  expected_effects = grant;
  passed = some true;
}

abbrev first_draft : Core
first_draft = record start { rules = draft "r1" 1 none ∷ []; tests = passed_test "r1" ∷ [] }

opened : Unit {0}
unfolding activate get_rule find check_ready rule_payload payload_of validate_rule_payload new_rule
    safe_validate_condition validate_dsl validate_node validate_shape validate_object validate_kind
    allowed_effects is_mark is_filled validate_effect_value validate_effect enumerate
    validate_effects validate_exceptions is_blank has_logical_key kind_of node_kind in_texts is_word
    get any all to_list of_list given_text given_number tests_passed has_passed list_rule_tests keep
    decide active_rules status_counts in_force known same_key_active is_other is_id conflicting
    make_active supersede update_rule check_version update_where add_change invalidate changed_node
    invalidation_reason collect targets unvisited invalidate_derived is_stale is_listed stale_count
    audited is_visited sorted_nodes is_empty py_eq is_in classify_rule create existing_rule
    create_new check_times temporal_window is_reversed ontology_for get_active_ontology
    check_replaced check_relationships latest_version insert_rule create_rule clashes same_version
    same_idempotency has_key finish_create add_relationships add_replaces is_effective is_rival
    create_rule_relation effect_conflicts iterate replacement_name ◌+++◌
opened = tt

abbrev first_active : RuleRow
first_active = bumped (set_status "ACTIVE") (draft "r1" 1 none)

abbrev empty_report : Report
empty_report = record { affected_nodes = []; invalidated_count = 0 }

abbrev activation_entry : String → AuditEvent
activation_entry id = record {
  actor = "ADMIN";
  action = "RULE_ACTIVATED";
  entity_type = "rule";
  entity_id = id;
  reason = some "replacement=none";
}

abbrev first_core : Core
first_core = record first_draft { rules = first_active ∷ []; audit = activation_entry "r1" ∷ [] }

first_activation :
    activate first_draft "r1" "v1" "ADMIN" none 9
    ≡ ok (first_core, activated first_active empty_report)
unfolding opened
first_activation = refl

abbrev value_of : {A : Type 0} → A → Result A → A
value_of default (ok value) = value
value_of default (err e) = default

-- what the proposal of a first rule, and of a second version, gives
abbrev proposed : Core × RuleRow
proposed = value_of (start, first_active) (create start "r1" proposal "EDITOR" 5)

abbrev proposed_again : Core × RuleRow
proposed_again = value_of (start, first_active) (create first_core "r2" proposal "EDITOR" 12)

proposal_first : create start "r1" proposal "EDITOR" 5 ≡ ok proposed
unfolding opened
proposal_first = refl

proposal_second : create first_core "r2" proposal "EDITOR" 12 ≡ ok proposed_again
unfolding opened
proposal_second = refl

second_version : proposed_again.1.rule.version ≡ 2
unfolding opened
second_version = refl

create_newest_example : first_active.rule.version < proposed_again.1.rule.version
unfolding given_text new_rule
create_newest_example =
    create_newest first_core "r2" proposal "EDITOR" 12 proposed_again first_active refl refl
      proposal_second (inl refl) refl

path : Reachable start first_core
unfolding opened
path =
    after
      (after (after here (created start "r1" proposal "EDITOR" 5 proposed refl refl proposal_first))
        (elsewhere proposed.0 first_draft refl))
      (decided first_draft "r1" "v1" "ADMIN" none 9
        (first_core, activated first_active empty_report) first_activation)

first_is_effective : is_effective first_active ≡ true
unfolding opened
first_is_effective = refl

one_active_version_example : first_active.rule.id ≡ first_active.rule.id
one_active_version_example =
    one_active_version start first_core first_active first_active refl path (inl refl) (inl refl)
      first_is_effective first_is_effective refl

-- another rule, active with other effects
abbrev other_active : RuleRow
other_active = record (bumped (set_status "ACTIVE") (draft "r3" 1 none)) {
  rule = record first_active.rule { id = "r3"; logical_key = "fee"; priority = pos 1 };
}

abbrev two_rules : Core
two_rules = record first_draft { rules = draft "r1" 1 none ∷ other_active ∷ [] }

abbrev two_active : Core
two_active = record two_rules {
  rules = first_active ∷ other_active ∷ [];
  audit = activation_entry "r1" ∷ [];
}

second_activation :
    activate two_rules "r1" "v1" "ADMIN" none 9
    ≡ ok (two_active, activated first_active empty_report)
unfolding opened
second_activation = refl

activate_guards_example :
    (row : RuleRow) × (get_rule two_rules "r1" ≡ ok row)
    × IsReady two_rules row
    × IsUncontested two_rules row
activate_guards_example =
    activate_guards two_rules two_active "r1" "v1" "ADMIN" none 9 first_active empty_report
      second_activation
