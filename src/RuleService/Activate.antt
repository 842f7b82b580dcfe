-- ===== src/RuleService/Activate.antt =====
-- `RuleService.activate` of application/rule_service.py.
use andromeda_knowledge_core.Prelude.{
  ℕ, String, Bool, true, false, not, Option, none, some, List, [], ◌∷◌, ◌&&◌, any, all, map, str_eq,
  if◌then◌else◌,
}
use andromeda_knowledge_core.Text.{◌+++◌}
use andromeda_knowledge_core.Errors.{Result, ok, err, activation, ◌>>=◌}
use andromeda_knowledge_core.Json.{str, obj, arr, of_list, field, end}
use andromeda_knowledge_core.Dsl.Validate.{default_depth, is_empty}
use andromeda_knowledge_core.Rules.{effect_conflicts}
use andromeda_knowledge_core.Rules.Payload.{validate_rule_payload}
use andromeda_knowledge_core.Graph.{Node}
use andromeda_knowledge_core.DependencyService.{Report, invalidate}
use andromeda_knowledge_core.Repository.{RuleRow, RuleTest, Review, Core, given_text, given_number}
use andromeda_knowledge_core.Repository.Rules.{
  get_rule, active_rules, list_rule_tests, create_rule_relation, update_rule,
}
use andromeda_knowledge_core.Repository.Reviews.{find_open_review, create_review}
use andromeda_knowledge_core.ChangeService.{classify_rule, record_audit, create_change}
use andromeda_knowledge_core.RuleService.{rule_payload, relation, set_status}

-- `test.get("passed") is True`
unfoldable pub has_passed : RuleTest → Bool
has_passed test = elim test.passed [ none ↦ false | some passed ↦ passed ]

-- `tests and all(…)`
unfoldable pub tests_passed : List RuleTest → Bool
tests_passed [] = false
tests_passed (test ∷ tests) = all has_passed (test ∷ tests)

-- an id that may be missing
unfoldable pub is_id : Option String → String → Bool
is_id none id = false
is_id (some given) id = str_eq given id

-- neither the rule itself nor the one that it replaces
unfoldable pub is_other : RuleRow → RuleRow → Bool
is_other row item =
    not (str_eq item.rule.id row.rule.id) && not (is_id row.replaces_rule_id item.rule.id)

-- an active version of the same logical key that is not replaced
unfoldable pub same_key_active : RuleRow → RuleRow → Bool
same_key_active row item = is_other row item && str_eq item.rule.logical_key row.rule.logical_key

-- a rule of another key
unfoldable pub is_rival : RuleRow → RuleRow → Bool
is_rival row item = is_other row item && not (str_eq item.rule.logical_key row.rule.logical_key)

-- `conflicts`: the active rules of another key whose effects contradict the rule's
unfoldable pub conflicting : RuleRow → List RuleRow → Result (List RuleRow)
conflicting row [] = ok []
conflicting row (item ∷ items) =
    if is_rival row item
    then (do
      conflicts ← effect_conflicts row.rule item.rule
      rest ← conflicting row items
      ok (if conflicts then item ∷ rest else rest))
    else conflicting row items

-- What an activation comes to: it returns the rule and the report of the invalidation, or it raises
-- `RuleConflictError`, with the ids of the rules and of the review, after its commit.
pub data Activation : Type 0 where
  activated : RuleRow → Report → Activation
  blocked : List String → String → Activation

abbrev pub id_of : RuleRow → String
id_of row = row.rule.id

abbrev conflict_review : RuleRow → String → List RuleRow → Review
conflict_review row review_id conflicts = record {
  id = review_id;
  reason = "RULE_CONFLICT";
  status = "NEEDS_REVIEW";
  entity_type = "rule";
  entity_id = row.rule.id;
  evidence = obj (field "conflicting_rule_ids" (arr (of_list (map str (map id_of conflicts)))) end);
  proposed_change = field "rule_id" (str row.rule.id) end;
  decision = end;
  decided_by = none;
  row_version = 1;
}

unfoldable pub add_conflicts : RuleRow → List RuleRow → Core → Core
add_conflicts row [] core = core
add_conflicts row (item ∷ items) core =
    add_conflicts row items
      (create_rule_relation (relation row.rule.id "CONFLICTS_WITH" item.rule.id) core)

-- the activation that is blocked, with the open review or a new one
unfoldable pub block : Core → RuleRow → List RuleRow → String → Core × Activation
block core row conflicts review_id =
    let ids = row.rule.id ∷ map id_of conflicts in
    elim (find_open_review core "rule" row.rule.id "RULE_CONFLICT") [
      | some review ↦ (add_conflicts row conflicts core, blocked ids review.id)
      | none ↦ (
        add_conflicts row conflicts (create_review (conflict_review row review_id conflicts) core),
        blocked ids review_id,
      )
    ]

abbrev pub set_superseded : ℕ → RuleRow → RuleRow
set_superseded now row = record (set_status "SUPERSEDED" row) { transaction_to = some now }

-- the rule that is replaced leaves first
unfoldable pub supersede : Core → RuleRow → ℕ → Result Core
supersede core row now = elim (given_text row.replaces_rule_id) [
  | none ↦ ok core
  | some replaced ↦ do
    previous ← get_rule core replaced
    updated ←
        update_rule (create_rule_relation (relation row.rule.id "REPLACES" replaced) core) replaced
          (set_superseded now) (some previous.row_version)
    ok updated.0
]

-- the node whose dependents are stale after the activation, and why
unfoldable pub changed_node : RuleRow → Node
changed_node row = elim (given_text row.replaces_rule_id) [
  | some replaced ↦ ("rule", replaced)
  | none ↦ ("rule_catalog", row.ontology_version_id)
]

unfoldable pub invalidation_reason : RuleRow → String
invalidation_reason row = elim (given_text row.replaces_rule_id) [
  | some replaced ↦ "Rule version superseded."
  | none ↦ "A new active rule changed the rule catalog."
]

-- a replacement is a change of a rule
unfoldable pub add_change : RuleRow → RuleRow → Core → Core
add_change row now_active core = elim (given_text row.replaces_rule_id) [
  | none ↦ core
  | some replaced ↦
      create_change
        (record {
          classification = classify_rule (some row) (some now_active);
          entity_type = "rule";
          entity_id = row.rule.id;
          reason = "Rule version activated as replacement for " +++ (replaced +++ ".");
        })
        core
]

-- `replacement_id or 'none'`
unfoldable pub replacement_name : RuleRow → String
replacement_name row = elim (given_text row.replaces_rule_id) [
  | none ↦ "none"
  | some replaced ↦ replaced
]

-- what follows once nothing stands against the activation
unfoldable pub make_active : Core → RuleRow → String → Option ℕ → ℕ → Result (Core × Activation)
make_active core row actor expected now = do
  left ← supersede core row now
  updated ←
      update_rule left row.rule.id (set_status "ACTIVE")
        (some (given_number expected row.row_version))
  invalidated ← invalidate updated.0.derivations (changed_node row) (invalidation_reason row)
  ok (
    record_audit
        (record {
          actor = actor;
          action = "RULE_ACTIVATED";
          entity_type = "rule";
          entity_id = row.rule.id;
          reason = some ("replacement=" +++ replacement_name row);
        })
        (add_change row updated.1 (record updated.0 { derivations = invalidated.0 })),
    activated updated.1 invalidated.1,
  )

-- the guards on the rule itself
unfoldable pub check_ready : Core → RuleRow → Result Bool
check_ready core row = do
  report ← validate_rule_payload default_depth (rule_payload row)
  if not (is_empty report) then err activation else elim (given_text row.provenance_id) [
    | none ↦ err activation
    | some provenance ↦
        if tests_passed (list_rule_tests core row.rule.id) then ok true else err activation
  ]

-- the guards against the other active rules
unfoldable pub decide : Core → RuleRow → String → String → Option ℕ → ℕ → Result (Core × Activation)
decide core row review_id actor expected now =
    let others = active_rules core none none in
    if any (same_key_active row) others then err activation else (do
      conflicts ← conflicting row others
      if is_empty conflicts
          then make_active core row actor expected now
          else ok (block core row conflicts review_id))

-- `activate(rule_id, actor, expected_version)`; `review_id` is a new id, and `now` the time.
unfoldable pub activate :
    Core → String → String → String → Option ℕ → ℕ → Result (Core × Activation)
activate core id review_id actor expected now = do
  row ← get_rule core id
  ready ← check_ready core row
  decide core row review_id actor expected now
