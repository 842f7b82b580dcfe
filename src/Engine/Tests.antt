-- ===== src/Engine/Tests.antt =====
-- Evaluations of concrete rules, and the theorems at those inputs.
use mathlib.Core.List.{Perm}
use andromeda_knowledge_core.Prelude.{
  ◌≤◌, ◌≡◌, ◌⊎◌, refl, true, none, some, List, [], ◌∷◌, any, keep, map, arith,
}
use andromeda_knowledge_core.Prelude.Int.{ℤ, pos, ◌+ℤ◌, ◌-ℤ◌}
use andromeda_knowledge_core.Errors.{Result, ok, err, validation, fault, not_modelled}
use andromeda_knowledge_core.Json.{
  Value, bool, num, str, arr, obj, nil, cons, Fields, end, field, get, size, to_list, truthy,
}
use andromeda_knowledge_core.Json.Compare.{py_eq, is_in, compare_text}
use andromeda_knowledge_core.Dsl.{kind_of, node_kind, in_texts, is_word, iterate}
use andromeda_knowledge_core.Dsl.Validate.{
  validate_dsl, validate_node, validate_shape, validate_object, validate_kind, require_valid_dsl,
  is_empty,
}
use andromeda_knowledge_core.Dsl.Evaluate.{
  evaluate, resolve_value, eval_value, eval_node, eval_shape, eval_object, eval_kind,
}
use andromeda_knowledge_core.Rules.{Rule, scope_matches, expectation_met, as_dict, effect_target}
use andromeda_knowledge_core.Rules.Payload.{
  allowed_effects, safe_validate_condition, is_mark, is_filled, validate_effect_value,
  validate_effect, enumerate, validate_effects, validate_exceptions, is_blank, has_logical_key,
  validate_rule_payload,
}
use andromeda_knowledge_core.Engine.{
  effect_type_of, put, initial_value, effect_value, handle, handle_number, registered, is_set,
  put_priority, note_set, run_handler, overridden_target, apply_fields, apply_effect, apply_effects,
}
use andromeda_knowledge_core.Engine.Numbers.{
  numeric, read_int, read_natural, read_digits, may_be_numeral, round_to, unit_of, round_natural,
  context_round, add_numbers, subtract_numbers,
}
use andromeda_knowledge_core.Engine.Order.{comes_before, insert_rule, ordered_rules}
use andromeda_knowledge_core.Engine.Exact.{numbers_exact}
use andromeda_knowledge_core.Engine.Sorted.{Ordered, ordered_rules_lem}
use andromeda_knowledge_core.Engine.Run.{
  Run, EngineInput, evaluate_rules, run_rules, run_rule, try_condition, try_exceptions, apply_rule,
  depend, start, evaluate_exceptions, version_of,
}
use andromeda_knowledge_core.Engine.Versions.{applies, evaluate_rules-versions}
use andromeda_knowledge_core.Engine.Priorities.{sets_in_trace}
use andromeda_knowledge_core.Engine.Priorities.Runs.{evaluate_rules-set_once}
use andromeda_knowledge_core.Engine.Safety.{IsStored, evaluate_rules_failures}

-- `unfolding runs` opens what an evaluation computes with.
runs : Unit {0}
unfolding evaluate_rules run_rules run_rule try_condition try_exceptions apply_rule depend start
    evaluate_exceptions ordered_rules insert_rule comes_before compare_text apply_effects
    apply_effect apply_fields overridden_target run_handler note_set put_priority is_set registered
    handle handle_number effect_value initial_value put effect_type_of numeric read_int read_natural
    read_digits may_be_numeral round_to unit_of round_natural context_round add_numbers
    subtract_numbers scope_matches expectation_met as_dict effect_target evaluate resolve_value
    eval_value eval_node eval_shape eval_object eval_kind validate_dsl validate_node validate_shape
    validate_object validate_kind require_valid_dsl is_empty kind_of node_kind in_texts is_word
    iterate py_eq is_in get size to_list truthy any keep ◌+ℤ◌ ◌-ℤ◌
runs = tt

abbrev yes : Value
yes = obj (field "kind" (str "literal") (field "value" (bool true) end))

abbrev effect_of : Value → Value → Fields
effect_of kind v = field "type" kind (field "target" (str "discount") (field "value" v end))

abbrev payload_of : Value → Value → Fields
payload_of kind v = field "logical_key" (str "discount") (
    field "ontology_version_id" (str "v1")
      (field "conditions" yes (field "effects" (arr (cons (obj (effect_of kind v)) nil)) end)))

abbrev rule_of : ℤ → Value → Value → Rule
rule_of priority kind v = record {
  id = "r";
  logical_key = "discount";
  version = 1;
  status = "ACTIVE";
  priority = priority;
  scope = end;
  conditions = yes;
  effects = arr (cons (obj (effect_of kind v)) nil);
  exceptions = arr nil;
}

abbrev input_of : List Rule → EngineInput
input_of rules = record {
  evaluation = record { facts = []; relations = []; context = end; applicant = end };
  rules = rules;
}

-- a rule that adds 5 and two that set the discount, of which the one with the higher priority counts
abbrev three_rules : EngineInput
three_rules = input_of (
    rule_of (pos 1) (str "ADD") (num (pos 5))
    ∷ rule_of (pos 2) (str "SET") (num (pos 10))
    ∷ rule_of (pos 3) (str "SET") (num (pos 20))
    ∷ [])

abbrev run_of : Result Run → Run
run_of (ok run) = run
run_of (err e) = record {
  accumulator = record {
    context = end;
    scalars = end;
    grants = [];
    denials = [];
    eligible = none;
    emitted = [];
    set_priorities = [];
  };
  trace_rules = [];
  dependencies = [];
  matched_rules = [];
  rule_versions = [];
}

abbrev three_run : Run
three_run = run_of (evaluate_rules three_rules)

three_rules_run : evaluate_rules three_rules ≡ ok three_run
unfolding runs
three_rules_run = refl

-- the SET of the highest priority, and 5 more
discount_is_25 : get "discount" three_run.accumulator.scalars ≡ some (num (pos 25))
unfolding runs
discount_is_25 = refl

-- the context of `Decimal` keeps 28 digits
rounds_to_even :
    context_round (pos 100000000000000000000000000005) ≡ pos 100000000000000000000000000000
unfolding runs
rounds_to_even = refl

evaluate_rules-versions_example :
    three_run.rule_versions ≡ map version_of (keep (applies end) (ordered_rules three_rules.rules))
evaluate_rules-versions_example = evaluate_rules-versions three_rules three_run three_rules_run

evaluate_rules-set_once_example : sets_in_trace "discount" three_run.trace_rules ≤ 1
evaluate_rules-set_once_example =
    evaluate_rules-set_once three_rules three_run "discount" three_rules_run

ordered_rules_lem_example :
    Perm three_rules.rules (ordered_rules three_rules.rules)
    × Ordered (ordered_rules three_rules.rules)
ordered_rules_lem_example = ordered_rules_lem three_rules.rules

-- an ADD of a text that is no number
abbrev text_rule : Rule
text_rule = rule_of (pos 1) (str "ADD") (str "gold")

text_rule-IsStored : IsStored text_rule
unfolding validate_rule_payload allowed_effects safe_validate_condition is_mark is_filled
    validate_effect_value validate_effect enumerate validate_effects validate_exceptions is_blank
    has_logical_key validate_dsl validate_node validate_shape validate_object validate_kind kind_of
    node_kind in_texts is_word get any to_list iterate
text_rule-IsStored = record {
  payload = payload_of (str "ADD") (str "gold");
  reported = refl;
  same_conditions = refl;
  same_exceptions = refl;
  same_effects = refl;
}

text_rule_fails : evaluate_rules (input_of (text_rule ∷ [])) ≡ err (validation "DSL_TYPE_MISMATCH")
unfolding runs
text_rule_fails = refl

evaluate_rules_failures_example :
    (validation "DSL_TYPE_MISMATCH" ≡ validation "DSL_TYPE_MISMATCH")
    ⊎ (validation "DSL_TYPE_MISMATCH" ≡ fault not_modelled)
evaluate_rules_failures_example =
    evaluate_rules_failures (input_of (text_rule ∷ [])) (validation "DSL_TYPE_MISMATCH")
      (text_rule-IsStored, tt) text_rule_fails

numbers_exact_example :
    (add_numbers (num (pos 7)) (num (pos 9)) ≡ ok (num (pos 7 +ℤ pos 9)))
    × (subtract_numbers (num (pos 7)) (num (pos 9)) ≡ ok (num (pos 7 -ℤ pos 9)))
unfolding ◌+ℤ◌ ◌-ℤ◌
numbers_exact_example = numbers_exact (pos 7) (pos 9) (omega arith) (omega arith)
