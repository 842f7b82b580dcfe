-- ===== src/Dsl/Tests.antt =====
-- Runs of the validator and the evaluator on concrete rules, and the theorems at those inputs.
use andromeda_knowledge_core.Prelude.{
  ◌≡◌, ◌≢◌, refl, inl, inr, [], ◌∷◌, some, any, keep, arith, String, true, ap, eq_iff, In,
}
use andromeda_knowledge_core.Prelude.Int.{pos}
use andromeda_knowledge_core.Errors.{ok, err, validation, fault, type_error, out_of_fuel}
use andromeda_knowledge_core.Text.{split, starts, drop_last, ends_with_star}
use andromeda_knowledge_core.Json.{
  Value, null, bool, num, str, arr, obj, nil, Fields, end, field, get, size, to_list, of_list, keys,
  chars, truthy,
}
use andromeda_knowledge_core.Json.Compare.{py_eq, py_order, compare_text}
use andromeda_knowledge_core.Dsl
use andromeda_knowledge_core.Dsl.{kind_of, node_kind, in_texts, is_word, iterate}
use andromeda_knowledge_core.Dsl.Validate
use andromeda_knowledge_core.Dsl.Validate.{
  validate_dsl, validate_node, validate_shape, validate_object, validate_kind, check_operator, each,
  validate_required_child, validate_reference, validate_children, iterate_or_empty,
  bad_logical_arity, bad_quantifier_count, is_count, require_valid_dsl, is_empty, default_depth,
}
use andromeda_knowledge_core.Dsl.Evaluate
use andromeda_knowledge_core.Dsl.Evaluate.{
  eval_value, eval_node, eval_shape, eval_object, eval_kind, eval_child, eval_children, eval_each,
  evaluate,
}
use andromeda_knowledge_core.Dsl.Evaluate.References
use andromeda_knowledge_core.Dsl.Evaluate.References.{
  EvaluationData, Trace, Dependency, fact_reference, fact_trace, relation_reference, relation_trace,
  path_reference, get_path, walk, matching_facts, matches_pattern, matches_text, passes_filter,
  row_values, row_dependencies, row_objects, has_kind,
}
use andromeda_knowledge_core.Dsl.Evaluate.Operators.{
  compare_values, compare_by, comparison_of, apply_comparison,
}
use andromeda_knowledge_core.Dsl.Evaluate.Failures.{eval_node_terminates}
use andromeda_knowledge_core.Dsl.Evaluate.Frame.{Agrees, eval_value-frame}
use andromeda_knowledge_core.Dsl.Safety.{eval_value-valid, evaluate_failures, IsEvaluateFailure}

-- `unfolding validates` and `unfolding evaluates` open what a run computes with.
validates : Unit {0}
unfolding validate_dsl validate_node validate_shape validate_object validate_kind
    Validate.validate_logical Validate.validate_binary Validate.validate_aggregation
    Validate.validate_quantifier Validate.validate_children check_operator each
    validate_required_child validate_reference iterate_or_empty bad_logical_arity
    bad_quantifier_count is_count kind_of node_kind in_texts is_word iterate get any to_list truthy
    keys chars Dsl.logical_operators Dsl.comparison_operators Dsl.membership_operators
    Dsl.aggregation_operators Dsl.quantifier_operators require_valid_dsl is_empty
validates = tt

evaluates : Unit {0}
unfolding validates evaluate eval_value eval_node eval_shape eval_object eval_kind eval_child
    eval_children eval_each Evaluate.finish_comparison Evaluate.finish_logical Evaluate.merge
    compare_values compare_by comparison_of apply_comparison path_reference fact_reference
    fact_trace matching_facts matches_pattern matches_text passes_filter row_values row_dependencies
    has_kind get_path walk split py_eq py_order compare_text size keep of_list starts drop_last
    ends_with_star
evaluates = tt

abbrev literal_node : Value → Value
literal_node v = obj (field "kind" (str "literal") (field "value" v end))

abbrev compare_node : Value → Value → Value
compare_node left right = obj (
    field "kind" (str "comparison")
      (field "operator" (str ">=") (field "left" left (field "right" right end))))

abbrev score : Value
score = obj (field "kind" (str "applicant") (field "path" (str "scores.physics") end))

-- scores.physics >= 85
abbrev score_rule : Value
score_rule = compare_node score (literal_node (num (pos 85)))

abbrev applicant_with : Value → EvaluationData
applicant_with v = record {
  facts = [];
  relations = [];
  context = end;
  applicant = field "scores" (obj (field "physics" v end)) end;
}

abbrev found : Trace
found = record {
  value = bool true;
  dependencies = ("applicant", "scores.physics") ∷ [];
  steps = References.binary_step "comparison" (str ">=") (bool true) ∷ [];
}

score_rule_passes : validate_dsl default_depth score_rule ≡ ok []
unfolding validates
score_rule_passes = refl

score_rule_holds : eval_value (applicant_with (num (pos 90))) score_rule ≡ ok found
unfolding evaluates
score_rule_holds = refl

-- a text is not ordered with a number
text_score_fails :
    eval_value (applicant_with (str "90")) score_rule ≡ err (validation "DSL_TYPE_MISMATCH")
unfolding evaluates
text_score_fails = refl

eval_value-valid_example : validation "DSL_TYPE_MISMATCH" ≡ validation "DSL_TYPE_MISMATCH"
eval_value-valid_example =
    eval_value-valid default_depth (applicant_with (str "90")) score_rule
      (validation "DSL_TYPE_MISMATCH") score_rule_passes text_score_fails

abbrev list_operator : Fields
list_operator = field "kind" (str "logical") (field "operator" (arr nil) end)

list_operator-kind : node_kind list_operator ≡ str "logical"
unfolding validates
list_operator-kind = refl

list_operator-operator : get "operator" list_operator ≡ some (arr nil)
unfolding validates
list_operator-operator = refl

list_operator_fails : evaluate (applicant_with null) (obj list_operator) ≡ err (fault type_error)
unfolding evaluates
list_operator_fails = refl

evaluate_failures_example :
    IsEvaluateFailure (applicant_with null) (obj list_operator) (fault type_error)
evaluate_failures_example =
    evaluate_failures (applicant_with null) (obj list_operator) (fault type_error)
      list_operator_fails

eval_node_terminates_example :
    (eval_node 40 (applicant_with null) score_rule ≡ eval_value (applicant_with null) score_rule)
    × (eval_value (applicant_with null) score_rule ≢ err (fault out_of_fuel))
unfolding size
eval_node_terminates_example =
    eval_node_terminates 40 (applicant_with null) score_rule (omega arith)

-- the same scores with one more fact, which the rule does not read
abbrev more_facts : EvaluationData
more_facts = record (applicant_with (num (pos 90))) {
  facts = field "property_code" (str "price") end ∷ [];
}

no_fact_read : (p : String) → In ("fact_property", p) found.dependencies → ⊥
no_fact_read p (inl e) =
    cc ((eq_iff "fact_property" "applicant").1 (ap (λ (d : Dependency). d.0) e))
no_fact_read p (inr m) = m

more_facts_agree : Agrees found.dependencies (applicant_with (num (pos 90))) more_facts
more_facts_agree = record {
  on_facts = λ p m. absurd (no_fact_read p m);
  on_relations = λ c m. refl;
  on_context = λ p m. refl;
  on_applicant = λ p m. refl;
}

eval_value-frame_example : eval_value more_facts score_rule ≡ ok found
eval_value-frame_example =
    eval_value-frame (applicant_with (num (pos 90))) more_facts score_rule found score_rule_holds
      more_facts_agree
