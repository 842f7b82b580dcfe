-- ===== src/Engine/Safety.antt =====
-- Rules that were stored from payloads that `validate_rule_payload` reports valid (domain/rules.py)
-- are evaluated by the engine (domain/engine.py) without a fault.
use andromeda_knowledge_core.Prelude.{
  String, ◌≡◌, refl, sym, Bool, true, false, some, List, [], ◌∷◌, All, ◌⊎◌, inl, inr, Bool-cases,
  Option-cases, arith, any, str_eq, if◌then◌else◌, subst,
}
use andromeda_knowledge_core.Prelude.Int.{ℤ}
use andromeda_knowledge_core.Errors.{
  ok, err, Error, validation, fault, not_modelled, Only, Only-ok, Only-bind, only_rules,
}
use andromeda_knowledge_core.Json.{
  Value, null, str, obj, Fields, get, value_or_null, is_some, to_list, truthy,
}
use andromeda_knowledge_core.Dsl.{iterate}
use andromeda_knowledge_core.Dsl.Validate.{validate_dsl, require_valid_dsl, default_depth, is_empty}
use andromeda_knowledge_core.Dsl.Evaluate.{evaluate, resolve_value}
use andromeda_knowledge_core.Dsl.Evaluate.References.{EvaluationData, Trace}
use andromeda_knowledge_core.Dsl.Safety.{eval_value-valid}
use andromeda_knowledge_core.Rules.{Rule, as_dict, effect_target}
use andromeda_knowledge_core.Rules.Payload.{validate_rule_payload, exceptions_of, allowed_effects}
use andromeda_knowledge_core.Rules.WellFormed.{
  ValidNode, WellFormedEffect, WellFormed, validate_rule_payload-WellFormed,
}
use andromeda_knowledge_core.Engine.{
  EffectType, set, add, subtract, grant, deny, mark_eligible, mark_ineligible, emit_derived,
  effect_type_of, Accumulator, effect_value, Operation, handle_number, handle, registered,
  run_handler, overridden_target, apply_fields, apply_effect, apply_effects,
}
use andromeda_knowledge_core.Engine.Numbers.{numeric, add_numbers, subtract_numbers, read_int}
use andromeda_knowledge_core.Engine.Order.{insert_rule, ordered_rules, comes_before}
use andromeda_knowledge_core.Engine.Run.{
  Run, evaluate_exceptions, apply_rule, try_exceptions, try_condition, run_rule, run_rules,
  EngineInput, evaluate_rules, start,
}

-- Values of the wrong type, or a text read as a number that the model does not have.
abbrev pub IsEngineFailure : Error → Type 0
IsEngineFailure e = (e ≡ validation "DSL_TYPE_MISMATCH") ⊎ (e ≡ fault not_modelled)

mismatch_fails : IsEngineFailure (validation "DSL_TYPE_MISMATCH")
mismatch_fails = inl refl

numeral_fails :
    (b : Bool) → IsEngineFailure (if b then fault not_modelled else validation "DSL_TYPE_MISMATCH")
numeral_fails true = inr refl
numeral_fails false = inl refl

ruleset engine_rules = (only_rules, mismatch_fails, numeral_fails)

numeric-fails : (v : Value) → Only IsEngineFailure (numeric v)
unfolding numeric
numeric-fails (str s) = elim (Option-cases (read_int s)) [
  | inl e ↦ rw (e, numeric) (search engine_rules)
  | inr (n, e) ↦ rw (e, numeric) (search engine_rules)
]
numeric-fails null = search engine_rules
numeric-fails _ = search engine_rules

-- An operation on two numbers.
abbrev OperationFails : Operation → Type 0
OperationFails operation = (a b : Value) → Only IsEngineFailure (operation a b)

add_numbers-fails : OperationFails add_numbers
unfolding add_numbers
add_numbers-fails a b = search (engine_rules, numeric-fails)

subtract_numbers-fails : OperationFails subtract_numbers
unfolding subtract_numbers
subtract_numbers-fails a b = search (engine_rules, numeric-fails)

value-fails :
    (d : EvaluationData) (v : Value) → ValidNode v → Only IsEngineFailure (resolve_value d v)
unfolding resolve_value
value-fails d (obj fs) valid = elim (Bool-cases (is_some (get "kind" fs))) [
  | inl e ↦ rw e record {
    failure = λ x h. inl (eval_value-valid default_depth d (obj fs) x (valid fs refl e) h);
  }
  | inr e ↦ rw e (search engine_rules)
]
value-fails d _ valid = search engine_rules

effect_value-fails :
    (d : EvaluationData) (fs : Fields)
    → ValidNode (value_or_null (get "value" fs))
    → Only IsEngineFailure (effect_value d fs)
unfolding effect_value
effect_value-fails d fs valid = search (engine_rules, value-fails)

target-found : (fs : Fields) (t : String) → get "target" fs ≡ some (str t) → effect_target fs ≡ ok t
unfolding effect_target
target-found fs t e = rw e refl

target-fails :
    (fs : Fields) (t : String)
    → get "target" fs ≡ some (str t)
    → Only IsEngineFailure (effect_target fs)
target-fails fs t e = rw (target-found fs t e) (search engine_rules)

ruleset effect_rules = (engine_rules, effect_value-fails, target-fails)

module _ (d : EvaluationData) (fs : Fields) (t : String)
    (has_target : get "target" fs ≡ some (str t))
    (valid : ValidNode (value_or_null (get "value" fs))) where
  handle_number-fails :
      (kind : EffectType) (operation : Operation) (acc : Accumulator)
      → OperationFails operation
      → Only IsEngineFailure (handle_number kind operation d fs acc)
  unfolding handle_number
  handle_number-fails kind operation acc h = search (effect_rules, h) depth 8

  handle-fails :
      (kind : EffectType) (acc : Accumulator) → Only IsEngineFailure (handle kind d fs acc)
  unfolding handle
  handle-fails set acc = search effect_rules depth 8
  handle-fails add acc = handle_number-fails add add_numbers acc add_numbers-fails
  handle-fails subtract acc =
      handle_number-fails subtract subtract_numbers acc subtract_numbers-fails
  handle-fails grant acc = search effect_rules depth 8
  handle-fails deny acc = search effect_rules depth 8
  handle-fails mark_eligible acc = search effect_rules depth 8
  handle-fails mark_ineligible acc = search effect_rules depth 8
  handle-fails emit_derived acc = search effect_rules depth 8

known-registered :
    (s : String)
    → any (str_eq s) allowed_effects ≡ true
    → (k : EffectType) × (effect_type_of s ≡ some k)
unfolding allowed_effects effect_type_of any
known-registered s h = elim (Option-cases (effect_type_of s)) [
  | inl e ↦ absurd (ground arith)
  | inr found ↦ found
]

registered-found :
    (fs : Fields) (s : String) (kind : EffectType)
    → get "type" fs ≡ some (str s)
    → effect_type_of s ≡ some kind
    → registered (value_or_null (get "type" fs)) ≡ ok kind
unfolding registered
registered-found fs s kind h e = rw (h, e) refl

module _ (d : EvaluationData) (priority : ℤ) where
  run_handler-fails :
      (effect : Value) (acc : Accumulator) (w : WellFormedEffect effect)
      → Only IsEngineFailure (run_handler d priority w.fields acc)
  unfolding run_handler
  run_handler-fails effect acc w =
      let (kind, e) = known-registered w.kind w.known in
      rw (registered-found w.fields w.kind kind w.has_type e) (
        Only-bind IsEngineFailure (handle kind d w.fields acc) _
          (handle-fails d w.fields w.target w.has_target w.value_valid kind acc)
          (λ handled _.
            Only-bind IsEngineFailure (effect_target w.fields) _
              (target-fails w.fields w.target w.has_target) (λ t _. Only-ok _ _)))

  apply_fields-fails :
      (effect : Value) (acc : Accumulator) (w : WellFormedEffect effect)
      → Only IsEngineFailure (apply_fields d priority w.fields acc)
  unfolding apply_fields
  apply_fields-fails effect acc w = elim (Option-cases (overridden_target w.fields acc)) [
    | inl e ↦ rw (e, apply_fields) (run_handler-fails effect acc w)
    | inr (t, e) ↦ rw (e, apply_fields) (search engine_rules)
  ]

  apply_effect-fails :
      (effect : Value) (acc : Accumulator)
      → WellFormedEffect effect
      → Only IsEngineFailure (apply_effect d priority effect acc)
  unfolding apply_effect as_dict
  apply_effect-fails effect acc w =
      subst (λ v. Only IsEngineFailure (apply_effect d priority v acc)) (sym w.is_object)
        (apply_fields-fails effect acc w)

  apply_effects-fails :
      (effects : List Value) (acc : Accumulator)
      → All WellFormedEffect effects
      → Only IsEngineFailure (apply_effects d priority effects acc)
  unfolding apply_effects
  apply_effects-fails [] acc w = search engine_rules
  apply_effects-fails (effect ∷ effects) acc w =
      Only-bind IsEngineFailure (apply_effect d priority effect acc) _
        (apply_effect-fails effect acc w.0)
        (λ first _.
          Only-bind IsEngineFailure (apply_effects d priority effects first.0) _
            (apply_effects-fails effects first.0 w.1) (λ rest _. Only-ok _ _))

evaluate-fails :
    (d : EvaluationData) (v : Value)
    → validate_dsl default_depth v ≡ ok []
    → Only IsEngineFailure (evaluate d v)
unfolding evaluate require_valid_dsl is_empty
evaluate-fails d v h =
    rw h record { failure = λ e k. inl (eval_value-valid default_depth d v e h k) }

evaluate_exceptions-fails :
    (d : EvaluationData) (vs : List Value)
    → All (λ v. validate_dsl default_depth v ≡ ok []) vs
    → Only IsEngineFailure (evaluate_exceptions d vs)
unfolding evaluate_exceptions
evaluate_exceptions-fails d [] h = search engine_rules
evaluate_exceptions-fails d (v ∷ vs) h =
    Only-bind IsEngineFailure (evaluate d v) _ (evaluate-fails d v h.0) (λ t _.
      elim (Bool-cases (truthy t.value)) [
        | inl e ↦ rw e (search engine_rules)
        | inr e ↦ rw e (
            Only-bind IsEngineFailure (evaluate_exceptions d vs) _
              (evaluate_exceptions-fails d vs h.1) (λ rest _. Only-ok _ _))
      ])

-- A rule that was stored from a payload that is reported valid.
pub record IsStored (rule : Rule) : Type 0 where
  pub payload : Fields
  pub reported : validate_rule_payload default_depth payload ≡ ok []
  pub same_conditions : rule.conditions ≡ value_or_null (get "conditions" payload)
  pub same_exceptions : iterate rule.exceptions ≡ exceptions_of payload
  pub same_effects : rule.effects ≡ value_or_null (get "effects" payload)

module _ (d : EvaluationData) (rule : Rule) (stored : IsStored rule) where
  abbrev promised : WellFormed default_depth stored.payload
  promised = validate_rule_payload-WellFormed default_depth stored.payload stored.reported

  apply_rule-fails :
      (condition exceptions : Trace) (run : Run)
      → Only IsEngineFailure (apply_rule d rule condition exceptions run)
  unfolding apply_rule iterate to_list
  apply_rule-fails condition exceptions run =
      rw (stored.same_effects, promised.has_effects)
        (Only-bind IsEngineFailure _ _
          (apply_effects-fails d rule.priority (promised.effect ∷ to_list promised.effects)
            run.accumulator promised.effects_valid)
          (λ result _. Only-ok _ _))

  try_exceptions-fails :
      (condition : Trace) (run : Run) → Only IsEngineFailure (try_exceptions d rule condition run)
  unfolding try_exceptions
  try_exceptions-fails condition run =
      rw (stored.same_exceptions, promised.has_exceptions)
        (search
          (
            engine_rules,
            evaluate_exceptions-fails d promised.exceptions promised.exceptions_valid,
            apply_rule-fails,
          )
          depth 8)

  try_condition-fails : (run : Run) → Only IsEngineFailure (try_condition d rule run)
  unfolding try_condition
  try_condition-fails run =
      let valid =
        subst (λ v. validate_dsl default_depth v ≡ ok []) (sym stored.same_conditions)
          promised.condition in
      search (engine_rules, evaluate-fails d rule.conditions valid, try_exceptions-fails) depth 8

  run_rule-fails : (run : Run) → Only IsEngineFailure (run_rule d rule run)
  unfolding run_rule
  run_rule-fails run = search (engine_rules, try_condition-fails) depth 8

run_rules-fails :
    (d : EvaluationData) (rules : List Rule) (run : Run)
    → All IsStored rules
    → Only IsEngineFailure (run_rules d rules run)
unfolding run_rules
run_rules-fails d [] run h = search engine_rules
run_rules-fails d (rule ∷ rules) run h =
    Only-bind IsEngineFailure (run_rule d rule run) _ (run_rule-fails d rule h.0 run)
      (λ next _. run_rules-fails d rules next h.1)

module _ (P : Rule → Type 0) where
  insert_rule-All :
      (rule : Rule) (rules : List Rule) → P rule → All P rules → All P (insert_rule rule rules)
  unfolding insert_rule
  insert_rule-All rule [] p h = (p, tt)
  insert_rule-All rule (r ∷ rules) p h = elim (Bool-cases (comes_before r rule)) [
    | inl e ↦ rw e (h.0, insert_rule-All rule rules p h.1)
    | inr e ↦ rw e (p, h)
  ]

  ordered_rules-All : (rules : List Rule) → All P rules → All P (ordered_rules rules)
  unfolding ordered_rules
  ordered_rules-All [] h = tt
  ordered_rules-All (rule ∷ rules) h =
      insert_rule-All rule (ordered_rules rules) h.0 (ordered_rules-All rules h.1)

-- If every rule was stored from a payload that `validate_rule_payload` reports valid, an evaluation
-- of the engine fails, if at all, with DSL_TYPE_MISMATCH, or because a text that ADD or SUBTRACT
-- reads may be a numeral outside the model.
pub evaluate_rules_failures :
    (input : EngineInput) (e : Error)
    → All IsStored input.rules
    → evaluate_rules input ≡ err e
    → (e ≡ validation "DSL_TYPE_MISMATCH") ⊎ (e ≡ fault not_modelled)
unfolding evaluate_rules
evaluate_rules_failures input e h =
    (run_rules-fails input.evaluation (ordered_rules input.rules) (start input.evaluation.context)
        (ordered_rules-All IsStored input.rules h)).failure
      e
