-- ===== src/Engine/Priorities/Runs.antt =====
-- No target is SET twice in an evaluation of domain/engine.py.
use andromeda_knowledge_core.Prelude.{◌≤◌, String, ◌≡◌, refl, List, [], ◌∷◌, arith}
use andromeda_knowledge_core.Errors.{ok, Returns, Returns-ok, Returns-bind, returns_rules}
use andromeda_knowledge_core.Json.{Value}
use andromeda_knowledge_core.Dsl.{iterate}
use andromeda_knowledge_core.Dsl.Evaluate.References.{Step, EvaluationData, Trace}
use andromeda_knowledge_core.Rules.{Rule}
use andromeda_knowledge_core.Engine.{apply_effects}
use andromeda_knowledge_core.Engine.Order.{ordered_rules}
use andromeda_knowledge_core.Engine.Run.{
  Outcome, matched, scope_mismatch, not_matched, exception, traced, version_of, Run, apply_rule,
  try_exceptions, try_condition, run_rule, run_rules, depend, EngineInput, evaluate_rules, start,
}
use andromeda_knowledge_core.Engine.Priorities.{
  Priorities, weight, sets_in_outcome, sets_in_trace, sets_in_trace-one_more, apply_effects-counts,
}

-- The trace says at most once that the target was SET, and then it is set.
abbrev SetOnce : String → Run → Type 0
SetOnce target run =
    sets_in_trace target run.trace_rules ≤ weight target run.accumulator.set_priorities

module _ (target : String) (d : EvaluationData) where
  traced-SetOnce :
      (rule : Rule) (outcome : Outcome) (run : Run)
      → sets_in_outcome target outcome ≡ 0
      → SetOnce target run
      → SetOnce target (traced rule outcome run)
  traced-SetOnce rule outcome run none_more n =
      let longer = sets_in_trace-one_more target run.trace_rules (version_of rule, outcome) in
      omega arith

  scope_mismatch-SetOnce :
      (rule : Rule) (run : Run)
      → SetOnce target run
      → SetOnce target (traced rule scope_mismatch run)
  unfolding sets_in_outcome
  scope_mismatch-SetOnce rule run n = traced-SetOnce rule scope_mismatch run refl n

  not_matched-SetOnce :
      (rule : Rule) (v : Value) (steps : List Step) (run : Run)
      → SetOnce target run
      → SetOnce target (traced rule (not_matched v steps) run)
  unfolding sets_in_outcome
  not_matched-SetOnce rule v steps run n = traced-SetOnce rule (not_matched v steps) run refl n

  exception-SetOnce :
      (rule : Rule) (v : Value) (steps exceptions : List Step) (run : Run)
      → SetOnce target run
      → SetOnce target (traced rule (exception v steps exceptions) run)
  unfolding sets_in_outcome
  exception-SetOnce rule v steps exceptions run n =
      traced-SetOnce rule (exception v steps exceptions) run refl n

  apply_rule-SetOnce :
      (rule : Rule) (condition exceptions : Trace) (run : Run)
      → SetOnce target run
      → Returns (SetOnce target) (apply_rule d rule condition exceptions run)
  unfolding apply_rule sets_in_outcome
  apply_rule-SetOnce rule condition exceptions run n =
      Returns-bind _ (iterate rule.effects) _ (λ effects _.
        Returns-bind _ (apply_effects d rule.priority effects run.accumulator) _ (λ result e.
          let counted =
            (apply_effects-counts target d rule.priority effects run.accumulator).returned result
              e in
          let outcome = matched condition.value condition.steps exceptions.steps result.1 in
          let longer = sets_in_trace-one_more target run.trace_rules (version_of rule, outcome) in
          Returns-ok _ _ (omega arith)))

  try_exceptions-SetOnce :
      (rule : Rule) (condition : Trace) (run : Run)
      → SetOnce target run
      → Returns (SetOnce target) (try_exceptions d rule condition run)
  unfolding try_exceptions depend
  try_exceptions-SetOnce rule condition run n =
      search (returns_rules, apply_rule-SetOnce, exception-SetOnce) depth 9

  try_condition-SetOnce :
      (rule : Rule) (run : Run)
      → SetOnce target run
      → Returns (SetOnce target) (try_condition d rule run)
  unfolding try_condition depend
  try_condition-SetOnce rule run n =
      search (returns_rules, try_exceptions-SetOnce, not_matched-SetOnce) depth 9

  run_rule-SetOnce :
      (rule : Rule) (run : Run)
      → SetOnce target run
      → Returns (SetOnce target) (run_rule d rule run)
  unfolding run_rule
  run_rule-SetOnce rule run n =
      search (returns_rules, try_condition-SetOnce, scope_mismatch-SetOnce) depth 9

  run_rules-SetOnce :
      (rules : List Rule) (run : Run)
      → SetOnce target run
      → Returns (SetOnce target) (run_rules d rules run)
  unfolding run_rules
  run_rules-SetOnce [] run n = Returns-ok _ _ n
  run_rules-SetOnce (rule ∷ rules) run n =
      Returns-bind _ (run_rule d rule run) _
        (λ next e. run_rules-SetOnce rules next ((run_rule-SetOnce rule run n).returned next e))

weight_bound : (target : String) (entries : Priorities) → weight target entries ≤ 1
weight_bound target entries = ground arith

-- In the trace of an evaluation at most one effect, of all rules, is said to have SET a given target.
pub evaluate_rules-set_once :
    (input : EngineInput) (run : Run) (target : String)
    → evaluate_rules input ≡ ok run
    → sets_in_trace target run.trace_rules ≤ 1
unfolding evaluate_rules start sets_in_trace
evaluate_rules-set_once input run target h =
    let once =
      (run_rules-SetOnce target input.evaluation (ordered_rules input.rules)
          (start input.evaluation.context) (omega arith)).returned
        run h in
    omega (arith, weight_bound target run.accumulator.set_priorities)
