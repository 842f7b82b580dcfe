-- ===== src/Engine/Run.antt =====
-- The loop of `RuleEngine.evaluate` in domain/engine.py over the rules, and what it returns.
use andromeda_knowledge_core.Prelude.{
  ℕ, String, Bool, true, false, none, List, [], ◌∷◌, ◌++◌, str_eq, if◌then◌else◌,
}
use andromeda_knowledge_core.Errors.{Result, ok, ◌>>=◌}
use andromeda_knowledge_core.Json.{Value, bool, Fields, end, truthy}
use andromeda_knowledge_core.Dsl.{iterate}
use andromeda_knowledge_core.Dsl.Evaluate.{evaluate}
use andromeda_knowledge_core.Dsl.Evaluate.References.{EvaluationData, Trace, Step, Dependency}
use andromeda_knowledge_core.Rules.{Rule, scope_matches}
use andromeda_knowledge_core.Engine.{Accumulator, EffectTrace, one_more, apply_effects}
use andromeda_knowledge_core.Engine.Order.{ordered_rules}

abbrev none_held : Trace
none_held = record { value = bool false; dependencies = []; steps = [] }

-- one exception before the others: the first that holds ends the loop
abbrev before : Trace → Trace → Trace
before t rest = record {
  value = rest.value;
  dependencies = t.dependencies ++ rest.dependencies;
  steps = t.steps ++ rest.steps;
}

-- `_evaluate_exceptions`
unfoldable pub evaluate_exceptions : EvaluationData → List Value → Result Trace
evaluate_exceptions d [] = ok none_held
evaluate_exceptions d (v ∷ vs) = do
  t ← evaluate d v
  elim (truthy t.value) [
    | true ↦ ok (record t { value = bool true })
    | false ↦ do rest ← evaluate_exceptions d vs; ok (before t rest)
  ]

pub record RuleVersion : Type 0 where
  pub id : String
  pub logical_key : String
  pub version : ℕ

abbrev pub version_of : Rule → RuleVersion
version_of rule = record { id = rule.id; logical_key = rule.logical_key; version = rule.version }

-- The status of a rule in the trace, with what was evaluated to find it.
pub data Outcome : Type 0 where
  scope_mismatch : Outcome
  not_matched : Value → List Step → Outcome
  exception : Value → List Step → List Step → Outcome
  matched : Value → List Step → List Step → List EffectTrace → Outcome

-- What the loop over the rules changes.
pub record Run : Type 0 where
  pub accumulator : Accumulator
  pub trace_rules : List (RuleVersion × Outcome)
  pub dependencies : List Dependency
  pub matched_rules : List RuleVersion
  pub rule_versions : List RuleVersion

abbrev pub traced : Rule → Outcome → Run → Run
traced rule outcome run = record run {
  trace_rules = one_more run.trace_rules (version_of rule, outcome);
}

unfoldable pub depend : List Dependency → Run → Run
depend ds run = record run { dependencies = run.dependencies ++ ds }

-- A rule whose condition holds and none of whose exceptions does
unfoldable pub apply_rule : EvaluationData → Rule → Trace → Trace → Run → Result Run
apply_rule d rule condition exceptions run = do
  effects ← iterate rule.effects
  result ← apply_effects d rule.priority effects run.accumulator
  ok (
      traced rule (matched condition.value condition.steps exceptions.steps result.1) (record run {
        accumulator = result.0;
        matched_rules = one_more run.matched_rules (version_of rule);
      }))

-- A rule whose condition holds
unfoldable pub try_exceptions : EvaluationData → Rule → Trace → Run → Result Run
try_exceptions d rule condition run = do
  nodes ← iterate rule.exceptions
  exceptions ← evaluate_exceptions d nodes
  let run' = depend exceptions.dependencies run
  if truthy exceptions.value
      then ok (traced rule (exception condition.value condition.steps exceptions.steps) run')
      else apply_rule d rule condition exceptions run'

-- An active rule whose scope matches
unfoldable pub try_condition : EvaluationData → Rule → Run → Result Run
try_condition d rule run = do
  condition ← evaluate d rule.conditions
  let run' =
      depend condition.dependencies
        (record run { rule_versions = one_more run.rule_versions (version_of rule) })
  if truthy condition.value
      then try_exceptions d rule condition run'
      else ok (traced rule (not_matched condition.value condition.steps) run')

abbrev pub is_active : Rule → Bool
is_active rule = str_eq rule.status "ACTIVE"

-- One round of the loop over the rules
unfoldable pub run_rule : EvaluationData → Rule → Run → Result Run
run_rule d rule run =
    if is_active rule
    then if scope_matches rule.scope d.context
      then try_condition d rule run
      else ok (traced rule scope_mismatch run)
    else ok run

unfoldable pub run_rules : EvaluationData → List Rule → Run → Result Run
run_rules d [] run = ok run
run_rules d (rule ∷ rules) run = do next ← run_rule d rule run; run_rules d rules next

-- `EngineInput`, of which the versions and the ontology only pass through to the trace.
pub record EngineInput : Type 0 where
  pub evaluation : EvaluationData
  pub rules : List Rule

unfoldable pub start : Fields → Run
start context = record {
  accumulator = record {
    context = context;
    scalars = end;
    grants = [];
    denials = [];
    eligible = none;
    emitted = [];
    set_priorities = [];
  };
  trace_rules = [];
  dependencies = [];
  matched_rules = [];
  rule_versions = [];
}

-- `RuleEngine.evaluate`
unfoldable pub evaluate_rules : EngineInput → Result Run
evaluate_rules input =
    run_rules input.evaluation (ordered_rules input.rules) (start input.evaluation.context)
