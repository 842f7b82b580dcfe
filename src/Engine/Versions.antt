-- ===== src/Engine/Versions.antt =====
-- Which rules an evaluation of the engine counts as used.
use andromeda_knowledge_core.Prelude.{
  ◌≡◌, refl, Bool, List, [], ◌∷◌, ◌++◌, ◌&&◌, map, keep, Bool-cases, inl, inr, sym, ◌∙◌, ap,
}
use mathlib.Core.List.{append-nil, append_assoc}
use andromeda_knowledge_core.Errors.{
  ok, >>=-eq-ok, ok-injective, Returns, returns_rules, Returns-ok,
}
use andromeda_knowledge_core.Json.{Fields}
use andromeda_knowledge_core.Dsl.Evaluate.References.{EvaluationData, Trace}
use andromeda_knowledge_core.Rules.{Rule, scope_matches}
use andromeda_knowledge_core.Engine.Order.{ordered_rules}
use andromeda_knowledge_core.Engine.Run.{
  Run, RuleVersion, version_of, is_active, apply_rule, try_exceptions, try_condition, run_rule,
  run_rules, depend, EngineInput, evaluate_rules, start,
}

-- The rule is active and its scope matches the context.
abbrev pub applies : Fields → Rule → Bool
applies context rule = is_active rule && scope_matches rule.scope context

abbrev HasVersions : List RuleVersion → Run → Type 0
HasVersions versions run = run.rule_versions ≡ versions

module _ (d : EvaluationData) (versions : List RuleVersion) where
  apply_rule-versions :
      (rule : Rule) (condition exceptions : Trace) (run : Run)
      → run.rule_versions ≡ versions
      → Returns (HasVersions versions) (apply_rule d rule condition exceptions run)
  unfolding apply_rule
  apply_rule-versions rule condition exceptions run h = search returns_rules

  try_exceptions-versions :
      (rule : Rule) (condition : Trace) (run : Run)
      → run.rule_versions ≡ versions
      → Returns (HasVersions versions) (try_exceptions d rule condition run)
  unfolding try_exceptions depend
  try_exceptions-versions rule condition run h = search (returns_rules, apply_rule-versions) depth 9

  try_condition-versions :
      (rule : Rule) (run : Run)
      → run.rule_versions ++ version_of rule ∷ [] ≡ versions
      → Returns (HasVersions versions) (try_condition d rule run)
  unfolding try_condition depend
  try_condition-versions rule run h = search (returns_rules, try_exceptions-versions) depth 9

module _ (d : EvaluationData) where
  run_rule-versions :
      (rule : Rule) (run : Run)
      → Returns
          (HasVersions (run.rule_versions ++ map version_of (keep (applies d.context) (rule ∷ []))))
          (run_rule d rule run)
  unfolding run_rule keep
  run_rule-versions rule run = elim (Bool-cases (is_active rule)) [
    | inr a ↦ rw (a, append-nil) (Returns-ok _ _ refl)
    | inl a ↦ elim (Bool-cases (scope_matches rule.scope d.context)) [
      | inl m ↦ rw (a, m) (try_condition-versions d _ rule run refl)
      | inr m ↦ rw (a, m, append-nil) (Returns-ok _ _ refl)
    ]
  ]

  kept_first :
      (rule : Rule) (rules : List Rule)
      → map version_of (keep (applies d.context) (rule ∷ rules))
        ≡ map version_of (keep (applies d.context) (rule ∷ []))
          ++ map version_of (keep (applies d.context) rules)
  unfolding keep
  kept_first rule rules = elim (Bool-cases (applies d.context rule)) [
    | inl a ↦ rw a refl
    | inr a ↦ rw a refl
  ]

  run_rules-versions :
      (rules : List Rule) (run run' : Run)
      → run_rules d rules run ≡ ok run'
      → run'.rule_versions ≡ run.rule_versions ++ map version_of (keep (applies d.context) rules)
  unfolding run_rules keep
  run_rules-versions [] run run' h =
      rw append-nil (ap (λ (r : Run). r.rule_versions) (sym (ok-injective h)))
  run_rules-versions (rule ∷ rules) run run' h =
      let (next, first, rest) = >>=-eq-ok (run_rule d rule run) (run_rules d rules) h in
      run_rules-versions rules next run' rest
      ∙ rw ((run_rule-versions rule run).returned next first, kept_first rule rules)
          (append_assoc run.rule_versions (map version_of (keep (applies d.context) (rule ∷ [])))
            (map version_of (keep (applies d.context) rules)))

-- The versions that an evaluation reports are those of the active rules whose scope matches the
-- context, in the order of evaluation, whether or not their conditions hold.
pub evaluate_rules-versions :
    (input : EngineInput) (run : Run)
    → evaluate_rules input ≡ ok run
    → run.rule_versions
      ≡ map version_of (keep (applies input.evaluation.context) (ordered_rules input.rules))
unfolding evaluate_rules start
evaluate_rules-versions input run h =
    run_rules-versions input.evaluation (ordered_rules input.rules) (start input.evaluation.context)
      run h
