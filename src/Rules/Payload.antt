-- ===== src/Rules/Payload.antt =====
-- `validate_rule_payload` of domain/rules.py. A failed check is a constructor of `RuleProblem`, which
-- keeps the index of the exception or the effect; a raised `TypeError` is a `fault`.
use andromeda_knowledge_core.Prelude.{
  ℕ, suc, String, Bool, true, false, not, none, some, List, [], ◌∷◌, ◌++◌, ◌&&◌, ◌||◌, str_eq,
  if◌then◌else◌, map,
}
use andromeda_knowledge_core.Text.{is_space}
use andromeda_knowledge_core.Errors.{Result, ok, ◌>>=◌}
use andromeda_knowledge_core.Json.{
  Value, str, arr, obj, Fields, get, is_some, value_or_null, to_list, is_text,
}
use andromeda_knowledge_core.Dsl.{in_texts, is_word, iterate}
use andromeda_knowledge_core.Dsl.Validate.{Problem, validate_dsl, default_depth}

pub data RuleProblem : Type 0 where
  in_condition : Problem → RuleProblem
  in_exception : ℕ → Problem → RuleProblem
  in_effect : ℕ → Problem → RuleProblem
  no_effects no_logical_key no_ontology : RuleProblem
  not_an_object unknown_effect no_target no_effect_value : ℕ → RuleProblem

abbrev pub RuleReport : Type 0
RuleReport = Result (List RuleProblem)

-- both append to `errors`
infixl 60 ◌⊞◌
abbrev pub ◌⊞◌ : RuleReport → RuleReport → RuleReport
m ⊞ n = do xs ← m; ys ← n; ok (xs ++ ys)

abbrev pub problem_if : Bool → RuleProblem → List RuleProblem
problem_if true p = p ∷ []
problem_if false p = []

unfoldable pub allowed_effects : List String
allowed_effects =
    "SET" ∷ "ADD" ∷ "SUBTRACT" ∷ "GRANT" ∷ "DENY" ∷ "MARK_ELIGIBLE" ∷ "MARK_INELIGIBLE"
    ∷ "EMIT_DERIVED" ∷ []

-- `_safe_validate_condition`: the errors that `require_valid_dsl` raises with, or none. Each is
-- given the path of what was validated.
unfoldable pub safe_validate_condition : ℕ → (Problem → RuleProblem) → Value → RuleReport
safe_validate_condition max_depth place v = do
  errors ← validate_dsl max_depth v
  ok (map place errors)

-- the effects that need no value
unfoldable pub is_mark : Value → Bool
is_mark v = is_word v "MARK_ELIGIBLE" || is_word v "MARK_INELIGIBLE"

-- `isinstance(v, str) and v`
unfoldable pub is_filled : Value → Bool
is_filled (str s) = not (str_eq s "")
is_filled _ = false

-- the value of an effect, validated when it is a node
unfoldable pub validate_effect_value : ℕ → Value → RuleReport
validate_effect_value i (obj fs) =
    if is_some (get "kind" fs)
    then safe_validate_condition default_depth (in_effect i) (obj fs)
    else ok []
validate_effect_value i _ = ok []

-- `_validate_effect(effect, index)`
unfoldable pub validate_effect : ℕ → Value → RuleReport
validate_effect i (obj fs) = do
  let kind = value_or_null (get "type" fs)
  known ← in_texts allowed_effects kind
  ok (problem_if (not known) (unknown_effect i))
      ⊞ ok (problem_if (not (is_filled (value_or_null (get "target" fs)))) (no_target i))
      ⊞ ok (problem_if (not (is_mark kind) && not (is_some (get "value" fs))) (no_effect_value i))
      ⊞ validate_effect_value i (value_or_null (get "value" fs))
validate_effect i _ = ok (not_an_object i ∷ [])

-- A loop over `enumerate(vs)` that appends a report for each value.
unfoldable pub enumerate : (ℕ → Value → RuleReport) → ℕ → List Value → RuleReport
enumerate check i [] = ok []
enumerate check i (v ∷ vs) = check i v ⊞ enumerate check (suc i) vs

unfoldable pub validate_effects : Value → RuleReport
validate_effects (arr xs) = elim (to_list xs) [
  | [] ↦ ok (no_effects ∷ [])
  | v ∷ vs ↦ enumerate validate_effect 0 (v ∷ vs)
]
validate_effects _ = ok (no_effects ∷ [])

-- `payload.get("exceptions", [])`, iterated
abbrev pub exceptions_of : Fields → Result (List Value)
exceptions_of payload = elim (get "exceptions" payload) [ none ↦ ok [] | some v ↦ iterate v ]

unfoldable pub validate_exceptions : ℕ → Fields → RuleReport
validate_exceptions max_depth payload = do
  exceptions ← exceptions_of payload
  enumerate (λ i. safe_validate_condition max_depth (in_exception i)) 0 exceptions

-- `not s.strip()`
unfoldable pub is_blank : String → Bool
is_blank String.[] = true
is_blank (String.◌∷◌ c s) = is_space c && is_blank s

unfoldable pub has_logical_key : Value → Bool
has_logical_key (str s) = not (is_blank s)
has_logical_key _ = false

-- `validate_rule_payload(payload, max_dsl_depth=…)`: valid when the report is empty.
unfoldable pub validate_rule_payload : ℕ → Fields → RuleReport
validate_rule_payload max_depth payload =
    safe_validate_condition max_depth in_condition (value_or_null (get "conditions" payload))
    ⊞ validate_exceptions max_depth payload
    ⊞ validate_effects (value_or_null (get "effects" payload))
    ⊞ ok (
        problem_if (not (has_logical_key (value_or_null (get "logical_key" payload))))
          no_logical_key)
    ⊞ ok
        (problem_if (not (is_text (value_or_null (get "ontology_version_id" payload)))) no_ontology)
