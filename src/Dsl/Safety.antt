-- ===== src/Dsl/Safety.antt =====
-- A node that the validator passes can be evaluated: none of the faults of Python (`KeyError`,
-- `IndexError`, …) can come up. This ties `validate_dsl` of domain/dsl/ast.py to `evaluate` of
-- domain/dsl/evaluator.py.
mod Operators
mod Nodes
mod Validator
use native.Mathlib.Nat.{le_refl}
use andromeda_knowledge_core.Prelude.{
  ap, ◌∙◌, ℕ, zero, suc, ◌+◌, ◌≤◌, ◌≡◌, refl, sym, subst, ◌∙◌, List, [], ◌∷◌, String, arith, ◌⊎◌,
  inl, inr,
}
use andromeda_knowledge_core.Errors.{
  Result, ok, err, Error, validation, ◌>>=◌, ◌>>◌, Only, err-injective, fault, type_error,
}
use andromeda_knowledge_core.Json.{Value, size}
use andromeda_knowledge_core.Dsl.Validate.{
  NodePath, root, validate_node, validate_dsl, require_valid_dsl, is_empty, default_depth, Problem,
}
use andromeda_knowledge_core.Dsl.Evaluate.{eval_node, eval_value, evaluate}
use andromeda_knowledge_core.Dsl.Evaluate.References.{EvaluationData, Trace}
use andromeda_knowledge_core.Dsl.Evaluate.Fuel.{eval_node-stable}
use Operators.{IsMismatch}
use Nodes.{shape-safe}
use Validator.{validate_dsl-reports}
pub use Validator.{validate_dsl-unhashable_operator}

node-safe :
    (room f : ℕ) (d : EvaluationData) (v : Value) (p : NodePath)
    → validate_node room v p ≡ ok []
    → room ≤ f
    → Only IsMismatch (eval_node f d v)
unfolding validate_node eval_node
node-safe zero f d v p h le = cc
node-safe (suc room) zero d v p h le = absurd (omega arith)
node-safe (suc room) (suc f) d v p h le =
    shape-safe (validate_node room) (eval_node f d) d v p
      (λ w q passes. node-safe room f d w q passes (omega arith)) h

value-safe :
    (max_depth : ℕ) (d : EvaluationData) (v : Value)
    → validate_dsl max_depth v ≡ ok []
    → Only IsMismatch (eval_value d v)
unfolding validate_dsl eval_value
value-safe max_depth d v h =
    subst (Only IsMismatch)
      (eval_node-stable (size v + suc max_depth) (size v) d v (omega arith) (le_refl (size v)))
      (node-safe (suc max_depth) (size v + suc max_depth) d v root h (omega arith))

-- If the validator finds no error in a node, whatever the depth limit, its evaluation on any data
-- fails, if at all, with DSL_TYPE_MISMATCH.
pub eval_value-valid :
    (max_depth : ℕ) (d : EvaluationData) (v : Value) (e : Error)
    → validate_dsl max_depth v ≡ ok []
    → eval_value d v ≡ err e
    → e ≡ validation "DSL_TYPE_MISMATCH"
eval_value-valid max_depth d v e h = (value-safe max_depth d v h).failure e

-- Why `evaluate` fails: the validator reported problems, or it raised itself, or it found none and the
-- evaluation met values of the wrong type.
pub data IsEvaluateFailure (d : EvaluationData) (v : Value) : Error → Type 0 where
  refused :
      (problem : Problem) (problems : List Problem)
      → validate_dsl default_depth v ≡ ok (problem ∷ problems)
      → IsEvaluateFailure d v (validation "INVALID_DSL")
  raised :
      validate_dsl default_depth v ≡ err (fault type_error)
      → IsEvaluateFailure d v (fault type_error)
  mismatch :
      validate_dsl default_depth v ≡ ok []
      → eval_value d v ≡ err (validation "DSL_TYPE_MISMATCH")
      → IsEvaluateFailure d v (validation "DSL_TYPE_MISMATCH")

after_report :
    (d : EvaluationData) (v : Value) (r : Result (List Problem))
    → validate_dsl default_depth v ≡ r
    → Only (IsEvaluateFailure d v) (evaluate d v)
unfolding evaluate require_valid_dsl is_empty
after_report d v (ok []) e = rw e record {
  failure = λ x h.
      let code = eval_value-valid default_depth d v x e h in
      subst (IsEvaluateFailure d v) (sym code) (mismatch e (h ∙ ap err code));
}
after_report d v (ok (p ∷ ps)) e =
    rw e
      record { failure = λ x h. subst (IsEvaluateFailure d v) (err-injective h) (refused p ps e) }
after_report d v (err x) e = rw e record {
  failure = λ y h.
      let code = (validate_dsl-reports default_depth v).failure x e in
      subst (IsEvaluateFailure d v) (sym code ∙ err-injective h) (raised (e ∙ ap err code));
}

-- When `evaluate` fails, the validator reported problems and the failure is INVALID_DSL, or the
-- validator itself raised a TypeError, or it found no problem and the failure is DSL_TYPE_MISMATCH, of
-- the evaluation.
pub evaluate_failures :
    (d : EvaluationData) (v : Value) (e : Error) → evaluate d v ≡ err e → IsEvaluateFailure d v e
evaluate_failures d v e h = (after_report d v (validate_dsl default_depth v) refl).failure e h
