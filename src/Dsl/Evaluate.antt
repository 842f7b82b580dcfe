-- ===== src/Dsl/Evaluate.antt =====
-- domain/dsl/evaluator.py. Evaluation is on fuel; `evaluate` gives as much as the node is large,
-- which Dsl/Evaluate/Fuel.antt shows to be enough.
pub mod References
pub mod Operators
pub mod Fuel
pub mod Failures
pub mod Frame
use andromeda_knowledge_core.Prelude.{
  ℕ, zero, suc, String, Bool, true, false, not, Option, none, some, List, [], ◌∷◌, ◌++◌, map,
  if◌then◌else◌, ◌&&◌,
}
use andromeda_knowledge_core.Errors.{
  Result, ok, err, validation, fault, key_error, type_error, index_error, out_of_fuel, ◌>>=◌, ◌>>◌,
  or_raise,
}
use andromeda_knowledge_core.Json.{
  Value, null, bool, num, str, arr, obj, Fields, get, is_some, value_or_null, truthy, is_list,
  to_list, size,
}
use andromeda_knowledge_core.Json.Compare.{is_in, is_present}
use andromeda_knowledge_core.Dsl.{
  Kind, literal, logical, comparison, exists, not_exists, membership, aggregation, quantifier, fact,
  facts, relation, relations, context, applicant, collection, kind_of, node_kind, is_word, iterate,
}
use andromeda_knowledge_core.Dsl.Validate.{validate_dsl, require_valid_dsl, default_depth}
use andromeda_knowledge_core.Dsl.Evaluate.References.{
  EvaluationData, Trace, plain, Step, logical_step, aggregation_step, quantifier_step, binary_step,
  Dependency, fact_reference, relation_reference, path_reference,
}
use andromeda_knowledge_core.Dsl.Evaluate.Operators.{
  compare_values, aggregate, quantify, logical_result,
}

-- A recursive call of the evaluator.
abbrev pub Rec : Type 0
Rec = Value → Result Trace

-- `[_evaluate(child, data) for child in …]`
unfoldable pub eval_each : Rec → List Value → Result (List Trace)
eval_each rec [] = ok []
eval_each rec (v ∷ vs) = do t ← rec v; ts ← eval_each rec vs; ok (t ∷ ts)

-- `set().union(*(trace.dependencies for trace in traces))`; the order and repetitions of this list
-- mean nothing.
unfoldable pub all_dependencies : List Trace → List Dependency
all_dependencies [] = []
all_dependencies (t ∷ ts) = t.dependencies ++ all_dependencies ts

unfoldable pub all_steps : List Trace → List Step
all_steps [] = []
all_steps (t ∷ ts) = t.steps ++ all_steps ts

unfoldable pub truths : List Trace → List Bool
truths [] = []
truths (t ∷ ts) = truthy t.value ∷ truths ts

-- `node[name]`
abbrev pub item : String → Fields → Result Value
item name fs = or_raise (fault key_error) (get name fs)

module _ (rec : Rec) (fs : Fields) where
  unfoldable pub eval_child : String → Result Trace
  eval_child name = do node ← item name fs; rec node

  unfoldable pub eval_children : String → Result (List Trace)
  eval_children name = do nodes ← item name fs; children ← iterate nodes; eval_each rec children

-- `_merge`
unfoldable pub merge : Value → Trace → Trace → String → Value → Trace
merge v left right operation operator = record {
  value = v;
  dependencies = left.dependencies ++ right.dependencies;
  steps = left.steps ++ right.steps ++ binary_step operation operator v ∷ [];
}

-- the values that a membership looks through
abbrev pub candidates : Value → List Value
candidates (arr xs) = to_list xs
candidates v = v ∷ []

-- the values that an aggregation runs over
abbrev pub operands : Value → List Value
operands (arr xs) = to_list xs
operands null = []
operands v = v ∷ []

module _ (fs : Fields) where
  unfoldable pub finish_logical : List Trace → Result Trace
  finish_logical ts = do
    operator ← item "operator" fs
    result ← logical_result operator (truths ts)
    ok (record {
      value = bool result;
      dependencies = all_dependencies ts;
      steps = all_steps ts ++ logical_step operator (truths ts) result ∷ [];
    })

  unfoldable pub finish_comparison : Trace → Trace → Result Trace
  finish_comparison left right = do
    operator ← item "operator" fs
    result ← compare_values left.value right.value operator
    ok (merge (bool result) left right "comparison" operator)

  unfoldable pub finish_exists : Bool → Trace → Trace
  finish_exists wanted target =
      let found = is_present target.value in
      record target { value = bool (if wanted then found else not found) }

  unfoldable pub finish_membership : Trace → Trace → Result Trace
  finish_membership left right = do
    let found = is_in left.value (candidates right.value)
    operator ← item "operator" fs
    ok (
        merge (bool (if is_word operator "not_in" then not found else found)) left right
          "membership" operator)

  unfoldable pub finish_aggregation : Trace → Result Trace
  finish_aggregation target = do
    operator ← item "operator" fs
    result ← aggregate operator (operands target.value)
    ok (record target {
      value = result;
      steps = target.steps ++ aggregation_step operator result ∷ [];
    })

  unfoldable pub finish_quantifier : List Trace → Result Trace
  finish_quantifier ts = do
    operator ← item "operator" fs
    result ← quantify operator (truths ts) (value_or_null (get "count" fs))
    ok (record {
      value = bool result;
      dependencies = all_dependencies ts;
      steps = all_steps ts ++ quantifier_step operator (truths ts) result ∷ [];
    })

module _ (rec : Rec) (d : EvaluationData) (fs : Fields) where
  unfoldable pub eval_kind : Kind → Result Trace
  eval_kind literal = ok (plain (value_or_null (get "value" fs)))
  eval_kind logical = do ts ← eval_children rec fs "args"; finish_logical fs ts
  eval_kind comparison = do
    left ← eval_child rec fs "left"
    right ← eval_child rec fs "right"
    finish_comparison fs left right
  eval_kind exists = do target ← eval_child rec fs "target"; ok (finish_exists fs true target)
  eval_kind not_exists = do target ← eval_child rec fs "target"; ok (finish_exists fs false target)
  eval_kind membership = do
    left ← eval_child rec fs "left"
    right ← eval_child rec fs "right"
    finish_membership fs left right
  eval_kind aggregation = do target ← eval_child rec fs "target"; finish_aggregation fs target
  eval_kind quantifier = do ts ← eval_children rec fs "items"; finish_quantifier fs ts
  eval_kind relation = relation_reference fs d
  eval_kind relations = relation_reference fs d
  eval_kind context = path_reference "context" d.context fs
  eval_kind applicant = path_reference "applicant" d.applicant fs
  eval_kind k = fact_reference fs d

  -- the kind of a node, as `_evaluate` tells it
  unfoldable pub eval_object : Value → Result Trace
  eval_object (str s) = elim (kind_of s) [
    | none ↦ err (validation "INVALID_DSL")
    | some k ↦ eval_kind k
  ]
  eval_object (arr xs) = err (fault type_error)
  eval_object (obj gs) = err (fault type_error)
  eval_object _ = err (validation "INVALID_DSL")

-- The body of `_evaluate`: what is no dict stands for itself.
unfoldable pub eval_shape : Rec → EvaluationData → Value → Result Trace
eval_shape rec d (obj fs) = eval_object rec d fs (node_kind fs)
eval_shape rec d v = ok (plain v)

unfoldable pub eval_node : ℕ → EvaluationData → Value → Result Trace
eval_node zero d v = err (fault out_of_fuel)
eval_node (suc fuel) d v = eval_shape (eval_node fuel d) d v

-- `_evaluate(node, data)`
unfoldable pub eval_value : EvaluationData → Value → Result Trace
eval_value d v = eval_node (size v) d v

-- `evaluate(node, data)`
unfoldable pub evaluate : EvaluationData → Value → Result Trace
evaluate d v = do require_valid_dsl default_depth v; eval_value d v

-- `resolve_value(node, data)`
unfoldable pub resolve_value : EvaluationData → Value → Result Trace
resolve_value d (obj fs) =
    if is_some (get "kind" fs) then eval_value d (obj fs) else ok (plain (obj fs))
resolve_value d v = ok (plain v)
