-- ===== src/Dsl/Validate.antt =====
-- `validate_dsl` of domain/dsl/ast.py. The recursion is on the levels that are left,
-- `max_depth + 1 - depth`: none are left exactly when `depth > max_depth`.
use andromeda_knowledge_core.Prelude.{
  ℕ, zero, suc, String, Bool, true, false, not, none, some, List, [], ◌∷◌, ◌++◌, ◌&&◌, ◌||◌,
  if◌then◌else◌, length, ◌==◌,
}
use andromeda_knowledge_core.Prelude.Int.{pos}
use andromeda_knowledge_core.Errors.{Result, ok, err, validation, ◌>>=◌}
use andromeda_knowledge_core.Json.{
  Value, bool, num, str, arr, obj, Fields, get, value_or_null, is_some, is_list, is_text, to_list,
  truthy,
}
use andromeda_knowledge_core.Dsl.{
  Kind, literal, logical, comparison, exists, not_exists, membership, aggregation, quantifier,
  relation, relations, context, applicant, kind_of, node_kind, in_texts, is_word, logical_operators,
  comparison_operators, membership_operators, aggregation_operators, quantifier_operators, iterate,
}

-- Where an error was found: `$`, `path.name`, `path[i]`.
pub data NodePath : Type 0 where
  root : NodePath
  key : NodePath → String → NodePath
  index : NodePath → ℕ → NodePath

-- The messages of the report.
pub data Message : Type 0 where
  too_deep not_a_node no_kind unknown_kind no_value bad_arity no_items bad_count : Message
  unknown_operator missing bad_reference : Message

pub record Problem : Type 0 where
  pub path : NodePath
  pub message : Message

abbrev pub Report : Type 0
Report = Result (List Problem)

abbrev pub one : NodePath → Message → List Problem
one p m = record { path = p; message = m } ∷ []

abbrev pub report_if : Bool → NodePath → Message → List Problem
report_if true p m = one p m
report_if false p m = []

-- One check after another: both append to `errors`.
infixl 60 ◌⊕◌
abbrev pub ◌⊕◌ : Report → Report → Report
m ⊕ n = do xs ← m; ys ← n; ok (xs ++ ys)

-- A recursive call of the validator, one level further down.
abbrev pub Child : Type 0
Child = Value → NodePath → Report

-- `for index, child in enumerate(children)`
unfoldable pub each : Child → NodePath → ℕ → List Value → Report
each child p i [] = ok []
each child p i (v ∷ vs) = child v (index p i) ⊕ each child p (suc i) vs

unfoldable pub validate_required_child : Child → Fields → String → NodePath → Report
validate_required_child child fs name p = elim (get name fs) [
  | none ↦ ok (one (key p name) missing)
  | some v ↦ child v (key p name)
]

-- `node.get("operator") not in OPERATORS`
unfoldable pub check_operator : List String → Fields → NodePath → Report
check_operator ws fs p = do
  known ← in_texts ws (value_or_null (get "operator" fs))
  ok (report_if (not known) (key p "operator") unknown_operator)

-- `len(args or [])`, read only of a list
abbrev pub list_length : Value → ℕ
list_length (arr xs) = length (to_list xs)
list_length _ = 0

-- `isinstance(args, list)` and the arity that the operator wants
unfoldable pub bad_logical_arity : Value → Value → Bool
bad_logical_arity operator args =
    not (is_list args)
    || (is_word operator "not" && not (list_length args == 1))
    || ((is_word operator "and" || is_word operator "or") && list_length args == 0)

-- `enumerate(children or [])`
unfoldable pub iterate_or_empty : Value → Result (List Value)
iterate_or_empty v = if truthy v then iterate v else ok []

-- `not isinstance(count, int) or count < 0`
unfoldable pub is_count : Value → Bool
is_count (bool b) = true
is_count (num (pos n)) = true
is_count _ = false

-- `operator == "at_least"` without a count that is a non-negative integer
unfoldable pub bad_quantifier_count : Fields → Bool
bad_quantifier_count fs =
    is_word (value_or_null (get "operator" fs)) "at_least"
    && not (is_count (value_or_null (get "count" fs)))

abbrev pub reference_field : Kind → String
reference_field relation = "relation_type"
reference_field relations = "relation_type"
reference_field context = "path"
reference_field applicant = "path"
reference_field _ = "property"

unfoldable pub validate_reference : Fields → Kind → NodePath → Report
validate_reference fs k p =
    let name = reference_field k in
    ok (report_if (not (is_text (value_or_null (get name fs)))) (key p name) bad_reference)

module _ (child : Child) (fs : Fields) (p : NodePath) where
  -- `for index, child in enumerate(node.get(name) or [])`
  unfoldable pub validate_children : String → Report
  validate_children name = do
    children ← iterate_or_empty (value_or_null (get name fs))
    each child (key p name) 0 children

  unfoldable pub validate_logical : Report
  validate_logical =
      let operator = value_or_null (get "operator" fs) in
      let args = value_or_null (get "args" fs) in
      check_operator logical_operators fs p
      ⊕ ok (report_if (bad_logical_arity operator args) (key p "args") bad_arity)
      ⊕ validate_children "args"

  -- comparisons and memberships
  unfoldable pub validate_binary : List String → Report
  validate_binary ws =
      check_operator ws fs p
      ⊕ validate_required_child child fs "left" p
      ⊕ validate_required_child child fs "right" p

  unfoldable pub validate_aggregation : Report
  validate_aggregation =
      check_operator aggregation_operators fs p ⊕ validate_required_child child fs "target" p

  unfoldable pub validate_quantifier : Report
  validate_quantifier =
      let items = value_or_null (get "items" fs) in
      check_operator quantifier_operators fs p
      ⊕ ok (report_if (not (is_list items) || not (truthy items)) (key p "items") no_items)
      ⊕ ok (report_if (bad_quantifier_count fs) (key p "count") bad_count)
      ⊕ validate_children "items"

  unfoldable pub validate_kind : Kind → Report
  validate_kind literal = ok (report_if (not (is_some (get "value" fs))) p no_value)
  validate_kind logical = validate_logical
  validate_kind comparison = validate_binary comparison_operators
  validate_kind exists = validate_required_child child fs "target" p
  validate_kind not_exists = validate_required_child child fs "target" p
  validate_kind membership = validate_binary membership_operators
  validate_kind aggregation = validate_aggregation
  validate_kind quantifier = validate_quantifier
  validate_kind k = validate_reference fs k p

  unfoldable pub validate_object : Value → Report
  validate_object (str s) = elim (kind_of s) [
    | none ↦ ok (one (key p "kind") unknown_kind)
    | some k ↦ validate_kind k
  ]
  validate_object _ = ok (one p no_kind)

-- The body of `_validate_node` below the depth test.
unfoldable pub validate_shape : Child → Value → NodePath → Report
validate_shape child (arr xs) p = each child p 0 (to_list xs)
validate_shape child (obj fs) p = validate_object child fs p (node_kind fs)
validate_shape child _ p = ok []

unfoldable pub validate_node : ℕ → Value → NodePath → Report
validate_node zero v p = ok (one p too_deep)
validate_node (suc room) v p = validate_shape (validate_node room) v p

-- `validate_dsl(node, max_depth=…)`: the report is valid when it has no errors.
unfoldable pub validate_dsl : ℕ → Value → Report
validate_dsl max_depth v = validate_node (suc max_depth) v root

abbrev pub default_depth : ℕ
default_depth = 30

unfoldable pub is_empty : {A : Type 0} → List A → Bool
is_empty [] = true
is_empty (x ∷ xs) = false

-- `raise ValidationError("INVALID_DSL")` unless the report is valid.
unfoldable pub require_valid_dsl : ℕ → Value → Result (Unit {0})
require_valid_dsl max_depth v = do
  errors ← validate_dsl max_depth v
  if is_empty errors then ok tt else err (validation "INVALID_DSL")
