-- ===== src/Dsl/Safety/Validator.antt =====
-- The validator returns a report, or raises a `TypeError`: an operator that cannot be hashed, or
-- children that cannot be iterated, escape its checks.
use andromeda_knowledge_core.Prelude.{
  ℕ, zero, suc, String, ◌≡◌, refl, some, List, [], ◌∷◌, ◌++◌, inl, inr, Option-cases,
}
use andromeda_knowledge_core.Errors.{
  ok, err, Error, fault, type_error, ◌>>=◌, Only, Only-bind, Only-ok, only_rules,
}
use andromeda_knowledge_core.Json.{Value, null, str, arr, obj, Items, Fields, get, to_list}
use andromeda_knowledge_core.Dsl.{
  Kind, literal, logical, comparison, exists, not_exists, membership, aggregation, quantifier,
  kind_of, node_kind, in_texts, iterate,
}
use andromeda_knowledge_core.Dsl.Validate.{
  NodePath, root, key, index, Report, ◌⊕◌, Child, validate_children, each, validate_required_child,
  check_operator, iterate_or_empty, validate_reference, validate_logical, validate_binary,
  validate_aggregation, validate_quantifier, validate_kind, validate_object, validate_shape,
  validate_node, validate_dsl,
}

abbrev pub IsTypeError : Error → Type 0
IsTypeError e = e ≡ fault type_error

type_error_lem : IsTypeError (fault type_error)
type_error_lem = refl

ruleset report_rules = (only_rules, type_error_lem)

both-report : (m n : Report) → Only IsTypeError m → Only IsTypeError n → Only IsTypeError (m ⊕ n)
both-report m n hm hn =
    Only-bind IsTypeError m (λ xs. do ys ← n; ok (xs ++ ys)) hm
      (λ xs _.
        Only-bind IsTypeError n (λ ys. ok (xs ++ ys)) hn (λ ys _. Only-ok IsTypeError (xs ++ ys)))

in_texts-reports : (ws : List String) (v : Value) → Only IsTypeError (in_texts ws v)
unfolding in_texts
in_texts-reports ws (str s) = search report_rules
in_texts-reports ws _ = search report_rules

iterate-reports : (v : Value) → Only IsTypeError (iterate v)
unfolding iterate
iterate-reports null = search report_rules
iterate-reports _ = search report_rules

check_operator-reports :
    (ws : List String) (fs : Fields) (p : NodePath) → Only IsTypeError (check_operator ws fs p)
unfolding check_operator
check_operator-reports ws fs p = search (report_rules, in_texts-reports)

module _ (child : Child) (h : (v : Value) (p : NodePath) → Only IsTypeError (child v p)) where
  each-reports : (p : NodePath) (i : ℕ) (vs : List Value) → Only IsTypeError (each child p i vs)
  unfolding each
  each-reports p i [] = search report_rules
  each-reports p i (v ∷ vs) =
      both-report (child v (index p i)) (each child p (suc i) vs) (h v (index p i))
        (each-reports p (suc i) vs)

  required-reports :
      (fs : Fields) (name : String) (p : NodePath)
      → Only IsTypeError (validate_required_child child fs name p)
  unfolding validate_required_child
  required-reports fs name p = elim (Option-cases (get name fs)) [
    | inl e ↦ rw (e, validate_required_child) (search report_rules)
    | inr (v, e) ↦ rw (e, validate_required_child) (h v (key p name))
  ]

  children-reports :
      (fs : Fields) (p : NodePath) (name : String)
      → Only IsTypeError (validate_children child fs p name)
  unfolding validate_children iterate_or_empty
  children-reports fs p name = search (report_rules, iterate-reports, each-reports)

  kind-reports :
      (fs : Fields) (p : NodePath) (k : Kind) → Only IsTypeError (validate_kind child fs p k)
  unfolding validate_kind validate_logical validate_binary validate_aggregation validate_quantifier
      validate_reference
  kind-reports fs p literal = search report_rules
  kind-reports fs p logical =
      search (report_rules, check_operator-reports, children-reports) depth 8
  kind-reports fs p comparison =
      search (report_rules, check_operator-reports, required-reports) depth 8
  kind-reports fs p exists = required-reports fs "target" p
  kind-reports fs p not_exists = required-reports fs "target" p
  kind-reports fs p membership =
      search (report_rules, check_operator-reports, required-reports) depth 8
  kind-reports fs p aggregation =
      search (report_rules, check_operator-reports, required-reports) depth 8
  kind-reports fs p quantifier =
      search (report_rules, check_operator-reports, children-reports) depth 9
  kind-reports fs p _ = search report_rules

  object-reports :
      (fs : Fields) (p : NodePath) (v : Value) → Only IsTypeError (validate_object child fs p v)
  unfolding validate_object
  object-reports fs p (str s) = elim (Option-cases (kind_of s)) [
    | inl e ↦ rw (e, validate_object) (search report_rules)
    | inr (k, e) ↦ rw (e, validate_object) (kind-reports fs p k)
  ]
  object-reports fs p _ = search report_rules

  shape-reports : (v : Value) (p : NodePath) → Only IsTypeError (validate_shape child v p)
  unfolding validate_shape
  shape-reports (arr xs) p = each-reports p 0 (to_list xs)
  shape-reports (obj fs) p = object-reports fs p (node_kind fs)
  shape-reports _ p = search report_rules

node-reports : (room : ℕ) (v : Value) (p : NodePath) → Only IsTypeError (validate_node room v p)
unfolding validate_node
node-reports zero v p = search report_rules
node-reports (suc room) v p = shape-reports (validate_node room) (node-reports room) v p

pub validate_dsl-reports : (max_depth : ℕ) (v : Value) → Only IsTypeError (validate_dsl max_depth v)
unfolding validate_dsl
validate_dsl-reports max_depth v = node-reports (suc max_depth) v root

-- A logical node whose operator is a list makes `validate_dsl` raise instead of reporting it.
pub validate_dsl-unhashable_operator :
    (max_depth : ℕ) (fs : Fields) (xs : Items)
    → node_kind fs ≡ str "logical"
    → get "operator" fs ≡ some (arr xs)
    → validate_dsl max_depth (obj fs) ≡ err (fault type_error)
unfolding validate_dsl validate_node validate_shape validate_object validate_kind validate_logical
    check_operator in_texts kind_of
validate_dsl-unhashable_operator max_depth fs xs k e = rw (k, e)
