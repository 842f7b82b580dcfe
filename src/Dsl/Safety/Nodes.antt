-- ===== src/Dsl/Safety/Nodes.antt =====
-- The nodes of the DSL one level at a time: where the validator passes a node, its evaluation fails
-- only by values of the wrong type, if that holds for the children.
use andromeda_knowledge_core.Prelude.{
  ℕ, suc, String, ◌≡◌, refl, sym, ap, Bool, true, false, not, ◌||◌, Option, none, some, List, [],
  ◌∷◌, arith, inl, inr, Option-cases, append-eq-nil, any, str_eq,
}
use andromeda_knowledge_core.Errors.{
  Result, ok, err, ◌>>=◌, >>=-eq-ok, ok-injective, Only, Only-bind,
}
use andromeda_knowledge_core.Json.{
  Value, str, arr, obj, Items, nil, cons, Fields, get, value_or_null, is_list, to_list, is_text,
  truthy,
}
use andromeda_knowledge_core.Dsl.{
  Kind, literal, logical, comparison, exists, not_exists, membership, aggregation, quantifier, fact,
  facts, relation, relations, context, applicant, collection, kind_of, node_kind, is_word,
  logical_operators, comparison_operators, membership_operators, aggregation_operators,
  quantifier_operators, iterate,
}
use andromeda_knowledge_core.Dsl.Validate.{
  NodePath, key, index, Report, ◌⊕◌, Child, one, validate_children, bad_quantifier_count, report_if,
  each, validate_required_child, check_operator, bad_logical_arity, iterate_or_empty, is_count,
  validate_reference, validate_logical, validate_binary, validate_aggregation, validate_quantifier,
  validate_kind, validate_object, validate_shape, missing, bad_arity, no_items, bad_count,
  bad_reference, unknown_kind, reference_field,
}
use andromeda_knowledge_core.Dsl.Evaluate.{
  Rec, eval_each, eval_child, eval_children, eval_kind, eval_object, eval_shape, finish_logical,
  finish_comparison, finish_membership, finish_aggregation, finish_quantifier, truths, operands,
}
use andromeda_knowledge_core.Dsl.Evaluate.References.{
  EvaluationData, Trace, fact_reference, relation_reference, path_reference,
}
use andromeda_knowledge_core.Dsl.Evaluate.Operators.{logical_result}
use andromeda_knowledge_core.Dsl.Safety.Operators.{
  IsMismatch, safe_rules, Passes, report_passes, operator_found, compare_values-safe,
  aggregate-safe, quantify-safe,
}

-- What the validator passed below, the evaluator can run below.
abbrev pub ChildSafe : Child → Rec → Type 0
ChildSafe child rec = (v : Value) (p : NodePath) → Passes (child v p) → Only IsMismatch (rec v)

-- Two checks pass together when each of them passes.
both_pass : (m n : Report) → Passes (m ⊕ n) → Passes m × Passes n
both_pass (ok xs) (ok ys) h =
    let (no_xs, no_ys) = append-eq-nil xs ys (ok-injective h) in (ap ok no_xs, ap ok no_ys)
both_pass (ok xs) (err e) h = cc
both_pass (err e) n h = cc

module _ (child : Child) (rec : Rec) (safe : ChildSafe child rec) where
  each-safe :
      (p : NodePath) (i : ℕ) (vs : List Value)
      → Passes (each child p i vs)
      → Only IsMismatch (eval_each rec vs)
  unfolding each eval_each
  each-safe p i [] h = search safe_rules
  each-safe p i (v ∷ vs) h =
      let (here, rest) = both_pass (child v (index p i)) (each child p (suc i) vs) h in
      search (safe_rules, safe v (index p i) here, each-safe p (suc i) vs rest)

  required-safe :
      (fs : Fields) (name : String) (p : NodePath)
      → Passes (validate_required_child child fs name p)
      → Only IsMismatch (eval_child rec fs name)
  unfolding validate_required_child eval_child
  required-safe fs name p h = elim (Option-cases (get name fs)) [
    | inl e ↦ absurd (missing_fails (rw (e, validate_required_child) at h))
    | inr (v, e) ↦ rw e (safe v (key p name) (rw (e, validate_required_child) at h))
  ]
    where
      missing_fails : ok (one (key p name) missing) ≡ ok [] → ⊥
      missing_fails q = cc

eval_each-cons :
    (rec : Rec) (v : Value) (vs : List Value) (ts : List Trace)
    → eval_each rec (v ∷ vs) ≡ ok ts
    → (t : Trace) × (rest : List Trace) × (ts ≡ t ∷ rest)
unfolding eval_each
eval_each-cons rec v vs ts h =
    let (t, _, f) = >>=-eq-ok (rec v) (λ t. do ts ← eval_each rec vs; ok (t ∷ ts)) h in
    let (rest, _, g) = >>=-eq-ok (eval_each rec vs) (λ ts. ok (t ∷ ts)) f in
    (t, rest, sym (ok-injective g))

-- The arity test passes a known operator only with a list of children that is not empty.
children_found :
    (s : String) (o : Option Value)
    → any (λ w. str_eq s w) logical_operators ≡ true
    → bad_logical_arity (str s) (value_or_null o) ≡ false
    → (x : Value) × (xs : Items) × (o ≡ some (arr (cons x xs)))
unfolding bad_logical_arity logical_operators any is_word
children_found s none k h = cc
children_found s (some (arr nil)) k h = absurd (unfold to_list in ground arith)
children_found s (some (arr (cons x xs))) k h = (x, xs, refl)
children_found s (some _) k h = cc

items_found :
    (o : Option Value)
    → not (is_list (value_or_null o)) || not (truthy (value_or_null o)) ≡ false
    → (x : Value) × (xs : Items) × (o ≡ some (arr (cons x xs)))
unfolding truthy
items_found none h = cc
items_found (some (arr nil)) h = cc
items_found (some (arr (cons x xs))) h = (x, xs, refl)
items_found (some _) h = cc

count_fits :
    (fs : Fields) (s : String)
    → get "operator" fs ≡ some (str s)
    → bad_quantifier_count fs ≡ false
    → str_eq s "at_least" ≡ true
    → is_count (value_or_null (get "count" fs)) ≡ true
unfolding bad_quantifier_count is_word
count_fits fs s found h k = ground arith

iterate_or_empty-cons :
    (x : Value) (xs : Items) → iterate_or_empty (arr (cons x xs)) ≡ ok (x ∷ to_list xs)
unfolding iterate_or_empty iterate truthy to_list
iterate_or_empty-cons x xs = refl

module _ (child : Child) (rec : Rec) (safe : ChildSafe child rec) (fs : Fields) (p : NodePath) where
  eval_children-cons :
      (name : String) (x : Value) (xs : Items)
      → get name fs ≡ some (arr (cons x xs))
      → eval_children rec fs name ≡ eval_each rec (x ∷ to_list xs)
  unfolding eval_children iterate to_list
  eval_children-cons name x xs e = rw e

  finish_logical-safe :
      (s : String) (t : Trace) (ts : List Trace)
      → get "operator" fs ≡ some (str s)
      → Only IsMismatch (finish_logical fs (t ∷ ts))
  unfolding finish_logical truths logical_result
  finish_logical-safe s t ts e = rw e (search safe_rules)

  -- a node that runs over a list of children that is not empty
  all_of_them :
      (name : String) (x : Value) (xs : Items) (s : String)
      → get "operator" fs ≡ some (str s)
      → get name fs ≡ some (arr (cons x xs))
      → (q : NodePath) → Passes (each child q 0 (x ∷ to_list xs))
      → (finish : List Trace → Result Trace)
      → ((t : Trace) (ts : List Trace) → Only IsMismatch (finish (t ∷ ts)))
      → Only IsMismatch (do ts ← eval_children rec fs name; finish ts)
  all_of_them name x xs s found e q passes finish fin = rw (eval_children-cons name x xs e) (
      Only-bind IsMismatch (eval_each rec (x ∷ to_list xs)) finish
        (each-safe child rec safe q 0 (x ∷ to_list xs) passes)
        (λ ts h.
          let (t, rest, split) = eval_each-cons rec x (to_list xs) ts h in rw split (fin t rest)))

  children_pass :
      (name : String) (x : Value) (xs : Items)
      → get name fs ≡ some (arr (cons x xs))
      → Passes (validate_children child fs p name)
      → Passes (each child (key p name) 0 (x ∷ to_list xs))
  unfolding validate_children
  children_pass name x xs e h = rw (iterate_or_empty-cons x xs) at (rw e at h)

  logical-safe :
      Passes (validate_logical child fs p)
      → Only IsMismatch (do ts ← eval_children rec fs "args"; finish_logical fs ts)
  unfolding validate_logical
  logical-safe h =
      let operator = value_or_null (get "operator" fs) in
      let arity = bad_logical_arity operator (value_or_null (get "args" fs)) in
      let arity_check = ok (report_if arity (key p "args") bad_arity) in
      let operator_check = check_operator logical_operators fs p in
      let (two, below) =
        both_pass (operator_check ⊕ arity_check) (validate_children child fs p "args") h in
      let (good_operator, good_arity) = both_pass operator_check arity_check two in
      let (s, found, known) = operator_found logical_operators fs p good_operator in
      let no_problem = report_passes arity (key p "args") bad_arity (ok-injective good_arity) in
      let (x, xs, e) = children_found s (get "args" fs) known (rw found at no_problem) in
      all_of_them "args" x xs s found e (key p "args") (children_pass "args" x xs e below)
        (finish_logical fs) (λ t ts. finish_logical-safe s t ts found)

  binary-safe :
      (ws : List String) (finish : Trace → Trace → Result Trace)
      → ((s : String)
          → get "operator" fs ≡ some (str s)
          → any (λ w. str_eq s w) ws ≡ true
          → (left right : Trace) → Only IsMismatch (finish left right))
      → Passes (validate_binary child fs p ws)
      → Only IsMismatch
          (do left ← eval_child rec fs "left"; right ← eval_child rec fs "right"; finish left right)
  unfolding validate_binary
  binary-safe ws finish fin h =
      let operator_check = check_operator ws fs p in
      let left_check = validate_required_child child fs "left" p in
      let right_check = validate_required_child child fs "right" p in
      let (two, right) = both_pass (operator_check ⊕ left_check) right_check h in
      let (good_operator, left) = both_pass operator_check left_check two in
      let (s, found, known) = operator_found ws fs p good_operator in
      search (
        safe_rules,
        fin s found known,
        required-safe child rec safe fs "left" p left,
        required-safe child rec safe fs "right" p right,
      )

  aggregation-safe :
      Passes (validate_aggregation child fs p)
      → Only IsMismatch (do target ← eval_child rec fs "target"; finish_aggregation fs target)
  unfolding validate_aggregation finish_aggregation
  aggregation-safe h =
      let (good_operator, target) =
        both_pass (check_operator aggregation_operators fs p)
          (validate_required_child child fs "target" p) h in
      let (s, found, known) = operator_found aggregation_operators fs p good_operator in
      Only-bind IsMismatch (eval_child rec fs "target") (finish_aggregation fs)
        (required-safe child rec safe fs "target" p target)
        (λ t _. rw found (search (safe_rules, aggregate-safe s (operands t.value) known)))

  quantifier-safe :
      Passes (validate_quantifier child fs p)
      → Only IsMismatch (do ts ← eval_children rec fs "items"; finish_quantifier fs ts)
  unfolding validate_quantifier finish_quantifier
  quantifier-safe h =
      let items = value_or_null (get "items" fs) in
      let no_children = not (is_list items) || not (truthy items) in
      let items_check = ok (report_if no_children (key p "items") no_items) in
      let count_check = ok (report_if (bad_quantifier_count fs) (key p "count") bad_count) in
      let operator_check = check_operator quantifier_operators fs p in
      let (three, below) =
        both_pass (operator_check ⊕ items_check ⊕ count_check)
          (validate_children child fs p "items") h in
      let (two, good_count) = both_pass (operator_check ⊕ items_check) count_check three in
      let (good_operator, good_items) = both_pass operator_check items_check two in
      let (s, found, known) = operator_found quantifier_operators fs p good_operator in
      let (x, xs, e) =
        items_found (get "items" fs)
          (report_passes no_children (key p "items") no_items (ok-injective good_items)) in
      let no_problem =
        report_passes (bad_quantifier_count fs) (key p "count") bad_count
          (ok-injective good_count) in
      let counted = count_fits fs s found no_problem in
      all_of_them "items" x xs s found e (key p "items") (children_pass "items" x xs e below)
        (finish_quantifier fs)
        (λ t ts. rw found (
          search (
            safe_rules,
            quantify-safe s (truths (t ∷ ts)) (value_or_null (get "count" fs)) known counted,
          )))

  comparison-safe :
      Passes (validate_binary child fs p comparison_operators)
      → Only IsMismatch (do
        left ← eval_child rec fs "left"
        right ← eval_child rec fs "right"
        finish_comparison fs left right)
  unfolding finish_comparison
  comparison-safe =
      binary-safe comparison_operators (finish_comparison fs) (λ s found known left right.
        rw found (search (safe_rules, compare_values-safe left.value right.value s known)))

  membership-safe :
      Passes (validate_binary child fs p membership_operators)
      → Only IsMismatch (do
        left ← eval_child rec fs "left"
        right ← eval_child rec fs "right"
        finish_membership fs left right)
  unfolding finish_membership
  membership-safe =
      binary-safe membership_operators (finish_membership fs)
        (λ s found known left right. rw found (search safe_rules))

  text_found :
      (o : Option Value) → is_text (value_or_null o) ≡ true → (t : String) × (o ≡ some (str t))
  text_found none h = cc
  text_found (some (str t)) h = (t, refl)
  text_found (some _) h = cc

  field_found :
      (k : Kind)
      → Passes (validate_reference fs k p)
      → (t : String) × (get (reference_field k) fs ≡ some (str t))
  unfolding validate_reference
  field_found k h =
      let name = reference_field k in
      text_found (get name fs) (
        not_not (is_text (value_or_null (get name fs))) (
          report_passes (not (is_text (value_or_null (get name fs)))) (key p name) bad_reference
            (ok-injective h)))
    where
      not_not : (b : Bool) → not b ≡ false → b ≡ true
      not_not true h = refl
      not_not false h = cc

  fact-safe :
      (d : EvaluationData) (t : String)
      → get "property" fs ≡ some (str t)
      → Only IsMismatch (fact_reference fs d)
  unfolding fact_reference
  fact-safe d t e = rw e (search safe_rules)

  relation-safe :
      (d : EvaluationData) (t : String)
      → get "relation_type" fs ≡ some (str t)
      → Only IsMismatch (relation_reference fs d)
  unfolding relation_reference
  relation-safe d t e = rw e (search safe_rules)

  path-safe :
      (kind : String) (source : Fields) (t : String)
      → get "path" fs ≡ some (str t)
      → Only IsMismatch (path_reference kind source fs)
  unfolding path_reference
  path-safe kind source t e = rw e (search safe_rules)

  kind-safe :
      (d : EvaluationData) (k : Kind)
      → Passes (validate_kind child fs p k)
      → Only IsMismatch (eval_kind rec d fs k)
  unfolding validate_kind eval_kind
  kind-safe d literal h = search safe_rules
  kind-safe d logical h = logical-safe h
  kind-safe d comparison h = comparison-safe h
  kind-safe d exists h = search (safe_rules, required-safe child rec safe fs "target" p h)
  kind-safe d not_exists h = search (safe_rules, required-safe child rec safe fs "target" p h)
  kind-safe d membership h = membership-safe h
  kind-safe d aggregation h = aggregation-safe h
  kind-safe d quantifier h = quantifier-safe h
  kind-safe d relation h = let (t, e) = field_found relation h in relation-safe d t e
  kind-safe d relations h = let (t, e) = field_found relations h in relation-safe d t e
  kind-safe d context h = let (t, e) = field_found context h in path-safe "context" d.context t e
  kind-safe d applicant h =
      let (t, e) = field_found applicant h in path-safe "applicant" d.applicant t e
  kind-safe d fact h = let (t, e) = field_found fact h in fact-safe d t e
  kind-safe d facts h = let (t, e) = field_found facts h in fact-safe d t e
  kind-safe d collection h = let (t, e) = field_found collection h in fact-safe d t e

  object-safe :
      (d : EvaluationData) (v : Value)
      → Passes (validate_object child fs p v)
      → Only IsMismatch (eval_object rec d fs v)
  unfolding validate_object eval_object
  object-safe d (str s) h = elim (Option-cases (kind_of s)) [
    | inl e ↦ absurd (unknown (rw (e, validate_object) at h))
    | inr (k, e) ↦ rw (e, eval_object) (kind-safe d k (rw (e, validate_object) at h))
  ]
    where
      unknown : ok (one (key p "kind") unknown_kind) ≡ ok [] → ⊥
      unknown q = cc
  object-safe d _ h = cc

pub shape-safe :
    (child : Child) (rec : Rec) (d : EvaluationData) (v : Value) (p : NodePath)
    → ChildSafe child rec
    → Passes (validate_shape child v p)
    → Only IsMismatch (eval_shape rec d v)
unfolding validate_shape eval_shape
shape-safe child rec d (obj fs) p safe h = object-safe child rec safe fs p d (node_kind fs) h
shape-safe child rec d _ p safe h = search safe_rules
