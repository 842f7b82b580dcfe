-- ===== src/Dsl/Evaluate/Failures.antt =====
-- The evaluator never reports `out_of_fuel` on the fuel that it is given.
use native.Mathlib.Nat.{le_refl}
use andromeda_knowledge_core.Prelude.{
  ℕ, zero, suc, ◌≤◌, ◌<◌, String, ◌≡◌, ◌≢◌, refl, List, [], ◌∷◌, arith, In, inl, inr, Option-cases,
  if◌then◌else◌, Bool, true,
}
use andromeda_knowledge_core.Errors.{
  ok, err, Error, fault, out_of_fuel, ◌>>=◌, key_error, validation, Only, only_rules, Only-bind,
  Only-ok, index_error, type_error,
}
use andromeda_knowledge_core.Json.{Value, null, bool, num, str, obj, Fields, get, size, size_fields}
use andromeda_knowledge_core.Prelude.Int.{ℤ, pos, negsuc, ◌+ℤ◌}
use andromeda_knowledge_core.Json.Compare.{py_order, as_int, Order}
use andromeda_knowledge_core.Json.Size.{size-get, size-pos}
use andromeda_knowledge_core.Dsl.{
  Kind, literal, logical, comparison, exists, not_exists, membership, aggregation, quantifier,
  relation, relations, context, applicant, kind_of, node_kind, iterate,
}
use andromeda_knowledge_core.Dsl.Evaluate.{
  Rec, eval_each, eval_child, eval_children, eval_kind, eval_object, eval_shape, eval_node,
  eval_value, finish_logical, finish_comparison, finish_membership, finish_aggregation,
  finish_quantifier,
}
use andromeda_knowledge_core.Dsl.Evaluate.References.{
  EvaluationData, Trace, fact_reference, relation_reference, path_reference, text_of,
}
use andromeda_knowledge_core.Dsl.Evaluate.Operators.{
  Comparison, equal, unequal, order, comparison_of, compare_values, compare_by, apply_comparison,
  aggregate, aggregate_some, sum_from, best, quantify, reaches, logical_result,
}
use andromeda_knowledge_core.Dsl.Evaluate.Fuel.{part, size-obj, eval_node-stable}

abbrev pub HasFuel : Error → Type 0
HasFuel e = e ≢ fault out_of_fuel

key_error-HasFuel : HasFuel (fault key_error)
key_error-HasFuel p = cc

index_error-HasFuel : HasFuel (fault index_error)
index_error-HasFuel p = cc

type_error-HasFuel : HasFuel (fault type_error)
type_error-HasFuel p = cc

validation-HasFuel : (c : String) → HasFuel (validation c)
validation-HasFuel c p = cc

ruleset fuel_rules =
    (only_rules, key_error-HasFuel, index_error-HasFuel, type_error-HasFuel, validation-HasFuel)

sum_from-HasFuel : (total : ℤ) (vs : List Value) → Only HasFuel (sum_from total vs)
unfolding sum_from
sum_from-HasFuel total [] = search fuel_rules
sum_from-HasFuel total (v ∷ vs) = elim (Option-cases (as_int v)) [
  | inl e ↦ rw (e, sum_from) (search fuel_rules)
  | inr (n, e) ↦ rw (e, sum_from) (sum_from-HasFuel (total +ℤ n) vs)
]

best-HasFuel : (o : Order) (m : Value) (vs : List Value) → Only HasFuel (best o m vs)
unfolding best
best-HasFuel o m [] = search fuel_rules
best-HasFuel o m (v ∷ vs) = elim (Option-cases (py_order o v m)) [
  | inl e ↦ rw (e, best) (search fuel_rules)
  | inr (b, e) ↦ rw (e, best) (best-HasFuel o (if b then v else m) vs)
]

logical_result-HasFuel : (v : Value) (bs : List Bool) → Only HasFuel (logical_result v bs)
unfolding logical_result
logical_result-HasFuel v [] = search fuel_rules
logical_result-HasFuel v (b ∷ bs) = search fuel_rules

finish_logical-HasFuel : (fs : Fields) (ts : List Trace) → Only HasFuel (finish_logical fs ts)
unfolding finish_logical
finish_logical-HasFuel fs ts = search (fuel_rules, logical_result-HasFuel)

apply_comparison-HasFuel :
    (c : Comparison) (left right : Value) → Only HasFuel (apply_comparison c left right)
unfolding apply_comparison
apply_comparison-HasFuel equal left right = search fuel_rules
apply_comparison-HasFuel unequal left right = search fuel_rules
apply_comparison-HasFuel (order o) left right = elim (Option-cases (py_order o left right)) [
  | inl e ↦ rw (e, apply_comparison) (search fuel_rules)
  | inr (b, e) ↦ rw (e, apply_comparison) (search fuel_rules)
]

compare_by-HasFuel : (left right v : Value) → Only HasFuel (compare_by left right v)
unfolding compare_by
compare_by-HasFuel left right (str s) = elim (Option-cases (comparison_of s)) [
  | inl e ↦ rw (e, compare_by) (search fuel_rules)
  | inr (c, e) ↦ rw (e, compare_by) (apply_comparison-HasFuel c left right)
]
compare_by-HasFuel left right _ = search fuel_rules

finish_comparison-HasFuel :
    (fs : Fields) (left right : Trace) → Only HasFuel (finish_comparison fs left right)
unfolding finish_comparison compare_values
finish_comparison-HasFuel fs left right = search (fuel_rules, compare_by-HasFuel)

finish_membership-HasFuel :
    (fs : Fields) (left right : Trace) → Only HasFuel (finish_membership fs left right)
unfolding finish_membership
finish_membership-HasFuel fs left right = search fuel_rules

aggregate-HasFuel : (v : Value) (vs : List Value) → Only HasFuel (aggregate v vs)
unfolding aggregate aggregate_some
aggregate-HasFuel v [] = search fuel_rules
aggregate-HasFuel v (x ∷ vs) = search (fuel_rules, sum_from-HasFuel, best-HasFuel) depth 8

finish_aggregation-HasFuel : (fs : Fields) (t : Trace) → Only HasFuel (finish_aggregation fs t)
unfolding finish_aggregation
finish_aggregation-HasFuel fs t = search (fuel_rules, aggregate-HasFuel)

reaches-HasFuel : (n : ℕ) (v : Value) → Only HasFuel (reaches n v)
unfolding reaches
reaches-HasFuel n (num (pos m)) = search fuel_rules
reaches-HasFuel n (num (negsuc m)) = search fuel_rules
reaches-HasFuel n (bool true) = search fuel_rules
reaches-HasFuel n _ = search fuel_rules

finish_quantifier-HasFuel : (fs : Fields) (ts : List Trace) → Only HasFuel (finish_quantifier fs ts)
unfolding finish_quantifier quantify
finish_quantifier-HasFuel fs ts = search (fuel_rules, reaches-HasFuel) depth 9

text_of-HasFuel : (v : Value) → Only HasFuel (text_of v)
text_of-HasFuel (str s) = search fuel_rules
text_of-HasFuel _ = search fuel_rules

fact_reference-HasFuel : (fs : Fields) (d : EvaluationData) → Only HasFuel (fact_reference fs d)
unfolding fact_reference
fact_reference-HasFuel fs d = search (fuel_rules, text_of-HasFuel)

relation_reference-HasFuel :
    (fs : Fields) (d : EvaluationData) → Only HasFuel (relation_reference fs d)
unfolding relation_reference
relation_reference-HasFuel fs d = search (fuel_rules, text_of-HasFuel)

path_reference-HasFuel :
    (kind : String) (source fs : Fields) → Only HasFuel (path_reference kind source fs)
unfolding path_reference
path_reference-HasFuel kind source fs = search (fuel_rules, text_of-HasFuel)

module _ (rec : Rec) where
  eval_each-HasFuel :
      (vs : List Value)
      → ((w : Value) → In w vs → Only HasFuel (rec w))
      → Only HasFuel (eval_each rec vs)
  unfolding eval_each
  eval_each-HasFuel [] h = search fuel_rules
  eval_each-HasFuel (v ∷ vs) h =
      Only-bind HasFuel (rec v) (λ t. do ts ← eval_each rec vs; ok (t ∷ ts)) (h v (inl refl))
        (λ t _.
          Only-bind HasFuel (eval_each rec vs) (λ ts. ok (t ∷ ts))
            (eval_each-HasFuel vs (λ w m. h w (inr m))) (λ ts _. Only-ok HasFuel (t ∷ ts)))

  iterate-HasFuel : (v : Value) → Only HasFuel (iterate v)
  unfolding iterate
  iterate-HasFuel null = search fuel_rules
  iterate-HasFuel _ = search fuel_rules

module _ (rec : Rec) (fs : Fields)
    (h : (w : Value) → size w ≤ size_fields fs → Only HasFuel (rec w)) where
  eval_child-HasFuel : (name : String) → Only HasFuel (eval_child rec fs name)
  unfolding eval_child
  eval_child-HasFuel name = elim (Option-cases (get name fs)) [
    | inl e ↦ rw e (search fuel_rules)
    | inr (w, e) ↦ rw e (h w (size-get name fs w e))
  ]

  eval_children-HasFuel : (name : String) → Only HasFuel (eval_children rec fs name)
  unfolding eval_children
  eval_children-HasFuel name = elim (Option-cases (get name fs)) [
    | inl e ↦ rw e (search fuel_rules)
    | inr (w, e) ↦ rw e (
        Only-bind HasFuel (iterate w) (eval_each rec) (iterate-HasFuel rec w)
          (λ vs i. eval_each-HasFuel rec vs (λ u m. h u (part name fs w e vs i u m))))
  ]

  eval_kind-HasFuel : (d : EvaluationData) (k : Kind) → Only HasFuel (eval_kind rec d fs k)
  unfolding eval_kind
  eval_kind-HasFuel d literal = search fuel_rules
  eval_kind-HasFuel d logical = search (fuel_rules, eval_children-HasFuel, finish_logical-HasFuel)
  eval_kind-HasFuel d comparison =
      search (fuel_rules, eval_child-HasFuel, finish_comparison-HasFuel)
  eval_kind-HasFuel d exists = search (fuel_rules, eval_child-HasFuel)
  eval_kind-HasFuel d not_exists = search (fuel_rules, eval_child-HasFuel)
  eval_kind-HasFuel d membership =
      search (fuel_rules, eval_child-HasFuel, finish_membership-HasFuel)
  eval_kind-HasFuel d aggregation =
      search (fuel_rules, eval_child-HasFuel, finish_aggregation-HasFuel)
  eval_kind-HasFuel d quantifier =
      search (fuel_rules, eval_children-HasFuel, finish_quantifier-HasFuel)
  eval_kind-HasFuel d relation = relation_reference-HasFuel fs d
  eval_kind-HasFuel d relations = relation_reference-HasFuel fs d
  eval_kind-HasFuel d context = path_reference-HasFuel "context" d.context fs
  eval_kind-HasFuel d applicant = path_reference-HasFuel "applicant" d.applicant fs
  eval_kind-HasFuel d _ = fact_reference-HasFuel fs d

  eval_object-HasFuel : (d : EvaluationData) (v : Value) → Only HasFuel (eval_object rec d fs v)
  unfolding eval_object
  eval_object-HasFuel d (str s) = elim (Option-cases (kind_of s)) [
    | inl e ↦ rw (e, eval_object) (search fuel_rules)
    | inr (k, e) ↦ rw (e, eval_object) (eval_kind-HasFuel d k)
  ]
  eval_object-HasFuel d _ = search fuel_rules

eval_shape-HasFuel :
    (rec : Rec) (d : EvaluationData) (v : Value)
    → ((w : Value) → size w < size v → Only HasFuel (rec w))
    → Only HasFuel (eval_shape rec d v)
unfolding eval_shape
eval_shape-HasFuel rec d (obj fs) h =
    eval_object-HasFuel rec fs (λ w le. h w (omega (arith, size-obj fs))) d (node_kind fs)
eval_shape-HasFuel rec d _ h = search fuel_rules

pub eval_node-HasFuel :
    (f : ℕ) (d : EvaluationData) (v : Value) → size v ≤ f → Only HasFuel (eval_node f d v)
unfolding eval_node
eval_node-HasFuel zero d v h = absurd (omega (arith, size-pos v))
eval_node-HasFuel (suc f) d v h =
    eval_shape-HasFuel (eval_node f d) d v (λ w lt. eval_node-HasFuel f d w (omega arith))

-- On any fuel from the size of a node on, `eval_node` gives what `eval_value` gives, and that is
-- never `out_of_fuel`: the evaluation of every node ends.
pub eval_node_terminates :
    (f : ℕ) (d : EvaluationData) (v : Value)
    → size v ≤ f
    → (eval_node f d v ≡ eval_value d v) × (eval_value d v ≢ err (fault out_of_fuel))
unfolding eval_value
eval_node_terminates f d v h = (
  eval_node-stable f (size v) d v h (le_refl (size v)),
  λ p. (eval_node-HasFuel (size v) d v (le_refl (size v))).failure (fault out_of_fuel) p refl,
)
