-- ===== src/Dsl/Evaluate/Fuel.antt =====
-- The fuel of `eval_node`: any amount from the size of the node on gives the same result, and that
-- result is never `out_of_fuel`.
use andromeda_knowledge_core.Prelude.{
  ℕ, zero, suc, ◌≤◌, ◌<◌, String, ◌≡◌, refl, some, List, [], ◌∷◌, arith, In, inl, inr, Option-cases,
  sym, subst,
}
use andromeda_knowledge_core.Errors.{ok, bind-cong, ok-injective}
use andromeda_knowledge_core.Json.{
  Value, null, str, arr, obj, Fields, get, size, size_fields, Items, size_items, keys,
}
use andromeda_knowledge_core.Json.Size.{size-get, size-to_list, size-chars, size-map_str, size-pos}
use andromeda_knowledge_core.Dsl.{
  Kind, logical, comparison, exists, not_exists, membership, aggregation, quantifier, kind_of,
  node_kind, iterate,
}
use andromeda_knowledge_core.Dsl.Evaluate.{
  Rec, eval_each, eval_child, eval_children, eval_kind, eval_object, eval_shape, eval_node,
}
use andromeda_knowledge_core.Dsl.Evaluate.References.{EvaluationData}

size-arr : (xs : Items) → size (arr xs) ≡ suc (size_items xs)
unfolding size
size-arr xs = refl

pub size-obj : (fs : Fields) → size (obj fs) ≡ suc (size_fields fs)
unfolding size
size-obj fs = refl

iterate-size :
    (v : Value) (vs : List Value) → iterate v ≡ ok vs → (w : Value) → In w vs → size w ≤ size v
unfolding iterate
iterate-size (arr xs) vs h w m =
    omega (arith, size-arr xs, size-to_list xs w (subst (In w) (sym (ok-injective h)) m))
iterate-size (str s) vs h w m =
    omega (arith, size-pos (str s), size-chars s w (subst (In w) (sym (ok-injective h)) m))
iterate-size (obj fs) vs h w m =
    omega
      (arith, size-pos (obj fs), size-map_str (keys fs) w (subst (In w) (sym (ok-injective h)) m))
iterate-size _ vs h w m = cc

-- Two recursive calls that agree on the parts of a node.
abbrev AgreeBelow : ℕ → Rec → Rec → Type 0
AgreeBelow n rec rec' = (w : Value) → size w ≤ n → rec w ≡ rec' w

eval_each-cong :
    (rec rec' : Rec) (vs : List Value)
    → ((w : Value) → In w vs → rec w ≡ rec' w)
    → eval_each rec vs ≡ eval_each rec' vs
unfolding eval_each
eval_each-cong rec rec' [] h = refl
eval_each-cong rec rec' (v ∷ vs) h =
    rw (h v (inl refl), eval_each-cong rec rec' vs (λ w m. h w (inr m)))

-- What a loop over a field of a node visits is no larger than the fields.
pub part :
    (name : String) (fs : Fields) (w : Value)
    → get name fs ≡ some w
    → (vs : List Value) → iterate w ≡ ok vs
    → (u : Value) → In u vs
    → size u ≤ size_fields fs
part name fs w e vs h u m = omega (arith, iterate-size w vs h u m, size-get name fs w e)

module _ (rec rec' : Rec) (fs : Fields) (agree : AgreeBelow (size_fields fs) rec rec') where
  eval_child-cong : (name : String) → eval_child rec fs name ≡ eval_child rec' fs name
  unfolding eval_child
  eval_child-cong name = elim (Option-cases (get name fs)) [
    | inl e ↦ rw e
    | inr (w, e) ↦ rw e (agree w (size-get name fs w e))
  ]

  eval_children-cong : (name : String) → eval_children rec fs name ≡ eval_children rec' fs name
  unfolding eval_children
  eval_children-cong name = elim (Option-cases (get name fs)) [
    | inl e ↦ rw e
    | inr (w, e) ↦ rw e (
        bind-cong (iterate w) (eval_each rec) (eval_each rec')
          (λ vs h. eval_each-cong rec rec' vs (λ u m. agree u (part name fs w e vs h u m))))
  ]

  eval_kind-cong : (d : EvaluationData) (k : Kind) → eval_kind rec d fs k ≡ eval_kind rec' d fs k
  unfolding eval_kind
  eval_kind-cong d logical = rw (eval_children-cong "args")
  eval_kind-cong d comparison = rw (eval_child-cong "left", eval_child-cong "right")
  eval_kind-cong d exists = rw (eval_child-cong "target")
  eval_kind-cong d not_exists = rw (eval_child-cong "target")
  eval_kind-cong d membership = rw (eval_child-cong "left", eval_child-cong "right")
  eval_kind-cong d aggregation = rw (eval_child-cong "target")
  eval_kind-cong d quantifier = rw (eval_children-cong "items")
  eval_kind-cong d _ = refl

  eval_object-cong :
      (d : EvaluationData) (v : Value) → eval_object rec d fs v ≡ eval_object rec' d fs v
  unfolding eval_object
  eval_object-cong d (str s) = elim (Option-cases (kind_of s)) [
    | inl e ↦ rw (e, eval_object)
    | inr (k, e) ↦ rw (e, eval_object) (eval_kind-cong d k)
  ]
  eval_object-cong d null = refl
  eval_object-cong d _ = refl

eval_shape-cong :
    (rec rec' : Rec) (d : EvaluationData) (v : Value)
    → ((w : Value) → size w < size v → rec w ≡ rec' w)
    → eval_shape rec d v ≡ eval_shape rec' d v
unfolding eval_shape
eval_shape-cong rec rec' d (obj fs) h =
    eval_object-cong rec rec' fs (λ w le. h w (omega (arith, size-obj fs))) d (node_kind fs)
eval_shape-cong rec rec' d null h = refl
eval_shape-cong rec rec' d _ h = refl

-- More fuel than the size of the node changes nothing.
pub eval_node-stable :
    (f g : ℕ) (d : EvaluationData) (v : Value)
    → size v ≤ f
    → size v ≤ g
    → eval_node f d v ≡ eval_node g d v
unfolding eval_node
eval_node-stable zero g d v hf hg = absurd (omega (arith, size-pos v))
eval_node-stable (suc f) zero d v hf hg = absurd (omega (arith, size-pos v))
eval_node-stable (suc f) (suc g) d v hf hg =
    eval_shape-cong (eval_node f d) (eval_node g d) d v
      (λ w lt. eval_node-stable f g d w (omega arith) (omega arith))
