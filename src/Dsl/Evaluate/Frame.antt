-- ===== src/Dsl/Evaluate/Frame.antt =====
-- What the dependencies of a trace promise: the result of an evaluation is the same on any data
-- that agrees on them. `ComputationService` stores them as the edges along which a change of a
-- fact, a relation or a context invalidates a result.
use andromeda_knowledge_core.Prelude.{
  ℕ, zero, suc, String, ◌≡◌, refl, sym, subst, List, [], ◌∷◌, ◌++◌, In, inl, inr, In-append, Bool,
  true, false, Option-cases, arith,
}
use andromeda_knowledge_core.Errors.{Result, ok, ◌>>=◌, >>=-eq-ok, ok-injective}
use andromeda_knowledge_core.Json.{Value, str, obj, Fields, size}
use andromeda_knowledge_core.Dsl.{
  Kind, literal, logical, comparison, exists, not_exists, membership, aggregation, quantifier,
  relation, relations, context, applicant, kind_of, node_kind, iterate,
}
use andromeda_knowledge_core.Dsl.Evaluate.{
  Rec, eval_each, eval_child, eval_children, eval_kind, eval_object, eval_shape, eval_node,
  eval_value, item, finish_logical, finish_comparison, finish_membership, finish_aggregation,
  finish_quantifier, all_dependencies, finish_exists, merge,
}
use andromeda_knowledge_core.Dsl.Evaluate.References.{
  EvaluationData, Trace, Dependency, fact_reference, relation_reference, path_reference,
  matching_facts, matching_relations, get_path, fact_trace, relation_trace, text_of,
}

-- Two data give the same rows and values for every dependency of the list.
pub record Agrees (deps : List Dependency) (d d' : EvaluationData) : Type 0 where
  pub on_facts :
      (p : String)
      → In ("fact_property", p) deps
      → matching_facts p d.facts ≡ matching_facts p d'.facts
  pub on_relations :
      (c : String)
      → In ("relation_type", c) deps
      → matching_relations c d.relations ≡ matching_relations c d'.relations
  pub on_context :
      (p : String) → In ("context", p) deps → get_path d.context p ≡ get_path d'.context p
  pub on_applicant :
      (p : String) → In ("applicant", p) deps → get_path d.applicant p ≡ get_path d'.applicant p

-- The dependencies of a node are those of its children.
module _ (fs : Fields) where
  dependencies-logical :
      (ts : List Trace) (u : Trace)
      → finish_logical fs ts ≡ ok u
      → u.dependencies ≡ all_dependencies ts
  unfolding finish_logical
  dependencies-logical ts u h = ground arith

  dependencies-quantifier :
      (ts : List Trace) (u : Trace)
      → finish_quantifier fs ts ≡ ok u
      → u.dependencies ≡ all_dependencies ts
  unfolding finish_quantifier
  dependencies-quantifier ts u h = ground arith

  dependencies-comparison :
      (l r u : Trace)
      → finish_comparison fs l r ≡ ok u
      → u.dependencies ≡ l.dependencies ++ r.dependencies
  unfolding finish_comparison merge
  dependencies-comparison l r u h = ground arith

  dependencies-membership :
      (l r u : Trace)
      → finish_membership fs l r ≡ ok u
      → u.dependencies ≡ l.dependencies ++ r.dependencies
  unfolding finish_membership merge
  dependencies-membership l r u h = ground arith

  dependencies-aggregation :
      (t u : Trace) → finish_aggregation fs t ≡ ok u → u.dependencies ≡ t.dependencies
  unfolding finish_aggregation
  dependencies-aggregation t u h = ground arith

  dependencies-exists :
      (wanted : Bool) (t u : Trace)
      → ok (finish_exists fs wanted t) ≡ ok u
      → u.dependencies ≡ t.dependencies
  unfolding finish_exists
  dependencies-exists wanted t u h = ground arith

-- A path reference depends on the path that it reads.
path-frame :
    (kind : String) (source source' fs : Fields) (u : Trace)
    → ((p : String) → In (kind, p) u.dependencies → get_path source p ≡ get_path source' p)
    → path_reference kind source fs ≡ ok u
    → path_reference kind source' fs ≡ ok u
unfolding path_reference
path-frame kind source source' fs u same h =
    let (v, e, f) = >>=-eq-ok (item "path" fs) (λ v. do p ← text_of v; ok (found source p)) h in
    let (p, e', g) = >>=-eq-ok (text_of v) (λ p. ok (found source p)) f in
    rw (e, e', ← same p (subst (λ t. In (kind, p) t.dependencies) (ok-injective g) (inl refl))) g
  where
    found : Fields → String → Trace
    found s p = record { value = get_path s p; dependencies = (kind, p) ∷ []; steps = [] }

module _ (d d' : EvaluationData) where
  Agrees-of-subset :
      (xs ys : List Dependency)
      → ((x : Dependency) → In x xs → In x ys)
      → Agrees ys d d'
      → Agrees xs d d'
  Agrees-of-subset xs ys sub a = record {
    on_facts = λ p m. a.on_facts p (sub ("fact_property", p) m);
    on_relations = λ c m. a.on_relations c (sub ("relation_type", c) m);
    on_context = λ p m. a.on_context p (sub ("context", p) m);
    on_applicant = λ p m. a.on_applicant p (sub ("applicant", p) m);
  }

  Agrees-left : (xs ys : List Dependency) → Agrees (xs ++ ys) d d' → Agrees xs d d'
  Agrees-left xs ys = Agrees-of-subset xs (xs ++ ys) (λ x m. (In-append x xs ys).1 (inl m))

  Agrees-right : (xs ys : List Dependency) → Agrees (xs ++ ys) d d' → Agrees ys d d'
  Agrees-right xs ys = Agrees-of-subset ys (xs ++ ys) (λ x m. (In-append x xs ys).1 (inr m))

  fact-frame :
      (fs : Fields) (u : Trace)
      → fact_reference fs d ≡ ok u
      → Agrees u.dependencies d d'
      → fact_reference fs d' ≡ ok u
  unfolding fact_reference
  fact-frame fs u h a =
      let (v, e, f) =
        >>=-eq-ok (item "property" fs)
          (λ v. do p ← text_of v; ok (fact_trace fs p (matching_facts p d.facts))) h in
      let (p, e', g) =
        >>=-eq-ok (text_of v) (λ p. ok (fact_trace fs p (matching_facts p d.facts))) f in
      rw (e, e', ← a.on_facts p (mentions p (ok-injective g))) g
    where
      mentions :
          (p : String)
          → fact_trace fs p (matching_facts p d.facts) ≡ u
          → In ("fact_property", p) u.dependencies
      mentions p q =
          subst (λ t. In ("fact_property", p) t.dependencies) q (unfold fact_trace in inl refl)

  relation-frame :
      (fs : Fields) (u : Trace)
      → relation_reference fs d ≡ ok u
      → Agrees u.dependencies d d'
      → relation_reference fs d' ≡ ok u
  unfolding relation_reference
  relation-frame fs u h a =
      let (v, e, f) =
        >>=-eq-ok (item "relation_type" fs)
          (λ v. do c ← text_of v; ok (relation_trace fs c (matching_relations c d.relations))) h in
      let (c, e', g) =
        >>=-eq-ok (text_of v) (λ c. ok (relation_trace fs c (matching_relations c d.relations)))
          f in
      rw (e, e', ← a.on_relations c (mentions c (ok-injective g))) g
    where
      mentions :
          (c : String)
          → relation_trace fs c (matching_relations c d.relations) ≡ u
          → In ("relation_type", c) u.dependencies
      mentions c q =
          subst (λ t. In ("relation_type", c) t.dependencies) q (unfold relation_trace in inl refl)

  -- What `rec` finds on `d`, `rec'` finds on data that agrees on what `rec` depended on.
  abbrev Framed : Rec → Rec → Type 0
  Framed rec rec' =
      (v : Value) (t : Trace) → rec v ≡ ok t → Agrees t.dependencies d d' → rec' v ≡ ok t

  module _ (rec rec' : Rec) (framed : Framed rec rec') where
    each-frame :
        (vs : List Value) (ts : List Trace)
        → eval_each rec vs ≡ ok ts
        → Agrees (all_dependencies ts) d d'
        → eval_each rec' vs ≡ ok ts
    unfolding eval_each all_dependencies
    each-frame [] ts h a = h
    each-frame (v ∷ vs) ts h a =
        let (t, e, f) = >>=-eq-ok (rec v) (λ t. do rest ← eval_each rec vs; ok (t ∷ rest)) h in
        let (rest, e', g) = >>=-eq-ok (eval_each rec vs) (λ rest. ok (t ∷ rest)) f in
        let both = subst (λ us. Agrees (all_dependencies us) d d') (sym (ok-injective g)) a in
        rw
          (
            framed v t e (Agrees-left t.dependencies (all_dependencies rest) both),
            each-frame vs rest e' (Agrees-right t.dependencies (all_dependencies rest) both),
          )
          g

    module _ (fs : Fields) where
      child-frame :
          (name : String) (t : Trace)
          → eval_child rec fs name ≡ ok t
          → Agrees t.dependencies d d'
          → eval_child rec' fs name ≡ ok t
      unfolding eval_child
      child-frame name t h a =
          let (v, e, f) = >>=-eq-ok (item name fs) rec h in rw e (framed v t f a)

      children-frame :
          (name : String) (ts : List Trace)
          → eval_children rec fs name ≡ ok ts
          → Agrees (all_dependencies ts) d d'
          → eval_children rec' fs name ≡ ok ts
      unfolding eval_children
      children-frame name ts h a =
          let (v, e, f) =
            >>=-eq-ok (item name fs) (λ v. do children ← iterate v; eval_each rec children) h in
          let (children, e', g) = >>=-eq-ok (iterate v) (eval_each rec) f in
          rw (e, e') (each-frame children ts g a)

      unary-frame :
          (finish : Trace → Result Trace)
          → ((t u : Trace) → finish t ≡ ok u → u.dependencies ≡ t.dependencies)
          → (name : String) (u : Trace) → (do t ← eval_child rec fs name; finish t) ≡ ok u
          → Agrees u.dependencies d d'
          → (do t ← eval_child rec' fs name; finish t) ≡ ok u
      unary-frame finish deps name u h a =
          let (t, e, f) = >>=-eq-ok (eval_child rec fs name) finish h in
          rw (child-frame name t e (subst (λ x. Agrees x d d') (deps t u f) a)) f

      binary-frame :
          (finish : Trace → Trace → Result Trace)
          → ((l r u : Trace)
              → finish l r ≡ ok u
              → u.dependencies ≡ l.dependencies ++ r.dependencies)
          → (u : Trace)
          → (do l ← eval_child rec fs "left"; r ← eval_child rec fs "right"; finish l r) ≡ ok u
          → Agrees u.dependencies d d'
          → (do l ← eval_child rec' fs "left"; r ← eval_child rec' fs "right"; finish l r) ≡ ok u
      binary-frame finish deps u h a =
          let (l, e, f) =
            >>=-eq-ok (eval_child rec fs "left") (λ l. do r ← eval_child rec fs "right"; finish l r)
              h in
          let (r, e', g) = >>=-eq-ok (eval_child rec fs "right") (finish l) f in
          let both = subst (λ x. Agrees x d d') (deps l r u g) a in
          rw
            (
              child-frame "left" l e (Agrees-left l.dependencies r.dependencies both),
              child-frame "right" r e' (Agrees-right l.dependencies r.dependencies both),
            )
            g

      many-frame :
          (finish : List Trace → Result Trace)
          → ((ts : List Trace) (u : Trace)
              → finish ts ≡ ok u
              → u.dependencies ≡ all_dependencies ts)
          → (name : String) (u : Trace) → (do ts ← eval_children rec fs name; finish ts) ≡ ok u
          → Agrees u.dependencies d d'
          → (do ts ← eval_children rec' fs name; finish ts) ≡ ok u
      many-frame finish deps name u h a =
          let (ts, e, f) = >>=-eq-ok (eval_children rec fs name) finish h in
          rw (children-frame name ts e (subst (λ x. Agrees x d d') (deps ts u f) a)) f

      kind-frame :
          (k : Kind) (u : Trace)
          → eval_kind rec d fs k ≡ ok u
          → Agrees u.dependencies d d'
          → eval_kind rec' d' fs k ≡ ok u
      unfolding eval_kind
      kind-frame literal u h a = h
      kind-frame logical u h a =
          many-frame (finish_logical fs) (dependencies-logical fs) "args" u h a
      kind-frame comparison u h a =
          binary-frame (finish_comparison fs) (dependencies-comparison fs) u h a
      kind-frame exists u h a =
          unary-frame (λ t. ok (finish_exists fs true t)) (dependencies-exists fs true) "target" u h
            a
      kind-frame not_exists u h a =
          unary-frame (λ t. ok (finish_exists fs false t)) (dependencies-exists fs false) "target" u
            h a
      kind-frame membership u h a =
          binary-frame (finish_membership fs) (dependencies-membership fs) u h a
      kind-frame aggregation u h a =
          unary-frame (finish_aggregation fs) (dependencies-aggregation fs) "target" u h a
      kind-frame quantifier u h a =
          many-frame (finish_quantifier fs) (dependencies-quantifier fs) "items" u h a
      kind-frame relation u h a = relation-frame fs u h a
      kind-frame relations u h a = relation-frame fs u h a
      kind-frame context u h a = path-frame "context" d.context d'.context fs u a.on_context h
      kind-frame applicant u h a =
          path-frame "applicant" d.applicant d'.applicant fs u a.on_applicant h
      kind-frame _ u h a = fact-frame fs u h a

      object-frame :
          (v : Value) (u : Trace)
          → eval_object rec d fs v ≡ ok u
          → Agrees u.dependencies d d'
          → eval_object rec' d' fs v ≡ ok u
      unfolding eval_object
      object-frame (str s) u h a = elim (Option-cases (kind_of s)) [
        | inl e ↦ rw (e, eval_object) (rw (e, eval_object) at h)
        | inr (k, e) ↦ rw (e, eval_object) (kind-frame k u (rw (e, eval_object) at h) a)
      ]
      object-frame _ u h a = cc

    shape-frame :
        (v : Value) (u : Trace)
        → eval_shape rec d v ≡ ok u
        → Agrees u.dependencies d d'
        → eval_shape rec' d' v ≡ ok u
    unfolding eval_shape
    shape-frame (obj fs) u h a = object-frame fs (node_kind fs) u h a
    shape-frame _ u h a = h

  node-frame :
      (f : ℕ) (v : Value) (u : Trace)
      → eval_node f d v ≡ ok u
      → Agrees u.dependencies d d'
      → eval_node f d' v ≡ ok u
  unfolding eval_node
  node-frame zero v u h a = cc
  node-frame (suc f) v u h a = shape-frame (eval_node f d) (eval_node f d') (node-frame f) v u h a

-- If an evaluation gives a trace, then on any data that agrees on the dependencies of that trace it
-- gives the same trace.
pub eval_value-frame :
    (d d' : EvaluationData) (v : Value) (t : Trace)
    → eval_value d v ≡ ok t
    → Agrees t.dependencies d d'
    → eval_value d' v ≡ ok t
unfolding eval_value
eval_value-frame d d' v t h a = node-frame d d' (size v) v t h a
