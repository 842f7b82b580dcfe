-- ===== src/Graph/Affected.antt =====
-- `affected` of domain/dependencies.py gives the nodes that can be reached.
use andromeda_knowledge_core.Graph.Bounded.{
  Distinct, IsWithin, IsBeyond, Distinct-visit, done-IsWithin, next-IsBeyond,
}
use andromeda_knowledge_core.Prelude.{
  ◌≤◌, ◌⊎◌, ℕ, zero, suc, ◌+◌, ◌<◌, ◌≡◌, ◌≢◌, refl, sym, subst, true, not, List, [], ◌∷◌, ◌++◌, In,
  inl, inr, ◌↔◌, length, Bool-cases, arith, In-keep, keep, ltb,
}
use andromeda_knowledge_core.Errors.{Result, ok, err, fault, runtime_error, ok-injective, >>=-eq-ok}
use andromeda_knowledge_core.Graph.{
  Node, Graph, node_eq, successors, sorted_nodes, is_visited, visit, affected,
}
use andromeda_knowledge_core.Graph.Sets.{
  node_eq_sound, node_eq_refl, is_visited_iff, In-sorted_nodes, pending, pending-successors,
  pending-start,
}
use andromeda_knowledge_core.Graph.Reach.{Reach}
use andromeda_knowledge_core.Graph.Worklist.{
  length-append, Explored, start-Explored, skip-Explored, expand-Explored, Explored-done,
}

module _ (g : Graph) (source : Node) (max_nodes : ℕ) where
  visit-Explored :
      (fuel : ℕ) (queue visited done : List Node)
      → Explored g source queue visited
      → visit fuel g max_nodes queue visited ≡ ok done
      → Explored g source [] done
  unfolding visit
  visit-Explored zero queue visited done x h = cc
  visit-Explored (suc fuel) [] visited done x h = subst (Explored g source []) (ok-injective h) x
  visit-Explored (suc fuel) (current ∷ rest) visited done x h =
      elim (Bool-cases (is_visited current visited)) [
        | inl v ↦
            visit-Explored fuel rest visited done
              (skip-Explored g source current rest visited x ((is_visited_iff current visited).0 v))
              (rw (v, visit) at h)
        | inr v ↦ elim (Bool-cases (ltb max_nodes (length (current ∷ visited)))) [
          | inl e ↦ cc (rw (v, e, visit) at h)
          | inr e ↦
              visit-Explored fuel (rest ++ successors g current) (current ∷ visited) done
                (expand-Explored g source current rest visited x) (rw (v, e, visit) at h)
        ]
      ]

  -- how the traversal ends
  abbrev Visited : Result (List Node) → Type 0
  Visited r =
      ((done : List Node) × (r ≡ ok done) × IsWithin g source max_nodes)
      ⊎ ((r ≡ err (fault runtime_error)) × IsBeyond g source max_nodes)

  visit-Visited :
      (fuel : ℕ) (queue visited : List Node)
      → length queue + pending g visited < fuel
      → Explored g source queue visited
      → Distinct visited
      → length visited ≤ max_nodes
      → Visited (visit fuel g max_nodes queue visited)
  unfolding visit
  visit-Visited zero queue visited h x d le = absurd (omega arith)
  visit-Visited (suc fuel) [] visited h x d le =
      inl (visited, refl, done-IsWithin g source max_nodes visited x le)
  visit-Visited (suc fuel) (current ∷ rest) visited h x d le =
      elim (Bool-cases (is_visited current visited)) [
        | inl v ↦
            rw (v, visit)
              (visit-Visited fuel rest visited (omega arith)
                (skip-Explored g source current rest visited x
                  ((is_visited_iff current visited).0 v))
                d le)
        | inr v ↦ elim (Bool-cases (ltb max_nodes (length (current ∷ visited)))) [
          | inl e ↦
              rw (v, e, visit)
                (inr (
                  refl,
                  next-IsBeyond g source max_nodes current rest visited x d v (ground arith),
                ))
          | inr e ↦
              rw (v, e, visit)
                (visit-Visited fuel (rest ++ successors g current) (current ∷ visited)
                  (omega (
                    arith,
                    length-append rest (successors g current),
                    pending-successors g current visited v,
                  ))
                  (expand-Explored g source current rest visited x)
                  (Distinct-visit current visited d v) (ground arith))
        ]
      ]

not_source : (source n : Node) → (not (node_eq source n) ≡ true) ↔ (n ≢ source)
not_source source n = (
  λ h same. cc (subst (λ m. not (node_eq source m) ≡ true) same h, node_eq_refl source),
  λ other. elim (Bool-cases (node_eq source n)) [
    | inl e ↦ absurd (other (sym (node_eq_sound source n e)))
    | inr e ↦ rw e refl
  ],
)

-- What a change affects, when the traversal ends within its bound, is what can be reached from it
-- along the edges, without itself.
pub affected_lem :
    (g : Graph) (source : Node) (max_nodes : ℕ) (ns : List Node)
    → affected g source max_nodes ≡ ok ns
    → (n : Node) → In n ns ↔ (Reach g source n × (n ≢ source))
unfolding affected
affected_lem g source max_nodes ns h n =
    let is_other = λ (m : Node). not (node_eq source m) in
    let (visited, e, k) =
      >>=-eq-ok (visit (suc (suc (length g))) g max_nodes (source ∷ []) [])
        (λ visited. ok (sorted_nodes (keep is_other visited))) h in
    let x =
      visit-Explored g source max_nodes (suc (suc (length g))) (source ∷ []) [] visited
        (start-Explored g source) e in
    let sorted = In-sorted_nodes n (keep is_other visited) in
    let kept = In-keep is_other n visited in
    let walked = Explored-done g source visited x n in
    subst (λ ms. In n ms ↔ (Reach g source n × (n ≢ source))) (ok-injective k)
      (
        λ m.
            let (seen, other) = kept.0 (sorted.0 m) in
            (walked.0 seen, (not_source source n).0 other),
        λ m. sorted.1 (kept.1 (walked.1 m.0, (not_source source n).1 m.1)),
      )

-- The traversal ends: it gives what a change affects, and then at most `max_nodes` nodes can be reached,
-- the source among them, or it raises a RuntimeError, and then more than `max_nodes` different ones can.
pub affected_outcomes :
    (g : Graph) (source : Node) (max_nodes : ℕ)
    → ((ns : List Node) × (affected g source max_nodes ≡ ok ns) × IsWithin g source max_nodes)
      ⊎ ((affected g source max_nodes ≡ err (fault runtime_error)) × IsBeyond g source max_nodes)
unfolding affected
affected_outcomes g source max_nodes =
    elim (visit-Visited g source max_nodes (suc (suc (length g))) (source ∷ []) []
      (omega (arith, pending-start g)) (start-Explored g source) tt (omega arith)) [
        | inl (done, e, within) ↦
            inl (sorted_nodes (keep (λ n. not (node_eq source n)) done), rw e refl, within)
        | inr (e, beyond) ↦ inr (rw e refl, beyond)
      ]
