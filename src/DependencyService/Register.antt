-- ===== src/DependencyService/Register.antt =====
-- `register_edge` of application/dependency_service.py keeps the dependencies free of cycles.
use andromeda_knowledge_core.Prelude.{
  ℕ, zero, suc, ◌≡◌, subst, Bool, true, false, List, [], ◌∷◌, ◌++◌, In, inl, inr, ◌⊎◌, ◌↔◌, length,
  ltb, Bool-cases, arith, if◌then◌else◌,
}
use andromeda_knowledge_core.Errors.{ok, err, >>=-eq-ok, ok-injective, dependency_cycle}
use andromeda_knowledge_core.Graph.{Node, Graph, node_eq, node_before, is_visited, targets}
use andromeda_knowledge_core.Graph.Sets.{is_visited_iff, In-targets}
use andromeda_knowledge_core.Graph.Reach.{Reach}
use andromeda_knowledge_core.Graph.Search.{unequal_nodes}
use andromeda_knowledge_core.Graph.Worklist.{
  Explored, start-Explored, skip-Explored, expand_by-Explored, Explored-done,
}
use andromeda_knowledge_core.Graph.Acyclic.{Acyclic, edge-Acyclic}
use andromeda_knowledge_core.DependencyService.{
  Store, max_nodes, insert_sorted, sorted_list, find_path, register_edge,
}

In-insert_sorted : (n m : Node) (ms : List Node) → In n (insert_sorted m ms) ↔ ((n ≡ m) ⊎ In n ms)
unfolding insert_sorted
In-insert_sorted n m [] = (λ h. h, λ h. h)
In-insert_sorted n m (k ∷ ms) = elim (Bool-cases (node_before m k)) [
  | inl b ↦ rw b (λ h. h, λ h. h)
  | inr b ↦ rw b (ground (arith, In-insert_sorted n m ms))
]

In-sorted_list : (n : Node) (ns : List Node) → In n (sorted_list ns) ↔ In n ns
unfolding sorted_list
In-sorted_list n [] = (λ h. h, λ h. h)
In-sorted_list n (m ∷ ms) =
    ground (arith, In-insert_sorted n m (sorted_list ms), In-sorted_list n ms)

module _ (g : Graph) (source target : Node) where
  find_path-missed :
      (fuel : ℕ) (queue visited : List Node)
      → Explored g source queue visited
      → (In target visited → ⊥)
      → find_path fuel g target queue visited ≡ ok false
      → Reach g source target
      → ⊥
  unfolding find_path
  find_path-missed zero queue visited x missed h = cc
  find_path-missed (suc fuel) [] visited x missed h =
      λ walk. missed ((Explored-done g source visited x target).1 walk)
  find_path-missed (suc fuel) (current ∷ rest) visited x missed h =
      elim (Bool-cases (is_visited current visited)) [
        | inl v ↦
            find_path-missed fuel rest visited
              (skip-Explored g source current rest visited x ((is_visited_iff current visited).0 v))
              missed (rw (v, find_path) at h)
        | inr v ↦ elim (Bool-cases (node_eq current target)) [
          | inl e ↦ cc (rw (v, e, find_path) at h)
          | inr e ↦ elim (Bool-cases (ltb max_nodes (length (current ∷ visited)))) [
            | inl b ↦ cc (rw (v, e, b, find_path) at h)
            | inr b ↦
                let next = sorted_list (targets g current) in
                find_path-missed fuel (rest ++ next) (current ∷ visited)
                  (expand_by-Explored g source current rest visited x next
                    (λ n d.
                      inr ((In-sorted_list n (targets g current)).1 ((In-targets g current n).1 d)))
                    (λ n k.
                      (In-targets g current n).0 ((In-sorted_list n (targets g current)).0 k)))
                  (λ seen. elim seen [
                    | inl same ↦ unequal_nodes current target e same
                    | inr k ↦ missed k
                  ])
                  (rw (v, e, b, find_path) at h)
          ]
        ]
      ]

registered-Acyclic :
    (store store' : Store) (source target : Node) (found : Bool)
    → Acyclic store.dependencies
    → find_path (suc (suc (length store.dependencies))) store.dependencies source (target ∷ []) []
      ≡ ok found
    → (if found
        then err dependency_cycle
        else ok (record store { dependencies = (source, target) ∷ store.dependencies }))
      ≡ ok store'
    → Acyclic store'.dependencies
registered-Acyclic store store' source target true acyclic searched h = cc
registered-Acyclic store store' source target false acyclic searched h =
    let g = store.dependencies in
    subst (λ (s : Store). Acyclic s.dependencies) (ok-injective h)
      (edge-Acyclic g source target acyclic (
        find_path-missed g target source (suc (suc (length g))) (target ∷ []) []
          (start-Explored g target) (λ seen. seen) searched))

-- Dependencies without cycles have none after an edge is registered.
pub register_edge-Acyclic :
    (store store' : Store) (source target : Node)
    → Acyclic store.dependencies
    → register_edge store source target ≡ ok store'
    → Acyclic store'.dependencies
unfolding register_edge
register_edge-Acyclic store store' source target acyclic h =
    let g = store.dependencies in
    elim (Bool-cases (node_eq source target)) [
      | inl e ↦ cc (rw e at h)
      | inr e ↦
          let (found, searched, k) =
            >>=-eq-ok (find_path (suc (suc (length g))) g source (target ∷ []) [])
              (λ found.
                if found
                then err dependency_cycle
                else ok (record store { dependencies = (source, target) ∷ g }))
              (rw e at h) in
          registered-Acyclic store store' source target found acyclic searched k
    ]
