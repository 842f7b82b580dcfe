-- ===== src/Graph/Search.antt =====
-- `has_path` of domain/dependencies.py is right: it always answers, and says whether there is a walk.
use andromeda_knowledge_core.Prelude.{
  ℕ, zero, suc, ◌+◌, ◌<◌, ◌≡◌, refl, sym, subst, Bool, true, false, List, [], ◌∷◌, ◌++◌, In, inl,
  inr, ◌⊎◌, ◌↔◌, length, Bool-cases, arith,
}
use andromeda_knowledge_core.Errors.{ok}
use andromeda_knowledge_core.Graph.{
  Node, Graph, node_eq, successors, is_visited, search_path, has_path,
}
use andromeda_knowledge_core.Graph.Sets.{
  node_eq_sound, node_eq_refl, is_visited_iff, pending, pending-successors, pending-start,
}
use andromeda_knowledge_core.Graph.Worklist.{
  length-append, Explored, start-Explored, skip-Explored, expand-Explored, Explored-done,
}
use andromeda_knowledge_core.Graph.Reach.{Reach}

pub unequal_nodes : (m n : Node) → node_eq m n ≡ false → n ≡ m → ⊥
unequal_nodes m n e same = cc (subst (λ k. node_eq m k ≡ true) (sym same) (node_eq_refl m))

module _ (g : Graph) (source target : Node) where
  search_path-found :
      (fuel : ℕ) (queue visited : List Node)
      → Explored g source queue visited
      → search_path fuel g target queue visited ≡ ok true
      → Reach g source target
  unfolding search_path
  search_path-found zero queue visited x h = cc
  search_path-found (suc fuel) [] visited x h = cc
  search_path-found (suc fuel) (current ∷ rest) visited x h =
      elim (Bool-cases (is_visited current visited)) [
        | inl v ↦
            search_path-found fuel rest visited
              (skip-Explored g source current rest visited x ((is_visited_iff current visited).0 v))
              (rw (v, search_path) at h)
        | inr v ↦ elim (Bool-cases (node_eq current target)) [
          | inl e ↦
              subst (Reach g source) (node_eq_sound current target e)
                (x.reached current (inr (inl refl)))
          | inr e ↦
              search_path-found fuel (rest ++ successors g current) (current ∷ visited)
                (expand-Explored g source current rest visited x) (rw (v, e, search_path) at h)
        ]
      ]

  search_path-missed :
      (fuel : ℕ) (queue visited : List Node)
      → Explored g source queue visited
      → (In target visited → ⊥)
      → search_path fuel g target queue visited ≡ ok false
      → Reach g source target
      → ⊥
  unfolding search_path
  search_path-missed zero queue visited x missed h = cc
  search_path-missed (suc fuel) [] visited x missed h =
      λ walk. missed ((Explored-done g source visited x target).1 walk)
  search_path-missed (suc fuel) (current ∷ rest) visited x missed h =
      elim (Bool-cases (is_visited current visited)) [
        | inl v ↦
            search_path-missed fuel rest visited
              (skip-Explored g source current rest visited x ((is_visited_iff current visited).0 v))
              missed (rw (v, search_path) at h)
        | inr v ↦ elim (Bool-cases (node_eq current target)) [
          | inl e ↦ cc (rw (v, e, search_path) at h)
          | inr e ↦
              search_path-missed fuel (rest ++ successors g current) (current ∷ visited)
                (expand-Explored g source current rest visited x)
                (λ seen. elim seen [
                  | inl same ↦ unequal_nodes current target e same
                  | inr k ↦ missed k
                ])
                (rw (v, e, search_path) at h)
        ]
      ]

  search_path_answers :
      (fuel : ℕ) (queue visited : List Node)
      → length queue + pending g visited < fuel
      → (b : Bool) × (search_path fuel g target queue visited ≡ ok b)
  unfolding search_path
  search_path_answers zero queue visited h = absurd (omega arith)
  search_path_answers (suc fuel) [] visited h = (false, refl)
  search_path_answers (suc fuel) (current ∷ rest) visited h =
      elim (Bool-cases (is_visited current visited)) [
        | inl v ↦ rw (v, search_path) (search_path_answers fuel rest visited (omega arith))
        | inr v ↦ elim (Bool-cases (node_eq current target)) [
          | inl e ↦ (true, rw (v, e, search_path) refl)
          | inr e ↦
              rw (v, e, search_path)
                (search_path_answers fuel (rest ++ successors g current) (current ∷ visited) (
                  omega (
                    arith,
                    length-append rest (successors g current),
                    pending-successors g current visited v,
                  )))
        ]
      ]

  has_path-answers : (b : Bool) × (has_path g source target ≡ ok b)
  unfolding has_path
  has_path-answers =
      search_path_answers (suc (suc (length g))) (source ∷ []) [] (omega (arith, pending-start g))

  walk_found : has_path g source target ≡ ok true → Reach g source target
  unfolding has_path
  walk_found = search_path-found (suc (suc (length g))) (source ∷ []) [] (start-Explored g source)

  no_walk : has_path g source target ≡ ok false → Reach g source target → ⊥
  unfolding has_path
  no_walk =
      search_path-missed (suc (suc (length g))) (source ∷ []) [] (start-Explored g source)
        (λ seen. seen)

  as_answer :
      (b : Bool)
      → has_path g source target ≡ ok b
      → (has_path g source target ≡ ok true) ⊎ (has_path g source target ≡ ok false)
  as_answer true h = inl h
  as_answer false h = inr h

  -- A search for a path always answers, and it answers that there is one exactly when the edges of
  -- the graph lead from the source to the target.
  pub has_path_lem :
      ((has_path g source target ≡ ok true) ⊎ (has_path g source target ≡ ok false))
      × ((has_path g source target ≡ ok true) ↔ Reach g source target)
  has_path_lem =
      let (b, h) = has_path-answers in
      let answer = as_answer b h in
      (answer, (walk_found, λ walk. elim answer [ inl e ↦ e | inr e ↦ absurd (no_walk e walk) ]))
