-- ===== src/DependencyService/Collect.antt =====
-- The loop of `invalidate` in application/dependency_service.py meets exactly the derived nodes that
-- can be reached.
use andromeda_knowledge_core.Graph.Bounded.{
  Distinct, IsWithin, IsBeyond, Distinct-visit, done-IsWithin, next-IsBeyond,
}
use andromeda_knowledge_core.Prelude.{
  ℕ, zero, suc, ◌+◌, ◌<◌, ◌≤◌, ◌≡◌, ◌≢◌, refl, sym, ◌∙◌, subst, Bool, true, not, List, [], ◌∷◌,
  ◌++◌, In, inl, inr, ◌⊎◌, ◌↔◌, length, Bool-cases, arith, In-append, In-keep, keep, ltb,
}
use andromeda_knowledge_core.Errors.{Result, err, ok, traversal_limit, ok-injective}
use andromeda_knowledge_core.Graph.{Node, Graph, targets, is_visited}
use andromeda_knowledge_core.Graph.Sets.{Edge, is_visited_iff, In-targets, pending, pending-targets}
use andromeda_knowledge_core.Graph.Reach.{Reach}
use andromeda_knowledge_core.Graph.Worklist.{
  length-append, Explored, skip, unskip, skip-Explored, expand, expand_by-Explored, Explored-done,
}
use andromeda_knowledge_core.DependencyService.{max_nodes, is_derived, unvisited, collect}

In-unvisited :
    (n : Node) (visited ts : List Node)
    → In n (unvisited visited ts) ↔ (In n ts × (In n visited → ⊥))
unfolding unvisited
In-unvisited n visited ts = (
  λ m.
      let (found, fresh) = (In-keep (λ t. not (is_visited t visited)) n ts).0 m in
      (found, λ seen. cc (rw ((is_visited_iff n visited).1 seen) at fresh)),
  λ m. (In-keep (λ t. not (is_visited t visited)) n ts).1 (
    m.0,
    elim (Bool-cases (is_visited n visited)) [
      | inl v ↦ absurd (m.1 ((is_visited_iff n visited).0 v))
      | inr v ↦ rw v refl
    ],
  ),
)

head-eq : (m n : Node) (ms ns : List Node) → m ∷ ms ≡ n ∷ ns → m ≡ n
head-eq m n ms ns h = cc

-- A derived node that a walk from the source leads to, other than the source.
abbrev pub IsAffected : Graph → Node → Node → Type 0
IsAffected g source n = Reach g source n × (is_derived n ≡ true) × (n ≢ source)

module _ (g : Graph) (source : Node) where
  -- The affected nodes are the derived ones among those that are visited or queued, without the
  -- source.
  pub record Collected (queue visited affected : List Node) : Type 0 where
    first : In source visited ⊎ (queue ≡ source ∷ [])
    listed :
        (n : Node)
        → In n affected
        → (In n visited ⊎ In n queue) × (is_derived n ≡ true) × (n ≢ source)
    complete :
        (n : Node) → In n visited ⊎ In n queue → is_derived n ≡ true → n ≢ source → In n affected

  pub start-Collected : Collected (source ∷ []) [] []
  start-Collected = record {
    first = inr refl;
    listed = λ n m. absurd m;
    complete = λ n k d other. elim k [
      | inl seen ↦ absurd seen
      | inr queued ↦ elim queued [ inl same ↦ absurd (other same) | inr more ↦ absurd more ]
    ];
  }

  module _ (current : Node) (rest visited affected : List Node)
      (x : Explored g source (current ∷ rest) visited)
      (c : Collected (current ∷ rest) visited affected) where
    skip-Collected : In current visited → Collected rest visited affected
    skip-Collected seen = record {
      first = elim c.first [
        | inl k ↦ inl k
        | inr h ↦ inl (subst (λ m. In m visited) (head-eq current source rest [] h) seen)
      ];
      listed = λ n m.
          let (k, d, o) = c.listed n m in (skip g source current rest visited x n seen k, d, o);
      complete = λ n k. c.complete n (unskip g source current rest visited x n k);
    }

    source_visited : In source (current ∷ visited)
    source_visited = elim c.first [
      | inl k ↦ inr k
      | inr h ↦ inl (sym (head-eq current source rest [] h))
    ]

    abbrev next : List Node
    next = unvisited (current ∷ visited) (targets g current)

    next-followed : (n : Node) → In n next → Edge g current n
    next-followed n k =
        (In-targets g current n).0 ((In-unvisited n (current ∷ visited) (targets g current)).0 k).0

    next-covered : (n : Node) → Edge g current n → In n (current ∷ visited) ⊎ In n next
    next-covered n e = elim (Bool-cases (is_visited n (current ∷ visited))) [
      | inl v ↦ inl ((is_visited_iff n (current ∷ visited)).0 v)
      | inr v ↦ inr (
          (In-unvisited n (current ∷ visited) (targets g current)).1 (
            (In-targets g current n).1 e,
            λ seen. cc (sym v ∙ (is_visited_iff n (current ∷ visited)).1 seen),
          ))
    ]

    next-Explored : Explored g source (rest ++ next) (current ∷ visited)
    next-Explored =
        expand_by-Explored g source current rest visited x next next-covered next-followed

    next-listed :
        (n : Node)
        → In n (affected ++ keep is_derived next)
        → (In n (current ∷ visited) ⊎ In n (rest ++ next)) × (is_derived n ≡ true) × (n ≢ source)
    next-listed n m = elim ((In-append n affected (keep is_derived next)).0 m) [
      | inl old ↦
          let (k, d, o) = c.listed n old in
          (expand g source current rest visited x next next-covered next-followed n k, d, o)
      | inr new ↦
          let (k, d) = (In-keep is_derived n next).0 new in
          let fresh = ((In-unvisited n (current ∷ visited) (targets g current)).0 k).1 in
          (
            inr ((In-append n rest next).1 (inr k)),
            d,
            λ same. fresh (subst (λ m. In m (current ∷ visited)) (sym same) source_visited),
          )
    ]

    next_complete :
        (n : Node)
        → In n (current ∷ visited) ⊎ In n (rest ++ next)
        → is_derived n ≡ true
        → n ≢ source
        → In n (affected ++ keep is_derived next)
    next_complete n (inl (inl same)) d o =
        (In-append n affected (keep is_derived next)).1 (inl (c.complete n (inr (inl same)) d o))
    next_complete n (inl (inr k)) d o =
        (In-append n affected (keep is_derived next)).1 (inl (c.complete n (inl k) d o))
    next_complete n (inr k) d o = elim ((In-append n rest next).0 k) [
      | inl queued ↦
          (In-append n affected (keep is_derived next)).1
            (inl (c.complete n (inr (inr queued)) d o))
      | inr new ↦
          (In-append n affected (keep is_derived next)).1
            (inr ((In-keep is_derived n next).1 (new, d)))
    ]

    next-Collected : Collected (rest ++ next) (current ∷ visited) (affected ++ keep is_derived next)
    next-Collected = record {
      first = inl source_visited;
      listed = next-listed;
      complete = next_complete;
    }

  pub collect_lem :
      (fuel : ℕ) (queue visited affected done : List Node)
      → Explored g source queue visited
      → Collected queue visited affected
      → collect fuel g queue visited affected ≡ ok done
      → (n : Node) → In n done ↔ IsAffected g source n
  unfolding collect
  collect_lem zero queue visited affected done x c h n = cc
  collect_lem (suc fuel) [] visited affected done x c h n =
      subst (λ ms. In n ms ↔ IsAffected g source n) (ok-injective h)
        (
          λ m. let (k, d, o) = c.listed n m in (x.reached n k, d, o),
          λ a. c.complete n (inl ((Explored-done g source visited x n).1 a.0)) a.1 a.2,
        )
  collect_lem (suc fuel) (current ∷ rest) visited affected done x c h n =
      elim (Bool-cases (is_visited current visited)) [
        | inl v ↦
            let seen = (is_visited_iff current visited).0 v in
            collect_lem fuel rest visited affected done
              (skip-Explored g source current rest visited x seen)
              (skip-Collected current rest visited affected x c seen) (rw (v, collect) at h) n
        | inr v ↦ elim (Bool-cases (ltb max_nodes (length (current ∷ visited)))) [
          | inl e ↦ cc (rw (v, e, collect) at h)
          | inr e ↦
              let new = next current rest visited affected x c in
              collect_lem fuel (rest ++ new) (current ∷ visited) (affected ++ keep is_derived new)
                done (next-Explored current rest visited affected x c)
                (next-Collected current rest visited affected x c) (rw (v, e, collect) at h) n
        ]
      ]

  length-keep : {A : Type 0} (p : A → Bool) (xs : List A) → length (keep p xs) ≤ length xs
  unfolding keep
  length-keep p [] = omega arith
  length-keep p (x ∷ xs) = ground (arith, length-keep p xs)

  -- how the traversal ends
  abbrev pub Collection : Result (List Node) → Type 0
  Collection r =
      ((done : List Node) × (r ≡ ok done) × IsWithin g source max_nodes)
      ⊎ ((r ≡ err traversal_limit) × IsBeyond g source max_nodes)

  pub collect-Collection :
      (fuel : ℕ) (queue visited affected : List Node)
      → length queue + pending g visited < fuel
      → Explored g source queue visited
      → Collected queue visited affected
      → Distinct visited
      → length visited ≤ max_nodes
      → Collection (collect fuel g queue visited affected)
  unfolding collect unvisited
  collect-Collection zero queue visited affected h x c d le = absurd (omega arith)
  collect-Collection (suc fuel) [] visited affected h x c d le =
      inl (affected, refl, done-IsWithin g source max_nodes visited x le)
  collect-Collection (suc fuel) (current ∷ rest) visited affected h x c d le =
      elim (Bool-cases (is_visited current visited)) [
        | inl v ↦
            let seen = (is_visited_iff current visited).0 v in
            rw (v, collect)
              (collect-Collection fuel rest visited affected (omega arith)
                (skip-Explored g source current rest visited x seen)
                (skip-Collected current rest visited affected x c seen) d le)
        | inr v ↦ elim (Bool-cases (ltb max_nodes (length (current ∷ visited)))) [
          | inl e ↦
              rw (v, e, collect)
                (inr (
                  refl,
                  next-IsBeyond g source max_nodes current rest visited x d v (ground arith),
                ))
          | inr e ↦
              let new = next current rest visited affected x c in
              rw (v, e, collect)
                (collect-Collection fuel (rest ++ new) (current ∷ visited)
                  (affected ++ keep is_derived new)
                  (omega (
                    arith,
                    length-append rest new,
                    length-keep (λ (t : Node). not (is_visited t (current ∷ visited)))
                        (targets g current),
                    pending-targets g current visited v,
                  ))
                  (next-Explored current rest visited affected x c)
                  (next-Collected current rest visited affected x c)
                  (Distinct-visit current visited d v) (ground arith))
        ]
      ]
