-- ===== src/Graph/Worklist.antt =====
-- What the searches of domain/dependencies.py know of their queue and their visited nodes.
use andromeda_knowledge_core.Prelude.{
  ◌+◌, ◌≡◌, refl, sym, subst, List, [], ◌∷◌, ◌++◌, In, inl, inr, ◌⊎◌, ◌↔◌, length, arith, In-append,
}
use andromeda_knowledge_core.Graph.{Node, Graph, successors}
use andromeda_knowledge_core.Graph.Sets.{Edge, In-successors}
use andromeda_knowledge_core.Graph.Reach.{Reach, here, step, Reach-closed}

pub length-append : {A : Type 0} (xs ys : List A) → length (xs ++ ys) ≡ length xs + length ys
length-append [] ys = omega arith
length-append (x ∷ xs) ys = omega (arith, length-append xs ys)

module _ (g : Graph) (source : Node) where
  -- Visited or queued: the source is, so is what follows on a visited node, and all that is can be
  -- reached.
  pub record Explored (queue visited : List Node) : Type 0 where
    started : In source visited ⊎ In source queue
    closed : (m n : Node) → In m visited → Edge g m n → In n visited ⊎ In n queue
    pub reached : (n : Node) → In n visited ⊎ In n queue → Reach g source n

  pub start-Explored : Explored (source ∷ []) []
  start-Explored = record {
    started = inr (inl refl);
    closed = λ m n seen e. absurd seen;
    reached = λ n k. elim k [
      | inl seen ↦ absurd seen
      | inr queued ↦ elim queued [
        | inl same ↦ subst (Reach g source) (sym same) here
        | inr more ↦ absurd more
      ]
    ];
  }

  module _ (current : Node) (rest visited : List Node) (x : Explored (current ∷ rest) visited) where
    -- the head of the queue was visited before
    pub skip :
        (n : Node)
        → In current visited
        → In n visited ⊎ In n (current ∷ rest)
        → In n visited ⊎ In n rest
    skip n seen (inl k) = inl k
    skip n seen (inr (inl same)) = inl (subst (λ m. In m visited) (sym same) seen)
    skip n seen (inr (inr k)) = inr k

    pub unskip : (n : Node) → In n visited ⊎ In n rest → In n visited ⊎ In n (current ∷ rest)
    unskip n (inl k) = inl k
    unskip n (inr k) = inr (inr k)

    pub skip-Explored : In current visited → Explored rest visited
    skip-Explored seen = record {
      started = skip source seen x.started;
      closed = λ m n k e. skip n seen (x.closed m n k e);
      reached = λ n k. x.reached n (unskip n k);
    }

    -- The head of the queue is visited, and the nodes of `next` follow on it: each that is not
    -- visited is among them.
    module _ (next : List Node)
        (covered : (n : Node) → Edge g current n → In n (current ∷ visited) ⊎ In n next)
        (followed : (n : Node) → In n next → Edge g current n) where
      pub expand :
          (n : Node)
          → In n visited ⊎ In n (current ∷ rest)
          → In n (current ∷ visited) ⊎ In n (rest ++ next)
      expand n (inl k) = inl (inr k)
      expand n (inr (inl same)) = inl (inl same)
      expand n (inr (inr k)) = inr ((In-append n rest next).1 (inl k))

      expand_closed :
          (m n : Node)
          → In m (current ∷ visited)
          → Edge g m n
          → In n (current ∷ visited) ⊎ In n (rest ++ next)
      expand_closed m n (inl same) e = elim (covered n (subst (λ k. Edge g k n) same e)) [
        | inl seen ↦ inl seen
        | inr k ↦ inr ((In-append n rest next).1 (inr k))
      ]
      expand_closed m n (inr k) e = expand n (x.closed m n k e)

      expand_reached :
          (n : Node) → In n (current ∷ visited) ⊎ In n (rest ++ next) → Reach g source n
      expand_reached n (inl (inl same)) = x.reached n (inr (inl same))
      expand_reached n (inl (inr k)) = x.reached n (inl k)
      expand_reached n (inr k) = elim ((In-append n rest next).0 k) [
        | inl queued ↦ x.reached n (inr (inr queued))
        | inr new ↦ step (x.reached current (inr (inl refl))) (followed n new)
      ]

      pub expand_by-Explored : Explored (rest ++ next) (current ∷ visited)
      expand_by-Explored = record {
        started = expand source x.started;
        closed = expand_closed;
        reached = expand_reached;
      }

    pub expand-Explored : Explored (rest ++ successors g current) (current ∷ visited)
    expand-Explored =
        expand_by-Explored (successors g current) (λ n e. inr ((In-successors g current n).1 e))
          (λ n k. (In-successors g current n).0 k)

  empty_queue : (n : Node) (visited : List Node) → In n visited ⊎ In n [] → In n visited
  empty_queue n visited (inl k) = k
  empty_queue n visited (inr k) = absurd k

  -- With an empty queue, what is visited is what can be reached.
  pub Explored-done :
      (visited : List Node) → Explored [] visited → (n : Node) → In n visited ↔ Reach g source n
  Explored-done visited x n = (
    λ k. x.reached n (inl k),
    λ walk.
        Reach-closed g source (λ m. In m visited) (empty_queue source visited x.started)
          (λ m n seen e. empty_queue n visited (x.closed m n seen e)) walk,
  )
