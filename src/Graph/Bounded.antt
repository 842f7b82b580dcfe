-- ===== src/Graph/Bounded.antt =====
-- How many nodes can be reached in a graph, for the traversals that have a bound.
use andromeda_knowledge_core.Prelude.{
  ℕ, ◌≤◌, ◌<◌, ◌≡◌, sym, ◌∙◌, false, List, [], ◌∷◌, In, inl, inr, length,
}
use andromeda_knowledge_core.Graph.{Node, Graph, is_visited}
use andromeda_knowledge_core.Graph.Sets.{is_visited_iff}
use andromeda_knowledge_core.Graph.Reach.{Reach}
use andromeda_knowledge_core.Graph.Worklist.{Explored, Explored-done}

-- No node stands in the list twice.
abbrev pub Distinct : List Node → Type 0
Distinct [] = Unit
Distinct (n ∷ ns) = (In n ns → ⊥) × Distinct ns

-- At most `bound` nodes can be reached from the source, which counts too.
pub record IsWithin (g : Graph) (source : Node) (bound : ℕ) : Type 0 where
  pub nodes : List Node
  pub few : length nodes ≤ bound
  pub all_reached : (n : Node) → Reach g source n → In n nodes

-- More than `bound` nodes can be reached from the source, which counts too.
pub record IsBeyond (g : Graph) (source : Node) (bound : ℕ) : Type 0 where
  pub nodes : List Node
  pub distinct : Distinct nodes
  pub reached : (n : Node) → In n nodes → Reach g source n
  pub many : bound < length nodes

pub Distinct-visit :
    (current : Node) (visited : List Node)
    → Distinct visited
    → is_visited current visited ≡ false
    → Distinct (current ∷ visited)
Distinct-visit current visited d fresh =
    (λ seen. cc (sym fresh ∙ (is_visited_iff current visited).1 seen), d)

module _ (g : Graph) (source : Node) (bound : ℕ) where
  pub done-IsWithin :
      (visited : List Node)
      → Explored g source [] visited
      → length visited ≤ bound
      → IsWithin g source bound
  done-IsWithin visited x le = record {
    nodes = visited;
    few = le;
    all_reached = λ n walk. (Explored-done g source visited x n).1 walk;
  }

  pub next-IsBeyond :
      (current : Node) (rest visited : List Node)
      → Explored g source (current ∷ rest) visited
      → Distinct visited
      → is_visited current visited ≡ false
      → bound < length (current ∷ visited)
      → IsBeyond g source bound
  next-IsBeyond current rest visited x d fresh gt = record {
    nodes = current ∷ visited;
    distinct = Distinct-visit current visited d fresh;
    reached = λ n m. elim m [
      | inl same ↦ x.reached n (inr (inl same))
      | inr seen ↦ x.reached n (inl seen)
    ];
    many = gt;
  }
