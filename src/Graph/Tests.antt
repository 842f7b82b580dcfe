-- ===== src/Graph/Tests.antt =====
-- Searches in a concrete graph, and the theorems at that graph.
use andromeda_knowledge_core.Graph.Bounded.{IsWithin, IsBeyond}
use andromeda_knowledge_core.Prelude.{
  List, ◌⊎◌, ◌≡◌, ◌≢◌, ◌⊎◌, ◌↔◌, refl, true, false, [], ◌∷◌, In, any, keep,
}
use andromeda_knowledge_core.Errors.{ok, err, fault, runtime_error, dependency_cycle}
use andromeda_knowledge_core.Json.Compare.{compare_text}
use andromeda_knowledge_core.Graph.{
  Node, Graph, node_before, insert_node, sorted_nodes, targets, successors, is_visited, search_path,
  has_path, add, visit, affected,
}
use andromeda_knowledge_core.Graph.Reach.{Reach}
use andromeda_knowledge_core.Graph.Search.{has_path_lem}
use andromeda_knowledge_core.Graph.Acyclic.{Acyclic, add_lem, add-Acyclic}
use andromeda_knowledge_core.Graph.Affected.{affected_lem, affected_outcomes}

abbrev price : Node
price = ("fact", "price")

abbrev discount : Node
discount = ("rule", "discount")

abbrev total : Node
total = ("derived", "total")

-- a fact that a rule reads, and a result that rests on the rule
abbrev chain : Graph
chain = (price, discount) ∷ (discount, total) ∷ []

searches : Unit {0}
unfolding node_before insert_node sorted_nodes targets successors is_visited search_path has_path
    add visit affected compare_text any keep
searches = tt

has_path_lem_example :
    ((has_path chain price total ≡ ok true) ⊎ (has_path chain price total ≡ ok false))
    × ((has_path chain price total ≡ ok true) ↔ Reach chain price total)
has_path_lem_example = has_path_lem chain price total

add_lem_example :
    ((add chain total price ≡ ok ((total, price) ∷ chain)) × (Reach chain price total → ⊥))
    ⊎ ((add chain total price ≡ err dependency_cycle) × Reach chain price total)
add_lem_example = add_lem chain total price

cycle_is_refused : add chain total price ≡ err dependency_cycle
unfolding searches
cycle_is_refused = refl

empty-Acyclic : Acyclic []
empty-Acyclic m n e walk = e

first_edge : add [] discount total ≡ ok ((discount, total) ∷ [])
unfolding searches
first_edge = refl

one_edge-Acyclic : Acyclic ((discount, total) ∷ [])
one_edge-Acyclic = add-Acyclic [] ((discount, total) ∷ []) discount total empty-Acyclic first_edge

second_edge : add ((discount, total) ∷ []) price discount ≡ ok chain
unfolding searches
second_edge = refl

add-Acyclic_example : Acyclic chain
add-Acyclic_example =
    add-Acyclic ((discount, total) ∷ []) chain price discount one_edge-Acyclic second_edge

affected_of_price : affected chain price 10000 ≡ ok (total ∷ discount ∷ [])
unfolding searches
affected_of_price = refl

affected_lem_example :
    In total (total ∷ discount ∷ []) ↔ (Reach chain price total × (total ≢ price))
affected_lem_example =
    affected_lem chain price 10000 (total ∷ discount ∷ []) affected_of_price total

bound_of_one : affected chain price 1 ≡ err (fault runtime_error)
unfolding searches
bound_of_one = refl

affected_outcomes_example :
    ((ns : List Node) × (affected chain price 1 ≡ ok ns) × IsWithin chain price 1)
    ⊎ ((affected chain price 1 ≡ err (fault runtime_error)) × IsBeyond chain price 1)
affected_outcomes_example = affected_outcomes chain price 1
