-- ===== src/DependencyService/Tests.antt =====
-- An invalidation of concrete rows, and the theorems at those rows.
use andromeda_knowledge_core.Graph.Bounded.{IsWithin, IsBeyond}
use andromeda_knowledge_core.Prelude.{◌≡◌, ◌≢◌, ◌↔◌, ◌⊎◌, refl, In, inl, [], ◌∷◌, any, keep, String}
use andromeda_knowledge_core.Errors.{ok, err, traversal_limit}
use andromeda_knowledge_core.Json.Compare.{compare_text}
use andromeda_knowledge_core.Graph.{
  Node, node_before, insert_node, sorted_nodes, targets, is_visited,
}
use andromeda_knowledge_core.DependencyService.{
  Derived, Store, Report, unvisited, collect, invalidate, invalidate_derived, is_stale, is_listed,
  stale_count, audited, sorted_list, find_path, register_edge,
}
use andromeda_knowledge_core.DependencyService.Collect.{IsAffected}
use andromeda_knowledge_core.Graph.Acyclic.{Acyclic}
use andromeda_knowledge_core.DependencyService.Register.{register_edge-Acyclic}
use andromeda_knowledge_core.DependencyService.Exact.{
  invalidate_lem, invalidate-is_stale, invalidate_outcomes,
}

abbrev price : Node
price = ("fact", "price")

abbrev row_of : String → Derived
row_of id = record { id = id; status = "VALID"; invalidation_reason = ""; row_version = 1 }

-- one derived value rests on the price, another does not
abbrev shop : Store
shop = record {
  dependencies = (price, ("derived", "total")) ∷ [];
  derived = row_of "total" ∷ row_of "other" ∷ [];
  audit = [];
}

abbrev stale_row : Derived
stale_row = record {
  id = "total";
  status = "INVALIDATED";
  invalidation_reason = "changed";
  row_version = 2;
}

abbrev shop_after : Store
shop_after = record shop {
  derived = stale_row ∷ row_of "other" ∷ [];
  audit =
      record {
        entity = price;
        affected_nodes = "total" ∷ [];
        invalidated_count = 1;
        reason = "changed";
      }
      ∷ [];
}

abbrev shop_report : Report
shop_report = record { affected_nodes = "total" ∷ []; invalidated_count = 1 }

invalidates : invalidate shop price "changed" ≡ ok (shop_after, shop_report)
unfolding invalidate collect unvisited invalidate_derived is_stale is_listed stale_count audited
    targets is_visited sorted_nodes insert_node node_before compare_text any keep
invalidates = refl

invalidate_lem_example :
    In "total" shop_report.affected_nodes ↔ IsAffected shop.dependencies price ("derived", "total")
invalidate_lem_example =
    invalidate_lem shop shop_after price "changed" shop_report invalidates "total"

total-IsAffected : IsAffected shop.dependencies price ("derived", "total")
total-IsAffected =
    (invalidate_lem shop shop_after price "changed" shop_report invalidates "total").0 (inl refl)

invalidate-is_stale_example : stale_row.status ≢ "VALID"
invalidate-is_stale_example =
    invalidate-is_stale shop shop_after price "changed" shop_report invalidates stale_row (inl refl)
      total-IsAffected

invalidate_outcomes_example :
    ((after : Store × Report) × (invalidate shop price "changed" ≡ ok after)
      × IsWithin shop.dependencies price 10000)
    ⊎ ((invalidate shop price "changed" ≡ err traversal_limit)
        × IsBeyond shop.dependencies price 10000)
invalidate_outcomes_example = invalidate_outcomes shop price "changed"

abbrev no_rows : Store
no_rows = record { dependencies = []; derived = []; audit = [] }

no_rows-Acyclic : Acyclic no_rows.dependencies
no_rows-Acyclic m n e walk = e

abbrev one_row : Store
one_row = record no_rows { dependencies = (price, ("derived", "total")) ∷ [] }

registers : register_edge no_rows price ("derived", "total") ≡ ok one_row
unfolding register_edge find_path targets is_visited sorted_list any
registers = refl

register_edge-Acyclic_example : Acyclic one_row.dependencies
register_edge-Acyclic_example =
    register_edge-Acyclic no_rows one_row price ("derived", "total") no_rows-Acyclic registers
