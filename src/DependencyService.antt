-- ===== src/DependencyService.antt =====
-- application/dependency_service.py, over the rows of the dependencies and of the derived values that
-- infrastructure/db/repositories.py keeps: `invalidate` follows the dependencies of what changed and
-- marks the derived values that it meets; `register_edge` adds a dependency that closes no cycle.
pub mod Collect
pub mod Exact
pub mod Register
mod Tests
use andromeda_knowledge_core.Prelude.{
  ℕ, zero, suc, ◌+◌, String, Bool, true, false, not, List, [], ◌∷◌, ◌++◌, ◌&&◌, any, keep, str_eq,
  if◌then◌else◌, length, ltb, map,
}
use andromeda_knowledge_core.Errors.{
  Result, ok, err, fault, out_of_fuel, traversal_limit, dependency_cycle, ◌>>=◌,
}
use andromeda_knowledge_core.Graph.{
  Node, Graph, targets, is_visited, sorted_nodes, node_eq, node_before,
}

-- A row of the derived values, with what an invalidation reads and writes.
pub record Derived : Type 0 where
  pub id : String
  pub status : String
  pub invalidation_reason : String
  pub row_version : ℕ

-- An entry of the audit log: what changed, what it affects, how many values were marked, and why.
pub record AuditEntry : Type 0 where
  pub entity : Node
  pub affected_nodes : List String
  pub invalidated_count : ℕ
  pub reason : String

pub record Store : Type 0 where
  pub dependencies : Graph
  pub derived : List Derived
  pub audit : List AuditEntry

pub record Report : Type 0 where
  pub affected_nodes : List String
  pub invalidated_count : ℕ

abbrev pub max_nodes : ℕ
max_nodes = 10000

abbrev pub is_derived : Node → Bool
is_derived (kind, id) = str_eq kind "derived"

-- the targets that the loop over the edges puts into the queue
unfoldable pub unvisited : List Node → List Node → List Node
unvisited visited = keep (λ target. not (is_visited target visited))

-- The loop of `invalidate`: it gives the affected derived nodes.
unfoldable pub collect : ℕ → Graph → List Node → List Node → List Node → Result (List Node)
collect zero g queue visited affected = err (fault out_of_fuel)
collect (suc fuel) g queue visited affected = elim queue [
  | [] ↦ ok affected
  | current ∷ rest ↦ elim (is_visited current visited) [
    | true ↦ collect fuel g rest visited affected
    | false ↦ elim (ltb max_nodes (length (current ∷ visited))) [
      | true ↦ err traversal_limit
      | false ↦
          let next = unvisited (current ∷ visited) (targets g current) in
          collect fuel g (rest ++ next) (current ∷ visited) (affected ++ keep is_derived next)
    ]
  ]
]

abbrev pub id_of : Node → String
id_of (kind, id) = id

-- `id in ids`
unfoldable pub is_listed : List String → String → Bool
is_listed ids id = any (λ i. str_eq i id) ids

-- the rows that `invalidate_derived` updates
unfoldable pub is_stale : List String → Derived → Bool
is_stale ids row = is_listed ids row.id && str_eq row.status "VALID"

abbrev pub mark : List String → String → Derived → Derived
mark ids reason row =
    if is_stale ids row
    then record row {
      status = "INVALIDATED";
      invalidation_reason = reason;
      row_version = row.row_version + 1;
    }
    else row

-- `invalidate_derived(derived_ids, reason)`: the rows after the update; the number of updated rows is
-- the number of the stale ones.
unfoldable pub invalidate_derived : List String → String → List Derived → List Derived
invalidate_derived ids reason [] = []
invalidate_derived ids reason (row ∷ rows) =
    mark ids reason row ∷ invalidate_derived ids reason rows

unfoldable pub stale_count : List String → List Derived → ℕ
stale_count ids rows = length (keep (is_stale ids) rows)

-- `record_audit`, when a value was marked
unfoldable pub audited : Node → List String → ℕ → String → List AuditEntry → List AuditEntry
audited source ids zero reason entries = entries
audited source ids (suc n) reason entries =
    entries
    ++ record { entity = source; affected_nodes = ids; invalidated_count = suc n; reason = reason }
      ∷ []

-- `invalidate(source_kind, source_id, reason)`
unfoldable pub invalidate : Store → Node → String → Result (Store × Report)
invalidate store source reason = do
  affected ← collect (suc (suc (length store.dependencies))) store.dependencies (source ∷ []) [] []
  let ids = map id_of (sorted_nodes affected)
  let count = stale_count ids store.derived
  ok (
    record store {
      derived = invalidate_derived ids reason store.derived;
      audit = audited source ids count reason store.audit;
    },
    record { affected_nodes = ids; invalidated_count = count },
  )

-- a node put before the first one that it comes before
unfoldable pub insert_sorted : Node → List Node → List Node
insert_sorted n [] = n ∷ []
insert_sorted n (m ∷ ms) =
    let rest = insert_sorted n ms in if node_before n m then n ∷ m ∷ ms else m ∷ rest

-- `sorted(…)` of a list of nodes
unfoldable pub sorted_list : List Node → List Node
sorted_list [] = []
sorted_list (n ∷ ns) = insert_sorted n (sorted_list ns)

-- The loop of `_has_path`
unfoldable pub find_path : ℕ → Graph → Node → List Node → List Node → Result Bool
find_path zero g target queue visited = err (fault out_of_fuel)
find_path (suc fuel) g target queue visited = elim queue [
  | [] ↦ ok false
  | current ∷ rest ↦ elim (is_visited current visited) [
    | true ↦ find_path fuel g target rest visited
    | false ↦ elim (node_eq current target) [
      | true ↦ ok true
      | false ↦ elim (ltb max_nodes (length (current ∷ visited))) [
        | true ↦ err traversal_limit
        | false ↦
            find_path fuel g target (rest ++ sorted_list (targets g current)) (current ∷ visited)
      ]
    ]
  ]
]

-- `register_edge(…)`; the new row stands first, and the order of the rows means nothing. The unique
-- constraint of the table, which a second row of an edge breaks, is not modelled.
unfoldable pub register_edge : Store → Node → Node → Result Store
register_edge store source target =
    let g = store.dependencies in
    if node_eq source target then err dependency_cycle else (do
      found ← find_path (suc (suc (length g))) g source (target ∷ []) []
      if found
          then err dependency_cycle
          else ok (record store { dependencies = (source, target) ∷ g }))
