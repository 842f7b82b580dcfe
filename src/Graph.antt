-- ===== src/Graph.antt =====
-- domain/dependencies.py: the graph of dependencies in memory. The dict from a node to the set of its
-- targets is the list of the edges; a set that is read is sorted and without repetitions.
-- Searches run on fuel, a step for each node that is taken from the queue: each edge puts at most one
-- node there.
pub mod Sets
pub mod Reach
pub mod Worklist
pub mod Bounded
pub mod Search
pub mod Acyclic
pub mod Affected
mod Tests
use Prim.Native.Nat.{Ordering}
use andromeda_knowledge_core.Prelude.{
  ℕ, zero, suc, ◌+◌, String, Bool, true, false, List, [], ◌∷◌, ◌++◌, ◌&&◌, ◌||◌, any, not, keep,
  ltb, str_eq, if◌then◌else◌, length,
}
use andromeda_knowledge_core.Errors.{
  Result, ok, err, fault, out_of_fuel, runtime_error, dependency_cycle, ◌>>=◌,
}
use andromeda_knowledge_core.Json.Compare.{compare_text}

-- a kind and an id
abbrev pub Node : Type 0
Node = String × String

-- a source and a target; the type of a dependency is not kept by the graph
abbrev pub Graph : Type 0
Graph = List (Node × Node)

abbrev pub node_eq : Node → Node → Bool
node_eq (kind, id) (kind', id') = str_eq kind kind' && str_eq id id'

-- `m < n` of two tuples
unfoldable pub node_before : Node → Node → Bool
node_before (kind, id) (kind', id') = elim (compare_text kind kind') [
  | Ordering.lt ↦ true
  | Ordering.gt ↦ false
  | Ordering.eq ↦ elim (compare_text id id') [ Ordering.lt ↦ true | _ ↦ false ]
]

unfoldable pub insert_node : Node → List Node → List Node
insert_node n [] = n ∷ []
insert_node n (m ∷ ms) =
    let rest = insert_node n ms in
    if node_eq m n then m ∷ ms else if node_before n m then n ∷ m ∷ ms else m ∷ rest

-- `sorted(…)` of a set
unfoldable pub sorted_nodes : List Node → List Node
sorted_nodes [] = []
sorted_nodes (n ∷ ns) = insert_node n (sorted_nodes ns)

unfoldable pub targets : Graph → Node → List Node
targets [] n = []
targets ((source, target) ∷ g) n =
    let rest = targets g n in if node_eq source n then target ∷ rest else rest

-- `sorted(self._outgoing.get(current, set()))`
unfoldable pub successors : Graph → Node → List Node
successors g n = sorted_nodes (targets g n)

-- `node in visited`
unfoldable pub is_visited : Node → List Node → Bool
is_visited n visited = any (λ m. node_eq m n) visited

-- The loop of `has_path`, on the queue and the visited nodes
unfoldable pub search_path : ℕ → Graph → Node → List Node → List Node → Result Bool
search_path zero g target queue visited = err (fault out_of_fuel)
search_path (suc fuel) g target queue visited = elim queue [
  | [] ↦ ok false
  | current ∷ rest ↦ elim (is_visited current visited) [
    | true ↦ search_path fuel g target rest visited
    | false ↦ elim (node_eq current target) [
      | true ↦ ok true
      | false ↦ search_path fuel g target (rest ++ successors g current) (current ∷ visited)
    ]
  ]
]

-- `has_path(source, target)`
unfoldable pub has_path : Graph → Node → Node → Result Bool
has_path g source target = search_path (suc (suc (length g))) g target (source ∷ []) []

-- `add(edge)`
unfoldable pub add : Graph → Node → Node → Result Graph
add g source target = if node_eq source target then err dependency_cycle else do
  found ← has_path g target source
  if found then err dependency_cycle else ok ((source, target) ∷ g)

-- The loop of `affected`: it gives the visited nodes.
unfoldable pub visit : ℕ → Graph → ℕ → List Node → List Node → Result (List Node)
visit zero g max_nodes queue visited = err (fault out_of_fuel)
visit (suc fuel) g max_nodes queue visited = elim queue [
  | [] ↦ ok visited
  | current ∷ rest ↦ elim (is_visited current visited) [
    | true ↦ visit fuel g max_nodes rest visited
    | false ↦ elim (ltb max_nodes (length (current ∷ visited))) [
      | true ↦ err (fault runtime_error)
      | false ↦ visit fuel g max_nodes (rest ++ successors g current) (current ∷ visited)
    ]
  ]
]

-- `affected(source, max_nodes)`
unfoldable pub affected : Graph → Node → ℕ → Result (List Node)
affected g source max_nodes = do
  visited ← visit (suc (suc (length g))) g max_nodes (source ∷ []) []
  ok (sorted_nodes (keep (λ n. not (node_eq source n)) visited))
