-- ===== src/Graph/Sets.antt =====
-- Sorted sets of nodes, and the nodes and edges that a graph has.
use andromeda_knowledge_core.Prelude.{
  ℕ, suc, ◌+◌, ◌≤◌, ◌≡◌, ◌≢◌, refl, sym, ◌∙◌, subst, ap, ap₂, true, false, List, [], ◌∷◌, any,
  eq_iff, In, inl, inr, ◌↔◌, ◌⊎◌, length, Bool-cases, arith, any-found, any-of-In, if◌then◌else◌,
}
use andromeda_knowledge_core.Graph.{
  Node, Graph, node_eq, node_before, insert_node, sorted_nodes, targets, successors, is_visited,
}

pub node_eq_sound : (m n : Node) → node_eq m n ≡ true → m ≡ n
node_eq_sound (kind, id) (kind', id') h =
    ap₂ (λ a b. (a, b)) ((eq_iff kind kind').0 (ground arith)) ((eq_iff id id').0 (ground arith))

pub node_eq_refl : (n : Node) → node_eq n n ≡ true
node_eq_refl (kind, id) = rw ((eq_iff kind kind).1 refl, (eq_iff id id).1 refl) refl

pub is_visited_iff : (n : Node) (visited : List Node) → (is_visited n visited ≡ true) ↔ In n visited
unfolding is_visited
is_visited_iff n visited = (
  λ h.
      let (m, found, same) = any-found (λ m. node_eq m n) visited h in
      subst (λ x. In x visited) (node_eq_sound m n same) found,
  λ m. any-of-In (λ m. node_eq m n) n visited m (node_eq_refl n),
)

In-insert_node : (n m : Node) (ms : List Node) → In n (insert_node m ms) ↔ ((n ≡ m) ⊎ In n ms)
unfolding insert_node
In-insert_node n m [] = (λ h. h, λ h. h)
In-insert_node n m (k ∷ ms) = elim (Bool-cases (node_eq k m)) [
  | inl e ↦
      rw e
        (λ h. inr h, λ h. elim h [ inl same ↦ inl (same ∙ sym (node_eq_sound k m e)) | inr r ↦ r ])
  | inr e ↦ elim (Bool-cases (node_before m k)) [
    | inl b ↦ rw (e, b) (λ h. h, λ h. h)
    | inr b ↦ rw (e, b) (ground (arith, In-insert_node n m ms))
  ]
]

pub In-sorted_nodes : (n : Node) (ns : List Node) → In n (sorted_nodes ns) ↔ In n ns
unfolding sorted_nodes
In-sorted_nodes n [] = (λ h. h, λ h. h)
In-sorted_nodes n (m ∷ ms) =
    ground (arith, In-insert_node n m (sorted_nodes ms), In-sorted_nodes n ms)

other : (m n : Node) → node_eq m n ≡ false → m ≢ n
other m n h e = cc (subst (λ k. node_eq m k ≡ true) e (node_eq_refl m))

not_eq : (m n : Node) → node_eq m n ≡ false → node_eq n m ≡ false
not_eq m n h = elim (Bool-cases (node_eq n m)) [
  | inl e ↦ absurd (other m n h (sym (node_eq_sound n m e)))
  | inr e ↦ e
]

-- An edge that the graph has.
abbrev pub Edge : Graph → Node → Node → Type 0
Edge g source target = In (source, target) g

pub In-targets :
    (g : Graph) (source target : Node) → In target (targets g source) ↔ Edge g source target
unfolding targets
In-targets [] source target = (λ h. h, λ h. h)
In-targets ((s, t) ∷ g) source target = elim (Bool-cases (node_eq s source)) [
  | inl e ↦ rw e (
    λ h. elim h [
      | inl same ↦ inl (ap₂ (λ a b. (a, b)) (sym (node_eq_sound s source e)) same)
      | inr m ↦ inr ((In-targets g source target).0 m)
    ],
    λ h. elim h [
      | inl same ↦ inl (ap (λ (p : Node × Node). p.1) same)
      | inr m ↦ inr ((In-targets g source target).1 m)
    ],
  )
  | inr e ↦ rw e (
    λ h. inr ((In-targets g source target).0 h),
    λ h. elim h [
      | inl same ↦ absurd (other s source e (sym (ap (λ (p : Node × Node). p.0) same)))
      | inr m ↦ (In-targets g source target).1 m
    ],
  )
]

pub In-successors :
    (g : Graph) (source target : Node) → In target (successors g source) ↔ Edge g source target
unfolding successors
In-successors g source target = (
  λ h. (In-targets g source target).0 ((In-sorted_nodes target (targets g source)).0 h),
  λ h. (In-sorted_nodes target (targets g source)).1 ((In-targets g source target).1 h),
)

length-insert_node : (n : Node) (ns : List Node) → length (insert_node n ns) ≤ suc (length ns)
unfolding insert_node
length-insert_node n [] = omega arith
length-insert_node n (m ∷ ns) = ground (arith, length-insert_node n ns)

length-sorted_nodes : (ns : List Node) → length (sorted_nodes ns) ≤ length ns
unfolding sorted_nodes
length-sorted_nodes [] = omega arith
length-sorted_nodes (n ∷ ns) =
    omega (arith, length-insert_node n (sorted_nodes ns), length-sorted_nodes ns)

-- the edges whose source is not visited
unfoldable pub pending : Graph → List Node → ℕ
pending [] visited = 0
pending ((source, target) ∷ g) visited =
    let rest = pending g visited in if is_visited source visited then rest else suc rest

pub pending-targets :
    (g : Graph) (n : Node) (visited : List Node)
    → is_visited n visited ≡ false
    → pending g (n ∷ visited) + length (targets g n) ≡ pending g visited
unfolding pending targets is_visited any
pending-targets [] n visited h = refl
pending-targets ((source, target) ∷ g) n visited h = elim (Bool-cases (node_eq source n)) [
  | inl e ↦
      let same = node_eq_sound source n e in
      rw
        (
          e,
          subst (λ k. node_eq n k ≡ true) (sym same) (node_eq_refl n),
          subst (λ k. is_visited k visited ≡ false) (sym same) h,
        )
        (ground (arith, pending-targets g n visited h))
  | inr e ↦ elim (Bool-cases (is_visited source visited)) [
    | inl v ↦ rw (e, not_eq source n e, v) (pending-targets g n visited h)
    | inr v ↦ rw (e, not_eq source n e, v) (omega (arith, pending-targets g n visited h))
  ]
]

pub pending-successors :
    (g : Graph) (n : Node) (visited : List Node)
    → is_visited n visited ≡ false
    → pending g (n ∷ visited) + length (successors g n) ≤ pending g visited
unfolding successors
pending-successors g n visited h =
    omega (arith, length-sorted_nodes (targets g n), pending-targets g n visited h)

pub pending-start : (g : Graph) → pending g [] ≡ length g
unfolding pending is_visited any
pending-start [] = refl
pending-start (e ∷ g) = ap suc (pending-start g)
