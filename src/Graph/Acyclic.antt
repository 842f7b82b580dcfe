-- ===== src/Graph/Acyclic.antt =====
-- The graph of domain/dependencies.py never gets a cycle.
use andromeda_knowledge_core.Prelude.{
  ◌≡◌, refl, sym, ◌∙◌, ap, subst, ◌∷◌, inl, inr, ◌⊎◌, Bool-cases,
}
use andromeda_knowledge_core.Errors.{ok, err, dependency_cycle, ok-injective}
use andromeda_knowledge_core.Graph.{Node, Graph, node_eq, add}
use andromeda_knowledge_core.Graph.Sets.{Edge, node_eq_sound}
use andromeda_knowledge_core.Graph.Reach.{Reach, here, step, Reach-append, Reach-split}
use andromeda_knowledge_core.Graph.Search.{has_path_lem}

-- No edge is part of a cycle.
abbrev pub Acyclic : Graph → Type 0
Acyclic g = (m n : Node) → Edge g m n → Reach g n m → ⊥

pub edge-Acyclic :
    (g : Graph) (source target : Node)
    → Acyclic g
    → (Reach g target source → ⊥)
    → Acyclic ((source, target) ∷ g)
edge-Acyclic g source target acyclic free m n e back = elim e [
  | inl new ↦
      let from_target =
        subst (λ k. Reach ((source, target) ∷ g) k m) (ap (λ (p : Node × Node). p.1) new) back in
      let cycle =
        subst (Reach ((source, target) ∷ g) target) (ap (λ (p : Node × Node). p.0) new)
          from_target in
      elim (Reach-split g source target target cycle) [ inl r ↦ free r | inr (to, from) ↦ free to ]
  | inr old ↦ elim (Reach-split g source target n back) [
    | inl r ↦ acyclic m n old r
    | inr (to, from) ↦ free (Reach-append g target m from (Reach-append g m n (step here old) to))
  ]
]

-- An edge is added, unless a walk leads from its target to its source: then a cycle is reported.
pub add_lem :
    (g : Graph) (source target : Node)
    → ((add g source target ≡ ok ((source, target) ∷ g)) × (Reach g target source → ⊥))
      ⊎ ((add g source target ≡ err dependency_cycle) × Reach g target source)
unfolding add
add_lem g source target =
    let (answer, found) = has_path_lem g target source in
    elim (Bool-cases (node_eq source target)) [
      | inl e ↦ inr (rw e refl, subst (Reach g target) (sym (node_eq_sound source target e)) here)
      | inr e ↦ elim answer [
        | inl walked ↦ inr (rw (e, walked) refl, found.0 walked)
        | inr missed ↦ inl (rw (e, missed) refl, λ walk. cc (sym missed ∙ found.1 walk))
      ]
    ]

-- A graph without cycles has none after an edge is added.
pub add-Acyclic :
    (g g' : Graph) (source target : Node) → Acyclic g → add g source target ≡ ok g' → Acyclic g'
add-Acyclic g g' source target acyclic h = elim (add_lem g source target) [
  | inl (added, free) ↦
      subst Acyclic (ok-injective (sym added ∙ h)) (edge-Acyclic g source target acyclic free)
  | inr (refused, walk) ↦ absurd (cc (sym refused ∙ h))
]
