-- ===== src/Graph/Reach.antt =====
-- The walks along the edges of a graph, and what one more edge adds to them.
use andromeda_knowledge_core.Prelude.{◌⊎◌, inl, inr, ◌∷◌, subst, sym, ap}
use andromeda_knowledge_core.Graph.{Node, Graph}
use andromeda_knowledge_core.Graph.Sets.{Edge}

-- The walks from `source`.
pub data Reach (g : Graph) (source : Node) : Node → Type 0 where
  here : Reach g source source
  step : {m n : Node} → Reach g source m → Edge g m n → Reach g source n

pub Reach-append : (g : Graph) (a b : Node) {c : Node} → Reach g a b → Reach g b c → Reach g a c
Reach-append g a b r here = r
Reach-append g a b r (step w e) = step (Reach-append g a b r w) e

pub Reach-closed :
    (g : Graph) (source : Node) (P : Node → Type 0)
    → P source
    → ((m n : Node) → P m → Edge g m n → P n)
    → {n : Node} → Reach g source n
    → P n
Reach-closed g source P p h here = p
Reach-closed g source P p h (step {m} {n} w e) = h m n (Reach-closed g source P p h w) e

-- A walk that may use the edge from `s` to `t` is a walk without it, or goes to `s` and on from `t`.
pub Reach-split :
    (g : Graph) (s t a : Node) {b : Node}
    → Reach ((s, t) ∷ g) a b
    → Reach g a b ⊎ (Reach g a s × Reach g t b)
Reach-split g s t a here = inl here
Reach-split g s t a (step {m} {n} w e) = elim (Reach-split g s t a w) [
  | inl r ↦ elim e [
    | inl new ↦ inr (
      subst (Reach g a) (ap (λ (p : Node × Node). p.0) new) r,
      subst (Reach g t) (sym (ap (λ (p : Node × Node). p.1) new)) here,
    )
    | inr old ↦ inl (step r old)
  ]
  | inr (to, from) ↦ elim e [
    | inl new ↦ inr (to, subst (Reach g t) (sym (ap (λ (p : Node × Node). p.1) new)) here)
    | inr old ↦ inr (to, step from old)
  ]
]
