-- ===== src/Engine/Sorted.antt =====
-- `_ordered_rules` of domain/engine.py gives the rules in the order of their keys.
use Prim.Native.Nat.{compare, Ordering}
use mathlib.Core.List.{Perm}
use mathlib.Core.List.Perm
use text.Mathlib.TextEquality.{Char-path}
use andromeda_knowledge_core.Prelude.Int.{pos_part, neg_part, eqb_ℤ_sound}
use andromeda_knowledge_core.Prelude.{
  ◌+◌, ◌<◌, ◌≤◌, ◌⊎◌, ℕ, String, ◌≡◌, refl, true, false, List, [], ◌∷◌, Bool-cases, inl, inr, arith,
}
use andromeda_knowledge_core.Json.Compare.{compare_text}
use andromeda_knowledge_core.Rules.{Rule}
use andromeda_knowledge_core.Engine.Order.{comes_before, insert_rule, ordered_rules}

abbrev flip : Ordering → Ordering
flip Ordering.lt = Ordering.gt
flip Ordering.eq = Ordering.eq
flip Ordering.gt = Ordering.lt

compare-flip : (m n : ℕ) → compare n m ≡ flip (compare m n)
compare-flip m n = ground arith

compare_text-flip : (s t : String) → compare_text t s ≡ flip (compare_text s t)
unfolding compare_text
compare_text-flip String.[] String.[] = refl
compare_text-flip String.[] (String.◌∷◌ d t) = refl
compare_text-flip (String.◌∷◌ c s) String.[] = refl
compare_text-flip (String.◌∷◌ c s) (String.◌∷◌ d t) = ground (arith, compare_text-flip s t)

comes_before_asym : (a b : Rule) → comes_before a b ≡ true → comes_before b a ≡ false
unfolding comes_before
comes_before_asym a b h = ground (arith, compare_text-flip a.logical_key b.logical_key)

-- `a` has the higher priority, or both have one priority and `a` the smaller logical key, or both have
-- one priority and one logical key and `b` no smaller version.
abbrev pub InOrder : Rule → Rule → Type 0
InOrder a b =
    (pos_part b.priority + neg_part a.priority < pos_part a.priority + neg_part b.priority)
    ⊎ ((a.priority ≡ b.priority)
        × ((compare_text a.logical_key b.logical_key ≡ Ordering.lt)
            ⊎ ((a.logical_key ≡ b.logical_key) × (a.version ≤ b.version))))

compare_text-eq : (s t : String) → compare_text s t ≡ Ordering.eq → s ≡ t
unfolding compare_text
compare_text-eq String.[] String.[] h = refl
compare_text-eq String.[] (String.◌∷◌ d t) h = cc
compare_text-eq (String.◌∷◌ c s) String.[] h = cc
compare_text-eq (String.◌∷◌ c s) (String.◌∷◌ d t) h =
    ground (arith, compare_text-eq s t, Char-path c d)

comes_before-InOrder : (a b : Rule) → comes_before b a ≡ false → InOrder a b
unfolding comes_before
comes_before-InOrder a b h = ground (
  arith,
  compare_text-flip b.logical_key a.logical_key,
  compare_text-eq a.logical_key b.logical_key,
  eqb_ℤ_sound a.priority b.priority,
)

-- Each rule and the next are in order.
abbrev pub Ordered : List Rule → Type 0
Ordered [] = Unit
Ordered (a ∷ []) = Unit
Ordered (a ∷ b ∷ rules) = InOrder a b × Ordered (b ∷ rules)

-- an ordered list behind a rule that its head does not come before
behind :
    (a rule : Rule) (rules : List Rule)
    → Ordered (a ∷ rules)
    → InOrder a rule
    → Ordered (insert_rule rule rules)
    → Ordered (a ∷ insert_rule rule rules)
unfolding insert_rule
behind a rule [] o h i = (h, tt)
behind a rule (b ∷ rules) o h i = elim (Bool-cases (comes_before b rule)) [
  | inl e ↦ rw e (o.0, rw e at i)
  | inr e ↦ rw e (h, rw e at i)
]

Ordered-tail : (a : Rule) (rules : List Rule) → Ordered (a ∷ rules) → Ordered rules
Ordered-tail a [] o = tt
Ordered-tail a (b ∷ rules) o = o.1

insert_rule-Ordered :
    (rule : Rule) (rules : List Rule) → Ordered rules → Ordered (insert_rule rule rules)
unfolding insert_rule
insert_rule-Ordered rule [] o = tt
insert_rule-Ordered rule (r ∷ rules) o = elim (Bool-cases (comes_before r rule)) [
  | inl e ↦ rw e (
      behind r rule rules o (comes_before-InOrder r rule (comes_before_asym r rule e))
        (insert_rule-Ordered rule rules (Ordered-tail r rules o)))
  | inr e ↦ rw e (comes_before-InOrder rule r e, o)
]

ordered_rules-Ordered : (rules : List Rule) → Ordered (ordered_rules rules)
unfolding ordered_rules
ordered_rules-Ordered [] = tt
ordered_rules-Ordered (rule ∷ rules) =
    insert_rule-Ordered rule (ordered_rules rules) (ordered_rules-Ordered rules)

insert_rule-Perm : (rule : Rule) (rules : List Rule) → Perm (rule ∷ rules) (insert_rule rule rules)
unfolding insert_rule
insert_rule-Perm rule [] = Perm.refl (rule ∷ [])
insert_rule-Perm rule (r ∷ rules) = elim (Bool-cases (comes_before r rule)) [
  | inl e ↦ rw e (Perm.trans (Perm.swap r rule rules) (Perm.cons r (insert_rule-Perm rule rules)))
  | inr e ↦ rw e (Perm.refl (rule ∷ r ∷ rules))
]

ordered_rules-Perm : (rules : List Rule) → Perm rules (ordered_rules rules)
unfolding ordered_rules
ordered_rules-Perm [] = Perm.nil
ordered_rules-Perm (rule ∷ rules) =
    Perm.trans (Perm.cons rule (ordered_rules-Perm rules))
      (insert_rule-Perm rule (ordered_rules rules))

-- The rules that are evaluated are the given ones, each once; of two that follow each other the first
-- has the higher priority, or both have one priority and the first the smaller logical key, or both have
-- one priority and one logical key and the version of the first is not greater.
pub ordered_rules_lem :
    (rules : List Rule) → Perm rules (ordered_rules rules) × Ordered (ordered_rules rules)
ordered_rules_lem rules = (ordered_rules-Perm rules, ordered_rules-Ordered rules)
