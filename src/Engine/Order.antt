-- ===== src/Engine/Order.antt =====
-- `_ordered_rules` of domain/engine.py: a stable sort by descending priority, then logical key, then
-- version.
use Prim.Native.Nat.{Ordering}
use andromeda_knowledge_core.Prelude.{Bool, true, false, List, [], ◌∷◌, ltb, if◌then◌else◌}
use andromeda_knowledge_core.Prelude.Int.{ltb_ℤ, eqb_ℤ}
use andromeda_knowledge_core.Json.Compare.{compare_text}
use andromeda_knowledge_core.Rules.{Rule}

-- The key of the first rule is less than that of the second.
unfoldable pub comes_before : Rule → Rule → Bool
comes_before a b =
    if eqb_ℤ a.priority b.priority
    then (elim (compare_text a.logical_key b.logical_key) [
      | Ordering.lt ↦ true
      | Ordering.gt ↦ false
      | Ordering.eq ↦ ltb a.version b.version
    ])
    else ltb_ℤ b.priority a.priority

-- put a rule before the first one that it does not come after
unfoldable pub insert_rule : Rule → List Rule → List Rule
insert_rule rule [] = rule ∷ []
insert_rule rule (r ∷ rules) =
    let rest = insert_rule rule rules in if comes_before r rule then r ∷ rest else rule ∷ r ∷ rules

unfoldable pub ordered_rules : List Rule → List Rule
ordered_rules [] = []
ordered_rules (rule ∷ rules) = insert_rule rule (ordered_rules rules)
