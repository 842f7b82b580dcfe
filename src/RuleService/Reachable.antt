-- ===== src/RuleService/Reachable.antt =====
-- The rules that the operations of application/rule_service.py lead to, in any order.
use andromeda_knowledge_core.Prelude.{
  ℕ, String, ◌≡◌, sym, subst, true, false, Option, none, [], In, str_eq,
}
use andromeda_knowledge_core.Prelude.Tables.{find}
use andromeda_knowledge_core.Errors.{ok}
use andromeda_knowledge_core.Repository.{RuleRow, Core}
use andromeda_knowledge_core.Repository.Rules.{has_id}
use andromeda_knowledge_core.RuleService.{RuleData, create, validate}
use andromeda_knowledge_core.RuleService.Activate.{Activation, activate}
use andromeda_knowledge_core.RuleService.Sound.{is_effective, Sound}
use andromeda_knowledge_core.RuleService.Sound.Activate.{activate-Sound}
use andromeda_knowledge_core.RuleService.Sound.Create.{create-Sound, validate-Sound}

-- A call that commits; a new rule has an id that no other has. The other services leave the rules.
pub data Step : Core → Core → Type 0 where
  created :
      (core : Core) (id : String) (data' : RuleData) (actor : String) (now : ℕ)
      (result : Core × RuleRow)
      → find (has_id id) core.rules ≡ none
      → str_eq "" id ≡ false
      → create core id data' actor now ≡ ok result
      → Step core result.0
  validated :
      (core : Core) (id actor : String) (result : Core × RuleRow)
      → validate core id actor ≡ ok result
      → Step core result.0
  decided :
      (core : Core) (id review_id actor : String) (expected : Option ℕ) (now : ℕ)
      (result : Core × Activation)
      → activate core id review_id actor expected now ≡ ok result
      → Step core result.0
  elsewhere : (core next : Core) → next.rules ≡ core.rules → Step core next

pub data Reachable (start : Core) : Core → Type 0 where
  here : Reachable start start
  after : {core next : Core} → Reachable start core → Step core next → Reachable start next

Step-Sound : {core next : Core} → Step core next → Sound core.rules → Sound next.rules
Step-Sound (created core id data' actor now result fresh filled h) s =
    create-Sound core id data' actor now result s fresh filled h
Step-Sound (validated core id actor result h) s = validate-Sound core id actor result s h
Step-Sound (decided core id review_id actor expected now result h) s =
    activate-Sound core id review_id actor expected now result s h
Step-Sound (elsewhere core next same) s = subst Sound (sym same) s

Reachable-Sound : {start core : Core} → Sound start.rules → Reachable start core → Sound core.rules
Reachable-Sound s here = s
Reachable-Sound s (after path step) = Step-Sound step (Reachable-Sound s path)

nothing-Sound : Sound []
nothing-Sound = record {
  one_active = λ a b m n p q k. absurd m;
  keyed = λ a b m n i. absurd m;
  named = λ a m. absurd m;
}

-- Whatever calls of `create`, `validate` and `activate` commit, in any order and with any arguments,
-- starting from no rules: two rules that are both active, and whose transaction time is open, with the
-- same logical key are the same rule. A new rule gets an id that is not empty and that no rule has.
pub one_active_version :
    (start core : Core) (a b : RuleRow)
    → start.rules ≡ []
    → Reachable start core
    → In a core.rules
    → In b core.rules
    → is_effective a ≡ true
    → is_effective b ≡ true
    → a.rule.logical_key ≡ b.rule.logical_key
    → a.rule.id ≡ b.rule.id
one_active_version start core a b none_yet path =
    (Reachable-Sound (subst Sound (sym none_yet) nothing-Sound) path).one_active a b
