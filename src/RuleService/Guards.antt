-- ===== src/RuleService/Guards.antt =====
-- What `RuleService.activate` of application/rule_service.py has made sure of when it returns.
use andromeda_knowledge_core.Prelude.{
  ap, ◌≢◌, Bool, List, any, any-of-In, ℕ, String, ◌≡◌, true, false, Option, none, some, ◌⊎◌, inl,
  inr, In, str_eq, Bool-cases, arith, eq_iff,
}
use andromeda_knowledge_core.Errors.{ok, >>=-eq-ok}
use andromeda_knowledge_core.Rules.{effect_conflicts}
use andromeda_knowledge_core.DependencyService.{Report}
use andromeda_knowledge_core.Repository.{RuleRow, Core}
use andromeda_knowledge_core.Repository.Rules.{get_rule, active_rules}
use andromeda_knowledge_core.RuleService.Activate.{
  is_id, is_other, same_key_active, is_rival, activated, check_ready, activate,
}
use andromeda_knowledge_core.RuleService.Decided.{
  IsReady, check_ready-IsReady, conflicting-nil, Passed, decide-Passed,
}

-- the rule itself, or the one that it replaces
abbrev pub IsOwn : RuleRow → RuleRow → Type 0
IsOwn row item = (item.rule.id ≡ row.rule.id) ⊎ (row.replaces_rule_id ≡ some item.rule.id)

-- no active rule stands against the activation
pub record IsUncontested (core : Core) (row : RuleRow) : Type 0 where
  pub alone :
      (item : RuleRow)
      → In item (active_rules core none none)
      → item.rule.logical_key ≡ row.rule.logical_key
      → IsOwn row item
  pub no_conflict :
      (item : RuleRow)
      → In item (active_rules core none none)
      → item.rule.logical_key ≢ row.rule.logical_key
      → IsOwn row item ⊎ (effect_conflicts row.rule item.rule ≡ ok false)

is_id-eq : (given : Option String) (id : String) → is_id given id ≡ true → given ≡ some id
unfolding is_id
is_id-eq none id h = cc
is_id-eq (some text) id h = ap some ((eq_iff text id).0 h)

is_other-IsOwn : (row item : RuleRow) → is_other row item ≡ false → IsOwn row item
unfolding is_other
is_other-IsOwn row item h = elim (Bool-cases (str_eq item.rule.id row.rule.id)) [
  | inl e ↦ inl ((eq_iff item.rule.id row.rule.id).0 e)
  | inr e ↦ inr (is_id-eq row.replaces_rule_id item.rule.id (ground arith))
]

key_differs :
    (item row : RuleRow)
    → item.rule.logical_key ≢ row.rule.logical_key
    → str_eq item.rule.logical_key row.rule.logical_key ≡ false
key_differs item row differs =
    elim (Bool-cases (str_eq item.rule.logical_key row.rule.logical_key)) [
      | inl e ↦ absurd (differs ((eq_iff item.rule.logical_key row.rule.logical_key).0 e))
      | inr e ↦ e
    ]

any-false :
    {A : Type 0} (test : A → Bool) (rows : List A)
    → any test rows ≡ false
    → (row : A) → In row rows
    → test row ≡ false
any-false test rows none_passes row m = elim (Bool-cases (test row)) [
  | inl e ↦ let some_passes = any-of-In test row rows m e in cc
  | inr e ↦ e
]

module _ (core next : Core) (id review_id actor : String) (expected : Option ℕ) (now : ℕ)
    (now_active : RuleRow) (report : Report) where
  activate-decided :
      activate core id review_id actor expected now ≡ ok (next, activated now_active report)
      → (row : RuleRow) × (get_rule core id ≡ ok row)
        × IsReady core row
        × Passed core row actor expected now (next, activated now_active report)
  unfolding activate
  activate-decided h =
      let (row, found, h1) = >>=-eq-ok (get_rule core id) _ h in
      let (ready, checked, h2) = >>=-eq-ok (check_ready core row) _ h1 in
      (
        row,
        found,
        check_ready-IsReady core row ready checked,
        decide-Passed core next row now_active report review_id actor expected now h2,
      )

  -- An activation that returns a rule has found it stored, valid, with provenance, and with tests that
  -- all passed, at least one, whatever rules are active; no other active rule than the one that it
  -- replaces has its logical key, and no active rule of another logical key, the replaced one apart, has
  -- effects that conflict with its own.
  pub activate_guards :
      activate core id review_id actor expected now ≡ ok (next, activated now_active report)
      → (row : RuleRow) × (get_rule core id ≡ ok row) × IsReady core row × IsUncontested core row
  activate_guards h =
      let (row, found, ready, passed) = activate-decided h in
      (
        row,
        found,
        ready,
        record {
          alone = λ item m same.
              let off =
                any-false (same_key_active row) (active_rules core none none) passed.none_active
                  item m in
              let key = (eq_iff item.rule.logical_key row.rule.logical_key).1 same in
              is_other-IsOwn row item (unfold same_key_active in ground arith);
          no_conflict = λ item m differs. elim (Bool-cases (is_rival row item)) [
            | inl e ↦
                inr (conflicting-nil row (active_rules core none none) item passed.no_conflicts m e)
            | inr e ↦
                let key = key_differs item row differs in
                inl (is_other-IsOwn row item (unfold is_rival in ground arith))
          ];
        },
      )
