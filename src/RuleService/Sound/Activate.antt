-- ===== src/RuleService/Sound/Activate.antt =====
-- What `RuleService.activate` of application/rule_service.py does to the rows of the rules.
use andromeda_knowledge_core.Prelude.{
  ℕ, String, ◌≡◌, refl, sym, ap, subst, ◌∙◌, true, false, Option, none, some, List, ◌⊎◌, inl, inr,
  In, In-keep, any, any-of-In, str_eq, eq_iff, arith, Bool-cases, Option-cases,
}
use andromeda_knowledge_core.Prelude.Tables.{find, find-In, update_where, In-update_where}
use andromeda_knowledge_core.Errors.{ok, >>=-eq-ok, ok-injective}
use andromeda_knowledge_core.DependencyService.{invalidate}
use andromeda_knowledge_core.Dsl.Validate.{is_empty}
use andromeda_knowledge_core.Repository.{RuleRow, Core, given_number}
use andromeda_knowledge_core.Repository.Rules.{
  has_id, get_rule, bumped, update_rule, active_rules, status_counts, in_force, known,
}
use andromeda_knowledge_core.RuleService.{set_status}
use andromeda_knowledge_core.RuleService.Activate.{
  is_id, is_other, same_key_active, conflicting, Activation, supersede, changed_node,
  invalidation_reason, make_active, check_ready, decide, activate,
}
use andromeda_knowledge_core.RuleService.Sound.{
  is_effective, Sound, From, From-update, update_rule-eq-ok,
}
use andromeda_knowledge_core.RuleService.Sound.Left.{
  rules-block, rules-add_change, Left, supersede-Left,
}

-- An active rule that is no other version of the key, nor replaced, is no other rule.
same_key_active-found :
    (core : Core) (row a : RuleRow)
    → any (same_key_active row) (active_rules core none none) ≡ false
    → In a core.rules
    → is_effective a ≡ true
    → is_id row.replaces_rule_id a.rule.id ≡ false
    → a.rule.logical_key ≡ row.rule.logical_key
    → str_eq a.rule.id row.rule.id ≡ true
unfolding active_rules same_key_active is_other is_effective status_counts in_force known
same_key_active-found core row a none_active m p apart same =
    elim (Bool-cases (str_eq a.rule.id row.rule.id)) [
      | inl e ↦ e
      | inr e ↦
          let keys : str_eq a.rule.logical_key row.rule.logical_key ≡ true = (eq_iff _ _).1 same in
          let clash : same_key_active row a ≡ true = ground arith in
          let listed : In a (active_rules core none none) =
            (In-keep _ a core.rules).1 (m, ground arith) in
          let found = any-of-In (same_key_active row) a _ listed clash in cc
    ]

-- The activated row is the only one that is active for its key.
activated-Sound :
    (core : Core) (row : RuleRow) (lefts : List RuleRow)
    → Sound core.rules
    → In row core.rules
    → any (same_key_active row) (active_rules core none none) ≡ false
    → Left row core.rules lefts
    → Sound (update_where (has_id row.rule.id) (bumped (set_status "ACTIVE")) lefts)
activated-Sound core row lefts s m none_active left = record {
  one_active = λ a b ma mb pa pb k. only a b ma mb pa pb k;
  keyed = λ a b ma mb i.
      let f = origin a ma in
      let g = origin b mb in
      f.same_key
      ∙ s.keyed f.old g.old f.stored g.stored (sym f.same_id ∙ i ∙ g.same_id)
      ∙ sym g.same_key;
  named = λ a ma. let f = origin a ma in ap (str_eq "") f.same_id ∙ s.named f.old f.stored;
}
  where
    now : List RuleRow
    now = update_where (has_id row.rule.id) (bumped (set_status "ACTIVE")) lefts

    origin : (a : RuleRow) → In a now → From core.rules a
    origin a ma =
        let f = From-update row.rule.id (set_status "ACTIVE") lefts (λ r. refl) (λ r. refl) a ma in
        let g = left.from f.old f.stored in
        record {
          old = g.old;
          stored = g.stored;
          same_id = f.same_id ∙ g.same_id;
          same_key = f.same_key ∙ g.same_key;
        }

    -- an active row has the id of the rule or another key
    settled :
        (a : RuleRow)
        → In a now
        → is_effective a ≡ true
        → (a.rule.id ≡ row.rule.id)
          ⊎ (In a core.rules × (is_id row.replaces_rule_id a.rule.id ≡ false))
    settled a ma pa =
        elim (In-update_where (has_id row.rule.id) (bumped (set_status "ACTIVE")) lefts a ma) [
          | inl (old, k, t, c) ↦
              inl (ap (λ (r : RuleRow). r.rule.id) c ∙ (eq_iff old.rule.id row.rule.id).0 t)
          | inr (k, t) ↦ inr (left.active a k pa)
        ]

    key_of :
        (a : RuleRow)
        → In a now
        → a.rule.id ≡ row.rule.id
        → a.rule.logical_key ≡ row.rule.logical_key
    key_of a ma i =
        let f = origin a ma in f.same_key ∙ s.keyed f.old row f.stored m (sym f.same_id ∙ i)

    meets :
        (a : RuleRow)
        → In a core.rules
        → is_effective a ≡ true
        → is_id row.replaces_rule_id a.rule.id ≡ false
        → a.rule.logical_key ≡ row.rule.logical_key
        → a.rule.id ≡ row.rule.id
    meets a k pa apart same =
        (eq_iff a.rule.id row.rule.id).0
          (same_key_active-found core row a none_active k pa apart same)

    only :
        (a b : RuleRow)
        → In a now
        → In b now
        → is_effective a ≡ true
        → is_effective b ≡ true
        → a.rule.logical_key ≡ b.rule.logical_key
        → a.rule.id ≡ b.rule.id
    only a b ma mb pa pb k = elim (settled a ma pa) [
      | inl ia ↦ elim (settled b mb pb) [
        | inl ib ↦ ia ∙ sym ib
        | inr (kb, apart) ↦ ia ∙ sym (meets b kb pb apart (sym k ∙ key_of a ma ia))
      ]
      | inr (ka, apart) ↦ elim (settled b mb pb) [
        | inl ib ↦ meets a ka pa apart (k ∙ key_of b mb ib) ∙ sym ib
        | inr (kb, other) ↦ s.one_active a b ka kb pa pb k
      ]
    ]

pub get_rule-In :
    (core : Core) (id : String) (row : RuleRow) → get_rule core id ≡ ok row → In row core.rules
unfolding get_rule
get_rule-In core id row h = elim (Option-cases (find (has_id id) core.rules)) [
  | inl e ↦ let h' = rw e at h in cc
  | inr (r, e) ↦
      let h' : ok r ≡ ok row = rw e at h in
      rw (← ok-injective h') (find-In (has_id id) core.rules r e).0
]

pub make_active-Sound :
    (core : Core) (row : RuleRow) (actor : String) (expected : Option ℕ) (now : ℕ)
    (result : Core × Activation)
    → Sound core.rules
    → In row core.rules
    → any (same_key_active row) (active_rules core none none) ≡ false
    → make_active core row actor expected now ≡ ok result
    → Sound result.0.rules
unfolding make_active
make_active-Sound core row actor expected now result s m none_active h =
    let (left, superseded, later) = >>=-eq-ok (supersede core row now) _ h in
    let (updated, done, last) =
      >>=-eq-ok
        (update_rule left row.rule.id (set_status "ACTIVE")
          (some (given_number expected row.row_version)))
        _ later in
    let (invalidated, _, returned) =
      >>=-eq-ok (invalidate updated.0.derivations (changed_node row) (invalidation_reason row)) _
        last in
    let (was, _, _, written) =
      update_rule-eq-ok left row.rule.id (set_status "ACTIVE") _ updated done in
    let rules : result.0.rules
        ≡ update_where (has_id row.rule.id) (bumped (set_status "ACTIVE")) left.rules =
      ap (λ (r : Core × Activation). r.0.rules) (sym (ok-injective returned))
      ∙ rules-add_change row updated.1 _
      ∙ ap (λ (u : Core × RuleRow). u.0.rules) written in
    subst Sound (sym rules) (
      activated-Sound core row left.rules s m none_active
        (supersede-Left core row now left s superseded))

-- An activation, blocked or not, keeps one active version for each logical key.
pub activate-Sound :
    (core : Core) (id review_id actor : String) (expected : Option ℕ) (now : ℕ)
    (result : Core × Activation)
    → Sound core.rules
    → activate core id review_id actor expected now ≡ ok result
    → Sound result.0.rules
unfolding activate decide
activate-Sound core id review_id actor expected now result s h =
    let (row, found, later) = >>=-eq-ok (get_rule core id) _ h in
    let (ready, _, decided) = >>=-eq-ok (check_ready core row) _ later in
    elim (Bool-cases (any (same_key_active row) (active_rules core none none))) [
      | inl e ↦ let no = rw (e, decide) at decided in cc
      | inr e ↦
          let (conflicts, _, last) =
            >>=-eq-ok (conflicting row (active_rules core none none)) _
              (rw (e, decide) at decided) in
          elim (Bool-cases (is_empty conflicts)) [
            | inl f ↦
                make_active-Sound core row actor expected now result s
                  (get_rule-In core id row found) e (rw f at last)
            | inr f ↦
                let same = ok-injective (rw f at last) in
                subst Sound
                  (sym (rules-block core row conflicts review_id)
                    ∙ ap (λ (r : Core × Activation). r.0.rules) same)
                  s
          ]
    ]
