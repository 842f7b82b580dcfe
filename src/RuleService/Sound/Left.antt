-- ===== src/RuleService/Sound/Left.antt =====
-- What the replacement in `RuleService.activate` of application/rule_service.py leaves of the rules, and
-- what its other writes leave alone.
use andromeda_knowledge_core.Prelude.{
  ℕ, String, ◌≡◌, refl, sym, ap, subst, ◌∙◌, true, false, Option, none, some, List, [], ◌∷◌, inl,
  inr, In, any, str_eq, eq_iff, Bool-cases, Option-cases,
}
use andromeda_knowledge_core.Prelude.Tables.{update_where}
use andromeda_knowledge_core.Errors.{ok, >>=-eq-ok, ok-injective}
use andromeda_knowledge_core.Repository.{RuleRow, RuleRelation, Core, given_text}
use andromeda_knowledge_core.Repository.Reviews.{find_open_review}
use andromeda_knowledge_core.Repository.Rules.{
  has_id, get_rule, bumped, create_rule_relation, same_relation,
}
use andromeda_knowledge_core.RuleService.Activate.{
  is_id, add_conflicts, block, set_superseded, supersede, add_change,
}
use andromeda_knowledge_core.RuleService.Sound.{
  is_effective, Sound, From, From-update, effective-update, update_rule-eq-ok,
}

pub rules-create_rule_relation :
    (new : RuleRelation) (core : Core) → (create_rule_relation new core).rules ≡ core.rules
unfolding create_rule_relation
rules-create_rule_relation new core = elim (Bool-cases (any (same_relation new) core.relations)) [
  | inl e ↦ rw (e, create_rule_relation) refl
  | inr e ↦ rw (e, create_rule_relation) refl
]

pub rules-add_conflicts :
    (row : RuleRow) (items : List RuleRow) (core : Core)
    → (add_conflicts row items core).rules ≡ core.rules
unfolding add_conflicts
rules-add_conflicts row [] core = refl
rules-add_conflicts row (item ∷ items) core =
    rules-add_conflicts row items _ ∙ rules-create_rule_relation _ core

pub rules-block :
    (core : Core) (row : RuleRow) (conflicts : List RuleRow) (review_id : String)
    → (block core row conflicts review_id).0.rules ≡ core.rules
unfolding block
rules-block core row conflicts review_id =
    elim (Option-cases (find_open_review core "rule" row.rule.id "RULE_CONFLICT")) [
      | inl e ↦ rw (e, block) (rules-add_conflicts row conflicts _)
      | inr (review, e) ↦ rw (e, block) (rules-add_conflicts row conflicts core)
    ]

pub rules-add_change :
    (row now_active : RuleRow) (core : Core) → (add_change row now_active core).rules ≡ core.rules
unfolding add_change
rules-add_change row now_active core = elim (Option-cases (given_text row.replaces_rule_id)) [
  | inl e ↦ rw (e, add_change) refl
  | inr (replaced, e) ↦ rw (e, add_change) refl
]

pub is_id-none :
    (o : Option String) (id : String)
    → given_text o ≡ none
    → str_eq "" id ≡ false
    → is_id o id ≡ false
unfolding given_text is_id
is_id-none none id e n = refl
is_id-none (some String.[]) id e n = n
is_id-none (some (String.◌∷◌ c s)) id e n = cc

pub is_id-some :
    (o : Option String) (given id : String)
    → given_text o ≡ some given
    → is_id o id ≡ str_eq given id
unfolding given_text is_id
is_id-some none given id e = cc
is_id-some (some String.[]) given id e = cc
is_id-some (some (String.◌∷◌ c s)) given id e = cc

pub str_eq_flip : (s t : String) → str_eq s t ≡ false → str_eq t s ≡ false
str_eq_flip s t h = elim (Bool-cases (str_eq t s)) [
  | inl e ↦ let no = (eq_iff s t).1 (sym ((eq_iff t s).0 e)) in cc
  | inr e ↦ e
]

pub superseded_off : (now : ℕ) (r : RuleRow) → is_effective (bumped (set_superseded now) r) ≡ false
unfolding is_effective
superseded_off now r = refl

-- What the replacement leaves: rows that come from the earlier ones, those that are still active
-- unchanged and not replaced.
pub record Left (row : RuleRow) (rows : List RuleRow) (lefts : List RuleRow) : Type 0 where
  pub from : (a : RuleRow) → In a lefts → From rows a
  pub active :
      (a : RuleRow)
      → In a lefts
      → is_effective a ≡ true
      → In a rows × (is_id row.replaces_rule_id a.rule.id ≡ false)

pub supersede-Left :
    (core : Core) (row : RuleRow) (now : ℕ) (left : Core)
    → Sound core.rules
    → supersede core row now ≡ ok left
    → Left row core.rules left.rules
unfolding supersede
supersede-Left core row now left s h = elim (Option-cases (given_text row.replaces_rule_id)) [
  | inl e ↦
      let same : core ≡ left = ok-injective (rw (e, supersede) at h) in
      rw (← same) (record {
        from = λ a m. record { old = a; stored = m; same_id = refl; same_key = refl };
        active = λ a m p. (m, is_id-none row.replaces_rule_id a.rule.id e (s.named a m));
      })
  | inr (replaced, e) ↦
      let (previous, found, later) =
        >>=-eq-ok (get_rule core replaced) _ (rw (e, supersede) at h) in
      let (updated, done, last) = >>=-eq-ok _ _ later in
      let (was, _, _, written) = update_rule-eq-ok _ replaced (set_superseded now) _ updated done in
      let rules : left.rules
          ≡ update_where (has_id replaced) (bumped (set_superseded now)) core.rules =
        ap (λ (c : Core). c.rules) (sym (ok-injective last))
        ∙ ap (λ (u : Core × RuleRow). u.0.rules) written
        ∙ ap (update_where (has_id replaced) (bumped (set_superseded now)))
            (rules-create_rule_relation _ core) in
      subst (Left row core.rules) (sym rules) (record {
        from = From-update replaced (set_superseded now) core.rules (λ r. refl) (λ r. refl);
        active = λ a m p.
            let (k, apart) =
              effective-update replaced (set_superseded now) core.rules (superseded_off now) a m
                p in
            (
              k,
              is_id-some row.replaces_rule_id replaced a.rule.id e
                  ∙ str_eq_flip a.rule.id replaced apart,
            );
      })
]
