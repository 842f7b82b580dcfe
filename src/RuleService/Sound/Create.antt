-- ===== src/RuleService/Sound/Create.antt =====
-- What `RuleService.create` and `validate` of application/rule_service.py do to the rows of the rules.
use andromeda_knowledge_core.Prelude.{
  ℕ, String, ◌≡◌, refl, sym, ap, subst, ◌∙◌, false, Option, none, some, List, [], ◌∷◌, inl, inr, In,
  any, str_eq, eq_iff, Bool-cases, Option-cases, ◌+◌,
}
use andromeda_knowledge_core.Prelude.Tables.{find, find-eq-none, update_where}
use andromeda_knowledge_core.Errors.{ok, >>=-eq-ok, ok-injective}
use andromeda_knowledge_core.Dsl.Validate.{default_depth}
use andromeda_knowledge_core.Rules.Payload.{RuleProblem, validate_rule_payload}
use andromeda_knowledge_core.Repository.{RuleRow, Core, given_text, given_number}
use andromeda_knowledge_core.Repository.Rules.{
  has_id, get_rule, bumped, update_rule, create_rule, clashes,
}
use andromeda_knowledge_core.RuleService.{
  RuleData, payload_of, rule_payload, existing_rule, check_times, ontology_for, check_replaced,
  check_relationships, latest_version, new_rule, add_relationships, add_replaces, finish_create,
  insert_rule, create_new, create, validated_status, set_validated, validate,
}
use andromeda_knowledge_core.RuleService.Sound.{
  is_effective, Sound, Sound-From, From-update, effective-update, update_rule-eq-ok,
}
use andromeda_knowledge_core.RuleService.Sound.Left.{rules-create_rule_relation}

-- A new row that is not active, with a new id
Sound-cons :
    (new : RuleRow) (rows : List RuleRow)
    → Sound rows
    → is_effective new ≡ false
    → find (has_id new.rule.id) rows ≡ none
    → str_eq "" new.rule.id ≡ false
    → Sound (new ∷ rows)
Sound-cons new rows s off fresh filled = record {
  one_active = λ a b m n p q k. elim m [
    | inl c ↦ let no = ap is_effective c ∙ off in cc
    | inr m' ↦ elim n [
      | inl c ↦ let no = ap is_effective c ∙ off in cc
      | inr n' ↦ s.one_active a b m' n' p q k
    ]
  ];
  keyed = λ a b m n i. elim m [
    | inl c ↦ elim n [
      | inl d ↦ ap (λ (r : RuleRow). r.rule.logical_key) (c ∙ sym d)
      | inr n' ↦ absurd (apart b n' (sym i ∙ ap (λ (r : RuleRow). r.rule.id) c))
    ]
    | inr m' ↦ elim n [
      | inl d ↦ absurd (apart a m' (i ∙ ap (λ (r : RuleRow). r.rule.id) d))
      | inr n' ↦ s.keyed a b m' n' i
    ]
  ];
  named = λ a m. elim m [
    | inl c ↦ ap (λ (r : RuleRow). str_eq "" r.rule.id) c ∙ filled
    | inr m' ↦ s.named a m'
  ];
}
  where
    apart : (b : RuleRow) → In b rows → b.rule.id ≡ new.rule.id → ⊥
    apart b n same =
        let missing = find-eq-none (has_id new.rule.id) rows b fresh n in
        let found = (eq_iff b.rule.id new.rule.id).1 same in cc

rules-add_relationships :
    (id : String) (relationships : List (String × String)) (core : Core)
    → (add_relationships id relationships core).rules ≡ core.rules
unfolding add_relationships
rules-add_relationships id [] core = refl
rules-add_relationships id ((relation_type, target) ∷ relationships) core =
    rules-add_relationships id relationships _ ∙ rules-create_rule_relation _ core

rules-add_replaces :
    (id : String) (replaced : Option String) (core : Core)
    → (add_replaces id replaced core).rules ≡ core.rules
unfolding add_replaces
rules-add_replaces id none core = refl
rules-add_replaces id (some replaced) core = rules-create_rule_relation _ core

pub rules-finish_create :
    (id : String) (data' : RuleData) (row : RuleRow) (actor : String) (core : Core)
    → (finish_create id data' row actor core).rules ≡ core.rules
unfolding finish_create
rules-finish_create id data' row actor core =
    rules-add_relationships id data'.relationships _
    ∙ rules-add_replaces id (given_text data'.replaces_rule_id) _

insert_rule-Sound :
    (core : Core) (id : String) (data' : RuleData) (row : RuleRow) (actor : String)
    (result : Core × RuleRow)
    → Sound core.rules
    → Sound (row ∷ core.rules)
    → insert_rule core id data' row actor ≡ ok result
    → Sound result.0.rules
unfolding insert_rule create_rule
insert_rule-Sound core id data' row actor result s s' h =
    elim (Bool-cases (any (clashes row) core.rules)) [
      | inr e ↦
          let written =
            finish_create id data' row actor (record core { rules = row ∷ core.rules }) in
          let (kept, _, last) = >>=-eq-ok (get_rule written id) _ (rw (e, insert_rule) at h) in
          subst Sound
            (sym (rules-finish_create id data' row actor _)
              ∙ ap (λ (r : Core × RuleRow). r.0.rules) (ok-injective last))
            s'
      | inl e ↦ elim (Option-cases (existing_rule core data'.idempotency_key)) [
        | inl d ↦ let no = rw (e, d, insert_rule) at h in cc
        | inr (existing, d) ↦
            let (kept, _, last) =
              >>=-eq-ok (get_rule core existing.rule.id) _ (rw (e, d, insert_rule) at h) in
            subst Sound (ap (λ (r : Core × RuleRow). r.0.rules) (ok-injective last)) s
      ]
    ]

draft_off :
    (id : String) (data' : RuleData) (ontology_id : String) (version : ℕ)
    (report : List RuleProblem) (now : ℕ)
    → is_effective (new_rule id data' ontology_id version report now) ≡ false
unfolding is_effective new_rule
draft_off id data' ontology_id version report now = refl

create_new-Sound :
    (core : Core) (id : String) (data' : RuleData) (actor : String) (now : ℕ)
    (result : Core × RuleRow)
    → Sound core.rules
    → find (has_id id) core.rules ≡ none
    → str_eq "" id ≡ false
    → create_new core id data' actor now ≡ ok result
    → Sound result.0.rules
unfolding create_new new_rule
create_new-Sound core id data' actor now result s fresh filled h =
    let (window, _, h1) = >>=-eq-ok (check_times data') _ h in
    let (ontology, _, h2) = >>=-eq-ok (ontology_for core data'.ontology_version_id) _ h1 in
    let (replaced, _, h3) = >>=-eq-ok (check_replaced core data'.replaces_rule_id) _ h2 in
    let (related, _, h4) = >>=-eq-ok (check_relationships core data'.relationships) _ h3 in
    let version = given_number data'.version (latest_version data'.logical_key core.rules + 1) in
    let payload =
      payload_of data'.logical_key ontology.id data'.conditions data'.effects data'.exceptions in
    let (report, _, h5) = >>=-eq-ok (validate_rule_payload default_depth payload) _ h4 in
    let row = new_rule id data' ontology.id version report now in
    insert_rule-Sound core id data' row actor result s
      (Sound-cons row core.rules s (draft_off id data' ontology.id version report now) fresh filled)
      h5

-- A proposed version is a draft, and changes no active one.
pub create-Sound :
    (core : Core) (id : String) (data' : RuleData) (actor : String) (now : ℕ)
    (result : Core × RuleRow)
    → Sound core.rules
    → find (has_id id) core.rules ≡ none
    → str_eq "" id ≡ false
    → create core id data' actor now ≡ ok result
    → Sound result.0.rules
unfolding create
create-Sound core id data' actor now result s fresh filled h =
    elim (Option-cases (existing_rule core data'.idempotency_key)) [
      | inl e ↦ create_new-Sound core id data' actor now result s fresh filled (rw (e, create) at h)
      | inr (existing, e) ↦
          let (kept, _, last) =
            >>=-eq-ok (get_rule core existing.rule.id) _ (rw (e, create) at h) in
          subst Sound (ap (λ (r : Core × RuleRow). r.0.rules) (ok-injective last)) s
    ]

validated_off :
    (report : List RuleProblem) (r : RuleRow)
    → is_effective (bumped (set_validated report) r) ≡ false
unfolding is_effective validated_status
validated_off [] r = refl
validated_off (problem ∷ problems) r = refl

-- A validation makes no rule active.
pub validate-Sound :
    (core : Core) (id actor : String) (result : Core × RuleRow)
    → Sound core.rules
    → validate core id actor ≡ ok result
    → Sound result.0.rules
unfolding validate
validate-Sound core id actor result s h =
    let (row, found, h1) = >>=-eq-ok (get_rule core id) _ h in
    let (report, _, h2) = >>=-eq-ok (validate_rule_payload default_depth (rule_payload row)) _ h1 in
    let (updated, done, last) =
      >>=-eq-ok (update_rule core id (set_validated report) (some row.row_version)) _ h2 in
    let (was, _, _, written) = update_rule-eq-ok core id (set_validated report) _ updated done in
    let rules : result.0.rules
        ≡ update_where (has_id id) (bumped (set_validated report)) core.rules =
      ap (λ (r : Core × RuleRow). r.0.rules) (sym (ok-injective last))
      ∙ ap (λ (u : Core × RuleRow). u.0.rules) written in
    subst Sound (sym rules) (
      Sound-From core.rules _ s
        (From-update id (set_validated report) core.rules (λ r. refl) (λ r. refl))
        λ a m p.
          let (k, apart) =
            effective-update id (set_validated report) core.rules (validated_off report) a m p in
          (a, k, p, refl, refl))
