-- ===== src/RuleService/Versions.antt =====
-- The version that `RuleService.create` of application/rule_service.py gives to a rule.
use andromeda_knowledge_core.Prelude.{
  ℕ, ◌+◌, ◌≤◌, ◌<◌, String, ◌≡◌, refl, sym, ap, ◌∙◌, true, none, List, [], ◌∷◌, inl, inr, In, any,
  str_eq, eq_iff, Bool-cases, arith,
}
use andromeda_knowledge_core.Prelude.Tables.{find}
use andromeda_knowledge_core.Errors.{ok, >>=-eq-ok, ok-injective}
use andromeda_knowledge_core.Dsl.Validate.{default_depth}
use andromeda_knowledge_core.Rules.Payload.{validate_rule_payload}
use andromeda_knowledge_core.Repository.{RuleRow, Core, given_text, given_number}
use andromeda_knowledge_core.Repository.Rules.{get_rule, create_rule, clashes}
use andromeda_knowledge_core.RuleService.{
  RuleData, payload_of, existing_rule, check_times, ontology_for, check_replaced,
  check_relationships, latest_version, new_rule, finish_create, insert_rule, create_new, create,
}
use andromeda_knowledge_core.RuleService.Sound.Create.{rules-finish_create}

latest_version-le :
    (key : String) (rows : List RuleRow) (b : RuleRow)
    → In b rows
    → b.rule.logical_key ≡ key
    → b.rule.version ≤ latest_version key rows
unfolding latest_version
latest_version-le key [] b m k = absurd m
latest_version-le key (row ∷ rows) b (inl c) k =
    let same : str_eq row.rule.logical_key key ≡ true =
      (eq_iff row.rule.logical_key key).1 (ap (λ (r : RuleRow). r.rule.logical_key) (sym c) ∙ k) in
    let version = ap (λ (r : RuleRow). r.rule.version) c in rw same (ground arith)
latest_version-le key (row ∷ rows) b (inr m) k =
    let rest = latest_version-le key rows b m k in
    elim (Bool-cases (str_eq row.rule.logical_key key)) [
      | inl e ↦ rw e (ground arith)
      | inr e ↦ rw e rest
    ]

get_rule-head :
    (core : Core) (id : String) (row : RuleRow) (rows : List RuleRow)
    → core.rules ≡ row ∷ rows
    → row.rule.id ≡ id
    → get_rule core id ≡ ok row
unfolding get_rule find
get_rule-head core id row rows e i = rw (e, get_rule, (eq_iff row.rule.id id).1 i) refl

insert_rule-new :
    (core : Core) (id : String) (data' : RuleData) (row : RuleRow) (actor : String)
    (result : Core × RuleRow)
    → row.rule.id ≡ id
    → existing_rule core data'.idempotency_key ≡ none
    → insert_rule core id data' row actor ≡ ok result
    → result.1 ≡ row
unfolding insert_rule create_rule
insert_rule-new core id data' row actor result i absent h =
    elim (Bool-cases (any (clashes row) core.rules)) [
      | inl e ↦ let no = rw (e, absent, insert_rule) at h in cc
      | inr e ↦
          let stored : Core = record core { rules = row ∷ core.rules } in
          let written = finish_create id data' row actor stored in
          let (kept, found, last) = >>=-eq-ok (get_rule written id) _ (rw (e, insert_rule) at h) in
          let head =
            get_rule-head written id row core.rules (rules-finish_create id data' row actor stored)
              i in
          sym (ap (λ (r : Core × RuleRow). r.1) (ok-injective last))
          ∙ ok-injective (sym found ∙ head)
    ]

-- A rule that is proposed without a version and without an idempotency key gets a version above that of
-- each stored rule with its logical key.
pub create_newest :
    (core : Core) (id : String) (data' : RuleData) (actor : String) (now : ℕ)
    (result : Core × RuleRow) (b : RuleRow)
    → data'.version ≡ none
    → given_text data'.idempotency_key ≡ none
    → create core id data' actor now ≡ ok result
    → In b core.rules
    → b.rule.logical_key ≡ data'.logical_key
    → b.rule.version < result.1.rule.version
unfolding create existing_rule create_new new_rule given_number
create_newest core id data' actor now result b unversioned unkeyed h m k =
    let absent : existing_rule core data'.idempotency_key ≡ none =
      rw (unkeyed, existing_rule) refl in
    let h0 = rw (absent, create) at h in
    let (window, _, h1) = >>=-eq-ok (check_times data') _ h0 in
    let (ontology, _, h2) = >>=-eq-ok (ontology_for core data'.ontology_version_id) _ h1 in
    let (replaced, _, h3) = >>=-eq-ok (check_replaced core data'.replaces_rule_id) _ h2 in
    let (related, _, h4) = >>=-eq-ok (check_relationships core data'.relationships) _ h3 in
    let version = given_number data'.version (latest_version data'.logical_key core.rules + 1) in
    let payload =
      payload_of data'.logical_key ontology.id data'.conditions data'.effects data'.exceptions in
    let (report, _, h5) = >>=-eq-ok (validate_rule_payload default_depth payload) _ h4 in
    let row = new_rule id data' ontology.id version report now in
    let new = insert_rule-new core id data' row actor result refl absent h5 in
    let is_new : result.1.rule.version
        ≡ given_number data'.version (latest_version data'.logical_key core.rules + 1) =
      ap (λ (r : RuleRow). r.rule.version) new in
    let counted : given_number data'.version (latest_version data'.logical_key core.rules + 1)
        ≡ latest_version data'.logical_key core.rules + 1 =
      ap (λ v. given_number v (latest_version data'.logical_key core.rules + 1)) unversioned in
    let bound = latest_version-le data'.logical_key core.rules b m k in
    rw (is_new ∙ counted) (omega arith)
