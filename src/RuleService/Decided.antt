-- ===== src/RuleService/Decided.antt =====
-- The way of an activation that is not blocked through `RuleService.activate` of
-- application/rule_service.py.
use andromeda_knowledge_core.Prelude.{
  ℕ, String, ◌≡◌, refl, sym, ap, subst, ◌∙◌, Bool, true, false, Option, none, some, List, [], ◌∷◌,
  inl, inr, In, any, Bool-cases, Option-cases, all-In, map,
}
use andromeda_knowledge_core.Prelude.Tables.{find, find-In, update_where, update_where-In}
use andromeda_knowledge_core.Errors.{ok, >>=-eq-ok, ok-injective}
use andromeda_knowledge_core.Dsl.Validate.{default_depth, is_empty}
use andromeda_knowledge_core.Rules.{effect_conflicts}
use andromeda_knowledge_core.Rules.Payload.{validate_rule_payload}
use andromeda_knowledge_core.DependencyService.{Report, invalidate}
use andromeda_knowledge_core.Repository.{RuleRow, RuleTest, Core, given_text, given_number}
use andromeda_knowledge_core.Repository.Rules.{
  has_id, get_rule, bumped, update_rule, active_rules, list_rule_tests,
}
use andromeda_knowledge_core.Repository.Reviews.{find_open_review}
use andromeda_knowledge_core.RuleService.{rule_payload, set_status}
use andromeda_knowledge_core.RuleService.Activate.{
  tests_passed, has_passed, id_of, is_rival, same_key_active, conflicting, Activation, activated,
  block, blocked, supersede, changed_node, invalidation_reason, make_active, check_ready, decide,
}
use andromeda_knowledge_core.RuleService.Sound.{update_rule-eq-ok}
use andromeda_knowledge_core.RuleService.Sound.Left.{rules-add_change}

-- a rule that may be made active
pub record IsReady (core : Core) (row : RuleRow) : Type 0 where
  pub valid : validate_rule_payload default_depth (rule_payload row) ≡ ok []
  pub provenance : String
  pub has_provenance : given_text row.provenance_id ≡ some provenance
  pub test : RuleTest
  pub has_test : In test (list_rule_tests core row.rule.id)
  pub all_passed :
      (other : RuleTest) → In other (list_rule_tests core row.rule.id) → other.passed ≡ some true

pub is_empty-eq-true : {A : Type 0} (xs : List A) → is_empty xs ≡ true → xs ≡ []
unfolding is_empty
is_empty-eq-true [] h = refl
is_empty-eq-true (x ∷ xs) h = cc

has_passed-eq : (test : RuleTest) → has_passed test ≡ true → test.passed ≡ some true
unfolding has_passed
has_passed-eq test h = elim (Option-cases test.passed) [
  | inl e ↦ let no = rw (e, has_passed) at h in cc
  | inr (passed, e) ↦ let yes_passed = rw (e, has_passed) at h in e ∙ ap some yes_passed
]

-- Tests that passed as a whole are at least one, and each of them passed.
tests_passed-each :
    (tests : List RuleTest)
    → tests_passed tests ≡ true
    → (test : RuleTest) × In test tests
      × ((other : RuleTest) → In other tests → other.passed ≡ some true)
unfolding tests_passed
tests_passed-each [] h = cc
tests_passed-each (test ∷ tests) h =
    (test, inl refl, λ other m. has_passed-eq other (all-In has_passed (test ∷ tests) h other m))

pub check_ready-IsReady :
    (core : Core) (row : RuleRow) (ready : Bool)
    → check_ready core row ≡ ok ready
    → IsReady core row
unfolding check_ready
check_ready-IsReady core row ready h =
    let (report, valid, h1) =
      >>=-eq-ok (validate_rule_payload default_depth (rule_payload row)) _ h in
    elim (Bool-cases (is_empty report)) [
      | inr e ↦ let no = rw e at h1 in cc
      | inl e ↦ elim (Option-cases (given_text row.provenance_id)) [
        | inl p ↦ let no = rw (e, p) at h1 in cc
        | inr (provenance, p) ↦
            elim (Bool-cases (tests_passed (list_rule_tests core row.rule.id))) [
              | inr t ↦ let no = rw (e, p, t) at h1 in cc
              | inl t ↦
                  let (test, listed, each) =
                    tests_passed-each (list_rule_tests core row.rule.id) t in
                  record {
                    valid = valid ∙ ap ok (is_empty-eq-true report e);
                    provenance = provenance;
                    has_provenance = p;
                    test = test;
                    has_test = listed;
                    all_passed = each;
                  }
            ]
      ]
    ]

pub conflicting-nil :
    (row : RuleRow) (items : List RuleRow) (item : RuleRow)
    → conflicting row items ≡ ok []
    → In item items
    → is_rival row item ≡ true
    → effect_conflicts row.rule item.rule ≡ ok false
unfolding conflicting
conflicting-nil row [] item h m rival = absurd m
conflicting-nil row (first ∷ items) item h m rival = elim (Bool-cases (is_rival row first)) [
  | inr e ↦ elim m [
    | inl c ↦ let no = sym (ap (is_rival row) c) ∙ rival in cc
    | inr n ↦ conflicting-nil row items item (rw (e, conflicting) at h) n rival
  ]
  | inl e ↦
      let (differs, checked, h1) =
        >>=-eq-ok (effect_conflicts row.rule first.rule) _ (rw (e, conflicting) at h) in
      let (rest, later, h2) = >>=-eq-ok (conflicting row items) _ h1 in
      elim (Bool-cases differs) [
        | inl d ↦ let no = rw d at h2 in cc
        | inr d ↦ elim m [
          | inl c ↦ ap (λ (r : RuleRow). effect_conflicts row.rule r.rule) c ∙ checked ∙ ap ok d
          | inr n ↦ conflicting-nil row items item (later ∙ rw d at h2) n rival
        ]
      ]
]

-- What an activation that is not blocked has gone through
pub record Passed (core : Core) (row : RuleRow) (actor : String) (expected : Option ℕ) (now : ℕ)
    (result : Core × Activation) : Type 0 where
  pub none_active : any (same_key_active row) (active_rules core none none) ≡ false
  pub no_conflicts : conflicting row (active_rules core none none) ≡ ok []
  pub made : make_active core row actor expected now ≡ ok result

pub block-blocked :
    (core : Core) (row : RuleRow) (conflicts : List RuleRow) (review_id : String)
    → (ids : List String) × (open_review : String) × ((block core row conflicts review_id).1
        ≡ blocked ids open_review)
unfolding block
block-blocked core row conflicts review_id =
    elim (Option-cases (find_open_review core "rule" row.rule.id "RULE_CONFLICT")) [
      | inl e ↦ (row.rule.id ∷ map id_of conflicts, review_id, rw (e, block) refl)
      | inr (review, e) ↦ (row.rule.id ∷ map id_of conflicts, review.id, rw (e, block) refl)
    ]

pub activated-row : {a b : RuleRow} {m n : Report} → activated a m ≡ activated b n → a ≡ b
activated-row h = cc

pub get_rule-found :
    (core : Core) (id : String) (row : RuleRow)
    → get_rule core id ≡ ok row
    → In row core.rules × (has_id id row ≡ true)
unfolding get_rule
get_rule-found core id row h = elim (Option-cases (find (has_id id) core.rules)) [
  | inl e ↦ let no = rw e at h in cc
  | inr (r, e) ↦
      let same : ok r ≡ ok row = rw e at h in
      rw (← ok-injective same) (find-In (has_id id) core.rules r e)
]

pub decide-Passed :
    (core next : Core) (row now_active : RuleRow) (report : Report) (review_id actor : String)
    (expected : Option ℕ) (now : ℕ)
    → decide core row review_id actor expected now ≡ ok (next, activated now_active report)
    → Passed core row actor expected now (next, activated now_active report)
unfolding decide block
decide-Passed core next row now_active report review_id actor expected now h =
    elim (Bool-cases (any (same_key_active row) (active_rules core none none))) [
      | inl e ↦ let no = rw (e, decide) at h in cc
      | inr e ↦
          let (conflicts, found, last) =
            >>=-eq-ok (conflicting row (active_rules core none none)) _ (rw (e, decide) at h) in
          elim (Bool-cases (is_empty conflicts)) [
            | inl f ↦ record {
              none_active = e;
              no_conflicts = found ∙ ap ok (is_empty-eq-true conflicts f);
              made = rw f at last;
            }
            | inr f ↦
                let (ids, open_review, refused) = block-blocked core row conflicts review_id in
                let no =
                  sym refused ∙ ap (λ (r : Core × Activation). r.1) (ok-injective (rw f at last)) in
                cc
          ]
    ]

pub make_active-result :
    (core next : Core) (row now_active : RuleRow) (report : Report) (actor : String)
    (expected : Option ℕ) (now : ℕ)
    → make_active core row actor expected now ≡ ok (next, activated now_active report)
    → In now_active next.rules
      × (now_active.rule.status ≡ "ACTIVE")
      × ((left : Core) × (was : RuleRow) × (supersede core row now ≡ ok left)
          × (get_rule left row.rule.id ≡ ok was)
          × (now_active ≡ bumped (set_status "ACTIVE") was))
unfolding make_active
make_active-result core next row now_active report actor expected now h =
    let (left, superseded, h1) = >>=-eq-ok (supersede core row now) _ h in
    let (updated, done, h2) =
      >>=-eq-ok
        (update_rule left row.rule.id (set_status "ACTIVE")
          (some (given_number expected row.row_version)))
        _ h1 in
    let (invalidated, _, returned) =
      >>=-eq-ok (invalidate updated.0.derivations (changed_node row) (invalidation_reason row)) _
        h2 in
    let (was, found, _, written) =
      update_rule-eq-ok left row.rule.id (set_status "ACTIVE") _ updated done in
    let same : updated.1 ≡ now_active =
      activated-row (ap (λ (r : Core × Activation). r.1) (ok-injective returned)) in
    let row_is : now_active ≡ bumped (set_status "ACTIVE") was =
      sym same ∙ ap (λ (u : Core × RuleRow). u.1) written in
    let rules : next.rules
        ≡ update_where (has_id row.rule.id) (bumped (set_status "ACTIVE")) left.rules =
      ap (λ (r : Core × Activation). r.0.rules) (sym (ok-injective returned))
      ∙ rules-add_change row updated.1 _
      ∙ ap (λ (u : Core × RuleRow). u.0.rules) written in
    let (stored, named) = get_rule-found left row.rule.id was found in
    (
      subst (In now_active) (sym rules) (
          subst
            (λ r.
              In r (update_where (has_id row.rule.id) (bumped (set_status "ACTIVE")) left.rules))
            (sym row_is)
            (update_where-In (has_id row.rule.id) (bumped (set_status "ACTIVE")) left.rules was
              stored named)),
      ap (λ (r : RuleRow). r.rule.status) row_is,
      (left, was, superseded, found, row_is),
    )
