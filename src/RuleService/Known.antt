-- ===== src/RuleService/Known.antt =====
-- What an activation of application/rule_service.py leaves of the times of its rule, and when
-- `active_rules` lists a rule by them.
use andromeda_knowledge_core.Prelude.{
  refl, sym, subst, ◌∙◌, ◌≤◌, ◌<◌, Option-cases, ap, ◌≢◌, ℕ, String, ◌≡◌, ◌↔◌, true, false, Option,
  none, some, ◌⊎◌, inl, inr, str_eq, Bool-cases, arith, eq_iff,
}
use andromeda_knowledge_core.Errors.{ok, >>=-eq-ok, ok-injective, or_raise, not_found}
use andromeda_knowledge_core.Prelude.Tables.{find, find-update_where}
use andromeda_knowledge_core.RuleService.Sound.Left.{rules-create_rule_relation}
use andromeda_knowledge_core.Temporal.{has_not_ended}
use andromeda_knowledge_core.RuleService.{set_status, relation}
use andromeda_knowledge_core.RuleService.Sound.{update_rule-eq-ok}
use andromeda_knowledge_core.Repository.{RuleRow, Core, given_text}
use andromeda_knowledge_core.Repository.Rules.{
  bumped, has_id, update_rule, create_rule_relation, get_rule, status_counts, known,
}
use andromeda_knowledge_core.RuleService.Activate.{supersede, set_superseded}
use andromeda_knowledge_core.RuleService.Decided.{get_rule-found}

pub status_counts-active :
    (known_at : Option ℕ) (row : RuleRow)
    → str_eq row.rule.status "ACTIVE" ≡ true
    → status_counts known_at row ≡ true
unfolding status_counts
status_counts-active none row h = h
status_counts-active (some moment) row h = ground arith

-- The transaction time of a rule is open, or holds the moment.
abbrev pub IsKnown : Option ℕ → RuleRow → Type 0
IsKnown none row = row.transaction_to ≡ none
IsKnown (some moment) row =
    (row.transaction_from ≤ moment)
    × ((row.transaction_to ≡ none)
        ⊎ ((stop : ℕ) × (row.transaction_to ≡ some stop) × (moment < stop)))

some-path : {m n : ℕ} → some m ≡ some n → m ≡ n
some-path h = cc

pub known-IsKnown :
    (known_at : Option ℕ) (row : RuleRow) → (known known_at row ≡ true) ↔ IsKnown known_at row
unfolding known has_not_ended
known-IsKnown none row = elim (Option-cases row.transaction_to) [
  | inl e ↦ (λ h. e, λ k. rw (e, known) refl)
  | inr (stop, e) ↦ (λ h. let no = rw (e, known) at h in cc, λ k. cc)
]
known-IsKnown (some moment) row = elim (Option-cases row.transaction_to) [
  | inl e ↦ (
    λ h. let holds = rw (e, known, has_not_ended) at h in (ground arith, inl e),
    λ k. rw (e, known, has_not_ended) (ground arith),
  )
  | inr (stop, e) ↦ (
    λ h.
        let holds = rw (e, known, has_not_ended) at h in
        (ground arith, inr (stop, e, ground arith)),
    λ k. elim k.1 [
      | inl open_time ↦ cc
      | inr (stop', e', before) ↦
          let same : stop ≡ stop' = some-path (sym e ∙ e') in
          rw (e, known, has_not_ended) (ground arith)
    ],
  )
]

pub known-bumped :
    (known_at : Option ℕ) (row : RuleRow)
    → known known_at (bumped (set_status "ACTIVE") row) ≡ known known_at row
unfolding known
known-bumped none row = refl
known-bumped (some moment) row = refl

pub get_rule-own :
    (core : Core) (id : String) (row : RuleRow)
    → get_rule core id ≡ ok row
    → get_rule core row.rule.id ≡ ok row
get_rule-own core id row h =
    let (_, named) = get_rule-found core id row h in
    subst (λ i. get_rule core i ≡ ok row) (sym ((eq_iff row.rule.id id).0 named)) h

given_text-some : (o : Option String) (text : String) → given_text o ≡ some text → o ≡ some text
unfolding given_text
given_text-some none text h = cc
given_text-some (some String.[]) text h = cc
given_text-some (some (String.◌∷◌ c s)) text h = h

-- The rule that is replaced is another one than the rule that replaces it.
pub get_rule-supersede :
    (core left : Core) (row : RuleRow) (now : ℕ)
    → row.replaces_rule_id ≢ some row.rule.id
    → supersede core row now ≡ ok left
    → get_rule left row.rule.id ≡ get_rule core row.rule.id
unfolding supersede get_rule
get_rule-supersede core left row now other h =
    elim (Option-cases (given_text row.replaces_rule_id)) [
      | inl e ↦
          ap (λ (c : Core). get_rule c row.rule.id) (sym (ok-injective (rw (e, supersede) at h)))
      | inr (replaced, e) ↦
          let (previous, _, h1) = >>=-eq-ok (get_rule core replaced) _ (rw (e, supersede) at h) in
          let (updated, done, last) =
            >>=-eq-ok
              (update_rule (create_rule_relation (relation row.rule.id "REPLACES" replaced) core)
                replaced (set_superseded now) (some previous.row_version))
              _ h1 in
          let (_, _, _, written) =
            update_rule-eq-ok _ replaced (set_superseded now) _ updated done in
          let apart : (r : RuleRow) → has_id replaced r ≡ true → has_id row.rule.id r ≡ false =
            λ r is_replaced. elim (Bool-cases (has_id row.rule.id r)) [
              | inr f ↦ f
              | inl f ↦
                  let same =
                    sym ((eq_iff r.rule.id replaced).0 is_replaced)
                    ∙ (eq_iff r.rule.id row.rule.id).0 f in
                  absurd (other (given_text-some row.replaces_rule_id replaced e ∙ ap some same))
            ] in
          ap (λ (c : Core). get_rule c row.rule.id) (sym (ok-injective last))
          ∙ ap (λ (u : Core × RuleRow). get_rule u.0 row.rule.id) written
          ∙ ap (or_raise not_found) (
              find-update_where (has_id row.rule.id) (has_id replaced) (bumped (set_superseded now))
                (create_rule_relation (relation row.rule.id "REPLACES" replaced) core).rules apart
                apart)
          ∙ ap (λ rules. or_raise not_found (find (has_id row.rule.id) rules))
              (rules-create_rule_relation (relation row.rule.id "REPLACES" replaced) core)
    ]
