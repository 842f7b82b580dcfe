-- ===== src/RuleService/Sound.antt =====
-- The rules as application/rule_service.py keeps them: one version of a logical key is active.
pub mod Left
pub mod Activate
pub mod Create
use andromeda_knowledge_core.Prelude.{
  ℕ, String, ◌≡◌, refl, sym, ap, ◌∙◌, Bool, true, false, not, Option, none, some, List, [], ◌∷◌,
  ◌&&◌, ◌||◌, ◌⊎◌, inl, inr, In, In-keep, any, any-of-In, str_eq, eq_iff, if◌then◌else◌, arith,
  Bool-cases, Option-cases, keep, ◌≢◌,
}
use andromeda_knowledge_core.Prelude.Tables.{find, find-In, update_where, In-update_where}
use andromeda_knowledge_core.Errors.{
  Result, ok, err, ◌>>=◌, >>=-eq-ok, or_raise, not_found, ok-injective,
}
use andromeda_knowledge_core.Repository.{RuleRow, Core, given_text}
use andromeda_knowledge_core.Repository.Rules.{
  has_id, get_rule, bumped, check_version, update_rule, is_closed, create_rule_relation,
  same_relation,
}

-- What `active_rules` gives when no time is asked for
unfoldable pub is_effective : RuleRow → Bool
is_effective row = str_eq row.rule.status "ACTIVE" && not (is_closed row.transaction_to)

-- One active version for each logical key; an id stands for one key, and is not empty.
pub record Sound (rows : List RuleRow) : Type 0 where
  pub one_active :
      (a b : RuleRow)
      → In a rows
      → In b rows
      → is_effective a ≡ true
      → is_effective b ≡ true
      → a.rule.logical_key ≡ b.rule.logical_key
      → a.rule.id ≡ b.rule.id
  pub keyed :
      (a b : RuleRow)
      → In a rows
      → In b rows
      → a.rule.id ≡ b.rule.id
      → a.rule.logical_key ≡ b.rule.logical_key
  pub named : (a : RuleRow) → In a rows → str_eq "" a.rule.id ≡ false

-- the row that a row comes from: the same id and key
pub record From (rows : List RuleRow) (now : RuleRow) : Type 0 where
  pub old : RuleRow
  pub stored : In old rows
  pub same_id : now.rule.id ≡ old.rule.id
  pub same_key : now.rule.logical_key ≡ old.rule.logical_key

-- Rows that all come from earlier ones, with no row newly active, are as sound as those.
pub Sound-From :
    (rows nows : List RuleRow)
    → Sound rows
    → ((a : RuleRow) → In a nows → From rows a)
    → ((a : RuleRow)
        → In a nows
        → is_effective a ≡ true
        → (old : RuleRow) × In old rows
          × (is_effective old ≡ true)
          × (a.rule.id ≡ old.rule.id)
          × (a.rule.logical_key ≡ old.rule.logical_key))
    → Sound nows
Sound-From rows nows s from active = record {
  one_active = λ a b m n p q k.
      let (a', ma, pa, ia, ka) = active a m p in
      let (b', mb, pb, ib, kb) = active b n q in
      ia ∙ s.one_active a' b' ma mb pa pb (sym ka ∙ k ∙ kb) ∙ sym ib;
  keyed = λ a b m n i.
      let f = from a m in
      let g = from b n in
      f.same_key
      ∙ s.keyed f.old g.old f.stored g.stored (sym f.same_id ∙ i ∙ g.same_id)
      ∙ sym g.same_key;
  named = λ a m. let f = from a m in ap (str_eq "") f.same_id ∙ s.named f.old f.stored;
}

-- An update of the rows with an id that leaves id and key alone
pub From-update :
    (id : String) (change : RuleRow → RuleRow) (rows : List RuleRow)
    → ((r : RuleRow) → (change r).rule.id ≡ r.rule.id)
    → ((r : RuleRow) → (change r).rule.logical_key ≡ r.rule.logical_key)
    → (a : RuleRow) → In a (update_where (has_id id) (bumped change) rows)
    → From rows a
From-update id change rows same_id same_key a m =
    elim (In-update_where (has_id id) (bumped change) rows a m) [
      | inl (old, k, t, c) ↦ record {
        old = old;
        stored = k;
        same_id = ap (λ (r : RuleRow). r.rule.id) c ∙ same_id old;
        same_key = ap (λ (r : RuleRow). r.rule.logical_key) c ∙ same_key old;
      }
      | inr (k, t) ↦ record { old = a; stored = k; same_id = refl; same_key = refl }
    ]

-- An update after which a row is not active leaves the other rows as they were.
pub effective-update :
    (id : String) (change : RuleRow → RuleRow) (rows : List RuleRow)
    → ((r : RuleRow) → is_effective (bumped change r) ≡ false)
    → (a : RuleRow) → In a (update_where (has_id id) (bumped change) rows)
    → is_effective a ≡ true
    → In a rows × (str_eq a.rule.id id ≡ false)
effective-update id change rows off a m p =
    elim (In-update_where (has_id id) (bumped change) rows a m) [
      | inl (old, k, t, c) ↦ let no = ap is_effective c ∙ off old in cc
      | inr kept ↦ kept
    ]

-- What an update of a rule returns
pub update_rule-eq-ok :
    (core : Core) (id : String) (change : RuleRow → RuleRow) (expected : Option ℕ)
    (result : Core × RuleRow)
    → update_rule core id change expected ≡ ok result
    → (row : RuleRow) × (get_rule core id ≡ ok row)
      × ((version : ℕ) × (check_version expected row.row_version ≡ ok version))
      × (result ≡ (
        record core { rules = update_where (has_id id) (bumped change) core.rules },
        bumped change row,
      ))
unfolding update_rule
update_rule-eq-ok core id change expected result h =
    let (row, found, later) = >>=-eq-ok (get_rule core id) _ h in
    let (version, checked, last) = >>=-eq-ok (check_version expected row.row_version) _ later in
    (row, found, (version, checked), sym (ok-injective last))
