-- ===== src/Repository/Rules.antt =====
-- The queries and updates of rules, their tests and their relations in
-- infrastructure/db/repositories.py.
use andromeda_knowledge_core.Prelude.{
  ℕ, ◌+◌, String, Bool, true, false, not, Option, none, some, List, ◌∷◌, ◌&&◌, ◌||◌, any, keep,
  str_eq, ◌==◌, leb, if◌then◌else◌,
}
use andromeda_knowledge_core.Prelude.Tables.{find, update_where}
use andromeda_knowledge_core.Errors.{Result, ok, err, not_found, conflict, ◌>>=◌, or_raise}
use andromeda_knowledge_core.Temporal.{has_started, has_not_ended}
use andromeda_knowledge_core.Repository.{RuleRow, RuleTest, RuleRelation, Core}

abbrev pub has_id : String → RuleRow → Bool
has_id id row = str_eq row.rule.id id

-- `get_rule(rule_id)`; the tests and the relations are read apart.
unfoldable pub get_rule : Core → String → Result RuleRow
get_rule core id = or_raise not_found (find (has_id id) core.rules)

-- `find_rule_by_idempotency(idempotency_key)`
unfoldable pub has_key : String → RuleRow → Bool
has_key key row = elim row.idempotency_key [ none ↦ false | some k ↦ str_eq k key ]

unfoldable pub find_rule_by_idempotency : Core → String → Option RuleRow
find_rule_by_idempotency core key = find (has_key key) core.rules

-- the unique constraints of the table of rules, for a new row
unfoldable pub same_version : RuleRow → RuleRow → Bool
same_version new row =
    str_eq row.rule.logical_key new.rule.logical_key && row.rule.version == new.rule.version

unfoldable pub same_idempotency : RuleRow → RuleRow → Bool
same_idempotency new row = elim new.idempotency_key [ none ↦ false | some k ↦ has_key k row ]

unfoldable pub clashes : RuleRow → RuleRow → Bool
clashes new row = same_version new row || same_idempotency new row

-- `create_rule(data)`: a row that breaks a unique constraint is rolled back. A foreign key that fails, such
-- as that of a provenance that is not there, raises the same error; the tables that the foreign keys name
-- are not modelled.
unfoldable pub create_rule : Core → RuleRow → Result Core
create_rule core new =
    if any (clashes new) core.rules
    then err (conflict "RULE_CREATE_CONFLICT")
    else ok (record core { rules = new ∷ core.rules })

abbrev pub is_closed : Option ℕ → Bool
is_closed none = false
is_closed (some stop) = true

-- the test of `active_rules` on the status, and the one on the transaction time
unfoldable pub status_counts : Option ℕ → RuleRow → Bool
status_counts none row = str_eq row.rule.status "ACTIVE"
status_counts (some moment) row =
    str_eq row.rule.status "ACTIVE"
    || (str_eq row.rule.status "SUPERSEDED" && is_closed row.transaction_to)

unfoldable pub known : Option ℕ → RuleRow → Bool
known none row = not (is_closed row.transaction_to)
known (some moment) row = leb row.transaction_from moment && has_not_ended row.transaction_to moment

unfoldable pub in_force : Option ℕ → RuleRow → Bool
in_force none row = true
in_force (some moment) row = has_started row.valid_from moment && has_not_ended row.valid_to moment

-- `active_rules(valid_at=…, known_at=…)`
unfoldable pub active_rules : Core → Option ℕ → Option ℕ → List RuleRow
active_rules core valid_at known_at =
    keep (λ row. status_counts known_at row && in_force valid_at row && known known_at row)
      core.rules

-- `list_rule_tests(rule_id)`
unfoldable pub list_rule_tests : Core → String → List RuleTest
list_rule_tests core id = keep (λ test. str_eq test.rule_id id) core.tests

-- one more version of the row
abbrev pub bumped : (RuleRow → RuleRow) → RuleRow → RuleRow
bumped change row = record (change row) { row_version = row.row_version + 1 }

-- the optimistic lock of the `update_…` methods
unfoldable pub check_version : Option ℕ → ℕ → Result ℕ
check_version none current = ok current
check_version (some expected) current =
    if current == expected then ok current else err (conflict "CONCURRENT_MODIFICATION")

-- `update_rule(rule_id, data, expected_version)`
unfoldable pub update_rule :
    Core → String → (RuleRow → RuleRow) → Option ℕ → Result (Core × RuleRow)
update_rule core id change expected = do
  row ← get_rule core id
  version ← check_version expected row.row_version
  ok (
    record core { rules = update_where (has_id id) (bumped change) core.rules },
    bumped change row,
  )

abbrev pub same_relation : RuleRelation → RuleRelation → Bool
same_relation new row =
    str_eq row.source_rule_id new.source_rule_id
    && str_eq row.relation_type new.relation_type
    && str_eq row.target_rule_id new.target_rule_id

-- `create_rule_relation(data)`: a relation is kept once.
unfoldable pub create_rule_relation : RuleRelation → Core → Core
create_rule_relation new core =
    if any (same_relation new) core.relations
    then core
    else record core { relations = new ∷ core.relations }
