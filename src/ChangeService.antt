-- ===== src/ChangeService.antt =====
-- `ChangeDetectionService` of application/change_service.py, and `record_audit` of
-- application/audit_service.py: what the services write beside their own rows.
use andromeda_knowledge_core.Prelude.{String, Option, none, some, ◌∷◌}
use andromeda_knowledge_core.Repository.{Core, Change, AuditEvent}

module _ {A : Type 0} where
  -- `classify_fact(before, after)`
  unfoldable pub classify_fact : Option A → Option A → String
  classify_fact none (some after) = "NEW_FACT"
  classify_fact (some before) none = "FACT_REMOVED"
  classify_fact before after = "FACT_CHANGED"

  -- `classify_relation(before, after)`
  unfoldable pub classify_relation : Option A → Option A → String
  classify_relation none (some after) = "NEW_RELATION"
  classify_relation before after = "RELATION_CHANGED"

  -- `classify_rule(before, after)`
  unfoldable pub classify_rule : Option A → Option A → String
  classify_rule none (some after) = "NEW_RULE"
  classify_rule (some before) none = "RULE_REMOVED"
  classify_rule before after = "RULE_CHANGED"

-- `record_audit(…)`; the newest entry stands first.
abbrev pub record_audit : AuditEvent → Core → Core
record_audit event core = record core { audit = event ∷ core.audit }

-- `create_change(data)`
abbrev pub create_change : Change → Core → Core
create_change change core = record core { changes = change ∷ core.changes }
