-- ===== src/Repository/Ontologies.antt =====
-- The queries and updates of the ontology versions in infrastructure/db/repositories.py.
use andromeda_knowledge_core.Prelude.{
  ℕ, ◌+◌, String, Bool, Option, List, [], ◌∷◌, any, str_eq, if◌then◌else◌,
}
use andromeda_knowledge_core.Prelude.Tables.{find, update_where}
use andromeda_knowledge_core.Errors.{Result, ok, err, not_found, conflict, ◌>>=◌, or_raise}
use andromeda_knowledge_core.Repository.{Ontology, Definition, Core}
use andromeda_knowledge_core.Repository.Rules.{check_version}

abbrev pub has_ontology_id : String → Ontology → Bool
has_ontology_id id ontology = str_eq ontology.id id

-- `get_ontology(ontology_id)`
unfoldable pub get_ontology : Core → String → Result Ontology
get_ontology core id = or_raise not_found (find (has_ontology_id id) core.ontologies)

abbrev pub is_active_ontology : Ontology → Bool
is_active_ontology ontology = str_eq ontology.status "ACTIVE"

-- `get_active_ontology()`: the newest that is active
unfoldable pub get_active_ontology : Core → Option Ontology
get_active_ontology core = find is_active_ontology core.ontologies

-- one more version of the row
abbrev pub bumped_ontology : (Ontology → Ontology) → Ontology → Ontology
bumped_ontology change row = record (change row) { row_version = row.row_version + 1 }

-- `update_ontology(ontology_id, data, expected_version)`
unfoldable pub update_ontology :
    Core → String → (Ontology → Ontology) → Option ℕ → Result (Core × Ontology)
update_ontology core id change expected = do
  row ← get_ontology core id
  version ← check_version expected row.row_version
  ok (
    record core {
      ontologies = update_where (has_ontology_id id) (bumped_ontology change) core.ontologies;
    },
    bumped_ontology change row,
  )

abbrev pub definition_kinds : List String
definition_kinds = "object_type" ∷ "property" ∷ "relation_type" ∷ []

-- `create_definition(kind, data)`
unfoldable pub create_definition : Definition → Core → Result (Core × Definition)
create_definition new core =
    if any (str_eq new.kind) definition_kinds
    then ok (record core { definitions = new ∷ core.definitions }, new)
    else err (conflict "INVALID_DEFINITION_KIND")
