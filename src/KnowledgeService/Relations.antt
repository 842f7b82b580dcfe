-- ===== src/KnowledgeService/Relations.antt =====
-- `create_relation` of application/knowledge_service.py.
pub mod Once
use andromeda_knowledge_core.Prelude.{
  ℕ, String, ◌≡◌, refl, sym, ap, ◌∙◌, Bool, true, false, Option, none, some, List, [], ◌∷◌, ◌&&◌,
  ◌||◌, str_eq, eq_iff, Bool-cases, Option-cases, inl, inr, subst, if◌then◌else◌,
}
use andromeda_knowledge_core.Prelude.Tables.{find}
use andromeda_knowledge_core.Errors.{
  Result, ok, err, validation, not_found, ◌>>=◌, >>=-eq-ok, ok-injective, or_raise,
}
use andromeda_knowledge_core.Json.{Value, num, str}
use andromeda_knowledge_core.Json.Compare.{is_in}
use andromeda_knowledge_core.Dsl.Validate.{is_empty}
use andromeda_knowledge_core.DependencyService
use andromeda_knowledge_core.DependencyService.{Report, invalidate}
use andromeda_knowledge_core.Ingestion.Service.{join_parts}
use andromeda_knowledge_core.Repository.{Ontology, Definition, Core, given_text}
use andromeda_knowledge_core.Repository.Ontologies.{get_ontology, get_active_ontology}
use andromeda_knowledge_core.ChangeService.{classify_relation, record_audit, create_change}
use andromeda_knowledge_core.RuleService.{ontology_for}
use andromeda_knowledge_core.KnowledgeService.{
  Moment, instant_of, KnowledgeObject, Relation, Knowledge, Printing, find_object,
}
use andromeda_knowledge_core.KnowledgeService.Facts.{
  ensure_temporal, confidence_statuses, check_listed, list_column, defines,
}

-- The payload of `create_relation`
pub record RelationData : Type 0 where
  pub subject_id : String
  pub relation_type_code : String
  pub object_id : String
  pub valid_from : Option Moment
  pub valid_to : Option Moment
  pub transaction_from : Option ℕ
  pub transaction_to : Option ℕ
  pub provenance_id : Option String
  pub confidence : Value
  pub confidence_status : Option String
  pub ontology_version_id : Option String

-- `data.get(key, default)` for a text
unfoldable pub text_or : String → Option String → String
text_or default none = default
text_or default (some given) = given

-- an empty list allows each type
unfoldable pub allows : List Value → KnowledgeObject → Bool
allows types object = is_empty types || is_in (str object.object_type_code) types

-- the definition of the relation type must allow both objects
unfoldable pub check_relation :
    Core → String → String → KnowledgeObject → KnowledgeObject → Result Definition
check_relation core ontology_id code subject target =
    elim (find (defines ontology_id "relation_type" code) core.definitions) [
      | none ↦ err (validation "INVALID_RELATION")
      | some definition ↦
          if allows (list_column "allowed_source_types" definition) subject
            && allows (list_column "allowed_target_types" definition) target
          then ok definition
          else err (validation "INVALID_RELATION")
    ]

-- `identity_hash(subject["id"], relation_type_code, target["id"], valid_from)`
unfoldable pub relation_identity :
    Printing → KnowledgeObject → String → KnowledgeObject → Option Moment → String
relation_identity p subject code target valid_from =
    p.text_digest (join_parts (subject.id ∷ code ∷ target.id ∷ p.moment_text valid_from ∷ []))

-- `find_relation_by_identity(identity_key)`
unfoldable pub find_relation_by_identity : Knowledge → String → Option Relation
find_relation_by_identity k key = find (λ relation. str_eq relation.identity_key key) k.relations

-- the row that `create_relation` inserts
unfoldable pub new_relation :
    RelationData
    → String
    → KnowledgeObject
    → KnowledgeObject
    → String
    → String
    → String
    → ℕ
    → Relation
new_relation data' id subject target provenance_id ontology_id key now = record {
  id = id;
  subject_id = subject.id;
  relation_type_code = data'.relation_type_code;
  object_id = target.id;
  valid_from = data'.valid_from;
  valid_to = data'.valid_to;
  transaction_from = now;
  transaction_to = none;
  provenance_id = provenance_id;
  confidence = data'.confidence;
  confidence_status = text_or "VERIFIED" data'.confidence_status;
  verification_status = "VERIFIED";
  ontology_version_id = ontology_id;
  identity_key = key;
}

-- the change and the audit entry of a relation
abbrev pub log_relation : String → Relation → Core → Core
log_relation actor relation core =
    record_audit
      (record {
        actor = actor;
        action = "RELATION_ACCEPTED";
        entity_type = "relation";
        entity_id = relation.id;
        reason = none;
      })
      (create_change
        (record {
          classification = classify_relation none (some relation);
          entity_type = "relation";
          entity_id = relation.id;
          reason = "Typed relation accepted by an authorized actor.";
        })
        core)

-- the writes of `create_relation` for an identity that is new
unfoldable pub insert_relation : Knowledge → Relation → String → Result (Knowledge × Relation)
insert_relation k relation actor = do
  invalidated ←
      invalidate k.core.derivations ("relation_type", relation.relation_type_code)
        "A relation for a previously queried predicate was accepted."
  ok (
    record k {
      relations = relation ∷ k.relations;
      core = log_relation actor relation (record k.core { derivations = invalidated.0 });
    },
    relation,
  )

-- the end of `create_relation`, for a given provenance: a relation with the same identity is returned
unfoldable pub store_relation : Knowledge → Relation → String → Result (Knowledge × Relation)
store_relation k relation actor = elim (find_relation_by_identity k relation.identity_key) [
  | some existing ↦ ok (k, existing)
  | none ↦ insert_relation k relation actor
]

-- `create_relation(data, actor)`; `id` is a new id.
unfoldable pub create_relation :
    Printing → Knowledge → RelationData → String → String → ℕ → Result (Knowledge × Relation)
create_relation p k data' id actor now = do
  window ←
      ensure_temporal (instant_of data'.valid_from) (instant_of data'.valid_to)
        data'.transaction_from data'.transaction_to
  confidence ←
      check_listed confidence_statuses "INVALID_CONFIDENCE_STATUS"
        (text_or "UNKNOWN" data'.confidence_status)
  subject ← find_object k data'.subject_id
  target ← find_object k data'.object_id
  ontology ← ontology_for k.core data'.ontology_version_id
  definition ← check_relation k.core ontology.id data'.relation_type_code subject target
  provenance_id ← or_raise (validation "MISSING_PROVENANCE") (given_text data'.provenance_id)
  let key = relation_identity p subject data'.relation_type_code target data'.valid_from
  store_relation k (new_relation data' id subject target provenance_id ontology.id key now) actor
