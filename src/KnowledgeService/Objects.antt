-- ===== src/KnowledgeService/Objects.antt =====
-- `create_object` of application/knowledge_service.py.
pub mod Upserted
use andromeda_knowledge_core.Prelude.{
  ℕ, String, ◌≡◌, refl, sym, ap, subst, ◌∙◌, Bool, true, false, Option, none, some, List, [], ◌∷◌,
  any, In, inl, inr, str_eq, eq_iff, Option-cases, if◌then◌else◌,
}
use andromeda_knowledge_core.Prelude.Tables.{find, find-In, find-eq-none}
use andromeda_knowledge_core.Errors.{Result, ok, err, validation, ◌>>=◌, >>=-eq-ok, ok-injective}
use andromeda_knowledge_core.Repository.{Core}
use andromeda_knowledge_core.ChangeService.{record_audit}
use andromeda_knowledge_core.RuleService.{ontology_for}
use andromeda_knowledge_core.KnowledgeService.{KnowledgeObject, Knowledge}
use andromeda_knowledge_core.KnowledgeService.Facts.{ensure_temporal, defines}

-- The payload of `create_object`
pub record ObjectData : Type 0 where
  pub stable_key : String
  pub object_type_code : String
  pub valid_from : Option ℕ
  pub valid_to : Option ℕ
  pub transaction_from : Option ℕ
  pub transaction_to : Option ℕ
  pub ontology_version_id : Option String

-- `find_object_by_key(stable_key)`
unfoldable pub find_object_by_key : Knowledge → String → Option KnowledgeObject
find_object_by_key k key = find (λ object. str_eq object.stable_key key) k.objects

-- `upsert_object(data)`: an object that has the key stays as it is.
unfoldable pub upsert_object : Knowledge → KnowledgeObject → Knowledge × KnowledgeObject
upsert_object k object = elim (find_object_by_key k object.stable_key) [
  | some existing ↦ (k, existing)
  | none ↦ (record k { objects = object ∷ k.objects }, object)
]

-- the ontology must define the type of the object
unfoldable pub check_object_type : Core → String → String → Result Bool
check_object_type core ontology_id code =
    if any (defines ontology_id "object_type" code) core.definitions
    then ok true
    else err (validation "ONTOLOGY_MISMATCH")

abbrev pub log_object : String → KnowledgeObject → Core → Core
log_object actor object core =
    record_audit
      (record {
        actor = actor;
        action = "OBJECT_UPSERTED";
        entity_type = "object";
        entity_id = object.id;
        reason = none;
      })
      core

abbrev pub new_object : ObjectData → String → KnowledgeObject
new_object data' id = record {
  id = id;
  stable_key = data'.stable_key;
  object_type_code = data'.object_type_code;
}

-- `create_object(data, actor)`; `id` is a new id.
unfoldable pub create_object :
    Knowledge → ObjectData → String → String → Result (Knowledge × KnowledgeObject)
create_object k data' id actor = do
  window ←
      ensure_temporal data'.valid_from data'.valid_to data'.transaction_from data'.transaction_to
  ontology ← ontology_for k.core data'.ontology_version_id
  defined ← check_object_type k.core ontology.id data'.object_type_code
  let upserted = upsert_object k (new_object data' id)
  ok (record upserted.0 { core = log_object actor upserted.1 upserted.0.core }, upserted.1)
