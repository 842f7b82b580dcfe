-- ===== src/KnowledgeService/Relations/Once.antt =====
-- That a call of `create_relation` of application/knowledge_service.py may be repeated.
use andromeda_knowledge_core.Prelude.{
  ℕ, String, ◌≡◌, refl, ap, ◌∙◌, Option, some, List, str_eq, eq_iff, Option-cases, inl, inr, subst,
}
use andromeda_knowledge_core.Prelude.Tables.{find}
use andromeda_knowledge_core.Errors.{
  ok, validation, not_found, >>=-eq-ok, ok-injective, or_raise, >>=-of-ok,
}
use andromeda_knowledge_core.DependencyService.{invalidate}
use andromeda_knowledge_core.Repository.{given_text}
use andromeda_knowledge_core.Repository.Ontologies.{get_ontology, get_active_ontology}
use andromeda_knowledge_core.RuleService.{ontology_for}
use andromeda_knowledge_core.KnowledgeService.{
  instant_of, KnowledgeObject, Relation, Knowledge, Printing, find_object,
}
use andromeda_knowledge_core.KnowledgeService.Facts.{
  ensure_temporal, confidence_statuses, check_listed,
}
use andromeda_knowledge_core.KnowledgeService.Relations.{
  RelationData, text_or, check_relation, relation_identity, find_relation_by_identity, new_relation,
  insert_relation, store_relation, create_relation,
}

-- What `create_relation` reads, other than the relations, is as before.
record IsAsBefore (k k' : Knowledge) : Type 0 where
  objects_kept : k'.objects ≡ k.objects
  ontologies_kept : k'.core.ontologies ≡ k.core.ontologies
  definitions_kept : k'.core.definitions ≡ k.core.definitions

module _ (k k' : Knowledge) (same : IsAsBefore k k') where
  find_object-kept : (id : String) → find_object k' id ≡ find_object k id
  unfolding find_object
  find_object-kept id =
      ap
        (λ (objects : List KnowledgeObject).
          or_raise not_found (find (λ object. str_eq object.id id) objects))
        same.objects_kept

  ontology_for-kept : (id : Option String) → ontology_for k'.core id ≡ ontology_for k.core id
  unfolding ontology_for get_ontology get_active_ontology
  ontology_for-kept id = elim (Option-cases (given_text id)) [
    | inl e ↦ rw (e, ontology_for, same.ontologies_kept) refl
    | inr (named, e) ↦ rw (e, ontology_for, same.ontologies_kept) refl
  ]

  check_relation-kept :
      (ontology_id code : String) (subject target : KnowledgeObject)
      → check_relation k'.core ontology_id code subject target
        ≡ check_relation k.core ontology_id code subject target
  unfolding check_relation
  check_relation-kept ontology_id code subject target = rw same.definitions_kept refl

insert_relation_lem :
    (k : Knowledge) (relation : Relation) (actor : String) (result : Knowledge × Relation)
    → insert_relation k relation actor ≡ ok result
    → IsAsBefore k result.0
      × (find_relation_by_identity result.0 relation.identity_key ≡ some result.1)
unfolding insert_relation find_relation_by_identity find
insert_relation_lem k relation actor result h =
    let (invalidated, _, last) =
      >>=-eq-ok
        (invalidate k.core.derivations ("relation_type", relation.relation_type_code)
          "A relation for a previously queried predicate was accepted.")
        _ h in
    let is_same = (eq_iff relation.identity_key relation.identity_key).1 refl in
    let returned = ok-injective last in
    subst
      (λ (r : Knowledge × Relation).
        IsAsBefore k r.0
        × (find (λ q. str_eq q.identity_key relation.identity_key) r.0.relations ≡ some r.1))
      returned
      (
        record { objects_kept = refl; ontologies_kept = refl; definitions_kept = refl },
        rw is_same refl,
      )

store_relation_lem :
    (k : Knowledge) (relation : Relation) (actor : String) (result : Knowledge × Relation)
    → store_relation k relation actor ≡ ok result
    → IsAsBefore k result.0
      × (find_relation_by_identity result.0 relation.identity_key ≡ some result.1)
unfolding store_relation
store_relation_lem k relation actor result h =
    elim (Option-cases (find_relation_by_identity k relation.identity_key)) [
      | inl e ↦ insert_relation_lem k relation actor result (rw (e, store_relation) at h)
      | inr (existing, e) ↦
          subst
            (λ (r : Knowledge × Relation).
              IsAsBefore k r.0 × (find_relation_by_identity r.0 relation.identity_key ≡ some r.1))
            (ok-injective (rw (e, store_relation) at h))
            (record { objects_kept = refl; ontologies_kept = refl; definitions_kept = refl }, e)
    ]

store_relation_again :
    (k : Knowledge) (relation existing : Relation) (actor : String)
    → find_relation_by_identity k relation.identity_key ≡ some existing
    → store_relation k relation actor ≡ ok (k, existing)
unfolding store_relation
store_relation_again k relation existing actor e = rw (e, store_relation) refl

-- A call of `create_relation` with the payload of one that returned, on what that one stored, returns the
-- same relation and changes nothing, whoever makes it and whenever.
pub create_relation_once :
    (p : Printing) (k : Knowledge) (data' : RelationData) (id other_id actor other_actor : String)
    (now later : ℕ) (result : Knowledge × Relation)
    → create_relation p k data' id actor now ≡ ok result
    → create_relation p result.0 data' other_id other_actor later ≡ ok result
unfolding create_relation new_relation
create_relation_once p k data' id other_id actor other_actor now later result h =
    let (window, e1, h1) =
      >>=-eq-ok
        (ensure_temporal (instant_of data'.valid_from) (instant_of data'.valid_to)
          data'.transaction_from data'.transaction_to)
        _ h in
    let (confidence, e2, h2) =
      >>=-eq-ok
        (check_listed confidence_statuses "INVALID_CONFIDENCE_STATUS"
          (text_or "UNKNOWN" data'.confidence_status))
        _ h1 in
    let (subject, e3, h3) = >>=-eq-ok (find_object k data'.subject_id) _ h2 in
    let (target, e4, h4) = >>=-eq-ok (find_object k data'.object_id) _ h3 in
    let (ontology, e5, h5) = >>=-eq-ok (ontology_for k.core data'.ontology_version_id) _ h4 in
    let (definition, e6, h6) =
      >>=-eq-ok (check_relation k.core ontology.id data'.relation_type_code subject target) _ h5 in
    let (provenance_id, e7, stores) =
      >>=-eq-ok (or_raise (validation "MISSING_PROVENANCE") (given_text data'.provenance_id)) _
        h6 in
    let key = relation_identity p subject data'.relation_type_code target data'.valid_from in
    let relation : Relation =
      new_relation data' id subject target provenance_id ontology.id key now in
    let again : Relation =
      new_relation data' other_id subject target provenance_id ontology.id key later in
    let (same, found) = store_relation_lem k relation actor result stores in
    >>=-of-ok _ _ window e1
    ∙ >>=-of-ok _ _ confidence e2
    ∙ >>=-of-ok _ _ subject (find_object-kept k result.0 same data'.subject_id ∙ e3)
    ∙ >>=-of-ok _ _ target (find_object-kept k result.0 same data'.object_id ∙ e4)
    ∙ >>=-of-ok _ _ ontology (ontology_for-kept k result.0 same data'.ontology_version_id ∙ e5)
    ∙ >>=-of-ok _ _ definition (
        check_relation-kept k result.0 same ontology.id data'.relation_type_code subject target
        ∙ e6)
    ∙ >>=-of-ok _ _ provenance_id e7
    ∙ store_relation_again result.0 again result.1 other_actor found
