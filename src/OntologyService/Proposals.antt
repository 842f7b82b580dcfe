-- ===== src/OntologyService/Proposals.antt =====
-- That `create_unknown_concept_proposal` of application/ontology_service.py does not propose a concept
-- again while its review is open.
use andromeda_knowledge_core.Prelude.{
  String, ◌≡◌, refl, sym, subst, true, false, none, some, ◌∷◌, inl, inr, keep, eq_iff, Option-cases,
}
use andromeda_knowledge_core.Prelude.Tables.{find}
use andromeda_knowledge_core.Json.{Value, get}
use andromeda_knowledge_core.Json.Compare.{py_eq}
use andromeda_knowledge_core.Repository.{Review, Core}
use andromeda_knowledge_core.Repository.Reviews.{open_reviews}
use andromeda_knowledge_core.OntologyService.{
  asks_for, Proposed, concept_review, concept_proposal, create_unknown_concept_proposal,
}

asks_for-concept_review :
    (review_id proposal_id concept_key : String) (evidence : Value)
    → asks_for concept_key (concept_review review_id proposal_id concept_key evidence) ≡ true
unfolding asks_for concept_review py_eq get
asks_for-concept_review review_id proposal_id concept_key evidence =
    rw ((eq_iff concept_key concept_key).1 refl) refl

-- the state after a proposal
abbrev pub proposed_core : Core → String → String → String → String → Value → Value → String → Core
proposed_core core proposal_id review_id concept_key reason evidence confidence actor =
    record core {
      audit =
          record {
            actor = actor;
            action = "ONTOLOGY_CHANGE_PROPOSED";
            entity_type = "ontology_proposal";
            entity_id = proposal_id;
            reason = none;
          }
          ∷ core.audit;
      reviews = concept_review review_id proposal_id concept_key evidence ∷ core.reviews;
      proposals =
          concept_proposal proposal_id review_id concept_key reason evidence confidence
          ∷ core.proposals;
    }

module _ (core : Core) (proposal_id review_id concept_key reason actor : String)
    (evidence confidence : Value) where
  proposal_known :
      (review : Review)
      → find (asks_for concept_key) (open_reviews core) ≡ some review
      → create_unknown_concept_proposal core proposal_id review_id concept_key reason evidence
          confidence actor
        ≡ (
          core,
          record { proposal_id = review.entity_id; review_id = review.id; deduplicated = true },
        )
  unfolding create_unknown_concept_proposal
  proposal_known review e = rw (e, create_unknown_concept_proposal) refl

  proposal_new :
      find (asks_for concept_key) (open_reviews core) ≡ none
      → create_unknown_concept_proposal core proposal_id review_id concept_key reason evidence
          confidence actor
        ≡ (
          proposed_core core proposal_id review_id concept_key reason evidence confidence actor,
          record { proposal_id = proposal_id; review_id = review_id; deduplicated = false },
        )
  unfolding create_unknown_concept_proposal
  proposal_new e = rw (e, create_unknown_concept_proposal) refl

  proposal_found :
      find (asks_for concept_key) (
        open_reviews
          (proposed_core core proposal_id review_id concept_key reason evidence confidence actor))
      ≡ some (concept_review review_id proposal_id concept_key evidence)
  unfolding open_reviews keep find concept_review
  proposal_found =
      let found = asks_for-concept_review review_id proposal_id concept_key evidence in
      rw (found) refl

-- A concept that has just been proposed is not proposed again: a second call with its key, whatever its
-- other arguments, leaves everything as it is and returns the ids of the first call.
pub create_unknown_concept_proposal_once :
    (core : Core) (proposal_id review_id next_proposal next_review concept_key : String)
    (reason actor next_reason next_actor : String) (evidence confidence more certain : Value)
    → let first =
        create_unknown_concept_proposal core proposal_id review_id concept_key reason evidence
          confidence actor in
      create_unknown_concept_proposal first.0 next_proposal next_review concept_key next_reason more
        certain next_actor
      ≡ (
        first.0,
        record {
          proposal_id = first.1.proposal_id;
          review_id = first.1.review_id;
          deduplicated = true;
        },
      )
unfolding concept_review
create_unknown_concept_proposal_once core proposal_id review_id next_proposal next_review
      concept_key reason actor next_reason next_actor evidence confidence more certain =
    let Same : Core × Proposed → Type 0 = λ first.
      create_unknown_concept_proposal first.0 next_proposal next_review concept_key next_reason more
        certain next_actor
      ≡ (
        first.0,
        record {
          proposal_id = first.1.proposal_id;
          review_id = first.1.review_id;
          deduplicated = true;
        },
      ) in
    elim (Option-cases (find (asks_for concept_key) (open_reviews core))) [
      | inr (review, e) ↦
          subst Same
            (sym (
              proposal_known core proposal_id review_id concept_key reason actor evidence confidence
                review e))
            (proposal_known core next_proposal next_review concept_key next_reason next_actor more
              certain review e)
      | inl e ↦
          subst Same
            (sym (
              proposal_new core proposal_id review_id concept_key reason actor evidence confidence
                e))
            (proposal_known
              (proposed_core core proposal_id review_id concept_key reason evidence confidence
                actor)
              next_proposal next_review concept_key next_reason next_actor more certain
              (concept_review review_id proposal_id concept_key evidence)
              (proposal_found core proposal_id review_id concept_key reason actor evidence
                confidence))
    ]
