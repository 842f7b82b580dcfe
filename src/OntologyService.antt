-- ===== src/OntologyService.antt =====
-- `OntologyService` of application/ontology_service.py: versions of the ontology, their definitions, and
-- the proposals for concepts that no version knows.
pub mod Sound
pub mod Editing
pub mod Fixed
pub mod Proposals
mod Tests
use andromeda_knowledge_core.Prelude.{
  ℕ, String, ◌≡◌, refl, Bool, true, false, not, Option, none, some, List, [], ◌∷◌, ◌&&◌, ◌||◌,
  str_eq, if◌then◌else◌,
}
use andromeda_knowledge_core.Prelude.Tables.{find}
use andromeda_knowledge_core.Errors.{
  Result, ok, err, Error, validation, conflict, not_found, ◌>>=◌, or_raise,
}
use andromeda_knowledge_core.Json.{Value, str, null, Fields, field, end, get, value_or_null}
use andromeda_knowledge_core.Json.Compare.{py_eq}
use andromeda_knowledge_core.DependencyService.{invalidate}
use andromeda_knowledge_core.Repository.{
  Ontology, Definition, Review, OntologyProposal, Core, given_text,
}
use andromeda_knowledge_core.Repository.Ontologies.{
  get_ontology, get_active_ontology, update_ontology, create_definition,
}
use andromeda_knowledge_core.Repository.Reviews.{open_reviews, create_review}
use andromeda_knowledge_core.ChangeService.{record_audit}

-- The payload of `create_version`
pub record VersionData : Type 0 where
  pub version_code : String
  pub previous_version_id : Option String
  pub change_type : String
  pub migration_requirements : Value

abbrev pub has_code : String → Ontology → Bool
has_code code ontology = str_eq ontology.version_code code

unfoldable pub new_version : String → VersionData → Ontology
new_version id data' = record {
  id = id;
  version_code = data'.version_code;
  previous_version_id = data'.previous_version_id;
  status = "DRAFT";
  change_type = data'.change_type;
  migration_requirements = data'.migration_requirements;
  activated_at = none;
  row_version = 1;
}

-- Only the first version has no previous one, and the previous one must be there.
unfoldable pub check_previous : Core → Option String → Result (Option String)
check_previous core previous = elim (given_text previous) [
  | some id ↦ do ontology ← get_ontology core id; ok (some id)
  | none ↦ elim core.ontologies [
    | [] ↦ ok none
    | ontology ∷ ontologies ↦ err (validation "ONTOLOGY_PREVIOUS_REQUIRED")
  ]
]

-- `create_version(data, actor)`; `id` is the new one.
unfoldable pub create_version : Core → String → VersionData → String → Result (Core × Ontology)
create_version core id data' actor = elim (find (has_code data'.version_code) core.ontologies) [
  | some existing ↦ ok (core, existing)
  | none ↦ do
    previous ← check_previous core data'.previous_version_id
    ok (
      record_audit
          (record {
            actor = actor;
            action = "ONTOLOGY_PROPOSED";
            entity_type = "ontology";
            entity_id = id;
            reason = none;
          })
          (record core { ontologies = new_version id data' ∷ core.ontologies }),
      new_version id data',
    )
]

-- a column of `{"id": …, "ontology_version_id": …, **data}`: the payload comes last. A value that is no
-- text, which the column refuses, is passed by.
unfoldable pub given_column : String → Fields → String → String
given_column name content default = elim (get name content) [ some (str text) ↦ text | _ ↦ default ]

abbrev pub new_definition : String → String → String → Fields → Definition
new_definition ontology_id id kind content = record {
  id = given_column "id" content id;
  kind = kind;
  ontology_version_id = given_column "ontology_version_id" content ontology_id;
  content = content;
}

-- `add_definition(ontology_id, kind, data, actor)`; `id` is a new id.
unfoldable pub add_definition :
    Core → String → String → String → Fields → String → Result (Core × Definition)
add_definition core ontology_id id kind content actor = do
  ontology ← get_ontology core ontology_id
  if str_eq ontology.status "ACTIVE" then err (conflict "ONTOLOGY_IMMUTABLE") else (do
    created ← create_definition (new_definition ontology_id id kind content) core
    ok (
      record_audit
          (record {
            actor = actor;
            action = "ONTOLOGY_DEFINITION_ADDED";
            entity_type = kind;
            entity_id = created.1.id;
            reason = none;
          })
          created.0,
      created.1,
    ))

abbrev pub set_ontology_status : String → Ontology → Ontology
set_ontology_status status ontology = record ontology { status = status }

abbrev pub set_activated : ℕ → Ontology → Ontology
set_activated now ontology = record ontology { status = "ACTIVE"; activated_at = some now }

-- the versions that may be activated
unfoldable pub may_activate : Ontology → Bool
may_activate ontology =
    str_eq ontology.status "DRAFT"
    || str_eq ontology.status "VALIDATING"
    || str_eq ontology.status "MIGRATING"

-- a breaking change is activated after its migration only
unfoldable pub needs_migration : Ontology → Bool
needs_migration ontology =
    str_eq ontology.change_type "BREAKING" && not (str_eq ontology.status "MIGRATING")

-- the active version leaves, and what depends on it is stale
unfoldable pub retire : Core → Ontology → Result Core
retire core active = do
  updated ←
      update_ontology core active.id (set_ontology_status "SUPERSEDED") (some active.row_version)
  invalidated ←
      invalidate updated.0.derivations ("ontology", active.id) "Ontology version superseded."
  ok (record updated.0 { derivations = invalidated.0 })

unfoldable pub retire_other : Core → String → Result Core
retire_other core ontology_id = elim (get_active_ontology core) [
  | none ↦ ok core
  | some active ↦ if str_eq active.id ontology_id then ok core else retire core active
]

-- what follows the guards
unfoldable pub activate_checked : Core → String → String → Option ℕ → ℕ → Result (Core × Ontology)
activate_checked core ontology_id actor expected now = do
  left ← retire_other core ontology_id
  updated ← update_ontology left ontology_id (set_activated now) expected
  ok (
    record_audit
        (record {
          actor = actor;
          action = "ONTOLOGY_CHANGED";
          entity_type = "ontology";
          entity_id = ontology_id;
          reason = none;
        })
        updated.0,
    updated.1,
  )

-- `activate(ontology_id, actor, expected_version)`; an active version is returned as it is.
unfoldable pub activate : Core → String → String → Option ℕ → ℕ → Result (Core × Ontology)
activate core ontology_id actor expected now = do
  ontology ← get_ontology core ontology_id
  if may_activate ontology
      then if needs_migration ontology
        then err (validation "MIGRATION_REQUIRED")
        else activate_checked core ontology_id actor expected now
      else if str_eq ontology.status "ACTIVE"
      then ok (core, ontology)
      else err (conflict "ONTOLOGY_INVALID_STATE")

-- `active_view()`, without the definitions
unfoldable pub active_view : Core → Result Ontology
active_view core = or_raise not_found (get_active_ontology core)

-- an open review of the same concept
unfoldable pub asks_for : String → Review → Bool
asks_for concept_key review =
    str_eq review.reason "UNKNOWN_CONCEPT"
    && py_eq (value_or_null (get "concept_key" review.proposed_change)) (str concept_key)

-- What a proposal gives: the ids of the proposal and of the review, and whether they were there before
pub record Proposed : Type 0 where
  pub proposal_id : String
  pub review_id : String
  pub deduplicated : Bool

unfoldable pub concept_review : String → String → String → Value → Review
concept_review review_id proposal_id concept_key evidence = record {
  id = review_id;
  reason = "UNKNOWN_CONCEPT";
  status = "NEEDS_REVIEW";
  entity_type = "ontology_proposal";
  entity_id = proposal_id;
  evidence = evidence;
  proposed_change = field "concept_key" (str concept_key) end;
  decision = end;
  decided_by = none;
  row_version = 1;
}

unfoldable pub concept_proposal :
    String → String → String → String → Value → Value → OntologyProposal
concept_proposal proposal_id review_id concept_key reason evidence confidence = record {
  id = proposal_id;
  concept_key = concept_key;
  reason = reason;
  source_evidence = evidence;
  confidence = confidence;
  status = "PROPOSED";
  review_id = review_id;
  row_version = 1;
}

-- `create_unknown_concept_proposal(…)`; `proposal_id` and `review_id` are new ids.
unfoldable pub create_unknown_concept_proposal :
    Core → String → String → String → String → Value → Value → String → Core × Proposed
create_unknown_concept_proposal core proposal_id review_id concept_key reason evidence confidence
      actor =
    elim (find (asks_for concept_key) (open_reviews core)) [
      | some review ↦ (
        core,
        record { proposal_id = review.entity_id; review_id = review.id; deduplicated = true },
      )
      | none ↦ (
        record_audit
            (record {
              actor = actor;
              action = "ONTOLOGY_CHANGE_PROPOSED";
              entity_type = "ontology_proposal";
              entity_id = proposal_id;
              reason = none;
            })
            (create_review (concept_review review_id proposal_id concept_key evidence)
              (record core {
                proposals =
                    concept_proposal proposal_id review_id concept_key reason evidence confidence
                    ∷ core.proposals;
              })),
        record { proposal_id = proposal_id; review_id = review_id; deduplicated = false },
      )
    ]
