-- ===== src/OntologyService/Tests.antt =====
-- Two versions of an ontology, one after the other, and the theorems at those calls.
use andromeda_knowledge_core.Prelude.{
  String, ◌≡◌, refl, true, none, some, Option, [], ◌∷◌, In, inl, inr, any, keep,
}
use andromeda_knowledge_core.Prelude.Tables.{find, update_where}
use andromeda_knowledge_core.Errors.{Result, ok, err}
use andromeda_knowledge_core.Json.{null, end, field, str, get}
use andromeda_knowledge_core.Graph.{targets, is_visited, sorted_nodes}
use andromeda_knowledge_core.DependencyService.{
  invalidate, collect, unvisited, invalidate_derived, is_stale, is_listed, stale_count, audited,
}
use andromeda_knowledge_core.Repository.{Ontology, Definition, Core, given_text}
use andromeda_knowledge_core.Repository.Rules.{check_version}
use andromeda_knowledge_core.Repository.Ontologies.{
  get_ontology, is_active_ontology, get_active_ontology, update_ontology, create_definition,
}
use andromeda_knowledge_core.OntologyService.{
  VersionData, new_version, check_previous, create_version, given_column, add_definition,
  may_activate, needs_migration, retire, retire_other, activate_checked, activate, Proposed,
  create_unknown_concept_proposal,
}
use andromeda_knowledge_core.OntologyService.Editing.{
  NamesNoVersion, Edit, versioned, defined, activated, Edits, here, after, one_active_ontology,
}
use andromeda_knowledge_core.OntologyService.Fixed.{active_definitions_fixed}
use andromeda_knowledge_core.OntologyService.Proposals.{create_unknown_concept_proposal_once}

abbrev start : Core
start = record {
  rules = [];
  tests = [];
  relations = [];
  ontologies = [];
  definitions = [];
  reviews = [];
  proposals = [];
  changes = [];
  audit = [];
  derivations = record { dependencies = []; derived = []; audit = [] };
}

abbrev version_data : String → Option String → VersionData
version_data code previous = record {
  version_code = code;
  previous_version_id = previous;
  change_type = "BACKWARD_COMPATIBLE";
  migration_requirements = null;
}

opened : Unit {0}
unfolding get create_version check_previous new_version given_text get_ontology find any keep
    activate may_activate needs_migration activate_checked retire_other retire get_active_ontology
    update_ontology check_version update_where invalidate collect unvisited invalidate_derived
    is_stale is_listed stale_count audited targets is_visited sorted_nodes given_column
    add_definition create_definition
opened = tt

abbrev value_of : {A : Type 0} → A → Result A → A
value_of default (ok value) = value
value_of default (err e) = default

abbrev first_version : Ontology
first_version = new_version "o1" (version_data "1" none)

abbrev step_1 : Core × Ontology
step_1 = value_of (start, first_version) (create_version start "o1" (version_data "1" none) "ADMIN")

abbrev step_2 : Core × Ontology
step_2 = value_of (start, first_version) (activate step_1.0 "o1" "ADMIN" none 3)

abbrev step_3 : Core × Ontology
step_3 =
    value_of (start, first_version)
      (create_version step_2.0 "o2" (version_data "2" (some "o1")) "ADMIN")

abbrev step_4 : Core × Ontology
step_4 = value_of (start, first_version) (activate step_3.0 "o2" "ADMIN" (some 1) 7)

path : Edits start step_4.0
unfolding opened
path =
    after
      (after
        (after (after here (versioned start "o1" (version_data "1" none) "ADMIN" step_1 refl))
          (activated step_1.0 "o1" "ADMIN" none 3 step_2 refl))
        (versioned step_2.0 "o2" (version_data "2" (some "o1")) "ADMIN" step_3 refl))
      (activated step_3.0 "o2" "ADMIN" (some 1) 7 step_4 refl)

second_is_active : In step_4.1 step_4.0.ontologies × (is_active_ontology step_4.1 ≡ true)
unfolding opened
second_is_active = (inl refl, refl)

first_is_superseded : (o : Ontology) × In o step_4.0.ontologies × (o.status ≡ "SUPERSEDED")
unfolding opened
first_is_superseded = (_, inr (inl refl), refl)

one_active_ontology_example : step_4.1.id ≡ step_4.1.id
one_active_ontology_example =
    one_active_ontology start step_4.0 step_4.1 step_4.1 refl path second_is_active.0
      second_is_active.0 second_is_active.1 second_is_active.1

-- the first version has a definition when the second one gets its own
abbrev course : Definition
course = record { id = "d1"; kind = "object_type"; ontology_version_id = "o1"; content = end }

abbrev defined_core : Core
defined_core = record step_3.0 { definitions = course ∷ [] }

abbrev with_second : Core × Definition
with_second =
    value_of (start, course) (add_definition defined_core "o2" "d2" "property" end "EDITOR")

second_definition : Edit defined_core with_second.0
unfolding opened
second_definition = defined defined_core "o2" "d2" "property" end "EDITOR" with_second refl

plain : NamesNoVersion second_definition
unfolding opened second_definition
plain = refl

first_is_active : get_ontology defined_core "o1" ≡ ok step_2.1
unfolding opened
first_is_active = refl

first_is_live : is_active_ontology step_2.1 ≡ true
unfolding opened
first_is_live = refl

course_listed : In course with_second.0.definitions
unfolding opened
course_listed = inr (inl refl)

active_definitions_fixed_example : In course defined_core.definitions
active_definitions_fixed_example =
    active_definitions_fixed "o1" step_2.1 course second_definition plain first_is_active
      first_is_live refl course_listed

-- a payload that names the active version adds a definition to it
abbrev named : Core × Definition
named =
    value_of (start, course)
      (add_definition defined_core "o2" "d3" "property" (field "ontology_version_id" (str "o1") end)
        "EDITOR")

named_is_in_active :
    (d : Definition) × In d named.0.definitions × (d.id ≡ "d3") × (d.ontology_version_id ≡ "o1")
unfolding opened
named_is_in_active = (_, inl refl, refl, refl)

abbrev scholarship : Core × Proposed
scholarship =
    create_unknown_concept_proposal start "p1" "v1" "scholarship" "unknown" null null "PARSER"

create_unknown_concept_proposal_once_example :
    create_unknown_concept_proposal scholarship.0 "p2" "v2" "scholarship" "again" null null "EDITOR"
    ≡ (
      scholarship.0,
      record {
        proposal_id = scholarship.1.proposal_id;
        review_id = scholarship.1.review_id;
        deduplicated = true;
      },
    )
create_unknown_concept_proposal_once_example =
    create_unknown_concept_proposal_once start "p1" "v1" "p2" "v2" "scholarship" "unknown" "PARSER"
      "again" "EDITOR" null null null null
