-- ===== src/KnowledgeService/Tests.antt =====
-- The correction of the level of a course, a relation that is asked for twice, an object with a new key, and the theorems at these
-- calls.
use andromeda_knowledge_core.Prelude.{
  true, zero, ◌∙◌, String, ◌≡◌, refl, sym, subst, Option, none, some, [], ◌∷◌, In, inl, inr, any,
  keep,
}
use andromeda_knowledge_core.Prelude.Int.{ℤ, pos}
use andromeda_knowledge_core.Prelude.Tables.{find, update_where}
use andromeda_knowledge_core.Errors.{Result, ok, err}
use andromeda_knowledge_core.Json.{arr, cons, nil, Value, null, num, str, field, end, get, to_list}
use andromeda_knowledge_core.Json.Compare.{is_in, py_eq}
use andromeda_knowledge_core.Temporal.{temporal_window, is_reversed}
use andromeda_knowledge_core.Dsl.Validate.{is_empty}
use andromeda_knowledge_core.Selectors.{fact_property_selectors, proper_prefixes}
use andromeda_knowledge_core.Text.{◌+++◌, split}
use andromeda_knowledge_core.Graph.{targets, is_visited, sorted_nodes}
use andromeda_knowledge_core.DependencyService.{
  invalidate, collect, unvisited, invalidate_derived, is_stale, is_listed, stale_count, audited,
}
use andromeda_knowledge_core.Ingestion.Service.{join_parts}
use andromeda_knowledge_core.Repository.{Ontology, Definition, given_text}
use andromeda_knowledge_core.Repository.Ontologies.{get_active_ontology}
use andromeda_knowledge_core.RuleService.{ontology_for}
use andromeda_knowledge_core.KnowledgeService.{
  Moment, is_current, KnowledgeObject, Relation, Fact, Knowledge, Printing, find_object,
  find_fact_by_identity, is_current, matches, is_about, list_facts, to_close,
  close_fact_transaction,
}
use andromeda_knowledge_core.KnowledgeService.Facts.{
  FactData, ensure_temporal, check_listed, is_number, is_bool, is_typed, validate_typed_value,
  list_column, text_column, defines, find_property, same_moment, is_replaced, find_replaced_fact,
  fact_identity, invalidate_selectors, invalidate_property, value_type_for, check_allowed,
  provenance_for, new_fact, close_replaced, log_fact, insert_fact, store_fact, create_fact,
}
use andromeda_knowledge_core.KnowledgeService.Current.{IsUtc, Consistent}
use andromeda_knowledge_core.KnowledgeService.Correction.{create_fact-Consistent}
use andromeda_knowledge_core.KnowledgeService.Relations.{
  RelationData, text_or, allows, check_relation, relation_identity, find_relation_by_identity,
  new_relation, insert_relation, store_relation, create_relation,
}
use andromeda_knowledge_core.KnowledgeService.Relations.Once.{create_relation_once}
use andromeda_knowledge_core.KnowledgeService.Objects.{
  ObjectData, find_object_by_key, upsert_object, check_object_type, create_object,
}
use andromeda_knowledge_core.KnowledgeService.Objects.Upserted.{
  OneForKey, IsUpserted, create_object-IsUpserted,
}

abbrev dumps_of : Value → String
dumps_of (str s) = s
dumps_of _ = "other"

-- nine o'clock in UTC, in the zone of an offset
abbrev offset_text : Option ℤ → String
offset_text none = "09:00:00"
offset_text (some (pos zero)) = "09:00:00+00:00"
offset_text (some _) = "12:00:00+03:00"

abbrev moment_text_of : Option Moment → String
moment_text_of none = "None"
moment_text_of (some moment) = offset_text moment.offset

abbrev printing : Printing
printing = record { dumps = dumps_of; moment_text = moment_text_of; text_digest = λ s. s }

abbrev nine_utc : Moment
nine_utc = record { instant = 540; offset = some (pos 0) }

abbrev twelve_moscow : Moment
twelve_moscow = record { instant = 540; offset = some (pos 180) }

abbrev level_from : Moment → String → FactData
level_from moment value = record {
  subject_id = "course";
  property_code = "level";
  value = str value;
  value_type = none;
  valid_from = some moment;
  valid_to = none;
  transaction_from = none;
  transaction_to = none;
  provenance_id = some "p1";
  source_id = none;
  confidence = num (pos 1);
  confidence_status = "VERIFIED";
  verification_status = "VERIFIED";
  ontology_version_id = none;
}

abbrev level : String → FactData
level = level_from nine_utc

abbrev ontology : Ontology
ontology = record {
  id = "o1";
  version_code = "1";
  previous_version_id = none;
  status = "ACTIVE";
  change_type = "INITIAL";
  migration_requirements = null;
  activated_at = some 1;
  row_version = 1;
}

abbrev level_definition : Definition
level_definition = record {
  id = "d1";
  kind = "property";
  ontology_version_id = "o1";
  content = field "code" (str "level") (field "value_type" (str "string") end);
}

abbrev offers_definition : Definition
offers_definition = record {
  id = "d2";
  kind = "relation_type";
  ontology_version_id = "o1";
  content =
      field "code" (str "offers")
        (field "allowed_target_types" (arr (cons (str "course") nil)) end);
}

abbrev school_definition : Definition
school_definition = record {
  id = "d3";
  kind = "object_type";
  ontology_version_id = "o1";
  content = field "code" (str "school") end;
}

abbrev first_level : Fact
first_level = new_fact printing (level "basic") "f1" "string" "p1" "o1" 3

abbrev start : Knowledge
start = record {
  core = record {
    rules = [];
    tests = [];
    relations = [];
    ontologies = ontology ∷ [];
    definitions = level_definition ∷ offers_definition ∷ school_definition ∷ [];
    reviews = [];
    proposals = [];
    changes = [];
    audit = [];
    derivations = record { dependencies = []; derived = []; audit = [] };
  };
  objects =
      record { id = "course"; stable_key = "course"; object_type_code = "course" }
      ∷ record { id = "school"; stable_key = "school"; object_type_code = "school" }
      ∷ [];
  facts = first_level ∷ [];
  relations = [];
  provenances = [];
}

opened : Unit {0}
unfolding is_reversed ◌+++◌ proper_prefixes split create_fact ensure_temporal temporal_window
    check_listed any ontology_for given_text get_active_ontology keep find_property find defines
    text_column list_column get to_list find_object check_allowed is_empty is_in value_type_for
    validate_typed_value is_typed is_number is_bool store_fact provenance_for find_fact_by_identity
    fact_identity join_parts insert_fact new_fact find_replaced_fact is_replaced same_moment
    list_facts is_about matches is_current close_replaced close_fact_transaction to_close
    update_where invalidate collect unvisited invalidate_derived is_stale is_listed stale_count
    audited targets is_visited sorted_nodes invalidate_property invalidate_selectors
    fact_property_selectors log_fact
opened = tt

abbrev value_of : {A : Type 0} → A → Result A → A
value_of default (ok value) = value
value_of default (err e) = default

abbrev corrected : Knowledge × Fact
corrected =
    value_of (start, first_level)
      (create_fact printing start (level "advanced") "f2" "p2" "ADMIN" 9)

corrects : create_fact printing start (level "advanced") "f2" "p2" "ADMIN" 9 ≡ ok corrected
unfolding opened
corrects = refl

-- the first fact is closed by the call
first_is_closed : (f : Fact) × In f corrected.0.facts × (f.transaction_to ≡ some 9)
unfolding opened
first_is_closed = (_, inr (inl refl), refl)

-- The same value from the same moment in another zone has another identity, and is a second current fact.
abbrev in_two_zones : Knowledge × Fact
in_two_zones =
    value_of (start, first_level)
      (create_fact printing start (level_from twelve_moscow "basic") "f2" "p2" "ADMIN" 9)

both_are_current :
    (f g : Fact) × In f in_two_zones.0.facts
    × In g in_two_zones.0.facts
    × (is_current f ≡ true)
    × (is_current g ≡ true)
    × (f.id ≡ "f1")
    × (g.id ≡ "f2")
unfolding opened
both_are_current = (_, _, inr (inl refl), inl refl, refl, refl, refl, refl)

start-Consistent : Consistent printing start.facts
unfolding opened
start-Consistent = record {
  in_utc = λ f m. elim m [
    | inl e ↦ subst (λ (x : Fact). IsUtc x.valid_from) (sym e) refl
    | inr none_left ↦ absurd none_left
  ];
  identified = λ f m. elim m [
    | inl e ↦
        subst
          (λ (x : Fact).
            x.identity_key
            ≡ fact_identity printing x.subject_id x.property_code x.value x.valid_from)
          (sym e) refl
    | inr none_left ↦ absurd none_left
  ];
  one_current = λ f g m n on too hs hc hv. elim m [
    | inl e ↦ elim n [ inl d ↦ cc | inr none_left ↦ absurd none_left ]
    | inr none_left ↦ absurd none_left
  ];
}

create_fact-Consistent_example : Consistent printing corrected.0.facts
create_fact-Consistent_example =
    create_fact-Consistent printing start (level "advanced") "f2" "p2" "ADMIN" 9 corrected refl refl
      refl start-Consistent corrects

abbrev offer : RelationData
offer = record {
  subject_id = "school";
  relation_type_code = "offers";
  object_id = "course";
  valid_from = none;
  valid_to = none;
  transaction_from = none;
  transaction_to = none;
  provenance_id = some "p1";
  confidence = num (pos 1);
  confidence_status = none;
  ontology_version_id = none;
}

relation_opened : Unit {0}
unfolding opened py_eq create_relation text_or allows check_relation relation_identity
    find_relation_by_identity new_relation insert_relation store_relation
relation_opened = tt

abbrev no_relation : Relation
no_relation =
    new_relation offer "" (record { id = ""; stable_key = ""; object_type_code = "" })
      (record { id = ""; stable_key = ""; object_type_code = "" }) "" "" "" 0

abbrev offered : Knowledge × Relation
offered = value_of (start, no_relation) (create_relation printing start offer "r1" "ADMIN" 4)

offers : create_relation printing start offer "r1" "ADMIN" 4 ≡ ok offered
unfolding relation_opened
offers = refl

create_relation_once_example : create_relation printing offered.0 offer "r2" "EDITOR" 8 ≡ ok offered
create_relation_once_example =
    create_relation_once printing start offer "r1" "r2" "ADMIN" "EDITOR" 4 8 offered offers

abbrev second_school : ObjectData
second_school = record {
  stable_key = "second";
  object_type_code = "school";
  valid_from = none;
  valid_to = none;
  transaction_from = none;
  transaction_to = none;
  ontology_version_id = none;
}

object_opened : Unit {0}
unfolding opened create_object find_object_by_key upsert_object check_object_type
object_opened = tt

abbrev added : Knowledge × KnowledgeObject
added =
    value_of (start, record { id = ""; stable_key = ""; object_type_code = "" })
      (create_object start second_school "s2" "ADMIN")

adds : create_object start second_school "s2" "ADMIN" ≡ ok added
unfolding object_opened
adds = refl

start_keys : OneForKey start.objects
start_keys o o' m m' h = elim m [
  | inl a ↦ elim m' [
    | inl b ↦ a ∙ sym b
    | inr n ↦ elim n [ inl b ↦ cc | inr none_left ↦ absurd none_left ]
  ]
  | inr n ↦ elim n [
    | inl a ↦ elim m' [
      | inl b ↦ cc
      | inr n' ↦ elim n' [ inl b ↦ a ∙ sym b | inr none_left ↦ absurd none_left ]
    ]
    | inr none_left ↦ absurd none_left
  ]
]

create_object-IsUpserted_example : IsUpserted start.objects "second" added.0.objects added.1
create_object-IsUpserted_example =
    create_object-IsUpserted start second_school "s2" "ADMIN" added start_keys adds
