-- ===== src/KnowledgeService/Facts.antt =====
-- `create_fact` of application/knowledge_service.py, with the functions that it calls there.
use andromeda_knowledge_core.Prelude.{
  ℕ, String, Bool, true, false, not, Option, none, some, List, [], ◌∷◌, ◌&&◌, ◌||◌, any, str_eq,
  ◌==◌, if◌then◌else◌,
}
use andromeda_knowledge_core.Prelude.Tables.{find}
use andromeda_knowledge_core.Errors.{Result, ok, err, validation, ◌>>=◌, or_raise}
use andromeda_knowledge_core.Json.{
  Value, bool, num, str, arr, get, value_or_null, to_list, is_text, is_list,
}
use andromeda_knowledge_core.Json.Compare.{is_in}
use andromeda_knowledge_core.Temporal.{TemporalWindow, temporal_window}
use andromeda_knowledge_core.Dsl.Validate.{is_empty}
use andromeda_knowledge_core.Selectors.{fact_property_selectors}
use andromeda_knowledge_core.DependencyService
use andromeda_knowledge_core.DependencyService.{invalidate}
use andromeda_knowledge_core.Ingestion.Service.{join_parts}
use andromeda_knowledge_core.Repository.{Definition, Core, given_text}
use andromeda_knowledge_core.ChangeService.{classify_fact, record_audit, create_change}
use andromeda_knowledge_core.RuleService.{ontology_for}
use andromeda_knowledge_core.KnowledgeService.{
  Moment, instant_of, KnowledgeObject, Fact, Provenance, Knowledge, Printing, find_object,
  find_fact_by_identity, list_facts, close_fact_transaction,
}

-- The payload of `create_fact`
pub record FactData : Type 0 where
  pub subject_id : String
  pub property_code : String
  pub value : Value
  pub value_type : Option String
  pub valid_from : Option Moment
  pub valid_to : Option Moment
  pub transaction_from : Option ℕ
  pub transaction_to : Option ℕ
  pub provenance_id : Option String
  pub source_id : Option String
  pub confidence : Value
  pub confidence_status : String
  pub verification_status : String
  pub ontology_version_id : Option String

-- `_ensure_temporal(data)`
unfoldable pub ensure_temporal : Option ℕ → Option ℕ → Option ℕ → Option ℕ → Result TemporalWindow
ensure_temporal valid_from valid_to transaction_from transaction_to =
    elim (temporal_window valid_from valid_to transaction_from transaction_to) [
      | ok window ↦ ok window
      | err e ↦ err (validation "INVALID_TEMPORAL_INTERVAL")
    ]

abbrev pub confidence_statuses : List String
confidence_statuses = "VERIFIED" ∷ "HIGH_CONFIDENCE" ∷ "UNCERTAIN" ∷ "CONFLICTING" ∷ "UNKNOWN" ∷ []

abbrev pub verification_statuses : List String
verification_statuses = "UNVERIFIED" ∷ "VERIFIED" ∷ "REJECTED" ∷ []

-- `_validate_confidence_status(value)`, and the same test of a verification status
unfoldable pub check_listed : List String → String → String → Result String
check_listed values code value =
    if any (str_eq value) values then ok value else err (validation code)

-- the value of a fact by its type
unfoldable pub is_number : Value → Bool
is_number (num n) = true
is_number _ = false

unfoldable pub is_bool : Value → Bool
is_bool (bool b) = true
is_bool _ = false

abbrev pub text_types : List String
text_types = "date" ∷ "datetime" ∷ "reference" ∷ []

-- the condition of `_validate_typed_value`
unfoldable pub is_typed : String → Value → List Value → Bool
is_typed value_type value enum_values =
    (str_eq value_type "string" && is_text value)
    || (str_eq value_type "integer" && is_number value)
    || (str_eq value_type "decimal" && is_number value)
    || (str_eq value_type "boolean" && is_bool value)
    || (any (str_eq value_type) text_types && is_text value)
    || (str_eq value_type "collection" && is_list value)
    || (str_eq value_type "enum"
        && is_text value
        && (is_empty enum_values || is_in value enum_values))

-- `_validate_typed_value(value_type, value, enum_values)`
unfoldable pub validate_typed_value : String → Value → List Value → Result Bool
validate_typed_value value_type value enum_values =
    if is_typed value_type value enum_values then ok true else err (validation "FACT_TYPE_MISMATCH")

-- the column of a definition, as the list that it holds or an empty one
unfoldable pub list_column : String → Definition → List Value
list_column name definition = elim (value_or_null (get name definition.content)) [
  | arr items ↦ to_list items
  | _ ↦ []
]

-- the column of a definition that holds a text
unfoldable pub text_column : String → Definition → String
text_column name definition = elim (value_or_null (get name definition.content)) [
  | str s ↦ s
  | _ ↦ ""
]

unfoldable pub defines : String → String → String → Definition → Bool
defines ontology_id kind code definition =
    str_eq definition.ontology_version_id ontology_id
    && str_eq definition.kind kind
    && str_eq (text_column "code" definition) code

-- the definition of a property in a version of the ontology
unfoldable pub find_property : Core → String → String → Option Definition
find_property core ontology_id code = find (defines ontology_id "property" code) core.definitions

-- `_same_moment(left, right)`
unfoldable pub same_moment : Option Moment → Option Moment → Bool
same_moment none none = true
same_moment (some left) (some right) = left.instant == right.instant
same_moment left right = false

-- `_find_replaced_fact(facts, value, valid_from)`
unfoldable pub is_replaced : Printing → Value → Option Moment → Fact → Bool
is_replaced p value valid_from fact =
    same_moment fact.valid_from valid_from && not (str_eq (p.dumps fact.value) (p.dumps value))

unfoldable pub find_replaced_fact : Printing → List Fact → Value → Option Moment → Option Fact
find_replaced_fact p facts value valid_from = find (is_replaced p value valid_from) facts

-- `identity_hash(subject_id, property_code, json.dumps(value), valid_from)`, with the text of the moment and
-- its zone
unfoldable pub fact_identity : Printing → String → String → Value → Option Moment → String
fact_identity p subject_id property_code value valid_from =
    p.text_digest
      (join_parts (subject_id ∷ property_code ∷ p.dumps value ∷ p.moment_text valid_from ∷ []))

-- the loop of `_invalidate_fact_property_dependencies`
unfoldable pub invalidate_selectors :
    DependencyService.Store → List String → Result DependencyService.Store
invalidate_selectors store [] = ok store
invalidate_selectors store (selector ∷ selectors) = do
  invalidated ←
      invalidate store ("fact_property", selector)
        "A canonical fact for a previously queried property was accepted."
  invalidate_selectors invalidated.0 selectors

-- `_invalidate_fact_property_dependencies(repo, property_code)`
unfoldable pub invalidate_property :
    DependencyService.Store → String → Result DependencyService.Store
invalidate_property store property_code =
    invalidate_selectors store (fact_property_selectors property_code)

-- the type of the value, by the payload or the definition, which must agree
unfoldable pub value_type_for : FactData → Definition → Result String
value_type_for data' definition = elim (given_text data'.value_type) [
  | none ↦ ok (text_column "value_type" definition)
  | some given ↦
      if str_eq given (text_column "value_type" definition)
      then ok given
      else err (validation "FACT_TYPE_MISMATCH")
]

-- the object type must be one that the property allows, if it names any
unfoldable pub check_allowed : Definition → KnowledgeObject → Result Bool
check_allowed definition subject =
    let allowed = list_column "allowed_object_types" definition in
    if is_empty allowed || is_in (str subject.object_type_code) allowed
    then ok true
    else err (validation "ONTOLOGY_MISMATCH")

abbrev manual : String → String → Provenance
manual id source_id = record { id = id; source_id = source_id; extraction_method = "manual" }

-- the given provenance, or a new one for the source
unfoldable pub provenance_for : Knowledge → FactData → String → Result (Knowledge × String)
provenance_for k data' new_id = elim (given_text data'.provenance_id) [
  | some given ↦ ok (k, given)
  | none ↦ elim (given_text data'.source_id) [
    | none ↦ err (validation "MISSING_PROVENANCE")
    | some source ↦ ok (record k { provenances = manual new_id source ∷ k.provenances }, new_id)
  ]
]

-- the row that `create_fact` inserts
unfoldable pub new_fact : Printing → FactData → String → String → String → String → ℕ → Fact
new_fact p data' id value_type provenance_id ontology_id now = record {
  id = id;
  subject_id = data'.subject_id;
  property_code = data'.property_code;
  value = data'.value;
  value_type = value_type;
  valid_from = data'.valid_from;
  valid_to = data'.valid_to;
  transaction_from = now;
  transaction_to = none;
  provenance_id = provenance_id;
  confidence = data'.confidence;
  confidence_status = data'.confidence_status;
  verification_status = data'.verification_status;
  ontology_version_id = ontology_id;
  identity_key = fact_identity p data'.subject_id data'.property_code data'.value data'.valid_from;
}

-- the current fact that is corrected, if there is one, is closed and what rests on it is stale
unfoldable pub close_replaced : Knowledge → Option Fact → ℕ → Result Knowledge
close_replaced k none now = ok k
close_replaced k (some old) now = do
  left ← close_fact_transaction k old.id now
  invalidated ←
      invalidate left.core.derivations ("fact", old.id)
        "Canonical fact corrected by an authorized actor."
  ok (record left { core = record left.core { derivations = invalidated.0 } })

-- the change and the audit entry of a fact
unfoldable pub log_fact : String → Option Fact → Fact → Core → Core
log_fact actor before fact core =
    record_audit
      (record {
        actor = actor;
        action = "FACT_ACCEPTED";
        entity_type = "fact";
        entity_id = fact.id;
        reason = none;
      })
      (create_change
        (record {
          classification = classify_fact before (some fact);
          entity_type = "fact";
          entity_id = fact.id;
          reason = "Direct fact accepted by an authorized actor.";
        })
        core)

-- the writes of `create_fact` for an identity that is new
unfoldable pub insert_fact :
    Printing → Knowledge → FactData → Fact → String → ℕ → Result (Knowledge × Fact)
insert_fact p k data' fact actor now = do
  let before =
      find_replaced_fact p (list_facts k data'.subject_id data'.property_code) data'.value
        data'.valid_from
  left ← close_replaced k before now
  derivations ← invalidate_property left.core.derivations data'.property_code
  ok (
    record left {
      facts = fact ∷ left.facts;
      core = log_fact actor before fact (record left.core { derivations = derivations });
    },
    fact,
  )

-- `create_fact(data, actor)` once the payload has passed: a fact with the same identity is returned, and
-- nothing is committed.
unfoldable pub store_fact :
    Printing
    → Knowledge
    → FactData
    → String
    → String
    → String
    → String
    → String
    → ℕ
    → Result (Knowledge × Fact)
store_fact p k data' id provenance_id value_type ontology_id actor now = do
  prepared ← provenance_for k data' provenance_id
  elim (find_fact_by_identity prepared.0
      (fact_identity p data'.subject_id data'.property_code data'.value data'.valid_from)) [
        | some existing ↦ ok (k, existing)
        | none ↦
            insert_fact p prepared.0 data'
              (new_fact p data' id value_type prepared.1 ontology_id now) actor now
      ]

-- `create_fact(data, actor)`; `id` and `provenance_id` are new ids.
unfoldable pub create_fact :
    Printing → Knowledge → FactData → String → String → String → ℕ → Result (Knowledge × Fact)
create_fact p k data' id provenance_id actor now = do
  window ←
      ensure_temporal (instant_of data'.valid_from) (instant_of data'.valid_to)
        data'.transaction_from data'.transaction_to
  confidence ← check_listed confidence_statuses "INVALID_CONFIDENCE_STATUS" data'.confidence_status
  verification ←
      check_listed verification_statuses "INVALID_VERIFICATION_STATUS" data'.verification_status
  ontology ← ontology_for k.core data'.ontology_version_id
  definition ←
      or_raise (validation "ONTOLOGY_MISMATCH")
        (find_property k.core ontology.id data'.property_code)
  subject ← find_object k data'.subject_id
  allowed ← check_allowed definition subject
  value_type ← value_type_for data' definition
  typed ← validate_typed_value value_type data'.value (list_column "enum_values" definition)
  store_fact p k data' id provenance_id value_type ontology.id actor now
