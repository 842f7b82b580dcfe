-- ===== src/KnowledgeService.antt =====
-- `KnowledgeService.create_fact` of application/knowledge_service.py, with the rows of the facts in
-- infrastructure/db/repositories.py. A fact is corrected by closing the transaction time of its row and
-- inserting another.
pub mod Facts
pub mod Current
pub mod Correction
pub mod Relations
pub mod Objects
mod Tests
use andromeda_knowledge_core.Prelude.{
  ℕ, String, Bool, true, false, not, Option, none, some, List, [], ◌∷◌, ◌&&◌, ◌||◌, any, keep,
  str_eq, ◌==◌, if◌then◌else◌,
}
use andromeda_knowledge_core.Prelude.Int.{ℤ}
use andromeda_knowledge_core.Prelude.Tables.{find, update_where}
use andromeda_knowledge_core.Errors.{Result, ok, err, not_found, conflict, ◌>>=◌, or_raise}
use andromeda_knowledge_core.Json.{Value, Fields}
use andromeda_knowledge_core.Repository.{Core, given_text}
use andromeda_knowledge_core.Repository.Rules.{is_closed}

-- `KnowledgeObjectModel`
pub record KnowledgeObject : Type 0 where
  pub id : String
  pub stable_key : String
  pub object_type_code : String

-- A datetime: its instant in UTC, and its offset from UTC, or none where it has no time zone and is read
-- as UTC. That a comparison of one with a zone and one without raises a TypeError is not modelled.
pub record Moment : Type 0 where
  pub instant : ℕ
  pub offset : Option ℤ

abbrev pub instant_of : Option Moment → Option ℕ
instant_of none = none
instant_of (some moment) = some moment.instant

-- `FactModel`, less the copies of its value in columns of their own
pub record Fact : Type 0 where
  pub id : String
  pub subject_id : String
  pub property_code : String
  pub value : Value
  pub value_type : String
  pub valid_from : Option Moment
  pub valid_to : Option Moment
  pub transaction_from : ℕ
  pub transaction_to : Option ℕ
  pub provenance_id : String
  pub confidence : Value
  pub confidence_status : String
  pub verification_status : String
  pub ontology_version_id : String
  pub identity_key : String

-- `ProvenanceRecordModel`
pub record Provenance : Type 0 where
  pub id : String
  pub source_id : String
  pub extraction_method : String

-- `RelationModel`
pub record Relation : Type 0 where
  pub id : String
  pub subject_id : String
  pub relation_type_code : String
  pub object_id : String
  pub valid_from : Option Moment
  pub valid_to : Option Moment
  pub transaction_from : ℕ
  pub transaction_to : Option ℕ
  pub provenance_id : String
  pub confidence : Value
  pub confidence_status : String
  pub verification_status : String
  pub ontology_version_id : String
  pub identity_key : String

pub record Knowledge : Type 0 where
  pub core : Core
  pub objects : List KnowledgeObject
  pub facts : List Fact
  pub relations : List Relation
  pub provenances : List Provenance

-- `json.dumps(value, sort_keys=True, default=str)`, `str` of a moment that may be missing, and the digest
-- of a text
pub record Printing : Type 0 where
  pub dumps : Value → String
  pub moment_text : Option Moment → String
  pub text_digest : String → String

-- `find_object(object_id)`
unfoldable pub find_object : Knowledge → String → Result KnowledgeObject
find_object k id = or_raise not_found (find (λ object. str_eq object.id id) k.objects)

-- `find_fact_by_identity(identity_key)`: closed rows count too.
unfoldable pub find_fact_by_identity : Knowledge → String → Option Fact
find_fact_by_identity k key = find (λ fact. str_eq fact.identity_key key) k.facts

-- the rows whose transaction time is open
unfoldable pub is_current : Fact → Bool
is_current fact = not (is_closed fact.transaction_to)

-- a filter that an empty argument turns off
unfoldable pub matches : String → String → Bool
matches wanted text = str_eq wanted "" || str_eq text wanted

unfoldable pub is_about : String → String → Fact → Bool
is_about subject_id property_code fact =
    matches subject_id fact.subject_id
    && matches property_code fact.property_code
    && is_current fact

-- `list_facts(subject_id=…, property_code=…)`, without `valid_at` and `known_at`, as `create_fact` calls it;
-- the order of the rows means nothing.
unfoldable pub list_facts : Knowledge → String → String → List Fact
list_facts k subject_id property_code = keep (is_about subject_id property_code) k.facts

unfoldable pub to_close : String → Fact → Bool
to_close id fact = str_eq fact.id id && is_current fact

abbrev pub closed_at : ℕ → Fact → Fact
closed_at now fact = record fact { transaction_to = some now }

-- `close_fact_transaction(fact_id, transaction_to)`
unfoldable pub close_fact_transaction : Knowledge → String → ℕ → Result Knowledge
close_fact_transaction k id now =
    if any (to_close id) k.facts
    then ok (record k { facts = update_where (to_close id) (closed_at now) k.facts })
    else err (conflict "CONCURRENT_MODIFICATION")
