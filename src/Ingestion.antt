-- ===== src/Ingestion.antt =====
-- The attempts of application/ingestion_pipeline.py and domain/ports/ingestion.py: what a row of the
-- pipelines holds, what goes to the ports and comes back. A `datetime` of a row is left out: the rows
-- stand with the newest first, and no branch reads a time.
pub mod Messages
pub mod Proposals
pub mod Rows
pub mod Service
mod Tests
use andromeda_knowledge_core.Prelude.{
  ℕ, String, Bool, true, false, Option, none, some, List, [], ◌∷◌,
}
use andromeda_knowledge_core.Prelude.Int.{ℤ}
use andromeda_knowledge_core.Json.{Value, Fields}

pub data Stage : Type 0 where
  fetch_stage extract_stage publish_stage : Stage

pub data Status : Type 0 where
  pending fetched extracted published skipped_unchanged failed : Status

-- `status in {PUBLISHED, SKIPPED_UNCHANGED}`
unfoldable pub is_terminal : Status → Bool
is_terminal published = true
is_terminal skipped_unchanged = true
is_terminal _ = false

abbrev pub Bytes : Type 0
Bytes = List ℕ

-- What a port raises: the name of the exception's class, and its text.
pub record Exception : Type 0 where
  pub class_name : String
  pub text : String

pub data Outcome {ℓ} (A : Type ℓ) : Type ℓ where
  returned : A → Outcome A
  raised : Exception → Outcome A

pub record EvidenceRef : Type 0 where
  pub source_id : String
  pub locator : Fields
  pub excerpt_hash : Value

-- `Proposal`; its confidence is a float there, and here a number without a fraction.
pub record Proposal : Type 0 where
  pub proposal_type : String
  pub payload : Fields
  pub confidence : ℤ
  pub evidence : List EvidenceRef
  pub adapter : String

pub record Context : Type 0 where
  pub source_id : String
  pub source_url : String
  pub item_key : String
  pub profile : String
  pub ontology_snapshot : Fields
  pub metadata : Fields

pub record FetchedDocument : Type 0 where
  pub content : Bytes
  pub content_type : Value
  pub metadata : Fields

-- What a fetcher may return: its own type, the source adapters' one, or a mapping, whose content may
-- be missing or no bytes.
pub data FetchedValue : Type 0 where
  document : FetchedDocument → FetchedValue
  source_fetch_result : FetchedDocument → FetchedValue
  mapping : Option Bytes → Value → Value → FetchedValue

-- A row of `ingestion_pipeline_runs`.
pub record Pipeline : Type 0 where
  pub id : String
  pub pipeline_key : String
  pub source_id : String
  pub source_url : String
  pub item_key : String
  pub profile : String
  pub document_checksum : String
  pub status : Status
  pub last_successful_stage : Option Stage
  pub failed_stage : Option Stage
  pub fetched_content : Option Bytes
  pub content_type : Value
  pub fetch_metadata : Fields
  pub extraction : List Fields
  pub publish_result : Fields
  pub last_error : Option String

pub record RunResult : Type 0 where
  pub pipeline_id : String
  pub pipeline_key : String
  pub status : Status
  pub document_checksum : Option String
  pub resumed_from : Option Stage
  pub published : Fields

-- The ports that a service is given, the hash functions, and Python's `str` and `float` where they meet
-- a value that is no text and a text.
pub record Ports : Type 0 where
  pub fetch : Context → Outcome FetchedValue
  pub extract : Context → Bytes → Outcome (List Proposal)
  pub publish : Context → List Proposal → String → Outcome Fields
  pub content_digest : Bytes → String
  pub text_digest : String → String
  pub render : Value → String
  pub parse_float : String → Option ℤ

-- What comes after a call is not run if the call raises.
module _ {ℓ κ} {A : Type ℓ} {B : Type κ} where
  infixl 10 ◌>>=◌
  abbrev pub ◌>>=◌ : Outcome A → (A → Outcome B) → Outcome B
  returned value >>= rest = rest value
  raised error >>= rest = raised error
