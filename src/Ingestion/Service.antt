-- ===== src/Ingestion/Service.antt =====
-- `IngestionPipelineService` of application/ingestion_pipeline.py. A run either goes on with the newest
-- attempt of its pipeline, from the last stage that is kept, or fetches the source again and starts an
-- attempt when the document has changed.
pub mod Resume
pub mod Refresh
pub mod Failures
pub mod Retry
pub mod Progress
use andromeda_knowledge_core.Prelude.{
  ℕ, zero, suc, ◌≡◌, refl, String, Bool, true, false, Option, none, some, List, [], ◌∷◌, map,
  str_eq, if◌then◌else◌,
}
use andromeda_knowledge_core.Text.{◌+++◌}
use andromeda_knowledge_core.Json.{Value, null, str, obj, Fields, end}
use andromeda_knowledge_core.Json.Update.{merge}
use andromeda_knowledge_core.Ingestion.{
  Stage, fetch_stage, extract_stage, publish_stage, Status, pending, fetched, extracted, published,
  skipped_unchanged, failed, is_terminal, Bytes, Exception, Outcome, returned, raised, Proposal,
  Context, FetchedDocument, FetchedValue, document, source_fetch_result, mapping, Pipeline,
  RunResult, Ports,
}
use andromeda_knowledge_core.Ingestion.Messages.{safe_error}
use andromeda_knowledge_core.Ingestion.Proposals.{proposal_to_dict, proposals_from_dicts}
use andromeda_knowledge_core.Ingestion.Rows.{
  World, Action, Call, fetch_call, extract_call, publish_call, ◌>>=◌, after, pure, raise, lift,
  call_port, find_latest_pipeline, find_pipeline_by_checksum, create_pipeline, update_pipeline,
}

-- `"|".join(parts)`
unfoldable pub join_parts : List String → String
join_parts [] = ""
join_parts (part ∷ []) = part
join_parts (part ∷ next ∷ parts) = part +++ ("|" +++ join_parts (next ∷ parts))

-- `identity_hash(*parts)` of domain/identity.py
unfoldable pub identity_hash : Ports → List String → String
identity_hash ports parts = ports.text_digest (join_parts parts)

-- `_normalise_fetched(value)`
unfoldable pub normalise_fetched : FetchedValue → Outcome FetchedDocument
normalise_fetched (document value) = returned value
normalise_fetched (source_fetch_result value) = returned value
normalise_fetched (mapping none content_type metadata) =
    raised (record { class_name = "TypeError"; text = "Fetcher must return bytes content." })
normalise_fetched (mapping (some content) content_type (obj metadata)) =
    returned (record { content = content; content_type = content_type; metadata = metadata })
normalise_fetched (mapping (some content) content_type metadata) =
    returned (record { content = content; content_type = content_type; metadata = end })

-- `_new_pipeline(context, pipeline_key, document_checksum)`; the id is a fresh one of `new_id`.
unfoldable pub new_pipeline : String → Context → String → String → Pipeline
new_pipeline id context key checksum = record {
  id = id;
  pipeline_key = key;
  source_id = context.source_id;
  source_url = context.source_url;
  item_key = context.item_key;
  profile = context.profile;
  document_checksum = checksum;
  status = pending;
  last_successful_stage = none;
  failed_stage = none;
  fetched_content = none;
  content_type = null;
  fetch_metadata = end;
  extraction = [];
  publish_result = end;
  last_error = none;
}

-- `s or None`
abbrev pub text_or_none : String → Option String
text_or_none String.[] = none
text_or_none (String.◌∷◌ c s) = some (String.◌∷◌ c s)

abbrev pub given_or : {A : Type 0} → A → Option A → A
given_or default none = default
given_or default (some given) = given

-- `_result(pipeline, published)`
unfoldable pub result_of : Pipeline → Option Fields → RunResult
result_of row given = record {
  pipeline_id = row.id;
  pipeline_key = row.pipeline_key;
  status = row.status;
  document_checksum = text_or_none row.document_checksum;
  resumed_from = row.last_successful_stage;
  published = given_or row.publish_result given;
}

-- the data that each stage writes
abbrev pub set_failed : Stage → String → Pipeline → Pipeline
set_failed stage message row = record row {
  status = failed;
  failed_stage = some stage;
  last_error = some message;
}

abbrev pub set_fetched : String → FetchedDocument → Pipeline → Pipeline
set_fetched checksum fetched_document row = record row {
  document_checksum = checksum;
  status = fetched;
  last_successful_stage = some fetch_stage;
  failed_stage = none;
  fetched_content = some fetched_document.content;
  content_type = fetched_document.content_type;
  fetch_metadata = fetched_document.metadata;
  last_error = none;
}

abbrev pub set_extracted : List Proposal → Pipeline → Pipeline
set_extracted proposals row = record row {
  status = extracted;
  last_successful_stage = some extract_stage;
  failed_stage = none;
  extraction = map proposal_to_dict proposals;
  last_error = none;
}

abbrev pub set_published : Fields → Pipeline → Pipeline
set_published result row = record row {
  status = published;
  last_successful_stage = some publish_stage;
  failed_stage = none;
  publish_result = result;
  last_error = none;
}

abbrev pub set_skipped : Pipeline → Pipeline
set_skipped row = record row { status = skipped_unchanged; last_error = none }

-- an incomplete attempt at the same document takes the content that was just fetched
abbrev pub set_content : FetchedDocument → Pipeline → Pipeline
set_content fetched_document row = record row {
  fetched_content = some fetched_document.content;
  content_type = fetched_document.content_type;
  fetch_metadata = fetched_document.metadata;
  last_error = none;
}

-- a new attempt at a document that has changed
abbrev pub set_refetched : FetchedDocument → Pipeline → Pipeline
set_refetched fetched_document row = record row {
  status = fetched;
  last_successful_stage = some fetch_stage;
  fetched_content = some fetched_document.content;
  content_type = fetched_document.content_type;
  fetch_metadata = fetched_document.metadata;
  last_error = none;
}

-- `_mark_failed(pipeline, stage, error)`
unfoldable pub mark_failed : Pipeline → Stage → Exception → Action Pipeline
mark_failed row stage error = update_pipeline row.id (set_failed stage (safe_error error))

-- `except Exception as error: await self._mark_failed(pipeline, stage, error); raise`
unfoldable pub handle : Pipeline → Stage → World × Outcome RunResult → World × Outcome RunResult
handle row stage (world, returned result) = (world, returned result)
handle row stage (world, raised error) =
    after (mark_failed row stage error world) (λ marked. raise error)

-- A fetch makes a row that is not fetched again.
abbrev pub run_depth : ℕ
run_depth = 2

module _ (ports : Ports) where
  -- What `_publish` tries, after the stored proposals were read
  unfoldable pub try_publish : Pipeline → Context → List Proposal → Action RunResult
  try_publish row context proposals = do
    result ←
        call_port (publish_call context proposals row.document_checksum)
          (ports.publish context proposals row.document_checksum)
    updated ← update_pipeline row.id (set_published result)
    pure (result_of updated (some result))

  -- `_publish(pipeline, context)`: a stored proposal that cannot be read raises outside the `try`.
  unfoldable pub publish : Pipeline → Context → Action RunResult
  publish row context = do
    proposals ← lift (proposals_from_dicts ports row.extraction)
    λ world. handle row publish_stage (try_publish row context proposals world)

  -- What `_extract` tries
  unfoldable pub try_extract : Pipeline → Context → Bytes → Action RunResult
  try_extract row context content = do
    proposals ← call_port (extract_call context content) (ports.extract context content)
    updated ← update_pipeline row.id (set_extracted proposals)
    publish updated context

  -- `replace(context, metadata={**context.metadata, **metadata})`
  abbrev pub extraction_context : Pipeline → Context → Context
  extraction_context row context = record context {
    metadata = merge context.metadata row.fetch_metadata;
  }

  -- `_extract(pipeline, context)`, with `_fetch` for a row without content
  unfoldable pub extract :
      (Pipeline → Context → Action RunResult) → Pipeline → Context → Action RunResult
  extract fetch_again row context world = elim row.fetched_content [
    | none ↦ fetch_again row context world
    | some content ↦
        handle row extract_stage (try_extract row (extraction_context row context) content world)
  ]

  -- What `_fetch` tries; `resume` is `_continue`.
  unfoldable pub try_fetch :
      (Pipeline → Context → Action RunResult) → Pipeline → Context → Action RunResult
  try_fetch resume row context = do
    value ← call_port (fetch_call context) (ports.fetch context)
    fetched_document ← lift (normalise_fetched value)
    updated ←
        update_pipeline row.id
          (set_fetched (ports.content_digest fetched_document.content) fetched_document)
    resume updated context

  -- `_fetch(pipeline, context)`
  unfoldable pub fetch :
      (Pipeline → Context → Action RunResult) → Pipeline → Context → Action RunResult
  fetch resume row context world = handle row fetch_stage (try_fetch resume row context world)

  abbrev pub too_deep : Exception
  too_deep = record { class_name = "RecursionError"; text = "maximum recursion depth exceeded" }

  -- `_continue(pipeline, context)`, with a bound on the depth of its calls
  unfoldable pub continue_run : ℕ → Pipeline → Context → Action RunResult
  continue_run zero row context = raise too_deep
  continue_run (suc depth) row context = elim row.extraction [
    | proposal ∷ proposals ↦ publish row context
    | [] ↦ elim row.fetched_content [
      | some content ↦ extract (fetch (continue_run depth)) row context
      | none ↦ fetch (continue_run depth) row context
    ]
  ]

  -- What `_refresh_published` does with an older attempt at the same document
  unfoldable pub refresh_existing : Pipeline → Context → FetchedDocument → Action RunResult
  refresh_existing existing context fetched_document = elim (is_terminal existing.status) [
    | false ↦ update_pipeline existing.id (set_content fetched_document) >>= λ updated.
        continue_run run_depth updated context
    | true ↦ update_pipeline existing.id set_skipped >>= λ updated. pure (result_of updated none)
  ]

  -- What it does with a document that has no attempt yet
  unfoldable pub refresh_changed :
      String → String → String → Context → FetchedDocument → Action RunResult
  refresh_changed id key checksum context fetched_document = do
    attempt ← create_pipeline (new_pipeline id context key checksum)
    updated ← update_pipeline attempt.id (set_refetched fetched_document)
    continue_run run_depth updated context

  -- What it does with the document it has fetched
  unfoldable pub refresh_document :
      String → Pipeline → Context → String → FetchedDocument → Action RunResult
  refresh_document id current context key fetched_document world =
      let checksum = ports.content_digest fetched_document.content in
      elim (str_eq checksum current.document_checksum) [
        | true ↦
            (update_pipeline current.id set_skipped >>= λ updated. pure (result_of updated none))
              world
        | false ↦ elim (find_pipeline_by_checksum key checksum world.rows) [
          | some existing ↦ refresh_existing existing context fetched_document world
          | none ↦ refresh_changed id key checksum context fetched_document world
        ]
      ]

  -- `_refresh_published(current, context, pipeline_key)`: a fetch that raises leaves the rows alone.
  unfoldable pub refresh_published : String → Pipeline → Context → String → Action RunResult
  refresh_published id current context key = do
    value ← call_port (fetch_call context) (ports.fetch context)
    fetched_document ← lift (normalise_fetched value)
    refresh_document id current context key fetched_document

  unfoldable pub pipeline_key : Context → String
  pipeline_key context =
      identity_hash ports
        ("source-pipeline" ∷ context.source_url ∷ context.item_key ∷ context.profile ∷ [])

  -- `run(context)`; `id` is what `new_id` gives.
  unfoldable pub run : String → Context → Action RunResult
  run id context world = elim (find_latest_pipeline (pipeline_key context) world.rows) [
    | none ↦
        (create_pipeline (new_pipeline id context (pipeline_key context) "") >>= λ created.
        continue_run run_depth created context)
          world
    | some current ↦ elim (is_terminal current.status) [
      | true ↦ refresh_published id current context (pipeline_key context) world
      | false ↦ continue_run run_depth current context world
    ]
  ]
