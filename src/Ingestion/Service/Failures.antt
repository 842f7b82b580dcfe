-- ===== src/Ingestion/Service/Failures.antt =====
-- A publisher that raises, in application/ingestion_pipeline.py: each `except` on the way out marks
-- the attempt, and the next run publishes what was kept.
use andromeda_knowledge_core.Prelude.{◌≡◌, refl, ap, ◌∙◌, String, none, some, List, [], ◌∷◌, map}
use andromeda_knowledge_core.Json.Update.{merge}
use andromeda_knowledge_core.Ingestion.{
  Stage, fetch_stage, extract_stage, publish_stage, Bytes, Exception, Outcome, returned, raised,
  Proposal, Context, FetchedDocument, FetchedValue, Pipeline, RunResult, Ports,
}
use andromeda_knowledge_core.Ingestion.Messages.{safe_error}
use andromeda_knowledge_core.Ingestion.Proposals.{proposal_to_dict}
use andromeda_knowledge_core.Ingestion.Rows.{
  World, Call, fetch_call, extract_call, publish_call, ◌>>=◌, after, pure, raise, lift, call_port,
  record_call, find_row, amend, update_pipeline, find-amend, amend-amend, update_pipeline-found,
}
use andromeda_knowledge_core.Ingestion.Service.{
  normalise_fetched, result_of, set_failed, set_fetched, set_extracted, set_published, mark_failed,
  handle, try_publish, publish, try_extract, try_fetch, continue_run,
}
use andromeda_knowledge_core.Ingestion.Service.Resume.{
  continue_run-extract, continue_run-fetch, publish-read,
}

-- What is left behind by a stage that raises
abbrev failed_world : String → (Pipeline → Pipeline) → Exception → World → World × Outcome RunResult
failed_world id change error world =
    (record world { rows = amend id change world.rows }, raised error)

handle-raised :
    (row kept : Pipeline) (stage : Stage) (error : Exception) (world : World)
    → find_row row.id world.rows ≡ some kept
    → handle row stage (world, raised error)
      ≡ failed_world row.id (set_failed stage (safe_error error)) error world
unfolding handle mark_failed
handle-raised row kept stage error world found =
    ap (λ o. after o λ marked. raise error)
      (update_pipeline-found row.id (set_failed stage (safe_error error)) world kept found)

-- A stage whose change of the row was followed by a failure, handled: both changes stay.
handle-amended :
    (row kept : Pipeline) (stage : Stage) (change : Pipeline → Pipeline) (error : Exception)
    (world : World)
    → ((r : Pipeline) → (change r).id ≡ r.id)
    → find_row row.id world.rows ≡ some kept
    → handle row stage (failed_world row.id change error world)
      ≡ failed_world row.id (λ r. set_failed stage (safe_error error) (change r)) error world
handle-amended row kept stage change error world same found =
    handle-raised row (change kept) stage error _
      (find-amend row.id change world.rows kept same found)
    ∙ ap (λ rows. (record world { rows = rows }, raised error))
        (amend-amend row.id change (set_failed stage (safe_error error)) world.rows same)

module _ (ports : Ports) (context : Context) (error : Exception) (proposals : List Proposal) where
  publish-raised :
      (row : Pipeline) (world : World)
      → row.extraction ≡ map proposal_to_dict proposals
      → find_row row.id world.rows ≡ some row
      → ports.publish context proposals row.document_checksum ≡ raised error
      → publish ports row context world
        ≡ failed_world row.id
            (set_failed publish_stage (safe_error error))
            error
            (record_call (publish_call context proposals row.document_checksum) world)
  unfolding try_publish
  publish-raised row world stored kept refused =
      publish-read ports row context world proposals stored
      ∙ ap
          (λ o. handle row publish_stage (
            after (call_port (publish_call context proposals row.document_checksum) o world) λ r.
              update_pipeline row.id (set_published r) >>= λ updated.
              pure (result_of updated (some r))))
          refused
      ∙ handle-raised row row publish_stage error _ kept

  -- the extraction is kept although the publisher raises
  try_extract-raised :
      (row : Pipeline) (content : Bytes) (world : World)
      → find_row row.id world.rows ≡ some row
      → ports.extract context content ≡ returned proposals
      → ports.publish context proposals row.document_checksum ≡ raised error
      → try_extract ports row context content world
        ≡ failed_world row.id
            (λ r. set_failed publish_stage (safe_error error) (set_extracted proposals r))
            error
            (record_call
              (publish_call context proposals row.document_checksum)
              (record_call (extract_call context content) world))
  unfolding try_extract
  try_extract-raised row content world kept got refused =
      ap
        (λ o. after (call_port (extract_call context content) o world) λ found.
          update_pipeline row.id (set_extracted found) >>= λ updated. publish ports updated context)
        got
      ∙ ap (λ o. after o λ updated. publish ports updated context)
          (update_pipeline-found row.id (set_extracted proposals) _ row kept)
      ∙ publish-raised (set_extracted proposals row)
          (record {
            rows = amend row.id (set_extracted proposals) world.rows;
            calls = extract_call context content ∷ world.calls;
          })
          refl (find-amend row.id (set_extracted proposals) world.rows row (λ r. refl) kept) refused
      ∙ ap
          (λ rows. (
            record {
              rows = rows;
              calls =
                  publish_call context proposals row.document_checksum
                  ∷ extract_call context content
                  ∷ world.calls;
            },
            raised error,
          ))
          (amend-amend row.id (set_extracted proposals)
            (set_failed publish_stage (safe_error error)) world.rows (λ r. refl))

-- the context that the extractor and, in the same run, the publisher are given
abbrev pub fetched_context : Context → FetchedDocument → Context
fetched_context context fetched = record context {
  metadata = merge context.metadata fetched.metadata;
}

-- The calls of a run that fetches, extracts and publishes
abbrev pub run_calls : Context → FetchedDocument → List Proposal → String → List Call → List Call
run_calls context fetched proposals checksum calls =
    publish_call (fetched_context context fetched) proposals checksum
    ∷ extract_call (fetched_context context fetched) fetched.content
    ∷ fetch_call context
    ∷ calls

module _ (ports : Ports) (context : Context) (error : Exception) (proposals : List Proposal)
    (value : FetchedValue) (fetched : FetchedDocument) where
  abbrev checksum : String
  checksum = ports.content_digest fetched.content

  continue_run-raised :
      (row : Pipeline) (world : World)
      → row.extraction ≡ []
      → row.fetched_content ≡ some fetched.content
      → row.fetch_metadata ≡ fetched.metadata
      → find_row row.id world.rows ≡ some row
      → ports.extract (fetched_context context fetched) fetched.content ≡ returned proposals
      → ports.publish (fetched_context context fetched) proposals row.document_checksum
        ≡ raised error
      → continue_run ports 1 row context world
        ≡ failed_world row.id
            (λ r. set_failed extract_stage (safe_error error) (set_extracted proposals r))
            error
            (record_call
              (publish_call (fetched_context context fetched) proposals row.document_checksum)
              (record_call (extract_call (fetched_context context fetched) fetched.content) world))
  continue_run-raised row world empty content metadata kept got refused =
      continue_run-extract ports 0 row context world fetched.content empty content
      ∙ ap
          (λ m. handle row extract_stage (
            try_extract ports row (record context { metadata = merge context.metadata m })
              fetched.content world))
          metadata
      ∙ ap (handle row extract_stage) (
          try_extract-raised ports (fetched_context context fetched) error proposals row
            fetched.content world kept got refused)
      ∙ handle-amended row row extract_stage
          (λ r. set_failed publish_stage (safe_error error) (set_extracted proposals r)) error _
          (λ r. refl) kept

  abbrev pub failed_attempt : Pipeline → Pipeline
  failed_attempt row =
      set_failed fetch_stage (safe_error error)
        (set_extracted proposals (set_fetched checksum fetched row))

  pub fetch-raised :
      (row : Pipeline) (world : World)
      → row.extraction ≡ []
      → row.fetched_content ≡ none
      → find_row row.id world.rows ≡ some row
      → ports.fetch context ≡ returned value
      → normalise_fetched value ≡ returned fetched
      → ports.extract (fetched_context context fetched) fetched.content ≡ returned proposals
      → ports.publish (fetched_context context fetched) proposals checksum ≡ raised error
      → continue_run ports 2 row context world ≡ (
        record {
          rows = amend row.id failed_attempt world.rows;
          calls = run_calls context fetched proposals checksum world.calls;
        },
        raised error,
      )
  unfolding try_fetch
  fetch-raised row world empty absent kept given normal got refused =
      continue_run-fetch ports 1 row context world empty absent
      ∙ ap
          (λ o. handle row fetch_stage (
            after (call_port (fetch_call context) o world) λ v. lift (normalise_fetched v) >>= λ d.
            update_pipeline row.id (set_fetched (ports.content_digest d.content) d) >>= λ u.
            continue_run ports 1 u context))
          given
      ∙ ap
          (λ o. handle row fetch_stage (
            after (lift o (record_call (fetch_call context) world)) λ d.
              update_pipeline row.id (set_fetched (ports.content_digest d.content) d) >>= λ u.
              continue_run ports 1 u context))
          normal
      ∙ ap (λ o. handle row fetch_stage (after o λ u. continue_run ports 1 u context))
          (update_pipeline-found row.id (set_fetched checksum fetched) _ row kept)
      ∙ ap (handle row fetch_stage) (
          continue_run-raised (set_fetched checksum fetched row)
            (record {
              rows = amend row.id (set_fetched checksum fetched) world.rows;
              calls = fetch_call context ∷ world.calls;
            })
            empty refl refl
            (find-amend row.id (set_fetched checksum fetched) world.rows row (λ r. refl) kept) got
            refused)
      ∙ ap
          (λ rows. handle row fetch_stage (
            record {
              rows = rows;
              calls = run_calls context fetched proposals checksum world.calls;
            },
            raised error,
          ))
          (amend-amend row.id (set_fetched checksum fetched)
            (λ r. set_failed extract_stage (safe_error error) (set_extracted proposals r))
            world.rows (λ r. refl))
      ∙ handle-amended row row fetch_stage
          (λ r.
            set_failed extract_stage (safe_error error)
              (set_extracted proposals (set_fetched checksum fetched r)))
          error
          (record {
            rows = world.rows;
            calls = run_calls context fetched proposals checksum world.calls;
          })
          (λ r. refl) kept
