-- ===== src/Ingestion/Service/Retry.antt =====
-- The first run of a pipeline whose publisher raises, and the run after it, in
-- application/ingestion_pipeline.py.
use andromeda_knowledge_core.Prelude.{◌≡◌, refl, ap, ◌∙◌, String, none, some, List, ◌∷◌, eq_iff}
use andromeda_knowledge_core.Json.{Fields}
use andromeda_knowledge_core.Ingestion.{
  is_terminal, Exception, Outcome, returned, raised, Proposal, Context, FetchedDocument,
  FetchedValue, Pipeline, RunResult, Ports,
}
use andromeda_knowledge_core.Ingestion.Rows.{
  World, find_latest_pipeline, find_row, amend, create_pipeline, amend_absent,
}
use andromeda_knowledge_core.Ingestion.Service.{
  identity_hash, normalise_fetched, new_pipeline, continue_run, pipeline_key, run,
}
use andromeda_knowledge_core.Ingestion.Service.Resume.{published_world, run-resumes_publish}
use andromeda_knowledge_core.Ingestion.Service.Failures.{
  fetched_context, run_calls, failed_attempt, fetch-raised,
}

run-first :
    (ports : Ports) (id : String) (context : Context) (world : World)
    → find_latest_pipeline (pipeline_key ports context) world.rows ≡ none
    → run ports id context world
      ≡ continue_run ports 2
          (new_pipeline id context (pipeline_key ports context) "")
          context
          (record world {
            rows = new_pipeline id context (pipeline_key ports context) "" ∷ world.rows;
          })
unfolding run create_pipeline
run-first ports id context world absent = rw (absent, run) refl

find_row-head : (row : Pipeline) (rows : List Pipeline) → find_row row.id (row ∷ rows) ≡ some row
unfolding find_row
find_row-head row rows = rw ((eq_iff row.id row.id).1 refl) refl

find_latest-head :
    (row : Pipeline) (rows : List Pipeline)
    → find_latest_pipeline row.pipeline_key (row ∷ rows) ≡ some row
unfolding find_latest_pipeline
find_latest-head row rows = rw ((eq_iff row.pipeline_key row.pipeline_key).1 refl) refl

amend-head :
    (row : Pipeline) (change : Pipeline → Pipeline) (rows : List Pipeline)
    → find_row row.id rows ≡ none
    → amend row.id change (row ∷ rows) ≡ change row ∷ rows
unfolding amend
amend-head row change rows absent =
    rw ((eq_iff row.id row.id).1 refl, amend_absent row.id change rows absent) refl

module _ (ports : Ports) (context : Context) (id : String) (error : Exception)
    (proposals : List Proposal) (value : FetchedValue) (fetched : FetchedDocument)
    (world : World) where
  abbrev pub first_attempt : Pipeline
  first_attempt = new_pipeline id context (pipeline_key ports context) ""

  -- The row and the calls that a first run leaves when its publisher raises
  abbrev pub after_failure : World
  after_failure = record {
    rows = failed_attempt ports context error proposals value fetched first_attempt ∷ world.rows;
    calls = run_calls context fetched proposals (ports.content_digest fetched.content) world.calls;
  }

  -- A first run whose fetch and extraction succeed and whose publisher raises `error` raises `error`;
  -- the new attempt keeps the document and the extraction, its last successful stage is the
  -- extraction, and its failed stage is the fetch, since each `except` on the way out overwrites the
  -- stage.
  pub run-raised :
      find_latest_pipeline (pipeline_key ports context) world.rows ≡ none
      → find_row id world.rows ≡ none
      → ports.fetch context ≡ returned value
      → normalise_fetched value ≡ returned fetched
      → ports.extract (fetched_context context fetched) fetched.content ≡ returned proposals
      → ports.publish
          (fetched_context context fetched)
          proposals
          (ports.content_digest fetched.content)
        ≡ raised error
      → run ports id context world ≡ (after_failure, raised error)
  unfolding new_pipeline
  run-raised absent unused given normal got refused =
      run-first ports id context world absent
      ∙ fetch-raised ports context error proposals value fetched first_attempt
          (record world { rows = first_attempt ∷ world.rows }) refl refl
          (find_row-head first_attempt world.rows) given normal got refused
      ∙ ap
          (λ rows. (
            record {
              rows = rows;
              calls =
                  run_calls context fetched proposals (ports.content_digest fetched.content)
                    world.calls;
            },
            raised error,
          ))
          (amend-head first_attempt (failed_attempt ports context error proposals value fetched)
            world.rows unused)

-- After a first run that failed in the publisher, on an extraction that is not empty, a run whose
-- publisher returns makes one call, to the publisher, with the proposals that were kept, and ends with
-- the attempt published: nothing is fetched or extracted again.
pub run-retried :
    (ports : Ports) (context : Context) (id next_id : String) (error : Exception)
    (proposal : Proposal) (proposals : List Proposal) (value : FetchedValue)
    (fetched : FetchedDocument) (world : World)
    (publisher : Context → List Proposal → String → Outcome Fields) (result : Fields)
    → find_latest_pipeline (pipeline_key ports context) world.rows ≡ none
    → find_row id world.rows ≡ none
    → ports.fetch context ≡ returned value
    → normalise_fetched value ≡ returned fetched
    → ports.extract (fetched_context context fetched) fetched.content
      ≡ returned (proposal ∷ proposals)
    → ports.publish
        (fetched_context context fetched)
        (proposal ∷ proposals)
        (ports.content_digest fetched.content)
      ≡ raised error
    → publisher context (proposal ∷ proposals) (ports.content_digest fetched.content)
      ≡ returned result
    → run (record ports { publish = publisher }) next_id context (run ports id context world).0
      ≡ published_world
          (failed_attempt ports context error
            (proposal ∷ proposals)
            value
            fetched
            (first_attempt ports context id error (proposal ∷ proposals) value fetched world))
          context
          (proposal ∷ proposals)
          result
          (after_failure ports context id error (proposal ∷ proposals) value fetched world)
unfolding pipeline_key is_terminal new_pipeline identity_hash
run-retried ports context id next_id error proposal proposals value fetched world publisher result
      absent unused given normal got refused sent =
    let retry : Ports = record ports { publish = publisher } in
    let left = after_failure ports context id error (proposal ∷ proposals) value fetched world in
    let row =
      failed_attempt ports context error (proposal ∷ proposals) value fetched
        (new_pipeline id context (pipeline_key ports context) "") in
    ap (λ (o : World × Outcome RunResult). run retry next_id context o.0)
      (run-raised ports context id error (proposal ∷ proposals) value fetched world absent unused
        given normal got refused)
    ∙ run-resumes_publish retry next_id context left row proposal proposals result
        (find_latest-head row world.rows) (find_row-head row world.rows) refl refl sent
