-- ===== src/Ingestion/Service/Refresh.antt =====
-- `_refresh_published` of application/ingestion_pipeline.py: the source is fetched again once its
-- newest attempt is terminal.
use andromeda_knowledge_core.Prelude.{◌≡◌, refl, String, true, none, some, ◌∷◌, ap, ◌∙◌, eq_iff}
use andromeda_knowledge_core.Ingestion.{
  is_terminal, returned, Context, FetchedDocument, FetchedValue, Pipeline, Ports,
}
use andromeda_knowledge_core.Ingestion.Rows.{
  World, fetch_call, ◌>>=◌, after, pure, lift, call_port, record_call, find_latest_pipeline,
  find_row, amend, update_pipeline-found,
}
use andromeda_knowledge_core.Ingestion.Service.{
  normalise_fetched, result_of, set_skipped, refresh_published, refresh_document, pipeline_key, run,
}

run-refresh :
    (ports : Ports) (id : String) (context : Context) (world : World) (row : Pipeline)
    → find_latest_pipeline (pipeline_key ports context) world.rows ≡ some row
    → is_terminal row.status ≡ true
    → run ports id context world
      ≡ refresh_published ports id row context (pipeline_key ports context) world
unfolding run
run-refresh ports id context world row found ended = rw (found, run, ended) refl

refresh_document-same :
    (ports : Ports) (id key : String) (context : Context) (world : World) (row : Pipeline)
    (fetched : FetchedDocument)
    → find_row row.id world.rows ≡ some row
    → ports.content_digest fetched.content ≡ row.document_checksum
    → refresh_document ports id row context key fetched world ≡ (
      record world { rows = amend row.id set_skipped world.rows },
      returned (result_of (set_skipped row) none),
    )
unfolding refresh_document
refresh_document-same ports id key context world row fetched kept same =
    rw ((eq_iff _ _).1 same, refresh_document)
      (ap (λ o. after o λ updated. pure (result_of updated none))
        (update_pipeline-found row.id set_skipped world row kept))

-- When the newest attempt is terminal and the source still has the document of that attempt, a run
-- fetches it, calls neither the extractor nor the publisher, marks the attempt as skipped, and
-- reports the result of its earlier publication.
pub run_unchanged :
    (ports : Ports) (id : String) (context : Context) (world : World) (row : Pipeline)
    (value : FetchedValue) (fetched : FetchedDocument)
    → find_latest_pipeline (pipeline_key ports context) world.rows ≡ some row
    → is_terminal row.status ≡ true
    → find_row row.id world.rows ≡ some row
    → ports.fetch context ≡ returned value
    → normalise_fetched value ≡ returned fetched
    → ports.content_digest fetched.content ≡ row.document_checksum
    → run ports id context world ≡ (
      record {
        rows = amend row.id set_skipped world.rows;
        calls = fetch_call context ∷ world.calls;
      },
      returned (result_of (set_skipped row) none),
    )
unfolding refresh_published
run_unchanged ports id context world row value fetched found ended kept got normal same =
    run-refresh ports id context world row found ended
    ∙ ap
        (λ o. after (call_port (fetch_call context) o world) λ v.
          lift (normalise_fetched v) >>= λ d.
          refresh_document ports id row context (pipeline_key ports context) d)
        got
    ∙ ap
        (λ o.
          after (lift o (record_call (fetch_call context) world))
            λ d. refresh_document ports id row context (pipeline_key ports context) d)
        normal
    ∙ refresh_document-same ports id (pipeline_key ports context) context
        (record_call (fetch_call context) world) row fetched kept same
