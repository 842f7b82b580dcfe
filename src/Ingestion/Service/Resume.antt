-- ===== src/Ingestion/Service/Resume.antt =====
-- What a run of application/ingestion_pipeline.py does with an attempt that stopped: it goes on from
-- the last payload that was kept.
use andromeda_knowledge_core.Prelude.{
  ℕ, suc, ◌≡◌, refl, String, false, none, some, List, [], ◌∷◌, map, inl, inr, Option-cases,
  List-cases, ap, sym, ◌∙◌,
}
use andromeda_knowledge_core.Json.{Fields}
use andromeda_knowledge_core.Ingestion.{
  fetch_stage, extract_stage, publish_stage, is_terminal, Bytes, Outcome, returned, Proposal,
  Context, Pipeline, RunResult, Ports,
}
use andromeda_knowledge_core.Ingestion.Proposals.{
  proposal_to_dict, proposals_from_dicts, proposals_from-proposal_to_dict,
}
use andromeda_knowledge_core.Ingestion.Rows.{
  World, fetch_call, publish_call, ◌>>=◌, after, pure, lift, call_port, find_latest_pipeline,
  find_row, amend, update_pipeline, after-cong, update_pipeline-eq-returned, update_pipeline-found,
}
use andromeda_knowledge_core.Ingestion.Service.{
  normalise_fetched, result_of, set_fetched, set_published, mark_failed, handle, try_publish,
  publish, try_extract, extraction_context, extract, try_fetch, fetch, continue_run, pipeline_key,
  run,
}

-- What is kept of a row tells where it goes on.
module _ (ports : Ports) (n : ℕ) (row : Pipeline) (context : Context) (world : World) where
  pub continue_run-publish :
      (p : Fields) (ps : List Fields)
      → row.extraction ≡ p ∷ ps
      → continue_run ports (suc n) row context world ≡ publish ports row context world
  unfolding continue_run
  continue_run-publish p ps e = rw e refl

  pub continue_run-extract :
      (content : Bytes)
      → row.extraction ≡ []
      → row.fetched_content ≡ some content
      → continue_run ports (suc n) row context world
        ≡ handle row extract_stage
            (try_extract ports row (extraction_context ports row context) content world)
  unfolding continue_run extract try_extract handle mark_failed
  continue_run-extract content e c = rw (e, c, c) refl

  pub continue_run-fetch :
      row.extraction ≡ []
      → row.fetched_content ≡ none
      → continue_run ports (suc n) row context world
        ≡ handle row fetch_stage (try_fetch ports (continue_run ports n) row context world)
  unfolding continue_run fetch try_fetch handle mark_failed
  continue_run-fetch e c = rw (e, c) refl

-- A row whose content is kept is not fetched, so the bound does not matter.
continue_run-kept :
    (ports : Ports) (m n : ℕ) (row : Pipeline) (context : Context) (world : World) (content : Bytes)
    → row.fetched_content ≡ some content
    → continue_run ports (suc m) row context world ≡ continue_run ports (suc n) row context world
continue_run-kept ports m n row context world content h = elim (List-cases row.extraction) [
  | inl e ↦
      continue_run-extract ports m row context world content e h
      ∙ sym (continue_run-extract ports n row context world content e h)
  | inr (p, ps, e) ↦
      continue_run-publish ports m row context world p ps e
      ∙ sym (continue_run-publish ports n row context world p ps e)
]

try_fetch-depth :
    (ports : Ports) (m n : ℕ) (row : Pipeline) (context : Context) (world : World)
    → try_fetch ports (continue_run ports (suc m)) row context world
      ≡ try_fetch ports (continue_run ports (suc n)) row context world
unfolding try_fetch
try_fetch-depth ports m n row context world =
    after-cong (call_port (fetch_call context) (ports.fetch context) world) _ _ λ value w e.
      after-cong (lift (normalise_fetched value) w) _ _ λ found v d.
        after-cong
          (update_pipeline row.id (set_fetched (ports.content_digest found.content) found) v) _ _
          λ updated u c.
            let (old, changed) =
              update_pipeline-eq-returned row.id
                (set_fetched (ports.content_digest found.content) found) v u updated c in
            continue_run-kept ports m n updated context u found.content
              (ap (λ (p : Pipeline). p.fetched_content) changed)

-- A depth of two is enough: with any larger one a run goes on in the same way.
pub continue_run-depth :
    (ports : Ports) (n : ℕ) (row : Pipeline) (context : Context) (world : World)
    → continue_run ports (suc (suc n)) row context world ≡ continue_run ports 2 row context world
continue_run-depth ports n row context world = elim (Option-cases row.fetched_content) [
  | inr (content, e) ↦ continue_run-kept ports (suc n) 1 row context world content e
  | inl e ↦ elim (List-cases row.extraction) [
    | inr (p, ps, d) ↦
        continue_run-publish ports (suc n) row context world p ps d
        ∙ sym (continue_run-publish ports 1 row context world p ps d)
    | inl d ↦
        continue_run-fetch ports (suc n) row context world d e
        ∙ ap (handle row fetch_stage) (try_fetch-depth ports n 0 row context world)
        ∙ sym (continue_run-fetch ports 1 row context world d e)
  ]
]

-- The newest attempt of a pipeline, not yet terminal, is the one that a run goes on with.
pub run-continue_run :
    (ports : Ports) (id : String) (context : Context) (world : World) (row : Pipeline)
    → find_latest_pipeline (pipeline_key ports context) world.rows ≡ some row
    → is_terminal row.status ≡ false
    → run ports id context world ≡ continue_run ports 2 row context world
unfolding run
run-continue_run ports id context world row found live = rw (found, run, live) refl

-- The world after a publication that succeeds: the row is published, and the publisher is called.
abbrev pub published_world :
    Pipeline → Context → List Proposal → Fields → World → World × Outcome RunResult
published_world row context proposals result world = (
  record {
    rows = amend row.id (set_published result) world.rows;
    calls = publish_call context proposals row.document_checksum ∷ world.calls;
  },
  returned (result_of (set_published result row) (some result)),
)

try_publish_lem :
    (ports : Ports) (row : Pipeline) (context : Context) (world : World) (proposals : List Proposal)
    (result : Fields)
    → find_row row.id world.rows ≡ some row
    → ports.publish context proposals row.document_checksum ≡ returned result
    → try_publish ports row context proposals world
      ≡ published_world row context proposals result world
unfolding try_publish
try_publish_lem ports row context world proposals result kept sent =
    ap
      (λ o. after (call_port (publish_call context proposals row.document_checksum) o world) λ r.
        update_pipeline row.id (set_published r) >>= λ updated. pure (result_of updated (some r)))
      sent
    ∙ ap (λ o. after o λ updated. pure (result_of updated (some result)))
        (update_pipeline-found row.id (set_published result) _ row kept)

pub publish-read :
    (ports : Ports) (row : Pipeline) (context : Context) (world : World) (proposals : List Proposal)
    → row.extraction ≡ map proposal_to_dict proposals
    → publish ports row context world
      ≡ handle row publish_stage (try_publish ports row context proposals world)
unfolding publish
publish-read ports row context world proposals stored =
    ap
      (λ o.
        after (lift o world)
          λ read w. handle row publish_stage (try_publish ports row context read w))
      (ap (proposals_from_dicts ports) stored ∙ proposals_from-proposal_to_dict ports proposals)

publish_lem :
    (ports : Ports) (row : Pipeline) (context : Context) (world : World) (proposals : List Proposal)
    (result : Fields)
    → row.extraction ≡ map proposal_to_dict proposals
    → find_row row.id world.rows ≡ some row
    → ports.publish context proposals row.document_checksum ≡ returned result
    → publish ports row context world ≡ published_world row context proposals result world
unfolding handle
publish_lem ports row context world proposals result stored kept sent =
    publish-read ports row context world proposals stored
    ∙ ap (handle row publish_stage)
        (try_publish_lem ports row context world proposals result kept sent)

-- If the newest attempt of a run has kept an extraction that is not empty and is not terminal, and the
-- publisher returns for the proposals of that extraction, then the run calls the publisher on them and
-- nothing else, and the attempt is published with the result.
pub run-resumes_publish :
    (ports : Ports) (id : String) (context : Context) (world : World) (row : Pipeline)
    (proposal : Proposal) (proposals : List Proposal) (result : Fields)
    → find_latest_pipeline (pipeline_key ports context) world.rows ≡ some row
    → find_row row.id world.rows ≡ some row
    → is_terminal row.status ≡ false
    → row.extraction ≡ map proposal_to_dict (proposal ∷ proposals)
    → ports.publish context (proposal ∷ proposals) row.document_checksum ≡ returned result
    → run ports id context world ≡ published_world row context (proposal ∷ proposals) result world
run-resumes_publish ports id context world row proposal proposals result found kept live stored
      sent =
    run-continue_run ports id context world row found live
    ∙ continue_run-publish ports 1 row context world (proposal_to_dict proposal)
        (map proposal_to_dict proposals) stored
    ∙ publish_lem ports row context world (proposal ∷ proposals) result stored kept sent
