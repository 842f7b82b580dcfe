-- ===== src/Ingestion/Service/Progress/Run.antt =====
-- That `run` of application/ingestion_pipeline.py, on every path, leaves the attempts that it finds.
use andromeda_knowledge_core.Prelude.{
  ℕ, zero, suc, refl, String, Option, none, some, List, [], ◌∷◌, inl, inr, str_eq, Bool-cases,
  Option-cases,
}
use andromeda_knowledge_core.Json.{Fields}
use andromeda_knowledge_core.Ingestion.{
  extract_stage, is_terminal, Bytes, Proposal, Context, FetchedDocument, Pipeline, RunResult, Ports,
}
use andromeda_knowledge_core.Ingestion.Rows.{
  World, Action, after, pure, create_pipeline, find_latest_pipeline, find_pipeline_by_checksum,
  update_pipeline,
}
use andromeda_knowledge_core.Ingestion.Service.{
  run_depth, result_of, new_pipeline, set_fetched, set_extracted, set_published, set_skipped,
  set_content, set_refetched, handle, extraction_context, try_publish, publish, try_extract,
  extract, try_fetch, fetch, continue_run, refresh_existing, refresh_changed, refresh_document,
  refresh_published, pipeline_key, run,
}
use andromeda_knowledge_core.Ingestion.Service.Progress.{
  Keeps-same, Keeps-fetched, Progresses, Extends, progress_rules, update_pipeline-Progresses,
  Progresses-bind, Progresses-pure,
}

set_published-Progresses :
    (id : String) (result : Fields) → Progresses (update_pipeline id (set_published result))
set_published-Progresses id result = update_pipeline-Progresses id _ λ r. Keeps-same r _ refl refl

set_extracted-Progresses :
    (id : String) (proposals : List Proposal)
    → Progresses (update_pipeline id (set_extracted proposals))
set_extracted-Progresses id proposals =
    update_pipeline-Progresses id _ λ r. Keeps-same r _ refl refl

set_skipped-Progresses : (id : String) → Progresses (update_pipeline id set_skipped)
set_skipped-Progresses id = update_pipeline-Progresses id _ λ r. Keeps-same r _ refl refl

module _ (id : String) (found : FetchedDocument) where
  set_fetched-Progresses :
      (checksum : String) → Progresses (update_pipeline id (set_fetched checksum found))
  set_fetched-Progresses checksum =
      update_pipeline-Progresses id _ λ r. Keeps-fetched r _ found.content refl refl

  set_content-Progresses : Progresses (update_pipeline id (set_content found))
  set_content-Progresses =
      update_pipeline-Progresses id _ λ r. Keeps-fetched r _ found.content refl refl

  set_refetched-Progresses : Progresses (update_pipeline id (set_refetched found))
  set_refetched-Progresses =
      update_pipeline-Progresses id _ λ r. Keeps-fetched r _ found.content refl refl

ruleset update_rules = (
  progress_rules, set_published-Progresses, set_extracted-Progresses, set_skipped-Progresses,
  set_fetched-Progresses, set_content-Progresses, set_refetched-Progresses,
)

module _ (ports : Ports) where
  publish-Progresses : (row : Pipeline) (context : Context) → Progresses (publish ports row context)
  unfolding publish try_publish
  publish-Progresses row context = search update_rules depth 14

  try_extract-Progresses :
      (row : Pipeline) (context : Context) (content : Bytes)
      → Progresses (try_extract ports row context content)
  unfolding try_extract
  try_extract-Progresses row context content = search (update_rules, publish-Progresses) depth 14

  extract-Progresses :
      (again : Pipeline → Context → Action RunResult) (row : Pipeline) (context : Context)
      → Progresses (again row context)
      → Progresses (extract ports again row context)
  unfolding extract
  extract-Progresses again row context p = go row.fetched_content
    where
      go :
          (o : Option Bytes)
          → Progresses {A = RunResult} λ world. elim o [
            | none ↦ again row context world
            | some content ↦
                handle row extract_stage
                  (try_extract ports row (extraction_context ports row context) content world)
          ]
      go none = p
      go (some content) = search (update_rules, try_extract-Progresses) depth 14

  fetch-Progresses :
      (resume : Pipeline → Context → Action RunResult) (row : Pipeline) (context : Context)
      → ((updated : Pipeline) → Progresses (resume updated context))
      → Progresses (fetch ports resume row context)
  unfolding fetch try_fetch
  fetch-Progresses resume row context p = search (update_rules, p) depth 14

  resume-Progresses :
      (again : Pipeline → Context → Action RunResult) (row : Pipeline) (context : Context)
      (e : List Fields) (o : Option Bytes)
      → Progresses (fetch ports again row context)
      → Progresses (elim e [
        | proposal ∷ proposals ↦ publish ports row context
        | [] ↦ elim o [
          | some content ↦ extract ports (fetch ports again) row context
          | none ↦ fetch ports again row context
        ]
      ])
  resume-Progresses again row context (p ∷ ps) o f = publish-Progresses row context
  resume-Progresses again row context [] none f = f
  resume-Progresses again row context [] (some content) f =
      extract-Progresses (fetch ports again) row context f

  continue_run-Progresses :
      (depth : ℕ) (row : Pipeline) (context : Context)
      → Progresses (continue_run ports depth row context)
  unfolding continue_run
  continue_run-Progresses zero row context = search progress_rules
  continue_run-Progresses (suc depth) row context =
      resume-Progresses (continue_run ports depth) row context row.extraction row.fetched_content (
        fetch-Progresses (continue_run ports depth) row context
          λ updated. continue_run-Progresses depth updated context)

  refresh_existing-Progresses :
      (row : Pipeline) (context : Context) (found : FetchedDocument)
      → Progresses (refresh_existing ports row context found)
  unfolding refresh_existing
  refresh_existing-Progresses row context found = elim (Bool-cases (is_terminal row.status)) [
    | inl e ↦ rw (e, refresh_existing) (search update_rules depth 14)
    | inr e ↦ rw (e, refresh_existing) (search (update_rules, continue_run-Progresses) depth 14)
  ]

  refresh_changed-Progresses :
      (id key checksum : String) (context : Context) (found : FetchedDocument)
      → Progresses (refresh_changed ports id key checksum context found)
  unfolding refresh_changed
  refresh_changed-Progresses id key checksum context found =
      search (update_rules, continue_run-Progresses) depth 14

  refresh_document-Progresses :
      (id : String) (current : Pipeline) (context : Context) (key : String)
      (found : FetchedDocument)
      → Progresses (refresh_document ports id current context key found)
  unfolding refresh_document
  refresh_document-Progresses id current context key found = record {
    at = λ world.
        let checksum = ports.content_digest found.content in
        elim (Bool-cases (str_eq checksum current.document_checksum)) [
          | inl e ↦
              rw (e, refresh_document)
                ((Progresses-bind (update_pipeline current.id set_skipped)
                    (λ updated. pure (result_of updated none)) (set_skipped-Progresses current.id)
                    (λ updated. Progresses-pure (result_of updated none))).at
                  world)
          | inr e ↦ elim (Option-cases (find_pipeline_by_checksum key checksum world.rows)) [
            | inl d ↦
                rw (e, d, refresh_document)
                  ((refresh_changed-Progresses id key checksum context found).at world)
            | inr (existing, d) ↦
                rw (e, d, refresh_document)
                  ((refresh_existing-Progresses existing context found).at world)
          ]
        ];
  }

  refresh_published-Progresses :
      (id : String) (current : Pipeline) (context : Context) (key : String)
      → Progresses (refresh_published ports id current context key)
  unfolding refresh_published
  refresh_published-Progresses id current context key =
      search (progress_rules, refresh_document-Progresses) depth 14

  run_new-Progresses :
      (row : Pipeline) (context : Context)
      → Progresses λ world.
        after (create_pipeline row world) λ created. continue_run ports run_depth created context
  run_new-Progresses row context = search (progress_rules, continue_run-Progresses) depth 14

  -- Whatever the ports return or raise, a run deletes no attempt: each row that it found is still there,
  -- in its place after the rows that the run may have put in front, with the same id, key, source and
  -- item, and with a content if it had one.
  pub run-Extends :
      (id : String) (context : Context) (world : World)
      → Extends world.rows (run ports id context world).0.rows
  unfolding run
  run-Extends id context world =
      elim (Option-cases (find_latest_pipeline (pipeline_key ports context) world.rows)) [
        | inl e ↦
            rw (e, run)
              ((run_new-Progresses (new_pipeline id context (pipeline_key ports context) "")
                  context).at
                world)
        | inr (current, e) ↦ elim (Bool-cases (is_terminal current.status)) [
          | inl d ↦
              rw (e, run, d)
                ((refresh_published-Progresses id current context (pipeline_key ports context)).at
                  world)
          | inr d ↦ rw (e, run, d) ((continue_run-Progresses run_depth current context).at world)
        ]
      ]
