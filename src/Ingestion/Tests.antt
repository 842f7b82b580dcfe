-- ===== src/Ingestion/Tests.antt =====
-- Runs of one source whose document changes, and the theorems at those runs.
use andromeda_knowledge_core.Prelude.{◌≡◌, refl, String, none, List, [], ◌∷◌}
use andromeda_knowledge_core.Text.{◌+++◌}
use andromeda_knowledge_core.Prelude.Int.{pos}
use andromeda_knowledge_core.Json.{null, str, Fields, field, end, get, of_list}
use andromeda_knowledge_core.Ingestion.{
  is_terminal, Bytes, Exception, Outcome, returned, raised, Proposal, Context, FetchedDocument,
  document, Pipeline, Ports,
}
use andromeda_knowledge_core.Ingestion.Messages.{
  strip_start, strip_end, strip, one_line, take_text, safe_error,
}
use andromeda_knowledge_core.Ingestion.Proposals.{
  evidence_of, evidence_of_items, evidence_from_dict, evidence_to_dict, dict_of, text_of, float_of,
  proposal_from_dict, proposal_to_dict, proposals_from_dicts,
}
use andromeda_knowledge_core.Ingestion.Rows.{
  World, fetch_call, find_latest_pipeline, find_row, amend, create_pipeline, update_pipeline,
}
use andromeda_knowledge_core.Ingestion.Service.{
  join_parts, identity_hash, normalise_fetched, new_pipeline, result_of, set_published, set_skipped,
  set_extracted, set_fetched, handle, try_publish, publish, try_extract, extract, try_fetch, fetch,
  continue_run, pipeline_key, run,
}
use andromeda_knowledge_core.Ingestion.Service.Resume.{
  continue_run-depth, published_world, run-resumes_publish,
}
use andromeda_knowledge_core.Ingestion.Service.Refresh.{run_unchanged}
use andromeda_knowledge_core.Ingestion.Service.Failures.{failed_attempt}
use andromeda_knowledge_core.Ingestion.Service.Retry.{
  first_attempt, after_failure, run-raised, run-retried,
}
use andromeda_knowledge_core.Ingestion.Service.Progress.{Extends}
use andromeda_knowledge_core.Ingestion.Service.Progress.Run.{run-Extends}

message_kept :
    safe_error (record { class_name = "RuntimeError"; text = "  core\nunavailable " })
    ≡ "core unavailable"
unfolding safe_error strip strip_start strip_end one_line take_text ◌+++◌
message_kept = refl

message_missing : safe_error (record { class_name = "RuntimeError"; text = "  " }) ≡ "RuntimeError"
unfolding safe_error strip strip_start strip_end one_line take_text ◌+++◌
message_missing = refl

abbrev page : FetchedDocument
page = record {
  content = 7 ∷ 8 ∷ [];
  content_type = str "text/html";
  metadata = field "url" (str "u") end;
}

abbrev deadline : Proposal
deadline = record {
  proposal_type = "OBSERVATION_CANDIDATE";
  payload = field "deadline" (str "2026-07-20") end;
  confidence = pos 1;
  evidence = record { source_id = "s"; locator = end; excerpt_hash = null } ∷ [];
  adapter = "fixture";
}

abbrev unavailable : Exception
unavailable = record { class_name = "RuntimeError"; text = "core unavailable" }

abbrev publisher : Context → List Proposal → String → Outcome Fields
publisher context proposals checksum = returned (field "checksum" (str checksum) end)

abbrev refusing : Context → List Proposal → String → Outcome Fields
refusing context proposals checksum = raised unavailable

abbrev digest : Bytes → String
digest [] = "empty"
digest (b ∷ bytes) = "sum"

abbrev ports : Ports
ports = record {
  fetch = λ context. returned (document page);
  extract = λ context content. returned (deadline ∷ []);
  publish = publisher;
  content_digest = digest;
  text_digest = λ text. text;
  render = λ value. "";
  parse_float = λ text. none;
}

abbrev failing : Ports
failing = record ports { publish = refusing }

abbrev source : Context
source = record {
  source_id = "s";
  source_url = "u";
  item_key = "i";
  profile = "p";
  ontology_snapshot = end;
  metadata = end;
}

abbrev nothing : World
nothing = record { rows = []; calls = [] }

abbrev key : String
key = "source-pipeline|u|i|p"

-- the attempt after a run that publishes
abbrev done : Pipeline
done =
    set_published (field "checksum" (str "sum") end)
      (set_extracted (deadline ∷ []) (set_fetched "sum" page (new_pipeline "1" source key "")))

abbrev stored : World
stored = record { rows = done ∷ []; calls = [] }

published_at_once : (run ports "1" source nothing).0.rows ≡ done ∷ []
unfolding run pipeline_key identity_hash join_parts find_latest_pipeline create_pipeline
    new_pipeline continue_run fetch try_fetch normalise_fetched update_pipeline find_row amend
    extract try_extract publish try_publish handle proposals_from_dicts proposal_to_dict
    proposal_from_dict evidence_of evidence_of_items evidence_from_dict evidence_to_dict dict_of
    text_of float_of get of_list is_terminal ◌+++◌
published_at_once = refl

continue_run-depth_example :
    continue_run ports 5 (new_pipeline "1" source key "") source nothing
    ≡ continue_run ports 2 (new_pipeline "1" source key "") source nothing
continue_run-depth_example =
    continue_run-depth ports 3 (new_pipeline "1" source key "") source nothing

run-Extends_example : Extends (done ∷ []) (run failing "2" source stored).0.rows
run-Extends_example = run-Extends failing "2" source stored

abbrev waiting : Pipeline
waiting =
    failed_attempt failing source unavailable (deadline ∷ []) (document page) page
      (new_pipeline "1" source key "")

abbrev paused : World
paused = record { rows = waiting ∷ []; calls = [] }

run-resumes_publish_example :
    run ports "2" source paused
    ≡ published_world waiting source (deadline ∷ []) (field "checksum" (str "sum") end) paused
unfolding find_latest_pipeline pipeline_key identity_hash join_parts find_row is_terminal
    new_pipeline ◌+++◌
run-resumes_publish_example =
    run-resumes_publish ports "2" source paused waiting deadline []
      (field "checksum" (str "sum") end) refl refl refl refl refl

run_unchanged_example : run ports "2" source stored ≡ (
  record { rows = amend "1" set_skipped (done ∷ []); calls = fetch_call source ∷ [] },
  returned (result_of (set_skipped done) none),
)
unfolding find_latest_pipeline pipeline_key identity_hash join_parts find_row is_terminal
    new_pipeline normalise_fetched ◌+++◌
run_unchanged_example =
    run_unchanged ports "2" source stored done (document page) page refl refl refl refl refl refl

run-raised_example : run failing "1" source nothing ≡ (
  after_failure failing source "1" unavailable (deadline ∷ []) (document page) page nothing,
  raised unavailable,
)
unfolding find_latest_pipeline find_row normalise_fetched
run-raised_example =
    run-raised failing source "1" unavailable (deadline ∷ []) (document page) page nothing refl refl
      refl refl refl refl

run-retried_example :
    run (record failing { publish = publisher }) "2" source (run failing "1" source nothing).0
    ≡ published_world
        (failed_attempt failing source unavailable (deadline ∷ []) (document page) page (
          first_attempt failing source "1" unavailable
            (deadline ∷ [])
            (document page)
            page
            nothing))
        source
        (deadline ∷ [])
        (field "checksum" (str "sum") end)
        (after_failure failing source "1" unavailable (deadline ∷ []) (document page) page nothing)
unfolding find_latest_pipeline find_row normalise_fetched
run-retried_example =
    run-retried failing source "1" "2" unavailable deadline [] (document page) page nothing
      publisher (field "checksum" (str "sum") end) refl refl refl refl refl refl refl
