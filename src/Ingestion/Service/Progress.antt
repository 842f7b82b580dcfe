-- ===== src/Ingestion/Service/Progress.antt =====
-- What no run of application/ingestion_pipeline.py takes away, whatever the ports do: the attempts, what
-- identifies them, and the content that was fetched.
pub mod Run
use andromeda_knowledge_core.Prelude.{
  ℕ, zero, suc, ◌≡◌, refl, sym, ap, ◌∙◌, String, Bool, true, false, Option, none, some, List, [],
  ◌∷◌, ◌⊎◌, inl, inr, str_eq, if◌then◌else◌, Bool-cases, Option-cases, List-cases,
}
use andromeda_knowledge_core.Ingestion.{
  Stage, is_terminal, Bytes, Exception, Outcome, returned, raised, Proposal, Context,
  FetchedDocument, Pipeline, RunResult, Ports,
}
use andromeda_knowledge_core.Ingestion.Rows.{
  World, Action, Call, after, pure, raise, lift, call_port, find_row, find_latest_pipeline,
  find_pipeline_by_checksum, amend, create_pipeline, update_pipeline,
}
use andromeda_knowledge_core.Ingestion.Service.{
  new_pipeline, set_failed, set_fetched, set_extracted, set_published, set_skipped, set_content,
  set_refetched, mark_failed, handle, try_publish, publish, try_extract, extract, try_fetch, fetch,
  continue_run, refresh_existing, refresh_changed, refresh_document, refresh_published,
  pipeline_key, run,
}

-- What says which attempt at which source a row is
abbrev pub identity : Pipeline → String × String × String × String × String × String
identity row = (row.id, row.pipeline_key, row.source_id, row.source_url, row.item_key, row.profile)

-- A row after a change: the same attempt at the same source, with a content if it had one.
pub record Keeps (before : Pipeline) (now : Pipeline) : Type 0 where
  pub same : identity now ≡ identity before
  pub content_kept :
      (content : Bytes)
      → before.fetched_content ≡ some content
      → (kept_content : Bytes) × (now.fetched_content ≡ some kept_content)

abbrev pub AllKept : List Pipeline → List Pipeline → Type 0
AllKept [] [] = Unit
AllKept (row ∷ rows) (now ∷ nows) = Keeps row now × AllKept rows nows
AllKept rows nows = ⊥

pub Keeps-same :
    (row now : Pipeline)
    → identity now ≡ identity row
    → now.fetched_content ≡ row.fetched_content
    → Keeps row now
Keeps-same row now e c = record { same = e; content_kept = λ content h. (content, c ∙ h) }

Keeps-refl : (row : Pipeline) → Keeps row row
Keeps-refl row = Keeps-same row row refl refl

Keeps-trans : (a b c : Pipeline) → Keeps a b → Keeps b c → Keeps a c
Keeps-trans a b c f g = record {
  same = g.same ∙ f.same;
  content_kept = λ content h. let (kept, k) = f.content_kept content h in g.content_kept kept k;
}

pub Keeps-fetched :
    (row now : Pipeline) (content : Bytes)
    → identity now ≡ identity row
    → now.fetched_content ≡ some content
    → Keeps row now
Keeps-fetched row now content e c = record { same = e; content_kept = λ old h. (content, c) }

-- What stands of the rows after some steps: every earlier row, and perhaps newer ones before them.
pub data Extends : List Pipeline → List Pipeline → Type 0 where
  kept : {rows nows : List Pipeline} → AllKept rows nows → Extends rows nows
  newer :
      {rows nows : List Pipeline} → (row : Pipeline) → Extends rows nows → Extends rows (row ∷ nows)

AllKept-refl : (rows : List Pipeline) → AllKept rows rows
AllKept-refl [] = tt
AllKept-refl (row ∷ rows) = (Keeps-refl row, AllKept-refl rows)

AllKept-trans : (a b c : List Pipeline) → AllKept a b → AllKept b c → AllKept a c
AllKept-trans [] [] [] f g = tt
AllKept-trans [] [] (z ∷ c) f g = g
AllKept-trans [] (y ∷ b) c f g = absurd f
AllKept-trans (x ∷ a) [] c f g = absurd f
AllKept-trans (x ∷ a) (y ∷ b) [] f g = g
AllKept-trans (x ∷ a) (y ∷ b) (z ∷ c) (f, fs) (g, gs) =
    (Keeps-trans x y z f g, AllKept-trans a b c fs gs)

Extends-trans : {a b c : List Pipeline} → Extends a b → Extends b c → Extends a c
Extends-trans e (newer row f) = newer row (Extends-trans e f)
Extends-trans (kept ks) (kept js) = kept (AllKept-trans _ _ _ ks js)
Extends-trans {c = []} (newer row e) (kept js) = absurd js
Extends-trans {c = now ∷ nows} (newer row e) (kept (j, js)) = newer now (Extends-trans e (kept js))

amend-AllKept :
    (id : String) (change : Pipeline → Pipeline) (rows : List Pipeline)
    → ((r : Pipeline) → Keeps r (change r))
    → AllKept rows (amend id change rows)
unfolding amend
amend-AllKept id change [] keeps = tt
amend-AllKept id change (row ∷ rows) keeps = elim (Bool-cases (str_eq row.id id)) [
  | inl e ↦ rw e (keeps row, amend-AllKept id change rows keeps)
  | inr e ↦ rw e (Keeps-refl row, amend-AllKept id change rows keeps)
]

-- An action after which every earlier row still stands
pub record Progresses {A : Type 0} (action : Action A) : Type 0 where
  pub at : (world : World) → Extends world.rows (action world).0.rows

module _ {A B : Type 0} where
  pub Progresses-bind :
      (call : Action A) (rest : A → Action B)
      → Progresses call
      → ((a : A) → Progresses (rest a))
      → Progresses (λ world. after (call world) rest)
  Progresses-bind call rest first next = record {
    at = λ world. go world (call world) (first.at world);
  }
    where
      go :
          (world : World) (o : World × Outcome A)
          → Extends world.rows o.0.rows
          → Extends world.rows (after o rest).0.rows
      go world (mid, returned a) e = Extends-trans e ((next a).at mid)
      go world (mid, raised error) e = e

module _ {A : Type 0} where
  pub Progresses-pure : (a : A) → Progresses (pure a)
  Progresses-pure a = record { at = λ world. kept (AllKept-refl world.rows) }

  pub Progresses-raise : (error : Exception) → Progresses {A = A} (raise error)
  Progresses-raise error = record { at = λ world. kept (AllKept-refl world.rows) }

  pub Progresses-lift : (outcome : Outcome A) → Progresses (lift outcome)
  Progresses-lift outcome = record { at = λ world. kept (AllKept-refl world.rows) }

  pub Progresses-call_port :
      (call : Call) (outcome : Outcome A) → Progresses (call_port call outcome)
  Progresses-call_port call outcome = record { at = λ world. kept (AllKept-refl world.rows) }

pub update_pipeline-Progresses :
    (id : String) (change : Pipeline → Pipeline)
    → ((r : Pipeline) → Keeps r (change r))
    → Progresses (update_pipeline id change)
unfolding update_pipeline
update_pipeline-Progresses id change keeps = record {
  at = λ world. elim (Option-cases (find_row id world.rows)) [
    | inl e ↦ rw (e, update_pipeline) (kept (AllKept-refl world.rows))
    | inr (row, e) ↦ rw (e, update_pipeline) (kept (amend-AllKept id change world.rows keeps))
  ];
}

pub create_pipeline-Progresses : (row : Pipeline) → Progresses (create_pipeline row)
unfolding create_pipeline
create_pipeline-Progresses row = record { at = λ world. newer row (kept (AllKept-refl world.rows)) }

-- `handle` marks the row, and raises again.
handle-Extends :
    (row : Pipeline) (stage : Stage) (rows : List Pipeline) (o : World × Outcome RunResult)
    → Extends rows o.0.rows
    → Extends rows (handle row stage o).0.rows
unfolding handle mark_failed
handle-Extends row stage rows (world, returned result) e = e
handle-Extends row stage rows (world, raised error) e = Extends-trans e (
    (Progresses-bind (mark_failed row stage error) (λ marked. raise error)
        (update_pipeline-Progresses row.id _ λ r. Keeps-same r _ refl refl)
        (λ marked. Progresses-raise error)).at
      world)

pub Progresses-handle :
    (row : Pipeline) (stage : Stage) (action : Action RunResult)
    → Progresses action
    → Progresses (λ world. handle row stage (action world))
Progresses-handle row stage action p = record {
  at = λ world. handle-Extends row stage world.rows (action world) (p.at world);
}

pub ruleset progress_rules = (
  Progresses-bind, Progresses-pure, Progresses-raise, Progresses-lift, Progresses-call_port,
  create_pipeline-Progresses, Progresses-handle,
)
