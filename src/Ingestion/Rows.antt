-- ===== src/Ingestion/Rows.antt =====
-- The rows of the pipelines: what `find_latest_pipeline`, `find_pipeline_by_checksum`,
-- `create_pipeline` and `update_pipeline` of infrastructure/db/repositories.py do with them, and the
-- actions of a service, which leave rows behind also when they raise.
use andromeda_knowledge_core.Prelude.{
  String, true, ◌≡◌, refl, Option, none, some, List, [], ◌∷◌, ◌&&◌, str_eq, if◌then◌else◌, inl, inr,
  Bool-cases, ap, ◌∙◌, Option-cases,
}
use mathlib.Core.Option
use andromeda_knowledge_core.Text.{◌+++◌}
use andromeda_knowledge_core.Ingestion.{
  Pipeline, Context, Bytes, Proposal, Exception, Outcome, returned, raised,
}

-- A call of a port.
pub data Call : Type 0 where
  fetch_call : Context → Call
  extract_call : Context → Bytes → Call
  publish_call : Context → List Proposal → String → Call

-- The rows, and the calls of the ports so far; both have the newest first.
pub record World : Type 0 where
  pub rows : List Pipeline
  pub calls : List Call

abbrev pub Action : Type 0 → Type 0
Action A = World → World × Outcome A

module _ {A B : Type 0} where
  abbrev pub after : World × Outcome A → (A → Action B) → World × Outcome B
  after (world, returned value) rest = rest value world
  after (world, raised error) rest = (world, raised error)

  infixl 10 ◌>>=◌
  abbrev pub ◌>>=◌ : Action A → (A → Action B) → Action B
  (call >>= rest) world = after (call world) rest

abbrev pub pure : {A : Type 0} → A → Action A
pure value world = (world, returned value)

abbrev pub raise : {A : Type 0} → Exception → Action A
raise error world = (world, raised error)

-- A computation that touches no row
abbrev pub lift : {A : Type 0} → Outcome A → Action A
lift outcome world = (world, outcome)

abbrev pub record_call : Call → World → World
record_call call world = record world { calls = call ∷ world.calls }

-- `await port(…)`: the call is made, whatever comes of it.
abbrev pub call_port : {A : Type 0} → Call → Outcome A → Action A
call_port call outcome world = (record_call call world, outcome)

-- the row that `update_pipeline` reads by its id
unfoldable pub find_row : String → List Pipeline → Option Pipeline
find_row id [] = none
find_row id (row ∷ rows) = if str_eq row.id id then some row else find_row id rows

-- `find_latest_pipeline(pipeline_key)`
unfoldable pub find_latest_pipeline : String → List Pipeline → Option Pipeline
find_latest_pipeline key [] = none
find_latest_pipeline key (row ∷ rows) =
    if str_eq row.pipeline_key key then some row else find_latest_pipeline key rows

-- `find_pipeline_by_checksum(pipeline_key, document_checksum)`
unfoldable pub find_pipeline_by_checksum : String → String → List Pipeline → Option Pipeline
find_pipeline_by_checksum key checksum [] = none
find_pipeline_by_checksum key checksum (row ∷ rows) =
    if str_eq row.pipeline_key key && str_eq row.document_checksum checksum
    then some row
    else find_pipeline_by_checksum key checksum rows

-- the rows after a change of those with an id
unfoldable pub amend : String → (Pipeline → Pipeline) → List Pipeline → List Pipeline
amend id change [] = []
amend id change (row ∷ rows) =
    let rest = amend id change rows in if str_eq row.id id then change row ∷ rest else row ∷ rest

-- `NotFoundError("ingestion_pipeline", id)`
abbrev pub no_pipeline : String → Exception
no_pipeline id = record {
  class_name = "NotFoundError";
  text = "ingestion_pipeline '" +++ (id +++ "' was not found.");
}

-- `create_pipeline(data)`; its unique constraint, on the key and the checksum, and its foreign key are not
-- modelled.
unfoldable pub create_pipeline : Pipeline → Action Pipeline
create_pipeline row world = (record world { rows = row ∷ world.rows }, returned row)

-- `update_pipeline(pipeline_id, data)`
unfoldable pub update_pipeline : String → (Pipeline → Pipeline) → Action Pipeline
update_pipeline id change world = elim (find_row id world.rows) [
  | none ↦ raise (no_pipeline id) world
  | some row ↦ (record world { rows = amend id change world.rows }, returned (change row))
]

same_id :
    (change : Pipeline → Pipeline) (id : String) (r : Pipeline)
    → (change r).id ≡ r.id
    → str_eq r.id id ≡ true
    → str_eq (change r).id id ≡ true
same_id change id r same e = ap (λ k. str_eq k id) same ∙ e

-- A change that leaves the id alone is found under the same id.
pub find-amend :
    (id : String) (change : Pipeline → Pipeline) (rows : List Pipeline) (row : Pipeline)
    → ((r : Pipeline) → (change r).id ≡ r.id)
    → find_row id rows ≡ some row
    → find_row id (amend id change rows) ≡ some (change row)
unfolding find_row amend
find-amend id change [] row same h = cc
find-amend id change (r ∷ rows) row same h = elim (Bool-cases (str_eq r.id id)) [
  | inl e ↦
      let h' = rw e at h in
      let e' = same_id change id r (same r) e in rw (e, e') (ap (Option.map change) h')
  | inr e ↦ let h' = rw e at h in rw (e, e) (find-amend id change rows row same h')
]

pub amend-amend :
    (id : String) (first second : Pipeline → Pipeline) (rows : List Pipeline)
    → ((r : Pipeline) → (first r).id ≡ r.id)
    → amend id second (amend id first rows) ≡ amend id (λ r. second (first r)) rows
unfolding amend
amend-amend id first second [] same = refl
amend-amend id first second (r ∷ rows) same = elim (Bool-cases (str_eq r.id id)) [
  | inl e ↦
      let e' = same_id first id r (same r) e in
      rw (e, e', amend-amend id first second rows same) refl
  | inr e ↦ rw (e, e, amend-amend id first second rows same) refl
]

pub amend_absent :
    (id : String) (change : Pipeline → Pipeline) (rows : List Pipeline)
    → find_row id rows ≡ none
    → amend id change rows ≡ rows
unfolding amend find_row
amend_absent id change [] h = refl
amend_absent id change (r ∷ rows) h = elim (Bool-cases (str_eq r.id id)) [
  | inl e ↦ let h' = rw e at h in cc
  | inr e ↦ let h' = rw e at h in rw (e, amend_absent id change rows h') refl
]

pub update_pipeline-found :
    (id : String) (change : Pipeline → Pipeline) (world : World) (row : Pipeline)
    → find_row id world.rows ≡ some row
    → update_pipeline id change world
      ≡ (record world { rows = amend id change world.rows }, returned (change row))
unfolding update_pipeline
update_pipeline-found id change world row h = rw (h, update_pipeline) refl

-- An update that returns has changed a row.
pub update_pipeline-eq-returned :
    (id : String) (change : Pipeline → Pipeline) (world next : World) (updated : Pipeline)
    → update_pipeline id change world ≡ (next, returned updated)
    → (row : Pipeline) × (updated ≡ change row)
unfolding update_pipeline
update_pipeline-eq-returned id change world next updated h =
    elim (Option-cases (find_row id world.rows)) [
      | inl e ↦ let h' = rw (e, update_pipeline) at h in cc
      | inr (row, e) ↦ let h' = rw (e, update_pipeline) at h in (row, cc)
    ]

-- Two continuations that agree on what a call returns give the same action.
pub after-cong :
    {A B : Type 0} (outcome : World × Outcome A) (f g : A → Action B)
    → ((a : A) (world : World) → outcome ≡ (world, returned a) → f a world ≡ g a world)
    → after outcome f ≡ after outcome g
after-cong (world, returned a) f g h = h a world refl
after-cong (world, raised e) f g h = refl
