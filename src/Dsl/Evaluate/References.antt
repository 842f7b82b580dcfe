-- ===== src/Dsl/Evaluate/References.antt =====
-- The data that a rule is evaluated against, the trace of an evaluation, and the references to
-- facts, relations and contexts of domain/dsl/evaluator.py.
-- Python's `str` of an id is the id itself here: an id that is no text is not modelled.
use andromeda_knowledge_core.Prelude.{
  ℕ, String, Bool, false, Option, some, List, [], ◌∷◌, ◌++◌, map, if◌then◌else◌, ◌&&◌, ◌||◌, not,
  str_eq, length, keep,
}
use andromeda_knowledge_core.Errors.{Result, ok, err, fault, key_error, type_error, ◌>>=◌, or_raise}
use andromeda_knowledge_core.Text.{split, starts, drop_last, ends_with_star}
use andromeda_knowledge_core.Json.{
  Value, null, str, arr, obj, Fields, get, value_or_null, truthy, of_list,
}
use andromeda_knowledge_core.Json.Compare.{py_eq}

pub record EvaluationData : Type 0 where
  pub facts : List Fields
  pub relations : List Fields
  pub context : Fields
  pub applicant : Fields

-- The kind and the id of what a result rests on.
abbrev pub Dependency : Type 0
Dependency = String × String

-- One entry of a trace, with its constant keys left out.
pub data Step : Type 0 where
  fact_step : String → ℕ → Step
  relation_step : String → ℕ → Step
  logical_step : Value → List Bool → Bool → Step
  quantifier_step : Value → List Bool → Bool → Step
  aggregation_step : Value → Value → Step
  binary_step : String → Value → Value → Step

-- `EvaluationTrace`; the set of dependencies is a list whose order means nothing.
pub record Trace : Type 0 where
  pub value : Value
  pub dependencies : List Dependency
  pub steps : List Step

-- `EvaluationTrace(value)`
abbrev pub plain : Value → Trace
plain v = record { value = v; dependencies = []; steps = [] }

-- `_matches_pattern` of two texts
unfoldable pub matches_text : String → String → Bool
matches_text v pattern =
    str_eq v pattern || (ends_with_star pattern && starts (drop_last pattern) v)

-- `_matches_pattern(value, pattern)`
unfoldable pub matches_pattern : Option Value → String → Bool
matches_pattern (some (str v)) pattern = matches_text v pattern
matches_pattern _ pattern = false

-- `not node.get(name) or row.get(name) == node[name]`
unfoldable pub passes_filter : String → Fields → Fields → Bool
passes_filter name fs row =
    not (truthy (value_or_null (get name fs)))
    || py_eq (value_or_null (get name row)) (value_or_null (get name fs))

abbrev pub id_text : Option Value → List String
id_text (some (str s)) = if str_eq s "" then [] else s ∷ []
id_text _ = []

-- `{(kind, str(row["id"])) for row in rows if row.get("id")}`
unfoldable pub row_dependencies : String → List Fields → List Dependency
row_dependencies kind [] = []
row_dependencies kind (row ∷ rows) =
    map (λ i. (kind, i)) (id_text (get "id" row)) ++ row_dependencies kind rows

unfoldable pub row_values : List Fields → List Value
row_values [] = []
row_values (row ∷ rows) = value_or_null (get "value" row) ∷ row_values rows

unfoldable pub row_objects : List Fields → List Value
row_objects [] = []
row_objects (row ∷ rows) = obj row ∷ row_objects rows

-- `node.get("kind") == kind`: a node whose kind stands under `op` does not pass.
unfoldable pub has_kind : String → Fields → Bool
has_kind kind fs = py_eq (value_or_null (get "kind" fs)) (str kind)

unfoldable pub matching_facts : String → List Fields → List Fields
matching_facts pattern = keep (λ row. matches_pattern (get "property_code" row) pattern)

abbrev pub first_value : List Value → Value
first_value [] = null
first_value (v ∷ vs) = v

unfoldable pub fact_trace : Fields → String → List Fields → Trace
fact_trace fs property matching =
    let rows = keep (passes_filter "subject_id" fs) matching in
    record {
      value =
          if has_kind "fact" fs
          then first_value (row_values rows)
          else arr (of_list (row_values rows));
      dependencies = ("fact_property", property) ∷ row_dependencies "fact" rows;
      steps = fact_step property (length rows) ∷ [];
    }

-- Every use of a reference's field as a text; Python raises on what is none.
abbrev pub text_of : Value → Result String
text_of (str s) = ok s
text_of _ = err (fault type_error)

-- `_fact_reference`, of a property that is a text: the validator, which `evaluate` calls first, refuses any
-- other, and one is given a TypeError here.
unfoldable pub fact_reference : Fields → EvaluationData → Result Trace
fact_reference fs d = do
  property ← or_raise (fault key_error) (get "property" fs)
  p ← text_of property
  ok (fact_trace fs p (matching_facts p d.facts))

unfoldable pub matching_relations : String → List Fields → List Fields
matching_relations code =
    keep (λ row. py_eq (value_or_null (get "relation_type_code" row)) (str code))

-- with no match even a single `relation` is the empty list
abbrev pub first_relation : List Fields → Value
first_relation [] = arr (of_list [])
first_relation (row ∷ rows) = obj row

unfoldable pub relation_trace : Fields → String → List Fields → Trace
relation_trace fs code matching =
    let rows =
      keep (λ row. passes_filter "subject_id" fs row && passes_filter "object_id" fs row)
        matching in
    record {
      value =
          if has_kind "relation" fs then first_relation rows else arr (of_list (row_objects rows));
      dependencies = ("relation_type", code) ∷ row_dependencies "relation" rows;
      steps = relation_step code (length rows) ∷ [];
    }

-- `_relation_reference`
unfoldable pub relation_reference : Fields → EvaluationData → Result Trace
relation_reference fs d = do
  relation_type ← or_raise (fault key_error) (get "relation_type" fs)
  code ← text_of relation_type
  ok (relation_trace fs code (matching_relations code d.relations))

unfoldable pub walk : Value → List String → Value
walk v [] = v
walk v (segment ∷ rest) = elim v [ obj fs ↦ walk (value_or_null (get segment fs)) rest | _ ↦ null ]

-- `_get_path(source, path)`
unfoldable pub get_path : Fields → String → Value
get_path source path = walk (obj source) (split path)

-- the `context` and `applicant` references of `_evaluate`
unfoldable pub path_reference : String → Fields → Fields → Result Trace
path_reference kind source fs = do
  path ← or_raise (fault key_error) (get "path" fs)
  p ← text_of path
  ok (record { value = get_path source p; dependencies = (kind, p) ∷ []; steps = [] })
