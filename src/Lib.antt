-- ===== src/Lib.antt =====
-- Andromeda Knowledge Core: the rule DSL, the rules, the rule engine and the dependencies of what it
-- derives.
--
-- The program keeps facts, relations and versioned rules under an ontology, and computes derived
-- results by evaluating the rules that apply to a query. Its parts, and the files that model them:
--
--   * Errors.antt: src/andromeda_core/domain/errors.py. A function that raises returns a `Result`;
--     a `DomainError` is a constructor with its stable code, and what Python itself raises
--     (`TypeError`, `KeyError`, …) is a `fault`.
--   * Json.antt, Json/: the values that all parts pass around, with Python's `==`, `<`, `in`, `bool`
--     and `len` on them.
--   * Text.antt: the methods of `str` that the program uses.
--   * Temporal.antt, Temporal/: `TemporalWindow` of src/andromeda_core/domain/common.py.
--   * Dsl.antt, Dsl/: src/andromeda_core/domain/dsl. Dsl/Validate.antt is `validate_dsl` of ast.py,
--     Dsl/Evaluate.antt and its children are evaluator.py. Dsl/Safety.antt ties the two together.
--   * Selectors.antt, Selectors/: `_fact_property_selectors` of
--     src/andromeda_core/application/knowledge_service.py.
--   * Rules.antt, Rules/: src/andromeda_core/domain/rules.py. Rules.antt has `scope_matches`,
--     `_scopes_overlap` and `effect_conflicts`; Rules/Payload.antt has `validate_rule_payload`.
--   * Engine.antt, Engine/: src/andromeda_core/domain/engine.py, which orders the rules, skips those
--     whose status or scope does not apply, and runs the effects of those that match.
--   * Graph.antt, Graph/: src/andromeda_core/domain/dependencies.py, the graph of dependencies: the
--     walks in Graph/Reach.antt are what its searches are measured by.
--   * DependencyService.antt, DependencyService/: src/andromeda_core/application/dependency_service.py
--     over the rows of src/andromeda_core/infrastructure/db/repositories.py: `invalidate` and
--     `register_edge`.
--   * Repository.antt, Repository/: the rows of src/andromeda_core/infrastructure/db/models.py that the
--     services of the rules and of the ontology use, and their queries and updates of
--     src/andromeda_core/infrastructure/db/repositories.py, on lists of rows.
--   * ChangeService.antt: src/andromeda_core/application/change_service.py and audit_service.py.
--   * RuleService.antt, RuleService/: src/andromeda_core/application/rule_service.py. RuleService.antt has
--     `create` and `validate`, RuleService/Activate.antt has `activate`, RuleService/Reachable.antt the
--     steps that they make.
--   * OntologyService.antt, OntologyService/: src/andromeda_core/application/ontology_service.py;
--     OntologyService/Editing.antt has the steps.
--   * KnowledgeService.antt, KnowledgeService/: `create_fact`, `create_relation` and
--     `create_object` of src/andromeda_core/application/knowledge_service.py. KnowledgeService.antt has
--     the rows, its Facts.antt, Relations.antt and Objects.antt the operations.
--   * Ingestion.antt, Ingestion/: src/andromeda_core/application/ingestion_pipeline.py, with the data of
--     src/andromeda_core/domain/ports/ingestion.py and ai.py. Ingestion/Rows.antt is the table of the
--     attempts, Ingestion/Service.antt is `run` and all that it calls.
--
-- The API hands a rule's payload to `validate_rule_payload`, which calls `validate_dsl` for every
-- condition, exception and effect value; the engine calls `scope_matches` and the evaluator on the
-- rules that were stored. The dependencies that an evaluation reports become edges to its result; when
-- a fact changes, `invalidate` starts from each of the selectors of its property.
-- `activate` of a rule compares it with the active rules by `effect_conflicts`, and calls `invalidate` for
-- what rests on the rule it replaces or on the catalog; `activate` of an ontology version does so for the
-- version that it supersedes. A service that raises leaves nothing behind, since the session is not
-- committed: its model returns a `Result`. The ingestion commits after each write, so its actions take the
-- rows along also when they raise.
--
-- Bounds. `validate_dsl` recurses on the levels left, `max_depth + 1 - depth`. The evaluator
-- recurses on fuel, and `eval_value` starts it with the number of constructors of the node, which
-- is enough: each call is on a proper part of its node. A search among the dependencies takes a node
-- from its queue in each step; it runs on the number of edges plus two, which is enough, since a node
-- is followed once and each edge puts at most one node into the queue.
-- The stages of the ingestion call each other to a depth of two: a fetch keeps a content, and a row with a
-- content is not fetched.
--
-- Not modelled: floats and decimals with a fraction (a JSON number is an integer, and so is a
-- confidence), foreign keys, the unique constraints of the dependencies and of the attempts, ids that
-- are no texts, the texts of messages and explanations, the time that an evaluation takes, and the
-- order of Python's sets, which are lists whose order and repetitions mean nothing.
pub mod Prelude
pub mod Errors
pub mod Text
pub mod Json
pub mod Temporal
pub mod Selectors
pub mod Dsl
pub mod Rules
pub mod Engine
pub mod Graph
pub mod DependencyService
pub mod Ingestion
pub mod Repository
pub mod ChangeService
pub mod RuleService
pub mod OntologyService
pub mod KnowledgeService
