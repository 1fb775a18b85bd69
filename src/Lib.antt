-- ===== src/Lib.antt =====
-- OpsPilot: an assistant that investigates incidents of a simulated production environment with a
-- language model, under a deterministic policy, with human approval of what changes state.
--
-- The parts and the files that model them, with paths from the root of the repository.
-- - Models, Config: src/opspilot/models.py and config.py, the rows of the database and the settings.
--   Json: the JSON values and `json.dumps` that idempotency keys and grounding read.
-- - Agent/Policy, Agent/Client, Agent/Schemas, Agent/Tools, Agent/Remediation, Agent/Idempotency:
--   the files of the same names in src/opspilot/agent. A provider is a function with a state of its
--   own. `Idempotency/Race` splits `execute_idempotently` into its steps for overlapping calls.
-- - Agent/State, Agent/Support, Agent/Nodes: state.py, support.py and nodes.py. A node is a function
--   of the state and of the world, which is the provider, the committed table of executions and the
--   clock; it returns an update, pauses or raises. `Nodes/Gather`, `Nodes/Ground` and `Nodes/Gate`
--   hold the functions of nodes.py by the same names.
-- - Agent/Graph: graph.py. `Run` is the step relation of the nodes and edges. An `Engine` stands for
--   LangGraph with its checkpointer; what the code relies on is `IsEngine`.
-- - Memory: src/opspilot/memory.py, with `consolidate_service_memory` in Memory/Consolidation.
-- - Incidents: src/opspilot/routers/incidents.py. `Incidents/Applying` is `_apply_result`; the handlers
--   are functions from the store to a reply and a store, and call the graph through its engine.
--   `Incidents/Phases` is the abstract life cycle of an incident, and `Incidents/Refinement` takes the
--   handlers as requests on one store. `Incidents/Resolution`, `Settling`, `Approving`, `Ending` and
--   `Outage` join the handlers to the graph.
-- - Auth: src/opspilot/auth.py, the key and the sliding window of the rate limit.
-- - Seed: src/opspilot/seed, the whole dataset as constants and the seeding of the tables.
-- - Eval: src/opspilot/eval/regression.py, the comparison of two evaluation runs, with
--   Eval/Deterministic, Eval/Judge, Eval/Runner, Eval/Storage and Eval/Scorecard for the files of those
--   names. Eval/Aggregate holds the records and `_aggregate` of runner.py, Eval/CommandLine is `main` of
--   eval/__main__.py.
-- - Agent/Tracing: src/opspilot/agent/tracing.py, the redaction, `to_jsonable` and `get_trace_url`.
-- - Agent/Client/Anthropic: the adapter around the provider's SDK. Agent/Checkpointer: the connection
--   string of checkpointer.py.
-- - Api: src/opspilot/main.py, logging_config.py and the routers inspect.py, memory.py and eval_runs.py.
-- - Migrations: alembic/versions, each revision as a list of operations on a schema.
-- - Examples: one incident with a scripted model, an executable engine that keeps the contract, and
--   each property applied to them.
--
-- Numbers. Times are seconds, costs 10⁻⁸ USD, in which all prices are whole, confidences millionths,
-- metric values thousandths; they are natural numbers. Rounding is written out where the source
-- rounds; the binary rounding of floating-point numbers is not modelled. Rates and means of an
-- evaluation are ten-thousandths, the places that they are rounded to.
--
-- Fuel. The retry loop has `max_retries` + 1 rounds, one for each attempt it may make. The
-- engine has the recursion limit `max_steps` + 10 that the code passes: each visit of the gathering
-- node counts a step, and at most four nodes follow.
--
-- Parameters. Pydantic's validators, sha256, the orders of SQL queries, the text of a time, the model
-- provider, LangGraph and the JSON text of an evaluation run are arguments. Where a property relies on
-- them, the hypothesis is a record (`IsEngine`, `IsReader`, `IsMemoryOrder`) or the bounds that the
-- validated classes declare.
--
-- Not modelled: the spans of the tracing, the database sessions beyond what is
-- committed where and what a query sees, the JSON schemas sent to the model, the parsing of command
-- lines, the wiring of the web framework and the dashboard.
pub mod Prelude
pub mod Json
pub mod Models
pub mod Config
pub mod Agent
pub mod Memory
pub mod Incidents
pub mod Auth
pub mod Seed
pub mod Eval
pub mod Api
pub mod Migrations
pub mod Examples
