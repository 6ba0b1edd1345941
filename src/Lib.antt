-- ===== src/Lib.antt =====
-- The governed core of the company operating system: what a model may propose, what the policy, the
-- workflow and the integration registry let through, and what the sandbox records of it.
--
-- A call of the coordinator (app/services/company_os_sandbox_coordinator.py) asks a provider for a
-- decision, checks it against the workflow definition (app/agents/company_os_workflow.py), the policy
-- (app/agents/company_os_policy.py) and the registry (app/agents/company_os_integration.py), runs a
-- synthetic adapter where that is let through, and appends one event through the persistence service
-- (app/services/company_os_sandbox_service.py) to the tables of app/models/company_os_sandbox.py.
-- What the founder is asked is resolved and carried out by
-- app/services/company_os_sandbox_approval_service.py, and the synthetic adapters are those of
-- app/services/company_os_synthetic_adapters.py. Stage 1 decisions are asked for by
-- app/agents/base_agent.py and checked by app/agents/company_os_contract.py.
--
-- Common: names, Boolean tests and list functions that stand for Python's. Value: Python's values as
--   far as JSON has them, with `==`, `in`, `get`, truth and hashing. Raises: exceptions as values.
-- Contract: `validate_stage1_decision`, `parse_stage1_decision`; Contract/Schema:
--   `stage1_json_schema`; Contract/JsonSchema: what a schema asks, by the keywords that are used.
-- Agent: `run_company_os_decision`, `_run_claude_structured` and the prompt; the commands' results and
--   the environment are a record of parameters.
-- Policy: `evaluate_action_policy`, `require_action_allowed`.
-- Workflow: `validate_workflow_definition` (`read_workflow` returns what it has read) and
--   `require_valid_transition`.
-- Integration: `validate_integration_registry`, `evaluate_integration_capability`,
--   `require_integration_capability`.
-- Sandbox: the rows and their constraints; Sandbox/Columns: what a column takes; Sandbox/Service: `create_sandbox_run`,
--   `create_workflow_instance`, `append_sandbox_event`, from tables to tables; Sandbox/Listing:
--   `list_sandbox_events`, `export_sandbox_event`. An operation that raises
--   has no new tables, since the caller owns the transaction; a row's id is its place, since no row is
--   deleted.
-- Coordinator: `coordinate_sandbox_action`, in stages: Inputs (the checks before the provider), Native
--   (what the provider returned), Ruling (the checks of the decision), Action (the founder and the
--   adapter), Payload and Report (the event). The provider and the adapters act on a world that is
--   passed through the call and that no exception rolls back.
-- Approvals: `resolve_sandbox_approval` (Resolve) and `resume_sandbox_approval` (Resume: the checks;
--   Outcome: the adapter and the event), on the same tables and the same world of adapters.
-- Adapters: `SyntheticWorld` with `receive` and `inject_failure` (World), `SyntheticAdapter.execute`
--   (Execute), and Steps, the sequences of their calls. A world is passed on past exceptions.
-- Audit: `create_action_record`, `list_action_events` and `append_action_event` of
--   app/services/company_os_audit_service.py, from tables to tables.
-- Tasks: what app/services/task_service.py reads and updates in the table of app/models/task.py; each
--   `SELECT` of the summary has a table of its own.
-- Examples and Contract/Examples: tests, and the results on concrete inputs.
--
-- Numbers are natural numbers where the source counts (ids, versions, sequences), and a sign, a
-- mantissa and a scale inside JSON. Every function is structurally recursive; the decimal digits of a
-- number n are computed on fuel n + 1, which is more than the number of its digits.
-- Parameters, for code that is not of the repository: `json`, `sha256`, `jsonschema`, commands, `decimal`, `repr`,
-- `str` of an exception, the clock and the uuids.
--
-- Not modelled: the creation of tasks, the Celery tasks, the other services, the HTTP interface, the
-- agents' prompts and free-text calls, and the migrations. Concurrency within one run is left out, as
-- the row locks make the operations of a run follow each other.
pub mod Common
pub mod Value
pub mod Raises
pub mod Contract
pub mod Policy
pub mod Workflow
pub mod Integration
pub mod Sandbox
pub mod Coordinator
pub mod Audit
pub mod Approvals
pub mod Adapters
pub mod Agent
pub mod Tasks
pub mod Examples
