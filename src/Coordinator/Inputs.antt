-- ===== src/Coordinator/Inputs.antt =====
-- The inputs of `coordinate_sandbox_action` of app/services/company_os_sandbox_coordinator.py, and
-- the checks on them that come before the provider is called. `Runtime` holds what the call does not
-- read from its arguments: the settings, the clock and the libraries, and the provider and the
-- adapters, which act on a world of their own.
use polsia_build.Common.{
  Bool, List, Option, String, [], all, any, distinct, eqb, if◌then◌else◌, is_empty, is_nil, none,
  not, some, starts_with, ℕ, ◌&&◌, ◌==◌, ◌||◌,
}
use polsia_build.Coordinator.Native.{Canonical, Provided}
use polsia_build.Integration.{Registry, read_registry}
use polsia_build.Policy.{Decimals}
use polsia_build.Raises.{
  Message, Result, attribute_error, coordinator_error, ok, or_raise, raise_if, text, ◌>>=◌, ◌>>◌,
}
use polsia_build.Sandbox.{Db, SandboxEvent, WorkflowInstance, instance_by_id}
use polsia_build.Value.{
  Fields, Value, arr, as_dict, as_str, as_strings, eq, get, get_or, in_list, obj, str, texts,
}
use polsia_build.Value.Json.{is_json}
use polsia_build.Workflow.{Definition, read_workflow}

pub record Runtime (W : Type 0) : Type 1 where
  pub sandbox_mode : Bool
  pub decimals : Decimals
  -- `jsonschema`, as `append_sandbox_event` uses it
  pub invalid : Value → Value → Option Message
  pub repr : Value → String
  -- `str(exc)`
  pub render : Message → String
  -- `str(uuid4())` and `datetime.now(UTC).isoformat()`
  pub event_id : String
  pub occurred_at : String
  pub decide : Fields → W → Provided × W
  pub synthetic_adapters : String → Option (Fields → String → W → Provided × W)

pub record Call : Type 0 where
  pub workflow_instance_id : ℕ
  pub expected_version : ℕ
  pub idempotency_key : String
  pub synthetic_input : Value
  pub workflow : Value
  pub policy : Value
  pub integration_registry : Value
  pub event_schema : Value
  pub canonical_agents : Value
  pub canonical_handoffs : Value
  pub canonical_actions : Value

-- What the checks have read.
pub record Inputs : Type 0 where
  pub input : Fields
  pub evidence_refs : List String
  pub primary_classification : String
  pub verified_requirements : List String
  pub canonical : Canonical

abbrev pub is_sandbox_ref : String → Bool
is_sandbox_ref s = starts_with s "sandbox://"

abbrev sandbox_refs : Fields → Option (List String)
sandbox_refs d = elim (as_strings (get d "evidence_refs")) [
  | none ↦ none
  | some refs ↦
      if not (is_nil refs) && (all is_sandbox_ref refs && distinct refs) then some refs else none
]

-- `isinstance(value, list) and value and all(isinstance(item, str) and item for item in value)`
abbrev canonical_list : Value → Option (List String)
canonical_list v = elim (as_strings v) [
  | none ↦ none
  | some ss ↦ if is_nil ss || any is_empty ss then none else some ss
]

unfoldable pub read_canonical : Call → Result Canonical
read_canonical c = do
  let message = text "canonical action, agent, and handoff lists are required"
  agents ← or_raise (canonical_list c.canonical_agents) coordinator_error message
  handoffs ← or_raise (canonical_list c.canonical_handoffs) coordinator_error message
  actions ← or_raise (canonical_list c.canonical_actions) coordinator_error message
  ok (record { agents = agents; handoffs = handoffs; actions = actions })

unfoldable pub read_inputs : Bool → Call → Result Inputs
unfolding read_canonical
read_inputs sandbox_mode c = do
  raise_if (not sandbox_mode) coordinator_error (text "Stage 2 requires sandbox_mode")
  raise_if (is_empty c.idempotency_key) coordinator_error
      (text "idempotency_key and synthetic input are required")
  input ←
      or_raise (as_dict c.synthetic_input) coordinator_error
        (text "idempotency_key and synthetic input are required")
  raise_if (not (is_json (obj input))) coordinator_error
      (text "synthetic input must be JSON compatible")
  refs ←
      or_raise (sandbox_refs input) coordinator_error
        (text "synthetic input requires sandbox evidence refs")
  classification ←
      or_raise (as_str (get input "primary_classification")) coordinator_error
        (text "synthetic input requires a primary classification")
  verified ←
      or_raise (as_strings (get_or input "verified_requirements" (arr (texts []))))
        coordinator_error (text "verified requirements must be a list of strings")
  canonical ← read_canonical c
  ok (record {
    input = input;
    evidence_refs = refs;
    primary_classification = classification;
    verified_requirements = verified;
    canonical = canonical;
  })

-- The instance, and the definition and the registry that are valid.
pub record Prepared : Type 0 where
  pub instance_row : WorkflowInstance
  pub definition : Definition
  pub registry : Registry

-- A delivery that was recorded, that is late, or that comes after the end.
unfoldable pub is_spent : Call → WorkflowInstance → Db → Bool
is_spent c i db =
    any
      (λ (e : SandboxEvent).
        eqb e.sandbox_run_id i.sandbox_run_id && e.idempotency_key == c.idempotency_key)
      db.events
    || (not (eqb i.version c.expected_version) || i.terminal)

unfoldable pub prepare : Call → Db → Result Prepared
unfolding is_spent
prepare c db = do
  i ←
      or_raise (instance_by_id c.workflow_instance_id db) coordinator_error
        (text "workflow instance does not exist")
  d ← or_raise (as_dict c.workflow) attribute_error (text "get")
  raise_if (not (eq (get d "id") (str i.workflow_id))) coordinator_error
      (text "workflow does not match instance")
  definition ← read_workflow c.workflow
  registry ← read_registry c.integration_registry
  raise_if (not (in_list i.current_state definition.states)) coordinator_error
      (text "current workflow state is not canonical")
  raise_if (is_spent c i db) coordinator_error
      (text "duplicate, stale, or terminal workflow delivery")
  ok (record { instance_row = i; definition = definition; registry = registry })
