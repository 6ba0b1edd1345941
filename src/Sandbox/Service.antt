-- ===== src/Sandbox/Service.antt =====
-- Append-only persistence: app/services/company_os_sandbox_service.py. The caller owns the
-- transaction: an operation that raises has no new tables, and the row locks make the operations of
-- one run follow each other. `jsonschema` is the parameter `invalid`: the message of its error, if
-- the schema is malformed or the payload does not validate against it.
use polsia_build.Common.{
  Bool, Option, String, [], any, eq_bool, eqb, false, if◌then◌else◌, is_empty, is_none, length,
  none, not, some, suc, true, ℕ, ◌&&◌, ◌++◌, ◌==◌, ◌||◌, ◌∷◌,
}
use polsia_build.Raises.{
  Exception, Message, Result, attribute_error, caused, conflict_error, err, format, in_set, item,
  ok, or_raise, persistence_error, raise_if, raised, text, workflow_error, ◌>>=◌, ◌>>◌,
}
use polsia_build.Sandbox.{
  Db, SandboxEvent, SandboxRun, WorkflowInstance, check_event, check_instance, check_run,
  instance_by_id, max_sequence, run_by_id, same_identity, save_instance,
}
use polsia_build.Value.{
  Fields, Value, as_dict, eq, find, get, int, is_null, obj, optional, set_item, str, truthy,
}
use polsia_build.Workflow.{Definition, as_nonempty, find_transition, read_workflow}

-- The guard of `_require_one_native_evidence`: a dict that is not empty
abbrev pub is_evidence : Value → Bool
is_evidence (obj d) = truthy (obj d)
is_evidence _ = false

-- `_require_bound_identity`
unfoldable pub require_bound_identity : Fields → String → Value → Result (Unit {0})
require_bound_identity payload name expected = elim (find name payload) [
  | none ↦ ok tt
  | some v ↦
      raise_if (not (eq v expected)) persistence_error
        (format "event {} does not match authoritative runtime identity" (str name ∷ []))
]

abbrev pub new_run : String → String → String → Value → Db → SandboxRun
new_run run_id company_slug protocol_version input_manifest db = record {
  id = suc (length db.runs);
  run_id = run_id;
  company_slug = company_slug;
  protocol_version = protocol_version;
  input_manifest = input_manifest;
  status = "created";
}

abbrev pub new_instance : ℕ → String → String → String → Option String → Db → WorkflowInstance
new_instance sandbox_run_id workflow_id entity_type entity_id initial_state db = record {
  id = suc (length db.instances);
  sandbox_run_id = sandbox_run_id;
  workflow_id = workflow_id;
  entity_type = entity_type;
  entity_id = entity_id;
  current_state = optional initial_state;
  terminal = false;
  version = 0;
}

unfoldable pub create_sandbox_run : String → String → String → Value → Db → Result (SandboxRun × Db)
create_sandbox_run run_id company_slug protocol_version input_manifest db = do
  raise_if (is_empty run_id || (is_empty company_slug || is_empty protocol_version))
      persistence_error (text "run_id, company_slug, and protocol_version are required")
  raise_if (any (λ r. r.run_id == run_id) db.runs) conflict_error
      (format "sandbox run already exists: {}" (str run_id ∷ []))
  let run = new_run run_id company_slug protocol_version input_manifest db
  check_run run db.runs
  ok (run, record db { runs = db.runs ++ run ∷ [] })

unfoldable pub create_workflow_instance :
    ℕ → String → String → String → Option String → Db → Result (WorkflowInstance × Db)
create_workflow_instance sandbox_run_id workflow_id entity_type entity_id initial_state db = do
  raise_if (is_empty workflow_id || (is_empty entity_type || is_empty entity_id)) persistence_error
      (text "workflow_id, entity_type, and entity_id are required")
  raise_if (is_none (run_by_id sandbox_run_id db)) persistence_error
      (text "sandbox run does not exist")
  let i = new_instance sandbox_run_id workflow_id entity_type entity_id initial_state db
  raise_if (any (same_identity i) db.instances) conflict_error
      (text "workflow instance identity already exists")
  check_instance i db.instances
  ok (i, record db { instances = db.instances ++ i ∷ [] })

-- The arguments of `append_sandbox_event`; `None` is `null`.
pub record Delivery : Type 0 where
  pub workflow_instance_id : ℕ
  pub expected_version : ℕ
  pub idempotency_key : String
  pub event_payload : Fields
  pub event_schema : Value
  pub workflow_definition : Value
  pub native_decision : Value
  pub native_failure : Value

-- `except CompanyOSWorkflowError as exc`
unfoldable pub as_persistence : Exception → Exception
as_persistence e = elim e.kind [
  | workflow_error ↦ raised persistence_error (caused "invalid workflow transition: " e.message)
  | _ ↦ e
]

unfoldable pub catch_workflow {ℓ} : {A : Type ℓ} → Result A → Result A
unfolding as_persistence
catch_workflow (ok a) = ok a
catch_workflow (err e) = err (as_persistence e)

-- The transition that the payload proposes, where it changes the state.
unfoldable pub check_change : Definition → Bool → Fields → Result (Unit {0})
check_change w false payload = ok tt
check_change w true payload =
    find_transition w (get payload "state_before") (get payload "action")
      (get payload "state_after") (get payload "risk_level")
    >>= λ _. ok tt

unfoldable pub check_terminal : Definition → Bool → Fields → Result (Unit {0})
check_terminal w false payload = ok tt
check_terminal w true payload = do
  member ← in_set (get payload "state_after") w.terminal_states
  raise_if (not member) workflow_error (
      format "terminal outcome requires a canonical terminal state: {}"
        (get payload "state_after" ∷ []))

unfoldable pub check_transition :
    WorkflowInstance → Value → Bool → Bool → Fields → Result (Unit {0})
unfolding check_change check_terminal catch_workflow
check_transition i definition changes terminal payload = do
  raise_if (is_null definition) persistence_error
      (text "workflow_definition is required for a state transition or terminal event")
  d ← or_raise (as_dict definition) attribute_error (text "get")
  raise_if (not (eq (get d "id") (str i.workflow_id))) persistence_error
      (text "workflow definition does not match workflow instance")
  catch_workflow (
      read_workflow definition >>= λ w.
      check_change w changes payload >> check_terminal w terminal payload)

-- `state_after != state_before`, and whether the event ends the workflow
abbrev pub changes_state : Fields → Bool
changes_state payload = not (eq (get payload "state_after") (get payload "state_before"))

abbrev pub is_terminal_outcome : Fields → Bool
is_terminal_outcome payload = eq (get payload "event_type") (str "terminal_outcome")

-- The identities that the payload may state are those of the run and of the instance.
unfoldable pub check_identity : SandboxRun → WorkflowInstance → Fields → Result (Unit {0})
unfolding require_bound_identity
check_identity run i payload = do
  require_bound_identity payload "run_id" (str run.run_id)
  require_bound_identity payload "company_slug" (str run.company_slug)
  require_bound_identity payload "workflow_id" (str i.workflow_id)
  require_bound_identity payload "entity_type" (str i.entity_type)
  require_bound_identity payload "entity_id" (str i.entity_id)

-- The checks of the state that the event claims.
unfoldable pub check_state : WorkflowInstance → Value → Fields → Result (Unit {0})
check_state i definition payload = do
  let changes = changes_state payload
  let terminal = is_terminal_outcome payload
  raise_if (not (eq (get payload "state_before") i.current_state)) conflict_error
      (text "event state_before does not match authoritative workflow state")
  raise_if (i.terminal && (changes || terminal)) conflict_error
      (text "terminal workflow instance cannot transition")
  (elim (changes || terminal) [
    | true ↦ check_transition i definition changes terminal payload
    | false ↦ ok tt
  ])

-- The payload with the identities that the runtime supplies.
abbrev pub bind_payload : SandboxRun → ℕ → Fields → Fields
bind_payload run sequence payload =
    set_item
      (set_item (set_item payload "run_id" (str run.run_id)) "company_slug" (str run.company_slug))
      "sequence" (int sequence)

-- The row of a payload that validates.
unfoldable pub build_event :
    SandboxRun → WorkflowInstance → Delivery → String → ℕ → Fields → Db → Result SandboxEvent
build_event run i a event_id sequence payload db = do
  classification ← item payload "primary_classification"
  event_type ← item payload "event_type"
  result ← item payload "result"
  risk ← item payload "risk_level"
  effect ← item payload "external_side_effect"
  ok (record {
    id = suc (length db.events);
    sandbox_run_id = run.id;
    workflow_instance_id = i.id;
    event_id = event_id;
    sequence = sequence;
    idempotency_key = a.idempotency_key;
    primary_classification = classification;
    event_type = event_type;
    result = result;
    risk_level = risk;
    state_before = get payload "state_before";
    state_after = get payload "state_after";
    external_side_effect = effect;
    terminal_key = if is_terminal_outcome payload then some "terminal" else none;
    payload = payload;
    native_decision = a.native_decision;
    native_failure = a.native_failure;
  })

-- The instance after the event.
abbrev pub advance : WorkflowInstance → Fields → WorkflowInstance
advance i payload =
    let moved =
      if changes_state payload
      then record i { current_state = get payload "state_after"; version = suc i.version }
      else i in
    if is_terminal_outcome payload then record moved { terminal = true } else moved

-- The tables after the event and its effect on the instance are written.
abbrev pub with_event : WorkflowInstance → Fields → Db → SandboxEvent → Db
with_event i payload db e = record db {
  instances = save_instance (advance i payload) db.instances;
  events = db.events ++ e ∷ [];
}

-- The `select` for a delivery that came before.
abbrev pub is_duplicate : ℕ → String → String → SandboxEvent → Bool
is_duplicate run event_id key e =
    eqb e.sandbox_run_id run && (e.event_id == event_id || e.idempotency_key == key)

abbrev pub raise_invalid : Option Message → Result (Unit {0})
raise_invalid none = ok tt
raise_invalid (some m) = err (raised persistence_error m)

module _ (invalid : Value → Value → Option Message) where
  -- What follows once the rows are read and locked.
  unfoldable pub append_to :
      SandboxRun → WorkflowInstance → Delivery → Db → Result (SandboxEvent × Db)
  append_to run i a db = do
    raise_if (not (eqb i.version a.expected_version)) conflict_error (
        format "stale workflow version: expected {}, current {}"
          (int a.expected_version ∷ int i.version ∷ []))
    check_identity run i a.event_payload
    event_id ←
        or_raise (as_nonempty (get a.event_payload "event_id")) persistence_error
          (text "event_id is required")
    raise_if (any (is_duplicate run.id event_id a.idempotency_key) db.events) conflict_error
        (text "duplicate event_id or idempotency_key")
    let next_sequence = suc (max_sequence run.id db.events)
    require_bound_identity a.event_payload "sequence" (int next_sequence)
    let payload = bind_payload run next_sequence a.event_payload
    check_state i a.workflow_definition payload
    raise_invalid (invalid a.event_schema (obj payload))
    event ← build_event run i a event_id next_sequence payload db
    check_event event db.events
    ok (
      event,
      record db {
        instances = save_instance (advance i payload) db.instances;
        events = db.events ++ event ∷ [];
      },
    )

  unfoldable pub append_sandbox_event : Delivery → Db → Result (SandboxEvent × Db)
  append_sandbox_event a db = do
    raise_if (is_empty a.idempotency_key) persistence_error (text "idempotency_key is required")
    raise_if (eq_bool (is_evidence a.native_decision) (is_evidence a.native_failure))
        persistence_error
        (text "exactly one non-empty native_decision or native_failure is required")
    i ←
        or_raise (instance_by_id a.workflow_instance_id db) persistence_error
          (text "workflow instance does not exist")
    run ←
        or_raise (run_by_id i.sandbox_run_id db) persistence_error
          (text "sandbox run does not exist")
    append_to run i a db
