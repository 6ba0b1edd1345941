-- ===== src/Coordinator/Report.antt =====
-- The events that `coordinate_sandbox_action` of app/services/company_os_sandbox_coordinator.py
-- records: the request to the founder, the failure and the success; and the whole call.
use polsia_build.Common.{
  List, Option, String, [], contains, if◌then◌else◌, is_none, length, none, some, suc, ◌&&◌, ◌++◌,
  ◌∷◌,
}
use polsia_build.Coordinator.Action.{
  Hearing, Outcome, escalated, finished, hear, heard, judge, perform, stopped,
}
use polsia_build.Coordinator.Inputs.{Call, Inputs, Prepared, Runtime, prepare, read_inputs}
use polsia_build.Coordinator.Native.{
  Category, Denial, Evidence, Native, native_value, read_provided,
}
use polsia_build.Coordinator.Payload.{Report, delivery_of}
use polsia_build.Coordinator.Ruling.{Ruling}
use polsia_build.Integration.{IntegrationDecision}
use polsia_build.Raises.{Message, Result, err, ok, ◌>>=◌, ◌>>◌}
use polsia_build.Sandbox.{Db, SandboxApproval, SandboxEvent, WorkflowInstance, check_approval}
use polsia_build.Sandbox.Service.{append_sandbox_event}
use polsia_build.Value.{Fields, Value, arr, as_str, end, field, get, int, null, obj, str, texts}
use polsia_build.Workflow.{WorkflowTransition, as_nonempty}

abbrev pub category_name : Category → String
category_name c = elim c [
  | Category.provider ↦ "provider"
  | Category.contract ↦ "contract"
  | Category.transition ↦ "transition"
  | Category.policy ↦ "policy"
  | Category.integration ↦ "integration"
  | Category.approval ↦ "approval"
]

abbrev pub denial_result : Category → String
denial_result c =
    if contains ("provider" ∷ "contract" ∷ "integration" ∷ []) (category_name c)
    then "failed"
    else "blocked"

abbrev native_text : Option Fields → String → Option String
native_text none k = none
native_text (some d) k = as_nonempty (get d k)

abbrev failed_action : Option Fields → String
failed_action d = elim (native_text d "action") [ none ↦ "record_failure" | some s ↦ s ]

abbrev first_of : List String → String
first_of [] = ""
first_of (s ∷ _) = s

abbrev failed_agent : Option Fields → List String → String
failed_agent none agents = first_of agents
failed_agent (some d) agents = elim (as_str (get d "agent_type")) [
  | none ↦ first_of agents
  | some s ↦ if contains agents s then s else first_of agents
]

module _ (render : Message → String) where
  unfoldable pub denial_report :
      WorkflowInstance → List String → Option Fields → Denial → Option IntegrationDecision → Report
  denial_report i agents native d o = record {
    event_type = "failure_detected";
    result = denial_result d.category;
    risk = "GREEN";
    action = str (failed_action native);
    agent = str (failed_agent native agents);
    classification = str "failure_recovery";
    state_after = i.current_state;
    approval = null;
    integration = o;
    category = category_name d.category;
    error = str (render d.reason);
    autonomy_class = none;
    founder_minutes = int 0;
    metadata_extra = end;
  }

unfoldable pub request_report : WorkflowInstance → Native → Ruling → String → Report
request_report i n r approval_id = record {
  event_type = "approval_requested";
  result = "escalated";
  risk = "RED";
  action = str n.action;
  agent = str n.agent_type;
  classification = str "approval_queue";
  state_after = i.current_state;
  approval = obj (field "decision_id" (str approval_id) (field "status" (str "pending") end));
  integration = r.integration;
  category = "approval";
  error = null;
  autonomy_class = none;
  founder_minutes = int 0;
  metadata_extra = field "workflow_version" (int i.version) end;
}

abbrev pub risk_shown : Native → Option WorkflowTransition → String
risk_shown n none = n.risk_level
risk_shown n (some t) = t.risk_level

unfoldable pub success_report : Inputs → Native → Ruling → Option String → Report
success_report x n r receipt = record {
  event_type = if is_none r.transition then "decision_produced" else "transition_completed";
  result = if is_none r.transition && is_none receipt then "observed" else "executed_in_sandbox";
  risk = risk_shown n r.transition;
  action = str n.action;
  agent = str n.agent_type;
  classification = str x.primary_classification;
  state_after = str n.state_after;
  approval = null;
  integration = r.integration;
  category = "allow";
  error = null;
  autonomy_class = none;
  founder_minutes = int 0;
  metadata_extra = end;
}

abbrev receipts : Option String → List String
receipts none = []
receipts (some s) = s ∷ []

abbrev pub new_approval :
    WorkflowInstance → SandboxEvent → Native → Fields → String → Db → SandboxApproval
new_approval i e n input approval_id db = record {
  id = suc (length db.approvals);
  sandbox_run_id = i.sandbox_run_id;
  workflow_instance_id = i.id;
  request_event_id = e.id;
  decision_id = approval_id;
  action = str n.action;
  input_snapshot = input;
  status = "pending";
  founder_id = none;
  founder_minutes = null;
  autonomy_class = none;
  corrected_decision = null;
  manual_evidence_ref = none;
  resolution_event_id = none;
  resolution_key = none;
  resume_event_id = none;
  resume_key = none;
  last_failure_event_id = none;
  failure_attempt_count = 0;
}

abbrev pub fields_of : Option Fields → Fields
fields_of none = end
fields_of (some d) = d

module _ {W : Type 0} (lib : Runtime W) (c : Call) where
  -- `_append`, on the arguments of the call
  abbrev append_report :
      WorkflowInstance → List String → Value → Value → Report → Db → Result (SandboxEvent × Db)
  append_report i refs native failure r db =
      append_sandbox_event lib.invalid
        (delivery_of lib.event_id lib.occurred_at i c.expected_version c.idempotency_key
          c.event_schema c.workflow (arr (texts refs)) native failure r)
        db

  -- The request and its row are flushed together.
  unfoldable pub ask_founder :
      Inputs
      → WorkflowInstance
      → Fields
      → Native
      → Ruling
      → String
      → Db
      → Result (SandboxEvent × Db)
  unfolding delivery_of request_report
  ask_founder x i d n r approval_id db = do
    (event, after) ←
        append_report i x.evidence_refs (obj d) null (request_report i n r approval_id) db
    let row = new_approval i event n x.input approval_id after
    check_approval row after.approvals
    ok (event, record after { approvals = after.approvals ++ row ∷ [] })

  unfoldable pub record_outcome :
      Inputs → WorkflowInstance → Evidence → Outcome → Db → Result (SandboxEvent × Db)
  unfolding delivery_of denial_report success_report
  record_outcome x i e (stopped d o) db =
      append_report i x.evidence_refs (native_value e.native) e.failure
        (denial_report lib.render i x.canonical.agents e.native d o) db
  record_outcome x i e (finished n r receipt) db =
      append_report i (x.evidence_refs ++ receipts receipt) (native_value e.native) null
        (success_report x n r receipt) db

  -- What follows the checks of the decision.
  unfoldable pub settle :
      Inputs → WorkflowInstance → Evidence → Hearing → Db → W → Result (SandboxEvent × Db) × W
  unfolding ask_founder perform record_outcome
  settle x i e (escalated n r approval_id) db w =
      (ask_founder x i (fields_of e.native) n r approval_id db, w)
  settle x i e (heard v) db w =
      let (o, w') = perform lib (fields_of e.native) c.idempotency_key v w in
      (record_outcome x i e o db, w')

  -- What follows the provider.
  unfoldable pub govern : Inputs → Prepared → Evidence → Db → W → Result (SandboxEvent × Db) × W
  unfolding judge hear settle
  govern x p e db w = elim (judge lib.decimals x p c.policy e) [
    | err f ↦ (err f, w)
    | ok v ↦ settle x p.instance_row e (hear x p.instance_row db v) db w
  ]

  unfoldable pub read_call : Db → Result (Inputs × Prepared)
  unfolding read_inputs prepare
  read_call db = do x ← read_inputs lib.sandbox_mode c; p ← prepare c db; ok (x, p)

  unfoldable pub coordinate_sandbox_action : Db → W → Result (SandboxEvent × Db) × W
  unfolding read_call govern read_provided
  coordinate_sandbox_action db w = elim (read_call db) [
    | err f ↦ (err f, w)
    | ok (x, p) ↦
        let (answer, w') = lib.decide x.input w in govern x p (read_provided lib.repr answer) db w'
  ]
