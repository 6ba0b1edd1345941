-- ===== src/Approvals/Outcome.antt =====
-- The rest of `resume_sandbox_approval` of app/services/company_os_sandbox_approval_service.py: the
-- early returns, the adapter, and the event that records what came of it.
use polsia_build.Common.{
  Bool, List, Option, String, [], any, contains, eqb, false, if◌then◌else◌, is_none, map, none, not,
  some, suc, true, ℕ, ◌&&◌, ◌++◌, ◌==◌, ◌||◌, ◌∷◌,
}
use polsia_build.Adapters.Execute.{execute}
use polsia_build.Approvals.Binding.{
  Bound, bound_rows, executable, need, refuse_if, requested_version, shown_approval, workflow_id_of,
}
use polsia_build.Approvals.Resume.{
  Recheck, Reopened, Resume, barred, characters, effective, judge_resume, passed,
}
use polsia_build.Coordinator.Action.{performed}
use polsia_build.Coordinator.Inputs.{Runtime, is_sandbox_ref}
use polsia_build.Coordinator.Native.{Native, Provided, returned}
use polsia_build.Coordinator.Payload.{Report, delivery_of}
use polsia_build.Coordinator.Report.{fields_of, risk_shown}
use polsia_build.Integration.{IntegrationDecision, read_registry}
use polsia_build.Raises.{
  Exception, Result, approval_error, coordinator_error, err, format, integration_error, item,
  key_error, ok, policy_error, raise_if, raised, text, type_error, value_error, workflow_error,
  ◌>>=◌, ◌>>◌,
}
use polsia_build.Sandbox.{
  Db, SandboxApproval, SandboxEvent, approval_by_id, event_by_id, update_approval,
}
use polsia_build.Sandbox.Service.{append_sandbox_event}
use polsia_build.Value.{
  Fields, Value, arr, as_dict, end, eq, field, hashable, int, is_null, keys, null, obj, of_list,
  optional, str, to_list, truthy,
}
use polsia_build.Value.Text.{concat, decimal}
use polsia_build.Workflow.{Definition, WorkflowTransition, read_workflow}

-- What came of the resumption.
pub data Carried : Type 0 where
  unsuccessful : Exception → Option IntegrationDecision → Carried
  successful :
      Native
      → Option WorkflowTransition
      → Option IntegrationDecision
      → (receipt : Option String) → Carried

-- The keys of an approval, for its adapter and its events
abbrev pub resume_key : SandboxApproval → String
resume_key a = concat ("stage2-approval-resume:" ∷ decimal a.id ∷ [])

abbrev pub failure_key : SandboxApproval → String
failure_key a = concat (resume_key a ∷ ":failure:" ∷ decimal (suc a.failure_attempt_count) ∷ [])

abbrev failure_of : String → Exception
failure_of m = raised approval_error (text m)

-- What the adapter returned, or how it failed.
unfoldable pub take_evidence :
    Native → Option WorkflowTransition → Option IntegrationDecision → Provided → Carried
take_evidence n t d (returned (str s)) =
    if is_sandbox_ref s
    then successful n t d (some s)
    else unsuccessful (failure_of "synthetic adapter did not return sandbox evidence") d
take_evidence n t d (returned v) =
    unsuccessful (failure_of "synthetic adapter did not return sandbox evidence") d
take_evidence n t d (Provided.failed class m raw) =
    unsuccessful
      (raised approval_error (format "synthetic adapter failed: {}: {}" (str class ∷ str m ∷ []))) d

-- `except (SandboxApprovalError, CompanyOSWorkflowError, ..., KeyError, TypeError, ValueError)`
abbrev pub is_caught : Exception → Bool
is_caught e = elim e.kind [
  | approval_error ↦ true
  | coordinator_error ↦ true
  | workflow_error ↦ true
  | policy_error ↦ true
  | integration_error ↦ true
  | key_error ↦ true
  | type_error ↦ true
  | value_error ↦ true
  | _ ↦ false
]

unfoldable pub failure_report : Reopened → Value → Option IntegrationDecision → String → Report
failure_report o agent d reason = record {
  event_type = "failure_detected";
  result = "blocked";
  risk = "GREEN";
  action = o.approval.action;
  agent = agent;
  classification = str "failure_recovery";
  state_after = o.rows.instance_row.current_state;
  approval = shown_approval o.approval o.approval.status;
  integration = d;
  category = "approval_resume";
  error = str reason;
  autonomy_class = o.approval.autonomy_class;
  founder_minutes = int 0;
  metadata_extra =
      field "approval_id" (int o.approval.id)
        (field "attempt" (int (suc o.approval.failure_attempt_count)) end);
}

abbrev resumed_type : Definition → Native → Option WorkflowTransition → String
resumed_type w n none = "decision_produced"
resumed_type w n (some t) =
    if contains w.terminal_states n.state_after then "terminal_outcome" else "transition_completed"

abbrev correction_shown : Reopened → Fields
correction_shown o =
    if o.approval.status == "modified"
    then field "founder_corrected_decision" (effective o.approval o.rows.request) end
    else end

unfoldable pub resumed_report :
    Reopened
    → Native
    → Option WorkflowTransition
    → Option IntegrationDecision
    → Option String
    → Value
    → Report
resumed_report o n t d receipt classification = record {
  event_type = resumed_type o.definition n t;
  result =
      if is_none t && (is_none receipt && is_none o.approval.manual_evidence_ref)
      then "observed"
      else "executed_in_sandbox";
  risk = risk_shown n t;
  action = str n.action;
  agent = str n.agent_type;
  classification = classification;
  state_after = str n.state_after;
  approval = shown_approval o.approval o.approval.status;
  integration = d;
  category = "approved_resume";
  error = null;
  autonomy_class = o.approval.autonomy_class;
  founder_minutes = int 0;
  metadata_extra =
      field "founder_id" (optional o.approval.founder_id)
        (field "approval_request_event_id" (str o.rows.request.event_id) (correction_shown o));
}

-- `[*v]`
unpacked : Value → Result (List Value)
unfolding characters
unpacked (arr vs) = ok (to_list vs)
unpacked (str s) = ok (map str (characters s))
unpacked (obj d) = ok (map str (keys d))
unpacked _ = err (raised type_error (text "Value after * must be an iterable"))

-- `dict.fromkeys(...)` as a list: the first of each
distinct_values : List Value → List Value → List Value
distinct_values seen [] = []
distinct_values seen (v ∷ vs) =
    let rest = distinct_values (v ∷ seen) vs in if any (λ w. eq w v) seen then rest else v ∷ rest

abbrev added_ref : Option String → Option String → List Value
added_ref (some s) _ = str s ∷ []
added_ref none (some s) = str s ∷ []
added_ref none none = []

unfoldable pub resumed_refs : SandboxApproval → Option String → Value → Result Value
unfolding distinct_values unpacked
resumed_refs a receipt v = do
  old ← unpacked v
  raise_if (any (λ w. not (hashable w)) old) type_error (text "unhashable type")
  ok (arr (of_list (distinct_values [] (old ++ added_ref a.manual_evidence_ref receipt))))

abbrev pub reopen_rows : SandboxApproval → Db → Result Bound
reopen_rows a db =
    bound_rows a
      (λ i request.
        not (is_null request.native_decision)
        && (eqb i.sandbox_run_id a.sandbox_run_id && eqb request.workflow_instance_id i.id))
      "approval and original native decision do not match" db

-- The row after a failure, and after a success.
abbrev pub failed_row : SandboxApproval → SandboxEvent → SandboxApproval
failed_row a e = record a {
  last_failure_event_id = some e.id;
  failure_attempt_count = suc a.failure_attempt_count;
}

abbrev pub resumed_row : SandboxApproval → SandboxEvent → SandboxApproval
resumed_row a e = record a { resume_event_id = some e.id; resume_key = some (resume_key a) }

-- The event that the row has of an earlier resumption, if that is all that is to be returned.
abbrev pub earlier : Resume → SandboxApproval → Option ℕ
earlier c a = elim a.resume_event_id [
  | some k ↦ some k
  | none ↦ if c.retry then none else a.last_failure_event_id
]

unfoldable pub is_incomplete : SandboxApproval → Bool
is_incomplete a = is_none a.resolution_event_id || not (truthy (optional a.founder_id))

module _ {W : Type 0} (lib : Runtime W) where
  -- The checks outside the `try`.
  unfoldable pub reopen : Resume → SandboxApproval → Db → Result Reopened
  reopen c a db = do
    b ← reopen_rows a db
    refuse_if
        (b.instance_row.terminal || not (eq b.instance_row.current_state b.request.state_before))
        "workflow changed since approval request"
    version ← requested_version b.request (int 0)
    refuse_if (not (eq (int b.instance_row.version) version))
        "workflow changed since approval request"
    id ← workflow_id_of c.workflow
    refuse_if (not (eq id (str b.instance_row.workflow_id)))
        "workflow does not match approved request"
    w ← read_workflow c.workflow
    r ← read_registry c.integration_registry
    ok (record { approval = a; rows = b; definition = w; registry = r })

  -- What was done by hand is not done again.
  unfoldable pub carry_out : Reopened → Recheck → W → Carried × W
  unfolding take_evidence
  carry_out o (barred e d) w = (unsuccessful e d, w)
  carry_out o (passed n t d) w =
      elim (if is_none o.approval.manual_evidence_ref then performed n.integration else none) [
        | none ↦ (successful n t d none, w)
        | some q ↦ elim (lib.synthetic_adapters q.name) [
          | none ↦ (unsuccessful (failure_of "registered synthetic adapter is missing") d, w)
          | some execute ↦
              let (x, w') =
                execute (fields_of (as_dict (effective o.approval o.rows.request)))
                  (resume_key o.approval) w in
              (take_evidence n t d x, w')
        ]
      ]

  -- The event of a failure, and its place on the row.
  unfoldable pub record_failure :
      Resume
      → Reopened
      → Exception
      → Option IntegrationDecision
      → Db
      → Result (Option SandboxEvent × Db)
  unfolding delivery_of failure_report
  record_failure c o e d db = do
    refs ← item o.rows.request.payload "evidence_refs"
    agent ← item o.rows.request.payload "agent_type"
    (event, after) ←
        append_sandbox_event lib.invalid
          (delivery_of lib.event_id lib.occurred_at o.rows.instance_row o.rows.instance_row.version
            (failure_key o.approval) c.event_schema c.workflow refs o.rows.request.native_decision
            null (failure_report o agent d (lib.render e.message)))
          db
    done ← update_approval (failed_row o.approval event) after
    ok (some event, done)

  -- The event of a success, and its place on the row.
  unfoldable pub record_resumed :
      Resume
      → Reopened
      → Native
      → Option WorkflowTransition
      → Option IntegrationDecision
      → Option String
      → Db
      → Result (Option SandboxEvent × Db)
  unfolding delivery_of resumed_report resumed_refs
  record_resumed c o n t d receipt db = do
    old ← item o.rows.request.payload "evidence_refs"
    refs ← resumed_refs o.approval receipt old
    classification ← item o.approval.input_snapshot "primary_classification"
    (event, after) ←
        append_sandbox_event lib.invalid
          (delivery_of lib.event_id lib.occurred_at o.rows.instance_row o.rows.instance_row.version
            (resume_key o.approval) c.event_schema c.workflow refs o.rows.request.native_decision
            null (resumed_report o n t d receipt classification))
          db
    done ← update_approval (resumed_row o.approval event) after
    ok (some event, done)

  unfoldable pub record_resumption :
      Resume → Reopened → Carried → Db → Result (Option SandboxEvent × Db)
  unfolding record_failure record_resumed
  record_resumption c o (unsuccessful e d) db =
      if is_caught e then record_failure c o e d db else err e
  record_resumption c o (successful n t d receipt) db = record_resumed c o n t d receipt db

  -- What follows the early returns.
  unfoldable pub resume_open :
      Resume → SandboxApproval → Db → W → Result (Option SandboxEvent × Db) × W
  unfolding reopen carry_out record_resumption judge_resume
  resume_open c a db w = elim (reopen c a db) [
    | err e ↦ (err e, w)
    | ok o ↦
        let (x, w') = carry_out o (judge_resume lib.decimals o c) w in
        (record_resumption c o x db, w')
  ]

  unfoldable pub read_approval : Resume → Db → Result SandboxApproval
  read_approval c db = do
    refuse_if (not lib.sandbox_mode) "Stage 2 requires sandbox_mode"
    a ← need (approval_by_id c.approval_id db) "approval does not exist"
    refuse_if (not (contains executable a.status)) "resolution does not permit execution"
    ok a

  unfoldable pub resume_sandbox_approval : Resume → Db → W → Result (Option SandboxEvent × Db) × W
  unfolding read_approval resume_open is_incomplete
  resume_sandbox_approval c db w = elim (read_approval c db) [
    | err e ↦ (err e, w)
    | ok a ↦ elim (earlier c a) [
      | some k ↦ (ok (event_by_id k db, db), w)
      | none ↦
          let rest = resume_open c a db w in
          if is_incomplete a then (err (failure_of "founder resolution is incomplete"), w) else rest
    ]
  ]
