-- ===== src/Examples/Approvals.antt =====
-- A request for an email that the founder approves, and its resumption, which sends the email.
use polsia_build.Common.{
  List, Option, String, [], ap, arith, dedup, distinct, false, inl, inr, minus, none, refl, some,
  sorted, ◌∷◌, ◌≡◌,
}
use polsia_build.Approvals.Binding.{bound_rows}
use polsia_build.Approvals.Effects.{ActsPermitted, resume_sandbox_approval-effects}
use polsia_build.Approvals.Once.{resume_sandbox_approval-again}
use polsia_build.Approvals.Outcome.{
  carry_out, is_incomplete, read_approval, record_resumed, record_resumption, reopen, resume_open,
  resume_sandbox_approval, resumed_refs, resumed_report, take_evidence,
}
use polsia_build.Approvals.Resolve.{Resolution, read_resolution, resolve_sandbox_approval}
use polsia_build.Approvals.Resume.{
  Resume, capability_found, check_binding, check_capability, judge_resume, resume_capability,
  resume_decision, resume_policy, resume_transition, text_set,
}
use polsia_build.Approvals.Settled.{resolve_sandbox_approval-again, resolve_sandbox_approval-once}
use polsia_build.Coordinator.Inputs.{Runtime}
use polsia_build.Coordinator.Native.{read_native}
use polsia_build.Coordinator.Payload.{delivery_of, payload_of}
use polsia_build.Coordinator.Ruling.{trusted_intent}
use polsia_build.Examples.Coordinator.{email_decision, runtime}
use polsia_build.Examples.Data.{lead_registry, lead_workflow, policy_rules}
use polsia_build.Examples.Sandbox.{one_lead}
use polsia_build.Integration.{config_of, decide_config, evaluate_registry, read_registry}
use polsia_build.Policy.{
  as_bool, bound_reason, compare_total, conclude, evaluate_action_policy, evaluate_fields, in_dict,
  is_approved, matched_blocks, read_request, read_rules, risk_of, string_set, to_decimal, weigh,
  write_block,
}
use polsia_build.Raises.{Result, err, ok}
use polsia_build.Sandbox.{
  Db, SandboxApproval, SandboxEvent, check_columns, check_event, check_update, empty_db, is_open,
  max_sequence, save_approval, save_instance, update_approval,
}
use polsia_build.Sandbox.Rows.{IsPlaced}
use polsia_build.Sandbox.Service.{
  append_sandbox_event, append_to, build_event, check_identity, check_state, require_bound_identity,
}
use polsia_build.Value.{arr, bool, end, eq, field, int, null, obj, pop, set_item, str, texts}
use polsia_build.Value.Json.{is_json}
use polsia_build.Value.Text.{decimal}
use polsia_build.Workflow.{read_workflow}

abbrev request_row : SandboxEvent
request_row = record {
  id = 1;
  sandbox_run_id = 1;
  workflow_instance_id = 1;
  event_id = "e-1";
  sequence = 1;
  idempotency_key = "k-1";
  primary_classification = str "outreach";
  event_type = str "approval_requested";
  result = str "blocked";
  risk_level = str "GREEN";
  state_before = str "new";
  state_after = str "new";
  external_side_effect = bool false;
  terminal_key = none;
  payload = field "approval" (obj (field "decision_id" (str "d-1") end)) (
      field "evidence_refs" (arr (texts ("sandbox://lead/42" ∷ []))) (
        field "agent_type" (str "sales")
          (field "metadata" (obj (field "workflow_version" (int 0) end)) end)));
  native_decision = obj email_decision;
  native_failure = null;
}

abbrev pending_row : SandboxApproval
pending_row = record {
  id = 1;
  sandbox_run_id = 1;
  workflow_instance_id = 1;
  request_event_id = 1;
  decision_id = "d-1";
  action = str "contact_lead";
  input_snapshot = field "primary_classification" (str "outreach") end;
  status = "pending";
  founder_id = none;
  founder_minutes = null;
  autonomy_class = none;
  corrected_decision = null;
  manual_evidence_ref = none;
  resolution_event_id = none;
  resolution_key = none;
  resume_event_id = none;
  resume_key = none;
  last_failure_event_id = none;
  failure_attempt_count = 0;
}

abbrev pub asked : Db
asked = record one_lead { events = request_row ∷ []; approvals = pending_row ∷ [] }

pub asked-IsPlaced : IsPlaced asked
asked-IsPlaced = record {
  below = λ e m. elim m [
    | inl s ↦ omega (arith, ap (λ (x : SandboxEvent). x.id) s)
    | inr n ↦ elim n [ ]
  ];
}

abbrev pub approve : Resolution
approve = record {
  approval_id = 1;
  status = "approved";
  founder_id = str "founder";
  founder_minutes = int 5;
  resolution_key = str "r-1";
  event_schema = null;
  workflow = lead_workflow;
  corrected_decision = null;
  manual_evidence_ref = null;
}

abbrev pub go_on : Resume
go_on = record {
  approval_id = 1;
  workflow = lead_workflow;
  policy = obj policy_rules;
  integration_registry = lead_registry;
  event_schema = null;
  canonical = record {
    agents = "sales" ∷ [];
    handoffs = "sales" ∷ [];
    actions = "contact_lead" ∷ [];
  };
  retry = false;
}

abbrev pub at_event : String → Runtime (List String)
at_event id = record runtime { event_id = id }

abbrev pub db_of : Result (Option SandboxEvent × Db) → Db
db_of (ok (r, db)) = db
db_of (err e) = empty_db

abbrev pub event_of : Result (Option SandboxEvent × Db) → Option SandboxEvent
event_of (ok (r, db)) = r
event_of (err e) = none

abbrev pub resolution : Result (Option SandboxEvent × Db)
resolution = resolve_sandbox_approval (at_event "e-2") approve asked

pub resolution_made : resolution ≡ ok (event_of resolution, db_of resolution)
unfolding resolve_sandbox_approval read_resolution is_json bound_rows eq append_sandbox_event
    append_to check_identity check_state set_item build_event check_event check_columns max_sequence
    update_approval is_open
resolution_made = refl

abbrev resolution_row : SandboxEvent
resolution_row = record request_row {
  id = 2;
  event_id = "e-2";
  sequence = 2;
  idempotency_key = "r-1";
  event_type = str "approval_resolved";
  result = str "observed";
}

abbrev approved_row : SandboxApproval
approved_row = record pending_row {
  status = "approved";
  founder_id = some "founder";
  founder_minutes = int 5;
  autonomy_class = some "A1";
  resolution_key = some "r-1";
  resolution_event_id = some 2;
}

abbrev pub approved_db : Db
approved_db = record one_lead {
  events = request_row ∷ resolution_row ∷ [];
  approvals = approved_row ∷ [];
}

abbrev pub resumption : Result (Option SandboxEvent × Db) × List String
resumption = resume_sandbox_approval (at_event "e-3") go_on approved_db []

-- The email is sent, under the approval's key.
pub email_resumed :
    resumption ≡ (ok (event_of resumption.0, db_of resumption.0), "stage2-approval-resume:1" ∷ [])
unfolding resume_sandbox_approval read_approval resume_open is_incomplete reopen carry_out
    record_resumption record_resumed take_evidence delivery_of resumed_report resumed_refs
    judge_resume resume_decision resume_capability resume_transition text_set resume_policy
    check_capability check_binding capability_found bound_rows decimal update_approval check_update
    is_open save_approval is_json distinct eq read_workflow minus dedup read_registry as_bool
    read_native trusted_intent pop evaluate_action_policy evaluate_fields sorted payload_of
    config_of decide_config evaluate_registry bound_reason compare_total conclude in_dict
    is_approved matched_blocks read_request read_rules risk_of string_set to_decimal weigh
    write_block append_sandbox_event append_to build_event check_identity check_state
    require_bound_identity check_event check_columns max_sequence save_instance set_item
email_resumed = refl

pub approved_db-IsPlaced : IsPlaced approved_db
approved_db-IsPlaced = record {
  below = λ e m. elim m [
    | inl s ↦ omega (arith, ap (λ (x : SandboxEvent). x.id) s)
    | inr n ↦ elim n [
      | inl s ↦ omega (arith, ap (λ (x : SandboxEvent). x.id) s)
      | inr z ↦ elim z [ ]
    ]
  ];
}

resume_sandbox_approval-effects_example : ActsPermitted (at_event "e-3") go_on approved_db []
resume_sandbox_approval-effects_example =
    resume_sandbox_approval-effects (at_event "e-3") go_on approved_db []

resume_sandbox_approval-again_example :
    resume_sandbox_approval (at_event "e-4") go_on (db_of resumption.0) []
    ≡ (ok (event_of resumption.0, db_of resumption.0), [])
resume_sandbox_approval-again_example =
    resume_sandbox_approval-again (at_event "e-3") (at_event "e-4") go_on go_on approved_db
      (db_of resumption.0) [] [] (event_of resumption.0)
      (ap (λ (t : Result (Option SandboxEvent × Db) × List String). t.0) email_resumed)
      approved_db-IsPlaced refl refl refl

approval_again :
    resolve_sandbox_approval (at_event "e-3") approve (db_of resolution)
    ≡ ok (event_of resolution, db_of resolution)
unfolding eq
approval_again =
    resolve_sandbox_approval-again (at_event "e-2") (at_event "e-3") approve asked
      (db_of resolution) (event_of resolution) resolution_made asked-IsPlaced refl refl

resolve_sandbox_approval-again_example :
    resolve_sandbox_approval (at_event "e-3") approve (db_of resolution)
    ≡ ok (event_of resolution, db_of resolution)
unfolding eq
resolve_sandbox_approval-again_example =
    resolve_sandbox_approval-again (at_event "e-2") (at_event "e-3") approve asked
      (db_of resolution) (event_of resolution) resolution_made asked-IsPlaced refl refl

resolve_sandbox_approval-once_example :
    (event_of resolution ≡ event_of resolution) × (db_of resolution ≡ db_of resolution)
resolve_sandbox_approval-once_example =
    resolve_sandbox_approval-once (at_event "e-2") (at_event "e-3") approve approve asked
      (db_of resolution) (db_of resolution) (event_of resolution) (event_of resolution)
      resolution_made asked-IsPlaced refl approval_again
