-- ===== src/Examples/Coordinator.antt =====
-- One governed action: the provider asks for an email, and the adapter sends it. The world is the
-- list of what was called.
use polsia_build.Common.{
  List, Option, String, [], ap, dedup, distinct, false, if◌then◌else◌, minus, none, refl, some,
  sorted, true, ℕ, ◌++◌, ◌==◌, ◌∷◌, ◌≡◌,
}
use polsia_build.Coordinator.Action.{hear, judge, perform, take_receipt}
use polsia_build.Coordinator.Effects.{ActsGoverned, coordinate_sandbox_action-effects}
use polsia_build.Coordinator.Freshness.{coordinate_sandbox_action-spent}
use polsia_build.Coordinator.Inputs.{Call, Runtime, is_spent, prepare, read_canonical, read_inputs}
use polsia_build.Coordinator.Native.{Provided, read_native, read_provided, returned}
use polsia_build.Coordinator.Payload.{Report, delivery_of, payload_of}
use polsia_build.Coordinator.Recorded.{coordinate_sandbox_action-one_event}
use polsia_build.Coordinator.Report.{
  coordinate_sandbox_action, govern, read_call, record_outcome, settle, success_report,
}
use polsia_build.Coordinator.Ruling.{
  rule_binding, rule_capability, rule_from, rule_later, rule_native, rule_policy, rule_request,
  rule_transition, rule_write, trusted_intent,
}
use polsia_build.Examples.Data.{intent_of, lead_registry, lead_workflow, naturals, policy_rules}
use polsia_build.Examples.Sandbox.{first_lead, first_run, one_lead, one_lead-IsSound}
use polsia_build.Integration.{config_of, decide_config, evaluate_registry, read_registry}
use polsia_build.Policy.{
  as_bool, bound_reason, compare_total, conclude, evaluate_action_policy, evaluate_fields, in_dict,
  is_approved, matched_blocks, read_request, read_rules, risk_of, string_set, to_decimal, weigh,
  write_block,
}
use polsia_build.Raises.{Exception, Message, Result, err, ok, text}
use polsia_build.Sandbox.{Db, SandboxEvent, check_columns, check_event, max_sequence, save_instance}
use polsia_build.Sandbox.Reachable.{IsSound}
use polsia_build.Sandbox.Service.{
  append_sandbox_event, append_to, bind_payload, build_event, check_identity, check_state,
  require_bound_identity,
}
use polsia_build.Value.{
  Fields, arr, bool, end, eq, field, int, null, obj, pop, set_item, str, texts,
}
use polsia_build.Value.Json.{is_json}
use polsia_build.Workflow.{read_workflow}

abbrev email_intent : Fields
email_intent = intent_of "contact_lead" (int 40) end

abbrev pub email_decision : Fields
email_decision = field "action" (str "contact_lead") (
    field "risk_level" (str "GREEN") (
      field "state_after" (str "new") (
        field "agent_type" (str "sales") (
          field "handoff_to" (str "sales") (
            field "policy_intent" (obj email_intent) (
              field "integration"
                (obj (
                  field "name" (str "email") (
                    field "phase" (str "execute")
                      (field "use" (str "outreach") (field "scope" (str "leads") end)))))
                end))))))

abbrev ask : Fields → List String → Provided × List String
ask input w = (returned (obj email_decision), "provider" ∷ w)

abbrev send : Fields → String → List String → Provided × List String
send decision key w = (returned (str "sandbox://email/1"), key ∷ w)

abbrev adapters : String → Option (Fields → String → List String → Provided × List String)
adapters name = if name == "email" then some send else none

abbrev plain : Message → String
plain (text s) = s
plain _ = "..."

abbrev pub runtime : Runtime (List String)
runtime = record {
  sandbox_mode = true;
  decimals = naturals;
  invalid = λ schema payload. none;
  repr = λ v. "...";
  render = plain;
  event_id = "e-1";
  occurred_at = "2025-01-01T00:00:00+00:00";
  decide = ask;
  synthetic_adapters = adapters;
}

abbrev call : ℕ → Call
call version = record {
  workflow_instance_id = 1;
  expected_version = version;
  idempotency_key = "k-1";
  synthetic_input = obj (
      field "evidence_refs" (arr (texts ("sandbox://lead/42" ∷ [])))
        (field "primary_classification" (str "outreach") end));
  workflow = lead_workflow;
  policy = obj policy_rules;
  integration_registry = lead_registry;
  event_schema = null;
  canonical_agents = arr (texts ("sales" ∷ []));
  canonical_handoffs = arr (texts ("sales" ∷ []));
  canonical_actions = arr (texts ("contact_lead" ∷ []));
}

coordinate_sandbox_action-effects_example : ActsGoverned runtime (call 0) one_lead []
coordinate_sandbox_action-effects_example =
    coordinate_sandbox_action-effects runtime (call 0) one_lead []

coordinate_sandbox_action-spent_example :
    (x : Exception) × (coordinate_sandbox_action runtime (call 3) one_lead [] ≡ (err x, []))
unfolding is_spent
coordinate_sandbox_action-spent_example =
    coordinate_sandbox_action-spent runtime (call 3) first_lead one_lead [] refl refl

abbrev email_report : Report
email_report = record {
  event_type = "decision_produced";
  result = "executed_in_sandbox";
  risk = "GREEN";
  action = str "contact_lead";
  agent = str "sales";
  classification = str "outreach";
  state_after = str "new";
  approval = null;
  integration = some (record {
    integration = "email";
    phase = "execute";
    mode = "sandbox";
    allowed = true;
    external_write = true;
    reason = "";
  });
  category = "allow";
  error = null;
  autonomy_class = none;
  founder_minutes = int 0;
  metadata_extra = end;
}

abbrev email_payload : Fields
email_payload = bind_payload first_run 1 (
    payload_of "e-1" "2025-01-01T00:00:00+00:00" first_lead
      (arr (texts ("sandbox://lead/42" ∷ "sandbox://email/1" ∷ []))) email_report)

abbrev email_row : SandboxEvent
email_row = record {
  id = 1;
  sandbox_run_id = 1;
  workflow_instance_id = 1;
  event_id = "e-1";
  sequence = 1;
  idempotency_key = "k-1";
  primary_classification = str "outreach";
  event_type = str "decision_produced";
  result = str "executed_in_sandbox";
  risk_level = str "GREEN";
  state_before = str "new";
  state_after = str "new";
  external_side_effect = bool false;
  terminal_key = none;
  payload = email_payload;
  native_decision = obj email_decision;
  native_failure = null;
}

abbrev emailed : Db
emailed = record one_lead { events = email_row ∷ [] }

-- Both were called, the provider first, and one event was recorded.
email_sent :
    coordinate_sandbox_action runtime (call 0) one_lead []
    ≡ (ok (email_row, emailed), "k-1" ∷ "provider" ∷ [])
unfolding coordinate_sandbox_action is_json distinct eq read_workflow minus dedup read_registry
    as_bool read_native rule_native rule_transition rule_policy trusted_intent pop
    evaluate_action_policy evaluate_fields sorted hear judge perform take_receipt is_spent prepare
    read_canonical read_inputs read_provided delivery_of payload_of govern read_call record_outcome
    settle success_report rule_binding rule_capability rule_from rule_later rule_request rule_write
    config_of decide_config evaluate_registry bound_reason compare_total conclude in_dict
    is_approved matched_blocks read_request read_rules risk_of string_set to_decimal weigh
    write_block append_sandbox_event append_to build_event check_identity check_state
    require_bound_identity check_event check_columns max_sequence save_instance set_item
email_sent = refl

coordinate_sandbox_action-one_event_example :
    (emailed.events ≡ one_lead.events ++ email_row ∷ [])
    × (email_row.idempotency_key ≡ "k-1")
    × IsSound emailed
coordinate_sandbox_action-one_event_example =
    coordinate_sandbox_action-one_event runtime (call 0) one_lead emailed [] email_row
      (ap (λ (r : Result (SandboxEvent × Db) × List String). r.0) email_sent) one_lead-IsSound
