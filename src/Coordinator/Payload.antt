-- ===== src/Coordinator/Payload.antt =====
-- The event that `_append` of app/services/company_os_sandbox_coordinator.py builds and appends.
use polsia_build.Common.{
  Option, String, [], contains, false, if◌then◌else◌, is_empty, none, not, some, ℕ, ◌==◌, ◌∷◌,
}
use polsia_build.Integration.{IntegrationDecision}
use polsia_build.Sandbox.{WorkflowInstance}
use polsia_build.Sandbox.Service.{Delivery}
use polsia_build.Value.{Fields, Value, bool, end, field, null, obj, str, truthy}

-- The keyword arguments of `_append`; `None` is `null`.
pub record Report : Type 0 where
  pub event_type : String
  pub result : String
  pub risk : String
  pub action : Value
  pub agent : Value
  pub classification : Value
  pub state_after : Value
  pub approval : Value
  pub integration : Option IntegrationDecision
  pub category : String
  pub error : Value
  pub autonomy_class : Option String
  pub founder_minutes : Value
  pub metadata_extra : Fields

abbrev shown_integration : Option IntegrationDecision → Value
shown_integration none = null
shown_integration (some d) =
    let executes = d.phase == "execute" in
    if contains ("unregistered" ∷ "live" ∷ []) d.mode
    then null
    else obj (
        field "name" (str d.integration) (
          field "mode" (str d.mode) (
            field "attempted_write" (bool executes)
              (field "target" (str (if executes then "sandbox" else "none")) end))))

abbrev autonomy_of : Option String → Value → String
autonomy_of (some s) shown = if not (is_empty s) then s else if truthy shown then "A1" else "A0"
autonomy_of none shown = if truthy shown then "A1" else "A0"

abbrev autonomy_value : Report → Value
autonomy_value r = obj (
    field "class" (str (autonomy_of r.autonomy_class r.approval))
      (field "founder_minutes" r.founder_minutes end))

module _ (event_id occurred_at : String) where
  unfoldable pub payload_of : WorkflowInstance → Value → Report → Fields
  payload_of i refs r = field "schema_version" (str "0.1.0") (
      field "event_id" (str event_id) (
        field "occurred_at" (str occurred_at) (
          field "primary_classification" r.classification (
            field "workflow_id" (str i.workflow_id) (
              field "entity_type" (str i.entity_type) (
                field "entity_id" (str i.entity_id) (
                  field "event_type" (str r.event_type) (
                    field "agent_type" r.agent (
                      field "action" r.action (
                        field "risk_level" (str r.risk) (
                          field "state_before" i.current_state (
                            field "state_after" r.state_after (
                              field "result" (str r.result) (
                                field "external_side_effect" (bool false) (
                                  field "approval" r.approval (
                                    field "integration" (shown_integration r.integration) (
                                      field "evidence_refs" refs (
                                        field "autonomy" (autonomy_value r) (
                                          field "error" r.error (
                                            field "metadata"
                                              (obj (field "gate" (str r.category) r.metadata_extra))
                                              end))))))))))))))))))))

  unfoldable pub delivery_of :
      WorkflowInstance → ℕ → String → Value → Value → Value → Value → Value → Report → Delivery
  unfolding payload_of
  delivery_of i expected_version key schema workflow refs native failure r = record {
    workflow_instance_id = i.id;
    expected_version = expected_version;
    idempotency_key = key;
    event_payload = payload_of i refs r;
    event_schema = schema;
    workflow_definition = workflow;
    native_decision = native;
    native_failure = failure;
  }
