-- ===== src/Examples/Audit.antt =====
-- An action that is proposed and then authorized.
use polsia_build.Common.{[], none, refl, ◌∷◌, ◌≡◌}
use polsia_build.Audit.{
  ActionEvent, ActionRecord, AuditDb, allowed_transitions, append_action_event,
  create_action_record, previous_status,
}
use polsia_build.Audit.Lifecycle.{
  Arises-IsAudited, IsAudited, event_appended, none_made, record_created,
}
use polsia_build.Raises.{ok}
use polsia_build.Value.{end, field, null, obj, str}

abbrev proposal : ActionRecord
proposal = record {
  id = 1;
  company_slug = "acme";
  scenario_id = null;
  agent_type = "sales";
  proposed_action = "contact_lead";
  decision_envelope = obj (field "action" (str "contact_lead") end);
  policy_decision = null;
  workflow_transition = null;
  approval_state = "not_required";
  integration_state = null;
  initial_execution_status = "proposed";
}

abbrev authorization : ActionEvent
authorization = record {
  id = 1;
  action_record_id = 1;
  event_type = "policy";
  execution_status = "authorized";
  approval_state = "not_required";
  details = none;
  evidence = null;
}

abbrev proposed : AuditDb
proposed = record { records = proposal ∷ []; events = [] }

abbrev authorized : AuditDb
authorized = record { records = proposal ∷ []; events = authorization ∷ [] }

proposal_created :
    create_action_record proposal (record { records = []; events = [] }) ≡ ok (proposal, proposed)
unfolding create_action_record
proposal_created = refl

authorization_appended : append_action_event authorization proposed ≡ ok (authorization, authorized)
unfolding append_action_event allowed_transitions previous_status
authorization_appended = refl

Arises-IsAudited_example : IsAudited authorized
Arises-IsAudited_example = Arises-IsAudited authorized (
    event_appended authorization authorization
      (record_created proposal proposal none_made proposal_created) authorization_appended)
