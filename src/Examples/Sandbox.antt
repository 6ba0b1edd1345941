-- ===== src/Examples/Sandbox.antt =====
-- A run with one instance of the lead workflow, and the deliveries to it. Every schema is valid.
use polsia_build.Common.{
  Option, String, [], arith, dedup, distinct, false, inl, inr, minus, none, refl, some, true, ℕ,
  ◌↔◌, ◌∷◌, ◌≡◌,
}
use polsia_build.Examples.Data.{lead_workflow}
use polsia_build.Raises.{Exception, Message, err, ok}
use polsia_build.Sandbox.{
  Db, SandboxEvent, SandboxRun, WorkflowInstance, check_columns, check_event, check_instance,
  check_run, empty_db, max_sequence, save_instance,
}
use polsia_build.Sandbox.Append.{IsRow}
use polsia_build.Sandbox.Constraints.{FitsColumns, check_event_iff}
use polsia_build.Sandbox.Listing.{list_sandbox_events, list_sandbox_events-log, run_events}
use polsia_build.Sandbox.Once.{append_sandbox_event_once}
use polsia_build.Sandbox.Reachable.{
  IsSound, Reachable, Reachable-IsSound, appended, instance_created, nothing, run_created,
}
use polsia_build.Sandbox.Service.{
  Delivery, append_sandbox_event, append_to, bind_payload, build_event, check_identity, check_state,
  check_transition, create_sandbox_run, create_workflow_instance, new_instance, new_run,
}
use polsia_build.Value.{Fields, Value, bool, end, eq, field, is_null, null, obj, set_item, str}
use polsia_build.Workflow.{find_transition, matches, read_workflow}

abbrev no_error : Value → Value → Option Message
no_error _ _ = none

abbrev pub first_run : SandboxRun
first_run = new_run "run-1" "acme" "0.1" null empty_db

abbrev one_run : Db
one_run = record empty_db { runs = first_run ∷ [] }

abbrev pub first_lead : WorkflowInstance
first_lead = new_instance 1 "lead" "Lead" "42" (some "new") one_run

abbrev pub one_lead : Db
one_lead = record one_run { instances = first_lead ∷ [] }

abbrev contact_payload : Fields
contact_payload = field "event_id" (str "e-1") (
    field "primary_classification" (str "outreach") (
      field "event_type" (str "transition_completed") (
        field "action" (str "contact_lead") (
          field "risk_level" (str "GREEN") (
            field "state_before" (str "new") (
              field "state_after" (str "contacted") (
                field "result" (str "executed_in_sandbox")
                  (field "external_side_effect" (bool false) end))))))))

abbrev delivery : ℕ → String → Delivery
delivery version key = record {
  workflow_instance_id = 1;
  expected_version = version;
  idempotency_key = key;
  event_payload = contact_payload;
  event_schema = null;
  workflow_definition = lead_workflow;
  native_decision = obj (field "action" (str "contact_lead") end);
  native_failure = null;
}

abbrev contact_row : SandboxEvent
contact_row = record {
  id = 1;
  sandbox_run_id = 1;
  workflow_instance_id = 1;
  event_id = "e-1";
  sequence = 1;
  idempotency_key = "k-1";
  primary_classification = str "outreach";
  event_type = str "transition_completed";
  result = str "executed_in_sandbox";
  risk_level = str "GREEN";
  state_before = str "new";
  state_after = str "contacted";
  external_side_effect = bool false;
  terminal_key = none;
  payload = bind_payload first_run 1 contact_payload;
  native_decision = obj (field "action" (str "contact_lead") end);
  native_failure = null;
}

abbrev contacted : Db
contacted = record one_lead {
  instances = record first_lead { current_state = str "contacted"; version = 1 } ∷ [];
  events = contact_row ∷ [];
}

run_made : create_sandbox_run "run-1" "acme" "0.1" null empty_db ≡ ok (first_run, one_run)
unfolding create_sandbox_run check_run
run_made = refl

lead_made :
    create_workflow_instance 1 "lead" "Lead" "42" (some "new") one_run ≡ ok (first_lead, one_lead)
unfolding create_workflow_instance check_instance
lead_made = refl

contact_appended :
    append_sandbox_event no_error (delivery 0 "k-1") one_lead ≡ ok (contact_row, contacted)
unfolding append_sandbox_event append_to check_identity check_state eq set_item check_transition
    read_workflow distinct minus dedup find_transition matches build_event check_event check_columns
    max_sequence save_instance
contact_appended = refl

one_lead-Reachable : Reachable no_error one_lead
one_lead-Reachable =
    instance_created 1 "lead" "Lead" "42" (some "new") first_lead
      (run_created "run-1" "acme" "0.1" null first_run nothing run_made) lead_made

pub one_lead-IsSound : IsSound one_lead
one_lead-IsSound = Reachable-IsSound no_error one_lead one_lead-Reachable

Reachable-IsSound_example : IsSound contacted
Reachable-IsSound_example =
    Reachable-IsSound no_error contacted
      (appended (delivery 0 "k-1") contact_row one_lead-Reachable contact_appended)

append_sandbox_event_once_example :
    (x : Exception) × (append_sandbox_event no_error (delivery 1 "k-1") contacted ≡ err x)
append_sandbox_event_once_example =
    append_sandbox_event_once no_error (delivery 0 "k-1") (delivery 1 "k-1") one_lead contacted
      contact_row contact_appended refl refl

contact_row-IsRow : IsRow first_run first_lead (delivery 0 "k-1") one_lead contact_row
unfolding max_sequence set_item eq
contact_row-IsRow = record {
  id = refl;
  of_run = refl;
  of_instance = refl;
  sequence = refl;
  key = refl;
  payload = refl;
  before = refl;
  after = refl;
  terminal = refl;
  terminal_text = refl;
  decision = refl;
  failure = refl;
}

contact_row-FitsColumns : FitsColumns contact_row
unfolding eq
contact_row-FitsColumns = record {
  effect = refl;
  event_id = omega arith;
  key = omega arith;
  classification = ("outreach", refl, omega arith);
  event_type = ("transition_completed", refl, omega arith);
  result = ("executed_in_sandbox", refl, omega arith);
  risk = ("GREEN", refl, omega arith);
  before = inr ("new", refl, omega arith);
  after = inr ("contacted", refl, omega arith);
}

check_event_iff_example : (check_event contact_row [] ≡ ok tt) ↔ (
    FitsColumns contact_row
    × ((is_null contact_row.native_decision ≡ true) ↔ (is_null contact_row.native_failure ≡ false)))
unfolding check_state eq set_item check_transition read_workflow distinct minus dedup
    find_transition matches
check_event_iff_example =
    check_event_iff contact_row-IsRow lead_workflow one_lead-IsSound.derived (inl refl) refl refl

contact_row-passes : check_event contact_row [] ≡ ok tt
contact_row-passes = check_event_iff_example.1 (contact_row-FitsColumns, (λ h. cc, λ h. cc))

list_sandbox_events-log_example : list_sandbox_events 1 contacted ≡ run_events 1 contacted.events
list_sandbox_events-log_example =
    list_sandbox_events-log no_error 1 contacted
      (appended (delivery 0 "k-1") contact_row one_lead-Reachable contact_appended)
