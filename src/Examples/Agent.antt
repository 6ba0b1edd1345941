-- ===== src/Examples/Agent.antt =====
-- A task whose answer is a decision, and one whose answer is not.
use polsia_build.Common.{[], false, minus, none, refl, some, true, ◌∷◌, ◌≡◌}
use polsia_build.Agent.Decision.{
  IsNative, run_company_os_decision-IsNative, run_company_os_decision-evidence,
}
use polsia_build.Agent.Provider.{
  Assignment, Host, completed, read_assignment, run_company_os_decision,
}
use polsia_build.Contract.{check_choices, check_fields, check_keys, check_lists, check_texts}
use polsia_build.Contract.Blank.{is_blank}
use polsia_build.Raises.{Exception, contract_error, err, ok, text}
use polsia_build.Value.{
  Fields, Value, arr, as_dict, bool, end, eq, field, get, nil, null, obj, str, texts,
}
use polsia_build.Workflow.{as_nonempty_strings}

abbrev answer_of : Value → Value
answer_of risk = obj (
    field "structured_output"
      (obj (
        field "scenario_id" (str "s1") (
          field "action" (str "contact_lead") (
            field "risk_level" risk (
              field "state" (str "contacted") (
                field "founder_approval" (bool false) (
                  field "handoff_to" (str "sales") (
                    field "actions_taken" (arr nil) (
                      field "actions_proposed" (arr (texts ("send email" ∷ [])))
                        (field "assumptions" (arr nil) end))))))))))
      end)

abbrev host_of : Value → Host
host_of risk = record {
  mocked = false;
  mock_response = "";
  llm_provider = "claude";
  structured_output_available = true;
  loads = λ s. some (answer_of risk);
  dumps = λ v. "...";
  dumps_indented = λ v. "...";
  dumps_compact = λ v. "...";
  run = λ c. completed "printed";
  agent_type = "email_outreach";
  company_os_instructions = "Write to leads.";
}

abbrev lead_task : Fields
lead_task =
    field "task_metadata"
      (obj (
        field "scenario_id" (str "s1") (
          field "company_os_vocabulary"
            (obj (field "handoff_owners" (arr (texts ("sales" ∷ []))) end)) end)))
      end

abbrev lead_assignment : Assignment
lead_assignment = record {
  scenario_id = "s1";
  handoff_owners = arr (texts ("sales" ∷ []));
  workflow_states = null;
  owners = some ("sales" ∷ []);
  states = none;
}

lead_assigned : read_assignment lead_task ≡ ok lead_assignment
unfolding read_assignment as_nonempty_strings
lead_assigned = refl

abbrev lead_decision : Value
lead_decision = elim (as_dict (answer_of (str "GREEN"))) [
  | some d ↦ get d "structured_output"
  | none ↦ null
]

lead_decided : run_company_os_decision (host_of (str "GREEN")) lead_task null ≡ ok lead_decision
unfolding run_company_os_decision as_nonempty_strings check_fields check_keys minus check_texts eq
    is_blank check_choices check_lists
lead_decided = refl

run_company_os_decision-IsNative_example :
    IsNative (host_of (str "GREEN")) lead_task null lead_decision
run_company_os_decision-IsNative_example =
    run_company_os_decision-IsNative (host_of (str "GREEN")) lead_task null lead_decision refl
      lead_decided

abbrev wrong_risk : Exception
wrong_risk = record {
  kind = contract_error;
  message = text "risk_level must be GREEN, YELLOW, or RED";
  raw_output = str "printed";
}

purple_refused : run_company_os_decision (host_of (str "PURPLE")) lead_task null ≡ err wrong_risk
unfolding run_company_os_decision as_nonempty_strings check_fields check_keys minus check_texts eq
    is_blank check_choices
purple_refused = refl

run_company_os_decision-evidence_example : wrong_risk.raw_output ≡ str "printed"
run_company_os_decision-evidence_example =
    run_company_os_decision-evidence (host_of (str "PURPLE")) lead_task null "printed" wrong_risk
      lead_assignment refl refl refl (λ c. refl) lead_assigned purple_refused refl
