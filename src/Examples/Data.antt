-- ===== src/Examples/Data.antt =====
-- The inputs of the tests: a workflow of two steps, a policy, a registry and the actions on them.
use polsia_build.Common.{Bool, List, Option, String, [], ltb, none, some, true, ℕ, ◌∷◌}
use polsia_build.Integration.{modes}
use polsia_build.Policy.{Decimals}
use polsia_build.Value.{
  Fields, Value, arr, bool, cons, end, field, int, nil, nonfinite, null, num, obj, str, texts,
}
use polsia_build.Workflow.{Definition, Transition}

abbrev change : String → String → String → String → List String → Value → Value
change from to action risk requirements integration = obj (
    field "from" (str from) (
      field "to" (str to) (
        field "action" (str action) (
          field "risk_level" (str risk) (
            field "requirements" (arr (texts requirements))
              (field "integration" integration end))))))

abbrev pub lead_workflow : Value
lead_workflow = obj (
    field "id" (str "lead") (
      field "states" (arr (texts ("new" ∷ "contacted" ∷ "closed" ∷ []))) (
        field "terminal_states" (arr (texts ("closed" ∷ []))) (
          field "transitions"
            (arr (
              cons (change "new" "contacted" "contact_lead" "GREEN" ("has_email" ∷ []) null)
                (cons (change "contacted" "closed" "close_lead" "GREEN" [] null) nil)))
            end))))

abbrev pub contact_lead : Transition
contact_lead = record {
  source = "new";
  target = "contacted";
  action = "contact_lead";
  risk_level = "GREEN";
  requirements = "has_email" ∷ [];
  integration = none;
}

abbrev pub close_lead : Transition
close_lead = record {
  source = "contacted";
  target = "closed";
  action = "close_lead";
  risk_level = "GREEN";
  requirements = [];
  integration = none;
}

abbrev pub lead_definition : Definition
lead_definition = record {
  id = "lead";
  states = "new" ∷ "contacted" ∷ "closed" ∷ [];
  terminal_states = "closed" ∷ [];
  transitions = contact_lead ∷ close_lead ∷ [];
}

abbrev pub policy_rules : Fields
policy_rules = field "hard_denies" (arr (texts ("wire_money" ∷ []))) (
    field "non_approvable_blocks" (arr (texts ("no_consent" ∷ []))) (
      field "red_action_types" (arr (texts ("sign_contract" ∷ [])))
        (field "limits" (obj (field "spend" (int 100) end)) end)))

abbrev pub intent_of : String → Value → Fields → Fields
intent_of action total rest = field "action_type" (str action) (
    field "risk_level" (str "GREEN") (
      field "external_write" (bool true) (
        field "integration_mode" (str "sandbox")
          (field "limit_name" (str "spend") (field "requested_total" total rest)))))

-- Natural numbers, and NaN.
abbrev of_number : Value → Option (Option ℕ)
of_number (num n) = some (some n.mantissa)
of_number (nonfinite _) = some none
of_number _ = none

abbrev exceeds : Option ℕ → Option ℕ → Option Bool
exceeds (some a) (some b) = some (ltb b a)
exceeds _ _ = none

abbrev pub naturals : Decimals
naturals = record { Decimal = Option ℕ; of_value = of_number; gt = exceeds }

abbrev email_config : Value
email_config = obj (
    field "mode" (str "sandbox") (
      field "verified" (bool true) (
        field "external_writes" (bool true)
          (field "desired_use" (arr (texts ("outreach" ∷ []))) (field "scope" (str "leads") end)))))

abbrev pub lead_registry : Value
lead_registry = obj (
    field "modes" (arr (texts modes))
      (field "integrations" (obj (field "email" email_config end)) end))
