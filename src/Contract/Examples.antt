-- ===== src/Contract/Examples.antt =====
-- A decision of Stage 1, and two payloads that are refused.
use polsia_build.Common.{
  List, Option, String, [], false, minus, none, refl, some, true, ◌↔◌, ◌∷◌, ◌≡◌, ◌⊎◌,
}
use polsia_build.Contract.{
  check_choices, check_fields, check_keys, check_lists, check_texts, validate_stage1_decision,
}
use polsia_build.Contract.Blank.{is_blank}
use polsia_build.Contract.Conformance.{IsUnblank, validate_stage1_decision-stage1_json_schema}
use polsia_build.Contract.Decision.{IsDecision, validate_stage1_decision_iff}
use polsia_build.Contract.Errors.{
  validate_stage1_decision_errors, validate_stage1_decision_unhashable,
}
use polsia_build.Contract.JsonSchema.{
  accepts, accepts_keyword, accepts_keywords, has_length, has_type,
}
use polsia_build.Contract.Schema.{stage1_json_schema}
use polsia_build.Raises.{Exception, contract_error, err, ok, raised, text, type_error}
use polsia_build.Value.{
  Fields, Value, arr, bool, end, eq, field, get, hashable, int, nil, obj, set_item, str, texts,
}

abbrev decision : Value → Fields
decision risk = field "scenario_id" (str "s1") (
    field "action" (str "contact_lead") (
      field "risk_level" risk (
        field "state" (str "contacted") (
          field "founder_approval" (bool false) (
            field "handoff_to" (str "sales") (
              field "actions_taken" (arr nil) (
                field "actions_proposed" (arr (texts ("send email" ∷ [])))
                  (field "assumptions" (arr nil) end))))))))

abbrev owners : Option (List String)
owners = some ("sales" ∷ "finance" ∷ [])

decision_accepted :
    validate_stage1_decision (obj (decision (str "GREEN"))) "s1" owners none
    ≡ ok (obj (decision (str "GREEN")))
unfolding validate_stage1_decision minus eq is_blank check_fields check_keys check_texts
    check_choices check_lists
decision_accepted = refl

validate_stage1_decision_iff_example :
    (validate_stage1_decision (obj (decision (str "GREEN"))) "s1" owners none
      ≡ ok (obj (decision (str "GREEN"))))
    ↔ IsDecision (decision (str "GREEN")) "s1" owners none
validate_stage1_decision_iff_example =
    validate_stage1_decision_iff (decision (str "GREEN")) "s1" owners none

abbrev bad_risk : Exception
bad_risk = raised contract_error (text "risk_level must be GREEN, YELLOW, or RED")

purple_refused :
    validate_stage1_decision (obj (decision (str "PURPLE"))) "s1" owners none ≡ err bad_risk
unfolding validate_stage1_decision minus eq is_blank check_fields check_keys check_texts
    check_choices
purple_refused = refl

validate_stage1_decision_errors_example :
    (contract_error ≡ contract_error)
    ⊎ ((d : Fields) × (obj (decision (str "PURPLE")) ≡ obj d)
        × (hashable (get d "risk_level") ≡ false))
validate_stage1_decision_errors_example =
    validate_stage1_decision_errors (obj (decision (str "PURPLE"))) "s1" owners none purple_refused

validate_stage1_decision_unhashable_example :
    validate_stage1_decision
      (obj (set_item (decision (str "GREEN")) "risk_level" (arr nil)))
      "s1"
      owners
      none
    ≡ err (raised type_error (text "unhashable type"))
validate_stage1_decision_unhashable_example =
    validate_stage1_decision_unhashable (decision (str "GREEN")) (arr nil) "s1" owners none
      decision_accepted refl

validate_stage1_decision-stage1_json_schema_example :
    (validate_stage1_decision (obj (decision (str "GREEN"))) "s1" owners none
      ≡ ok (obj (decision (str "GREEN"))))
    ↔ ((accepts (stage1_json_schema "s1" owners none) (obj (decision (str "GREEN"))) ≡ true)
        × IsUnblank (decision (str "GREEN")))
validate_stage1_decision-stage1_json_schema_example =
    validate_stage1_decision-stage1_json_schema (decision (str "GREEN")) "s1" owners none

-- The schema takes a text of one space; the validator does not.
spaced_accepted :
    accepts (obj (field "type" (str "string") (field "minLength" (int 1) end))) (str " ") ≡ true
unfolding accepts accepts_keyword accepts_keywords has_type has_length
spaced_accepted = refl
