-- ===== src/Contract/Schema.antt =====
-- `stage1_json_schema` of app/agents/company_os_contract.py: the schema that the provider gets.
use polsia_build.Common.{List, Option, String, false, none, some, sorted, ◌∷◌}
use polsia_build.Contract.{required_fields, risk_levels}
use polsia_build.Value.{Fields, Value, arr, bool, end, field, int, obj, str, texts}

abbrev pub text_list : Value
text_list =
    obj (field "type" (str "array") (field "items" (obj (field "type" (str "string") end)) end))

-- A text that is not empty, among the choices, if there are any.
abbrev pub choice : Option (List String) → Value
choice (some (s ∷ ss)) = obj (
    field "type" (str "string")
      (field "minLength" (int 1) (field "enum" (arr (texts (s ∷ ss))) end)))
choice _ = obj (field "type" (str "string") (field "minLength" (int 1) end))

unfoldable pub schema_properties : String → Option (List String) → Option (List String) → Fields
unfolding sorted
schema_properties scenario_id owners states =
    field "scenario_id" (obj (field "type" (str "string") (field "const" (str scenario_id) end))) (
      field "action" (choice none) (
        field "risk_level"
          (obj (field "type" (str "string") (field "enum" (arr (texts (sorted risk_levels))) end)))
          (field "state" (choice states) (
            field "founder_approval" (obj (field "type" (str "boolean") end)) (
              field "handoff_to" (choice owners) (
                field "actions_taken" text_list (
                  field "actions_proposed" text_list (
                    field "assumptions" text_list
                      (field "notes" (obj (field "type" (str "string") end)) end)))))))))

unfoldable pub stage1_json_schema : String → Option (List String) → Option (List String) → Value
unfolding schema_properties sorted
stage1_json_schema scenario_id owners states = obj (
    field "type" (str "object") (
      field "properties" (obj (schema_properties scenario_id owners states)) (
        field "required" (arr (texts (sorted required_fields)))
          (field "additionalProperties" (bool false) end))))
