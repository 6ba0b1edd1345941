-- ===== src/Contract.antt =====
-- The strict decision contract of Stage 1 runs: app/agents/company_os_contract.py.
-- `json.loads` is a parameter of `parse_stage1_decision`.
pub mod Schema
pub mod Blank
pub mod Errors
pub mod Decision
pub mod JsonSchema
pub mod Keywords
pub mod Conformance
mod Examples
use polsia_build.Contract.Blank.{is_blank}
use polsia_build.Common.{
  Bool, List, Option, String, [], false, is_nil, is_some, minus, none, not, some, sorted, true,
  ◌||◌, ◌∷◌,
}
use polsia_build.Raises.{
  Exception, Result, contract_error, err, format, in_set, item, ok, or_raise, raise_if, raised,
  text, ◌>>=◌, ◌>>◌,
}
use polsia_build.Value.{
  Fields, Value, arr, as_dict, as_strings, eq, find, in_list, is_bool, keys, str, str_and, texts,
}

abbrev pub required_fields : List String
required_fields =
    "scenario_id" ∷ "action" ∷ "risk_level" ∷ "state" ∷ "founder_approval" ∷ "handoff_to"
    ∷ "actions_taken" ∷ "actions_proposed" ∷ "assumptions" ∷ []

abbrev pub optional_fields : List String
optional_fields = "notes" ∷ []

abbrev pub risk_levels : List String
risk_levels = "GREEN" ∷ "YELLOW" ∷ "RED" ∷ []

-- `xs and v not in xs`, where `xs` is a list of texts or `None`.
abbrev pub outside : Option (List String) → Value → Bool
outside none v = false
outside (some []) v = false
outside (some (s ∷ ss)) v = not (in_list v (s ∷ ss))

unfoldable pub require_string : Value → String → Bool → Result (Unit {0})
require_string v name allow_empty =
    raise_if (not (str_and (λ s. allow_empty || not (is_blank s)) v)) contract_error
      (format "{} must be a non-empty string" (str name ∷ []))

unfoldable pub require_string_list : Value → String → Result (Unit {0})
require_string_list v name =
    raise_if (not (is_some (as_strings v))) contract_error
      (format "{} must be a list of strings" (str name ∷ []))

-- `for field in (...): _require_string_list(payload[field], field)`
unfoldable pub require_string_lists : Fields → List String → Result (Unit {0})
unfolding require_string_list
require_string_lists d [] = ok tt
require_string_lists d (name ∷ names) =
    let rest = require_string_lists d names in do v ← item d name; require_string_list v name; rest

-- `if "notes" in payload: ...`
unfoldable pub check_notes : Option Value → Result (Unit {0})
unfolding require_string
check_notes none = ok tt
check_notes (some v) = require_string v "notes" true

-- Which fields there are.
unfoldable pub check_keys : Fields → Result (Unit {0})
check_keys d = do
  let missing = minus required_fields (keys d)
  raise_if (not (is_nil missing)) contract_error
      (format "missing required fields: {}" (arr (texts (sorted missing)) ∷ []))
  let unexpected = minus (minus (keys d) required_fields) optional_fields
  raise_if (not (is_nil unexpected)) contract_error
      (format "unexpected fields: {}" (arr (texts (sorted unexpected)) ∷ []))

unfoldable pub check_texts : Fields → String → Result (Unit {0})
unfolding require_string
check_texts d scenario_id = do
  sid ← item d "scenario_id"
  raise_if (not (eq sid (str scenario_id))) contract_error
      (format "scenario_id mismatch: expected {}, got {}" (str scenario_id ∷ sid ∷ []))
  require_string sid "scenario_id" false
  action ← item d "action"
  require_string action "action" false
  state ← item d "state"
  require_string state "state" false
  owner ← item d "handoff_to"
  require_string owner "handoff_to" false

unfoldable pub check_choices :
    Fields → Option (List String) → Option (List String) → Result (Unit {0})
check_choices d handoff_owners workflow_states = do
  owner ← item d "handoff_to"
  raise_if (outside handoff_owners owner) contract_error
      (text "handoff_to is not a canonical Company OS owner")
  state ← item d "state"
  raise_if (outside workflow_states state) contract_error
      (text "state is not a canonical Company OS workflow state")
  risk ← item d "risk_level"
  known ← in_set risk risk_levels
  raise_if (not known) contract_error (text "risk_level must be GREEN, YELLOW, or RED")
  approval ← item d "founder_approval"
  raise_if (not (is_bool approval)) contract_error (text "founder_approval must be a boolean")

unfoldable pub check_lists : Fields → Result (Unit {0})
unfolding require_string_lists check_notes
check_lists d = do
  require_string_lists d ("actions_taken" ∷ "actions_proposed" ∷ "assumptions" ∷ [])
  check_notes (find "notes" d)

-- The checks of a payload that is a dict, in the order of the source.
unfoldable pub check_fields :
    Fields → String → Option (List String) → Option (List String) → Result (Unit {0})
check_fields d scenario_id handoff_owners workflow_states = do
  check_keys d
  check_texts d scenario_id
  check_choices d handoff_owners workflow_states
  check_lists d

unfoldable pub validate_stage1_decision :
    Value → String → Option (List String) → Option (List String) → Result Value
validate_stage1_decision payload scenario_id handoff_owners workflow_states = do
  d ← or_raise (as_dict payload) contract_error (text "Stage 1 output must be a JSON object")
  check_fields d scenario_id handoff_owners workflow_states
  ok payload

-- `exc.raw_output = raw; raise`, for a contract error; any other exception passes.
unfoldable pub with_raw : String → Exception → Exception
with_raw raw e = elim e.kind [ contract_error ↦ record e { raw_output = str raw } | _ ↦ e ]

unfoldable pub keep_raw : String → Result Value → Result Value
unfolding with_raw
keep_raw raw (ok v) = ok v
keep_raw raw (err e) = err (with_raw raw e)

module _ (loads : String → Option Value) where
  unfoldable pub parse_stage1_decision : String → String → Result Value
  unfolding keep_raw
  parse_stage1_decision raw scenario_id = elim (loads raw) [
    | none ↦ err (with_raw raw (raised contract_error (text "Stage 1 output must be clean JSON")))
    | some payload ↦ keep_raw raw (validate_stage1_decision payload scenario_id none none)
  ]
