-- ===== src/Agent/Provider.antt =====
-- The decision mode of `BasePolsiaAgent` in app/agents/base_agent.py: `run_company_os_decision`,
-- `_run_claude_structured` and `call_claude` as it is used there.
use polsia_build.Common.{
  Bool, List, Option, String, [], if◌then◌else◌, is_empty, none, not, some, ◌==◌, ◌∷◌,
}
use polsia_build.Agent.Prompt.{decision_prompt}
use polsia_build.Approvals.Resume.{found}
use polsia_build.Contract.{keep_raw, parse_stage1_decision, validate_stage1_decision}
use polsia_build.Contract.Schema.{stage1_json_schema}
use polsia_build.Raises.{
  Exception, Result, attribute_error, contract_error, err, format, item, ok, or_raise, raise_if,
  raised, text, type_error, value_error, ◌>>=◌, ◌>>◌,
}
use polsia_build.Value.{Fields, Value, as_dict, as_str, end, get, null, obj, str, truthy}
use polsia_build.Workflow.{as_nonempty, as_nonempty_strings}

-- How a command ends: with its output, with an exit status that is an error, or not started at all.
pub data Process : Type 0 where
  completed : (stdout : String) → Process
  exited : (stdout stderr : String) → Process
  unstarted : Exception → Process

-- The environment, the settings, the `json` library and the commands; and what the agent's class sets.
pub record Host : Type 0 where
  -- `os.getenv("CLAUDE_CLI_MOCK")` and `CLAUDE_CLI_MOCK_RESPONSE`, with its default
  pub mocked : Bool
  pub mock_response : String
  pub llm_provider : String
  pub structured_output_available : Bool
  pub loads : String → Option Value
  pub dumps : Value → String
  pub dumps_indented : Value → String
  pub dumps_compact : Value → String
  pub run : List String → Process
  pub agent_type : String
  pub company_os_instructions : String

abbrev contract_failure : String → Value → Exception
contract_failure m raw = record { kind = contract_error; message = text m; raw_output = raw }

-- `d.get(k)` on a value that may be no dict
abbrev get_of : Value → String → Result Value
get_of v k = elim (as_dict v) [
  | none ↦ err (raised attribute_error (text "get"))
  | some d ↦ ok (get d k)
]

-- `v or {}`
abbrev or_empty : Value → Value
or_empty v = if truthy v then v else obj end

-- `None`, or a list of texts that are not empty.
unfoldable pub read_words : String → Value → Result (Option (List String))
read_words name null = ok none
read_words name v = elim (as_nonempty_strings v) [
  | some (s ∷ ss) ↦ ok (some (s ∷ ss))
  | _ ↦ err (
      raised value_error
        (format "company_os_vocabulary.{} must be a non-empty list of strings" (str name ∷ [])))
]

-- What the task says of the decision.
pub record Assignment : Type 0 where
  pub scenario_id : String
  pub handoff_owners : Value
  pub workflow_states : Value
  pub owners : Option (List String)
  pub states : Option (List String)

unfoldable pub read_assignment : Fields → Result Assignment
unfolding read_words
read_assignment task = do
  let metadata = or_empty (get task "task_metadata")
  scenario ← get_of metadata "scenario_id"
  scenario_id ←
      or_raise (as_nonempty scenario) value_error
        (text "Company OS Stage 1 mode requires task_metadata.scenario_id")
  found ← get_of metadata "company_os_vocabulary"
  let vocabulary = or_empty found
  handoff_owners ← get_of vocabulary "handoff_owners"
  workflow_states ← get_of vocabulary "workflow_states"
  owners ← read_words "handoff_owners" handoff_owners
  states ← read_words "workflow_states" workflow_states
  ok (record {
    scenario_id = scenario_id;
    handoff_owners = handoff_owners;
    workflow_states = workflow_states;
    owners = owners;
    states = states;
  })

module _ (host : Host) where
  abbrev pub command : String → Value → List String
  command prompt schema =
      "claude"
      ∷ "-p"
      ∷ prompt
      ∷ "--output-format"
      ∷ "json"
      ∷ "--json-schema"
      ∷ host.dumps_compact schema
      ∷ []

  -- The answer in the wrapper that the command prints.
  unfoldable pub read_envelope : String → Result (Fields × String)
  read_envelope raw = elim (host.loads raw) [
    | none ↦ err (contract_failure "Claude structured output wrapper was not JSON" (str raw))
    | some envelope ↦ get_of envelope "structured_output" >>= λ payload. elim (as_dict payload) [
      | none ↦ err (contract_failure "Claude result did not contain structured_output" (str raw))
      | some d ↦ ok (d, raw)
    ]
  ]

  unfoldable pub run_claude_structured : String → Value → Result (Fields × String)
  unfolding read_envelope
  run_claude_structured prompt schema =
      if host.structured_output_available
      then elim (host.run (command prompt schema)) [
        | completed stdout ↦ read_envelope stdout
        | exited stdout stderr ↦ err (
            contract_failure "Claude structured output failed"
              (str (if is_empty stdout then stderr else stdout)))
        | unstarted e ↦ err e
      ]
      else err (raised contract_error (text "installed Claude CLI does not support --json-schema"))

  -- `json.loads(raw)["result"]` of the answer that is put in for the provider's
  unfoldable pub mock_result : Result Value
  mock_result = or_raise (host.loads host.mock_response) value_error (text "not JSON") >>= λ v.
      elim (as_dict v) [
        | some d ↦ item d "result"
        | none ↦ err (raised type_error (text "indices must be integers or slices"))
      ]

  -- The branch for tests, which takes a text for the provider's answer.
  unfoldable pub decide_mocked : Assignment → Result Value
  unfolding mock_result parse_stage1_decision
  decide_mocked a = do
    raw ← mock_result
    elim (as_str raw) [
      | none ↦ err (contract_failure "Stage 1 output must be clean JSON" raw)
      | some answer ↦ parse_stage1_decision host.loads answer a.scenario_id
    ]

  unfoldable pub decide_structured : Assignment → Value → Value → Result Value
  unfolding run_claude_structured stage1_json_schema keep_raw validate_stage1_decision
  decide_structured a task context = do
    raise_if (not (host.llm_provider == "claude")) contract_error (
        format "structured Company OS contract mode is unavailable for provider {}"
          (str host.llm_provider ∷ []))
    (d, raw) ←
        run_claude_structured
          (decision_prompt host.dumps host.dumps_indented host.agent_type
            host.company_os_instructions a.scenario_id a.handoff_owners a.workflow_states task
            context)
          (stage1_json_schema a.scenario_id a.owners a.states)
    keep_raw raw (validate_stage1_decision (obj d) a.scenario_id a.owners a.states)

  unfoldable pub run_company_os_decision : Fields → Value → Result Value
  unfolding read_assignment decide_mocked decide_structured
  run_company_os_decision task context = read_assignment task >>= λ a.
      if host.mocked then decide_mocked a else decide_structured a (obj task) context
