-- ===== src/Workflow.antt =====
-- Workflow definitions and their transitions: app/agents/company_os_workflow.py.
-- The source checks a dict and then reads it again. Here the check returns what it has read, and
-- the later steps use that: the dict does not change in between.
pub mod WellFormed
pub mod Canonical
use polsia_build.Common.{
  Bool, List, Option, String, [], any, contains, dedup, distinct, first, if◌then◌else◌, is_empty,
  is_nil, minus, none, not, some, sorted, suc, ℕ, ◌&&◌, ◌==◌, ◌∷◌,
}
use polsia_build.Contract.{risk_levels}
use polsia_build.Raises.{
  Message, Result, format, in_set, ok, or_raise, raise_if, text, workflow_error, ◌>>=◌, ◌>>◌,
}
use polsia_build.Value.{
  Fields, Value, arr, as_dict, as_list, as_str, eq, get, get_or, in_list, int, is_null, nil, null,
  str, texts,
}

pub record Transition : Type 0 where
  pub source : String
  pub target : String
  pub action : String
  pub risk_level : String
  pub requirements : List String
  pub integration : Option String

pub record Definition : Type 0 where
  pub id : String
  pub states : List String
  pub terminal_states : List String
  pub transitions : List Transition

pub record WorkflowTransition : Type 0 where
  pub workflow_id : String
  pub from_state : String
  pub to_state : String
  pub action : String
  pub risk_level : String
  pub requirements : List String
  pub integration : Option String

-- `isinstance(v, str) and v`, as an option
abbrev pub as_nonempty : Value → Option String
as_nonempty (str s) = if is_empty s then none else some s
as_nonempty _ = none

abbrev pub nonempty_strings : List Value → Option (List String)
nonempty_strings [] = some []
nonempty_strings (v ∷ vs) =
    let rest = nonempty_strings vs in
    elim (as_nonempty v) [
      | none ↦ none
      | some s ↦ elim rest [ none ↦ none | some ss ↦ some (s ∷ ss) ]
    ]

unfoldable pub as_nonempty_strings : Value → Option (List String)
as_nonempty_strings v = elim (as_list v) [ none ↦ none | some vs ↦ nonempty_strings vs ]

-- `_string_list`
string_list : Value → Message → Result (List String)
unfolding as_nonempty_strings
string_list v m = or_raise (as_nonempty_strings v) workflow_error m

-- `v in {...}`, with the text that it is
state_in : Value → List String → Result (Option String)
state_in v states = do member ← in_set v states; ok (if member then as_str v else none)

abbrev pub same_key : Transition → Transition → Bool
same_key t u = t.source == u.source && (t.action == u.action && t.target == u.target)

abbrev at_index : String → ℕ → Message
at_index m index = format m (int index ∷ [])

-- `None`, or a non-empty text
unfoldable pub as_integration : Value → Option (Option String)
as_integration null = some none
as_integration v = elim (as_nonempty v) [ none ↦ none | some s ↦ some (some s) ]

-- The body of the loop over `transitions`, for a transition that is a dict.
read_fields : List String → List String → ℕ → Fields → Result Transition
unfolding state_in string_list as_integration
read_fields states terminals index d = do
  known_source ← state_in (get d "from") states
  source ←
      or_raise known_source workflow_error
        (at_index "transition {} references an unregistered state" index)
  known_target ← state_in (get d "to") states
  target ←
      or_raise known_target workflow_error
        (at_index "transition {} references an unregistered state" index)
  raise_if (contains terminals source) workflow_error
      (format "terminal state {} cannot have outgoing transitions" (str source ∷ []))
  action ←
      or_raise (as_nonempty (get d "action")) workflow_error
        (at_index "transition {} action must be a non-empty string" index)
  known_risk ← state_in (get d "risk_level") risk_levels
  risk ←
      or_raise known_risk workflow_error
        (at_index "transition {} risk_level must be GREEN, YELLOW, or RED" index)
  ok (record {
    source = source;
    target = target;
    action = action;
    risk_level = risk;
    requirements = [];
    integration = none;
  })

-- What is read after the test for duplicates.
read_rest : ℕ → Fields → Transition → Result Transition
unfolding string_list as_integration
read_rest index d t = do
  requirements ←
      string_list (get_or d "requirements" (arr nil))
        (at_index "transition {} requirements must be a list of non-empty strings" index)
  integration ←
      or_raise (as_integration (get d "integration")) workflow_error
        (at_index "transition {} integration must be a non-empty string" index)
  ok (record t { requirements = requirements; integration = integration })

read_transition : List String → List String → ℕ → List Transition → Value → Result Transition
unfolding read_fields read_rest
read_transition states terminals index seen v = do
  d ← or_raise (as_dict v) workflow_error (at_index "transition {} must be an object" index)
  t ← read_fields states terminals index d
  raise_if (any (same_key t) seen) workflow_error (
      format "duplicate transition: ({}, {}, {})" (str t.source ∷ str t.action ∷ str t.target ∷ []))
  read_rest index d t

-- `for index, transition in enumerate(transitions)`: `seen` holds what was read before.
read_transitions :
    List String → List String → ℕ → List Transition → List Value → Result (List Transition)
read_transitions states terminals index seen [] = ok []
read_transitions states terminals index seen (v ∷ vs) =
    read_transition states terminals index seen v >>= λ t.
    read_transitions states terminals (suc index) (t ∷ seen) vs >>= λ ts. ok (t ∷ ts)

unfoldable pub read_workflow : Value → Result Definition
unfolding string_list read_transitions read_transition read_fields read_rest state_in as_integration
    as_nonempty_strings
read_workflow workflow = do
  w ← or_raise (as_dict workflow) workflow_error (text "workflow must be an object")
  id ←
      or_raise (as_nonempty (get w "id")) workflow_error
        (text "workflow.id must be a non-empty string")
  states ← string_list (get w "states") (text "workflow.states must be a list of non-empty strings")
  raise_if (not (distinct states)) workflow_error (text "workflow.states contains duplicates")
  terminals ←
      string_list (get_or w "terminal_states" (arr nil))
        (text "workflow.terminal_states must be a list of non-empty strings")
  let unknown = minus (dedup terminals) states
  raise_if (not (is_nil unknown)) workflow_error
      (format "terminal states are not registered: {}" (arr (texts (sorted unknown)) ∷ []))
  listed ←
      or_raise (as_list (get w "transitions")) workflow_error
        (text "workflow.transitions must be a list")
  transitions ← read_transitions states terminals 0 [] listed
  ok (record { id = id; states = states; terminal_states = terminals; transitions = transitions })

pub validate_workflow_definition : Value → Result (Unit {0})
unfolding read_workflow
validate_workflow_definition workflow = read_workflow workflow >>= λ _. ok tt

-- `transition["from"] == current_state and ...`
unfoldable pub matches : Value → Value → Value → Transition → Bool
matches current action proposed t =
    eq (str t.source) current && (eq (str t.action) action && eq (str t.target) proposed)

-- `require_valid_transition`, on a definition that has been read.
unfoldable pub find_transition :
    Definition → Value → Value → Value → Value → Result WorkflowTransition
find_transition w current action proposed risk = do
  current_known ← in_set current w.states
  raise_if (not current_known) workflow_error
      (format "current state is not registered: {}" (current ∷ []))
  proposed_known ← in_set proposed w.states
  raise_if (not proposed_known) workflow_error
      (format "proposed state is not registered: {}" (proposed ∷ []))
  raise_if (in_list current w.terminal_states) workflow_error
      (format "terminal state cannot transition: {}" (current ∷ []))
  t ←
      or_raise (first (matches current action proposed) w.transitions) workflow_error
        (format "transition is not registered: {} --{}--> {}" (current ∷ action ∷ proposed ∷ []))
  raise_if (not (is_null risk) && not (eq risk (str t.risk_level))) workflow_error
      (format "transition risk mismatch: expected {}, got {}" (str t.risk_level ∷ risk ∷ []))
  ok (record {
    workflow_id = w.id;
    from_state = t.source;
    to_state = t.target;
    action = t.action;
    risk_level = t.risk_level;
    requirements = t.requirements;
    integration = t.integration;
  })

unfoldable pub require_valid_transition :
    Value → Value → Value → Value → Value → Result WorkflowTransition
require_valid_transition workflow current action proposed risk =
    read_workflow workflow >>= λ w. find_transition w current action proposed risk
