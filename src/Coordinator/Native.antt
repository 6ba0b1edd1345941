-- ===== src/Coordinator/Native.antt =====
-- The native decision of the provider: `_validate_native` and the treatment of what `decide`
-- returns or raises, of app/services/company_os_sandbox_coordinator.py. As elsewhere, the check
-- returns what it has read.
use polsia_build.Common.{
  List, Option, String, [], contains, if◌then◌else◌, is_nil, minus, none, not, some, ◌||◌, ◌∷◌,
}
use polsia_build.Contract.{risk_levels}
use polsia_build.Integration.{phases}
use polsia_build.Raises.{
  Exception, Message, Result, coordinator_error, ok, or_raise, raise_if, raised, text, ◌>>=◌, ◌>>◌,
}
use polsia_build.Value.{Fields, Value, as_dict, as_str, end, field, get, keys, null, obj, str}
use polsia_build.Value.Json.{is_json}

-- `native["integration"]`, where it is not `None`
pub record CapabilityRequest : Type 0 where
  pub name : String
  pub phase : String
  pub requested_use : Value
  pub requested_scope : Value

pub record Native : Type 0 where
  pub action : String
  pub risk_level : String
  pub state_after : String
  pub agent_type : String
  pub handoff_to : String
  pub policy_intent : Fields
  pub integration : Option CapabilityRequest

-- The canonical lists of a call.
pub record Canonical : Type 0 where
  pub agents : List String
  pub handoffs : List String
  pub actions : List String

abbrev pub native_fields : List String
native_fields =
    "action" ∷ "risk_level" ∷ "state_after" ∷ "agent_type" ∷ "handoff_to" ∷ "policy_intent"
    ∷ "integration" ∷ []

abbrev refusal : String → Exception
refusal m = raised coordinator_error (text m)

text_field : Fields → String → Result String
text_field d k =
    or_raise (as_str (get d k)) coordinator_error
      (text "native action, owner, risk, and state must be strings")

read_request_fields : Fields → Option CapabilityRequest
read_request_fields d = elim (as_str (get d "name")) [
  | none ↦ none
  | some name ↦ elim (as_str (get d "phase")) [
    | none ↦ none
    | some phase ↦
        if contains phases phase
        then some (record {
          name = name;
          phase = phase;
          requested_use = get d "use";
          requested_scope = get d "scope";
        })
        else none
  ]
]

-- `None`, or a dict with a name and a phase
read_integration : Value → Result (Option CapabilityRequest)
unfolding read_request_fields
read_integration null = ok none
read_integration v =
    or_raise (as_dict v) coordinator_error (text "native integration request is invalid") >>= λ d.
    or_raise (read_request_fields d) coordinator_error
      (text "native integration request is invalid")
    >>= λ r. ok (some r)

unfoldable pub read_native : Fields → List String → Canonical → Result Native
unfolding text_field read_integration
read_native d states c = do
  raise_if
      (not (is_nil (minus native_fields (keys d))) || not (is_nil (minus (keys d) native_fields)))
      coordinator_error (text "native decision has missing or unexpected fields")
  action ← text_field d "action"
  agent ← text_field d "agent_type"
  handoff ← text_field d "handoff_to"
  risk ← text_field d "risk_level"
  state ← text_field d "state_after"
  raise_if
      (not (contains c.actions action)
        || (not (contains c.agents agent) || not (contains c.handoffs handoff)))
      coordinator_error (text "native action, agent, or handoff is not canonical")
  raise_if (not (contains risk_levels risk) || not (contains states state)) coordinator_error
      (text "native risk or workflow state is not canonical")
  intent ←
      or_raise (as_dict (get d "policy_intent")) coordinator_error
        (text "native policy intent is not an object")
  integration ← read_integration (get d "integration")
  ok (record {
    action = action;
    risk_level = risk;
    state_after = state;
    agent_type = agent;
    handoff_to = handoff;
    policy_intent = intent;
    integration = integration;
  })

-- What calling the provider comes to: a value, or an exception with its class, its message and its
-- `raw_output`, where it has one.
pub data Provided : Type 0 where
  returned : Value → Provided
  failed : (class message : String) (raw_output : Option Value) → Provided

pub data Category : Type 0 where
  provider contract transition policy integration approval : Category

-- Why the action is denied.
pub record Denial : Type 0 where
  pub category : Category
  pub reason : Message

-- The native evidence: what the provider decided, or how it failed.
pub record Evidence : Type 0 where
  pub native : Option Fields
  pub failure : Value
  pub denial : Option Denial

abbrev deny_with : Category → String → Option Denial
deny_with c m = some (record { category = c; reason = text m })

abbrev pub native_value : Option Fields → Value
native_value none = null
native_value (some d) = obj d

module _ (repr : Value → String) where
  abbrev dumpable : Value → Value
  dumpable v = if is_json v then v else str (repr v)

  raw_fields : Option Value → Fields
  raw_fields none = end
  raw_fields (some null) = end
  raw_fields (some v) = field "raw_output" (dumpable v) end

  unreadable : Value → String → Evidence
  unreadable raw m = record {
    native = none;
    failure = obj (field "type" (str "contract") (field "raw_output" raw end));
    denial = deny_with Category.contract m;
  }

  unfoldable pub read_provided : Provided → Evidence
  unfolding raw_fields unreadable
  read_provided (failed class message raw) = record {
    native = none;
    failure = obj (field "type" (str class) (field "message" (str message) (raw_fields raw)));
    denial = deny_with Category.provider "provider failed before a native decision";
  }
  read_provided (returned (obj d)) =
      if is_json (obj d)
      then record { native = some d; failure = null; denial = none }
      else unreadable (str (repr (obj d))) "native output is not JSON compatible"
  read_provided (returned (str s)) = unreadable (str s) "native output is not an object"
  read_provided (returned v) = unreadable (str (repr v)) "native output is not an object"
