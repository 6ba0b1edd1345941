-- ===== src/Integration.antt =====
-- Integration capabilities: app/agents/company_os_integration.py.
-- As for workflows, the check of the registry returns what it has read.
pub mod Capability
use polsia_build.Common.{
  Bool, List, Option, String, [], all, any, contains, false, if◌then◌else◌, is_empty, none, not,
  some, true, ◌&&◌, ◌==◌, ◌||◌, ◌∷◌,
}
use polsia_build.Policy.{as_bool, write_capable_modes}
use polsia_build.Raises.{
  Message, Result, format, in_set, integration_error, ok, or_raise, raise_if, text, type_error,
  ◌>>=◌, ◌>>◌,
}
use polsia_build.Value.{
  Fields, Value, as_dict, as_list, as_str, end, eq, field, get, hashable, in_list, is_null, str,
}
use polsia_build.Workflow.{as_integration, as_nonempty_strings}

abbrev pub modes : List String
modes = "disabled" ∷ "documented" ∷ "sandbox" ∷ "read_only" ∷ "write_limited" ∷ "live" ∷ []

abbrev pub read_capable_modes : List String
read_capable_modes = "sandbox" ∷ "read_only" ∷ "write_limited" ∷ "live" ∷ []

abbrev pub phases : List String
phases = "draft" ∷ "propose" ∷ "read" ∷ "execute" ∷ []

pub record Config : Type 0 where
  pub mode : String
  pub verified : Bool
  pub external_writes : Bool
  pub desired_use : List String
  pub scope : Option String

abbrev pub Registry : Type 0
Registry = List (String × Config)

pub record IntegrationDecision : Type 0 where
  pub integration : String
  pub phase : String
  pub mode : String
  pub allowed : Bool
  pub external_write : Bool
  pub reason : String

-- `xs <= ys` for the texts among any values; a value that is no text is in no set of texts.
abbrev all_in : List Value → List String → Bool
all_in vs ss = all (λ v. in_list v ss) vs

-- `set(declared) == MODES`
same_modes : List Value → Result Bool
same_modes declared =
    raise_if (any (λ v. not (hashable v)) declared) type_error (text "unhashable type")
    >> ok (all_in declared modes && all (λ m. any (λ v. eq v (str m)) declared) modes)

named : String → String → Message
named m name = format m (str name ∷ [])

-- The checks of one integration.
read_config : String → Value → Result Config
unfolding named
read_config name v = do
  raise_if (is_empty name) integration_error
      (text "each integration must have a named object config")
  d ←
      or_raise (as_dict v) integration_error
        (text "each integration must have a named object config")
  canonical ← in_set (get d "mode") modes
  raise_if (not canonical) integration_error (named "{}.mode is not canonical" name)
  -- a text, by the test above
  mode ← or_raise (as_str (get d "mode")) integration_error (text "")
  verified ←
      or_raise (as_bool (get d "verified")) integration_error
        (named "{}.verified must be a boolean" name)
  writes ←
      or_raise (as_bool (get d "external_writes")) integration_error
        (named "{}.external_writes must be a boolean" name)
  uses ←
      or_raise (as_nonempty_strings (get d "desired_use")) integration_error
        (named "{}.desired_use must be a list of non-empty strings" name)
  scope ←
      or_raise (as_integration (get d "scope")) integration_error
        (named "{}.scope must be a non-empty string" name)
  ok (record {
    mode = mode;
    verified = verified;
    external_writes = writes;
    desired_use = uses;
    scope = scope;
  })

-- `for name, config in integrations.items()`
read_configs : Fields → Result Registry
read_configs end = ok []
read_configs (field name v d) =
    read_config name v >>= λ c. read_configs d >>= λ cs. ok ((name, c) ∷ cs)

unfoldable pub read_registry : Value → Result Registry
unfolding same_modes read_configs read_config named as_nonempty_strings as_integration
read_registry registry = do
  d ← or_raise (as_dict registry) integration_error (text "integration registry must be an object")
  declared ←
      or_raise (as_list (get d "modes")) integration_error
        (text "registry.modes must declare the canonical modes")
  same ← same_modes declared
  raise_if (not same) integration_error (text "registry.modes must declare the canonical modes")
  integrations ←
      or_raise (as_dict (get d "integrations")) integration_error
        (text "registry.integrations must be an object")
  read_configs integrations

pub validate_integration_registry : Value → Result (Unit {0})
validate_integration_registry registry = read_registry registry >>= λ _. ok tt

-- `registry["integrations"].get(name)`
unfoldable pub config_of : String → Registry → Option Config
config_of name [] = none
config_of name ((k, c) ∷ r) = if name == k then some c else config_of name r

abbrev pub refused : String → String → String → String → IntegrationDecision
refused name phase mode reason = record {
  integration = name;
  phase = phase;
  mode = mode;
  allowed = false;
  external_write = false;
  reason = reason;
}

-- `configured_scope is not None and requested_scope != configured_scope`
abbrev pub wrong_scope : Option String → Value → Bool
wrong_scope none scope = false
wrong_scope (some s) scope = not (eq scope (str s))

-- What a registered integration permits.
unfoldable pub decide_config : Config → String → String → Value → Value → IntegrationDecision
decide_config c name phase requested scope =
    if not (is_null requested) && not (in_list requested c.desired_use)
    then refused name phase c.mode "requested use is not registered"
    else if wrong_scope c.scope scope
    then refused name phase c.mode "requested scope is not authorized"
    else if phase == "draft" || phase == "propose"
    then record {
      integration = name;
      phase = phase;
      mode = c.mode;
      allowed = true;
      external_write = false;
      reason = "offline preparation does not claim integration access";
    }
    else if not c.verified
    then refused name phase c.mode "integration is not verified"
    else if phase == "read"
    then (let allowed = contains read_capable_modes c.mode in
        record {
          integration = name;
          phase = phase;
          mode = c.mode;
          allowed = allowed;
          external_write = false;
          reason =
              if allowed
              then "read capability verified"
              else "integration mode does not permit reads";
        })
    else (let allowed = contains write_capable_modes c.mode && c.external_writes in
        record {
          integration = name;
          phase = phase;
          mode = c.mode;
          allowed = allowed;
          external_write = allowed;
          reason =
              if allowed
              then "write capability verified"
              else "integration mode or registry capability does not permit writes";
        })

abbrev pub decide_registered : Option Config → String → String → Value → Value → IntegrationDecision
decide_registered none name phase requested scope =
    refused name phase "unregistered" "integration is not registered"
decide_registered (some c) name phase requested scope = decide_config c name phase requested scope

-- `evaluate_integration_capability`, on a registry that has been read.
unfoldable pub evaluate_registry :
    Registry → String → String → Value → Value → Result IntegrationDecision
evaluate_registry r name phase requested scope = do
  raise_if (not (contains phases phase)) integration_error
      (format "unknown integration phase: {}" (str phase ∷ []))
  ok (decide_registered (config_of name r) name phase requested scope)

unfoldable pub evaluate_integration_capability :
    Value → String → String → Value → Value → Result IntegrationDecision
evaluate_integration_capability registry name phase requested scope =
    read_registry registry >>= λ r. evaluate_registry r name phase requested scope

unfoldable pub require_integration_capability :
    Value → String → String → Value → Value → Result IntegrationDecision
require_integration_capability registry name phase requested scope =
    evaluate_integration_capability registry name phase requested scope >>= λ d.
    raise_if (not d.allowed) integration_error (
      format "integration capability denied: {} {}: {}"
        (str d.integration ∷ str d.phase ∷ str d.reason ∷ []))
    >> ok d
