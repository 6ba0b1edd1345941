-- ===== src/Coordinator/Ruling.antt =====
-- Whether the decision may go on: the checks of `coordinate_sandbox_action` between the native
-- decision and the approval, in their order. A denial keeps what was found before it.
use polsia_build.Common.{
  Bool, List, Option, String, [], false, if◌then◌else◌, is_nil, is_none, minus, none, not, some,
  true, ◌&&◌, ◌==◌, ◌||◌,
}
use polsia_build.Coordinator.Native.{CapabilityRequest, Category, Denial, Native}
use polsia_build.Integration.{IntegrationDecision, Registry, evaluate_registry}
use polsia_build.Policy.{Decimals, PolicyDecision, block, evaluate_action_policy}
use polsia_build.Raises.{
  Exception, Message, Result, err, join, ok, policy_error, text, type_error, value_error, ◌>>=◌,
}
use polsia_build.Value.{
  Fields, Value, bool, eq, get, is_true, null, obj, optional, pop, set_item, str, truthy,
}
use polsia_build.Workflow.{Definition, WorkflowTransition, find_transition}

pub record Ruling : Type 0 where
  pub denial : Option Denial
  pub transition : Option WorkflowTransition
  pub decision : Option PolicyDecision
  pub integration : Option IntegrationDecision

abbrev pub undecided : Ruling
undecided = record { denial = none; transition = none; decision = none; integration = none }

abbrev pub deny : Ruling → Category → Message → Ruling
deny r c m = record r { denial = some (record { category = c; reason = m }) }

-- What the checks read, the native decision aside.
pub record Frozen : Type 0 where
  pub instance_state : Value
  pub definition : Definition
  pub policy : Value
  pub registry : Registry
  pub input : Fields
  pub verified_requirements : List String

-- The intent that is evaluated: the model's approval and its claims of authority and consent are
-- replaced by what the input shows.
abbrev set_if : Bool → String → Bool → Fields → Fields
set_if required k verified d = if required then set_item d k (bool verified) else d

unfoldable pub trusted_intent : Fields → Fields → Fields
trusted_intent intent input =
    let i = pop intent "founder_approval_status" in
    let j =
      set_if (truthy (get i "requires_authority")) "authority_verified"
        (is_true (get input "authority_verified")) i in
    set_if (truthy (get j "requires_consent")) "consent_verified"
      (is_true (get input "consent_verified")) j

-- `except (CompanyOSPolicyError, TypeError, ValueError)`
abbrev pub is_handled : Exception → Bool
is_handled e = elim e.kind [
  | policy_error ↦ true
  | type_error ↦ true
  | value_error ↦ true
  | _ ↦ false
]

abbrev requirements_of : Option WorkflowTransition → List String
requirements_of none = []
requirements_of (some t) = t.requirements

abbrev integration_of : WorkflowTransition → Value
integration_of t = optional t.integration

abbrev pub request_name : Option CapabilityRequest → Value
request_name none = null
request_name (some q) = str q.name

abbrev pub is_phase : String → Option CapabilityRequest → Bool
is_phase s none = false
is_phase s (some q) = q.phase == s

-- The transition that a change of state needs.
unfoldable pub rule_transition : Frozen → Native → Ruling
rule_transition f n =
    if eq (str n.state_after) f.instance_state
    then undecided
    else (elim (find_transition f.definition f.instance_state (str n.action) (str n.state_after)
        (str n.risk_level)) [
          | ok t ↦ record undecided { transition = some t }
          | err e ↦ deny undecided Category.transition e.message
        ])

-- The decision of the policy, and its block.
abbrev decided : Ruling → PolicyDecision → Ruling
decided r d =
    let r' = record r { decision = some d } in
    elim d.disposition [ block ↦ deny r' Category.policy (join "; " d.reasons) | _ ↦ r' ]

abbrev handled : Ruling → Exception → Result Ruling
handled r e = if is_handled e then ok (deny r Category.policy e.message) else err e

module _ (lib : Decimals) where
  unfoldable pub rule_policy : Frozen → Native → Ruling → Result Ruling
  rule_policy f n r =
      let intent = trusted_intent n.policy_intent f.input in
      let missing = minus (requirements_of r.transition) f.verified_requirements in
      if not (is_nil missing)
      then ok (deny r Category.transition (text "canonical transition requirements lack evidence"))
      else if not (eq (get intent "action_type") (str n.action))
          || not (eq (get intent "risk_level") (str n.risk_level))
      then ok
          (deny r Category.contract (text "policy intent does not match native action and risk"))
      else (elim (evaluate_action_policy lib (obj intent) f.policy) [
        | ok d ↦ ok (decided r d)
        | err e ↦ handled r e
      ])

-- A sandbox may read and execute in sandbox mode only, and nothing is done in live mode.
abbrev pub unfit : IntegrationDecision → String → Bool
unfit d phase =
    not d.allowed
    || ((phase == "read" || phase == "execute") && not (d.mode == "sandbox") || d.mode == "live")

unfoldable pub rule_capability : Native → CapabilityRequest → IntegrationDecision → Ruling → Ruling
rule_capability n q d r =
    let r' = record r { integration = some d } in
    if unfit d q.phase
    then deny r' Category.integration (text "integration is not verified for sandbox execution")
    else if q.phase == "execute"
        && (not (truthy (get n.policy_intent "external_write"))
            || not (eq (get n.policy_intent "integration_mode") (str d.mode)))
    then deny r' Category.contract (text "execution intent does not match the sandbox capability")
    else r'

unfoldable pub rule_request : Frozen → Native → Option CapabilityRequest → Ruling → Ruling
unfolding rule_capability
rule_request f n none r = r
rule_request f n (some q) r =
    elim (evaluate_registry f.registry q.name q.phase q.requested_use q.requested_scope) [
      | ok d ↦ rule_capability n q d r
      | err e ↦ deny r Category.integration e.message
    ]

-- The transition's integration is the one that is requested, for execution.
unfoldable pub rule_binding : Native → Option WorkflowTransition → Ruling → Ruling
rule_binding n none r = r
rule_binding n (some t) r =
    if not (eq (integration_of t) (request_name n.integration))
    then deny r Category.transition
        (text "transition integration does not match the canonical workflow")
    else if truthy (integration_of t) && not (is_phase "execute" n.integration)
    then deny r Category.transition (text "integration transition requires sandbox execution")
    else r

unfoldable pub rule_write : Native → Ruling → Ruling
rule_write n r =
    if truthy (get n.policy_intent "external_write")
      && (is_none r.integration || not (is_phase "execute" n.integration))
    then deny r Category.integration (text "write requires registered sandbox execution")
    else r

-- `if denial is None: ...`
abbrev pub unless_denied : (Ruling → Ruling) → Ruling → Ruling
unless_denied f r = elim r.denial [ none ↦ f r | some _ ↦ r ]

-- The checks after the policy, in their order.
unfoldable pub rule_later : Frozen → Native → Ruling → Ruling
rule_later f n p = unless_denied (rule_write n) (
    unless_denied (λ s. rule_binding n s.transition s)
      (unless_denied (rule_request f n n.integration) p))

module _ (lib : Decimals) where
  unfoldable pub rule_from : Frozen → Native → Ruling → Result Ruling
  unfolding rule_later
  rule_from f n r = elim r.denial [
    | some _ ↦ ok r
    | none ↦ rule_policy lib f n r >>= λ p. ok (rule_later f n p)
  ]

  unfoldable pub rule_native : Frozen → Native → Result Ruling
  unfolding rule_from
  rule_native f n = rule_from f n (rule_transition f n)
